-- ===== src/Secrets/Staging.antt =====
-- `StageFile`: where a secret is written, and what stays as it was.

use bootup.Verify.{Bytes}
use bootup.Policy.Loading.Writes.{KeptOrMade, as_before, make_all-KeptOrMade}
use bootup.Policy.Loading.{CacheWrite, Disk, make_all}
use bootup.Secrets.{
  SecretError, Store, dir_required, entry_of, name_not_file, secret_missing, stage_file, stage_name,
  write_secret,
}
use bootup.Common.{
  Bool-cases, Option, Option-cases, String, ap, arith, err, false, inl, inr, not, some, sym, true,
  ◌==◌, ◌||◌, ◌∙◌, ◌≡◌, ◌⊎◌,
}
use bootup.Text.{base_name, has_rune, is_blank, join_path}

module _ (w : CacheWrite) (dir path : String) (content : Bytes) (disk : Disk) where
  write_secret-other :
      (at : String)
      → (w.temp_path == at) ≡ false
      → (path == at) ≡ false
      → (write_secret w dir path content disk).1 at ≡ make_all w dir disk at
  unfolding write_secret
  write_secret-other at apart other = ground (arith, apart, other)

  write_secret-err :
      (at : String) (e : SecretError)
      → (w.temp_path == at) ≡ false
      → (write_secret w dir path content disk).0 ≡ err e
      → (write_secret w dir path content disk).1 at ≡ make_all w dir disk at
  unfolding write_secret
  write_secret-err at e apart h = ground (arith, apart, h)

-- What a staged secret is: the entry of the store stands at the path that is returned, which is
-- the directory joined with a file name.
pub record IsStagedFile (store : Option Store) (id dir name path : String) (after : Disk)
    : Type 0 where
  pub content : Bytes
  pub entry : entry_of store id ≡ some content
  pub target : join_path dir (stage_name id name) ≡ path
  pub file_name : base_name (stage_name id name) ≡ stage_name id name
  pub no_slash : has_rune b'/' (stage_name id name) ≡ false
  pub written : after path ≡ some (some content)

module _ (w : CacheWrite) (store : Option Store) (id dir name : String) (disk : Disk) where
  -- where a secret is not refused, its write is what is done
  stage_file-cases :
      ((e : SecretError) × (stage_file w store id dir name disk ≡ (err e, disk)))
      ⊎ ((content : Bytes) × (entry_of store id ≡ some content)
          × ((base_name (stage_name id name) == stage_name id name) ≡ true)
          × (has_rune b'/' (stage_name id name) ≡ false)
          × (stage_file w store id dir name disk
              ≡ write_secret w dir (join_path dir (stage_name id name)) content disk))
  unfolding stage_file
  stage_file-cases = elim (Option-cases (entry_of store id)) [
    | inl absent ↦ inl (secret_missing id, ground (arith, absent))
    | inr (content, found) ↦
        let file = stage_name id name in
        let bad = not (base_name file == file) || has_rune b'/' file || has_rune b'\\' file in
        elim (Bool-cases bad) [
          | inl refused ↦ inl (name_not_file file, ground (arith, found, refused))
          | inr accepted ↦ elim (Bool-cases (is_blank dir)) [
            | inl blank ↦ inl (dir_required, ground (arith, found, accepted, blank))
            | inr full ↦ inr (
              content,
              found,
              ground (arith, accepted),
              ground (arith, accepted),
              ground (arith, found, accepted, full),
            )
          ]
        ]
  ]

  -- Staging leaves every path but the temporary one and the target as it was, and where it fails,
  -- every path but the temporary one; except that on both a directory comes to be on the way to the
  -- staging directory, that one included, where nothing was.
  pub stage_file-kept :
      (at : String)
      → (w.temp_path == at) ≡ false
      → ((join_path dir (stage_name id name) == at) ≡ false)
        ⊎ ((e : SecretError) × ((stage_file w store id dir name disk).0 ≡ err e))
      → KeptOrMade dir disk (stage_file w store id dir name disk).1 at
  stage_file-kept at apart why = elim stage_file-cases [
    | inl (e, refused) ↦ as_before (ap (λ r. r.1 at) refused)
    | inr (content, found, _, _, same) ↦
        let path = join_path dir (stage_name id name) in
        make_all-KeptOrMade w dir at disk _ (
          ap (λ r. r.1 at) same ∙ elim why [
            | inl other ↦ write_secret-other w dir path content disk at apart other
            | inr (e, failed) ↦
                write_secret-err w dir path content disk at e apart
                  (ap (λ r. r.0) (sym same) ∙ failed)
          ])
  ]
