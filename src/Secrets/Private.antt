-- ===== src/Secrets/Private.antt =====
-- What a loaded store holds, and what that means for the providers that are handed references.
use Prim.Native.Nat.{◌%◌}
use bootup.Text.{has_margin, has_prefix, is_empty, trim_space}
use bootup.Text.Order.Laws.{contains-sort_texts}
use bootup.Verify.{Bytes}
use bootup.Provider.{SecretInput, SecretRef, path_spaces}
use bootup.Provider.SecretRefs.{resolve_secret_refs}
use bootup.Provider.SecretRefs.Laws.{IsAvailable, resolve_secret_refs-AreResolved}
use bootup.Secrets.{
  FileInfo, Files, Options, Selection, Store, check_ids, duplicate_input, has, id_required, ids,
  load, path_not_absolute, path_spaces, read_entries, read_secret_file, secret_store, size_limit,
}
use bootup.Common.{
  >>-eq-ok, >>=-eq-ok, All, AllEntries, Distinct, Fresh, List, Option, Option-cases, String, [], ap,
  arith, contains, eqb→eq, inl, inr, keys, length, lookup, lookup-AllEntries, lookup-some, none,
  not, ok, push_all, refl, refuse_if, refuse_if-eq-ok, some, true, ℕ, ◌∙◌, ◌∷◌, ◌≡◌, ◌≤◌,
}

abbrev pub selection_ids : List Selection → List String
selection_ids [] = []
selection_ids (s ∷ selections) = trim_space s.id ∷ selection_ids selections

Distinct-push_all :
    (seen xs : List String) → Distinct seen → Fresh seen xs → Distinct (push_all xs seen)
Distinct-push_all seen [] d f = d
Distinct-push_all seen (x ∷ xs) d f = Distinct-push_all (x ∷ seen) xs (f.0, d) f.1

check_ids-Fresh :
    (seen : List String) (selections : List Selection)
    → check_ids seen selections ≡ ok tt
    → Fresh seen (selection_ids selections)
unfolding check_ids
check_ids-Fresh seen [] h = tt
check_ids-Fresh seen (s ∷ selections) h =
    let (_, _, h1) = >>-eq-ok (refuse_if (is_empty (trim_space s.id)) id_required) _ h in
    let (_, new, rest) =
      >>-eq-ok (refuse_if (contains (trim_space s.id) seen) (duplicate_input (trim_space s.id))) _
        h1 in
    (refuse_if-eq-ok _ _ new, check_ids-Fresh (trim_space s.id ∷ seen) selections rest)

module _ (files : Files) (limit : ℕ) where
  -- The bytes are the whole content, within the limit, of a regular file at an absolute path that
  -- gives group and others no permission.
  pub record IsPrivateFile (id : String) (content : Bytes) : Type 0 where
    pub path : String
    pub absolute : has_prefix path "/" ≡ true
    pub info : FileInfo
    pub stated : files.stat path ≡ some info
    pub regular : info.is_regular ≡ true
    pub no_group_or_other : info.perm % 64 ≡ 0
    pub read : files.read_file path ≡ some content
    pub short : length content ≤ limit

  read_secret_file-IsPrivateFile :
      (id path : String) (content : Bytes)
      → has_prefix path "/" ≡ true
      → read_secret_file files limit id path ≡ ok content
      → IsPrivateFile id content
  unfolding read_secret_file
  read_secret_file-IsPrivateFile id path content absolute h =
      elim (Option-cases (files.stat path)) [
        | inl missing ↦ absurd (ground (arith, missing))
        | inr (info, stated) ↦ elim (Option-cases (files.read_file path)) [
          | inl missing ↦ absurd (ground (arith, stated, missing))
          | inr (bytes, read) ↦
              let same : bytes ≡ content = ground (arith, stated, read) in
              let short : length bytes ≤ limit = ground (arith, stated, read) in
              record {
                path = path;
                absolute = absolute;
                info = info;
                stated = stated;
                regular = ground (arith, stated, read);
                no_group_or_other = eqb→eq (info.perm % 64) 0 (ground (arith, stated, read));
                read = read ∙ ap some same;
                short = rw (← same) short;
              }
        ]
      ]

  read_entries-IsPrivateFile :
      (entries : List (String × Bytes)) (selections : List Selection)
      (result : List (String × Bytes))
      → AllEntries IsPrivateFile entries
      → read_entries files limit entries selections ≡ ok result
      → AllEntries IsPrivateFile result
        × (keys result ≡ push_all (selection_ids selections) (keys entries))
  unfolding read_entries
  read_entries-IsPrivateFile entries [] result good h =
      let same : entries ≡ result = ground arith in (rw (← same) good, rw (← same) refl)
  read_entries-IsPrivateFile entries (s ∷ selections) result good h =
      let id = trim_space s.id in
      let (_, _, h1) = >>-eq-ok (refuse_if (has_margin s.path) (path_spaces id)) _ h in
      let (_, absolute, h2) =
        >>-eq-ok (refuse_if (not (has_prefix s.path "/")) (path_not_absolute id)) _ h1 in
      let (content, read, rest) = >>=-eq-ok (read_secret_file files limit id s.path) _ h2 in
      let private =
        read_secret_file-IsPrivateFile id s.path content
          (ground (arith, refuse_if-eq-ok _ _ absolute)) read in
      read_entries-IsPrivateFile ((id, content) ∷ entries) selections result (private, good) rest

-- What a loaded store holds: an entry for each selection, under distinct IDs, each from a private
-- file within the limit.
pub record IsLoaded (files : Files) (selections : List Selection) (options : Options)
    (store : Store) : Type 0 where
  pub ids : keys store.entries ≡ push_all (selection_ids selections) []
  pub distinct : Distinct (keys store.entries)
  pub private : AllEntries (IsPrivateFile files (size_limit options)) store.entries

-- A store that loads has an entry for each selection, under its trimmed ID, and no other; the IDs
-- are distinct; and each entry is the whole content, within the limit, of a regular file at an
-- absolute path that gives group and others no permission.
pub load-IsLoaded :
    (files : Files) (selections : List Selection) (options : Options) (store : Store)
    → load files selections options ≡ ok store
    → IsLoaded files selections options store
unfolding load
load-IsLoaded files selections options store h =
    let (_, checked, h1) = >>-eq-ok (check_ids [] selections) _ h in
    let (entries, read, last) =
      >>=-eq-ok (read_entries files (size_limit options) [] selections) _ h1 in
    let same : record { entries = entries } ≡ store = cc last in
    let (private, ids) =
      read_entries-IsPrivateFile files (size_limit options) [] selections entries tt read in
    rw (← same) (record {
      ids = ids;
      distinct = rw ids (
          Distinct-push_all [] (selection_ids selections) tt
            (check_ids-Fresh [] selections checked));
      private = private;
    })

-- A store offers the IDs that it has, and no other.
pub contains-ids : (store : Option Store) (id : String) → contains id (ids store) ≡ has store id
unfolding ids has
contains-ids none id = refl
contains-ids (some store) id = contains-sort_texts id (keys store.entries)

module _ (files : Files) (options : Options) (store : Store) (limit : ℕ) where
  -- the entry of a reference
  abbrev pub IsBacked : SecretRef → Type 0
  IsBacked ref =
      (content : Bytes) × (lookup ref.input_id store.entries ≡ some content)
      × IsPrivateFile files limit ref.input_id content

  refs-IsBacked :
      (secrets : List SecretInput) (refs : List SecretRef)
      → AllEntries (IsPrivateFile files limit) store.entries
      → All (λ ref. IsAvailable secrets (some (secret_store store)) ref.id ref) refs
      → All IsBacked refs
  unfolding has
  refs-IsBacked secrets [] private available = tt
  refs-IsBacked secrets (ref ∷ refs) private available =
      let (content, found) = lookup-some ref.input_id store.entries ((available.0).stored) in
      (
        (
          content,
          found,
          lookup-AllEntries (IsPrivateFile files limit) ref.input_id store.entries content private
              found,
        ),
        refs-IsBacked secrets refs private available.1,
      )

-- Every reference that is resolved against a store that was loaded stands for an entry of the
-- store, the whole content, within the limit, of a private file.
pub resolve_secret_refs-load :
    (files : Files) (selections : List Selection) (options : Options) (store : Store)
    (secrets : List SecretInput) (selected refs : List SecretRef)
    → load files selections options ≡ ok store
    → resolve_secret_refs secrets selected (some (secret_store store)) ≡ ok refs
    → All (IsBacked files options store (size_limit options)) refs
resolve_secret_refs-load files selections options store secrets selected refs loaded resolved =
    refs-IsBacked files options store (size_limit options) secrets refs
      ((load-IsLoaded files selections options store loaded).private)
      ((resolve_secret_refs-AreResolved secrets (some (secret_store store)) selected refs
        resolved).available)
