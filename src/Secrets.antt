-- ===== src/Secrets.antt =====
-- internal/secrets/store.go: secret inputs that are read from private files, and staged for
-- providers. What os.Stat and os.ReadFile answer are arguments; the disk is that of Policy.Loading.
mod Examples
pub mod Private
pub mod Staging
use Prim.Native.Nat.{◌%◌}
use Prim.Native.String
use bootup.Text.{
  base_name, has_margin, has_prefix, has_rune, is_blank, is_empty, join_path, sort_texts,
  trim_space,
}
use bootup.Verify.{Bytes}
use bootup.Provider.{SecretStore}
use bootup.Policy.Loading.{CacheWrite, Disk, make_all, put}
use bootup.Common.{
  Bool, List, Option, Result, String, [], contains, eqb, err, false, if◌then◌else◌, is_positive,
  keys, length, lookup, ltb, none, not, ok, pos_part, refuse_if, some, ℕ, ℤ, ◌==◌, ◌>>=◌, ◌>>◌,
  ◌||◌, ◌∷◌,
}

pub record Selection : Type 0 where
  pub id : String
  pub path : String

pub record Options : Type 0 where
  pub max_bytes : ℤ

pub record Store : Type 0 where
  pub entries : List (String × Bytes)

-- `perm` is the number of the permission bits.
pub record FileInfo : Type 0 where
  pub is_regular : Bool
  pub perm : ℕ
  pub size : ℕ

-- The files at the time of a load; what is read need not be what was stated.
pub record Files : Type 0 where
  pub stat : String → Option FileInfo
  pub read_file : String → Option Bytes

pub data SecretError : Type 0 where
  id_required dir_required : SecretError
  duplicate_input path_spaces path_not_absolute : String → SecretError
  unreadable not_regular not_private too_large : String → SecretError
  secret_missing name_not_file : String → SecretError
  dir_failed create_failed write_failed close_failed chmod_failed rename_failed : SecretError

unfoldable pub size_limit : Options → ℕ
size_limit options = if is_positive options.max_bytes then pos_part options.max_bytes else 1048576

-- the first loop of `Load`
unfoldable pub check_ids : List String → List Selection → Result SecretError (Unit {0})
check_ids seen [] = ok tt
check_ids seen (s ∷ selections) = do
  refuse_if (is_empty (trim_space s.id)) id_required
  refuse_if (contains (trim_space s.id) seen) (duplicate_input (trim_space s.id))
  check_ids (trim_space s.id ∷ seen) selections

module _ (files : Files) (limit : ℕ) where
  -- `readSecretFile`; group or other may do something where the permissions are no multiple of 64
  unfoldable pub read_secret_file : String → String → Result SecretError Bytes
  read_secret_file id path = elim (files.stat path) [
    | none ↦ err (unreadable id)
    | some info ↦ do
      refuse_if (not info.is_regular) (not_regular id)
      refuse_if (not (eqb (info.perm % 64) 0)) (not_private id)
      refuse_if (ltb limit info.size) (too_large id)
      elim (files.read_file path) [
        | none ↦ err (unreadable id)
        | some content ↦ do refuse_if (ltb limit (length content)) (too_large id); ok content
      ]
  ]

  -- the second loop of `Load`
  unfoldable pub read_entries :
      List (String × Bytes) → List Selection → Result SecretError (List (String × Bytes))
  read_entries entries [] = ok entries
  read_entries entries (s ∷ selections) = do
    refuse_if (has_margin s.path) (path_spaces (trim_space s.id))
    refuse_if (not (has_prefix s.path "/")) (path_not_absolute (trim_space s.id))
    content ← read_secret_file (trim_space s.id) s.path
    read_entries ((trim_space s.id, content) ∷ entries) selections

-- `Load`
unfoldable pub load : Files → List Selection → Options → Result SecretError Store
load files selections options = do
  check_ids [] selections
  entries ← read_entries files (size_limit options) [] selections
  ok (record { entries = entries })

-- `IDs`; a nil store is `none`
unfoldable pub ids : Option Store → List String
ids none = []
ids (some store) = sort_texts (keys store.entries)

-- `Has`
unfoldable pub has : Option Store → String → Bool
has none id = false
has (some store) id = contains id (keys store.entries)

-- The store as what a provider sees of it.
abbrev pub secret_store : Store → SecretStore
secret_store store = record { ids = ids (some store); has = has (some store) }

-- the name under which a secret is staged
unfoldable pub stage_name : String → String → String
stage_name id name = let trimmed = trim_space name in if is_empty trimmed then id else trimmed

-- the steps of `StageFile` on the file system
unfoldable pub write_secret :
    CacheWrite → String → String → Bytes → Disk → Result SecretError String × Disk
unfolding make_all
write_secret w dir path content disk =
    let made = make_all w dir disk in
    let written = put w.temp_path (some (some content)) made in
    if not w.mkdir_ok
    then (err dir_failed, made)
    else if not w.create_ok
    then (err create_failed, made)
    else if not w.write_ok
    then (err write_failed, put w.temp_path none made)
    else if not w.close_ok
    then (err close_failed, put w.temp_path none written)
    else if not w.chmod_ok
    then (err chmod_failed, put w.temp_path none written)
    else if not w.rename_ok
    then (err rename_failed, put w.temp_path none written)
    else (ok path, put path (some (some content)) (put w.temp_path none written))

-- the entry of a store, where there is one
abbrev pub entry_of : Option Store → String → Option Bytes
entry_of none id = none
entry_of (some store) id = lookup id store.entries

-- `StageFile`
unfoldable pub stage_file :
    CacheWrite → Option Store → String → String → String → Disk → Result SecretError String × Disk
stage_file w store id dir name disk = elim (entry_of store id) [
  | none ↦ (err (secret_missing id), disk)
  | some content ↦
      let file = stage_name id name in
      if not (base_name file == file) || has_rune b'/' file || has_rune b'\\' file
      then (err (name_not_file file), disk)
      else if is_blank dir
      then (err dir_required, disk)
      else write_secret w dir (join_path dir file) content disk
]
