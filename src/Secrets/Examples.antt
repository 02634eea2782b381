-- ===== src/Secrets/Examples.antt =====
-- A secret file on which the theorems about secrets are used, and tests of the definitions.
use bootup.Verify.{Bytes}
use bootup.Provider.{SecretInput, SecretRef}
use bootup.Provider.Options.{valid_option_id}
use bootup.Provider.SecretRefs.{resolve_secret_refs}
use bootup.Policy.Loading.Writes.{KeptOrMade}
use bootup.Policy.Loading.{CacheWrite, Disk}
use bootup.Secrets.{
  Files, Options, Selection, Store, check_ids, has, ids, load, not_private, read_entries,
  read_secret_file, secret_store, size_limit, stage_file, stage_name,
}
use bootup.Secrets.Private.{IsBacked, IsLoaded, load-IsLoaded, resolve_secret_refs-load}
use bootup.Secrets.Staging.{stage_file-kept}
use bootup.Common.{All, List, [], err, false, inl, none, ok, pos, refl, some, true, ◌==◌, ◌∷◌, ◌≡◌}
use bootup.Text.{clean, has_prefix, join_path, sort_texts, trim_space}

abbrev content : Bytes
content = 115 ∷ 51 ∷ []

-- permissions 0600
abbrev files : Files
files = record {
  stat = λ _. some (record { is_regular = true; perm = 384; size = 2 });
  read_file = λ _. some content;
}

-- permissions 0640
abbrev open_files : Files
open_files = record {
  stat = λ _. some (record { is_regular = true; perm = 416; size = 2 });
  read_file = λ _. some content;
}

abbrev chosen : List Selection
chosen = record { id = " token"; path = "/run/token" } ∷ []

abbrev limits : Options
limits = record { max_bytes = pos 64 }

abbrev store : Store
store = record { entries = ("token", content) ∷ [] }

abbrev token : SecretInput
token = record {
  id = "token";
  label = "Token";
  purpose = "Access";
  required = true;
  delivery = "staged-file";
}

abbrev token_ref : SecretRef
token_ref = record { id = "token"; input_id = "token" }

abbrev disk : Disk
disk = λ _. none

abbrev writes : CacheWrite
writes = record {
  temp_path = "/stage/.token.1";
  mkdir_ok = true;
  made = λ _. true;
  create_ok = true;
  write_ok = true;
  chmod_ok = true;
  close_ok = true;
  rename_ok = true;
}

token_loads : load files chosen limits ≡ ok store
unfolding load check_ids trim_space read_entries has_prefix read_secret_file size_limit
token_loads = refl

open_file_fails : load open_files chosen limits ≡ err (not_private "token")
unfolding load check_ids trim_space read_entries has_prefix read_secret_file
open_file_fails = refl

token_resolves :
    resolve_secret_refs (token ∷ []) [] (some (secret_store store)) ≡ ok (token_ref ∷ [])
unfolding resolve_secret_refs ids sort_texts trim_space valid_option_id has
token_resolves = refl

target_apart : (join_path "/stage" (stage_name "token" "") == "/stage/other") ≡ false
unfolding stage_name clean trim_space
target_apart = refl

load-IsLoaded_example : IsLoaded files chosen limits store
load-IsLoaded_example = load-IsLoaded files chosen limits store token_loads

resolve_secret_refs-load_example :
    All (IsBacked files limits store (size_limit limits)) (token_ref ∷ [])
resolve_secret_refs-load_example =
    resolve_secret_refs-load files chosen limits store (token ∷ []) [] (token_ref ∷ []) token_loads
      token_resolves

stage_file-kept_example :
    KeptOrMade "/stage" disk
      (stage_file writes (some store) "token" "/stage" "" disk).1
      "/stage/other"
stage_file-kept_example =
    stage_file-kept writes (some store) "token" "/stage" "" disk "/stage/other" refl
      (inl target_apart)
