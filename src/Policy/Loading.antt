-- ===== src/Policy/Loading.antt =====
-- `LoadFile`, `LoadURL` and the policy cache, over an explicit disk: what each path holds.
-- Where a file is missing or cannot be opened the disk holds `none`; a file whose reading fails, and
-- a directory, is `some none`.
pub mod Writes
pub mod Limits
pub mod Sources
pub mod Cache
use Prim.Native.String
use Prim.Native.Nat.{◌^◌}
use bootup.Common.{
  Bool, List, Option, Result, String, [], err, if◌then◌else◌, is_none, is_positive, leb, length,
  ltb, none, not, ok, pos_part, refuse_if, some, suc, wrap, zero, ℕ, ℤ, ◌&&◌, ◌++◌, ◌+◌, ◌-◌, ◌==◌,
  ◌>>=◌, ◌>>◌, ◌||◌, ◌∷◌,
}
use bootup.Text.{dir_name, has_prefix, is_empty}
use bootup.Verify.{Bytes, Reader, open_failed, read_failed}
use bootup.Provider.Source.{UrlParser}
use bootup.Policy.{
  Decision, LoadOptions, PolicyError, PolicyLibrary, Trust, cache_after_fetch, cache_after_source,
  cache_chmod, cache_close, cache_create, cache_directory, cache_rename, cache_write, configured,
  invalid, is_invalid_policy, open_failed, parse_trusted_decision, path_empty, read_failed,
  request_failed, status_failed, too_large, transport_failed, trust_missing, url_invalid,
  url_not_https,
}

pub record RemoteOptions : Type 0 where
  pub url : String
  pub trust : Trust
  pub max_bytes : ℤ
  pub now : ℕ
  pub max_age : ℤ
  pub cache_path : String
  pub cache_fallback : Bool

abbrev pub Disk : Type 0
Disk = String → Option Reader

-- A write to one path.
abbrev pub put : String → Option Reader → Disk → Disk
put path content disk at = if path == at then content else disk at

-- The answers of the file system to the steps of `writePolicyCache`: whether each succeeds, the
-- temporary path that os.CreateTemp chooses, and which missing directories os.MkdirAll makes, some
-- of which it may have made where it fails.
pub record CacheWrite : Type 0 where
  pub temp_path : String
  pub mkdir_ok : Bool
  pub made : String → Bool
  pub create_ok : Bool
  pub write_ok : Bool
  pub chmod_ok : Bool
  pub close_ok : Bool
  pub rename_ok : Bool

-- a directory is the path, or above it
abbrev pub is_above : String → String → Bool
is_above directory path = path == directory || has_prefix path (String.◌++◌ directory "/")

-- os.MkdirAll: directories on the way to `dir` come to be where nothing was.
unfoldable pub make_all : CacheWrite → String → Disk → Disk
unfolding has_prefix
make_all w dir disk at =
    if w.made at && is_above at dir && is_none (disk at) then some none else disk at

-- The answer of the network: the request, the transport and the response.
pub record Fetch : Type 0 where
  pub request_ok : Bool
  pub transport_ok : Bool
  pub status : ℕ
  pub body : Reader

-- `maxBytes+1` wraps around in int64, and a reader limited to less than one byte is empty.
unfoldable pub read_limit : ℕ → ℕ
read_limit max_bytes = if ltb max_bytes (2 ^ 63 - 1) then max_bytes + 1 else 0

abbrev pub take {ℓ} : {A : Type ℓ} → ℕ → List A → List A
take zero xs = []
take (suc n) [] = []
take (suc n) (x ∷ xs) = x ∷ take n xs

abbrev pub default_max_bytes : ℕ
default_max_bytes = 1048576

unfoldable pub byte_limit : ℤ → ℕ
byte_limit max_bytes = if is_positive max_bytes then pos_part max_bytes else default_max_bytes

unfoldable pub read_policy_bytes : Reader → ℤ → Result PolicyError Bytes
unfolding byte_limit read_limit
read_policy_bytes none max_bytes = err (invalid read_failed)
read_policy_bytes (some content) max_bytes =
    let message = take (read_limit (byte_limit max_bytes)) content in
    if ltb (byte_limit max_bytes) (length message) then err (invalid too_large) else ok message

unfoldable pub read_policy_file : Disk → String → ℤ → Result PolicyError Bytes
unfolding read_policy_bytes
read_policy_file disk path max_bytes =
    if is_empty path then err (invalid path_empty) else elim (disk path) [
      | none ↦ err (invalid open_failed)
      | some file ↦ read_policy_bytes file max_bytes
    ]

-- The temporary file is removed at the end; where the rename has moved it, nothing is there.
unfoldable pub write_policy_cache :
    CacheWrite → String → Bytes → Disk → Result PolicyError (Unit {0}) × Disk
unfolding dir_name make_all
write_policy_cache w path message disk =
    let made = make_all w (dir_name path) disk in
    let written = put w.temp_path (some (some message)) made in
    if not w.mkdir_ok
    then (err (invalid cache_directory), made)
    else if not w.create_ok
    then (err (invalid cache_create), made)
    else if not w.write_ok
    then (err (invalid cache_write), put w.temp_path none made)
    else if not w.chmod_ok
    then (err (invalid cache_chmod), put w.temp_path none written)
    else if not w.close_ok
    then (err (invalid cache_close), put w.temp_path none written)
    else if not w.rename_ok
    then (err (invalid cache_rename), put w.temp_path none written)
    else (ok tt, put w.temp_path none (put path (some (some message)) written))

-- `(RemoteOptions).loadOptions`
abbrev pub load_options : RemoteOptions → LoadOptions
load_options options = record {
  path = "";
  trust = options.trust;
  max_bytes = options.max_bytes;
  now = options.now;
  max_age = options.max_age;
  cache_path = options.cache_path;
  cache_fallback = options.cache_fallback;
}

-- `fetchPolicyURL`
unfoldable pub fetch_policy_url : UrlParser → Fetch → RemoteOptions → Result PolicyError Bytes
fetch_policy_url parse_url fetch options = elim (parse_url options.url) [
  | none ↦ err (invalid url_invalid)
  | some parsed ↦ do
    refuse_if (not (parsed.scheme == "https")) (invalid url_not_https)
    refuse_if (not fetch.request_ok) request_failed
    refuse_if (not fetch.transport_ok) transport_failed
    refuse_if (ltb fetch.status 200 || leb 300 fetch.status) status_failed
    read_policy_bytes fetch.body options.max_bytes
]

module _ (library : PolicyLibrary) where
  unfoldable pub load_policy_cache : Disk → LoadOptions → Result PolicyError Decision
  load_policy_cache disk options = do
    message ← read_policy_file disk options.cache_path options.max_bytes
    parse_trusted_decision library message options

module _ (library : PolicyLibrary) (w : CacheWrite) where
  -- what follows a message that was read: parse it, and refresh the cache
  unfoldable pub accept_policy : Bytes → LoadOptions → Disk → Result PolicyError Decision × Disk
  accept_policy message options disk = elim (parse_trusted_decision library message options) [
    | err e ↦ (err e, disk)
    | ok decision ↦
        if is_empty options.cache_path
        then (ok decision, disk)
        else let (written, disk') = write_policy_cache w options.cache_path message disk in
          (written >> ok decision, disk')
  ]

  -- `LoadFile`
  unfoldable pub load_file : LoadOptions → Disk → Result PolicyError Decision × Disk
  load_file options disk =
      if not (configured options.trust)
      then (err (invalid trust_missing), disk)
      else elim (read_policy_file disk options.path options.max_bytes) [
        | ok message ↦ accept_policy message options disk
        | err e ↦
            if options.cache_fallback && not (is_empty options.cache_path)
            then (wrap cache_after_source (load_policy_cache library disk options), disk)
            else (err e, disk)
      ]

  -- `LoadURL`
  unfoldable pub load_url :
      UrlParser → Fetch → RemoteOptions → Disk → Result PolicyError Decision × Disk
  load_url parse_url fetch options disk =
      if not (configured options.trust)
      then (err (invalid trust_missing), disk)
      else elim (fetch_policy_url parse_url fetch options) [
        | ok message ↦ accept_policy message (load_options options) disk
        | err e ↦
            if options.cache_fallback
              && not (is_empty options.cache_path)
              && not (is_invalid_policy e)
            then (
              wrap cache_after_fetch (load_policy_cache library disk (load_options options)),
              disk,
            )
            else (err e, disk)
      ]
