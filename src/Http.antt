-- ===== src/Http.antt =====
-- internal/providerhttp/providerhttp.go: downloads over HTTP and from file URLs.
-- The HTTP client, the file system, url.Parse, url.PathUnescape and (*URL).String on a file URL are
-- arguments. The client answers a request with a response or an error; `none` stands for a request
-- that http.NewRequestWithContext refuses.

mod Examples
pub mod Laws
use Prim.Native.String
use bootup.Verify.{Bytes}
use bootup.Provider.Source.{UrlParser}
use bootup.Common.{
  Bool, Option, Result, String, [], eqb, err, false, if◌then◌else◌, none, not, ok, refuse_if, some,
  true, wrap, ℕ, ◌&&◌, ◌++◌, ◌==◌, ◌>>=◌, ◌>>◌,
}
use bootup.Text.{after_last, has_prefix, has_suffix, is_empty, join_path, trim_right_rune}

-- An error of the transport, and whether it is that of a context that has ended.
pub data NetError : Type 0 where
  context_ended : NetError
  net_failed : NetError

pub data HttpError : Type 0 where
  request_invalid : HttpError
  not_sent read_response : NetError → HttpError
  bad_status : ℕ → HttpError
  file_url_invalid file_not_local file_path_invalid file_not_absolute : HttpError
  stat_failed not_regular file_unreadable : HttpError

pub record Response : Type 0 where
  pub status : ℕ
  pub body : Result NetError Bytes

-- what the file system says of a path
pub data Answer (A : Type 0) : Type 0 where
  found : A → Answer A
  absent : Answer A
  failed : Answer A

pub record FileInfo : Type 0 where
  pub is_dir : Bool
  pub is_regular : Bool

pub record Http : Type 0 where
  pub parse_url : UrlParser
  pub path_unescape : String → Option String
  pub file_url : String → String
  pub request : String → String → Option (Result NetError Response)
  pub stat : String → Answer FileInfo
  pub read_file : String → Answer Bytes

-- The local path of a file URL, or the status that stands for its absence.
pub data Located : Type 0 where
  at_path : String → Located
  not_there : Located

-- `http.StatusOK` and the other statuses that the code names
abbrev pub status_ok : ℕ
status_ok = 200

abbrev pub status_not_found : ℕ
status_not_found = 404

abbrev pub status_not_allowed : ℕ
status_not_allowed = 405

-- `isContextError` of the providers, on an error of this package
unfoldable pub is_context_error : HttpError → Bool
is_context_error (not_sent context_ended) = true
is_context_error (read_response context_ended) = true
is_context_error _ = false

module _ (http : Http) where
  -- `isFileURL`
  unfoldable pub is_file_url : String → Bool
  is_file_url url = elim (http.parse_url url) [
    | none ↦ false
    | some parsed ↦ parsed.scheme == "file"
  ]

  -- the last test of `filePath`
  unfoldable pub require_regular : String → FileInfo → Result HttpError Located
  require_regular path info = if info.is_regular then ok (at_path path) else err not_regular

  -- the second os.Stat of `filePath`, on the index of a directory
  unfoldable pub index_path : String → Result HttpError Located
  unfolding require_regular
  index_path dir =
      let path = join_path dir "index.html" in
      elim (http.stat path) [
        | found info ↦ require_regular path info
        | absent ↦ ok not_there
        | failed ↦ err stat_failed
      ]

  -- the part of `filePath` that looks at the file system
  unfoldable pub local_path : String → Result HttpError Located
  unfolding index_path require_regular
  local_path path = elim (http.stat path) [
    | found info ↦ if info.is_dir then index_path path else require_regular path info
    | absent ↦ ok not_there
    | failed ↦ err stat_failed
  ]

  -- `filePath`
  unfoldable pub file_path : String → Result HttpError Located
  unfolding local_path has_prefix
  file_path url = elim (http.parse_url url) [
    | none ↦ err file_url_invalid
    | some parsed ↦ do
      refuse_if (not (is_empty parsed.host) && not (parsed.host == "localhost")) file_not_local
      elim (http.path_unescape parsed.path) [
        | none ↦ err file_path_invalid
        | some path ↦ do refuse_if (not (has_prefix path "/")) file_not_absolute; local_path path
      ]
  ]

  -- os.ReadFile in `fetchFileStatus`
  unfoldable pub read_located : Located → Result HttpError (Bytes × ℕ)
  read_located not_there = ok ([], status_not_found)
  read_located (at_path path) = elim (http.read_file path) [
    | found data' ↦ ok (data', status_ok)
    | absent ↦ ok ([], status_not_found)
    | failed ↦ err file_unreadable
  ]

  -- `fetchFileStatus`
  unfoldable pub fetch_file_status : String → Result HttpError (Bytes × ℕ)
  unfolding file_path read_located
  fetch_file_status url = do located ← file_path url; read_located located

  abbrev status_of_located : Located → ℕ
  status_of_located not_there = status_not_found
  status_of_located (at_path path) = status_ok

  -- `fileStatus`
  unfoldable pub file_status : String → Result HttpError ℕ
  unfolding file_path
  file_status url = do located ← file_path url; ok (status_of_located located)

  -- `client.Do` on a new request
  unfoldable pub send : String → String → Result HttpError Response
  send method url = elim (http.request method url) [
    | none ↦ err request_invalid
    | some answer ↦ wrap not_sent answer
  ]

  -- `FetchStatus`
  unfoldable pub fetch_status : String → Result HttpError (Bytes × ℕ)
  unfolding is_file_url fetch_file_status send
  fetch_status url = if is_file_url url then fetch_file_status url else do
    response ← send "GET" url
    body ← wrap read_response response.body
    ok (body, response.status)

  -- `Fetch`
  unfoldable pub fetch : String → Result HttpError Bytes
  unfolding fetch_status
  fetch url = do
    answer ← fetch_status url
    refuse_if (not (eqb answer.1 status_ok)) (bad_status answer.1)
    ok answer.0

  -- `Status`
  unfoldable pub status : String → String → Result HttpError ℕ
  unfolding is_file_url file_status send
  status method url =
      if is_file_url url then file_status url else do response ← send method url; ok response.status

  -- the end of `Probe`, on the status that counts
  unfoldable pub is_there : ℕ → Result HttpError Bool
  is_there answer =
      if eqb answer status_not_found
      then ok false
      else do refuse_if (not (eqb answer status_ok)) (bad_status answer); ok true

  -- `Probe`
  unfoldable pub probe : String → Result HttpError Bool
  unfolding status is_there
  probe url = do
    head ← status "HEAD" url
    if eqb head status_not_allowed then (do get ← status "GET" url; is_there get) else is_there head

-- `EnsureTrailingSlash`
unfoldable pub ensure_trailing_slash : String → String
unfolding has_suffix
ensure_trailing_slash value = if has_suffix value "/" then value else String.◌++◌ value "/"

-- `PathBase`
unfoldable pub path_base : String → String
unfolding trim_right_rune after_last
path_base value = after_last b'/' (trim_right_rune b'/' value)
