-- ===== src/Providers/Staging.antt =====
-- What the staging functions of the providers do alike: report progress, download, check a pinned
-- digest, write the file. Nothing before the write touches the disk.
pub mod Laws
pub mod Files
use bootup.Provider.Source.{UrlParser}
use bootup.Verify.{Bytes, Crypto, Reader, VerifyError, check_sha256}
use bootup.Provider.{Artifact}
use bootup.Provider.Registry.{
  StageOperation, StageProgressFunc, StageState, completed, fetching, report_stage_progress,
  started, verifying, writing,
}
use bootup.Http.{Http, fetch}
use bootup.Providers.{
  ProviderError, Step, of_http, of_provider, of_verify, url_malformed, url_not_secure, write_failed,
}
use bootup.Policy.Loading.{Disk, put}
use bootup.Common.{
  Bool, List, Option, Result, String, [], err, if◌then◌else◌, none, not, ok, refuse_if, some, wrap,
  ◌==◌, ◌>>=◌, ◌>>◌, ◌∷◌,
}
use bootup.Text.{is_empty, join_path}

-- os.WriteFile: whether it succeeds, and what a failed one leaves behind.
pub record Writer : Type 0 where
  pub write_ok : String → Bytes → Bool
  pub torn : String → Bytes → Option Reader

-- What providers are given: the network and the files that they read, the writer, the checks,
-- the first submatches of the pattern `hrefPattern` in an index, and strings.EqualFold.
pub record World (Keyring : Type 0) : Type 0 where
  pub http : Http
  pub writer : Writer
  pub crypto : Crypto Keyring
  pub progress : Option StageProgressFunc
  pub hrefs : Bytes → List String
  pub equal_fold : String → String → Bool

-- `if err != nil { return err }` behind a step that may write
abbrev pub and_then :
    {A B : Type 0} → Result ProviderError A × Disk → (A → Step B) → Result ProviderError B × Disk
and_then (err e, disk) next = (err e, disk)
and_then (ok a, disk) next = next a disk

-- a step that does not write
abbrev pub reading : {A : Type 0} → Result ProviderError A → Step A
reading result disk = (result, disk)

-- `reportProgress` of the providers
unfoldable pub report :
    Option StageProgressFunc
    → StageOperation
    → StageState
    → String
    → Result ProviderError (Unit {0})
unfolding report_stage_progress
report progress operation state artifact = wrap of_provider (
    report_stage_progress progress
      (record { operation = operation; state = state; artifact = artifact }))

module _ {Keyring : Type 0} (world : World Keyring) where
  -- a download between its two reports
  unfoldable pub fetch_reported : String → String → Result ProviderError Bytes
  unfolding report fetch
  fetch_reported url name = do
    report world.progress fetching started name
    message ← wrap of_http (fetch world.http url)
    report world.progress fetching completed name
    ok message

  -- a check between its two reports
  unfoldable pub check_reported :
      String → Result VerifyError (Unit {0}) → Result ProviderError (Unit {0})
  unfolding report
  check_reported name outcome = do
    report world.progress verifying started name
    wrap of_verify outcome
    report world.progress verifying completed name

  -- the check of a pinned digest, where there is one
  unfoldable pub check_pin : Artifact → Bytes → Result ProviderError (Unit {0})
  unfolding check_reported check_sha256
  check_pin artifact message =
      if is_empty artifact.sha256
      then ok tt
      else check_reported artifact.name
          (check_sha256 world.crypto (some (some message)) artifact.sha256)

  -- download and check
  unfoldable pub fetch_checked : Artifact → Result ProviderError Bytes
  unfolding fetch_reported check_pin
  fetch_checked artifact = do
    message ← fetch_reported artifact.url artifact.name
    check_pin artifact message
    ok message

  -- os.WriteFile
  unfoldable pub write_file : String → Bytes → Step (Unit {0})
  write_file path message disk =
      if world.writer.write_ok path message
      then (ok tt, put path (some (some message)) disk)
      else (err (write_failed path), put path (world.writer.torn path message) disk)

  -- the write between its two reports
  unfoldable pub write_reported : String → String → Bytes → Step String
  unfolding report write_file
  write_reported dir name message disk =
      and_then (reading (report world.progress writing started name) disk) (λ _ disk1.
        let path = join_path dir name in
        and_then (write_file path message disk1)
          (λ _. reading (report world.progress writing completed name >> ok path)))

  -- write what a download gives
  unfoldable pub write_fetched : String → String → Result ProviderError Bytes → Step String
  unfolding write_reported
  write_fetched dir name fetched disk =
      and_then (fetched, disk) (λ message. write_reported dir name message)

  -- download, check and write
  unfoldable pub stage_checked : String → String → Artifact → Step String
  unfolding fetch_checked write_fetched
  stage_checked dir name artifact = write_fetched dir name (fetch_checked artifact)

-- the loop of `requireHTTPS` of the providers
unfoldable pub require_https : UrlParser → List String → Result ProviderError (Unit {0})
require_https parse_url [] = ok tt
require_https parse_url (url ∷ urls) = elim (parse_url url) [
  | none ↦ err url_malformed
  | some parsed ↦ do
    refuse_if (not (parsed.scheme == "https")) url_not_secure
    require_https parse_url urls
]
