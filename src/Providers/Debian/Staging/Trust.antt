-- ===== src/Providers/Debian/Staging/Trust.antt =====
-- The chain of trust: what is known of a file that the Debian provider writes.
use bootup.Verify.{Bytes, Checksums, ClearBlock, check_clearsigned, parse_sha256_sums, read_keyring}
use bootup.Verify.Digests.{IsLawful, check_sha256_iff}
use bootup.Verify.Artifacts.{verify_artifact-IsVerified}
use bootup.Provider.{BootPlan}
use bootup.Provider.Registry.{completed, fetching, started, verifying}
use bootup.Providers.{ProviderError, of_http, of_verify}
use bootup.Providers.Staging.{World, report}
use bootup.Providers.Debian.Staging.{
  fetch_release, fetch_response, fetch_sums, fetch_verified, fetch_with_progress,
  parse_release_sha256, release_path, reported, sums_input, verify_artifact_checksum,
  verify_in_release, verify_release_file_checksum,
}
use bootup.Common.{
  >>-eq-ok, >>=-eq-ok, Bool-cases, Option-cases, Result, String, ap, arith, inl, inr, keys, lookup,
  ok, refl, some, true, wrap, wrap-eq-ok, ◌∙◌, ◌≡◌,
}
use bootup.Text.{decode_hex}

module _ {Keyring : Type 0} (world : World Keyring) where
  -- A clearsigned message that is signed under the keys of a keyring.
  pub record IsClearSigned (keyring message plaintext : Bytes) : Type 0 where
    pub keys : Keyring
    pub block : ClearBlock Keyring
    pub keys_read : read_keyring world.crypto (some (some keyring)) ≡ ok keys
    pub decoded : world.crypto.decode_clearsigned message ≡ some block
    pub signed : block.signed_by keys ≡ true
    pub contents : block.plaintext ≡ plaintext

  -- The text of the release, which is signed.
  pub record IsRelease (keyring : Bytes) (boot_plan : BootPlan) (release : Bytes) : Type 0 where
    pub message : Bytes
    pub downloaded : fetch_response world boot_plan.verification.metadata_url ≡ ok message
    pub signed : IsClearSigned keyring message release

  -- The checksum file, whose digest the signed release has under its path.
  pub record IsVouched (keyring : Bytes) (boot_plan : BootPlan) (sums : Bytes) : Type 0 where
    pub release : Bytes
    pub signed : IsRelease keyring boot_plan release
    pub downloaded : fetch_response world boot_plan.verification.checksum_url ≡ ok sums
    pub path : String
    pub place :
        release_path world boot_plan.verification.checksum_url boot_plan.target.catalog.release
        ≡ ok path
    pub checksums : Checksums
    pub parsed : parse_release_sha256 world release ≡ ok checksums
    pub want : String
    pub listed : lookup path checksums ≡ some want
    pub digest : decode_hex want ≡ some (world.crypto.sha256 sums)

  -- A file, whose digest the checksum file has under its name.
  pub record IsListed (sums : Bytes) (url name : String) (message : Bytes) : Type 0 where
    pub downloaded : fetch_response world url ≡ ok message
    pub entries : Checksums
    pub parsed : parse_sha256_sums world.crypto (some (some sums)) ≡ ok entries
    pub want : String
    pub listed : lookup name entries ≡ some want
    pub digest : decode_hex want ≡ some (world.crypto.sha256 message)

  pub fetch_with_progress-eq-ok :
      (url name : String) (message : Bytes)
      → fetch_with_progress world url name ≡ ok message
      → fetch_response world url ≡ ok message
  unfolding fetch_with_progress
  fetch_with_progress-eq-ok url name message h =
      let (_, _, h1) = >>-eq-ok (report world.progress fetching started name) _ h in
      let (got, fetched, h2) = >>=-eq-ok (wrap of_http (fetch_response world url)) _ h1 in
      let (_, _, same) = >>-eq-ok (report world.progress fetching completed name) _ h2 in
      let eq : got ≡ message = cc in
      wrap-eq-ok of_http (fetch_response world url) fetched ∙ ap ok eq

  pub reported-eq-ok :
      {A : Type 0} (name : String) (outcome : Result ProviderError A) {value : A}
      → reported world name outcome ≡ ok value
      → outcome ≡ ok value
  unfolding reported
  reported-eq-ok name outcome h =
      let (_, _, h1) = >>-eq-ok (report world.progress verifying started name) _ h in
      let (got, done, h2) = >>=-eq-ok outcome _ h1 in
      let (_, _, same) = >>-eq-ok (report world.progress verifying completed name) _ h2 in
      done ∙ same

  check_clearsigned-IsClearSigned :
      (keyring message plaintext : Bytes)
      → check_clearsigned world.crypto message (some (some keyring)) ≡ ok plaintext
      → IsClearSigned keyring message plaintext
  unfolding check_clearsigned
  check_clearsigned-IsClearSigned keyring message plaintext h =
      let (keys, opened, h1) = >>=-eq-ok (read_keyring world.crypto (some (some keyring))) _ h in
      elim (Option-cases (world.crypto.decode_clearsigned message)) [
        | inl bare ↦ absurd (ground (arith, bare))
        | inr (block, decoded) ↦ elim (Bool-cases (block.signed_by keys)) [
          | inl signed ↦ record {
            keys = keys;
            block = block;
            keys_read = opened;
            decoded = decoded;
            signed = signed;
            contents = ground (arith, decoded, signed);
          }
          | inr unsigned ↦ absurd (ground (arith, decoded, unsigned))
        ]
      ]

  fetch_release-IsRelease :
      (keyring : Bytes) (boot_plan : BootPlan) (release : Bytes)
      → fetch_release world keyring boot_plan ≡ ok release
      → IsRelease keyring boot_plan release
  unfolding fetch_release verify_in_release
  fetch_release-IsRelease keyring boot_plan release h =
      let (message, fetched, h1) =
        >>=-eq-ok (fetch_with_progress world boot_plan.verification.metadata_url "InRelease") _ h in
      record {
        message = message;
        downloaded = fetch_with_progress-eq-ok _ _ message fetched;
        signed =
            check_clearsigned-IsClearSigned keyring message release
              (wrap-eq-ok of_verify _ (reported-eq-ok "InRelease" _ h1));
      }

  module _ (lawful : IsLawful world.crypto) where
    pub verify_artifact_checksum-eq-ok :
        (name : String) (message : Bytes) (checksums : Checksums) {u : Unit {0}}
        → verify_artifact_checksum world name message checksums ≡ ok u
        → (want : String) × (lookup name checksums ≡ some want)
          × (decode_hex want ≡ some (world.crypto.sha256 message))
    unfolding verify_artifact_checksum
    verify_artifact_checksum-eq-ok name message checksums h =
        elim (Option-cases (lookup name checksums)) [
          | inl missing ↦ absurd (ground (arith, missing))
          | inr (want, listed) ↦ (
            want,
            listed,
            (check_sha256_iff world.crypto lawful message want).0
                (wrap-eq-ok of_verify _ (rw (verify_artifact_checksum, listed) at h)),
          )
        ]

    pub fetch_sums-IsVouched :
        (keyring : Bytes) (boot_plan : BootPlan) (sums : Bytes)
        → fetch_sums world keyring boot_plan ≡ ok sums
        → IsVouched keyring boot_plan sums
    unfolding fetch_sums verify_release_file_checksum
    fetch_sums-IsVouched keyring boot_plan sums h =
        let url = boot_plan.verification.checksum_url in
        let (release, signed, h1) = >>=-eq-ok (fetch_release world keyring boot_plan) _ h in
        let (got, fetched, h2) = >>=-eq-ok (fetch_with_progress world url "SHA256SUMS") _ h1 in
        let (path, place, h3) =
          >>=-eq-ok (release_path world url boot_plan.target.catalog.release) _ h2 in
        let (_, checked, same) = >>-eq-ok (reported world "SHA256SUMS" _) _ h3 in
        let eq : got ≡ sums = cc in
        let (checksums, parsed, matched) =
          >>=-eq-ok (parse_release_sha256 world release) _
            (reported-eq-ok "SHA256SUMS" _ checked) in
        let (want, listed, digest) = verify_artifact_checksum-eq-ok path got checksums matched in
        record {
          release = release;
          signed = fetch_release-IsRelease keyring boot_plan release signed;
          downloaded = fetch_with_progress-eq-ok url "SHA256SUMS" got fetched ∙ ap ok eq;
          path = path;
          place = place;
          checksums = checksums;
          parsed = parsed;
          want = want;
          listed = listed;
          digest = digest ∙ ap (λ m. some (world.crypto.sha256 m)) eq;
        }

    pub fetch_verified-IsListed :
        (sums : Bytes) (url filename name : String) (message : Bytes)
        → fetch_verified world url filename name sums ≡ ok message
        → IsListed sums url name message
    unfolding fetch_verified
    fetch_verified-IsListed sums url filename name message h =
        let (got, fetched, h1) = >>=-eq-ok (fetch_with_progress world url filename) _ h in
        let (_, checked, same) = >>-eq-ok (reported world filename _) _ h1 in
        let eq : got ≡ message = cc in
        let (read, verified) =
          verify_artifact-IsVerified world.crypto lawful (sums_input world got name sums)
            (wrap-eq-ok of_verify _ (reported-eq-ok filename _ checked)) in
        let read_eq : read ≡ got = ground (arith, verified.read) in
        let (entries, want, parsed, listed, digest) = verified.by_sums refl in
        record {
          downloaded = fetch_with_progress-eq-ok url filename got fetched ∙ ap ok eq;
          entries = entries;
          parsed = parsed;
          want = want;
          listed = listed;
          digest = digest ∙ ap (λ m. some (world.crypto.sha256 m)) (read_eq ∙ eq);
        }
