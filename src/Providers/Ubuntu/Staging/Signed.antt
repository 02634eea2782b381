-- ===== src/Providers/Ubuntu/Staging/Signed.antt =====
-- The checksum file that the Ubuntu provider reads under a keyring.
use bootup.Verify.{Bytes, Checksums, parse_sha256_sums}
use bootup.Verify.Digests.{IsLawful}
use bootup.Verify.Artifacts.{IsSigned, verify_artifact-IsVerified}
use bootup.Provider.{BootPlan}
use bootup.Providers.{of_verify}
use bootup.Providers.Staging.{World}
use bootup.Providers.Debian.Staging.{fetch_response, fetch_with_progress, reported}
use bootup.Providers.Debian.Staging.Trust.{fetch_with_progress-eq-ok, reported-eq-ok}
use bootup.Providers.Ubuntu.{target_iso_name}
use bootup.Providers.Ubuntu.Staging.{check_sums_file, require_checksum_entry, signature_input}
use bootup.Common.{
  >>-eq-ok, >>=-eq-ok, String, arith, false, is_none, lookup, ok, refl, refuse_if-eq-ok, some, wrap,
  wrap-eq-ok, ◌≡◌,
}

module _ {Keyring : Type 0} (world : World Keyring) (lawful : IsLawful world.crypto) where
  -- A checksum file that was downloaded, whose detached signature was downloaded and is good under
  -- a keyring, and which lists the ISO image of the target.
  pub record IsSignedList (keyring : Bytes) (boot_plan : BootPlan) : Type 0 where
    pub sums : Bytes
    pub signature : Bytes
    pub sums_downloaded : fetch_response world boot_plan.verification.checksum_url ≡ ok sums
    pub signature_downloaded :
        fetch_response world boot_plan.verification.signature_url ≡ ok signature
    pub signed : IsSigned world.crypto sums (some (some signature)) (some (some keyring))
    pub iso_name : String
    pub named : target_iso_name boot_plan.target ≡ ok iso_name
    pub checksums : Checksums
    pub parsed : parse_sha256_sums world.crypto (some (some sums)) ≡ ok checksums
    pub listed : is_none (lookup iso_name checksums) ≡ false

  require_checksum_entry-eq-ok :
      (sums : Bytes) (name : String) {u : Unit {0}}
      → require_checksum_entry world sums name ≡ ok u
      → (checksums : Checksums) × (parse_sha256_sums world.crypto (some (some sums)) ≡ ok checksums)
        × (is_none (lookup name checksums) ≡ false)
  unfolding require_checksum_entry
  require_checksum_entry-eq-ok sums name h =
      let (checksums, parsed, found) =
        >>=-eq-ok (wrap of_verify (parse_sha256_sums world.crypto (some (some sums)))) _ h in
      (checksums, wrap-eq-ok of_verify _ parsed, refuse_if-eq-ok _ _ found)

  pub check_sums_file-IsSignedList :
      (keyring : Bytes) (boot_plan : BootPlan) {u : Unit {0}}
      → check_sums_file world keyring boot_plan ≡ ok u
      → IsSignedList keyring boot_plan
  unfolding check_sums_file
  check_sums_file-IsSignedList keyring boot_plan h =
      let sums_url = boot_plan.verification.checksum_url in
      let signature_url = boot_plan.verification.signature_url in
      let (sums, got_sums, h1) = >>=-eq-ok (fetch_with_progress world sums_url "SHA256SUMS") _ h in
      let (signature, got_signature, h2) =
        >>=-eq-ok (fetch_with_progress world signature_url "SHA256SUMS.gpg") _ h1 in
      let (_, checked, h3) = >>-eq-ok (reported world "SHA256SUMS" _) _ h2 in
      let (iso_name, named, listed) = >>=-eq-ok (target_iso_name boot_plan.target) _ h3 in
      let (checksums, parsed, found) = require_checksum_entry-eq-ok sums iso_name listed in
      let input = signature_input world sums signature keyring in
      let (read, verified) =
        verify_artifact-IsVerified world.crypto lawful input
          (wrap-eq-ok of_verify _ (reported-eq-ok world "SHA256SUMS" _ checked)) in
      let same : read ≡ sums = ground (arith, verified.read) in
      record {
        sums = sums;
        signature = signature;
        sums_downloaded = fetch_with_progress-eq-ok world sums_url "SHA256SUMS" sums got_sums;
        signature_downloaded =
            fetch_with_progress-eq-ok world signature_url "SHA256SUMS.gpg" signature got_signature;
        signed = is_signed_of read sums signature keyring same (verified.by_signature refl);
        iso_name = iso_name;
        named = named;
        checksums = checksums;
        parsed = parsed;
        listed = found;
      }
    where
      is_signed_of :
          (read sums signature keyring : Bytes)
          → read ≡ sums
          → IsSigned world.crypto read (some (some signature)) (some (some keyring))
          → IsSigned world.crypto sums (some (some signature)) (some (some keyring))
      is_signed_of read sums signature keyring same signed = rw (← same) signed
