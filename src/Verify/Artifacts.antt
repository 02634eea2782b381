-- ===== src/Verify/Artifacts.antt =====
-- `Artifact` fails closed: what an accepted artifact has passed.
use bootup.Common.{
  >>=-eq-ok, Bool, Option, String, arith, eqb, false, is_none, keys, lookup, none, ok, refl,
  refuse_if, some, true, ℕ, ◌&&◌, ◌+◌, ◌||◌, ◌≡◌,
}
use bootup.Text.{decode_hex, is_empty}
use bootup.Verify.{
  ArtifactInput, Bytes, Checksums, Crypto, Reader, VerifyError, artifact_required, check_detached,
  check_expected, check_sha256_sums, check_signature, check_sums, no_material, parse_sha256_sums,
  read_all, read_keyring, verify_artifact,
}
use bootup.Verify.Digests.{IsLawful, check_sha256_iff}
use bootup.Verify.Sums.{check_sha256_sums_iff}

-- where no check was made, none is counted
some_supplied :
    (p q r : Bool) {a b c : ℕ}
    → (p ≡ true → a ≡ 0)
    → (q ≡ true → b ≡ 0)
    → (r ≡ true → c ≡ 0)
    → refuse_if (eqb (a + b + c) 0) no_material ≡ ok tt
    → (p && q && r) ≡ false
some_supplied true true true ha hb hc h = absurd (counted (ha refl) (hb refl) (hc refl) h)
  where
    counted :
        {a b c : ℕ} → a ≡ 0 → b ≡ 0 → c ≡ 0 → refuse_if (eqb (a + b + c) 0) no_material ≡ ok tt → ⊥
    counted ha hb hc h = ground arith
some_supplied true true false ha hb hc h = refl
some_supplied true false r ha hb hc h = refl
some_supplied false q r ha hb hc h = refl

module _ {Keyring : Type 0} (crypto : Crypto Keyring) where
  -- One of the two detached forms of a signature is good under the keys that the keyring holds.
  pub record IsSigned (message : Bytes) (signature keyring : Option Reader) : Type 0 where
    pub keys : Keyring
    pub signed : Bytes
    pub keys_read : read_keyring crypto keyring ≡ ok keys
    pub signature_read : signature ≡ some (some signed)
    pub checked :
        (crypto.check_armored keys message signed || crypto.check_binary keys message signed) ≡ true

  -- What an accepted artifact has passed: every check whose material was given, and one at least.
  pub record IsVerified (input : ArtifactInput) (message : Bytes) : Type 0 where
    pub read : input.artifact ≡ some (some message)
    pub by_digest :
        is_empty input.expected_sha256 ≡ false
        → decode_hex input.expected_sha256 ≡ some (crypto.sha256 message)
    pub by_sums :
        is_none input.sha256_sums ≡ false
        → (entries : Checksums) × (want : String) × (parse_sha256_sums crypto input.sha256_sums
            ≡ ok entries)
          × (lookup input.name entries ≡ some want)
          × (decode_hex want ≡ some (crypto.sha256 message))
    pub by_signature :
        is_none input.signature ≡ false → IsSigned message input.signature input.keyring
    pub supplied :
        (is_empty input.expected_sha256 && is_none input.sha256_sums && is_none input.signature)
        ≡ false

  read_all_inv :
      (e : VerifyError) (reader : Option Reader) (message : Bytes)
      → read_all e reader ≡ ok message
      → reader ≡ some (some message)
  read_all_inv e none message h = cc
  read_all_inv e (some none) message h = cc
  read_all_inv e (some (some bytes)) message h = ground arith

  check_signature-IsSigned :
      (message : Bytes) (signature keyring : Option Reader)
      → check_signature crypto (some (some message)) signature keyring ≡ ok tt
      → IsSigned message signature keyring
  unfolding check_signature
  check_signature-IsSigned message none keyring h = cc
  check_signature-IsSigned message (some none) keyring h =
      let (keys, _, rest) = >>=-eq-ok (read_keyring crypto keyring) _ h in cc rest
  check_signature-IsSigned message (some (some signed)) keyring h =
      let (keys, opened, rest) = >>=-eq-ok (read_keyring crypto keyring) _ h in
      record {
        keys = keys;
        signed = signed;
        keys_read = opened;
        signature_read = refl;
        checked = ground arith;
      }

  module _ (lawful : IsLawful crypto) where
    expected_sound :
        (input : ArtifactInput) (message : Bytes) (n : ℕ)
        → check_expected crypto input message ≡ ok n
        → (is_empty input.expected_sha256 ≡ false
            → decode_hex input.expected_sha256 ≡ some (crypto.sha256 message))
          × (is_empty input.expected_sha256 ≡ true → n ≡ 0)
    unfolding check_expected
    expected_sound input message n h = (
      λ full. (check_sha256_iff crypto lawful message input.expected_sha256).0 (ground arith),
      λ bare. ground arith,
    )

    sums_sound :
        (input : ArtifactInput) (message : Bytes) (n : ℕ)
        → check_sums crypto input message ≡ ok n
        → (is_none input.sha256_sums ≡ false
            → check_sha256_sums crypto (some (some message)) input.sha256_sums input.name ≡ ok tt)
          × (is_none input.sha256_sums ≡ true → n ≡ 0)
    unfolding check_sums
    sums_sound input message n h = (λ given. ground arith, λ absent. ground arith)

    detached_sound :
        (input : ArtifactInput) (message : Bytes) (n : ℕ)
        → check_detached crypto input message ≡ ok n
        → (is_none input.signature ≡ false
            → check_signature crypto (some (some message)) input.signature input.keyring ≡ ok tt)
          × (is_none input.signature ≡ true → n ≡ 0)
    unfolding check_detached
    detached_sound input message n h = (λ given. ground arith, λ absent. ground arith)

    -- An artifact that is accepted was read, has passed every check whose material was given (the
    -- digest, the entry of its name in the sums, the signature under a keyring), and material for
    -- one check at least was given.
    pub verify_artifact-IsVerified :
        (input : ArtifactInput)
        → verify_artifact crypto input ≡ ok tt
        → (message : Bytes) × IsVerified input message
    unfolding verify_artifact
    verify_artifact-IsVerified input h =
        let (message, opened, rest) = >>=-eq-ok (read_all artifact_required input.artifact) _ h in
        let (a, digest_ok, rest_a) = >>=-eq-ok (check_expected crypto input message) _ rest in
        let (b, sums_ok, rest_b) = >>=-eq-ok (check_sums crypto input message) _ rest_a in
        let (c, detached_ok, rest_c) = >>=-eq-ok (check_detached crypto input message) _ rest_b in
        let (digest, no_digest) = expected_sound input message a digest_ok in
        let (sums, no_sums) = sums_sound input message b sums_ok in
        let (detached, no_detached) = detached_sound input message c detached_ok in
        (
          message,
          record {
            read = read_all_inv artifact_required input.artifact message opened;
            by_digest = digest;
            by_sums = λ given.
                (check_sha256_sums_iff crypto lawful message input.sha256_sums input.name).0
                  (sums given);
            by_signature = λ given.
                check_signature-IsSigned message input.signature input.keyring (detached given);
            supplied = some_supplied _ _ _ no_digest no_sums no_detached rest_c;
          },
        )
