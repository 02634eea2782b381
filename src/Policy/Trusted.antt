-- ===== src/Policy/Trusted.antt =====
-- `parseTrustedDecision`: what a decision that the program acts on has passed.
use bootup.Common.{
  >>-eq-ok, >>=-eq-ok, Option-cases, ap, arith, eqb→eq, false, inl, inr, length, negsuc, ok, pos,
  some, true, ℤ, ◌≡◌,
}
use bootup.Text.{is_empty}
use bootup.Verify.{Bytes}
use bootup.Policy.{
  Decision, LoadOptions, PolicyLibrary, Trust, is_schema_version, parse_decision,
  parse_trusted_decision, validate_freshness, verify_trust,
}

module _ (library : PolicyLibrary) where
  -- The message is signed under the operator's key, and is one decision, of the version that the
  -- program reads, with its IDs, and fresh.
  pub record IsTrusted (options : LoadOptions) (message : Bytes) (decision : Decision)
      : Type 0 where
    pub signature_length : length (options.trust.ed25519_signature) ≡ 64
    pub key_length : length (options.trust.ed25519_public_key) ≡ 32
    pub signed :
        library.verify (options.trust.ed25519_public_key) message (options.trust.ed25519_signature)
        ≡ true
    pub decoded : library.decode message ≡ some (decision, true)
    pub version : decision.schema_version ≡ pos 1
    pub has_decision_id : is_empty decision.decision_id ≡ false
    pub has_target_id : is_empty decision.target_id ≡ false
    pub fresh : validate_freshness decision options ≡ ok tt

  trust_sound :
      (message : Bytes) (trust : Trust)
      → verify_trust library message trust ≡ ok tt
      → (length trust.ed25519_signature ≡ 64)
        × (length trust.ed25519_public_key ≡ 32)
        × (library.verify trust.ed25519_public_key message trust.ed25519_signature ≡ true)
  unfolding verify_trust
  trust_sound message trust h = (ground arith, ground arith, ground arith)

  version_sound : (v : ℤ) → is_schema_version v ≡ true → v ≡ pos 1
  unfolding is_schema_version
  version_sound (pos n) h = ap pos (eqb→eq n 1 h)
  version_sound (negsuc n) h = cc

  decision_sound :
      (message : Bytes) (decision : Decision)
      → parse_decision library message ≡ ok decision
      → (library.decode message ≡ some (decision, true))
        × (decision.schema_version ≡ pos 1)
        × (is_empty decision.decision_id ≡ false)
        × (is_empty decision.target_id ≡ false)
  unfolding parse_decision
  decision_sound message decision h = elim (Option-cases (library.decode message)) [
    | inl bad ↦ absurd (ground (arith, bad))
    | inr ((d, ends), good) ↦
        let same : d ≡ decision = ground (arith, good) in
        let whole : ends ≡ true = ground (arith, good) in
        (
          cc (good, same, whole),
          version_sound decision.schema_version (ground (arith, good)),
          ground (arith, good),
          ground (arith, good),
        )
  ]

  trusted :
      (message : Bytes) (options : LoadOptions) (decision d : Decision)
      → verify_trust library message options.trust ≡ ok tt
      → parse_decision library message ≡ ok d
      → validate_freshness d options ≡ ok tt
      → d ≡ decision
      → IsTrusted options message decision
  trusted message options decision d good parsed fresh same =
      let (sig, key, signed) = trust_sound message options.trust good in
      let (decoded, version, has_id, has_target) =
        decision_sound message decision (rw same at parsed) in
      record {
        signature_length = sig;
        key_length = key;
        signed = signed;
        decoded = decoded;
        version = version;
        has_decision_id = has_id;
        has_target_id = has_target;
        fresh = rw same at fresh;
      }

  -- Every decision that parses as trusted has a good signature of 64 bytes under a key of 32, is
  -- the only value of its message, has version 1 and both IDs, and is fresh.
  pub parse_trusted_decision-IsTrusted :
      (message : Bytes) (options : LoadOptions) (decision : Decision)
      → parse_trusted_decision library message options ≡ ok decision
      → IsTrusted options message decision
  unfolding parse_trusted_decision
  parse_trusted_decision-IsTrusted message options decision h =
      let (_, signed, rest) = >>-eq-ok (verify_trust library message options.trust) _ h in
      let (d, parsed, last) = >>=-eq-ok (parse_decision library message) _ rest in
      let (_, fresh, same) = >>-eq-ok (validate_freshness d options) _ last in
      trusted message options decision d signed parsed fresh (cc same)
