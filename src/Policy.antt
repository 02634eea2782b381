-- ===== src/Policy.antt =====
-- internal/policy/policy.go: signed policy decisions. This file holds the decision, its trust and
-- its freshness; Loading reads it from a file, a URL or the cache; Selection checks it against the
-- inventory. Ed25519 and the JSON decoder are arguments.
mod Examples
pub mod Freshness
pub mod Trusted
pub mod Loading
pub mod Selection
use Prim.Native.Nat.{◌^◌, min}
use bootup.Common.{
  Bool, List, Option, Result, String, eqb, err, false, if◌then◌else◌, is_nil, is_none, is_positive,
  leb, length, ltb, negsuc, none, not, ok, pos, pos_part, refuse_if, some, true, ℕ, ℤ, ◌&&◌, ◌-◌,
  ◌>>=◌, ◌>>◌, ◌||◌,
}
use bootup.Text.{is_empty}
use bootup.Verify.{Bytes}

-- A time is a number of nanoseconds since the first that Go represents.
pub record Decision : Type 0 where
  pub schema_version : ℤ
  pub decision_id : String
  pub target_id : String
  pub options : List (String × String)
  pub secret_refs : List (String × String)
  pub published_at : Option ℕ
  pub expires_at : Option ℕ

pub record Trust : Type 0 where
  pub ed25519_signature : Bytes
  pub ed25519_public_key : Bytes

pub record LoadOptions : Type 0 where
  pub path : String
  pub trust : Trust
  pub max_bytes : ℤ
  pub now : ℕ
  pub max_age : ℤ
  pub cache_path : String
  pub cache_fallback : Bool

pub data PolicyProblem : Type 0 where
  trust_missing signature_length public_key_length signature_invalid : PolicyProblem
  decode_failed multiple_values schema_version decision_id_empty target_id_empty : PolicyProblem
  freshness_missing expired published_missing published_in_future too_old : PolicyProblem
  path_empty open_failed read_failed too_large : PolicyProblem
  url_invalid url_not_https : PolicyProblem
  cache_directory cache_create cache_write cache_chmod cache_close cache_rename : PolicyProblem
  target_unknown options_rejected secrets_rejected : PolicyProblem

-- `invalid` wraps ErrInvalidPolicy; the others do not, but for what they wrap.
pub data PolicyError : Type 0 where
  invalid : PolicyProblem → PolicyError
  request_failed transport_failed status_failed : PolicyError
  cache_after_source cache_after_fetch : PolicyError → PolicyError

-- `errors.Is(err, ErrInvalidPolicy)`; a cache failure after a source failure wraps both
abbrev pub is_invalid_policy : PolicyError → Bool
is_invalid_policy (invalid p) = true
is_invalid_policy (cache_after_source e) = true
is_invalid_policy (cache_after_fetch e) = is_invalid_policy e
is_invalid_policy request_failed = false
is_invalid_policy transport_failed = false
is_invalid_policy status_failed = false

-- What the program calls outside the repository. The decoder returns the decision and whether the
-- input ends behind it.
pub record PolicyLibrary : Type 0 where
  pub verify : Bytes → Bytes → Bytes → Bool
  pub decode : Bytes → Option (Decision × Bool)

unfoldable pub configured : Trust → Bool
configured trust = not (is_nil trust.ed25519_signature) || not (is_nil trust.ed25519_public_key)

unfoldable pub is_schema_version : ℤ → Bool
is_schema_version (pos n) = eqb n 1
is_schema_version (negsuc n) = false

-- the longest duration: Sub saturates there
abbrev pub max_duration : ℕ
max_duration = 2 ^ 63 - 1

module _ (library : PolicyLibrary) where
  unfoldable pub verify_trust : Bytes → Trust → Result PolicyError (Unit {0})
  unfolding configured
  verify_trust message trust = do
    refuse_if (not (configured trust)) (invalid trust_missing)
    refuse_if (not (eqb (length trust.ed25519_signature) 64)) (invalid signature_length)
    refuse_if (not (eqb (length trust.ed25519_public_key) 32)) (invalid public_key_length)
    refuse_if (not (library.verify trust.ed25519_public_key message trust.ed25519_signature))
        (invalid signature_invalid)

  unfoldable pub parse_decision : Bytes → Result PolicyError Decision
  unfolding is_schema_version
  parse_decision message = elim (library.decode message) [
    | none ↦ err (invalid decode_failed)
    | some (decision, ends) ↦ do
      refuse_if (not ends) (invalid multiple_values)
      refuse_if (not (is_schema_version decision.schema_version)) (invalid schema_version)
      refuse_if (is_empty decision.decision_id) (invalid decision_id_empty)
      refuse_if (is_empty decision.target_id) (invalid target_id_empty)
      ok decision
  ]

-- `decision.ExpiresAt != nil && !decision.ExpiresAt.After(now)`
abbrev has_expired : Option ℕ → ℕ → Bool
has_expired none now = false
has_expired (some t) now = leb t now

-- the last block of `validateFreshness`
unfoldable pub validate_age : Option ℕ → ℕ → ℕ → Result PolicyError (Unit {0})
validate_age none now max_age = err (invalid published_missing)
validate_age (some published) now max_age = do
  refuse_if (ltb now published) (invalid published_in_future)
  refuse_if (ltb max_age (min (now - published) max_duration)) (invalid too_old)

unfoldable pub validate_freshness : Decision → LoadOptions → Result PolicyError (Unit {0})
unfolding validate_age
validate_freshness decision options = do
  refuse_if
      (is_none decision.expires_at
        && (not (is_positive options.max_age) || is_none decision.published_at))
      (invalid freshness_missing)
  refuse_if (has_expired decision.expires_at options.now) (invalid expired)
  if is_positive options.max_age
      then validate_age decision.published_at options.now (pos_part options.max_age)
      else ok tt

module _ (library : PolicyLibrary) where
  unfoldable pub parse_trusted_decision : Bytes → LoadOptions → Result PolicyError Decision
  parse_trusted_decision message options = do
    verify_trust library message options.trust
    decision ← parse_decision library message
    validate_freshness decision options
    ok decision
