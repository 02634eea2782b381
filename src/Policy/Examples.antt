-- ===== src/Policy/Examples.antt =====
-- A policy on which the theorems about decisions are used, and tests of the definitions.
use Prim.Native.Nat.{◌^◌}
use bootup.Policy.{
  Decision, LoadOptions, PolicyError, PolicyLibrary, Trust, configured, expired, invalid,
  is_invalid_policy, parse_decision, parse_trusted_decision, too_old, validate_freshness,
  verify_trust,
}
use bootup.Policy.Freshness.{IsFresh, validate_freshness_iff}
use bootup.Policy.Trusted.{IsTrusted, parse_trusted_decision-IsTrusted}
use bootup.Policy.Loading.{
  CacheWrite, Disk, Fetch, RemoteOptions, accept_policy, byte_limit, fetch_policy_url, load_file,
  load_options, load_policy_cache, load_url, put, read_limit, read_policy_bytes, read_policy_file,
  write_policy_cache,
}
use bootup.Policy.Loading.Limits.{read_policy_bytes_iff}
use bootup.Policy.Loading.Sources.{IsFetched, load_file-IsTrusted, load_url-IsTrusted}
use bootup.Policy.Loading.Cache.{
  KeptOrTrusted, load_file-KeptOrTrusted, load_policy_cache-load_file,
}
use bootup.Provider.Source.{UrlParser}
use bootup.Verify.{Bytes}
use bootup.Common.{
  [], arith, err, false, length, none, ok, pos, refl, some, suc, true, zero, ℕ, ◌-◌, ◌<◌, ◌↔◌, ◌∷◌,
  ◌≡◌, ◌≤◌, ◌⊎◌,
}

abbrev bytes : ℕ → Bytes
bytes zero = []
bytes (suc n) = 1 ∷ bytes n

abbrev decision : Decision
decision = record {
  schema_version = pos 1;
  decision_id = "night-build";
  target_id = "local";
  options = [];
  secret_refs = [];
  published_at = some 50;
  expires_at = some 200;
}

-- Every signature is good, and every message is the decision.
abbrev library : PolicyLibrary
library = record { verify = λ _ _ _. true; decode = λ _. some (decision, true) }

abbrev trust : Trust
trust = record { ed25519_signature = bytes 64; ed25519_public_key = bytes 32 }

abbrev options : LoadOptions
options = record {
  path = "/policy.json";
  trust = trust;
  max_bytes = pos 16;
  now = 100;
  max_age = pos 60;
  cache_path = "/cache/policy.json";
  cache_fallback = true;
}

abbrev message : Bytes
message = 123 ∷ 125 ∷ []

abbrev disk : Disk
disk = put "/policy.json" (some (some message)) (λ _. none)

abbrev writes : CacheWrite
writes = record {
  temp_path = "/cache/tmp";
  mkdir_ok = true;
  made = λ _. true;
  create_ok = true;
  write_ok = true;
  chmod_ok = true;
  close_ok = true;
  rename_ok = true;
}

abbrev urls : UrlParser
urls = λ _. some (record { scheme = "https"; host = "policy.test"; path = "/policy.json" })

abbrev remote : RemoteOptions
remote = record {
  url = "https://policy.test/policy.json";
  trust = trust;
  max_bytes = pos 16;
  now = 100;
  max_age = pos 60;
  cache_path = "/cache/policy.json";
  cache_fallback = true;
}

abbrev response : Fetch
response = record { request_ok = true; transport_ok = true; status = 200; body = some message }

trusted_parse : parse_trusted_decision library message options ≡ ok decision
unfolding parse_trusted_decision verify_trust parse_decision validate_freshness
trusted_parse = refl

expired_fails : validate_freshness decision (record options { now = 200 }) ≡ err (invalid expired)
unfolding validate_freshness
expired_fails = refl

old_fails : validate_freshness decision (record options { now = 111 }) ≡ err (invalid too_old)
unfolding validate_freshness
old_fails = refl

file_loads : (load_file library writes options disk).0 ≡ ok decision
unfolding load_file accept_policy configured read_policy_file read_policy_bytes read_limit
    byte_limit write_policy_cache parse_trusted_decision verify_trust parse_decision
    validate_freshness
file_loads = refl

url_loads : (load_url library writes urls response remote disk).0 ≡ ok decision
unfolding load_url fetch_policy_url accept_policy configured read_policy_bytes read_limit byte_limit
    write_policy_cache parse_trusted_decision verify_trust parse_decision validate_freshness
url_loads = refl

file_reads : read_policy_file disk "/policy.json" (pos 16) ≡ ok message
unfolding read_policy_file read_policy_bytes read_limit byte_limit
file_reads = refl

limit_fits : byte_limit (pos 16) < 2 ^ 63 - 1
unfolding byte_limit
limit_fits = omega arith

validate_freshness_iff_example :
    (validate_freshness decision options ≡ ok tt) ↔ IsFresh decision 100 (pos 60)
validate_freshness_iff_example = validate_freshness_iff decision options (omega arith)

parse_trusted_decision-IsTrusted_example : IsTrusted library options message decision
parse_trusted_decision-IsTrusted_example =
    parse_trusted_decision-IsTrusted library message options decision trusted_parse

load_file-IsTrusted_example :
    (m : Bytes) × IsTrusted library options m decision
    × ((read_policy_file disk "/policy.json" (pos 16) ≡ ok m)
        ⊎ ((e : PolicyError) × (read_policy_file disk "/policy.json" (pos 16) ≡ err e)
            × (options.cache_fallback ≡ true)
            × (read_policy_file disk "/cache/policy.json" (pos 16) ≡ ok m)))
load_file-IsTrusted_example = load_file-IsTrusted library writes options disk decision file_loads

load_url-IsTrusted_example :
    (m : Bytes) × IsTrusted library (load_options remote) m decision
    × (((fetch_policy_url urls response remote ≡ ok m) × IsFetched urls response remote)
        ⊎ ((e : PolicyError) × (fetch_policy_url urls response remote ≡ err e)
            × (is_invalid_policy e ≡ false)
            × (remote.cache_fallback ≡ true)
            × (read_policy_file disk "/cache/policy.json" (pos 16) ≡ ok m)))
load_url-IsTrusted_example =
    load_url-IsTrusted library writes urls response remote disk decision url_loads

load_file-KeptOrTrusted_example :
    KeptOrTrusted library options disk
      (load_file library writes options disk).1
      "/cache/policy.json"
load_file-KeptOrTrusted_example =
    load_file-KeptOrTrusted library writes options disk "/cache/policy.json" refl

load_policy_cache-load_file_example :
    load_policy_cache library (load_file library writes options disk).1 options ≡ ok decision
load_policy_cache-load_file_example =
    load_policy_cache-load_file library writes options disk message decision refl refl file_reads
      file_loads

read_policy_bytes_iff_example :
    (read_policy_bytes (some message) (pos 16) ≡ ok message)
    ↔ ((message ≡ message) × (length message ≤ byte_limit (pos 16)))
read_policy_bytes_iff_example = read_policy_bytes_iff message message (pos 16) limit_fits
