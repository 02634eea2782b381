-- ===== src/Policy/Loading/Sources.antt =====
-- Whatever the source, only a trusted decision is returned.
use bootup.Common.{
  >>=-eq-ok, Option-cases, Result-cases, ap, arith, eq_iff, err, false, inl, inr, ok, some, true,
  ◌<◌, ◌∙◌, ◌≡◌, ◌≤◌, ◌⊎◌,
}
use bootup.Verify.{Bytes}
use bootup.Policy.{
  Decision, LoadOptions, PolicyError, PolicyLibrary, is_invalid_policy, parse_trusted_decision,
}
use bootup.Policy.Trusted.{IsTrusted, parse_trusted_decision-IsTrusted}
use bootup.Policy.Loading.{
  CacheWrite, Disk, Fetch, RemoteOptions, accept_policy, fetch_policy_url, load_file, load_options,
  load_policy_cache, load_url, read_policy_file,
}
use bootup.Provider.Source.{Url, UrlParser}

module _ (library : PolicyLibrary) (w : CacheWrite) where
  accept_policy-IsTrusted :
      (message : Bytes) (options : LoadOptions) (disk : Disk) (decision : Decision)
      → (accept_policy library w message options disk).0 ≡ ok decision
      → IsTrusted library options message decision
  unfolding accept_policy
  accept_policy-IsTrusted message options disk decision h =
      elim (Result-cases (parse_trusted_decision library message options)) [
        | inr (e, bad) ↦ absurd (ground (arith, bad))
        | inl (d, parsed) ↦
            let same : d ≡ decision = ground (arith, parsed) in
            parse_trusted_decision-IsTrusted library message options decision (parsed ∙ ap ok same)
      ]

  load_policy_cache-IsTrusted :
      (disk : Disk) (options : LoadOptions) (decision : Decision)
      → load_policy_cache library disk options ≡ ok decision
      → (message : Bytes) × (read_policy_file disk options.cache_path options.max_bytes
          ≡ ok message)
        × IsTrusted library options message decision
  unfolding load_policy_cache
  load_policy_cache-IsTrusted disk options decision h =
      let (message, read, parsed) =
        >>=-eq-ok (read_policy_file disk options.cache_path options.max_bytes) _ h in
      (message, read, parse_trusted_decision-IsTrusted library message options decision parsed)

  -- Every decision that is loaded from a file is trusted, and its message was read from the file
  -- or, where the file could not be read and the operator allows it, from the cache.
  pub load_file-IsTrusted :
      (options : LoadOptions) (disk : Disk) (decision : Decision)
      → (load_file library w options disk).0 ≡ ok decision
      → (message : Bytes) × IsTrusted library options message decision
        × ((read_policy_file disk options.path options.max_bytes ≡ ok message)
            ⊎ ((e : PolicyError) × (read_policy_file disk options.path options.max_bytes ≡ err e)
                × (options.cache_fallback ≡ true)
                × (read_policy_file disk options.cache_path options.max_bytes ≡ ok message)))
  unfolding load_file
  load_file-IsTrusted options disk decision h =
      elim (Result-cases (read_policy_file disk options.path options.max_bytes)) [
        | inl (message, read) ↦ (
          message,
          accept_policy-IsTrusted message options disk decision (ground (arith, read)),
          inl read,
        )
        | inr (e, failed) ↦
            let cached : load_policy_cache library disk options ≡ ok decision =
              ground (arith, failed) in
            let (message, read, trusted) =
              load_policy_cache-IsTrusted disk options decision cached in
            (message, trusted, inr (e, failed, ground (arith, failed), read))
      ]

-- A message that was fetched came over HTTPS with a status of success.
pub record IsFetched (parse_url : UrlParser) (fetch : Fetch) (options : RemoteOptions)
    : Type 0 where
  pub url : Url
  pub parsed : parse_url options.url ≡ some url
  pub https : url.scheme ≡ "https"
  pub success_low : 200 ≤ fetch.status
  pub success_high : fetch.status < 300

pub fetch_policy_url-IsFetched :
    (parse_url : UrlParser) (fetch : Fetch) (options : RemoteOptions) (message : Bytes)
    → fetch_policy_url parse_url fetch options ≡ ok message
    → IsFetched parse_url fetch options
unfolding fetch_policy_url
fetch_policy_url-IsFetched parse_url fetch options message h =
    elim (Option-cases (parse_url options.url)) [
      | inl bad ↦ absurd (ground (arith, bad))
      | inr (url, parsed) ↦ record {
        url = url;
        parsed = parsed;
        https = (eq_iff url.scheme "https").0 (ground (arith, parsed));
        success_low = ground (arith, parsed);
        success_high = ground (arith, parsed);
      }
    ]

module _ (library : PolicyLibrary) (w : CacheWrite) (parse_url : UrlParser) (fetch : Fetch) where
  -- Every decision that is loaded from a URL is trusted. Its message came over HTTPS, or, where the
  -- operator allows it, from the cache after a failure of the network: a response that was
  -- refused as invalid is never replaced by the cache.
  pub load_url-IsTrusted :
      (options : RemoteOptions) (disk : Disk) (decision : Decision)
      → (load_url library w parse_url fetch options disk).0 ≡ ok decision
      → (message : Bytes) × IsTrusted library (load_options options) message decision
        × (((fetch_policy_url parse_url fetch options ≡ ok message)
              × IsFetched parse_url fetch options)
            ⊎ ((e : PolicyError) × (fetch_policy_url parse_url fetch options ≡ err e)
                × (is_invalid_policy e ≡ false)
                × (options.cache_fallback ≡ true)
                × (read_policy_file disk options.cache_path options.max_bytes ≡ ok message)))
  unfolding load_url
  load_url-IsTrusted options disk decision h =
      elim (Result-cases (fetch_policy_url parse_url fetch options)) [
        | inl (message, read) ↦ (
          message,
          accept_policy-IsTrusted library w message (load_options options) disk decision
              (ground (arith, read)),
          inl (read, fetch_policy_url-IsFetched parse_url fetch options message read),
        )
        | inr (e, failed) ↦
            let cached : load_policy_cache library disk (load_options options) ≡ ok decision =
              ground (arith, failed) in
            let (message, read, trusted) =
              load_policy_cache-IsTrusted library w disk (load_options options) decision cached in
            (
              message,
              trusted,
              inr (e, failed, ground (arith, failed), ground (arith, failed), read),
            )
      ]
