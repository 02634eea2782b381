-- ===== src/Policy/Loading/Cache.antt =====
-- The policy cache: what a load may change on disk, and that a cached decision loads again.
use bootup.Common.{
  >>-eq-ok, Bool, Bool-cases, Option, Option-cases, Result-cases, String, ap, arith, eq_iff, false,
  if◌then◌else◌, inl, inr, ok, refl, some, sym, true, ◌&&◌, ◌==◌, ◌>>◌, ◌↔◌, ◌∙◌, ◌≡◌,
}
use bootup.Verify.{Bytes, Reader}
use bootup.Policy.Loading.Writes.{KeptOrMade, as_before, make_all-KeptOrMade}
use bootup.Policy.Loading.{
  CacheWrite, Disk, accept_policy, load_file, load_policy_cache, make_all, put, read_policy_bytes,
  read_policy_file, write_policy_cache,
}
use bootup.Text.{dir_name, is_empty}
use bootup.Policy.{Decision, LoadOptions, PolicyLibrary, configured, parse_trusted_decision}
use bootup.Policy.Trusted.{IsTrusted, parse_trusted_decision-IsTrusted}
use bootup.Policy.Loading.Limits.{read_policy_bytes_again}

put_other :
    (path at : String) (content : Option Reader) (disk : Disk)
    → (path == at) ≡ false
    → put path content disk at ≡ disk at
put_other path at content disk h = rw h

-- every step of a write succeeds
abbrev succeeds : CacheWrite → Bool
succeeds w = w.mkdir_ok && w.create_ok && w.write_ok && w.chmod_ok && w.close_ok && w.rename_ok

-- Behind the temporary file and the directories that it makes, a write changes only its path, and
-- only where every step succeeds.
write_effect :
    (w : CacheWrite) (path at : String) (message : Bytes) (disk : Disk)
    → (w.temp_path == at) ≡ false
    → ((write_policy_cache w path message disk).1 at ≡ (
        if succeeds w && path == at
        then some (some message)
        else make_all w (dir_name path) disk at))
      × (((write_policy_cache w path message disk).0 ≡ ok tt) ↔ (succeeds w ≡ true))
unfolding write_policy_cache
write_effect w path at message disk h = elim (Bool-cases w.mkdir_ok) [
  | inr off ↦ rw off (refl, (λ e. cc, λ e. cc))
  | inl a ↦ elim (Bool-cases w.create_ok) [
    | inr off ↦ rw (a, off) (refl, (λ e. cc, λ e. cc))
    | inl b ↦ elim (Bool-cases w.write_ok) [
      | inr off ↦ rw (a, b, off) (rw h, (λ e. cc, λ e. cc))
      | inl c ↦ elim (Bool-cases w.chmod_ok) [
        | inr off ↦ rw (a, b, c, off) (rw h, (λ e. cc, λ e. cc))
        | inl d ↦ elim (Bool-cases w.close_ok) [
          | inr off ↦ rw (a, b, c, d, off) (rw h, (λ e. cc, λ e. cc))
          | inl e ↦ elim (Bool-cases w.rename_ok) [
            | inr off ↦ rw (a, b, c, d, e, off) (rw h, (λ e. cc, λ e. cc))
            | inl f ↦ rw (a, b, c, d, e, f) (rw h, (λ e. refl, λ e. refl))
          ]
        ]
      ]
    ]
  ]
]

-- What a load leaves at a path: what was there, or a directory on the way to the cache path, or, at
-- the cache path, a message whose decision is trusted.
pub data KeptOrTrusted (library : PolicyLibrary) (options : LoadOptions) (before after : Disk)
    (at : String) : Type 0 where
  kept :
      KeptOrMade (dir_name options.cache_path) before after at
      → KeptOrTrusted library options before after at
  trusted :
      (message : Bytes) (decision : Decision)
      → options.cache_path ≡ at
      → after at ≡ some (some message)
      → IsTrusted library options message decision
      → KeptOrTrusted library options before after at

module _ (library : PolicyLibrary) (w : CacheWrite) (options : LoadOptions) (disk : Disk) where
  module _ (d : Decision) (message : Bytes) (at : String)
      (parsed : parse_trusted_decision library message options ≡ ok d)
      (full : is_empty options.cache_path ≡ false) where
    accepted_at :
        (accept_policy library w message options disk).1 at
        ≡ (write_policy_cache w options.cache_path message disk).1 at
    unfolding accept_policy
    accepted_at = rw (parsed, accept_policy) (rw full)

    accepted_result :
        (accept_policy library w message options disk).0
        ≡ ((write_policy_cache w options.cache_path message disk).0 >> ok d)
    unfolding accept_policy
    accepted_result = rw (parsed, accept_policy) (rw full)

  accept_policy-disk :
      (message : Bytes) (at : String)
      → (w.temp_path == at) ≡ false
      → KeptOrTrusted library options disk (accept_policy library w message options disk).1 at
  unfolding accept_policy
  accept_policy-disk message at apart =
      elim (Result-cases (parse_trusted_decision library message options)) [
        | inr (e, bad) ↦ kept (as_before (ground (arith, bad)))
        | inl (d, parsed) ↦ elim (Bool-cases (is_empty options.cache_path)) [
          | inl bare ↦ kept (as_before (ground (arith, parsed, bare)))
          | inr full ↦ accepted d parsed full
        ]
      ]
    where
      accepted :
          (d : Decision)
          → parse_trusted_decision library message options ≡ ok d
          → is_empty options.cache_path ≡ false
          → KeptOrTrusted library options disk (accept_policy library w message options disk).1 at
      accepted d parsed full =
          let effect = (write_effect w options.cache_path at message disk apart).0 in
          let chosen : Bool → Option Reader = λ b.
            if b then some (some message) else make_all w (dir_name options.cache_path) disk at in
          elim (Bool-cases (succeeds w && options.cache_path == at)) [
            | inl here ↦
                trusted message d ((eq_iff options.cache_path at).0 (ground arith))
                  (accepted_at d message at parsed full ∙ effect ∙ ap chosen here)
                  (parse_trusted_decision-IsTrusted library message options d parsed)
            | inr other ↦ kept (
                make_all-KeptOrMade w (dir_name options.cache_path) at disk _
                  (accepted_at d message at parsed full ∙ effect ∙ ap chosen other))
          ]

  -- Loading from a file, on every outcome, leaves every path but the temporary one as it was,
  -- except that a directory comes to be on the way to the cache path where nothing was, and that
  -- the cache path may come to hold a message whose decision is trusted.
  pub load_file-KeptOrTrusted :
      (at : String)
      → (w.temp_path == at) ≡ false
      → KeptOrTrusted library options disk (load_file library w options disk).1 at
  unfolding load_file
  load_file-KeptOrTrusted at apart = elim (Bool-cases (configured options.trust)) [
    | inr off ↦ kept (as_before (rw off refl))
    | inl on ↦ elim (Result-cases (read_policy_file disk options.path options.max_bytes)) [
      | inl (message, read) ↦ rw (on, read, load_file) (accept_policy-disk message at apart)
      | inr (e, failed) ↦ kept (as_before (ground (arith, on, failed)))
    ]
  ]

  load_file-eq-accept_policy :
      (message : Bytes) (decision : Decision)
      → read_policy_file disk options.path options.max_bytes ≡ ok message
      → (load_file library w options disk).0 ≡ ok decision
      → load_file library w options disk ≡ accept_policy library w message options disk
  unfolding load_file
  load_file-eq-accept_policy message decision read h =
      elim (Bool-cases (configured options.trust)) [
        | inr off ↦ absurd (ground (arith, off))
        | inl on ↦ rw (on, read, load_file)
      ]

  accept_policy-parsed :
      (message : Bytes) (decision : Decision)
      → (accept_policy library w message options disk).0 ≡ ok decision
      → parse_trusted_decision library message options ≡ ok decision
  unfolding accept_policy
  accept_policy-parsed message decision h =
      elim (Result-cases (parse_trusted_decision library message options)) [
        | inr (e, bad) ↦ absurd (ground (arith, bad))
        | inl (d, parsed) ↦ let same : d ≡ decision = ground (arith, parsed) in parsed ∙ ap ok same
      ]

  reload :
      (message : Bytes) (decision : Decision) (disk' : Disk)
      → disk' options.cache_path ≡ some (some message)
      → is_empty options.cache_path ≡ false
      → read_policy_bytes (some message) options.max_bytes ≡ ok message
      → parse_trusted_decision library message options ≡ ok decision
      → load_policy_cache library disk' options ≡ ok decision
  unfolding load_policy_cache read_policy_file
  reload message decision disk' there full read parsed = ground (arith, there, full, read, parsed)

  read_file_again :
      (message : Bytes)
      → read_policy_file disk options.path options.max_bytes ≡ ok message
      → read_policy_bytes (some message) options.max_bytes ≡ ok message
  unfolding read_policy_file
  read_file_again message h = elim (Option-cases (disk options.path)) [
    | inl missing ↦ absurd (ground (arith, missing))
    | inr (file, there) ↦
        read_policy_bytes_again file message options.max_bytes (ground (arith, there))
  ]

  cached_after :
      (message : Bytes) (decision : Decision)
      → (w.temp_path == options.cache_path) ≡ false
      → is_empty options.cache_path ≡ false
      → (accept_policy library w message options disk).0 ≡ ok decision
      → (accept_policy library w message options disk).1 options.cache_path ≡ some (some message)
  cached_after message decision apart full h =
      let parsed = accept_policy-parsed message decision h in
      let cache = options.cache_path in
      let (effect, done) = write_effect w cache cache message disk apart in
      let (_, written, _) =
        >>-eq-ok (write_policy_cache w cache message disk).0 (ok decision)
          (sym (accepted_result decision message cache parsed full) ∙ h) in
      let all : (succeeds w && cache == cache) ≡ true =
        ground (arith, done.0 written, eq_iff cache cache) in
      accepted_at decision message cache parsed full
      ∙ effect
      ∙ ap (λ b. if b then some (some message) else make_all w (dir_name cache) disk cache) all

  -- A decision that was loaded from a file that was read, with a cache path that is not empty and
  -- not the temporary one, is loaded again from the cache under the same options.
  pub load_policy_cache-load_file :
      (message : Bytes) (decision : Decision)
      → (w.temp_path == options.cache_path) ≡ false
      → is_empty options.cache_path ≡ false
      → read_policy_file disk options.path options.max_bytes ≡ ok message
      → (load_file library w options disk).0 ≡ ok decision
      → load_policy_cache library (load_file library w options disk).1 options ≡ ok decision
  load_policy_cache-load_file message decision apart full read h =
      let same = load_file-eq-accept_policy message decision read h in
      let accepted = rw same at h in
      rw same (
        reload message decision (accept_policy library w message options disk).1
          (cached_after message decision apart full accepted) full (read_file_again message read)
          (accept_policy-parsed message decision accepted))
