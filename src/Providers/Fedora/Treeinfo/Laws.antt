-- ===== src/Providers/Fedora/Treeinfo/Laws.antt =====
-- The digests of a `.treeinfo` file.
use bootup.Verify.{Bytes, Checksums}
use bootup.Verify.Digests.{IsLawful}
use bootup.Verify.Sums.{IsDigest}
use bootup.Providers.{metadata_malformed}
use bootup.Providers.Staging.{World}
use bootup.Providers.Fedora.Treeinfo.{
  TreeinfoChecksums, add_checksum, initrd_treeinfo_path, kernel_treeinfo_path, max_token_size,
  parse_treeinfo_checksums, parse_treeinfo_from, parse_treeinfo_sha256, require_checksum,
  section_of,
}
use bootup.Text.Hex.Laws.{decode_hex_sound, to_lower-IsLowerHexDigit}
use bootup.Common.{
  >>-eq-ok, >>=-eq-ok, All, Bool-cases, List, Option-cases, String, [], arith, eqb, eqb→eq,
  if-false, if-true, inl, inr, leb, length, not, ok, refuse_if, refuse_if-eq-ok, ◌&&◌, ◌==◌, ◌||◌,
  ◌∷◌, ◌≡◌,
}
use bootup.Text.{
  byte_len, cut, decode_hex, has_prefix, has_suffix, is_empty, split, to_lower, trim_space,
}

module _ {Keyring : Type 0} (world : World Keyring) (lawful : IsLawful world.crypto) where
  parse_treeinfo_sha256-IsDigest :
      (path value digest : String)
      → parse_treeinfo_sha256 world path value ≡ ok digest
      → IsDigest digest
  unfolding parse_treeinfo_sha256
  parse_treeinfo_sha256-IsDigest path value digest h =
      elim (Option-cases (cut b':' (trim_space value))) [
        | inl whole ↦ absurd (ground (arith, whole))
        | inr ((algorithm, spelled), parts) ↦
            let lower = to_lower world.crypto.lower_wide (trim_space spelled) in
            let (_, _, h1) =
              >>-eq-ok
                (refuse_if (not (world.equal_fold (trim_space algorithm) "sha256"))
                  (metadata_malformed path))
                _ (rw (parse_treeinfo_sha256, parts) at h) in
            elim (Option-cases (decode_hex lower)) [
              | inl bad ↦ absurd (ground (arith, bad))
              | inr (decoded, good) ↦
                  let (_, size, same) =
                    >>-eq-ok (refuse_if (not (eqb (length decoded) 32)) (metadata_malformed path)) _
                      (rw good at h1) in
                  let eq : lower ≡ digest = cc in
                  let count : length decoded ≡ 32 =
                    eqb→eq _ _ (ground (arith, refuse_if-eq-ok _ _ size)) in
                  let (runes, _, _) = decode_hex_sound lower decoded good in
                  rw (← eq) (
                    omega (arith, runes, count),
                    to_lower-IsLowerHexDigit world.crypto.lower_wide lawful.lower_digit
                        (trim_space spelled) decoded good,
                  )
            ]
      ]

  add_checksum-IsDigest :
      (line : String) (checksums result : Checksums)
      → All (λ e. IsDigest e.1) checksums
      → add_checksum world line checksums ≡ ok result
      → All (λ e. IsDigest e.1) result
  unfolding add_checksum
  add_checksum-IsDigest line checksums result good h = elim (Option-cases (cut b'=' line)) [
    | inl whole ↦ absurd (ground (arith, whole))
    | inr ((key, value), parts) ↦
        let path = trim_space key in
        let other = not (path == kernel_treeinfo_path) && not (path == initrd_treeinfo_path) in
        let h1 = rw (add_checksum, parts) at h in
        elim (Bool-cases other) [
          | inl skipped ↦
              let same = if-true other _ _ skipped h1 in
              let eq : checksums ≡ result = cc in rw (← eq) good
          | inr wanted ↦
              let (digest, parsed, same) =
                >>=-eq-ok (parse_treeinfo_sha256 world path value) _
                  (if-false other _ _ wanted h1) in
              let eq : ((path, digest) ∷ checksums) ≡ result = cc in
              rw (← eq) (parse_treeinfo_sha256-IsDigest path value digest parsed, good)
        ]
  ]

  parse_treeinfo_from-IsDigest :
      (section : String) (checksums : Checksums) (lines : List String) (result : Checksums)
      → All (λ e. IsDigest e.1) checksums
      → parse_treeinfo_from world section checksums lines ≡ ok result
      → All (λ e. IsDigest e.1) result
  unfolding parse_treeinfo_from
  parse_treeinfo_from-IsDigest section checksums [] result good h =
      let eq : checksums ≡ result = cc in rw (← eq) good
  parse_treeinfo_from-IsDigest section checksums (raw ∷ lines) result good h =
      let line = trim_space raw in
      let skip = parse_treeinfo_from-IsDigest section checksums lines result good in
      elim (Bool-cases (leb max_token_size (byte_len raw))) [
        | inl long ↦ absurd (ground (arith, long))
        | inr fits ↦
            let h1 = if-false _ _ _ fits h in
            elim (Bool-cases (is_empty line || has_prefix line "#" || has_prefix line ";")) [
              | inl bare ↦ skip (if-true _ _ _ bare h1)
              | inr text ↦
                  let h2 = if-false _ _ _ text h1 in
                  elim (Bool-cases (has_prefix line "[" && has_suffix line "]")) [
                    | inl opens ↦
                        parse_treeinfo_from-IsDigest (section_of world line) checksums lines result
                          good (if-true _ _ _ opens h2)
                    | inr entry ↦
                        let h3 = if-false _ _ _ entry h2 in
                        elim (Bool-cases (not (section == "checksums"))) [
                          | inl outside ↦ skip (if-true _ _ _ outside h3)
                          | inr inside ↦
                              let (more, added, rest) =
                                >>=-eq-ok (add_checksum world line checksums) _
                                  (if-false _ _ _ inside h3) in
                              parse_treeinfo_from-IsDigest section more lines result
                                (add_checksum-IsDigest line checksums more good added) rest
                        ]
                  ]
            ]
      ]

  lookup-IsDigest :
      (path : String) (checksums : Checksums) (digest : String)
      → All (λ e. IsDigest e.1) checksums
      → require_checksum world path checksums ≡ ok digest
      → IsDigest digest
  unfolding require_checksum
  lookup-IsDigest path [] digest good h = cc
  lookup-IsDigest path ((key, d) ∷ rest) digest good h = elim (Bool-cases (key == path)) [
    | inl here ↦ let eq : d ≡ digest = ground (arith, here) in rw (← eq) good.0
    | inr later ↦ lookup-IsDigest path rest digest good.1 (ground (arith, later))
  ]

  -- Both digests of a `.treeinfo` file that parses have 64 lower-case hexadecimal digits.
  pub parse_treeinfo_checksums-IsDigest :
      (message : Bytes) (checksums : TreeinfoChecksums)
      → parse_treeinfo_checksums world message ≡ ok checksums
      → IsDigest checksums.kernel_sha256 × IsDigest checksums.initrd_sha256
  unfolding parse_treeinfo_checksums
  parse_treeinfo_checksums-IsDigest message checksums h =
      let lines = split 10 (world.crypto.to_text message) in
      let (entries, parsed, h1) = >>=-eq-ok (parse_treeinfo_from world "" [] lines) _ h in
      let good = parse_treeinfo_from-IsDigest "" [] lines entries tt parsed in
      let (kernel, found_kernel, h2) =
        >>=-eq-ok (require_checksum world kernel_treeinfo_path entries) _ h1 in
      let (initrd, found_initrd, same) =
        >>=-eq-ok (require_checksum world initrd_treeinfo_path entries) _ h2 in
      let eq_kernel : kernel ≡ checksums.kernel_sha256 = cc in
      let eq_initrd : initrd ≡ checksums.initrd_sha256 = cc in
      (
        rw (← eq_kernel) (lookup-IsDigest kernel_treeinfo_path entries kernel good found_kernel),
        rw (← eq_initrd) (lookup-IsDigest initrd_treeinfo_path entries initrd good found_initrd),
      )
