-- ===== src/Verify/Sums.antt =====
-- `ParseSHA256Sums` and `SHA256Sums`.
use bootup.Common.{
  >>=-eq-ok, All, Bool-cases, List, Option, Option-cases, String, [], arith, eqb, eqb→eq, inl, inr,
  lookup, ok, refl, some, suc, sym, true, ℕ, ◌==◌, ◌||◌, ◌↔◌, ◌∙◌, ◌∷◌, ◌≡◌,
}
use bootup.Text.{
  Every, byte_len, decode_hex, digits, fields, has_prefix, is_empty, rune_count, split, to_lower,
  trim_space,
}
use bootup.Text.Hex.Laws.{IsHexDigit, IsLowerHexDigit, decode_hex_sound, to_lower-IsLowerHexDigit}
use bootup.Verify.{
  Bytes, Checksums, Crypto, Reader, check_sha256_sums, parse_sha256_sums, parse_sums_fields,
  parse_sums_from, read_all, sums_required,
}
use bootup.Verify.Digests.{IsLawful, check_sha256_iff}

-- A SHA-256 digest in lower case.
abbrev pub IsDigest : String → Type 0
IsDigest d = (rune_count d ≡ 64) × Every IsLowerHexDigit d

byte_len-rune_count : (s : String) → Every IsHexDigit s → byte_len s ≡ rune_count s
unfolding byte_len
byte_len-rune_count String.[] h = refl
byte_len-rune_count (String.◌∷◌ c s) h = ground (arith, byte_len-rune_count s h.1)

module _ {Keyring : Type 0} (crypto : Crypto Keyring) (lawful : IsLawful crypto) where
  IsDigest-of_checks :
      (sum : String) (bs : List ℕ)
      → byte_len (to_lower crypto.lower_wide sum) ≡ 64
      → decode_hex (to_lower crypto.lower_wide sum) ≡ some bs
      → IsDigest (to_lower crypto.lower_wide sum)
  IsDigest-of_checks sum bs size h =
      let (_, digits, _) = decode_hex_sound _ bs h in
      (
        sym (byte_len-rune_count _ digits) ∙ size,
        to_lower-IsLowerHexDigit crypto.lower_wide lawful.lower_digit sum bs h,
      )

  sums_fields-IsDigest :
      (number : ℕ) (fs : List String) (entry : String × String)
      → parse_sums_fields crypto number fs ≡ ok entry
      → IsDigest entry.1
  unfolding parse_sums_fields
  sums_fields-IsDigest number [] entry h = cc
  sums_fields-IsDigest number (sum ∷ []) entry h = cc
  sums_fields-IsDigest number (sum ∷ path ∷ more) entry h =
      elim (Option-cases (decode_hex (to_lower crypto.lower_wide sum))) [
        | inl bad ↦ absurd (ground (arith, bad))
        | inr (bs, good) ↦
            let same : to_lower crypto.lower_wide sum ≡ entry.1 = ground (arith, good) in
            let size : eqb (byte_len (to_lower crypto.lower_wide sum)) 64 ≡ true = ground arith in
            rw (← same) (IsDigest-of_checks sum bs (eqb→eq _ _ size) good)
      ]

  sums_from-IsDigest :
      (number : ℕ) (sums : Checksums) (lines : List String) (result : Checksums)
      → All (λ e. IsDigest e.1) sums
      → parse_sums_from crypto number sums lines ≡ ok result
      → All (λ e. IsDigest e.1) result
  unfolding parse_sums_from
  sums_from-IsDigest number sums [] result good h =
      let same : sums ≡ result = ground arith in rw (← same) good
  sums_from-IsDigest number sums (raw ∷ lines) result good h =
      elim (Bool-cases (is_empty (trim_space raw) || has_prefix (trim_space raw) "#")) [
        | inl skip ↦ sums_from-IsDigest (suc number) sums lines result good (rw skip at h)
        | inr entry_line ↦
            let (entry, read, rest) =
              >>=-eq-ok (parse_sums_fields crypto number (fields (trim_space raw))) _
                (rw entry_line at h) in
            sums_from-IsDigest (suc number) (entry ∷ sums) lines result
              (sums_fields-IsDigest number (fields (trim_space raw)) entry read, good) rest
      ]

  lookup-IsDigest :
      (name : String) (sums : Checksums) (digest : String)
      → All (λ e. IsDigest e.1) sums
      → lookup name sums ≡ some digest
      → IsDigest digest
  lookup-IsDigest name [] digest good h = cc
  lookup-IsDigest name ((j, d) ∷ sums) digest good h = elim (Bool-cases (j == name)) [
    | inl here ↦ let same : d ≡ digest = ground (arith, here) in rw (← same) good.0
    | inr later ↦ lookup-IsDigest name sums digest good.1 (ground (arith, later))
  ]

  -- Every digest of a parsed SHA256SUMS file has 64 lower-case hexadecimal digits.
  pub parse_sha256_sums-IsDigest :
      (reader : Option Reader) (sums : Checksums) (name digest : String)
      → parse_sha256_sums crypto reader ≡ ok sums
      → lookup name sums ≡ some digest
      → IsDigest digest
  unfolding parse_sha256_sums
  parse_sha256_sums-IsDigest reader sums name digest h found =
      let (content, _, parsed) = >>=-eq-ok (read_all sums_required reader) _ h in
      lookup-IsDigest name sums digest
        (sums_from-IsDigest 1 [] (split 10 (crypto.to_text content)) sums tt parsed) found

  -- A readable artifact passes against a SHA256SUMS file exactly if the file parses and its entry
  -- for the artifact's name decodes to the SHA-256 hash of the artifact.
  pub check_sha256_sums_iff :
      (message : Bytes) (sums : Option Reader) (name : String)
      → (check_sha256_sums crypto (some (some message)) sums name ≡ ok tt) ↔ (
          (entries : Checksums) × (want : String) × (parse_sha256_sums crypto sums ≡ ok entries)
          × (lookup name entries ≡ some want)
          × (decode_hex want ≡ some (crypto.sha256 message)))
  unfolding check_sha256_sums
  check_sha256_sums_iff message sums name = (
    λ h.
        let (entries, parsed, rest) = >>=-eq-ok (parse_sha256_sums crypto sums) _ h in
        elim (Option-cases (lookup name entries)) [
          | inl missing ↦ absurd (ground (arith, missing))
          | inr (want, found) ↦ (
            entries,
            want,
            parsed,
            found,
            (check_sha256_iff crypto lawful message want).0 (ground (arith, found)),
          )
        ],
    λ (entries, want, parsed, found, spelled).
        ground (arith, parsed, found, (check_sha256_iff crypto lawful message want).1 spelled),
  )
