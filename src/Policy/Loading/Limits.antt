-- ===== src/Policy/Loading/Limits.antt =====
-- `readPolicyBytes`: no message is longer than the limit, and none is cut.
use Prim.Native.Nat.{◌^◌}
use bootup.Common.{
  List, [], ap, arith, length, none, ok, pos, refl, some, suc, sym, zero, ℕ, ℤ, ◌+◌, ◌-◌, ◌<◌, ◌↔◌,
  ◌∙◌, ◌∷◌, ◌≡◌, ◌≤◌,
}
use bootup.Verify.{Bytes, Reader}
use bootup.Policy.Loading.{byte_limit, read_limit, read_policy_bytes, take}

module _ {ℓ} {A : Type ℓ} where
  take_all : (n : ℕ) (xs : List A) → length xs ≤ n → take n xs ≡ xs
  take_all zero [] h = refl
  take_all zero (x ∷ xs) h = absurd (omega arith)
  take_all (suc n) [] h = refl
  take_all (suc n) (x ∷ xs) h = ap (λ r. x ∷ r) (take_all n xs (omega arith))

  take_cut : (n : ℕ) (xs : List A) → length (take n xs) < n → take n xs ≡ xs
  take_cut zero xs h = absurd (omega arith)
  take_cut (suc n) [] h = refl
  take_cut (suc n) (x ∷ xs) h = ap (λ r. x ∷ r) (take_cut n xs (omega arith))

  take_idem : (n : ℕ) (xs : List A) → take n (take n xs) ≡ take n xs
  take_idem zero xs = refl
  take_idem (suc n) [] = refl
  take_idem (suc n) (x ∷ xs) = ap (λ r. x ∷ r) (take_idem n xs)

-- Within the limit a message is read as it is.
module _ (content message : Bytes) (max_bytes : ℤ) where
  cut : Bytes
  cut = take (read_limit (byte_limit max_bytes)) content

  read_inv :
      read_policy_bytes (some content) max_bytes ≡ ok message
      → (cut ≡ message) × (length cut ≤ byte_limit max_bytes)
  unfolding read_policy_bytes cut
  read_inv h = (ground arith, ground arith)

  read_of_cut :
      cut ≡ message
      → length cut ≤ byte_limit max_bytes
      → read_policy_bytes (some content) max_bytes ≡ ok message
  unfolding read_policy_bytes cut
  read_of_cut h k = ground arith

  -- Below the largest int64, a message that is read is the whole file or response, and is not
  -- longer than the limit; a longer one is refused.
  pub read_policy_bytes_iff :
      byte_limit max_bytes < 2 ^ 63 - 1
      → (read_policy_bytes (some content) max_bytes ≡ ok message)
        ↔ ((message ≡ content) × (length content ≤ byte_limit max_bytes))
  unfolding read_limit cut
  read_policy_bytes_iff h =
      let limit : read_limit (byte_limit max_bytes) ≡ byte_limit max_bytes + 1 = ground arith in
      (
        λ r.
            let (same, short) = read_inv r in
            let whole : cut ≡ content = take_cut _ content (omega (arith, limit)) in
            (sym same ∙ whole, rw whole at short),
        λ (same, short).
            let whole : cut ≡ content = take_all _ content (omega (arith, limit)) in
            read_of_cut (whole ∙ sym same) (rw whole short),
      )

-- What was read once is read again under the same limit.
pub read_policy_bytes_again :
    (file : Reader) (message : Bytes) (max_bytes : ℤ)
    → read_policy_bytes file max_bytes ≡ ok message
    → read_policy_bytes (some message) max_bytes ≡ ok message
unfolding cut
read_policy_bytes_again none message max_bytes h = unfold read_policy_bytes in cc
read_policy_bytes_again (some content) message max_bytes h =
    let (same, short) = read_inv content message max_bytes h in
    let again : cut message message max_bytes ≡ message =
      rw (← same) (take_idem (read_limit (byte_limit max_bytes)) content) in
    read_of_cut message message max_bytes again (rw again (rw (← same) short))

-- At the largest int64 the limit wraps around: nothing is read, whatever the file holds.
pub read_policy_bytes_wraps :
    (content : Bytes) → read_policy_bytes (some content) (pos (2 ^ 63 - 1)) ≡ ok []
unfolding read_policy_bytes read_limit byte_limit
read_policy_bytes_wraps content = refl
