-- ===== src/Providers/Mfsbsd/Iso/Termination.antt =====
-- The loops over the bytes of an image end: the fuel is never used up.
use bootup.Verify.{Bytes}
use bootup.Providers.Mfsbsd.Iso.{
  IsoError, RockRidgeInfo, entry_length_invalid, name_too_short, out_of_fuel,
  symlink_component_invalid, symlink_continued, symlink_too_short,
}
use bootup.Providers.Mfsbsd.Iso.Bytewise.{byte_at, has_bit, length-skip, same_bytes, skip, take}
use bootup.Providers.Mfsbsd.Iso.RockRidge.{
  add_entry, add_mode, add_name, add_symlink, parse_rock_ridge, parse_rock_ridge_symlink,
  rock_ridge_from, symlink_parts,
}
use bootup.Common.{
  Bool, Result, [], arith, eqb, err, false, if◌then◌else◌, leb, length, ltb, ok, refl, refuse_if,
  suc, true, zero, ℕ, ◌+◌, ◌<◌, ◌>>=◌, ◌>>◌, ◌||◌, ◌∷◌, ◌≡◌,
}

unfoldable pub is_fuel_error : IsoError → Bool
is_fuel_error out_of_fuel = true
is_fuel_error _ = false

-- the result is that of a loop that has used up its fuel
unfoldable pub ran_out : {A : Type 0} → Result IsoError A → Bool
ran_out (ok a) = false
ran_out (err e) = is_fuel_error e

-- The result is not that of a loop that has used up its fuel.
pub record Ends {A : Type 0} (result : Result IsoError A) : Type 0 where
  pub in_time : ran_out result ≡ false

pub Ends-ok : {A : Type 0} (a : A) → Ends {A = A} (ok a)
unfolding ran_out
Ends-ok a = record { in_time = refl }

pub Ends-err : {A : Type 0} (e : IsoError) → is_fuel_error e ≡ false → Ends {A = A} (err e)
unfolding ran_out
Ends-err e h = record { in_time = h }

pub Ends->>= :
    {A B : Type 0} (first : Result IsoError A) (next : A → Result IsoError B)
    → Ends first
    → ((a : A) → Ends (next a))
    → Ends (first >>= next)
unfolding ran_out
Ends->>= (ok a) next h k = k a
Ends->>= (err e) next h k = record { in_time = h.in_time }

pub Ends->> :
    {A B : Type 0} (first : Result IsoError A) (rest : Result IsoError B)
    → Ends first
    → Ends rest
    → Ends (first >> rest)
unfolding ran_out
Ends->> (ok a) rest h k = k
Ends->> (err e) rest h k = record { in_time = h.in_time }

-- a guard that is no matter of fuel
pub guarded :
    {A : Type 0} (b : Bool) (e : IsoError) (rest : Result IsoError A)
    → is_fuel_error e ≡ false
    → Ends rest
    → Ends (refuse_if b e >> rest)
guarded true e rest h k = Ends-err e h
guarded false e rest h k = k

pub Ends-refuse_if : (b : Bool) (e : IsoError) → is_fuel_error e ≡ false → Ends (refuse_if b e)
Ends-refuse_if true e h = Ends-err e h
Ends-refuse_if false e h = Ends-ok tt

pub Ends-if :
    {A : Type 0} (b : Bool) (x y : Result IsoError A)
    → (b ≡ true → Ends x)
    → (b ≡ false → Ends y)
    → Ends (if b then x else y)
Ends-if true x y h k = h refl
Ends-if false x y h k = k refl

symlink_parts-Ends :
    (fuel offset : ℕ) (entry : Bytes)
    → length entry < suc fuel + offset
    → Ends (symlink_parts (suc fuel) offset entry)
unfolding symlink_parts is_fuel_error ran_out
symlink_parts-Ends zero offset entry h =
    Ends-if (leb (length entry) offset) _ _ (λ _. Ends-ok _) (λ more. absurd (ground (arith, more)))
symlink_parts-Ends (suc fuel) offset entry h =
    let end = offset + 2 + byte_at entry (offset + 1) in
    Ends-if (leb (length entry) offset) _ _ (λ _. Ends-ok _)
      (λ _. guarded (ltb (length entry) (offset + 2)) symlink_component_invalid _ refl (
        guarded (ltb (length entry) end) symlink_component_invalid _ refl (
          guarded (has_bit 1 (byte_at entry offset)) symlink_continued _ refl (
            Ends->>= (symlink_parts (suc fuel) end entry) _
              (symlink_parts-Ends fuel end entry (omega (arith, h)))
              (λ _. record { in_time = refl })))))

parse_rock_ridge_symlink-Ends : (entry : Bytes) → Ends (parse_rock_ridge_symlink entry)
unfolding parse_rock_ridge_symlink is_fuel_error
parse_rock_ridge_symlink-Ends [] = Ends-err symlink_too_short refl
parse_rock_ridge_symlink-Ends (b ∷ entry) =
    guarded (ltb (length (b ∷ entry)) 5) symlink_too_short _ refl (
      Ends->>= (symlink_parts (suc (length entry)) 5 (b ∷ entry)) _
        (symlink_parts-Ends (length entry) 5 (b ∷ entry) (omega arith)) (λ _. Ends-ok _))

add_name-Ends : (entry : Bytes) (info : RockRidgeInfo) → Ends (add_name entry info)
unfolding add_name is_fuel_error ran_out
add_name-Ends entry info =
    guarded (ltb (length entry) 5) name_too_short _ refl (record { in_time = refl })

add_symlink-Ends : (entry : Bytes) (info : RockRidgeInfo) → Ends (add_symlink entry info)
unfolding add_symlink ran_out
add_symlink-Ends entry info =
    Ends->>= (parse_rock_ridge_symlink entry) _ (parse_rock_ridge_symlink-Ends entry)
      (λ _. record { in_time = refl })

add_entry-Ends : (entry : Bytes) (info : RockRidgeInfo) → Ends (add_entry entry info)
unfolding add_entry add_mode ran_out
add_entry-Ends entry info =
    let signature = take 2 entry in
    Ends-if (same_bytes signature (b'N' ∷ b'M' ∷ [])) (add_name entry info) _
      (λ _. add_name-Ends entry info)
      (λ _.
        Ends-if (same_bytes signature (b'P' ∷ b'X' ∷ [])) (add_mode entry info) _
          (λ _. record { in_time = refl })
          (λ _.
            Ends-if (same_bytes signature (b'S' ∷ b'L' ∷ [])) (add_symlink entry info) (ok info)
              (λ _. add_symlink-Ends entry info) (λ _. Ends-ok info)))

rock_ridge_from-Ends :
    (fuel : ℕ) (info : RockRidgeInfo) (system_use : Bytes)
    → length system_use < fuel
    → Ends (rock_ridge_from fuel info system_use)
unfolding rock_ridge_from is_fuel_error
rock_ridge_from-Ends zero info system_use h = absurd (omega (arith, h))
rock_ridge_from-Ends (suc fuel) info system_use h =
    let size = byte_at system_use 2 in
    Ends-if (ltb (length system_use) 4 || eqb size 0) _ _ (λ _. Ends-ok _)
      (λ more.
        Ends-if (ltb size 4 || ltb (length system_use) size) _ _
          (λ _. Ends-err entry_length_invalid refl)
          (λ fits.
            Ends->>= (add_entry (take size system_use) info) _
              (add_entry-Ends (take size system_use) info)
              (λ next.
                rock_ridge_from-Ends fuel next (skip size system_use)
                  (ground (arith, length-skip size system_use, fits, h, more)))))

-- `parseRockRidge` ends.
pub parse_rock_ridge-Ends : (system_use : Bytes) → Ends (parse_rock_ridge system_use)
unfolding parse_rock_ridge
parse_rock_ridge-Ends system_use =
    rock_ridge_from-Ends (suc (length system_use)) _ system_use (omega arith)
