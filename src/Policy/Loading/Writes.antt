-- ===== src/Policy/Loading/Writes.antt =====
-- What making directories leaves at a path.
use bootup.Policy.Loading.{CacheWrite, Disk, is_above, make_all}
use bootup.Common.{
  Bool-cases, Option, String, arith, inl, inr, is_none, none, refl, some, true, ◌&&◌, ◌∙◌, ◌≡◌,
}

-- A path holds what it held or, where it held nothing and is a directory or above it, a directory.
pub data KeptOrMade (dir : String) (before after : Disk) (at : String) : Type 0 where
  as_before : after at ≡ before at → KeptOrMade dir before after at
  directory :
      before at ≡ none
      → is_above at dir ≡ true
      → after at ≡ some none
      → KeptOrMade dir before after at

is_none-none {ℓ} : {A : Type ℓ} (content : Option A) → is_none content ≡ true → content ≡ none
is_none-none none h = refl
is_none-none (some c) h = cc

pub make_all-KeptOrMade :
    (w : CacheWrite) (dir at : String) (disk after : Disk)
    → after at ≡ make_all w dir disk at
    → KeptOrMade dir disk after at
unfolding make_all
make_all-KeptOrMade w dir at disk after same =
    elim (Bool-cases (w.made at && is_above at dir && is_none (disk at))) [
      | inl made ↦
          directory (is_none-none (disk at) (ground (arith, made))) (ground (arith, made))
            (same ∙ rw made refl)
      | inr kept ↦ as_before (same ∙ rw kept refl)
    ]
