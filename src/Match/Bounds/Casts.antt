-- ===== src/Match/Bounds/Casts.antt =====
-- What the clamps and the casts that core/match.c stores a meter through leave of a number.
use deadweight.Prelude.{ℕ, ◌≤◌, ◌<◌, ◌≡◌, arith}
use deadweight.Prelude.{ℤ, pos, negsuc, ◌≤ℤ◌, u8, i8, i8_fits}
use deadweight.Match.State.{clampi}

pub clampi_range : (v lo hi : ℤ) → lo ≤ℤ hi → (lo ≤ℤ clampi v lo hi) × (clampi v lo hi ≤ℤ hi)
unfolding clampi
clampi_range v lo hi h = ground arith

-- A clamp within the range of `int8_t` is stored as it is.
pub i8-clampi :
    (v lo hi : ℤ)
    → negsuc 127 ≤ℤ lo
    → lo ≤ℤ hi
    → hi ≤ℤ pos 127
    → i8 (clampi v lo hi) ≡ clampi v lo hi
i8-clampi v lo hi a b c =
    i8_fits (clampi v lo hi) (omega (arith, clampi_range v lo hi b))
      (omega (arith, clampi_range v lo hi b))

pub i8-clampi_range :
    (v lo hi : ℤ)
    → negsuc 127 ≤ℤ lo
    → lo ≤ℤ hi
    → hi ≤ℤ pos 127
    → (lo ≤ℤ i8 (clampi v lo hi)) × (i8 (clampi v lo hi) ≤ℤ hi)
i8-clampi_range v lo hi a b c = rw (i8-clampi v lo hi a b c) (clampi_range v lo hi b)

pub u8-le : (v : ℤ) (h : ℕ) → pos 0 ≤ℤ v → v ≤ℤ pos h → h < 256 → u8 v ≤ h
unfolding u8
u8-le (pos n) h a b c = omega arith
u8-le (negsuc n) h a b c = omega arith

pub u8-clampi-le : (v : ℤ) (h : ℕ) → h < 256 → u8 (clampi v (pos 0) (pos h)) ≤ h
u8-clampi-le v h c =
    u8-le (clampi v (pos 0) (pos h)) h (clampi_range v (pos 0) (pos h) (omega arith)).0
      (clampi_range v (pos 0) (pos h) (omega arith)).1 c
