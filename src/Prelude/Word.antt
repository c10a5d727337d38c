-- ===== src/Prelude/Word.antt =====
-- C's fixed-width integers: the casts, and the xorshift generator that every part of the game
-- carries its own copy of (`xs` of core/match.c, core/draft.c and core/policy.c).
use Prim.Native.Nat.{ℕ, ◌-◌, ◌*◌, ◌/◌, ◌%◌, ◌^◌, ◌<◌, bit_xor}
use mathlib.Core.Path.{◌≡◌}
use native.Mathlib.Omega.{arith}
use deadweight.Prelude.Tests.{ltb, if◌then◌else◌}
use deadweight.Prelude.Int.{ℤ, pos, negsuc, ◌≤ℤ◌}

-- `(uint8_t)v`
unfoldable pub u8 : ℤ → ℕ
u8 (pos n) = n % 256
u8 (negsuc n) = 255 - n % 256

-- `(int8_t)v`
unfoldable pub i8 : ℤ → ℤ
unfolding u8
i8 v = if ltb (u8 v) 128 then pos (u8 v) else negsuc (255 - u8 v)

abbrev pub u32 : ℕ → ℕ
u32 n = n % 2 ^ 32

unfoldable pub xs : ℕ → ℕ
xs s =
    let x : ℕ = bit_xor s (u32 (s * 2 ^ 13)) in
    let y : ℕ = bit_xor x (x / 2 ^ 17) in bit_xor y (u32 (y * 2 ^ 5))

-- The casts keep what fits.
pub u8_fits : (n : ℕ) → n < 256 → u8 (pos n) ≡ n
unfolding u8
u8_fits n h = omega arith

pub i8_fits : (v : ℤ) → negsuc 127 ≤ℤ v → v ≤ℤ pos 127 → i8 v ≡ v
unfolding i8
i8_fits (pos n) lo hi = ground arith
i8_fits (negsuc n) lo hi = ground arith
