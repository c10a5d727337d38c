-- ===== src/Wire/Writer.antt =====
-- core/protocol.c: `W` and its writes.
use deadweight.Prelude.{
  ℕ, zero, suc, ◌+◌, ◌-◌, ◌/◌, ◌%◌, List, [], ◌∷◌, ◌++◌, Bool, true, ltb, ◌==◌, if◌then◌else◌,
  length, replicate, u8,
}
use deadweight.Prelude.{ℤ}
use deadweight.Wire.Message.{name_len}

-- `buf` up to `n`. `n + 1 > cap` makes the writer bad, and the byte is dropped.
pub record W : Type 0 where
  pub cap : ℕ
  pub bytes : List ℕ
  pub bad : Bool

unfoldable pub w8 : ℕ → W → W
w8 v w =
    if ltb w.cap (length w.bytes + 1)
    then record w { bad = true }
    else record w { bytes = w.bytes ++ (v % 256 ∷ []) }

-- `v & 255` is `v % 256`, and `v >> 8` is `v / 256`.
unfoldable pub w16 : ℕ → W → W
w16 v w = w8 (v / 256 % 256) (w8 (v % 256) w)

unfoldable pub w32 : ℕ → W → W
w32 v w = w16 (v / 65536) (w16 (v % 65536) w)

-- `w8(w, (uint8_t)v)` for a signed `v`.
unfoldable pub wi8 : ℤ → W → W
wi8 v w = w8 (u8 v) w

-- The array up to its first NUL, at most `n` bytes.
unfoldable pub cstr : ℕ → List ℕ → List ℕ
cstr zero s = []
cstr (suc n) [] = []
cstr (suc n) (c ∷ s) = let rest = cstr n s in if c == 0 then [] else c ∷ rest

-- An array of `n` bytes that starts with `s`; the others are 0.
unfoldable pub pad : ℕ → List ℕ → List ℕ
pad n s = s ++ replicate (n - length s) 0

-- The loops of single bytes.
unfoldable pub wbytes : List ℕ → W → W
wbytes [] w = w
wbytes (b ∷ bs) w = wbytes bs (w8 b w)

unfoldable pub wcards : List ℤ → W → W
wcards [] w = w
wcards (c ∷ cs) w = wcards cs (wi8 c w)

unfoldable pub wname : List ℕ → W → W
wname s w = wbytes (pad name_len (cstr name_len s)) w
