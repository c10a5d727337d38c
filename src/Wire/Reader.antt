-- ===== src/Wire/Reader.antt =====
-- core/protocol.c: `R` and its reads.
use deadweight.Prelude.{ℕ, zero, suc, ◌+◌, ◌*◌, List, [], ◌∷◌, i8}
use deadweight.Prelude.{ℤ, pos}
use deadweight.Wire.Message.{name_len}
use deadweight.Wire.Writer.{cstr, pad}

-- What a read makes of the bytes that are left: a value and the rest, a `return -1`, or a read past
-- the end of the payload, for which the C has no test.
pub data Read {ℓ} (A : Type ℓ) : Type ℓ where
  got : A → List ℕ → Read A
  refused overrun : Read A

abbrev pub Reader {ℓ} : Type ℓ → Type ℓ
Reader A = List ℕ → Read A

abbrev pub then_read {ℓ κ} : {A : Type ℓ} {B : Type κ} → Read A → (A → Reader B) → Read B
then_read (got a bs) f = f a bs
then_read refused f = refused
then_read overrun f = overrun

infixl 5 ◌>>=◌
unfoldable pub ◌>>=◌ {ℓ κ} : {A : Type ℓ} {B : Type κ} → Reader A → (A → Reader B) → Reader B
◌>>=◌ m f bs = then_read (m bs) f

unfoldable pub give {ℓ} : {A : Type ℓ} → A → Reader A
give a bs = got a bs

unfoldable pub refuse {ℓ} : {A : Type ℓ} → Reader A
refuse bs = refused

unfoldable pub r8 : Reader ℕ
r8 [] = overrun
r8 (b ∷ bs) = got b bs

-- `a | (b << 8)`: the bits are apart, so they add up.
unfoldable pub r16 : Reader ℕ
unfolding ◌>>=◌ give
r16 = do a ← r8; b ← r8; give (a + b * 256)

unfoldable pub r32 : Reader ℕ
unfolding ◌>>=◌ give
r32 = do a ← r16; b ← r16; give (a + b * 65536)

-- `(int8_t)r8(r)`
unfoldable pub ri8 : Reader ℤ
unfolding ◌>>=◌ give
ri8 = do b ← r8; give (i8 (pos b))

-- `n` bytes in a row.
unfoldable pub rbytes : ℕ → Reader (List ℕ)
unfolding ◌>>=◌ give
rbytes zero = give []
rbytes (suc n) = do b ← r8; bs ← rbytes n; give (b ∷ bs)

unfoldable pub rcards : ℕ → Reader (List ℤ)
unfolding ◌>>=◌ give
rcards zero = give []
rcards (suc n) = do c ← ri8; cs ← rcards n; give (c ∷ cs)

-- The 16 bytes of a name, with everything after the first NUL set to 0, and a NUL behind them.
unfoldable pub rname : Reader (List ℕ)
unfolding ◌>>=◌ give
rname = do s ← rbytes name_len; give (pad (suc name_len) (cstr name_len s))
