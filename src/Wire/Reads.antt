-- ===== src/Wire/Reads.antt =====
-- Each read of core/protocol.c gives back what the matching write stored.
use deadweight.Prelude.{
  ℕ, zero, suc, ◌+◌, ◌*◌, ◌/◌, ◌%◌, ◌<◌, ◌≡◌, refl, ◌∙◌, ap, subst, arith, List, [], ◌∷◌, ◌++◌,
  Bool-cases, inl, inr, ◌==◌, length, replicate, u8, i8,
}
use deadweight.Prelude.{ℤ, pos, negsuc}
use deadweight.Wire.Writer.{cstr, pad}
use deadweight.Wire.Reader.{got, ◌>>=◌, give, r8, r16, r32, ri8, rbytes, rcards, rname}
use deadweight.Wire.Payload.{
  IsU8, IsU32, IsI8, AreBytes, AreCards, IsName, le32, card_bytes, name_bytes,
}
use deadweight.Wire.Frame.{low, length-name_bytes}

pub u8_back : (v : ℕ) → IsU8 v → v % 256 ≡ v
u8_back v h = omega arith

pub i8_back : (v : ℤ) → IsI8 v → i8 (pos (u8 v % 256)) ≡ v
unfolding i8 u8
i8_back (pos n) h = ground arith
i8_back (negsuc n) h = ground arith

pub u16_back : (v : ℕ) → v < 65536 → v % 256 % 256 + v / 256 % 256 % 256 * 256 ≡ v
u16_back v h = omega arith

pub r32-low : (v : ℕ) (tail : List ℕ) → IsU32 v → r32 (low (le32 v []) ++ tail) ≡ got v tail
unfolding r32 r16 r8 ◌>>=◌ give
r32-low v tail h = ap (λ (n : ℕ). got n tail) (omega arith)

pub low-append : (ps bs : List ℕ) → low (ps ++ bs) ≡ low ps ++ low bs
low-append [] bs = refl
low-append (p ∷ ps) bs = ap (λ cs. p % 256 ∷ cs) (low-append ps bs)

pub rbytes-low :
    (n : ℕ) (bs tail : List ℕ)
    → AreBytes bs
    → length bs ≡ n
    → rbytes n (low bs ++ tail) ≡ got bs tail
unfolding rbytes ◌>>=◌ give r8
rbytes-low zero [] tail h e = refl
rbytes-low zero (b ∷ bs) tail h e = absurd (omega arith)
rbytes-low (suc n) [] tail h e = absurd (omega arith)
rbytes-low (suc n) (b ∷ bs) tail h e =
    rw (rbytes-low n bs tail h.1 (omega arith)) (rw (u8_back b h.0) refl)

pub rcards-low :
    (n : ℕ) (cs : List ℤ) (tail : List ℕ)
    → AreCards n cs
    → rcards n (low (card_bytes cs) ++ tail) ≡ got cs tail
unfolding rcards ri8 ◌>>=◌ give r8
rcards-low zero [] tail h = refl
rcards-low zero (c ∷ cs) tail h = absurd h
rcards-low (suc n) [] tail h = absurd (omega arith)
rcards-low (suc n) (c ∷ cs) tail h = rw (rcards-low n cs tail h.1) (rw (i8_back c h.0) refl)

cstr-AreBytes : (n : ℕ) (s : List ℕ) → AreBytes s → AreBytes (cstr n s)
unfolding cstr
cstr-AreBytes zero s h = tt
cstr-AreBytes (suc n) [] h = tt
cstr-AreBytes (suc n) (c ∷ s) h = ground (arith, cstr-AreBytes n s h.1)

abbrev zeros : ℕ → List ℕ
zeros n = replicate n 0

append-AreBytes : (ps : List ℕ) (n : ℕ) → AreBytes ps → AreBytes (ps ++ zeros n)
append-AreBytes [] zero h = tt
append-AreBytes [] (suc n) h = (omega arith, append-AreBytes [] n tt)
append-AreBytes (p ∷ ps) n h = (h.0, append-AreBytes ps n h.1)

cstr-zeros : (k n : ℕ) → cstr k (zeros n) ≡ []
unfolding cstr
cstr-zeros zero n = refl
cstr-zeros (suc k) zero = refl
cstr-zeros (suc k) (suc n) = refl

-- Cutting again changes nothing.
cstr-cstr : (k : ℕ) (s : List ℕ) (n : ℕ) → cstr k (cstr k s ++ zeros n) ≡ cstr k s
unfolding cstr
cstr-cstr zero s n = refl
cstr-cstr (suc k) [] n = cstr-zeros (suc k) n
cstr-cstr (suc k) (c ∷ s) n = elim (Bool-cases (c == 0)) [
  | inl y ↦ rw y (cstr-zeros (suc k) n)
  | inr z ↦ rw z (rw z (rw (cstr-cstr k s n) refl))
]

pub rname-low : (s tail : List ℕ) → IsName s → rname (low (name_bytes s) ++ tail) ≡ got s tail
unfolding rname ◌>>=◌ give
rname-low s tail h =
    let bytes : AreBytes (name_bytes s) =
      unfold pad in append-AreBytes (cstr 16 s) _ (cstr-AreBytes 16 s h.0) in
    let cut : cstr 16 (name_bytes s) ≡ cstr 16 s = unfold pad in cstr-cstr 16 s _ in
    rw (rbytes-low 16 (name_bytes s) tail bytes (length-name_bytes s))
      (ap (λ (t : List ℕ). got t tail) (ap (pad 17) cut ∙ h.1))

append_nil : (bs : List ℕ) → bs ++ [] ≡ bs
append_nil [] = refl
append_nil (b ∷ bs) = ap (λ cs. b ∷ cs) (append_nil bs)

-- The same with nothing behind it.
pub rbytes-low_all :
    (n : ℕ) (bs : List ℕ) → AreBytes bs → length bs ≡ n → rbytes n (low bs) ≡ got bs []
rbytes-low_all n bs h e =
    subst (λ (t : List ℕ). rbytes n t ≡ got bs []) (append_nil (low bs)) (rbytes-low n bs [] h e)

pub rcards-low_all :
    (n : ℕ) (cs : List ℤ) → AreCards n cs → rcards n (low (card_bytes cs)) ≡ got cs []
rcards-low_all n cs h =
    subst (λ (t : List ℕ). rcards n t ≡ got cs []) (append_nil (low (card_bytes cs)))
      (rcards-low n cs [] h)
