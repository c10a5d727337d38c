-- ===== src/Wire/Stays.antt =====
-- The readers of core/protocol.c that stay within a number of bytes, and the rules to put them together.
use deadweight.Prelude.{
  ℕ, zero, suc, ◌+◌, ◌-◌, ◌≤◌, ◌≡◌, ◌≢◌, refl, arith, List, [], ◌∷◌, Bool, true, false,
  if◌then◌else◌, length, subst,
}
use deadweight.Wire.Reader.{
  got, overrun, Reader, ◌>>=◌, give, refuse, r8, r16, r32, ri8, rbytes, rcards, rname,
}

-- A reader that takes `n` bytes where there are as many.
pub record Takes {ℓ} {A : Type ℓ} (n : ℕ) (m : Reader A) : Type ℓ where
  pub runs :
      (bs : List ℕ)
      → n ≤ length bs
      → (a : A) × (rest : List ℕ) × (m bs ≡ got a rest) × (length rest + n ≡ length bs)

-- A reader that stays within `n` bytes.
pub record Stays {ℓ} {A : Type ℓ} (n : ℕ) (m : Reader A) : Type ℓ where
  pub within : (bs : List ℕ) → n ≤ length bs → m bs ≢ overrun

pub r8-Takes : Takes 1 r8
unfolding r8
r8-Takes = record {
  runs = λ bs h.
      elim bs
          as (λ bs.
            1 ≤ length bs
            → (a : ℕ) × (rest : List ℕ) × (r8 bs ≡ got a rest) × (length rest + 1 ≡ length bs)) [
              | [] ↦ λ h. absurd (omega arith)
              | b ∷ bs ↦ λ h. (b, bs, refl, omega arith)
            ]
        h;
}

pub give-Takes {ℓ} : {A : Type ℓ} (a : A) → Takes 0 (give a)
unfolding give
give-Takes a = record { runs = λ bs h. (a, bs, refl, omega arith) }

pub bind-Takes {ℓ κ} :
    {A : Type ℓ} {B : Type κ} {m : Reader A} {f : A → Reader B} (k n : ℕ)
    → Takes k m
    → ((a : A) → Takes n (f a))
    → Takes (k + n) (m >>= f)
unfolding ◌>>=◌
bind-Takes k n tm tf = record {
  runs = λ bs h.
      let (a, rest, e, len) = tm.runs bs (omega arith) in
      let (b, last, e', len') = (tf a).runs rest (omega arith) in (b, last, rw e e', omega arith);
}

pub bind-Stays {ℓ κ} :
    {A : Type ℓ} {B : Type κ} {m : Reader A} {f : A → Reader B} (k n : ℕ)
    → Takes k m
    → ((a : A) → Stays n (f a))
    → Stays (k + n) (m >>= f)
unfolding ◌>>=◌
bind-Stays k n tm sf = record {
  within = λ bs h.
      let (a, rest, e, len) = tm.runs bs (omega arith) in rw e ((sf a).within rest (omega arith));
}

pub give-Stays {ℓ} : {A : Type ℓ} (n : ℕ) (a : A) → Stays n (give a)
unfolding give
give-Stays n a = record { within = λ bs h e. cc e }

pub refuse-Stays {ℓ} : {A : Type ℓ} (n : ℕ) → Stays n (refuse {A = A})
unfolding refuse
refuse-Stays n = record { within = λ bs h e. cc e }

pub r16-Takes : Takes 2 r16
unfolding r16
r16-Takes = bind-Takes 1 1 r8-Takes λ a. bind-Takes 1 0 r8-Takes λ b. give-Takes _

pub r32-Takes : Takes 4 r32
unfolding r32
r32-Takes = bind-Takes 2 2 r16-Takes λ a. bind-Takes 2 0 r16-Takes λ b. give-Takes _

pub ri8-Takes : Takes 1 ri8
unfolding ri8
ri8-Takes = bind-Takes 1 0 r8-Takes λ b. give-Takes _

Takes-of {ℓ} : {A : Type ℓ} {m : Reader A} (k n : ℕ) → k ≡ n → Takes k m → Takes n m
Takes-of {m = m} k n e t = subst (λ (i : ℕ). Takes i m) e t

pub rbytes-Takes : (n : ℕ) → Takes n (rbytes n)
unfolding rbytes
rbytes-Takes zero = give-Takes []
rbytes-Takes (suc n) =
    Takes-of (1 + (n + 0)) (suc n) (omega arith)
      (bind-Takes 1 (n + 0) r8-Takes λ b. bind-Takes n 0 (rbytes-Takes n) λ bs. give-Takes _)

pub rcards-Takes : (n : ℕ) → Takes n (rcards n)
unfolding rcards
rcards-Takes zero = give-Takes []
rcards-Takes (suc n) =
    Takes-of (1 + (n + 0)) (suc n) (omega arith)
      (bind-Takes 1 (n + 0) ri8-Takes λ c. bind-Takes n 0 (rcards-Takes n) λ cs. give-Takes _)

pub rname-Takes : Takes 16 rname
unfolding rname
rname-Takes = bind-Takes 16 0 (rbytes-Takes 16) λ s. give-Takes _

-- The same as `bind-Stays`, from the whole size down.
pub step-Stays {ℓ κ} :
    {A : Type ℓ} {B : Type κ} {m : Reader A} {f : A → Reader B} {t : ℕ} (k : ℕ)
    → Takes k m
    → k ≤ t
    → ((a : A) → Stays (t - k) (f a))
    → Stays t (m >>= f)
step-Stays {m = m} {f = f} {t = t} k tm le sf =
    subst (λ (i : ℕ). Stays i (m >>= f)) (omega arith) (bind-Stays k (t - k) tm sf)

pub if-Stays {ℓ} :
    {A : Type ℓ} (n : ℕ) (b : Bool) (m k : Reader A)
    → (b ≡ true → Stays n m)
    → (b ≡ false → Stays n k)
    → Stays n (if b then m else k)
if-Stays n true m k sm sk = sm refl
if-Stays n false m k sm sk = sk refl

pub bytes-Stays {ℓ} :
    {A : Type ℓ} (n t : ℕ) (f : List ℕ → Reader A)
    → n ≤ t
    → ((a : List ℕ) → Stays 0 (f a))
    → Stays t (rbytes n >>= f)
bytes-Stays n t f le s =
    step-Stays n (rbytes-Takes n) le λ a. record { within = λ bs h. (s a).within bs (omega arith) }
