-- ===== src/Cards/Choose.antt =====
-- The shape of the tables of core/card_rules.c, and the packing of an effect word.
use deadweight.Prelude.{ℕ, ◌+◌, ◌*◌, List, [], ◌∷◌, if◌then◌else◌}
use deadweight.Prelude.{ℤ, pos, eqb_ℤ}

-- `if ((id == k)) return v;` for each pair in turn, then the default.
unfoldable pub choose : ℤ → List (ℕ × ℕ) → ℕ → ℤ
choose id [] default = pos default
choose id ((k, v) ∷ rows) default = if eqb_ℤ id (pos k) then pos v else choose id rows default

-- An effect word: channel, condition, condition's number, scale and amount as decimal digits.
unfoldable pub fx : ℕ → ℕ → ℕ → ℕ → ℕ → ℕ
fx ch nn pp m a = ch * 10000000 + (nn * 100000 + (pp * 1000 + (m * 100 + a)))
