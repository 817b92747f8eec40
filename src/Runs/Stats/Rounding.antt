-- ===== src/Runs/Stats/Rounding.antt =====
-- Quotients that `Math.round` rounds: how far they are from the exact ones.
use multi_job.Prelude.{ℕ, zero, suc, ◌+◌, ◌*◌, ◌≤◌, ◌<◌, ◌≡◌, ◌⊎◌, inl, inr, refl, arith}
use native.Mathlib.Nat.{div-mul-le_self, lt-div-mul-add, le-div_iff_mul-le, div-lt_iff_lt-mul}
use multi_job.Runs.Stats.{round_div, round_or_zero}

-- A rounded quotient is off by a half at most.
pub round_div_near :
    (a b : ℕ)
    → 1 ≤ b
    → (2 * (round_div a b * b) ≤ 2 * a + b) × (2 * a ≤ 2 * (round_div a b * b) + b)
unfolding round_div
round_div_near a b h = (
  grind (arith, div-mul-le_self (2 * a + b) (2 * b)),
  grind (arith, lt-div-mul-add {a = 2 * a + b} {b = 2 * b} (omega arith)),
)

pub round_div_between :
    (lo hi a b : ℕ) → 1 ≤ b → lo * b ≤ a → a ≤ hi * b → (lo ≤ round_div a b) × (round_div a b ≤ hi)
unfolding round_div
round_div_between lo hi a b h l u =
    let pos : 0 < 2 * b = omega arith in
    let low : lo * (2 * b) ≤ 2 * a + b = grind arith in
    let high : 2 * a + b < (hi + 1) * (2 * b) = grind arith in
    ((le-div_iff_mul-le pos).1 low, omega (arith, (div-lt_iff_lt-mul pos).1 high))

pub round_or_zero_zero : (a b : ℕ) → b ≡ 0 → round_or_zero a b ≡ 0
unfolding round_or_zero
round_or_zero_zero a zero h = refl
round_or_zero_zero a (suc b) h = omega (arith, h)

pub round_or_zero_eq : (a b : ℕ) → 1 ≤ b → round_or_zero a b ≡ round_div a b
unfolding round_or_zero
round_or_zero_eq a zero h = omega (arith, h)
round_or_zero_eq a (suc b) h = refl

pub zero_or_pos : (b : ℕ) → (b ≡ 0) ⊎ (1 ≤ b)
zero_or_pos zero = inl refl
zero_or_pos (suc b) = inr (omega arith)
