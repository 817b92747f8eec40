-- ===== src/Js/Number.antt =====
-- Numbers of the forms: what `Number(text)` gives for the text of an `<input type="number">`, as
-- far as it is an integer or NaN, and the decimal digits of a template text.
pub mod Decimal
use multi_job.Prelude.{
  ℕ, zero, suc, ◌+◌, ◌/◌, ◌%◌, ◌≤◌, max, String, ltb, if◌then◌else◌, ◌⧺◌, ◌≡◌, refl, arith,
}
use Prim.Native.String.{slice}

-- `negative n` is -(n + 1).
pub data JsNumber : Type 0 where
  nan : JsNumber
  natural negative : ℕ → JsNumber

-- `Math.max(low, Number(x) || fallback)`: NaN and 0 are falsy.
unfoldable pub clamped : ℕ → ℕ → JsNumber → ℕ
clamped low fallback nan = max low fallback
clamped low fallback (natural zero) = max low fallback
clamped low fallback (natural (suc n)) = max low (suc n)
clamped low fallback (negative n) = low

pub low-le-clamped : (low fallback : ℕ) (x : JsNumber) → low ≤ clamped low fallback x
unfolding clamped
low-le-clamped low fallback nan = omega arith
low-le-clamped low fallback (natural zero) = omega arith
low-le-clamped low fallback (natural (suc n)) = omega arith
low-le-clamped low fallback (negative n) = omega arith

-- A number that the bound admits is taken as it is.
pub clamped_of_le : (low fallback n : ℕ) → low ≤ n → 1 ≤ n → clamped low fallback (natural n) ≡ n
unfolding clamped
clamped_of_le low fallback zero h k = elim k [ ]
clamped_of_le low fallback (suc n) h k = omega arith

digit : ℕ → String
digit d = slice "0123456789" d (d + 1)

-- The fuel bounds the digits.
show_within : ℕ → ℕ → String
show_within zero n = ""
show_within (suc f) n =
    let front = show_within f (n / 10) in if ltb n 10 then digit n else front ⧺ digit (n % 10)

-- `${n}`
unfoldable pub show : ℕ → String
unfolding show_within digit
show n = show_within (suc n) n

-- More fuel gives the same digits.
show_within_enough : (f g n : ℕ) → suc n ≤ f → suc n ≤ g → show_within f n ≡ show_within g n
unfolding show_within
show_within_enough zero g n h k = elim h [ ]
show_within_enough (suc f) zero n h k = elim k [ ]
show_within_enough (suc f) (suc g) n h k = ground (arith, show_within_enough f g (n / 10))

show_test : show 1803 ≡ "1803"
unfolding show
show_test = refl
