-- ===== src/SimpleApi/Interval.antt =====
-- The interval between two loads of the pages of ui-simple.
use multi_job.Prelude.{ℕ, zero, suc, ◌≤◌, false, String, ◌==◌, eq_iff, ◌≡◌, refl, arith}
use multi_job.Js.Number.{JsNumber, nan, natural, negative, show}
use multi_job.Js.Number.Decimal.Ends.{show-ne-nil}
use multi_job.SimpleApi.{
  SimpleStorage, positive_or_default, get_refresh_interval_ms, set_refresh_interval_ms,
}

positive_or_default-again :
    (x : JsNumber) → positive_or_default (natural (positive_or_default x)) ≡ positive_or_default x
positive_or_default-again nan = refl
positive_or_default-again (natural zero) = refl
positive_or_default-again (natural (suc n)) = refl
positive_or_default-again (negative n) = refl

positive_or_default-positive : (x : JsNumber) → 1 ≤ positive_or_default x
positive_or_default-positive nan = omega arith
positive_or_default-positive (natural zero) = omega arith
positive_or_default-positive (natural (suc n)) = omega arith
positive_or_default-positive (negative n) = omega arith

-- The interval is never 0, whatever is stored. After one is set it is that one if it is positive, and
-- else the default, if `Number` reads the digits of a number as the number.
get-set_refresh_interval_ms :
    (number_of : String → JsNumber) (value : JsNumber) (st : SimpleStorage)
    → ((n : ℕ) → number_of (show n) ≡ natural n)
    → (1 ≤ get_refresh_interval_ms number_of st)
      × (get_refresh_interval_ms number_of (set_refresh_interval_ms value st)
          ≡ positive_or_default value)
unfolding get_refresh_interval_ms set_refresh_interval_ms
get-set_refresh_interval_ms number_of value st reads =
    let n = positive_or_default value in
    let there : (show n == "") ≡ false = ground (arith, eq_iff (show n) "", show-ne-nil n) in
    (positive_or_default-positive _, rw (there, reads n) (positive_or_default-again value))
