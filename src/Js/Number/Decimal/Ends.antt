-- ===== src/Js/Number/Decimal/Ends.antt =====
-- The texts of numbers are not empty and end in a digit, so that no white space is trimmed from them.
use Prim.Native.String.{[], ◌∷◌}
use text.Mathlib.TextLemmas.{nil-append, cons-append}
use multi_job.Prelude.{
  ℕ, zero, suc, ◌/◌, ◌%◌, ◌<◌, String, ◌⧺◌, ltb, ◌≢◌, refl, ◌∙◌, sym, arith, Bool-cases, inl, inr,
}
use multi_job.Js.Text.{is_space}
use multi_job.Js.Text.Trimming.{EndsClean, EndsClean-append}
use multi_job.Js.Number.{digit, show_within, show}
use multi_job.Js.Number.Decimal.{pad_start}

append_ne : (s t : String) → t ≢ "" → s ⧺ t ≢ ""
append_ne [] t h e = h (sym (nil-append t) ∙ e)
append_ne (c ∷ s) t h e = cc (e, cons-append c s t)

abbrev Ends : String → Type 0
Ends s = (s ≢ "") × EndsClean s

Ends-append : (s t : String) → Ends t → Ends (s ⧺ t)
Ends-append s t (ne, h) = (append_ne s t ne, EndsClean-append s t ne h)

Ends-digit : (d : ℕ) → d < 10 → Ends (digit d)
unfolding digit is_space
Ends-digit zero h = ((λ e. cc e), refl)
Ends-digit (suc zero) h = ((λ e. cc e), refl)
Ends-digit (suc (suc zero)) h = ((λ e. cc e), refl)
Ends-digit (suc (suc (suc zero))) h = ((λ e. cc e), refl)
Ends-digit (suc (suc (suc (suc zero)))) h = ((λ e. cc e), refl)
Ends-digit (suc (suc (suc (suc (suc zero))))) h = ((λ e. cc e), refl)
Ends-digit (suc (suc (suc (suc (suc (suc zero)))))) h = ((λ e. cc e), refl)
Ends-digit (suc (suc (suc (suc (suc (suc (suc zero))))))) h = ((λ e. cc e), refl)
Ends-digit (suc (suc (suc (suc (suc (suc (suc (suc zero)))))))) h = ((λ e. cc e), refl)
Ends-digit (suc (suc (suc (suc (suc (suc (suc (suc (suc zero))))))))) h = ((λ e. cc e), refl)
Ends-digit (suc (suc (suc (suc (suc (suc (suc (suc (suc (suc d)))))))))) h = absurd (omega arith)

Ends-show_within : (f n : ℕ) → n < f → Ends (show_within f n)
unfolding show_within
Ends-show_within zero n h = elim h [ ]
Ends-show_within (suc f) n h = elim (Bool-cases (ltb n 10)) [
  | inl e ↦ rw e (Ends-digit n (ground (arith, e)))
  | inr e ↦
      rw e
        (Ends-append (show_within f (n / 10)) (digit (n % 10)) (Ends-digit (n % 10) (omega arith)))
]

pub Ends-pad_start : (k n : ℕ) → (pad_start k (show n) ≢ "") × EndsClean (pad_start k (show n))
unfolding pad_start show
Ends-pad_start k n = Ends-append _ (show n) (Ends-show_within (suc n) n (omega arith))

pub show-ne-nil : (n : ℕ) → show n ≢ ""
unfolding show
show-ne-nil n = (Ends-show_within (suc n) n (omega arith)).0
