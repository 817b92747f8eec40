-- ===== src/Settings/Toasts.antt =====
-- The messages that the page shows, and how many of a kind there are.
use multi_job.Prelude.{
  ℕ, zero, suc, Bool, true, false, String, List, [], ◌∷◌, ◌++◌, count_of, ◌≡◌, ◌↔◌, arith,
}

pub data Toast : Type 0 where
  success error message : String → Toast

-- `if (n > 0) { toast }`
abbrev pub if_positive : ℕ → Toast → List Toast
if_positive zero toast = []
if_positive (suc n) toast = toast ∷ []

abbrev pub is_success : Toast → Bool
is_success (success m) = true
is_success _ = false

abbrev pub is_error : Toast → Bool
is_error (error m) = true
is_error _ = false

pub toasts_counts :
    (a b : String) (n m : ℕ)
    → let ts = if_positive n (success a) ++ if_positive m (error b) in
      ((count_of is_success ts ≡ 0) ↔ (n ≡ 0)) × ((count_of is_error ts ≡ 0) ↔ (m ≡ 0))
toasts_counts a b zero zero = ground arith
toasts_counts a b zero (suc m) = ground arith
toasts_counts a b (suc n) zero = ground arith
toasts_counts a b (suc n) (suc m) = ground arith
