-- ===== src/Js/Sort.antt =====
-- `Array.prototype.sort`, which is stable, as an insertion: `after a b` is whether the comparison
-- puts `b` before `a`, `compare(a, b) > 0`.
pub mod Laws
use multi_job.Prelude.{Bool, List, [], ◌∷◌, if◌then◌else◌}

module _ {ℓ} {A : Type ℓ} (after : A → A → Bool) where
  pub insert_by : A → List A → List A
  insert_by a [] = a ∷ []
  insert_by a (b ∷ bs) = if after a b then b ∷ insert_by a bs else a ∷ b ∷ bs

  unfoldable pub sort_by : List A → List A
  unfolding insert_by
  sort_by [] = []
  sort_by (a ∷ as') = insert_by a (sort_by as')
