-- ===== src/Js/Sort/Laws.antt =====
-- Sorting keeps the elements, as often as they stand, and puts them in order.
use multi_job.Prelude.{
  suc, ◌+◌, Bool, true, false, List, [], ◌∷◌, if◌then◌else◌, length, count_of, All, ◌≡◌, refl, ap,
  ◌∙◌, arith, Bool-cases, inl, inr,
}
use multi_job.Js.Sort.{insert_by, sort_by}

module _ {ℓ} {A : Type ℓ} (after : A → A → Bool) where
  count_of-insert_by :
      (p : A → Bool) (a : A) (bs : List A)
      → count_of p (insert_by after a bs) ≡ (if p a then 1 else 0) + count_of p bs
  unfolding insert_by
  count_of-insert_by p a [] = refl
  count_of-insert_by p a (b ∷ bs) = ground (arith, count_of-insert_by p a bs)

  -- Every test is passed by as many elements as before: the elements are the same, in some order.
  pub count_of-sort_by :
      (p : A → Bool) (as' : List A) → count_of p (sort_by after as') ≡ count_of p as'
  unfolding sort_by
  count_of-sort_by p [] = refl
  count_of-sort_by p (a ∷ as') =
      omega (arith, count_of-insert_by p a (sort_by after as'), count_of-sort_by p as')

  length-insert_by : (a : A) (bs : List A) → length (insert_by after a bs) ≡ suc (length bs)
  unfolding insert_by
  length-insert_by a [] = refl
  length-insert_by a (b ∷ bs) = ground (arith, length-insert_by a bs)

  pub length-sort_by : (as' : List A) → length (sort_by after as') ≡ length as'
  unfolding sort_by
  length-sort_by [] = refl
  length-sort_by (a ∷ as') =
      omega (arith, length-insert_by a (sort_by after as'), length-sort_by as')

  All-insert_by {κ} :
      (P : A → Type κ) (a : A) (bs : List A) → P a → All P bs → All P (insert_by after a bs)
  unfolding insert_by
  All-insert_by P a [] h k = (h, tt)
  All-insert_by P a (b ∷ bs) h (k, ks) = elim (Bool-cases (after a b)) [
    | inl e ↦ rw e (k, All-insert_by P a bs h ks)
    | inr e ↦ rw e (h, (k, ks))
  ]

  pub All-sort_by {κ} : (P : A → Type κ) (as' : List A) → All P as' → All P (sort_by after as')
  unfolding sort_by
  All-sort_by P [] h = tt
  All-sort_by P (a ∷ as') (h, hs) = All-insert_by P a (sort_by after as') h (All-sort_by P as' hs)

  -- No element is to stand behind one that follows it.
  abbrev pub IsSorted : List A → Type 0
  IsSorted [] = Unit
  IsSorted (a ∷ as') = All (λ b. after a b ≡ false) as' × IsSorted as'

  -- What a comparison function promises: it is a weak order.
  pub record IsWeakOrder : Type ℓ where
    pub asym : (a b : A) → after a b ≡ true → after b a ≡ false
    pub trans : (a b c : A) → after a b ≡ false → after b c ≡ false → after a c ≡ false

  module _ (order : IsWeakOrder) where
    later_too :
        (a b : A) (bs : List A)
        → after a b ≡ false
        → All (λ c. after b c ≡ false) bs
        → All (λ c. after a c ≡ false) bs
    later_too a b [] h k = tt
    later_too a b (c ∷ bs) h (k, ks) = (order.trans a b c h k, later_too a b bs h ks)

    insert_by-IsSorted : (a : A) (bs : List A) → IsSorted bs → IsSorted (insert_by after a bs)
    unfolding insert_by
    insert_by-IsSorted a [] h = (tt, tt)
    insert_by-IsSorted a (b ∷ bs) (h, hs) = elim (Bool-cases (after a b)) [
      | inl e ↦ rw e (
        All-insert_by (λ c. after b c ≡ false) a bs (order.asym a b e) h,
        insert_by-IsSorted a bs hs,
      )
      | inr e ↦ rw e ((e, later_too a b bs e h), (h, hs))
    ]

    pub sort_by-IsSorted : (as' : List A) → IsSorted (sort_by after as')
    unfolding sort_by
    sort_by-IsSorted [] = tt
    sort_by-IsSorted (a ∷ as') = insert_by-IsSorted a (sort_by after as') (sort_by-IsSorted as')

-- Two comparisons that agree on the elements sort them the same way.
module _ {ℓ κ} {A : Type ℓ} (after after' : A → A → Bool) (P : A → Type κ)
    (same : (a b : A) → P a → P b → after a b ≡ after' a b) where
  insert_by-eq :
      (a : A) (bs : List A) → P a → All P bs → insert_by after a bs ≡ insert_by after' a bs
  unfolding insert_by
  insert_by-eq a [] h k = refl
  insert_by-eq a (b ∷ bs) h (k, ks) = rw (same a b h k, insert_by-eq a bs h ks) refl

  pub sort_by-eq : (as' : List A) → All P as' → sort_by after as' ≡ sort_by after' as'
  unfolding sort_by
  sort_by-eq [] h = refl
  sort_by-eq (a ∷ as') (h, hs) =
      ap (insert_by after a) (sort_by-eq as' hs)
      ∙ insert_by-eq a (sort_by after' as') h (All-sort_by after' P as' hs)
