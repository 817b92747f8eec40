-- ===== src/Automation/Prefix/Filtering.antt =====
-- The loop of `filter`: what it keeps, in what order, and that nothing is lost.
use multi_job.Prelude.{
  true, false, ◌||◌, String, List, [], ◌∷◌, map, All, All-map, Subsequence, done, drops, keeps, ◌≡◌,
  ◌≢◌, ◌⊎◌, refl, sym, subst, arith, eq_iff, Bool-cases, inl, inr,
}
use multi_job.Js.Text.{truthy}
use multi_job.Automation.Prefix.{has, filter_new}

pub has_cons-false :
    (k key : String) (ks : List String)
    → has (k ∷ ks) key ≡ false
    → (k ≢ key) × (has ks key ≡ false)
unfolding has
has_cons-false k key ks h = ground (arith, eq_iff k key)

module _ (to_lower_case : String → String) where
  -- Of the items no two have the same key.
  abbrev pub HasDistinctKeys : List String → Type 0
  HasDistinctKeys [] = Unit
  HasDistinctKeys (x ∷ xs) = All (λ y. to_lower_case x ≢ to_lower_case y) xs × HasDistinctKeys xs

  -- Each item is no blank, and its key is new at its place.
  abbrev AllNew : List String → List String → Type 0
  AllNew seen [] = Unit
  AllNew seen (x ∷ xs) =
      (truthy x ≡ true) × (has seen (to_lower_case x) ≡ false) × AllNew (to_lower_case x ∷ seen) xs

  filter_new-AllNew : (seen items : List String) → AllNew seen (filter_new to_lower_case seen items)
  unfolding filter_new
  filter_new-AllNew seen [] = tt
  filter_new-AllNew seen (item ∷ items) = elim (Bool-cases (truthy item)) [
    | inr e ↦ rw e (filter_new-AllNew seen items)
    | inl e ↦ elim (Bool-cases (has seen (to_lower_case item))) [
      | inl h ↦ rw (e, h) (filter_new-AllNew seen items)
      | inr h ↦ rw (e, h) (e, h, filter_new-AllNew (to_lower_case item ∷ seen) items)
    ]
  ]

  -- The keys that an item list can still use.
  abbrev AllUnseen : List String → List String → Type 0
  AllUnseen seen xs = All (λ y. has seen (to_lower_case y) ≡ false) xs

  AllNew-AllUnseen : (seen xs : List String) → AllNew seen xs → AllUnseen seen xs
  AllNew-AllUnseen seen [] h = tt
  AllNew-AllUnseen seen (x ∷ xs) (_, new, later) = (
    new,
    All-map (λ y h. (has_cons-false (to_lower_case x) (to_lower_case y) seen h).1) xs
        (AllNew-AllUnseen (to_lower_case x ∷ seen) xs later),
  )

  AllNew-HasDistinctKeys : (seen xs : List String) → AllNew seen xs → HasDistinctKeys xs
  AllNew-HasDistinctKeys seen [] h = tt
  AllNew-HasDistinctKeys seen (x ∷ xs) (_, _, later) = (
    All-map (λ y h. (has_cons-false (to_lower_case x) (to_lower_case y) seen h).0) xs
        (AllNew-AllUnseen (to_lower_case x ∷ seen) xs later),
    AllNew-HasDistinctKeys (to_lower_case x ∷ seen) xs later,
  )

  AllNew-not_blank : (seen xs : List String) → AllNew seen xs → All (λ x. x ≢ "") xs
  AllNew-not_blank seen [] h = tt
  AllNew-not_blank seen (x ∷ xs) (t, _, later) =
      (ground (arith, eq_iff x ""), AllNew-not_blank (to_lower_case x ∷ seen) xs later)

  AllUnseen-cons :
      (k : String) (seen xs : List String)
      → All (λ y. k ≢ to_lower_case y) xs
      → AllUnseen seen xs
      → AllUnseen (k ∷ seen) xs
  unfolding has
  AllUnseen-cons k seen [] h g = tt
  AllUnseen-cons k seen (x ∷ xs) (h, hs) (g, gs) =
      (ground (arith, eq_iff k (to_lower_case x)), AllUnseen-cons k seen xs hs gs)

  -- A list that is normal already passes the filter as it is.
  filter_new-eq :
      (seen xs : List String)
      → All (λ x. x ≢ "") xs
      → HasDistinctKeys xs
      → AllUnseen seen xs
      → filter_new to_lower_case seen xs ≡ xs
  unfolding filter_new
  filter_new-eq seen [] b d u = refl
  filter_new-eq seen (x ∷ xs) (b, bs) (d, ds) (u, us) =
      let ih =
        filter_new-eq (to_lower_case x ∷ seen) xs bs ds
          (AllUnseen-cons (to_lower_case x) seen xs d us) in
      ground (arith, eq_iff x "", ih)

  AllUnseen-nil : (xs : List String) → AllUnseen [] xs
  unfolding has
  AllUnseen-nil [] = tt
  AllUnseen-nil (x ∷ xs) = (refl, AllUnseen-nil xs)

  pub filter_new-HasDistinctKeys :
      (items : List String) → HasDistinctKeys (filter_new to_lower_case [] items)
  filter_new-HasDistinctKeys items = AllNew-HasDistinctKeys [] _ (filter_new-AllNew [] items)

  pub filter_new-not_blank :
      (items : List String) → All (λ x. x ≢ "") (filter_new to_lower_case [] items)
  filter_new-not_blank items = AllNew-not_blank [] _ (filter_new-AllNew [] items)

  pub filter_new-eq_self :
      (xs : List String)
      → All (λ x. x ≢ "") xs
      → HasDistinctKeys xs
      → filter_new to_lower_case [] xs ≡ xs
  filter_new-eq_self xs b d = filter_new-eq [] xs b d (AllUnseen-nil xs)

  -- The order of the items is kept.
  pub filter_new-Subsequence :
      (seen items : List String) → Subsequence (filter_new to_lower_case seen items) items
  unfolding filter_new
  filter_new-Subsequence seen [] = done
  filter_new-Subsequence seen (item ∷ items) = elim (Bool-cases (truthy item)) [
    | inr e ↦ rw e (drops item (filter_new-Subsequence seen items))
    | inl e ↦ elim (Bool-cases (has seen (to_lower_case item))) [
      | inl h ↦ rw (e, h) (drops item (filter_new-Subsequence seen items))
      | inr h ↦ rw (e, h) (keeps item (filter_new-Subsequence (to_lower_case item ∷ seen) items))
    ]
  ]

  -- The item is a blank, or some listed item has its key.
  abbrev pub IsCovered : List String → String → Type 0
  IsCovered xs item = (item ≡ "") ⊎ (has (map to_lower_case xs) (to_lower_case item) ≡ true)

  -- So for a loop that has seen some keys.
  abbrev IsCoveredBy : List String → List String → String → Type 0
  IsCoveredBy seen xs item =
      (item ≡ "")
      ⊎ ((has seen (to_lower_case item) || has (map to_lower_case xs) (to_lower_case item)) ≡ true)

  IsCoveredBy-new :
      (seen xs : List String) (x item : String)
      → IsCoveredBy (to_lower_case x ∷ seen) xs item
      → IsCoveredBy seen (x ∷ xs) item
  unfolding has
  IsCoveredBy-new seen xs x item h = ground arith

  -- The three ways of one round of the loop.
  module _ (seen : List String) (item : String) (items : List String) where
    filter_new_blank :
        truthy item ≡ false
        → filter_new to_lower_case seen (item ∷ items) ≡ filter_new to_lower_case seen items
    unfolding filter_new
    filter_new_blank e = rw e

    filter_new_seen :
        truthy item ≡ true
        → has seen (to_lower_case item) ≡ true
        → filter_new to_lower_case seen (item ∷ items) ≡ filter_new to_lower_case seen items
    unfolding filter_new
    filter_new_seen e h = rw (e, h)

    filter_new_fresh :
        truthy item ≡ true
        → has seen (to_lower_case item) ≡ false
        → filter_new to_lower_case seen (item ∷ items)
          ≡ item ∷ filter_new to_lower_case (to_lower_case item ∷ seen) items
    unfolding filter_new
    filter_new_fresh e h = rw (e, h)

  IsCoveredBy-self : (seen xs : List String) (item : String) → IsCoveredBy seen (item ∷ xs) item
  unfolding has
  IsCoveredBy-self seen xs item =
      inr (ground (arith, eq_iff (to_lower_case item) (to_lower_case item)))

  filter_new-IsCoveredBy :
      (seen items : List String)
      → All (IsCoveredBy seen (filter_new to_lower_case seen items)) items
  filter_new-IsCoveredBy seen [] = tt
  filter_new-IsCoveredBy seen (item ∷ items) =
      let Goal = λ (xs : List String). All (IsCoveredBy seen xs) (item ∷ items) in
      elim (Bool-cases (truthy item)) [
        | inr e ↦
            subst Goal (sym (filter_new_blank seen item items e))
              (inl (ground (arith, eq_iff item "")), filter_new-IsCoveredBy seen items)
        | inl e ↦ elim (Bool-cases (has seen (to_lower_case item))) [
          | inl h ↦
              subst Goal (sym (filter_new_seen seen item items e h))
                (inr (ground arith), filter_new-IsCoveredBy seen items)
          | inr h ↦ subst Goal (sym (filter_new_fresh seen item items e h)) (
            IsCoveredBy-self seen _ item,
            All-map (IsCoveredBy-new seen _ item) items
                (filter_new-IsCoveredBy (to_lower_case item ∷ seen) items),
          )
        ]
      ]

  pub filter_new-IsCovered :
      (items : List String) → All (IsCovered (filter_new to_lower_case [] items)) items
  unfolding has
  filter_new-IsCovered items = filter_new-IsCoveredBy [] items
