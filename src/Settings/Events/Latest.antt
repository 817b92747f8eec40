-- ===== src/Settings/Events/Latest.antt =====
-- Which events the settings page shows, and in which order.
use multi_job.Prelude.{
  ℕ, ◌+◌, min, Bool, true, false, String, Option, some, refl, List, [], ◌∷◌, ◌++◌, filter, take,
  drop, length, length-take, length-filter, count_of, count_of-append, take-append-drop, All, ltb,
  ◌≡◌, sym, subst, ap, ◌∙◌, arith, Bool-cases, inl, inr,
}
use multi_job.Js.Sort.{sort_by}
use multi_job.Js.Sort.Laws.{
  IsSorted, IsWeakOrder, sort_by-IsSorted, count_of-sort_by, length-sort_by, All-sort_by,
  sort_by-eq,
}
use multi_job.Settings.Events.{SystemEvent, adalah_update_skill, lebih_baru, daftar_update_skill}

module _ {ℓ} {A : Type ℓ} where
  All-split {κ} : (P : A → Type κ) (xs ys : List A) → All P (xs ++ ys) → All P xs × All P ys
  All-split P [] ys h = (tt, h)
  All-split P (x ∷ xs) ys (h, hs) = let (a, b) = All-split P xs ys hs in ((h, a), b)

  IsSorted-split :
      (after : A → A → Bool) (xs ys : List A)
      → IsSorted after (xs ++ ys)
      → IsSorted after xs × All (λ x. All (λ y. after x y ≡ false) ys) xs
  IsSorted-split after [] ys h = (tt, tt)
  IsSorted-split after (x ∷ xs) ys (h, hs) =
      let (a, b) = All-split (λ y. after x y ≡ false) xs ys h in
      let (c, d) = IsSorted-split after xs ys hs in ((a, c), (b, d))

  filter-All : (p : A → Bool) (xs : List A) → All (λ x. p x ≡ true) (filter p xs)
  filter-All p [] = tt
  filter-All p (x ∷ xs) = elim (Bool-cases (p x)) [
    | inl e ↦ rw e (e, filter-All p xs)
    | inr e ↦ rw e (filter-All p xs)
  ]

-- The event has a valid time, `at` of its text.
abbrev pub IsDated : (String → Option ℕ) → (String → ℕ) → SystemEvent → Type 0
IsDated time at event = time event.timestamp ≡ some (at event.timestamp)

module _ (time : String → Option ℕ) (at : String → ℕ) where
  abbrev after : SystemEvent → SystemEvent → Bool
  after a b = ltb (at a.timestamp) (at b.timestamp)

  after-IsWeakOrder : IsWeakOrder after
  after-IsWeakOrder = record {
    asym = λ a b h. ground (arith, h);
    trans = λ a b c h k. ground (arith, h, k);
  }

  dated_after :
      (a b : SystemEvent)
      → IsDated time at a
      → IsDated time at b
      → lebih_baru (time b.timestamp) (time a.timestamp) ≡ after a b
  dated_after a b h k = rw (h, k) refl

  -- If every event of its kinds has a valid time, the page shows such events, at most eight and all if
  -- there are no more, newest first; with those that are left out they are all events of the kinds, each as
  -- often, and none that is left out is newer than one that is shown.
  pub daftar_update_skill_lem :
      (events : List SystemEvent)
      → All (IsDated time at) (filter adalah_update_skill events)
      → let shown = daftar_update_skill time events in
        (length shown ≡ min 8 (count_of adalah_update_skill events))
        × All (λ event. adalah_update_skill event ≡ true) shown
        × IsSorted (λ (a b : SystemEvent). ltb (at a.timestamp) (at b.timestamp)) shown
        × ((rest : List SystemEvent) × ((p : SystemEvent → Bool)
              → count_of p shown + count_of p rest ≡ count_of p (filter adalah_update_skill events))
            × All
                (λ (event : SystemEvent).
                  All
                    (λ (left : SystemEvent). ltb (at event.timestamp) (at left.timestamp) ≡ false)
                    rest)
                shown)
  unfolding daftar_update_skill
  daftar_update_skill_lem events dated =
      let kept = filter adalah_update_skill events in
      let sorted = sort_by after kept in
      let all = take-append-drop 8 sorted in
      let (order, later) =
        IsSorted-split after (take 8 sorted) (drop 8 sorted)
          (subst (IsSorted after) (sym all) (sort_by-IsSorted after after-IsWeakOrder kept)) in
      let kinds : All (λ event. adalah_update_skill event ≡ true) sorted =
        All-sort_by after (λ event. adalah_update_skill event ≡ true) kept
          (filter-All adalah_update_skill events) in
      rw (sort_by-eq _ after (IsDated time at) dated_after kept dated) (
        omega (
          arith,
          length-take 8 sorted,
          length-sort_by after kept,
          length-filter adalah_update_skill events,
        ),
        (All-split (λ event. adalah_update_skill event ≡ true) (take 8 sorted) (drop 8 sorted)
            (subst (All (λ event. adalah_update_skill event ≡ true)) (sym all) kinds)).0,
        order,
        (
          drop 8 sorted,
          (λ p.
              sym (count_of-append p (take 8 sorted) (drop 8 sorted))
              ∙ ap (count_of p) all
              ∙ count_of-sort_by after p kept),
          later,
        ),
      )
