-- ===== src/Skills/Lists/Ranking.antt =====
-- The channels and tags in the order of their counts.
use multi_job.Prelude.{
  ℕ, ◌+◌, ◌≤◌, false, String, ◌==◌, List, [], ◌∷◌, none, count_of, All, All-map, ltb, ◌≡◌, ◌≢◌,
  refl, sym, ap, ◌∙◌, arith, Bool-cases, inl, inr,
}
use multi_job.Js.Dict.{Dict, lookup, lookup-put}
use multi_job.Js.Dict.Keys.{IsObject, put-IsObject, IsObject-entries}
use multi_job.Js.Sort.{sort_by}
use multi_job.Js.Sort.Laws.{IsWeakOrder, IsSorted, sort_by-IsSorted, count_of-sort_by, All-sort_by}
use multi_job.Skills.{Skill}
use multi_job.Skills.Lists.{
  count_or_zero, count_name, count_names, count_skills, more, entries_of, most_used,
}
use multi_job.Skills.Lists.Counts.{occurrences, count_in-count_skills}

-- An object of counts: no key stands twice, and none is empty.
abbrev IsTable : Dict ℕ → Type 0
IsTable m = IsObject m × (lookup "" m ≡ none)

count_name-IsTable : (n : String) (m : Dict ℕ) → IsTable m → IsTable (count_name n m)
unfolding count_name
count_name-IsTable n m (h, k) = elim (Bool-cases (n == "")) [
  | inl e ↦ rw e (h, k)
  | inr e ↦
      let new = count_or_zero (lookup n m) + 1 in
      rw e (put-IsObject n new m h, lookup-put "" n new m ∙ rw e k)
]

count_names-IsTable : (ns : List String) (m : Dict ℕ) → IsTable m → IsTable (count_names ns m)
unfolding count_names
count_names-IsTable [] m h = h
count_names-IsTable (n ∷ ns) m h =
    count_names-IsTable ns (count_name n m) (count_name-IsTable n m h)

module _ (names : Skill → List String) where
  count_skills-IsTable :
      (skills : List Skill) (m : Dict ℕ) → IsTable m → IsTable (count_skills names skills m)
  unfolding count_skills
  count_skills-IsTable [] m h = h
  count_skills-IsTable (skill ∷ skills) m h =
      count_skills-IsTable skills (count_names (names skill) m)
        (count_names-IsTable (names skill) m h)

  abbrev counts : List Skill → Dict ℕ
  counts skills = count_skills names skills []

  table : (skills : List Skill) → IsTable (counts skills)
  unfolding lookup
  table skills = count_skills-IsTable skills [] (tt, refl)

  -- A count of the object.
  count-occurrences :
      (skills : List Skill) (name : String)
      → name ≢ ""
      → count_or_zero (lookup name (counts skills)) ≡ occurrences names name skills
  unfolding lookup
  count-occurrences skills name ne = omega (arith, count_in-count_skills name ne names skills [])

  entries-true :
      (skills : List Skill)
      → All
          (λ (entry : String × ℕ). (entry.0 ≢ "") × (entry.1 ≡ occurrences names entry.0 skills))
          (counts skills)
  entries-true skills =
      let (object, blank) = table skills in
      All-map
        (λ (entry : String × ℕ) found.
          let ne : entry.0 ≢ "" = (λ e. cc (found, blank, ap (λ k. lookup k (counts skills)) e)) in
          (ne, sym (ap count_or_zero found) ∙ count-occurrences skills entry.0 ne))
        (counts skills) (IsObject-entries (counts skills) object)

more-IsWeakOrder : IsWeakOrder more
more-IsWeakOrder = record {
  asym = λ a b h. ground (arith, h);
  trans = λ a b c h k. ground (arith, h, k);
}

-- No count is above a bound that no entry passes.
lookup-le :
    (m : Dict ℕ) (k : String) (bound : ℕ)
    → count_of (λ (entry : String × ℕ). ltb bound entry.1) m ≡ 0
    → count_or_zero (lookup k m) ≤ bound
unfolding lookup
lookup-le [] k bound h = omega arith
lookup-le ((j, w) ∷ m) k bound h = elim (Bool-cases (ltb bound w)) [
  | inl e ↦ ground (arith, e, h)
  | inr e ↦ elim (Bool-cases (j == k)) [
    | inl d ↦ rw d (ground (arith, e))
    | inr d ↦ rw d (lookup-le m k bound (ground (arith, e, h)))
  ]
]

none_above :
    (bound : ℕ) (es : List (String × ℕ))
    → All (λ (entry : String × ℕ). ltb bound entry.1 ≡ false) es
    → count_of (λ (entry : String × ℕ). ltb bound entry.1) es ≡ 0
none_above bound [] h = refl
none_above bound (e ∷ es) (h, hs) = rw h (omega (arith, none_above bound es hs))

sorted_head :
    (es : List (String × ℕ))
    → IsSorted more es
    → count_of (λ (entry : String × ℕ). ltb (most_used es).1 entry.1) es ≡ 0
unfolding most_used
sorted_head [] h = refl
sorted_head ((name, n) ∷ es) (h, hs) =
    let self : ltb n n ≡ false = ground arith in rw self (omega (arith, none_above n es h))

-- The page's entries are names that are not empty, each with the number of times that it stands in the
-- skills, in descending order; the first one's number is the largest of all names.
pub entries_of_lem :
    (names : Skill → List String) (skills : List Skill)
    → All
        (λ (entry : String × ℕ). (entry.0 ≢ "") × (entry.1 ≡ occurrences names entry.0 skills))
        (entries_of names skills)
      × IsSorted more (entries_of names skills)
      × ((name : String)
          → name ≢ ""
          → occurrences names name skills ≤ (most_used (entries_of names skills)).1)
unfolding entries_of
entries_of_lem names skills =
    let m = counts names skills in
    let sorted = sort_by-IsSorted more more-IsWeakOrder m in
    (
      All-sort_by more _ m (entries-true names skills),
      sorted,
      (λ name ne.
          let bound = (most_used (sort_by more m)).1 in
          let above = λ (entry : String × ℕ). ltb bound entry.1 in
          let none_in_m : count_of above m ≡ 0 =
            sym (count_of-sort_by more above m) ∙ sorted_head (sort_by more m) sorted in
          omega (arith, lookup-le m name bound none_in_m, count-occurrences names skills name ne)),
    )
