-- ===== src/Skills/Lists/Counts.antt =====
-- How often the channels and tags stand in the skills, and the most used one.
use multi_job.Prelude.{
  ℕ, ◌+◌, false, String, ◌==◌, eq_iff, List, [], ◌∷◌, some, count_of, if◌then◌else◌, ◌≡◌, ◌≢◌, refl,
  ap, ◌∙◌, arith, Bool-cases, inl, inr,
}
use multi_job.Js.Dict.{Dict, lookup, put, lookup-put}
use multi_job.Skills.{Skill}
use multi_job.Skills.Lists.{count_or_zero, count_name, count_names, count_skills}

-- How often a name stands in the lists of the skills.
pub occurrences : (Skill → List String) → String → List Skill → ℕ
occurrences names name [] = 0
occurrences names name (skill ∷ skills) =
    count_of (λ n. n == name) (names skill) + occurrences names name skills

-- The count of a name in the object.
abbrev count_in : String → Dict ℕ → ℕ
count_in name counts = count_or_zero (lookup name counts)

module _ (name : String) (ne : name ≢ "") where
  count_in-count_name :
      (n : String) (counts : Dict ℕ)
      → count_in name (count_name n counts) ≡ (if n == name then 1 else 0) + count_in name counts
  unfolding count_name
  count_in-count_name n counts =
      let new = count_or_zero (lookup n counts) + 1 in
      let put_new = lookup-put name n new counts in
      elim (Bool-cases (n == name)) [
        | inl e ↦
            let same : n ≡ name = (eq_iff n name).0 e in
            let there : (n == "") ≡ false =
              ground (arith, eq_iff n "", same, ne, eq_iff name "", e) in
            let found : lookup name (put n new counts) ≡ some new = put_new ∙ rw e refl in
            let old : count_or_zero (lookup n counts) ≡ count_or_zero (lookup name counts) =
              ap (λ k. count_or_zero (lookup k counts)) same in
            rw (there, e, found) (omega (arith, old))
        | inr e ↦
            let found : lookup name (put n new counts) ≡ lookup name counts = put_new ∙ rw e refl in
            elim (Bool-cases (n == "")) [
              | inl d ↦ rw (d, e) (omega arith)
              | inr d ↦ rw (d, e, found) (omega arith)
            ]
      ]

  count_in-count_names :
      (ns : List String) (counts : Dict ℕ)
      → count_in name (count_names ns counts) ≡ count_of (λ n. n == name) ns + count_in name counts
  unfolding count_names
  count_in-count_names [] counts = omega arith
  count_in-count_names (n ∷ ns) counts =
      omega (arith, count_in-count_names ns (count_name n counts), count_in-count_name n counts)

  pub count_in-count_skills :
      (names : Skill → List String) (skills : List Skill) (counts : Dict ℕ)
      → count_in name (count_skills names skills counts)
        ≡ occurrences names name skills + count_in name counts
  unfolding count_skills occurrences
  count_in-count_skills names [] counts = omega arith
  count_in-count_skills names (skill ∷ skills) counts = omega (
    arith,
    count_in-count_skills names skills (count_names (names skill) counts),
    count_in-count_names (names skill) counts,
  )
