-- ===== src/Settings/Providers/Groups.antt =====
-- The groups of the providers offer exactly the providers of the table.
use multi_job.Prelude.{
  Bool, true, false, not, ◌&&◌, ◌||◌, String, ◌==◌, eq_iff, List, [], ◌∷◌, ◌++◌, some, filter,
  length, ltb, ◌≡◌, refl, ◌∙◌, ap, arith, Bool-cases, Option-cases, inl, inr,
}
use multi_job.Js.Dict.{Dict, lookup, put, lookup-put}
use multi_job.Settings.Providers.{
  BulkProviderMeta, BulkProviderGroupMeta, GrupProvider, by_id, baris_grup, punya_provider, dikenal,
  grup_dikenal, grup_provider_bulk,
}

-- Every row stands under its provider, and the provider passes the test.
abbrev IsKeyed : (String → Bool) → Dict BulkProviderMeta → Type 0
IsKeyed p peta =
    (k : String) (row : BulkProviderMeta)
    → lookup k peta ≡ some row
    → (row.provider ≡ k) × (p k ≡ true)

by_id-IsKeyed :
    (p : String → Bool) (rows : List BulkProviderMeta) (peta : Dict BulkProviderMeta)
    → ((k : String) → punya_provider k rows ≡ true → p k ≡ true)
    → IsKeyed p peta
    → IsKeyed p (by_id rows peta)
unfolding by_id
by_id-IsKeyed p [] peta all keyed = keyed
by_id-IsKeyed p (row ∷ rows) peta all keyed =
    by_id-IsKeyed p rows (put row.provider row peta) (λ k h. all k (ground (arith, h)))
      (λ k r e.
        ground
          (arith, lookup-put k row.provider row peta, e, keyed k r, eq_iff row.provider k, all k))

baris_grup_sound :
    (p : String → Bool) (peta : Dict BulkProviderMeta) (ids : List String) (k : String)
    → IsKeyed p peta
    → punya_provider k (baris_grup peta ids) ≡ true
    → p k ≡ true
unfolding baris_grup
baris_grup_sound p peta [] k keyed h = cc
baris_grup_sound p peta (i ∷ ids) k keyed h = elim (Option-cases (lookup i peta)) [
  | inl e ↦ baris_grup_sound p peta ids k keyed (ground (arith, e, h))
  | inr (row, e) ↦
      ground (arith, e, h, keyed i row, eq_iff row.provider k, baris_grup_sound p peta ids k keyed)
]

dikenal_sound :
    (p : String → Bool) (peta : Dict BulkProviderMeta) (groups : List BulkProviderGroupMeta)
    (k : String)
    → IsKeyed p peta
    → dikenal k (grup_dikenal peta groups) ≡ true
    → p k ≡ true
dikenal_sound p peta [] k keyed h = cc
dikenal_sound p peta (g ∷ gs) k keyed h =
    ground
      (arith, h, baris_grup_sound p peta g.provider_ids k keyed, dikenal_sound p peta gs k keyed)

punya_provider-filter :
    (groups : List GrupProvider) (rows : List BulkProviderMeta) (k : String)
    → punya_provider k (filter (λ row. not (dikenal row.provider groups)) rows)
      ≡ punya_provider k rows && not (dikenal k groups)
punya_provider-filter groups [] k = refl
punya_provider-filter groups (row ∷ rows) k = elim (Bool-cases (row.provider == k)) [
  | inl e ↦
      let same : row.provider ≡ k = (eq_iff row.provider k).0 e in
      let known : dikenal row.provider groups ≡ dikenal k groups =
        ap (λ j. dikenal j groups) same in
      ground (arith, e, known, punya_provider-filter groups rows k)
  | inr e ↦ elim (Bool-cases (dikenal row.provider groups)) [
    | inl d ↦ rw (d, e) (punya_provider-filter groups rows k)
    | inr d ↦ ground (arith, d, e, punya_provider-filter groups rows k)
  ]
]

punya_provider-empty :
    (rows : List BulkProviderMeta) (k : String)
    → ltb 0 (length rows) ≡ false
    → punya_provider k rows ≡ false
punya_provider-empty [] k h = refl
punya_provider-empty (row ∷ rows) k h = ground (arith, h)

dikenal-append :
    (groups more : List GrupProvider) (k : String)
    → dikenal k (groups ++ more) ≡ dikenal k groups || dikenal k more
dikenal-append [] more k = refl
dikenal-append (g ∷ gs) more k = ground (arith, dikenal-append gs more k)

-- A provider is offered in some group exactly if the table has it, whatever the groups are: those that
-- no group names stand in a group of their own.
pub dikenal-grup_provider_bulk :
    (rows : List BulkProviderMeta) (group_meta : List BulkProviderGroupMeta) (provider : String)
    → dikenal provider (grup_provider_bulk rows group_meta) ≡ punya_provider provider rows
unfolding grup_provider_bulk
dikenal-grup_provider_bulk rows group_meta k =
    let groups = grup_dikenal (by_id rows []) group_meta in
    let rest = filter (λ row. not (dikenal row.provider groups)) rows in
    let keyed =
      by_id-IsKeyed (λ k. punya_provider k rows) rows [] (λ k h. h)
        (λ k r e. unfold lookup in cc e) in
    let sound = dikenal_sound (λ k. punya_provider k rows) (by_id rows []) group_meta k keyed in
    elim (Bool-cases (ltb 0 (length rest))) [
      | inl e ↦
          rw e
            (dikenal-append groups _ k ∙ ground (arith, sound, punya_provider-filter groups rows k))
      | inr e ↦ rw e (
          ground (arith, sound, punya_provider-filter groups rows k, punya_provider-empty rest k e))
    ]
