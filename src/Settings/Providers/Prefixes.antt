-- ===== src/Settings/Providers/Prefixes.antt =====
-- The prefix that a provider has for the names of its accounts.
use multi_job.Prelude.{
  Bool, true, ◌&&◌, String, ◌==◌, eq_iff, List, [], ◌∷◌, some, All, ◌≡◌, ◌≢◌, refl, subst, arith,
  Bool-cases, Option-cases, inl, inr,
}
use multi_job.Js.Text.{trim, truthy, or_text}
use multi_job.Js.Dict.{Dict, lookup, put, lookup-put}
use multi_job.Settings.Providers.{
  BulkProviderMeta, bulk_provider_meta, by_id, ambil_meta_provider_bulk,
}

-- A text that is there and is left alone by `trim`.
abbrev pub IsName : String → Type 0
IsName s = (trim s ≡ s) × (s ≢ "")

pub or_text-IsName : (s t : String) → trim s ≡ s → IsName t → IsName (or_text s t)
or_text-IsName s t h k = elim (Bool-cases (s == "")) [
  | inl e ↦ rw e k
  | inr e ↦ rw e (h, ground (arith, e, eq_iff s ""))
]

module _ (P : BulkProviderMeta → Type 0) where
  subst_some : (r q : BulkProviderMeta) → P r → some r ≡ some q → P q
  subst_some r q h e = subst P (cc e) h

  by_id-All :
      (rows : List BulkProviderMeta) (peta : Dict BulkProviderMeta)
      → All P rows
      → ((k : String) (row : BulkProviderMeta) → lookup k peta ≡ some row → P row)
      → (k : String) (row : BulkProviderMeta) → lookup k (by_id rows peta) ≡ some row
      → P row
  unfolding by_id
  by_id-All [] peta h all k row e = all k row e
  by_id-All (r ∷ rows) peta (h, hs) all k row e =
      by_id-All rows (put r.provider r peta) hs
        (λ j q d. elim (Bool-cases (r.provider == j)) [
          | inl s ↦ subst_some r q h (ground (arith, lookup-put j r.provider r peta, s, d))
          | inr s ↦ all j q (ground (arith, lookup-put j r.provider r peta, s, d))
        ])
        k row e

abbrev P : BulkProviderMeta → Type 0
P row = IsName row.default_prefix

all_names : List BulkProviderMeta → Bool
all_names [] = true
all_names (row ∷ rows) =
    (trim row.default_prefix == row.default_prefix) && truthy row.default_prefix && all_names rows

all_names_sound : (rows : List BulkProviderMeta) → all_names rows ≡ true → All P rows
unfolding all_names
all_names_sound [] h = tt
all_names_sound (row ∷ rows) h = (
  (
    ground (arith, h, eq_iff (trim row.default_prefix) row.default_prefix),
    ground (arith, h, eq_iff row.default_prefix ""),
  ),
  all_names_sound rows (ground (arith, h)),
)

table : All P bulk_provider_meta
table = all_names_sound bulk_provider_meta (unfold all_names bulk_provider_meta trim in refl)

pub default_prefix-IsName :
    (provider : String) → IsName (ambil_meta_provider_bulk provider).default_prefix
unfolding ambil_meta_provider_bulk
default_prefix-IsName provider =
    elim (Option-cases (lookup provider (by_id bulk_provider_meta []))) [
      | inl e ↦ rw (e, ambil_meta_provider_bulk) (unfold trim in refl, (λ z. cc z))
      | inr (row, e) ↦
          rw (e, ambil_meta_provider_bulk)
            (by_id-All P bulk_provider_meta [] table (λ k r d. unfold lookup in cc d) provider row
              e)
    ]
