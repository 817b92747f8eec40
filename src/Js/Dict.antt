-- ===== src/Js/Dict.antt =====
-- Objects that are used as dictionaries: `{ ...m, [key]: value }`, `delete` and `m[key]`.
pub mod Keys
use multi_job.Prelude.{
  String, ◌==◌, eq_iff, List, [], ◌∷◌, Option, none, some, if◌then◌else◌, ◌≡◌, refl, arith,
}

abbrev pub Dict {ℓ} : Type ℓ → Type ℓ
Dict V = List (String × V)

module _ {ℓ} {V : Type ℓ} where
  unfoldable pub lookup : String → Dict V → Option V
  lookup key [] = none
  lookup key ((k, v) ∷ m) = if k == key then some v else lookup key m

  unfoldable pub put : String → V → Dict V → Dict V
  put key value [] = (key, value) ∷ []
  put key value ((k, v) ∷ m) = if k == key then (k, value) ∷ m else (k, v) ∷ put key value m

  unfoldable pub without : String → Dict V → Dict V
  without key [] = []
  without key ((k, v) ∷ m) = let rest = without key m in if k == key then rest else (k, v) ∷ rest

  pub lookup-put :
      (j k : String) (v : V) (m : Dict V)
      → lookup j (put k v m) ≡ (if k == j then some v else lookup j m)
  unfolding lookup put
  lookup-put j k v [] = refl
  lookup-put j k v ((i, w) ∷ m) =
      ground (arith, eq_iff i k, eq_iff i j, eq_iff k j, lookup-put j k v m)

  pub lookup-without :
      (j k : String) (m : Dict V) → lookup j (without k m) ≡ (if k == j then none else lookup j m)
  unfolding lookup without
  lookup-without j k [] = ground arith
  lookup-without j k ((i, w) ∷ m) =
      ground (arith, eq_iff i k, eq_iff i j, eq_iff k j, lookup-without j k m)

-- `new Map(rows.map((row) => [key(row), row]))`, in front of a map that is there: of the rows with one
-- key the last stays.
unfoldable pub index_by {ℓ} : {V : Type ℓ} → (V → String) → List V → Dict V → Dict V
unfolding put
index_by key [] m = m
index_by key (row ∷ rows) m = index_by key rows (put (key row) row m)
