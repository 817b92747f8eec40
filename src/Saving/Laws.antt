-- ===== src/Saving/Laws.antt =====
-- What the loop reports, against what the server has answered.
use multi_job.Prelude.{
  ℕ, suc, ◌+◌, String, List, [], ◌∷◌, ◌++◌, Option, none, some, Bool, true, false, length, count_of,
  ◌≡◌, refl, ◌∙◌, ap, arith, append_assoc, append-nil, Option-cases, inl, inr,
}
use multi_job.Saving.{simpan_semua}

abbrev pub is_some {ℓ} : {A : Type ℓ} → Option A → Bool
is_some none = false
is_some (some a) = true

-- The names of the payloads whose answer is missing.
pub names_failed : {P Job : Type 0} → (P → String) → List P → List (Option Job) → List String
names_failed name (p ∷ ps) (none ∷ rs) = name p ∷ names_failed name ps rs
names_failed name (p ∷ ps) (some job ∷ rs) = names_failed name ps rs
names_failed name _ _ = []

module _ {P S Job : Type 0} (upsert : P → S → Option Job × S) where
  -- The answers to all payloads, one after the other, and the server's last state.
  pub kirim : List P → S → List (Option Job) × S
  kirim [] s = ([], s)
  kirim (p ∷ ps) s =
      let (hasil, s') = upsert p s in let (rs, s'') = kirim ps s' in (hasil ∷ rs, s'')

  length-kirim : (ps : List P) (s : S) → length (kirim ps s).0 ≡ length ps
  unfolding kirim
  length-kirim [] s = refl
  length-kirim (p ∷ ps) s = ap suc (length-kirim ps (upsert p s).1)

module _ {P S Job : Type 0} (name : P → String) (upsert : P → S → Option Job × S) where
  simpan_semua-eq :
      (berhasil : ℕ) (gagal : List String) (ps : List P) (s : S)
      → let (rs, s') = kirim upsert ps s in
        simpan_semua name upsert berhasil gagal ps s
        ≡ (berhasil + count_of is_some rs, gagal ++ names_failed name ps rs, s')
  unfolding simpan_semua kirim names_failed
  simpan_semua-eq berhasil gagal [] s = ground (arith, append-nil gagal)
  simpan_semua-eq berhasil gagal (p ∷ ps) s =
      let s' = (upsert p s).1 in
      ground (
        arith,
        simpan_semua-eq berhasil (gagal ++ name p ∷ []) ps s',
        simpan_semua-eq (berhasil + 1) gagal ps s',
        append_assoc gagal (name p ∷ []) (names_failed name ps (kirim upsert ps s').0),
      )

  count_split :
      (ps : List P) (s : S)
      → let rs = (kirim upsert ps s).0 in
        count_of is_some rs + length (names_failed name ps rs) ≡ length ps
  unfolding kirim names_failed
  count_split [] s = refl
  count_split (p ∷ ps) s = elim (Option-cases (upsert p s).0) [
    | inl e ↦ rw e (omega (arith, count_split ps (upsert p s).1))
    | inr (job, e) ↦ rw e (omega (arith, count_split ps (upsert p s).1))
  ]

  -- The loop sends every payload once, in order: it counts the answers that are there, it lists the
  -- names of the payloads whose answer is missing, in order, and the two together are all payloads.
  pub simpan_semua_lem :
      (ps : List P) (s : S)
      → let (rs, s') = kirim upsert ps s in
        (simpan_semua name upsert 0 [] ps s ≡ (count_of is_some rs, names_failed name ps rs, s'))
        × (count_of is_some rs + length (names_failed name ps rs) ≡ length ps)
  simpan_semua_lem ps s = (simpan_semua-eq 0 [] ps s ∙ ground arith, count_split ps s)
