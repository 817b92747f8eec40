-- ===== src/Settings/Bulk/Range/Names.antt =====
-- The names of a range are trimmed texts, and each finds its row.
use multi_job.Prelude.{
  ℕ, zero, suc, ◌+◌, ◌≤◌, ◌<◌, true, false, ◌&&◌, String, ◌==◌, eq_iff, eq_refl, some, length, ltb,
  leb, get_elem?, if◌then◌else◌, ◌≡◌, ◌≢◌, refl, ap, ◌∙◌, arith, Bool-cases, inl, inr,
}
use multi_job.Js.Text.{trim}
use multi_job.Js.Text.Trimming.{trim_idem, trim-append}
use multi_job.Js.Number.{show}
use multi_job.Js.Number.Decimal.{pad_start}
use multi_job.Js.Number.Decimal.Ends.{Ends-pad_start}
use multi_job.Js.Dict.{Dict, lookup, put, lookup-put, index_by}
use multi_job.Settings.Providers.Prefixes.{IsName, or_text-IsName, default_prefix-IsName}
use multi_job.Settings.Bulk.{
  InstagramBulkAccountRow, BulkForm, provider_meta, nama_akun, prefix_akun,
}
use multi_job.Settings.Bulk.Numbering.{nama_akun_inj}
use multi_job.Settings.Bulk.Range.{baris_dari}

pub prefix_akun-IsName : (form : BulkForm) → IsName (prefix_akun form)
unfolding provider_meta
prefix_akun-IsName form =
    let (h, ne) =
      or_text-IsName (trim form.prefix_id) (provider_meta form).default_prefix
        (trim_idem form.prefix_id) (default_prefix-IsName form.provider) in
    or_text-IsName _ "acc_" h (unfold trim in refl, (λ z. cc z))

trim-nama_akun :
    (prefix : String) (pad n : ℕ)
    → IsName prefix
    → trim (nama_akun prefix pad n) ≡ nama_akun prefix pad n
unfolding nama_akun
trim-nama_akun prefix pad n (h, ne) =
    let (some_digit, ends) = Ends-pad_start pad n in
    trim-append prefix (pad_start pad (show n)) h ne some_digit ends

pub length-baris_dari :
    (baris : ℕ → InstagramBulkAccountRow) (n a : ℕ) → length (baris_dari baris n a) ≡ n
unfolding baris_dari
length-baris_dari baris zero a = refl
length-baris_dari baris (suc n) a = ap suc (length-baris_dari baris n (a + 1))

pub get_elem?-baris_dari :
    (baris : ℕ → InstagramBulkAccountRow) (n a i : ℕ)
    → i < n
    → get_elem? (baris_dari baris n a) i ≡ some (baris (a + i))
unfolding baris_dari
get_elem?-baris_dari baris zero a i h = absurd (omega arith)
get_elem?-baris_dari baris (suc n) a zero h = ap (λ j. some (baris j)) (omega arith)
get_elem?-baris_dari baris (suc n) a (suc i) h =
    get_elem?-baris_dari baris n (a + 1) i (omega arith) ∙ ap (λ j. some (baris j)) (omega arith)

pub baris_dari-eq :
    (baris baris' : ℕ → InstagramBulkAccountRow) (n a : ℕ)
    → ((j : ℕ) → a ≤ j → j < a + n → baris j ≡ baris' j)
    → baris_dari baris n a ≡ baris_dari baris' n a
unfolding baris_dari
baris_dari-eq baris baris' zero a same = refl
baris_dari-eq baris baris' (suc n) a same = cc (
  same a (omega arith) (omega arith),
  baris_dari-eq baris baris' n (a + 1) (λ j h k. same j (omega arith) (omega arith)),
)

module _ (prefix : String) (pad : ℕ) (prefix_ok : IsName prefix) where
  -- Of rows that carry the names of successive numbers, a name finds the row of its number.
  pub lookup-index_by :
      (baris : ℕ → InstagramBulkAccountRow) (n a j : ℕ) (m : Dict InstagramBulkAccountRow)
      → ((i : ℕ) → (baris i).account_id ≡ nama_akun prefix pad i)
      → lookup
          (nama_akun prefix pad j)
          (index_by (λ row. trim row.account_id) (baris_dari baris n a) m)
        ≡ (if leb a j && ltb j (a + n) then some (baris j) else lookup (nama_akun prefix pad j) m)
  unfolding baris_dari index_by
  lookup-index_by baris zero a j m names = ground arith
  lookup-index_by baris (suc n) a j m names =
      let key : trim (baris a).account_id ≡ nama_akun prefix pad a =
        ap trim (names a) ∙ trim-nama_akun prefix pad a prefix_ok in
      let rest =
        lookup-index_by baris n (a + 1) j (put (trim (baris a).account_id) (baris a) m) names in
      let found = lookup-put (nama_akun prefix pad j) (trim (baris a).account_id) (baris a) m in
      elim (Bool-cases (nama_akun prefix pad a == nama_akun prefix pad j)) [
        | inl t ↦
            let same = nama_akun_inj prefix pad a j ((eq_iff _ _).0 t) in
            let hit : (trim (baris a).account_id == nama_akun prefix pad j) ≡ true =
              ap (λ k. k == nama_akun prefix pad j) key ∙ t in
            ground (arith, rest, found, hit, same, ap (λ i. some (baris i)) same)
        | inr f ↦
            let other : a ≢ j = (λ e. cc (
              f,
              ap (λ i. nama_akun prefix pad a == nama_akun prefix pad i) e,
              eq_refl (nama_akun prefix pad a),
            )) in
            let miss : (trim (baris a).account_id == nama_akun prefix pad j) ≡ false =
              ap (λ k. k == nama_akun prefix pad j) key ∙ f in
            ground (arith, rest, found, miss, other)
      ]
