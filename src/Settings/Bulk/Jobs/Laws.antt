-- ===== src/Settings/Bulk/Jobs/Laws.antt =====
-- What the button for the daily jobs sends and reports.
use multi_job.Prelude.{
  ℕ, zero, suc, ◌+◌, ◌*◌, ◌≤◌, String, ◌⧺◌, List, [], ◌∷◌, ◌++◌, Option, some, length, take,
  count_of, get_elem?, length-append, ◌≡◌, ◌↔◌, refl, ap, ◌∙◌, arith,
}
use multi_job.Saving.Laws.{is_some, kirim, simpan_semua_lem}
use multi_job.Automation.Request.{AgentWorkflowAutomationRequest}
use multi_job.Settings.Toasts.{is_success, is_error, toasts_counts}
use multi_job.Settings.Bulk.{BulkForm}
use multi_job.Settings.Bulk.Targets.{
  JadwalPosting, jadwal_dari, cron_posting, preview_jadwal_posting, estimasi_total_job_harian,
}
use multi_job.Settings.Bulk.Jobs.{
  Kiriman, post_payload, kiriman_akun, kiriman_laporan, kiriman_harian,
  generate_job_harian_instagram,
}

length-kiriman_akun :
    (form : BulkForm) (i : ℕ) (ids : List String)
    → length (kiriman_akun form i ids) ≡ length ids * 2
unfolding kiriman_akun
length-kiriman_akun form i [] = refl
length-kiriman_akun form i (a ∷ ids) = omega (arith, length-kiriman_akun form (i + 1) ids)

-- The button sends as many requests as the page has announced.
length-kiriman_harian :
    (form : BulkForm) (target : List String)
    → length (kiriman_harian form target) ≡ estimasi_total_job_harian target
unfolding kiriman_harian estimasi_total_job_harian
length-kiriman_harian form [] = refl
length-kiriman_harian form (a ∷ ids) =
    length-append (kiriman_akun form 0 (a ∷ ids)) _
    ∙ omega (arith, length-kiriman_akun form 0 (a ∷ ids))

module _ {S Job : Type 0} (upsert : AgentWorkflowAutomationRequest → S → Option Job × S) where
  abbrev kirim_satu : Kiriman → S → Option Job × S
  kirim_satu k s = upsert k.request s

  -- Without an account an error is shown and nothing is sent. Else all requests are sent, one after the
  -- other, as many as announced, even if some fail; a success is shown exactly if one of them was
  -- saved, and an error exactly if one was not.
  pub generate_job_harian_instagram_lem :
      (form : BulkForm) (target : List String) (s : S)
      → let (toasts, s') = generate_job_harian_instagram upsert form target s in
        let (rs, sent) = kirim (λ (k : Kiriman). upsert k.request) (kiriman_harian form target) s in
        (target ≡ [] → (count_of is_error toasts ≡ 1) × (s' ≡ s))
        × (1 ≤ length target
            → (s' ≡ sent)
              × (length (kiriman_harian form target) ≡ estimasi_total_job_harian target)
              × ((count_of is_success toasts ≡ 0) ↔ (count_of is_some rs ≡ 0))
              × ((count_of is_error toasts ≡ 0)
                  ↔ (count_of is_some rs ≡ estimasi_total_job_harian target)))
  unfolding generate_job_harian_instagram
  generate_job_harian_instagram_lem form [] s = ((λ h. (refl, refl)), (λ h. absurd (omega arith)))
  generate_job_harian_instagram_lem form (a ∷ ids) s =
      let ks = kiriman_harian form (a ∷ ids) in
      let rs = (kirim (λ (k : Kiriman). upsert k.request) ks s).0 in
      let (same, all) =
        simpan_semua_lem (λ (k : Kiriman). k.nama) (λ (k : Kiriman). upsert k.request) ks s in
      let size = length-kiriman_harian form (a ∷ ids) in
      (
        (λ h. cc h),
        (λ h. rw same (
          refl,
          size,
          (toasts_counts _ _ _ _).0,
          (
            (λ z. omega (arith, (toasts_counts _ _ (count_of is_some rs) _).1.0 z, all, size)),
            (λ z. (toasts_counts _ _ (count_of is_some rs) _).1.1 (omega (arith, all, size, z))),
          ),
        )),
      )

posting_at :
    (form : BulkForm) (start i : ℕ) (ids : List String) (more : List Kiriman) (row : JadwalPosting)
    → get_elem? (jadwal_dari (cron_posting form) start ids) i ≡ some row
    → (k : Kiriman) × (get_elem? (kiriman_akun form start ids ++ more) (2 * i + 1) ≡ some k)
      × (k.request.default_account_id ≡ some row.account_id)
      × (k.request.cron ≡ some row.cron)
unfolding kiriman_akun jadwal_dari post_payload
posting_at form start i [] more row h = cc h
posting_at form start zero (a ∷ ids) more row h =
    let same : record { account_id = a; cron = cron_posting form start } ≡ row = cc h in
    (
      record { nama = a ⧺ ":post"; request = post_payload form start a },
      refl,
      ap (λ (r : JadwalPosting). some r.account_id) same,
      ap (λ (r : JadwalPosting). some r.cron) same,
    )
posting_at form start (suc i) (a ∷ ids) more row h =
    let later : 2 * suc i + 1 ≡ suc (suc (2 * i + 1)) = omega arith in
    rw later (posting_at form (start + 1) i ids more row h)

jadwal_dari-take :
    (cron : ℕ → String) (start n i : ℕ) (ids : List String) (row : JadwalPosting)
    → get_elem? (jadwal_dari cron start (take n ids)) i ≡ some row
    → get_elem? (jadwal_dari cron start ids) i ≡ some row
unfolding jadwal_dari
jadwal_dari-take cron start zero i ids row h = cc h
jadwal_dari-take cron start (suc n) i [] row h = h
jadwal_dari-take cron start (suc n) zero (a ∷ ids) row h = h
jadwal_dari-take cron start (suc n) (suc i) (a ∷ ids) row h =
    jadwal_dari-take cron (start + 1) n i ids row h

-- The preview tells the truth: the account and the schedule of its row at an index are those of the
-- posting that the button sends for the index.
pub preview_jadwal_posting-sent :
    (form : BulkForm) (target : List String) (i : ℕ) (row : JadwalPosting)
    → get_elem? (preview_jadwal_posting form target) i ≡ some row
    → (k : Kiriman) × (get_elem? (kiriman_harian form target) (2 * i + 1) ≡ some k)
      × (k.request.default_account_id ≡ some row.account_id)
      × (k.request.cron ≡ some row.cron)
unfolding preview_jadwal_posting kiriman_harian jadwal_dari
preview_jadwal_posting-sent form [] i row h = cc h
preview_jadwal_posting-sent form (a ∷ ids) i row h =
    posting_at form 0 i (a ∷ ids) (kiriman_laporan form a (a ∷ ids) ∷ []) row
      (jadwal_dari-take (cron_posting form) 0 6 i (a ∷ ids) row h)
