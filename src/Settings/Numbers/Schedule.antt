-- ===== src/Settings/Numbers/Schedule.antt =====
-- The daily schedule of an offset is a time of the day, and which offsets share one.
use text.Mathlib.TextLemmas.{nil-append, cons-append}
use multi_job.Prelude.{
  ℕ, ◌+◌, ◌*◌, ◌%◌, ◌<◌, String, List, ◌∷◌, ◌⧺◌, ◌≡◌, ◌↔◌, refl, sym, ap, ◌∙◌, arith,
}
use multi_job.Js.Number.{show}
use multi_job.Js.Number.Decimal.{is_blank, NoneOf-show, show_inj}
use multi_job.Js.Text.Split.{split_on}
use multi_job.Js.Text.Split.Laws.{split_on-join}
use multi_job.Settings.Numbers.{
  WaktuHarian, waktu_dengan_offset, cron_harian, bangun_cron_harian_dengan_offset,
}

-- The minute of the day.
abbrev pub menit_hari : WaktuHarian → ℕ
menit_hari w = w.jam * 60 + w.menit

-- The schedule names a minute below 60 and an hour below 24, and these are the offset's time after the
-- first one, on a clock of 24 hours.
pub waktu_dengan_offset_lem :
    (jam menit offset : ℕ)
    → let w = waktu_dengan_offset jam menit offset in
      (w.menit < 60) × (w.jam < 24) × (menit_hari w ≡ (jam * 60 + menit + offset) % 1440)
unfolding waktu_dengan_offset
waktu_dengan_offset_lem jam menit offset = (omega arith, omega arith, omega arith)

cons_inj :
    {x y : String} {xs ys : List String}
    → ◌≡◌ {A = List String} (x ∷ xs) (y ∷ ys)
    → (x ≡ y) × (xs ≡ ys)
cons_inj e = (cc e, cc e)

cron_fields :
    (w : WaktuHarian)
    → split_on is_blank (cron_harian w) ≡ show w.menit ∷ show w.jam ∷ split_on is_blank "* * *"
cron_fields w =
    ap (λ t. split_on is_blank (show w.menit ⧺ t)) (cons-append " " "" (show w.jam ⧺ " * * *"))
    ∙ split_on-join is_blank (show w.menit) ("" ⧺ show w.jam ⧺ " * * *") " " (NoneOf-show w.menit)
        refl
    ∙ ap (λ t. show w.menit ∷ split_on is_blank t) (nil-append (show w.jam ⧺ " * * *"))
    ∙ ap (λ ps. show w.menit ∷ ps)
        (split_on-join is_blank (show w.jam) "* * *" " " (NoneOf-show w.jam) refl)

cron_harian_inj :
    (w w' : WaktuHarian) → cron_harian w ≡ cron_harian w' → (w.menit ≡ w'.menit) × (w.jam ≡ w'.jam)
cron_harian_inj w w' e =
    let (m, rest) = cons_inj (sym (cron_fields w) ∙ ap (split_on is_blank) e ∙ cron_fields w') in
    (show_inj w.menit w'.menit m, show_inj w.jam w'.jam (cons_inj rest).0)

-- Two offsets give the same text exactly if they differ by whole days.
pub bangun_cron_harian_dengan_offset-eq_iff :
    (jam menit o o' : ℕ)
    → (bangun_cron_harian_dengan_offset jam menit o ≡ bangun_cron_harian_dengan_offset jam menit o')
      ↔ (o % 1440 ≡ o' % 1440)
unfolding bangun_cron_harian_dengan_offset
bangun_cron_harian_dengan_offset-eq_iff jam menit o o' =
    let w = waktu_dengan_offset jam menit o in
    let w' = waktu_dengan_offset jam menit o' in
    let (lm, lj, same) = waktu_dengan_offset_lem jam menit o in
    let (lm', lj', same') = waktu_dengan_offset_lem jam menit o' in
    (
      (λ e. let (m, j) = cron_harian_inj w w' e in omega (arith, m, j, same, same')),
      (λ e.
          let m : w.menit ≡ w'.menit = omega (arith, e, lm, lj, lm', lj', same, same') in
          let j : w.jam ≡ w'.jam = omega (arith, e, lm, lj, lm', lj', same, same') in rw (m, j)),
    )
