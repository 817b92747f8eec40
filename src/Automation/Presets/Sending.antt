-- ===== src/Automation/Presets/Sending.antt =====
-- What a submit sends right after a button has filled the form.
use multi_job.Prelude.{
  Bool, true, false, not, ◌&&◌, String, ◌==◌, List, [], ◌∷◌, some, ◌≡◌, ◌≢◌, refl, ap, arith,
  eq_iff, All,
}
use multi_job.Js.Text.{trim, join, truthy}
use multi_job.Js.Text.Trimming.{none_of, none_of_sound}
use multi_job.Js.LowerCase.{KeepsLowerCase, may_change}
use multi_job.Js.Number.{clamped}
use multi_job.Automation.Prefix.{normalisasi_prefix_perintah, is_break, has}
use multi_job.Automation.Prefix.RoundTrip.{IsLine, IsNormal, normalisasi_prefix_perintah-join}
use multi_job.Automation.Templates.{
  KunciTemplateJalur, ops_realtime, scrap_pipeline, media_generate, template_jalur_inti,
  template_payload,
}
use multi_job.Automation.Form.{FormState, sent, form_payload, simpan_job_otomatis, unless_empty}
use multi_job.Automation.Presets.{
  terapkan_template_jalur, terapkan_preset_developer, terapkan_preset_content, terapkan_preset_ops,
  preset_developer_prefix, preset_content_prefix, preset_ops_prefix,
}

-- A trimmed line in lower case, as a test that can be evaluated.
unfoldable pub plain_line : String → Bool
plain_line x = (trim x == x) && none_of is_break x && none_of may_change x && truthy x

unfoldable pub plain_lines : List String → Bool
unfolding plain_line has
plain_lines [] = true
plain_lines (x ∷ xs) = plain_line x && not (has xs x) && plain_lines xs

module _ (to_lower_case : String → String) (keeps : KeepsLowerCase to_lower_case) where
  lower_eq : (x : String) → plain_line x ≡ true → to_lower_case x ≡ x
  unfolding plain_line
  lower_eq x h = keeps x (none_of_sound may_change x (ground arith))

  plain_line-IsLine : (x : String) → plain_line x ≡ true → IsLine x
  unfolding plain_line
  plain_line-IsLine x h = record {
    trimmed = ground (arith, eq_iff (trim x) x);
    unbroken = none_of_sound is_break x (ground arith);
  }

  plain_line-ne-nil : (x : String) → plain_line x ≡ true → x ≢ ""
  unfolding plain_line
  plain_line-ne-nil x h = ground (arith, eq_iff x "")

  plain_lines-head :
      (x : String) (xs : List String)
      → plain_lines (x ∷ xs) ≡ true
      → (plain_line x ≡ true) × (has xs x ≡ false) × (plain_lines xs ≡ true)
  unfolding plain_lines
  plain_lines-head x xs h = ground arith

  fresh_keys :
      (x : String) (xs : List String)
      → plain_line x ≡ true
      → plain_lines xs ≡ true
      → has xs x ≡ false
      → All (λ y. to_lower_case x ≢ to_lower_case y) xs
  unfolding has
  fresh_keys x [] h k f = tt
  fresh_keys x (y ∷ ys) h k f =
      let (hy, _, ks) = plain_lines-head y ys k in
      (ground (arith, eq_iff y x, lower_eq x h, lower_eq y hy), fresh_keys x ys h ks (ground arith))

  pub plain_lines-IsNormal : (xs : List String) → plain_lines xs ≡ true → IsNormal to_lower_case xs
  plain_lines-IsNormal [] h = record { lines = tt; not_blank = tt; distinct = tt }
  plain_lines-IsNormal (x ∷ xs) h =
      let (hx, fresh, hs) = plain_lines-head x xs h in
      let ih = plain_lines-IsNormal xs hs in
      record {
        lines = (plain_line-IsLine x hx, ih.lines);
        not_blank = (plain_line-ne-nil x hx, ih.not_blank);
        distinct = (fresh_keys x xs hx hs fresh, ih.distinct);
      }

  joined-eq :
      (x : String) (xs : List String)
      → plain_lines (x ∷ xs) ≡ true
      → unless_empty (normalisasi_prefix_perintah to_lower_case (join "\n" (x ∷ xs)))
        ≡ some (x ∷ xs)
  joined-eq x xs h =
      ap unless_empty
        (normalisasi_prefix_perintah-join to_lower_case (x ∷ xs) (plain_lines-IsNormal (x ∷ xs) h))

  -- The form that a template button has filled sends, if submitted at once, the payload that the
  -- button for all core lanes sends for that template.
  pub simpan-terapkan_template_jalur :
      (kunci : KunciTemplateJalur) (form : FormState)
      → simpan_job_otomatis to_lower_case (terapkan_template_jalur kunci form)
        ≡ sent (
            template_payload form.zona_waktu form.default_channel form.default_account_id
              (template_jalur_inti kunci))
  unfolding simpan_job_otomatis terapkan_template_jalur template_payload template_jalur_inti trim
      clamped plain_lines is_break may_change
  simpan-terapkan_template_jalur ops_realtime form =
      rw (joined-eq "python scripts/" ("npm run test" ∷ "npm run build" ∷ []) refl)
  simpan-terapkan_template_jalur scrap_pipeline form =
      rw (joined-eq "python scripts/" ("node scripts/" ∷ "npm run test" ∷ []) refl)
  simpan-terapkan_template_jalur media_generate form =
      rw (joined-eq "python scripts/" ("ffmpeg" ∷ "node scripts/" ∷ []) refl)

  -- Each preset's list of prefixes passes through the text area unchanged.
  pub form_payload-presets :
      (form : FormState)
      → ((form_payload to_lower_case (terapkan_preset_developer form)).command_allow_prefixes
          ≡ some preset_developer_prefix)
        × ((form_payload to_lower_case (terapkan_preset_content form)).command_allow_prefixes
            ≡ some preset_content_prefix)
        × ((form_payload to_lower_case (terapkan_preset_ops form)).command_allow_prefixes
            ≡ some preset_ops_prefix)
  unfolding form_payload terapkan_preset_developer terapkan_preset_content terapkan_preset_ops trim
      plain_lines is_break may_change
  form_payload-presets form = (joined-eq _ _ refl, joined-eq _ _ refl, joined-eq _ _ refl)
