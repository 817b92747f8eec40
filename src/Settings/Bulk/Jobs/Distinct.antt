-- ===== src/Settings/Bulk/Jobs/Distinct.antt =====
-- No two of the daily jobs have one identifier, so that none of them replaces another.
use text.Mathlib.TextLemmas.{cons-append, append_assoc}
use multi_job.Prelude.{
  ℕ, ◌+◌, Char, code, String, nat_eq, false, arith, ◌⧺◌, List, [], ◌∷◌, ◌++◌, map, All, All-append,
  ◌≡◌, ◌≢◌, refl, sym, ap, ◌∙◌, subst,
}
use multi_job.Js.Number.Decimal.{append_left_cancel}
use multi_job.Settings.Bulk.{BulkForm, provider_meta}
use multi_job.Settings.Bulk.Jobs.{
  Kiriman, reply_payload, post_payload, report_payload, kiriman_akun, kiriman_laporan,
  kiriman_harian,
}

-- No two texts of the list are equal.
abbrev pub IsDistinct : List String → Type 0
IsDistinct [] = Unit
IsDistinct (s ∷ ss) = All (λ t. s ≢ t) ss × IsDistinct ss

first_code : String → ℕ
first_code String.[] = 0
first_code (String.◌∷◌ c s) = code c

-- Two texts that go on differently behind a common front are different.
firsts_ne :
    (c d : Char) (s a t b : String)
    → nat_eq (code c) (code d) ≡ false
    → String.◌∷◌ c s ⧺ a ≢ String.◌∷◌ d t ⧺ b
unfolding first_code
firsts_ne c d s a t b h e =
    let same : code c ≡ code d =
      sym (ap first_code (cons-append c s a))
      ∙ ap first_code e
      ∙ ap first_code (cons-append d t b) in
    ground (arith, same, h)

reply_post : (a b : String) → "_reply_" ⧺ a ≢ "_post_" ⧺ b
reply_post a b e =
    let f : "reply_" ⧺ a ≡ "post_" ⧺ b =
      append_left_cancel "_" _ _
        (sym (append_assoc "_" "reply_" a) ∙ e ∙ append_assoc "_" "post_" b) in
    firsts_ne "r" "p" "eply_" a "ost_" b refl f

reply_report : (a : String) → "_reply_" ⧺ a ≢ "_report_night"
reply_report a e =
    let f : "ly_" ⧺ a ≡ "ort_night" =
      append_left_cancel "_rep" _ _ (sym (append_assoc "_rep" "ly_" a) ∙ e) in
    firsts_ne "l" "o" "y_" a "rt_" "night" refl f

post_report : (a : String) → "_post_" ⧺ a ≢ "_report_night"
post_report a e =
    let f : "post_" ⧺ a ≡ "report_night" =
      append_left_cancel "_" _ _ (sym (append_assoc "_" "post_" a) ∙ e) in
    firsts_ne "p" "r" "ost_" a "eport_" "night" refl f

abbrev ids_of : List Kiriman → List String
ids_of ks = map (λ (k : Kiriman). k.request.job_id) ks

module _ (form : BulkForm) where
  abbrev p : String
  p = (provider_meta form).job_prefix

  abbrev reply_id : String → String
  reply_id a = p ⧺ "_reply_" ⧺ a

  abbrev post_id : String → String
  post_id a = p ⧺ "_post_" ⧺ a

  abbrev report_id : String
  report_id = p ⧺ "_report_night"

  -- What holds for both jobs of each account holds for all.
  All-ids :
      (P : String → Type 0) (Q : String → Type 0)
      → ((a : String) → Q a → P (reply_id a) × P (post_id a))
      → (i : ℕ) (ids : List String) → All Q ids
      → All P (ids_of (kiriman_akun form i ids))
  unfolding kiriman_akun reply_payload post_payload
  All-ids P Q f i [] h = tt
  All-ids P Q f i (a ∷ ids) (h, hs) = ((f a h).0, ((f a h).1, All-ids P Q f (i + 1) ids hs))

  suffix_ne : (s t : String) → s ≢ t → p ⧺ s ≢ p ⧺ t
  suffix_ne s t h e = h (append_left_cancel p s t e)

  kiriman_akun-IsDistinct :
      (i : ℕ) (ids : List String) → IsDistinct ids → IsDistinct (ids_of (kiriman_akun form i ids))
  unfolding kiriman_akun reply_payload post_payload
  kiriman_akun-IsDistinct i [] h = tt
  kiriman_akun-IsDistinct i (a ∷ ids) (h, hs) = (
    (
      suffix_ne _ _ (reply_post a a),
      All-ids (λ t. reply_id a ≢ t) (λ b. a ≢ b)
          (λ b ne. (
            suffix_ne _ _ (λ e. ne (append_left_cancel "_reply_" a b e)),
            suffix_ne _ _ (reply_post a b),
          ))
          (i + 1) ids h,
    ),
    (
      All-ids (λ t. post_id a ≢ t) (λ b. a ≢ b)
          (λ b ne. (
            suffix_ne _ _ (λ e. reply_post b a (sym e)),
            suffix_ne _ _ (λ e. ne (append_left_cancel "_post_" a b e)),
          ))
          (i + 1) ids h,
      kiriman_akun-IsDistinct (i + 1) ids hs,
    ),
  )

All-any : (xs : List String) → All (λ x. Unit {0}) xs
All-any [] = tt
All-any (x ∷ xs) = (tt, All-any xs)

IsDistinct-snoc :
    (xs : List String) (y : String)
    → IsDistinct xs
    → All (λ x. x ≢ y) xs
    → IsDistinct (xs ++ y ∷ [])
IsDistinct-snoc [] y h k = (tt, tt)
IsDistinct-snoc (x ∷ xs) y (h, hs) (k, ks) =
    (All-append (λ t. x ≢ t) xs (y ∷ []) h (k, tt), IsDistinct-snoc xs y hs ks)

ids_of-append : (ks js : List Kiriman) → ids_of (ks ++ js) ≡ ids_of ks ++ ids_of js
ids_of-append [] js = refl
ids_of-append (k ∷ ks) js = ap (λ ids. k.request.job_id ∷ ids) (ids_of-append ks js)

-- If no two accounts have one name, then no two of the requests are for one job.
pub kiriman_harian-IsDistinct :
    (form : BulkForm) (target : List String)
    → IsDistinct target
    → IsDistinct (map (λ (k : Kiriman). k.request.job_id) (kiriman_harian form target))
unfolding kiriman_harian kiriman_laporan report_payload
kiriman_harian-IsDistinct form [] h = tt
kiriman_harian-IsDistinct form (a ∷ ids) h =
    subst IsDistinct
      (sym (ids_of-append (kiriman_akun form 0 (a ∷ ids)) (kiriman_laporan form a (a ∷ ids) ∷ [])))
      (IsDistinct-snoc (ids_of (kiriman_akun form 0 (a ∷ ids))) (report_id form)
        (kiriman_akun-IsDistinct form 0 (a ∷ ids) h)
        (All-ids form (λ t. t ≢ report_id form) (λ b. Unit {0})
          (λ b u. (suffix_ne form _ _ (reply_report b), suffix_ne form _ _ (post_report b))) 0
          (a ∷ ids) (All-any (a ∷ ids))))
