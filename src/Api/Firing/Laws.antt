-- ===== src/Api/Firing/Laws.antt =====
-- How the firing of a trigger ends.
use multi_job.Prelude.{false, String, [], ◌≡◌, ◌≢◌, refl, arith, eq_iff}
use multi_job.Js.Text.{or_text}
use multi_job.Api.Http.{Response, Fetched, failed, answered, returned, thrown, is_ok}
use multi_job.Api.Http.Laws.{Delivers}
use multi_job.Api.Firing.{settle}

-- Firing a trigger shows no toast. It returns the answer's value exactly if the answer is a success
-- that carries one. A refusal by status is thrown with a message that is no blank: the text of the
-- answer, or else a default.
pub settle-cases :
    {T : Type 0} (answer : Fetched T)
    → ((settle answer).toasts ≡ [])
      × ((t : T) → (settle answer).outcome ≡ returned t → Delivers answer t)
      × ((t : T) → Delivers answer t → (settle answer).outcome ≡ returned t)
      × ((r : Response T)
          → answer ≡ answered r
          → is_ok r.status ≡ false
          → (m : String) × ((settle answer).outcome ≡ thrown m)
            × (m ≢ "")
            × ((r.text ≢ "") → m ≡ r.text))
unfolding settle
settle-cases (failed m) = (refl, (λ t e. cc), (λ t d. cc d.is_answer), (λ r e h. cc))
settle-cases (answered r) = (
  refl,
  (λ t e. record {
    response = r;
    is_answer = refl;
    from = ground arith;
    to = ground arith;
    value = ground arith;
  }),
  (λ t d. ground (arith, d.is_answer, d.from, d.to, d.value)),
  (λ r' e h. (
    or_text r.text "Gagal memicu trigger",
    ground arith,
    ground (arith, eq_iff r.text "", eq_iff "Gagal memicu trigger" ""),
    ground (arith, eq_iff r.text ""),
  )),
)
