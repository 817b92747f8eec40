-- ===== src/Api/Http/Laws.antt =====
-- How a call ends, for every answer.
use multi_job.Prelude.{◌≤◌, String, [], ◌∷◌, ◌≡◌, ◌⊎◌, inl, inr, refl, arith}
use multi_job.Api.Http.{
  Fetched, failed, answered, Outcome, returned, thrown, Settled, read_json, guarded, Response,
}

-- The answer is a success that carries the value.
pub record Delivers {T : Type 0} (answer : Fetched T) (t : T) : Type 0 where
  pub response : Response T
  pub is_answer : answer ≡ answered response
  pub from : 200 ≤ response.status
  pub to : response.status ≤ 299
  pub value : response.json ≡ returned t

read_json-Delivers :
    {T : Type 0} (answer : Fetched T) (t : T) → read_json answer ≡ returned t → Delivers answer t
unfolding read_json
read_json-Delivers (failed m) t h = cc
read_json-Delivers (answered r) t h = record {
  response = r;
  is_answer = refl;
  from = ground arith;
  to = ground arith;
  value = ground arith;
}

Delivers-read_json :
    {T : Type 0} (answer : Fetched T) (t : T) → Delivers answer t → read_json answer ≡ returned t
unfolding read_json
Delivers-read_json answer t d = rw d.is_answer (ground (arith, d.from, d.to, d.value))

-- How a guarded call ends: it never rejects. If the answer is a success with a value, the call has it
-- and shows no toast; else it has the fallback and shows its one message.
abbrev pub EndsWell : {T A : Type 0} → (T → A) → String → A → (Fetched T → Settled A) → Type 0
EndsWell {T} value message fallback finish =
    (answer : Fetched T)
    → ((t : T) × Delivers answer t
        × (finish answer ≡ record { outcome = returned (value t); toasts = [] }))
      ⊎ (((t : T) → ¬ Delivers answer t)
          × (finish answer ≡ record { outcome = returned fallback; toasts = message ∷ [] }))

Outcome-cases :
    {T : Type 0} (o : Outcome T) → ((t : T) × (o ≡ returned t)) ⊎ ((e : String) × (o ≡ thrown e))
Outcome-cases (returned t) = inl (t, refl)
Outcome-cases (thrown e) = inr (e, refl)

pub guarded-EndsWell :
    {T A : Type 0} (value : T → A) (message : String) (fallback : A)
    → EndsWell value message fallback (guarded value message fallback)
unfolding guarded
guarded-EndsWell value message fallback answer = elim (Outcome-cases (read_json answer)) [
  | inl (t, e) ↦ inl (t, read_json-Delivers answer t e, rw e)
  | inr (m, e) ↦ inr ((λ t d. cc (e, Delivers-read_json answer t d)), rw e)
]
