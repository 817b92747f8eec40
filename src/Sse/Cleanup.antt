-- ===== src/Sse/Cleanup.antt =====
-- What stays open: without an error there is one source at most, and none when the component is gone.
use multi_job.Prelude.{
  ℕ, zero, suc, ◌<◌, Bool, true, false, ◌&&◌, List, [], ◌∷◌, ◌++◌, Option, none, some,
  if◌then◌else◌, length, length-append, get_elem?, set, nat_eq, ◌≡◌, ◌⊎◌, inl, inr, refl, ◌∙◌,
  subst, arith, Bool-cases,
}
use multi_job.Sse.{
  Hook, Action, loaded, load_failed, opened, message, failed, timer, enabled_changed, unmounted,
  step, run, mount, start, cleanup, connect_sse, close_current, ReadyState, connecting, open_state,
  closed, initial_hook,
}
use multi_job.Sse.Timers.{get_elem?-set_self, length-set}

get_elem?-set_other {ℓ} :
    {A : Type ℓ} (xs : List A) (i k : ℕ) (v : A)
    → nat_eq i k ≡ false
    → get_elem? (set xs i v) k ≡ get_elem? xs k
get_elem?-set_other [] i k v h = refl
get_elem?-set_other (x ∷ xs) zero zero v h = ground arith
get_elem?-set_other (x ∷ xs) zero (suc k) v h = refl
get_elem?-set_other (x ∷ xs) (suc i) zero v h = refl
get_elem?-set_other (x ∷ xs) (suc i) (suc k) v h = get_elem?-set_other xs i k v (ground (arith, h))

get_elem?-append_left {ℓ} :
    {A : Type ℓ} (xs ys : List A) (k : ℕ) → k < length xs → get_elem? (xs ++ ys) k ≡ get_elem? xs k
get_elem?-append_left [] ys k h = elim h [ ]
get_elem?-append_left (x ∷ xs) ys zero h = refl
get_elem?-append_left (x ∷ xs) ys (suc k) h = get_elem?-append_left xs ys k (omega arith)

-- An assignment to one source, read at another or at itself.
set_at :
    (zs : List ReadyState) (j k : ℕ) (v : ReadyState)
    → k < length zs
    → get_elem? (set zs j v) k ≡ (if nat_eq j k then some v else get_elem? zs k)
set_at zs j k v b = elim (Bool-cases (nat_eq j k)) [
  | inl e ↦ let same : j ≡ k = ground (arith, e) in rw (e, same) (get_elem?-set_self zs k v b)
  | inr e ↦ rw e (get_elem?-set_other zs j k v e)
]

close_current-closes :
    (active : Bool) (current : Option ℕ) (zs : List ReadyState) (k : ℕ)
    → k < length (if active then close_current current zs else zs)
    → (k < length zs
        → (get_elem? zs k ≡ some closed)
          ⊎ ((active && (elim current [ none ↦ false | some j ↦ nat_eq j k ])) ≡ true))
    → get_elem? (if active then close_current current zs else zs) k ≡ some closed
close_current-closes false current zs k b one = elim (one b) [ inl e ↦ e | inr e ↦ cc ]
close_current-closes true none zs k b one = elim (one b) [ inl e ↦ e | inr e ↦ cc ]
close_current-closes true (some j) zs k b one =
    let b' : k < length zs = omega (arith, length-set zs j closed) in
    elim (one b') [
      | inl e ↦ ground (arith, set_at zs j k closed b', e)
      | inr e ↦ ground (arith, set_at zs j k closed b', e)
    ]

module _ {D : Type 0} where
  abbrev pub is_current : Hook D → ℕ → Bool
  is_current h k = h.active && (elim h.current [ none ↦ false | some j ↦ nat_eq j k ])

  -- An action without errors: no source fails, no timer runs, and only the current source opens.
  abbrev pub is_quiet : Hook D → Action D → Bool
  is_quiet h (opened k) = is_current h k
  is_quiet h (failed k state) = false
  is_quiet h (timer k succeeds) = false
  is_quiet h _ = true

  abbrev pub all_quiet : Hook D → List (Action D) → Bool
  all_quiet h [] = true
  all_quiet h (a ∷ as') = is_quiet h a && all_quiet (step h a) as'

  -- The source is closed.
  abbrev pub IsClosed : Hook D → ℕ → Type 0
  IsClosed h k = get_elem? h.sources k ≡ some closed

  abbrev pub AllClosed : Hook D → Type 0
  AllClosed h = (k : ℕ) → k < length h.sources → IsClosed h k

  -- Every source but the current one is closed.
  abbrev pub OneOpen : Hook D → Type 0
  OneOpen h = (k : ℕ) → k < length h.sources → IsClosed h k ⊎ (is_current h k ≡ true)

  cleanup-AllClosed : (h : Hook D) → OneOpen h → AllClosed (cleanup h)
  unfolding cleanup
  cleanup-AllClosed h one k b = close_current-closes h.active h.current h.sources k b (one k)

  start-OneOpen :
      (enabled succeeds : Bool) (h : Hook D) → AllClosed h → OneOpen (start enabled succeeds h)
  unfolding start connect_sse
  start-OneOpen false succeeds h all k b = inl (all k b)
  start-OneOpen true false h all k b = inl (all k b)
  start-OneOpen true true h all k b = elim (Bool-cases (nat_eq (length h.sources) k)) [
    | inl e ↦ inr e
    | inr e ↦
        let b' : k < length h.sources =
          ground (arith, length-append h.sources (connecting ∷ []), e) in
        inl (get_elem?-append_left h.sources (connecting ∷ []) k b' ∙ all k b')
  ]

  step-OneOpen : (h : Hook D) (a : Action D) → is_quiet h a ≡ true → OneOpen h → OneOpen (step h a)
  unfolding step
  step-OneOpen h (loaded events) q one = one
  step-OneOpen h load_failed q one = one
  step-OneOpen h (opened j) q one = λ k b.
      let b' : k < length h.sources = omega (arith, length-set h.sources j open_state) in
      elim (Bool-cases (nat_eq j k)) [
        | inl e ↦
            let same : j ≡ k = ground (arith, e) in inr (subst (λ i. is_current h i ≡ true) same q)
        | inr e ↦ elim (one k b') [
          | inl c ↦ inl (ground (arith, set_at h.sources j k open_state b', c, e))
          | inr c ↦ inr c
        ]
      ]
  step-OneOpen h (message d none) q one = one
  step-OneOpen h (message d (some raw)) q one = one
  step-OneOpen h (failed j state) q one = cc
  step-OneOpen h (timer j b) q one = cc
  step-OneOpen h (enabled_changed b c) q one =
      start-OneOpen b c (cleanup h) (cleanup-AllClosed h one)
  step-OneOpen h unmounted q one = λ k b. inl (cleanup-AllClosed h one k b)

  run-OneOpen :
      (h : Hook D) (as' : List (Action D))
      → all_quiet h as' ≡ true
      → OneOpen h
      → OneOpen (run h as')
  unfolding run
  run-OneOpen h [] q one = one
  run-OneOpen h (a ∷ as') q one =
      run-OneOpen (step h a) as' (ground (arith, q)) (step-OneOpen h a (ground (arith, q)) one)

  -- After actions without errors, every source but the current one is closed; and when the component
  -- then goes, every source is closed.
  pub run-unmounted_closed :
      (enabled succeeds : Bool) (as' : List (Action D))
      → all_quiet (mount enabled succeeds) as' ≡ true
      → OneOpen (run (mount enabled succeeds) as')
        × AllClosed (step (run (mount enabled succeeds) as') unmounted)
  unfolding step mount initial_hook
  run-unmounted_closed enabled succeeds as' q =
      let one =
        run-OneOpen (mount enabled succeeds) as' q
          (start-OneOpen enabled succeeds initial_hook (λ k b. elim b [ ])) in
      (one, cleanup-AllClosed (run (mount enabled succeeds) as') one)
