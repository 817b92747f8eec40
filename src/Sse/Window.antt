-- ===== src/Sse/Window.antt =====
-- The buffer is a window on the end of the events.
use multi_job.Prelude.{
  ℕ, ◌+◌, ◌-◌, ◌≤◌, Bool, true, false, List, [], ◌∷◌, ◌++◌, none, some, length, drop, length-append,
  length-drop, drop-append, drop-drop, ◌≡◌, refl, sym, ap, ◌∙◌, arith, get_elem?, Bool-cases, inl,
  inr,
}
use multi_job.Sse.{
  cleanup, start, enabled_changed, unmounted, Event, Hook, Action, loaded, load_failed, opened,
  message, failed, timer, slice_last, new_event, step, run, mount, displayed, connect_sse,
  is_closed, initial_hook,
}

module _ {ℓ} {A : Type ℓ} where
  pub length-slice_last : (n : ℕ) (xs : List A) → length (slice_last n xs) ≤ n
  unfolding slice_last
  length-slice_last n xs = omega (arith, length-drop (length xs - n) xs)

  -- Taking the last elements again after one more has come gives the last elements of all.
  pub slice_last-append :
      (n : ℕ) (xs : List A) (y : A)
      → slice_last n (slice_last n xs ++ y ∷ []) ≡ slice_last n (xs ++ y ∷ [])
  unfolding slice_last
  slice_last-append n xs y =
      let k = length xs - n in
      let zs = xs ++ y ∷ [] in
      let front : drop k xs ++ y ∷ [] ≡ drop k zs = sym (drop-append k xs (y ∷ []) (omega arith)) in
      let count : k + (length (drop k zs) - n) ≡ length zs - n =
        omega (arith, length-drop k zs, length-append xs (y ∷ [])) in
      rw front (drop-drop (length (drop k zs) - n) k zs ∙ ap (λ j. drop j zs) count)

module _ {D : Type 0} where
  -- All events since the last load, the loaded ones first: the list without a bound.
  abbrev pub log_step : List (Event D) → Action D → List (Event D)
  log_step log (loaded events) = events
  log_step log (message d (some raw)) = log ++ new_event d raw ∷ []
  log_step log _ = log

  abbrev pub log_of : List (Event D) → List (Action D) → List (Event D)
  log_of log [] = log
  log_of log (a ∷ as') = log_of (log_step log a) as'

  pub record IsWindow (log : List (Event D)) (h : Hook D) : Type 0 where
    pub buffered : h.buffer ≡ slice_last 200 log
    pub shown : h.events ≡ h.buffer

  connect_sse-IsWindow :
      (log : List (Event D)) (h : Hook D) (b : Bool)
      → IsWindow log h
      → IsWindow log (connect_sse b h)
  unfolding connect_sse
  connect_sse-IsWindow log h true w = record { buffered = w.buffered; shown = w.shown }
  connect_sse-IsWindow log h false w = record { buffered = w.buffered; shown = w.shown }

  cleanup-IsWindow : (log : List (Event D)) (h : Hook D) → IsWindow log h → IsWindow log (cleanup h)
  unfolding cleanup
  cleanup-IsWindow log h w = record { buffered = w.buffered; shown = w.shown }

  start-IsWindow :
      (log : List (Event D)) (enabled succeeds : Bool) (h : Hook D)
      → IsWindow log h
      → IsWindow log (start enabled succeeds h)
  unfolding start
  start-IsWindow log true succeeds h w =
      connect_sse-IsWindow log _ succeeds (record { buffered = w.buffered; shown = w.shown })
  start-IsWindow log false succeeds h w = w

  step-IsWindow :
      (log : List (Event D)) (h : Hook D) (a : Action D)
      → IsWindow log h
      → IsWindow (log_step log a) (step h a)
  unfolding step
  step-IsWindow log h (loaded events) w = record { buffered = refl; shown = refl }
  step-IsWindow log h load_failed w = w
  step-IsWindow log h (opened k) w = record { buffered = w.buffered; shown = w.shown }
  step-IsWindow log h (message d none) w = w
  step-IsWindow log h (message d (some raw)) w = record {
    buffered =
        ap (λ (b : List (Event D)). slice_last 200 (b ++ new_event d raw ∷ [])) w.buffered
        ∙ slice_last-append 200 log (new_event d raw);
    shown = refl;
  }
  step-IsWindow log h (failed k state) w = record { buffered = w.buffered; shown = w.shown }
  step-IsWindow log h (timer k b) w = elim (Bool-cases (is_closed (get_elem? h.sources k))) [
    | inl e ↦
        rw e (connect_sse-IsWindow log _ b (record { buffered = w.buffered; shown = w.shown }))
    | inr e ↦ rw e (record { buffered = w.buffered; shown = w.shown })
  ]
  step-IsWindow log h (enabled_changed b c) w =
      start-IsWindow log b c (cleanup h) (cleanup-IsWindow log h w)
  step-IsWindow log h unmounted w = cleanup-IsWindow log h w

  run-IsWindow :
      (log : List (Event D)) (h : Hook D) (as' : List (Action D))
      → IsWindow log h
      → IsWindow (log_of log as') (run h as')
  unfolding run
  run-IsWindow log h [] w = w
  run-IsWindow log h (a ∷ as') w =
      run-IsWindow (log_step log a) (step h a) as' (step-IsWindow log h a w)

  mount-IsWindow : (enabled succeeds : Bool) → IsWindow [] (mount {D = D} enabled succeeds)
  unfolding mount initial_hook slice_last
  mount-IsWindow enabled succeeds =
      start-IsWindow [] enabled succeeds initial_hook (record { buffered = refl; shown = refl })

  -- After any actions the buffer is the last 200 of all events since the last load, the loaded ones
  -- included, and the events of the hook are the buffer.
  pub run-mount-IsWindow :
      (enabled succeeds : Bool) (as' : List (Action D))
      → IsWindow (log_of [] as') (run (mount enabled succeeds) as')
  run-mount-IsWindow enabled succeeds as' =
      run-IsWindow [] (mount enabled succeeds) as' (mount-IsWindow enabled succeeds)

  slice_last-slice_last :
      (m n : ℕ) (xs : List (Event D)) → m ≤ n → slice_last m (slice_last n xs) ≡ slice_last m xs
  unfolding slice_last
  slice_last-slice_last m n xs h =
      let k = length xs - n in
      let count : k + (length (drop k xs) - m) ≡ length xs - m = omega (arith, length-drop k xs) in
      drop-drop (length (drop k xs) - m) k xs ∙ ap (λ j. drop j xs) count

  -- What is displayed is the last 20 of all events since the last load, whatever has happened.
  pub displayed-run :
      (enabled succeeds : Bool) (as' : List (Action D))
      → displayed (run (mount enabled succeeds) as') ≡ slice_last 20 (log_of [] as')
  unfolding displayed
  displayed-run enabled succeeds as' =
      let w = run-mount-IsWindow enabled succeeds as' in
      ap (slice_last 20) (w.shown ∙ w.buffered)
      ∙ slice_last-slice_last 20 200 (log_of [] as') (omega arith)
