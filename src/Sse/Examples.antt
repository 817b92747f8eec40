-- ===== src/Sse/Examples.antt =====
-- Tests of the event hook, and its theorems at concrete inputs.
use multi_job.Prelude.{
  false, ℕ, true, List, [], ◌∷◌, ◌++◌, none, some, length, set, ◌≡◌, refl, arith, false,
}
use multi_job.Sse.{
  cleanup, start, connect_sse, enabled_changed, unmounted, RawEvent, Defaults, Action, loaded,
  opened, message, failed, timer, step, run, mount, displayed, slice_last, initial_hook, connecting,
  closed, new_event,
}
use multi_job.Sse.Window.{log_of, displayed-run}
use multi_job.Sse.Timers.{run-two_errors, run-unmounted_timer}
use multi_job.Sse.Cleanup.{all_quiet, OneOpen, AllClosed, run-unmounted_closed}

abbrev at_noon : Defaults ℕ
at_noon = record { now = "1700000000000"; iso_now = "2026-01-01T12:00:00.000Z"; empty = 0 }

abbrev raw : RawEvent ℕ
raw = record { id = ""; type = "job.run"; timestamp = ""; payload = some 7 }

abbrev actions : List (Action ℕ)
actions =
    opened 0
    ∷ loaded (new_event at_noon raw ∷ [])
    ∷ message at_noon (some raw)
    ∷ message at_noon none
    ∷ failed 0 closed
    ∷ timer 0 true
    ∷ []

run_test :
    let h = run (mount true true) actions in
    (length h.buffer ≡ 2) × (h.sources ≡ closed ∷ connecting ∷ []) × (h.timers ≡ [])
unfolding run mount step initial_hook
run_test = (refl, refl, refl)

displayed-run_example :
    displayed (run (mount true true) actions) ≡ slice_last 20 (log_of [] actions)
displayed-run_example = displayed-run true true actions

run-two_errors_example :
    (run
      (mount {D = ℕ} true true)
      (failed 0 connecting ∷ failed 0 closed ∷ timer 0 true ∷ timer 0 true ∷ [])).sources
    ≡ (set (set (mount {D = ℕ} true true).sources 0 connecting) 0 closed ++ connecting ∷ [])
      ++ connecting ∷ []
unfolding initial_hook
run-two_errors_example = run-two_errors (mount true true) 0 (unfold mount in omega arith)

abbrev quiet_actions : List (Action ℕ)
quiet_actions = opened 0 ∷ enabled_changed true true ∷ opened 1 ∷ message at_noon (some raw) ∷ []

quiet_test : all_quiet (mount true true) quiet_actions ≡ true
unfolding mount initial_hook step cleanup start connect_sse
quiet_test = refl

run-unmounted_closed_example :
    OneOpen (run (mount true true) quiet_actions)
    × AllClosed (step (run (mount true true) quiet_actions) unmounted)
run-unmounted_closed_example = run-unmounted_closed true true quiet_actions quiet_test

run-unmounted_timer_example :
    let h = mount {D = ℕ} true true in
    let h' = run h (failed 0 connecting ∷ unmounted ∷ timer 0 true ∷ []) in
    (h'.sources ≡ set (set h.sources 0 connecting) 0 closed ++ connecting ∷ [])
    × (h'.current ≡ some (length h.sources))
    × (h'.active ≡ false)
unfolding initial_hook
run-unmounted_timer_example =
    run-unmounted_timer (mount true true) 0 (unfold mount in refl) (unfold mount in refl)
      (unfold mount in omega arith)
