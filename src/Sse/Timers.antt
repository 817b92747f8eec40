-- ===== src/Sse/Timers.antt =====
-- The timers that reconnect: every error of a source sets one, and each connects again if its source
-- is closed when it runs.
use multi_job.Prelude.{
  ℕ, zero, suc, ◌<◌, true, false, List, [], ◌∷◌, ◌++◌, some, length, get_elem?, set, ◌≡◌, refl, ◌∙◌,
  ap, arith,
}
use multi_job.Sse.{
  cleanup, unmounted, Hook, failed, timer, step, run, connect_sse, ReadyState, connecting, closed,
}

pub get_elem?-set_self {ℓ} :
    {A : Type ℓ} (xs : List A) (i : ℕ) (v : A) → i < length xs → get_elem? (set xs i v) i ≡ some v
get_elem?-set_self [] i v h = elim h [ ]
get_elem?-set_self (x ∷ xs) zero v h = refl
get_elem?-set_self (x ∷ xs) (suc i) v h = get_elem?-set_self xs i v (omega arith)

pub length-set {ℓ} : {A : Type ℓ} (xs : List A) (i : ℕ) (v : A) → length (set xs i v) ≡ length xs
length-set [] i v = refl
length-set (x ∷ xs) zero v = refl
length-set (x ∷ xs) (suc i) v = omega (arith, length-set xs i v)

get_elem?-append {ℓ} :
    {A : Type ℓ} (xs ys : List A) (i : ℕ) (v : A)
    → get_elem? xs i ≡ some v
    → get_elem? (xs ++ ys) i ≡ some v
get_elem?-append [] ys i v h = cc
get_elem?-append (x ∷ xs) ys zero v h = h
get_elem?-append (x ∷ xs) ys (suc i) v h = get_elem?-append xs ys i v h

module _ {D : Type 0} where
  -- A timer that finds its source closed makes one more source, and the closed one stays closed.
  sources-timer :
      (h : Hook D) (k : ℕ)
      → get_elem? h.sources k ≡ some closed
      → ((step h (timer k true)).sources ≡ h.sources ++ connecting ∷ [])
        × (get_elem? (step h (timer k true)).sources k ≡ some closed)
  unfolding step connect_sse
  sources-timer h k e = (rw e, rw e (get_elem?-append h.sources (connecting ∷ []) k closed e))

  -- A source that reports an error while it retries, and then one by which it is closed, is replaced
  -- by two new connections when the two timers run.
  pub run-two_errors :
      (h : Hook D) (k : ℕ)
      → k < length h.sources
      → (run h (failed k connecting ∷ failed k closed ∷ timer k true ∷ timer k true ∷ [])).sources
        ≡ (set (set h.sources k connecting) k closed ++ connecting ∷ []) ++ connecting ∷ []
  unfolding run
  run-two_errors h k h' =
      let h₁ = step h (failed k connecting) in
      let h₂ = step h₁ (failed k closed) in
      let there : get_elem? h₂.sources k ≡ some closed =
        unfold step in
        get_elem?-set_self (set h.sources k connecting) k closed
          (omega (arith, length-set h.sources k connecting)) in
      let (one, still) = sources-timer h₂ k there in
      let (two, _) = sources-timer (step h₂ (timer k true)) k still in
      two ∙ ap (λ (zs : List ReadyState). zs ++ connecting ∷ []) (one ∙ (unfold step in refl))

  -- If a source reports an error while it retries and the component then goes, the timer of the error
  -- connects again: the cleanup has closed the source that the timer looks at. The cleanup is over, so
  -- that nothing closes the new source.
  pub run-unmounted_timer :
      (h : Hook D) (k : ℕ)
      → h.active ≡ true
      → h.current ≡ some k
      → k < length h.sources
      → let h' = run h (failed k connecting ∷ unmounted ∷ timer k true ∷ []) in
        (h'.sources ≡ set (set h.sources k connecting) k closed ++ connecting ∷ [])
        × (h'.current ≡ some (length h.sources))
        × (h'.active ≡ false)
  unfolding run step cleanup connect_sse
  run-unmounted_timer h k on at h' =
      let zs = set h.sources k connecting in
      let there : get_elem? (set zs k closed) k ≡ some closed =
        get_elem?-set_self zs k closed (omega (arith, length-set h.sources k connecting)) in
      ground (arith, on, at, there, length-set zs k closed, length-set h.sources k connecting)
