-- ===== src/Js/Text/Trimming.antt =====
-- Trimming a text: the ends of the result, and that a second trim changes nothing.
use multi_job.Prelude.{
  Bool, true, false, not, ◌&&◌, Char, String, ◌⧺◌, ◌≡◌, ◌≢◌, refl, sym, subst, arith, Bool-cases,
  inl, inr, ◌∙◌, ap,
}
use multi_job.Js.Text.{is_space, trim_start, trim_end, put_front, trim}
use Prim.Native.String.{[], ◌∷◌}
use text.Mathlib.TextLemmas.{nil-append, cons-append}

-- The text begins with white space.
leads : String → Bool
leads [] = false
leads (c ∷ s) = is_space c

leads-trim_start : (s : String) → leads (trim_start s) ≡ false
unfolding leads trim_start
leads-trim_start [] = refl
leads-trim_start (c ∷ s) = ground (arith, leads-trim_start s)

trim_start_of_leads : (s : String) → leads s ≡ false → trim_start s ≡ s
unfolding leads trim_start
trim_start_of_leads [] h = refl
trim_start_of_leads (c ∷ s) h = rw h

leads-put_front : (c : Char) (s : String) → is_space c ≡ false → leads (put_front c s) ≡ false
unfolding leads put_front
leads-put_front c [] h = rw h h
leads-put_front c (d ∷ s) h = h

leads-trim_end : (s : String) → leads s ≡ false → leads (trim_end s) ≡ false
unfolding leads trim_end
leads-trim_end [] h = refl
leads-trim_end (c ∷ s) h = leads-put_front c (trim_end s) h

trim_end-put_front :
    (c : Char) (s : String) → trim_end s ≡ s → trim_end (put_front c s) ≡ put_front c s
unfolding trim_end put_front
trim_end-put_front c [] h = elim (Bool-cases (is_space c)) [ inl e ↦ rw e | inr e ↦ rw e (rw e) ]
trim_end-put_front c (d ∷ s) h = rw h

trim_end_idem : (s : String) → trim_end (trim_end s) ≡ trim_end s
unfolding trim_end
trim_end_idem [] = refl
trim_end_idem (c ∷ s) = trim_end-put_front c (trim_end s) (trim_end_idem s)

pub trim_idem : (s : String) → trim (trim s) ≡ trim s
unfolding trim
trim_idem s =
    ap trim_end (trim_start_of_leads _ (leads-trim_end _ (leads-trim_start s)))
    ∙ trim_end_idem (trim_start s)

trim_end_of_trim : (s : String) → trim s ≡ s → trim_end s ≡ s
unfolding trim
trim_end_of_trim s h = ap trim_end (sym h) ∙ trim_end_idem (trim_start s) ∙ h

-- The last character of the text, if it has one, is no white space.
abbrev pub EndsClean : String → Type 0
EndsClean [] = Unit
EndsClean (c ∷ []) = is_space c ≡ false
EndsClean (c ∷ d ∷ s) = EndsClean (d ∷ s)

pub EndsClean-tail : (c : Char) (s : String) → EndsClean (c ∷ s) → EndsClean s
EndsClean-tail c [] h = tt
EndsClean-tail c (d ∷ s) h = h

EndsClean-put_front : (c : Char) (s : String) → EndsClean s → EndsClean (put_front c s)
unfolding put_front
EndsClean-put_front c [] h = elim (Bool-cases (is_space c)) [ inl e ↦ rw e tt | inr e ↦ rw e e ]
EndsClean-put_front c (d ∷ s) h = h

EndsClean-trim_end : (s : String) → EndsClean (trim_end s)
unfolding trim_end
EndsClean-trim_end [] = tt
EndsClean-trim_end (c ∷ s) = EndsClean-put_front c (trim_end s) (EndsClean-trim_end s)

trim_end_of_EndsClean : (s : String) → EndsClean s → trim_end s ≡ s
unfolding trim_end put_front
trim_end_of_EndsClean [] h = refl
trim_end_of_EndsClean (c ∷ []) h = rw h
trim_end_of_EndsClean (c ∷ d ∷ s) h = rw (trim_end_of_EndsClean (d ∷ s) h)

pub EndsClean-append : (s t : String) → t ≢ "" → EndsClean t → EndsClean (s ⧺ t)
EndsClean-append [] t ne h = rw nil-append h
EndsClean-append (c ∷ []) [] ne h = absurd (ne refl)
EndsClean-append (c ∷ []) (d ∷ t) ne h = rw (cons-append, nil-append) h
EndsClean-append (c ∷ d ∷ s) t ne h =
    subst EndsClean (sym (cons-append c (d ∷ s) t ∙ ap (λ u. c ∷ u) (cons-append d s t)))
      (subst EndsClean (cons-append d s t) (EndsClean-append (d ∷ s) t ne h))

leads_of_trim : (s : String) → trim s ≡ s → leads s ≡ false
unfolding trim
leads_of_trim s h = ap leads (sym h) ∙ leads-trim_end (trim_start s) (leads-trim_start s)

leads-append : (s t : String) → s ≢ "" → leads (s ⧺ t) ≡ leads s
unfolding leads
leads-append [] t ne = absurd (ne refl)
leads-append (c ∷ s) t ne = rw cons-append

-- A trimmed text in front of one that ends clean is trimmed.
pub trim-append : (s t : String) → trim s ≡ s → s ≢ "" → t ≢ "" → EndsClean t → trim (s ⧺ t) ≡ s ⧺ t
unfolding trim
trim-append s t h ns nt k =
    ap trim_end (trim_start_of_leads (s ⧺ t) (leads-append s t ns ∙ leads_of_trim s h))
    ∙ trim_end_of_EndsClean (s ⧺ t) (EndsClean-append s t nt k)

pub EndsClean-trim : (s : String) → EndsClean (trim s)
unfolding trim
EndsClean-trim s = EndsClean-trim_end (trim_start s)

-- No character of a text passes the test.
abbrev pub NoneOf : (Char → Bool) → String → Type 0
NoneOf p [] = Unit
NoneOf p (c ∷ s) = (p c ≡ false) × NoneOf p s

abbrev pub none_of : (Char → Bool) → String → Bool
none_of p [] = true
none_of p (c ∷ s) = not (p c) && none_of p s

pub none_of_sound : (p : Char → Bool) (s : String) → none_of p s ≡ true → NoneOf p s
none_of_sound p [] h = tt
none_of_sound p (c ∷ s) h = (ground arith, none_of_sound p s (ground arith))

module _ (p : Char → Bool) where
  NoneOf-trim_start : (s : String) → NoneOf p s → NoneOf p (trim_start s)
  unfolding trim_start
  NoneOf-trim_start [] h = tt
  NoneOf-trim_start (c ∷ s) (h, k) = elim (Bool-cases (is_space c)) [
    | inl e ↦ rw e (NoneOf-trim_start s k)
    | inr e ↦ rw e (h, k)
  ]

  NoneOf-put_front : (c : Char) (s : String) → p c ≡ false → NoneOf p s → NoneOf p (put_front c s)
  unfolding put_front
  NoneOf-put_front c [] h k = elim (Bool-cases (is_space c)) [
    | inl e ↦ rw e tt
    | inr e ↦ rw e (h, tt)
  ]
  NoneOf-put_front c (d ∷ s) h k = (h, k)

  NoneOf-trim_end : (s : String) → NoneOf p s → NoneOf p (trim_end s)
  unfolding trim_end
  NoneOf-trim_end [] h = tt
  NoneOf-trim_end (c ∷ s) (h, k) = NoneOf-put_front c (trim_end s) h (NoneOf-trim_end s k)

  pub NoneOf-trim : (s : String) → NoneOf p s → NoneOf p (trim s)
  unfolding trim
  NoneOf-trim s h = NoneOf-trim_end (trim_start s) (NoneOf-trim_start s h)

trim_test : trim "  \t a b \n" ≡ "a b"
unfolding trim
trim_test = refl
