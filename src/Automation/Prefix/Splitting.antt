-- ===== src/Automation/Prefix/Splitting.antt =====
-- The pieces of a split hold no separator, and joining lines undoes the split.
use text.Mathlib.TextLemmas.{nil-append, cons-append}
use multi_job.Prelude.{
  false, ◌&&◌, Char, code, String, nat_eq, List, [], ◌∷◌, All, ◌≡◌, refl, arith, Bool-cases, inl,
  inr, ◌⧺◌,
}
use multi_job.Js.Text.{is_space}
use multi_job.Js.Text.Trimming.{NoneOf, EndsClean, EndsClean-tail}
use multi_job.Automation.Prefix.{is_break, at_line_feed, push_first, split_prefixes}

-- No character of the text separates by itself.
abbrev pub NoBreak : String → Type 0
NoBreak s = NoneOf is_break s

push_first-NoBreak :
    (c : Char) (ps : List String)
    → is_break c ≡ false
    → All NoBreak ps
    → All NoBreak (push_first c ps)
push_first-NoBreak c [] h k = ((h, tt), tt)
push_first-NoBreak c (p ∷ ps) h (k, ks) = ((h, k), ks)

pub split_prefixes-NoBreak : (s : String) → All NoBreak (split_prefixes s)
unfolding split_prefixes
split_prefixes-NoBreak String.[] = (tt, tt)
split_prefixes-NoBreak (String.◌∷◌ c s) = elim (Bool-cases (is_break c)) [
  | inl e ↦ rw e (tt, split_prefixes-NoBreak s)
  | inr e ↦ elim (Bool-cases (nat_eq (code c) 13 && at_line_feed s)) [
    | inl h ↦ rw (e, h) (split_prefixes-NoBreak s)
    | inr h ↦ rw (e, h) (push_first-NoBreak c (split_prefixes s) e (split_prefixes-NoBreak s))
  ]
]

-- A separator of two characters does not begin inside a line.
no_carriage_return :
    (c : Char) (s rest : String)
    → NoBreak s
    → EndsClean (String.◌∷◌ c s)
    → (nat_eq (code c) 13 && at_line_feed (s ⧺ "\n" ⧺ rest)) ≡ false
no_carriage_return c String.[] rest h k = unfold is_space in ground arith
no_carriage_return c (String.◌∷◌ d s) rest (h, hs) k =
    rw cons-append (unfold at_line_feed is_break in ground arith)

pub split_prefixes-line :
    (x rest : String)
    → NoBreak x
    → EndsClean x
    → split_prefixes (x ⧺ "\n" ⧺ rest) ≡ x ∷ split_prefixes rest
unfolding split_prefixes
split_prefixes-line String.[] rest h k = rw (nil-append, cons-append, nil-append)
split_prefixes-line (String.◌∷◌ c s) rest (h, hs) k =
    rw cons-append (
      rw
        (h, no_carriage_return c s rest hs k, split_prefixes-line s rest hs (EndsClean-tail c s k)))

at_line_feed_of_NoBreak : (s : String) → NoBreak s → at_line_feed s ≡ false
unfolding at_line_feed is_break
at_line_feed_of_NoBreak String.[] h = refl
at_line_feed_of_NoBreak (String.◌∷◌ c s) (h, k) = ground arith

pub split_prefixes-last : (x : String) → NoBreak x → split_prefixes x ≡ x ∷ []
unfolding split_prefixes
split_prefixes-last String.[] h = refl
split_prefixes-last (String.◌∷◌ c s) (h, hs) =
    let no_feed = at_line_feed_of_NoBreak s hs in
    let ih = split_prefixes-last s hs in rw (h, ih) (ground arith)
