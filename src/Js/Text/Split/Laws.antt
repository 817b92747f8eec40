-- ===== src/Js/Text/Split/Laws.antt =====
-- The pieces of a text, and the texts whose pieces are given.
use text.Mathlib.TextLemmas.{nil-append, cons-append}
use multi_job.Prelude.{
  Bool, true, false, Char, String, List, [], ◌∷◌, map, filter, All, ◌⧺◌, eq_iff, ◌≡◌, ◌≢◌, ◌↔◌,
  refl, ap, ◌∙◌, subst, arith, Bool-cases, inl, inr,
}
use multi_job.Js.Text.{trim, truthy, join, is_space}
use multi_job.Js.Text.Trimming.{NoneOf, NoneOf-trim, trim_idem}
use multi_job.Js.Text.Split.{split_on, pieces, first_piece}

-- What a piece is: trimmed, no blank and without a separator.
pub record IsPiece (is_sep : Char → Bool) (s : String) : Type 0 where
  pub trimmed : trim s ≡ s
  pub not_blank : s ≢ ""
  pub unbroken : NoneOf is_sep s

module _ (is_sep : Char → Bool) where
  first_piece-NoneOf :
      (c : Char) (ps : List String)
      → is_sep c ≡ false
      → All (NoneOf is_sep) ps
      → All (NoneOf is_sep) (first_piece c ps)
  first_piece-NoneOf c [] h k = ((h, tt), tt)
  first_piece-NoneOf c (p ∷ ps) h (k, ks) = ((h, k), ks)

  filter-IsPiece :
      (ps : List String)
      → All (NoneOf is_sep) ps
      → All (IsPiece is_sep) (filter truthy (map trim ps))
  filter-IsPiece [] h = tt
  filter-IsPiece (p ∷ ps) (h, hs) = elim (Bool-cases (truthy (trim p))) [
    | inl e ↦
        let piece : IsPiece is_sep (trim p) = record {
          trimmed = trim_idem p;
          not_blank = ground (arith, e, eq_iff (trim p) "");
          unbroken = NoneOf-trim is_sep p h;
        } in
        rw e (piece, filter-IsPiece ps hs)
    | inr e ↦ rw e (filter-IsPiece ps hs)
  ]

  split_on-NoneOf : (s : String) → All (NoneOf is_sep) (split_on is_sep s)
  unfolding split_on
  split_on-NoneOf String.[] = (tt, tt)
  split_on-NoneOf (String.◌∷◌ c s) = elim (Bool-cases (is_sep c)) [
    | inl e ↦ rw e (tt, split_on-NoneOf s)
    | inr e ↦ rw e (first_piece-NoneOf c (split_on is_sep s) e (split_on-NoneOf s))
  ]

  pieces-IsPiece : (s : String) → All (IsPiece is_sep) (pieces is_sep s)
  unfolding pieces
  pieces-IsPiece s = filter-IsPiece (split_on is_sep s) (split_on-NoneOf s)

  pub split_on-join :
      (x rest : String) (c : Char)
      → NoneOf is_sep x
      → is_sep c ≡ true
      → split_on is_sep (x ⧺ String.◌∷◌ c rest) ≡ x ∷ split_on is_sep rest
  unfolding split_on
  split_on-join String.[] rest c h k = rw (nil-append, k)
  split_on-join (String.◌∷◌ d x) rest c (h, hs) k =
      rw cons-append (rw (h, split_on-join x rest c hs k))

  split_on_whole : (x : String) → NoneOf is_sep x → split_on is_sep x ≡ x ∷ []
  unfolding split_on
  split_on_whole String.[] h = refl
  split_on_whole (String.◌∷◌ d x) (h, hs) = rw (h, split_on_whole x hs)

  -- The texts that are all white space, without a separator.
  abbrev pub IsPad : String → Type 0
  IsPad String.[] = Unit
  IsPad (String.◌∷◌ c s) = (is_space c ≡ true) × (is_sep c ≡ false) × IsPad s

  trim-space : (c : Char) (s : String) → is_space c ≡ true → trim (String.◌∷◌ c s) ≡ trim s
  unfolding trim
  trim-space c s h = rw h

  map-trim-first_piece :
      (c : Char) (ps : List String)
      → is_space c ≡ true
      → ps ≢ []
      → map trim (first_piece c ps) ≡ map trim ps
  map-trim-first_piece c [] h k = absurd (k refl)
  map-trim-first_piece c (p ∷ ps) h k = rw (trim-space c p h)

  split_on-ne-nil : (s : String) → split_on is_sep s ≢ []
  unfolding split_on
  split_on-ne-nil String.[] e = cc
  split_on-ne-nil (String.◌∷◌ c s) e = ground (arith, split_on-ne-nil s)

  map-trim-pad :
      (pad s : String)
      → IsPad pad
      → map trim (split_on is_sep (pad ⧺ s)) ≡ map trim (split_on is_sep s)
  unfolding split_on
  map-trim-pad String.[] s h = rw nil-append
  map-trim-pad (String.◌∷◌ c pad) s (h, k, hs) = rw cons-append (
      rw k (
        map-trim-first_piece c (split_on is_sep (pad ⧺ s)) h (split_on-ne-nil (pad ⧺ s))
        ∙ map-trim-pad pad s hs))

  truthy_piece : (x : String) → IsPiece is_sep x → truthy x ≡ true
  truthy_piece x p = ground (arith, eq_iff x "", p.not_blank)

  piece_in_front :
      (x : String) (ps : List String)
      → IsPiece is_sep x
      → filter truthy (map trim (x ∷ ps)) ≡ x ∷ filter truthy (map trim ps)
  piece_in_front x ps p = rw (p.trimmed, truthy_piece x p)

  -- Pieces that are joined by a separator with white space behind it are found again.
  pub pieces-join :
      (c : Char) (pad : String)
      → is_sep c ≡ true
      → IsPad pad
      → (xs : List String) → All (IsPiece is_sep) xs
      → pieces is_sep (join (String.◌∷◌ c pad) xs) ≡ xs
  unfolding pieces join
  pieces-join c pad k h [] hs = refl
  pieces-join c pad k h (x ∷ []) (p, hs) =
      ap (λ ps. filter truthy (map trim ps)) (split_on_whole x p.unbroken) ∙ piece_in_front x [] p
  pieces-join c pad k h (x ∷ y ∷ ys) (p, hs) =
      let rest = join (String.◌∷◌ c pad) (y ∷ ys) in
      ap (λ t. pieces is_sep (x ⧺ t)) (cons-append c pad rest)
      ∙ ap (λ ps. filter truthy (map trim ps)) (split_on-join x (pad ⧺ rest) c p.unbroken k)
      ∙ piece_in_front x (split_on is_sep (pad ⧺ rest)) p
      ∙ ap (λ ps. x ∷ filter truthy ps) (map-trim-pad pad rest h)
      ∙ ap (λ ps. x ∷ ps) (pieces-join c pad k h (y ∷ ys) hs)

  -- And only then: what is found are pieces.
  pub pieces-join_iff :
      (c : Char) (pad : String)
      → is_sep c ≡ true
      → IsPad pad
      → (xs : List String)
      → (pieces is_sep (join (String.◌∷◌ c pad) xs) ≡ xs) ↔ All (IsPiece is_sep) xs
  pieces-join_iff c pad k h xs = (
    (λ e. subst (All (IsPiece is_sep)) e (pieces-IsPiece (join (String.◌∷◌ c pad) xs))),
    pieces-join c pad k h xs,
  )
