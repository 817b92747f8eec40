-- ===== src/Js/Dict/Keys.antt =====
-- Dictionaries in which no key stands twice, as in an object: every entry is the one that its key finds.
use multi_job.Prelude.{
  true, false, String, ◌==◌, eq_iff, [], ◌∷◌, none, some, All, All-map, ◌≡◌, refl, ap, ◌∙◌, arith,
  Bool-cases, inl, inr,
}
use multi_job.Js.Dict.{Dict, lookup, put, lookup-put}

module _ {V : Type 0} where
  abbrev pub IsObject : Dict V → Type 0
  IsObject [] = Unit
  IsObject ((k, v) ∷ m) = (lookup k m ≡ none) × IsObject m

  pub put-IsObject : (k : String) (v : V) (m : Dict V) → IsObject m → IsObject (put k v m)
  unfolding put lookup
  put-IsObject k v [] h = (refl, tt)
  put-IsObject k v ((j, w) ∷ m) (h, hs) = elim (Bool-cases (j == k)) [
    | inl e ↦ rw e (h, hs)
    | inr e ↦
        let other : (k == j) ≡ false = ground (arith, e, eq_iff j k, eq_iff k j) in
        rw e (lookup-put j k v m ∙ rw other h, put-IsObject k v m hs)
  ]

  -- What the entries of an object hold is what their keys find.
  pub IsObject-entries :
      (m : Dict V) → IsObject m → All (λ (entry : String × V). lookup entry.0 m ≡ some entry.1) m
  unfolding lookup
  IsObject-entries [] h = tt
  IsObject-entries ((k, v) ∷ m) (h, hs) = (
    (let e : (k == k) ≡ true = (eq_iff k k).1 refl in rw e refl),
    All-map
        (λ (entry : String × V) e.
          let other : (k == entry.0) ≡ false = ground (arith, different entry e h) in rw other e)
        m (IsObject-entries m hs),
  )
    where
      different :
          (entry : String × V)
          → lookup entry.0 m ≡ some entry.1
          → lookup k m ≡ none
          → (k == entry.0) ≡ false
      different entry e h = elim (Bool-cases (k == entry.0)) [
        | inl t ↦ cc (e, h, ap (λ i. lookup i m) ((eq_iff k entry.0).0 t))
        | inr f ↦ f
      ]
