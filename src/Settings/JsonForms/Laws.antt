-- ===== src/Settings/JsonForms/Laws.antt =====
-- The maps of texts that the page makes of typed objects.
use multi_job.Prelude.{
  false, String, ◌==◌, eq_iff, List, [], ◌∷◌, ◌++◌, map, append_assoc, append-nil, Option, none,
  some, All, All-append, if◌then◌else◌, ◌≡◌, ◌≢◌, refl, sym, ap, ◌∙◌, arith, Bool-cases, inl, inr,
}
use multi_job.Js.Text.{trim, truthy}
use multi_job.Js.Dict.{Dict, lookup, put, lookup-put}
use multi_job.Js.Json.{Json, text, entries, string_of, string_of_text}
use multi_job.Settings.Providers.Prefixes.{IsName}
use multi_job.Settings.JsonForms.{isi_peta, ubah_ke_peta_string}

-- The first value if there is one, else the second.
abbrev or_old : Option String → Option String → Option String
or_old none old = old
or_old (some s) old = some s

-- The text of the last entry whose trimmed key is `k`.
pub nilai_terakhir : String → Dict Json → Option String
nilai_terakhir k [] = none
nilai_terakhir k ((key, value) ∷ entries) =
    or_old (nilai_terakhir k entries) (if trim key == k then some (string_of value) else none)

or_old_assoc : (a b c : Option String) → or_old (or_old a b) c ≡ or_old a (or_old b c)
or_old_assoc none b c = refl
or_old_assoc (some s) b c = refl

or_old-none : (a : Option String) → or_old a none ≡ a
or_old-none none = refl
or_old-none (some s) = refl

lookup-isi_peta :
    (k : String) (source : Dict Json) (output : Dict String)
    → k ≢ ""
    → lookup k (isi_peta source output) ≡ or_old (nilai_terakhir k source) (lookup k output)
unfolding isi_peta nilai_terakhir
lookup-isi_peta k [] output ne = refl
lookup-isi_peta k ((key, value) ∷ rest) output ne =
    let output' = if truthy (trim key) then put (trim key) (string_of value) output else output in
    let here = if trim key == k then some (string_of value) else none in
    let step : lookup k output' ≡ or_old here (lookup k output) = ground (
      arith,
      lookup-put k (trim key) (string_of value) output,
      eq_iff (trim key) "",
      eq_iff (trim key) k,
      ne,
    ) in
    lookup-isi_peta k rest output' ne
    ∙ ap (λ old. or_old (nilai_terakhir k rest) old) step
    ∙ sym (or_old_assoc (nilai_terakhir k rest) here (lookup k output))

lookup-isi_peta-empty :
    (source : Dict Json) (output : Dict String)
    → lookup "" output ≡ none
    → lookup "" (isi_peta source output) ≡ none
unfolding isi_peta
lookup-isi_peta-empty [] output h = h
lookup-isi_peta-empty ((key, value) ∷ rest) output h =
    lookup-isi_peta-empty rest
      (if truthy (trim key) then put (trim key) (string_of value) output else output)
      (ground (arith, lookup-put "" (trim key) (string_of value) output, eq_iff (trim key) "", h))

-- Of the entries whose keys are equal when trimmed the last is taken, as a text, under the trimmed key;
-- an entry with a blank key is dropped.
pub lookup-ubah_ke_peta_string :
    (k : String) (source : Dict Json)
    → lookup k (ubah_ke_peta_string source) ≡ (if truthy k then nilai_terakhir k source else none)
unfolding ubah_ke_peta_string lookup
lookup-ubah_ke_peta_string k source = elim (Bool-cases (k == "")) [
  | inl e ↦
      let same : k ≡ "" = (eq_iff k "").0 e in
      rw e (ap (λ j. lookup j (isi_peta source [])) same ∙ lookup-isi_peta-empty source [] refl)
  | inr e ↦
      let ne : k ≢ "" = (λ z. ground (arith, e, eq_iff k "", z)) in
      rw e (lookup-isi_peta k source [] ne ∙ or_old-none (nilai_terakhir k source))
]

-- The object of a map of texts.
abbrev pub texts : Dict String → Dict Json
texts d = map (λ (entry : String × String). (entry.0, text entry.1)) d

-- The keys are names and differ.
abbrev pub IsMap : Dict String → Type 0
IsMap [] = Unit
IsMap ((k, v) ∷ d) = IsName k × All (λ (entry : String × String). k ≢ entry.0) d × IsMap d

-- No entry of the map stands under the key.
abbrev Misses : String → Dict String → Type 0
Misses k d = All (λ (entry : String × String). entry.0 ≢ k) d

put-Misses : (k v : String) (d : Dict String) → Misses k d → put k v d ≡ d ++ (k, v) ∷ []
unfolding put
put-Misses k v [] h = refl
put-Misses k v ((j, w) ∷ d) (h, hs) =
    let e : (j == k) ≡ false = ground (arith, eq_iff j k, h) in
    rw e (ap (λ m. (j, w) ∷ m) (put-Misses k v d hs))

-- Every key of the first map is missed by the second.
abbrev IsApart : Dict String → Dict String → Type 0
IsApart d output = All (λ (entry : String × String). Misses entry.0 output) d

All-both {ℓ} :
    {A : Type ℓ} (P Q R : A → Type 0)
    → ((a : A) → P a → Q a → R a)
    → (as' : List A) → All P as'
    → All Q as'
    → All R as'
All-both P Q R f [] h k = tt
All-both P Q R f (a ∷ as') (h, hs) (k, ks) = (f a h k, All-both P Q R f as' hs ks)

isi_peta-texts :
    (d output : Dict String) → IsMap d → IsApart d output → isi_peta (texts d) output ≡ output ++ d
unfolding isi_peta
isi_peta-texts [] output h apart = sym (append-nil output)
isi_peta-texts ((k, v) ∷ d) output ((trimmed, ne), differ, h) (miss, misses) =
    let e : (k == "") ≡ false = ground (arith, eq_iff k "", ne) in
    let put_behind = put-Misses k v output miss in
    let apart =
      All-both (λ (entry : String × String). Misses entry.0 output)
        (λ (entry : String × String). k ≢ entry.0)
        (λ (entry : String × String). Misses entry.0 (output ++ (k, v) ∷ []))
        (λ entry m ne'. All-append _ output ((k, v) ∷ []) m (ne', tt)) d misses differ in
    let next : (if truthy (trim k) then put (trim k) (string_of (text v)) output else output)
        ≡ output ++ (k, v) ∷ [] =
      rw (trimmed, e, string_of_text v) put_behind in
    ap (isi_peta (texts d)) next
    ∙ isi_peta-texts d (output ++ (k, v) ∷ []) h apart
    ∙ append_assoc output ((k, v) ∷ []) d

-- The object of a map comes back as the map.
pub ubah_ke_peta_string-texts : (d : Dict String) → IsMap d → ubah_ke_peta_string (texts d) ≡ d
unfolding ubah_ke_peta_string
ubah_ke_peta_string-texts d h = isi_peta-texts d [] h (any d)
  where
    any : (d : Dict String) → IsApart d []
    any [] = tt
    any (entry ∷ d) = (tt, any d)
