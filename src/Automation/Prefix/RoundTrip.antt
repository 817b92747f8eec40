-- ===== src/Automation/Prefix/RoundTrip.antt =====
-- The normalised prefixes: their shape, and that the text that lists them gives them back.
use mathlib.Core.Path.{◌∙◌}
use multi_job.Prelude.{
  String, List, [], ◌∷◌, map, All, Subsequence, Subsequence-All, ◌≡◌, ◌≢◌, refl, ap,
}
use multi_job.Js.Text.{trim, join}
use multi_job.Js.Text.Trimming.{trim_idem, EndsClean-trim, NoneOf-trim}
use multi_job.Automation.Prefix.{is_break, split_prefixes, filter_new, normalisasi_prefix_perintah}
use multi_job.Automation.Prefix.Splitting.{
  NoBreak, split_prefixes-NoBreak, split_prefixes-line, split_prefixes-last,
}
use multi_job.Automation.Prefix.Filtering.{
  HasDistinctKeys, IsCovered, filter_new-HasDistinctKeys, filter_new-not_blank, filter_new-eq_self,
  filter_new-Subsequence, filter_new-IsCovered,
}

-- One line of a text area: trimmed, and with no separator.
pub record IsLine (x : String) : Type 0 where
  pub trimmed : trim x ≡ x
  pub unbroken : NoBreak x

-- A list of prefixes as the server takes it.
pub record IsNormal (to_lower_case : String → String) (xs : List String) : Type 0 where
  pub lines : All IsLine xs
  pub not_blank : All (λ x. x ≢ "") xs
  pub distinct : HasDistinctKeys to_lower_case xs

map-trim-IsLine : (xs : List String) → All NoBreak xs → All IsLine (map trim xs)
map-trim-IsLine [] h = tt
map-trim-IsLine (x ∷ xs) (h, hs) =
    (record { trimmed = trim_idem x; unbroken = NoneOf-trim is_break x h }, map-trim-IsLine xs hs)

map-trim-split_prefixes-join :
    (x : String) (xs : List String)
    → All IsLine (x ∷ xs)
    → map trim (split_prefixes (join "\n" (x ∷ xs))) ≡ x ∷ xs
unfolding join
map-trim-split_prefixes-join x [] (l, ls) = rw (split_prefixes-last x l.unbroken, l.trimmed)
map-trim-split_prefixes-join x (y ∷ ys) (l, ls) =
    let clean = rw l.trimmed at (EndsClean-trim x) in
    rw (
      split_prefixes-line x (join "\n" (y ∷ ys)) l.unbroken clean,
      l.trimmed,
      map-trim-split_prefixes-join y ys ls,
    )

-- A normal list that is written one prefix to a line is read back as it is.
pub normalisasi_prefix_perintah-join :
    (to_lower_case : String → String) (xs : List String)
    → IsNormal to_lower_case xs
    → normalisasi_prefix_perintah to_lower_case (join "\n" xs) ≡ xs
unfolding normalisasi_prefix_perintah
normalisasi_prefix_perintah-join to_lower_case [] h =
    unfold filter_new split_prefixes trim join in refl
normalisasi_prefix_perintah-join to_lower_case (x ∷ xs) h =
    ap (filter_new to_lower_case []) (map-trim-split_prefixes-join x xs h.lines)
    ∙ filter_new-eq_self to_lower_case (x ∷ xs) h.not_blank h.distinct

-- What is sent to the server is normal, whatever was typed.
pub normalisasi_prefix_perintah-IsNormal :
    (to_lower_case : String → String) (raw : String)
    → IsNormal to_lower_case (normalisasi_prefix_perintah to_lower_case raw)
unfolding normalisasi_prefix_perintah
normalisasi_prefix_perintah-IsNormal to_lower_case raw =
    let items = map trim (split_prefixes raw) in
    record {
      lines =
          Subsequence-All IsLine (filter_new-Subsequence to_lower_case [] items)
            (map-trim-IsLine (split_prefixes raw) (split_prefixes-NoBreak raw));
      not_blank = filter_new-not_blank to_lower_case items;
      distinct = filter_new-HasDistinctKeys to_lower_case items;
    }

-- Every trimmed line is kept or is a blank or repeats a kept one, and what is kept stays in order.
pub normalisasi_prefix_perintah_complete :
    (to_lower_case : String → String) (raw : String)
    → let xs = normalisasi_prefix_perintah to_lower_case raw in
      let items = map trim (split_prefixes raw) in
      Subsequence xs items × All (IsCovered to_lower_case xs) items
unfolding normalisasi_prefix_perintah
normalisasi_prefix_perintah_complete to_lower_case raw =
    let items = map trim (split_prefixes raw) in
    (filter_new-Subsequence to_lower_case [] items, filter_new-IsCovered to_lower_case items)

-- Normalising the text of a normalised list changes nothing.
pub normalisasi_prefix_perintah_idem :
    (to_lower_case : String → String) (raw : String)
    → normalisasi_prefix_perintah to_lower_case
        (join "\n" (normalisasi_prefix_perintah to_lower_case raw))
      ≡ normalisasi_prefix_perintah to_lower_case raw
normalisasi_prefix_perintah_idem to_lower_case raw =
    normalisasi_prefix_perintah-join to_lower_case _
      (normalisasi_prefix_perintah-IsNormal to_lower_case raw)
