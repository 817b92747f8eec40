-- ===== src/Automation/Prefix.antt =====
-- `normalisasiPrefixPerintah` of ui/src/app/automation/page.tsx: the allowed command prefixes that
-- the operator types, one to a line or between semicolons, without blanks and repetitions.
-- `toLowerCase` follows the tables of Unicode, so it is a parameter: any function serves.
pub mod Splitting
pub mod Filtering
pub mod RoundTrip
use multi_job.Prelude.{
  Bool, true, false, ◌||◌, ◌&&◌, Char, code, String, nat_eq, if◌then◌else◌, ◌==◌, List, [], ◌∷◌,
  map,
}
use multi_job.Js.Text.{trim, truthy}

-- The characters that separate by themselves: a line feed and a semicolon.
unfoldable pub is_break : Char → Bool
is_break c = nat_eq (code c) 10 || nat_eq (code c) 59

-- The next character is a line feed.
pub at_line_feed : String → Bool
at_line_feed String.[] = false
at_line_feed (String.◌∷◌ c s) = nat_eq (code c) 10

abbrev pub push_first : Char → List String → List String
push_first c [] = String.◌∷◌ c "" ∷ []
push_first c (p ∷ ps) = String.◌∷◌ c p ∷ ps

-- `raw.split(/\r?\n|;/g)`: a carriage return belongs to the separator if a line feed follows it.
pub split_prefixes : String → List String
unfolding is_break at_line_feed
split_prefixes String.[] = "" ∷ []
split_prefixes (String.◌∷◌ c s) =
    let rest = split_prefixes s in
    if is_break c
    then "" ∷ rest
    else if nat_eq (code c) 13 && at_line_feed s
    then rest
    else push_first c rest

-- `sudahAda.has(key)`
unfoldable pub has : List String → String → Bool
has [] key = false
has (k ∷ ks) key = k == key || has ks key

module _ (to_lower_case : String → String) where
  -- the loop of `filter`, with the set `sudahAda`
  pub filter_new : List String → List String → List String
  unfolding has
  filter_new seen [] = []
  filter_new seen (item ∷ items) =
      let key = to_lower_case item in
      let skipped = filter_new seen items in
      let kept = item ∷ filter_new (key ∷ seen) items in
      if truthy item then (if has seen key then skipped else kept) else skipped

  unfoldable pub normalisasi_prefix_perintah : String → List String
  unfolding filter_new split_prefixes trim
  normalisasi_prefix_perintah raw = filter_new [] (map trim (split_prefixes raw))
