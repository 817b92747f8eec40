-- ===== src/Js/Text/Split.antt =====
-- `text.split(c).map((x) => x.trim()).filter((x) => x.length > 0)` for a separator of one character,
-- and how it undoes a `join`.
pub mod Laws
use multi_job.Prelude.{Bool, Char, code, nat_eq, String, List, [], ◌∷◌, map, filter, if◌then◌else◌}
use multi_job.Js.Text.{trim, truthy}

-- `s.split(",")` separates here.
abbrev pub is_comma : Char → Bool
is_comma c = nat_eq (code c) 44

abbrev pub first_piece : Char → List String → List String
first_piece c [] = String.◌∷◌ c "" ∷ []
first_piece c (p ∷ ps) = String.◌∷◌ c p ∷ ps

-- `text.split(c)`, for the characters that pass the test.
pub split_on : (Char → Bool) → String → List String
split_on is_sep String.[] = "" ∷ []
split_on is_sep (String.◌∷◌ c s) =
    let rest = split_on is_sep s in if is_sep c then "" ∷ rest else first_piece c rest

unfoldable pub pieces : (Char → Bool) → String → List String
unfolding split_on trim
pieces is_sep s = filter truthy (map trim (split_on is_sep s))
