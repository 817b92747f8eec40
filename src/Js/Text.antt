-- ===== src/Js/Text.antt =====
-- Texts: `trim`, the truth of a text and `||` between texts. A text is a sequence of code points;
-- the code units that `trim` drops are code points of their own.
pub mod Trimming
pub mod Split
use multi_job.Prelude.{
  ℕ, Bool, true, false, ◌||◌, ◌&&◌, Char, code, String, nat_eq, leb, if◌then◌else◌, ◌==◌, not, List,
  Option, some, none, ◌⧺◌,
}
use Prim.Native.String.{[], ◌∷◌}

-- White space and line ends of ECMAScript.
unfoldable pub is_space : Char → Bool
is_space ch =
    let c = code ch in
    (leb 9 c && leb c 13)
    || nat_eq c 32
    || nat_eq c 160
    || nat_eq c 5760
    || (leb 8192 c && leb c 8202)
    || nat_eq c 8232
    || nat_eq c 8233
    || nat_eq c 8239
    || nat_eq c 8287
    || nat_eq c 12288
    || nat_eq c 65279

trim_start : String → String
trim_start [] = []
trim_start (c ∷ s) = if is_space c then trim_start s else c ∷ s

-- A character in front of a text whose end is trimmed.
put_front : Char → String → String
put_front c [] = if is_space c then [] else c ∷ []
put_front c (d ∷ s) = c ∷ d ∷ s

trim_end : String → String
trim_end [] = []
trim_end (c ∷ s) = put_front c (trim_end s)

-- `s.trim()`
unfoldable pub trim : String → String
unfolding trim_start trim_end put_front is_space
trim s = trim_end (trim_start s)

-- A text as a condition: the empty text is falsy.
abbrev pub truthy : String → Bool
truthy s = not (s == "")

-- `s || t`
abbrev pub or_text : String → String → String
or_text s t = if truthy s then s else t

-- `s || undefined`
abbrev pub some_text : String → Option String
some_text s = if truthy s then some s else none

-- `xs.join(sep)`
unfoldable pub join : String → List String → String
join sep List.[] = ""
join sep (List.◌∷◌ x List.[]) = x
join sep (List.◌∷◌ x (List.◌∷◌ y ys)) = x ⧺ sep ⧺ join sep (List.◌∷◌ y ys)
