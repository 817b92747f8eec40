-- ===== src/Js/LowerCase.antt =====
-- `toLowerCase`: what the clients rely on, and a function of that kind for ASCII texts.
use Prim.Native.String.{[], ◌∷◌, char_at}
use multi_job.Prelude.{
  ◌-◌, Bool, false, ◌&&◌, ◌||◌, Char, code, String, leb, if◌then◌else◌, ◌≡◌, refl, arith,
}
use multi_job.Js.Text.Trimming.{NoneOf}

is_upper : Char → Bool
is_upper c = leb 65 (code c) && leb (code c) 90

-- The characters that are no ASCII, or a capital letter.
unfoldable pub may_change : Char → Bool
unfolding is_upper
may_change c = leb 128 (code c) || is_upper c

-- A lower case text in ASCII is left as it is.
abbrev pub KeepsLowerCase : (String → String) → Type 0
KeepsLowerCase to_lower_case = (s : String) → NoneOf may_change s → to_lower_case s ≡ s

lower_char : Char → Char
unfolding is_upper
lower_char c = if is_upper c then char_at "abcdefghijklmnopqrstuvwxyz" (code c - 65) else c

unfoldable pub ascii_lower : String → String
unfolding lower_char
ascii_lower [] = []
ascii_lower (c ∷ s) = lower_char c ∷ ascii_lower s

lower_char_eq : (c : Char) → may_change c ≡ false → lower_char c ≡ c
unfolding may_change lower_char
lower_char_eq c h = ground arith

pub ascii_lower-KeepsLowerCase : KeepsLowerCase ascii_lower
unfolding ascii_lower
ascii_lower-KeepsLowerCase [] h = refl
ascii_lower-KeepsLowerCase (c ∷ s) (h, hs) = rw (lower_char_eq c h, ascii_lower-KeepsLowerCase s hs)
