-- ===== src/Js/Uri.antt =====
-- `encodeURIComponent` and `URLSearchParams.toString`, over the bytes of UTF-8.
use Prim.Native.String.{[], ◌∷◌, slice}
use multi_job.Prelude.{
  ℕ, ◌+◌, ◌/◌, ◌%◌, Bool, ◌&&◌, ◌||◌, code, String, ◌⧺◌, nat_eq, leb, ltb, if◌then◌else◌, ◌≡◌, refl,
}

hex : ℕ → String
hex d = slice "0123456789ABCDEF" d (d + 1)

percent : ℕ → String
unfolding hex
percent b = "%" ⧺ hex (b / 16) ⧺ hex (b % 16)

-- The bytes of a character, each behind a percent sign.
percent_bytes : ℕ → String
unfolding percent
percent_bytes n =
    if ltb n 128
    then percent n
    else if ltb n 2048
    then percent (192 + n / 64) ⧺ percent (128 + n % 64)
    else if ltb n 65536
    then percent (224 + n / 4096) ⧺ percent (128 + n / 64 % 64) ⧺ percent (128 + n % 64)
    else percent (240 + n / 262144)
      ⧺ percent (128 + n / 4096 % 64)
      ⧺ percent (128 + n / 64 % 64)
      ⧺ percent (128 + n % 64)

is_alphanumeric : ℕ → Bool
is_alphanumeric c = (leb 48 c && leb c 57) || (leb 65 c && leb c 90) || (leb 97 c && leb c 122)

-- Letters, digits and `-_.!~*'()` stay.
is_unreserved : ℕ → Bool
unfolding is_alphanumeric
is_unreserved c =
    is_alphanumeric c
    || nat_eq c 45
    || nat_eq c 95
    || nat_eq c 46
    || nat_eq c 33
    || nat_eq c 126
    || leb 39 c && leb c 42

unfoldable pub encode_uri_component : String → String
unfolding is_unreserved percent_bytes
encode_uri_component [] = []
encode_uri_component (c ∷ s) =
    let rest = encode_uri_component s in
    if is_unreserved (code c) then c ∷ rest else percent_bytes (code c) ⧺ rest

-- Letters, digits and `*-._` stay, and a space is a plus sign.
unfoldable pub encode_form : String → String
unfolding is_alphanumeric percent_bytes
encode_form [] = []
encode_form (c ∷ s) =
    let rest = encode_form s in
    let n = code c in
    if is_alphanumeric n || nat_eq n 42 || nat_eq n 45 || nat_eq n 46 || nat_eq n 95
    then c ∷ rest
    else if nat_eq n 32
    then "+" ⧺ rest
    else percent_bytes n ⧺ rest

encode_test : encode_uri_component "a/é (b)" ≡ "a%2F%C3%A9%20(b)"
unfolding encode_uri_component
encode_test = refl
