-- ===== src/Js/Json.antt =====
-- JSON values. The members of an object stand in the order of `Object.entries`.
use multi_job.Prelude.{
  zero, suc, ◌==◌, ◌+◌, Bool, true, false, String, ◌⧺◌, List, [], ◌∷◌, Option, some, ◌≡◌, refl,
}
use multi_job.Js.Number.{JsNumber, nan, natural, negative, show}
use multi_job.Js.Text.{join}
use multi_job.Js.Dict.{Dict}

mutual
  pub data Json : Type 0 where
    null : Json
    bool : Bool → Json
    number : JsNumber → Json
    text : String → Json
    array : Items → Json
    object : Members → Json

  pub data Items : Type 0 where
    nil : Items
    item : Json → Items → Items

  pub data Members : Type 0 where
    end : Members
    member : String → Json → Members → Members

-- `Object.entries(value)`
unfoldable pub entries : Members → Dict Json
entries end = []
entries (member key value m) = (key, value) ∷ entries m

-- `!value`
abbrev pub falsy : Json → Bool
falsy null = true
falsy (bool false) = true
falsy (bool true) = false
falsy (number nan) = true
falsy (number (natural zero)) = true
falsy (number (natural (suc n))) = false
falsy (number (negative n)) = false
falsy (text s) = s == ""
falsy (array items) = false
falsy (object members) = false

-- `typeof value === "string" ? value : ""`
abbrev pub text_or_empty : Option Json → String
text_or_empty (some (text s)) = s
text_or_empty _ = ""

abbrev pub show_number : JsNumber → String
show_number nan = "NaN"
show_number (natural n) = show n
show_number (negative n) = "-" ⧺ show (n + 1)

mutual
  -- `String(value)`
  pub string_of : Json → String
  string_of null = "null"
  string_of (bool true) = "true"
  string_of (bool false) = "false"
  string_of (number x) = show_number x
  string_of (text s) = s
  string_of (array items) = join "," (item_texts items)
  string_of (object members) = "[object Object]"

  -- The texts of the items in the text of an array.
  item_texts : Items → List String
  item_texts nil = []
  item_texts (item value items) = item_text value ∷ item_texts items

  item_text : Json → String
  item_text null = ""
  item_text (bool true) = "true"
  item_text (bool false) = "false"
  item_text (number x) = show_number x
  item_text (text s) = s
  item_text (array items) = join "," (item_texts items)
  item_text (object members) = "[object Object]"

pub string_of_text : (s : String) → string_of (text s) ≡ s
unfolding string_of
string_of_text s = refl
