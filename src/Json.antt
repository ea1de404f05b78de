-- ===== src/Json.antt =====
-- The JSON values that the program receives, as Python's `json.loads` builds them. A number is its
-- literal, with whether it is zero, since the program only tests numbers for being false.
use mutsumi_s_sync.Common.{
  Bool, true, false, not, Option, none, some, List, [], ◌∷◌, Text, text_eq, is_empty, if◌then◌else◌,
}

mutual
  pub data Json : Type 0 where
    null : Json
    boolean : Bool → Json
    number : Bool → Text → Json
    str : Text → Json
    arr : Items → Json
    obj : Fields → Json

  pub data Items : Type 0 where
    nil : Items
    cons : Json → Items → Items

  pub data Fields : Type 0 where
    end : Fields
    field : Text → Json → Fields → Fields

-- `value.get(key)` of a `dict`
unfoldable pub get_field : Text → Fields → Option Json
get_field k end = none
get_field k (field j v fs) = if text_eq j k then some v else get_field k fs

-- `bool(value)`
unfoldable pub truthy : Json → Bool
truthy null = false
truthy (boolean b) = b
truthy (number zero literal) = not zero
truthy (str s) = not (is_empty s)
truthy (arr nil) = false
truthy (arr (cons x xs)) = true
truthy (obj end) = false
truthy (obj (field k v fs)) = true

-- `d.get(key)`, with `None` for a missing key
unfoldable pub get_or_null : Text → Fields → Json
unfolding get_field
get_or_null k fs = elim (get_field k fs) [ none ↦ null | some v ↦ v ]

-- `isinstance(value, str)`
abbrev pub as_str : Json → Option Text
as_str (str s) = some s
as_str _ = none

-- `isinstance(value, dict)`
abbrev pub as_obj : Json → Option Fields
as_obj (obj fs) = some fs
as_obj _ = none

abbrev pub items : Items → List Json
items nil = []
items (cons x xs) = x ∷ items xs

-- An array of strings.
abbrev pub text_items : List Text → Items
text_items [] = nil
text_items (t ∷ ts) = cons (str t) (text_items ts)
