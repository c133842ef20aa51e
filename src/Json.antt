-- ===== src/Json.antt =====
-- A parsed JSON document as Python holds it, and what the program asks of one. A number keeps its
-- text; an object's keys are read by the first that is there.
use homelab_registry_mcp.Prelude.{
  Bool, List, Option, String, none, some, str_eq, if◌then◌else◌, [], ◌∷◌, false, not, true,
}

mutual
  pub data Json : Type 0 where
    null : Json
    flag : Bool → Json
    number : String → Json
    text : String → Json
    array : Items → Json
    object : Fields → Json

  pub data Items : Type 0 where
    no_items : Items
    item : Json → Items → Items

  pub data Fields : Type 0 where
    no_fields : Fields
    field : String → Json → Fields → Fields

-- `d.get(key)`
unfoldable pub get_field : String → Fields → Option Json
get_field k no_fields = none
get_field k (field name v fs) = let rest = get_field k fs in if str_eq name k then some v else rest

-- `d.get(key) if isinstance(d, dict) else None`
unfoldable pub get_in : String → Json → Option Json
unfolding get_field
get_in k (object fs) = get_field k fs
get_in k _ = none

-- A value that is a string.
abbrev pub as_text : Option Json → Option String
as_text (some (text s)) = some s
as_text _ = none

abbrev pub items : Items → List Json
items no_items = []
items (item j js) = j ∷ items js

-- Python's truth of a value.
unfoldable pub truthy : (is_zero : String → Bool) → Json → Bool
truthy is_zero null = false
truthy is_zero (flag b) = b
truthy is_zero (number n) = not (is_zero n)
truthy is_zero (text s) = not (str_eq s "")
truthy is_zero (array no_items) = false
truthy is_zero (array (item j js)) = true
truthy is_zero (object no_fields) = false
truthy is_zero (object (field k v fs)) = true
