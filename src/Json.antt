-- ===== src/Json.antt =====
-- JSON values, which Go code holds as `any` and `map[string]any`. A number is its text. A map is
-- the list of its entries, and a nil map is `none`.
use contrato_core.Base.{
  String, Option, none, some, Bool, true, false, List, [], ◌∷◌, ◌==◌, string_eq, if◌then◌else◌,
}

mutual
  pub data Json : Type 0 where
    null : Json
    boolean : Bool → Json
    number : String → Json
    text : String → Json
    array : Items → Json
    object : Fields → Json

  pub data Items : Type 0 where
    nil : Items
    cons : Json → Items → Items

  pub data Fields : Type 0 where
    end : Fields
    field : String → Json → Fields → Fields

-- `map[string]any`
abbrev pub Map : Type 0
Map = Option Fields

abbrev pub find_field : String → Fields → Option Json
find_field k end = none
find_field k (field j v fs) = if j == k then some v else find_field k fs

-- `m[k]`; a nil map has no entry.
abbrev pub at : String → Map → Option Json
at k none = none
at k (some fs) = find_field k fs

-- `m[k] == nil`
abbrev pub is_nil : Option Json → Bool
is_nil none = true
is_nil (some null) = true
is_nil (some _) = false

-- `v.(string)` and the like.
abbrev pub as_text : Option Json → Option String
as_text (some (text s)) = some s
as_text _ = none

abbrev pub as_array : Option Json → Option Items
as_array (some (array xs)) = some xs
as_array _ = none

abbrev pub as_object : Option Json → Option Fields
as_object (some (object fs)) = some fs
as_object _ = none

abbrev pub to_items : List Json → Items
to_items [] = nil
to_items (x ∷ xs) = cons x (to_items xs)

abbrev pub from_map : Map → Json
from_map none = null
from_map (some fs) = object fs
