-- ===== src/Intoto/Value.antt =====
-- JSON values as Go's `any` has them, and what the code reads of a map.
use release_me.Prelude.{Bool, Option, none, some, List, [], ◌∷◌, if◌then◌else◌, Bytes, bytes_eq}

mutual
  pub data Json : Type 0 where
    null : Json
    boolean : Bool → Json
    number : Bytes → Json
    text : Bytes → Json
    array : Items → Json
    object : Fields → Json

  pub data Items : Type 0 where
    nil : Items
    item : Json → Items → Items

  -- A map, with at most one value for a key.
  pub data Fields : Type 0 where
    end : Fields
    entry : Bytes → Json → Fields → Fields

-- `m[key]` of a `map[string]any`
abbrev pub field : Bytes → Fields → Option Json
field key end = none
field key (entry k v fs) = if bytes_eq k key then some v else field key fs

-- `s, _ := v.(string)`
abbrev pub as_text : Option Json → Bytes
as_text (some (Json.text s)) = s
as_text _ = []

-- `m, _ := v.(map[string]any)`: a map, or nil
abbrev pub as_object_or_none : Option Json → Option Fields
as_object_or_none (some (Json.object fs)) = some fs
as_object_or_none _ = none

-- A nil map has no entries.
abbrev pub or_empty : Option Fields → Fields
or_empty none = end
or_empty (some fs) = fs

abbrev pub as_object : Option Json → Fields
as_object v = or_empty (as_object_or_none v)

-- `m[key]` of a `map[string]string`
abbrev pub in_map : Bytes → List (Bytes × Bytes) → Bytes
in_map key [] = []
in_map key ((k, v) ∷ m) = if bytes_eq k key then v else in_map key m
