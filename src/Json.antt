-- ===== src/Json.antt =====
-- Values of Go's `interface{}` as the program gets them from JSON and YAML, and the text-keyed maps
-- `map[string]interface{}`. A float is kept as its `%v` text.
use baxi.Base.{ℤ, String, ◌==◌, if◌then◌else◌, Option, none, some, Bool}

mutual
  pub data Fields : Type 0 where
    end : Fields
    field : String → Value → Fields → Fields

  pub data Value : Type 0 where
    null : Value
    bool : Bool → Value
    str : String → Value
    obj : Fields → Value
    int : ℤ → Value
    float : String → Value
    arr : Items → Value

  pub data Items : Type 0 where
    nil : Items
    cons : Value → Items → Items

-- `m[k]`, with whether the key is there.
abbrev pub get_field : String → Fields → Option Value
get_field k end = none
get_field k (field j v m) = if k == j then some v else get_field k m

-- A nil map has no keys.
abbrev pub get_field_of : String → Option Fields → Option Value
get_field_of k none = none
get_field_of k (some m) = get_field k m
