-- ===== src/Json.antt =====
-- What Go code keeps in a `map[string]any`: the tree that encoding/json writes and reads. A number is
-- held by its bits, since nothing here computes with it. A nil map and an empty map differ.
use go_ha.Prelude.{ℕ, String, str_eq, Bool, Option, none, some, if◌then◌else◌}

mutual
  pub data Any : Type 0 where
    text : String → Any
    flag : Bool → Any
    integer : ℕ → Any
    float : ℕ → Any
    null : Any
    object : Fields → Any

  -- The entries of a map.
  pub data Fields : Type 0 where
    empty : Fields
    field : String → Any → Fields → Fields

-- A `map[string]any`, which may be nil.
abbrev pub Data : Type 0
Data = Option Fields

-- `m[key]`.
unfoldable pub member : String → Fields → Option Any
member key empty = none
member key (field k value rest) = if str_eq k key then some value else member key rest

-- `v.(string)`, and the empty string where it is something else.
abbrev pub as_text : Option Any → String
as_text none = ""
as_text (some (text s)) = s
as_text (some (flag b)) = ""
as_text (some (integer n)) = ""
as_text (some (float n)) = ""
as_text (some null) = ""
as_text (some (object fields)) = ""

-- `v.(map[string]any)`, and nil where it is something else.
abbrev pub as_data : Option Any → Data
as_data none = none
as_data (some (text s)) = none
as_data (some (flag b)) = none
as_data (some (integer n)) = none
as_data (some (float n)) = none
as_data (some null) = none
as_data (some (object fields)) = some fields

-- A field marked `omitempty` that holds a map.
abbrev pub omit_empty : String → Data → Fields → Fields
omit_empty key none rest = rest
omit_empty key (some empty) rest = rest
omit_empty key (some (field k value more)) rest = field key (object (field k value more)) rest

-- What encoding/json writes and reads back as a `map[string]any`: every number becomes a float64. The
-- bits of the float64 nearest to an integer are an argument.
unfoldable mutual
  pub decoded : (ℕ → ℕ) → Any → Any
  decoded to_float (text s) = text s
  decoded to_float (flag b) = flag b
  decoded to_float (integer n) = float (to_float n)
  decoded to_float (float bits) = float bits
  decoded to_float null = null
  decoded to_float (object fields) = object (decoded_fields to_float fields)

  pub decoded_fields : (ℕ → ℕ) → Fields → Fields
  decoded_fields to_float empty = empty
  decoded_fields to_float (field key value rest) =
      field key (decoded to_float value) (decoded_fields to_float rest)
