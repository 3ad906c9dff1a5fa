-- ===== src/Json/Kinds.antt =====
-- include/json.hpp: what reflection asks of a parsed value. A double is its bits; what is known of it is
-- a parameter.
pub mod Fields
use munchkinglang.Prelude.{
  ℕ, suc, ◌+◌, ◌-◌, ◌^◌, List, [], ◌∷◌, ◌++◌, Bool, true, false, ◌&&◌, Option, none, some, ltb, leb,
  ◌==◌, if◌then◌else◌,
}
use munchkinglang.Prelude.Int.{ℤ, pos, negsuc, leb_ℤ}
use munchkinglang.Mir.Runtime.{same_bytes}
use munchkinglang.Lexer.Words.{ascii}
use munchkinglang.Json.Number.{
  Value, Values, Entries, null, bool, int, float, string, array, object, empty, entry,
}

unfoldable pub value_kind_name : Value → List ℕ
value_kind_name null = ascii "null"
value_kind_name (string text) = ascii "string"
value_kind_name (int n) = ascii "int"
value_kind_name (float bits) = ascii "float"
value_kind_name (bool b) = ascii "bool"
value_kind_name (object entries) = ascii "object"
value_kind_name (array items) = ascii "array"

-- A value, an error that is thrown, or a conversion that the language does not define.
pub data Checked : Type 0 where
  accepted : Value → Checked
  thrown : List ℕ → Checked
  undefined : Checked

pub record Doubles : Type 0 where
  -- The integer that a finite double without a fraction is.
  pub whole_of : ℕ → Option ℤ
  -- The double that is nearest to an integer.
  pub nearest : ℤ → ℕ

unfoldable pub mismatch : List ℕ → List ℕ → Value → Checked
unfolding value_kind_name
mismatch context kind v =
    Checked.thrown (context ++ ascii ": expected " ++ kind ++ ascii ", got " ++ value_kind_name v)

-- `INT64_MAX` as a double is 2^63, which the range test lets pass and the conversion does not hold.
unfoldable pub int_of_double : List ℕ → Value → Option ℤ → Checked
unfolding mismatch
int_of_double context v none = mismatch context (ascii "int") v
int_of_double context v (some z) =
    if leb_ℤ (negsuc (2 ^ 63 - 1)) z && leb_ℤ z (pos (2 ^ 63))
    then (if leb_ℤ (pos (2 ^ 63)) z then Checked.undefined else Checked.accepted (int z))
    else mismatch context (ascii "int") v

-- What `get_if` tells of the alternatives that are not converted.
unfoldable pub holds_string : Value → Bool
holds_string (string text) = true
holds_string _ = false

unfoldable pub holds_bool : Value → Bool
holds_bool (bool b) = true
holds_bool _ = false

unfoldable pub holds_object : Value → Bool
holds_object (object entries) = true
holds_object _ = false

unfoldable pub holds_array : Value → Bool
holds_array (array items) = true
holds_array _ = false

unfoldable pub require_string : List ℕ → Value → Checked
unfolding holds_string mismatch
require_string context v =
    if holds_string v then Checked.accepted v else mismatch context (ascii "string") v

unfoldable pub require_bool : List ℕ → Value → Checked
unfolding holds_bool mismatch
require_bool context v =
    if holds_bool v then Checked.accepted v else mismatch context (ascii "bool") v

unfoldable pub require_object : List ℕ → Value → Checked
unfolding holds_object mismatch
require_object context v =
    if holds_object v then Checked.accepted v else mismatch context (ascii "object") v

unfoldable pub require_array : List ℕ → Value → Checked
unfolding holds_array mismatch
require_array context v =
    if holds_array v then Checked.accepted v else mismatch context (ascii "array") v

module _ (doubles : Doubles) where
  unfoldable pub require_int : List ℕ → Value → Checked
  unfolding int_of_double mismatch
  require_int context (int n) = Checked.accepted (int n)
  require_int context (float bits) = int_of_double context (float bits) (doubles.whole_of bits)
  require_int context v = mismatch context (ascii "int") v

  unfoldable pub require_float : List ℕ → Value → Checked
  unfolding mismatch
  require_float context (float bits) = Checked.accepted (float bits)
  require_float context (int n) = Checked.accepted (float (doubles.nearest n))
  require_float context v = mismatch context (ascii "float") v

  unfoldable pub require_kind : Value → List ℕ → List ℕ → Checked
  unfolding require_string require_int require_float require_bool require_object require_array
      same_bytes
  require_kind v kind context =
      if same_bytes kind (ascii "string")
      then require_string context v
      else if same_bytes kind (ascii "int")
      then require_int context v
      else if same_bytes kind (ascii "float")
      then require_float context v
      else if same_bytes kind (ascii "bool")
      then require_bool context v
      else if same_bytes kind (ascii "object")
      then require_object context v
      else if same_bytes kind (ascii "array")
      then require_array context v
      else Checked.thrown (context ++ ascii ": unknown JSON kind `" ++ kind ++ ascii "`")

-- `map_find_entry`
unfoldable pub find_entry : List ℕ → Entries → Option Value
unfolding same_bytes
find_entry key empty = none
find_entry key (entry k v rest) = if same_bytes k key then some v else find_entry key rest

unfoldable pub field_required : Value → List ℕ → List ℕ → Checked
unfolding find_entry
field_required (object entries) key context = elim (find_entry key entries) [
  | some v ↦ Checked.accepted v
  | none ↦ Checked.thrown (context ++ ascii ": missing required field `" ++ key ++ ascii "`")
]
field_required v key context =
    Checked.thrown (context ++ ascii ": expected object before reading field `" ++ key ++ ascii "`")
