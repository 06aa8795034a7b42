-- ===== src/Base/Json.antt =====
-- The JSON values that the components carry (`serde_json::Value`), with the accessors they call.
use Prim.Native.Nat.{ℕ}
use Prim.Native.String.{String}
use mathlib.Core.Bool.{Bool}
use mathlib.Core.Option.{Option, none, some}
use text.Mathlib.Text.{◌==◌ as str_eq}
use mneme_substrate.Base.Tests.{if◌then◌else◌}

-- A number is a natural, a negative integer or the text of a float.
pub data Number : Type 0 where
  pos_int neg_int : ℕ → Number
  float : String → Number

mutual
  pub data Value : Type 0 where
    null : Value
    bool : Bool → Value
    number : Number → Value
    string : String → Value
    array : Items → Value
    object : Fields → Value

  pub data Items : Type 0 where
    nil : Items
    cons : Value → Items → Items

  pub data Fields : Type 0 where
    end : Fields
    field : String → Value → Fields → Fields

abbrev pub find_field : String → Fields → Option Value
find_field k end = none
find_field k (field j v fs) = if str_eq j k then some v else find_field k fs

-- `Value::get` with a key: a value that is no object has no fields.
abbrev pub get : String → Value → Option Value
get k (object fs) = find_field k fs
get k _ = none

abbrev pub as_str : Value → Option String
as_str (string s) = some s
as_str _ = none
