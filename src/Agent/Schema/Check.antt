-- ===== src/Agent/Schema/Check.antt =====
-- `checkParams`, `checkValue` and `validateToolArgs` of schema.go.
use Prim.Native.String.{String}
use text.Mathlib.Text.{◌==◌}
use gin_bear.Base.{
  ◌+◌, ◌%◌, ◌^◌, ◌&&◌, ◌||◌, not, Bool, true, false, Option, none, some, List, [], if◌then◌else◌,
  any, eqb,
}
use gin_bear.Base.Int.{ℤ, pos, negsuc, pos_part, neg_part}
use gin_bear.Base.Text.{lowered_is}

-- What `encoding/json` decodes into `any`. A float64 is `mantissa * 2 ^ exponent`.
mutual
  pub data Json : Type 0 where
    null : Json
    boolean : Bool → Json
    number : (mantissa exponent : ℤ) → Json
    string : String → Json
    array : Items → Json
    object : Members → Json

  pub data Items : Type 0 where
    nil : Items
    cons : Json → Items → Items

  pub data Members : Type 0 where
    end : Members
    member : String → Json → Members → Members

-- `einoParamMirror`, and the map of them, whose order Go leaves open.
mutual
  pub data Param : Type 0 where
    param :
        (type desc : String) (enum : List String) (required : Bool) (sub : Params) (elem : Elem)
        → Param

  pub data Params : Type 0 where
    empty : Params
    field : String → Param → Params → Params

  pub data Elem : Type 0 where
    absent : Elem
    present : Param → Elem

pub data SchemaErr : Type 0 where
  missing unknown_parameter must_be_string not_in_enum must_be_number must_be_integer : SchemaErr
  must_be_boolean must_be_array must_be_object must_be_null unknown_type : SchemaErr

abbrev pub is_required : Param → Bool
is_required (param type desc enum required sub elem) = required

-- `args[name]`.
unfoldable pub lookup_member : String → Members → Option Json
lookup_member name end = none
lookup_member name (member n v ms) = if n == name then some v else lookup_member name ms

-- `params[name]`, whether it is there.
unfoldable pub declares : Params → String → Bool
declares empty name = false
declares (field n p ps) name = n == name || declares ps name

-- The loop over the arguments: none is undeclared.
unfoldable pub all_declared : Params → Members → Bool
all_declared ps end = true
all_declared ps (member n v ms) = declares ps n && all_declared ps ms

-- `containsString`.
unfoldable pub contains_string : List String → String → Bool
contains_string values want = any (λ v. v == want) values

abbrev pub is_nil : List String → Bool
is_nil [] = true
is_nil _ = false

abbrev pub has_params : Params → Bool
has_params empty = false
has_params _ = true

-- `math.Trunc(number) == number`.
unfoldable pub is_integral : ℤ → ℤ → Bool
is_integral m (pos e) = true
is_integral m (negsuc e) = eqb ((pos_part m + neg_part m) % 2 ^ (e + 1)) 0

abbrev pub require : Bool → SchemaErr → Option SchemaErr
require true e = none
require false e = some e

-- The first error, as in `if err := …; err != nil { return err }`.
infixl 6 ◌then_check◌
abbrev pub ◌then_check◌ : Option SchemaErr → Option SchemaErr → Option SchemaErr
none then_check r = r
some e then_check r = some e

abbrev pub check_string : List String → Json → Option SchemaErr
check_string enum (string s) = require (is_nil enum || contains_string enum s) not_in_enum
check_string enum _ = some must_be_string

abbrev pub check_number : Json → Option SchemaErr
check_number (number m e) = none
check_number _ = some must_be_number

abbrev pub check_integer : Json → Option SchemaErr
check_integer (number m e) = require (is_integral m e) must_be_integer
check_integer _ = some must_be_integer

abbrev pub check_boolean : Json → Option SchemaErr
check_boolean (boolean b) = none
check_boolean _ = some must_be_boolean

abbrev pub check_null : Json → Option SchemaErr
check_null null = none
check_null _ = some must_be_null

-- The loop over the items of an array, with the check of one item.
unfoldable pub check_each : (Json → Option SchemaErr) → Items → Option SchemaErr
check_each check nil = none
check_each check (cons v vs) = check v then_check check_each check vs

abbrev pub check_array : (Items → Option SchemaErr) → Json → Option SchemaErr
check_array check (array vs) = check vs
check_array check _ = some must_be_array

abbrev pub check_object : (Members → Option SchemaErr) → Json → Option SchemaErr
check_object check (object ms) = check ms
check_object check _ = some must_be_object

-- One declared parameter: what is missing may be optional.
abbrev pub check_member : Bool → (Json → Option SchemaErr) → Option Json → Option SchemaErr
check_member required check none = require (not required) missing
check_member required check (some v) = check v

abbrev pub and_all : Bool → Option SchemaErr → Option SchemaErr
and_all declared e = e then_check require declared unknown_parameter

-- The `switch` of `checkValue`.
abbrev pub by_type :
    String
    → List String
    → (Items → Option SchemaErr)
    → (Members → Option SchemaErr)
    → Json
    → Option SchemaErr
by_type type enum items members v =
    if lowered_is type "" || lowered_is type "string"
    then check_string enum v
    else if lowered_is type "number"
    then check_number v
    else if lowered_is type "integer"
    then check_integer v
    else if lowered_is type "boolean"
    then check_boolean v
    else if lowered_is type "array"
    then check_array items v
    else if lowered_is type "object"
    then check_object members v
    else if lowered_is type "null"
    then check_null v
    else some unknown_type

unfoldable mutual
  -- `checkValue`.
  pub check_value : Param → Json → Option SchemaErr
  check_value (param type desc enum required sub elem) v =
      by_type type enum (check_elem elem) (check_members sub) v

  -- The items of an array against `ElemInfo`, if there is one.
  pub check_elem : Elem → Items → Option SchemaErr
  check_elem absent vs = none
  check_elem (present p) vs = check_each (check_value p) vs

  -- The nested object of `checkValue`: nothing is checked where no member is declared.
  pub check_members : Params → Members → Option SchemaErr
  check_members empty ms = none
  check_members (field n p ps) ms = and_all (all_declared (field n p ps) ms) (
      check_member (is_required p) (check_value p) (lookup_member n ms)
      then_check check_fields ps ms)

  -- The loop of `checkParams` over the declared parameters.
  pub check_fields : Params → Members → Option SchemaErr
  check_fields empty ms = none
  check_fields (field n p ps) ms =
      check_member (is_required p) (check_value p) (lookup_member n ms)
      then_check check_fields ps ms

-- `checkParams`.
unfoldable pub check_params : Params → Members → Option SchemaErr
check_params ps args = and_all (all_declared ps args) (check_fields ps args)

-- `validateToolArgs` behind `declaredParams`: a tool that declares nothing is not checked.
unfoldable pub validate_tool_args : Option Params → Members → Option SchemaErr
validate_tool_args none args = none
validate_tool_args (some ps) args = check_params ps args
