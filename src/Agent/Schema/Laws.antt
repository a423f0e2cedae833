-- ===== src/Agent/Schema/Laws.antt =====
-- The check of schema.go and the arguments that it is to accept.
use Prim.Native.String.{String}
use gin_bear.Base.{
  ◌≡◌, refl, ◌∙◌, ◌↔◌, inl, inr, Bool, true, false, Bool-cases, Option, none, some, List,
}
use gin_bear.Base.Text.{lowered_is}
use gin_bear.Agent.Schema.Check.{
  Json, null, boolean, number, string, array, object, Items, nil, cons, Members, Param, param,
  Params, empty, field, Elem, absent, present, SchemaErr, is_required, lookup_member, all_declared,
  check_value, check_fields, check_params, check_member, check_elem, check_members, check_each,
  check_string, check_number, check_integer, check_boolean, check_null, check_array, check_object,
  require, not_in_enum, must_be_integer, ◌then_check◌, unknown_parameter,
}
use gin_bear.Agent.Schema.Names.{
  NamesString, by_string, by_number, by_integer, by_boolean, by_array, by_object, by_null,
  by_type_ind,
}
use gin_bear.Agent.Schema.Valid.{
  Closed, Valid, valid_string, valid_number, valid_integer, valid_boolean, valid_array,
  valid_object, valid_null, ValidItems, any_items, no_items, one_item, ValidMembers, any_members,
  the_members, Served, left_out, given, Fulfils, all_served, one_served, Closed-sound,
  Closed-complete, admits-Admitted, Admitted-admits,
}

-- Both of two checks pass.
then-eq-none : (a b : Option SchemaErr) → (a then_check b) ≡ none → (a ≡ none) × (b ≡ none)
then-eq-none none b h = (refl, h)
then-eq-none (some e) b h = absurd (cc)

require-eq-none : (b : Bool) (e : SchemaErr) → require b e ≡ none → b ≡ true
require-eq-none true e h = refl
require-eq-none false e h = absurd (cc)

module _ (type desc : String) (enum : List String) (required : Bool) (sub : Params)
    (elem_ : Elem) where
  abbrev shape : Param
  shape = param type desc enum required sub elem_

  string_sound : NamesString type → (v : Json) → check_string enum v ≡ none → Valid shape v
  string_sound named (string s) h =
      valid_string named (admits-Admitted enum s (require-eq-none _ _ h))
  string_sound named null h = absurd (cc)
  string_sound named (boolean b) h = absurd (cc)
  string_sound named (number m e) h = absurd (cc)
  string_sound named (array vs) h = absurd (cc)
  string_sound named (object ms) h = absurd (cc)

  number_sound :
      lowered_is type "number" ≡ true → (v : Json) → check_number v ≡ none → Valid shape v
  number_sound named (number m e) h = valid_number named
  number_sound named null h = absurd (cc)
  number_sound named (boolean b) h = absurd (cc)
  number_sound named (string s) h = absurd (cc)
  number_sound named (array vs) h = absurd (cc)
  number_sound named (object ms) h = absurd (cc)

  integer_sound :
      lowered_is type "integer" ≡ true → (v : Json) → check_integer v ≡ none → Valid shape v
  integer_sound named (number m e) h = valid_integer named (require-eq-none _ _ h)
  integer_sound named null h = absurd (cc)
  integer_sound named (boolean b) h = absurd (cc)
  integer_sound named (string s) h = absurd (cc)
  integer_sound named (array vs) h = absurd (cc)
  integer_sound named (object ms) h = absurd (cc)

  boolean_sound :
      lowered_is type "boolean" ≡ true → (v : Json) → check_boolean v ≡ none → Valid shape v
  boolean_sound named (boolean b) h = valid_boolean named
  boolean_sound named null h = absurd (cc)
  boolean_sound named (number m e) h = absurd (cc)
  boolean_sound named (string s) h = absurd (cc)
  boolean_sound named (array vs) h = absurd (cc)
  boolean_sound named (object ms) h = absurd (cc)

  null_sound : lowered_is type "null" ≡ true → (v : Json) → check_null v ≡ none → Valid shape v
  null_sound named null h = valid_null named
  null_sound named (boolean b) h = absurd (cc)
  null_sound named (number m e) h = absurd (cc)
  null_sound named (string s) h = absurd (cc)
  null_sound named (array vs) h = absurd (cc)
  null_sound named (object ms) h = absurd (cc)

  array_sound :
      (check : Items → Option SchemaErr)
      → ((vs : Items) → check vs ≡ none → ValidItems elem_ vs)
      → lowered_is type "array" ≡ true
      → (v : Json) → check_array check v ≡ none
      → Valid shape v
  array_sound check sound named (array vs) h = valid_array named (sound vs h)
  array_sound check sound named null h = absurd (cc)
  array_sound check sound named (boolean b) h = absurd (cc)
  array_sound check sound named (number m e) h = absurd (cc)
  array_sound check sound named (string s) h = absurd (cc)
  array_sound check sound named (object ms) h = absurd (cc)

  object_sound :
      (check : Members → Option SchemaErr)
      → ((ms : Members) → check ms ≡ none → ValidMembers sub ms)
      → lowered_is type "object" ≡ true
      → (v : Json) → check_object check v ≡ none
      → Valid shape v
  object_sound check sound named (object ms) h = valid_object named (sound ms h)
  object_sound check sound named null h = absurd (cc)
  object_sound check sound named (boolean b) h = absurd (cc)
  object_sound check sound named (number m e) h = absurd (cc)
  object_sound check sound named (string s) h = absurd (cc)
  object_sound check sound named (array vs) h = absurd (cc)

some_ne : {e : SchemaErr} → some e ≡ none → ⊥
some_ne h = cc

each_sound :
    (p : Param)
    → ((v : Json) → check_value p v ≡ none → Valid p v)
    → (vs : Items) → check_each (check_value p) vs ≡ none
    → ValidItems (present p) vs
unfolding check_each
each_sound p sound nil h = no_items
each_sound p sound (cons v vs) h =
    let (here, rest) = then-eq-none _ _ h in one_item (sound v here) (each_sound p sound vs rest)

Served-sound :
    (p : Param)
    → ((v : Json) → check_value p v ≡ none → Valid p v)
    → (o : Option Json) → check_member (is_required p) (check_value p) o ≡ none
    → Served p o
Served-sound p sound none h = elim (Bool-cases (is_required p)) [
  | inl needed ↦ absurd (some_ne (rw needed at h))
  | inr optional ↦ left_out optional
]
Served-sound p sound (some v) h = given (sound v h)

mutual
  unfolding check_value

  value_sound : (p : Param) (v : Json) → check_value p v ≡ none → Valid p v
  value_sound (param type desc enum required sub elem_) v =
      by_type_ind (λ o. o ≡ none → Valid (param type desc enum required sub elem_) v) type enum _ _
        v (λ named. string_sound type desc enum required sub elem_ named v)
        (λ named. number_sound type desc enum required sub elem_ named v)
        (λ named. integer_sound type desc enum required sub elem_ named v)
        (λ named. boolean_sound type desc enum required sub elem_ named v)
        (λ named.
          array_sound type desc enum required sub elem_ _ (λ vs. items_sound elem_ vs) named v)
        (λ named.
          object_sound type desc enum required sub elem_ _ (λ ms. members_sound sub ms) named v)
        (λ named. null_sound type desc enum required sub elem_ named v) (λ h. absurd (some_ne h))

  items_sound : (el : Elem) (vs : Items) → check_elem el vs ≡ none → ValidItems el vs
  items_sound absent vs h = any_items
  items_sound (present p) vs h = each_sound p (λ v. value_sound p v) vs h

  members_sound : (ps : Params) (ms : Members) → check_members ps ms ≡ none → ValidMembers ps ms
  members_sound empty ms h = any_members
  members_sound (field n p ps) ms h =
      let (fields, closed) = then-eq-none _ _ h in
      let (here, rest) = then-eq-none _ _ fields in
      the_members
        (one_served (Served-sound p (λ v. value_sound p v) (lookup_member n ms) here)
          (fields_sound ps ms rest))
        (Closed-sound (field n p ps) ms (require-eq-none _ _ closed))

  fields_sound : (ps : Params) (ms : Members) → check_fields ps ms ≡ none → Fulfils ms ps
  fields_sound empty ms h = all_served
  fields_sound (field n p ps) ms h =
      let (here, rest) = then-eq-none _ _ h in
      one_served (Served-sound p (λ v. value_sound p v) (lookup_member n ms) here)
        (fields_sound ps ms rest)

each_complete :
    (p : Param)
    → ((v : Json) → Valid p v → check_value p v ≡ none)
    → (vs : Items) → ValidItems (present p) vs
    → check_each (check_value p) vs ≡ none
unfolding check_each
each_complete p complete nil no_items = refl
each_complete p complete (cons v vs) (one_item h hs) =
    rw (complete v h) (each_complete p complete vs hs)

Served-complete :
    (p : Param)
    → ((v : Json) → Valid p v → check_value p v ≡ none)
    → (o : Option Json) → Served p o
    → check_member (is_required p) (check_value p) o ≡ none
Served-complete p complete none (left_out h) = rw h refl
Served-complete p complete (some v) (given h) = complete v h

both_none : {a b : Option SchemaErr} → a ≡ none → b ≡ none → (a then_check b) ≡ none
both_none h k = rw h k

undeclared-Closed :
    {ps : Params} {ms : Members}
    → Closed ps ms
    → require (all_declared ps ms) unknown_parameter ≡ none
undeclared-Closed c = rw (Closed-complete c) refl

passes_if : {b : Bool} (e : SchemaErr) → b ≡ true → require b e ≡ none
passes_if e h = rw h refl

mutual
  unfolding check_value

  value_complete : (p : Param) (v : Json) → Valid p v → check_value p v ≡ none
  value_complete (param type desc enum required sub elem_) (string s) (valid_string named ok) =
      by_string type enum (check_elem elem_) (check_members sub) (string s) named
      ∙ passes_if not_in_enum (Admitted-admits ok)
  value_complete (param type desc enum required sub elem_) (number m e) (valid_number named) =
      by_number type enum (check_elem elem_) (check_members sub) (number m e) named
  value_complete (param type desc enum required sub elem_) (number m e) (valid_integer named ok) =
      by_integer type enum (check_elem elem_) (check_members sub) (number m e) named
      ∙ passes_if must_be_integer ok
  value_complete (param type desc enum required sub elem_) (boolean b) (valid_boolean named) =
      by_boolean type enum (check_elem elem_) (check_members sub) (boolean b) named
  value_complete (param type desc enum required sub elem_) (array vs) (valid_array named ok) =
      by_array type enum (check_elem elem_) (check_members sub) (array vs) named
      ∙ items_complete elem_ vs ok
  value_complete (param type desc enum required sub elem_) (object ms) (valid_object named ok) =
      by_object type enum (check_elem elem_) (check_members sub) (object ms) named
      ∙ members_complete sub ms ok
  value_complete (param type desc enum required sub elem_) null (valid_null named) =
      by_null type enum (check_elem elem_) (check_members sub) null named

  items_complete : (el : Elem) (vs : Items) → ValidItems el vs → check_elem el vs ≡ none
  items_complete absent vs h = refl
  items_complete (present p) vs h = each_complete p (λ v. value_complete p v) vs h

  members_complete : (ps : Params) (ms : Members) → ValidMembers ps ms → check_members ps ms ≡ none
  members_complete empty ms h = refl
  members_complete (field n p ps) ms (the_members (one_served s f) c) =
      both_none
        (both_none (Served-complete p (λ v. value_complete p v) (lookup_member n ms) s)
          (fields_complete ps ms f))
        (undeclared-Closed c)

  fields_complete : (ps : Params) (ms : Members) → Fulfils ms ps → check_fields ps ms ≡ none
  fields_complete empty ms h = refl
  fields_complete (field n p ps) ms (one_served s f) =
      both_none (Served-complete p (λ v. value_complete p v) (lookup_member n ms) s)
        (fields_complete ps ms f)

check_params_sound :
    (ps : Params) (ms : Members)
    → (check_fields ps ms then_check require (all_declared ps ms) unknown_parameter) ≡ none
    → Fulfils ms ps × Closed ps ms
check_params_sound ps ms h =
    let (fields, closed) = then-eq-none _ _ h in
    (fields_sound ps ms fields, Closed-sound ps ms (require-eq-none _ _ closed))

-- The arguments of a call are accepted exactly when no argument is undeclared, every required
-- parameter is there, and every declared parameter that is there is a value of its declared shape, to
-- any depth: of the type named, a string one of the enumeration, an integer without a fraction, an
-- array of items of the declared shape, and an object that is closed and complete in the same way
-- unless it declares no member.
pub check_params_iff :
    (ps : Params) (ms : Members) → (check_params ps ms ≡ none) ↔ (Fulfils ms ps × Closed ps ms)
unfolding check_params
check_params_iff ps ms =
    (check_params_sound ps ms, λ (f, c). both_none (fields_complete ps ms f) (undeclared-Closed c))
