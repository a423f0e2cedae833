-- ===== src/Agent/Schema/Valid.antt =====
-- The arguments that the check of schema.go is to accept.
use Prim.Native.String.{String}
use text.Mathlib.Text.{◌==◌}
use text.Mathlib.TextEquality.{eq_iff}
use gin_bear.Base.{
  ◌≡◌, refl, inl, inr, ◌||◌, Bool, true, false, Bool-cases, both, Option, none, some, List, [], ◌∷◌,
  arith,
}
use gin_bear.Base.Int.{ℤ}
use gin_bear.Base.Text.{lowered_is}
use gin_bear.Agent.Schema.Check.{
  Json, null, boolean, number, string, array, object, Items, nil, cons, Members, end, member, Param,
  param, Params, empty, field, Elem, absent, present, is_required, lookup_member, declares,
  all_declared, contains_string, is_nil, is_integral,
}
use gin_bear.Agent.Schema.Names.{NamesString}

-- A parameter name is declared.
pub data Declared (name : String) : Params → Type 0 where
  first : {p : Param} {ps : Params} → Declared name (field name p ps)
  later : {n : String} {p : Param} {ps : Params} → Declared name ps → Declared name (field n p ps)

-- The closed world: every argument's name is declared.
pub data Closed (ps : Params) : Members → Type 0 where
  no_more : Closed ps end
  one_more :
      {n : String} {v : Json} {ms : Members}
      → Declared n ps
      → Closed ps ms
      → Closed ps (member n v ms)

-- A string stands in a list.
pub data Listed (s : String) : List String → Type 0 where
  listed_first : {ss : List String} → Listed s (s ∷ ss)
  listed_later : {t : String} {ss : List String} → Listed s ss → Listed s (t ∷ ss)

-- An enumeration that is not empty admits its members only.
pub data Admitted (s : String) : List String → Type 0 where
  unrestricted : Admitted s []
  listed : {enum : List String} → Listed s enum → Admitted s enum

-- The values of a declared shape, to any depth.
mutual
  pub data Valid : Param → Json → Type 0 where
    valid_string :
        {type desc : String} {enum : List String} {required : Bool} {sub : Params} {elem : Elem}
        {s : String}
        → NamesString type
        → Admitted s enum
        → Valid (param type desc enum required sub elem) (string s)
    valid_number :
        {type desc : String} {enum : List String} {required : Bool} {sub : Params} {elem : Elem}
        {m e : ℤ}
        → lowered_is type "number" ≡ true
        → Valid (param type desc enum required sub elem) (number m e)
    valid_integer :
        {type desc : String} {enum : List String} {required : Bool} {sub : Params} {elem : Elem}
        {m e : ℤ}
        → lowered_is type "integer" ≡ true
        → is_integral m e ≡ true
        → Valid (param type desc enum required sub elem) (number m e)
    valid_boolean :
        {type desc : String} {enum : List String} {required : Bool} {sub : Params} {elem : Elem}
        {b : Bool}
        → lowered_is type "boolean" ≡ true
        → Valid (param type desc enum required sub elem) (boolean b)
    valid_array :
        {type desc : String} {enum : List String} {required : Bool} {sub : Params} {elem : Elem}
        {vs : Items}
        → lowered_is type "array" ≡ true
        → ValidItems elem vs
        → Valid (param type desc enum required sub elem) (array vs)
    valid_object :
        {type desc : String} {enum : List String} {required : Bool} {sub : Params} {elem : Elem}
        {ms : Members}
        → lowered_is type "object" ≡ true
        → ValidMembers sub ms
        → Valid (param type desc enum required sub elem) (object ms)
    valid_null :
        {type desc : String} {enum : List String} {required : Bool} {sub : Params} {elem : Elem}
        → lowered_is type "null" ≡ true
        → Valid (param type desc enum required sub elem) null

  pub data ValidItems : Elem → Items → Type 0 where
    any_items : {vs : Items} → ValidItems absent vs
    no_items : {p : Param} → ValidItems (present p) nil
    one_item :
        {p : Param} {v : Json} {vs : Items}
        → Valid p v
        → ValidItems (present p) vs
        → ValidItems (present p) (cons v vs)

  -- A nested object that declares no member admits any; every other one is closed like the arguments.
  pub data ValidMembers : Params → Members → Type 0 where
    any_members : {ms : Members} → ValidMembers empty ms
    the_members :
        {n : String} {p : Param} {ps : Params} {ms : Members}
        → Fulfils ms (field n p ps)
        → Closed (field n p ps) ms
        → ValidMembers (field n p ps) ms

  -- One declared parameter: left out only if it is optional, and otherwise of its shape.
  pub data Served : Param → Option Json → Type 0 where
    left_out : {p : Param} → is_required p ≡ false → Served p none
    given : {p : Param} {v : Json} → Valid p v → Served p (some v)

  -- Every declared parameter is served by the arguments.
  pub data Fulfils : Members → Params → Type 0 where
    all_served : {ms : Members} → Fulfils ms empty
    one_served :
        {n : String} {p : Param} {ps : Params} {ms : Members}
        → Served p (lookup_member n ms)
        → Fulfils ms ps
        → Fulfils ms (field n p ps)

declares-Declared : (ps : Params) (name : String) → declares ps name ≡ true → Declared name ps
unfolding declares
declares-Declared empty name h = absurd (cc)
declares-Declared (field n p ps) name h = elim (Bool-cases (n == name)) [
  | inl same ↦ rw ((eq_iff n name).0 same) first
  | inr other ↦ later (declares-Declared ps name (ground arith))
]

Declared-declares : {name : String} {ps : Params} → Declared name ps → declares ps name ≡ true
unfolding declares
Declared-declares {name} first = rw ((eq_iff name name).1 refl)
Declared-declares {name} (later {n} {ps} d) = ground (arith, Declared-declares d)

pub Closed-sound : (ps : Params) (ms : Members) → all_declared ps ms ≡ true → Closed ps ms
unfolding all_declared
Closed-sound ps end h = no_more
Closed-sound ps (member n v ms) h =
    let (here, rest) = both _ _ h in
    one_more (declares-Declared ps n here) (Closed-sound ps ms rest)

pub Closed-complete : {ps : Params} {ms : Members} → Closed ps ms → all_declared ps ms ≡ true
unfolding all_declared
Closed-complete no_more = refl
Closed-complete (one_more d c) = rw (Declared-declares d) (Closed-complete c)

contains-Listed : (enum : List String) (s : String) → contains_string enum s ≡ true → Listed s enum
unfolding contains_string
contains-Listed [] s h = absurd (cc)
contains-Listed (t ∷ ts) s h = elim (Bool-cases (t == s)) [
  | inl same ↦ rw ((eq_iff t s).0 same) listed_first
  | inr other ↦ listed_later (contains-Listed ts s (rw other at h))
]

Listed-contains : {s : String} {enum : List String} → Listed s enum → contains_string enum s ≡ true
unfolding contains_string
Listed-contains {s} listed_first = rw ((eq_iff s s).1 refl)
Listed-contains {s} (listed_later {t} l) = elim (Bool-cases (t == s)) [
  | inl same ↦ rw same refl
  | inr other ↦ rw other (Listed-contains l)
]

pub admits-Admitted :
    (enum : List String) (s : String)
    → (is_nil enum || contains_string enum s) ≡ true
    → Admitted s enum
admits-Admitted [] s h = unrestricted
admits-Admitted (t ∷ ts) s h = listed (contains-Listed (t ∷ ts) s h)

pub Admitted-admits :
    {enum : List String} {s : String}
    → Admitted s enum
    → (is_nil enum || contains_string enum s) ≡ true
Admitted-admits unrestricted = refl
Admitted-admits {s = s} (listed {enum} l) = ground (arith, Listed-contains l)
