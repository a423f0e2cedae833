-- ===== src/Agent/Schema/Names.antt =====
-- The `switch` on a type's name in schema.go.
use Prim.Native.String.{String}
use gin_bear.Base.{
  ℕ, ◌≡◌, refl, ap, ◌∙◌, eqb_iff, inl, inr, ◌⊎◌, true, false, Bool-cases, both, Option, some, List,
  [], ◌∷◌, map,
}
use gin_bear.Base.Text.{codes, same_codes, lower_code, lowered_is}
use gin_bear.Agent.Schema.Check.{
  Json, Items, Members, SchemaErr, check_string, check_number, check_integer, check_boolean,
  check_null, check_array, check_object, by_type, unknown_type,
}

-- The names of the type of strings; no name is that type's too.
abbrev pub NamesString : String → Type 0
NamesString type = (lowered_is type "" ≡ true) ⊎ (lowered_is type "string" ≡ true)

same_codes-eq : (xs ys : List ℕ) → same_codes xs ys ≡ true → xs ≡ ys
same_codes-eq [] [] h = refl
same_codes-eq [] (y ∷ ys) h = absurd (cc)
same_codes-eq (x ∷ xs) [] h = absurd (cc)
same_codes-eq (x ∷ xs) (y ∷ ys) h =
    let (here, rest) = both _ _ h in
    ap (λ z. z ∷ xs) ((eqb_iff x y).0 here) ∙ ap (λ zs. y ∷ zs) (same_codes-eq xs ys rest)

-- A name that is one type's is no other's.
other_name :
    (type a b : String)
    → lowered_is type a ≡ true
    → same_codes (codes a) (codes b) ≡ false
    → lowered_is type b ≡ false
unfolding lowered_is
other_name type a b h differ =
    ap (λ xs. same_codes xs (codes b)) (same_codes-eq (map lower_code (codes type)) (codes a) h)
    ∙ differ

module _ (type : String) (enum : List String) (items : Items → Option SchemaErr)
    (members : Members → Option SchemaErr) (v : Json) where
  abbrev checked : Option SchemaErr
  checked = by_type type enum items members v

  pub by_string : NamesString type → checked ≡ check_string enum v
  by_string (inl h) = rw h refl
  by_string (inr h) = elim (Bool-cases (lowered_is type "")) [
    | inl blank ↦ rw blank refl
    | inr other ↦ rw (other, h) refl
  ]

  pub by_number : lowered_is type "number" ≡ true → checked ≡ check_number v
  by_number h = rw (other_name type _ "" h refl, other_name type _ "string" h refl, h) refl

  pub by_integer : lowered_is type "integer" ≡ true → checked ≡ check_integer v
  by_integer h =
      rw
        (
          other_name type _ "" h refl,
          other_name type _ "string" h refl,
          other_name type _ "number" h refl,
          h,
        )
        refl

  pub by_boolean : lowered_is type "boolean" ≡ true → checked ≡ check_boolean v
  by_boolean h =
      rw
        (
          other_name type _ "" h refl,
          other_name type _ "string" h refl,
          other_name type _ "number" h refl,
          other_name type _ "integer" h refl,
          h,
        )
        refl

  pub by_array : lowered_is type "array" ≡ true → checked ≡ check_array items v
  by_array h =
      rw
        (
          other_name type _ "" h refl,
          other_name type _ "string" h refl,
          other_name type _ "number" h refl,
          other_name type _ "integer" h refl,
          other_name type _ "boolean" h refl,
          h,
        )
        refl

  pub by_object : lowered_is type "object" ≡ true → checked ≡ check_object members v
  by_object h =
      rw
        (
          other_name type _ "" h refl,
          other_name type _ "string" h refl,
          other_name type _ "number" h refl,
          other_name type _ "integer" h refl,
          other_name type _ "boolean" h refl,
          other_name type _ "array" h refl,
          h,
        )
        refl

  pub by_null : lowered_is type "null" ≡ true → checked ≡ check_null v
  by_null h =
      rw
        (
          other_name type _ "" h refl,
          other_name type _ "string" h refl,
          other_name type _ "number" h refl,
          other_name type _ "integer" h refl,
          other_name type _ "boolean" h refl,
          other_name type _ "array" h refl,
          other_name type _ "object" h refl,
          h,
        )
        refl

pub by_type_ind :
    (P : Option SchemaErr → Type 0) (type : String) (enum : List String)
    (items : Items → Option SchemaErr) (members : Members → Option SchemaErr) (v : Json)
    → (NamesString type → P (check_string enum v))
    → (lowered_is type "number" ≡ true → P (check_number v))
    → (lowered_is type "integer" ≡ true → P (check_integer v))
    → (lowered_is type "boolean" ≡ true → P (check_boolean v))
    → (lowered_is type "array" ≡ true → P (check_array items v))
    → (lowered_is type "object" ≡ true → P (check_object members v))
    → (lowered_is type "null" ≡ true → P (check_null v))
    → P (some unknown_type)
    → P (by_type type enum items members v)
by_type_ind P type enum items members v text num int bool arr obj nul other =
    elim (Bool-cases (lowered_is type "")) [
      | inl h ↦ rw h (text (inl h))
      | inr not_blank ↦ elim (Bool-cases (lowered_is type "string")) [
        | inl h ↦ rw (not_blank, h) (text (inr h))
        | inr not_string ↦
            rw (not_blank, not_string)
              (elim (Bool-cases (lowered_is type "number")) [
                | inl h ↦ rw h (num h)
                | inr not_number ↦ rw not_number (elim (Bool-cases (lowered_is type "integer")) [
                  | inl h ↦ rw h (int h)
                  | inr not_integer ↦
                      rw not_integer (elim (Bool-cases (lowered_is type "boolean")) [
                        | inl h ↦ rw h (bool h)
                        | inr not_boolean ↦
                            rw not_boolean (elim (Bool-cases (lowered_is type "array")) [
                              | inl h ↦ rw h (arr h)
                              | inr not_array ↦
                                  rw not_array (elim (Bool-cases (lowered_is type "object")) [
                                    | inl h ↦ rw h (obj h)
                                    | inr not_object ↦
                                        rw not_object (elim (Bool-cases (lowered_is type "null")) [
                                          | inl h ↦ rw h (nul h)
                                          | inr not_null ↦ rw not_null other
                                        ])
                                  ])
                            ])
                      ])
                ])
              ])
      ]
    ]
