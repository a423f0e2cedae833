-- ===== src/Web/Plugin/Shapes.antt =====
-- The tables of the dispatcher of pkg/bear/plugin.go over every history of registrations.
use Prim.Native.String.{String}
use text.Mathlib.Text.{◌==◌}
use text.Mathlib.TextEquality.{eq_iff}
use gin_bear.Base.{
  ◌≡◌, refl, sym, ap, ◌∙◌, inl, inr, Bool, true, false, Bool-cases, Option, none, some, List, [],
  ◌∷◌, ◌++◌, any, if◌then◌else◌,
}
use gin_bear.Web.Plugin.{Route, MethodRoutes}
use gin_bear.Web.Plugin.Paths.{plugin_route_shape, new_plugin_route}
use gin_bear.Web.Plugin.Table.{
  RegisterErr, conflicts_with, delete_entry, is_there, no_routes, add_route, taken_by_other,
  register_route, unregister_route,
}

abbrev pub is_listed : String → List String → Bool
is_listed path order = any (λ x. x == path) order

listed_last : (path : String) (order : List String) → is_listed path (order ++ path ∷ []) ≡ true
listed_last path [] = rw ((eq_iff path path).1 refl) refl
listed_last path (x ∷ order) = elim (Bool-cases (x == path)) [
  | inl same ↦ rw same refl
  | inr other ↦ rw other (listed_last path order)
]

listed_more :
    (path other : String) (order : List String)
    → is_listed path order ≡ true
    → is_listed path (order ++ other ∷ []) ≡ true
listed_more path other [] h = absurd (cc)
listed_more path other (x ∷ order) h = elim (Bool-cases (x == path)) [
  | inl same ↦ rw same refl
  | inr differs ↦ rw differs (listed_more path other order (rw differs at h))
]

module _ {H : Type 0} where
  -- Every registered path has the route of its segments, stands in the order, and owns its shape.
  pub record Sound (table : MethodRoutes H) : Type 0 where
    pub route_of :
        (path : String) (r : Route H)
        → table.routes path ≡ some r
        → (h : H) × (r ≡ new_plugin_route path h)
    pub listed :
        (path : String) (r : Route H)
        → table.routes path ≡ some r
        → is_listed path table.order ≡ true
    pub owns_shape :
        (path : String) (r : Route H)
        → table.routes path ≡ some r
        → table.shapes (plugin_route_shape path) ≡ some path

  pub no_routes-Sound : Sound no_routes
  no_routes-Sound = record {
    route_of = λ path r h. absurd (cc);
    listed = λ path r h. absurd (cc);
    owns_shape = λ path r h. absurd (cc);
  }

  -- Two registered paths of one shape are the same.
  pub shape_owner :
      {table : MethodRoutes H} (sound : Sound table) (p q : String) (r r' : Route H)
      → table.routes p ≡ some r
      → table.routes q ≡ some r'
      → plugin_route_shape p ≡ plugin_route_shape q
      → p ≡ q
  shape_owner sound p q r r' hp hq same =
      let owner = sound.owns_shape p r hp in let other = sound.owns_shape q r' hq in cc

  module _ (table : MethodRoutes H) (sound : Sound table) (path : String) where
    module _ (handler : H)
        (free : taken_by_other path (table.shapes (plugin_route_shape path)) ≡ none) where
      free_owner : (p : String) → table.shapes (plugin_route_shape path) ≡ some p → p ≡ path
      free_owner p h = elim (Bool-cases (p == path)) [
        | inl same ↦ (eq_iff p path).0 same
        | inr other ↦ absurd (let taken = rw other at (rw h at free) in cc)
      ]

      listed_after :
          (p : String)
          → (b : Bool) → is_listed p table.order ≡ true
          → is_listed p (if b then table.order else table.order ++ path ∷ []) ≡ true
      listed_after p true h = h
      listed_after p false h = listed_more p path table.order h

      listed_now :
          (o : Option (Route H))
          → table.routes path ≡ o
          → is_listed path (if is_there o then table.order else table.order ++ path ∷ []) ≡ true
      listed_now none h = listed_last path table.order
      listed_now (some r) h = sound.listed path r h

      add_route-Sound : Sound (add_route path handler table)
      add_route-Sound = record {
        route_of = λ p r h. elim (Bool-cases (p == path)) [
          | inl same ↦
              let new = rw same at h in let is_path = (eq_iff p path).0 same in (handler, cc)
          | inr other ↦ sound.route_of p r (rw other at h)
        ];
        listed = λ p r h. elim (Bool-cases (p == path)) [
          | inl same ↦ rw ((eq_iff p path).0 same) (listed_now _ refl)
          | inr other ↦ listed_after p _ (sound.listed p r (rw other at h))
        ];
        owns_shape = λ p r h. elim (Bool-cases (p == path)) [
          | inl same ↦
              rw ((eq_iff p path).0 same)
                (rw ((eq_iff (plugin_route_shape path) (plugin_route_shape path)).1 refl) refl)
          | inr other ↦
              let owned = sound.owns_shape p r (rw other at h) in
              elim (Bool-cases (plugin_route_shape p == plugin_route_shape path)) [
                | inl clash ↦
                    let is_path =
                      free_owner p (ap table.shapes (sym ((eq_iff _ _).0 clash)) ∙ owned) in
                    absurd (let same = (eq_iff p path).1 is_path in cc)
                | inr apart ↦ rw apart owned
              ]
        ];
      }

    pub register_route-Sound : (handler : H) → Sound (register_route path handler table).0
    unfolding register_route
    register_route-Sound handler = go _ refl
      where
        go :
            (o : Option String)
            → taken_by_other path (table.shapes (plugin_route_shape path)) ≡ o
            → Sound
                (elim o as (λ x. MethodRoutes H × Option RegisterErr) [
                  | some registered ↦ (table, some (conflicts_with registered))
                  | none ↦ (add_route path handler table, none)
                ]).0
        go (some registered) h = sound
        go none free = add_route-Sound handler free

    owner_apart :
        (o : Option (Route H))
        → table.routes path ≡ o
        → (p : String) (r : Route H) → (p == path) ≡ false
        → table.routes p ≡ some r
        → (if is_there o then delete_entry (plugin_route_shape path) table.shapes else table.shapes)
            (plugin_route_shape p)
          ≡ some p
    owner_apart none h p r other there = sound.owns_shape p r there
    owner_apart (some r') h p r other there =
        elim (Bool-cases (plugin_route_shape p == plugin_route_shape path)) [
          | inl clash ↦
              let is_path = shape_owner sound p path r r' there h ((eq_iff _ _).0 clash) in
              absurd (let same = (eq_iff p path).1 is_path in cc)
          | inr apart ↦ rw apart (sound.owns_shape p r there)
        ]

    pub unregister_route-Sound : Sound (unregister_route path table)
    unfolding unregister_route
    unregister_route-Sound = record {
      route_of = λ p r h. elim (Bool-cases (p == path)) [
        | inl same ↦ absurd (let h' = rw same at h in cc)
        | inr other ↦ sound.route_of p r (rw other at h)
      ];
      listed = λ p r h. elim (Bool-cases (p == path)) [
        | inl same ↦ absurd (let h' = rw same at h in cc)
        | inr other ↦ sound.listed p r (rw other at h)
      ];
      owns_shape = λ p r h. elim (Bool-cases (p == path)) [
        | inl same ↦ absurd (let h' = rw same at h in cc)
        | inr other ↦ owner_apart _ refl p r other (rw other at h)
      ];
    }
