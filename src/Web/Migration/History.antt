-- ===== src/Web/Migration/History.antt =====
-- Looking a version up in the history table of pkg/bear/migration.go.
use Prim.Native.String.{String}
use text.Mathlib.Text.{◌==◌}
use text.Mathlib.TextEquality.{eq_iff}
use gin_bear.Base.{
  ◌≡◌, refl, ap, ◌∙◌, inl, inr, Bool, true, false, Bool-cases, none, some, List, [], ◌∷◌, ◌++◌, any,
  arith,
}
use gin_bear.Web.Migration.{
  Migration, Row, find_row, earliest_dirty, fits, update_rows, delete_rows, count_rows, is_dirty,
  row_of,
}

abbrev pub has_version : String → Row → Bool
has_version version row = row.version == version

-- The history shows the migration under its version, with its name and clean.
abbrev pub InHistory : List Row → Migration → Type 0
InHistory rows m = find_row (has_version m.version) rows ≡ some (row_of false m)

pub find_row-append :
    (p : Row → Bool) (rows more : List Row) (r : Row)
    → find_row p rows ≡ some r
    → find_row p (rows ++ more) ≡ some r
find_row-append p [] more r h = absurd (cc)
find_row-append p (x ∷ rows) more r h = elim (Bool-cases (p x)) [
  | inl fits ↦ rw fits (rw fits at h)
  | inr other ↦ rw other (find_row-append p rows more r (rw other at h))
]

pub find_row-last :
    (p : Row → Bool) (rows : List Row) (r : Row)
    → find_row p rows ≡ none
    → p r ≡ true
    → find_row p (rows ++ r ∷ []) ≡ some r
find_row-last p [] r h fits = rw fits refl
find_row-last p (x ∷ rows) r h fits = elim (Bool-cases (p x)) [
  | inl first ↦ absurd (let h' = rw first at h in cc)
  | inr other ↦ rw other (find_row-last p rows r (rw other at h) fits)
]

pub find_row-fits :
    (p : Row → Bool) (rows : List Row) (r : Row) → find_row p rows ≡ some r → p r ≡ true
find_row-fits p [] r h = absurd (cc)
find_row-fits p (x ∷ rows) r h = elim (Bool-cases (p x)) [
  | inl first ↦ let h' = rw first at h in cc
  | inr other ↦ find_row-fits p rows r (rw other at h)
]

pub row_of-eta :
    (m : Migration) (r : Row)
    → (r.version == m.version) ≡ true
    → (r.name == m.name) ≡ true
    → r.dirty ≡ false
    → r ≡ row_of false m
row_of-eta m r version name clean =
    ap (λ v. record { version = v; name = r.name; dirty = r.dirty }) ((eq_iff _ _).0 version)
    ∙ ap (λ n. record { version = m.version; name = n; dirty = r.dirty }) ((eq_iff _ _).0 name)
    ∙ ap (λ d. record { version = m.version; name = m.name; dirty = d }) clean

pub any-none : (p : Row → Bool) (rows : List Row) → any p rows ≡ false → find_row p rows ≡ none
any-none p [] h = refl
any-none p (x ∷ rows) h = elim (Bool-cases (p x)) [
  | inl first ↦ absurd (let h' = rw first at h in cc)
  | inr other ↦ rw other (any-none p rows (rw other at h))
]

pub find_row-clean :
    (rows : List Row) (r : Row)
    → find_row is_dirty rows ≡ none
    → r.dirty ≡ false
    → find_row is_dirty (rows ++ r ∷ []) ≡ none
find_row-clean [] r clean is_clean = rw is_clean refl
find_row-clean (x ∷ rows) r clean is_clean = elim (Bool-cases x.dirty) [
  | inl dirty ↦ absurd (let h = rw dirty at clean in cc)
  | inr other ↦ rw other (find_row-clean rows r (rw other at clean) is_clean)
]

pub earliest_dirty-clean :
    (less : String → String → Bool) (rows : List Row)
    → find_row is_dirty rows ≡ none
    → earliest_dirty less rows ≡ none
earliest_dirty-clean less [] clean = refl
earliest_dirty-clean less (x ∷ rows) clean = elim (Bool-cases x.dirty) [
  | inl dirty ↦ absurd (let h = rw dirty at clean in cc)
  | inr other ↦ rw other (earliest_dirty-clean less rows (rw other at clean))
]

pub any-fits :
    (version : String) (dirty : Bool) (rows : List Row)
    → any (has_version version) rows ≡ false
    → any (fits version dirty) rows ≡ false
any-fits version dirty [] h = refl
any-fits version dirty (x ∷ rows) h = elim (Bool-cases (x.version == version)) [
  | inl first ↦ absurd (let h' = rw first at h in cc)
  | inr other ↦ rw other (any-fits version dirty rows (rw other at h))
]

pub fits-row_of : (dirty : Bool) (m : Migration) → fits m.version dirty (row_of dirty m) ≡ true
fits-row_of true m = rw ((eq_iff m.version m.version).1 refl) refl
fits-row_of false m = rw ((eq_iff m.version m.version).1 refl) refl

-- A statement on the one row that fits, the last.
module _ (p : Row → Bool) where
  pub update_rows-last :
      (f : Row → Row) (rows : List Row) (r : Row)
      → any p rows ≡ false
      → p r ≡ true
      → update_rows p f (rows ++ r ∷ []) ≡ rows ++ f r ∷ []
  update_rows-last f [] r h fits_r = rw fits_r refl
  update_rows-last f (x ∷ rows) r h fits_r = elim (Bool-cases (p x)) [
    | inl first ↦ absurd (let h' = rw first at h in cc)
    | inr other ↦ rw other (ap (λ rs. x ∷ rs) (update_rows-last f rows r (rw other at h) fits_r))
  ]

  pub delete_rows-last :
      (rows : List Row) (r : Row)
      → any p rows ≡ false
      → p r ≡ true
      → delete_rows p (rows ++ r ∷ []) ≡ rows
  delete_rows-last [] r h fits_r = rw fits_r refl
  delete_rows-last (x ∷ rows) r h fits_r = elim (Bool-cases (p x)) [
    | inl first ↦ absurd (let h' = rw first at h in cc)
    | inr other ↦ rw other (ap (λ rs. x ∷ rs) (delete_rows-last rows r (rw other at h) fits_r))
  ]

  pub count_rows-last :
      (rows : List Row) (r : Row)
      → any p rows ≡ false
      → p r ≡ true
      → count_rows p (rows ++ r ∷ []) ≡ 1
  count_rows-last [] r h fits_r = rw fits_r (omega arith)
  count_rows-last (x ∷ rows) r h fits_r = elim (Bool-cases (p x)) [
    | inl first ↦ absurd (let h' = rw first at h in cc)
    | inr other ↦ rw other (rw (count_rows-last rows r (rw other at h) fits_r) (omega arith))
  ]
