-- ===== src/Web/Migration/Names.antt =====
-- The texts that pkg/bear/migration.go reads: table names, placeholders and the directive.
use Prim.Native.Char.{code}
use Prim.Native.String.{String}
use Prim.Native.String
use text.Mathlib.Text.{◌==◌}
use gin_bear.Base.{
  ℕ, ◌+◌, ◌&&◌, ◌||◌, Bool, true, false, Option, none, some, List, [], ◌∷◌, leb, eqb, if◌then◌else◌,
}
use gin_bear.Base.Text.{trim_space, is_empty, decimal, split_at}
use gin_bear.Web.Migration.{Dialect, sqlite, mysql, postgresql, other_dialect}

abbrev pub is_letter : ℕ → Bool
is_letter c = eqb c b'_' || (leb b'a' c && leb c b'z') || (leb b'A' c && leb c b'Z')

abbrev pub is_digit : ℕ → Bool
is_digit c = leb b'0' c && leb c b'9'

-- The loop of `validateMigrationTableName` after the first character.
unfoldable pub is_name_rest : String → Bool
is_name_rest String.[] = true
is_name_rest (String.◌∷◌ c s) = (is_letter (code c) || is_digit (code c)) && is_name_rest s

-- `validateMigrationTableName` reports no error.
unfoldable pub is_table_name : String → Bool
is_table_name String.[] = false
is_table_name (String.◌∷◌ c s) = is_letter (code c) && is_name_rest s

-- The placeholders from number `n` on.
unfoldable pub number_placeholders : ℕ → String → String
number_placeholders n String.[] = ""
number_placeholders n (String.◌∷◌ c s) =
    if eqb (code c) b'?'
    then String.◌++◌ "$" (String.◌++◌ (decimal n) (number_placeholders (n + 1) s))
    else String.◌∷◌ c (number_placeholders n s)

-- `Rebind`; `none` is its error.
unfoldable pub rebind : Dialect → String → Option String
rebind sqlite query = some query
rebind mysql query = some query
rebind postgresql query = some (number_placeholders 1 query)
rebind other_dialect query = none

-- `validateMigrationDialect` reports no error.
abbrev pub is_supported : Dialect → Bool
is_supported other_dialect = false
is_supported _ = true

abbrev pub directive : String
directive = "-- gin-bear:non-transactional"

-- The first line that is not blank is the directive.
unfoldable pub starts_with_directive : List String → Bool
starts_with_directive [] = false
starts_with_directive (line ∷ rest) =
    let later = starts_with_directive rest in
    if is_empty (trim_space line) then later else trim_space line == directive

-- `migrationSQLIsNonTransactional`.
unfoldable pub is_non_transactional : String → Bool
is_non_transactional sql = starts_with_directive (split_at b'\n' sql)

-- Which way `applyUp` and `applyDown` run a text.
unfoldable pub runs_outside_tx : Dialect → String → Bool
runs_outside_tx mysql sql = true
runs_outside_tx postgresql sql = is_non_transactional sql
runs_outside_tx _ sql = false
