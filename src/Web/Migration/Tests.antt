-- ===== src/Web/Migration/Tests.antt =====
-- Runs of the migration runner on a small database.
use Prim.Native.String.{String}
use text.Mathlib.Text.{◌==◌}
use gin_bear.Base.{ℕ, ◌+◌, ◌-◌, ◌≡◌, refl, true, false, none, some, [], ◌∷◌, ltb, if◌then◌else◌}
use gin_bear.Base.Int.{pos, leb_ℤ}
use gin_bear.Base.Text.{is_blank, trim_space}
use gin_bear.Web.Migration.{Migration, Row, sqlite, no_table, old_table, Db, Env}
use gin_bear.Web.Migration.Names.{is_table_name, is_name_rest}
use gin_bear.Web.Migration.Lock.{force_state}
use gin_bear.Web.Migration.Up.{up}
use gin_bear.Web.Migration.Down.{by_version, down}
use gin_bear.Web.Migration.Complete.{UpEnds, up-UpEnds}
use gin_bear.Web.Migration.Exclusion.{Untouched, held-Untouched}
use gin_bear.Web.Migration.Ready.{Ready, ready_layout}
use gin_bear.Web.Migration.Undo.{down-up}

abbrev first_code : String → ℕ
first_code String.[] = 0
first_code (String.◌∷◌ c s) = Prim.Native.Char.code c

-- A schema is the number of its tables.
abbrev local : Env ℕ
local = record {
  has_database = true;
  dialect = sqlite;
  history_table = "";
  lock_table = "";
  owner = "me";
  fault = λ site k. none;
  exec = λ k sql s. if sql == "drop" then (s - 1, none) else (s + 1, none);
  less = λ a b. ltb (first_code a) (first_code b);
}

abbrev users : Migration
users = record { version = "2"; name = "users"; up_sql = "create"; down_sql = "drop" }

abbrev first_row : Row
first_row = record { version = "1"; name = "init"; dirty = false }

abbrev at_one : Db ℕ
at_one = record {
  rows = first_row ∷ [];
  lock = none;
  schema = 1;
  layout = record { history = old_table; locks = no_table };
}

abbrev locked : Db ℕ
locked = record at_one { lock = some "other" }

local-Ready : Ready local
unfolding is_table_name is_name_rest
local-Ready = record {
  connected = refl;
  supported = refl;
  history_name = refl;
  lock_name = refl;
  quiet = λ site k. refl;
}

up-UpEnds_example : UpEnds local (users ∷ []) at_one (up local (users ∷ []) at_one)
up-UpEnds_example = up-UpEnds local (users ∷ []) at_one

one_step : leb_ℤ (pos 1) (pos 0) ≡ false
unfolding leb_ℤ
one_step = refl

held-Untouched_example :
    Untouched locked (up local (users ∷ []) locked)
    × (Untouched locked (down local (users ∷ []) (pos 1) locked)
        × Untouched locked (force_state local "1" true locked))
held-Untouched_example =
    held-Untouched local (users ∷ []) (pos 1) "1" true locked "other" refl one_step

users_loaded : by_version "2" (users ∷ []) ≡ some users
unfolding by_version
users_loaded = refl

drop_written : is_blank "drop" ≡ false
unfolding is_blank trim_space
drop_written = refl

down-up_example :
    ((up local (users ∷ []) at_one).1 ≡ none)
    × (down local (users ∷ []) (pos 1) (up local (users ∷ []) at_one).0
        ≡ (record at_one { layout = ready_layout }, none))
down-up_example =
    down-up local local-Ready users (users ∷ []) 2 at_one refl refl refl (refl, tt) users_loaded
      drop_written refl refl
