-- ===== src/Agent/Audit.antt =====
-- The retention of audit records of extensions/agent/audit.go.
pub mod Window
mod Tests
use Prim.Native.String.{String}
use gin_bear.Base.{
  ℕ, zero, suc, ◌-◌, Bool, true, false, Option, none, some, List, [], ◌∷◌, ◌++◌, length, ltb,
  if◌then◌else◌,
}
use gin_bear.Base.Int.{ℤ, pos, pos_part, leb_ℤ, add64}

-- `AuditRecord`; a time is a number, and the zero time is `none`.
pub record AuditRecord : Type 0 where
  pub at : Option ℕ
  pub actor : String
  pub tenant : String
  pub decision : String
  pub tool : String
  pub args_digest : String
  pub approval : String
  pub outcome : String
  pub provider : String

-- `Auditor`.
pub record Auditor : Type 0 where
  pub records : List AuditRecord
  pub retained : ℕ
  pub dropped : ℤ

-- `NewAuditor`.
unfoldable pub new_auditor : ℤ → Auditor
new_auditor retained = record {
  records = [];
  retained = if leb_ℤ retained (pos 0) then 1000 else pos_part retained;
  dropped = pos 0;
}

-- `records[over:]`.
abbrev pub drop : ℕ → List AuditRecord → List AuditRecord
drop zero rs = rs
drop (suc n) [] = []
drop (suc n) (r ∷ rs) = drop n rs

-- The time of a record that has none is the clock's.
abbrev pub stamped : ℕ → AuditRecord → AuditRecord
stamped now r = elim r.at [ none ↦ record r { at = some now } | some t ↦ r ]

abbrev pub retain : Auditor → List AuditRecord → Auditor
retain a records =
    let over = length records - a.retained in
    if ltb a.retained (length records)
    then record a { records = drop over records; dropped = add64 a.dropped (pos over) }
    else record a { records = records }

-- `Append`.
unfoldable pub append : ℕ → AuditRecord → Auditor → Auditor
append now r a = retain a (a.records ++ stamped now r ∷ [])
