-- ===== src/Agent/Audit/Tests.antt =====
-- An auditor that retains one record.
use gin_bear.Base.{ℕ, List, [], ◌∷◌, none, arith}
use gin_bear.Base.Int.{pos}
use gin_bear.Agent.Audit.{AuditRecord, new_auditor}
use gin_bear.Agent.Audit.Window.{stamp_all, append_all, Keeps, append_all-new_auditor}

abbrev denied : AuditRecord
denied = record {
  at = none;
  actor = "ann";
  tenant = "";
  decision = "denied";
  tool = "mail";
  args_digest = "";
  approval = "";
  outcome = "";
  provider = "";
}

abbrev two_denials : List (ℕ × AuditRecord)
two_denials = (7, denied) ∷ (9, denied) ∷ []

append_all-new_auditor_example :
    Keeps 1 (stamp_all two_denials) (append_all two_denials (new_auditor (pos 1)))
append_all-new_auditor_example = append_all-new_auditor 1 two_denials (omega arith) (omega arith)
