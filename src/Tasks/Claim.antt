-- ===== src/Tasks/Claim.antt =====
-- `Claim` and `claimCAS` of tasks.go.
use Prim.Native.String.{String}
use text.Mathlib.Text.{◌==◌}
use gin_bear.Base.{
  ◌&&◌, ◌||◌, not, ℕ, zero, suc, ◌+◌, Bool, Option, none, some, List, [], ◌∷◌, ◌++◌, if◌then◌else◌,
  any, eqb,
}
use gin_bear.Base.Int.{ℤ, pos, ltb_ℤ, leb_ℤ, eqb_ℤ}
use gin_bear.Tasks.Types.{
  Task, is_queued, running, next_version, no_rows, budget_exhausted, select_candidate,
  claim_cas as cas_site, in_loop, Env,
}
use gin_bear.Tasks.Sql.{
  M, ◌>>=◌, ◌>>◌, return, fail, fail_if, raise, pause, get, statement, or_no_rows, update_tasks,
}

-- The WHERE of the candidate query.
unfoldable pub eligible : Env → List String → Task → Bool
eligible env excluded t =
    is_queued t.status
    && (eqb_ℤ t.expires_at (pos 0) || ltb_ℤ env.now t.expires_at)
    && (leb_ℤ t.lease_expires env.now || t.lease_owner == "")
    && not (any (λ id. id == t.id) excluded)

abbrev pub earlier : Task → Option Task → Option Task
earlier t none = some t
earlier t (some u) = if leb_ℤ t.created_at u.created_at then some t else some u

-- `ORDER BY created_at ASC LIMIT 1`; of rows created in one second the first stands.
unfoldable pub oldest : (Task → Bool) → List Task → Option Task
oldest p [] = none
oldest p (t ∷ ts) = let rest = oldest p ts in if p t then earlier t rest else rest

unfoldable pub lease_to : Env → String → ℤ → Task → Task
lease_to env owner lease t = record t {
  status = running;
  version = next_version t.version;
  lease_owner = owner;
  lease_expires = env.unix_after lease;
  updated_at = env.now;
}

-- `claimCAS`: `none` is a lost race.
unfoldable pub claim_cas : Env → ℕ → Task → String → ℤ → M (Option Task)
claim_cas env k task owner lease = do
  affected ←
      update_tasks env cas_site k
        (λ t. t.id == task.id && (eqb t.version task.version && is_queued t.status))
        (lease_to env owner lease)
  if eqb affected 1 then (get env k task.id >>= λ won. return (some won)) else return none

unfoldable pub candidate : Env → ℕ → List String → M Task
candidate env k excluded =
    statement env select_candidate k λ db. or_no_rows db (oldest (eligible env excluded) db.tasks)

-- The loop of `Claim`: `left` rounds to go, `k` behind.
unfoldable pub claim_from : Env → ℕ → ℕ → List String → String → ℤ → M Task
claim_from env zero k excluded owner lease = fail no_rows
claim_from env (suc left) k excluded owner lease = do
  task ← candidate env k excluded
  fail_if (ltb_ℤ task.budget_tokens (pos 0)) budget_exhausted
  pause env (in_loop k)
  claimed ← claim_cas env k task owner lease
  elim claimed [
    | some won ↦ return won
    | none ↦ claim_from env left (k + 1) (excluded ++ task.id ∷ []) owner lease
  ]

-- `Claim`.
unfoldable pub claim : Env → String → ℤ → M Task
claim env owner lease = do raise env.before_claim; claim_from env 8 0 [] owner lease
