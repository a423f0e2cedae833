-- ===== src/Tasks/Fencing.antt =====
-- The fencing of late workers in `Complete` and `Reserve` of tasks.go.
use Prim.Native.String.{String}
use text.Mathlib.Text.{◌==◌}
use gin_bear.Base.{ℕ, ◌≡◌, refl, ap, Bool, false, inl, inr, ◌⊎◌, any, eqb, ◌&&◌}
use gin_bear.Base.Int.{ℤ, pos, ltb_ℤ}
use gin_bear.Tasks.Types.{Task, Db, Env, Outcome, is_running, is_terminal, after_read, task_changed}
use gin_bear.Tasks.Sql.{ok, err, ◌>>=◌, fail_if, pause}
use gin_bear.Tasks.Intent.{reserve, write_intent, reserved}
use gin_bear.Tasks.Available.{
  stop-fail_if, stop-raise, stop-get, stop-if, Available, transact_runs, update_where_misses,
  get-state,
}
use gin_bear.Tasks.Complete.{complete, complete_live, complete_tx, settled}

-- The row is still the running one of this version: the condition of the worker's writes.
abbrev pub fits : String → ℕ → Task → Bool
fits id version t = t.id == id && (eqb t.version version && is_running t.status)

module _ (env : Env) (available : Available env) (id : String) (version : ℕ) (o : Outcome) (db : Db)
    (gone : any (fits id version) (env.between after_read db).tasks ≡ false) where
  complete_tx_misses :
      (t new : Task) (usage : ℤ) (k : ℕ)
      → complete_tx env id version t new usage k (env.between after_read db)
        ≡ (env.between after_read db, ok false)
  unfolding complete_tx ◌>>=◌
  complete_tx_misses t new usage k =
      rw
        (update_where_misses env available k new (fits id version) (env.between after_read db) gone)

  complete_live_misses :
      (t : Task) → (complete_live env id version o t db).0 ≡ env.between after_read db
  unfolding complete_live ◌>>=◌ pause
  complete_live_misses t =
      rw
        (transact_runs env available (complete_tx env id version t (settled env o t) o.usage) _
          (complete_tx_misses t (settled env o t) o.usage 1))
        (get-state env 1 id (env.between after_read db))

-- The database is the one before the call, or what the others left of it.
abbrev pub Untouched : Env → Db → Db → Type 0
Untouched env db end = (end ≡ db) ⊎ (end ≡ env.between after_read db)

-- If between the read and the write of `Complete` the row stops being the running one of the worker's
-- version, and the database refuses no statement, then the late result is dropped: nothing of any
-- table is written but what the other instances wrote.
pub complete_fenced :
    (env : Env) (id : String) (version : ℕ) (o : Outcome) (db : Db)
    → Available env
    → any (fits id version) (env.between after_read db).tasks ≡ false
    → Untouched env db (complete env id version o db).0
unfolding complete
complete_fenced env id version o db available gone = stop-fail_if P db stays _ _ _ (
    stop-raise P db stays _ _ (
      stop-get P db stays env 0 id _ λ t _.
        stop-if P db stays (is_terminal t.status) _ _ (λ _. stays)
          λ _.
            stop-if P db stays (eqb t.version version) _ _
              (λ _. inr (complete_live_misses env available id version o db gone t)) λ _. stays))
  where
    P : Db → Type 0
    P = Untouched env db

    stays : P db
    stays = inl refl

write_intent_misses :
    (env : Env) (id : String) (version : ℕ) (new : Task) (during : String) (db : Db)
    → Available env
    → any (fits id version) (env.between after_read db).tasks ≡ false
    → write_intent env id version new during db
      ≡ (env.between after_read db, err (task_changed during))
unfolding write_intent ◌>>=◌ pause fail_if
write_intent_misses env id version new during db available gone =
    rw (update_where_misses env available 0 new (fits id version) (env.between after_read db) gone)

-- If between the read and the write of `Reserve` the row stops being the running one of the worker's
-- version, and the database refuses no statement, then nothing of any table is written but what the
-- other instances wrote: no budget moves and no intent is recorded.
pub reserve_fenced :
    (env : Env) (id : String) (version : ℕ) (amount : ℤ) (db : Db)
    → Available env
    → any (fits id version) (env.between after_read db).tasks ≡ false
    → Untouched env db (reserve env id version amount db).0
unfolding reserve
reserve_fenced env id version amount db available gone = stop-get P db stays env 0 id _ λ t _.
    stop-fail_if P db stays _ _ _ (
      stop-fail_if P db stays _ _ _ (
        stop-fail_if P db stays _ _ _ (
          stop-if P db stays (ltb_ℤ (pos 0) t.reserved_tokens) _ _ (λ _. stays)
            λ _. stop-fail_if P db stays _ _ _ (
              stop-fail_if P db stays _ _ _ (
                inr (
                  ap (λ r. r.0)
                    (write_intent_misses env id version (reserved env amount t) _ db available
                      gone)))))))
  where
    P : Db → Type 0
    P = Untouched env db

    stays : P db
    stays = inl refl
