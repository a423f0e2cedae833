-- ===== src/Tasks/Blind/Pure.antt =====
-- What the calls of tasks.go write over a row in doubt.
use Prim.Native.String.{String}
use gin_bear.Base.{◌≡◌, true, false, Option, none, some, arith}
use gin_bear.Base.Int.{ℤ}
use gin_bear.Base.Text.{is_empty}
use gin_bear.Tasks.Types.{Task, Outcome, Env, Err, is_terminal, unknown, for_nonce}
use gin_bear.Tasks.Complete.{
  settled, settle_status, settle_error, charge, count_attempt, stamp, cancelled,
}
use gin_bear.Tasks.Sweep.{unleased}
use gin_bear.Tasks.Intent.{reserved, intended}
use gin_bear.Tasks.Reconcile.{confirmed}
use gin_bear.Tasks.Blind.{in_doubt}

in_doubt-stamp : (env : Env) (t : Task) → in_doubt (stamp env t) ≡ in_doubt t
unfolding stamp
in_doubt-stamp env t = ground arith

in_doubt-charge : (usage : ℤ) (t : Task) → in_doubt t ≡ true → in_doubt (charge usage t) ≡ true
unfolding charge
in_doubt-charge usage t h = ground arith

in_doubt-settle_error :
    (t : Task) (o : Outcome) (e : Err) → in_doubt t ≡ true → in_doubt (settle_error t o e) ≡ true
unfolding settle_error
in_doubt-settle_error t o e h = ground arith

in_doubt-settle_status :
    (t : Task) (o : Outcome) (e : Option Err)
    → in_doubt t ≡ true
    → in_doubt (settle_status t o e) ≡ true
unfolding settle_status
in_doubt-settle_status t o none h = ground arith
in_doubt-settle_status t o (some e) h = in_doubt-settle_error t o e h

pub in_doubt-settled :
    (env : Env) (o : Outcome) (t : Task) → in_doubt t ≡ true → in_doubt (settled env o t) ≡ true
unfolding settled count_attempt
in_doubt-settled env o t h =
    rw in_doubt-stamp
      (in_doubt-charge o.usage _ (in_doubt-settle_status (count_attempt t) o o.error h))

pub in_doubt-cancelled :
    (env : Env) (t : Task)
    → is_terminal t.status ≡ false
    → in_doubt t ≡ true
    → in_doubt (cancelled env t) ≡ true
unfolding cancelled stamp
in_doubt-cancelled env t live h = ground arith

pub in_doubt-reserved :
    (env : Env) (amount : ℤ) (t : Task)
    → is_empty (env.new_id for_nonce 0) ≡ false
    → in_doubt t ≡ true
    → in_doubt (reserved env amount t) ≡ true
unfolding reserved stamp
in_doubt-reserved env amount t nonce h = ground arith

pub in_doubt-intended :
    (env : Env) (t : Task)
    → is_empty (env.new_id for_nonce 0) ≡ false
    → in_doubt t ≡ true
    → in_doubt (intended env t) ≡ true
unfolding intended stamp
in_doubt-intended env t nonce h = ground arith

pub in_doubt-confirmed :
    (env : Env) (result : String) (usage : ℤ) (t : Task)
    → in_doubt t ≡ true
    → in_doubt (confirmed env result usage t) ≡ true
unfolding confirmed stamp count_attempt
in_doubt-confirmed env result usage t h = ground arith

pub in_doubt-unknown :
    (env : Env) (t : Task) → in_doubt t ≡ true → in_doubt (unleased env unknown t) ≡ true
unfolding unleased
in_doubt-unknown env t h = ground arith
