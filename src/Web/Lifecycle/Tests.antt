-- ===== src/Web/Lifecycle/Tests.antt =====
-- Starts and stops of two components.
use gin_bear.Base.{◌≡◌, refl, inr, true, false, none, some, [], ◌∷◌}
use gin_bear.Web.Lifecycle.{
  with_context, without_context, is_new, is_started, is_stopped, Lifecycle, StopEnv, unfinished,
  finished, finished_with,
}
use gin_bear.Web.Lifecycle.Start.{StartEnv, new_entry, start_entries, start_strict, stop_strict}
use gin_bear.Web.Lifecycle.Order.{InOrder}
use gin_bear.Web.Lifecycle.Legacy.{LegacyEnv}
use gin_bear.Web.Lifecycle.Once.{starts, stops, all_shutdowns, backwards, all_shutdowns-InOrder}
use gin_bear.Web.Lifecycle.Settled.{StopEnds, stop_strict-StopEnds}
use gin_bear.Web.Lifecycle.Live.{Responsive, stop_strict-stopped}
use gin_bear.Web.Lifecycle.Retry.{StartEnds, start_strict-StartEnds}

abbrev prompt : StopEnv
prompt = record {
  ctx_at = λ c. none;
  ctx_before = λ c. none;
  ctx_after = λ c. none;
  wait_old = λ c. finished_with "late" true;
  wait_new = λ c. finished;
}

-- The shutdown of every component hangs.
abbrev hanging : StopEnv
hanging = record prompt { wait_new = λ c. unfinished "deadline" }

prompt-Responsive : Responsive prompt
prompt-Responsive = record {
  open_at = λ c. refl;
  open_before = λ c. refl;
  open_after = λ c. refl;
  old_ends = λ c text h. absurd (cc);
  new_ends = λ c text h. absurd (cc);
  on_its_own = λ c text h. absurd (cc);
}

abbrev two_components : Lifecycle
two_components = record {
  components = new_entry 1 with_context true false ∷ new_entry 2 without_context true false ∷ [];
  strict = true;
  phase = is_new;
  sealed = false;
  start_err = none;
  start_retryable = false;
  stop_err = [];
}

abbrev all_well : StartEnv
all_well = record { ctx_err = λ c. none; init = λ c. none; rollback = prompt }

abbrev none_starts : StartEnv
none_starts = record all_well { init = λ c. some "no connection" }

abbrev running : Lifecycle
running = (start_strict all_well two_components).lifecycle

is_running : running.phase ≡ is_started
unfolding start_strict start_entries
is_running = refl

start_strict-StartEnds_example :
    StartEnds none_starts two_components (start_strict none_starts two_components)
start_strict-StartEnds_example =
    start_strict-StartEnds none_starts two_components (refl, (refl, tt)) refl

stop_strict-StopEnds_example : StopEnds hanging running (stop_strict hanging running)
stop_strict-StopEnds_example = stop_strict-StopEnds hanging running (inr is_running)

still_running : (stop_strict hanging running).lifecycle.phase ≡ is_started
unfolding start_strict start_entries stop_strict gin_bear.Web.Lifecycle.stop_strict_entries
    gin_bear.Web.Lifecycle.stop_strict_entry
still_running = refl

stop_strict-stopped_example :
    (stop_strict prompt (stop_strict hanging running).lifecycle).lifecycle.phase ≡ is_stopped
stop_strict-stopped_example =
    stop_strict-stopped prompt prompt-Responsive (stop_strict hanging running).lifecycle
      (inr still_running)

abbrev at_ease : LegacyEnv
at_ease = record {
  init = λ c. none;
  ctx_at = λ c. none;
  ctx_before = λ c. none;
  ctx_after = λ c. none;
  worker = λ c. none;
}

all_shutdowns-InOrder_example :
    InOrder
      (all_shutdowns (starts at_ease ∷ stops at_ease ∷ stops at_ease ∷ []) two_components)
      (backwards two_components.components)
all_shutdowns-InOrder_example =
    all_shutdowns-InOrder (starts at_ease ∷ stops at_ease ∷ stops at_ease ∷ []) two_components
