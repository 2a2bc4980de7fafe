-- ===== src/Dispatch/Config.antt =====
-- src/dispatch/dispatch.service.ts: the two settings, the tests and the small steps that its handlers
-- share.
use logistics_dispatch.Common.{
  Bool, Result, false, if◌then◌else◌, internal, ltb, none, not, some, throw_if, true, ℕ, ◌*◌, ◌/◌,
}
use logistics_dispatch.Orders.Status.{OrderStatus, is_terminal, pending, status_eq}
use logistics_dispatch.Platform.{
  Job, JobId, Platform, add_job, assign_driver, find, get_job, remove, remove_job,
}
use logistics_dispatch.World.{World}

-- `Number(text)` on the text of an environment variable: no finite number, one below zero, or the
-- fraction `top / bottom`.
pub data EnvNumber : Type 0 where
  not_finite below_zero : EnvNumber
  fraction : ℕ → ℕ → EnvNumber

-- `getPositiveIntFromEnv`
unfoldable pub get_positive_int : EnvNumber → ℕ → ℕ
get_positive_int not_finite fallback = fallback
get_positive_int below_zero fallback = fallback
get_positive_int (fraction top bottom) fallback = if ltb 0 top then top / bottom else fallback

pub record DispatchConfig : Type 0 where
  pub max_attempts : ℕ
  pub timeout_seconds : ℕ

-- The constructor of `DispatchService`, with `DISPATCH_DEFAULTS`.
unfoldable pub dispatch_config : EnvNumber → EnvNumber → DispatchConfig
unfolding get_positive_int
dispatch_config max_attempts timeout_seconds = record {
  max_attempts = get_positive_int max_attempts 3;
  timeout_seconds = get_positive_int timeout_seconds 20;
}

-- `shouldSkipAssignment`
unfoldable pub should_skip_assignment : OrderStatus → Bool
should_skip_assignment s =
    if is_terminal s then true else if not (status_eq s pending) then true else false

-- The payload of the job ASSIGN_DRIVER.
abbrev pub assign_job : ℕ → Job
assign_job order_id = record { order_id = order_id; driver_id = none; delay = 0 }

-- The payload of the job DISPATCH_TIMEOUT, with its delay.
abbrev pub timeout_job : DispatchConfig → ℕ → ℕ → Job
timeout_job cfg order_id driver_id = record {
  order_id = order_id;
  driver_id = some driver_id;
  delay = cfg.timeout_seconds * 1000;
}

-- What comes of an `add` under the id.
unfoldable pub adds : Platform → JobId → Result (Unit {0})
adds p i = throw_if (not (p.takes_id i)) internal

module _ {p : Platform} where
  -- Where the queue refuses the id, `adds` says that the call throws, and the state is as it was.
  unfoldable pub trigger_dispatch : ℕ → World p → World p
  trigger_dispatch order_id w = record w {
    dispatch_queue = add_job w.dispatch_queue (assign_driver order_id) (assign_job order_id);
  }

  -- The timeout job with this id, if the queue has it, is removed.
  drop_timeout_job : JobId → World p → World p
  drop_timeout_job job_id w = elim (get_job w.dispatch_queue job_id) [
    | none ↦ w
    | some job ↦ record w { dispatch_queue = remove_job w.dispatch_queue job_id }
  ]

  unfoldable pub cancel_dispatch_timeout : ℕ → World p → World p
  unfolding drop_timeout_job
  cancel_dispatch_timeout order_id w = elim (find w.timeout_keys order_id) [
    | none ↦ w
    | some key ↦ record (drop_timeout_job key.value w) {
      timeout_keys = remove w.timeout_keys order_id;
    }
  ]
