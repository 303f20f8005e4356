-- ===== src/Pool/Bounds.antt =====
-- The limits on connections and waiters hold in every state that a pool reaches.
mod Creating
mod Stopping
mod Acquiring
mod Dispatching
mod Leasing
use open_rfc.Pool.Leases.{begin_reset, begin_operation, release}
use open_rfc.Pool.Dispatch.{validation_settled, resume}
use open_rfc.Pool.Steps.{
  Reach, step, new_pool, open_pool, Event, acquires, aborts, times_out, rearms, begins_operation,
  ends_operation, begins_reset, ends_reset, releases, release_resets, pumps, validates, resumes,
  creates, creation_expires, destroys, shuts_down, shutdown_expires, starts, goes,
}
use open_rfc.Pool.Capacity.{Shrinks-FitsLimits, FitsLimits}
use open_rfc.Common.{arith}
use open_rfc.Pool.Shrinks.{request_pump-Shrinks, reject_waiter-Shrinks}
use open_rfc.Pool.{acquire_aborted, Config, Pool}
use open_rfc.Pool.Bounds.Creating.{creation_settled-FitsLimits, creation_timed_out-Shrinks}
use open_rfc.Pool.Bounds.Stopping.{begin_shutdown-Shrinks, shutdown_timed_out-Shrinks}
use open_rfc.Pool.Bounds.Acquiring.{
  acquire-FitsLimits, handle_timeout-Shrinks, rearm_timeout-Shrinks,
}
use open_rfc.Pool.Bounds.Dispatching.{
  pump-FitsLimits, settle_validation-Shrinks, resume_from-FitsLimits,
}
use open_rfc.Pool.Bounds.Leasing.{
  end_operation-Shrinks, after-Shrinks, begin_operation-Shrinks, begin_reset-Shrinks,
  end_reset-Shrinks, release-Shrinks, release_reset_settled-Shrinks, destroy_settled-Shrinks,
}

open_pool-FitsLimits : (c : Config) → FitsLimits (open_pool c)
unfolding open_pool
open_pool-FitsLimits c = Shrinks-FitsLimits (request_pump-Shrinks (new_pool c)) (omega arith)

pub step-FitsLimits : (p : Pool) (e : Event) → FitsLimits p → FitsLimits (step p e)
unfolding step validation_settled resume
step-FitsLimits p (acquires count timeout aborted reading) f =
    acquire-FitsLimits count timeout aborted reading p f
step-FitsLimits p (aborts waiter) f =
    Shrinks-FitsLimits (reject_waiter-Shrinks waiter acquire_aborted p) f
step-FitsLimits p (times_out waiter generation scheduled reading) f =
    Shrinks-FitsLimits (handle_timeout-Shrinks waiter generation scheduled reading p) f
step-FitsLimits p (rearms waiter generation reading) f =
    Shrinks-FitsLimits (rearm_timeout-Shrinks waiter generation reading p) f
step-FitsLimits p (begins_operation lease) f =
    Shrinks-FitsLimits
      (after-Shrinks p (begin_operation p.config.pool_id lease p)
        (begin_operation-Shrinks p.config.pool_id lease p))
      f
step-FitsLimits p (ends_operation lease) f = Shrinks-FitsLimits (end_operation-Shrinks lease p) f
step-FitsLimits p (begins_reset lease) f =
    Shrinks-FitsLimits
      (after-Shrinks p (begin_reset p.config.pool_id lease p)
        (begin_reset-Shrinks p.config.pool_id lease p))
      f
step-FitsLimits p (ends_reset lease s) f = Shrinks-FitsLimits (end_reset-Shrinks lease s p) f
step-FitsLimits p (releases lease options) f =
    Shrinks-FitsLimits
      (after-Shrinks p (release p.config.pool_id lease options p)
        (release-Shrinks p.config.pool_id lease options p))
      f
step-FitsLimits p (release_resets physical s) f =
    Shrinks-FitsLimits (release_reset_settled-Shrinks physical s p) f
step-FitsLimits p (pumps reading) f = pump-FitsLimits reading p f
step-FitsLimits p (validates physical s verdict) f =
    Shrinks-FitsLimits (settle_validation-Shrinks p.flight physical s verdict p) f
step-FitsLimits p (resumes reading) f = resume_from-FitsLimits p.flight reading p f
step-FitsLimits p (creates creation a) f = creation_settled-FitsLimits creation a p f
step-FitsLimits p (creation_expires creation) f =
    Shrinks-FitsLimits (creation_timed_out-Shrinks creation p) f
step-FitsLimits p (destroys physical s) f =
    Shrinks-FitsLimits (destroy_settled-Shrinks physical s p) f
step-FitsLimits p (shuts_down requested) f =
    Shrinks-FitsLimits (begin_shutdown-Shrinks requested p) f
step-FitsLimits p shutdown_expires f = Shrinks-FitsLimits (shutdown_timed_out-Shrinks p) f

-- In every state that a pool reaches, by calls of its users, answers of the factory, callbacks of the
-- scheduler and microtasks in any order, the connections and the running creations are at most
-- `maxConnections`, and the waiters at most `maxWaiters`.
pub Reach-FitsLimits : (config : Config) (p : Pool) → Reach config p → FitsLimits p
Reach-FitsLimits config p starts = open_pool-FitsLimits config
Reach-FitsLimits config p (goes {p = q} e r) = step-FitsLimits q e (Reach-FitsLimits config q r)
