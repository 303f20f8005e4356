-- ===== src/Pool.antt =====
-- src/pool/connection-pool-runtime.ts: the state of ConnectionPoolRuntime.
-- The asynchronous parts are events of their own: what runs between two awaits is one step, and a
-- Promise is settled by an event that names what it belongs to. The factory and the scheduler are
-- outside: an event brings what they return. They are taken not to call the pool from within such a
-- call. Diagnostics and messages are left out, and times are whole numbers of ticks.
pub mod Table
pub mod Waiters
pub mod Resources
pub mod Creations
pub mod Leases
pub mod Acquire
pub mod Dispatch
pub mod Shutdown
pub mod Steps
pub mod Shrinks
pub mod Capacity
pub mod Bounds
pub mod Monitoring
pub mod Ownership
pub mod Still
pub mod Owners
pub mod Steady
pub mod Checkout
pub mod Chosen
pub mod Landing
pub mod Arrivals
pub mod Holders
pub mod Handover
pub mod Releases
pub mod Exclusive
pub mod Exclusion
pub mod SameLeases
pub mod Undisturbed
pub mod Lasting
pub mod Ended
pub mod Refusal
pub mod Quiet
pub mod Uninvolved
pub mod Tally
pub mod Settling
pub mod Served
pub mod Answers
pub mod Farewell
pub mod Rounds
mod Runs
use open_rfc.Common.{ℕ, Bool, Option, List}

-- "open", "retiring", "closing" and "closed".
pub data RuntimeState : Type 0 where
  opened retiring shutting closed : RuntimeState

-- The codes of ConnectionPoolRuntimeError, and the other errors that a call throws.
pub data PoolError : Type 0 where
  pool_closed pool_overloaded acquire_timeout acquire_aborted wrong_pool stale_lease
        double_release :
      PoolError
  pool_lease_busy active_lease lifecycle_timeout pool_shutdown_timeout : PoolError
  invalid_range invalid_type failure : PoolError

pub data PhysicalState : Type 0 where
  idle validating leased resetting closing : PhysicalState

-- The work that `physical.lifecycle` stands for: a reset is awaited by `resetActiveLease`, which keeps
-- the lease, or by `release`.
pub data Work : Type 0 where
  no_work validate_work reset_held reset_released destroy_work : Work

-- `PhysicalConnection`. `id` stands for the identity of the object; `destroyPromise` is set exactly in
-- the state closing; the generation is that of the newest lease on the connection.
pub record Physical : Type 0 where
  pub id : ℕ
  pub resource : ℕ
  pub state : PhysicalState
  pub work : Work
  pub recycle_idle_high : Option ℕ
  pub destroy_failed : Bool

-- `expired` is the flag of the lifecycle and says whether `terminalError` is set, which happens in the
-- same step; `aborted` is the flag of the abort signal.
pub record Creation : Type 0 where
  pub id : ℕ
  pub owner : Option ℕ
  pub aborted : Bool
  pub abort_requested : Bool
  pub expired : Bool

-- A waiter is active as long as it stands in the queue.
pub record Waiter : Type 0 where
  pub id : ℕ
  pub count : ℕ
  pub deadline : ℕ
  pub timeout_generation : ℕ
  pub early_rearms : ℕ

-- `LeaseRecord`; a lease itself is the pool's id and the generation.
pub record Lease : Type 0 where
  pub generation : ℕ
  pub physical : ℕ
  pub active : Bool
  pub operations : ℕ

-- `ValidationOutcome`: an error is reported only where the validation expired.
pub data Outcome : Type 0 where
  healthy unhealthy expired_validation : Outcome

-- What `#dispatch` holds while it awaits the validations.
pub record Flight : Type 0 where
  pub waiter : ℕ
  pub count : ℕ
  pub candidates : List ℕ
  pub outcomes : List (ℕ × Outcome)

-- How the Promise of a waiter was settled.
pub data Answer : Type 0 where
  granted : List ℕ → Answer
  refused : PoolError → Answer

pub data CloseOutcome : Type 0 where
  pending resolved rejected : CloseOutcome

pub record Config : Type 0 where
  pub pool_id : ℕ
  pub max_connections : ℕ
  pub max_waiters : ℕ
  pub acquire_timeout : ℕ
  pub low_water : ℕ
  pub idle_high : ℕ
  pub validate_on_checkout : Bool
  pub reset_on_release : Bool
  pub has_reset : Bool

pub record Counters : Type 0 where
  pub creation_failures : ℕ
  pub creation_aborts : ℕ
  pub health_failures : ℕ
  pub reset_failures : ℕ
  pub destroy_failures : ℕ
  pub lifecycle_timeouts : ℕ
  pub shutdown_timeouts : ℕ

pub record Pool : Type 0 where
  pub config : Config
  pub counters : Counters
  pub state : RuntimeState
  pub records : List Physical
  pub idle_ids : List ℕ
  pub creating : List Creation
  pub waiters : List Waiter
  pub leases : List Lease
  pub answers : List (ℕ × Answer)
  pub flight : Option Flight
  pub close_outcome : CloseOutcome
  pub next_creation_id : ℕ
  pub next_physical_id : ℕ
  pub next_waiter_id : ℕ
  pub last_lease_generation : ℕ
  pub last_clock : ℕ
  pub pump_scheduled : Bool
  pub dispatching : Bool
  pub pump_requested : Bool
  pub low_water_blocked : Bool
