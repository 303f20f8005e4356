-- ===== src/Pool/Steps.antt =====
-- The pool as a state machine: a new pool, its events, and the states that it reaches.
use open_rfc.Pool.Dispatch.{resume, validation_settled, pump}
use open_rfc.Pool.Waiters.{request_pump}
use open_rfc.Pool.Acquire.{rearm_timeout, handle_timeout, abort_acquire, acquire}
use open_rfc.Common.{Number, Result, ok, err, ℕ, Bool, false, Option, none, List, [], ◌∷◌}
use open_rfc.Pool.Shutdown.{Shutdown, begin_shutdown, shutdown_timed_out}
use open_rfc.Pool.Creations.{Made, creation_settled, creation_timed_out}
use open_rfc.Pool.Leases.{
  Settled, ReleaseOptions, release, begin_operation, end_operation, begin_reset, end_reset,
  release_reset_settled, destroy_settled,
}
use open_rfc.Pool.{Pool, Config, Counters, opened, pending, PoolError}

-- The constructor, on options that have been checked.
abbrev pub no_counts : Counters
no_counts = record {
  creation_failures = 0;
  creation_aborts = 0;
  health_failures = 0;
  reset_failures = 0;
  destroy_failures = 0;
  lifecycle_timeouts = 0;
  shutdown_timeouts = 0;
}

abbrev pub new_pool : Config → Pool
new_pool config = record {
  config = config;
  counters = no_counts;
  state = opened;
  records = [];
  idle_ids = [];
  creating = [];
  waiters = [];
  leases = [];
  answers = [];
  flight = none;
  close_outcome = pending;
  next_creation_id = 1;
  next_physical_id = 1;
  next_waiter_id = 1;
  last_lease_generation = 0;
  last_clock = 0;
  pump_scheduled = false;
  dispatching = false;
  pump_requested = false;
  low_water_blocked = false;
}

unfoldable pub open_pool : Config → Pool
open_pool config = request_pump (new_pool config)

-- The calls of the pool's users, and what the factory, the scheduler and the microtask queue do.
pub data Event : Type 0 where
  acquires : (count : Number) (timeout : Option ℕ) (aborted : Bool) (reading : Option ℕ) → Event
  aborts : (waiter : ℕ) → Event
  times_out : (waiter generation scheduled : ℕ) (reading : Option ℕ) → Event
  rearms : (waiter generation : ℕ) (reading : Option ℕ) → Event
  begins_operation ends_operation : (lease : ℕ) → Event
  begins_reset : (lease : ℕ) → Event
  ends_reset : (lease : ℕ) (s : Settled) → Event
  releases : (lease : ℕ) (options : ReleaseOptions) → Event
  release_resets : (physical : ℕ) (s : Settled) → Event
  pumps : (reading : Option ℕ) → Event
  validates : (physical : ℕ) (s : Settled) (verdict : Bool) → Event
  resumes : (reading : Option ℕ) → Event
  creates : (creation : ℕ) (answer : Made) → Event
  creation_expires : (creation : ℕ) → Event
  destroys : (physical : ℕ) (s : Settled) → Event
  shuts_down : (requested : Shutdown) → Event
  shutdown_expires : Event

-- A call that throws leaves the pool as it was.
abbrev pub after : Pool → Result PoolError Pool → Pool
after p (ok q) = q
after p (err e) = p

abbrev pub after_acquire : Pool → Result PoolError (ℕ × Pool) → Pool
after_acquire p (ok q) = q.1
after_acquire p (err e) = p

unfoldable pub step : Pool → Event → Pool
step p (acquires count timeout aborted reading) =
    after_acquire p (acquire count timeout aborted reading p)
step p (aborts waiter) = abort_acquire waiter p
step p (times_out waiter generation scheduled reading) =
    handle_timeout waiter generation scheduled reading p
step p (rearms waiter generation reading) = rearm_timeout waiter generation reading p
step p (begins_operation lease) = after p (begin_operation p.config.pool_id lease p)
step p (ends_operation lease) = end_operation lease p
step p (begins_reset lease) = after p (begin_reset p.config.pool_id lease p)
step p (ends_reset lease s) = end_reset lease s p
step p (releases lease options) = after p (release p.config.pool_id lease options p)
step p (release_resets physical s) = release_reset_settled physical s p
step p (pumps reading) = pump reading p
step p (validates physical s verdict) = validation_settled physical s verdict p
step p (resumes reading) = resume reading p
step p (creates creation answer) = creation_settled creation answer p
step p (creation_expires creation) = creation_timed_out creation p
step p (destroys physical s) = destroy_settled physical s p
step p (shuts_down requested) = begin_shutdown requested p
step p shutdown_expires = shutdown_timed_out p

-- The states that a pool reaches from the one it is opened in.
pub data Reach (config : Config) : Pool → Type 0 where
  starts : Reach config (open_pool config)
  goes : {p : Pool} (e : Event) → Reach config p → Reach config (step p e)

unfoldable pub run : Pool → List Event → Pool
run p [] = p
run p (e ∷ es) = run (step p e) es

pub run-Reach :
    {config : Config} (es : List Event) {p : Pool} → Reach config p → Reach config (run p es)
unfolding run
run-Reach [] r = r
run-Reach (e ∷ es) r = run-Reach es (goes e r)
