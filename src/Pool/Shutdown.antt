-- ===== src/Pool/Shutdown.antt =====
-- Closing and retiring a pool, and what its monitor shows.
use open_rfc.Pool.Resources.{destroy_all, fail_close, check_closed}
use open_rfc.Pool.Table.{count_of, is_open}
use open_rfc.Pool.Waiters.{reject_waiters, abort_creation}
use open_rfc.Common.{
  length, if◌then◌else◌, ℕ, suc, ◌+◌, Bool, true, false, ◌||◌, not, List, [], ◌∷◌,
}
use open_rfc.Pool.{
  Pool, Physical, Creation, RuntimeState, PhysicalState, opened, retiring, shutting, closed,
  pool_closed, idle, leased, validating, resetting, closing, pending, resolved, rejected,
}

-- What is asked for: `retire`, or `close` and `drain`.
pub data Shutdown : Type 0 where
  retire close : Shutdown

abbrev pub shutdown_state : Shutdown → RuntimeState
shutdown_state retire = retiring
shutdown_state close = shutting

abbrev pub abort_creations : List Creation → List Creation
abort_creations [] = []
abort_creations (c ∷ cs) = abort_creation c ∷ abort_creations cs

-- `#beginShutdown` of an open pool. The signals of running validations and resets are aborted too; how
-- these end is an event.
unfoldable pub stop_work : Pool → Pool
stop_work p =
    let told = reject_waiters p.waiters pool_closed p in
    let aborted = record told { creating = abort_creations told.creating } in
    check_closed (destroy_all aborted.idle_ids aborted)

unfoldable pub shutdown_from : RuntimeState → Shutdown → Pool → Pool
shutdown_from opened requested p = stop_work (record p { state = shutdown_state requested })
shutdown_from retiring retire p = p
shutdown_from retiring close p = record p { state = shutting }
shutdown_from shutting requested p = p
shutdown_from closed requested p = p

unfoldable pub begin_shutdown : Shutdown → Pool → Pool
begin_shutdown requested p = shutdown_from p.state requested p

abbrev pub is_pending : Pool → Bool
is_pending p = elim (p.close_outcome) [ pending ↦ true | resolved ↦ false | rejected ↦ false ]

-- The shutdown deadline, which is cancelled when the close is settled.
unfoldable pub shutdown_timed_out : Pool → Pool
shutdown_timed_out p =
    if is_open p.state || not (is_pending p)
    then p
    else fail_close (record p {
      counters = record (p.counters) { shutdown_timeouts = suc p.counters.shutdown_timeouts };
    })

abbrev pub is_state : PhysicalState → Physical → Bool
is_state s r = elim s [
  | idle ↦ elim (r.state) [ idle ↦ true | _ ↦ false ]
  | validating ↦ elim (r.state) [ validating ↦ true | _ ↦ false ]
  | leased ↦ elim (r.state) [ leased ↦ true | _ ↦ false ]
  | resetting ↦ elim (r.state) [ resetting ↦ true | _ ↦ false ]
  | closing ↦ elim (r.state) [ closing ↦ true | _ ↦ false ]
]

-- `ConnectionPoolMonitor`, the part that is counted.
pub record Monitor : Type 0 where
  pub connections : ℕ
  pub idle_count : ℕ
  pub leased_count : ℕ
  pub creating_count : ℕ
  pub validating_count : ℕ
  pub resetting_count : ℕ
  pub closing_count : ℕ
  pub waiting : ℕ
  pub leases_issued : ℕ
  pub failed : ℕ

unfoldable pub monitor : Pool → Monitor
monitor p =
    let at = λ (s : PhysicalState). count_of (is_state s) p.records in
    record {
      connections =
          at idle + at leased + length p.creating + at validating + at resetting + at closing;
      idle_count = at idle;
      leased_count = at leased;
      creating_count = length p.creating;
      validating_count = at validating;
      resetting_count = at resetting;
      closing_count = at closing;
      waiting = length p.waiters;
      leases_issued = p.last_lease_generation;
      failed =
          p.counters.creation_failures + p.counters.creation_aborts + p.counters.health_failures
          + p.counters.reset_failures + p.counters.destroy_failures + p.counters.lifecycle_timeouts
          + p.counters.shutdown_timeouts;
    }
