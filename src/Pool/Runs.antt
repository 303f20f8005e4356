-- ===== src/Pool/Runs.antt =====
-- Runs of a pool of two connections.
use open_rfc.Pool.Rounds.{rests, dispatch_total}
use open_rfc.Pool.Farewell.{begin_shutdown-Reach}
use open_rfc.Pool.Tally.{times_answered, tally, one_if}
use open_rfc.Pool.Answers.{tally-Reach, was_issued}
use open_rfc.Pool.Refusal.{release-run, is_error}
use open_rfc.Pool.Checkout.{candidates_of}
use open_rfc.Pool.Exclusion.{holders-Reach}
use open_rfc.Pool.Monitoring.{monitor-Reach}
use open_rfc.Pool.Bounds.{Reach-FitsLimits}
use open_rfc.Pool.Capacity.{FitsLimits}
use open_rfc.Pool.Waiters.{
  reject_waiter, cleanup_waiter, reject_waiters, reconcile_creations, reconcile_loop, request_pump,
}
use open_rfc.Pool.Resources.{
  trim_idle_high, trim_loop, ensure_low_water, ensure_waiter_capacity, start_creations,
  start_creation, return_to_pool, end_handoff, push_idle, keep_idle, destroy, check_closed,
  surface_failures, finish_close, fail_close,
}
use open_rfc.Pool.Dispatch.{
  dispatch, commit_flight, settle_validation, resume_from, count_validation, resume_flight, grant,
  give_back, validation_settled, check_out, end_dispatch, dispatch_loop,
}
use open_rfc.Pool.Acquire.{acquire, admit_acquire, read_clock}
use open_rfc.Common.{
  length, natural, Result, ok, err, suc, ◌+◌, ◌≤◌, ◌≡◌, refl, true, false, none, some, List, [],
  ◌∷◌, ◌++◌,
}
use open_rfc.Pool.Dispatch.{pump, resume}
use open_rfc.Pool.Steps.{
  after, run-Reach, step, Event, run, open_pool, acquires, pumps, creates, validates, resumes,
  releases, destroys, shuts_down,
}
use open_rfc.Pool.Leases.{
  begin_operation, begin_reset, return_ready, after_reset, finish_reset, let_go, destroy_fails,
  finish_destroy, recycle, destroy_settled, release, active_lease_record, lease_all, lease,
  fulfilled, ReleaseOptions,
}
use open_rfc.Pool.Creations.{place, creation_answered, creation_settled, adopt, made}
use open_rfc.Pool.Shutdown.{shutdown_from, begin_shutdown, stop_work, close}
use open_rfc.Pool.Ownership.{held, Have, Distinct, holders}
use open_rfc.Pool.Steps.{goes}
use open_rfc.Pool.{opened}
use open_rfc.Pool.Resources.{capacity}
use open_rfc.Pool.Shutdown.{monitor}
use open_rfc.Pool.Steps.{starts, Reach}
use open_rfc.Pool.{PoolError, Pool, Config, granted, closed}

abbrev two : Config
two = record {
  pool_id = 1;
  max_connections = 2;
  max_waiters = 4;
  acquire_timeout = 100;
  low_water = 0;
  idle_high = 1;
  validate_on_checkout = true;
  reset_on_release = false;
  has_reset = false;
}

abbrev first_lease : List Event
first_lease =
    acquires (natural 1) none false (some 5)
    ∷ pumps (some 5)
    ∷ creates 1 (made 77)
    ∷ pumps (some 6)
    ∷ validates 1 fulfilled true
    ∷ resumes (some 7)
    ∷ []

abbrev reusable : ReleaseOptions
reusable = record { reusable = true; idle_high = none }

leased_once : (run (open_pool two) first_lease).answers ≡ (1, granted (1 ∷ [])) ∷ []
unfolding read_clock admit_acquire acquire dispatch_loop end_dispatch check_out pump
    validation_settled settle_validation count_validation commit_flight resume_from shutdown_from
    creation_answered place give_back grant resume_flight resume lease lease_all active_lease_record
    release let_go recycle return_ready destroy_fails finish_destroy finish_reset after_reset
    destroy_settled fail_close finish_close surface_failures check_closed destroy keep_idle
    push_idle end_handoff return_to_pool start_creation start_creations ensure_waiter_capacity
    ensure_low_water trim_loop trim_idle_high stop_work begin_shutdown open_pool step run
    request_pump reconcile_loop reconcile_creations cleanup_waiter reject_waiter reject_waiters
    adopt creation_settled
leased_once = refl

closed_at_last :
    (run
      (open_pool two)
      (first_lease ++ (releases 1 reusable ∷ shuts_down close ∷ destroys 1 fulfilled ∷ []))).state
    ≡ closed
unfolding read_clock admit_acquire acquire dispatch_loop end_dispatch check_out pump
    validation_settled settle_validation count_validation commit_flight resume_from shutdown_from
    creation_answered place give_back grant resume_flight resume lease lease_all active_lease_record
    release let_go recycle return_ready destroy_fails finish_destroy finish_reset after_reset
    destroy_settled fail_close finish_close surface_failures check_closed destroy keep_idle
    push_idle end_handoff return_to_pool start_creation start_creations ensure_waiter_capacity
    ensure_low_water trim_loop trim_idle_high stop_work begin_shutdown open_pool step run
    request_pump reconcile_loop reconcile_creations cleanup_waiter reject_waiter reject_waiters
    adopt creation_settled
closed_at_last = refl

abbrev at_work : Pool
at_work = run (open_pool two) first_lease

at_work-Reach : Reach two at_work
at_work-Reach = run-Reach first_lease starts

Reach-FitsLimits_example : FitsLimits at_work
Reach-FitsLimits_example = Reach-FitsLimits two at_work at_work-Reach

monitor-Reach_example :
    ((monitor at_work).connections ≡ capacity at_work)
    × ((monitor at_work).connections ≤ at_work.config.max_connections)
    × ((monitor at_work).waiting ≤ at_work.config.max_waiters)
monitor-Reach_example = monitor-Reach two at_work at_work-Reach

holders-Reach_example :
    Distinct (holders at_work.leases ++ (at_work.idle_ids ++ candidates_of at_work.flight))
    × Have held at_work.records (holders at_work.leases)
holders-Reach_example = holders-Reach two at_work at_work-Reach

-- The pool of `at_work` when its lease is released.
abbrev given_back : Pool
given_back = after at_work (release at_work.config.pool_id 1 reusable at_work)

release_succeeds : is_error (release at_work.config.pool_id 1 reusable at_work) ≡ false
unfolding read_clock admit_acquire acquire dispatch_loop end_dispatch check_out pump
    validation_settled settle_validation count_validation commit_flight resume_from shutdown_from
    creation_answered place give_back grant resume_flight resume lease lease_all active_lease_record
    release let_go recycle return_ready destroy_fails finish_destroy finish_reset after_reset
    destroy_settled fail_close finish_close surface_failures check_closed destroy keep_idle
    push_idle end_handoff return_to_pool start_creation start_creations ensure_waiter_capacity
    ensure_low_water trim_loop trim_idle_high stop_work begin_shutdown open_pool step run
    request_pump reconcile_loop reconcile_creations cleanup_waiter reject_waiter reject_waiters
    adopt creation_settled
release_succeeds = refl

no_error : (p : Pool) (m : Result PoolError Pool) → is_error m ≡ false → m ≡ ok (after p m)
no_error p (ok q) e = refl
no_error p (err e) h = absurd (cc)

released_once : release at_work.config.pool_id 1 reusable at_work ≡ ok given_back
released_once =
    no_error at_work (release at_work.config.pool_id 1 reusable at_work) release_succeeds

abbrev later : List Event
later = pumps (some 8) ∷ acquires (natural 1) none false (some 9) ∷ pumps (some 9) ∷ []

release-run_example :
    (is_error (begin_operation at_work.config.pool_id 1 (run given_back later)) ≡ true)
    × (is_error (begin_reset at_work.config.pool_id 1 (run given_back later)) ≡ true)
    × (is_error (release at_work.config.pool_id 1 reusable (run given_back later)) ≡ true)
release-run_example =
    release-run two at_work given_back 1 reusable reusable later at_work-Reach released_once

tally-Reach_example : tally 1 at_work ≡ one_if (was_issued 1 at_work)
tally-Reach_example = tally-Reach two at_work 1 at_work-Reach

-- A second waiter stands in the queue.
abbrev second_waits : Pool
second_waits = step at_work (acquires (natural 1) none false (some 8))

second_waits-is_open : second_waits.state ≡ opened
unfolding read_clock admit_acquire acquire dispatch_loop end_dispatch check_out pump
    validation_settled settle_validation count_validation commit_flight resume_from shutdown_from
    creation_answered place give_back grant resume_flight resume lease lease_all active_lease_record
    release let_go recycle return_ready destroy_fails finish_destroy finish_reset after_reset
    destroy_settled fail_close finish_close surface_failures check_closed destroy keep_idle
    push_idle end_handoff return_to_pool start_creation start_creations ensure_waiter_capacity
    ensure_low_water trim_loop trim_idle_high stop_work begin_shutdown open_pool step run
    request_pump reconcile_loop reconcile_creations cleanup_waiter reject_waiter reject_waiters
    adopt creation_settled
second_waits-is_open = refl

begin_shutdown-Reach_example :
    ((begin_shutdown close second_waits).waiters ≡ [])
    × (times_answered 2 (begin_shutdown close second_waits).answers
        ≡ one_if (was_issued 2 second_waits))
begin_shutdown-Reach_example =
    begin_shutdown-Reach two second_waits close 2
      (goes (acquires (natural 1) none false (some 8)) at_work-Reach) second_waits-is_open

dispatch_total_example :
    (dispatch_loop (3 + suc (length second_waits.waiters)) (some 9) second_waits
      ≡ dispatch (some 9) second_waits)
    × (rests (dispatch (some 9) second_waits) ≡ true)
dispatch_total_example = dispatch_total 3 (some 9) second_waits
