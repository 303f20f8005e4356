-- ===== src/Pool/Still.antt =====
-- The operations that touch neither the connections nor who owns them.
use open_rfc.Pool.Shutdown.{shutdown_timed_out}
use open_rfc.Pool.Table.{is_open}
use open_rfc.Pool.Acquire.{
  enqueue, acquire, handle_timeout, admit_acquire, read_clock, early_timeout, rearm_timeout,
}
use open_rfc.Pool.Steps.{after_acquire}
use open_rfc.Pool.Waiters.{
  answer, reject_waiters, find_waiter, reject_waiter, request_pump, reconcile_creations,
  cleanup_waiter,
}
use open_rfc.Pool.Resources.{
  fail_close, check_closed, ensure_waiter_capacity, start_creations, ensure_low_water,
  start_creation, surface_failures, finish_close,
}
use open_rfc.Pool.Creations.{
  creation_refused, creation_failed_after_removal, reject_owner, creation_expired, find_creation,
  creation_timed_out, expire_creation,
}
use open_rfc.Common.{
  Number, Result-cases, ◌==◌, Bool-cases, Option-cases, ℕ, zero, suc, ◌-◌, ◌≡◌, inl, inr, Bool,
  ◌||◌, Option, none, some, List, [], ◌∷◌, arith,
}
use open_rfc.Pool.{
  refused, acquire_timeout, failure, pool_closed, lifecycle_timeout, Pool, Creation, Waiter,
  PoolError,
}

pub record Still (p q : Pool) : Type 0 where
  pub records_still : q.records ≡ p.records
  pub leases_still : q.leases ≡ p.leases
  pub idle_still : q.idle_ids ≡ p.idle_ids
  pub flight_still : q.flight ≡ p.flight
  pub dispatching_still : q.dispatching ≡ p.dispatching
  pub next_still : q.next_physical_id ≡ p.next_physical_id
  pub last_still : q.last_lease_generation ≡ p.last_lease_generation

pub Still-refl : (p : Pool) → Still p p
Still-refl p = ground arith

pub Still-trans : {p q r : Pool} → Still p q → Still q r → Still p r
Still-trans a b = ground arith

pub request_pump-Still : (p : Pool) → Still p (request_pump p)
unfolding request_pump
request_pump-Still p = ground arith

pub cleanup_waiter-Still : (id : ℕ) (p : Pool) → Still p (cleanup_waiter id p)
unfolding cleanup_waiter reconcile_creations
cleanup_waiter-Still id p = ground arith

pub reject_waiter-Still : (id : ℕ) (e : PoolError) (p : Pool) → Still p (reject_waiter id e p)
unfolding reject_waiter
reject_waiter-Still id e p = ground (
  arith,
  cleanup_waiter-Still id p,
  request_pump-Still (answer id (refused e) (cleanup_waiter id p)),
)

pub reject_waiters-Still :
    (ws : List Waiter) (e : PoolError) (p : Pool) → Still p (reject_waiters ws e p)
unfolding reject_waiters
reject_waiters-Still [] e p = Still-refl p
reject_waiters-Still (w ∷ ws) e p =
    Still-trans (reject_waiter-Still w.id e p) (reject_waiters-Still ws e (reject_waiter w.id e p))

pub fail_close-Still : (p : Pool) → Still p (fail_close p)
unfolding fail_close
fail_close-Still p = ground arith

pub check_closed-Still : (p : Pool) → Still p (check_closed p)
unfolding check_closed surface_failures finish_close
check_closed-Still p = ground (arith, fail_close-Still p)

pub settle-Still : (p : Pool) → Still p (check_closed (request_pump p))
settle-Still p = Still-trans (request_pump-Still p) (check_closed-Still (request_pump p))

start_creation-Still : (owner : Option ℕ) (p : Pool) → Still p (start_creation owner p)
unfolding start_creation
start_creation-Still owner p = ground arith

start_creations-Still : (n : ℕ) (owner : Option ℕ) (p : Pool) → Still p (start_creations n owner p)
unfolding start_creations
start_creations-Still zero owner p = Still-refl p
start_creations-Still (suc n) owner p =
    Still-trans (start_creation-Still owner p)
      (start_creations-Still n owner (start_creation owner p))

pub ensure_waiter_capacity-Still : (w : Waiter) (p : Pool) → Still p (ensure_waiter_capacity w p)
unfolding ensure_waiter_capacity
ensure_waiter_capacity-Still w p = start_creations-Still _ (some w.id) p

pub ensure_low_water-Still : (p : Pool) → Still p (ensure_low_water p)
unfolding ensure_low_water
ensure_low_water-Still p = elim (Bool-cases (p.low_water_blocked || (p.config.low_water == 0))) [
  | inl e ↦ rw e (Still-refl p)
  | inr e ↦ rw e (start_creations-Still _ none p)
]

pub read_clock-Still : (reading : Option ℕ) (p q : Pool) → read_clock reading p ≡ some q → Still p q
unfolding read_clock
read_clock-Still none p q e = absurd (cc)
read_clock-Still (some now) p q e = ground arith

reject_owner-Still :
    (owner : Option ℕ) (e : PoolError) (p : Pool) → Still p (reject_owner owner e p)
reject_owner-Still none e p = Still-refl p
reject_owner-Still (some id) e p = reject_waiter-Still id e p

pub creation_refused-Still :
    (c : Creation) (e : PoolError) (p : Pool) → Still p (creation_refused c e p)
unfolding creation_refused creation_failed_after_removal
creation_refused-Still c e p = elim (Bool-cases c.expired) [
  | inl late ↦ rw late (settle-Still p)
  | inr early ↦
      rw early
        (Still-trans (ground arith) (Still-trans (reject_owner-Still c.owner e _) (settle-Still _)))
]

creation_expired-Still : (c : Creation) (p : Pool) → Still p (creation_expired c p)
unfolding creation_expired expire_creation
creation_expired-Still c p = elim (Bool-cases c.expired) [
  | inl late ↦ rw late (Still-refl p)
  | inr early ↦ rw early (
      Still-trans (ground arith) (
        Still-trans (reject_owner-Still c.owner lifecycle_timeout _)
          (Still-trans (fail_close-Still _) (settle-Still _))))
]

pub creation_timed_out-Still : (id : ℕ) (p : Pool) → Still p (creation_timed_out id p)
unfolding creation_timed_out
creation_timed_out-Still id p = elim (Option-cases (find_creation id p.creating)) [
  | inl e ↦ rw (e, creation_timed_out) (Still-refl p)
  | inr (c, e) ↦ rw (e, creation_timed_out) (creation_expired-Still c p)
]

pub shutdown_timed_out-Still : (p : Pool) → Still p (shutdown_timed_out p)
unfolding shutdown_timed_out fail_close
shutdown_timed_out-Still p = ground arith

pub acquire-Still :
    (count : Number) (timeout : Option ℕ) (aborted : Bool) (reading : Option ℕ) (p : Pool)
    → Still p (after_acquire p (acquire count timeout aborted reading p))
unfolding acquire
acquire-Still count timeout aborted reading p = elim (Bool-cases (is_open p.state)) [
  | inr shut ↦ rw shut (Still-refl p)
  | inl up ↦ elim (Result-cases (admit_acquire count timeout aborted p)) [
    | inr (e, no_entry) ↦ rw (up, no_entry) (Still-refl p)
    | inl (a, entry) ↦ elim (Option-cases (read_clock reading p)) [
      | inl r ↦ rw (up, entry, r) (Still-refl p)
      | inr (read, r) ↦
          rw (up, entry, r)
            (Still-trans (read_clock-Still reading p read r) (
              Still-trans (ground arith)
                (request_pump-Still (enqueue a.0 a.1 read.last_clock read))))
    ]
  ]
]

early_timeout-Still :
    (w : Waiter) (left scheduled : ℕ) (p : Pool) → Still p (early_timeout w left scheduled p)
unfolding early_timeout
early_timeout-Still w left scheduled p = ground (arith, reject_waiter-Still w.id failure p)

pub handle_timeout-Still :
    (id generation scheduled : ℕ) (reading : Option ℕ) (p : Pool)
    → Still p (handle_timeout id generation scheduled reading p)
unfolding handle_timeout
handle_timeout-Still id generation scheduled reading p =
    elim (Option-cases (find_waiter id p.waiters)) [
      | inl e ↦ rw (e, handle_timeout) (Still-refl p)
      | inr (w, e) ↦ elim (Option-cases (read_clock reading p)) [
        | inl r ↦ rw (e, r, handle_timeout) (ground (arith, reject_waiter-Still id failure p))
        | inr (read, r) ↦
            rw (e, r, handle_timeout)
              (ground (
                arith,
                read_clock-Still reading p read r,
                reject_waiter-Still id pool_closed read,
                reject_waiter-Still id acquire_timeout read,
                early_timeout-Still w (w.deadline - read.last_clock) scheduled read,
              ))
      ]
    ]

pub rearm_timeout-Still :
    (id generation : ℕ) (reading : Option ℕ) (p : Pool)
    → Still p (rearm_timeout id generation reading p)
unfolding rearm_timeout
rearm_timeout-Still id generation reading p = elim (Option-cases (find_waiter id p.waiters)) [
  | inl e ↦ rw (e, rearm_timeout) (Still-refl p)
  | inr (w, e) ↦ elim (Option-cases (read_clock reading p)) [
    | inl r ↦
        rw (e, r, rearm_timeout)
          (ground (arith, reject_waiter-Still id failure p, reject_waiter-Still id pool_closed p))
    | inr (read, r) ↦
        rw (e, r, rearm_timeout)
          (ground (arith, read_clock-Still reading p read r, reject_waiter-Still id pool_closed p))
  ]
]
