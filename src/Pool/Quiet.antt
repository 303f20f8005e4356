-- ===== src/Pool/Quiet.antt =====
-- The operations that leave the queue and the answers alone.
use open_rfc.Pool.Table.{is_open, find, set_recycle, on_record, enter}
use open_rfc.Pool.Acquire.{read_clock}
use open_rfc.Pool.Waiters.{request_pump}
use open_rfc.Pool.Resources.{
  fail_close, check_closed, ensure_waiter_capacity, start_creations, ensure_low_water,
  start_creation, surface_failures, finish_close, destroy, destroy_all, return_to_pool, keep_idle,
  end_handoff, push_idle, return_all, trim_loop, clear_recycle, last_id, is_empty, trim_idle_high,
  effective_high,
}
use open_rfc.Common.{
  length, take, drop, ltb, ◌==◌, Bool-cases, Option-cases, if_both, ℕ, zero, suc, ◌≡◌, inl, inr,
  Bool, false, ◌||◌, not, Option, none, some, List, [], ◌∷◌, arith,
}
use open_rfc.Pool.{Pool, Waiter, Flight, validating, validate_work}
use open_rfc.Pool.Leases.{lease, lease_all, Settled}
use open_rfc.Pool.Dispatch.{
  end_dispatch, validate_all, check_out, count_validation, settle_validation,
}

pub record SameQueue (p q : Pool) : Type 0 where
  pub same_waiters : q.waiters ≡ p.waiters
  pub same_answers : q.answers ≡ p.answers
  pub same_next : q.next_waiter_id ≡ p.next_waiter_id

pub SameQueue-refl : (p : Pool) → SameQueue p p
SameQueue-refl p = ground arith

pub SameQueue-trans : {p q r : Pool} → SameQueue p q → SameQueue q r → SameQueue p r
SameQueue-trans a b = ground arith

pub request_pump-SameQueue : (p : Pool) → SameQueue p (request_pump p)
unfolding request_pump
request_pump-SameQueue p = ground arith

pub fail_close-SameQueue : (p : Pool) → SameQueue p (fail_close p)
unfolding fail_close
fail_close-SameQueue p = ground arith

pub check_closed-SameQueue : (p : Pool) → SameQueue p (check_closed p)
unfolding check_closed surface_failures finish_close
check_closed-SameQueue p = ground (arith, fail_close-SameQueue p)

pub settle-SameQueue : (p : Pool) → SameQueue p (check_closed (request_pump p))
settle-SameQueue p =
    SameQueue-trans (request_pump-SameQueue p) (check_closed-SameQueue (request_pump p))

pub start_creation-SameQueue : (owner : Option ℕ) (p : Pool) → SameQueue p (start_creation owner p)
unfolding start_creation
start_creation-SameQueue owner p = ground arith

pub start_creations-SameQueue :
    (n : ℕ) (owner : Option ℕ) (p : Pool) → SameQueue p (start_creations n owner p)
unfolding start_creations
start_creations-SameQueue zero owner p = SameQueue-refl p
start_creations-SameQueue (suc n) owner p =
    SameQueue-trans (start_creation-SameQueue owner p)
      (start_creations-SameQueue n owner (start_creation owner p))

pub ensure_waiter_capacity-SameQueue :
    (w : Waiter) (p : Pool) → SameQueue p (ensure_waiter_capacity w p)
unfolding ensure_waiter_capacity
ensure_waiter_capacity-SameQueue w p = start_creations-SameQueue _ (some w.id) p

pub ensure_low_water-SameQueue : (p : Pool) → SameQueue p (ensure_low_water p)
unfolding ensure_low_water
ensure_low_water-SameQueue p =
    elim (Bool-cases (p.low_water_blocked || (p.config.low_water == 0))) [
      | inl e ↦ rw e (SameQueue-refl p)
      | inr e ↦ rw e (start_creations-SameQueue _ none p)
    ]

pub read_clock-SameQueue :
    (reading : Option ℕ) (p q : Pool) → read_clock reading p ≡ some q → SameQueue p q
unfolding read_clock
read_clock-SameQueue none p q e = absurd (cc)
read_clock-SameQueue (some now) p q e = ground arith

pub destroy-SameQueue : (id : ℕ) (p : Pool) → SameQueue p (destroy id p)
unfolding destroy
destroy-SameQueue id p = ground arith

pub destroy_all-SameQueue : (ids : List ℕ) (p : Pool) → SameQueue p (destroy_all ids p)
destroy_all-SameQueue [] p = ground arith
destroy_all-SameQueue (id ∷ ids) p =
    SameQueue-trans (destroy-SameQueue id p) (destroy_all-SameQueue ids (destroy id p))

pub keep_idle-SameQueue : (id : ℕ) (p : Pool) → SameQueue p (keep_idle id p)
unfolding keep_idle end_handoff push_idle
keep_idle-SameQueue id p = ground arith

pub return_to_pool-SameQueue : (id : ℕ) (p : Pool) → SameQueue p (return_to_pool id p)
unfolding return_to_pool
return_to_pool-SameQueue id p = elim (Option-cases (find id p.records)) [
  | inl e ↦ rw (e, return_to_pool) (ground arith)
  | inr (r, e) ↦
      rw (e, return_to_pool)
        (ground (
          arith,
          destroy-SameQueue id p,
          keep_idle-SameQueue id p,
          destroy-SameQueue id (on_record id (set_recycle none) p),
        ))
]

pub return_all-SameQueue : (ids : List ℕ) (p : Pool) → SameQueue p (return_all ids p)
return_all-SameQueue [] p = ground arith
return_all-SameQueue (id ∷ ids) p =
    SameQueue-trans (return_to_pool-SameQueue id p) (return_all-SameQueue ids (return_to_pool id p))

pub lease-SameQueue : (id : ℕ) (p : Pool) → SameQueue p (lease id p)
unfolding lease
lease-SameQueue id p = ground arith

pub lease_all-SameQueue : (ids : List ℕ) (p : Pool) → SameQueue p (lease_all ids p)
unfolding lease_all
lease_all-SameQueue [] p = ground arith
lease_all-SameQueue (id ∷ ids) p =
    SameQueue-trans (lease-SameQueue id p) (lease_all-SameQueue ids (lease id p))

pub trim_loop-SameQueue : (fuel high : ℕ) (p : Pool) → SameQueue p (trim_loop fuel high p)
unfolding trim_loop
trim_loop-SameQueue zero high p = ground arith
trim_loop-SameQueue (suc fuel) high p = elim (Bool-cases (ltb high (length p.idle_ids))) [
  | inr done ↦ rw (done, trim_loop) (ground arith)
  | inl more ↦
      let a = destroy-SameQueue (last_id p.idle_ids) p in
      let b = trim_loop-SameQueue fuel high (destroy (last_id p.idle_ids) p) in
      rw (more, trim_loop) (ground arith)
]

pub clear_recycle-SameQueue : (ids : List ℕ) (p : Pool) → SameQueue p (clear_recycle ids p)
clear_recycle-SameQueue [] p = ground arith
clear_recycle-SameQueue (id ∷ ids) p =
    let a = clear_recycle-SameQueue ids (on_record id (set_recycle none) p) in ground arith

pub trim_idle_high-SameQueue : (p : Pool) → SameQueue p (trim_idle_high p)
unfolding trim_idle_high
trim_idle_high-SameQueue p =
    let q = trim_loop (length p.idle_ids) (effective_high p.idle_ids p) p in
    if_both (SameQueue p) (not (is_open p.state) || not (is_empty p.waiters)) (SameQueue-refl p) (
      SameQueue-trans (trim_loop-SameQueue (length p.idle_ids) (effective_high p.idle_ids p) p)
        (clear_recycle-SameQueue q.idle_ids q))

pub validate_all-SameQueue : (ids : List ℕ) (p : Pool) → SameQueue p (validate_all ids p)
validate_all-SameQueue [] p = ground arith
validate_all-SameQueue (id ∷ ids) p =
    let a = validate_all-SameQueue ids (on_record id (enter validating validate_work) p) in
    ground arith

pub check_out-SameQueue : (w : Waiter) (p : Pool) → SameQueue p (check_out w p)
unfolding check_out
check_out-SameQueue w p =
    let taken = take w.count p.idle_ids in
    let q : Pool = record p {
      idle_ids = drop w.count p.idle_ids;
      flight = some (record { waiter = w.id; count = w.count; candidates = taken; outcomes = [] });
    } in
    let a = validate_all-SameQueue taken q in ground arith

pub end_dispatch-SameQueue : (p : Pool) → SameQueue p (end_dispatch p)
unfolding end_dispatch
end_dispatch-SameQueue p =
    let q : Pool = record p { dispatching = false } in
    if_both (SameQueue p) p.pump_requested
      (SameQueue-trans (ground arith) (request_pump-SameQueue q)) (ground arith)

pub settle_validation-SameQueue :
    (fl : Option Flight) (id : ℕ) (s : Settled) (verdict : Bool) (p : Pool)
    → SameQueue p (settle_validation fl id s verdict p)
unfolding settle_validation count_validation
settle_validation-SameQueue none id s verdict p = SameQueue-refl p
settle_validation-SameQueue (some f) id s verdict p = ground arith
