-- ===== src/Pool/SameLeases.antt =====
-- The operations that neither issue, use nor end a lease.
use open_rfc.Common.{
  length, take, drop, ltb, Bool-cases, Option-cases, if_both, ℕ, zero, suc, ◌≡◌, inl, inr, Bool,
  true, false, ◌||◌, not, Option, none, some, List, [], ◌∷◌, arith,
}
use open_rfc.Pool.{Pool, Flight, Waiter, validating, validate_work, failure, acquire_timeout}
use open_rfc.Pool.Table.{find, is_open, set_recycle, on_record, enter}
use open_rfc.Pool.Waiters.{reject_waiter}
use open_rfc.Pool.Resources.{
  destroy, destroy_all, return_to_pool, keep_idle, end_handoff, push_idle, return_all, trim_loop,
  clear_recycle, last_id, is_empty, trim_idle_high, effective_high,
}
use open_rfc.Pool.Acquire.{read_clock}
use open_rfc.Pool.Dispatch.{
  dispatch, end_dispatch, validate_all, check_out, dispatch_loop, pump, give_back, count_validation,
  settle_validation,
}
use open_rfc.Pool.Leases.{Settled}
use open_rfc.Pool.Capacity.{List-cases}
use open_rfc.Pool.Still.{
  Still, request_pump-Still, reject_waiter-Still, check_closed-Still, read_clock-Still,
  ensure_low_water-Still, ensure_waiter_capacity-Still,
}

pub record SameLeases (p q : Pool) : Type 0 where
  pub same_leases : q.leases ≡ p.leases
  pub same_last : q.last_lease_generation ≡ p.last_lease_generation

pub SameLeases-refl : (p : Pool) → SameLeases p p
SameLeases-refl p = ground arith

pub SameLeases-trans : {p q r : Pool} → SameLeases p q → SameLeases q r → SameLeases p r
SameLeases-trans a b = ground arith

pub Still-SameLeases : {p q : Pool} → Still p q → SameLeases p q
Still-SameLeases s = ground arith

pub destroy-SameLeases : (id : ℕ) (p : Pool) → SameLeases p (destroy id p)
unfolding destroy
destroy-SameLeases id p = ground arith

pub destroy_all-SameLeases : (ids : List ℕ) (p : Pool) → SameLeases p (destroy_all ids p)
destroy_all-SameLeases [] p = ground arith
destroy_all-SameLeases (id ∷ ids) p =
    SameLeases-trans (destroy-SameLeases id p) (destroy_all-SameLeases ids (destroy id p))

keep_idle-SameLeases : (id : ℕ) (p : Pool) → SameLeases p (keep_idle id p)
unfolding keep_idle end_handoff push_idle
keep_idle-SameLeases id p = ground arith

pub return_to_pool-SameLeases : (id : ℕ) (p : Pool) → SameLeases p (return_to_pool id p)
unfolding return_to_pool
return_to_pool-SameLeases id p = elim (Option-cases (find id p.records)) [
  | inl e ↦ rw (e, return_to_pool) (ground arith)
  | inr (r, e) ↦
      rw (e, return_to_pool)
        (ground (
          arith,
          destroy-SameLeases id p,
          keep_idle-SameLeases id p,
          destroy-SameLeases id (on_record id (set_recycle none) p),
        ))
]

pub return_all-SameLeases : (ids : List ℕ) (p : Pool) → SameLeases p (return_all ids p)
return_all-SameLeases [] p = ground arith
return_all-SameLeases (id ∷ ids) p =
    SameLeases-trans (return_to_pool-SameLeases id p)
      (return_all-SameLeases ids (return_to_pool id p))

trim_loop-SameLeases : (fuel high : ℕ) (p : Pool) → SameLeases p (trim_loop fuel high p)
unfolding trim_loop
trim_loop-SameLeases zero high p = ground arith
trim_loop-SameLeases (suc fuel) high p = elim (Bool-cases (ltb high (length p.idle_ids))) [
  | inr done ↦ rw (done, trim_loop) (ground arith)
  | inl more ↦
      rw (more, trim_loop)
        (SameLeases-trans (destroy-SameLeases (last_id p.idle_ids) p)
          (trim_loop-SameLeases fuel high (destroy (last_id p.idle_ids) p)))
]

clear_recycle-SameLeases : (ids : List ℕ) (p : Pool) → SameLeases p (clear_recycle ids p)
clear_recycle-SameLeases [] p = ground arith
clear_recycle-SameLeases (id ∷ ids) p =
    let a = clear_recycle-SameLeases ids (on_record id (set_recycle none) p) in ground arith

trim_idle_high-SameLeases : (p : Pool) → SameLeases p (trim_idle_high p)
unfolding trim_idle_high
trim_idle_high-SameLeases p =
    let q = trim_loop (length p.idle_ids) (effective_high p.idle_ids p) p in
    if_both (SameLeases p) (not (is_open p.state) || not (is_empty p.waiters)) (SameLeases-refl p) (
      SameLeases-trans (trim_loop-SameLeases (length p.idle_ids) (effective_high p.idle_ids p) p)
        (clear_recycle-SameLeases q.idle_ids q))

validate_all-SameLeases : (ids : List ℕ) (p : Pool) → SameLeases p (validate_all ids p)
validate_all-SameLeases [] p = ground arith
validate_all-SameLeases (id ∷ ids) p =
    let a = validate_all-SameLeases ids (on_record id (enter validating validate_work) p) in
    ground arith

check_out-SameLeases : (w : Waiter) (p : Pool) → SameLeases p (check_out w p)
unfolding check_out
check_out-SameLeases w p =
    let taken = take w.count p.idle_ids in
    let q : Pool = record p {
      idle_ids = drop w.count p.idle_ids;
      flight = some (record { waiter = w.id; count = w.count; candidates = taken; outcomes = [] });
    } in
    let a = validate_all-SameLeases taken q in ground arith

end_dispatch-SameLeases : (p : Pool) → SameLeases p (end_dispatch p)
unfolding end_dispatch
end_dispatch-SameLeases p =
    let q : Pool = record p { dispatching = false } in
    if_both (SameLeases p) p.pump_requested
      (SameLeases-trans (ground arith) (Still-SameLeases (request_pump-Still q))) (ground arith)

-- `a` is the pool before the pump, in which nothing is rewritten.
dispatch_after :
    (a : Pool) (fuel : ℕ) (reading : Option ℕ) (p : Pool)
    → SameLeases a p
    → SameLeases a (dispatch_loop fuel reading p)
unfolding dispatch_loop
dispatch_after a zero reading p s = SameLeases-trans s (end_dispatch-SameLeases p)
dispatch_after a (suc fuel) reading p s = elim (Bool-cases (is_open p.state)) [
  | inr shut ↦ rw (shut, dispatch_loop) (SameLeases-trans s (end_dispatch-SameLeases p))
  | inl up ↦ elim (List-cases p.waiters) [
    | inl e ↦
        rw (up, e, dispatch_loop)
          (SameLeases-trans s (
            SameLeases-trans
              (SameLeases-trans (trim_idle_high-SameLeases p)
                (Still-SameLeases (ensure_low_water-Still _)))
              (end_dispatch-SameLeases _)))
    | inr (w, ws, e) ↦ elim (Option-cases (read_clock reading p)) [
      | inl r ↦
          rw (up, e, r, dispatch_loop)
            (dispatch_after a fuel reading (reject_waiter w.id failure p)
              (SameLeases-trans s (Still-SameLeases (reject_waiter-Still w.id failure p))))
      | inr (read, r) ↦
          let g : SameLeases a read =
            SameLeases-trans s (Still-SameLeases (read_clock-Still reading p read r)) in
          elim (Bool-cases (ltb read.last_clock w.deadline)) [
            | inr late ↦
                rw (up, e, r, late, dispatch_loop)
                  (dispatch_after a fuel reading (reject_waiter w.id acquire_timeout read) (
                    SameLeases-trans g
                      (Still-SameLeases (reject_waiter-Still w.id acquire_timeout read))))
            | inl soon ↦ elim (Bool-cases (ltb (length read.idle_ids) w.count)) [
              | inl few ↦
                  rw (up, e, r, soon, few, dispatch_loop)
                    (SameLeases-trans g (
                      SameLeases-trans (Still-SameLeases (ensure_waiter_capacity-Still w read))
                        (end_dispatch-SameLeases _)))
              | inr enough ↦
                  rw (up, e, r, soon, enough, dispatch_loop)
                    (SameLeases-trans g (check_out-SameLeases w read))
            ]
          ]
    ]
  ]
]

pub dispatch-SameLeases : (reading : Option ℕ) (p : Pool) → SameLeases p (dispatch reading p)
dispatch-SameLeases reading p = dispatch_after p _ reading p (SameLeases-refl p)

pub pump-SameLeases : (reading : Option ℕ) (p : Pool) → SameLeases p (pump reading p)
unfolding pump
pump-SameLeases reading p = if_both (SameLeases p) (not p.pump_scheduled) (SameLeases-refl p) (
    if_both (SameLeases p) (not (is_open p.state) || p.dispatching) (ground arith) (
      let q : Pool = record p {
        pump_scheduled = false;
        dispatching = true;
        pump_requested = false;
      } in
      let a = dispatch-SameLeases reading q in ground arith))

pub give_back-SameLeases :
    (ids : List ℕ) (reading : Option ℕ) (p : Pool) → SameLeases p (give_back ids reading p)
unfolding give_back
give_back-SameLeases ids reading p = SameLeases-trans (return_all-SameLeases ids p) (
    SameLeases-trans (Still-SameLeases (check_closed-Still (return_all ids p)))
      (dispatch-SameLeases reading _))

pub settle_validation-SameLeases :
    (fl : Option Flight) (id : ℕ) (s : Settled) (verdict : Bool) (p : Pool)
    → SameLeases p (settle_validation fl id s verdict p)
unfolding settle_validation count_validation
settle_validation-SameLeases none id s verdict p = SameLeases-refl p
settle_validation-SameLeases (some f) id s verdict p = ground arith
