-- ===== src/Pool/Bounds/Dispatching.antt =====
-- The dispatch keeps to the limits.
use open_rfc.Pool.Leases.{Settled}
use open_rfc.Pool.Dispatch.{
  select, is_healthy, is_head, resume_from, count_validation, commit_flight, settle_validation,
  is_expired, is_unhealthy, outcome_of, dispatch, grant, resume_flight, give_back, pump,
}
use open_rfc.Pool.Table.{is_open}
use open_rfc.Pool.Acquire.{read_clock}
use open_rfc.Pool.Resources.{is_empty, return_all, destroy_all}
use open_rfc.Pool.Capacity.{
  dispatch_loop-FitsLimits, read_clock-Shrinks, Shrinks-FitsLimits, FitsLimits,
}
use open_rfc.Pool.Waiters.{reject_waiter, cleanup_waiter, find_waiter}
use open_rfc.Common.{
  length, if◌then◌else◌, Bool-cases, Option-cases, ℕ, suc, inl, inr, Bool, true, false, ◌&&◌, not,
  Option, none, some, List, arith,
}
use open_rfc.Pool.Shrinks.{
  cleanup_waiter-Shrinks, lease_all-Shrinks, return_all-Shrinks, destroy_all-Shrinks,
  check_closed-Shrinks, reject_waiter-Shrinks, Shrinks, Shrinks-refl, Shrinks-trans,
}
use open_rfc.Pool.{Outcome, healthy, acquire_timeout, Flight, failure, lifecycle_timeout, Pool}

dispatch-FitsLimits :
    (reading : Option ℕ) (p : Pool) → FitsLimits p → FitsLimits (dispatch reading p)
dispatch-FitsLimits reading p f = dispatch_loop-FitsLimits (suc (length p.waiters)) reading p f

pub pump-FitsLimits : (reading : Option ℕ) (p : Pool) → FitsLimits p → FitsLimits (pump reading p)
unfolding pump
pump-FitsLimits reading p f = ground (
  arith,
  dispatch-FitsLimits reading
      (record p { pump_scheduled = false; dispatching = true; pump_requested = false }),
)

give_back-FitsLimits :
    (ids : List ℕ) (reading : Option ℕ) (p : Pool)
    → FitsLimits p
    → FitsLimits (give_back ids reading p)
unfolding give_back
give_back-FitsLimits ids reading p f = dispatch-FitsLimits reading _ (
    Shrinks-FitsLimits
      (Shrinks-trans (return_all-Shrinks ids p) (check_closed-Shrinks (return_all ids p))) f)

grant-Shrinks : (f : Flight) (ids : List ℕ) (p : Pool) → Shrinks p (grant f ids p)
unfolding grant
grant-Shrinks f ids p =
    Shrinks-trans
      (Shrinks-trans (cleanup_waiter-Shrinks f.waiter p)
        (lease_all-Shrinks ids (cleanup_waiter f.waiter p)))
      (ground arith)

count_validation-Shrinks :
    (s : Settled) (o : Outcome) (p : Pool) → Shrinks p (count_validation s o p)
unfolding count_validation
count_validation-Shrinks s o p = ground arith

pub settle_validation-Shrinks :
    (f : Option Flight) (id : ℕ) (s : Settled) (verdict : Bool) (p : Pool)
    → Shrinks p (settle_validation f id s verdict p)
unfolding settle_validation
settle_validation-Shrinks none id s verdict p = Shrinks-refl p
settle_validation-Shrinks (some f) id s verdict p = ground (
  arith,
  count_validation-Shrinks s
      (if p.config.validate_on_checkout then outcome_of s verdict else healthy) p,
)

commit_flight-FitsLimits :
    (fl : Flight) (ids : List ℕ) (reading : Option ℕ) (p : Pool)
    → FitsLimits p
    → FitsLimits (commit_flight fl ids reading p)
unfolding commit_flight
commit_flight-FitsLimits fl ids reading p f = elim (Option-cases (read_clock reading p)) [
  | inl r ↦
      rw (r, commit_flight)
        (give_back-FitsLimits ids reading _
          (Shrinks-FitsLimits (reject_waiter-Shrinks fl.waiter failure p) f))
  | inr (read, r) ↦
      let g : FitsLimits read = Shrinks-FitsLimits (read_clock-Shrinks reading p read r) f in
      elim (Option-cases (find_waiter fl.waiter read.waiters)) [
        | inl e ↦ rw (r, e, commit_flight) (give_back-FitsLimits ids reading read g)
        | inr (w, e) ↦
            let late =
              Shrinks-FitsLimits (reject_waiter-Shrinks fl.waiter acquire_timeout read) g in
            let given = Shrinks-FitsLimits (grant-Shrinks fl ids read) g in
            rw (r, e, commit_flight)
              (ground (
                arith,
                give_back-FitsLimits ids reading (reject_waiter fl.waiter acquire_timeout read)
                    late,
                give_back-FitsLimits ids reading read g,
                dispatch-FitsLimits reading (grant fl ids read) given,
              ))
      ]
]

resume_flight-FitsLimits :
    (fl : Flight) (reading : Option ℕ) (p : Pool)
    → FitsLimits p
    → FitsLimits (resume_flight fl reading p)
unfolding resume_flight
resume_flight-FitsLimits fl reading p f =
    let sound = select is_healthy fl.outcomes fl.candidates in
    let cleared =
      destroy_all (select is_unhealthy fl.outcomes fl.candidates) (record p { flight = none }) in
    let g : FitsLimits cleared =
      Shrinks-FitsLimits
        (Shrinks-trans (ground arith) (
          destroy_all-Shrinks (select is_unhealthy fl.outcomes fl.candidates)
            (record p { flight = none })))
        f in
    elim (Bool-cases (not (is_empty (select is_expired fl.outcomes fl.candidates)))) [
      | inl e ↦ rw e (
          dispatch-FitsLimits reading _ (
            Shrinks-FitsLimits
              (Shrinks-trans (return_all-Shrinks sound cleared)
                (reject_waiter-Shrinks fl.waiter lifecycle_timeout (return_all sound cleared)))
              g))
      | inr e ↦
          elim (Bool-cases (not (is_open cleared.state && is_head fl.waiter cleared.waiters))) [
            | inl h ↦ rw (e, h) (give_back-FitsLimits sound reading cleared g)
            | inr h ↦ rw (e, h) (commit_flight-FitsLimits fl sound reading cleared g)
          ]
    ]

pub resume_from-FitsLimits :
    (fl : Option Flight) (reading : Option ℕ) (p : Pool)
    → FitsLimits p
    → FitsLimits (resume_from fl reading p)
unfolding resume_from
resume_from-FitsLimits none reading p f = f
resume_from-FitsLimits (some fl) reading p f =
    ground (arith, resume_flight-FitsLimits fl reading p f)
