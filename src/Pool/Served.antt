-- ===== src/Pool/Served.antt =====
-- The dispatch answers waiters of the queue, and each once.
use open_rfc.Common.{
  length, ltb, ◌==◌, Bool-cases, Option-cases, if_both, ℕ, zero, suc, ◌≡◌, refl, inl, inr, true,
  false, ◌&&◌, ◌||◌, not, Option, none, some, List, arith,
}
use open_rfc.Pool.{Pool, Flight, granted, failure, acquire_timeout, lifecycle_timeout}
use open_rfc.Pool.Table.{is_open}
use open_rfc.Pool.Waiters.{answer, cleanup_waiter, find_waiter, reject_waiter, is_waiting}
use open_rfc.Pool.Resources.{destroy_all, return_all, is_empty}
use open_rfc.Pool.Acquire.{read_clock}
use open_rfc.Pool.Leases.{lease_all}
use open_rfc.Pool.Dispatch.{
  select, is_healthy, is_unhealthy, is_expired, is_head, all_settled, dispatch, dispatch_loop, pump,
  give_back, grant, commit_flight, resume_flight, resume_from,
}
use open_rfc.Pool.Capacity.{List-cases}
use open_rfc.Pool.Quiet.{
  SameQueue, SameQueue-trans, check_closed-SameQueue, read_clock-SameQueue,
  ensure_waiter_capacity-SameQueue, ensure_low_water-SameQueue, trim_idle_high-SameQueue,
  end_dispatch-SameQueue, check_out-SameQueue, destroy_all-SameQueue, return_all-SameQueue,
  lease_all-SameQueue,
}
use open_rfc.Pool.Tally.{
  Tallied, Tallied-refl, Tallied-trans, SameQueue-Tallied, answered-Tallied, reject_waiter-Tallied,
  find_waiter-is_waiting,
}

-- `a` is the pool before, in which nothing is rewritten.
dispatch_after :
    (a : Pool) (fuel : ℕ) (reading : Option ℕ) (p : Pool)
    → Tallied a p
    → Tallied a (dispatch_loop fuel reading p)
unfolding dispatch_loop
dispatch_after a zero reading p s = Tallied-trans s (SameQueue-Tallied (end_dispatch-SameQueue p))
dispatch_after a (suc fuel) reading p s = elim (Bool-cases (is_open p.state)) [
  | inr shut ↦
      rw (shut, dispatch_loop) (Tallied-trans s (SameQueue-Tallied (end_dispatch-SameQueue p)))
  | inl up ↦ elim (List-cases p.waiters) [
    | inl e ↦
        rw (up, e, dispatch_loop)
          (Tallied-trans s (
            SameQueue-Tallied (
              SameQueue-trans
                (SameQueue-trans (trim_idle_high-SameQueue p) (ensure_low_water-SameQueue _))
                (end_dispatch-SameQueue _))))
    | inr (w, ws, e) ↦ elim (Option-cases (read_clock reading p)) [
      | inl r ↦
          rw (up, e, r, dispatch_loop)
            (dispatch_after a fuel reading (reject_waiter w.id failure p)
              (Tallied-trans s (reject_waiter-Tallied w.id failure p)))
      | inr (read, r) ↦
          let g : Tallied a read =
            Tallied-trans s (SameQueue-Tallied (read_clock-SameQueue reading p read r)) in
          elim (Bool-cases (ltb read.last_clock w.deadline)) [
            | inr late ↦
                rw (up, e, r, late, dispatch_loop)
                  (dispatch_after a fuel reading (reject_waiter w.id acquire_timeout read)
                    (Tallied-trans g (reject_waiter-Tallied w.id acquire_timeout read)))
            | inl soon ↦ elim (Bool-cases (ltb (length read.idle_ids) w.count)) [
              | inl few ↦
                  rw (up, e, r, soon, few, dispatch_loop)
                    (Tallied-trans g (
                      SameQueue-Tallied (
                        SameQueue-trans (ensure_waiter_capacity-SameQueue w read)
                          (end_dispatch-SameQueue _))))
              | inr enough ↦
                  rw (up, e, r, soon, enough, dispatch_loop)
                    (Tallied-trans g (SameQueue-Tallied (check_out-SameQueue w read)))
            ]
          ]
    ]
  ]
]

dispatch-Tallied : (reading : Option ℕ) (p : Pool) → Tallied p (dispatch reading p)
dispatch-Tallied reading p = dispatch_after p _ reading p (Tallied-refl p)

pub pump-Tallied : (reading : Option ℕ) (p : Pool) → Tallied p (pump reading p)
unfolding pump
pump-Tallied reading p = if_both (Tallied p) (not p.pump_scheduled) (Tallied-refl p) (
    if_both (Tallied p) (not (is_open p.state) || p.dispatching)
      (record { same_tally = λ id. refl; next_same = refl })
      (let q : Pool = record p {
        pump_scheduled = false;
        dispatching = true;
        pump_requested = false;
      } in
        let t = dispatch-Tallied reading q in
        record { same_tally = t.same_tally; next_same = t.next_same }))

give_back-Tallied :
    (ids : List ℕ) (reading : Option ℕ) (p : Pool) → Tallied p (give_back ids reading p)
unfolding give_back
give_back-Tallied ids reading p =
    Tallied-trans
      (SameQueue-Tallied
        (SameQueue-trans (return_all-SameQueue ids p) (check_closed-SameQueue (return_all ids p))))
      (dispatch-Tallied reading _)

leases_answered :
    (id : ℕ) (ids : List ℕ) (q : Pool) (r : Pool)
    → SameQueue q r
    → Tallied (answer id (granted ids) q) (answer id (granted ids) r)
leases_answered id ids q r s = SameQueue-Tallied (ground arith)

grant-Tallied :
    (f : Flight) (ids : List ℕ) (p : Pool)
    → is_waiting f.waiter p.waiters ≡ true
    → Tallied p (grant f ids p)
unfolding grant
grant-Tallied f ids p e =
    let cleaned = cleanup_waiter f.waiter p in
    Tallied-trans (answered-Tallied f.waiter (granted ids) p e) (
      leases_answered f.waiter ids cleaned (lease_all ids cleaned)
        (lease_all-SameQueue ids cleaned))

commit_after :
    (f : Flight) (ids : List ℕ) (reading : Option ℕ) (a p : Pool)
    → Tallied a p
    → Tallied a (commit_flight f ids reading p)
unfolding commit_flight
commit_after f ids reading a p s = elim (Option-cases (read_clock reading p)) [
  | inl e ↦
      rw (e, commit_flight)
        (Tallied-trans s (
          Tallied-trans (reject_waiter-Tallied f.waiter failure p)
            (give_back-Tallied ids reading _)))
  | inr (read, e) ↦
      let g : Tallied a read =
        Tallied-trans s (SameQueue-Tallied (read_clock-SameQueue reading p read e)) in
      let back : Tallied a (give_back ids reading read) =
        Tallied-trans g (give_back-Tallied ids reading read) in
      elim (Option-cases (find_waiter f.waiter read.waiters)) [
        | inl n ↦ rw (e, n, commit_flight) back
        | inr (w, n) ↦
            let there = find_waiter-is_waiting f.waiter read.waiters w n in
            let served = grant-Tallied f ids read there in
            rw (e, n, commit_flight)
              (if_both (Tallied a) (not (ltb read.last_clock w.deadline))
                (Tallied-trans g (
                  Tallied-trans (reject_waiter-Tallied f.waiter acquire_timeout read)
                    (give_back-Tallied ids reading _)))
                (if_both (Tallied a) (not (length ids == f.count)) back
                  (Tallied-trans g (Tallied-trans served (dispatch-Tallied reading _)))))
      ]
]

resume_flight-Tallied :
    (f : Flight) (reading : Option ℕ) (p : Pool) → Tallied p (resume_flight f reading p)
unfolding resume_flight
resume_flight-Tallied f reading p =
    let ids = select is_healthy f.outcomes f.candidates in
    let bad = select is_unhealthy f.outcomes f.candidates in
    let q : Pool = record p { flight = none } in
    let cleared = destroy_all bad q in
    let s = destroy_all-SameQueue bad q in
    let t : Tallied p cleared = SameQueue-Tallied (ground arith) in
    if_both (Tallied p) (not (is_empty (select is_expired f.outcomes f.candidates)))
      (Tallied-trans t (
        Tallied-trans (SameQueue-Tallied (return_all-SameQueue ids cleared)) (
          Tallied-trans (reject_waiter-Tallied f.waiter lifecycle_timeout _)
            (dispatch-Tallied reading _))))
      (if_both (Tallied p) (not (is_open cleared.state && is_head f.waiter cleared.waiters))
        (Tallied-trans t (give_back-Tallied ids reading cleared))
        (commit_after f ids reading p cleared t))

pub resume_from-Tallied :
    (fl : Option Flight) (reading : Option ℕ) (p : Pool) → Tallied p (resume_from fl reading p)
unfolding resume_from
resume_from-Tallied none reading p = Tallied-refl p
resume_from-Tallied (some f) reading p =
    if_both (Tallied p) (all_settled f.candidates f.outcomes) (resume_flight-Tallied f reading p)
      (Tallied-refl p)
