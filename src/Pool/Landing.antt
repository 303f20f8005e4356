-- ===== src/Pool/Landing.antt =====
-- The end of a round of the dispatch: what it holds is leased, given back or destroyed.
use open_rfc.Common.{
  length, All, ltb, ◌==◌, Bool-cases, Option-cases, ℕ, ◌≡◌, refl, ap, ◌∙◌, inl, inr, true, ◌&&◌,
  not, Option, none, List, [], ◌∷◌,
}
use open_rfc.Pool.{Pool, Physical, Flight, failure, acquire_timeout, lifecycle_timeout}
use open_rfc.Pool.Table.{is_open}
use open_rfc.Pool.Waiters.{cleanup_waiter, reject_waiter, find_waiter}
use open_rfc.Pool.Resources.{destroy, destroy_all, return_all, check_closed, is_empty}
use open_rfc.Pool.Acquire.{read_clock}
use open_rfc.Pool.Leases.{lease_all}
use open_rfc.Pool.Dispatch.{
  select, is_healthy, is_unhealthy, is_expired, is_head, dispatch, give_back, grant, commit_flight,
  resume_flight,
}
use open_rfc.Pool.Ownership.{NotIn, NotIn-status, Have, Own, holders, held, in_check}
use open_rfc.Pool.Still.{
  Still, reject_waiter-Still, cleanup_waiter-Still, check_closed-Still, read_clock-Still,
}
use open_rfc.Pool.Owners.{Owned, Still-Owned, destroy-Owned, return_all-Owned, lease_all-Owned}
use open_rfc.Pool.Steady.{
  SameFlight, leases-destroy, destroy_all-SameFlight, return_all-SameFlight, lease_all-SameFlight,
}
use open_rfc.Pool.Checkout.{Sound, Looping, dispatch_loop-Sound}
use open_rfc.Pool.Chosen.{All-select, select-NotIn, Own-select}

-- The dispatch runs and has taken the connections `cs` out of its flight.
record Landed (cs : List ℕ) (p : Pool) : Type 0 where
  grounded : p.flight ≡ none
  at_work : p.dispatching ≡ true
  holds : Owned cs p

Still-Landed : {cs : List ℕ} {p q : Pool} → Still p q → Landed cs p → Landed cs q
Still-Landed s l = record {
  grounded = s.flight_still ∙ l.grounded;
  at_work = s.dispatching_still ∙ l.at_work;
  holds = Still-Owned s l.holds;
}

Landed-Looping : {p : Pool} → Landed [] p → Looping p
Landed-Looping l = record { on_ground = l.grounded; running = l.at_work; owned = l.holds }

dispatch-Sound : (reading : Option ℕ) (p : Pool) → Landed [] p → Sound (dispatch reading p)
dispatch-Sound reading p l = dispatch_loop-Sound _ reading p (Landed-Looping l)

Landed-SameFlight :
    {cs ds : List ℕ} {p q : Pool} → SameFlight p q → Landed cs p → Owned ds q → Landed ds q
Landed-SameFlight s l o = record {
  grounded = s.same_flight ∙ l.grounded;
  at_work = s.same_dispatching ∙ l.at_work;
  holds = o;
}

return_all-Landed : (ids : List ℕ) (p : Pool) → Landed ids p → Landed [] (return_all ids p)
return_all-Landed ids p l =
    Landed-SameFlight (return_all-SameFlight ids p) l (return_all-Owned ids p l.holds)

give_back-Sound :
    (ids : List ℕ) (reading : Option ℕ) (p : Pool) → Landed ids p → Sound (give_back ids reading p)
unfolding give_back
give_back-Sound ids reading p l =
    dispatch-Sound reading (check_closed (return_all ids p))
      (Still-Landed (check_closed-Still (return_all ids p)) (return_all-Landed ids p l))

grant-Landed : (f : Flight) (ids : List ℕ) (p : Pool) → Landed ids p → Landed [] (grant f ids p)
unfolding grant
grant-Landed f ids p l =
    let cleaned = cleanup_waiter f.waiter p in
    let c : Landed ids cleaned = Still-Landed (cleanup_waiter-Still f.waiter p) l in
    let d : Landed [] (lease_all ids cleaned) =
      Landed-SameFlight (lease_all-SameFlight ids cleaned) c
        (lease_all-Owned ids cleaned c.holds) in
    record {
      grounded = d.grounded;
      at_work = d.at_work;
      holds = record { own = d.holds.own; fresh = d.holds.fresh };
    }

commit_flight-Sound :
    (f : Flight) (ids : List ℕ) (reading : Option ℕ) (p : Pool)
    → Landed ids p
    → Sound (commit_flight f ids reading p)
unfolding commit_flight
commit_flight-Sound f ids reading p l = elim (Option-cases (read_clock reading p)) [
  | inl e ↦
      rw (e, commit_flight)
        (give_back-Sound ids reading (reject_waiter f.waiter failure p)
          (Still-Landed (reject_waiter-Still f.waiter failure p) l))
  | inr (read, e) ↦
      let g : Landed ids read = Still-Landed (read_clock-Still reading p read e) l in
      elim (Option-cases (find_waiter f.waiter read.waiters)) [
        | inl n ↦ rw (e, n, commit_flight) (give_back-Sound ids reading read g)
        | inr (w, n) ↦ elim (Bool-cases (not (ltb read.last_clock w.deadline))) [
          | inl late ↦
              rw (e, n, late, commit_flight)
                (give_back-Sound ids reading (reject_waiter f.waiter acquire_timeout read)
                  (Still-Landed (reject_waiter-Still f.waiter acquire_timeout read) g))
          | inr soon ↦ elim (Bool-cases (not (length ids == f.count))) [
            | inl few ↦ rw (e, n, soon, few, commit_flight) (give_back-Sound ids reading read g)
            | inr all ↦
                rw (e, n, soon, all, commit_flight)
                  (dispatch-Sound reading (grant f ids read) (grant-Landed f ids read g))
          ]
        ]
      ]
]

-- Connections that are neither leased nor held on to are destroyed.
pub destroy_all-Owned :
    {cs : List ℕ} (ids hs : List ℕ) (p : Pool)
    → holders p.leases ≡ hs
    → All (λ x. NotIn x hs) ids
    → All (λ x. NotIn x cs) ids
    → Owned cs p
    → Owned cs (destroy_all ids p)
destroy_all-Owned [] hs p e nh nc o = o
destroy_all-Owned (id ∷ ids) hs p e nh nc o =
    destroy_all-Owned ids hs (destroy id p) (ap holders (leases-destroy id p) ∙ e) nh.1 nc.1
      (destroy-Owned id p (rw e nh.0) nc.0 o)

checks_free :
    (rs : List Physical) (hs cs : List ℕ)
    → Have in_check rs cs
    → Have held rs hs
    → All (λ x. NotIn x hs) cs
checks_free rs hs [] c h = tt
checks_free rs hs (x ∷ cs) c h =
    (NotIn-status in_check held x rs hs (λ e. cc) c.0 h, checks_free rs hs cs c.1 h)

Own-checks_free :
    {rs : List Physical} {hs is cs : List ℕ} → Own rs hs is cs → All (λ x. NotIn x hs) cs
Own-checks_free {rs} {hs} {is} {cs} o = checks_free rs hs cs o.checks_run o.leases_held

cleared-Landed :
    (f : Flight) (p : Pool)
    → Owned f.candidates p
    → p.dispatching ≡ true
    → Landed
        (select is_healthy f.outcomes f.candidates)
        (destroy_all (select is_unhealthy f.outcomes f.candidates) (record p { flight = none }))
cleared-Landed f p o d =
    let ids = select is_unhealthy f.outcomes f.candidates in
    let q : Pool = record p { flight = none } in
    let s = destroy_all-SameFlight ids q in
    let kept : Owned (select is_healthy f.outcomes f.candidates) q = record {
      own = Own-select is_healthy f.outcomes o.own;
      fresh = o.fresh;
    } in
    record {
      grounded = s.same_flight;
      at_work = s.same_dispatching ∙ d;
      holds =
          destroy_all-Owned ids (holders p.leases) q refl
            (All-select _ is_unhealthy f.outcomes f.candidates (Own-checks_free o.own))
            (select-NotIn f.outcomes f.candidates) kept;
    }

pub resume_flight-Sound :
    (f : Flight) (reading : Option ℕ) (p : Pool)
    → Owned f.candidates p
    → p.dispatching ≡ true
    → Sound (resume_flight f reading p)
unfolding resume_flight
resume_flight-Sound f reading p o d =
    let ids = select is_healthy f.outcomes f.candidates in
    let cleared =
      destroy_all (select is_unhealthy f.outcomes f.candidates) (record p { flight = none }) in
    let l : Landed ids cleared = cleared-Landed f p o d in
    elim (Bool-cases (not (is_empty (select is_expired f.outcomes f.candidates)))) [
      | inl late ↦ rw late (
          dispatch-Sound reading (reject_waiter f.waiter lifecycle_timeout (return_all ids cleared))
            (Still-Landed (reject_waiter-Still f.waiter lifecycle_timeout (return_all ids cleared))
              (return_all-Landed ids cleared l)))
      | inr fine ↦
          elim (Bool-cases (not (is_open cleared.state && is_head f.waiter cleared.waiters))) [
            | inl gone ↦ rw (fine, gone) (give_back-Sound ids reading cleared l)
            | inr there ↦ rw (fine, there) (commit_flight-Sound f ids reading cleared l)
          ]
    ]
