-- ===== src/Pool/Exclusive.antt =====
-- No connection has two owners, in any state that a pool reaches.
use open_rfc.Common.{
  All, Result, if◌then◌else◌, Bool-cases, if_both, ok, err, ℕ, ◌≡◌, refl, sym, ◌∙◌, inl, inr, Bool,
  true, false, ◌&&◌, ◌||◌, not, Option, none, some, List, [], ◌∷◌, arith,
}
use open_rfc.SapRouter.Route.{is_some}
use open_rfc.Pool.{
  Pool, Physical, Flight, Outcome, RuntimeState, PoolError, opened, retiring, shutting, closed,
  healthy, pool_closed,
}
use open_rfc.Pool.Table.{includes, is_open}
use open_rfc.Pool.Waiters.{reject_waiters}
use open_rfc.Pool.Leases.{Settled}
use open_rfc.Pool.Dispatch.{
  pump, count_validation, settle_validation, outcome_at, outcome_of, all_settled, resume_from,
}
use open_rfc.Pool.Shutdown.{
  Shutdown, retire, close, shutdown_state, abort_creations, stop_work, shutdown_from,
}
use open_rfc.Pool.Steps.{after}
use open_rfc.Pool.Ownership.{NotIn, NotIn-status, Have, holders, held, at_rest, in_check}
use open_rfc.Pool.Still.{Still, reject_waiters-Still, check_closed-Still}
use open_rfc.Pool.Steady.{destroy_all-SameFlight}
use open_rfc.Pool.Checkout.{
  Sound, candidates_of, Still-Sound, Owned-flight, landed_again, dispatch_loop-Sound,
}
use open_rfc.Pool.Landing.{resume_flight-Sound, destroy_all-Owned}
use open_rfc.Pool.Arrivals.{SameFlight-Sound}

count_validation-Still : (s : Settled) (o : Outcome) (p : Pool) → Still p (count_validation s o p)
unfolding count_validation
count_validation-Still s o p = ground arith

-- An outcome is noted in the flight.
noted-Sound :
    (f : Flight) (os : List (ℕ × Outcome)) (p : Pool)
    → p.flight ≡ some f
    → Sound p
    → Sound (record p { flight = some (record f { outcomes = os }) })
noted-Sound f os p e o = record {
  owned = record { own = (Owned-flight (sym e) o.owned).own; fresh = o.owned.fresh };
  landed = landed_again (sym e) refl o.landed;
}

pub settle_validation-Sound :
    (fl : Option Flight) (id : ℕ) (s : Settled) (verdict : Bool) (p : Pool)
    → p.flight ≡ fl
    → Sound p
    → Sound (settle_validation fl id s verdict p)
unfolding settle_validation
settle_validation-Sound none id s verdict p e o = o
settle_validation-Sound (some f) id s verdict p e o =
    let outcome = (if p.config.validate_on_checkout then outcome_of s verdict else healthy) in
    let t = count_validation-Still s outcome p in
    if_both Sound (not (includes id f.candidates) || is_some (outcome_at id f.outcomes)) o (
      noted-Sound f ((id, outcome) ∷ f.outcomes) (count_validation s outcome p) (t.flight_still ∙ e)
        (Still-Sound t o))

grounded : (f : Option Flight) (b : Bool) → (is_some f && not b) ≡ false → b ≡ false → f ≡ none
grounded none b h e = refl
grounded (some f) true h e = absurd (cc)
grounded (some f) false h e = absurd (cc)

flying : (f : Flight) (b : Bool) → (is_some (some f) && not b) ≡ false → b ≡ true
flying f true h = refl
flying f false h = absurd (cc)

pub pump-Sound : (reading : Option ℕ) (p : Pool) → Sound p → Sound (pump reading p)
unfolding pump
pump-Sound reading p o =
    let q : Pool = record p { pump_scheduled = false } in
    let t : Sound q = Still-Sound (ground arith) o in
    let working : Pool = record q { dispatching = true; pump_requested = false } in
    if_both Sound (not p.pump_scheduled) o
      (elim (Bool-cases (not (is_open p.state) || p.dispatching)) [
        | inl e ↦ rw e t
        | inr e ↦
            let g : p.flight ≡ none = grounded p.flight p.dispatching o.landed (ground arith) in
            rw e (
              dispatch_loop-Sound _ reading working (record {
                on_ground = g;
                running = refl;
                owned = record { own = (Owned-flight (sym g) o.owned).own; fresh = o.owned.fresh };
              }))
      ])

pub resume_from-Sound :
    (fl : Option Flight) (reading : Option ℕ) (p : Pool)
    → p.flight ≡ fl
    → Sound p
    → Sound (resume_from fl reading p)
unfolding resume_from
resume_from-Sound none reading p e o = o
resume_from-Sound (some f) reading p e o =
    if_both Sound (all_settled f.candidates f.outcomes)
      (resume_flight-Sound f reading p (Owned-flight (sym e) o.owned)
        (flying f p.dispatching (landed_again (sym e) refl o.landed)))
      o

rest-NotIn :
    (rs : List Physical) (hs is cs : List ℕ)
    → Have at_rest rs is
    → Have held rs hs
    → Have in_check rs cs
    → All (λ x. NotIn x hs) is × All (λ x. NotIn x cs) is
rest-NotIn rs hs [] cs i h c = (tt, tt)
rest-NotIn rs hs (x ∷ is) cs i h c =
    let (a, b) = rest-NotIn rs hs is cs i.1 h c in
    (
      (NotIn-status at_rest held x rs hs (λ e. cc) i.0 h, a),
      (NotIn-status at_rest in_check x rs cs (λ e. cc) i.0 c, b),
    )

stop_work-Sound : (p : Pool) → Sound p → Sound (stop_work p)
unfolding stop_work
stop_work-Sound p o =
    let told = reject_waiters p.waiters pool_closed p in
    let aborted : Pool = record told { creating = abort_creations told.creating } in
    let k : Sound told = Still-Sound (reject_waiters-Still p.waiters pool_closed p) o in
    let m : Sound aborted = Still-Sound (ground arith) k in
    let w = m.owned.own in
    let (a, b) =
      rest-NotIn aborted.records (holders aborted.leases) aborted.idle_ids
        (candidates_of aborted.flight) w.idle_rest w.leases_held w.checks_run in
    Still-Sound (check_closed-Still _) (
      SameFlight-Sound (destroy_all-SameFlight aborted.idle_ids aborted) m
        (destroy_all-Owned aborted.idle_ids (holders aborted.leases) aborted refl a b m.owned))

pub shutdown_from-Sound :
    (s : RuntimeState) (r : Shutdown) (p : Pool) → Sound p → Sound (shutdown_from s r p)
unfolding shutdown_from
shutdown_from-Sound opened r p o =
    stop_work-Sound (record p { state = shutdown_state r }) (Still-Sound (ground arith) o)
shutdown_from-Sound retiring retire p o = o
shutdown_from-Sound retiring close p o = Still-Sound (ground arith) o
shutdown_from-Sound shutting r p o = o
shutdown_from-Sound closed r p o = o

pub after-Sound :
    (p : Pool) (m : Result PoolError Pool)
    → ((q : Pool) → m ≡ ok q → Sound q)
    → Sound p
    → Sound (after p m)
after-Sound p (ok q) f o = f q refl
after-Sound p (err e) f o = o
