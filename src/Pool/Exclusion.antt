-- ===== src/Pool/Exclusion.antt =====
-- The connections that are leased, idle and validated are all different, in every order of the events of a pool.
use open_rfc.Common.{All, ℕ, ◌≡◌, refl, List, [], ◌∷◌, ◌++◌}
use open_rfc.Pool.{Pool, Physical, Config, acquire_aborted}
use open_rfc.Pool.Leases.{begin_operation, begin_reset, release}
use open_rfc.Pool.Dispatch.{validation_settled, resume}
use open_rfc.Pool.Shutdown.{begin_shutdown}
use open_rfc.Pool.Steps.{
  Reach, step, new_pool, open_pool, Event, acquires, aborts, times_out, rearms, begins_operation,
  ends_operation, begins_reset, ends_reset, releases, release_resets, pumps, validates, resumes,
  creates, creation_expires, destroys, shuts_down, shutdown_expires, starts, goes,
}
use open_rfc.Pool.Ownership.{
  NotIn, NotIn-status, NotIn-append, Distinct, Have, Status, holders, held, at_rest, in_check,
}
use open_rfc.Pool.Still.{
  request_pump-Still, reject_waiter-Still, acquire-Still, handle_timeout-Still, rearm_timeout-Still,
  creation_timed_out-Still, shutdown_timed_out-Still,
}
use open_rfc.Pool.Checkout.{Sound, candidates_of, Still-Sound}
use open_rfc.Pool.Arrivals.{creation_settled-Sound}
use open_rfc.Pool.Handover.{
  begin_operation-Sound, end_operation-Sound, begin_reset-Sound, end_reset-Sound,
}
use open_rfc.Pool.Releases.{release-Sound, release_reset_settled-Sound, destroy_settled-Sound}
use open_rfc.Pool.Exclusive.{
  settle_validation-Sound, pump-Sound, resume_from-Sound, shutdown_from-Sound, after-Sound,
}

new_pool-Sound : (c : Config) → Sound (new_pool c)
new_pool-Sound c = record {
  owned = record {
    own = record {
      leases_distinct = tt;
      leases_held = tt;
      idle_distinct = tt;
      idle_rest = tt;
      checks_distinct = tt;
      checks_run = tt;
    };
    fresh = tt;
  };
  landed = refl;
}

open_pool-Sound : (c : Config) → Sound (open_pool c)
unfolding open_pool
open_pool-Sound c = Still-Sound (request_pump-Still (new_pool c)) (new_pool-Sound c)

pub step-Sound : (p : Pool) (e : Event) → Sound p → Sound (step p e)
unfolding step validation_settled resume begin_shutdown
step-Sound p (acquires count timeout aborted reading) o =
    Still-Sound (acquire-Still count timeout aborted reading p) o
step-Sound p (aborts waiter) o = Still-Sound (reject_waiter-Still waiter acquire_aborted p) o
step-Sound p (times_out waiter generation scheduled reading) o =
    Still-Sound (handle_timeout-Still waiter generation scheduled reading p) o
step-Sound p (rearms waiter generation reading) o =
    Still-Sound (rearm_timeout-Still waiter generation reading p) o
step-Sound p (begins_operation lease) o =
    after-Sound p (begin_operation p.config.pool_id lease p)
      (λ q e. begin_operation-Sound p.config.pool_id lease p q e o) o
step-Sound p (ends_operation lease) o = end_operation-Sound lease p o
step-Sound p (begins_reset lease) o =
    after-Sound p (begin_reset p.config.pool_id lease p)
      (λ q e. begin_reset-Sound p.config.pool_id lease p q e o) o
step-Sound p (ends_reset lease s) o = end_reset-Sound lease s p o
step-Sound p (releases lease options) o =
    after-Sound p (release p.config.pool_id lease options p)
      (λ q e. release-Sound p.config.pool_id lease options p q e o) o
step-Sound p (release_resets physical s) o = release_reset_settled-Sound physical s p o
step-Sound p (pumps reading) o = pump-Sound reading p o
step-Sound p (validates physical s verdict) o =
    settle_validation-Sound p.flight physical s verdict p refl o
step-Sound p (resumes reading) o = resume_from-Sound p.flight reading p refl o
step-Sound p (creates creation a) o = creation_settled-Sound creation a p o
step-Sound p (creation_expires creation) o = Still-Sound (creation_timed_out-Still creation p) o
step-Sound p (destroys physical s) o = destroy_settled-Sound physical s p o
step-Sound p (shuts_down requested) o = shutdown_from-Sound p.state requested p o
step-Sound p shutdown_expires o = Still-Sound (shutdown_timed_out-Still p) o

Reach-Sound : (config : Config) (p : Pool) → Reach config p → Sound p
Reach-Sound config p starts = open_pool-Sound config
Reach-Sound config p (goes {p = q} e r) = step-Sound q e (Reach-Sound config q r)

Distinct-append :
    (xs ys : List ℕ) → Distinct xs → Distinct ys → All (λ x. NotIn x ys) xs → Distinct (xs ++ ys)
Distinct-append [] ys d e a = e
Distinct-append (x ∷ xs) ys d e a = (NotIn-append x xs ys d.0 a.0, Distinct-append xs ys d.1 e a.1)

-- Connections in different states are different.
apart :
    (s t : Status) (rs : List Physical) (xs ys : List ℕ)
    → ¬ (s ≡ t)
    → Have s rs xs
    → Have t rs ys
    → All (λ x. NotIn x ys) xs
apart s t rs [] ys n h k = tt
apart s t rs (x ∷ xs) ys n h k = (NotIn-status s t x rs ys n h.0 k, apart s t rs xs ys n h.1 k)

apart_both :
    (xs ys zs : List ℕ)
    → All (λ x. NotIn x ys) xs
    → All (λ x. NotIn x zs) xs
    → All (λ x. NotIn x (ys ++ zs)) xs
apart_both [] ys zs a b = tt
apart_both (x ∷ xs) ys zs a b = (NotIn-append x ys zs a.0 b.0, apart_both xs ys zs a.1 b.1)

-- In every state that a pool reaches, by calls of its users, answers of the factory, callbacks of the
-- scheduler and microtasks in any order, no connection stands twice among those of the active leases,
-- the idle ones and those that are being validated; and the connection of an active lease is in the
-- pool's table, leased or in a reset under its lease.
pub holders-Reach :
    (config : Config) (p : Pool)
    → Reach config p
    → Distinct (holders p.leases ++ (p.idle_ids ++ candidates_of p.flight))
      × Have held p.records (holders p.leases)
holders-Reach config p r =
    let o = (Reach-Sound config p r).owned.own in
    let cs = candidates_of p.flight in
    let hs = holders p.leases in
    (
      Distinct-append hs (p.idle_ids ++ cs) o.leases_distinct
          (Distinct-append p.idle_ids cs o.idle_distinct o.checks_distinct
            (apart at_rest in_check p.records p.idle_ids cs (λ e. cc) o.idle_rest o.checks_run))
          (apart_both hs p.idle_ids cs
            (apart held at_rest p.records hs p.idle_ids (λ e. cc) o.leases_held o.idle_rest)
            (apart held in_check p.records hs cs (λ e. cc) o.leases_held o.checks_run)),
      o.leases_held,
    )
