-- ===== src/Pool/Releases.antt =====
-- The end of a lease, and the end of a connection.
use mathlib.Core.Path.{subst}
use open_rfc.Common.{
  guard, >>=-eq-ok, ok_inj, ◌==◌, Bool-cases, Option-cases, if_both, ok, ℕ, ◌≡◌, refl, sym, ap, ◌∙◌,
  inl, inr, Bool, true, false, ◌||◌, not, Option, some, List, arith,
}
use open_rfc.Pool.{
  Pool, Lease, Work, no_work, validate_work, reset_held, reset_released, destroy_work, resetting,
  active_lease,
}
use open_rfc.Pool.Table.{find, includes, is_open, on_record, enter, set_recycle}
use open_rfc.Pool.Resources.{return_to_pool}
use open_rfc.Pool.Leases.{
  Settled, ReleaseOptions, is_fulfilled, on_lease, deactivate, find_lease, active_lease_record,
  count_reset_failure, count_timeout, release_high, return_ready, recycle, let_go, release,
  is_released_reset, after_reset, release_reset_settled, is_destroying, mark_destroy_failed,
  destroy_fails, finish_destroy, count_destroy_failure, destroy_settled,
}
use open_rfc.Pool.Ownership.{
  NotIn, NotIn-status, Status, holders, held, at_rest, in_check, free, status_in, unless_leaving,
  in_state, status_in-find,
}
use open_rfc.Pool.Still.{Still, request_pump-Still, settle-Still, fail_close-Still}
use open_rfc.Pool.Owners.{
  Owned, Unowned, Still-Owned, destroy-Owned, return_to_pool-Owned, on_record-Owned,
  set_recycle-Owned,
}
use open_rfc.Pool.Steady.{
  SameFlight, SameFlight-trans, Still-SameFlight, on_record-SameFlight, destroy-SameFlight,
  return_to_pool-SameFlight,
}
use open_rfc.Pool.Checkout.{Sound, candidates_of, Still-Sound}
use open_rfc.Pool.Arrivals.{SameFlight-Sound, free-Unowned, remove-Owned}
use open_rfc.Pool.Holders.{
  All-holder, All-deactivate, Distinct-deactivate, deactivate-NotIn, find_lease-generation,
  active_lease_record-find_lease,
}

-- The lease of a connection ends, and nobody owns the connection then.
deactivate-Owned :
    {cs : List ℕ} (l : Lease) (p : Pool)
    → find_lease l.generation p.leases ≡ some l
    → l.active ≡ true
    → Owned cs p
    → Owned cs (record p { leases = on_lease l.generation deactivate p.leases })
      × Unowned l.physical cs (record p { leases = on_lease l.generation deactivate p.leases })
deactivate-Owned {cs} l p f a o =
    let s =
      All-holder (λ x. status_in x p.records ≡ held) l.generation p.leases l f a
        o.own.leases_held in
    (
      record {
        own = record {
          leases_distinct = Distinct-deactivate l.generation p.leases o.own.leases_distinct;
          leases_held =
              All-deactivate (λ x. status_in x p.records ≡ held) l.generation p.leases
                o.own.leases_held;
          idle_distinct = o.own.idle_distinct;
          idle_rest = o.own.idle_rest;
          checks_distinct = o.own.checks_distinct;
          checks_run = o.own.checks_run;
        };
        fresh = o.fresh;
      },
      (
        deactivate-NotIn l.generation p.leases l f a o.own.leases_distinct,
        NotIn-status held at_rest l.physical p.records p.idle_ids (λ e. cc) s o.own.idle_rest,
        NotIn-status held in_check l.physical p.records cs (λ e. cc) s o.own.checks_run,
      ),
    )

return_ready-Owned :
    {cs : List ℕ} (id : ℕ) (p : Pool) → Unowned id cs p → Owned cs p → Owned cs (return_ready id p)
unfolding return_ready
return_ready-Owned {cs} id p u o =
    let unblocked : Pool = record p { low_water_blocked = false } in
    let kept = return_to_pool id unblocked in
    let k : Owned cs kept =
      return_to_pool-Owned id unblocked u (record { own = o.own; fresh = o.fresh }) in
    elim (Bool-cases (includes id kept.idle_ids)) [
      | inl e ↦ rw e (Still-Owned (request_pump-Still kept) k)
      | inr e ↦ rw e k
    ]

return_ready-SameFlight : (id : ℕ) (p : Pool) → SameFlight p (return_ready id p)
unfolding return_ready
return_ready-SameFlight id p =
    let unblocked : Pool = record p { low_water_blocked = false } in
    let kept = return_to_pool id unblocked in
    let s = return_to_pool-SameFlight id unblocked in
    let t = Still-SameFlight (request_pump-Still kept) in ground arith

recycle-Owned :
    {cs : List ℕ} (id : ℕ) (high : Option ℕ) (p : Pool)
    → Unowned id cs p
    → Owned cs p
    → Owned cs (recycle id high p)
unfolding recycle
recycle-Owned {cs} id high p u o =
    let capped = on_record id (set_recycle high) p in
    let k : Owned cs capped = set_recycle-Owned id high p o in
    if_both (Owned cs) p.config.reset_on_release
      (on_record-Owned id (enter resetting reset_released) capped (λ r. refl) u.0 u.1 u.2 k)
      (return_ready-Owned id capped u k)

recycle-SameFlight : (id : ℕ) (high : Option ℕ) (p : Pool) → SameFlight p (recycle id high p)
unfolding recycle
recycle-SameFlight id high p =
    ground (arith, return_ready-SameFlight id (on_record id (set_recycle high) p))

let_go-Sound :
    (l : Lease) (reusable : Bool) (high : Option ℕ) (p : Pool)
    → find_lease l.generation p.leases ≡ some l
    → l.active ≡ true
    → Sound p
    → Sound (let_go l reusable high p)
unfolding let_go
let_go-Sound l reusable high p f a o =
    let inactive : Pool = record p { leases = on_lease l.generation deactivate p.leases } in
    let (k, u) = deactivate-Owned l p f a o.owned in
    let d = destroy-SameFlight l.physical inactive in
    let r = recycle-SameFlight l.physical high inactive in
    elim (Bool-cases (not reusable || not (is_open p.state))) [
      | inl e ↦
          rw e (SameFlight-Sound (ground arith) o (destroy-Owned l.physical inactive u.0 u.2 k))
      | inr e ↦
          rw e (SameFlight-Sound (ground arith) o (recycle-Owned l.physical high inactive u k))
    ]

pub release-Sound :
    (pool_id generation : ℕ) (options : ReleaseOptions) (p q : Pool)
    → release pool_id generation options p ≡ ok q
    → Sound p
    → Sound q
unfolding release
release-Sound pool_id generation options p q e o =
    let (high, e₁, h₁) = >>=-eq-ok (release_high options.idle_high p) _ e in
    let (l, e₂, h₂) = >>=-eq-ok (active_lease_record pool_id generation p) _ h₁ in
    let (u, e₃, h₃) = >>=-eq-ok (guard (l.operations == 0) active_lease) _ h₂ in
    let (f, a) = active_lease_record-find_lease pool_id generation p l e₂ in
    let g = ap (λ x. find_lease x p.leases) (find_lease-generation generation p.leases l f) ∙ f in
    subst Sound (ok_inj h₃) (let_go-Sound l options.reusable high p g a o)

released-free :
    (w : Work) (s : Status)
    → elim w [ reset_released ↦ true | _ ↦ false ] ≡ true
    → unless_leaving w s ≡ free
released-free reset_released s e = refl
released-free no_work s e = absurd (cc)
released-free validate_work s e = absurd (cc)
released-free reset_held s e = absurd (cc)
released-free destroy_work s e = absurd (cc)

destroying-free :
    (w : Work) (s : Status)
    → elim w [ destroy_work ↦ true | _ ↦ false ] ≡ true
    → unless_leaving w s ≡ free
destroying-free destroy_work s e = refl
destroying-free no_work s e = absurd (cc)
destroying-free validate_work s e = absurd (cc)
destroying-free reset_held s e = absurd (cc)
destroying-free reset_released s e = absurd (cc)

after_reset-Sound :
    (id : ℕ) (s : Settled) (p : Pool)
    → Unowned id (candidates_of p.flight) p
    → Sound p
    → Sound (after_reset id s p)
unfolding after_reset
after_reset-Sound id s p u o =
    let counted = count_reset_failure s (count_timeout s p) in
    let t : Still p counted = ground arith in
    let f = destroy-SameFlight id p in
    let g = return_ready-SameFlight id p in
    if_both Sound (is_fulfilled s)
      (if_both Sound (is_open p.state) (SameFlight-Sound g o (return_ready-Owned id p u o.owned))
        (SameFlight-Sound f o (destroy-Owned id p u.0 u.2 o.owned)))
      (SameFlight-Sound (SameFlight-trans (Still-SameFlight t) (destroy-SameFlight id counted)) o (
        destroy-Owned id counted (subst (λ ls. NotIn id (holders ls)) (sym (t.leases_still)) u.0)
          u.2 (Still-Owned t o.owned)))

pub release_reset_settled-Sound :
    (id : ℕ) (s : Settled) (p : Pool) → Sound p → Sound (release_reset_settled id s p)
unfolding release_reset_settled
release_reset_settled-Sound id s p o = elim (Option-cases (find id p.records)) [
  | inl e ↦ rw (e, release_reset_settled) o
  | inr (r, e) ↦ elim (Bool-cases (is_released_reset r)) [
    | inr h ↦ rw (e, h, release_reset_settled) o
    | inl h ↦
        let u =
          free-Unowned id p
            (status_in-find id p.records r e ∙ released-free r.work (in_state r.state r.work) h)
            o.owned in
        rw (e, h, release_reset_settled) (after_reset-Sound id s p u o)
  ]
]

finish_destroy-Sound :
    (id : ℕ) (p : Pool)
    → Unowned id (candidates_of p.flight) p
    → Sound p
    → Sound (finish_destroy id p)
unfolding finish_destroy
finish_destroy-Sound id p u o =
    Still-Sound (settle-Still _) (SameFlight-Sound (ground arith) o (remove-Owned id p u o.owned))

destroy_fails-Sound :
    (id : ℕ) (s : Settled) (p : Pool)
    → Unowned id (candidates_of p.flight) p
    → Sound p
    → Sound (destroy_fails id s p)
unfolding destroy_fails
destroy_fails-Sound id s p u o =
    let counted = count_destroy_failure (count_timeout s p) in
    let t : Still p counted = ground arith in
    let k : Sound counted = Still-Sound t o in
    let v : Unowned id (candidates_of p.flight) counted = (
      subst (λ ls. NotIn id (holders ls)) (sym (t.leases_still)) u.0,
      subst (NotIn id) (sym (t.idle_still)) u.1,
      u.2,
    ) in
    let marked = on_record id (mark_destroy_failed s) counted in
    let m : Owned (candidates_of p.flight) marked =
      on_record-Owned id (mark_destroy_failed s) counted (λ r. refl) v.0 v.1 v.2
        (Still-Owned t o.owned) in
    let fl : SameFlight p marked =
      SameFlight-trans (Still-SameFlight t)
        (on_record-SameFlight id (mark_destroy_failed s) counted) in
    Still-Sound (settle-Still _) (Still-Sound (fail_close-Still marked) (SameFlight-Sound fl o m))

pub destroy_settled-Sound :
    (id : ℕ) (s : Settled) (p : Pool) → Sound p → Sound (destroy_settled id s p)
unfolding destroy_settled
destroy_settled-Sound id s p o = elim (Option-cases (find id p.records)) [
  | inl e ↦ rw (e, destroy_settled) o
  | inr (r, e) ↦ elim (Bool-cases (is_destroying r)) [
    | inr h ↦ rw (e, h, destroy_settled) o
    | inl h ↦
        let u =
          free-Unowned id p
            (status_in-find id p.records r e ∙ destroying-free r.work (in_state r.state r.work) h)
            o.owned in
        elim (Bool-cases (is_fulfilled s)) [
          | inl g ↦ rw (e, h, g, destroy_settled) (finish_destroy-Sound id p u o)
          | inr g ↦ elim (Bool-cases r.destroy_failed) [
            | inl d ↦ rw (e, h, g, d, destroy_settled) o
            | inr d ↦ rw (e, h, g, d, destroy_settled) (destroy_fails-Sound id s p u o)
          ]
        ]
  ]
]
