-- ===== src/Pool/Bounds/Leasing.antt =====
-- Operations, resets, releases and destructions keep to the limits.
use open_rfc.Pool.Leases.{
  count_timeout, return_ready, mark_destroy_failed, count_reset_failure, deactivate, end_operation,
  finish_destroy, leave_reset, after_reset, let_go, destroy_settled, finish_reset, on_lease,
  recycle, destroy_fails, release_reset_settled, active_lease_record, end_reset, find_lease,
  begin_reset, release_high, begin_operation, release, Settled, ReleaseOptions,
}
use open_rfc.Pool.Table.{find, set_recycle, on_record, enter}
use open_rfc.Pool.Steps.{after}
use open_rfc.Pool.Resources.{return_to_pool}
use open_rfc.Common.{
  Result, guard, >>=-eq-ok, ok_inj, ◌==◌, Option-cases, ok, err, ℕ, ◌≡◌, refl, sym, inl, inr, Bool,
  false, Option, arith,
}
use open_rfc.Pool.Shrinks.{
  on_record-Shrinks, length-remove, length-update, return_to_pool-Shrinks, fail_close-Shrinks,
  destroy-Shrinks, request_pump-Shrinks, Shrinks, Shrinks-refl, Shrinks-trans,
}
use open_rfc.Pool.{reset_released, Lease, resetting, active_lease, reset_held, Pool, PoolError}
use open_rfc.Pool.Bounds.Creating.{settle-Shrinks}

pub end_operation-Shrinks : (generation : ℕ) (p : Pool) → Shrinks p (end_operation generation p)
unfolding end_operation
end_operation-Shrinks generation p = ground arith

-- A call that throws changes nothing, so that only its successes matter.
pub after-Shrinks :
    (p : Pool) (m : Result PoolError Pool)
    → ((q : Pool) → m ≡ ok q → Shrinks p q)
    → Shrinks p (after p m)
after-Shrinks p (ok q) h = h q refl
after-Shrinks p (err e) h = Shrinks-refl p

pub begin_operation-Shrinks :
    (pool generation : ℕ) (p : Pool) (q : Pool)
    → begin_operation pool generation p ≡ ok q
    → Shrinks p q
unfolding begin_operation
begin_operation-Shrinks pool generation p q e =
    let (l, e₁, h₁) = >>=-eq-ok (active_lease_record pool generation p) _ e in ground arith

pub begin_reset-Shrinks :
    (pool generation : ℕ) (p : Pool) (q : Pool) → begin_reset pool generation p ≡ ok q → Shrinks p q
unfolding begin_reset
begin_reset-Shrinks pool generation p q e =
    let (l, e₁, h₁) = >>=-eq-ok (active_lease_record pool generation p) _ e in
    ground (arith, length-update l.physical (enter resetting reset_held) p.records)

finish_reset-Shrinks : (l : Lease) (s : Settled) (p : Pool) → Shrinks p (finish_reset l s p)
unfolding finish_reset
finish_reset-Shrinks l s p = ground (arith, length-update l.physical leave_reset p.records)

pub end_reset-Shrinks :
    (generation : ℕ) (s : Settled) (p : Pool) → Shrinks p (end_reset generation s p)
unfolding end_reset
end_reset-Shrinks generation s p = elim (Option-cases (find_lease generation p.leases)) [
  | inl e ↦ rw (e, end_reset) (Shrinks-refl p)
  | inr (l, e) ↦ rw (e, end_reset) (finish_reset-Shrinks l s p)
]

return_ready-Shrinks : (id : ℕ) (p : Pool) → Shrinks p (return_ready id p)
unfolding return_ready
return_ready-Shrinks id p =
    let unblocked = record p { low_water_blocked = false } in
    let kept = return_to_pool id unblocked in
    ground (arith, return_to_pool-Shrinks id unblocked, request_pump-Shrinks kept)

recycle-Shrinks : (id : ℕ) (high : Option ℕ) (p : Pool) → Shrinks p (recycle id high p)
unfolding recycle
recycle-Shrinks id high p =
    let capped = on_record id (set_recycle high) p in
    ground (
      arith,
      on_record-Shrinks id (set_recycle high) p,
      on_record-Shrinks id (enter resetting reset_released) capped,
      return_ready-Shrinks id capped,
    )

let_go-Shrinks :
    (l : Lease) (reusable : Bool) (high : Option ℕ) (p : Pool)
    → Shrinks p (let_go l reusable high p)
unfolding let_go
let_go-Shrinks l reusable high p =
    let inactive = record p { leases = on_lease l.generation deactivate p.leases } in
    ground (arith, destroy-Shrinks l.physical inactive, recycle-Shrinks l.physical high inactive)

pub release-Shrinks :
    (pool generation : ℕ) (o : ReleaseOptions) (p : Pool) (q : Pool)
    → release pool generation o p ≡ ok q
    → Shrinks p q
unfolding release
release-Shrinks pool generation o p q e =
    let (high, e₁, h₁) = >>=-eq-ok (release_high o.idle_high p) _ e in
    let (l, e₂, h₂) = >>=-eq-ok (active_lease_record pool generation p) _ h₁ in
    let (u, e₃, h₃) = >>=-eq-ok (guard (l.operations == 0) active_lease) _ h₂ in
    rw (sym (ok_inj h₃)) (let_go-Shrinks l o.reusable high p)

count_reset_failure-Shrinks :
    (s : Settled) (p : Pool) → Shrinks p (count_reset_failure s (count_timeout s p))
count_reset_failure-Shrinks s p = ground arith

after_reset-Shrinks : (id : ℕ) (s : Settled) (p : Pool) → Shrinks p (after_reset id s p)
unfolding after_reset
after_reset-Shrinks id s p = ground (
  arith,
  return_ready-Shrinks id p,
  destroy-Shrinks id p,
  count_reset_failure-Shrinks s p,
  destroy-Shrinks id (count_reset_failure s (count_timeout s p)),
)

pub release_reset_settled-Shrinks :
    (id : ℕ) (s : Settled) (p : Pool) → Shrinks p (release_reset_settled id s p)
unfolding release_reset_settled
release_reset_settled-Shrinks id s p = elim (Option-cases (find id p.records)) [
  | inl e ↦ rw (e, release_reset_settled) (Shrinks-refl p)
  | inr (r, e) ↦ rw (e, release_reset_settled) (ground (arith, after_reset-Shrinks id s p))
]

destroy_fails-Shrinks : (id : ℕ) (s : Settled) (p : Pool) → Shrinks p (destroy_fails id s p)
unfolding destroy_fails
destroy_fails-Shrinks id s p =
    Shrinks-trans (ground (arith, length-update id (mark_destroy_failed s) p.records))
      (Shrinks-trans (fail_close-Shrinks _) (settle-Shrinks _))

finish_destroy-Shrinks : (id : ℕ) (p : Pool) → Shrinks p (finish_destroy id p)
unfolding finish_destroy
finish_destroy-Shrinks id p =
    Shrinks-trans (ground (arith, length-remove id p.records)) (settle-Shrinks _)

pub destroy_settled-Shrinks : (id : ℕ) (s : Settled) (p : Pool) → Shrinks p (destroy_settled id s p)
unfolding destroy_settled
destroy_settled-Shrinks id s p = elim (Option-cases (find id p.records)) [
  | inl e ↦ rw (e, destroy_settled) (Shrinks-refl p)
  | inr (r, e) ↦
      rw (e, destroy_settled)
        (ground (arith, finish_destroy-Shrinks id p, destroy_fails-Shrinks id s p))
]
