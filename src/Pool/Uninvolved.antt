-- ===== src/Pool/Uninvolved.antt =====
-- Answered creations, releases and destructions leave the queue alone.
use mathlib.Core.Path.{subst}
use open_rfc.Common.{
  guard, >>=-eq-ok, ok_inj, ◌==◌, Option-cases, if_both, ok, ℕ, ◌≡◌, inl, inr, Bool, false, ◌||◌,
  not, Option, arith,
}
use open_rfc.Pool.{Pool, Creation, pool_closed, invalid_type, Lease, pool_lease_busy, active_lease}
use open_rfc.Pool.Table.{remove, find, is_open, set_recycle, on_record, includes}
use open_rfc.Pool.Resources.{return_to_pool}
use open_rfc.Pool.Creations.{add_physical, count_aborted, place, adopt}
use open_rfc.Pool.Leases.{
  Settled, is_fulfilled, is_released_reset, is_destroying, return_ready, recycle, after_reset,
  release_reset_settled, finish_destroy, destroy_fails, destroy_settled, mark_destroy_failed,
  count_destroy_failure, count_timeout, count_reset_failure, ReleaseOptions, on_lease, deactivate,
  find_lease, active_lease_record, serves_leases, begin_operation, begin_reset, finish_reset,
  end_reset, release_high, let_go, release,
}
use open_rfc.Pool.Quiet.{
  SameQueue, SameQueue-refl, SameQueue-trans, request_pump-SameQueue, fail_close-SameQueue,
  settle-SameQueue, destroy-SameQueue, return_to_pool-SameQueue,
}

place-SameQueue : (c : Creation) (id : ℕ) (p : Pool) → SameQueue p (place c id p)
unfolding place
place-SameQueue c id p = ground (
  arith,
  destroy-SameQueue id p,
  destroy-SameQueue id (record p { low_water_blocked = false }),
  return_to_pool-SameQueue id (record p { low_water_blocked = false }),
)

pub adopt-SameQueue : (c : Creation) (resource : ℕ) (p : Pool) → SameQueue p (adopt c resource p)
unfolding adopt
adopt-SameQueue c resource p =
    let added = add_physical resource (count_aborted c p) in
    let e : SameQueue p added = ground arith in
    SameQueue-trans (SameQueue-trans e (place-SameQueue c p.next_physical_id added))
      (settle-SameQueue _)

return_ready-SameQueue : (id : ℕ) (p : Pool) → SameQueue p (return_ready id p)
unfolding return_ready
return_ready-SameQueue id p =
    let unblocked : Pool = record p { low_water_blocked = false } in
    let kept = return_to_pool id unblocked in
    let s = return_to_pool-SameQueue id unblocked in
    let t : SameQueue p kept = ground arith in
    if_both (SameQueue p) (includes id kept.idle_ids)
      (SameQueue-trans t (request_pump-SameQueue kept)) t

pub recycle-SameQueue : (id : ℕ) (high : Option ℕ) (p : Pool) → SameQueue p (recycle id high p)
unfolding recycle
recycle-SameQueue id high p =
    let capped = on_record id (set_recycle high) p in
    let s = return_ready-SameQueue id capped in
    if_both (SameQueue p) p.config.reset_on_release (ground arith) (ground arith)

after_reset-SameQueue : (id : ℕ) (s : Settled) (p : Pool) → SameQueue p (after_reset id s p)
unfolding after_reset
after_reset-SameQueue id s p =
    let counted = count_reset_failure s (count_timeout s p) in
    let t : SameQueue p counted = ground arith in
    if_both (SameQueue p) (is_fulfilled s)
      (if_both (SameQueue p) (is_open p.state) (return_ready-SameQueue id p)
        (destroy-SameQueue id p))
      (SameQueue-trans t (destroy-SameQueue id counted))

pub release_reset_settled-SameQueue :
    (id : ℕ) (s : Settled) (p : Pool) → SameQueue p (release_reset_settled id s p)
unfolding release_reset_settled
release_reset_settled-SameQueue id s p = elim (Option-cases (find id p.records)) [
  | inl e ↦ rw (e, release_reset_settled) (ground arith)
  | inr (r, e) ↦
      let a = after_reset-SameQueue id s p in
      rw (e, release_reset_settled)
        (if_both (SameQueue p) (is_released_reset r) a (SameQueue-refl p))
]

destroy_fails-SameQueue : (id : ℕ) (s : Settled) (p : Pool) → SameQueue p (destroy_fails id s p)
unfolding destroy_fails
destroy_fails-SameQueue id s p =
    let marked = on_record id (mark_destroy_failed s) (count_destroy_failure (count_timeout s p)) in
    let m : SameQueue p marked = ground arith in
    SameQueue-trans m (SameQueue-trans (fail_close-SameQueue marked) (settle-SameQueue _))

finish_destroy-SameQueue : (id : ℕ) (p : Pool) → SameQueue p (finish_destroy id p)
unfolding finish_destroy
finish_destroy-SameQueue id p =
    let s = settle-SameQueue (record p { records = remove id p.records }) in ground arith

pub destroy_settled-SameQueue :
    (id : ℕ) (s : Settled) (p : Pool) → SameQueue p (destroy_settled id s p)
unfolding destroy_settled
destroy_settled-SameQueue id s p = elim (Option-cases (find id p.records)) [
  | inl e ↦ rw (e, destroy_settled) (ground arith)
  | inr (r, e) ↦
      let f = finish_destroy-SameQueue id p in
      let d = destroy_fails-SameQueue id s p in
      rw (e, destroy_settled)
        (if_both (SameQueue p) (not (is_destroying r)) (SameQueue-refl p) (
          if_both (SameQueue p) (is_fulfilled s) f
            (if_both (SameQueue p) r.destroy_failed (SameQueue-refl p) d)))
]

let_go-SameQueue :
    (l : Lease) (reusable : Bool) (high : Option ℕ) (p : Pool)
    → SameQueue p (let_go l reusable high p)
unfolding let_go
let_go-SameQueue l reusable high p =
    let inactive : Pool = record p { leases = on_lease l.generation deactivate p.leases } in
    let d = destroy-SameQueue l.physical inactive in
    let r = recycle-SameQueue l.physical high inactive in
    if_both (SameQueue p) (not reusable || not (is_open p.state)) (ground arith) (ground arith)

pub release-SameQueue :
    (pool_id generation : ℕ) (options : ReleaseOptions) (p q : Pool)
    → release pool_id generation options p ≡ ok q
    → SameQueue p q
unfolding release
release-SameQueue pool_id generation options p q e =
    let (high, e₁, h₁) = >>=-eq-ok (release_high options.idle_high p) _ e in
    let (l, e₂, h₂) = >>=-eq-ok (active_lease_record pool_id generation p) _ h₁ in
    let (u, e₃, h₃) = >>=-eq-ok (guard (l.operations == 0) active_lease) _ h₂ in
    subst (SameQueue p) (ok_inj h₃) (let_go-SameQueue l options.reusable high p)

pub begin_operation-SameQueue :
    (pool_id generation : ℕ) (p q : Pool)
    → begin_operation pool_id generation p ≡ ok q
    → SameQueue p q
unfolding begin_operation
begin_operation-SameQueue pool_id generation p q e =
    let (l, e₁, h₁) = >>=-eq-ok (active_lease_record pool_id generation p) _ e in
    let (u, e₂, h₂) = >>=-eq-ok (guard (serves_leases p.state) pool_closed) _ h₁ in
    let (v, e₃, h₃) = >>=-eq-ok (guard (l.operations == 0) pool_lease_busy) _ h₂ in
    subst (SameQueue p) (ok_inj h₃) (ground arith)

pub begin_reset-SameQueue :
    (pool_id generation : ℕ) (p q : Pool) → begin_reset pool_id generation p ≡ ok q → SameQueue p q
unfolding begin_reset
begin_reset-SameQueue pool_id generation p q e =
    let (l, e₁, h₁) = >>=-eq-ok (active_lease_record pool_id generation p) _ e in
    let (u, e₂, h₂) = >>=-eq-ok (guard (is_open p.state) pool_closed) _ h₁ in
    let (v, e₃, h₃) = >>=-eq-ok (guard p.config.has_reset invalid_type) _ h₂ in
    let (w, e₄, h₄) = >>=-eq-ok (guard (l.operations == 0) pool_lease_busy) _ h₃ in
    subst (SameQueue p) (ok_inj h₄) (ground arith)

finish_reset-SameQueue : (l : Lease) (s : Settled) (p : Pool) → SameQueue p (finish_reset l s p)
unfolding finish_reset
finish_reset-SameQueue l s p =
    let counted = count_reset_failure s (count_timeout s p) in
    let t : SameQueue p counted = ground arith in
    if_both (SameQueue p) l.active (ground arith) (ground arith)

pub end_reset-SameQueue :
    (generation : ℕ) (s : Settled) (p : Pool) → SameQueue p (end_reset generation s p)
unfolding end_reset
end_reset-SameQueue generation s p = elim (Option-cases (find_lease generation p.leases)) [
  | inl e ↦ rw (e, end_reset) (SameQueue-refl p)
  | inr (l, e) ↦ rw (e, end_reset) (finish_reset-SameQueue l s p)
]
