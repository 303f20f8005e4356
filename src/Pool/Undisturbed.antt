-- ===== src/Pool/Undisturbed.antt =====
-- Creations, destructions and shutdowns, and the rest of a release, touch no lease.
use open_rfc.Common.{Option-cases, if_both, ℕ, inl, inr, false, not, Option, arith}
use open_rfc.Pool.{
  Pool, Creation, RuntimeState, opened, retiring, shutting, closed, failure, pool_closed,
  invalid_type,
}
use open_rfc.Pool.Table.{remove, find, is_open, set_recycle, on_record, includes}
use open_rfc.Pool.Waiters.{reject_waiters}
use open_rfc.Pool.Resources.{return_to_pool}
use open_rfc.Pool.Creations.{
  Made, made, not_object, threw, add_physical, count_aborted, place, adopt, owns_resource,
  creation_answered, creation_settled, find_creation, remove_creation,
}
use open_rfc.Pool.Leases.{
  Settled, is_fulfilled, is_released_reset, is_destroying, return_ready, recycle, after_reset,
  release_reset_settled, finish_destroy, destroy_fails, destroy_settled, mark_destroy_failed,
  count_destroy_failure, count_timeout, count_reset_failure,
}
use open_rfc.Pool.Shutdown.{
  Shutdown, retire, close, shutdown_state, abort_creations, stop_work, shutdown_from,
}
use open_rfc.Pool.Still.{
  request_pump-Still, reject_waiters-Still, check_closed-Still, settle-Still, fail_close-Still,
  creation_refused-Still,
}
use open_rfc.Pool.SameLeases.{
  SameLeases, SameLeases-refl, SameLeases-trans, Still-SameLeases, destroy-SameLeases,
  destroy_all-SameLeases, return_to_pool-SameLeases,
}

place-SameLeases : (c : Creation) (id : ℕ) (p : Pool) → SameLeases p (place c id p)
unfolding place
place-SameLeases c id p = ground (
  arith,
  destroy-SameLeases id p,
  destroy-SameLeases id (record p { low_water_blocked = false }),
  return_to_pool-SameLeases id (record p { low_water_blocked = false }),
)

adopt-SameLeases : (c : Creation) (resource : ℕ) (p : Pool) → SameLeases p (adopt c resource p)
unfolding adopt
adopt-SameLeases c resource p =
    let added = add_physical resource (count_aborted c p) in
    let e : SameLeases p added = ground arith in
    SameLeases-trans (SameLeases-trans e (place-SameLeases c p.next_physical_id added))
      (Still-SameLeases (settle-Still _))

creation_answered-SameLeases :
    (a : Made) (c : Creation) (p : Pool) → SameLeases p (creation_answered a c p)
unfolding creation_answered
creation_answered-SameLeases (made resource) c p =
    if_both (SameLeases p) (owns_resource resource p.records)
      (Still-SameLeases (creation_refused-Still c failure p)) (adopt-SameLeases c resource p)
creation_answered-SameLeases not_object c p =
    Still-SameLeases (creation_refused-Still c invalid_type p)
creation_answered-SameLeases threw c p = Still-SameLeases (creation_refused-Still c failure p)

pub creation_settled-SameLeases :
    (id : ℕ) (a : Made) (p : Pool) → SameLeases p (creation_settled id a p)
unfolding creation_settled
creation_settled-SameLeases id a p = elim (Option-cases (find_creation id p.creating)) [
  | inl e ↦ rw (e, creation_settled) (ground arith)
  | inr (c, e) ↦
      let s =
        creation_answered-SameLeases a c (record p { creating = remove_creation id p.creating }) in
      rw (e, creation_settled) (ground arith)
]

return_ready-SameLeases : (id : ℕ) (p : Pool) → SameLeases p (return_ready id p)
unfolding return_ready
return_ready-SameLeases id p =
    let unblocked : Pool = record p { low_water_blocked = false } in
    let kept = return_to_pool id unblocked in
    let s = return_to_pool-SameLeases id unblocked in
    let t : SameLeases p kept = ground arith in
    if_both (SameLeases p) (includes id kept.idle_ids)
      (SameLeases-trans t (Still-SameLeases (request_pump-Still kept))) t

pub recycle-SameLeases : (id : ℕ) (high : Option ℕ) (p : Pool) → SameLeases p (recycle id high p)
unfolding recycle
recycle-SameLeases id high p =
    let capped = on_record id (set_recycle high) p in
    let s = return_ready-SameLeases id capped in
    if_both (SameLeases p) p.config.reset_on_release (ground arith) (ground arith)

after_reset-SameLeases : (id : ℕ) (s : Settled) (p : Pool) → SameLeases p (after_reset id s p)
unfolding after_reset
after_reset-SameLeases id s p =
    let counted = count_reset_failure s (count_timeout s p) in
    let t : SameLeases p counted = ground arith in
    if_both (SameLeases p) (is_fulfilled s)
      (if_both (SameLeases p) (is_open p.state) (return_ready-SameLeases id p)
        (destroy-SameLeases id p))
      (SameLeases-trans t (destroy-SameLeases id counted))

pub release_reset_settled-SameLeases :
    (id : ℕ) (s : Settled) (p : Pool) → SameLeases p (release_reset_settled id s p)
unfolding release_reset_settled
release_reset_settled-SameLeases id s p = elim (Option-cases (find id p.records)) [
  | inl e ↦ rw (e, release_reset_settled) (ground arith)
  | inr (r, e) ↦
      let a = after_reset-SameLeases id s p in
      rw (e, release_reset_settled)
        (if_both (SameLeases p) (is_released_reset r) a (SameLeases-refl p))
]

destroy_fails-SameLeases : (id : ℕ) (s : Settled) (p : Pool) → SameLeases p (destroy_fails id s p)
unfolding destroy_fails
destroy_fails-SameLeases id s p =
    let marked = on_record id (mark_destroy_failed s) (count_destroy_failure (count_timeout s p)) in
    let m : SameLeases p marked = ground arith in
    SameLeases-trans m (
      SameLeases-trans (Still-SameLeases (fail_close-Still marked))
        (Still-SameLeases (settle-Still _)))

finish_destroy-SameLeases : (id : ℕ) (p : Pool) → SameLeases p (finish_destroy id p)
unfolding finish_destroy
finish_destroy-SameLeases id p =
    let s = settle-Still (record p { records = remove id p.records }) in ground arith

pub destroy_settled-SameLeases :
    (id : ℕ) (s : Settled) (p : Pool) → SameLeases p (destroy_settled id s p)
unfolding destroy_settled
destroy_settled-SameLeases id s p = elim (Option-cases (find id p.records)) [
  | inl e ↦ rw (e, destroy_settled) (ground arith)
  | inr (r, e) ↦
      let f = finish_destroy-SameLeases id p in
      let d = destroy_fails-SameLeases id s p in
      rw (e, destroy_settled)
        (if_both (SameLeases p) (not (is_destroying r)) (SameLeases-refl p) (
          if_both (SameLeases p) (is_fulfilled s) f
            (if_both (SameLeases p) r.destroy_failed (SameLeases-refl p) d)))
]

stop_work-SameLeases : (p : Pool) → SameLeases p (stop_work p)
unfolding stop_work
stop_work-SameLeases p =
    let told = reject_waiters p.waiters pool_closed p in
    let aborted : Pool = record told { creating = abort_creations told.creating } in
    let k = Still-SameLeases (reject_waiters-Still p.waiters pool_closed p) in
    let m : SameLeases p aborted = ground arith in
    SameLeases-trans m (
      SameLeases-trans (destroy_all-SameLeases aborted.idle_ids aborted)
        (Still-SameLeases (check_closed-Still _)))

pub shutdown_from-SameLeases :
    (s : RuntimeState) (r : Shutdown) (p : Pool) → SameLeases p (shutdown_from s r p)
unfolding shutdown_from
shutdown_from-SameLeases opened r p =
    let s = stop_work-SameLeases (record p { state = shutdown_state r }) in ground arith
shutdown_from-SameLeases retiring retire p = SameLeases-refl p
shutdown_from-SameLeases retiring close p = ground arith
shutdown_from-SameLeases shutting r p = SameLeases-refl p
shutdown_from-SameLeases closed r p = SameLeases-refl p
