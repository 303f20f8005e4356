-- ===== src/Pool/Bounds/Creating.antt =====
-- The creations keep to the limits.
use open_rfc.Pool.Resources.{check_closed}
use open_rfc.Pool.Capacity.{Shrinks-FitsLimits, FitsLimits}
use open_rfc.Pool.Waiters.{request_pump}
use open_rfc.Common.{
  length, length-append, Bool-cases, Option-cases, ℕ, suc, ◌+◌, ◌≤◌, ◌≡◌, refl, ap, inl, inr, false,
  Option, none, some, List, [], ◌∷◌, arith,
}
use open_rfc.Pool.Shrinks.{
  return_to_pool-Shrinks, fail_close-Shrinks, destroy-Shrinks, check_closed-Shrinks,
  request_pump-Shrinks, reject_waiter-Shrinks, Shrinks, Shrinks-refl, Shrinks-trans,
}
use open_rfc.Pool.Creations.{
  creation_timed_out, made, threw, not_object, place, mark_expired, owns_resource,
  creation_answered, count_aborted, add_physical, expire_creation, creation_failed_after_removal,
  adopt, creation_settled, find_creation, creation_expired, reject_owner, remove_creation,
  creation_refused, Made,
}
use open_rfc.Pool.{
  failure, idle, no_work, invalid_type, Physical, lifecycle_timeout, Pool, Creation, PoolError,
}

-- There is room for one connection more.
record HasSlot (p : Pool) : Type 0 where
  slot : suc (length p.records + length p.creating) ≤ p.config.max_connections
  queue : length p.waiters ≤ p.config.max_waiters

HasSlot-FitsLimits : {p : Pool} → HasSlot p → FitsLimits p
HasSlot-FitsLimits s = ground arith

remove_creation-length :
    (id : ℕ) (cs : List Creation) (c : Creation)
    → find_creation id cs ≡ some c
    → length cs ≡ suc (length (remove_creation id cs))
remove_creation-length id [] c e = absurd (cc)
remove_creation-length id (d ∷ ds) c e = ground (arith, remove_creation-length id ds c)

reject_owner-Shrinks :
    (owner : Option ℕ) (e : PoolError) (p : Pool) → Shrinks p (reject_owner owner e p)
reject_owner-Shrinks none e p = Shrinks-refl p
reject_owner-Shrinks (some id) e p = reject_waiter-Shrinks id e p

-- The pump is requested and the close checked after most operations.
pub settle-Shrinks : (p : Pool) → Shrinks p (check_closed (request_pump p))
settle-Shrinks p = Shrinks-trans (request_pump-Shrinks p) (check_closed-Shrinks (request_pump p))

creation_refused-Shrinks :
    (c : Creation) (e : PoolError) (p : Pool) → Shrinks p (creation_refused c e p)
unfolding creation_refused creation_failed_after_removal
creation_refused-Shrinks c e p = elim (Bool-cases c.expired) [
  | inl late ↦ rw late (settle-Shrinks p)
  | inr early ↦ rw early (
      Shrinks-trans (ground arith)
        (Shrinks-trans (reject_owner-Shrinks c.owner e _) (settle-Shrinks _)))
]

length-mark_expired : (id : ℕ) (cs : List Creation) → length (mark_expired id cs) ≡ length cs
length-mark_expired id [] = refl
length-mark_expired id (c ∷ cs) = ap suc (length-mark_expired id cs)

expire_creation-Shrinks : (c : Creation) (p : Pool) → Shrinks p (expire_creation c p)
unfolding expire_creation
expire_creation-Shrinks c p = ground (arith, length-mark_expired c.id p.creating)

creation_expired-Shrinks : (c : Creation) (p : Pool) → Shrinks p (creation_expired c p)
unfolding creation_expired expire_creation
creation_expired-Shrinks c p = elim (Bool-cases c.expired) [
  | inl late ↦ rw late (Shrinks-refl p)
  | inr early ↦ rw early (
      Shrinks-trans (expire_creation-Shrinks c p) (
        Shrinks-trans (reject_owner-Shrinks c.owner lifecycle_timeout _)
          (Shrinks-trans (fail_close-Shrinks _) (settle-Shrinks _))))
]

add_physical-FitsLimits :
    (resource : ℕ) (p : Pool) → HasSlot p → FitsLimits (add_physical resource p)
add_physical-FitsLimits resource p s =
    let r : Physical = record {
      id = p.next_physical_id;
      resource = resource;
      state = idle;
      work = no_work;
      recycle_idle_high = none;
      destroy_failed = false;
    } in
    ground (arith, length-append p.records (r ∷ []))

count_aborted-HasSlot : (c : Creation) (p : Pool) → HasSlot p → HasSlot (count_aborted c p)
count_aborted-HasSlot c p s = ground arith

place-Shrinks : (c : Creation) (id : ℕ) (p : Pool) → Shrinks p (place c id p)
unfolding place
place-Shrinks c id p = ground (
  arith,
  destroy-Shrinks id p,
  destroy-Shrinks id (record p { low_water_blocked = false }),
  return_to_pool-Shrinks id (record p { low_water_blocked = false }),
)

adopt-FitsLimits :
    (c : Creation) (resource : ℕ) (p : Pool) → HasSlot p → FitsLimits (adopt c resource p)
unfolding adopt
adopt-FitsLimits c resource p s =
    Shrinks-FitsLimits
      (Shrinks-trans
        (place-Shrinks c p.next_physical_id (add_physical resource (count_aborted c p)))
        (settle-Shrinks _))
      (add_physical-FitsLimits resource (count_aborted c p) (count_aborted-HasSlot c p s))

-- What `creation_settled` does once the creation is taken off.
answered-FitsLimits :
    (a : Made) (c : Creation) (p : Pool) → HasSlot p → FitsLimits (creation_answered a c p)
unfolding creation_answered
answered-FitsLimits not_object c p s =
    Shrinks-FitsLimits (creation_refused-Shrinks c invalid_type p) (HasSlot-FitsLimits s)
answered-FitsLimits threw c p s =
    Shrinks-FitsLimits (creation_refused-Shrinks c failure p) (HasSlot-FitsLimits s)
answered-FitsLimits (made resource) c p s = elim (Bool-cases (owns_resource resource p.records)) [
  | inl e ↦ rw e (Shrinks-FitsLimits (creation_refused-Shrinks c failure p) (HasSlot-FitsLimits s))
  | inr e ↦ rw e (adopt-FitsLimits c resource p s)
]

pub creation_settled-FitsLimits :
    (id : ℕ) (a : Made) (p : Pool) → FitsLimits p → FitsLimits (creation_settled id a p)
unfolding creation_settled
creation_settled-FitsLimits id a p f = elim (Option-cases (find_creation id p.creating)) [
  | inl e ↦ rw (e, creation_settled) f
  | inr (c, e) ↦
      rw (e, creation_settled)
        (answered-FitsLimits a c (record p { creating = remove_creation id p.creating })
          (record {
            slot = omega (arith, remove_creation-length id p.creating c e, f.connections_fit);
            queue = f.waiters_fit;
          }))
]

pub creation_timed_out-Shrinks : (id : ℕ) (p : Pool) → Shrinks p (creation_timed_out id p)
unfolding creation_timed_out
creation_timed_out-Shrinks id p = elim (Option-cases (find_creation id p.creating)) [
  | inl e ↦ rw (e, creation_timed_out) (Shrinks-refl p)
  | inr (c, e) ↦ rw (e, creation_timed_out) (creation_expired-Shrinks c p)
]
