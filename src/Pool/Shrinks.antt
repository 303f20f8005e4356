-- ===== src/Pool/Shrinks.antt =====
-- The operations that create nothing and queue nothing keep the pool within its bounds.
use open_rfc.Pool.Dispatch.{validate_all}
use open_rfc.Pool.Leases.{lease, lease_all}
use open_rfc.Pool.Resources.{
  last_id, end_handoff, push_idle, finish_close, surface_failures, destroy_all, return_all,
  fail_close, clear_recycle, trim_loop, keep_idle, check_closed, destroy, return_to_pool,
}
use open_rfc.Pool.Waiters.{
  answer, reconcile_creations, remove_waiter, cleanup_waiter, reject_waiters, reject_waiter,
  reconcile_loop, request_pump,
}
use open_rfc.Common.{
  length, ltb, Bool-cases, ℕ, zero, suc, ◌≤◌, ◌≡◌, refl, ap, inl, inr, Option, none, List, [], ◌∷◌,
  arith,
}
use open_rfc.Pool.Table.{set_recycle, enter, on_record, update, remove}
use open_rfc.Pool.{
  no_work, idle, leased, validate_work, destroy_work, closing, refused, validating, Pool, Physical,
  Creation, Waiter, PoolError,
}

-- `q` has the configuration of `p`, and nothing more than `p` in its collections.
pub record Shrinks (p q : Pool) : Type 0 where
  pub same : q.config ≡ p.config
  pub fewer_records : length q.records ≤ length p.records
  pub fewer_creations : length q.creating ≤ length p.creating
  pub fewer_waiters : length q.waiters ≤ length p.waiters

pub Shrinks-refl : (p : Pool) → Shrinks p p
Shrinks-refl p = ground arith

pub Shrinks-trans : {p q r : Pool} → Shrinks p q → Shrinks q r → Shrinks p r
Shrinks-trans a b = ground arith

pub length-update :
    (id : ℕ) (f : Physical → Physical) (rs : List Physical) → length (update id f rs) ≡ length rs
length-update id f [] = refl
length-update id f (r ∷ rs) = ap suc (length-update id f rs)

pub length-remove : (id : ℕ) (rs : List Physical) → length (remove id rs) ≤ length rs
length-remove id [] = omega arith
length-remove id (r ∷ rs) = ground (arith, length-remove id rs)

pub length-reconcile_loop :
    (cs : List Creation) (head : Option ℕ) (needed : ℕ)
    → length (reconcile_loop head needed cs) ≡ length cs
unfolding reconcile_loop
length-reconcile_loop [] head needed = refl
length-reconcile_loop (c ∷ cs) head needed = ap suc (length-reconcile_loop cs head _)

length-remove_waiter : (id : ℕ) (ws : List Waiter) → length (remove_waiter id ws) ≤ length ws
length-remove_waiter id [] = omega arith
length-remove_waiter id (w ∷ ws) = ground (arith, length-remove_waiter id ws)

pub request_pump-Shrinks : (p : Pool) → Shrinks p (request_pump p)
unfolding request_pump
request_pump-Shrinks p = ground arith

pub cleanup_waiter-Shrinks : (id : ℕ) (p : Pool) → Shrinks p (cleanup_waiter id p)
unfolding cleanup_waiter reconcile_creations
cleanup_waiter-Shrinks id p = record {
  same = refl;
  fewer_records = omega arith;
  fewer_creations = omega (arith, length-reconcile_loop p.creating _ _);
  fewer_waiters = length-remove_waiter id p.waiters;
}

pub reject_waiter-Shrinks : (id : ℕ) (e : PoolError) (p : Pool) → Shrinks p (reject_waiter id e p)
unfolding reject_waiter
reject_waiter-Shrinks id e p = ground (
  arith,
  cleanup_waiter-Shrinks id p,
  request_pump-Shrinks (answer id (refused e) (cleanup_waiter id p)),
)

pub reject_waiters-Shrinks :
    (ws : List Waiter) (e : PoolError) (p : Pool) → Shrinks p (reject_waiters ws e p)
unfolding reject_waiters
reject_waiters-Shrinks [] e p = Shrinks-refl p
reject_waiters-Shrinks (w ∷ ws) e p =
    Shrinks-trans (reject_waiter-Shrinks w.id e p)
      (reject_waiters-Shrinks ws e (reject_waiter w.id e p))

pub on_record-Shrinks : (id : ℕ) (f : Physical → Physical) (p : Pool) → Shrinks p (on_record id f p)
on_record-Shrinks id f p = record {
  same = refl;
  fewer_records = omega (arith, length-update id f p.records);
  fewer_creations = omega arith;
  fewer_waiters = omega arith;
}

pub fail_close-Shrinks : (p : Pool) → Shrinks p (fail_close p)
unfolding fail_close
fail_close-Shrinks p = ground arith

pub check_closed-Shrinks : (p : Pool) → Shrinks p (check_closed p)
unfolding check_closed surface_failures finish_close
check_closed-Shrinks p = ground (arith, fail_close-Shrinks p)

pub destroy-Shrinks : (id : ℕ) (p : Pool) → Shrinks p (destroy id p)
unfolding destroy
destroy-Shrinks id p = ground (arith, length-update id (enter closing destroy_work) p.records)

pub destroy_all-Shrinks : (ids : List ℕ) (p : Pool) → Shrinks p (destroy_all ids p)
destroy_all-Shrinks [] p = Shrinks-refl p
destroy_all-Shrinks (id ∷ ids) p =
    Shrinks-trans (destroy-Shrinks id p) (destroy_all-Shrinks ids (destroy id p))

push_idle-Shrinks : (id : ℕ) (p : Pool) → Shrinks p (push_idle id p)
unfolding push_idle
push_idle-Shrinks id p = ground arith

end_handoff-Shrinks : (id : ℕ) (p : Pool) → Shrinks p (end_handoff id p)
unfolding end_handoff
end_handoff-Shrinks id p = ground (arith, on_record-Shrinks id (set_recycle none) p)

pub keep_idle-Shrinks : (id : ℕ) (p : Pool) → Shrinks p (keep_idle id p)
unfolding keep_idle
keep_idle-Shrinks id p =
    let kept = on_record id (enter idle no_work) p in
    Shrinks-trans (on_record-Shrinks id (enter idle no_work) p)
      (Shrinks-trans (push_idle-Shrinks id kept) (end_handoff-Shrinks id (push_idle id kept)))

pub return_to_pool-Shrinks : (id : ℕ) (p : Pool) → Shrinks p (return_to_pool id p)
unfolding return_to_pool
return_to_pool-Shrinks id p = ground (
  arith,
  destroy-Shrinks id p,
  keep_idle-Shrinks id p,
  destroy-Shrinks id (on_record id (set_recycle none) p),
  length-update id (set_recycle none) p.records,
)

pub return_all-Shrinks : (ids : List ℕ) (p : Pool) → Shrinks p (return_all ids p)
return_all-Shrinks [] p = Shrinks-refl p
return_all-Shrinks (id ∷ ids) p =
    Shrinks-trans (return_to_pool-Shrinks id p) (return_all-Shrinks ids (return_to_pool id p))

pub trim_loop-Shrinks : (fuel high : ℕ) (p : Pool) → Shrinks p (trim_loop fuel high p)
unfolding trim_loop
trim_loop-Shrinks zero high p = Shrinks-refl p
trim_loop-Shrinks (suc fuel) high p = elim (Bool-cases (ltb high (length p.idle_ids))) [
  | inl more ↦
      rw (more, trim_loop)
        (Shrinks-trans (destroy-Shrinks (last_id p.idle_ids) p)
          (trim_loop-Shrinks fuel high (destroy (last_id p.idle_ids) p)))
  | inr done ↦ rw (done, trim_loop) (Shrinks-refl p)
]

pub clear_recycle-Shrinks : (ids : List ℕ) (p : Pool) → Shrinks p (clear_recycle ids p)
clear_recycle-Shrinks [] p = Shrinks-refl p
clear_recycle-Shrinks (id ∷ ids) p =
    Shrinks-trans (on_record-Shrinks id (set_recycle none) p) (clear_recycle-Shrinks ids _)

pub validate_all-Shrinks : (ids : List ℕ) (p : Pool) → Shrinks p (validate_all ids p)
validate_all-Shrinks [] p = Shrinks-refl p
validate_all-Shrinks (id ∷ ids) p =
    Shrinks-trans (on_record-Shrinks id (enter validating validate_work) p)
      (validate_all-Shrinks ids _)

pub lease-Shrinks : (id : ℕ) (p : Pool) → Shrinks p (lease id p)
unfolding lease
lease-Shrinks id p = record {
  same = refl;
  fewer_records =
      omega (arith, length-update id (λ r. enter leased no_work (set_recycle none r)) p.records);
  fewer_creations = omega arith;
  fewer_waiters = omega arith;
}

pub lease_all-Shrinks : (ids : List ℕ) (p : Pool) → Shrinks p (lease_all ids p)
unfolding lease_all
lease_all-Shrinks [] p = Shrinks-refl p
lease_all-Shrinks (id ∷ ids) p =
    Shrinks-trans (lease-Shrinks id p) (lease_all-Shrinks ids (lease id p))
