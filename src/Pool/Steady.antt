-- ===== src/Pool/Steady.antt =====
-- The operations that leave the flight of the dispatch and its flag as they are.
use open_rfc.Common.{
  length, ltb, Bool-cases, Option-cases, ℕ, zero, suc, ◌≡◌, inl, inr, none, List, [], ◌∷◌, arith,
}
use open_rfc.Pool.{Pool, Physical}
use open_rfc.Pool.Table.{find, set_recycle, on_record}
use open_rfc.Pool.Resources.{
  destroy, destroy_all, return_to_pool, keep_idle, end_handoff, push_idle, return_all, trim_loop,
  clear_recycle, last_id,
}
use open_rfc.Pool.Leases.{lease, lease_all}
use open_rfc.Pool.Still.{Still}

pub record SameFlight (p q : Pool) : Type 0 where
  pub same_flight : q.flight ≡ p.flight
  pub same_dispatching : q.dispatching ≡ p.dispatching

pub SameFlight-trans : {p q r : Pool} → SameFlight p q → SameFlight q r → SameFlight p r
SameFlight-trans a b = ground arith

pub Still-SameFlight : {p q : Pool} → Still p q → SameFlight p q
Still-SameFlight s = ground arith

pub on_record-SameFlight :
    (id : ℕ) (f : Physical → Physical) (p : Pool) → SameFlight p (on_record id f p)
on_record-SameFlight id f p = ground arith

pub destroy-SameFlight : (id : ℕ) (p : Pool) → SameFlight p (destroy id p)
unfolding destroy
destroy-SameFlight id p = ground arith

-- Destroying a connection touches no lease.
pub leases-destroy : (id : ℕ) (p : Pool) → (destroy id p).leases ≡ p.leases
unfolding destroy
leases-destroy id p = ground arith

pub destroy_all-SameFlight : (ids : List ℕ) (p : Pool) → SameFlight p (destroy_all ids p)
destroy_all-SameFlight [] p = ground arith
destroy_all-SameFlight (id ∷ ids) p =
    SameFlight-trans (destroy-SameFlight id p) (destroy_all-SameFlight ids (destroy id p))

keep_idle-SameFlight : (id : ℕ) (p : Pool) → SameFlight p (keep_idle id p)
unfolding keep_idle end_handoff push_idle
keep_idle-SameFlight id p = ground arith

pub return_to_pool-SameFlight : (id : ℕ) (p : Pool) → SameFlight p (return_to_pool id p)
unfolding return_to_pool
return_to_pool-SameFlight id p = elim (Option-cases (find id p.records)) [
  | inl e ↦ rw (e, return_to_pool) (ground arith)
  | inr (r, e) ↦
      rw (e, return_to_pool)
        (ground (
          arith,
          destroy-SameFlight id p,
          keep_idle-SameFlight id p,
          destroy-SameFlight id (on_record id (set_recycle none) p),
        ))
]

pub return_all-SameFlight : (ids : List ℕ) (p : Pool) → SameFlight p (return_all ids p)
return_all-SameFlight [] p = ground arith
return_all-SameFlight (id ∷ ids) p =
    SameFlight-trans (return_to_pool-SameFlight id p)
      (return_all-SameFlight ids (return_to_pool id p))

lease-SameFlight : (id : ℕ) (p : Pool) → SameFlight p (lease id p)
unfolding lease
lease-SameFlight id p = ground arith

pub lease_all-SameFlight : (ids : List ℕ) (p : Pool) → SameFlight p (lease_all ids p)
unfolding lease_all
lease_all-SameFlight [] p = ground arith
lease_all-SameFlight (id ∷ ids) p =
    SameFlight-trans (lease-SameFlight id p) (lease_all-SameFlight ids (lease id p))

pub trim_loop-SameFlight : (fuel high : ℕ) (p : Pool) → SameFlight p (trim_loop fuel high p)
unfolding trim_loop
trim_loop-SameFlight zero high p = ground arith
trim_loop-SameFlight (suc fuel) high p = elim (Bool-cases (ltb high (length p.idle_ids))) [
  | inr done ↦ rw (done, trim_loop) (ground arith)
  | inl more ↦
      let a = destroy-SameFlight (last_id p.idle_ids) p in
      let b = trim_loop-SameFlight fuel high (destroy (last_id p.idle_ids) p) in
      rw (more, trim_loop) (ground arith)
]

pub clear_recycle-SameFlight : (ids : List ℕ) (p : Pool) → SameFlight p (clear_recycle ids p)
clear_recycle-SameFlight [] p = ground arith
clear_recycle-SameFlight (id ∷ ids) p =
    let a = clear_recycle-SameFlight ids (on_record id (set_recycle none) p) in ground arith
