-- ===== src/Pool/Capacity.antt =====
-- The bounds of the pool: at most `maxConnections` connections, running creations included, and at most
-- `maxWaiters` waiters.
use open_rfc.Pool.Waiters.{reject_waiter}
use open_rfc.Pool.Table.{is_open}
use open_rfc.Pool.Acquire.{read_clock}
use open_rfc.Pool.Dispatch.{check_out, dispatch_loop, end_dispatch}
use open_rfc.Pool.Resources.{
  trim_loop, effective_high, is_empty, start_creation, ensure_low_water, ensure_waiter_capacity,
  trim_idle_high, start_creations,
}
use open_rfc.Common.{
  length, take, length-append, ltb, ◌==◌, Bool-cases, Option-cases, ℕ, zero, suc, ◌+◌, ◌≤◌, ◌≡◌,
  refl, ◌⊎◌, inl, inr, false, ◌||◌, not, Option, none, some, List, [], ◌∷◌, arith,
}
use open_rfc.Pool.Shrinks.{
  reject_waiter-Shrinks, clear_recycle-Shrinks, trim_loop-Shrinks, request_pump-Shrinks,
  validate_all-Shrinks, Shrinks, Shrinks-refl, Shrinks-trans,
}
use open_rfc.Pool.{acquire_timeout, failure, Creation, Pool, Waiter}

pub record FitsLimits (p : Pool) : Type 0 where
  pub connections_fit : length p.records + length p.creating ≤ p.config.max_connections
  pub waiters_fit : length p.waiters ≤ p.config.max_waiters

pub Shrinks-FitsLimits : {p q : Pool} → Shrinks p q → FitsLimits p → FitsLimits q
Shrinks-FitsLimits s f = ground arith

start_creation-FitsLimits :
    (owner : Option ℕ) (p : Pool) → FitsLimits p → FitsLimits (start_creation owner p)
unfolding start_creation
start_creation-FitsLimits owner p f =
    let c : Creation = record {
      id = p.next_creation_id;
      owner = owner;
      aborted = false;
      abort_requested = false;
      expired = false;
    } in
    ground (arith, length-append p.creating (c ∷ []))

start_creations-FitsLimits :
    (n : ℕ) (owner : Option ℕ) (p : Pool) → FitsLimits p → FitsLimits (start_creations n owner p)
unfolding start_creations
start_creations-FitsLimits zero owner p f = f
start_creations-FitsLimits (suc n) owner p f =
    start_creations-FitsLimits n owner (start_creation owner p)
      (start_creation-FitsLimits owner p f)

ensure_waiter_capacity-FitsLimits :
    (w : Waiter) (p : Pool) → FitsLimits p → FitsLimits (ensure_waiter_capacity w p)
unfolding ensure_waiter_capacity
ensure_waiter_capacity-FitsLimits w p f = start_creations-FitsLimits _ (some w.id) p f

ensure_low_water-FitsLimits : (p : Pool) → FitsLimits p → FitsLimits (ensure_low_water p)
unfolding ensure_low_water
ensure_low_water-FitsLimits p f =
    elim (Bool-cases (p.low_water_blocked || (p.config.low_water == 0))) [
      | inl e ↦ rw e f
      | inr e ↦ rw e (start_creations-FitsLimits _ none p f)
    ]

trim_idle_high-Shrinks : (p : Pool) → Shrinks p (trim_idle_high p)
unfolding trim_idle_high
trim_idle_high-Shrinks p = elim (Bool-cases (not (is_open p.state) || not (is_empty p.waiters))) [
  | inl e ↦ rw e (Shrinks-refl p)
  | inr e ↦ rw e (
      Shrinks-trans (trim_loop-Shrinks (length p.idle_ids) (effective_high p.idle_ids p) p) (
        clear_recycle-Shrinks
          (trim_loop (length p.idle_ids) (effective_high p.idle_ids p) p).idle_ids
          (trim_loop (length p.idle_ids) (effective_high p.idle_ids p) p)))
]

end_dispatch-Shrinks : (p : Pool) → Shrinks p (end_dispatch p)
unfolding end_dispatch
end_dispatch-Shrinks p = ground (arith, request_pump-Shrinks (record p { dispatching = false }))

pub read_clock-Shrinks :
    (reading : Option ℕ) (p q : Pool) → read_clock reading p ≡ some q → Shrinks p q
unfolding read_clock
read_clock-Shrinks none p q e = absurd (cc)
read_clock-Shrinks (some now) p q e = ground arith

check_out-Shrinks : (w : Waiter) (p : Pool) → Shrinks p (check_out w p)
unfolding check_out
check_out-Shrinks w p =
    Shrinks-trans (ground arith) (validate_all-Shrinks (take w.count p.idle_ids) _)

pub List-cases :
    (ws : List Waiter) → (ws ≡ []) ⊎ ((w : Waiter) × (vs : List Waiter) × (ws ≡ w ∷ vs))
List-cases [] = inl refl
List-cases (w ∷ ws) = inr (w, ws, refl)

pub dispatch_loop-FitsLimits :
    (fuel : ℕ) (reading : Option ℕ) (p : Pool)
    → FitsLimits p
    → FitsLimits (dispatch_loop fuel reading p)
unfolding dispatch_loop
dispatch_loop-FitsLimits zero reading p f = Shrinks-FitsLimits (end_dispatch-Shrinks p) f
dispatch_loop-FitsLimits (suc fuel) reading p f = elim (Bool-cases (is_open p.state)) [
  | inr shut ↦ rw (shut, dispatch_loop) (Shrinks-FitsLimits (end_dispatch-Shrinks p) f)
  | inl up ↦ elim (List-cases p.waiters) [
    | inl e ↦
        rw (up, e, dispatch_loop)
          (Shrinks-FitsLimits (end_dispatch-Shrinks _)
            (ensure_low_water-FitsLimits _ (Shrinks-FitsLimits (trim_idle_high-Shrinks p) f)))
    | inr (w, ws, e) ↦ elim (Option-cases (read_clock reading p)) [
      | inl r ↦
          rw (up, e, r, dispatch_loop)
            (dispatch_loop-FitsLimits fuel reading (reject_waiter w.id failure p)
              (Shrinks-FitsLimits (reject_waiter-Shrinks w.id failure p) f))
      | inr (read, r) ↦
          let g : FitsLimits read = Shrinks-FitsLimits (read_clock-Shrinks reading p read r) f in
          elim (Bool-cases (ltb read.last_clock w.deadline)) [
            | inr late ↦
                rw (up, e, r, late, dispatch_loop)
                  (dispatch_loop-FitsLimits fuel reading (reject_waiter w.id acquire_timeout read)
                    (Shrinks-FitsLimits (reject_waiter-Shrinks w.id acquire_timeout read) g))
            | inl soon ↦ elim (Bool-cases (ltb (length read.idle_ids) w.count)) [
              | inl few ↦
                  rw (up, e, r, soon, few, dispatch_loop)
                    (Shrinks-FitsLimits (end_dispatch-Shrinks _)
                      (ensure_waiter_capacity-FitsLimits w read g))
              | inr enough ↦
                  rw (up, e, r, soon, enough, dispatch_loop)
                    (Shrinks-FitsLimits (check_out-Shrinks w read) g)
            ]
          ]
    ]
  ]
]
