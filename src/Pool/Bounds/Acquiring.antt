-- ===== src/Pool/Bounds/Acquiring.antt =====
-- Acquisition and the timeouts keep to the limits.
use open_rfc.Pool.Table.{is_open}
use open_rfc.Pool.Steps.{after_acquire}
use open_rfc.Pool.Acquire.{
  arm, enqueue, acquire_options, admit_acquire, early_timeout, read_clock, acquire, rearm_timeout,
  handle_timeout,
}
use open_rfc.Pool.Capacity.{read_clock-Shrinks, Shrinks-FitsLimits, FitsLimits}
use open_rfc.Pool.Waiters.{find_waiter, replace_waiter}
use open_rfc.Common.{
  length, length-append, Number, natural_in, guard, or_throw, >>=-eq-ok, Result-cases, guard_sound,
  leb, Bool-cases, Option-cases, ok, ℕ, suc, ◌+◌, ◌-◌, ◌<◌, ◌≡◌, refl, ap, inl, inr, Bool, not,
  Option, List, [], ◌∷◌, arith,
}
use open_rfc.Pool.Shrinks.{request_pump-Shrinks, reject_waiter-Shrinks, Shrinks, Shrinks-refl}
use open_rfc.Pool.{
  acquire_timeout, acquire_aborted, invalid_range, Waiter, pool_overloaded, Config, pool_closed,
  failure, Pool,
}

admit_acquire-room :
    (count : Number) (timeout : Option ℕ) (aborted : Bool) (p : Pool) {a : ℕ × ℕ}
    → admit_acquire count timeout aborted p ≡ ok a
    → length p.waiters < p.config.max_waiters
unfolding admit_acquire
admit_acquire-room count timeout aborted p e =
    let (n, e₁, h₁) =
      >>=-eq-ok (or_throw (natural_in count 1 p.config.max_connections) invalid_range) _ e in
    let (t, e₂, h₂) = >>=-eq-ok (acquire_options timeout p) _ h₁ in
    let (u, e₃, h₃) = >>=-eq-ok (guard (is_open p.state) pool_closed) _ h₂ in
    let (v, e₄, h₄) = >>=-eq-ok (guard (not aborted) acquire_aborted) _ h₃ in
    let (w, e₅, h₅) =
      >>=-eq-ok (guard (not (leb p.config.max_waiters (length p.waiters))) pool_overloaded) _ h₄ in
    let b = guard_sound (not (leb p.config.max_waiters (length p.waiters))) pool_overloaded e₅ in
    ground arith

length-enqueue :
    (count timeout now : ℕ) (p : Pool)
    → length (enqueue count timeout now p).waiters ≡ suc (length p.waiters)
length-enqueue count timeout now p =
    let w : Waiter = record {
      id = p.next_waiter_id;
      count = count;
      deadline = now + timeout;
      timeout_generation = 1;
      early_rearms = 0;
    } in
    omega (arith, length-append p.waiters (w ∷ []))

pub acquire-FitsLimits :
    (count : Number) (timeout : Option ℕ) (aborted : Bool) (reading : Option ℕ) (p : Pool)
    → FitsLimits p
    → FitsLimits (after_acquire p (acquire count timeout aborted reading p))
unfolding acquire
acquire-FitsLimits count timeout aborted reading p f = elim (Bool-cases (is_open p.state)) [
  | inr shut ↦ rw shut f
  | inl up ↦ elim (Result-cases (admit_acquire count timeout aborted p)) [
    | inr (e, no_entry) ↦ rw (up, no_entry) f
    | inl (a, entry) ↦ elim (Option-cases (read_clock reading p)) [
      | inl r ↦ rw (up, entry, r) f
      | inr (read, r) ↦
          let room : length p.waiters < p.config.max_waiters =
            admit_acquire-room count timeout aborted p entry in
          let s = read_clock-Shrinks reading p read r in
          rw (up, entry, r)
            (Shrinks-FitsLimits (request_pump-Shrinks (enqueue a.0 a.1 read.last_clock read))
              (record {
                connections_fit = omega (
                  arith,
                  f.connections_fit,
                  s.fewer_records,
                  s.fewer_creations,
                  ap (λ (c : Config). c.max_connections) s.same,
                );
                waiters_fit = omega (
                  arith,
                  room,
                  s.fewer_waiters,
                  length-enqueue a.0 a.1 read.last_clock read,
                  ap (λ (c : Config). c.max_waiters) s.same,
                );
              }))
    ]
  ]
]

length-replace_waiter : (w : Waiter) (ws : List Waiter) → length (replace_waiter w ws) ≡ length ws
length-replace_waiter w [] = refl
length-replace_waiter w (v ∷ vs) = ap suc (length-replace_waiter w vs)

early_timeout-Shrinks :
    (w : Waiter) (left scheduled : ℕ) (p : Pool) → Shrinks p (early_timeout w left scheduled p)
unfolding early_timeout
early_timeout-Shrinks w left scheduled p = ground (
  arith,
  reject_waiter-Shrinks w.id failure p,
  length-replace_waiter
      (record w {
        early_rearms = suc w.early_rearms;
        timeout_generation = suc w.timeout_generation;
      })
      p.waiters,
)

pub handle_timeout-Shrinks :
    (id generation scheduled : ℕ) (reading : Option ℕ) (p : Pool)
    → Shrinks p (handle_timeout id generation scheduled reading p)
unfolding handle_timeout
handle_timeout-Shrinks id generation scheduled reading p =
    elim (Option-cases (find_waiter id p.waiters)) [
      | inl e ↦ rw (e, handle_timeout) (Shrinks-refl p)
      | inr (w, e) ↦ elim (Option-cases (read_clock reading p)) [
        | inl r ↦ rw (e, r, handle_timeout) (ground (arith, reject_waiter-Shrinks id failure p))
        | inr (read, r) ↦
            rw (e, r, handle_timeout)
              (ground (
                arith,
                read_clock-Shrinks reading p read r,
                reject_waiter-Shrinks id pool_closed read,
                reject_waiter-Shrinks id acquire_timeout read,
                early_timeout-Shrinks w (w.deadline - read.last_clock) scheduled read,
              ))
      ]
    ]

pub rearm_timeout-Shrinks :
    (id generation : ℕ) (reading : Option ℕ) (p : Pool)
    → Shrinks p (rearm_timeout id generation reading p)
unfolding rearm_timeout
rearm_timeout-Shrinks id generation reading p = elim (Option-cases (find_waiter id p.waiters)) [
  | inl e ↦ rw (e, rearm_timeout) (Shrinks-refl p)
  | inr (w, e) ↦ elim (Option-cases (read_clock reading p)) [
    | inl r ↦
        rw (e, r, rearm_timeout)
          (ground
            (arith, reject_waiter-Shrinks id failure p, reject_waiter-Shrinks id pool_closed p))
    | inr (read, r) ↦
        rw (e, r, rearm_timeout)
          (ground (
            arith,
            read_clock-Shrinks reading p read r,
            reject_waiter-Shrinks id pool_closed p,
            length-replace_waiter (arm w) read.waiters,
          ))
  ]
]
