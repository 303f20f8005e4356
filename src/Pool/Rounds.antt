-- ===== src/Pool/Rounds.antt =====
-- The rounds of the dispatch up to its await: they end, and they leave nobody behind who can be served.
use open_rfc.SapRouter.Route.{is_some}
use open_rfc.Common.{
  length, take, drop, ltb, Bool-cases, Option-cases, ℕ, zero, suc, ◌+◌, ◌<◌, ◌≡◌, refl, ap, ap₂,
  ◌∙◌, inl, inr, Bool, true, false, ◌||◌, not, Option, some, List, [], ◌∷◌, arith,
}
use open_rfc.Pool.{Pool, Waiter, failure, acquire_timeout}
use open_rfc.Pool.Table.{is_open}
use open_rfc.Pool.Waiters.{reject_waiter, request_pump}
use open_rfc.Pool.Resources.{trim_idle_high, ensure_low_water, ensure_waiter_capacity}
use open_rfc.Pool.Acquire.{read_clock}
use open_rfc.Pool.Dispatch.{dispatch, dispatch_loop, end_dispatch, check_out, validate_all}
use open_rfc.Pool.Capacity.{List-cases}
use open_rfc.Pool.Checkout.{validate_all-flight}
use open_rfc.Pool.Still.{ensure_waiter_capacity-Still}
use open_rfc.Pool.Quiet.{
  read_clock-SameQueue, ensure_low_water-SameQueue, trim_idle_high-SameQueue,
  ensure_waiter_capacity-SameQueue,
}
use open_rfc.Pool.Farewell.{waiters-reject_waiter}

shorter :
    (ws : List Waiter) (w : Waiter) (vs xs : List Waiter) (fuel : ℕ)
    → ws ≡ w ∷ vs
    → xs ≡ vs
    → length ws < suc fuel
    → length xs < fuel
shorter ws w vs xs fuel e f h = (let a = ap length e in let b = ap length f in omega arith)

one_more :
    (fuel : ℕ) (reading : Option ℕ) (p : Pool)
    → length p.waiters < fuel
    → dispatch_loop (suc fuel) reading p ≡ dispatch_loop fuel reading p
unfolding dispatch_loop
one_more zero reading p h = absurd (omega arith)
one_more (suc fuel) reading p h = elim (Bool-cases (is_open p.state)) [
  | inr shut ↦ rw (shut, dispatch_loop) refl
  | inl up ↦ elim (List-cases p.waiters) [
    | inl e ↦ rw (up, e, dispatch_loop) refl
    | inr (w, ws, e) ↦ elim (Option-cases (read_clock reading p)) [
      | inl r ↦
          let k =
            shorter p.waiters w ws (reject_waiter w.id failure p).waiters fuel e
              (waiters-reject_waiter w ws failure p e) h in
          rw (up, e, r, dispatch_loop) (one_more fuel reading (reject_waiter w.id failure p) k)
      | inr (read, r) ↦
          let q = (read_clock-SameQueue reading p read r).same_waiters ∙ e in
          let k =
            shorter p.waiters w ws (reject_waiter w.id acquire_timeout read).waiters fuel e
              (waiters-reject_waiter w ws acquire_timeout read q) h in
          elim (Bool-cases (ltb read.last_clock w.deadline)) [
            | inr late ↦
                rw (up, e, r, late, dispatch_loop)
                  (one_more fuel reading (reject_waiter w.id acquire_timeout read) k)
            | inl soon ↦ rw (up, e, r, soon, dispatch_loop) refl
          ]
    ]
  ]
]

-- The head of the queue, if there is one, asks for more connections than are idle.
abbrev pub head_short : List Waiter → ℕ → Bool
head_short [] idle_count = true
head_short (w ∷ ws) idle_count = ltb idle_count w.count

-- Validations are awaited, or the pool is not open, or nobody can be served from the idle connections.
abbrev pub rests : Pool → Bool
rests p = is_some p.flight || (not (is_open p.state) || head_short p.waiters (length p.idle_ids))

first_of : (a b c : Bool) → a ≡ true → (a || (b || c)) ≡ true
first_of true b c e = refl
first_of false b c e = absurd (cc)

second_of : (a b c : Bool) → b ≡ false → (a || (not b || c)) ≡ true
second_of true b c e = refl
second_of false true c e = absurd (cc)
second_of false false c e = refl

third_of : (a b c : Bool) → c ≡ true → (a || (b || c)) ≡ true
third_of true b c e = refl
third_of false true c e = refl
third_of false false c e = e

record Keeps (p q : Pool) : Type 0 where
  state_kept : q.state ≡ p.state
  idle_kept : q.idle_ids ≡ p.idle_ids
  waiters_kept : q.waiters ≡ p.waiters

end_dispatch-Keeps : (p : Pool) → Keeps p (end_dispatch p)
unfolding end_dispatch request_pump
end_dispatch-Keeps p = ground arith

ended_shut : (p : Pool) → is_open p.state ≡ false → rests (end_dispatch p) ≡ true
ended_shut p e =
    let q = end_dispatch p in
    second_of (is_some q.flight) (is_open q.state) (head_short q.waiters (length q.idle_ids))
      (ap is_open ((end_dispatch-Keeps p).state_kept) ∙ e)

ended_short :
    (p : Pool) (ws : List Waiter) (ids : List ℕ)
    → p.waiters ≡ ws
    → p.idle_ids ≡ ids
    → head_short ws (length ids) ≡ true
    → rests (end_dispatch p) ≡ true
ended_short p ws ids f g e =
    let q = end_dispatch p in
    let k = end_dispatch-Keeps p in
    third_of (is_some q.flight) (not (is_open q.state)) (head_short q.waiters (length q.idle_ids))
      (ap₂ (λ vs is. head_short vs (length is)) (k.waiters_kept ∙ f) (k.idle_kept ∙ g) ∙ e)

checked_out : (w : Waiter) (p : Pool) → rests (check_out w p) ≡ true
unfolding check_out
checked_out w p =
    let taken = take w.count p.idle_ids in
    let start : Pool = record p {
      idle_ids = drop w.count p.idle_ids;
      flight = some (record { waiter = w.id; count = w.count; candidates = taken; outcomes = [] });
    } in
    let q = validate_all taken start in
    first_of (is_some q.flight) (not (is_open q.state)) (head_short q.waiters (length q.idle_ids))
      (ap is_some ((validate_all-flight taken start).0))

rests-dispatch_loop :
    (fuel : ℕ) (reading : Option ℕ) (p : Pool)
    → length p.waiters < fuel
    → rests (dispatch_loop fuel reading p) ≡ true
unfolding dispatch_loop
rests-dispatch_loop zero reading p h = absurd (omega arith)
rests-dispatch_loop (suc fuel) reading p h = elim (Bool-cases (is_open p.state)) [
  | inr shut ↦ rw (shut, dispatch_loop) (ended_shut p shut)
  | inl up ↦ elim (List-cases p.waiters) [
    | inl e ↦
        let cleared = trim_idle_high p in
        let nobody =
          (ensure_low_water-SameQueue cleared).same_waiters
          ∙ ((trim_idle_high-SameQueue p).same_waiters ∙ e) in
        rw (up, e, dispatch_loop) (ended_short (ensure_low_water cleared) [] _ nobody refl refl)
    | inr (w, ws, e) ↦ elim (Option-cases (read_clock reading p)) [
      | inl r ↦
          let k =
            shorter p.waiters w ws (reject_waiter w.id failure p).waiters fuel e
              (waiters-reject_waiter w ws failure p e) h in
          rw (up, e, r, dispatch_loop)
            (rests-dispatch_loop fuel reading (reject_waiter w.id failure p) k)
      | inr (read, r) ↦
          let q = (read_clock-SameQueue reading p read r).same_waiters ∙ e in
          let k =
            shorter p.waiters w ws (reject_waiter w.id acquire_timeout read).waiters fuel e
              (waiters-reject_waiter w ws acquire_timeout read q) h in
          elim (Bool-cases (ltb read.last_clock w.deadline)) [
            | inr late ↦
                rw (up, e, r, late, dispatch_loop)
                  (rests-dispatch_loop fuel reading (reject_waiter w.id acquire_timeout read) k)
            | inl soon ↦ elim (Bool-cases (ltb (length read.idle_ids) w.count)) [
              | inl few ↦
                  rw (up, e, r, soon, few, dispatch_loop)
                    (ended_short (ensure_waiter_capacity w read) (w ∷ ws) read.idle_ids
                      ((ensure_waiter_capacity-SameQueue w read).same_waiters ∙ q)
                      ((ensure_waiter_capacity-Still w read).idle_still) few)
              | inr enough ↦ rw (up, e, r, soon, enough, dispatch_loop) (checked_out w read)
            ]
          ]
    ]
  ]
]

fuel_enough :
    (extra : ℕ) (reading : Option ℕ) (p : Pool)
    → dispatch_loop (extra + suc (length p.waiters)) reading p ≡ dispatch reading p
fuel_enough zero reading p = ap (λ n. dispatch_loop n reading p) (omega arith)
fuel_enough (suc extra) reading p =
    ap (λ n. dispatch_loop n reading p) (omega arith)
    ∙ (one_more (extra + suc (length p.waiters)) reading p (omega arith)
        ∙ fuel_enough extra reading p)

-- The rounds of the dispatch up to its next await, at one reading of the clock, end by themselves: with any
-- fuel beyond the length of the queue they give the same. Where they end, validations are awaited, or
-- the pool is not open, or the queue is empty, or its head asks for more connections than are idle.
pub dispatch_total :
    (extra : ℕ) (reading : Option ℕ) (p : Pool)
    → (dispatch_loop (extra + suc (length p.waiters)) reading p ≡ dispatch reading p)
      × (rests (dispatch reading p) ≡ true)
dispatch_total extra reading p = (
  fuel_enough extra reading p,
  rests-dispatch_loop (suc (length p.waiters)) reading p (omega arith),
)
