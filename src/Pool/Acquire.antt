-- ===== src/Pool/Acquire.antt =====
-- Acquisition, and the timeout of a waiter.
use open_rfc.Pool.Table.{is_open}
use open_rfc.Common.{
  length, Number, natural_in, Result, ◌>>=◌, ◌>>◌, guard, or_throw, ltb, leb, ◌==◌, if◌then◌else◌,
  ok, err, ℕ, suc, ◌+◌, ◌-◌, Bool, false, ◌&&◌, ◌||◌, not, Option, none, some, [], ◌∷◌, ◌++◌,
}
use open_rfc.Pool.Waiters.{find_waiter, replace_waiter, request_pump, reject_waiter}
use open_rfc.Pool.{
  Pool, Waiter, PoolError, pool_closed, pool_overloaded, acquire_aborted, acquire_timeout,
  invalid_range, failure,
}

abbrev pub max_timer_ms : ℕ
max_timer_ms = 2_147_483_647

abbrev pub max_early_timeout_rearms : ℕ
max_early_timeout_rearms = 64

-- `#readClock`: a reading that is not finite, or lies before the last one, throws.
unfoldable pub read_clock : Option ℕ → Pool → Option Pool
read_clock none p = none
read_clock (some now) p =
    if ltb now p.last_clock then none else some (record p { last_clock = now })

-- The options of `acquire` as far as they matter: the timeout, and whether the signal is aborted.
abbrev pub acquire_options : Option ℕ → Pool → Result PoolError ℕ
acquire_options none p = ok p.config.acquire_timeout
acquire_options (some t) p = do guard (leb 1 t && leb t max_timer_ms) invalid_range; ok t

-- The checks of `acquire` before its first reading of the clock.
unfoldable pub admit_acquire : Number → Option ℕ → Bool → Pool → Result PoolError (ℕ × ℕ)
admit_acquire count timeout aborted p = do
  n ← or_throw (natural_in count 1 p.config.max_connections) invalid_range
  t ← acquire_options timeout p
  guard (is_open p.state) pool_closed
  guard (not aborted) acquire_aborted
  guard (not (leb p.config.max_waiters (length p.waiters))) pool_overloaded
  ok (n, t)

-- `#armTimeout` is given the clock and counts a generation.
abbrev pub arm : Waiter → Waiter
arm w = record w { timeout_generation = suc w.timeout_generation }

-- The waiter that `acquire` adds.
abbrev pub enqueue : ℕ → ℕ → ℕ → Pool → Pool
enqueue count timeout now p = record p {
  waiters =
      p.waiters
      ++ (arm (record {
        id = p.next_waiter_id;
        count = count;
        deadline = now + timeout;
        timeout_generation = 0;
        early_rearms = 0;
      })
          ∷ []);
  next_waiter_id = suc p.next_waiter_id;
  low_water_blocked = false;
}

-- `acquire`: the pool, and the id of the waiter. A pool that is not open turns every error to
-- POOL_CLOSED.
unfoldable pub acquire : Number → Option ℕ → Bool → Option ℕ → Pool → Result PoolError (ℕ × Pool)
acquire count timeout aborted reading p = if not (is_open p.state) then err pool_closed else (do
  (n, t) ← admit_acquire count timeout aborted p
  read ← or_throw (read_clock reading p) failure
  ok (p.next_waiter_id, request_pump (enqueue n t read.last_clock read)))

-- The abort listener.
abbrev pub abort_acquire : ℕ → Pool → Pool
abort_acquire id p = reject_waiter id acquire_aborted p

-- The part of `#handleTimeout` for a callback that comes early.
unfoldable pub early_timeout : Waiter → ℕ → ℕ → Pool → Pool
early_timeout w left scheduled p =
    if leb scheduled left || ltb max_early_timeout_rearms (suc w.early_rearms)
    then reject_waiter w.id failure p
    else record p {
      waiters =
          replace_waiter
            (record w {
              early_rearms = suc w.early_rearms;
              timeout_generation = suc w.timeout_generation;
            })
            p.waiters;
    }

-- `#handleTimeout` for the callback that was scheduled with a generation and a delay.
unfoldable pub handle_timeout : ℕ → ℕ → ℕ → Option ℕ → Pool → Pool
handle_timeout id generation scheduled reading p = elim (find_waiter id p.waiters) [
  | none ↦ p
  | some w ↦ if not (w.timeout_generation == generation) then p else elim (read_clock reading p) [
    | none ↦ reject_waiter id failure p
    | some read ↦
        if not (is_open read.state)
        then reject_waiter id pool_closed read
        else if ltb read.last_clock w.deadline
        then early_timeout w (w.deadline - read.last_clock) scheduled read
        else reject_waiter id acquire_timeout read
  ]
]

-- The microtask that arms the timeout again.
unfoldable pub rearm_timeout : ℕ → ℕ → Option ℕ → Pool → Pool
rearm_timeout id generation reading p = elim (find_waiter id p.waiters) [
  | none ↦ p
  | some w ↦
      if not (w.timeout_generation == generation)
      then p
      else if not (is_open p.state)
      then reject_waiter id pool_closed p
      else elim (read_clock reading p) [
        | none ↦ reject_waiter id failure p
        | some read ↦ record read { waiters = replace_waiter (arm w) read.waiters }
      ]
]
