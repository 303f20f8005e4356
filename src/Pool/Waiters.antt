-- ===== src/Pool/Waiters.antt =====
-- The queue of waiters, the creations that they own, and the request of a pump.
use open_rfc.Common.{
  length, ltb, ◌==◌, if◌then◌else◌, ℕ, ◌+◌, ◌-◌, Bool, true, false, ◌||◌, Option, none, some, List,
  [], ◌∷◌,
}
use open_rfc.Pool.Table.{is_open, is_resetting, count_of}
use open_rfc.Pool.{Pool, Waiter, Creation, PoolError, Answer, refused}

-- `#requestPump`: the microtask is scheduled once.
unfoldable pub request_pump : Pool → Pool
request_pump p =
    if is_open p.state
    then (if p.dispatching
        then record p { pump_requested = true }
        else record p { pump_scheduled = true })
    else p

-- `#abortCreation`
abbrev pub abort_creation : Creation → Creation
abort_creation c = record c { abort_requested = true; aborted = true }

-- The loop of `#reconcileCreations`: the creations that are needed go to the head of the queue.
unfoldable pub reconcile_loop : Option ℕ → ℕ → List Creation → List Creation
reconcile_loop head needed [] = []
reconcile_loop head needed (c ∷ cs) =
    (if c.aborted
      then c
      else if ltb 0 needed
      then record c { owner = head }
      else abort_creation (record c { owner = none }))
    ∷ reconcile_loop head (if c.aborted then needed else needed - 1) cs

abbrev pub head_id : List Waiter → Option ℕ
head_id [] = none
head_id (w ∷ ws) = some w.id

-- The number of connections that the head, or the low water mark, asks for.
abbrev pub desired : Pool → ℕ
desired p =
    if is_open p.state
    then elim (p.waiters) [
      | [] ↦ (if p.low_water_blocked then 0 else p.config.low_water)
      | w ∷ ws ↦ w.count
    ]
    else 0

unfoldable pub reconcile_creations : Pool → Pool
reconcile_creations p = record p {
  creating =
      reconcile_loop (if is_open p.state then head_id p.waiters else none)
        (desired p - (length p.idle_ids + count_of is_resetting p.records)) p.creating;
}

abbrev pub is_waiting : ℕ → List Waiter → Bool
is_waiting id [] = false
is_waiting id (w ∷ ws) = (w.id == id) || is_waiting id ws

abbrev pub remove_waiter : ℕ → List Waiter → List Waiter
remove_waiter id [] = []
remove_waiter id (w ∷ ws) = if w.id == id then ws else w ∷ remove_waiter id ws

abbrev pub find_waiter : ℕ → List Waiter → Option Waiter
find_waiter id [] = none
find_waiter id (w ∷ ws) = if w.id == id then some w else find_waiter id ws

-- `#cleanupWaiter` on an active waiter.
unfoldable pub cleanup_waiter : ℕ → Pool → Pool
cleanup_waiter id p = reconcile_creations (record p { waiters = remove_waiter id p.waiters })

-- The Promise of a waiter is settled.
abbrev pub answer : ℕ → Answer → Pool → Pool
answer id a p = record p { answers = (id, a) ∷ p.answers }

-- `#rejectWaiter`
unfoldable pub reject_waiter : ℕ → PoolError → Pool → Pool
reject_waiter id error p =
    if is_waiting id p.waiters
    then request_pump (answer id (refused error) (cleanup_waiter id p))
    else p

-- `#rejectWaiter` for every waiter of a copy of the queue.
unfoldable pub reject_waiters : List Waiter → PoolError → Pool → Pool
reject_waiters [] error p = p
reject_waiters (w ∷ ws) error p = reject_waiters ws error (reject_waiter w.id error p)

abbrev pub replace_waiter : Waiter → List Waiter → List Waiter
replace_waiter w [] = []
replace_waiter w (v ∷ vs) = (if v.id == w.id then w else v) ∷ replace_waiter w vs
