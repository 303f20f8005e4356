-- ===== src/Pool/Farewell.antt =====
-- Closing or retiring an open pool answers everybody who waits.
use open_rfc.Common.{
  ltb, leb, if◌then◌else◌, ℕ, ◌≡◌, refl, ap, ◌∙◌, true, ◌&&◌, List, [], ◌∷◌, arith,
}
use open_rfc.Pool.{
  Pool, Waiter, Config, RuntimeState, PoolError, opened, retiring, shutting, closed, pool_closed,
  refused,
}
use open_rfc.Pool.Waiters.{
  answer, cleanup_waiter, remove_waiter, reject_waiter, reject_waiters, request_pump,
  reconcile_creations, is_waiting,
}
use open_rfc.Pool.Resources.{destroy_all}
use open_rfc.Pool.Shutdown.{
  Shutdown, shutdown_state, abort_creations, stop_work, shutdown_from, begin_shutdown,
}
use open_rfc.Pool.Steps.{Reach, step, shuts_down, goes}
use open_rfc.Pool.Quiet.{request_pump-SameQueue, destroy_all-SameQueue, check_closed-SameQueue}
use open_rfc.Pool.Tally.{tally, one_if, times_waiting, times_answered}
use open_rfc.Pool.Settling.{shutdown_from-Tallied}
use open_rfc.Pool.Answers.{was_issued, tally-Reach}

head_waits : (w : Waiter) (ws : List Waiter) → is_waiting w.id (w ∷ ws) ≡ true
head_waits w ws = ground arith

head_leaves : (w : Waiter) (ws : List Waiter) → remove_waiter w.id (w ∷ ws) ≡ ws
head_leaves w ws = ground arith

-- The rejection of the head of the queue takes it off.
pub waiters-reject_waiter :
    (w : Waiter) (ws : List Waiter) (e : PoolError) (p : Pool)
    → p.waiters ≡ w ∷ ws
    → (reject_waiter w.id e p).waiters ≡ ws
unfolding reject_waiter cleanup_waiter reconcile_creations
waiters-reject_waiter w ws e p h =
    let there : is_waiting w.id p.waiters ≡ true = ap (is_waiting w.id) h ∙ head_waits w ws in
    let told = answer w.id (refused e) (cleanup_waiter w.id p) in
    let q = request_pump-SameQueue told in
    let left : remove_waiter w.id p.waiters ≡ ws = ap (remove_waiter w.id) h ∙ head_leaves w ws in
    ap (λ b. (if b then request_pump told else p).waiters) there ∙ (q.same_waiters ∙ left)

waiters-reject_waiters :
    (ws : List Waiter) (e : PoolError) (p : Pool)
    → p.waiters ≡ ws
    → (reject_waiters ws e p).waiters ≡ []
unfolding reject_waiters
waiters-reject_waiters [] e p h = h
waiters-reject_waiters (w ∷ ws) e p h =
    waiters-reject_waiters ws e (reject_waiter w.id e p) (waiters-reject_waiter w ws e p h)

waiters-stop_work : (p : Pool) → (stop_work p).waiters ≡ []
unfolding stop_work
waiters-stop_work p =
    let told = reject_waiters p.waiters pool_closed p in
    let aborted : Pool = record told { creating = abort_creations told.creating } in
    let a = destroy_all-SameQueue aborted.idle_ids aborted in
    let b = check_closed-SameQueue (destroy_all aborted.idle_ids aborted) in
    b.same_waiters ∙ (a.same_waiters ∙ waiters-reject_waiters p.waiters pool_closed p refl)

waiters-shutdown_from :
    (s : RuntimeState) (r : Shutdown) (p : Pool) → s ≡ opened → (shutdown_from s r p).waiters ≡ []
unfolding shutdown_from
waiters-shutdown_from opened r p e = waiters-stop_work (record p { state = shutdown_state r })
waiters-shutdown_from retiring r p e = absurd (cc)
waiters-shutdown_from shutting r p e = absurd (cc)
waiters-shutdown_from closed r p e = absurd (cc)

-- When an open pool is closed or retired, whatever it has reached before, its queue is empty at once,
-- and every waiter that was ever enqueued has been answered exactly once.
pub begin_shutdown-Reach :
    (config : Config) (p : Pool) (r : Shutdown) (id : ℕ)
    → Reach config p
    → p.state ≡ opened
    → ((begin_shutdown r p).waiters ≡ [])
      × (times_answered id (begin_shutdown r p).answers ≡ one_if (was_issued id p))
unfolding begin_shutdown step
begin_shutdown-Reach config p r id reach e =
    let q = shutdown_from p.state r p in
    let empty : q.waiters ≡ [] = waiters-shutdown_from p.state r p e in
    let next = (shutdown_from-Tallied p.state r p).next_same in
    let total : tally id q ≡ one_if (was_issued id q) =
      tally-Reach config q id (goes (shuts_down r) reach) in
    let nobody = ap (times_waiting id) empty in
    let answered : times_answered id q.answers ≡ one_if (was_issued id q) = omega arith in
    (empty, answered ∙ ap (λ n. one_if (leb 1 id && ltb id n)) next)
