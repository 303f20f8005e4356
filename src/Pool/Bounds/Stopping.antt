-- ===== src/Pool/Bounds/Stopping.antt =====
-- Closing a pool keeps it within its limits.
use open_rfc.Pool.Shutdown.{
  retire, close, shutdown_from, shutdown_state, abort_creations, begin_shutdown, shutdown_timed_out,
  Shutdown, stop_work,
}
use open_rfc.Pool.Resources.{fail_close, destroy_all}
use open_rfc.Pool.Waiters.{reject_waiters}
use open_rfc.Common.{length, suc, ◌≡◌, refl, ap, List, [], ◌∷◌, arith}
use open_rfc.Pool.Shrinks.{
  destroy_all-Shrinks, reject_waiters-Shrinks, check_closed-Shrinks, Shrinks, Shrinks-refl,
  Shrinks-trans,
}
use open_rfc.Pool.{opened, retiring, shutting, closed, RuntimeState, pool_closed, Pool, Creation}

length-abort_creations : (cs : List Creation) → length (abort_creations cs) ≡ length cs
length-abort_creations [] = refl
length-abort_creations (c ∷ cs) = ap suc (length-abort_creations cs)

stop_work-Shrinks : (p : Pool) → Shrinks p (stop_work p)
unfolding stop_work
stop_work-Shrinks p =
    let told = reject_waiters p.waiters pool_closed p in
    let aborted = record told { creating = abort_creations told.creating } in
    Shrinks-trans (reject_waiters-Shrinks p.waiters pool_closed p) (
      Shrinks-trans (ground (arith, length-abort_creations told.creating)) (
        Shrinks-trans (destroy_all-Shrinks aborted.idle_ids aborted)
          (check_closed-Shrinks (destroy_all aborted.idle_ids aborted))))

shutdown_from-Shrinks :
    (s : RuntimeState) (r : Shutdown) (p : Pool) → Shrinks p (shutdown_from s r p)
unfolding shutdown_from
shutdown_from-Shrinks opened r p =
    Shrinks-trans (ground arith) (stop_work-Shrinks (record p { state = shutdown_state r }))
shutdown_from-Shrinks retiring retire p = Shrinks-refl p
shutdown_from-Shrinks retiring close p = ground arith
shutdown_from-Shrinks shutting r p = Shrinks-refl p
shutdown_from-Shrinks closed r p = Shrinks-refl p

pub begin_shutdown-Shrinks : (r : Shutdown) (p : Pool) → Shrinks p (begin_shutdown r p)
unfolding begin_shutdown
begin_shutdown-Shrinks r p = shutdown_from-Shrinks p.state r p

pub shutdown_timed_out-Shrinks : (p : Pool) → Shrinks p (shutdown_timed_out p)
unfolding shutdown_timed_out fail_close
shutdown_timed_out-Shrinks p = ground arith
