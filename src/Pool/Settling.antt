-- ===== src/Pool/Settling.antt =====
-- No waiter is lost, and none is answered twice.
use open_rfc.Common.{
  ltb, ◌==◌, Bool-cases, Option-cases, if_both, ℕ, suc, ◌-◌, refl, inl, inr, not, Option, arith,
}
use open_rfc.Pool.{
  Pool, Waiter, Creation, RuntimeState, PoolError, opened, retiring, shutting, closed, failure,
  invalid_type, acquire_timeout, lifecycle_timeout, pool_closed,
}
use open_rfc.Pool.Table.{is_open}
use open_rfc.Pool.Waiters.{find_waiter, reject_waiters}
use open_rfc.Pool.Resources.{fail_close}
use open_rfc.Pool.Acquire.{read_clock, early_timeout, handle_timeout, rearm_timeout, arm}
use open_rfc.Pool.Creations.{
  Made, made, not_object, threw, owns_resource, creation_refused, creation_failed_after_removal,
  creation_expired, expire_creation, creation_timed_out, creation_answered, creation_settled,
  find_creation, remove_creation,
}
use open_rfc.Pool.Shutdown.{
  Shutdown, retire, close, shutdown_state, abort_creations, stop_work, shutdown_from,
  shutdown_timed_out,
}
use open_rfc.Pool.Quiet.{
  SameQueue-trans, fail_close-SameQueue, check_closed-SameQueue, settle-SameQueue,
  read_clock-SameQueue, destroy_all-SameQueue,
}
use open_rfc.Pool.Uninvolved.{adopt-SameQueue}
use open_rfc.Pool.Tally.{
  Tallied, Tallied-refl, Tallied-trans, SameQueue-Tallied, reject_waiter-Tallied,
  reject_waiters-Tallied, reject_owner-Tallied, replaced-Tallied,
}

creation_refused-Tallied :
    (c : Creation) (e : PoolError) (p : Pool) → Tallied p (creation_refused c e p)
unfolding creation_refused creation_failed_after_removal
creation_refused-Tallied c e p =
    if_both (Tallied p) c.expired (SameQueue-Tallied (settle-SameQueue p)) (
      Tallied-trans (record { same_tally = λ id. refl; next_same = refl })
        (Tallied-trans (reject_owner-Tallied c.owner e _) (SameQueue-Tallied (settle-SameQueue _))))

creation_expired-Tallied : (c : Creation) (p : Pool) → Tallied p (creation_expired c p)
unfolding creation_expired expire_creation
creation_expired-Tallied c p = if_both (Tallied p) c.expired (Tallied-refl p) (
    Tallied-trans (record { same_tally = λ id. refl; next_same = refl })
      (Tallied-trans (reject_owner-Tallied c.owner lifecycle_timeout _)
        (SameQueue-Tallied (SameQueue-trans (fail_close-SameQueue _) (settle-SameQueue _)))))

pub creation_timed_out-Tallied : (id : ℕ) (p : Pool) → Tallied p (creation_timed_out id p)
unfolding creation_timed_out
creation_timed_out-Tallied id p = elim (Option-cases (find_creation id p.creating)) [
  | inl e ↦ rw (e, creation_timed_out) (Tallied-refl p)
  | inr (c, e) ↦ rw (e, creation_timed_out) (creation_expired-Tallied c p)
]

creation_answered-Tallied :
    (a : Made) (c : Creation) (p : Pool) → Tallied p (creation_answered a c p)
unfolding creation_answered
creation_answered-Tallied (made resource) c p =
    if_both (Tallied p) (owns_resource resource p.records) (creation_refused-Tallied c failure p)
      (SameQueue-Tallied (adopt-SameQueue c resource p))
creation_answered-Tallied not_object c p = creation_refused-Tallied c invalid_type p
creation_answered-Tallied threw c p = creation_refused-Tallied c failure p

pub creation_settled-Tallied : (id : ℕ) (a : Made) (p : Pool) → Tallied p (creation_settled id a p)
unfolding creation_settled
creation_settled-Tallied id a p = elim (Option-cases (find_creation id p.creating)) [
  | inl e ↦ rw (e, creation_settled) (Tallied-refl p)
  | inr (c, e) ↦
      let s =
        creation_answered-Tallied a c (record p { creating = remove_creation id p.creating }) in
      rw (e, creation_settled) (record { same_tally = s.same_tally; next_same = s.next_same })
]

early_timeout-Tallied :
    (w : Waiter) (left scheduled : ℕ) (p : Pool) → Tallied p (early_timeout w left scheduled p)
unfolding early_timeout
early_timeout-Tallied w left scheduled p =
    if_both (Tallied p) _ (reject_waiter-Tallied w.id failure p) (
      replaced-Tallied
        (record w {
          early_rearms = suc w.early_rearms;
          timeout_generation = suc w.timeout_generation;
        })
        p)

-- `a` is the pool before, in which nothing is rewritten.
handle_after :
    (a : Pool) (id generation scheduled : ℕ) (reading : Option ℕ) (p : Pool)
    → Tallied a p
    → Tallied a (handle_timeout id generation scheduled reading p)
unfolding handle_timeout
handle_after a id generation scheduled reading p s =
    elim (Option-cases (find_waiter id p.waiters)) [
      | inl e ↦ rw (e, handle_timeout) s
      | inr (w, e) ↦ elim (Bool-cases (not (w.timeout_generation == generation))) [
        | inl g ↦ rw (e, g, handle_timeout) s
        | inr g ↦ elim (Option-cases (read_clock reading p)) [
          | inl r ↦
              rw (e, g, r, handle_timeout) (Tallied-trans s (reject_waiter-Tallied id failure p))
          | inr (read, r) ↦
              let t : Tallied a read =
                Tallied-trans s (SameQueue-Tallied (read_clock-SameQueue reading p read r)) in
              rw (e, g, r, handle_timeout)
                (if_both (Tallied a) (not (is_open read.state))
                  (Tallied-trans t (reject_waiter-Tallied id pool_closed read))
                  (if_both (Tallied a) (ltb read.last_clock w.deadline)
                    (Tallied-trans t
                      (early_timeout-Tallied w (w.deadline - read.last_clock) scheduled read))
                    (Tallied-trans t (reject_waiter-Tallied id acquire_timeout read))))
        ]
      ]
    ]

pub handle_timeout-Tallied :
    (id generation scheduled : ℕ) (reading : Option ℕ) (p : Pool)
    → Tallied p (handle_timeout id generation scheduled reading p)
handle_timeout-Tallied id generation scheduled reading p =
    handle_after p id generation scheduled reading p (Tallied-refl p)

rearm_after :
    (a : Pool) (id generation : ℕ) (reading : Option ℕ) (p : Pool)
    → Tallied a p
    → Tallied a (rearm_timeout id generation reading p)
unfolding rearm_timeout
rearm_after a id generation reading p s = elim (Option-cases (find_waiter id p.waiters)) [
  | inl e ↦ rw (e, rearm_timeout) s
  | inr (w, e) ↦ elim (Bool-cases (not (w.timeout_generation == generation))) [
    | inl g ↦ rw (e, g, rearm_timeout) s
    | inr g ↦ elim (Bool-cases (not (is_open p.state))) [
      | inl o ↦
          rw (e, g, o, rearm_timeout) (Tallied-trans s (reject_waiter-Tallied id pool_closed p))
      | inr o ↦ elim (Option-cases (read_clock reading p)) [
        | inl r ↦
            rw (e, g, o, r, rearm_timeout) (Tallied-trans s (reject_waiter-Tallied id failure p))
        | inr (read, r) ↦
            rw (e, g, o, r, rearm_timeout)
              (Tallied-trans s (
                Tallied-trans (SameQueue-Tallied (read_clock-SameQueue reading p read r))
                  (replaced-Tallied (arm w) read)))
      ]
    ]
  ]
]

pub rearm_timeout-Tallied :
    (id generation : ℕ) (reading : Option ℕ) (p : Pool)
    → Tallied p (rearm_timeout id generation reading p)
rearm_timeout-Tallied id generation reading p =
    rearm_after p id generation reading p (Tallied-refl p)

stop_work-Tallied : (p : Pool) → Tallied p (stop_work p)
unfolding stop_work
stop_work-Tallied p =
    let told = reject_waiters p.waiters pool_closed p in
    let aborted : Pool = record told { creating = abort_creations told.creating } in
    let t = reject_waiters-Tallied p.waiters pool_closed p in
    let u : Tallied p aborted = record { same_tally = t.same_tally; next_same = t.next_same } in
    Tallied-trans u (
      SameQueue-Tallied (
        SameQueue-trans (destroy_all-SameQueue aborted.idle_ids aborted)
          (check_closed-SameQueue _)))

pub shutdown_from-Tallied :
    (s : RuntimeState) (r : Shutdown) (p : Pool) → Tallied p (shutdown_from s r p)
unfolding shutdown_from
shutdown_from-Tallied opened r p =
    (let t = stop_work-Tallied (record p { state = shutdown_state r }) in
      record { same_tally = t.same_tally; next_same = t.next_same })
shutdown_from-Tallied retiring retire p = Tallied-refl p
shutdown_from-Tallied retiring close p = record { same_tally = λ id. refl; next_same = refl }
shutdown_from-Tallied shutting r p = Tallied-refl p
shutdown_from-Tallied closed r p = Tallied-refl p

pub shutdown_timed_out-Tallied : (p : Pool) → Tallied p (shutdown_timed_out p)
unfolding shutdown_timed_out fail_close
shutdown_timed_out-Tallied p = SameQueue-Tallied (ground arith)
