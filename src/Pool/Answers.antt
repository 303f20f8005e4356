-- ===== src/Pool/Answers.antt =====
-- In every reachable state, each waiter either waits or has been answered once.
use open_rfc.Pool.Shutdown.{begin_shutdown}
use open_rfc.Pool.Dispatch.{validation_settled, resume}
use open_rfc.Pool.Uninvolved.{
  release-SameQueue, begin_reset-SameQueue, end_reset-SameQueue, begin_operation-SameQueue,
  destroy_settled-SameQueue, release_reset_settled-SameQueue,
}
use open_rfc.Pool.Served.{pump-Tallied, resume_from-Tallied}
use open_rfc.Pool.Leases.{release, end_operation, begin_reset, begin_operation}
use open_rfc.Pool.Settling.{
  rearm_timeout-Tallied, handle_timeout-Tallied, creation_settled-Tallied,
  creation_timed_out-Tallied, shutdown_from-Tallied, shutdown_timed_out-Tallied,
}
use open_rfc.Common.{
  Number, Result, or_throw, >>=-eq-ok, ok_inj, ltb, leb, ◌==◌, if◌then◌else◌, Option-cases, ok, err,
  ℕ, ◌+◌, ◌≤◌, ◌≡◌, refl, sym, ap, ◌∙◌, inl, inr, Bool, true, false, ◌&&◌, not, Option, some, List,
  [], ◌∷◌, ◌++◌, arith,
}
use open_rfc.Pool.{acquire_aborted, pool_closed, Config, Pool, Waiter, PoolError, failure}
use mathlib.Core.Path.{subst}
use open_rfc.Pool.Table.{is_open}
use open_rfc.Pool.Waiters.{request_pump}
use open_rfc.Pool.Acquire.{acquire, admit_acquire, enqueue, read_clock, arm}
use open_rfc.Pool.Steps.{
  pumps, validates, resumes, creates, starts, goes, acquires, aborts, rearms, releases, destroys,
  after, times_out, ends_reset, ends_operation, Event, shutdown_expires, begins_reset,
  creation_expires, begins_operation, release_resets, new_pool, Reach, open_pool, shuts_down, step,
  after_acquire,
}
use open_rfc.Pool.Quiet.{
  SameQueue, settle_validation-SameQueue, request_pump-SameQueue, read_clock-SameQueue,
}
use open_rfc.Pool.Tally.{
  reject_waiter-Tallied, Tallied-refl, Tallied, SameQueue-Tallied, one_if, times_waiting, tally,
}

-- The waiters that have been numbered so far.
abbrev pub was_issued : ℕ → Pool → Bool
was_issued id p = leb 1 id && ltb id p.next_waiter_id

record Settles (p : Pool) : Type 0 where
  each : (id : ℕ) → tally id p ≡ one_if (was_issued id p)
  first : 1 ≤ p.next_waiter_id

issued_same :
    (id : ℕ) {m n : ℕ} → n ≡ m → one_if (leb 1 id && ltb id m) ≡ one_if (leb 1 id && ltb id n)
issued_same id e = rw e refl

Tallied-Settles : {p q : Pool} → Tallied p q → Settles p → Settles q
Tallied-Settles t s = record {
  each = λ id. t.same_tally id ∙ (s.each id ∙ issued_same id (t.next_same));
  first = (let a = s.first in let b = t.next_same in omega arith);
}

times_waiting-append :
    (id : ℕ) (ws : List Waiter) (w : Waiter)
    → times_waiting id (ws ++ (w ∷ [])) ≡ times_waiting id ws + one_if (w.id == id)
times_waiting-append id [] w = omega arith
times_waiting-append id (v ∷ ws) w = (let r = times_waiting-append id ws w in omega arith)

enqueue-Settles :
    (count timeout now : ℕ) (p : Pool) → Settles p → Settles (enqueue count timeout now p)
enqueue-Settles count timeout now p s = record {
  each = λ id.
      (let a = s.each id in
        let b = s.first in
        let c = times_waiting-append id p.waiters (
          arm (record {
            id = p.next_waiter_id;
            count = count;
            deadline = now + timeout;
            timeout_generation = 0;
            early_rearms = 0;
          })) in
        ground (arith, a, b, c));
  first = omega arith;
}

after_acquire-Settles :
    (p : Pool) (m : Result PoolError (ℕ × Pool))
    → ((q : ℕ × Pool) → m ≡ ok q → Settles q.1)
    → Settles p
    → Settles (after_acquire p m)
after_acquire-Settles p (ok q) f s = f q refl
after_acquire-Settles p (err e) f s = s

clock_read :
    (reading : Option ℕ) (p q : Pool)
    → or_throw {E = PoolError} (read_clock reading p) failure ≡ ok q
    → read_clock reading p ≡ some q
clock_read reading p q e = elim (Option-cases (read_clock reading p)) [
  | inl n ↦ absurd (cc)
  | inr (r, n) ↦ n ∙ ap some (ok_inj (sym (ap (λ o. or_throw {E = PoolError} o failure) n) ∙ e))
]

past_guard :
    (b : Bool) (e : PoolError) (m : Result PoolError (ℕ × Pool)) {q : ℕ × Pool}
    → (if b then err e else m) ≡ ok q
    → m ≡ ok q
past_guard true e m h = absurd (cc)
past_guard false e m h = h

acquire-Settles :
    (count : Number) (timeout : Option ℕ) (aborted : Bool) (reading : Option ℕ) (p : Pool)
    (q : ℕ × Pool)
    → acquire count timeout aborted reading p ≡ ok q
    → Settles p
    → Settles q.1
unfolding acquire
acquire-Settles count timeout aborted reading p q e s =
    let m = past_guard (not (is_open p.state)) pool_closed _ e in
    let ((n, t), e₁, h₁) = >>=-eq-ok (admit_acquire count timeout aborted p) _ m in
    let (read, e₂, h₂) = >>=-eq-ok (or_throw (read_clock reading p) failure) _ h₁ in
    let r : Settles read =
      Tallied-Settles
        (SameQueue-Tallied (read_clock-SameQueue reading p read (clock_read reading p read e₂)))
        s in
    let queued = enqueue n t read.last_clock read in
    let k : Settles (request_pump queued) =
      Tallied-Settles (SameQueue-Tallied (request_pump-SameQueue queued))
        (enqueue-Settles n t read.last_clock read r) in
    subst (λ (x : ℕ × Pool). Settles x.1) (ok_inj h₂) k

after-Settles :
    (p : Pool) (m : Result PoolError Pool)
    → ((q : Pool) → m ≡ ok q → SameQueue p q)
    → Tallied p (after p m)
after-Settles p (ok q) f = SameQueue-Tallied (f q refl)
after-Settles p (err e) f = Tallied-refl p

step-Settles : (p : Pool) (e : Event) → Settles p → Settles (step p e)
unfolding step validation_settled resume begin_shutdown end_operation
step-Settles p (acquires count timeout aborted reading) s =
    after_acquire-Settles p (acquire count timeout aborted reading p)
      (λ q e. acquire-Settles count timeout aborted reading p q e s) s
step-Settles p (aborts waiter) s =
    Tallied-Settles (reject_waiter-Tallied waiter acquire_aborted p) s
step-Settles p (times_out waiter generation scheduled reading) s =
    Tallied-Settles (handle_timeout-Tallied waiter generation scheduled reading p) s
step-Settles p (rearms waiter generation reading) s =
    Tallied-Settles (rearm_timeout-Tallied waiter generation reading p) s
step-Settles p (begins_operation lease) s =
    Tallied-Settles
      (after-Settles p (begin_operation p.config.pool_id lease p)
        (begin_operation-SameQueue p.config.pool_id lease p))
      s
step-Settles p (ends_operation lease) s =
    Tallied-Settles (record { same_tally = λ id. refl; next_same = refl }) s
step-Settles p (begins_reset lease) s =
    Tallied-Settles
      (after-Settles p (begin_reset p.config.pool_id lease p)
        (begin_reset-SameQueue p.config.pool_id lease p))
      s
step-Settles p (ends_reset lease t) s =
    Tallied-Settles (SameQueue-Tallied (end_reset-SameQueue lease t p)) s
step-Settles p (releases lease options) s =
    Tallied-Settles
      (after-Settles p (release p.config.pool_id lease options p)
        (release-SameQueue p.config.pool_id lease options p))
      s
step-Settles p (release_resets physical t) s =
    Tallied-Settles (SameQueue-Tallied (release_reset_settled-SameQueue physical t p)) s
step-Settles p (pumps reading) s = Tallied-Settles (pump-Tallied reading p) s
step-Settles p (validates physical t verdict) s =
    Tallied-Settles (SameQueue-Tallied (settle_validation-SameQueue p.flight physical t verdict p))
      s
step-Settles p (resumes reading) s = Tallied-Settles (resume_from-Tallied p.flight reading p) s
step-Settles p (creates creation a) s = Tallied-Settles (creation_settled-Tallied creation a p) s
step-Settles p (creation_expires creation) s =
    Tallied-Settles (creation_timed_out-Tallied creation p) s
step-Settles p (destroys physical t) s =
    Tallied-Settles (SameQueue-Tallied (destroy_settled-SameQueue physical t p)) s
step-Settles p (shuts_down requested) s =
    Tallied-Settles (shutdown_from-Tallied p.state requested p) s
step-Settles p shutdown_expires s = Tallied-Settles (shutdown_timed_out-Tallied p) s

new_pool-Settles : (c : Config) → Settles (new_pool c)
new_pool-Settles c = record { each = λ id. ground arith; first = omega arith }

Reach-Settles : (config : Config) (p : Pool) → Reach config p → Settles p
unfolding open_pool
Reach-Settles config p starts =
    Tallied-Settles (SameQueue-Tallied (request_pump-SameQueue (new_pool config)))
      (new_pool-Settles config)
Reach-Settles config p (goes {p = q} e r) = step-Settles q e (Reach-Settles config q r)

-- In every state that a pool reaches, each waiter that was ever enqueued stands exactly once in the
-- queue and the answers together: it still waits and was not answered, or it does not wait and was
-- answered once, with leases or with an error. An id that was not issued stands in neither.
pub tally-Reach :
    (config : Config) (p : Pool) (id : ℕ) → Reach config p → tally id p ≡ one_if (was_issued id p)
tally-Reach config p id r = (Reach-Settles config p r).each id
