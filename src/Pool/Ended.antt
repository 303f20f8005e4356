-- ===== src/Pool/Ended.antt =====
-- A released lease is refused, whatever happens in between.
use mathlib.Core.Path.{subst}
use open_rfc.Common.{
  All, Result, guard, >>=-eq-ok, ok_inj, ◌==◌, Bool-cases, Option-cases, if_both, ok, err, ℕ, ◌+◌,
  ◌-◌, ◌≤◌, ◌≡◌, refl, inl, inr, Bool, true, ◌||◌, not, Option, some, List, [], ◌∷◌, arith,
}
use open_rfc.Pool.{
  Pool, Lease, Config, PoolError, acquire_aborted, pool_closed, pool_lease_busy, active_lease,
  invalid_type, resetting, reset_held,
}
use open_rfc.Pool.Table.{is_open, on_record, enter}
use open_rfc.Pool.Leases.{
  Settled, ReleaseOptions, on_lease, set_operations, deactivate, find_lease, active_lease_record,
  serves_leases, begin_operation, end_operation, begin_reset, leave_reset, count_reset_failure,
  count_timeout, finish_reset, end_reset, release_high, let_go, release,
}
use open_rfc.Pool.Dispatch.{validation_settled, resume}
use open_rfc.Pool.Shutdown.{begin_shutdown}
use open_rfc.Pool.Steps.{
  Reach, run, step, new_pool, open_pool, Event, acquires, aborts, times_out, rearms,
  begins_operation, ends_operation, begins_reset, ends_reset, releases, release_resets, pumps,
  validates, resumes, creates, creation_expires, destroys, shuts_down, shutdown_expires, starts,
  goes, after,
}
use open_rfc.Pool.Still.{
  request_pump-Still, reject_waiter-Still, acquire-Still, handle_timeout-Still, rearm_timeout-Still,
  creation_timed_out-Still, shutdown_timed_out-Still,
}
use open_rfc.Pool.Holders.{active_lease_record-find_lease}
use open_rfc.Pool.SameLeases.{
  SameLeases, Still-SameLeases, destroy-SameLeases, pump-SameLeases, settle_validation-SameLeases,
}
use open_rfc.Pool.Undisturbed.{
  creation_settled-SameLeases, recycle-SameLeases, release_reset_settled-SameLeases,
  destroy_settled-SameLeases, shutdown_from-SameLeases,
}
use open_rfc.Pool.Lasting.{
  Lasting, Lasting-refl, Lasting-trans, SameLeases-Lasting, on_lease-Lasting, resume_from-Lasting,
  is_ended,
}

use_lease-Lasting :
    (k n : ℕ) (p : Pool) → Lasting p (record p { leases = on_lease k (set_operations n) p.leases })
use_lease-Lasting k n p = on_lease-Lasting k (set_operations n) p (λ l. refl) (λ l e. e)

begin_operation-Lasting :
    (pool_id generation : ℕ) (p q : Pool)
    → begin_operation pool_id generation p ≡ ok q
    → Lasting p q
unfolding begin_operation
begin_operation-Lasting pool_id generation p q e =
    let (l, e₁, h₁) = >>=-eq-ok (active_lease_record pool_id generation p) _ e in
    let (u, e₂, h₂) = >>=-eq-ok (guard (serves_leases p.state) pool_closed) _ h₁ in
    let (v, e₃, h₃) = >>=-eq-ok (guard (l.operations == 0) pool_lease_busy) _ h₂ in
    subst (Lasting p) (ok_inj h₃) (use_lease-Lasting generation (l.operations + 1) p)

end_operation-Lasting : (generation : ℕ) (p : Pool) → Lasting p (end_operation generation p)
unfolding end_operation
end_operation-Lasting generation p =
    on_lease-Lasting generation (λ l. set_operations (l.operations - 1) l) p (λ l. refl) (λ l e. e)

begin_reset-Lasting :
    (pool_id generation : ℕ) (p q : Pool) → begin_reset pool_id generation p ≡ ok q → Lasting p q
unfolding begin_reset
begin_reset-Lasting pool_id generation p q e =
    let (l, e₁, h₁) = >>=-eq-ok (active_lease_record pool_id generation p) _ e in
    let (u, e₂, h₂) = >>=-eq-ok (guard (is_open p.state) pool_closed) _ h₁ in
    let (v, e₃, h₃) = >>=-eq-ok (guard p.config.has_reset invalid_type) _ h₂ in
    let (w, e₄, h₄) = >>=-eq-ok (guard (l.operations == 0) pool_lease_busy) _ h₃ in
    let used : Pool = record p {
      leases = on_lease generation (set_operations (l.operations + 1)) p.leases;
    } in
    let s : SameLeases used (on_record l.physical (enter resetting reset_held) used) =
      ground arith in
    subst (Lasting p) (ok_inj h₄)
      (Lasting-trans (use_lease-Lasting generation (l.operations + 1) p) (SameLeases-Lasting s))

finish_reset-Lasting : (l : Lease) (s : Settled) (p : Pool) → Lasting p (finish_reset l s p)
unfolding finish_reset
finish_reset-Lasting l s p =
    let counted = count_reset_failure s (count_timeout s p) in
    let t : SameLeases p counted = ground arith in
    let f = λ (k : Lease). set_operations (k.operations - 1) k in
    let idled : Pool = record counted { leases = on_lease l.generation f counted.leases } in
    let u : Lasting p idled =
      Lasting-trans (SameLeases-Lasting t)
        (on_lease-Lasting l.generation f counted (λ k. refl) (λ k e. e)) in
    let v : SameLeases idled (on_record l.physical leave_reset idled) = ground arith in
    if_both (Lasting p) l.active (Lasting-trans u (SameLeases-Lasting v)) u

end_reset-Lasting : (generation : ℕ) (s : Settled) (p : Pool) → Lasting p (end_reset generation s p)
unfolding end_reset
end_reset-Lasting generation s p = elim (Option-cases (find_lease generation p.leases)) [
  | inl e ↦ rw (e, end_reset) (Lasting-refl p)
  | inr (l, e) ↦ rw (e, end_reset) (finish_reset-Lasting l s p)
]

let_go-SameLeases :
    (l : Lease) (reusable : Bool) (high : Option ℕ) (p : Pool)
    → SameLeases
        (record p { leases = on_lease l.generation deactivate p.leases })
        (let_go l reusable high p)
unfolding let_go
let_go-SameLeases l reusable high p =
    let inactive : Pool = record p { leases = on_lease l.generation deactivate p.leases } in
    if_both (SameLeases inactive) (not reusable || not (is_open p.state))
      (destroy-SameLeases l.physical inactive) (recycle-SameLeases l.physical high inactive)

-- What a release that is admitted does: the lease stands in the table, and is deactivated there.
pub released :
    (pool_id generation : ℕ) (options : ReleaseOptions) (p q : Pool)
    → release pool_id generation options p ≡ ok q
    → (l : Lease) × (find_lease generation p.leases ≡ some l)
      × SameLeases (record p { leases = on_lease l.generation deactivate p.leases }) q
unfolding release
released pool_id generation options p q e =
    let (high, e₁, h₁) = >>=-eq-ok (release_high options.idle_high p) _ e in
    let (l, e₂, h₂) = >>=-eq-ok (active_lease_record pool_id generation p) _ h₁ in
    let (u, e₃, h₃) = >>=-eq-ok (guard (l.operations == 0) active_lease) _ h₂ in
    let (f, a) = active_lease_record-find_lease pool_id generation p l e₂ in
    (
      l,
      f,
      subst (SameLeases (record p { leases = on_lease l.generation deactivate p.leases }))
          (ok_inj h₃) (let_go-SameLeases l options.reusable high p),
    )

pub release-Lasting :
    (pool_id generation : ℕ) (options : ReleaseOptions) (p q : Pool)
    → release pool_id generation options p ≡ ok q
    → Lasting p q
release-Lasting pool_id generation options p q e =
    let (l, f, s) = released pool_id generation options p q e in
    Lasting-trans (on_lease-Lasting l.generation deactivate p (λ k. refl) (λ k a. refl))
      (SameLeases-Lasting s)

after-Lasting :
    (p : Pool) (m : Result PoolError Pool)
    → ((q : Pool) → m ≡ ok q → Lasting p q)
    → Lasting p (after p m)
after-Lasting p (ok q) f = f q refl
after-Lasting p (err e) f = Lasting-refl p

step-Lasting : (p : Pool) (e : Event) → Lasting p (step p e)
unfolding step validation_settled resume begin_shutdown
step-Lasting p (acquires count timeout aborted reading) =
    SameLeases-Lasting (Still-SameLeases (acquire-Still count timeout aborted reading p))
step-Lasting p (aborts waiter) =
    SameLeases-Lasting (Still-SameLeases (reject_waiter-Still waiter acquire_aborted p))
step-Lasting p (times_out waiter generation scheduled reading) =
    SameLeases-Lasting
      (Still-SameLeases (handle_timeout-Still waiter generation scheduled reading p))
step-Lasting p (rearms waiter generation reading) =
    SameLeases-Lasting (Still-SameLeases (rearm_timeout-Still waiter generation reading p))
step-Lasting p (begins_operation lease) =
    after-Lasting p (begin_operation p.config.pool_id lease p)
      (begin_operation-Lasting p.config.pool_id lease p)
step-Lasting p (ends_operation lease) = end_operation-Lasting lease p
step-Lasting p (begins_reset lease) =
    after-Lasting p (begin_reset p.config.pool_id lease p)
      (begin_reset-Lasting p.config.pool_id lease p)
step-Lasting p (ends_reset lease s) = end_reset-Lasting lease s p
step-Lasting p (releases lease options) =
    after-Lasting p (release p.config.pool_id lease options p)
      (release-Lasting p.config.pool_id lease options p)
step-Lasting p (release_resets physical s) =
    SameLeases-Lasting (release_reset_settled-SameLeases physical s p)
step-Lasting p (pumps reading) = SameLeases-Lasting (pump-SameLeases reading p)
step-Lasting p (validates physical s verdict) =
    SameLeases-Lasting (settle_validation-SameLeases p.flight physical s verdict p)
step-Lasting p (resumes reading) = resume_from-Lasting p.flight reading p
step-Lasting p (creates creation a) = SameLeases-Lasting (creation_settled-SameLeases creation a p)
step-Lasting p (creation_expires creation) =
    SameLeases-Lasting (Still-SameLeases (creation_timed_out-Still creation p))
step-Lasting p (destroys physical s) = SameLeases-Lasting (destroy_settled-SameLeases physical s p)
step-Lasting p (shuts_down requested) =
    SameLeases-Lasting (shutdown_from-SameLeases p.state requested p)
step-Lasting p shutdown_expires = SameLeases-Lasting (Still-SameLeases (shutdown_timed_out-Still p))

pub run-Lasting : (es : List Event) (p : Pool) → Lasting p (run p es)
unfolding run
run-Lasting [] p = Lasting-refl p
run-Lasting (e ∷ es) p = Lasting-trans (step-Lasting p e) (run-Lasting es (step p e))

pub Reach-issued :
    (config : Config) (p : Pool)
    → Reach config p
    → All (λ (l : Lease). l.generation ≤ p.last_lease_generation) p.leases
unfolding open_pool
Reach-issued config p starts =
    (SameLeases-Lasting (Still-SameLeases (request_pump-Still (new_pool config)))).issued tt
Reach-issued config p (goes {p = q} e r) = (step-Lasting q e).issued (Reach-issued config q r)

pub issued-find_lease :
    (n generation : ℕ) (ls : List Lease) (l : Lease)
    → find_lease generation ls ≡ some l
    → All (λ (l : Lease). l.generation ≤ n) ls
    → generation ≤ n
issued-find_lease n generation [] l e a = absurd (cc)
issued-find_lease n generation (k ∷ ls) l e a = elim (Bool-cases (k.generation == generation)) [
  | inl h ↦ (let q : k.generation ≡ generation = ground arith in let b = a.0 in omega arith)
  | inr h ↦ issued-find_lease n generation ls l (cc) a.1
]

pub is_ended-deactivate :
    (generation : ℕ) (ls : List Lease) (l : Lease)
    → find_lease generation ls ≡ some l
    → is_ended generation (on_lease generation deactivate ls) ≡ true
is_ended-deactivate generation [] l e = absurd (cc)
is_ended-deactivate generation (k ∷ ls) l e = elim (Bool-cases (k.generation == generation)) [
  | inl h ↦ rw h (rw h refl)
  | inr h ↦ (let rest = is_ended-deactivate generation ls l (cc) in rw h (rw h rest))
]
