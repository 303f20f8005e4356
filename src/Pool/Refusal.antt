-- ===== src/Pool/Refusal.antt =====
-- Every use of a released lease fails.
use open_rfc.Common.{
  Result, ◌>>=◌, Result-cases, ok, err, ℕ, ◌≡◌, refl, sym, ap, ◌∙◌, inl, inr, Bool, true, false,
  Option, none, some, List, arith,
}
use open_rfc.Pool.{Pool, Lease, Config}
use open_rfc.Pool.Leases.{
  ReleaseOptions, on_lease, deactivate, find_lease, active_lease_record, begin_operation,
  begin_reset, release_high, release,
}
use open_rfc.Pool.Steps.{Reach, run, Event}
use open_rfc.Pool.Lasting.{is_ended, is_over}
use open_rfc.Pool.Holders.{active_lease_record-find_lease, find_lease-generation}
use open_rfc.Pool.Ended.{
  released, run-Lasting, release-Lasting, Reach-issued, issued-find_lease, is_ended-deactivate,
}

abbrev pub is_error {ℓ κ} : {E : Type ℓ} {A : Type κ} → Result E A → Bool
is_error (ok a) = false
is_error (err e) = true

is_error-bind {ℓ κ μ} :
    {E : Type ℓ} {A : Type κ} {B : Type μ} (m : Result E A) (next : A → Result E B)
    → is_error m ≡ true
    → is_error (m >>= next) ≡ true
is_error-bind (ok a) next h = absurd (cc)
is_error-bind (err e) next h = refl

is_error-then {ℓ κ μ} :
    {E : Type ℓ} {A : Type κ} {B : Type μ} (m : Result E A) (next : A → Result E B)
    → ((a : A) → is_error (next a) ≡ true)
    → is_error (m >>= next) ≡ true
is_error-then (ok a) next h = h a
is_error-then (err e) next h = refl

over_inactive : (o : Option Lease) (l : Lease) → o ≡ some l → is_over o ≡ true → l.active ≡ false
over_inactive none l e h = absurd (cc)
over_inactive (some k) l e h =
    (let q : k ≡ l = cc in ap (λ (x : Lease). x.active) (sym q) ∙ ground arith)

-- `#activeLeaseRecord` refuses a lease that has ended.
active_lease_record-is_ended :
    (pool_id generation : ℕ) (p : Pool)
    → is_ended generation p.leases ≡ true
    → is_error (active_lease_record pool_id generation p) ≡ true
active_lease_record-is_ended pool_id generation p h =
    elim (Result-cases (active_lease_record pool_id generation p)) [
      | inr (e, m) ↦ rw m refl
      | inl (l, m) ↦
          (let (f, a) = active_lease_record-find_lease pool_id generation p l m in
            let b = over_inactive (find_lease generation p.leases) l f h in absurd (cc))
    ]

-- In a pool where a lease was released, after whatever events, each use of that lease fails: an
-- operation, a reset, and another release with any options.
pub release-run :
    (config : Config) (p q : Pool) (generation : ℕ) (options again : ReleaseOptions)
    (es : List Event)
    → Reach config p
    → release p.config.pool_id generation options p ≡ ok q
    → (is_error (begin_operation p.config.pool_id generation (run q es)) ≡ true)
      × (is_error (begin_reset p.config.pool_id generation (run q es)) ≡ true)
      × (is_error (release p.config.pool_id generation again (run q es)) ≡ true)
unfolding release begin_operation begin_reset
release-run config p q generation options again es r e =
    let id = p.config.pool_id in
    let (l, f, s) = released id generation options p q e in
    let b =
      issued-find_lease p.last_lease_generation generation p.leases l f (Reach-issued config p r) in
    let g = find_lease-generation generation p.leases l f in
    let ended : is_ended generation q.leases ≡ true =
      ap (is_ended generation) (s.same_leases ∙ ap (λ k. on_lease k deactivate p.leases) g)
      ∙ is_ended-deactivate generation p.leases l f in
    let c = (release-Lasting id generation options p q e).grows in
    let still = (run-Lasting es q).stays generation (omega arith) ended in
    let refused = active_lease_record-is_ended id generation (run q es) still in
    (
      is_error-bind (active_lease_record id generation (run q es)) _ refused,
      is_error-bind (active_lease_record id generation (run q es)) _ refused,
      is_error-then (release_high again.idle_high (run q es)) _
          (λ h. is_error-bind (active_lease_record id generation (run q es)) _ refused),
    )
