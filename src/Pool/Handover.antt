-- ===== src/Pool/Handover.antt =====
-- Operations, resets and releases keep the ownership of the connections.
use mathlib.Core.Path.{subst}
use open_rfc.Common.{
  guard, >>=-eq-ok, ok_inj, ◌==◌, Bool-cases, Option-cases, ok, ℕ, ◌+◌, ◌-◌, ◌≡◌, refl, sym, ap,
  ◌∙◌, inl, inr, some, List, [], ◌∷◌, arith,
}
use open_rfc.Pool.{
  Pool, Lease, Physical, PhysicalState, Work, idle, validating, leased, resetting, closing, no_work,
  validate_work, reset_held, reset_released, destroy_work, pool_closed, pool_lease_busy,
  invalid_type,
}
use open_rfc.Pool.Table.{find, is_open, on_record, enter}
use open_rfc.Pool.Leases.{
  Settled, on_lease, set_operations, find_lease, active_lease_record, serves_leases,
  begin_operation, end_operation, begin_reset, leave_from, leave_reset, count_reset_failure,
  count_timeout, finish_reset, end_reset,
}
use open_rfc.Pool.Ownership.{
  Own, holders, held, status, status_in, status_of, status_in-update_self,
}
use open_rfc.Pool.Still.{Still}
use open_rfc.Pool.Owners.{Owned, on_record-Owned_keep, status_in-always}
use open_rfc.Pool.Checkout.{Sound, Still-Sound}
use open_rfc.Pool.Arrivals.{SameFlight-Sound}
use open_rfc.Pool.Holders.{holders-on_lease, All-holder, active_lease_record-find_lease}

Own-holders :
    {rs : List Physical} {hs ks is cs : List ℕ} → ks ≡ hs → Own rs hs is cs → Own rs ks is cs
Own-holders e o = rw e o

-- The leases change, and their connections do not.
leases-Owned :
    {cs : List ℕ} (ls : List Lease) (p : Pool)
    → holders ls ≡ holders p.leases
    → Owned cs p
    → Owned cs (record p { leases = ls })
leases-Owned ls p e o = record { own = Own-holders e o.own; fresh = o.fresh }

use_lease-Sound :
    (generation : ℕ) (f : Lease → Lease) (p : Pool)
    → ((l : Lease) → (f l).active ≡ l.active)
    → ((l : Lease) → (f l).physical ≡ l.physical)
    → Sound p
    → Sound (record p { leases = on_lease generation f p.leases })
use_lease-Sound generation f p a e o = SameFlight-Sound (ground arith) o (
    leases-Owned (on_lease generation f p.leases) p (holders-on_lease generation f p.leases a e)
      o.owned)

pub begin_operation-Sound :
    (pool_id generation : ℕ) (p q : Pool)
    → begin_operation pool_id generation p ≡ ok q
    → Sound p
    → Sound q
unfolding begin_operation
begin_operation-Sound pool_id generation p q e o =
    let (l, e₁, h₁) = >>=-eq-ok (active_lease_record pool_id generation p) _ e in
    let (u, e₂, h₂) = >>=-eq-ok (guard (serves_leases p.state) pool_closed) _ h₁ in
    let (v, e₃, h₃) = >>=-eq-ok (guard (l.operations == 0) pool_lease_busy) _ h₂ in
    subst Sound (ok_inj h₃)
      (use_lease-Sound generation (set_operations (l.operations + 1)) p (λ k. refl) (λ k. refl) o)

pub end_operation-Sound : (generation : ℕ) (p : Pool) → Sound p → Sound (end_operation generation p)
unfolding end_operation
end_operation-Sound generation p o =
    use_lease-Sound generation (λ l. set_operations (l.operations - 1) l) p (λ k. refl) (λ k. refl)
      o

found-held :
    (id : ℕ) (rs : List Physical) → status_in id rs ≡ held → (r : Physical) × (find id rs ≡ some r)
found-held id [] e = absurd (cc)
found-held id (x ∷ rs) e = elim (Bool-cases (x.id == id)) [
  | inl h ↦ (x, rw h refl)
  | inr h ↦ let (r, f) = found-held id rs (sym (rw h refl) ∙ e) in (r, rw h f)
]

-- A connection is reset under its lease.
pub begin_reset-Sound :
    (pool_id generation : ℕ) (p q : Pool)
    → begin_reset pool_id generation p ≡ ok q
    → Sound p
    → Sound q
unfolding begin_reset
begin_reset-Sound pool_id generation p q e o =
    let (l, e₁, h₁) = >>=-eq-ok (active_lease_record pool_id generation p) _ e in
    let (u, e₂, h₂) = >>=-eq-ok (guard (is_open p.state) pool_closed) _ h₁ in
    let (v, e₃, h₃) = >>=-eq-ok (guard p.config.has_reset invalid_type) _ h₂ in
    let (w, e₄, h₄) = >>=-eq-ok (guard (l.operations == 0) pool_lease_busy) _ h₃ in
    let (f, a) = active_lease_record-find_lease pool_id generation p l e₁ in
    let s =
      All-holder (λ x. status_in x p.records ≡ held) generation p.leases l f a
        o.owned.own.leases_held in
    let (r, g) = found-held l.physical p.records s in
    let used : Pool = record p {
      leases = on_lease generation (set_operations (l.operations + 1)) p.leases;
    } in
    let k : Sound used =
      use_lease-Sound generation (set_operations (l.operations + 1)) p (λ j. refl) (λ j. refl) o in
    let same =
      status_in-update_self l.physical (enter resetting reset_held) p.records r (λ j. refl) g
      ∙ sym s in
    subst Sound (ok_inj h₄) (
      SameFlight-Sound (ground arith) k (
        on_record-Owned_keep l.physical (enter resetting reset_held) used (λ j. refl) same k.owned))

leave_from-status :
    (s : PhysicalState) (w : Work) (r : Physical)
    → r.state ≡ s
    → r.work ≡ w
    → status (leave_from s w r) ≡ status r
leave_from-status resetting reset_held r es ew =
    sym (ap (λ s. status_of s r.work) es ∙ ap (λ w. status_of resetting w) ew)
leave_from-status resetting reset_released r es ew = refl
leave_from-status resetting no_work r es ew = refl
leave_from-status resetting validate_work r es ew = refl
leave_from-status resetting destroy_work r es ew = refl
leave_from-status idle w r es ew = refl
leave_from-status validating w r es ew = refl
leave_from-status leased w r es ew = refl
leave_from-status closing w r es ew = refl

leave_from-id : (s : PhysicalState) (w : Work) (r : Physical) → (leave_from s w r).id ≡ r.id
leave_from-id resetting reset_held r = refl
leave_from-id resetting reset_released r = refl
leave_from-id resetting no_work r = refl
leave_from-id resetting validate_work r = refl
leave_from-id resetting destroy_work r = refl
leave_from-id idle w r = refl
leave_from-id validating w r = refl
leave_from-id leased w r = refl
leave_from-id closing w r = refl

leave_reset-Owned :
    {cs : List ℕ} (id : ℕ) (p : Pool) → Owned cs p → Owned cs (on_record id leave_reset p)
leave_reset-Owned id p o =
    on_record-Owned_keep id leave_reset p (λ r. leave_from-id r.state r.work r)
      (status_in-always id leave_reset p.records (λ r. leave_from-id r.state r.work r)
        (λ r. leave_from-status r.state r.work r refl refl))
      o

count_reset_failure-Still :
    (s : Settled) (p : Pool) → Still p (count_reset_failure s (count_timeout s p))
count_reset_failure-Still s p = ground arith

finish_reset-Sound : (l : Lease) (s : Settled) (p : Pool) → Sound p → Sound (finish_reset l s p)
unfolding finish_reset
finish_reset-Sound l s p o =
    let counted = count_reset_failure s (count_timeout s p) in
    let f = λ (k : Lease). set_operations (k.operations - 1) k in
    let idled : Pool = record counted { leases = on_lease l.generation f counted.leases } in
    let k : Sound idled =
      use_lease-Sound l.generation f counted (λ j. refl) (λ j. refl)
        (Still-Sound (count_reset_failure-Still s p) o) in
    elim (Bool-cases l.active) [
      | inl a ↦
          rw a (SameFlight-Sound (ground arith) k (leave_reset-Owned l.physical idled k.owned))
      | inr a ↦ rw a k
    ]

pub end_reset-Sound :
    (generation : ℕ) (s : Settled) (p : Pool) → Sound p → Sound (end_reset generation s p)
unfolding end_reset
end_reset-Sound generation s p o = elim (Option-cases (find_lease generation p.leases)) [
  | inl e ↦ rw (e, end_reset) o
  | inr (l, e) ↦ rw (e, end_reset) (finish_reset-Sound l s p o)
]
