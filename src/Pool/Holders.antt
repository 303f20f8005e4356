-- ===== src/Pool/Holders.antt =====
-- The connections of the active leases, when a lease is used and when it ends.
use open_rfc.Common.{
  All, guard, or_throw, >>=-eq-ok, ok_inj, guard_sound, ◌==◌, Bool-cases, ok, ℕ, ◌≡◌, refl, sym, ap,
  ◌∙◌, inl, inr, true, false, ◌||◌, Option, none, some, List, [], ◌∷◌, arith,
}
use open_rfc.Pool.{Pool, Lease, PoolError, wrong_pool, stale_lease, double_release}
use open_rfc.Pool.Leases.{on_lease, deactivate, find_lease, active_lease_record, newest_generation}
use open_rfc.Pool.Ownership.{NotIn, Distinct, holders}
use mathlib.Core.Path.{subst}

-- A lease that is used stays active, on the same connection.
pub holders-on_lease :
    (generation : ℕ) (f : Lease → Lease) (ls : List Lease)
    → ((l : Lease) → (f l).active ≡ l.active)
    → ((l : Lease) → (f l).physical ≡ l.physical)
    → holders (on_lease generation f ls) ≡ holders ls
holders-on_lease generation f [] a e = refl
holders-on_lease generation f (l ∷ ls) a e = elim (Bool-cases (l.generation == generation)) [
  | inl h ↦ rw (h, a l, e l, holders-on_lease generation f ls a e) refl
  | inr h ↦ rw (h, holders-on_lease generation f ls a e) refl
]

All-head :
    (P : ℕ → Type 0) (k : Lease) (ls : List Lease)
    → k.active ≡ true
    → All P (holders (k ∷ ls))
    → P k.physical
All-head P k ls a h =
    (let e : holders (k ∷ ls) ≡ k.physical ∷ holders ls = rw a refl in (subst (All P) e h).0)

All-rest :
    (P : ℕ → Type 0) (k : Lease) (ls : List Lease) → All P (holders (k ∷ ls)) → All P (holders ls)
All-rest P k ls h = elim (Bool-cases k.active) [
  | inl a ↦
      (let e : holders (k ∷ ls) ≡ k.physical ∷ holders ls = rw a refl in (subst (All P) e h).1)
  | inr a ↦ (let e : holders (k ∷ ls) ≡ holders ls = rw a refl in subst (All P) e h)
]

-- What every holder has, the connection of an active lease has.
pub All-holder :
    (P : ℕ → Type 0) (generation : ℕ) (ls : List Lease) (l : Lease)
    → find_lease generation ls ≡ some l
    → l.active ≡ true
    → All P (holders ls)
    → P l.physical
All-holder P generation [] l e a h = absurd (cc)
All-holder P generation (k ∷ ls) l e a h = elim (Bool-cases (k.generation == generation)) [
  | inl d ↦
      (let q : l ≡ k = cc in
        let b : k.active ≡ true = sym (ap (λ (x : Lease). x.active) q) ∙ a in
        subst (λ (x : Lease). P x.physical) (sym q) (All-head P k ls b h))
  | inr d ↦ All-holder P generation ls l (cc) a (All-rest P k ls h)
]

pub All-deactivate :
    (P : ℕ → Type 0) (generation : ℕ) (ls : List Lease)
    → All P (holders ls)
    → All P (holders (on_lease generation deactivate ls))
All-deactivate P generation [] h = tt
All-deactivate P generation (k ∷ ls) h = elim (Bool-cases (k.generation == generation)) [
  | inl d ↦ rw d (All-deactivate P generation ls (All-rest P k ls h))
  | inr d ↦ elim (Bool-cases k.active) [
    | inl a ↦ rw (d, a) (All-head P k ls a h, All-deactivate P generation ls (All-rest P k ls h))
    | inr a ↦ rw (d, a) (All-deactivate P generation ls (All-rest P k ls h))
  ]
]

Distinct-rest : (k : Lease) (ls : List Lease) → Distinct (holders (k ∷ ls)) → Distinct (holders ls)
Distinct-rest k ls d = elim (Bool-cases k.active) [
  | inl a ↦
      (let e : holders (k ∷ ls) ≡ k.physical ∷ holders ls = rw a refl in (subst Distinct e d).1)
  | inr a ↦ (let e : holders (k ∷ ls) ≡ holders ls = rw a refl in subst Distinct e d)
]

Distinct-head :
    (k : Lease) (ls : List Lease)
    → k.active ≡ true
    → Distinct (holders (k ∷ ls))
    → NotIn k.physical (holders ls)
Distinct-head k ls a d =
    (let e : holders (k ∷ ls) ≡ k.physical ∷ holders ls = rw a refl in (subst Distinct e d).0)

pub Distinct-deactivate :
    (generation : ℕ) (ls : List Lease)
    → Distinct (holders ls)
    → Distinct (holders (on_lease generation deactivate ls))
Distinct-deactivate generation [] d = tt
Distinct-deactivate generation (k ∷ ls) d = elim (Bool-cases (k.generation == generation)) [
  | inl e ↦ rw e (Distinct-deactivate generation ls (Distinct-rest k ls d))
  | inr e ↦ elim (Bool-cases k.active) [
    | inl a ↦
        rw (e, a)
          (
            All-deactivate (λ x. (x == k.physical) ≡ false) generation ls (Distinct-head k ls a d),
            Distinct-deactivate generation ls (Distinct-rest k ls d),
          )
    | inr a ↦ rw (e, a) (Distinct-deactivate generation ls (Distinct-rest k ls d))
  ]
]

-- The connection of a lease that ends is held by no other.
pub deactivate-NotIn :
    (generation : ℕ) (ls : List Lease) (l : Lease)
    → find_lease generation ls ≡ some l
    → l.active ≡ true
    → Distinct (holders ls)
    → NotIn l.physical (holders (on_lease generation deactivate ls))
deactivate-NotIn generation [] l e a d = tt
deactivate-NotIn generation (k ∷ ls) l e a d = elim (Bool-cases (k.generation == generation)) [
  | inl h ↦
      (let q : k ≡ l = cc in
        let b : k.active ≡ true = ap (λ (x : Lease). x.active) q ∙ a in
        rw h (
          subst (λ (x : Lease). NotIn x.physical (holders (on_lease generation deactivate ls))) q
            (All-deactivate (λ x. (x == k.physical) ≡ false) generation ls
              (Distinct-head k ls b d))))
  | inr h ↦
      (let f : find_lease generation ls ≡ some l = cc in
        let rest = deactivate-NotIn generation ls l f a (Distinct-rest k ls d) in
        elim (Bool-cases k.active) [
          | inl b ↦
              (let away : (l.physical == k.physical) ≡ false =
                  All-holder (λ x. (x == k.physical) ≡ false) generation ls l f a
                    (Distinct-head k ls b d) in
                rw (h, b) (ground arith, rest))
          | inr b ↦ rw (h, b) rest
        ])
]

pub find_lease-generation :
    (generation : ℕ) (ls : List Lease) (l : Lease)
    → find_lease generation ls ≡ some l
    → l.generation ≡ generation
find_lease-generation generation [] l e = absurd (cc)
find_lease-generation generation (k ∷ ls) l e = elim (Bool-cases (k.generation == generation)) [
  | inl h ↦ (let q : k ≡ l = cc in ap (λ (x : Lease). x.generation) (sym q) ∙ ground arith)
  | inr h ↦ find_lease-generation generation ls l (cc)
]

found_or_thrown : (o : Option Lease) (e : PoolError) (l : Lease) → or_throw o e ≡ ok l → o ≡ some l
found_or_thrown none e l h = absurd (cc)
found_or_thrown (some k) e l h = ap some (ok_inj h)

-- A lease that passes `#activeLeaseRecord` is the pool's own, and active.
pub active_lease_record-find_lease :
    (pool_id generation : ℕ) (p : Pool) (l : Lease)
    → active_lease_record pool_id generation p ≡ ok l
    → (find_lease generation p.leases ≡ some l) × (l.active ≡ true)
unfolding active_lease_record
active_lease_record-find_lease pool_id generation p l e =
    let (u, e₁, h₁) = >>=-eq-ok (guard (pool_id == p.config.pool_id) wrong_pool) _ e in
    let (k, e₂, h₂) = >>=-eq-ok (or_throw (find_lease generation p.leases) stale_lease) _ h₁ in
    let (v, e₃, h₃) =
      >>=-eq-ok
        (guard (k.active || (newest_generation k.physical p.leases == k.generation)) stale_lease) _
        h₂ in
    let (w, e₄, h₄) = >>=-eq-ok (guard k.active double_release) _ h₃ in
    let q : k ≡ l = ok_inj h₄ in
    (
      found_or_thrown _ stale_lease l (e₂ ∙ ap ok q),
      sym (ap (λ (x : Lease). x.active) q) ∙ guard_sound k.active double_release e₄,
    )
