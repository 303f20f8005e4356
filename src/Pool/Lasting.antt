-- ===== src/Pool/Lasting.antt =====
-- A lease that has ended has ended for good.
use open_rfc.Common.{
  length, All, ltb, ◌==◌, Bool-cases, Option-cases, if_both, ℕ, suc, ◌≤◌, ◌≡◌, refl, sym, ap, ◌∙◌,
  inl, inr, Bool, true, false, ◌&&◌, not, Option, none, some, List, [], ◌∷◌, arith,
}
use open_rfc.Pool.{Pool, Lease, Flight, failure, acquire_timeout, lifecycle_timeout}
use open_rfc.Pool.Table.{is_open}
use open_rfc.Pool.Waiters.{cleanup_waiter, find_waiter}
use open_rfc.Pool.Resources.{destroy_all, is_empty}
use open_rfc.Pool.Acquire.{read_clock}
use open_rfc.Pool.Leases.{lease, lease_all, find_lease, on_lease}
use open_rfc.Pool.Dispatch.{
  select, is_healthy, is_unhealthy, is_expired, is_head, all_settled, grant, commit_flight,
  resume_flight, resume_from,
}
use open_rfc.Pool.Still.{cleanup_waiter-Still, reject_waiter-Still, read_clock-Still}
use open_rfc.Pool.SameLeases.{
  SameLeases, SameLeases-trans, Still-SameLeases, destroy_all-SameLeases, return_all-SameLeases,
  give_back-SameLeases, dispatch-SameLeases,
}

abbrev pub is_over : Option Lease → Bool
is_over none = false
is_over (some l) = not l.active

-- The lease was issued, and is not active any more.
abbrev pub is_ended : ℕ → List Lease → Bool
is_ended generation ls = is_over (find_lease generation ls)

pub record Lasting (p q : Pool) : Type 0 where
  pub grows : p.last_lease_generation ≤ q.last_lease_generation
  pub issued :
      All (λ (l : Lease). l.generation ≤ p.last_lease_generation) p.leases
      → All (λ (l : Lease). l.generation ≤ q.last_lease_generation) q.leases
  pub stays :
      (generation : ℕ)
      → generation ≤ p.last_lease_generation
      → is_ended generation p.leases ≡ true
      → is_ended generation q.leases ≡ true

pub Lasting-refl : (p : Pool) → Lasting p p
Lasting-refl p = record { grows = omega arith; issued = λ i. i; stays = λ g b e. e }

pub Lasting-trans : {p q r : Pool} → Lasting p q → Lasting q r → Lasting p r
Lasting-trans a b = record {
  grows = (let x = a.grows in let y = b.grows in omega arith);
  issued = λ i. b.issued (a.issued i);
  stays = λ g h e. b.stays g (let x = a.grows in omega arith) (a.stays g h e);
}

same_issued :
    {ls ms : List Lease} {m n : ℕ}
    → ms ≡ ls
    → n ≡ m
    → All (λ (l : Lease). l.generation ≤ m) ls
    → All (λ (l : Lease). l.generation ≤ n) ms
same_issued e f a = rw (e, f) a

pub SameLeases-Lasting : {p q : Pool} → SameLeases p q → Lasting p q
SameLeases-Lasting s = record {
  grows = (let e = s.same_last in omega arith);
  issued = same_issued (s.same_leases) (s.same_last);
  stays = λ g h e. ap (is_ended g) (s.same_leases) ∙ e;
}

is_ended-on_lease :
    (generation k : ℕ) (f : Lease → Lease) (ls : List Lease)
    → ((l : Lease) → (f l).generation ≡ l.generation)
    → ((l : Lease) → l.active ≡ false → (f l).active ≡ false)
    → is_ended generation ls ≡ true
    → is_ended generation (on_lease k f ls) ≡ true
is_ended-on_lease generation k f [] g a e = absurd (cc)
is_ended-on_lease generation k f (l ∷ ls) g a e = elim (Bool-cases (l.generation == generation)) [
  | inl h ↦
      (let over : not l.active ≡ true = sym (rw h refl) ∙ e in
        let b : (f l).active ≡ false = a l (ground arith) in
        elim (Bool-cases (l.generation == k)) [
          | inl i ↦ rw (i, g l, h, b) refl
          | inr i ↦ rw (i, h) over
        ])
  | inr h ↦
      (let rest = is_ended-on_lease generation k f ls g a (sym (rw h refl) ∙ e) in
        elim (Bool-cases (l.generation == k)) [
          | inl i ↦ rw (i, g l, h) rest
          | inr i ↦ rw (i, h) rest
        ])
]

All-on_lease :
    (n k : ℕ) (f : Lease → Lease) (ls : List Lease)
    → ((l : Lease) → (f l).generation ≡ l.generation)
    → All (λ (l : Lease). l.generation ≤ n) ls
    → All (λ (l : Lease). l.generation ≤ n) (on_lease k f ls)
All-on_lease n k f [] g a = tt
All-on_lease n k f (l ∷ ls) g a = (
  if_both (λ (x : Lease). x.generation ≤ n) (l.generation == k) (rw (g l) a.0) a.0,
  All-on_lease n k f ls g a.1,
)

pub on_lease-Lasting :
    (k : ℕ) (f : Lease → Lease) (p : Pool)
    → ((l : Lease) → (f l).generation ≡ l.generation)
    → ((l : Lease) → l.active ≡ false → (f l).active ≡ false)
    → Lasting p (record p { leases = on_lease k f p.leases })
on_lease-Lasting k f p g a = record {
  grows = omega arith;
  issued = All-on_lease p.last_lease_generation k f p.leases g;
  stays = λ x h e. is_ended-on_lease x k f p.leases g a e;
}

All-later :
    (n : ℕ) (ls : List Lease)
    → All (λ (l : Lease). l.generation ≤ n) ls
    → All (λ (l : Lease). l.generation ≤ suc n) ls
All-later n [] a = tt
All-later n (l ∷ ls) a = (ground (arith, a.0), All-later n ls a.1)

lease-Lasting : (id : ℕ) (p : Pool) → Lasting p (lease id p)
unfolding lease
lease-Lasting id p = record {
  grows = omega arith;
  issued = λ i. (omega arith, All-later p.last_lease_generation p.leases i);
  stays =
      λ g h e. (let d : (suc p.last_lease_generation == g) ≡ false = ground (arith, h) in rw d e);
}

lease_all-Lasting : (ids : List ℕ) (p : Pool) → Lasting p (lease_all ids p)
unfolding lease_all
lease_all-Lasting [] p = Lasting-refl p
lease_all-Lasting (id ∷ ids) p =
    Lasting-trans (lease-Lasting id p) (lease_all-Lasting ids (lease id p))

grant-Lasting : (f : Flight) (ids : List ℕ) (p : Pool) → Lasting p (grant f ids p)
unfolding grant
grant-Lasting f ids p =
    let cleaned = cleanup_waiter f.waiter p in
    let l = lease_all-Lasting ids cleaned in
    Lasting-trans (SameLeases-Lasting (Still-SameLeases (cleanup_waiter-Still f.waiter p)))
      (record { grows = l.grows; issued = l.issued; stays = l.stays })

-- A call that leaves the leases, and then another.
then_Lasting : {p q r : Pool} → SameLeases p q → Lasting q r → Lasting p r
then_Lasting s l = Lasting-trans (SameLeases-Lasting s) l

commit_flight-Lasting :
    (f : Flight) (ids : List ℕ) (reading : Option ℕ) (a p : Pool)
    → Lasting a p
    → Lasting a (commit_flight f ids reading p)
unfolding commit_flight
commit_flight-Lasting f ids reading a p s = elim (Option-cases (read_clock reading p)) [
  | inl e ↦
      rw (e, commit_flight)
        (Lasting-trans s (
          SameLeases-Lasting (
            SameLeases-trans (Still-SameLeases (reject_waiter-Still f.waiter failure p))
              (give_back-SameLeases ids reading _))))
  | inr (read, e) ↦
      let g : Lasting a read =
        Lasting-trans s
          (SameLeases-Lasting (Still-SameLeases (read_clock-Still reading p read e))) in
      let back = give_back-SameLeases ids reading read in
      elim (Option-cases (find_waiter f.waiter read.waiters)) [
        | inl n ↦ rw (e, n, commit_flight) (Lasting-trans g (SameLeases-Lasting back))
        | inr (w, n) ↦
            rw (e, n, commit_flight)
              (if_both (Lasting a) (not (ltb read.last_clock w.deadline))
                (Lasting-trans g (
                  SameLeases-Lasting (
                    SameLeases-trans
                      (Still-SameLeases (reject_waiter-Still f.waiter acquire_timeout read))
                      (give_back-SameLeases ids reading _))))
                (if_both (Lasting a) (not (length ids == f.count))
                  (Lasting-trans g (SameLeases-Lasting back))
                  (Lasting-trans g (
                    Lasting-trans (grant-Lasting f ids read)
                      (SameLeases-Lasting (dispatch-SameLeases reading _))))))
      ]
]

resume_flight-Lasting :
    (f : Flight) (reading : Option ℕ) (p : Pool) → Lasting p (resume_flight f reading p)
unfolding resume_flight
resume_flight-Lasting f reading p =
    let ids = select is_healthy f.outcomes f.candidates in
    let bad = select is_unhealthy f.outcomes f.candidates in
    let q : Pool = record p { flight = none } in
    let cleared = destroy_all bad q in
    let s = destroy_all-SameLeases bad q in
    let t : SameLeases p cleared = ground arith in
    if_both (Lasting p) (not (is_empty (select is_expired f.outcomes f.candidates)))
      (SameLeases-Lasting (
        SameLeases-trans t (
          SameLeases-trans (return_all-SameLeases ids cleared) (
            SameLeases-trans (Still-SameLeases (reject_waiter-Still f.waiter lifecycle_timeout _))
              (dispatch-SameLeases reading _)))))
      (if_both (Lasting p) (not (is_open cleared.state && is_head f.waiter cleared.waiters))
        (SameLeases-Lasting (SameLeases-trans t (give_back-SameLeases ids reading cleared)))
        (commit_flight-Lasting f ids reading p cleared (SameLeases-Lasting t)))

pub resume_from-Lasting :
    (fl : Option Flight) (reading : Option ℕ) (p : Pool) → Lasting p (resume_from fl reading p)
unfolding resume_from
resume_from-Lasting none reading p = Lasting-refl p
resume_from-Lasting (some f) reading p =
    if_both (Lasting p) (all_settled f.candidates f.outcomes) (resume_flight-Lasting f reading p)
      (Lasting-refl p)
