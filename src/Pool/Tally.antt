-- ===== src/Pool/Tally.antt =====
-- How often a waiter stands in the queue, and how often it was answered.
use open_rfc.Common.{
  ◌==◌, Bool-cases, ℕ, ◌+◌, ◌≡◌, refl, sym, ap, ◌∙◌, inl, inr, Bool, true, false, Option, none,
  some, List, [], ◌∷◌, arith,
}
use open_rfc.Pool.{Pool, Waiter, Answer, PoolError, refused}
use open_rfc.Pool.Waiters.{
  is_waiting, remove_waiter, find_waiter, replace_waiter, cleanup_waiter, answer, reject_waiter,
  reject_waiters, reconcile_creations,
}
use open_rfc.Pool.Creations.{reject_owner}
use open_rfc.Pool.Quiet.{SameQueue, request_pump-SameQueue}

abbrev pub one_if : Bool → ℕ
one_if true = 1
one_if false = 0

abbrev pub times_waiting : ℕ → List Waiter → ℕ
times_waiting id [] = 0
times_waiting id (w ∷ ws) = one_if (w.id == id) + times_waiting id ws

abbrev pub times_answered : ℕ → List (ℕ × Answer) → ℕ
times_answered id [] = 0
times_answered id (a ∷ rest) = one_if (a.0 == id) + times_answered id rest

-- The number of places of a waiter in the queue and among the answers.
abbrev pub tally : ℕ → Pool → ℕ
tally id p = times_waiting id p.waiters + times_answered id p.answers

pub record Tallied (p q : Pool) : Type 0 where
  pub same_tally : (id : ℕ) → tally id q ≡ tally id p
  pub next_same : q.next_waiter_id ≡ p.next_waiter_id

pub Tallied-refl : (p : Pool) → Tallied p p
Tallied-refl p = record { same_tally = λ id. refl; next_same = refl }

pub Tallied-trans : {p q r : Pool} → Tallied p q → Tallied q r → Tallied p r
Tallied-trans a b = record {
  same_tally = λ id. b.same_tally id ∙ a.same_tally id;
  next_same = b.next_same ∙ a.next_same;
}

tally_of :
    (id : ℕ) {ws vs : List Waiter} {xs ys : List (ℕ × Answer)}
    → vs ≡ ws
    → ys ≡ xs
    → times_waiting id vs + times_answered id ys ≡ times_waiting id ws + times_answered id xs
tally_of id e f = rw (e, f) refl

pub SameQueue-Tallied : {p q : Pool} → SameQueue p q → Tallied p q
SameQueue-Tallied s = record {
  same_tally = λ id. tally_of id (s.same_waiters) (s.same_answers);
  next_same = s.same_next;
}

remove_waiter-times :
    (id x : ℕ) (ws : List Waiter)
    → is_waiting id ws ≡ true
    → one_if (id == x) + times_waiting x (remove_waiter id ws) ≡ times_waiting x ws
remove_waiter-times id x [] e = absurd (cc)
remove_waiter-times id x (w ∷ ws) e = elim (Bool-cases (w.id == id)) [
  | inl h ↦
      (let q : w.id ≡ id = ground arith in
        let r = ap (λ i. one_if (i == x)) (sym q) in rw h (ap (λ n. n + times_waiting x ws) r))
  | inr h ↦ (let rest = remove_waiter-times id x ws (sym (rw h refl) ∙ e) in rw h (omega arith))
]

-- A waiter of the queue is answered.
pub answered-Tallied :
    (id : ℕ) (a : Answer) (p : Pool)
    → is_waiting id p.waiters ≡ true
    → Tallied p (answer id a (cleanup_waiter id p))
unfolding cleanup_waiter reconcile_creations
answered-Tallied id a p e = record {
  same_tally = λ x. (let m = remove_waiter-times id x p.waiters e in omega arith);
  next_same = refl;
}

pub reject_waiter-Tallied : (id : ℕ) (e : PoolError) (p : Pool) → Tallied p (reject_waiter id e p)
unfolding reject_waiter
reject_waiter-Tallied id e p = elim (Bool-cases (is_waiting id p.waiters)) [
  | inr h ↦ rw (h, reject_waiter) (Tallied-refl p)
  | inl h ↦
      let told = answer id (refused e) (cleanup_waiter id p) in
      rw (h, reject_waiter)
        (Tallied-trans (answered-Tallied id (refused e) p h)
          (SameQueue-Tallied (request_pump-SameQueue told)))
]

pub reject_waiters-Tallied :
    (ws : List Waiter) (e : PoolError) (p : Pool) → Tallied p (reject_waiters ws e p)
unfolding reject_waiters
reject_waiters-Tallied [] e p = Tallied-refl p
reject_waiters-Tallied (w ∷ ws) e p =
    Tallied-trans (reject_waiter-Tallied w.id e p)
      (reject_waiters-Tallied ws e (reject_waiter w.id e p))

pub reject_owner-Tallied :
    (owner : Option ℕ) (e : PoolError) (p : Pool) → Tallied p (reject_owner owner e p)
reject_owner-Tallied none e p = Tallied-refl p
reject_owner-Tallied (some id) e p = reject_waiter-Tallied id e p

-- A waiter that takes another's place has its id.
replace_waiter-times :
    (w : Waiter) (x : ℕ) (ws : List Waiter)
    → times_waiting x (replace_waiter w ws) ≡ times_waiting x ws
replace_waiter-times w x [] = refl
replace_waiter-times w x (v ∷ vs) = elim (Bool-cases (v.id == w.id)) [
  | inl h ↦
      (let q : v.id ≡ w.id = ground arith in
        let r = ap (λ i. one_if (i == x)) (sym q) in
        let rest = replace_waiter-times w x vs in rw h (omega arith))
  | inr h ↦ (let rest = replace_waiter-times w x vs in rw h (omega arith))
]

pub replaced-Tallied :
    (w : Waiter) (p : Pool) → Tallied p (record p { waiters = replace_waiter w p.waiters })
replaced-Tallied w p = record {
  same_tally = λ x. (let m = replace_waiter-times w x p.waiters in omega arith);
  next_same = refl;
}

pub find_waiter-is_waiting :
    (id : ℕ) (ws : List Waiter) (w : Waiter) → find_waiter id ws ≡ some w → is_waiting id ws ≡ true
find_waiter-is_waiting id [] w e = absurd (cc)
find_waiter-is_waiting id (v ∷ vs) w e = elim (Bool-cases (v.id == id)) [
  | inl h ↦ rw h refl
  | inr h ↦ rw h (find_waiter-is_waiting id vs w (cc))
]
