-- ===== src/Pool/Arrivals.antt =====
-- A connection comes into the pool, and one leaves it.
use open_rfc.Common.{
  All, All-append, ◌==◌, Bool-cases, Option-cases, ℕ, suc, ◌<◌, ◌≡◌, refl, sym, ap, ◌∙◌, inl, inr,
  false, List, [], ◌∷◌, ◌++◌, arith,
}
use open_rfc.Pool.{failure, invalid_type, Pool, Physical, Creation}
use open_rfc.Pool.Table.{remove, is_open}
use open_rfc.Pool.Creations.{
  threw, not_object, made, find_creation, owns_resource, creation_settled, Made, remove_creation,
  creation_answered, add_physical, count_aborted, place, adopt,
}
use open_rfc.Pool.Ownership.{
  NotIn, NotIn-status, Have, Own, Status, holders, held, at_rest, in_check, free, status_in,
}
use open_rfc.Pool.Still.{creation_refused-Still, Still, settle-Still}
use open_rfc.Pool.Owners.{Owned, Unowned, Still-Owned, destroy-Owned, return_to_pool-Owned}
use open_rfc.Pool.Steady.{SameFlight, destroy-SameFlight, return_to_pool-SameFlight}
use open_rfc.Pool.Checkout.{Sound, candidates_of, Still-Sound, Owned-flight, landed_again}

-- What leaves the flight alone and keeps its connections owned is sound.
pub SameFlight-Sound :
    {p q : Pool} → SameFlight p q → Sound p → Owned (candidates_of p.flight) q → Sound q
SameFlight-Sound s o k = record {
  owned = Owned-flight (s.same_flight) k;
  landed = landed_again (s.same_flight) (s.same_dispatching) o.landed;
}

status_in-append :
    (s : Status) (i : ℕ) (rs : List Physical) (x : Physical)
    → ¬ (s ≡ free)
    → status_in i rs ≡ s
    → status_in i (rs ++ (x ∷ [])) ≡ s
status_in-append s i [] x n e = absurd (n (sym e))
status_in-append s i (r ∷ rs) x n e = elim (Bool-cases (r.id == i)) [
  | inl h ↦ rw h (sym (rw h refl) ∙ e)
  | inr h ↦ rw h (status_in-append s i rs x n (sym (rw h refl) ∙ e))
]

Have-append :
    (s : Status) (rs : List Physical) (x : Physical) (xs : List ℕ)
    → ¬ (s ≡ free)
    → Have s rs xs
    → Have s (rs ++ (x ∷ [])) xs
Have-append s rs x [] n h = tt
Have-append s rs x (i ∷ xs) n h = (status_in-append s i rs x n h.0, Have-append s rs x xs n h.1)

Own-append :
    {rs : List Physical} {hs is cs : List ℕ} (x : Physical)
    → Own rs hs is cs
    → Own (rs ++ (x ∷ [])) hs is cs
Own-append {rs} {hs} {is} {cs} x o = record {
  leases_distinct = o.leases_distinct;
  leases_held = Have-append held rs x hs (λ e. cc) o.leases_held;
  idle_distinct = o.idle_distinct;
  idle_rest = Have-append at_rest rs x is (λ e. cc) o.idle_rest;
  checks_distinct = o.checks_distinct;
  checks_run = Have-append in_check rs x cs (λ e. cc) o.checks_run;
}

status_in-fresh :
    (n : ℕ) (rs : List Physical) → All (λ (r : Physical). r.id < n) rs → status_in n rs ≡ free
status_in-fresh n [] f = refl
status_in-fresh n (r ∷ rs) f =
    (let d : (r.id == n) ≡ false = ground (arith, f.0) in rw d (status_in-fresh n rs f.1))

-- A connection whose status is free has no owner.
pub free-Unowned :
    {cs : List ℕ} (id : ℕ) (p : Pool) → status_in id p.records ≡ free → Owned cs p → Unowned id cs p
free-Unowned {cs} id p e o = (
  NotIn-status free held id p.records (holders p.leases) (λ k. cc) e o.own.leases_held,
  NotIn-status free at_rest id p.records p.idle_ids (λ k. cc) e o.own.idle_rest,
  NotIn-status free in_check id p.records cs (λ k. cc) e o.own.checks_run,
)

All-below :
    (n : ℕ) (rs : List Physical)
    → All (λ (r : Physical). r.id < n) rs
    → All (λ (r : Physical). r.id < suc n) rs
All-below n [] f = tt
All-below n (r ∷ rs) f = (ground (arith, f.0), All-below n rs f.1)

add_physical-Owned :
    {cs : List ℕ} (resource : ℕ) (p : Pool) → Owned cs p → Owned cs (add_physical resource p)
add_physical-Owned resource p o = record {
  own = Own-append _ o.own;
  fresh =
      All-append (λ (r : Physical). r.id < suc p.next_physical_id) p.records _
        (All-below p.next_physical_id p.records o.fresh) (omega arith, tt);
}

place-Owned :
    {cs : List ℕ} (c : Creation) (id : ℕ) (p : Pool)
    → Unowned id cs p
    → Owned cs p
    → Owned cs (place c id p)
unfolding place
place-Owned {cs} c id p u o =
    let unblocked = record p { low_water_blocked = false } in
    let k : Owned cs unblocked = record { own = o.own; fresh = o.fresh } in
    elim (Bool-cases c.aborted) [
      | inl e ↦ rw e (destroy-Owned id p u.0 u.2 o)
      | inr e ↦ elim (Bool-cases (is_open p.state)) [
        | inl up ↦ rw (e, up) (return_to_pool-Owned id unblocked u k)
        | inr shut ↦ rw (e, shut) (destroy-Owned id unblocked u.0 u.2 k)
      ]
    ]

place-SameFlight : (c : Creation) (id : ℕ) (p : Pool) → SameFlight p (place c id p)
unfolding place
place-SameFlight c id p = ground (
  arith,
  destroy-SameFlight id p,
  destroy-SameFlight id (record p { low_water_blocked = false }),
  return_to_pool-SameFlight id (record p { low_water_blocked = false }),
)

count_aborted-Still : (c : Creation) (p : Pool) → Still p (count_aborted c p)
count_aborted-Still c p = ground arith

adopt-Sound : (c : Creation) (resource : ℕ) (p : Pool) → Sound p → Sound (adopt c resource p)
unfolding adopt
adopt-Sound c resource p o =
    let q = count_aborted c p in
    let t = count_aborted-Still c p in
    let k = Still-Owned t o.owned in
    let added = add_physical resource q in
    let m = add_physical-Owned resource q k in
    let id = p.next_physical_id in
    let e =
      ap (λ n. status_in n q.records) (sym (t.next_still))
      ∙ status_in-fresh q.next_physical_id q.records k.fresh in
    let u = free-Unowned id q e k in
    let sf = place-SameFlight c id added in
    let fl : SameFlight p (place c id added) = ground arith in
    Still-Sound (settle-Still _) (SameFlight-Sound fl o (place-Owned c id added u m))

creation_answered-Sound :
    (a : Made) (c : Creation) (p : Pool) → Sound p → Sound (creation_answered a c p)
unfolding creation_answered
creation_answered-Sound (made resource) c p o =
    elim (Bool-cases (owns_resource resource p.records)) [
      | inl e ↦ rw e (Still-Sound (creation_refused-Still c failure p) o)
      | inr e ↦ rw e (adopt-Sound c resource p o)
    ]
creation_answered-Sound not_object c p o = Still-Sound (creation_refused-Still c invalid_type p) o
creation_answered-Sound threw c p o = Still-Sound (creation_refused-Still c failure p) o

pub creation_settled-Sound :
    (id : ℕ) (a : Made) (p : Pool) → Sound p → Sound (creation_settled id a p)
unfolding creation_settled
creation_settled-Sound id a p o = elim (Option-cases (find_creation id p.creating)) [
  | inl e ↦ rw (e, creation_settled) o
  | inr (c, e) ↦
      let q : Pool = record p { creating = remove_creation id p.creating } in
      rw (e, creation_settled) (creation_answered-Sound a c q (Still-Sound (ground arith) o))
]

status_in-remove_other :
    (id i : ℕ) (rs : List Physical)
    → (i == id) ≡ false
    → status_in i (remove id rs) ≡ status_in i rs
status_in-remove_other id i [] d = refl
status_in-remove_other id i (r ∷ rs) d = elim (Bool-cases (r.id == id)) [
  | inl h ↦ (let k : (r.id == i) ≡ false = ground arith in rw (h, k) refl)
  | inr h ↦ elim (Bool-cases (r.id == i)) [
    | inl k ↦ rw (h, k) refl
    | inr k ↦ rw (h, k) (status_in-remove_other id i rs d)
  ]
]

Have-remove :
    (s : Status) (id : ℕ) (rs : List Physical) (xs : List ℕ)
    → NotIn id xs
    → Have s rs xs
    → Have s (remove id rs) xs
Have-remove s id rs [] n h = tt
Have-remove s id rs (x ∷ xs) n h =
    (status_in-remove_other id x rs n.0 ∙ h.0, Have-remove s id rs xs n.1 h.1)

All-remove :
    (n id : ℕ) (rs : List Physical)
    → All (λ (r : Physical). r.id < n) rs
    → All (λ (r : Physical). r.id < n) (remove id rs)
All-remove n id [] f = tt
All-remove n id (r ∷ rs) f = elim (Bool-cases (r.id == id)) [
  | inl h ↦ rw (h, remove) f.1
  | inr h ↦ rw (h, remove) (f.0, All-remove n id rs f.1)
]

-- A connection that has no owner is taken off the records.
pub remove-Owned :
    {cs : List ℕ} (id : ℕ) (p : Pool)
    → Unowned id cs p
    → Owned cs p
    → Owned cs (record p { records = remove id p.records })
remove-Owned {cs} id p u o = record {
  own = record {
    leases_distinct = o.own.leases_distinct;
    leases_held = Have-remove held id p.records (holders p.leases) u.0 o.own.leases_held;
    idle_distinct = o.own.idle_distinct;
    idle_rest = Have-remove at_rest id p.records p.idle_ids u.1 o.own.idle_rest;
    checks_distinct = o.own.checks_distinct;
    checks_run = Have-remove in_check id p.records cs u.2 o.own.checks_run;
  };
  fresh = All-remove p.next_physical_id id p.records o.fresh;
}
