-- ===== src/Pool/Chosen.antt =====
-- How the validated connections divide into healthy and unhealthy ones.
use open_rfc.Common.{
  All, ◌==◌, Bool-cases, Option-cases, ℕ, ◌≡◌, sym, ap, ◌∙◌, inl, inr, Bool, true, false, Option,
  none, some, List, [], ◌∷◌, arith,
}
use open_rfc.Pool.{Outcome, Physical}
use open_rfc.Pool.Dispatch.{select, outcome_at, is_healthy, is_unhealthy}
use open_rfc.Pool.Ownership.{NotIn, Distinct, Own}

abbrev pub passes_outcome : (Outcome → Bool) → Option Outcome → Bool
passes_outcome test none = false
passes_outcome test (some o) = test o

abbrev pub passes : (Outcome → Bool) → List (ℕ × Outcome) → ℕ → Bool
passes test os id = passes_outcome test (outcome_at id os)

-- What is selected has what every candidate has.
pub All-select :
    (P : ℕ → Type 0) (test : Outcome → Bool) (os : List (ℕ × Outcome)) (ids : List ℕ)
    → All P ids
    → All P (select test os ids)
All-select P test os [] a = tt
All-select P test os (id ∷ ids) a = elim (Option-cases (outcome_at id os)) [
  | inl e ↦ rw (e, select) (All-select P test os ids a.1)
  | inr (o, e) ↦ elim (Bool-cases (test o)) [
    | inl t ↦ rw (e, t, select) (a.0, All-select P test os ids a.1)
    | inr t ↦ rw (e, t, select) (All-select P test os ids a.1)
  ]
]

pub Distinct-select :
    (test : Outcome → Bool) (os : List (ℕ × Outcome)) (ids : List ℕ)
    → Distinct ids
    → Distinct (select test os ids)
Distinct-select test os [] d = tt
Distinct-select test os (id ∷ ids) d = elim (Option-cases (outcome_at id os)) [
  | inl e ↦ rw (e, select) (Distinct-select test os ids d.1)
  | inr (o, e) ↦ elim (Bool-cases (test o)) [
    | inl t ↦
        rw (e, t, select)
          (All-select (λ x. (x == id) ≡ false) test os ids d.0, Distinct-select test os ids d.1)
    | inr t ↦ rw (e, t, select) (Distinct-select test os ids d.1)
  ]
]

pub select-passes :
    (test : Outcome → Bool) (os : List (ℕ × Outcome)) (ids : List ℕ)
    → All (λ x. passes test os x ≡ true) (select test os ids)
select-passes test os [] = tt
select-passes test os (id ∷ ids) = elim (Option-cases (outcome_at id os)) [
  | inl e ↦ rw (e, select) (select-passes test os ids)
  | inr (o, e) ↦ elim (Bool-cases (test o)) [
    | inl t ↦ rw (e, t, select) (ap (passes_outcome test) e ∙ t, select-passes test os ids)
    | inr t ↦ rw (e, t, select) (select-passes test os ids)
  ]
]

healthy_or_not :
    (o : Option Outcome)
    → passes_outcome is_healthy o ≡ true
    → passes_outcome is_unhealthy o ≡ true
    → ⊥
healthy_or_not none a b = absurd (cc)
healthy_or_not (some o) a b = ground (arith, a, b)

NotIn-passing :
    (os : List (ℕ × Outcome)) (id : ℕ) (xs : List ℕ)
    → passes is_unhealthy os id ≡ true
    → All (λ x. passes is_healthy os x ≡ true) xs
    → NotIn id xs
NotIn-passing os id [] b a = tt
NotIn-passing os id (x ∷ xs) b a = elim (Bool-cases (x == id)) [
  | inr d ↦ (d, NotIn-passing os id xs b a.1)
  | inl e ↦
      (let q : x ≡ id = ground arith in
        absurd (healthy_or_not (outcome_at id os) (ap (passes is_healthy os) (sym q) ∙ a.0) b))
]

NotIn-all :
    (os : List (ℕ × Outcome)) (ids xs : List ℕ)
    → All (λ x. passes is_unhealthy os x ≡ true) ids
    → All (λ x. passes is_healthy os x ≡ true) xs
    → All (λ x. NotIn x xs) ids
NotIn-all os [] xs b a = tt
NotIn-all os (id ∷ ids) xs b a = (NotIn-passing os id xs b.0 a, NotIn-all os ids xs b.1 a)

-- No connection is both.
pub select-NotIn :
    (os : List (ℕ × Outcome)) (ids : List ℕ)
    → All (λ x. NotIn x (select is_healthy os ids)) (select is_unhealthy os ids)
select-NotIn os ids =
    NotIn-all os (select is_unhealthy os ids) (select is_healthy os ids)
      (select-passes is_unhealthy os ids) (select-passes is_healthy os ids)

pub Own-select :
    {rs : List Physical} {hs is cs : List ℕ} (test : Outcome → Bool) (os : List (ℕ × Outcome))
    → Own rs hs is cs
    → Own rs hs is (select test os cs)
Own-select {rs} {hs} {is} {cs} test os o = record {
  leases_distinct = o.leases_distinct;
  leases_held = o.leases_held;
  idle_distinct = o.idle_distinct;
  idle_rest = o.idle_rest;
  checks_distinct = Distinct-select test os cs o.checks_distinct;
  checks_run = All-select _ test os cs o.checks_run;
}
