-- ===== src/Pool/Ownership.antt =====
-- Who owns a connection: a lease, the idle list, or the dispatch that validates it. The status of a
-- record says which, and no connection is owned twice.
use open_rfc.Common.{
  All, All-append, ◌==◌, if◌then◌else◌, Bool-cases, ℕ, ◌≡◌, refl, sym, ap, ◌∙◌, inl, inr, false,
  some, List, [], ◌∷◌, ◌++◌, arith,
}
use open_rfc.Pool.Table.{remove_id, update, find}
use open_rfc.Pool.{
  Physical, Lease, PhysicalState, Work, idle, validating, leased, resetting, closing, no_work,
  validate_work, reset_held, reset_released, destroy_work,
}

pub data Status : Type 0 where
  held at_rest in_check free : Status

abbrev pub in_state : PhysicalState → Work → Status
in_state idle w = at_rest
in_state validating w = in_check
in_state leased w = held
in_state resetting reset_held = held
in_state resetting reset_released = free
in_state resetting no_work = free
in_state resetting validate_work = free
in_state resetting destroy_work = free
in_state closing w = free

-- A connection that is reset after its release, or destroyed, has no owner.
abbrev pub unless_leaving : Work → Status → Status
unless_leaving no_work s = s
unless_leaving validate_work s = s
unless_leaving reset_held s = s
unless_leaving reset_released s = free
unless_leaving destroy_work s = free

abbrev pub status_of : PhysicalState → Work → Status
status_of s w = unless_leaving w (in_state s w)

abbrev pub status : Physical → Status
status r = status_of r.state r.work

abbrev pub status_in : ℕ → List Physical → Status
status_in id [] = free
status_in id (r ∷ rs) = if r.id == id then status r else status_in id rs

-- The connections of the active leases.
abbrev pub holders : List Lease → List ℕ
holders [] = []
holders (l ∷ ls) = if l.active then l.physical ∷ holders ls else holders ls

abbrev pub NotIn : ℕ → List ℕ → Type 0
NotIn id xs = All (λ x. (x == id) ≡ false) xs

abbrev pub Distinct : List ℕ → Type 0
Distinct [] = Unit
Distinct (x ∷ xs) = NotIn x xs × Distinct xs

abbrev pub Have : Status → List Physical → List ℕ → Type 0
Have s rs xs = All (λ x. status_in x rs ≡ s) xs

pub record Own (rs : List Physical) (hs is cs : List ℕ) : Type 0 where
  pub leases_distinct : Distinct hs
  pub leases_held : Have held rs hs
  pub idle_distinct : Distinct is
  pub idle_rest : Have at_rest rs is
  pub checks_distinct : Distinct cs
  pub checks_run : Have in_check rs cs

pub NotIn-status :
    (s t : Status) (id : ℕ) (rs : List Physical) (xs : List ℕ)
    → ¬ (s ≡ t)
    → status_in id rs ≡ s
    → Have t rs xs
    → NotIn id xs
NotIn-status s t id rs [] n e h = tt
NotIn-status s t id rs (x ∷ xs) n e h = elim (Bool-cases (x == id)) [
  | inr d ↦ (d, NotIn-status s t id rs xs n e h.1)
  | inl d ↦
      absurd (n (let k : x ≡ id = ground arith in sym e ∙ (ap (λ i. status_in i rs) (sym k) ∙ h.0)))
]

-- Updates keep the ids.
abbrev pub KeepsId : (Physical → Physical) → Type 0
KeepsId f = (r : Physical) → (f r).id ≡ r.id

pub status_in-update_other :
    (id i : ℕ) (f : Physical → Physical) (rs : List Physical)
    → KeepsId f
    → (i == id) ≡ false
    → status_in i (update id f rs) ≡ status_in i rs
status_in-update_other id i f [] k d = refl
status_in-update_other id i f (r ∷ rs) k d =
    ground (arith, k r, status_in-update_other id i f rs k d)

pub status_in-update_self :
    (id : ℕ) (f : Physical → Physical) (rs : List Physical) (r : Physical)
    → KeepsId f
    → find id rs ≡ some r
    → status_in id (update id f rs) ≡ status (f r)
status_in-update_self id f [] r k e = absurd (cc)
status_in-update_self id f (x ∷ rs) r k e = ground (arith, k x, status_in-update_self id f rs r k)

pub status_in-find :
    (id : ℕ) (rs : List Physical) (r : Physical) → find id rs ≡ some r → status_in id rs ≡ status r
status_in-find id [] r e = absurd (cc)
status_in-find id (x ∷ rs) r e = elim (Bool-cases (x.id == id)) [
  | inl h ↦ (let q : x ≡ r = cc in rw h (ap status q))
  | inr h ↦ rw h (status_in-find id rs r (cc))
]

Have-update :
    (s : Status) (id : ℕ) (f : Physical → Physical) (rs : List Physical) (xs : List ℕ)
    → KeepsId f
    → NotIn id xs
    → Have s rs xs
    → Have s (update id f rs) xs
Have-update s id f rs [] k n h = tt
Have-update s id f rs (x ∷ xs) k n h =
    (status_in-update_other id x f rs k n.0 ∙ h.0, Have-update s id f rs xs k n.1 h.1)

-- A connection that nobody owns may change in any way.
pub Own-update :
    {rs : List Physical} {hs is cs : List ℕ} (id : ℕ) (f : Physical → Physical)
    → KeepsId f
    → NotIn id hs
    → NotIn id is
    → NotIn id cs
    → Own rs hs is cs
    → Own (update id f rs) hs is cs
Own-update {rs} {hs} {is} {cs} id f k nh ni nc o = record {
  leases_distinct = o.leases_distinct;
  leases_held = Have-update held id f rs hs k nh o.leases_held;
  idle_distinct = o.idle_distinct;
  idle_rest = Have-update at_rest id f rs is k ni o.idle_rest;
  checks_distinct = o.checks_distinct;
  checks_run = Have-update in_check id f rs cs k nc o.checks_run;
}

Have-same :
    (s : Status) (rs ss : List Physical) (xs : List ℕ)
    → ((i : ℕ) → status_in i ss ≡ status_in i rs)
    → Have s rs xs
    → Have s ss xs
Have-same s rs ss [] e h = tt
Have-same s rs ss (x ∷ xs) e h = (e x ∙ h.0, Have-same s rs ss xs e h.1)

pub Own-same :
    {rs : List Physical} {hs is cs : List ℕ} (ss : List Physical)
    → ((i : ℕ) → status_in i ss ≡ status_in i rs)
    → Own rs hs is cs
    → Own ss hs is cs
Own-same {rs} {hs} {is} {cs} ss e o = record {
  leases_distinct = o.leases_distinct;
  leases_held = Have-same held rs ss hs e o.leases_held;
  idle_distinct = o.idle_distinct;
  idle_rest = Have-same at_rest rs ss is e o.idle_rest;
  checks_distinct = o.checks_distinct;
  checks_run = Have-same in_check rs ss cs e o.checks_run;
}

-- An update that leaves the status of the record is none at all.
pub status_in-update_keep :
    (id : ℕ) (f : Physical → Physical) (rs : List Physical)
    → KeepsId f
    → status_in id (update id f rs) ≡ status_in id rs
    → (i : ℕ) → status_in i (update id f rs) ≡ status_in i rs
status_in-update_keep id f rs k e i = elim (Bool-cases (i == id)) [
  | inr d ↦ status_in-update_other id i f rs k d
  | inl d ↦ (let q : i ≡ id = ground arith in rw q e)
]

pub NotIn-append : (id : ℕ) (xs ys : List ℕ) → NotIn id xs → NotIn id ys → NotIn id (xs ++ ys)
NotIn-append id xs ys h k = All-append (λ x. (x == id) ≡ false) xs ys h k

pub NotIn-remove_id : (id x : ℕ) (xs : List ℕ) → NotIn id xs → NotIn id (remove_id x xs)
NotIn-remove_id id x [] h = tt
NotIn-remove_id id x (y ∷ ys) h = elim (Bool-cases (y == x)) [
  | inl e ↦ rw e h.1
  | inr e ↦ rw e (h.0, NotIn-remove_id id x ys h.1)
]

-- A list that names nothing twice does not name what is taken off.
pub remove_id-NotIn : (id : ℕ) (xs : List ℕ) → Distinct xs → NotIn id (remove_id id xs)
remove_id-NotIn id [] d = tt
remove_id-NotIn id (y ∷ ys) d = elim (Bool-cases (y == id)) [
  | inl e ↦ rw e (let q : y ≡ id = ground arith in rw (sym q) d.0)
  | inr e ↦ rw e (e, remove_id-NotIn id ys d.1)
]

pub Distinct-remove_id : (id : ℕ) (xs : List ℕ) → Distinct xs → Distinct (remove_id id xs)
Distinct-remove_id id [] d = tt
Distinct-remove_id id (y ∷ ys) d = elim (Bool-cases (y == id)) [
  | inl e ↦ rw e d.1
  | inr e ↦ rw e (NotIn-remove_id y id ys d.0, Distinct-remove_id id ys d.1)
]

Have-remove_id :
    (s : Status) (rs : List Physical) (id : ℕ) (xs : List ℕ)
    → Have s rs xs
    → Have s rs (remove_id id xs)
Have-remove_id s rs id [] h = tt
Have-remove_id s rs id (y ∷ ys) h = elim (Bool-cases (y == id)) [
  | inl e ↦ rw e h.1
  | inr e ↦ rw e (h.0, Have-remove_id s rs id ys h.1)
]

pub Own-remove_id :
    {rs : List Physical} {hs is cs : List ℕ} (id : ℕ)
    → Own rs hs is cs
    → Own rs hs (remove_id id is) cs
Own-remove_id {rs} {hs} {is} {cs} id o = record {
  leases_distinct = o.leases_distinct;
  leases_held = o.leases_held;
  idle_distinct = Distinct-remove_id id is o.idle_distinct;
  idle_rest = Have-remove_id at_rest rs id is o.idle_rest;
  checks_distinct = o.checks_distinct;
  checks_run = o.checks_run;
}

pub Distinct-snoc : (id : ℕ) (xs : List ℕ) → NotIn id xs → Distinct xs → Distinct (xs ++ (id ∷ []))
Distinct-snoc id [] n d = (tt, tt)
Distinct-snoc id (x ∷ xs) n d =
    (NotIn-append x xs (id ∷ []) d.0 (ground arith, tt), Distinct-snoc id xs n.1 d.1)
