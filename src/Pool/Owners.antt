-- ===== src/Pool/Owners.antt =====
-- The steps by which a connection passes from one owner to another.
use open_rfc.Pool.Leases.{lease_all, lease}
use open_rfc.Pool.Resources.{
  end_handoff, keep_idle, is_empty, push_idle, return_to_pool, or_high, return_all, destroy,
}
use open_rfc.Pool.Table.{
  includes, is_open, enter, find, update, is_closing, on_record, set_recycle, remove_id,
}
use open_rfc.Common.{
  length, All, All-append, ltb, ◌==◌, Bool-cases, Option-cases, ℕ, ◌<◌, ◌≡◌, refl, sym, ◌∙◌, inl,
  inr, false, ◌||◌, not, Option, none, some, List, [], ◌∷◌, ◌++◌, arith,
}
use open_rfc.Pool.Ownership.{
  held, NotIn-status, in_check, at_rest, status_in-update_self, Distinct-snoc, holders, status,
  Own-remove_id, Own-same, remove_id-NotIn, Own-update, status_in-update_keep, Own, NotIn, KeepsId,
  status_in,
}
use open_rfc.Pool.Still.{Still}
use open_rfc.Pool.{idle, leased, no_work, Pool, Physical, closing, destroy_work}

-- The dispatch holds the connections `cs`, and every id is below the next one.
pub record Owned (cs : List ℕ) (p : Pool) : Type 0 where
  pub own : Own p.records (holders p.leases) p.idle_ids cs
  pub fresh : All (λ (r : Physical). r.id < p.next_physical_id) p.records

pub Still-Owned : {cs : List ℕ} {p q : Pool} → Still p q → Owned cs p → Owned cs q
Still-Owned {cs} {p} {q} s o = record {
  own = rw (s.records_still, s.leases_still, s.idle_still) o.own;
  fresh = rw (s.records_still, s.next_still) o.fresh;
}

pub All-update :
    (n id : ℕ) (f : Physical → Physical) (rs : List Physical)
    → KeepsId f
    → All (λ (r : Physical). r.id < n) rs
    → All (λ (r : Physical). r.id < n) (update id f rs)
All-update n id f [] k h = tt
All-update n id f (r ∷ rs) k h = (ground (arith, k r), All-update n id f rs k h.1)

-- A record that nobody owns is changed.
pub on_record-Owned :
    {cs : List ℕ} (id : ℕ) (f : Physical → Physical) (p : Pool)
    → KeepsId f
    → NotIn id (holders p.leases)
    → NotIn id p.idle_ids
    → NotIn id cs
    → Owned cs p
    → Owned cs (on_record id f p)
on_record-Owned id f p k nh ni nc o = record {
  own = Own-update id f k nh ni nc o.own;
  fresh = All-update p.next_physical_id id f p.records k o.fresh;
}

-- A record is changed and keeps its status.
pub on_record-Owned_keep :
    {cs : List ℕ} (id : ℕ) (f : Physical → Physical) (p : Pool)
    → KeepsId f
    → status_in id (update id f p.records) ≡ status_in id p.records
    → Owned cs p
    → Owned cs (on_record id f p)
on_record-Owned_keep id f p k e o = record {
  own = Own-same (update id f p.records) (status_in-update_keep id f p.records k e) o.own;
  fresh = All-update p.next_physical_id id f p.records k o.fresh;
}

pub status_in-always :
    (id : ℕ) (f : Physical → Physical) (rs : List Physical)
    → KeepsId f
    → ((r : Physical) → status (f r) ≡ status r)
    → status_in id (update id f rs) ≡ status_in id rs
status_in-always id f [] k s = refl
status_in-always id f (r ∷ rs) k s = ground (arith, k r, s r, status_in-always id f rs k s)

pub set_recycle-Owned :
    {cs : List ℕ} (id : ℕ) (high : Option ℕ) (p : Pool)
    → Owned cs p
    → Owned cs (on_record id (set_recycle high) p)
set_recycle-Owned id high p o =
    on_record-Owned_keep id (set_recycle high) p (λ r. refl)
      (status_in-always id (set_recycle high) p.records (λ r. refl) (λ r. refl)) o

remove_id-Owned :
    {cs : List ℕ} (id : ℕ) (p : Pool)
    → Owned cs p
    → Owned cs (record p { idle_ids = remove_id id p.idle_ids })
remove_id-Owned id p o = record { own = Own-remove_id id o.own; fresh = o.fresh }

-- A connection is destroyed that is neither leased nor validated.
pub destroy-Owned :
    {cs : List ℕ} (id : ℕ) (p : Pool)
    → NotIn id (holders p.leases)
    → NotIn id cs
    → Owned cs p
    → Owned cs (destroy id p)
unfolding destroy
destroy-Owned id p nh nc o = elim (Option-cases (find id p.records)) [
  | inl e ↦ rw (e, destroy) o
  | inr (r, e) ↦ elim (Bool-cases (is_closing r)) [
    | inl c ↦ rw (e, c, destroy) o
    | inr c ↦
        rw (e, c, destroy)
          (on_record-Owned id (enter closing destroy_work)
            (record p { idle_ids = remove_id id p.idle_ids }) (λ r. refl) nh
            (remove_id-NotIn id p.idle_ids o.own.idle_distinct) nc (remove_id-Owned id p o))
  ]
]

abbrev pub Unowned : ℕ → List ℕ → Pool → Type 0
Unowned id cs p = NotIn id (holders p.leases) × NotIn id p.idle_ids × NotIn id cs

-- A connection that nobody owns becomes the last of the idle list.
Own-idle :
    {rs : List Physical} {hs is cs : List ℕ} (id : ℕ)
    → NotIn id is
    → status_in id rs ≡ at_rest
    → Own rs hs is cs
    → Own rs hs (is ++ (id ∷ [])) cs
Own-idle {rs} {hs} {is} {cs} id n s o = record {
  leases_distinct = o.leases_distinct;
  leases_held = o.leases_held;
  idle_distinct = Distinct-snoc id is n o.idle_distinct;
  idle_rest = All-append (λ x. status_in x rs ≡ at_rest) is (id ∷ []) o.idle_rest (s, tt);
  checks_distinct = o.checks_distinct;
  checks_run = o.checks_run;
}

includes-NotIn : (id : ℕ) (xs : List ℕ) → NotIn id xs → includes id xs ≡ false
includes-NotIn id [] n = refl
includes-NotIn id (x ∷ xs) n = rw (n.0, includes-NotIn id xs n.1)

keep_idle-Owned :
    {cs : List ℕ} (id : ℕ) (p : Pool) (r : Physical)
    → find id p.records ≡ some r
    → Unowned id cs p
    → Owned cs p
    → Owned cs (keep_idle id p)
unfolding keep_idle end_handoff push_idle
keep_idle-Owned {cs} id p r e u o =
    let kept = on_record id (enter idle no_work) p in
    let k : Owned cs kept = on_record-Owned id (enter idle no_work) p (λ r. refl) u.0 u.1 u.2 o in
    let pushed : Pool = record kept { idle_ids = p.idle_ids ++ (id ∷ []) } in
    let l : Owned cs pushed = record {
      own =
          Own-idle id u.1 (status_in-update_self id (enter idle no_work) p.records r (λ r. refl) e)
            k.own;
      fresh = k.fresh;
    } in
    rw (includes-NotIn id p.idle_ids u.1) (elim (Bool-cases (is_empty p.waiters)) [
      | inl w ↦ rw w (set_recycle-Owned id none pushed l)
      | inr w ↦ rw w l
    ])

-- A connection that nobody owns returns to the pool.
pub return_to_pool-Owned :
    {cs : List ℕ} (id : ℕ) (p : Pool)
    → Unowned id cs p
    → Owned cs p
    → Owned cs (return_to_pool id p)
unfolding return_to_pool
return_to_pool-Owned {cs} id p u o = elim (Option-cases (find id p.records)) [
  | inl e ↦ rw (e, return_to_pool) o
  | inr (r, e) ↦ elim (Bool-cases (not (is_open p.state))) [
    | inl shut ↦ rw (e, shut, return_to_pool) (destroy-Owned id p u.0 u.2 o)
    | inr up ↦
        elim (Bool-cases (
          not (is_empty p.waiters)
          || ltb (length p.idle_ids) (or_high r.recycle_idle_high p.config.idle_high))) [
            | inl keep ↦ rw (e, up, keep, return_to_pool) (keep_idle-Owned id p r e u o)
            | inr full ↦
                rw (e, up, full, return_to_pool)
                  (destroy-Owned id (on_record id (set_recycle none) p) u.0 u.2
                    (set_recycle-Owned id none p o))
          ]
  ]
]

-- The dispatch gives a connection up, and then nobody owns it.
pub give_up : {cs : List ℕ} (id : ℕ) (p : Pool) → Owned (id ∷ cs) p → Unowned id cs p × Owned cs p
give_up {cs} id p o = (
  (
    NotIn-status in_check held id p.records (holders p.leases) (λ e. cc) o.own.checks_run.0
        o.own.leases_held,
    NotIn-status in_check at_rest id p.records p.idle_ids (λ e. cc) o.own.checks_run.0
        o.own.idle_rest,
    o.own.checks_distinct.0,
  ),
  record {
    own = record {
      leases_distinct = o.own.leases_distinct;
      leases_held = o.own.leases_held;
      idle_distinct = o.own.idle_distinct;
      idle_rest = o.own.idle_rest;
      checks_distinct = o.own.checks_distinct.1;
      checks_run = o.own.checks_run.1;
    };
    fresh = o.fresh;
  },
)

pub return_all-Owned : (ids : List ℕ) (p : Pool) → Owned ids p → Owned [] (return_all ids p)
return_all-Owned [] p o = o
return_all-Owned (id ∷ ids) p o =
    let (u, g) = give_up id p o in
    return_all-Owned ids (return_to_pool id p) (return_to_pool-Owned id p u g)

found-check :
    (id : ℕ) (rs : List Physical)
    → status_in id rs ≡ in_check
    → (r : Physical) × (find id rs ≡ some r)
found-check id [] e = absurd (cc)
found-check id (x ∷ rs) e = elim (Bool-cases (x.id == id)) [
  | inl h ↦ (x, rw h refl)
  | inr h ↦ let (r, f) = found-check id rs (sym (rw h refl) ∙ e) in (r, rw h f)
]

-- The dispatch leases a connection that it has validated.
lease-Owned : {cs : List ℕ} (id : ℕ) (p : Pool) → Owned (id ∷ cs) p → Owned cs (lease id p)
unfolding lease
lease-Owned {cs} id p o =
    let (u, g) = give_up id p o in
    let (r, e) = found-check id p.records o.own.checks_run.0 in
    let f = λ (q : Physical). enter leased no_work (set_recycle none q) in
    let k = on_record-Owned id f p (λ q. refl) u.0 u.1 u.2 g in
    record {
      own = record {
        leases_distinct = (u.0, k.own.leases_distinct);
        leases_held = (status_in-update_self id f p.records r (λ q. refl) e, k.own.leases_held);
        idle_distinct = k.own.idle_distinct;
        idle_rest = k.own.idle_rest;
        checks_distinct = k.own.checks_distinct;
        checks_run = k.own.checks_run;
      };
      fresh = k.fresh;
    }

pub lease_all-Owned : (ids : List ℕ) (p : Pool) → Owned ids p → Owned [] (lease_all ids p)
unfolding lease_all
lease_all-Owned [] p o = o
lease_all-Owned (id ∷ ids) p o = lease_all-Owned ids (lease id p) (lease-Owned id p o)
