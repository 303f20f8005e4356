-- ===== src/Pool/Checkout.antt =====
-- The dispatch takes connections off the idle list, and gives them back or leases them.
use open_rfc.Pool.Waiters.{request_pump, reject_waiter}
use open_rfc.Pool.Resources.{
  last_id, clear_recycle, is_empty, trim_idle_high, effective_high, destroy, trim_loop,
}
use open_rfc.Pool.Acquire.{read_clock}
use open_rfc.SapRouter.Route.{is_some}
use open_rfc.Pool.Table.{find, enter, on_record, is_open, set_recycle}
use open_rfc.Pool.Dispatch.{end_dispatch, validate_all, check_out, dispatch_loop}
use open_rfc.Common.{
  length, take, drop, All, take-append-drop, All-append, ltb, ◌==◌, if◌then◌else◌, Bool-cases,
  Option-cases, ℕ, zero, suc, ◌<◌, ◌≡◌, refl, sym, ◌∙◌, inl, inr, Bool, true, false, ◌&&◌, ◌||◌,
  not, Option, none, some, List, [], ◌∷◌, ◌++◌, append-nil, append_assoc, arith,
}
use open_rfc.Pool.Ownership.{
  holders, status_in-update_self, NotIn-status, Own-update, Status, Distinct-snoc, Own, NotIn, Have,
  status_in, held, at_rest, in_check,
}
use open_rfc.Pool.Still.{
  request_pump-Still, reject_waiter-Still, read_clock-Still, ensure_low_water-Still,
  ensure_waiter_capacity-Still, Still,
}
use open_rfc.Pool.Owners.{destroy-Owned, set_recycle-Owned, All-update, Owned, Still-Owned}
use open_rfc.Pool.Steady.{trim_loop-SameFlight, clear_recycle-SameFlight}
use open_rfc.Pool.Capacity.{List-cases}
use open_rfc.Pool.{
  Pool, Physical, Flight, Waiter, validating, validate_work, failure, acquire_timeout,
}

abbrev pub candidates_of : Option Flight → List ℕ
candidates_of none = []
candidates_of (some f) = f.candidates

-- Between two events: the dispatch owns the candidates of its flight, and there is a flight only while
-- a dispatch runs.
pub record Sound (p : Pool) : Type 0 where
  pub owned : Owned (candidates_of p.flight) p
  pub landed : (is_some p.flight && not p.dispatching) ≡ false

-- Within a dispatch.
pub record Looping (p : Pool) : Type 0 where
  pub on_ground : p.flight ≡ none
  pub running : p.dispatching ≡ true
  pub owned : Owned [] p

pub Owned-flight :
    {q : Pool} {f g : Option Flight} → g ≡ f → Owned (candidates_of f) q → Owned (candidates_of g) q
Owned-flight e o = rw e o

pub landed_again :
    {f g : Option Flight} {a b : Bool}
    → g ≡ f
    → b ≡ a
    → (is_some f && not a) ≡ false
    → (is_some g && not b) ≡ false
landed_again e d o = rw (e, d) o

pub Still-Sound : {p q : Pool} → Still p q → Sound p → Sound q
Still-Sound s o = record {
  owned = Owned-flight (s.flight_still) (Still-Owned s o.owned);
  landed = landed_again (s.flight_still) (s.dispatching_still) o.landed;
}

pub Still-Looping : {p q : Pool} → Still p q → Looping p → Looping q
Still-Looping s o = record {
  on_ground = s.flight_still ∙ o.on_ground;
  running = s.dispatching_still ∙ o.running;
  owned = Still-Owned s o.owned;
}

-- A connection at rest passes to the dispatch.
Own-check :
    {rs : List Physical} {hs is cs : List ℕ} (id : ℕ)
    → NotIn id cs
    → status_in id rs ≡ in_check
    → Own rs hs is cs
    → Own rs hs is (cs ++ (id ∷ []))
Own-check {rs} {hs} {is} {cs} id n s o = record {
  leases_distinct = o.leases_distinct;
  leases_held = o.leases_held;
  idle_distinct = o.idle_distinct;
  idle_rest = o.idle_rest;
  checks_distinct = Distinct-snoc id cs n o.checks_distinct;
  checks_run = All-append (λ x. status_in x rs ≡ in_check) cs (id ∷ []) o.checks_run (s, tt);
}

Own-idle_tail :
    {rs : List Physical} {hs is cs : List ℕ} (id : ℕ) → Own rs hs (id ∷ is) cs → Own rs hs is cs
Own-idle_tail id o = record {
  leases_distinct = o.leases_distinct;
  leases_held = o.leases_held;
  idle_distinct = o.idle_distinct.1;
  idle_rest = o.idle_rest.1;
  checks_distinct = o.checks_distinct;
  checks_run = o.checks_run;
}

found-rest :
    (id : ℕ) (rs : List Physical)
    → status_in id rs ≡ at_rest
    → (r : Physical) × (find id rs ≡ some r)
found-rest id [] e = absurd (cc)
found-rest id (x ∷ rs) e = elim (Bool-cases (x.id == id)) [
  | inl h ↦ (x, rw h refl)
  | inr h ↦ let (r, f) = found-rest id rs (sym (rw h refl) ∙ e) in (r, rw h f)
]

-- What a list of connections at rest is once they are validated.
validate_all-Own :
    (todo : List ℕ) (cs : List ℕ) (p : Pool)
    → Own p.records (holders p.leases) (todo ++ p.idle_ids) cs
    → All (λ (r : Physical). r.id < p.next_physical_id) p.records
    → Owned (cs ++ todo) (validate_all todo p)
validate_all-Own [] cs p o f = rw (append-nil cs) (record { own = o; fresh = f })
validate_all-Own (id ∷ todo) cs p o f =
    let g = enter validating validate_work in
    let nh =
      NotIn-status at_rest held id p.records (holders p.leases) (λ e. cc) o.idle_rest.0
        o.leases_held in
    let nc = NotIn-status at_rest in_check id p.records cs (λ e. cc) o.idle_rest.0 o.checks_run in
    let (r, e) = found-rest id p.records o.idle_rest.0 in
    let moved = Own-update id g (λ q. refl) nh o.idle_distinct.0 nc (Own-idle_tail id o) in
    let checked = Own-check id nc (status_in-update_self id g p.records r (λ q. refl) e) moved in
    rw (sym (append_assoc cs (id ∷ []) todo)) (
      validate_all-Own todo (cs ++ (id ∷ [])) (on_record id g p) checked
        (All-update p.next_physical_id id g p.records (λ q. refl) f))

pub validate_all-flight :
    (ids : List ℕ) (p : Pool)
    → ((validate_all ids p).flight ≡ p.flight) × ((validate_all ids p).dispatching ≡ p.dispatching)
validate_all-flight [] p = (refl, refl)
validate_all-flight (id ∷ ids) p =
    validate_all-flight ids (on_record id (enter validating validate_work) p)

check_out-Sound : (w : Waiter) (p : Pool) → Looping p → Sound (check_out w p)
unfolding check_out
check_out-Sound w p l =
    let taken = take w.count p.idle_ids in
    let q : Pool = record p {
      idle_ids = drop w.count p.idle_ids;
      flight = some (record { waiter = w.id; count = w.count; candidates = taken; outcomes = [] });
    } in
    let fl = validate_all-flight taken q in
    record {
      owned = rw (fl.0) (
          validate_all-Own taken [] q (rw (take-append-drop w.count p.idle_ids) l.owned.own)
            l.owned.fresh);
      landed = rw (fl.0, fl.1, l.running) refl;
    }

Have-last :
    (s : Status) (rs : List Physical) (xs : List ℕ)
    → 0 < length xs
    → Have s rs xs
    → status_in (last_id xs) rs ≡ s
Have-last s rs [] l h = absurd (omega arith)
Have-last s rs (x ∷ []) l h = h.0
Have-last s rs (x ∷ y ∷ ys) l h = Have-last s rs (y ∷ ys) (omega arith) h.1

trim_loop-Owned : (fuel high : ℕ) (p : Pool) → Owned [] p → Owned [] (trim_loop fuel high p)
unfolding trim_loop
trim_loop-Owned zero high p o = o
trim_loop-Owned (suc fuel) high p o = elim (Bool-cases (ltb high (length p.idle_ids))) [
  | inr done ↦ rw (done, trim_loop) o
  | inl more ↦
      let s = Have-last at_rest p.records p.idle_ids (ground arith) o.own.idle_rest in
      let n =
        NotIn-status at_rest held (last_id p.idle_ids) p.records (holders p.leases) (λ e. cc) s
          o.own.leases_held in
      rw (more, trim_loop)
        (trim_loop-Owned fuel high (destroy (last_id p.idle_ids) p)
          (destroy-Owned (last_id p.idle_ids) p n tt o))
]

clear_recycle-Owned : (ids : List ℕ) (p : Pool) → Owned [] p → Owned [] (clear_recycle ids p)
clear_recycle-Owned [] p o = o
clear_recycle-Owned (id ∷ ids) p o =
    clear_recycle-Owned ids (on_record id (set_recycle none) p) (set_recycle-Owned id none p o)

trim_idle_high-Looping : (p : Pool) → Looping p → Looping (trim_idle_high p)
unfolding trim_idle_high
trim_idle_high-Looping p l = elim (Bool-cases (not (is_open p.state) || not (is_empty p.waiters))) [
  | inl e ↦ rw e l
  | inr e ↦
      let q = trim_loop (length p.idle_ids) (effective_high p.idle_ids p) p in
      let a = trim_loop-SameFlight (length p.idle_ids) (effective_high p.idle_ids p) p in
      let b = clear_recycle-SameFlight q.idle_ids q in
      rw e (record {
        on_ground = b.same_flight ∙ (a.same_flight ∙ l.on_ground);
        running = b.same_dispatching ∙ (a.same_dispatching ∙ l.running);
        owned =
            clear_recycle-Owned q.idle_ids q
              (trim_loop-Owned (length p.idle_ids) (effective_high p.idle_ids p) p l.owned);
      })
]

pump_again : (b : Bool) (q : Pool) → Sound q → Sound (if b then request_pump q else q)
pump_again true q s = Still-Sound (request_pump-Still q) s
pump_again false q s = s

pub end_dispatch-Sound : (p : Pool) → Looping p → Sound (end_dispatch p)
unfolding end_dispatch
end_dispatch-Sound p l =
    let q : Pool = record p { dispatching = false } in
    let s : Sound q = record {
      owned = Owned-flight (l.on_ground) (record { own = l.owned.own; fresh = l.owned.fresh });
      landed = landed_again {f = none} {a = false} (l.on_ground) refl refl;
    } in
    pump_again p.pump_requested q s

pub dispatch_loop-Sound :
    (fuel : ℕ) (reading : Option ℕ) (p : Pool) → Looping p → Sound (dispatch_loop fuel reading p)
unfolding dispatch_loop
dispatch_loop-Sound zero reading p l = end_dispatch-Sound p l
dispatch_loop-Sound (suc fuel) reading p l = elim (Bool-cases (is_open p.state)) [
  | inr shut ↦ rw (shut, dispatch_loop) (end_dispatch-Sound p l)
  | inl up ↦ elim (List-cases p.waiters) [
    | inl e ↦
        rw (up, e, dispatch_loop)
          (end_dispatch-Sound _
            (Still-Looping (ensure_low_water-Still _) (trim_idle_high-Looping p l)))
    | inr (w, ws, e) ↦ elim (Option-cases (read_clock reading p)) [
      | inl r ↦
          rw (up, e, r, dispatch_loop)
            (dispatch_loop-Sound fuel reading (reject_waiter w.id failure p)
              (Still-Looping (reject_waiter-Still w.id failure p) l))
      | inr (read, r) ↦
          let g : Looping read = Still-Looping (read_clock-Still reading p read r) l in
          elim (Bool-cases (ltb read.last_clock w.deadline)) [
            | inr late ↦
                rw (up, e, r, late, dispatch_loop)
                  (dispatch_loop-Sound fuel reading (reject_waiter w.id acquire_timeout read)
                    (Still-Looping (reject_waiter-Still w.id acquire_timeout read) g))
            | inl soon ↦ elim (Bool-cases (ltb (length read.idle_ids) w.count)) [
              | inl few ↦
                  rw (up, e, r, soon, few, dispatch_loop)
                    (end_dispatch-Sound _ (Still-Looping (ensure_waiter_capacity-Still w read) g))
              | inr enough ↦ rw (up, e, r, soon, enough, dispatch_loop) (check_out-Sound w read g)
            ]
          ]
    ]
  ]
]
