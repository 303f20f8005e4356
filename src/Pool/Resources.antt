-- ===== src/Pool/Resources.antt =====
-- Physical connections: their creation, their return to the pool and their destruction.
use open_rfc.Common.{
  length, ltb, leb, ◌==◌, if◌then◌else◌, ℕ, zero, suc, ◌+◌, ◌-◌, min, Bool, true, false, ◌&&◌, ◌||◌,
  not, Option, none, some, List, [], ◌∷◌, ◌++◌,
}
use open_rfc.Pool.Table.{
  is_resetting, remove_id, count_of, is_closing, is_open, set_recycle, includes, any_of, find,
  on_record, enter,
}
use open_rfc.Pool.{
  opened, retiring, shutting, closed, RuntimeState, Pool, Physical, Creation, Waiter, pending,
  resolved, rejected, idle, closing, no_work, destroy_work,
}

-- `#failClose`: `#closePromise` is undefined while the pool is open.
unfoldable pub fail_close : Pool → Pool
fail_close p = if is_open p.state then p else record p {
  close_outcome = elim (p.close_outcome) [
    | pending ↦ rejected
    | resolved ↦ resolved
    | rejected ↦ rejected
  ];
}

-- `#checkClosed`
unfoldable pub finish_close : Pool → Pool
finish_close p = record p {
  state = closed;
  close_outcome = elim (p.close_outcome) [
    | pending ↦ resolved
    | resolved ↦ resolved
    | rejected ↦ rejected
  ];
}

abbrev pub is_stopping : RuntimeState → Bool
is_stopping opened = false
is_stopping retiring = true
is_stopping shutting = true
is_stopping closed = false

abbrev pub is_empty {ℓ} : {A : Type ℓ} → List A → Bool
is_empty [] = true
is_empty (x ∷ xs) = false

unfoldable pub surface_failures : Pool → Pool
surface_failures p =
    if any_of (λ (c : Creation). c.expired) p.creating
      || any_of (λ (r : Physical). r.destroy_failed) p.records
    then fail_close p
    else p

unfoldable pub check_closed : Pool → Pool
check_closed p =
    if is_stopping p.state
    then (let q = surface_failures p in
        if is_empty p.creating && is_empty p.records then finish_close q else q)
    else p

-- `#destroy`, up to the call of the factory.
unfoldable pub destroy : ℕ → Pool → Pool
destroy id p = elim (find id p.records) [
  | none ↦ p
  | some r ↦
      if is_closing r
      then p
      else on_record id (enter closing destroy_work)
          (record p { idle_ids = remove_id id p.idle_ids })
]

abbrev pub destroy_all : List ℕ → Pool → Pool
destroy_all [] p = p
destroy_all (id ∷ ids) p = destroy_all ids (destroy id p)

-- `value ?? fallback`
abbrev pub or_high : Option ℕ → ℕ → ℕ
or_high none high = high
or_high (some h) high = h

unfoldable pub push_idle : ℕ → Pool → Pool
push_idle id p =
    if includes id p.idle_ids then p else record p { idle_ids = p.idle_ids ++ (id ∷ []) }

-- The cap of a handoff is kept as long as someone waits.
unfoldable pub end_handoff : ℕ → Pool → Pool
end_handoff id p = if is_empty p.waiters then on_record id (set_recycle none) p else p

-- The part of `#returnToPool` that keeps the connection.
unfoldable pub keep_idle : ℕ → Pool → Pool
keep_idle id p = end_handoff id (push_idle id (on_record id (enter idle no_work) p))

unfoldable pub return_to_pool : ℕ → Pool → Pool
return_to_pool id p = elim (find id p.records) [
  | none ↦ p
  | some r ↦
      if not (is_open p.state)
      then destroy id p
      else if not (is_empty p.waiters)
          || ltb (length p.idle_ids) (or_high r.recycle_idle_high p.config.idle_high)
      then keep_idle id p
      else destroy id (on_record id (set_recycle none) p)
]

abbrev pub return_all : List ℕ → Pool → Pool
return_all [] p = p
return_all (id ∷ ids) p = return_all ids (return_to_pool id p)

-- `#capacity`
abbrev pub capacity : Pool → ℕ
capacity p = length p.records + length p.creating

-- `#expectedAvailable`
abbrev pub expected_available : Pool → ℕ
expected_available p =
    length p.idle_ids
    + count_of (λ (c : Creation). not c.aborted) p.creating
    + count_of is_resetting p.records

-- `#startCreation`, up to the call of the factory.
unfoldable pub start_creation : Option ℕ → Pool → Pool
start_creation owner p =
    if not (is_open p.state) || leb p.config.max_connections (capacity p) then p else record p {
      next_creation_id = suc p.next_creation_id;
      creating =
          p.creating
          ++ (record {
            id = p.next_creation_id;
            owner = owner;
            aborted = false;
            abort_requested = false;
            expired = false;
          }
              ∷ []);
    }

unfoldable pub start_creations : ℕ → Option ℕ → Pool → Pool
start_creations zero owner p = p
start_creations (suc n) owner p = start_creations n owner (start_creation owner p)

unfoldable pub ensure_waiter_capacity : Waiter → Pool → Pool
ensure_waiter_capacity w p =
    start_creations (min (w.count - expected_available p) (p.config.max_connections - capacity p))
      (some w.id) p

unfoldable pub ensure_low_water : Pool → Pool
ensure_low_water p =
    if p.low_water_blocked || (p.config.low_water == 0)
    then p
    else start_creations
        (min (p.config.low_water - expected_available p) (p.config.max_connections - capacity p))
        none p

-- The least of the caps that the idle connections carry, and of the pool's.
abbrev pub effective_high : List ℕ → Pool → ℕ
effective_high [] p = p.config.idle_high
effective_high (id ∷ ids) p = elim (find id p.records) [
  | none ↦ effective_high ids p
  | some r ↦ min (or_high r.recycle_idle_high p.config.idle_high) (effective_high ids p)
]

abbrev pub last_id : List ℕ → ℕ
last_id [] = 0
last_id (x ∷ []) = x
last_id (x ∷ y ∷ ys) = last_id (y ∷ ys)

-- The loop of `#trimIdleHigh`; every round takes one connection off the idle list.
unfoldable pub trim_loop : ℕ → ℕ → Pool → Pool
trim_loop zero high p = p
trim_loop (suc fuel) high p = elim (ltb high (length p.idle_ids)) [
  | true ↦ trim_loop fuel high (destroy (last_id p.idle_ids) p)
  | false ↦ p
]

abbrev pub clear_recycle : List ℕ → Pool → Pool
clear_recycle [] p = p
clear_recycle (id ∷ ids) p = clear_recycle ids (on_record id (set_recycle none) p)

unfoldable pub trim_idle_high : Pool → Pool
trim_idle_high p =
    if not (is_open p.state) || not (is_empty p.waiters)
    then p
    else (let q = trim_loop (length p.idle_ids) (effective_high p.idle_ids p) p in
        clear_recycle q.idle_ids q)
