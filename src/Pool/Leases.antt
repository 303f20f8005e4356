-- ===== src/Pool/Leases.antt =====
-- Leases: their issue, their use, their reset and their release.
use open_rfc.Pool.Waiters.{request_pump}
use open_rfc.Common.{
  Number, natural_in, Result, ◌>>=◌, ◌>>◌, guard, or_throw, ◌==◌, if◌then◌else◌, ok, ℕ, suc, ◌+◌,
  ◌-◌, Bool, true, false, ◌||◌, not, Option, none, some, List, [], ◌∷◌,
}
use open_rfc.Pool.Table.{includes, remove, set_recycle, enter, find, is_open, on_record}
use open_rfc.Pool.Resources.{check_closed, destroy, return_to_pool, fail_close}
use open_rfc.Pool.{
  closing, idle, validating, validate_work, PhysicalState, Work, destroy_work, Pool, Physical,
  Lease, PoolError, stale_lease, wrong_pool, double_release, pool_closed, pool_lease_busy,
  active_lease, invalid_type, invalid_range, leased, resetting, no_work, reset_held, reset_released,
  opened, retiring, shutting, closed, RuntimeState,
}

-- How a callback of the factory ended.
pub data Settled : Type 0 where
  fulfilled rejected_by_factory timed_out : Settled

abbrev pub is_fulfilled : Settled → Bool
is_fulfilled fulfilled = true
is_fulfilled rejected_by_factory = false
is_fulfilled timed_out = false

abbrev pub is_timed_out : Settled → Bool
is_timed_out fulfilled = false
is_timed_out rejected_by_factory = false
is_timed_out timed_out = true

-- The count of `expire` in `#startLifecycle`.
abbrev pub count_timeout : Settled → Pool → Pool
count_timeout s p =
    if is_timed_out s
    then record p {
      counters = record (p.counters) { lifecycle_timeouts = suc p.counters.lifecycle_timeouts };
    }
    else p

-- `#lease`
unfoldable pub lease : ℕ → Pool → Pool
lease id p =
    on_record id (λ r. enter leased no_work (set_recycle none r))
      (record p {
        last_lease_generation = suc p.last_lease_generation;
        leases =
            record {
              generation = suc p.last_lease_generation;
              physical = id;
              active = true;
              operations = 0;
            }
            ∷ p.leases;
      })

unfoldable pub lease_all : List ℕ → Pool → Pool
lease_all [] p = p
lease_all (id ∷ ids) p = lease_all ids (lease id p)

abbrev pub find_lease : ℕ → List Lease → Option Lease
find_lease generation [] = none
find_lease generation (l ∷ ls) =
    if l.generation == generation then some l else find_lease generation ls

-- The generation of a connection is that of its newest lease, which stands first.
abbrev pub newest_generation : ℕ → List Lease → ℕ
newest_generation physical [] = 0
newest_generation physical (l ∷ ls) =
    if l.physical == physical then l.generation else newest_generation physical ls

-- `#activeLeaseRecord`
unfoldable pub active_lease_record : ℕ → ℕ → Pool → Result PoolError Lease
active_lease_record pool_id generation p = do
  guard (pool_id == p.config.pool_id) wrong_pool
  l ← or_throw (find_lease generation p.leases) stale_lease
  guard (l.active || (newest_generation l.physical p.leases == l.generation)) stale_lease
  guard l.active double_release
  ok l

abbrev pub on_lease : ℕ → (Lease → Lease) → List Lease → List Lease
on_lease generation f [] = []
on_lease generation f (l ∷ ls) =
    (if l.generation == generation then f l else l) ∷ on_lease generation f ls

abbrev pub set_operations : ℕ → Lease → Lease
set_operations n l = record l { operations = n }

abbrev pub deactivate : Lease → Lease
deactivate l = record l { active = false }

abbrev pub serves_leases : RuntimeState → Bool
serves_leases opened = true
serves_leases retiring = true
serves_leases shutting = false
serves_leases closed = false

-- `withActiveLease`, up to the call of the operation.
unfoldable pub begin_operation : ℕ → ℕ → Pool → Result PoolError Pool
begin_operation pool_id generation p = do
  l ← active_lease_record pool_id generation p
  guard (serves_leases p.state) pool_closed
  guard (l.operations == 0) pool_lease_busy
  ok (record p { leases = on_lease generation (set_operations (l.operations + 1)) p.leases })

-- The `finally` of `withActiveLease`.
unfoldable pub end_operation : ℕ → Pool → Pool
end_operation generation p = record p {
  leases = on_lease generation (λ l. set_operations (l.operations - 1) l) p.leases;
}

-- `resetActiveLease`, up to the call of the factory.
unfoldable pub begin_reset : ℕ → ℕ → Pool → Result PoolError Pool
begin_reset pool_id generation p = do
  l ← active_lease_record pool_id generation p
  guard (is_open p.state) pool_closed
  guard p.config.has_reset invalid_type
  guard (l.operations == 0) pool_lease_busy
  ok (
      on_record l.physical (enter resetting reset_held)
        (record p { leases = on_lease generation (set_operations (l.operations + 1)) p.leases }))

abbrev pub count_reset_failure : Settled → Pool → Pool
count_reset_failure s p = if is_fulfilled s then p else record p {
  counters = record (p.counters) { reset_failures = suc p.counters.reset_failures };
}

-- A connection that is being reset under its lease is leased again.
abbrev pub leave_from : PhysicalState → Work → Physical → Physical
leave_from resetting reset_held r = enter leased no_work r
leave_from resetting reset_released r = r
leave_from resetting no_work r = r
leave_from resetting validate_work r = r
leave_from resetting destroy_work r = r
leave_from idle w r = r
leave_from validating w r = r
leave_from leased w r = r
leave_from closing w r = r

abbrev pub leave_reset : Physical → Physical
leave_reset r = leave_from r.state r.work r

unfoldable pub finish_reset : Lease → Settled → Pool → Pool
finish_reset l s p =
    let counted = count_reset_failure s (count_timeout s p) in
    let idled = record counted {
      leases = on_lease l.generation (λ k. set_operations (k.operations - 1) k) counted.leases;
    } in
    if l.active then on_record l.physical leave_reset idled else idled

-- The rest of `resetActiveLease`: the connection is leased again, however the reset ended.
unfoldable pub end_reset : ℕ → Settled → Pool → Pool
end_reset generation s p = elim (find_lease generation p.leases) [
  | none ↦ p
  | some l ↦ finish_reset l s p
]

-- The options of `release`.
pub record ReleaseOptions : Type 0 where
  pub reusable : Bool
  pub idle_high : Option Number

abbrev pub release_high : Option Number → Pool → Result PoolError (Option ℕ)
release_high none p = ok none
release_high (some v) p = do
  high ← or_throw (natural_in v 0 p.config.max_connections) invalid_range
  ok (some high)

-- The end of `release`: a connection that is not kept is destroyed, and the pump is requested when
-- that has ended, which `destroy_settled` does.
unfoldable pub return_ready : ℕ → Pool → Pool
return_ready id p =
    let q = return_to_pool id (record p { low_water_blocked = false }) in
    if includes id q.idle_ids then request_pump q else q

-- `release` of a connection that may be used again.
unfoldable pub recycle : ℕ → Option ℕ → Pool → Pool
recycle id high p =
    let capped = on_record id (set_recycle high) p in
    if p.config.reset_on_release
    then on_record id (enter resetting reset_released) capped
    else return_ready id capped

-- `release` after its checks: the lease ends, and the connection is recycled or destroyed.
unfoldable pub let_go : Lease → Bool → Option ℕ → Pool → Pool
let_go l reusable high p =
    let inactive = record p { leases = on_lease l.generation deactivate p.leases } in
    if not reusable || not (is_open p.state)
    then destroy l.physical inactive
    else recycle l.physical high inactive

-- `release`, up to its first await.
unfoldable pub release : ℕ → ℕ → ReleaseOptions → Pool → Result PoolError Pool
release pool_id generation options p = do
  high ← release_high options.idle_high p
  l ← active_lease_record pool_id generation p
  guard (l.operations == 0) active_lease
  ok (let_go l options.reusable high p)

abbrev pub is_released_reset : Physical → Bool
is_released_reset r = elim (r.work) [ reset_released ↦ true | _ ↦ false ]

unfoldable pub after_reset : ℕ → Settled → Pool → Pool
after_reset id s p =
    if is_fulfilled s
    then (if is_open p.state then return_ready id p else destroy id p)
    else destroy id (count_reset_failure s (count_timeout s p))

-- The rest of `release`, when its reset has ended.
unfoldable pub release_reset_settled : ℕ → Settled → Pool → Pool
release_reset_settled id s p = elim (find id p.records) [
  | none ↦ p
  | some r ↦ if is_released_reset r then after_reset id s p else p
]

abbrev pub is_destroying : Physical → Bool
is_destroying r = elim (r.work) [ destroy_work ↦ true | _ ↦ false ]

abbrev pub count_destroy_failure : Pool → Pool
count_destroy_failure p = record p {
  counters = record (p.counters) { destroy_failures = suc p.counters.destroy_failures };
}

abbrev pub mark_destroy_failed : Settled → Physical → Physical
mark_destroy_failed s r = record r {
  destroy_failed = true;
  work = if is_timed_out s then destroy_work else no_work;
}

-- The failure of `#destroy`. After a timeout the factory may still answer.
unfoldable pub destroy_fails : ℕ → Settled → Pool → Pool
destroy_fails id s p = check_closed (
    request_pump (
      fail_close
        (on_record id (mark_destroy_failed s) (count_destroy_failure (count_timeout s p)))))

-- `finish` of `#destroy`.
unfoldable pub finish_destroy : ℕ → Pool → Pool
finish_destroy id p = check_closed (request_pump (record p { records = remove id p.records }))

-- The end of `#destroy`; a rejection after the timeout changes nothing.
unfoldable pub destroy_settled : ℕ → Settled → Pool → Pool
destroy_settled id s p = elim (find id p.records) [
  | none ↦ p
  | some r ↦
      if not (is_destroying r)
      then p
      else if is_fulfilled s
      then finish_destroy id p
      else if r.destroy_failed
      then p
      else destroy_fails id s p
]
