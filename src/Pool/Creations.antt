-- ===== src/Pool/Creations.antt =====
-- What happens when the factory answers a creation.
use open_rfc.Pool.Table.{any_of, is_open}
use open_rfc.Common.{
  ◌==◌, if◌then◌else◌, ℕ, suc, Bool, true, false, ◌&&◌, not, Option, none, some, List, [], ◌∷◌,
  ◌++◌,
}
use open_rfc.Pool.Waiters.{request_pump, reject_waiter}
use open_rfc.Pool.Resources.{check_closed, destroy, return_to_pool, fail_close}
use open_rfc.Pool.{
  Pool, Physical, Creation, PoolError, failure, invalid_type, lifecycle_timeout, idle, no_work,
  Counters,
}

-- What the factory answers: a resource by its identity, a value that is no object, or an error.
pub data Made : Type 0 where
  made : ℕ → Made
  not_object threw : Made

abbrev pub find_creation : ℕ → List Creation → Option Creation
find_creation id [] = none
find_creation id (c ∷ cs) = if c.id == id then some c else find_creation id cs

-- `#creating.delete`
abbrev pub remove_creation : ℕ → List Creation → List Creation
remove_creation id [] = []
remove_creation id (c ∷ cs) = if c.id == id then cs else c ∷ remove_creation id cs

abbrev pub count_creation_abort : Counters → Counters
count_creation_abort c = record c { creation_aborts = suc c.creation_aborts }

abbrev pub count_creation_failure : Counters → Counters
count_creation_failure c = record c { creation_failures = suc c.creation_failures }

-- The waiter that owns a creation is rejected, if it still waits.
abbrev pub reject_owner : Option ℕ → PoolError → Pool → Pool
reject_owner none error p = p
reject_owner (some id) error p = reject_waiter id error p

-- `#creationFailedAfterRemoval`
unfoldable pub creation_failed_after_removal : Creation → PoolError → Pool → Pool
creation_failed_after_removal c error p =
    let counted = record p {
      counters =
          (if c.aborted
            then count_creation_abort p.counters
            else count_creation_failure p.counters);
      low_water_blocked = true;
    } in
    check_closed (request_pump (reject_owner c.owner error counted))

-- The same, or nothing but the bookkeeping where the failure is late.
unfoldable pub creation_refused : Creation → PoolError → Pool → Pool
creation_refused c error p =
    if c.expired then check_closed (request_pump p) else creation_failed_after_removal c error p

abbrev pub mark_expired : ℕ → List Creation → List Creation
mark_expired id [] = []
mark_expired id (d ∷ ds) =
    (if d.id == id then record d { expired = true; aborted = true } else d) ∷ mark_expired id ds

-- The counts of an expiry, and its marks.
unfoldable pub expire_creation : Creation → Pool → Pool
expire_creation c p =
    let counters = record (p.counters) { lifecycle_timeouts = suc p.counters.lifecycle_timeouts } in
    record p {
      counters =
          (if c.abort_requested
            then count_creation_abort counters
            else count_creation_failure counters);
      creating = mark_expired c.id p.creating;
      low_water_blocked = true;
    }

-- `#creationExpired`, with the expiry of its lifecycle, which aborts the signal.
unfoldable pub creation_expired : Creation → Pool → Pool
creation_expired c p =
    if c.expired
    then p
    else check_closed
        (request_pump (fail_close (reject_owner c.owner lifecycle_timeout (expire_creation c p))))

abbrev pub owns_resource : ℕ → List Physical → Bool
owns_resource resource rs = any_of (λ (r : Physical). r.resource == resource) rs

-- The record of a new resource.
abbrev pub add_physical : ℕ → Pool → Pool
add_physical resource p = record p {
  records =
      p.records
      ++ (record {
        id = p.next_physical_id;
        resource = resource;
        state = idle;
        work = no_work;
        recycle_idle_high = none;
        destroy_failed = false;
      }
          ∷ []);
  next_physical_id = suc p.next_physical_id;
}

-- An aborted creation that is answered in time is counted.
abbrev pub count_aborted : Creation → Pool → Pool
count_aborted c p =
    if c.aborted && not c.expired
    then record p { counters = count_creation_abort p.counters }
    else p

-- The connection of an aborted creation is destroyed, and any other goes to the pool.
unfoldable pub place : Creation → ℕ → Pool → Pool
place c id p =
    if c.aborted
    then destroy id p
    else (let unblocked = record p { low_water_blocked = false } in
        if is_open p.state then return_to_pool id unblocked else destroy id unblocked)

-- `#creationSucceeded` for a new object, from the abort test on.
unfoldable pub adopt : Creation → ℕ → Pool → Pool
adopt c resource p =
    check_closed
      (request_pump (place c p.next_physical_id (add_physical resource (count_aborted c p))))

-- `#creationSucceeded` and `#creationFailed` after the creation is taken off the map.
unfoldable pub creation_answered : Made → Creation → Pool → Pool
creation_answered (made resource) c p =
    if owns_resource resource p.records then creation_refused c failure p else adopt c resource p
creation_answered not_object c p = creation_refused c invalid_type p
creation_answered threw c p = creation_refused c failure p

-- `#creationSucceeded` and `#creationFailed`: the factory has answered, in time or late.
unfoldable pub creation_settled : ℕ → Made → Pool → Pool
creation_settled id answer p = elim (find_creation id p.creating) [
  | none ↦ p
  | some c ↦ creation_answered answer c (record p { creating = remove_creation id p.creating })
]

-- A creation that has not been answered in time.
unfoldable pub creation_timed_out : ℕ → Pool → Pool
creation_timed_out id p = elim (find_creation id p.creating) [
  | none ↦ p
  | some c ↦ creation_expired c p
]
