-- ===== src/Pool/Dispatch.antt =====
-- The pump: idle connections are validated and leased to the head of the queue.
use open_rfc.SapRouter.Route.{is_some}
use open_rfc.Common.{
  length, take, drop, ltb, ◌==◌, if◌then◌else◌, ℕ, zero, suc, Bool, true, false, ◌&&◌, ◌||◌, not,
  Option, none, some, List, [], ◌∷◌,
}
use open_rfc.Pool.Table.{includes, is_open, on_record, enter}
use open_rfc.Pool.Waiters.{find_waiter, answer, request_pump, reject_waiter, cleanup_waiter}
use open_rfc.Pool.Resources.{
  ensure_waiter_capacity, trim_idle_high, ensure_low_water, is_empty, destroy_all, return_all,
  check_closed,
}
use open_rfc.Pool.Acquire.{read_clock}
use open_rfc.Pool.Leases.{
  fulfilled, rejected_by_factory, timed_out, count_timeout, Settled, lease_all,
}
use open_rfc.Pool.{
  Pool, Waiter, Flight, Outcome, healthy, unhealthy, expired_validation, failure, acquire_timeout,
  lifecycle_timeout, validating, validate_work, granted,
}

-- The end of `#dispatch`, with its `finally`.
unfoldable pub end_dispatch : Pool → Pool
end_dispatch p =
    let q = record p { dispatching = false } in if q.pump_requested then request_pump q else q

abbrev pub validate_all : List ℕ → Pool → Pool
validate_all [] p = p
validate_all (id ∷ ids) p = validate_all ids (on_record id (enter validating validate_work) p)

-- The idle connections that a waiter asks for start to be validated; the dispatch awaits them.
unfoldable pub check_out : Waiter → Pool → Pool
check_out w p =
    let candidates = take w.count p.idle_ids in
    validate_all candidates (record p {
      idle_ids = drop w.count p.idle_ids;
      flight =
          some (record { waiter = w.id; count = w.count; candidates = candidates; outcomes = [] });
    })

-- The loop of `#dispatch` up to the await. `#waiterCannotDispatch` reads the clock, and rejects a head
-- whose deadline has passed; each such round takes one waiter off the queue.
unfoldable pub dispatch_loop : ℕ → Option ℕ → Pool → Pool
dispatch_loop zero reading p = end_dispatch p
dispatch_loop (suc fuel) reading p = elim (is_open p.state) [
  | false ↦ end_dispatch p
  | true ↦ elim (p.waiters) [
    | [] ↦ end_dispatch (ensure_low_water (trim_idle_high p))
    | w ∷ ws ↦ elim (read_clock reading p) [
      | none ↦ dispatch_loop fuel reading (reject_waiter w.id failure p)
      | some read ↦ elim (ltb read.last_clock w.deadline) [
        | false ↦ dispatch_loop fuel reading (reject_waiter w.id acquire_timeout read)
        | true ↦
            if ltb (length read.idle_ids) w.count
            then end_dispatch (ensure_waiter_capacity w read)
            else check_out w read
      ]
    ]
  ]
]

abbrev pub dispatch : Option ℕ → Pool → Pool
dispatch reading p = dispatch_loop (suc (length p.waiters)) reading p

-- The microtask of `#requestPump`.
unfoldable pub pump : Option ℕ → Pool → Pool
pump reading p =
    if not p.pump_scheduled
    then p
    else (let q = record p { pump_scheduled = false } in
        if not (is_open q.state) || q.dispatching
        then q
        else dispatch reading (record q { dispatching = true; pump_requested = false }))

-- The outcome that `#validate` gives: without validation every connection is healthy.
abbrev pub outcome_of : Settled → Bool → Outcome
outcome_of fulfilled verdict = if verdict then healthy else unhealthy
outcome_of rejected_by_factory verdict = unhealthy
outcome_of timed_out verdict = expired_validation

abbrev pub is_healthy : Outcome → Bool
is_healthy healthy = true
is_healthy unhealthy = false
is_healthy expired_validation = false

abbrev pub is_expired : Outcome → Bool
is_expired healthy = false
is_expired unhealthy = false
is_expired expired_validation = true

abbrev pub outcome_at : ℕ → List (ℕ × Outcome) → Option Outcome
outcome_at id [] = none
outcome_at id (o ∷ os) = if o.0 == id then some (o.1) else outcome_at id os

abbrev pub count_health_failure : Outcome → Pool → Pool
count_health_failure o p = if is_healthy o then p else record p {
  counters = record (p.counters) { health_failures = suc p.counters.health_failures };
}

-- The counts of a validation that has ended.
unfoldable pub count_validation : Settled → Outcome → Pool → Pool
count_validation s o p =
    count_health_failure o (if p.config.validate_on_checkout then count_timeout s p else p)

unfoldable pub settle_validation : Option Flight → ℕ → Settled → Bool → Pool → Pool
settle_validation none id s verdict p = p
settle_validation (some f) id s verdict p =
    if not (includes id f.candidates) || is_some (outcome_at id f.outcomes)
    then p
    else (let o = (if p.config.validate_on_checkout then outcome_of s verdict else healthy) in
        record (count_validation s o p) {
          flight = some (record f { outcomes = (id, o) ∷ f.outcomes });
        })

-- One of the awaited validations has ended.
unfoldable pub validation_settled : ℕ → Settled → Bool → Pool → Pool
validation_settled id s verdict p = settle_validation p.flight id s verdict p

abbrev pub all_settled : List ℕ → List (ℕ × Outcome) → Bool
all_settled [] os = true
all_settled (id ∷ ids) os = is_some (outcome_at id os) && all_settled ids os

abbrev pub select : (Outcome → Bool) → List (ℕ × Outcome) → List ℕ → List ℕ
select test os [] = []
select test os (id ∷ ids) = elim (outcome_at id os) [
  | none ↦ select test os ids
  | some o ↦ if test o then id ∷ select test os ids else select test os ids
]

abbrev pub is_unhealthy : Outcome → Bool
is_unhealthy o = not (is_healthy o)

abbrev pub is_head : ℕ → List Waiter → Bool
is_head id [] = false
is_head id (w ∷ ws) = w.id == id

-- The healthy connections go back, and the loop goes on.
unfoldable pub give_back : List ℕ → Option ℕ → Pool → Pool
give_back healthy_ids reading p = dispatch reading (check_closed (return_all healthy_ids p))

-- The grant at the end of a round.
unfoldable pub grant : Flight → List ℕ → Pool → Pool
grant f healthy_ids p =
    let leased_pool = lease_all healthy_ids (cleanup_waiter f.waiter p) in
    answer f.waiter (granted healthy_ids) leased_pool

-- The rest of a round whose connections are all healthy and whose waiter is still the head.
unfoldable pub commit_flight : Flight → List ℕ → Option ℕ → Pool → Pool
commit_flight f healthy_ids reading p = elim (read_clock reading p) [
  | none ↦ give_back healthy_ids reading (reject_waiter f.waiter failure p)
  | some read ↦ elim (find_waiter f.waiter read.waiters) [
    | none ↦ give_back healthy_ids reading read
    | some w ↦
        if not (ltb read.last_clock w.deadline)
        then give_back healthy_ids reading (reject_waiter f.waiter acquire_timeout read)
        else if not (length healthy_ids == f.count)
        then give_back healthy_ids reading read
        else dispatch reading (grant f healthy_ids read)
  ]
]

-- The rest of a round of `#dispatch`, when every validation has ended.
unfoldable pub resume_flight : Flight → Option ℕ → Pool → Pool
resume_flight f reading p =
    let healthy_ids = select is_healthy f.outcomes f.candidates in
    let cleared =
      destroy_all (select is_unhealthy f.outcomes f.candidates) (record p { flight = none }) in
    if not (is_empty (select is_expired f.outcomes f.candidates))
    then dispatch reading
        (reject_waiter f.waiter lifecycle_timeout (return_all healthy_ids cleared))
    else if not (is_open cleared.state && is_head f.waiter cleared.waiters)
    then give_back healthy_ids reading cleared
    else commit_flight f healthy_ids reading cleared

unfoldable pub resume_from : Option Flight → Option ℕ → Pool → Pool
resume_from none reading p = p
resume_from (some f) reading p =
    if all_settled f.candidates f.outcomes then resume_flight f reading p else p

unfoldable pub resume : Option ℕ → Pool → Pool
resume reading p = resume_from p.flight reading p
