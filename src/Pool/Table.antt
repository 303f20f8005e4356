-- ===== src/Pool/Table.antt =====
-- The collections of the pool: the records by id, the idle list, and the test on states.
use open_rfc.Common.{
  ◌==◌, if◌then◌else◌, ℕ, suc, Bool, true, false, ◌||◌, Option, none, some, List, [], ◌∷◌,
}
use open_rfc.Pool.{
  Physical, PhysicalState, resetting, closing, RuntimeState, opened, retiring, shutting, closed,
  Pool, Work,
}

abbrev pub is_open : RuntimeState → Bool
is_open opened = true
is_open retiring = false
is_open shutting = false
is_open closed = false

-- The record with an id, if it is in `#records`.
abbrev pub find : ℕ → List Physical → Option Physical
find id [] = none
find id (r ∷ rs) = if r.id == id then some r else find id rs

abbrev pub update : ℕ → (Physical → Physical) → List Physical → List Physical
update id f [] = []
update id f (r ∷ rs) = (if r.id == id then f r else r) ∷ update id f rs

-- `#records.delete`
abbrev pub remove : ℕ → List Physical → List Physical
remove id [] = []
remove id (r ∷ rs) = if r.id == id then rs else r ∷ remove id rs

-- `#idle.includes`
abbrev pub includes : ℕ → List ℕ → Bool
includes id [] = false
includes id (x ∷ xs) = (x == id) || includes id xs

-- `#idle.splice(indexOf(id), 1)`
abbrev pub remove_id : ℕ → List ℕ → List ℕ
remove_id id [] = []
remove_id id (x ∷ xs) = if x == id then xs else x ∷ remove_id id xs

abbrev pub is_closing : Physical → Bool
is_closing r = elim (r.state) [ closing ↦ true | _ ↦ false ]

abbrev pub is_resetting : Physical → Bool
is_resetting r = elim (r.state) [ resetting ↦ true | _ ↦ false ]

abbrev pub count_of {ℓ} : {A : Type ℓ} → (A → Bool) → List A → ℕ
count_of test [] = 0
count_of test (x ∷ xs) = if test x then suc (count_of test xs) else count_of test xs

abbrev pub any_of {ℓ} : {A : Type ℓ} → (A → Bool) → List A → Bool
any_of test [] = false
any_of test (x ∷ xs) = test x || any_of test xs

-- The record in the state and with the work given.
abbrev pub enter : PhysicalState → Work → Physical → Physical
enter s w r = record r { state = s; work = w }

abbrev pub set_recycle : Option ℕ → Physical → Physical
set_recycle high r = record r { recycle_idle_high = high }

abbrev pub on_record : ℕ → (Physical → Physical) → Pool → Pool
on_record id f p = record p { records = update id f p.records }
