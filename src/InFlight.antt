-- ===== src/InFlight.antt =====
-- The work in flight of src/hwfq_scheduler.c: entries in a hash table by the caller's pointer and in
-- a list in the order of their dequeuing.
pub mod Lists
pub mod Table
use hwfq_scheduler.Base.{
  ℕ, ◌+◌, ◌-◌, ◌*◌, ◌%◌, ◌^◌, Bool, false, ◌&&◌, Option, none, some, List, [], ◌∷◌, ◌++◌, ltb, leb,
  ◌==◌, if◌then◌else◌, get_or, set,
}

-- `in_flight_entry_t`. `address` is where it is allocated; the links of the table and of the list are
-- the lists themselves. `user_data` is the caller's pointer, 0 for NULL.
pub record InFlightEntry : Type 0 where
  pub address : ℕ
  pub tenant_id : ℕ
  pub flow_id : ℕ
  pub work_size : ℕ
  pub dequeue_time_ns : ℕ
  pub timeout_ns : ℕ
  pub user_data : ℕ

-- `in_flight_hash`, and the list from `in_flight_head` to `in_flight_tail`.
pub record InFlight : Type 0 where
  pub hash : List (List InFlightEntry)
  pub entries : List InFlightEntry

-- `HWFQ_IN_FLIGHT_HASH_BUCKETS`
abbrev pub hash_buckets : ℕ
hash_buckets = 1024

-- A pointer times Knuth's constant in 64 bits, and of that the low bits.
unfoldable pub hash_user_data : ℕ → ℕ
hash_user_data user_data = user_data * 2654435761 % 2 ^ 64 % hash_buckets

unfoldable pub in_flight_insert : InFlight → InFlightEntry → InFlight
in_flight_insert t e =
    let bucket = hash_user_data e.user_data in
    record { hash = set t.hash bucket (e ∷ get_or t.hash bucket []); entries = t.entries ++ e ∷ [] }

-- The list without the entry at the address.
unfoldable pub erase : ℕ → List InFlightEntry → List InFlightEntry
erase a [] = []
erase a (e ∷ rest) = if e.address == a then rest else e ∷ erase a rest

unfoldable pub in_flight_remove : InFlight → InFlightEntry → InFlight
in_flight_remove t e =
    let bucket = hash_user_data e.user_data in
    record {
      hash = set t.hash bucket (erase e.address (get_or t.hash bucket []));
      entries = erase e.address t.entries;
    }

-- The first entry of a chain that passes the test.
unfoldable pub find_by : (InFlightEntry → Bool) → List InFlightEntry → Option InFlightEntry
find_by test [] = none
find_by test (e ∷ rest) = if test e then some e else find_by test rest

abbrev pub is_of : (tenant_id flow_id : ℕ) → InFlightEntry → Bool
is_of tenant_id flow_id e = (e.tenant_id == tenant_id) && (e.flow_id == flow_id)

abbrev pub is_session : (user_data tenant_id flow_id : ℕ) → InFlightEntry → Bool
is_session user_data tenant_id flow_id e = (e.user_data == user_data) && is_of tenant_id flow_id e

unfoldable pub in_flight_find : InFlight → (user_data tenant_id flow_id : ℕ) → Option InFlightEntry
in_flight_find t user_data tenant_id flow_id =
    find_by (is_session user_data tenant_id flow_id) (get_or t.hash (hash_user_data user_data) [])

-- What `hwfq_complete` and `hwfq_cancel` look for: with no pointer, the oldest entry of the flow.
unfoldable pub find_session : InFlight → (user_data tenant_id flow_id : ℕ) → Option InFlightEntry
find_session t user_data tenant_id flow_id =
    if user_data == 0
    then find_by (is_of tenant_id flow_id) t.entries
    else in_flight_find t user_data tenant_id flow_id
