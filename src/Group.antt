-- ===== src/Group.antt =====
-- The single-level scheduler of src/hwfq_group_scheduler.c: its state, the rates and the list of
-- configured entries. A scheduler holds the lock of `group_scheduler_t` throughout a call, so each
-- function is one step. The pool of entries belongs to the owner, who reaches it through the field.
pub mod Queue
pub mod Time
pub mod Init
pub mod Enqueue
pub mod Ready
pub mod Dequeue
pub mod Rebase
pub mod Walk
pub mod Shift
pub mod Choice
pub mod Advance
pub mod Clock
pub mod Destroy
pub mod Configure
pub mod Sample
mod Tests
mod RebaseTests
mod ConfigureTests
use hwfq_scheduler.Base.{
  ℕ, zero, suc, ◌+◌, ◌-◌, ◌*◌, ◌/◌, ◌%◌, ◌^◌, Bool, true, false, Option, none, some, List, [], ◌∷◌,
  ltb, leb, ◌==◌, if◌then◌else◌, replicate,
}
use hwfq_scheduler.Types.{
  u64_max, Status, success, invalid_arg, not_found, overbooked, Allocation, weight, rate, Entry,
  Session,
}
use hwfq_scheduler.Calendar.{Calendar}
use hwfq_scheduler.Chunked.{ChunkedEntries, get, put}

-- `group_scheduler_t`; the calendar's fields stand together. `configured_entries` holds the ids of
-- the list that starts at `configured_entries_head`.
pub record GroupScheduler : Type 0 where
  pub calendar : Calendar
  pub entries : ChunkedEntries
  pub max_entries : ℕ
  pub configured_entries : List ℕ
  pub allocated_rate_capacity : ℕ
  pub total_weight : ℕ
  pub num_groups : ℕ
  pub total_capacity : ℕ

-- `uint64_t` and `uint32_t` addition and subtraction.
abbrev pub add64 : ℕ → ℕ → ℕ
add64 a b = (a + b) % 2 ^ 64

abbrev pub sub64 : ℕ → ℕ → ℕ
sub64 a b = (a + 2 ^ 64 - b) % 2 ^ 64

abbrev pub add32 : ℕ → ℕ → ℕ
add32 a b = (a + b) % 2 ^ 32

abbrev pub sub32 : ℕ → ℕ → ℕ
sub32 a b = (a + 2 ^ 32 - b) % 2 ^ 32

-- Half of the rate, and at least 1 (`HWFQ_RATE_MARGIN_SHIFT`).
unfoldable pub with_margin : ℕ → ℕ
with_margin r = if r / 2 == 0 then 1 else r / 2

unfoldable pub effective_rate_of : GroupScheduler → Allocation → ℕ
effective_rate_of g (rate r) = with_margin r
effective_rate_of g (weight w) =
    if g.total_weight == 0
    then 0
    else with_margin
        (w * sub64 g.total_capacity g.allocated_rate_capacity % 2 ^ 64 / g.total_weight)

unfoldable pub calculate_effective_rate : GroupScheduler → Entry → ℕ
calculate_effective_rate g e = effective_rate_of g e.allocation

unfoldable pub recalculated : GroupScheduler → Allocation → Entry → Entry
recalculated g (rate r) e = e
recalculated g (weight w) e = record e { calculated_rate = calculate_effective_rate g e }

unfoldable pub recalculate_at : GroupScheduler → ℕ → Option Entry → ChunkedEntries → ChunkedEntries
recalculate_at g i none ce = ce
recalculate_at g i (some e) ce = put ce i (recalculated g e.allocation e)

-- The walk of `recalculate_weight_based_rates` along the configured entries.
unfoldable pub recalculate_list : GroupScheduler → List ℕ → ChunkedEntries → ChunkedEntries
recalculate_list g [] ce = ce
recalculate_list g (i ∷ rest) ce = recalculate_list g rest (recalculate_at g i (get ce i) ce)

unfoldable pub recalculate_weight_based_rates : GroupScheduler → GroupScheduler
recalculate_weight_based_rates g = record g {
  entries = recalculate_list g g.configured_entries g.entries;
}

-- `group_scheduler_init_with_entries`. `mem i` says whether the i-th allocation succeeds.
unfoldable pub init_with_entries :
    (ℕ → Bool)
    → (num_groups bins_per_group total_capacity max_entries : ℕ) → ChunkedEntries
    → Option GroupScheduler
init_with_entries mem num_groups bins_per_group total_capacity max_entries entries =
    if num_groups == 0
    then none
    else if bins_per_group == 0
    then none
    else if max_entries == 0
    then none
    else if mem 0
    then if mem 1 then if mem 2 then some fresh else none else none
    else none
  where
    num_bins : ℕ
    num_bins = num_groups * bins_per_group % 2 ^ 32

    words : ℕ
    words = (num_bins + 31) % 2 ^ 32 / 32

    fresh : GroupScheduler
    fresh = record {
      calendar = record {
        bin_bitfield = replicate words 0;
        bin_heads = replicate num_bins [];
        group_bitfield = replicate 32 0;
        bins_per_group = bins_per_group;
        num_bins = num_bins;
        bin_bitfield_size = words;
        base_interval = 1;
        virtual_time = 0;
        active_session_count = 0;
        min_finish_time = u64_max;
        min_start_time = u64_max;
        min_session = none;
      };
      entries = entries;
      max_entries = max_entries;
      configured_entries = [];
      allocated_rate_capacity = 0;
      total_weight = 0;
      num_groups = num_groups;
      total_capacity = total_capacity;
    }

abbrev pub if_configured : Option Entry → Option Entry
if_configured none = none
if_configured (some e) = if e.configured then some e else none

-- `group_scheduler_find_entry`
unfoldable pub find_entry : GroupScheduler → ℕ → Option Entry
find_entry g entry_id = if_configured (get g.entries entry_id)

-- The allocation is taken out of the totals, or put back.
unfoldable pub retract : GroupScheduler → Allocation → GroupScheduler
retract g (rate r) = record g { allocated_rate_capacity = sub64 g.allocated_rate_capacity r }
retract g (weight w) = record g { total_weight = sub32 g.total_weight w }

unfoldable pub restore : GroupScheduler → Allocation → GroupScheduler
restore g (rate r) = record g { allocated_rate_capacity = add64 g.allocated_rate_capacity r }
restore g (weight w) = record g { total_weight = add32 g.total_weight w }

abbrev pub is_zero : Allocation → Bool
is_zero (rate r) = r == 0
is_zero (weight w) = w == 0

abbrev pub first_rate : Allocation → ℕ
first_rate (rate r) = r
first_rate (weight w) = 0

-- The end of `group_scheduler_configure_entry`: the entry is written and linked.
unfoldable pub link_entry : GroupScheduler → ℕ → Allocation → Entry → GroupScheduler
link_entry g entry_id a e = recalculate_weight_based_rates (record g {
  entries = put g.entries entry_id (record e {
    entry_id = entry_id;
    allocation = a;
    calculated_rate = first_rate a;
    last_finish_time = 0;
    configured = true;
  });
  configured_entries =
      (if e.configured then g.configured_entries else entry_id ∷ g.configured_entries);
})

-- `before` has the totals without the entry's old allocation.
unfoldable pub reserve : GroupScheduler → ℕ → Allocation → Entry → Status × GroupScheduler
reserve before entry_id (rate r) e =
    if ltb before.total_capacity (add64 before.allocated_rate_capacity r)
    then (overbooked, (if e.configured then restore before e.allocation else before))
    else (
      success,
      link_entry
          (record before { allocated_rate_capacity = add64 before.allocated_rate_capacity r })
          entry_id (rate r) e,
    )
reserve before entry_id (weight w) e = (
  success,
  link_entry (record before { total_weight = add32 before.total_weight w }) entry_id (weight w) e,
)

unfoldable pub configure_at :
    GroupScheduler → ℕ → Allocation → Option Entry → Status × GroupScheduler
configure_at g entry_id a none = (not_found, g)
configure_at g entry_id a (some e) =
    reserve (if e.configured then retract g e.allocation else g) entry_id a e

-- `group_scheduler_configure_entry`
unfoldable pub configure_entry : GroupScheduler → ℕ → Allocation → Status × GroupScheduler
configure_entry g entry_id a =
    if leb g.max_entries entry_id
    then (invalid_arg, g)
    else if is_zero a
    then (invalid_arg, g)
    else configure_at g entry_id a (get g.entries entry_id)

-- The list without the first occurrence of the id.
unfoldable pub unlink_entry : ℕ → List ℕ → List ℕ
unlink_entry i [] = []
unlink_entry i (j ∷ rest) = if j == i then rest else j ∷ unlink_entry i rest

unfoldable pub remove_at : GroupScheduler → ℕ → Option Entry → Status × GroupScheduler
remove_at g entry_id none = (not_found, g)
remove_at g entry_id (some e) =
    let retracted = retract g e.allocation in
    (
      success,
      recalculate_weight_based_rates (record retracted {
        entries = put g.entries entry_id (record e { configured = false });
        configured_entries = unlink_entry entry_id g.configured_entries;
      }),
    )

-- `group_scheduler_remove_entry`
unfoldable pub remove_entry : GroupScheduler → ℕ → Status × GroupScheduler
remove_entry g entry_id =
    if leb g.max_entries entry_id
    then (invalid_arg, g)
    else remove_at g entry_id (find_entry g entry_id)

abbrev pub session_rate_of : GroupScheduler → Entry → Allocation → ℕ
session_rate_of g e (rate r) = e.calculated_rate
session_rate_of g e (weight w) = calculate_effective_rate g e

-- The rate that the sessions of the entry are served at.
abbrev pub session_rate : GroupScheduler → Entry → ℕ
session_rate g e = session_rate_of g e e.allocation

-- `group_scheduler_get_entry_rate`
unfoldable pub get_entry_rate : GroupScheduler → ℕ → Status × ℕ
get_entry_rate g entry_id =
    if leb g.max_entries entry_id then (invalid_arg, 0) else elim (find_entry g entry_id) [
      | none ↦ (not_found, 0)
      | some e ↦ (success, session_rate g e)
    ]
