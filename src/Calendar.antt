-- ===== src/Calendar.antt =====
-- The calendar queue of src/hwfq_group_calendar.c: bins of sessions sorted by finish time, with a
-- bit field of the bins in use and one of the bit field's words in use.
pub mod Search
pub mod Remove
pub mod Index
pub mod Bins
pub mod Valid
pub mod Sweep
pub mod Least
pub mod Start
pub mod Fields
pub mod Same
pub mod Clear
pub mod Contents
pub mod Insert
pub mod Unlink
pub mod Progress
pub mod Wf2q
pub mod Empty
pub mod Reach
mod Tests
use hwfq_scheduler.Base.{
  ℕ, zero, suc, ◌+◌, ◌-◌, ◌*◌, ◌/◌, ◌%◌, ◌^◌, Bool, true, false, not, ◌&&◌, Option, none, some,
  List, [], ◌∷◌, ltb, leb, ◌==◌, if◌then◌else◌, get_or, set,
}
use hwfq_scheduler.Types.{u64_max, Status, success, internal, Session}
use hwfq_scheduler.Word.{bit, each_bit}
use hwfq_scheduler.Word.Field.{set_at, clear_at, test_at}

-- The operations on a bit field of 32-bit words.
abbrev pub set_bin_bit : List ℕ → ℕ → List ℕ
set_bin_bit = set_at 32

abbrev pub clear_bin_bit : List ℕ → ℕ → List ℕ
clear_bin_bit = clear_at 32

abbrev pub test_bin_bit : List ℕ → ℕ → Bool
test_bin_bit = test_at 32

-- The fields of `group_scheduler_t` that the calendar reads and writes. `min_session` is the
-- address of a session.
pub record Calendar : Type 0 where
  pub bin_bitfield : List ℕ
  pub bin_heads : List (List Session)
  pub group_bitfield : List ℕ
  pub bins_per_group : ℕ
  pub num_bins : ℕ
  pub bin_bitfield_size : ℕ
  pub base_interval : ℕ
  pub virtual_time : ℕ
  pub active_session_count : ℕ
  pub min_finish_time : ℕ
  pub min_start_time : ℕ
  pub min_session : Option ℕ

-- `__builtin_clz` on a word of the given width: the zeros above the highest set digit.
unfoldable pub clz : ℕ → ℕ → ℕ
clz zero w = 0
clz (suc n) w = if bit w n then 0 else suc (clz n w)

unfoldable pub calculate_group_index_from_interval : ℕ → ℕ → ℕ
calculate_group_index_from_interval service_interval base_interval =
    if base_interval == 0
    then 0
    else if leb service_interval base_interval
    then 0
    else let ratio = service_interval / base_interval in
      let group = 63 - clz 64 ratio in if ltb 15 group then 15 else group

unfoldable pub calculate_bin_index_from_finish_time : ℕ → ℕ → ℕ → ℕ → ℕ
calculate_bin_index_from_finish_time finish_time group_index bins_per_group base_interval =
    if bins_per_group == 0
    then 0
    else if base_interval == 0
    then 0
    else let group_interval_range = base_interval * 2 ^ (group_index + 1) % 2 ^ 64 in
      let size = group_interval_range / bins_per_group in
      let bin_size = (if size == 0 then 1 else size) in
      let offset_in_group = finish_time % group_interval_range in
      let bin = offset_in_group / bin_size % 2 ^ 32 in
      if leb bins_per_group bin then bins_per_group - 1 else bin

-- `session_less`: by finish time, then by start time.
unfoldable pub session_less : Session → Session → Bool
session_less a b =
    if a.finish_time == b.finish_time
    then ltb a.start_time b.start_time
    else ltb a.finish_time b.finish_time

-- The list of one bin after `bin_list_insert`: the walk stops at the first session that is not
-- less than the new one.
unfoldable pub insert_sorted : Session → List Session → List Session
insert_sorted s [] = s ∷ []
insert_sorted s (current ∷ rest) =
    if session_less current s then current ∷ insert_sorted s rest else s ∷ current ∷ rest

unfoldable pub bin_list_insert : List (List Session) → ℕ → Session → List (List Session)
bin_list_insert heads bin_index s =
    set heads bin_index (insert_sorted s (get_or heads bin_index []))

-- The list of one bin without the session at the address.
unfoldable pub unlink : ℕ → List Session → List Session
unlink a [] = []
unlink a (x ∷ xs) = if x.address == a then xs else x ∷ unlink a xs

unfoldable pub bin_list_remove : List (List Session) → ℕ → Session → List (List Session)
bin_list_remove heads bin_index s =
    set heads bin_index (unlink s.address (get_or heads bin_index []))

abbrev pub is_nil : List Session → Bool
is_nil [] = true
is_nil (x ∷ xs) = false

unfoldable pub bin_list_is_empty : List (List Session) → ℕ → Bool
bin_list_is_empty heads bin_index = is_nil (get_or heads bin_index [])

-- `calendar_insert_session`, with the new session's `bin_index` set.
unfoldable pub insert_session : Calendar → Session → Status × Calendar
insert_session c s =
    let bin_offset =
      calculate_bin_index_from_finish_time s.finish_time s.group_index c.bins_per_group
        c.base_interval in
    let bin_index = (s.group_index * c.bins_per_group + bin_offset) % 2 ^ 32 in
    if leb c.num_bins bin_index then (internal, c) else (
      success,
      record c {
        bin_heads = bin_list_insert c.bin_heads bin_index (record s { bin_index = bin_index });
        bin_bitfield = set_bin_bit c.bin_bitfield bin_index;
        group_bitfield =
            (if ltb (bin_index / 32 / 32) 32
              then set_bin_bit c.group_bitfield (bin_index / 32)
              else c.group_bitfield);
        min_finish_time =
            (if ltb s.finish_time c.min_finish_time then s.finish_time else c.min_finish_time);
        min_session =
            (if ltb s.finish_time c.min_finish_time then some s.address else c.min_session);
        min_start_time =
            (if ltb s.start_time c.min_start_time then s.start_time else c.min_start_time);
      },
    )
