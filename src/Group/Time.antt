-- ===== src/Group/Time.antt =====
-- `group_scheduler_update_virtual_time` and `group_scheduler_rebase_if_needed` of
-- src/hwfq_group_scheduler.c.
use hwfq_scheduler.Base.{
  ℕ, ◌+◌, ◌-◌, ◌*◌, ◌/◌, ◌%◌, ◌^◌, Option, none, some, List, [], ◌∷◌, map, ltb, leb, ◌==◌,
  if◌then◌else◌,
}
use hwfq_scheduler.Types.{u64_max, Entry, Session}
use hwfq_scheduler.Calendar.{Calendar}
use hwfq_scheduler.Chunked.{ChunkedEntries, get, put}
use hwfq_scheduler.Group.{GroupScheduler}

abbrev pub rebase_threshold : ℕ
rebase_threshold = u64_max / 2

-- `(t >= offset) ? t - offset : 0`
unfoldable pub shift_down : ℕ → ℕ → ℕ
shift_down offset t = if leb offset t then t - offset else 0

-- The same, but the sentinel stays.
unfoldable pub shift_cached : ℕ → ℕ → ℕ
shift_cached offset t = if t == u64_max then t else shift_down offset t

unfoldable pub shift_session : ℕ → Session → Session
shift_session offset s = record s {
  start_time = shift_down offset s.start_time;
  finish_time = shift_down offset s.finish_time;
}

unfoldable pub rebase_calendar : ℕ → Calendar → Calendar
rebase_calendar offset c = record c {
  virtual_time = c.virtual_time - offset;
  min_start_time = shift_cached offset c.min_start_time;
  min_finish_time = shift_cached offset c.min_finish_time;
  bin_heads = map (map (shift_session offset)) c.bin_heads;
}

unfoldable pub rebase_entry : ℕ → ℕ → Option Entry → ChunkedEntries → ChunkedEntries
rebase_entry offset i none ce = ce
rebase_entry offset i (some e) ce =
    put ce i (record e { last_finish_time = shift_down offset e.last_finish_time })

-- The walk along the configured entries.
unfoldable pub rebase_entries : ℕ → List ℕ → ChunkedEntries → ChunkedEntries
rebase_entries offset [] ce = ce
rebase_entries offset (i ∷ rest) ce =
    rebase_entries offset rest (rebase_entry offset i (get ce i) ce)

-- `group_scheduler_rebase_if_needed`
unfoldable pub rebase_if_needed : GroupScheduler → GroupScheduler
rebase_if_needed g =
    if ltb g.calendar.virtual_time rebase_threshold
    then g
    else let offset = g.calendar.virtual_time / 2 in
      record g {
        calendar = rebase_calendar offset g.calendar;
        entries = rebase_entries offset g.configured_entries g.entries;
      }

-- The advance for the work done; the shift of the work wraps.
unfoldable pub delta_of : ℕ → ℕ → ℕ
delta_of total_capacity work_completed =
    let scaled = work_completed * 2 ^ 20 % 2 ^ 64 in
    if ltb 0 total_capacity
    then if scaled / total_capacity == 0 then 1 else scaled / total_capacity
    else scaled

unfoldable pub advance : ℕ → ℕ → ℕ
advance virtual_time delta =
    if ltb (u64_max - delta) virtual_time then u64_max else virtual_time + delta

-- V := max(V + delta, min S)
unfoldable pub advanced_time : GroupScheduler → ℕ → ℕ
advanced_time g work_completed =
    let normal_advance =
      advance g.calendar.virtual_time (delta_of g.total_capacity work_completed) in
    if ltb g.calendar.min_start_time normal_advance
    then normal_advance
    else g.calendar.min_start_time

-- `group_scheduler_update_virtual_time`
unfoldable pub update_virtual_time : GroupScheduler → ℕ → GroupScheduler
update_virtual_time g work_completed =
    rebase_if_needed (record g {
      calendar = record (g.calendar) { virtual_time = advanced_time g work_completed };
    })
