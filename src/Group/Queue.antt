-- ===== src/Group/Queue.antt =====
-- `group_scheduler_enqueue`, `group_scheduler_dequeue` and `group_scheduler_remove_session` of
-- src/hwfq_group_scheduler.c, the accessors, and what `group_scheduler_destroy` frees.
use hwfq_scheduler.Base.{
  ℕ, zero, suc, ◌+◌, ◌-◌, ◌*◌, ◌/◌, ◌%◌, ◌^◌, Bool, Option, none, some, List, [], ◌++◌, ltb, leb,
  ◌==◌, if◌then◌else◌, get_or,
}
use hwfq_scheduler.Types.{
  u64_max, Status, success, invalid_arg, no_memory, not_found, internal, UserData, null, Entry,
  Session,
}
use hwfq_scheduler.Calendar.{Calendar, calculate_group_index_from_interval, insert_session}
use hwfq_scheduler.Calendar.Search.{find_min_session}
use hwfq_scheduler.Calendar.Remove.{remove_session}
use hwfq_scheduler.Chunked.{put}
use hwfq_scheduler.Group.{GroupScheduler, find_entry, session_rate, add32, sub32}

-- The work in units of virtual time, saturated.
unfoldable pub scaled_work : ℕ → ℕ
scaled_work work_size = if ltb (u64_max / 2 ^ 20) work_size then u64_max else work_size * 2 ^ 20

unfoldable pub service_interval_of : ℕ → ℕ → ℕ
service_interval_of work_size rate = let i = scaled_work work_size / rate in if i == 0 then 1 else i

-- S = max(V, F) and F = S + the service interval, saturated.
unfoldable pub start_time_of : ℕ → ℕ → ℕ
start_time_of virtual_time last_finish_time =
    if ltb last_finish_time virtual_time then virtual_time else last_finish_time

unfoldable pub finish_time_of : ℕ → ℕ → ℕ
finish_time_of start_time service_interval =
    if ltb (u64_max - service_interval) start_time then u64_max else start_time + service_interval

-- The session that `group_scheduler_enqueue` makes, at the address that the allocator returned.
unfoldable pub new_session :
    GroupScheduler → Entry → (entry_id work_size : ℕ) → UserData → (now_ns address : ℕ) → Session
new_session g e entry_id work_size user_data now_ns address =
    let interval = service_interval_of work_size (session_rate g e) in
    let start = start_time_of g.calendar.virtual_time e.last_finish_time in
    record {
      address = address;
      entry_id = entry_id;
      start_time = start;
      finish_time = finish_time_of start interval;
      service_interval = interval;
      group_index = calculate_group_index_from_interval interval g.calendar.base_interval;
      bin_index = 0;
      user_data = user_data;
      work_size = work_size;
      enqueue_time_ns = now_ns;
    }

-- The last steps, on the result of the insertion.
unfoldable pub accept :
    GroupScheduler → Entry → Session → Status × Calendar → Status × GroupScheduler
accept g e s (success, c) = (
  success,
  record g {
    calendar = record c { active_session_count = add32 c.active_session_count 1 };
    entries = put g.entries s.entry_id (record e { last_finish_time = s.finish_time });
  },
)
accept g e s (status, c) = (status, record g { calendar = c })

unfoldable pub enqueue_for :
    GroupScheduler
    → Entry
    → (entry_id work_size : ℕ) → UserData
    → (now_ns : ℕ) → Option ℕ
    → Status × GroupScheduler
enqueue_for g e entry_id work_size user_data now_ns none = (no_memory, g)
enqueue_for g e entry_id work_size user_data now_ns (some address) =
    let s = new_session g e entry_id work_size user_data now_ns address in
    accept g e s (insert_session g.calendar s)

unfoldable pub enqueue_at :
    GroupScheduler
    → Option Entry
    → (entry_id work_size : ℕ) → UserData
    → (now_ns : ℕ) → Option ℕ
    → Status × GroupScheduler
enqueue_at g none entry_id work_size user_data now_ns mem = (not_found, g)
enqueue_at g (some e) entry_id work_size user_data now_ns mem =
    if session_rate g e == 0
    then (internal, g)
    else enqueue_for g e entry_id work_size user_data now_ns mem

-- `group_scheduler_enqueue`. `now_ns` is the clock's reading and `mem` the allocator's answer.
unfoldable pub enqueue :
    GroupScheduler
    → (entry_id work_size : ℕ) → UserData
    → (now_ns : ℕ) → Option ℕ
    → Status × GroupScheduler
enqueue g entry_id work_size user_data now_ns mem =
    if work_size == 0
    then (invalid_arg, g)
    else if leb g.max_entries entry_id
    then (invalid_arg, g)
    else enqueue_at g (find_entry g entry_id) entry_id work_size user_data now_ns mem

-- One session fewer, where the removal succeeded.
unfoldable pub discount : GroupScheduler → Status × Calendar → Status × GroupScheduler
discount g (success, c) = (
  success,
  record g { calendar = record c { active_session_count = sub32 c.active_session_count 1 } },
)
discount g (status, c) = (status, record g { calendar = c })

abbrev pub if_success : Session → Status × GroupScheduler → Option Session × GroupScheduler
if_success s (success, g) = (some s, g)
if_success s (status, g) = (none, g)

unfoldable pub take_found :
    GroupScheduler → Option Session × Calendar → Option Session × GroupScheduler
take_found g (none, c) = (none, record g { calendar = c })
take_found g (some s, c) = if_success s (discount g (remove_session c s))

-- `group_scheduler_dequeue`
unfoldable pub dequeue : GroupScheduler → Option Session × GroupScheduler
dequeue g =
    if g.calendar.active_session_count == 0
    then (none, g)
    else take_found g (find_min_session g.calendar)

-- `group_scheduler_remove_session`
unfoldable pub remove : GroupScheduler → Session → Status × GroupScheduler
remove g s = discount g (remove_session g.calendar s)

unfoldable pub get_virtual_time : GroupScheduler → ℕ
get_virtual_time g = g.calendar.virtual_time

unfoldable pub get_session_count : GroupScheduler → ℕ
get_session_count g = g.calendar.active_session_count

unfoldable pub is_empty : GroupScheduler → Bool
is_empty g = g.calendar.active_session_count == 0

-- The accessors of a session pointer, `none` for NULL.
unfoldable pub session_get_entry_id : Option Session → ℕ
session_get_entry_id none = 0
session_get_entry_id (some s) = s.entry_id

unfoldable pub session_get_user_data : Option Session → UserData
session_get_user_data none = null
session_get_user_data (some s) = s.user_data

unfoldable pub session_get_work_size : Option Session → ℕ
session_get_work_size none = 0
session_get_work_size (some s) = s.work_size

unfoldable pub session_get_finish_time : Option Session → ℕ
session_get_finish_time none = 0
session_get_finish_time (some s) = s.finish_time

-- The sessions that `group_scheduler_destroy` frees, in order: the loop over the bins, with the
-- number of bins to go.
unfoldable pub freed_from : GroupScheduler → (left i : ℕ) → List Session
freed_from g zero i = []
freed_from g (suc left) i = get_or g.calendar.bin_heads i [] ++ freed_from g left (suc i)

unfoldable pub freed_by_destroy : GroupScheduler → List Session
freed_by_destroy g = freed_from g (g.num_groups * g.calendar.bins_per_group % 2 ^ 32) 0
