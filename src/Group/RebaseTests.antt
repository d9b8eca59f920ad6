-- ===== src/Group/RebaseTests.antt =====
-- A rebase and an update of virtual time with one session queued at virtual time 2 ^ 63.
use hwfq_scheduler.Base.{
  ◌-◌, ◌^◌, ◌≤◌, ◌<◌, ◌≡◌, ◌↔◌, refl, sym, subst, some, [], ◌∷◌, map, arith, All, Has, inl,
}
use hwfq_scheduler.Types.{Entry, null, Session}
use hwfq_scheduler.Calendar.{
  bin_list_insert, insert_sorted, insert_session, calculate_group_index_from_interval,
  calculate_bin_index_from_finish_time,
}
use hwfq_scheduler.Calendar.Valid.{bin_of}
use hwfq_scheduler.Calendar.Contents.{sessions}
use hwfq_scheduler.Calendar.Same.{IsValid-same}
use hwfq_scheduler.Calendar.Insert.{bin_for, stored}
use hwfq_scheduler.Calendar.Wf2q.{IsWf2qChoice}
use hwfq_scheduler.Chunked.{get, put}
use hwfq_scheduler.Group.{GroupScheduler, find_entry}
use hwfq_scheduler.Group.Queue.{
  enqueue, enqueue_at, enqueue_for, accept, new_session, service_interval_of, scaled_work,
  start_time_of, finish_time_of,
}
use hwfq_scheduler.Group.Time.{rebase_if_needed, update_virtual_time}
use hwfq_scheduler.Group.Ready.{IsReady, IsUnsaturated, enqueue_lem}
use hwfq_scheduler.Group.Shift.{earlier, offset_at, rebase_if_needed_lem}
use hwfq_scheduler.Group.Choice.{rebase_if_needed_choice}
use hwfq_scheduler.Group.Walk.{ends_earlier}
use hwfq_scheduler.Group.Clock.{time_after, update_virtual_time_lem}
use hwfq_scheduler.Group.Sample.{served, fresh, fresh-IsReady, new_address}

abbrev aged : GroupScheduler
aged = record fresh { calendar = record (fresh.calendar) { virtual_time = 2 ^ 63 } }

aged-IsReady : IsReady aged
aged-IsReady = record {
  calendar =
      IsValid-same fresh.calendar aged.calendar
        (record {
          heads = refl;
          bins = refl;
          groups = refl;
          num_bins = refl;
          size = refl;
          min_start = refl;
        })
        fresh-IsReady.calendar;
  timed = fresh-IsReady.timed;
  counted = fresh-IsReady.counted;
}

abbrev late_session : Session
late_session = new_session aged served 0 1 null 7 100

abbrev waiting : GroupScheduler
waiting = (enqueue aged 0 1 null 7 (some 100)).1

aged_finds : find_entry aged 0 ≡ some served
unfolding find_entry get
aged_finds = refl

late_bin : bin_for aged.calendar late_session < 4
unfolding new_session service_interval_of scaled_work start_time_of finish_time_of
    calculate_group_index_from_interval calculate_bin_index_from_finish_time
late_bin = omega arith

late_calm : IsUnsaturated late_session
unfolding new_session service_interval_of scaled_work start_time_of
late_calm = omega arith

waiting-IsReady : IsReady waiting
waiting-IsReady =
    (enqueue_lem aged served 0 1 null 7 100 aged-IsReady (omega arith) (omega arith) aged_finds
      (omega arith) new_address (omega arith) late_bin late_calm).4

-- The one session in the queue.
abbrev waiter : Session
waiter = stored aged.calendar late_session

held : sessions waiting.calendar ≡ waiter ∷ []
unfolding enqueue enqueue_at find_entry get enqueue_for accept insert_session new_session
    calculate_group_index_from_interval service_interval_of scaled_work
    calculate_bin_index_from_finish_time finish_time_of start_time_of bin_list_insert insert_sorted
held = refl

here : Has waiter (sessions waiting.calendar)
here = subst (Has waiter) (sym held) (inl refl)

now : waiting.calendar.virtual_time ≡ 2 ^ 63
unfolding enqueue enqueue_at find_entry get enqueue_for accept insert_session new_session
    calculate_group_index_from_interval service_interval_of scaled_work
    calculate_bin_index_from_finish_time finish_time_of start_time_of
now = refl

capacity : waiting.total_capacity ≡ 1000
unfolding enqueue enqueue_at find_entry get enqueue_for accept insert_session new_session
    calculate_group_index_from_interval service_interval_of scaled_work
    calculate_bin_index_from_finish_time finish_time_of start_time_of
capacity = refl

waiter_ends : 2 ^ 62 ≤ waiter.finish_time
unfolding new_session finish_time_of start_time_of service_interval_of scaled_work
waiter_ends = omega arith

ends :
    All (λ t. offset_at waiting.calendar.virtual_time ≤ t.finish_time) (sessions waiting.calendar)
ends = rw (held, now) (waiter_ends, tt)

-- The same with the entry on the list of configured entries.
abbrev listed : GroupScheduler
listed = record waiting { configured_entries = 0 ∷ [] }

abbrev busy_entry : Entry
busy_entry = record served { last_finish_time = late_session.finish_time }

entry_held : get listed.entries 0 ≡ some busy_entry
unfolding enqueue enqueue_at find_entry get put enqueue_for accept insert_session new_session
    calculate_group_index_from_interval service_interval_of scaled_work
    calculate_bin_index_from_finish_time finish_time_of start_time_of bin_list_insert insert_sorted
entry_held = refl

rebase_if_needed_lem_example :
    let n = offset_at listed.calendar.virtual_time in
    let h = rebase_if_needed listed in
    (h.calendar.virtual_time ≡ listed.calendar.virtual_time - n)
    × (bin_of h.calendar 0 ≡ map (earlier n) (bin_of listed.calendar 0))
    × (get h.entries 0 ≡ some (ends_earlier n busy_entry))
    × (((earlier n waiter).start_time ≤ h.calendar.virtual_time)
        ↔ (waiter.start_time ≤ listed.calendar.virtual_time))
rebase_if_needed_lem_example =
    rebase_if_needed_lem listed 0 waiter 0 busy_entry (tt, tt) (inl refl) entry_held

rebase_if_needed_choice_example :
    IsWf2qChoice
      (rebase_if_needed waiting).calendar.virtual_time
      (sessions (rebase_if_needed waiting).calendar)
      (earlier (offset_at waiting.calendar.virtual_time) waiter)
    ↔ IsWf2qChoice waiting.calendar.virtual_time (sessions waiting.calendar) waiter
rebase_if_needed_choice_example = rebase_if_needed_choice waiting waiter waiting-IsReady here ends

update_virtual_time_lem_example :
    ((update_virtual_time waiting 5).calendar.virtual_time
      ≡ time_after waiting 5 - offset_at (time_after waiting 5))
    × (sessions (update_virtual_time waiting 5).calendar
        ≡ map (earlier (offset_at (time_after waiting 5))) (sessions waiting.calendar))
    × ((t : Session) × Has t (sessions (update_virtual_time waiting 5).calendar)
        × (t.start_time ≤ (update_virtual_time waiting 5).calendar.virtual_time))
update_virtual_time_lem_example =
    update_virtual_time_lem waiting 5 waiter waiting-IsReady here (omega (arith, now))
      (omega (arith, capacity)) (omega arith)
