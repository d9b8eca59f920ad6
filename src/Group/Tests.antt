-- ===== src/Group/Tests.antt =====
-- Runs of the group scheduler and of its calendar on small inputs.
use mathlib.Core.List.{Perm}
use hwfq_scheduler.Base.{◌^◌, ◌≤◌, true, ◌≡◌, refl, some, [], ◌∷◌, arith}
use hwfq_scheduler.Types.{success, null, Session}
use hwfq_scheduler.Calendar.Contents.{sessions}
use hwfq_scheduler.Calendar.Insert.{stored}
use hwfq_scheduler.Group.{GroupScheduler, init_with_entries, find_entry}
use hwfq_scheduler.Group.Queue.{enqueue, dequeue}
use hwfq_scheduler.Group.Init.{IsNew, init_with_entries_lem}
use hwfq_scheduler.Group.Dequeue.{Dequeued, dequeue_lem, drain, drain-perm}
use hwfq_scheduler.Group.Enqueue.{KeepsOnFailure, enqueue-KeepsOnFailure}
use hwfq_scheduler.Group.Time.{rebase_if_needed, update_virtual_time}
use hwfq_scheduler.Group.Rebase.{rebase_if_needed-IsReady}
use hwfq_scheduler.Group.Advance.{update_virtual_time_idle, update_virtual_time-IsReady}
use hwfq_scheduler.Calendar.Same.{IsValid-same}
use hwfq_scheduler.Group.Ready.{IsReady, enqueue_lem}
use hwfq_scheduler.Group.Sample.{
  served, pool, fresh, fresh-IsReady, first_session, new_address, finds, first_bin, first_calm,
  queued, queued-lem, one_held,
}

init_with_entries_lem_example :
    (g : GroupScheduler) × (init_with_entries (λ _. true) 2 2 1000 4 pool ≡ some g)
    × IsNew g 4 1000 pool
init_with_entries_lem_example =
    init_with_entries_lem (λ _. true) 2 2 1000 4 pool refl refl refl (omega arith) (omega arith)
      (omega arith) (omega arith)

enqueue_lem_example :
    ((enqueue fresh 0 1 null 7 (some 100)).0 ≡ success)
    × Perm (sessions (queued null).calendar) (stored fresh.calendar (first_session null) ∷ [])
    × ((queued null).calendar.virtual_time ≡ 0)
    × (find_entry (queued null) 0
        ≡ some (record served { last_finish_time = (first_session null).finish_time }))
    × IsReady (queued null)
enqueue_lem_example =
    enqueue_lem fresh served 0 1 null 7 100 fresh-IsReady (omega arith) (omega arith) finds
      (omega arith) new_address (omega arith) (first_bin null) (first_calm null)

dequeue_lem_example :
    (s : Session) × (g : GroupScheduler) × (dequeue (queued null) ≡ (some s, g))
    × Dequeued (queued null) s g
dequeue_lem_example =
    dequeue_lem (queued null) (queued-lem null).1 (omega (arith, (one_held null)))
      (omega (arith, (one_held null)))

drain-perm_example : Perm (drain 1 (queued null)) (sessions (queued null).calendar)
drain-perm_example = drain-perm 1 (queued null) (queued-lem null).1 (one_held null) (omega arith)

enqueue-KeepsOnFailure_example : KeepsOnFailure fresh (enqueue fresh 3 1 null 7 (some 100))
enqueue-KeepsOnFailure_example = enqueue-KeepsOnFailure fresh 3 1 null 7 (some 100)

-- The queue after 2 ^ 63 units of virtual time have passed.
abbrev late : GroupScheduler
late = record (queued null) { calendar = record ((queued null).calendar) { virtual_time = 2 ^ 63 } }

late-IsReady : IsReady late
late-IsReady = record {
  calendar =
      IsValid-same (queued null).calendar late.calendar
        (record {
          heads = refl;
          bins = refl;
          groups = refl;
          num_bins = refl;
          size = refl;
          min_start = refl;
        })
        (queued-lem null).1.calendar;
  timed = (queued-lem null).1.timed;
  counted = (queued-lem null).1.counted;
}

rebase_if_needed-IsReady_example :
    IsReady (rebase_if_needed late) × ((rebase_if_needed late).calendar.virtual_time ≤ 2 ^ 63)
rebase_if_needed-IsReady_example = rebase_if_needed-IsReady late late-IsReady (omega arith)

update_virtual_time-IsReady_example :
    IsReady (update_virtual_time late 5)
    × ((update_virtual_time late 5).calendar.virtual_time ≤ 2 ^ 63)
update_virtual_time-IsReady_example = update_virtual_time-IsReady late 5 late-IsReady (omega arith)

update_virtual_time_idle_example : (update_virtual_time fresh 5).calendar.virtual_time ≡ 2 ^ 63
update_virtual_time_idle_example = update_virtual_time_idle fresh 5 fresh-IsReady (omega arith) refl
