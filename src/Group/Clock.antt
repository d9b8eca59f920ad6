-- ===== src/Group/Clock.antt =====
-- `group_scheduler_update_virtual_time` on a scheduler with work queued: max(V + W / C, min S).
use hwfq_scheduler.Base.{
  ℕ, ◌+◌, ◌-◌, ◌*◌, ◌/◌, ◌%◌, ◌^◌, ◌≤◌, ◌<◌, min, max, ◌≡◌, refl, map, arith, Has,
}
use hwfq_scheduler.Types.{u64_max, Session}
use hwfq_scheduler.Calendar.Contents.{sessions}
use hwfq_scheduler.Calendar.Wf2q.{least_start, least_start-attained, starts_below, min_start-eq}
use hwfq_scheduler.Group.{GroupScheduler}
use hwfq_scheduler.Group.Time.{delta_of, advanced_time, update_virtual_time}
use hwfq_scheduler.Group.Ready.{IsReady}
use hwfq_scheduler.Group.Rebase.{Has-map}
use hwfq_scheduler.Group.Advance.{advanced_time_lem}
use hwfq_scheduler.Group.Shift.{offset_at, earlier, virtual_time-rebased, sessions-rebased}

-- The work in units of 2 ^ -20, shared out over the capacity, and at least 1.
delta_of-eq :
    (capacity work : ℕ)
    → 0 < capacity
    → work * 2 ^ 20 < 2 ^ 64
    → delta_of capacity work ≡ max 1 (work * 2 ^ 20 / capacity)
unfolding delta_of
delta_of-eq capacity work pos fits =
    let q : work * 2 ^ 20 % 2 ^ 64 ≡ work * 2 ^ 20 = omega arith in rw q (ground arith)

-- max(V + W / C, min S), where the sum stops at `UINT64_MAX`.
abbrev pub time_after : GroupScheduler → ℕ → ℕ
time_after g work =
    max (min (g.calendar.virtual_time + max 1 (work * 2 ^ 20 / g.total_capacity)) u64_max)
      (least_start (sessions g.calendar))

advanced_time-eq :
    (g : GroupScheduler) (work : ℕ)
    → IsReady g
    → g.calendar.virtual_time ≤ u64_max
    → 0 < g.total_capacity
    → work * 2 ^ 20 < 2 ^ 64
    → advanced_time g work ≡ time_after g work
advanced_time-eq g work r h pos fits = omega (
  arith,
  advanced_time_lem g work h,
  min_start-eq g.calendar r.calendar r.timed,
  delta_of-eq g.total_capacity work pos fits,
)

-- On a ready scheduler with a session queued and a capacity above 0, for work whose scaled size fits
-- into 64 bits, an update finds v = max(V + max(1, work * 2 ^ 20 / capacity), min S), where the sum stops
-- at `UINT64_MAX` and min S is the smallest start time queued. Virtual time becomes v less the offset of
-- a rebase (v / 2 from the threshold on, 0 below), the times of all sessions go down by the same offset
-- and stop at 0, and some queued session may start then.
pub update_virtual_time_lem :
    (g : GroupScheduler) (work : ℕ) (s : Session)
    → IsReady g
    → Has s (sessions g.calendar)
    → g.calendar.virtual_time ≤ u64_max
    → 0 < g.total_capacity
    → work * 2 ^ 20 < 2 ^ 64
    → let v = time_after g work in
      let h = update_virtual_time g work in
      (h.calendar.virtual_time ≡ v - offset_at v)
      × (sessions h.calendar ≡ map (earlier (offset_at v)) (sessions g.calendar))
      × ((t : Session) × Has t (sessions h.calendar) × (t.start_time ≤ h.calendar.virtual_time))
unfolding update_virtual_time
update_virtual_time_lem g work s r here h pos fits =
    let e = advanced_time-eq g work r h pos fits in
    let g' = record g { calendar = record (g.calendar) { virtual_time = time_after g work } } in
    let (now, past) = virtual_time-rebased g' in
    let all = sessions-rebased g' in
    let (t, m, q) =
      least_start-attained (sessions g.calendar) s here
        (starts_below g.calendar r.calendar r.timed) in
    let n = offset_at (time_after g work) in
    rw (e, now, all) (refl, refl, (earlier n t, Has-map (earlier n) t _ m, omega (arith, q)))
