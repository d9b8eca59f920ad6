-- ===== src/Group/Ready.antt =====
-- What is always true of a group scheduler: its calendar is valid, no time is saturated, and the
-- count of sessions is that of the calendar. Enqueuing keeps it.
use mathlib.Core.List.{Perm}
use hwfq_scheduler.Base.{
  ℕ, ◌+◌, ◌^◌, ◌≤◌, ◌<◌, max, ◌≡◌, ◌≢◌, refl, ap, some, ◌∷◌, arith, length, Option-cases, inl, inr,
}
use hwfq_scheduler.Types.{u64_max, success, UserData, Entry, Session}
use hwfq_scheduler.Calendar.{Calendar, insert_session}
use hwfq_scheduler.Calendar.Valid.{IsValid}
use hwfq_scheduler.Calendar.Same.{IsValid-same}
use hwfq_scheduler.Calendar.Contents.{sessions, Perm-length}
use hwfq_scheduler.Calendar.Progress.{IsTimed}
use hwfq_scheduler.Calendar.Insert.{
  bin_for, stored, IsFresh, insert_session_adds, insert_session-IsValid, insert_session-All,
}
use hwfq_scheduler.Chunked.{get, put}
use hwfq_scheduler.Chunked.Access.{get-put_self}
use hwfq_scheduler.Group.{if_configured, GroupScheduler, find_entry, session_rate}
use hwfq_scheduler.Group.Queue.{
  service_interval_of, start_time_of, finish_time_of, new_session, enqueue,
}
use hwfq_scheduler.Group.Enqueue.{enqueued, enqueue-success}

pub record IsReady (g : GroupScheduler) : Type 0 where
  pub calendar : IsValid g.calendar
  pub timed : IsTimed g.calendar
  pub counted : g.calendar.active_session_count ≡ length (sessions g.calendar)

-- The sum of start time and service interval fits below the sentinel.
abbrev pub IsUnsaturated : Session → Type 0
IsUnsaturated s = s.start_time + s.service_interval < u64_max

-- The tags of WF2Q+: the session starts at the later of virtual time and the finish time of the
-- entry's last session, takes at least one unit, and finishes after its service interval unless
-- that saturates.
pub new_session_times :
    (g : GroupScheduler) (e : Entry) (i w : ℕ) (u : UserData) (now a : ℕ)
    → let s = new_session g e i w u now a in
      (s.start_time ≡ max g.calendar.virtual_time e.last_finish_time)
      × (0 < s.service_interval)
      × (IsUnsaturated s → s.finish_time ≡ s.start_time + s.service_interval)
      × (s.start_time ≤ u64_max → s.start_time ≤ s.finish_time)
unfolding new_session start_time_of finish_time_of service_interval_of
new_session_times g e i w u now a =
    (ground arith, ground arith, λ h. ground arith, λ h. ground arith)

module _ (g : GroupScheduler) (e : Entry) (s : Session) (r : IsReady g)
    (fits : bin_for g.calendar s < g.calendar.num_bins) where
  abbrev after : Calendar
  after = (insert_session g.calendar s).1

  -- The scheduler holds the new session beside the old ones, and virtual time stands still.
  pub enqueued_adds :
      Perm (sessions (enqueued g e s).calendar) (stored g.calendar s ∷ sessions g.calendar)
      × ((enqueued g e s).calendar.virtual_time ≡ g.calendar.virtual_time)
  enqueued_adds = let k = insert_session_adds g.calendar s r.calendar.indexed fits in (k.1, k.2)

  -- It stays ready, if the allocator's block is new, the session's times do not saturate and the
  -- count does not wrap.
  pub enqueued-IsReady :
      IsFresh g.calendar s.address
      → s.start_time ≤ s.finish_time
      → s.finish_time < u64_max
      → length (sessions g.calendar) + 1 < 2 ^ 32
      → IsReady (enqueued g e s)
  enqueued-IsReady fresh le finite small =
      let k = insert_session_adds g.calendar s r.calendar.indexed fits in
      record {
        calendar =
            IsValid-same after (enqueued g e s).calendar
              (record {
                heads = refl;
                bins = refl;
                groups = refl;
                num_bins = refl;
                size = refl;
                min_start = refl;
              })
              (insert_session-IsValid g.calendar s r.calendar fresh);
        timed = insert_session-All _ g.calendar s r.calendar.indexed (le, finite) r.timed;
        counted = omega (arith, Perm-length k.1, k.3, r.counted);
      }

find_put :
    (g h : GroupScheduler) (i : ℕ) (e e' : Entry)
    → h.entries ≡ put g.entries i e'
    → e'.configured ≡ e.configured
    → find_entry g i ≡ some e
    → find_entry h i ≡ some e'
unfolding find_entry
find_put g h i e e' eq conf found = elim (Option-cases (get g.entries i)) [
  | inl none_there ↦ absurd (cc (ap if_configured none_there))
  | inr (d, there) ↦
      let q : if_configured (some d) ≡ some e = (rw there at found) in
      rw (eq, get-put_self g.entries i d e' there) (ground arith)
]

-- On a ready scheduler, a call with work for a configured entry that has a rate, where the allocator
-- gives a new block, the bin exists, the count does not wrap and the finish time does not saturate,
-- succeeds: the queue gains the tagged session and nothing else, virtual time stands still, the
-- entry's last finish time is the session's, and the scheduler stays ready.
pub enqueue_lem :
    (g : GroupScheduler) (e : Entry) (i w : ℕ) (u : UserData) (now a : ℕ)
    → IsReady g
    → w ≢ 0
    → i < g.max_entries
    → find_entry g i ≡ some e
    → session_rate g e ≢ 0
    → IsFresh g.calendar a
    → length (sessions g.calendar) + 1 < 2 ^ 32
    → let s = new_session g e i w u now a in
      bin_for g.calendar s < g.calendar.num_bins
      → IsUnsaturated s
      → let h = (enqueue g i w u now (some a)).1 in
        ((enqueue g i w u now (some a)).0 ≡ success)
        × Perm (sessions h.calendar) (stored g.calendar s ∷ sessions g.calendar)
        × (h.calendar.virtual_time ≡ g.calendar.virtual_time)
        × (find_entry h i ≡ some (record e { last_finish_time = s.finish_time }))
        × IsReady h
unfolding new_session
enqueue_lem g e i w u now a r work id_ok found rated fresh small fits calm =
    let s = new_session g e i w u now a in
    let t = new_session_times g e i w u now a in
    rw (enqueue-success g e i w u now a r.calendar work id_ok found rated fits) (
      refl,
      (enqueued_adds g e s r fits).0,
      (enqueued_adds g e s r fits).1,
      find_put g (enqueued g e s) i e (record e { last_finish_time = s.finish_time }) refl refl
          found,
      enqueued-IsReady g e s r fits fresh (t.3 (omega arith)) (omega (arith, t.2 calm)) small,
    )
