-- ===== src/Group/Advance.antt =====
-- `group_scheduler_update_virtual_time`.
use hwfq_scheduler.Base.{
  ℕ, ◌+◌, ◌^◌, ◌≤◌, max, min, ◌≡◌, ◌⊎◌, refl, List, [], ◌∷◌, arith, length, Has, All-Has, inl, inr,
}
use hwfq_scheduler.Types.{u64_max, Session}
use hwfq_scheduler.Calendar.{Calendar}
use hwfq_scheduler.Calendar.Valid.{IsValid, StartsAt, bin_of}
use hwfq_scheduler.Calendar.Same.{IsValid-same}
use hwfq_scheduler.Calendar.Contents.{sessions, Has-concat}
use hwfq_scheduler.Group.{GroupScheduler}
use hwfq_scheduler.Group.Time.{
  delta_of, advance, advanced_time, rebase_if_needed, rebase_calendar, update_virtual_time,
}
use hwfq_scheduler.Group.Ready.{IsReady}
use hwfq_scheduler.Group.Rebase.{rebase_if_needed-IsReady}

-- If virtual time is within 64 bits, an update sets it, before any rebase, to max(V + delta, min S), where the sum stops at `UINT64_MAX`.
pub advanced_time_lem :
    (g : GroupScheduler) (work : ℕ)
    → g.calendar.virtual_time ≤ u64_max
    → advanced_time g work
      ≡ max
          (min (g.calendar.virtual_time + delta_of g.total_capacity work) u64_max)
          g.calendar.min_start_time
unfolding advanced_time advance delta_of
advanced_time_lem g work h = ground arith

no_member : (s : Session) (xs : List Session) → length xs ≡ 0 → Has s xs → ⊥
no_member s [] e h = h
no_member s (x ∷ xs) e h = absurd (omega arith)

-- With no session queued the smallest start time is the sentinel.
idle_min_start : (c : Calendar) → IsValid c → length (sessions c) ≡ 0 → c.min_start_time ≡ u64_max
idle_min_start c v e = from v.min_start.attained
  where
    from : (c.min_start_time ≡ u64_max) ⊎ StartsAt c c.min_start_time → c.min_start_time ≡ u64_max
    from (inl p) = p
    from (inr (i, s, h, p)) = absurd (no_member s (sessions c) e (Has-concat s c.bin_heads i h))

-- On a ready scheduler with no session queued and virtual time within 64 bits, an update sets
-- virtual time to 2 ^ 63, whatever it was and however little work was done.
pub update_virtual_time_idle :
    (g : GroupScheduler) (work : ℕ)
    → IsReady g
    → g.calendar.virtual_time ≤ u64_max
    → length (sessions g.calendar) ≡ 0
    → (update_virtual_time g work).calendar.virtual_time ≡ 2 ^ 63
unfolding update_virtual_time rebase_if_needed rebase_calendar
update_virtual_time_idle g work r h e = rw jump refl
  where
    jump : advanced_time g work ≡ u64_max
    jump = omega (arith, advanced_time_lem g work h, idle_min_start g.calendar r.calendar e)

pub min_start-le : (g : GroupScheduler) → IsReady g → g.calendar.min_start_time ≤ u64_max
min_start-le g r = elim r.calendar.min_start.attained [
  | inl p ↦ omega arith
  | inr (i, s, h, p) ↦ let t = All-Has _ s (bin_of g.calendar i) (r.timed i) h in omega arith
]

-- A ready scheduler with virtual time within 64 bits stays ready under an update, and its virtual
-- time is at most 2 ^ 63 then.
pub update_virtual_time-IsReady :
    (g : GroupScheduler) (work : ℕ)
    → IsReady g
    → g.calendar.virtual_time ≤ u64_max
    → IsReady (update_virtual_time g work)
      × ((update_virtual_time g work).calendar.virtual_time ≤ 2 ^ 63)
unfolding update_virtual_time
update_virtual_time-IsReady g work r h =
    rebase_if_needed-IsReady
      (record g { calendar = record (g.calendar) { virtual_time = advanced_time g work } })
      (record {
        calendar =
            IsValid-same g.calendar (record (g.calendar) { virtual_time = advanced_time g work })
              (record {
                heads = refl;
                bins = refl;
                groups = refl;
                num_bins = refl;
                size = refl;
                min_start = refl;
              })
              r.calendar;
        timed = r.timed;
        counted = r.counted;
      })
      (omega (arith, advanced_time_lem g work h, min_start-le g r))
