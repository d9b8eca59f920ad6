-- ===== src/Group/Choice.antt =====
-- What a rebase does to the WF2Q+ choice.
use hwfq_scheduler.Base.{
  ℕ, ◌-◌, ◌≤◌, ◌≡◌, ◌↔◌, refl, List, [], ◌∷◌, map, arith, inl, All, Has, All-Has,
}
use hwfq_scheduler.Types.{u64_max, Session}
use hwfq_scheduler.Calendar.Contents.{sessions}
use hwfq_scheduler.Calendar.Wf2q.{least_start, choice_time, IsWf2qChoice, All-by_Has, starts_below}
use hwfq_scheduler.Group.{GroupScheduler}
use hwfq_scheduler.Group.Time.{rebase_if_needed}
use hwfq_scheduler.Group.Ready.{IsReady}
use hwfq_scheduler.Group.Rebase.{All-over_map, Has-map}
use hwfq_scheduler.Group.Shift.{earlier, rebased_by, virtual_time-rebased, sessions-rebased}

All-under_map {κ} :
    (P : Session → Type κ) (f : Session → Session) (xs : List Session)
    → All P (map f xs)
    → All (λ s. P (f s)) xs
All-under_map P f [] h = tt
All-under_map P f (x ∷ xs) h = (h.0, All-under_map P f xs h.1)

module _ (n : ℕ) where
  pub least_start-earlier :
      (xs : List Session) (s : Session)
      → Has s xs
      → All (λ t. t.start_time ≤ u64_max) xs
      → least_start (map (earlier n) xs) ≡ least_start xs - n
  least_start-earlier [] s h u = absurd h
  least_start-earlier (x ∷ []) s h u = omega (arith, u.0)
  least_start-earlier (x ∷ y ∷ ys) s h u =
      omega (arith, least_start-earlier (y ∷ ys) y (inl refl) u.1)

  module _ (now : ℕ) (xs : List Session) (s : Session) (here : Has s xs) (past : n ≤ now)
      (timed : All (λ t. t.start_time ≤ u64_max) xs) (ends : All (λ t. n ≤ t.finish_time) xs) where
    at : choice_time (now - n) (map (earlier n) xs) ≡ choice_time now xs - n
    at = omega (arith, least_start-earlier xs s here timed)

    ends_here : n ≤ s.finish_time
    ends_here = All-Has _ s xs ends here

    abbrev After : Session → Type 0
    After t = t.start_time ≤ choice_time now xs → s.finish_time ≤ t.finish_time

    abbrev AfterShifted : Session → Type 0
    AfterShifted t =
        t.start_time ≤ choice_time (now - n) (map (earlier n) xs)
        → s.finish_time - n ≤ t.finish_time

    pub choice-earlier :
        IsWf2qChoice (now - n) (map (earlier n) xs) (earlier n s) ↔ IsWf2qChoice now xs s
    choice-earlier = (
      λ k. record {
        queued = here;
        started = omega (arith, k.started, at);
        least = All-by_Has After xs (λ t h le.
            let later =
              All-Has (λ t. AfterShifted (earlier n t)) t xs
                (All-under_map AfterShifted (earlier n) xs k.least) h (omega (arith, at)) in
            omega (arith, ends_here, All-Has _ t xs ends h));
      },
      λ k. record {
        queued = Has-map (earlier n) s xs here;
        started = omega (arith, k.started, at);
        least =
            All-over_map After AfterShifted (earlier n)
              (λ t le l. let later = le (omega (arith, at)) in omega arith) xs k.least;
      },
    )

-- Where no session queued at a ready scheduler finishes before the offset of a rebase, the rebase
-- keeps the WF2Q+ choice: a queued session is the choice afterwards, with its times less the offset
-- (a start time below the offset is 0), exactly where it was before. The choice is a session with the
-- smallest finish time of those whose start time is at most max(V, min S).
pub rebase_if_needed_choice :
    (g : GroupScheduler) (s : Session)
    → IsReady g
    → Has s (sessions g.calendar)
    → All (λ t. rebased_by g ≤ t.finish_time) (sessions g.calendar)
    → let h = rebase_if_needed g in
      IsWf2qChoice h.calendar.virtual_time (sessions h.calendar) (earlier (rebased_by g) s)
      ↔ IsWf2qChoice g.calendar.virtual_time (sessions g.calendar) s
rebase_if_needed_choice g s r here ends =
    let v = virtual_time-rebased g in
    rw (v.0, sessions-rebased g)
      (choice-earlier (rebased_by g) g.calendar.virtual_time (sessions g.calendar) s here v.1
        (starts_below g.calendar r.calendar r.timed) ends)
