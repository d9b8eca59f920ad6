-- ===== src/Group/Dequeue.antt =====
-- `group_scheduler_dequeue`: on a ready scheduler it returns the WF2Q+ choice until none is left.
use mathlib.Core.List.{Perm}
use mathlib.Core.List.Perm
use hwfq_scheduler.Base.{
  ℕ, zero, suc, ◌^◌, ◌≤◌, ◌<◌, ◌≡◌, ◌≢◌, refl, sym, ◌∙◌, Option, none, some, List, [], ◌∷◌, arith,
  get_or, subst, Option-cases, length, All-Has, Has, inl, inr, ne→not-==,
}
use hwfq_scheduler.Types.{
  Status, success, Session, invalid_arg, no_memory, not_found, overbooked, no_work, has_backlog,
  internal,
}
use hwfq_scheduler.Calendar.{Calendar}
use hwfq_scheduler.Calendar.Search.{find_min_session}
use hwfq_scheduler.Calendar.Remove.{remove_session}
use hwfq_scheduler.Calendar.Valid.{IsValid, bin_of}
use hwfq_scheduler.Calendar.Same.{SameQueue, IsValid-same}
use hwfq_scheduler.Calendar.Least.{IsEligibleMin}
use hwfq_scheduler.Calendar.Contents.{concat, sessions, Perm-length}
use hwfq_scheduler.Calendar.Progress.{
  KeepsQueue, find_min_session-KeepsQueue, find_min_session-IsEligibleMin, find_min_session-ne-none,
  find_min_session-Moved,
}
use hwfq_scheduler.Calendar.Wf2q.{choice_time, IsWf2qChoice, found-IsWf2qChoice}
use hwfq_scheduler.Calendar.Unlink.{
  remove_session-IsValid, remove_session_takes, remove_session-All,
}
use hwfq_scheduler.Group.{GroupScheduler, sub32}
use hwfq_scheduler.Group.Queue.{discount, if_success, take_found, dequeue}
use hwfq_scheduler.Group.Ready.{IsReady}

-- The scheduler g' is g after the session s was dequeued.
pub record Dequeued (g : GroupScheduler) (s : Session) (g' : GroupScheduler) : Type 0 where
  pub least : IsEligibleMin g.calendar g'.calendar.virtual_time (some s)
  pub choice : IsWf2qChoice g.calendar.virtual_time (sessions g.calendar) s
  pub moment : g'.calendar.virtual_time ≡ choice_time g.calendar.virtual_time (sessions g.calendar)
  pub later : g.calendar.virtual_time ≤ g'.calendar.virtual_time
  pub taken : Perm (sessions g.calendar) (s ∷ sessions g'.calendar)
  pub ready : IsReady g'
  pub others : g' ≡ record g { calendar = g'.calendar }

discount-eq :
    (g : GroupScheduler) (s : Session) (r : Status × Calendar)
    → r.0 ≡ success
    → if_success s (discount g r) ≡ (
      some s,
      record g {
        calendar = record (r.1) { active_session_count = sub32 (r.1).active_session_count 1 };
      },
    )
unfolding discount
discount-eq g s (success, c) h = refl
discount-eq g s (invalid_arg, c) h = absurd (cc)
discount-eq g s (no_memory, c) h = absurd (cc)
discount-eq g s (not_found, c) h = absurd (cc)
discount-eq g s (overbooked, c) h = absurd (cc)
discount-eq g s (no_work, c) h = absurd (cc)
discount-eq g s (has_backlog, c) h = absurd (cc)
discount-eq g s (internal, c) h = absurd (cc)

SameQueue-of : {c d : Calendar} → KeepsQueue c d → SameQueue c d
SameQueue-of k = record {
  heads = k.heads;
  bins = k.bins;
  groups = k.groups;
  num_bins = k.num_bins;
  size = k.size;
  min_start = k.min_start;
}

module _ (g : GroupScheduler) (r : IsReady g) (busy : g.calendar.active_session_count ≢ 0) where
  abbrev found : Option Session × Calendar
  found = find_min_session g.calendar

  abbrev d : Calendar
  d = found.1

  keeps : KeepsQueue g.calendar d
  keeps = find_min_session-KeepsQueue g.calendar

  d-IsValid : IsValid d
  d-IsValid = IsValid-same g.calendar d (SameQueue-of keeps) r.calendar

  dequeue-found : dequeue g ≡ take_found g found
  unfolding dequeue
  dequeue-found = rw (ne→not-== _ 0 busy) refl

  module _ (s : Session) (is_some : found.0 ≡ some s) where
    chosen : IsEligibleMin g.calendar d.virtual_time (some s)
    chosen =
        subst (IsEligibleMin g.calendar d.virtual_time) is_some
          (find_min_session-IsEligibleMin g.calendar r.calendar busy).0

    choice_made :
        (d.virtual_time ≡ choice_time g.calendar.virtual_time (sessions g.calendar))
        × IsWf2qChoice g.calendar.virtual_time (sessions g.calendar) s
    choice_made =
        found-IsWf2qChoice g.calendar r.calendar r.timed d.virtual_time s chosen
          (find_min_session-Moved g.calendar r.calendar busy)

    -- The session lies in the bin that it names.
    in_bin : Has s (bin_of d s.bin_index)
    in_bin =
        let placed =
          All-Has _ s (bin_of g.calendar chosen.0.bin) (r.calendar.ordered.placed chosen.0.bin)
            chosen.0.member in
        subst (λ h. Has s (get_or h s.bin_index [])) (sym keeps.heads)
          (subst (λ i. Has s (bin_of g.calendar i)) (sym placed) chosen.0.member)

    abbrev removed : Calendar
    removed = (remove_session d s).1

    abbrev rest : GroupScheduler
    rest = record g {
      calendar = record removed { active_session_count = sub32 removed.active_session_count 1 };
    }

    take_found-eq : take_found g found ≡ (some s, rest)
    unfolding take_found
    take_found-eq =
        subst (λ o. take_found g (o, d) ≡ (some s, rest)) (sym is_some)
          (discount-eq g s (remove_session d s) (remove_session-IsValid d s d-IsValid in_bin).0)

    taken_sessions : Perm (sessions g.calendar) (s ∷ sessions rest.calendar)
    taken_sessions =
        subst (λ h. Perm (concat h) (s ∷ sessions removed)) keeps.heads
          (remove_session_takes d s d-IsValid in_bin).0

    rest-Dequeued : length (sessions g.calendar) < 2 ^ 32 → Dequeued g s rest
    rest-Dequeued small =
        let t = remove_session_takes d s d-IsValid in_bin in
        record {
          least = rw t.1 chosen;
          choice = choice_made.1;
          moment = t.1 ∙ choice_made.0;
          later = omega (arith, t.1, (find_min_session-IsEligibleMin g.calendar r.calendar busy).1);
          taken = taken_sessions;
          ready = record {
            calendar =
                IsValid-same removed rest.calendar
                  (record {
                    heads = refl;
                    bins = refl;
                    groups = refl;
                    num_bins = refl;
                    size = refl;
                    min_start = refl;
                  })
                  (remove_session-IsValid d s d-IsValid in_bin).1;
            timed = remove_session-All d s d-IsValid in_bin _ (rw keeps.heads r.timed);
            counted = omega (arith, Perm-length taken_sessions, t.2, keeps.count, r.counted);
          };
          others = refl;
        }

some_session : (xs : List Session) → length xs ≢ 0 → (s : Session) × Has s xs
some_session [] h = absurd (h refl)
some_session (x ∷ xs) h = (x, inl refl)

-- A ready scheduler with work queued, fewer than 2 ^ 32 sessions, gives a session: of those queued
-- whose start time is at most max(V, min S), one with the smallest finish time. It leaves the queue,
-- nothing else does, virtual time becomes max(V, min S), with V the virtual time before and min S the
-- smallest start time queued, and the scheduler stays ready.
pub dequeue_lem :
    (g : GroupScheduler)
    → IsReady g
    → length (sessions g.calendar) ≢ 0
    → length (sessions g.calendar) < 2 ^ 32
    → (s : Session) × (g' : GroupScheduler) × (dequeue g ≡ (some s, g')) × Dequeued g s g'
dequeue_lem g r work small =
    let busy : g.calendar.active_session_count ≢ 0 = omega (arith, r.counted) in
    elim (Option-cases (find_min_session g.calendar).0) [
      | inl e ↦
          let (t, h) = some_session (sessions g.calendar) work in
          absurd (find_min_session-ne-none g.calendar r.calendar busy r.timed t h e)
      | inr (s, e) ↦ (
        s,
        rest g r busy s e,
        dequeue-found g r busy ∙ take_found-eq g r busy s e,
        rest-Dequeued g r busy s e small,
      )
    ]

-- An empty scheduler gives none and stays as it is.
pub dequeue_empty :
    (g : GroupScheduler) → IsReady g → length (sessions g.calendar) ≡ 0 → dequeue g ≡ (none, g)
unfolding dequeue
dequeue_empty g r e =
    rw (let q : g.calendar.active_session_count ≡ 0 = omega (arith, r.counted) in q) refl

-- All that successive calls return, for at most the given number of calls.
pub drain_with : (GroupScheduler → List Session) → Option Session × GroupScheduler → List Session
drain_with more (none, g) = []
drain_with more (some s, g) = s ∷ more g

pub drain : ℕ → GroupScheduler → List Session
drain zero g = []
drain (suc n) g = drain_with (drain n) (dequeue g)

-- On a ready scheduler, as many calls as sessions are queued, fewer than 2 ^ 32, return every session
-- exactly once.
pub drain-perm :
    (n : ℕ) (g : GroupScheduler)
    → IsReady g
    → length (sessions g.calendar) ≡ n
    → n < 2 ^ 32
    → Perm (drain n g) (sessions g.calendar)
unfolding drain drain_with
drain-perm zero g r e l = rw (nil_of_length (sessions g.calendar) e) (Perm.refl [])
  where
    nil_of_length : (xs : List Session) → length xs ≡ 0 → xs ≡ []
    nil_of_length [] h = refl
    nil_of_length (x ∷ xs) h = absurd (omega arith)
drain-perm (suc n) g r e l =
    let (s, g', q, k) = dequeue_lem g r (omega arith) (omega arith) in
    rw q (
      Perm.trans
        (Perm.cons s (drain-perm n g' k.ready (omega (arith, Perm-length k.taken)) (omega arith)))
        (Perm.symm k.taken))
