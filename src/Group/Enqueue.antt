-- ===== src/Group/Enqueue.antt =====
-- `group_scheduler_enqueue`: its failures change nothing, and what a success adds.
use hwfq_scheduler.Base.{
  ℕ, ◌<◌, false, ◌==◌, ◌≡◌, ◌≢◌, ◌⊎◌, refl, inl, inr, Option, none, some, arith, Bool-cases, leb,
  ne→not-==, dec_lt,
}
use hwfq_scheduler.Types.{
  Status, success, internal, UserData, Entry, Session, invalid_arg, no_memory, not_found,
  overbooked, no_work, has_backlog,
}
use hwfq_scheduler.Calendar.{Calendar, insert_session}
use hwfq_scheduler.Calendar.Insert.{bin_for, insert_session_refused, insert_session_adds}
use hwfq_scheduler.Calendar.Valid.{IsValid}
use hwfq_scheduler.Chunked.{put}
use hwfq_scheduler.Group.{GroupScheduler, find_entry, session_rate, add32}
use hwfq_scheduler.Group.Queue.{new_session, accept, enqueue_for, enqueue_at, enqueue}

-- Every result but `success` comes with the state as it was.
abbrev pub KeepsOnFailure : GroupScheduler → Status × GroupScheduler → Type 0
KeepsOnFailure g r = (r.0 ≡ success) ⊎ (r.1 ≡ g)

insert_session_cases :
    (c : Calendar) (s : Session) → (insert_session c s ≡ (internal, c)) ⊎ (bin_for c s < c.num_bins)
insert_session_cases c s = elim (dec_lt (bin_for c s) c.num_bins) [
  | yes l ↦ inr l
  | no l ↦ inl (insert_session_refused c s (omega arith))
]

accept-KeepsOnFailure :
    (g : GroupScheduler) (e : Entry) (s : Session)
    → KeepsOnFailure g (accept g e s (insert_session g.calendar s))
unfolding accept insert_session
accept-KeepsOnFailure g e s = ground arith

enqueue_for-KeepsOnFailure :
    (g : GroupScheduler) (e : Entry) (i w : ℕ) (u : UserData) (now : ℕ) (mem : Option ℕ)
    → KeepsOnFailure g (enqueue_for g e i w u now mem)
unfolding enqueue_for
enqueue_for-KeepsOnFailure g e i w u now none = inr refl
enqueue_for-KeepsOnFailure g e i w u now (some a) =
    accept-KeepsOnFailure g e (new_session g e i w u now a)

enqueue_at-KeepsOnFailure :
    (g : GroupScheduler) (o : Option Entry) (i w : ℕ) (u : UserData) (now : ℕ) (mem : Option ℕ)
    → KeepsOnFailure g (enqueue_at g o i w u now mem)
unfolding enqueue_at
enqueue_at-KeepsOnFailure g none i w u now mem = inr refl
enqueue_at-KeepsOnFailure g (some e) i w u now mem = elim (Bool-cases (session_rate g e == 0)) [
  | inl z ↦ rw z (inr refl)
  | inr z ↦ rw z (enqueue_for-KeepsOnFailure g e i w u now mem)
]

-- A call of `group_scheduler_enqueue` that fails leaves the scheduler as it was.
pub enqueue-KeepsOnFailure :
    (g : GroupScheduler) (entry_id work_size : ℕ) (u : UserData) (now_ns : ℕ) (mem : Option ℕ)
    → KeepsOnFailure g (enqueue g entry_id work_size u now_ns mem)
unfolding enqueue
enqueue-KeepsOnFailure g i w u now mem = elim (Bool-cases (w == 0)) [
  | inl z ↦ rw z (inr refl)
  | inr z ↦ elim (Bool-cases (leb g.max_entries i)) [
    | inl l ↦ rw (z, l) (inr refl)
    | inr l ↦ rw (z, l) (enqueue_at-KeepsOnFailure g (find_entry g i) i w u now mem)
  ]
]

-- The scheduler after a session has been accepted.
abbrev pub enqueued : GroupScheduler → Entry → Session → GroupScheduler
enqueued g e s =
    let c = (insert_session g.calendar s).1 in
    record g {
      calendar = record c { active_session_count = add32 c.active_session_count 1 };
      entries = put g.entries s.entry_id (record e { last_finish_time = s.finish_time });
    }

accept-eq :
    (g : GroupScheduler) (e : Entry) (s : Session) (r : Status × Calendar)
    → r.0 ≡ success
    → accept g e s r ≡ (
      success,
      record g {
        calendar = record (r.1) { active_session_count = add32 (r.1).active_session_count 1 };
        entries = put g.entries s.entry_id (record e { last_finish_time = s.finish_time });
      },
    )
unfolding accept
accept-eq g e s (success, c) h = refl
accept-eq g e s (invalid_arg, c) h = absurd (cc)
accept-eq g e s (no_memory, c) h = absurd (cc)
accept-eq g e s (not_found, c) h = absurd (cc)
accept-eq g e s (overbooked, c) h = absurd (cc)
accept-eq g e s (no_work, c) h = absurd (cc)
accept-eq g e s (has_backlog, c) h = absurd (cc)
accept-eq g e s (internal, c) h = absurd (cc)

module _ (g : GroupScheduler) (e : Entry) (i w : ℕ) (u : UserData) (now a : ℕ)
    (valid : IsValid g.calendar) (work : w ≢ 0) (id_ok : i < g.max_entries)
    (found : find_entry g i ≡ some e) (rated : session_rate g e ≢ 0) where
  abbrev s : Session
  s = new_session g e i w u now a

  module _ (fits : bin_for g.calendar s < g.calendar.num_bins) where
    -- With work, a configured entry that has a rate, a block of memory and a bin, the call
    -- succeeds, with this result.
    pub enqueue-success : enqueue g i w u now (some a) ≡ (success, enqueued g e s)
    unfolding enqueue enqueue_at enqueue_for
    enqueue-success =
        rw
          (
            ne→not-== w 0 work,
            (let q : leb g.max_entries i ≡ false = ground arith in q),
            found,
            ne→not-== (session_rate g e) 0 rated,
          )
          (accept-eq g e s (insert_session g.calendar s)
            (insert_session_adds g.calendar s valid.indexed fits).0)
