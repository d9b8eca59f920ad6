-- ===== src/Calendar/Progress.antt =====
-- `calendar_find_min_session`: what it returns, and when it returns nothing.
use hwfq_scheduler.Base.{
  ℕ, ◌≤◌, ◌<◌, ◌==◌, ◌≡◌, ◌≢◌, ◌⊎◌, refl, inl, inr, Option, none, some, arith, subst, Bool-cases,
  Option-cases, ltb, ltb→lt, not-ltb→le, ==→eq, ==→ne, ne→not-==, All, All-Has, Has,
}
use hwfq_scheduler.Types.{u64_max, Session}
use hwfq_scheduler.Calendar.{Calendar}
use hwfq_scheduler.Calendar.Search.{
  find_eligible_min_bitfield, search_again, search_twice, update_cache, find_min_session,
}
use hwfq_scheduler.Calendar.Valid.{IsValid, bin_of}
use hwfq_scheduler.Calendar.Least.{IsEligibleMin, find-IsEligibleMin}
use hwfq_scheduler.Calendar.Contents.{sessions, Has-bin}

-- Every session has a start time not after its finish time, and a finish time below the sentinel.
abbrev pub IsTimed : Calendar → Type 0
IsTimed c =
    (i : ℕ) → All (λ t. (t.start_time ≤ t.finish_time) × (t.finish_time < u64_max)) (bin_of c i)

-- Virtual time stays, or jumps ahead to the cached smallest start time.
abbrev pub Moved : Calendar → ℕ → Type 0
Moved c vt = (vt ≡ c.virtual_time) ⊎ ((vt ≡ c.min_start_time) × (c.virtual_time < c.min_start_time))

-- What the search with its retry has found, and where virtual time then stands.
record Searched (c : Calendar) (r : Option Session × Calendar) : Type 0 where
  least : IsEligibleMin c (r.1).virtual_time r.0
  later : c.virtual_time ≤ (r.1).virtual_time
  moved : Moved c (r.1).virtual_time
  reached : (r.0 ≡ none) → (c.min_start_time ≡ u64_max) ⊎ (c.min_start_time ≤ (r.1).virtual_time)

module _ (c : Calendar) (v : IsValid c) where
  found_at : (vt : ℕ) → IsEligibleMin c vt (find_eligible_min_bitfield c vt)
  found_at vt = find-IsEligibleMin c vt v.indexed v.ordered

  search_again-Searched : Searched c (search_again c)
  unfolding search_again
  search_again-Searched = elim (Bool-cases (ltb c.virtual_time c.min_start_time)) [
    | inl e ↦ rw e (record {
      least = found_at c.min_start_time;
      later = omega (arith, ltb→lt _ _ e);
      moved = inr (refl, ltb→lt _ _ e);
      reached = λ q. inr (omega arith);
    })
    | inr e ↦ rw e (record {
      least = found_at c.virtual_time;
      later = omega arith;
      moved = inl refl;
      reached = λ q. inr (not-ltb→le _ _ e);
    })
  ]

  search_twice-Searched :
      (first : Option Session)
      → IsEligibleMin c c.virtual_time first
      → Searched c (search_twice first c)
  unfolding search_twice
  search_twice-Searched (some s) h = record {
    least = h;
    later = omega arith;
    moved = inl refl;
    reached = λ q. cc;
  }
  search_twice-Searched none h = elim (Bool-cases (c.min_start_time == u64_max)) [
    | inl e ↦ rw e (record {
      least = h;
      later = omega arith;
      moved = inl refl;
      reached = λ q. inl (==→eq _ _ e);
    })
    | inr e ↦ rw e search_again-Searched
  ]

update_cache-keeps :
    (r : Option Session × Calendar)
    → ((update_cache r).0 ≡ r.0) × ((update_cache r).1.virtual_time ≡ r.1.virtual_time)
unfolding update_cache
update_cache-keeps (none, d) = (refl, refl)
update_cache-keeps (some s, d) = (refl, refl)

-- Virtual time, the cached finish time and nothing else may change.
pub record KeepsQueue (c d : Calendar) : Type 0 where
  pub heads : d.bin_heads ≡ c.bin_heads
  pub bins : d.bin_bitfield ≡ c.bin_bitfield
  pub groups : d.group_bitfield ≡ c.group_bitfield
  pub num_bins : d.num_bins ≡ c.num_bins
  pub size : d.bin_bitfield_size ≡ c.bin_bitfield_size
  pub min_start : d.min_start_time ≡ c.min_start_time
  pub count : d.active_session_count ≡ c.active_session_count
  pub per_group : d.bins_per_group ≡ c.bins_per_group
  pub base : d.base_interval ≡ c.base_interval

search_twice-KeepsQueue :
    (first : Option Session) (c : Calendar) → KeepsQueue c (search_twice first c).1
unfolding search_twice search_again
search_twice-KeepsQueue (some s) c = ground arith
search_twice-KeepsQueue none c = ground arith

update_cache-KeepsQueue :
    (c : Calendar) (r : Option Session × Calendar)
    → KeepsQueue c r.1
    → KeepsQueue c (update_cache r).1
unfolding update_cache
update_cache-KeepsQueue c (none, d) k = k
update_cache-KeepsQueue c (some s, d) k = ground arith

pub find_min_session-KeepsQueue : (c : Calendar) → KeepsQueue c (find_min_session c).1
unfolding find_min_session
find_min_session-KeepsQueue c = elim (Bool-cases (c.active_session_count == 0)) [
  | inl e ↦ rw e (ground arith)
  | inr e ↦ rw e (
      update_cache-KeepsQueue c _
        (search_twice-KeepsQueue (find_eligible_min_bitfield c c.virtual_time) c))
]

module _ (c : Calendar) (v : IsValid c) (busy : c.active_session_count ≢ 0) where
  abbrev searched : Option Session × Calendar
  searched = search_twice (find_eligible_min_bitfield c c.virtual_time) c

  find_min_session-eq : find_min_session c ≡ update_cache searched
  unfolding find_min_session
  find_min_session-eq = rw (ne→not-== _ _ busy) refl

  find_min_session-Searched : Searched c (find_min_session c)
  find_min_session-Searched =
      let k = update_cache-keeps searched in
      let h =
        search_twice-Searched c v (find_eligible_min_bitfield c c.virtual_time)
          (found_at c v c.virtual_time) in
      rw find_min_session-eq (record {
        least = rw (k.0, k.1) h.least;
        later = rw k.1 h.later;
        moved = rw k.1 h.moved;
        reached = rw (k.0, k.1) h.reached;
      })

  -- On a valid calendar whose count is not 0: at the virtual time that the call leaves, which is not
  -- before the one that it found, the session returned may start and has the smallest finish time of all that may start;
  -- if none is returned, every session that may start has the finish time `UINT64_MAX`.
  pub find_min_session-IsEligibleMin :
      IsEligibleMin c (find_min_session c).1.virtual_time (find_min_session c).0
      × (c.virtual_time ≤ (find_min_session c).1.virtual_time)
  find_min_session-IsEligibleMin =
      (find_min_session-Searched.least, find_min_session-Searched.later)

  pub find_min_session-Moved : Moved c (find_min_session c).1.virtual_time
  find_min_session-Moved = find_min_session-Searched.moved

  -- On a valid calendar whose count is not 0, while a session is queued and no finish time is
  -- saturated, one is found.
  pub find_min_session-ne-none :
      IsTimed c → (t : Session) → Has t (sessions c) → (find_min_session c).0 ≢ none
  find_min_session-ne-none timed t held nothing =
      let (i, h) = Has-bin t c.bin_heads held in
      let tt_ok = All-Has _ t (bin_of c i) (timed i) h in
      let low = All-Has _ t (bin_of c i) (v.min_start.lower i) h in
      elim (find_min_session-Searched.reached nothing) [
        | inl e ↦ omega arith
        | inr le ↦ elim v.min_start.attained [
          | inl e ↦ omega arith
          | inr (j, s, g, p) ↦
              let s_ok = All-Has _ s (bin_of c j) (timed j) g in
              let all =
                subst (IsEligibleMin c (find_min_session c).1.virtual_time) nothing
                  find_min_session-Searched.least in
              let big = All-Has _ s (bin_of c j) (all j) g (omega arith) in omega arith
        ]
      ]

-- On a valid calendar where every session's finish time is saturated, none is found, however many
-- are queued.
pub find_min_session_saturated :
    (c : Calendar)
    → IsValid c
    → ((i : ℕ) → All (λ t. t.finish_time ≡ u64_max) (bin_of c i))
    → (find_min_session c).0 ≡ none
find_min_session_saturated c v full = elim (Bool-cases (c.active_session_count == 0)) [
  | inl e ↦ unfold find_min_session in rw e refl
  | inr e ↦ elim (Option-cases (find_min_session c).0) [
    | inl q ↦ q
    | inr (s, q) ↦
        let all =
          subst (IsEligibleMin c (find_min_session c).1.virtual_time) q
            (find_min_session-IsEligibleMin c v (==→ne _ _ e)).0 in
        absurd (
          omega
            (arith, all.0.finite, All-Has _ s (bin_of c all.0.bin) (full all.0.bin) all.0.member))
  ]
]
