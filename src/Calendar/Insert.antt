-- ===== src/Calendar/Insert.antt =====
-- `calendar_insert_session` keeps the calendar valid and adds the session to its contents.
use mathlib.Core.List.{Perm}
use hwfq_scheduler.Base.{
  ℕ, ◌+◌, ◌*◌, ◌/◌, ◌%◌, ◌^◌, ◌≤◌, ◌<◌, true, false, ◌≡◌, ◌≢◌, ◌⊎◌, refl, sym, inl, inr, some, List,
  [], ◌∷◌, arith, get_or, set, subst, Bool-cases, ltb, leb, ltb→lt, not-ltb→le, get_or-set_self,
  get_or-set_ne, ℕ_discrete, All, All-map, Has, if◌then◌else◌,
}
use hwfq_scheduler.Types.{u64_max, Session, success, internal}
use hwfq_scheduler.Calendar.{
  Calendar, is_nil, insert_sorted, bin_list_insert, insert_session,
  calculate_bin_index_from_finish_time, set_bin_bit,
}
use hwfq_scheduler.Calendar.Bins.{
  insert_sorted-IsSorted, insert_sorted-IsDistinct, All-insert_sorted, Has-insert_sorted,
  Has-insert_sorted_old, insert_sorted-perm, IsSorted, IsDistinct,
}
use hwfq_scheduler.Calendar.Valid.{IsValid, IsIndexed, IsOrdered, IsMinStart, StartsAt, bin_of}
use hwfq_scheduler.Calendar.Contents.{sessions, concat-set_more}
use hwfq_scheduler.Calendar.Fields.{IsIndexed-same, fill-IsIndexed, group_bound}

-- The bin that the code computes for a session.
abbrev pub bin_for : Calendar → Session → ℕ
bin_for c s =
    (s.group_index * c.bins_per_group
      + calculate_bin_index_from_finish_time s.finish_time s.group_index c.bins_per_group
          c.base_interval)
    % 2 ^ 32

-- The session as it is stored.
abbrev pub stored : Calendar → Session → Session
stored c s = record s { bin_index = bin_for c s }

-- No session of the calendar has the address: what the allocator promises of a new block.
abbrev pub IsFresh : Calendar → ℕ → Type 0
IsFresh c a = (i : ℕ) → All (λ y. y.address ≢ a) (bin_of c i)

leb_cases : (a b : ℕ) → (leb a b ≡ true) × (a ≤ b) ⊎ (leb a b ≡ false) × (b < a)
leb_cases a b = elim (Bool-cases (leb a b)) [
  | inl e ↦ inl (e, ground arith)
  | inr e ↦ inr (e, ground arith)
]

is_nil-insert_sorted : (s : Session) (xs : List Session) → is_nil (insert_sorted s xs) ≡ false
unfolding insert_sorted
is_nil-insert_sorted s [] = refl
is_nil-insert_sorted s (x ∷ xs) = ground arith

module _ (c : Calendar) (s : Session) (lt : bin_for c s < c.num_bins) where
  abbrev bin_after : List Session
  bin_after = insert_sorted (stored c s) (bin_of c (bin_for c s))

  abbrev heads_after : List (List Session)
  heads_after = set c.bin_heads (bin_for c s) bin_after

  -- Bin i after the insertion has the property if it had it, and the changed bin has it.
  bins_after {κ} :
      (x : IsIndexed c) (P : ℕ → List Session → Type κ)
      → P (bin_for c s) bin_after
      → ((i : ℕ) → P i (bin_of c i))
      → (i : ℕ) → P i (get_or heads_after i [])
  bins_after x P new old i = elim (ℕ_discrete (bin_for c s) i) [
    | yes p ↦
        subst (λ j. P j (get_or heads_after j [])) p
          (subst (P (bin_for c s))
            (sym (
              get_or-set_self c.bin_heads (bin_for c s) bin_after []
                (omega (arith, x.heads_length))))
            new)
    | no ne ↦ subst (P i) (sym (get_or-set_ne c.bin_heads (bin_for c s) i bin_after [] ne)) (old i)
  ]

  -- What the code leaves on success, with the cached minima as they may be.
  abbrev inserted : Calendar
  inserted = record c {
    bin_heads = heads_after;
    bin_bitfield = set_bin_bit c.bin_bitfield (bin_for c s);
    group_bitfield = set_bin_bit c.group_bitfield (bin_for c s / 32);
    min_finish_time =
        (if ltb s.finish_time c.min_finish_time then s.finish_time else c.min_finish_time);
    min_session = (if ltb s.finish_time c.min_finish_time then some s.address else c.min_session);
    min_start_time = (if ltb s.start_time c.min_start_time then s.start_time else c.min_start_time);
  }

  inserted-IsOrdered : IsIndexed c → IsOrdered c → IsFresh c s.address → IsOrdered inserted
  inserted-IsOrdered x o fresh = record {
    sorted =
        bins_after x (λ i xs. IsSorted xs)
          (insert_sorted-IsSorted (stored c s) _ (o.sorted (bin_for c s))) o.sorted;
    distinct =
        bins_after x (λ i xs. IsDistinct xs)
          (insert_sorted-IsDistinct (stored c s) _ (fresh (bin_for c s)) (o.distinct (bin_for c s)))
          o.distinct;
    placed =
        bins_after x (λ i xs. All (λ t. t.bin_index ≡ i) xs)
          (All-insert_sorted _ (stored c s) _ refl (o.placed (bin_for c s))) o.placed;
  }

  -- A session that was there still is.
  still_there :
      IsIndexed c → (i : ℕ) (t : Session) → Has t (bin_of c i) → Has t (get_or heads_after i [])
  still_there x i t =
      bins_after x (λ j xs. Has t (bin_of c j) → Has t xs)
        (Has-insert_sorted_old (stored c s) t (bin_of c (bin_for c s))) (λ j h. h) i

  inserted-IsMinStart :
      IsIndexed c → IsMinStart c c.min_start_time → IsMinStart inserted inserted.min_start_time
  inserted-IsMinStart x m = elim (Bool-cases (ltb s.start_time c.min_start_time)) [
    | inl e ↦ rw e (record {
      lower =
          bins_after x (λ i xs. All (λ t. s.start_time ≤ t.start_time) xs)
            (All-insert_sorted _ (stored c s) _ (omega arith) (weaker e (bin_for c s))) (weaker e);
      attained = inr (
        bin_for c s,
        stored c s,
        subst (Has (stored c s))
            (sym (
              get_or-set_self c.bin_heads (bin_for c s) bin_after []
                (omega (arith, x.heads_length))))
            (Has-insert_sorted (stored c s) (bin_of c (bin_for c s))),
        refl,
      );
    })
    | inr e ↦ rw e (record {
      lower =
          bins_after x (λ i xs. All (λ t. c.min_start_time ≤ t.start_time) xs)
            (All-insert_sorted _ (stored c s) _ (not-ltb→le _ _ e) (m.lower (bin_for c s))) m.lower;
      attained = kept m.attained;
    })
  ]
    where
      weaker :
          ltb s.start_time c.min_start_time ≡ true
          → (i : ℕ) → All (λ t. s.start_time ≤ t.start_time) (bin_of c i)
      weaker e i = All-map _ _ (λ t p. omega (arith, ltb→lt _ _ e)) (bin_of c i) (m.lower i)

      kept :
          (c.min_start_time ≡ u64_max) ⊎ StartsAt c c.min_start_time
          → (c.min_start_time ≡ u64_max) ⊎ StartsAt inserted c.min_start_time
      kept (inl p) = inl p
      kept (inr (i, t, h, p)) = inr (i, t, still_there x i t h, p)

  inserted-IsValid : IsValid c → IsFresh c s.address → IsValid inserted
  inserted-IsValid v fresh = record {
    indexed = IsIndexed-same _ inserted refl refl refl refl refl (
        fill-IsIndexed c v.indexed (bin_for c s) lt bin_after
          (is_nil-insert_sorted (stored c s) (bin_of c (bin_for c s))));
    ordered = inserted-IsOrdered v.indexed v.ordered fresh;
    min_start = inserted-IsMinStart v.indexed v.min_start;
  }

  insert_session-eq :
      IsIndexed c → leb c.num_bins (bin_for c s) ≡ false → insert_session c s ≡ (success, inserted)
  unfolding insert_session bin_list_insert
  insert_session-eq x e = rw (e, group_bound c x (bin_for c s) lt) refl

-- The code refuses a session whose bin does not exist and changes nothing then.
pub insert_session_refused :
    (c : Calendar) (s : Session) → c.num_bins ≤ bin_for c s → insert_session c s ≡ (internal, c)
unfolding insert_session
insert_session_refused c s h = elim (leb_cases c.num_bins (bin_for c s)) [
  | inl (e, _) ↦ rw e refl
  | inr (_, l) ↦ absurd (omega arith)
]

-- Inserting a session at a new address keeps a valid calendar valid, also when the session is
-- refused.
pub insert_session-IsValid :
    (c : Calendar) (s : Session) → IsValid c → IsFresh c s.address → IsValid (insert_session c s).1
insert_session-IsValid c s v fresh = elim (leb_cases c.num_bins (bin_for c s)) [
  | inl (_, l) ↦ rw (insert_session_refused c s l) v
  | inr (e, l) ↦ rw (insert_session-eq c s l v.indexed e) (inserted-IsValid c s l v fresh)
]

-- A session whose bin exists is accepted by a well-indexed calendar, which then holds it beside what
-- it held; virtual time and the count are left alone.
pub insert_session_adds :
    (c : Calendar) (s : Session)
    → IsIndexed c
    → bin_for c s < c.num_bins
    → ((insert_session c s).0 ≡ success)
      × Perm (sessions (insert_session c s).1) (stored c s ∷ sessions c)
      × ((insert_session c s).1.virtual_time ≡ c.virtual_time)
      × ((insert_session c s).1.active_session_count ≡ c.active_session_count)
insert_session_adds c s x l = elim (leb_cases c.num_bins (bin_for c s)) [
  | inl (_, h) ↦ absurd (omega arith)
  | inr (e, _) ↦ rw (insert_session-eq c s l x e) (
    refl,
    concat-set_more (stored c s) c.bin_heads (bin_for c s) (bin_after c s l)
        (omega (arith, x.heads_length)) (insert_sorted-perm (stored c s) (bin_of c (bin_for c s))),
    refl,
    refl,
  )
]

-- What holds of the new session and of all that were there holds of all that are there.
pub insert_session-All {κ} :
    (P : Session → Type κ) (c : Calendar) (s : Session)
    → IsIndexed c
    → P (stored c s)
    → ((i : ℕ) → All P (bin_of c i))
    → (i : ℕ) → All P (bin_of (insert_session c s).1 i)
insert_session-All P c s x p h = elim (leb_cases c.num_bins (bin_for c s)) [
  | inl (_, l) ↦ rw (insert_session_refused c s l) h
  | inr (e, l) ↦ rw (insert_session-eq c s l x e) (
      bins_after c s l x (λ i xs. All P xs)
        (All-insert_sorted P (stored c s) (bin_of c (bin_for c s)) p (h (bin_for c s))) h)
]
