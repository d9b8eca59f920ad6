-- ===== src/Calendar/Unlink.antt =====
-- `calendar_remove_session` keeps the calendar valid and takes the session out of its contents.
use mathlib.Core.List.{Perm}
use hwfq_scheduler.Base.{
  ℕ, ◌≤◌, ◌<◌, false, ◌==◌, ◌≡◌, ◌≢◌, ◌⊎◌, refl, ap, sym, ◌∙◌, inl, inr, List, [], ◌∷◌, arith, set,
  subst, Bool-cases, leb, ==→ne, get_or-set_self, get_or-set_ne, ℕ_discrete, dec_lt, get_or_out,
  ==→eq, ==_self, All, All-Has, Has,
}
use hwfq_scheduler.Types.{u64_max, Session, success}
use hwfq_scheduler.Calendar.{Calendar, is_nil, unlink, bin_list_remove}
use hwfq_scheduler.Calendar.Remove.{
  clear_group, clear_if_empty, forget_min_session, recompute_min_start, remove_session,
}
use hwfq_scheduler.Calendar.Bins.{
  IsSorted, IsDistinct, unlink-IsSorted, unlink-IsDistinct, All-unlink, unlink-perm,
}
use hwfq_scheduler.Calendar.Valid.{IsValid, IsIndexed, IsOrdered, IsMinStart, StartsAt, bin_of}
use hwfq_scheduler.Calendar.Fields.{IsIndexed-same}
use hwfq_scheduler.Calendar.Same.{IsMinStart-same, IsOrdered-same}
use hwfq_scheduler.Calendar.Clear.{clear_if_empty-IsIndexed}
use hwfq_scheduler.Calendar.Start.{lower_words-IsMinStart}
use hwfq_scheduler.Calendar.Contents.{sessions, concat-set_less}

-- Of the sessions of a list, only the one at the address is gone.
Has-unlink_other :
    (s t : Session) (xs : List Session)
    → IsDistinct xs
    → Has s xs
    → Has t xs
    → (t ≡ s) ⊎ Has t (unlink s.address xs)
unfolding unlink
Has-unlink_other s t [] d h g = absurd h
Has-unlink_other s t (x ∷ xs) d (inl p) (inl q) = inl (q ∙ sym p)
Has-unlink_other s t (x ∷ xs) d (inl p) (inr q) = inr (rw (p, ==_self x.address) q)
Has-unlink_other s t (x ∷ xs) d (inr p) (inl q) = elim (Bool-cases (x.address == s.address)) [
  | inl e ↦ absurd (All-Has (λ y. y.address ≢ x.address) s xs d.0 p (sym (==→eq _ _ e)))
  | inr e ↦ inr (rw e (inl q))
]
Has-unlink_other s t (x ∷ xs) d (inr p) (inr q) = elim (Bool-cases (x.address == s.address)) [
  | inl e ↦ inr (rw e q)
  | inr e ↦ elim (Has-unlink_other s t xs d.1 p q) [ inl r ↦ inl r | inr r ↦ inr (rw e (inr r)) ]
]

used_of_Has : (s : Session) (xs : List Session) → Has s xs → is_nil xs ≡ false
used_of_Has s [] h = absurd h
used_of_Has s (x ∷ xs) h = refl

-- The steps after the unlinking change no bin and no start time but the cached minimum.
clear_if_empty-keeps :
    (c : Calendar) (b : ℕ)
    → ((clear_if_empty c b).bin_heads ≡ c.bin_heads)
      × ((clear_if_empty c b).min_start_time ≡ c.min_start_time)
      × ((clear_if_empty c b).virtual_time ≡ c.virtual_time)
      × ((clear_if_empty c b).active_session_count ≡ c.active_session_count)
unfolding clear_if_empty clear_group
clear_if_empty-keeps c b = ground arith

forget_min_session-keeps :
    (c : Calendar) (a : ℕ)
    → ((forget_min_session c a).bin_heads ≡ c.bin_heads)
      × ((forget_min_session c a).bin_bitfield ≡ c.bin_bitfield)
      × ((forget_min_session c a).group_bitfield ≡ c.group_bitfield)
      × ((forget_min_session c a).num_bins ≡ c.num_bins)
      × ((forget_min_session c a).bin_bitfield_size ≡ c.bin_bitfield_size)
      × ((forget_min_session c a).min_start_time ≡ c.min_start_time)
      × ((forget_min_session c a).virtual_time ≡ c.virtual_time)
      × ((forget_min_session c a).active_session_count ≡ c.active_session_count)
unfolding forget_min_session
forget_min_session-keeps c a = ground arith

recompute_min_start-keeps :
    (c : Calendar) (t : ℕ)
    → ((recompute_min_start c t).bin_heads ≡ c.bin_heads)
      × ((recompute_min_start c t).bin_bitfield ≡ c.bin_bitfield)
      × ((recompute_min_start c t).group_bitfield ≡ c.group_bitfield)
      × ((recompute_min_start c t).num_bins ≡ c.num_bins)
      × ((recompute_min_start c t).bin_bitfield_size ≡ c.bin_bitfield_size)
      × ((recompute_min_start c t).virtual_time ≡ c.virtual_time)
      × ((recompute_min_start c t).active_session_count ≡ c.active_session_count)
unfolding recompute_min_start
recompute_min_start-keeps c t = ground arith

module _ (c : Calendar) (s : Session) (v : IsValid c) (held : Has s (bin_of c s.bin_index)) where
  abbrev rest : List Session
  rest = unlink s.address (bin_of c s.bin_index)

  abbrev unlinked : Calendar
  unlinked = record c { bin_heads = set c.bin_heads s.bin_index rest }

  in_range : s.bin_index < c.num_bins
  in_range = elim (dec_lt s.bin_index c.num_bins) [
    | yes l ↦ l
    | no l ↦ absurd (
        subst (Has s)
          (get_or_out c.bin_heads s.bin_index [] (omega (arith, v.indexed.heads_length))) held)
  ]

  bins_without {κ} :
      (P : ℕ → List Session → Type κ)
      → P s.bin_index rest
      → ((i : ℕ) → P i (bin_of c i))
      → (i : ℕ) → P i (bin_of unlinked i)
  bins_without P new old i = elim (ℕ_discrete s.bin_index i) [
    | yes p ↦
        subst (λ j. P j (bin_of unlinked j)) p
          (subst (P s.bin_index)
            (sym (
              get_or-set_self c.bin_heads s.bin_index rest []
                (omega (arith, v.indexed.heads_length, in_range))))
            new)
    | no ne ↦ subst (P i) (sym (get_or-set_ne c.bin_heads s.bin_index i rest [] ne)) (old i)
  ]

  unlinked-IsOrdered : IsOrdered unlinked
  unlinked-IsOrdered = record {
    sorted =
        bins_without (λ i xs. IsSorted xs)
          (unlink-IsSorted s.address _ (v.ordered.sorted s.bin_index)) v.ordered.sorted;
    distinct =
        bins_without (λ i xs. IsDistinct xs)
          (unlink-IsDistinct s.address _ (v.ordered.distinct s.bin_index)) v.ordered.distinct;
    placed =
        bins_without (λ i xs. All (λ t. t.bin_index ≡ i) xs)
          (All-unlink _ s.address _ (v.ordered.placed s.bin_index)) v.ordered.placed;
  }

  still_there : (i : ℕ) (t : Session) → Has t (bin_of c i) → (t ≡ s) ⊎ Has t (bin_of unlinked i)
  still_there i t =
      bins_without (λ j xs. Has t (bin_of c j) → (t ≡ s) ⊎ Has t xs)
        (Has-unlink_other s t (bin_of c s.bin_index) (v.ordered.distinct s.bin_index) held)
        (λ j h. inr h) i

  -- Where the session is not the one with the smallest start time, the minimum stays.
  unlinked-IsMinStart : s.start_time ≢ c.min_start_time → IsMinStart unlinked c.min_start_time
  unlinked-IsMinStart ne = record {
    lower =
        bins_without (λ i xs. All (λ t. c.min_start_time ≤ t.start_time) xs)
          (All-unlink _ s.address _ (v.min_start.lower s.bin_index)) v.min_start.lower;
    attained = kept v.min_start.attained;
  }
    where
      kept :
          (c.min_start_time ≡ u64_max) ⊎ StartsAt c c.min_start_time
          → (c.min_start_time ≡ u64_max) ⊎ StartsAt unlinked c.min_start_time
      kept (inl p) = inl p
      kept (inr (i, t, h, p)) = elim (still_there i t h) [
        | inl q ↦ absurd (ne (sym (ap (λ (y : Session). y.start_time) q) ∙ p))
        | inr g ↦ inr (i, t, g, p)
      ]

  abbrev cleared : Calendar
  cleared = forget_min_session (clear_if_empty unlinked s.bin_index) s.address

  cleared-heads : cleared.bin_heads ≡ unlinked.bin_heads
  cleared-heads = (forget_min_session-keeps _ s.address).0 ∙ (clear_if_empty-keeps unlinked _).0

  cleared-IsIndexed : IsIndexed cleared
  cleared-IsIndexed =
      let k = forget_min_session-keeps (clear_if_empty unlinked s.bin_index) s.address in
      IsIndexed-same _ cleared k.0 k.1 k.2 k.3 k.4 (
        clear_if_empty-IsIndexed c v.indexed s.bin_index in_range rest
          (used_of_Has s (bin_of c s.bin_index) held))

  cleared-min_start : cleared.min_start_time ≡ c.min_start_time
  cleared-min_start = (forget_min_session-keeps _ s.address).5 ∙ (clear_if_empty-keeps unlinked _).1

  abbrev removed : Calendar
  removed = recompute_min_start cleared s.start_time

  removed-heads : removed.bin_heads ≡ unlinked.bin_heads
  removed-heads = (recompute_min_start-keeps cleared s.start_time).0 ∙ cleared-heads

  removed-IsMinStart : IsMinStart removed removed.min_start_time
  unfolding recompute_min_start
  removed-IsMinStart = elim (Bool-cases (s.start_time == cleared.min_start_time)) [
    | inl e ↦
        rw e (IsMinStart-same cleared _ _ refl (lower_words-IsMinStart cleared cleared-IsIndexed))
    | inr e ↦ rw e (
        subst (IsMinStart cleared) (sym cleared-min_start) (
          IsMinStart-same unlinked cleared _ cleared-heads
            (unlinked-IsMinStart (subst (λ m. s.start_time ≢ m) cleared-min_start (==→ne _ _ e)))))
  ]

  removed-IsValid : IsValid removed
  removed-IsValid =
      let k = recompute_min_start-keeps cleared s.start_time in
      record {
        indexed = IsIndexed-same cleared removed k.0 k.1 k.2 k.3 k.4 cleared-IsIndexed;
        ordered = IsOrdered-same unlinked removed removed-heads unlinked-IsOrdered;
        min_start = removed-IsMinStart;
      }

  remove_session-eq : remove_session c s ≡ (success, removed)
  unfolding remove_session bin_list_remove
  remove_session-eq =
      rw (let q : leb c.num_bins s.bin_index ≡ false = ground (arith, in_range) in q) refl

  -- Removing a session that a valid calendar holds in the bin that it names succeeds and keeps the
  -- calendar valid: the bit fields stay exact, and `min_start_time` the smallest start time.
  pub remove_session-IsValid : ((remove_session c s).0 ≡ success) × IsValid (remove_session c s).1
  remove_session-IsValid = rw remove_session-eq (refl, removed-IsValid)

  -- Removing a session that a valid calendar holds in the bin that it names takes exactly that
  -- session away, and leaves virtual time and the count alone.
  pub remove_session_takes :
      Perm (sessions c) (s ∷ sessions (remove_session c s).1)
      × ((remove_session c s).1.virtual_time ≡ c.virtual_time)
      × ((remove_session c s).1.active_session_count ≡ c.active_session_count)
  remove_session_takes =
      let k = recompute_min_start-keeps cleared s.start_time in
      let f = forget_min_session-keeps (clear_if_empty unlinked s.bin_index) s.address in
      let g = clear_if_empty-keeps unlinked s.bin_index in
      rw remove_session-eq (
        rw removed-heads (
            concat-set_less s c.bin_heads s.bin_index rest
              (omega (arith, v.indexed.heads_length, in_range))
              (unlink-perm s (bin_of c s.bin_index) (v.ordered.distinct s.bin_index) held)),
        k.5 ∙ f.6 ∙ g.2,
        k.6 ∙ f.7 ∙ g.3,
      )

  -- What holds of all sessions holds of those that are left.
  pub remove_session-All {κ} :
      (P : Session → Type κ)
      → ((i : ℕ) → All P (bin_of c i))
      → (i : ℕ) → All P (bin_of (remove_session c s).1 i)
  remove_session-All P h =
      rw (remove_session-eq, removed-heads)
        (bins_without (λ i xs. All P xs)
          (All-unlink P s.address (bin_of c s.bin_index) (h s.bin_index)) h)
