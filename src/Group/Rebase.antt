-- ===== src/Group/Rebase.antt =====
-- Rebasing virtual time, and what is always true of a ready scheduler.
use hwfq_scheduler.Base.{
  ℕ, zero, suc, ◌/◌, ◌^◌, ◌≤◌, ◌<◌, not, ◌==◌, ◌≡◌, ◌⊎◌, refl, ap, sym, ◌∙◌, List, [], ◌∷◌, map,
  arith, Bool-cases, ltb, length, get_or, All, Has, inl, inr, ltb→lt, length-append, ==→eq,
}
use hwfq_scheduler.Types.{u64_max, Session}
use hwfq_scheduler.Calendar.{Calendar, is_nil}
use hwfq_scheduler.Calendar.Valid.{IsValid, IsIndexed, IsOrdered, IsMinStart, StartsAt, bin_of}
use hwfq_scheduler.Calendar.Bins.{Before, IsSorted, IsDistinct}
use hwfq_scheduler.Calendar.Progress.{IsTimed}
use hwfq_scheduler.Calendar.Contents.{concat}
use hwfq_scheduler.Group.{GroupScheduler}
use hwfq_scheduler.Group.Time.{
  rebase_threshold, shift_down, shift_cached, shift_session, rebase_calendar, rebase_if_needed,
}
use hwfq_scheduler.Group.Ready.{IsReady}

pub get_or-map :
    (f : Session → Session) (xss : List (List Session)) (i : ℕ)
    → get_or (map (map f) xss) i [] ≡ map f (get_or xss i [])
get_or-map f [] i = refl
get_or-map f (xs ∷ xss) zero = refl
get_or-map f (xs ∷ xss) (suc i) = get_or-map f xss i

length-map_all : {A : Type 0} (f : A → A) (xs : List A) → length (map f xs) ≡ length xs
length-map_all f [] = refl
length-map_all f (x ∷ xs) = ap suc (length-map_all f xs)

length-concat-map :
    (f : Session → Session) (xss : List (List Session))
    → length (concat (map (map f) xss)) ≡ length (concat xss)
length-concat-map f [] = refl
length-concat-map f (xs ∷ xss) = omega (
  arith,
  length-append (map f xs) (concat (map (map f) xss)),
  length-append xs (concat xss),
  length-map_all f xs,
  length-concat-map f xss,
)

is_nil-map : (f : Session → Session) (xs : List Session) → is_nil (map f xs) ≡ is_nil xs
is_nil-map f [] = refl
is_nil-map f (x ∷ xs) = refl

pub All-over_map {κ κ'} :
    (P : Session → Type κ) (Q : Session → Type κ') (f : Session → Session)
    → ((s : Session) → P s → Q (f s))
    → (xs : List Session) → All P xs
    → All Q (map f xs)
All-over_map P Q f g [] h = tt
All-over_map P Q f g (x ∷ xs) h = (g x h.0, All-over_map P Q f g xs h.1)

pub Has-map :
    (f : Session → Session) (s : Session) (xs : List Session) → Has s xs → Has (f s) (map f xs)
Has-map f s [] h = h
Has-map f s (x ∷ xs) (inl e) = inl (ap f e)
Has-map f s (x ∷ xs) (inr h) = inr (Has-map f s xs h)

-- The times of one session are in order and below the sentinel.
abbrev TimedSession : Session → Type 0
TimedSession t = (t.start_time ≤ t.finish_time) × (t.finish_time < u64_max)

module _ (offset : ℕ) where
  pub shift_down_mono : (a b : ℕ) → a ≤ b → shift_down offset a ≤ shift_down offset b
  unfolding shift_down
  shift_down_mono a b h = ground arith

  shift_session-Before :
      (x y : Session)
      → TimedSession x
      → Before x y
      → Before (shift_session offset x) (shift_session offset y)
  unfolding shift_session shift_down
  shift_session-Before x y t b = ground arith

  map-IsSorted :
      (xs : List Session)
      → All TimedSession xs
      → IsSorted xs
      → IsSorted (map (shift_session offset) xs)
  map-IsSorted [] t h = tt
  map-IsSorted (x ∷ xs) t h = (
    All-over_map (Before x) (Before (shift_session offset x)) (shift_session offset)
        (λ y. shift_session-Before x y t.0) xs h.0,
    map-IsSorted xs t.1 h.1,
  )

  map-IsDistinct : (xs : List Session) → IsDistinct xs → IsDistinct (map (shift_session offset) xs)
  unfolding shift_session
  map-IsDistinct [] h = tt
  map-IsDistinct (x ∷ xs) h =
      (All-over_map _ _ (shift_session offset) (λ y ne. ne) xs h.0, map-IsDistinct xs h.1)

  shift_session-TimedSession :
      (s : Session) → TimedSession s → TimedSession (shift_session offset s)
  unfolding shift_session shift_down
  shift_session-TimedSession s t = ground arith

  module _ (c : Calendar) (v : IsValid c) (timed : IsTimed c) where
    abbrev rebased : Calendar
    rebased = rebase_calendar offset c

    bins : (i : ℕ) → bin_of rebased i ≡ map (shift_session offset) (bin_of c i)
    unfolding rebase_calendar
    bins i = get_or-map (shift_session offset) c.bin_heads i

    rebased-IsIndexed : IsIndexed rebased
    unfolding rebase_calendar
    rebased-IsIndexed = record {
      heads_length = length-map_all _ c.bin_heads ∙ v.indexed.heads_length;
      words_length = v.indexed.words_length;
      words_cover = v.indexed.words_cover;
      groups_length = v.indexed.groups_length;
      bins_fit = v.indexed.bins_fit;
      bin_words = v.indexed.bin_words;
      group_words = v.indexed.group_words;
      bin_bits = λ i.
          v.indexed.bin_bits i
          ∙ ap not (
              sym (is_nil-map (shift_session offset) (bin_of c i))
              ∙ ap is_nil (sym (get_or-map (shift_session offset) c.bin_heads i)));
      group_bits = v.indexed.group_bits;
    }

    rebased-IsOrdered : IsOrdered rebased
    unfolding shift_session
    rebased-IsOrdered = record {
      sorted = λ i. rw (bins i) (map-IsSorted (bin_of c i) (timed i) (v.ordered.sorted i));
      distinct = λ i. rw (bins i) (map-IsDistinct (bin_of c i) (v.ordered.distinct i));
      placed = λ i.
          rw (bins i)
            (All-over_map _ _ (shift_session offset) (λ s p. p) (bin_of c i) (v.ordered.placed i));
    }

    pub rebased-IsTimed : IsTimed rebased
    rebased-IsTimed i =
        rw (bins i) (
          All-over_map _ _ (shift_session offset) shift_session-TimedSession (bin_of c i) (timed i))

    shift_lower :
        (s : Session)
        → (c.min_start_time ≤ s.start_time) × TimedSession s
        → shift_cached offset c.min_start_time ≤ (shift_session offset s).start_time
    unfolding shift_cached shift_session shift_down
    shift_lower s h = ground arith

    All-both {κ κ'} :
        (P : Session → Type κ) (Q : Session → Type κ') (xs : List Session)
        → All P xs
        → All Q xs
        → All (λ s. P s × Q s) xs
    All-both P Q [] h k = tt
    All-both P Q (x ∷ xs) h k = ((h.0, k.0), All-both P Q xs h.1 k.1)

    shift_attained :
        (c.min_start_time ≡ u64_max) ⊎ StartsAt c c.min_start_time
        → (shift_cached offset c.min_start_time ≡ u64_max)
          ⊎ StartsAt rebased (shift_cached offset c.min_start_time)
    unfolding shift_cached
    shift_attained (inl e) = inl (rw e refl)
    shift_attained (inr (i, s, h, p)) = elim (Bool-cases (c.min_start_time == u64_max)) [
      | inl e ↦ inl (rw e (==→eq _ _ e))
      | inr e ↦ rw e (
          inr (
            i,
            shift_session offset s,
            rw (bins i) (Has-map (shift_session offset) s (bin_of c i) h),
            unfold shift_session in ap (shift_down offset) p,
          ))
    ]

    rebased-IsMinStart : IsMinStart rebased rebased.min_start_time
    unfolding rebase_calendar
    rebased-IsMinStart = record {
      lower = λ i. rw (bins i) (
          All-over_map _ _ (shift_session offset) shift_lower (bin_of c i)
            (All-both _ _ (bin_of c i) (v.min_start.lower i) (timed i)));
      attained = shift_attained v.min_start.attained;
    }

    pub rebase_calendar-IsValid : IsValid rebased
    rebase_calendar-IsValid = record {
      indexed = rebased-IsIndexed;
      ordered = rebased-IsOrdered;
      min_start = rebased-IsMinStart;
    }

-- A ready scheduler with virtual time within 64 bits stays ready under a rebase, if one is needed,
-- and its virtual time is at most 2 ^ 63 then.
pub rebase_if_needed-IsReady :
    (g : GroupScheduler)
    → IsReady g
    → g.calendar.virtual_time ≤ u64_max
    → IsReady (rebase_if_needed g) × ((rebase_if_needed g).calendar.virtual_time ≤ 2 ^ 63)
unfolding rebase_if_needed
rebase_if_needed-IsReady g r h = elim (Bool-cases (ltb g.calendar.virtual_time rebase_threshold)) [
  | inl e ↦ rw e (r, omega (arith, ltb→lt _ _ e))
  | inr e ↦
      let offset = g.calendar.virtual_time / 2 in
      rw e (
        record {
          calendar = rebase_calendar-IsValid offset g.calendar r.calendar r.timed;
          timed = rebased-IsTimed offset g.calendar r.calendar r.timed;
          counted =
              unfold rebase_calendar in
              r.counted ∙ sym (length-concat-map (shift_session offset) g.calendar.bin_heads);
        },
        unfold rebase_calendar in omega arith,
      )
]
