-- ===== src/Group/Shift.antt =====
-- What a rebase makes of the queue and of the configured entries.
use hwfq_scheduler.Base.{
  ℕ, some, ◌-◌, ◌/◌, ◌≤◌, ◌≡◌, ◌↔◌, refl, ap, ap₂, sym, ◌∙◌, List, [], ◌∷◌, ◌++◌, map, arith,
  Bool-cases, ltb, inl, inr, if◌then◌else◌, Has,
}
use hwfq_scheduler.Types.{Entry, Session}
use hwfq_scheduler.Calendar.Valid.{bin_of}
use hwfq_scheduler.Calendar.Contents.{concat, sessions}
use hwfq_scheduler.Chunked.{get}
use hwfq_scheduler.Group.{GroupScheduler}
use hwfq_scheduler.Group.Time.{
  rebase_threshold, shift_down, shift_session, rebase_calendar, rebase_if_needed,
}
use hwfq_scheduler.Group.Walk.{IsOnce, ends_earlier, rebase_entries_listed}
use hwfq_scheduler.Group.Rebase.{get_or-map}

-- Half of virtual time where it has reached the threshold.
abbrev pub offset_at : ℕ → ℕ
offset_at now = if ltb now rebase_threshold then 0 else now / 2

abbrev pub rebased_by : GroupScheduler → ℕ
rebased_by g = offset_at g.calendar.virtual_time

-- The session with both times earlier by n, or 0 where they would be below it.
abbrev pub earlier : ℕ → Session → Session
earlier n s = record s { start_time = s.start_time - n; finish_time = s.finish_time - n }

shift_session-earlier : (n : ℕ) (s : Session) → shift_session n s ≡ earlier n s
unfolding shift_session shift_down
shift_session-earlier n s =
    ap₂ (λ a b. record s { start_time = a; finish_time = b }) (ground arith) (ground arith)

map-shift_session : (n : ℕ) (xs : List Session) → map (shift_session n) xs ≡ map (earlier n) xs
map-shift_session n [] = refl
map-shift_session n (x ∷ xs) = ap₂ ◌∷◌ (shift_session-earlier n x) (map-shift_session n xs)

map-earlier_zero : (xs : List Session) → map (earlier 0) xs ≡ xs
map-earlier_zero [] = refl
map-earlier_zero (x ∷ xs) =
    ap₂ ◌∷◌ (ap₂ (λ a b. record x { start_time = a; finish_time = b }) (omega arith) (omega arith))
      (map-earlier_zero xs)

-- The bins of a rebased scheduler, all of them at once.
bin_heads-rebased :
    (g : GroupScheduler)
    → (rebase_if_needed g).calendar.bin_heads
      ≡ map (map (earlier (rebased_by g))) g.calendar.bin_heads
unfolding rebase_if_needed rebase_calendar
bin_heads-rebased g = elim (Bool-cases (ltb g.calendar.virtual_time rebase_threshold)) [
  | inl e ↦ rw e (sym (all_zero g.calendar.bin_heads))
  | inr e ↦ rw e (all_shifted g.calendar.bin_heads)
]
  where
    all_zero : (xss : List (List Session)) → map (map (earlier 0)) xss ≡ xss
    all_zero [] = refl
    all_zero (xs ∷ xss) = ap₂ ◌∷◌ (map-earlier_zero xs) (all_zero xss)

    all_shifted :
        (xss : List (List Session))
        → map (map (shift_session (g.calendar.virtual_time / 2))) xss
          ≡ map (map (earlier (g.calendar.virtual_time / 2))) xss
    all_shifted [] = refl
    all_shifted (xs ∷ xss) = ap₂ ◌∷◌ (map-shift_session _ xs) (all_shifted xss)

pub virtual_time-rebased :
    (g : GroupScheduler)
    → ((rebase_if_needed g).calendar.virtual_time ≡ g.calendar.virtual_time - rebased_by g)
      × (rebased_by g ≤ g.calendar.virtual_time)
unfolding rebase_if_needed rebase_calendar
virtual_time-rebased g = elim (Bool-cases (ltb g.calendar.virtual_time rebase_threshold)) [
  | inl e ↦ rw e (omega arith, omega arith)
  | inr e ↦ rw e (refl, omega arith)
]

entries-rebased :
    (g : GroupScheduler) (j : ℕ) (e : Entry)
    → IsOnce g.configured_entries
    → Has j g.configured_entries
    → get g.entries j ≡ some e
    → get (rebase_if_needed g).entries j ≡ some (ends_earlier (rebased_by g) e)
unfolding rebase_if_needed
entries-rebased g j e once listed there =
    elim (Bool-cases (ltb g.calendar.virtual_time rebase_threshold)) [
      | inl le ↦ rw le (
          there
          ∙ ap (λ t. some (record e { last_finish_time = t }))
              (let q : e.last_finish_time ≡ e.last_finish_time - 0 = omega arith in q))
      | inr ge ↦ rw ge (
          rebase_entries_listed (g.calendar.virtual_time / 2) g.configured_entries g.entries j e
            once listed there)
    ]

-- A rebase takes the same offset from virtual time, bin by bin from both times of every session, and
-- from the last finish time of every configured entry, if none is configured twice, where a time of
-- a session or an entry that is below the offset becomes 0; the offset is 0 below the threshold of a
-- rebase and half of virtual time from there on. A session may start afterwards exactly where it
-- could before.
pub rebase_if_needed_lem :
    (g : GroupScheduler) (i : ℕ) (s : Session) (j : ℕ) (e : Entry)
    → IsOnce g.configured_entries
    → Has j g.configured_entries
    → get g.entries j ≡ some e
    → let n = rebased_by g in
      let h = rebase_if_needed g in
      (h.calendar.virtual_time ≡ g.calendar.virtual_time - n)
      × (bin_of h.calendar i ≡ map (earlier n) (bin_of g.calendar i))
      × (get h.entries j ≡ some (ends_earlier n e))
      × (((earlier n s).start_time ≤ h.calendar.virtual_time)
          ↔ (s.start_time ≤ g.calendar.virtual_time))
rebase_if_needed_lem g i s j e once listed there =
    let v = virtual_time-rebased g in
    (
      v.0,
      rw (bin_heads-rebased g) (get_or-map (earlier (rebased_by g)) g.calendar.bin_heads i),
      entries-rebased g j e once listed there,
      (λ l. omega (arith, v.0, v.1), λ l. omega (arith, v.0, v.1)),
    )

map-append :
    (f : Session → Session) (xs ys : List Session) → map f (xs ++ ys) ≡ map f xs ++ map f ys
map-append f [] ys = refl
map-append f (x ∷ xs) ys = ap (λ zs. f x ∷ zs) (map-append f xs ys)

concat-map :
    (f : Session → Session) (xss : List (List Session))
    → concat (map (map f) xss) ≡ map f (concat xss)
concat-map f [] = refl
concat-map f (xs ∷ xss) =
    ap (λ zs. map f xs ++ zs) (concat-map f xss) ∙ sym (map-append f xs (concat xss))

pub sessions-rebased :
    (g : GroupScheduler)
    → sessions (rebase_if_needed g).calendar ≡ map (earlier (rebased_by g)) (sessions g.calendar)
sessions-rebased g =
    ap concat (bin_heads-rebased g) ∙ concat-map (earlier (rebased_by g)) g.calendar.bin_heads
