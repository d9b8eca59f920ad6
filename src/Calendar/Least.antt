-- ===== src/Calendar/Least.antt =====
-- What `find_eligible_min_bitfield` finds.
use hwfq_scheduler.Base.{
  ℕ, zero, suc, ◌+◌, ◌*◌, ◌/◌, ◌≤◌, ◌<◌, ◌≡◌, refl, ap, sym, ◌∙◌, inl, inr, Option, none, some, [],
  arith, All, Has, All-map, subst, ltb, Option-cases, Bool-cases, ltb→lt, not-ltb→le, dec_lt,
}
use hwfq_scheduler.Types.{u64_max, Session}
use hwfq_scheduler.Calendar.{Calendar}
use hwfq_scheduler.Calendar.Search.{
  Best, no_best, first_eligible, consider, search_bins, search_groups, search_words,
  find_eligible_min_bitfield,
}
use hwfq_scheduler.Calendar.Bins.{first_eligible-some, first_eligible-least, first_eligible-none}
use hwfq_scheduler.Calendar.Valid.{bin_of, IsIndexed, IsOrdered, bin_past}
use hwfq_scheduler.Calendar.Sweep.{sweep_word, sweep_group}

-- Every session that may start has at least the finish time m.
abbrev pub NoSooner : Calendar → (vt m i : ℕ) → Type 0
NoSooner c vt m i = All (λ t. t.start_time ≤ vt → m ≤ t.finish_time) (bin_of c i)

-- The session may start at vt, is in some bin, and has a finish time below the sentinel.
pub record IsCandidate (c : Calendar) (vt : ℕ) (s : Session) : Type 0 where
  pub started : s.start_time ≤ vt
  pub finite : s.finish_time < u64_max
  pub bin : ℕ
  pub member : Has s (bin_of c bin)

-- The eligible session with the smallest finish time, or none if no session is eligible.
abbrev pub IsEligibleMin : Calendar → ℕ → Option Session → Type 0
IsEligibleMin c vt none = (i : ℕ) → NoSooner c vt u64_max i
IsEligibleMin c vt (some s) = IsCandidate c vt s × ((i : ℕ) → NoSooner c vt s.finish_time i)

abbrev Found : Calendar → ℕ → Option Session → ℕ → Type 0
Found c vt none m = m ≡ u64_max
Found c vt (some s) m = (s.finish_time ≡ m) × IsCandidate c vt s

module _ (c : Calendar) (vt : ℕ) where
  -- `best` is right about the bins below n.
  record LeastBelow (n : ℕ) (best : Best) : Type 0 where
    least : (i : ℕ) → i < n → NoSooner c vt best.min_eligible_finish i
    found : Found c vt best.eligible_min best.min_eligible_finish

  LeastBelow-empty :
      (i : ℕ) (best : Best) → bin_of c i ≡ [] → LeastBelow i best → LeastBelow (suc i) best
  LeastBelow-empty i best e h = record {
    least = λ j l. elim (dec_lt j i) [
      | yes q ↦ h.least j q
      | no q ↦
          subst (λ xs. All (λ t. t.start_time ≤ vt → best.min_eligible_finish ≤ t.finish_time) xs)
            (sym (ap (bin_of c) (let p : j ≡ i = omega arith in p) ∙ e)) tt
    ];
    found = h.found;
  }

  -- A bin where nothing is sooner.
  LeastBelow-keep :
      (i : ℕ) (best : Best)
      → NoSooner c vt best.min_eligible_finish i
      → LeastBelow i best
      → LeastBelow (suc i) best
  LeastBelow-keep i best e h = record {
    least = λ j l. elim (dec_lt j i) [
      | yes q ↦ h.least j q
      | no q ↦ subst (NoSooner c vt best.min_eligible_finish) (let p : i ≡ j = omega arith in p) e
    ];
    found = h.found;
  }

  Found-le : (e : Option Session) (m : ℕ) → Found c vt e m → m ≤ u64_max
  Found-le none m f = omega arith
  Found-le (some s) m (p, k) = omega (arith, k.finite)

  LeastBelow-better :
      (o : IsOrdered c) (i : ℕ) (best : Best) (s : Session)
      → first_eligible vt (bin_of c i) ≡ some s
      → s.finish_time < best.min_eligible_finish
      → LeastBelow i best
      → LeastBelow (suc i) (record { eligible_min = some s; min_eligible_finish = s.finish_time })
  LeastBelow-better o i best s e l h =
      let r = first_eligible-some vt (bin_of c i) s e in
      LeastBelow-keep i (record { eligible_min = some s; min_eligible_finish = s.finish_time })
        (first_eligible-least vt (bin_of c i) s (o.sorted i) e)
        (record {
          least = λ j q. All-map _ _ (λ t p w. omega (arith, p w)) (bin_of c j) (h.least j q);
          found = (
            refl,
            record {
              started = r.1;
              finite = omega (arith, Found-le best.eligible_min best.min_eligible_finish h.found);
              bin = i;
              member = r.0;
            },
          );
        })

  LeastBelow-consider :
      (o : IsOrdered c) (i : ℕ) (best : Best)
      → LeastBelow i best
      → LeastBelow (suc i) (consider (first_eligible vt (bin_of c i)) best)
  unfolding consider
  LeastBelow-consider o i best h = elim (Option-cases (first_eligible vt (bin_of c i))) [
    | inl e ↦ rw e (
        LeastBelow-keep i best
          (All-map _ _ (λ t p q. absurd (omega arith)) (bin_of c i)
            (first_eligible-none vt (bin_of c i) e))
          h)
    | inr (s, e) ↦ elim (Bool-cases (ltb s.finish_time best.min_eligible_finish)) [
      | inl l ↦ rw (e, consider, l) (LeastBelow-better o i best s e (ltb→lt _ _ l) h)
      | inr l ↦
          rw (e, consider, l)
            (LeastBelow-keep i best
              (All-map _ _ (λ t p q. omega (arith, not-ltb→le _ _ l, p q)) (bin_of c i)
                (first_eligible-least vt (bin_of c i) s (o.sorted i) e))
              h)
    ]
  ]

  module _ (x : IsIndexed c) (o : IsOrdered c) where
    search_bins-LeastBelow :
        (g : ℕ) (best : Best)
        → LeastBelow (g * 32) best
        → LeastBelow (g * 32 + 32) (search_bins c vt g best)
    unfolding search_bins
    search_bins-LeastBelow g best h = rw (let q : g * 32 / 32 ≡ g = omega arith in q) (
        sweep_word c x LeastBelow LeastBelow-empty g _ _ best (λ k l e. ground arith)
          (λ k b l. LeastBelow-consider o (g * 32 + k) b) h)

    search_groups-LeastBelow :
        (w : ℕ) (best : Best)
        → LeastBelow (w * 1024) best
        → LeastBelow (w * 1024 + 1024) (search_groups c vt w best)
    unfolding search_groups
    search_groups-LeastBelow w best h =
        sweep_group c x LeastBelow LeastBelow-empty w (search_bins c vt) best search_bins-LeastBelow
          h

    search_words-LeastBelow :
        (left w : ℕ) (best : Best)
        → LeastBelow (w * 1024) best
        → LeastBelow ((w + left) * 1024) (search_words c vt left w best)
    unfolding search_words
    search_words-LeastBelow zero w best h =
        subst (λ j. LeastBelow j best) (let q : w * 1024 ≡ (w + zero) * 1024 = omega arith in q) h
    search_words-LeastBelow (suc left) w best h =
        subst (λ j. LeastBelow j (search_words c vt left (suc w) (search_groups c vt w best)))
          (let q : (suc w + left) * 1024 ≡ (w + suc left) * 1024 = omega arith in q)
          (search_words-LeastBelow left (suc w) (search_groups c vt w best) (
            subst (λ j. LeastBelow j (search_groups c vt w best))
              (let q : w * 1024 + 1024 ≡ suc w * 1024 = omega arith in q)
              (search_groups-LeastBelow w best h)))

    search-LeastBelow : LeastBelow 32768 (search_words c vt 32 0 no_best)
    search-LeastBelow =
        search_words-LeastBelow 32 0 no_best
          (record { least = λ i l. absurd (omega arith); found = refl })

    -- The bins past the last are empty, so the search is right about all of them.
    LeastBelow-all :
        (best : Best) (i : ℕ) → LeastBelow 32768 best → NoSooner c vt best.min_eligible_finish i
    LeastBelow-all best i h = elim (dec_lt i 32768) [
      | yes l ↦ h.least i l
      | no l ↦
          subst (λ xs. All (λ t. t.start_time ≤ vt → best.min_eligible_finish ≤ t.finish_time) xs)
            (sym (bin_past c x i (omega (arith, x.bins_fit)))) tt
    ]

    LeastBelow-IsEligibleMin :
        (e : Option Session) (m : ℕ)
        → LeastBelow 32768 (record { eligible_min = e; min_eligible_finish = m })
        → IsEligibleMin c vt e
    LeastBelow-IsEligibleMin none m h =
        λ i. subst (λ k. NoSooner c vt k i) h.found (LeastBelow-all _ i h)
    LeastBelow-IsEligibleMin (some s) m h =
        (h.found.1, λ i. subst (λ k. NoSooner c vt k i) (sym h.found.0) (LeastBelow-all _ i h))

    -- On a well-indexed calendar with ordered bins, the search of the bit fields returns a session
    -- that may start by the given time and has the smallest finish time of all that may; it returns
    -- none only if every session that may start has the finish time `UINT64_MAX`.
    pub find-IsEligibleMin : IsEligibleMin c vt (find_eligible_min_bitfield c vt)
    unfolding find_eligible_min_bitfield
    find-IsEligibleMin =
        LeastBelow-IsEligibleMin _ (search_words c vt 32 0 no_best).min_eligible_finish
          search-LeastBelow
