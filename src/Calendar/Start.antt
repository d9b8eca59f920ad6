-- ===== src/Calendar/Start.antt =====
-- The recomputation of `min_start_time` in `calendar_remove_session`.
use hwfq_scheduler.Base.{
  ℕ, zero, suc, ◌+◌, ◌*◌, ◌≤◌, ◌<◌, false, ◌≡◌, ◌⊎◌, refl, ap, sym, ◌∙◌, inl, inr, List, [], ◌∷◌,
  arith, All, Has, All-map, subst, ltb, Bool-cases, not-ltb→le, dec_lt, if◌then◌else◌,
}
use hwfq_scheduler.Types.{u64_max, Session}
use hwfq_scheduler.Calendar.{Calendar}
use hwfq_scheduler.Calendar.Remove.{lower_start, lower_bins, lower_groups, lower_words}
use hwfq_scheduler.Calendar.Valid.{bin_of, IsIndexed, IsMinStart, StartsAt, bin_past}
use hwfq_scheduler.Calendar.Sweep.{sweep_word, sweep_group, skip_bins}

-- The walk gives a lower bound of the bin and of what it was given, and one of these.
lower_start-le : (xs : List Session) (m : ℕ) → lower_start xs m ≤ m
unfolding lower_start
lower_start-le [] m = omega arith
lower_start-le (s ∷ rest) m =
    ground (arith, lower_start-le rest m, lower_start-le rest s.start_time)

lower_start-lower : (xs : List Session) (m : ℕ) → All (λ s. lower_start xs m ≤ s.start_time) xs
unfolding lower_start
lower_start-lower [] m = tt
lower_start-lower (s ∷ rest) m = (
  ground (arith, lower_start-le rest m, lower_start-le rest s.start_time),
  lower_start-lower rest _,
)

lower_start-attained :
    (xs : List Session) (m : ℕ)
    → (lower_start xs m ≡ m) ⊎ ((s : Session) × Has s xs × (s.start_time ≡ lower_start xs m))
unfolding lower_start
lower_start-attained [] m = inl refl
lower_start-attained (s ∷ rest) m = elim (Bool-cases (ltb s.start_time m)) [
  | inl e ↦ rw e (elim (lower_start-attained rest s.start_time) [
    | inl p ↦ inr (s, inl refl, sym p)
    | inr (t, h, p) ↦ inr (t, inr h, p)
  ])
  | inr e ↦
      rw e
        (elim (lower_start-attained rest m) [ inl p ↦ inl p | inr (t, h, p) ↦ inr (t, inr h, p) ])
]

module _ (c : Calendar) where
  -- `m` is right about the bins below n.
  record LowestBelow (n m : ℕ) : Type 0 where
    lower : (i : ℕ) → i < n → All (λ s. m ≤ s.start_time) (bin_of c i)
    attained : (m ≡ u64_max) ⊎ StartsAt c m

  LowestBelow-empty : (i m : ℕ) → bin_of c i ≡ [] → LowestBelow i m → LowestBelow (suc i) m
  LowestBelow-empty i m e h = record {
    lower = λ j l. elim (dec_lt j i) [
      | yes q ↦ h.lower j q
      | no q ↦
          subst (λ xs. All (λ s. m ≤ s.start_time) xs)
            (sym (ap (bin_of c) (let p : j ≡ i = omega arith in p) ∙ e)) tt
    ];
    attained = h.attained;
  }

  attained-step :
      (i m : ℕ)
      → (m ≡ u64_max) ⊎ StartsAt c m
      → (lower_start (bin_of c i) m ≡ m)
        ⊎ ((s : Session) × Has s (bin_of c i) × (s.start_time ≡ lower_start (bin_of c i) m))
      → (lower_start (bin_of c i) m ≡ u64_max) ⊎ StartsAt c (lower_start (bin_of c i) m)
  attained-step i m a (inl p) = rw p a
  attained-step i m a (inr (s, h, p)) = inr (i, s, h, p)

  LowestBelow-walk : (i m : ℕ) → LowestBelow i m → LowestBelow (suc i) (lower_start (bin_of c i) m)
  LowestBelow-walk i m h = record {
    lower = λ j l. elim (dec_lt j i) [
      | yes q ↦
          All-map _ _ (λ t p. omega (arith, lower_start-le (bin_of c i) m)) (bin_of c j)
            (h.lower j q)
      | no q ↦
          subst (λ k. All (λ s. lower_start (bin_of c i) m ≤ s.start_time) (bin_of c k))
            (let p : i ≡ j = omega arith in p) (lower_start-lower (bin_of c i) m)
    ];
    attained = attained-step i m h.attained (lower_start-attained (bin_of c i) m);
  }

  module _ (x : IsIndexed c) where
    -- The two bounds that the loop tests hold for every word and bin in use.
    visit_bin-LowestBelow :
        (j m : ℕ)
        → LowestBelow j m
        → LowestBelow (suc j) (if ltb j c.num_bins then lower_start (bin_of c j) m else m)
    visit_bin-LowestBelow j m h = elim (Bool-cases (ltb j c.num_bins)) [
      | inl e ↦ rw e (LowestBelow-walk j m h)
      | inr e ↦ rw e (LowestBelow-empty j m (bin_past c x j (not-ltb→le _ _ e)) h)
    ]

    lower_bins-LowestBelow :
        (g m : ℕ) → LowestBelow (g * 32) m → LowestBelow (g * 32 + 32) (lower_bins c g m)
    unfolding lower_bins
    lower_bins-LowestBelow g m h = elim (Bool-cases (ltb g c.bin_bitfield_size)) [
      | inl e ↦ rw e (
          sweep_word c x LowestBelow LowestBelow-empty g (λ _. false) _ m (λ k l e. absurd (cc))
            (λ k m l. visit_bin-LowestBelow (g * 32 + k) m) h)
      | inr e ↦ rw e (
          skip_bins c x LowestBelow LowestBelow-empty 32 (g * 32) m
            (λ k l. bin_past c x (g * 32 + k) (omega (arith, not-ltb→le _ _ e, x.words_cover))) h)
    ]

    lower_groups-LowestBelow :
        (w m : ℕ) → LowestBelow (w * 1024) m → LowestBelow (w * 1024 + 1024) (lower_groups c w m)
    unfolding lower_groups
    lower_groups-LowestBelow w m h =
        sweep_group c x LowestBelow LowestBelow-empty w (lower_bins c) m lower_bins-LowestBelow h

    lower_words-LowestBelow :
        (left w m : ℕ)
        → LowestBelow (w * 1024) m
        → LowestBelow ((w + left) * 1024) (lower_words c left w m)
    unfolding lower_words
    lower_words-LowestBelow zero w m h =
        subst (λ j. LowestBelow j m) (let q : w * 1024 ≡ (w + zero) * 1024 = omega arith in q) h
    lower_words-LowestBelow (suc left) w m h =
        subst (λ j. LowestBelow j (lower_words c left (suc w) (lower_groups c w m)))
          (let q : (suc w + left) * 1024 ≡ (w + suc left) * 1024 = omega arith in q)
          (lower_words-LowestBelow left (suc w) (lower_groups c w m) (
            subst (λ j. LowestBelow j (lower_groups c w m))
              (let q : w * 1024 + 1024 ≡ suc w * 1024 = omega arith in q)
              (lower_groups-LowestBelow w m h)))

    -- On a well-indexed calendar the walk over the bit fields yields the smallest start time of all
    -- sessions, or `UINT64_MAX` if there is none below it.
    pub lower_words-IsMinStart : IsMinStart c (lower_words c 32 0 u64_max)
    lower_words-IsMinStart =
        let h =
          lower_words-LowestBelow 32 0 u64_max
            (record { lower = λ i l. absurd (omega arith); attained = inl refl }) in
        record {
          lower = λ i. elim (dec_lt i 32768) [
            | yes l ↦ h.lower i l
            | no l ↦
                subst (λ xs. All (λ s. lower_words c 32 0 u64_max ≤ s.start_time) xs)
                  (sym (bin_past c x i (omega (arith, x.bins_fit)))) tt
          ];
          attained = h.attained;
        }
