-- ===== src/Calendar/Sweep.antt =====
-- The nested loops over the bit fields pass every bin in use, in ascending order. `P i s` says what
-- the state is when the bins below i are done.
use hwfq_scheduler.Base.{
  ℕ, zero, suc, ◌+◌, ◌-◌, ◌*◌, ◌≤◌, ◌<◌, Bool, true, false, ◌==◌, ◌≡◌, ◌∙◌, inl, inr, refl, ap, sym,
  [], arith, get_or, if◌then◌else◌, subst, Bool-cases, ==→eq,
}
use hwfq_scheduler.Word.{each_bit}
use hwfq_scheduler.Word.Loop.{each_bit_inv, each_bit-zero}
use hwfq_scheduler.Calendar.{Calendar}
use hwfq_scheduler.Calendar.Valid.{
  IsIndexed, bin_of, word_of, bin_past, bin_unset, word_unset, bin_of_word-zero,
}

module _ {S : Type 0} (c : Calendar) (x : IsIndexed c) (P : ℕ → S → Type 0)
    (empty : (i : ℕ) (s : S) → bin_of c i ≡ [] → P i s → P (suc i) s) where
  -- Empty bins in a row.
  pub skip_bins :
      (n i : ℕ) (s : S) → ((k : ℕ) → k < n → bin_of c (i + k) ≡ []) → P i s → P (i + n) s
  skip_bins zero i s e h = subst (λ j. P j s) (let q : i ≡ i + 0 = omega arith in q) h
  skip_bins (suc n) i s e h =
      subst (λ j. P j s) (let q : suc i + n ≡ i + suc n = omega arith in q)
        (skip_bins n (suc i) s
          (λ k l.
            ap (bin_of c) (let q : suc i + k ≡ i + suc k = omega arith in q)
            ∙ e (suc k) (omega arith))
          (empty i s (ap (bin_of c) (let q : i ≡ i + 0 = omega arith in q) ∙ e 0 (omega arith)) h))

  -- The loop over the bits of word g of the bin bit field, with or without its `break`.
  pub sweep_word :
      (g : ℕ) (stop : ℕ → Bool) (body : ℕ → S → S) (s : S)
      → ((k : ℕ) → k < 32 → stop k ≡ true → c.num_bins ≤ g * 32 + k)
      → ((k : ℕ) (t : S) → k < 32 → P (g * 32 + k) t → P (suc (g * 32 + k)) (body k t))
      → P (g * 32) s
      → P (g * 32 + 32) (each_bit 32 32 stop body (word_of c g) s)
  sweep_word g stop body s past step h =
      each_bit_inv 32 (word_of c g) stop body (λ k t. P (g * 32 + k) t)
        (λ k t l on go p. next k (body k t) (step k t l p))
        (λ k t l off p. next k t (empty (g * 32 + k) t (bin_unset c x g k l off) p))
        (λ k t l on hit p.
          subst (λ j. P j t) (let q : g * 32 + k + (32 - k) ≡ g * 32 + 32 = omega arith in q)
            (skip_bins (32 - k) (g * 32 + k) t
              (λ j m. bin_past c x (g * 32 + k + j) (omega (arith, past k l hit))) p))
        s (x.bin_words g) (subst (λ j. P j s) (let q : g * 32 ≡ g * 32 + 0 = omega arith in q) h)
    where
      next : (k : ℕ) (t : S) → P (suc (g * 32 + k)) t → P (g * 32 + suc k) t
      next k t p =
          subst (λ j. P j t) (let q : suc (g * 32 + k) ≡ g * 32 + suc k = omega arith in q) p

  -- The loop over the bits of word w of the group bit field.
  pub sweep_group :
      (w : ℕ) (inner : ℕ → S → S) (s : S)
      → ((g : ℕ) (t : S) → P (g * 32) t → P (g * 32 + 32) (inner g t))
      → P (w * 1024) s
      → P (w * 1024 + 1024) (
          if get_or c.group_bitfield w 0 == 0
          then s
          else each_bit 32 32
              (λ _. false)
              (λ k. inner (w * 32 + k))
              (get_or c.group_bitfield w 0)
              s)
  sweep_group w inner s step h = subst (P (w * 1024 + 1024)) (sym same) (
      each_bit_inv 32 (get_or c.group_bitfield w 0) (λ _. false) (λ k. inner (w * 32 + k))
        (λ k t. P (w * 1024 + k * 32) t)
        (λ k t l on go p. next k (inner (w * 32 + k) t) (step (w * 32 + k) t (start k t p)))
        (λ k t l off p. next k t (
          skip_bins 32 ((w * 32 + k) * 32) t
            (λ j m. bin_of_word-zero c x (w * 32 + k) j m (word_unset c x w k l off))
            (start k t p)))
        (λ k t l on hit p. absurd (cc)) s (x.group_words w)
        (subst (λ j. P j s) (let q : w * 1024 ≡ w * 1024 + 0 * 32 = omega arith in q) h))
    where
      start : (k : ℕ) (t : S) → P (w * 1024 + k * 32) t → P ((w * 32 + k) * 32) t
      start k t p =
          subst (λ j. P j t) (let q : w * 1024 + k * 32 ≡ (w * 32 + k) * 32 = omega arith in q) p

      next : (k : ℕ) (t : S) → P ((w * 32 + k) * 32 + 32) t → P (w * 1024 + suc k * 32) t
      next k t p =
          subst (λ j. P j t)
            (let q : (w * 32 + k) * 32 + 32 ≡ w * 1024 + suc k * 32 = omega arith in q) p

      loop : S
      loop = each_bit 32 32 (λ _. false) (λ k. inner (w * 32 + k)) (get_or c.group_bitfield w 0) s

      same : (if get_or c.group_bitfield w 0 == 0 then s else loop) ≡ loop
      same = elim (Bool-cases (get_or c.group_bitfield w 0 == 0)) [
        | inl e ↦
            rw (==→eq _ _ e) (sym (each_bit-zero 32 32 (λ _. false) (λ k. inner (w * 32 + k)) s))
        | inr e ↦ rw e refl
      ]
