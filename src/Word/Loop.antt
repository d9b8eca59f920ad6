-- ===== src/Word/Loop.antt =====
-- The loop over the set bits of a word: what holds after it. The loop visits the set digits in
-- ascending order, and a fuel of one round for each digit of the word is enough.
use hwfq_scheduler.Base.{
  ℕ, zero, suc, ◌+◌, ◌^◌, ◌≤◌, ◌<◌, Bool, true, false, ◌==◌, ◌≡◌, refl, ap, ◌∙◌, inl, inr, arith,
  Bool-cases, ne→not-==, ==→eq, ==→ne, subst, sym,
}
use hwfq_scheduler.Word.{bit, ctz, clear_bit_of, each_bit}
use hwfq_scheduler.Word.Laws.{
  ctz-first, ne-zero_of_bit, eq-zero_of_bits, clear_bit_of-lt, bit-clear_bit_of,
}

pub each_bit-zero :
    {S : Type 0} (n fuel : ℕ) (stop : ℕ → Bool) (body : ℕ → S → S) (s : S)
    → each_bit n fuel stop body 0 s ≡ s
unfolding each_bit
each_bit-zero n zero stop body s = refl
each_bit-zero n (suc fuel) stop body s = refl

module _ {S : Type 0} (n w : ℕ) (stop : ℕ → Bool) (body : ℕ → S → S) (P : ℕ → S → Type 0)
    (keep : (k : ℕ) (s : S)
      → k < n
      → bit w k ≡ true
      → stop k ≡ false
      → P k s
      → P (suc k) (body k s))
    (skip : (k : ℕ) (s : S) → k < n → bit w k ≡ false → P k s → P (suc k) s)
    (halt : (k : ℕ) (s : S) → k < n → bit w k ≡ true → stop k ≡ true → P k s → P n s) where
  -- `v` is what is left of `w` when the digits below `p` are done, with `d` digits to go.
  each_bit_rest :
      (d p v fuel : ℕ) (s : S)
      → p + d ≡ n
      → d ≤ fuel
      → v < 2 ^ n
      → ((j : ℕ) → j < p → bit v j ≡ false)
      → ((j : ℕ) → p ≤ j → j < n → bit v j ≡ bit w j)
      → P p s
      → P n (each_bit n fuel stop body v s)
  unfolding each_bit
  each_bit_rest zero p v fuel s e f l below same h =
      rw (done, each_bit-zero) (subst (λ k. P k s) (let q : p ≡ n = omega arith in q) h)
    where
      done : v ≡ 0
      done = eq-zero_of_bits n v l (λ k q. below k (omega arith))
  each_bit_rest (suc d) p v zero s e f l below same h = absurd (omega arith)
  each_bit_rest (suc d) p v (suc fuel) s e f l below same h = elim (Bool-cases (bit w p)) [
    | inl on ↦ elim (Bool-cases (stop p)) [
      | inl hit ↦ rw (nonzero on, first on, hit) (halt p s (omega arith) on hit h)
      | inr miss ↦
          rw (nonzero on, first on, miss)
            (each_bit_rest d (suc p) (clear_bit_of n v p) fuel (body p s) (omega arith)
              (omega arith) (clear_bit_of-lt n v p l) (cleared on) (kept on)
              (keep p s (omega arith) on miss h))
    ]
    | inr off ↦
        each_bit_rest d (suc p) v (suc fuel) s (omega arith) (omega arith) l (unset off)
          (λ j q r. same j (omega arith) r) (skip p s (omega arith) off h)
  ]
    where
      lit : bit w p ≡ true → bit v p ≡ true
      lit on = same p (omega arith) (omega arith) ∙ on

      first : bit w p ≡ true → ctz n v ≡ p
      first on = ctz-first n v p (omega arith) (lit on) below

      nonzero : bit w p ≡ true → (v == 0) ≡ false
      nonzero on = ne→not-== v 0 (ne-zero_of_bit v p (lit on))

      unset : bit w p ≡ false → (j : ℕ) → j < suc p → bit v j ≡ false
      unset off j q = elim (Bool-cases (p == j)) [
        | inl same_place ↦
            ap (bit v) (sym (==→eq p j same_place)) ∙ same p (omega arith) (omega arith) ∙ off
        | inr other ↦ below j (omega (arith, ==→ne p j other))
      ]

      cleared : bit w p ≡ true → (j : ℕ) → j < suc p → bit (clear_bit_of n v p) j ≡ false
      cleared on j q =
          bit-clear_bit_of n v p j (omega arith) (omega arith) ∙ ground (arith, below j)

      kept : bit w p ≡ true → (j : ℕ) → suc p ≤ j → j < n → bit (clear_bit_of n v p) j ≡ bit w j
      kept on j q r = bit-clear_bit_of n v p j (omega arith) r ∙ ground (arith, same j)

  -- The loop over the whole word, with a round for each of its digits.
  pub each_bit_inv : (s : S) → w < 2 ^ n → P 0 s → P n (each_bit n n stop body w s)
  each_bit_inv s l h =
      each_bit_rest n 0 w n s (omega arith) (omega arith) l (λ j q. absurd (omega arith))
        (λ j q r. refl) h
