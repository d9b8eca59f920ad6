-- ===== src/Calendar/Index.antt =====
-- The group and the bin that a session is given.
use native.Mathlib.Nat.{
  div-lt_iff_lt-mul, le-div_iff_mul-le, mul-le-mul_right, mul_comm, pow-le-pow_right,
}
use hwfq_scheduler.Base.{
  ◌⊎◌, refl, ℕ, zero, suc, ◌+◌, ◌-◌, ◌*◌, ◌/◌, ◌^◌, ◌≤◌, ◌<◌, ◌≡◌, inl, inr, arith, Bool-cases,
  ltb→lt, ltb, leb, ne→not-==, if◌then◌else◌, dec_lt, subst,
}
use hwfq_scheduler.Word.Laws.{bit_out}
use hwfq_scheduler.Word.Top.{bit_top}
use hwfq_scheduler.Calendar.{
  clz, calculate_group_index_from_interval, calculate_bin_index_from_finish_time,
}

record IsTop (n w k : ℕ) : Type 0 where
  below : k < n
  low : 2 ^ (n - 1 - k) ≤ w
  high : w < 2 ^ (n - k)

-- `clz` counts the digits above the highest one that is set.
clz-IsTop : (n w : ℕ) → 0 < w → w < 2 ^ n → IsTop n w (clz n w)
unfolding clz
clz-IsTop zero w p h = absurd (omega arith)
clz-IsTop (suc n) w p h = elim (dec_lt w (2 ^ n)) [
  | yes l ↦
      let r = clz-IsTop n w p l in
      rw (bit_out n w n l (omega arith)) (record {
        below = omega (arith, r.below);
        low = subst (λ k. 2 ^ k ≤ w) (omega (arith, r.below)) r.low;
        high = subst (λ k. w < 2 ^ k) (omega (arith, r.below)) r.high;
      })
  | no l ↦ rw (bit_top n w (omega arith) h) (record {
    below = omega arith;
    low = subst (λ k. 2 ^ k ≤ w) (let q : n ≡ suc n - 1 - 0 = omega arith in q) (omega arith);
    high = subst (λ k. w < 2 ^ k) (let q : suc n ≡ suc n - 0 = omega arith in q) h;
  })
]

-- Every group index is one of 0 to 15.
pub group_index_bound : (si base : ℕ) → calculate_group_index_from_interval si base ≤ 15
unfolding calculate_group_index_from_interval
group_index_bound si base = ground arith

-- The position of the highest digit of the ratio bounds the interval on both sides.
log_bounds :
    (si base : ℕ)
    → 0 < base
    → base ≤ si
    → si < 2 ^ 64
    → let g = 63 - clz 64 (si / base) in (2 ^ g * base ≤ si) × (si < 2 ^ (g + 1) * base)
log_bounds si base p q r =
    let top = clz-IsTop 64 (si / base) ((le-div_iff_mul-le p).1 (omega arith)) (omega arith) in
    (
      (le-div_iff_mul-le p).0 (
          subst (λ k. 2 ^ k ≤ si / base)
            (let e : 64 - 1 - clz 64 (si / base) ≡ 63 - clz 64 (si / base) = omega arith in e)
            top.low),
      (div-lt_iff_lt-mul p).0 (
          subst (λ k. si / base < 2 ^ k)
            (let e : 64 - clz 64 (si / base) ≡ 63 - clz 64 (si / base) + 1 =
                omega (arith, top.below) in
              e)
            top.high),
    )

clamped_bounds :
    (si base g : ℕ)
    → 2 ^ g * base ≤ si
    → si < 2 ^ (g + 1) * base
    → let k = (if ltb 15 g then 15 else g) in
      (base * 2 ^ k ≤ si) × ((si < base * 2 ^ (k + 1)) ⊎ (k ≡ 15))
clamped_bounds si base g lo hi = elim (Bool-cases (ltb 15 g)) [
  | inl e ↦
      let w =
        pow-le-pow_right {n = 2} (let z : 0 < 2 = omega arith in z)
          (let y : 15 ≤ g = omega (arith, ltb→lt _ _ e) in y) in
      rw e (grind (arith, mul-le-mul_right), inr refl)
  | inr e ↦
      rw e (omega (arith, mul_comm (2 ^ g) base), inl (omega (arith, mul_comm (2 ^ (g + 1)) base)))
]

-- For a base interval above 0 and a 64-bit service interval from the base up, the group g is the one with base * 2 ^ g ≤ interval and
-- interval < base * 2 ^ (g + 1), or the last one: the code's floor of the logarithm is exact.
pub group_index_lem :
    (si base : ℕ)
    → 0 < base
    → base ≤ si
    → si < 2 ^ 64
    → let g = calculate_group_index_from_interval si base in
      (base * 2 ^ g ≤ si) × ((si < base * 2 ^ (g + 1)) ⊎ (g ≡ 15))
unfolding calculate_group_index_from_interval
group_index_lem si base p q r = elim (Bool-cases (leb si base)) [
  | inl e ↦ rw (ne→not-== base 0 (omega arith), e) (omega arith, inl (ground arith))
  | inr e ↦
      let b = log_bounds si base p q r in
      rw (ne→not-== base 0 (omega arith), e)
        (clamped_bounds si base (63 - clz 64 (si / base)) b.0 b.1)
]

-- With at least one bin per group, the bin within a group is one of the group's bins.
pub bin_index_bound :
    (f g per base : ℕ) → 0 < per → calculate_bin_index_from_finish_time f g per base < per
unfolding calculate_bin_index_from_finish_time
bin_index_bound f g per base h = ground arith
