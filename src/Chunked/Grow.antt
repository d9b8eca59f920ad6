-- ===== src/Chunked/Grow.antt =====
-- The growth of the table of chunks in `allocate_chunk`: the loop's fuel is enough.
use native.Mathlib.Nat.{pow-suc}
use hwfq_scheduler.Base.{
  ℕ, zero, suc, ◌*◌, ◌%◌, ◌^◌, ◌≤◌, ◌<◌, ◌+◌, ◌≡◌, arith, inl, inr, ltb, Bool-cases, subst,
}
use hwfq_scheduler.Chunked.{grow, new_size, max_chunks}

-- If n, doubled once for each round of fuel, reaches the target, so does the loop.
grow-reaches :
    (fuel n target : ℕ) → target ≤ 2 ^ 31 → target ≤ n * 2 ^ fuel → target ≤ grow fuel n target
unfolding grow
grow-reaches zero n target small le = omega (arith)
grow-reaches (suc fuel) n target small le = elim (Bool-cases (ltb n target)) [
  | inl e ↦ rw e (
      grow-reaches fuel (n * 2 % 2 ^ 32) target small (
        subst (λ m. target ≤ m * 2 ^ fuel) (let q : n * 2 ≡ n * 2 % 2 ^ 32 = ground arith in q)
          (grind (arith, pow-suc 2 fuel))))
  | inr e ↦ rw e (ground arith)
]

-- For a chunk below the maximum, the loop that doubles the size of the table ends within its fuel of
-- 32 rounds at a size, cut off at the maximum, that has room for the chunk.
pub new_size_lem : (chunk_index : ℕ) → chunk_index < max_chunks → chunk_index < new_size chunk_index
new_size_lem i l =
    let reached = grow-reaches 32 1 (i + 1) (omega arith) (omega arith) in ground arith
