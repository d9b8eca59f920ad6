-- ===== src/Word/Step.antt =====
-- `bit_and` and `bit_or` at variables, one binary digit at a time.
use Prim.Native.Nat.{digits, bit_and-bitwise, bit_or-bitwise}
use hwfq_scheduler.Base.{
  ℕ, zero, suc, ◌+◌, ◌*◌, ◌/◌, ◌%◌, ◌≤◌, min, max, bit_and, bit_or, ◌≡◌, refl, sym, ◌∙◌, ap, arith,
}

-- The loop over the digits of two numbers, for either operation: `f` is what it does with a pair of
-- digits, and `rest` what it returns when the first number has none left.
module _ (rest : ℕ → ℕ) (f : ℕ → ℕ → ℕ) where
  no_digit_left : (rounds y : ℕ) → digits rest f rounds zero y ≡ rest y
  no_digit_left zero y = refl
  no_digit_left (suc rounds) y = refl

  -- Rounds beyond the digits of the first number change nothing.
  enough_rounds : (x y k l : ℕ) → x ≤ k → x ≤ l → digits rest f k x y ≡ digits rest f l x y
  enough_rounds zero y k l _ _ = no_digit_left k y ∙ sym (no_digit_left l y)
  enough_rounds (suc x) y zero l le _ = absurd (omega arith)
  enough_rounds (suc x) y (suc k) zero _ le = absurd (omega arith)
  enough_rounds (suc x) y (suc k) (suc l) le le' =
      ap (λ v. v * 2 + f (suc x % 2) (y % 2))
        (enough_rounds (suc x / 2) (y / 2) k l (omega arith) (omega arith))

  lowest_digit :
      (x y : ℕ)
      → digits rest f (suc x) (suc x) y
        ≡ digits rest f (suc x / 2) (suc x / 2) (y / 2) * 2 + f (suc x % 2) (y % 2)
  lowest_digit x y =
      ap (λ v. v * 2 + f (suc x % 2) (y % 2))
        (enough_rounds (suc x / 2) (y / 2) x (suc x / 2) (omega arith) (omega arith))

pub bit_and_step : (a b : ℕ) → bit_and a b ≡ bit_and (a / 2) (b / 2) * 2 + min (a % 2) (b % 2)
bit_and_step zero y = omega (arith, bit_and-bitwise 0 y, bit_and-bitwise 0 (y / 2))
bit_and_step (suc x) y =
    let both = bit_and-bitwise (suc x) y in
    let halves = bit_and-bitwise (suc x / 2) (y / 2) in
    omega (arith, both, halves, lowest_digit (λ _. zero) min x y)

pub bit_or_step : (a b : ℕ) → bit_or a b ≡ bit_or (a / 2) (b / 2) * 2 + max (a % 2) (b % 2)
bit_or_step zero y = omega (arith, bit_or-bitwise 0 y, bit_or-bitwise 0 (y / 2))
bit_or_step (suc x) y =
    let both = bit_or-bitwise (suc x) y in
    let halves = bit_or-bitwise (suc x / 2) (y / 2) in
    omega (arith, both, halves, lowest_digit (λ v. v) max x y)
