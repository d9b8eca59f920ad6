-- ===== src/Word/Laws.antt =====
-- The digits of `bit_and`, `bit_or`, `1 << k` and `~v`, and what the digits decide.
use Prim.Native.Nat.{bit_and-bitwise, bit_or-bitwise}
use native.Mathlib.Nat.{pow-suc, one-le-pow}
use hwfq_scheduler.Base.{
  ℕ, zero, suc, ◌-◌, ◌/◌, ◌^◌, ◌≤◌, ◌<◌, bit_and, bit_or, true, false, not, ◌&&◌, ◌||◌, ◌==◌, ◌≡◌,
  ◌≢◌, refl, sym, ap, ◌∙◌, inl, inr, arith, Bool-cases, ==→eq,
}
use hwfq_scheduler.Word.{bit, complement, set_bit_of, clear_bit_of, test_bit_of, ctz}
use hwfq_scheduler.Word.Step.{bit_and_step, bit_or_step}

pub bit-zero : (k : ℕ) → bit 0 k ≡ false
unfolding bit
bit-zero zero = refl
bit-zero (suc k) = bit-zero k

pub bit-bit_and : (a b k : ℕ) → bit (bit_and a b) k ≡ (bit a k && bit b k)
unfolding bit
bit-bit_and a b zero = ground (arith, bit_and_step a b)
bit-bit_and a b (suc k) =
    ap (λ w. bit w k) (omega (arith, bit_and_step a b)) ∙ bit-bit_and (a / 2) (b / 2) k

pub bit-bit_or : (a b k : ℕ) → bit (bit_or a b) k ≡ (bit a k || bit b k)
unfolding bit
bit-bit_or a b zero = ground (arith, bit_or_step a b)
bit-bit_or a b (suc k) =
    ap (λ w. bit w k) (omega (arith, bit_or_step a b)) ∙ bit-bit_or (a / 2) (b / 2) k

pub two-pow-pos : (k : ℕ) → 0 < 2 ^ k
two-pow-pos k = one-le-pow k 2 (omega arith)

-- `1 << k` has the digit k only.
pub bit-two-pow : (j k : ℕ) → bit (2 ^ j) k ≡ (j == k)
unfolding bit
bit-two-pow zero zero = refl
bit-two-pow zero (suc k) = bit-zero k ∙ ground arith
bit-two-pow (suc j) zero = ground (arith, pow-suc 2 j)
bit-two-pow (suc j) (suc k) =
    ap (λ w. bit w k) (omega (arith, pow-suc 2 j)) ∙ bit-two-pow j k ∙ ground arith

pub bit-complement : (n v k : ℕ) → k < n → v < 2 ^ n → bit (complement n v) k ≡ not (bit v k)
unfolding bit
bit-complement zero v k h l = absurd (omega arith)
bit-complement (suc n) v zero h l = ground (arith, pow-suc 2 n, two-pow-pos n)
bit-complement (suc n) v (suc k) h l =
    ap (λ w. bit w k) (omega (arith, pow-suc 2 n, two-pow-pos n))
    ∙ bit-complement n (v / 2) k (omega arith) (omega (arith, pow-suc 2 n))

-- A word with no digit set below its width is 0.
pub eq-zero_of_bits : (n w : ℕ) → w < 2 ^ n → ((k : ℕ) → k < n → bit w k ≡ false) → w ≡ 0
unfolding bit
eq-zero_of_bits zero w l h = omega arith
eq-zero_of_bits (suc n) w l h = ground (
  arith,
  h 0 (omega arith),
  eq-zero_of_bits n (w / 2) (omega (arith, pow-suc 2 n)) (λ k q. h (suc k) (omega arith)),
)

-- A word with every digit set below its width is the all-ones word.
pub eq-ones_of_bits : (n w : ℕ) → w < 2 ^ n → ((k : ℕ) → k < n → bit w k ≡ true) → w ≡ 2 ^ n - 1
unfolding bit
eq-ones_of_bits zero w l h = omega arith
eq-ones_of_bits (suc n) w l h = ground (
  arith,
  pow-suc 2 n,
  two-pow-pos n,
  h 0 (omega arith),
  eq-ones_of_bits n (w / 2) (omega (arith, pow-suc 2 n)) (λ k q. h (suc k) (omega arith)),
)

pub bit-ones : (n k : ℕ) → k < n → bit (2 ^ n - 1) k ≡ true
bit-ones n k h =
    ap (λ w. bit w k) (omega arith) ∙ bit-complement n 0 k h (two-pow-pos n) ∙ ap not (bit-zero k)

pub bit_and-lt : (n a b : ℕ) → a < 2 ^ n → bit_and a b < 2 ^ n
bit_and-lt zero zero b h = omega (arith, bit_and-bitwise 0 b)
bit_and-lt zero (suc a) b h = absurd (omega arith)
bit_and-lt (suc n) a b h = omega (
  arith,
  pow-suc 2 n,
  bit_and_step a b,
  bit_and-lt n (a / 2) (b / 2) (omega (arith, pow-suc 2 n)),
)

pub bit_or-lt : (n a b : ℕ) → a < 2 ^ n → b < 2 ^ n → bit_or a b < 2 ^ n
bit_or-lt zero zero b h g = omega (arith, bit_or-bitwise 0 b)
bit_or-lt zero (suc a) b h g = absurd (omega arith)
bit_or-lt (suc n) a b h g = omega (
  arith,
  pow-suc 2 n,
  bit_or_step a b,
  bit_or-lt n (a / 2) (b / 2) (omega (arith, pow-suc 2 n)) (omega (arith, pow-suc 2 n)),
)

pub two-pow-lt : (k n : ℕ) → k < n → 2 ^ k < 2 ^ n
two-pow-lt k zero h = absurd (omega arith)
two-pow-lt zero (suc n) h = omega (arith, pow-suc 2 n, two-pow-pos n)
two-pow-lt (suc k) (suc n) h = omega (arith, pow-suc 2 k, pow-suc 2 n, two-pow-lt k n (omega arith))

-- `w |= 1 << k` sets the digit k and leaves the others.
pub bit-set_bit_of : (w k j : ℕ) → bit (set_bit_of w k) j ≡ (bit w j || (k == j))
unfolding set_bit_of
bit-set_bit_of w k j = bit-bit_or w (2 ^ k) j ∙ ap (λ b. bit w j || b) (bit-two-pow k j)

-- `w &= ~(1 << k)` clears the digit k and leaves the others.
pub bit-clear_bit_of :
    (n w k j : ℕ) → k < n → j < n → bit (clear_bit_of n w k) j ≡ (bit w j && not (k == j))
unfolding clear_bit_of
bit-clear_bit_of n w k j hk hj =
    bit-bit_and w (complement n (2 ^ k)) j
    ∙ ap (λ b. bit w j && b)
        (bit-complement n (2 ^ k) j hj (two-pow-lt k n hk) ∙ ap not (bit-two-pow k j))

pub set_bit_of-lt : (n w k : ℕ) → k < n → w < 2 ^ n → set_bit_of w k < 2 ^ n
unfolding set_bit_of
set_bit_of-lt n w k hk h = bit_or-lt n w (2 ^ k) h (two-pow-lt k n hk)

pub clear_bit_of-lt : (n w k : ℕ) → w < 2 ^ n → clear_bit_of n w k < 2 ^ n
unfolding clear_bit_of
clear_bit_of-lt n w k h = bit_and-lt n w (complement n (2 ^ k)) h

-- A word with a digit set is not 0.
pub ne-zero_of_bit : (w k : ℕ) → bit w k ≡ true → w ≢ 0
ne-zero_of_bit w k h e = cc (ap (λ v. bit v k) e, bit-zero k)

pub bit_out : (n w k : ℕ) → w < 2 ^ n → n ≤ k → bit w k ≡ false
unfolding bit
bit_out zero w k h l = ap (λ v. bit v k) (omega arith) ∙ bit-zero k
bit_out (suc n) w zero h l = absurd (omega arith)
bit_out (suc n) w (suc k) h l = bit_out n (w / 2) k (omega (arith, pow-suc 2 n)) (omega arith)

-- The C test of one bit reads that digit.
pub test_bit_of-bit : (n w k : ℕ) → w < 2 ^ n → test_bit_of w k ≡ bit w k
unfolding test_bit_of
test_bit_of-bit n w k l = elim (Bool-cases (bit w k)) [
  | inl e ↦ ground (arith, e, ne-zero_of_bit (bit_and w (2 ^ k)) k (ground (arith, both)))
  | inr e ↦
      ground (
        arith,
        eq-zero_of_bits n (bit_and w (2 ^ k)) (bit_and-lt n w (2 ^ k) l) (λ j q. others e j),
      )
]
  where
    both : bit (bit_and w (2 ^ k)) k ≡ (bit w k && true)
    both = bit-bit_and w (2 ^ k) k ∙ ap (λ b. bit w k && b) (bit-two-pow k k ∙ ground arith)

    others : bit w k ≡ false → (j : ℕ) → bit (bit_and w (2 ^ k)) j ≡ false
    others e j = elim (Bool-cases (k == j)) [
      | inl h ↦
          bit-bit_and w (2 ^ k) j
          ∙ ap (λ b. b && bit (2 ^ k) j) (ap (bit w) (sym (==→eq k j h)) ∙ e)
      | inr h ↦ bit-bit_and w (2 ^ k) j ∙ ground (arith, bit-two-pow k j)
    ]

-- `ctz` is the position of the lowest set digit.
pub ctz-first :
    (f w k : ℕ) → k < f → bit w k ≡ true → ((j : ℕ) → j < k → bit w j ≡ false) → ctz f w ≡ k
unfolding ctz bit
ctz-first zero w k l h z = absurd (omega arith)
ctz-first (suc f) w zero l h z = ground arith
ctz-first (suc f) w (suc k) l h z = ground (
  arith,
  z 0 (omega arith),
  ctz-first f (w / 2) k (omega arith) h (λ j q. z (suc j) (omega arith)),
)
