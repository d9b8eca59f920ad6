-- ===== src/Trie/Masks.antt =====
-- The masks of the last word of a level, and its words as digits.
use hwfq_scheduler.Base.{
  ℕ, ◌-◌, ◌^◌, ◌≤◌, ◌<◌, bit_and, bit_or, Bool, true, false, ◌≡◌, ◌∙◌, arith, ltb, leb,
  if◌then◌else◌, dec_lt,
}
use hwfq_scheduler.Types.{u64_max}
use hwfq_scheduler.Word.{bit, complement}
use hwfq_scheduler.Word.Laws.{
  bit-zero, bit-ones, bit_out, bit-bit_and, bit-bit_or, bit-complement, bit_and-lt, bit_or-lt,
  two-pow-pos, two-pow-lt,
}

-- `(1 << n) - 1` has the n lowest digits.
pub bit-low : (n k : ℕ) → bit (2 ^ n - 1) k ≡ ltb k n
bit-low n k = elim (dec_lt k n) [
  | yes l ↦ bit-ones n k l ∙ ground arith
  | no g ↦ bit_out n (2 ^ n - 1) k (omega (arith, two-pow-pos n)) (omega arith) ∙ ground arith
]

low-lt : (n : ℕ) → n ≤ 64 → 2 ^ n - 1 < 2 ^ 64
low-lt n h = elim (dec_lt n 64) [
  | yes l ↦ omega (arith, two-pow-pos n, two-pow-lt n 64 l)
  | no g ↦ let e : n ≡ 64 = omega arith in rw e (omega arith)
]

pub bit-masked : (n k : ℕ) → n ≤ 64 → bit (bit_and u64_max (2 ^ n - 1)) k ≡ ltb k n
bit-masked n k h = bit-bit_and u64_max (2 ^ n - 1) k ∙ rw (bit-low 64 k, bit-low n k) (ground arith)

pub if_bits :
    (b : Bool) (c j : ℕ)
    → c ≤ 64
    → j < 64
    → bit (if b then bit_and u64_max (2 ^ c - 1) else u64_max) j ≡ (if b then ltb j c else true)
if_bits true c j h l = bit-masked c j h
if_bits false c j h l = bit-ones 64 j l

pub if_below : (b : Bool) (c : ℕ) → (if b then bit_and u64_max (2 ^ c - 1) else u64_max) < 2 ^ 64
if_below true c = bit_and-lt 64 u64_max (2 ^ c - 1) (omega arith)
if_below false c = omega arith

pub if_high :
    (b : Bool) (c j : ℕ)
    → c ≤ 64
    → j < 64
    → bit (if b then bit_or 0 (complement 64 (2 ^ c - 1)) else 0) j ≡ (if b then leb c j else false)
if_high true c j h l =
    bit-bit_or 0 (complement 64 (2 ^ c - 1)) j
    ∙ rw (bit-zero j, bit-complement 64 (2 ^ c - 1) j l (low-lt c h), bit-low c j) (ground arith)
if_high false c j h l = bit-zero j

pub if_high_below :
    (b : Bool) (c : ℕ) → (if b then bit_or 0 (complement 64 (2 ^ c - 1)) else 0) < 2 ^ 64
if_high_below true c = bit_or-lt 64 0 (complement 64 (2 ^ c - 1)) (omega arith) (omega arith)
if_high_below false c = omega arith
