-- ===== src/Word.antt =====
-- Machine words as native numbers, and the bit idioms of the C code: `1U << k`, `w | m`, `w & ~m`,
-- the test `(w & m) != 0`, `__builtin_ctz` and the loop over the set bits of a word.
pub mod Step
pub mod Laws
pub mod Loop
pub mod Field
pub mod Top
use hwfq_scheduler.Base.{
  ℕ, zero, suc, ◌-◌, ◌/◌, ◌%◌, ◌^◌, bit_and, bit_or, Bool, true, false, not, ◌==◌, if◌then◌else◌,
}

-- The k-th binary digit, lowest first.
unfoldable pub bit : ℕ → ℕ → Bool
bit w zero = w % 2 == 1
bit w (suc k) = bit (w / 2) k

-- `~v` on a word of n bits.
abbrev pub complement : ℕ → ℕ → ℕ
complement n v = 2 ^ n - 1 - v

-- `w |= 1 << k`
unfoldable pub set_bit_of : ℕ → ℕ → ℕ
set_bit_of w k = bit_or w (2 ^ k)

-- `w &= ~(1 << k)` on a word of n bits.
unfoldable pub clear_bit_of : ℕ → ℕ → ℕ → ℕ
clear_bit_of n w k = bit_and w (complement n (2 ^ k))

-- `(w & (1 << k)) != 0`
unfoldable pub test_bit_of : ℕ → ℕ → Bool
test_bit_of w k = not (bit_and w (2 ^ k) == 0)

-- `__builtin_ctz`, counting at most the given number of zeros.
unfoldable pub ctz : ℕ → ℕ → ℕ
ctz zero w = 0
ctz (suc f) w = let rest = ctz f (w / 2) in if w % 2 == 1 then 0 else suc rest

-- `while (w != 0) { k = ctz(w); if (stop(k)) break; body(k); w &= ~(1 << k); }` on a word of
-- `width` bits, with fuel for the rounds.
unfoldable pub each_bit {ℓ} : {S : Type ℓ} → (width fuel : ℕ) → (ℕ → Bool) → (ℕ → S → S) → ℕ → S → S
each_bit width zero stop body w s = s
each_bit width (suc fuel) stop body w s =
    let k = ctz width w in
    let rest = each_bit width fuel stop body (clear_bit_of width w k) (body k s) in
    if w == 0 then s else if stop k then s else rest
