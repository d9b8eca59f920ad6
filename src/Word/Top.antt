-- ===== src/Word/Top.antt =====
-- The highest digit of a word.
use native.Mathlib.Nat.{pow-suc}
use hwfq_scheduler.Base.{ℕ, zero, suc, ◌/◌, ◌^◌, ◌≤◌, ◌<◌, true, ◌≡◌, arith}
use hwfq_scheduler.Word.{bit}

-- The highest digit of a word of n + 1 digits is set from 2 ^ n on.
pub bit_top : (n w : ℕ) → 2 ^ n ≤ w → w < 2 ^ suc n → bit w n ≡ true
unfolding bit
bit_top zero w l h = ground (arith, pow-suc 2 0)
bit_top (suc n) w l h =
    bit_top n (w / 2) (omega (arith, pow-suc 2 n)) (omega (arith, pow-suc 2 n, pow-suc 2 (suc n)))
