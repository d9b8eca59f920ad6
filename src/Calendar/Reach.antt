-- ===== src/Calendar/Reach.antt =====
-- With the 16 groups that the code sets up, no session is refused.
use native.Mathlib.Nat.{mul-le-mul_right}
use hwfq_scheduler.Base.{ℕ, ◌*◌, ◌≤◌, ◌<◌, ◌≡◌, arith}
use hwfq_scheduler.Types.{Session, success}
use hwfq_scheduler.Calendar.{Calendar, calculate_group_index_from_interval, insert_session}
use hwfq_scheduler.Calendar.Index.{group_index_bound, bin_index_bound}
use hwfq_scheduler.Calendar.Valid.{IsIndexed}
use hwfq_scheduler.Calendar.Insert.{bin_for, insert_session_adds}

-- The bin of a session whose group is computed from a service interval exists.
pub bin_for-lt :
    (c : Calendar) (s : Session) (si base : ℕ)
    → s.group_index ≡ calculate_group_index_from_interval si base
    → 0 < c.bins_per_group
    → c.num_bins ≡ 16 * c.bins_per_group
    → bin_for c s < c.num_bins
bin_for-lt c s si base e pos n =
    let offset = bin_index_bound s.finish_time s.group_index c.bins_per_group c.base_interval pos in
    let group : s.group_index ≤ 15 = omega (arith, group_index_bound si base) in
    let rows : s.group_index * c.bins_per_group ≤ 15 * c.bins_per_group =
      mul-le-mul_right c.bins_per_group group in
    omega arith

-- A well-indexed calendar of 16 groups with at least one bin each accepts every session whose group
-- is computed from a service interval.
pub insert_session_accepts :
    (c : Calendar) (s : Session) (si base : ℕ)
    → IsIndexed c
    → s.group_index ≡ calculate_group_index_from_interval si base
    → 0 < c.bins_per_group
    → c.num_bins ≡ 16 * c.bins_per_group
    → (insert_session c s).0 ≡ success
insert_session_accepts c s si base x e pos n =
    (insert_session_adds c s x (bin_for-lt c s si base e pos n)).0
