-- ===== src/Calendar/Same.antt =====
-- Validity depends on the bins, the bit fields and the cached smallest start time only.
use hwfq_scheduler.Base.{ℕ, ◌≡◌, sym, subst}
use hwfq_scheduler.Calendar.{Calendar}
use hwfq_scheduler.Calendar.Valid.{IsValid, IsOrdered, IsMinStart}
use hwfq_scheduler.Calendar.Fields.{IsIndexed-same}

pub IsMinStart-same :
    (c d : Calendar) (m : ℕ) → d.bin_heads ≡ c.bin_heads → IsMinStart c m → IsMinStart d m
IsMinStart-same c d m e h = record { lower = rw e h.lower; attained = rw e h.attained }

pub IsOrdered-same : (c d : Calendar) → d.bin_heads ≡ c.bin_heads → IsOrdered c → IsOrdered d
IsOrdered-same c d e h = record {
  sorted = rw e h.sorted;
  distinct = rw e h.distinct;
  placed = rw e h.placed;
}

-- The two calendars hold the same sessions in the same bins.
pub record SameQueue (c d : Calendar) : Type 0 where
  pub heads : d.bin_heads ≡ c.bin_heads
  pub bins : d.bin_bitfield ≡ c.bin_bitfield
  pub groups : d.group_bitfield ≡ c.group_bitfield
  pub num_bins : d.num_bins ≡ c.num_bins
  pub size : d.bin_bitfield_size ≡ c.bin_bitfield_size
  pub min_start : d.min_start_time ≡ c.min_start_time

pub IsValid-same : (c d : Calendar) → SameQueue c d → IsValid c → IsValid d
IsValid-same c d k v = record {
  indexed = IsIndexed-same c d k.heads k.bins k.groups k.num_bins k.size v.indexed;
  ordered = IsOrdered-same c d k.heads v.ordered;
  min_start =
      subst (IsMinStart d) (sym k.min_start)
        (IsMinStart-same c d c.min_start_time k.heads v.min_start);
}
