-- ===== src/Calendar/Remove.antt =====
-- `calendar_remove_session` of src/hwfq_group_calendar.c.
use hwfq_scheduler.Base.{
  ℕ, zero, suc, ◌+◌, ◌*◌, ◌/◌, Bool, false, Option, none, some, List, [], ◌∷◌, ltb, leb, ◌==◌,
  if◌then◌else◌, get_or,
}
use hwfq_scheduler.Types.{u64_max, Status, success, internal, Session}
use hwfq_scheduler.Word.{each_bit}
use hwfq_scheduler.Calendar.{Calendar, clear_bin_bit, bin_list_remove, bin_list_is_empty}

-- The walk along one bin that lowers `min_start_time`.
unfoldable pub lower_start : List Session → ℕ → ℕ
lower_start [] m = m
lower_start (s ∷ rest) m = lower_start rest (if ltb s.start_time m then s.start_time else m)

module _ (c : Calendar) where
  -- The same three loops, in `calendar_remove_session`.
  unfoldable pub lower_bins : ℕ → ℕ → ℕ
  lower_bins word_idx m =
      if ltb word_idx c.bin_bitfield_size
      then each_bit 32 32 (λ _. false)
          (λ bit_pos m.
            if ltb (word_idx * 32 + bit_pos) c.num_bins
            then lower_start (get_or c.bin_heads (word_idx * 32 + bit_pos) []) m
            else m)
          (get_or c.bin_bitfield word_idx 0) m
      else m

  unfoldable pub lower_groups : ℕ → ℕ → ℕ
  lower_groups gword m =
      if get_or c.group_bitfield gword 0 == 0
      then m
      else each_bit 32 32 (λ _. false) (λ group_bit. lower_bins (gword * 32 + group_bit))
          (get_or c.group_bitfield gword 0) m

  unfoldable pub lower_words : ℕ → ℕ → ℕ → ℕ
  lower_words zero gword m = m
  lower_words (suc left) gword m = lower_words left (suc gword) (lower_groups gword m)

-- The bit fields after the bin at the index has lost its session.
unfoldable pub clear_group : Calendar → ℕ → Calendar
clear_group c word_idx =
    if ltb word_idx c.bin_bitfield_size
    then if get_or c.bin_bitfield word_idx 0 == 0
      then if ltb (word_idx / 32) 32
        then record c { group_bitfield = clear_bin_bit c.group_bitfield word_idx }
        else c
      else c
    else c

unfoldable pub clear_if_empty : Calendar → ℕ → Calendar
clear_if_empty c bin_index =
    if bin_list_is_empty c.bin_heads bin_index
    then clear_group (record c { bin_bitfield = clear_bin_bit c.bin_bitfield bin_index })
        (bin_index / 32)
    else c

abbrev pub is_address : Option ℕ → ℕ → Bool
is_address none a = false
is_address (some b) a = a == b

unfoldable pub forget_min_session : Calendar → ℕ → Calendar
forget_min_session c a =
    if is_address c.min_session a
    then record c { min_session = none; min_finish_time = u64_max }
    else c

unfoldable pub recompute_min_start : Calendar → ℕ → Calendar
recompute_min_start c start_time =
    if start_time == c.min_start_time
    then record c { min_start_time = lower_words c 32 0 u64_max }
    else c

-- `calendar_remove_session`
unfoldable pub remove_session : Calendar → Session → Status × Calendar
remove_session c s =
    if leb c.num_bins s.bin_index
    then (internal, c)
    else let unlinked = record c { bin_heads = bin_list_remove c.bin_heads s.bin_index s } in
      let cleared = clear_if_empty unlinked s.bin_index in
      let forgotten = forget_min_session cleared s.address in
      (success, recompute_min_start forgotten s.start_time)
