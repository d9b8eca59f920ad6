-- ===== src/Calendar/Search.antt =====
-- `find_eligible_min_bitfield` and `calendar_find_min_session` of src/hwfq_group_calendar.c.
use hwfq_scheduler.Base.{
  ℕ, zero, suc, ◌+◌, ◌*◌, ◌/◌, false, not, Option, none, some, List, [], ◌∷◌, ltb, leb, ◌==◌,
  if◌then◌else◌, get_or,
}
use hwfq_scheduler.Types.{u64_max, Session}
use hwfq_scheduler.Word.{each_bit}
use hwfq_scheduler.Calendar.{Calendar}

-- The first session of a bin whose start time has come.
unfoldable pub first_eligible : ℕ → List Session → Option Session
first_eligible virtual_time [] = none
first_eligible virtual_time (cand ∷ rest) =
    if ltb virtual_time cand.start_time then first_eligible virtual_time rest else some cand

-- `eligible_min` with `min_eligible_finish`.
pub record Best : Type 0 where
  pub eligible_min : Option Session
  pub min_eligible_finish : ℕ

abbrev pub no_best : Best
no_best = record { eligible_min = none; min_eligible_finish = u64_max }

unfoldable pub consider : Option Session → Best → Best
consider none best = best
consider (some cand) best =
    if ltb cand.finish_time best.min_eligible_finish
    then record { eligible_min = some cand; min_eligible_finish = cand.finish_time }
    else best

module _ (c : Calendar) where
  -- The innermost loop of `find_eligible_min_bitfield`: the bins of one word of the bin bit field.
  unfoldable pub search_bins : ℕ → ℕ → Best → Best
  search_bins virtual_time bin_group_idx best =
      let bin_start = bin_group_idx * 32 in
      let bin_end = (if ltb c.num_bins (bin_start + 32) then c.num_bins else bin_start + 32) in
      let word_idx = bin_start / 32 in
      each_bit 32 32 (λ bit_pos. leb bin_end (word_idx * 32 + bit_pos))
        (λ bit_pos best.
          consider (first_eligible virtual_time (get_or c.bin_heads (word_idx * 32 + bit_pos) []))
            best)
        (get_or c.bin_bitfield word_idx 0) best

  -- The loop over the bits of one word of the group bit field.
  unfoldable pub search_groups : ℕ → ℕ → Best → Best
  search_groups virtual_time gword best =
      if get_or c.group_bitfield gword 0 == 0
      then best
      else each_bit 32 32 (λ _. false)
          (λ group_bit. search_bins virtual_time (gword * 32 + group_bit))
          (get_or c.group_bitfield gword 0) best

  -- The loop over the words of the group bit field, with the number of words to go.
  unfoldable pub search_words : ℕ → ℕ → ℕ → Best → Best
  search_words virtual_time zero gword best = best
  search_words virtual_time (suc left) gword best =
      search_words virtual_time left (suc gword) (search_groups virtual_time gword best)

  unfoldable pub find_eligible_min_bitfield : ℕ → Option Session
  find_eligible_min_bitfield virtual_time = (search_words virtual_time 32 0 no_best).eligible_min

-- The second search, after virtual time has jumped to the smallest start time.
unfoldable pub search_again : Calendar → Option Session × Calendar
search_again c =
    if ltb c.virtual_time c.min_start_time
    then (
      find_eligible_min_bitfield c c.min_start_time,
      record c { virtual_time = c.min_start_time },
    )
    else (find_eligible_min_bitfield c c.virtual_time, c)

unfoldable pub search_twice : Option Session → Calendar → Option Session × Calendar
search_twice (some s) c = (some s, c)
search_twice none c = if not (c.min_start_time == u64_max) then search_again c else (none, c)

unfoldable pub update_cache : Option Session × Calendar → Option Session × Calendar
update_cache (none, c) = (none, c)
update_cache (some s, c) = (some s, record c { min_finish_time = s.finish_time })

-- `calendar_find_min_session`
unfoldable pub find_min_session : Calendar → Option Session × Calendar
find_min_session c =
    if c.active_session_count == 0
    then (none, c)
    else update_cache (search_twice (find_eligible_min_bitfield c c.virtual_time) c)
