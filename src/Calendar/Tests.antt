-- ===== src/Calendar/Tests.antt =====
-- Runs of the calendar on small inputs.
use hwfq_scheduler.Base.{
  ℕ, zero, suc, ◌+◌, ◌*◌, ◌^◌, ◌≤◌, ◌<◌, ◌≡◌, ◌≢◌, ◌⊎◌, refl, none, [], ◌∷◌, arith, replicate, All,
  Has, inl,
}
use hwfq_scheduler.Types.{u64_max, success, null, Session}
use hwfq_scheduler.Word.{bit}
use hwfq_scheduler.Calendar.{
  clz, Calendar, calculate_group_index_from_interval, calculate_bin_index_from_finish_time,
  insert_session, bin_list_insert, insert_sorted,
}
use hwfq_scheduler.Calendar.Search.{find_min_session, find_eligible_min_bitfield}
use hwfq_scheduler.Calendar.Remove.{remove_session, lower_words}
use hwfq_scheduler.Calendar.Index.{group_index_lem}
use hwfq_scheduler.Calendar.Valid.{IsValid, IsMinStart, bin_of}
use hwfq_scheduler.Calendar.Least.{IsEligibleMin, find-IsEligibleMin}
use hwfq_scheduler.Calendar.Start.{lower_words-IsMinStart}
use hwfq_scheduler.Calendar.Contents.{sessions}
use hwfq_scheduler.Calendar.Insert.{
  bin_for, stored, IsFresh, insert_session-IsValid, insert_session-All,
}
use hwfq_scheduler.Calendar.Unlink.{remove_session-IsValid}
use hwfq_scheduler.Calendar.Progress.{
  IsTimed, find_min_session-IsEligibleMin, find_min_session-ne-none, find_min_session_saturated,
}
use hwfq_scheduler.Calendar.Reach.{insert_session_accepts}
use hwfq_scheduler.Calendar.Empty.{empty-IsValid}

-- Two groups of two bins, with nothing queued; the count is that after one insertion.
abbrev empty : Calendar
empty = record {
  bin_bitfield = 0 ∷ [];
  bin_heads = [] ∷ [] ∷ [] ∷ [] ∷ [];
  group_bitfield = replicate 32 0;
  bins_per_group = 2;
  num_bins = 4;
  bin_bitfield_size = 1;
  base_interval = 1;
  virtual_time = 0;
  active_session_count = 1;
  min_finish_time = u64_max;
  min_start_time = u64_max;
  min_session = none;
}

valid : IsValid empty
valid = empty-IsValid empty 4 (omega arith) refl refl refl refl refl refl

-- A session that may start at time 3 and finishes at the given time.
abbrev job : ℕ → Session
job finish = record {
  address = 100;
  entry_id = 1;
  start_time = 3;
  finish_time = finish;
  service_interval = 2;
  group_index = 1;
  bin_index = 0;
  user_data = null;
  work_size = 1;
  enqueue_time_ns = 0;
}

unused : IsFresh empty 100
unused zero = tt
unused (suc zero) = tt
unused (suc (suc zero)) = tt
unused (suc (suc (suc zero))) = tt
unused (suc (suc (suc (suc i)))) = tt

has_bin : bin_for empty (job 5) < 4
unfolding calculate_bin_index_from_finish_time
has_bin = omega arith

insert_session-IsValid_example : IsValid (insert_session empty (job 5)).1
insert_session-IsValid_example = insert_session-IsValid empty (job 5) valid unused

-- The calendar with one session.
abbrev busy : Calendar
busy = (insert_session empty (job 5)).1

busy-IsValid : IsValid busy
busy-IsValid = insert_session-IsValid empty (job 5) valid unused

counts : busy.active_session_count ≢ 0
unfolding insert_session calculate_bin_index_from_finish_time
counts = omega arith

held : Has (stored empty (job 5)) (bin_of busy (stored empty (job 5)).bin_index)
unfolding insert_session bin_list_insert insert_sorted calculate_bin_index_from_finish_time
held = inl refl

find_min_session-IsEligibleMin_example :
    IsEligibleMin busy (find_min_session busy).1.virtual_time (find_min_session busy).0
    × (busy.virtual_time ≤ (find_min_session busy).1.virtual_time)
find_min_session-IsEligibleMin_example = find_min_session-IsEligibleMin busy busy-IsValid counts

remove_session-IsValid_example :
    ((remove_session busy (stored empty (job 5))).0 ≡ success)
    × IsValid (remove_session busy (stored empty (job 5))).1
remove_session-IsValid_example =
    remove_session-IsValid busy (stored empty (job 5)) busy-IsValid held

find-IsEligibleMin_example : IsEligibleMin busy 4 (find_eligible_min_bitfield busy 4)
find-IsEligibleMin_example = find-IsEligibleMin busy 4 busy-IsValid.indexed busy-IsValid.ordered

lower_words-IsMinStart_example : IsMinStart busy (lower_words busy 32 0 u64_max)
lower_words-IsMinStart_example = lower_words-IsMinStart busy busy-IsValid.indexed

none-IsTimed : IsTimed empty
none-IsTimed zero = tt
none-IsTimed (suc zero) = tt
none-IsTimed (suc (suc zero)) = tt
none-IsTimed (suc (suc (suc zero))) = tt
none-IsTimed (suc (suc (suc (suc i)))) = tt

busy-IsTimed : IsTimed busy
busy-IsTimed =
    insert_session-All _ empty (job 5) valid.indexed (omega arith, omega arith) none-IsTimed

kept : Has (stored empty (job 5)) (sessions busy)
unfolding insert_session bin_list_insert insert_sorted calculate_bin_index_from_finish_time
kept = inl refl

find_min_session-ne-none_example : (find_min_session busy).0 ≢ none
find_min_session-ne-none_example =
    find_min_session-ne-none busy busy-IsValid counts busy-IsTimed (stored empty (job 5)) kept

none_saturated : (i : ℕ) → All (λ t. t.finish_time ≡ u64_max) (bin_of empty i)
none_saturated zero = tt
none_saturated (suc zero) = tt
none_saturated (suc (suc zero)) = tt
none_saturated (suc (suc (suc zero))) = tt
none_saturated (suc (suc (suc (suc i)))) = tt

-- The calendar with one session whose finish time is saturated.
abbrev stuck : Calendar
stuck = (insert_session empty (job u64_max)).1

find_min_session_saturated_example : (find_min_session stuck).0 ≡ none
find_min_session_saturated_example =
    find_min_session_saturated stuck (insert_session-IsValid empty (job u64_max) valid unused)
      (insert_session-All _ empty (job u64_max) valid.indexed refl none_saturated)

group_index_lem_example :
    let g = calculate_group_index_from_interval 300 2 in
    (2 * 2 ^ g ≤ 300) × ((300 < 2 * 2 ^ (g + 1)) ⊎ (g ≡ 15))
group_index_lem_example = group_index_lem 300 2 (omega arith) (omega arith) (omega arith)

-- The 16 groups of the default configuration, with one bin each.
abbrev sixteen : Calendar
sixteen = record empty { bin_heads = replicate 16 []; bins_per_group = 1; num_bins = 16 }

sixteen-IsValid : IsValid sixteen
sixteen-IsValid = empty-IsValid sixteen 16 (omega arith) refl refl refl refl refl refl

same_group : (job 5).group_index ≡ calculate_group_index_from_interval 2 1
unfolding calculate_group_index_from_interval clz bit
same_group = refl

insert_session_accepts_example : (insert_session sixteen (job 5)).0 ≡ success
insert_session_accepts_example =
    insert_session_accepts sixteen (job 5) 2 1 sixteen-IsValid.indexed same_group (omega arith)
      (omega arith)
