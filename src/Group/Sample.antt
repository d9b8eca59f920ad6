-- ===== src/Group/Sample.antt =====
-- A small group scheduler with one session queued, for tests.
use mathlib.Core.List.{Perm}
use hwfq_scheduler.Base.{
  ◌*◌, zero, suc, ◌^◌, ◌<◌, true, ◌≡◌, refl, sym, ◌∙◌, none, some, some_inj, [], ◌∷◌, arith, subst,
  length, replicate,
}
use hwfq_scheduler.Types.{UserData, u64_max, u32_max, rate, Entry, Session, zero_entry}
use hwfq_scheduler.Calendar.{
  calculate_group_index_from_interval, calculate_bin_index_from_finish_time,
}
use hwfq_scheduler.Calendar.Contents.{sessions, Perm-length}
use hwfq_scheduler.Calendar.Insert.{IsFresh, bin_for, stored}
use hwfq_scheduler.Chunked.{ChunkedEntries, get}
use hwfq_scheduler.Group.{GroupScheduler, init_with_entries, find_entry}
use hwfq_scheduler.Calendar.{insert_session}
use hwfq_scheduler.Group.Queue.{
  enqueue_at, enqueue_for, accept, enqueue, new_session, service_interval_of, scaled_work,
  start_time_of, finish_time_of,
}
use hwfq_scheduler.Group.Init.{init_with_entries_lem}
use hwfq_scheduler.Group.Ready.{IsReady, IsUnsaturated, enqueue_lem}

-- A tenant's entry with a rate that makes one unit of work last one unit of virtual time.
abbrev pub served : Entry
served = record zero_entry {
  configured = true;
  allocation = rate (2 ^ 20);
  calculated_rate = 2 ^ 20;
}

abbrev pub pool : ChunkedEntries
pool = record {
  chunks = some (served ∷ []) ∷ [];
  num_chunks = 1;
  num_allocated = 1;
  num_configured = 1;
  free_head = u32_max;
  max_entries = 4;
}

abbrev pub fresh : GroupScheduler
fresh = record {
  calendar = record {
    bin_bitfield = 0 ∷ [];
    bin_heads = [] ∷ [] ∷ [] ∷ [] ∷ [];
    group_bitfield = replicate 32 0;
    bins_per_group = 2;
    num_bins = 4;
    bin_bitfield_size = 1;
    base_interval = 1;
    virtual_time = 0;
    active_session_count = 0;
    min_finish_time = u64_max;
    min_start_time = u64_max;
    min_session = none;
  };
  entries = pool;
  max_entries = 4;
  configured_entries = [];
  allocated_rate_capacity = 0;
  total_weight = 0;
  num_groups = 2;
  total_capacity = 1000;
}

pub init-fresh : init_with_entries (λ _. true) 2 2 1000 4 pool ≡ some fresh
unfolding init_with_entries
init-fresh = refl

pub fresh-IsReady : IsReady fresh
fresh-IsReady =
    let (g, q, n) =
      init_with_entries_lem (λ _. true) 2 2 1000 4 pool refl refl refl (omega arith) (omega arith)
        (omega arith) (omega arith) in
    subst IsReady (some_inj (sym q ∙ init-fresh)) n.ready

abbrev pub first_session : UserData → Session
first_session u = new_session fresh served 0 1 u 7 100

pub new_address : IsFresh fresh.calendar 100
new_address zero = tt
new_address (suc zero) = tt
new_address (suc (suc zero)) = tt
new_address (suc (suc (suc zero))) = tt
new_address (suc (suc (suc (suc i)))) = tt

pub finds : find_entry fresh 0 ≡ some served
unfolding find_entry get
finds = refl

pub first_bin : (u : UserData) → bin_for fresh.calendar (first_session u) < 4
unfolding new_session service_interval_of scaled_work start_time_of finish_time_of
    calculate_group_index_from_interval calculate_bin_index_from_finish_time
first_bin u = omega arith

pub first_calm : (u : UserData) → IsUnsaturated (first_session u)
unfolding new_session service_interval_of scaled_work start_time_of
first_calm u = omega arith

-- The scheduler after its first session was queued.
abbrev pub queued : UserData → GroupScheduler
queued u = (enqueue fresh 0 1 u 7 (some 100)).1

pub queued-lem :
    (u : UserData)
    → Perm (sessions (queued u).calendar) (stored fresh.calendar (first_session u) ∷ [])
      × IsReady (queued u)
queued-lem u =
    let k =
      enqueue_lem fresh served 0 1 u 7 100 fresh-IsReady (omega arith) (omega arith) finds
        (omega arith) new_address (omega arith) (first_bin u) (first_calm u) in
    (k.1, k.4)

pub one_held : (u : UserData) → length (sessions (queued u).calendar) ≡ 1
one_held u = Perm-length (queued-lem u).0

pub bins_match :
    (u : UserData)
    → (queued u).num_groups * (queued u).calendar.bins_per_group ≡ (queued u).calendar.num_bins
unfolding enqueue enqueue_at find_entry get enqueue_for accept insert_session new_session
    calculate_group_index_from_interval service_interval_of scaled_work
    calculate_bin_index_from_finish_time finish_time_of start_time_of
bins_match u = refl
