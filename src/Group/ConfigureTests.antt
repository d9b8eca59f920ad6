-- ===== src/Group/ConfigureTests.antt =====
-- Runs of the configuration of entries on small inputs.
use hwfq_scheduler.Base.{
  ℕ, zero, suc, ◌+◌, ◌^◌, ◌<◌, Bool, true, false, ◌≡◌, refl, none, some, some_inj, [], ◌∷◌, arith,
  replicate, get_or, subst, leb, if◌then◌else◌,
}
use hwfq_scheduler.Types.{u64_max, u32_max, success, rate, Entry, zero_entry}
use hwfq_scheduler.Chunked.{ChunkedEntries, get, chunk_of, slot_of, slot_in}
use hwfq_scheduler.Group.{GroupScheduler, configure_entry, get_entry_rate}
use hwfq_scheduler.Group.Enqueue.{KeepsOnFailure}
use hwfq_scheduler.Group.Configure.{
  IsSmall, IsBounded, configure_entry-KeepsOnFailure, configure_entry_rate,
}

-- One entry that is allocated and not configured.
abbrev pool : ChunkedEntries
pool = record {
  chunks = some (zero_entry ∷ []) ∷ [];
  num_chunks = 1;
  num_allocated = 1;
  num_configured = 1;
  free_head = u32_max;
  max_entries = 4;
}

abbrev plain : GroupScheduler
plain = record {
  calendar = record {
    bin_bitfield = 0 ∷ [];
    bin_heads = [] ∷ [] ∷ [];
    group_bitfield = replicate 32 0;
    bins_per_group = 2;
    num_bins = 2;
    bin_bitfield_size = 1;
    base_interval = 1;
    virtual_time = 0;
    active_session_count = 0;
    min_finish_time = u64_max;
    min_start_time = u64_max;
    min_session = none;
  };
  entries = pool;
  max_entries = 4;
  configured_entries = [];
  allocated_rate_capacity = 600;
  total_weight = 0;
  num_groups = 1;
  total_capacity = 1000;
}

only_entry :
    (out : Bool) (chunk slot : ℕ) (e : Entry)
    → (if out then none else slot_in (get_or (some (zero_entry ∷ []) ∷ []) chunk none) slot)
      ≡ some e
    → IsSmall e.allocation
only_entry true chunk slot e h = absurd (cc)
only_entry false zero zero e h =
    subst (λ d. IsSmall d.allocation) (some_inj h) (let q : 0 < 2 ^ 32 = omega arith in q)
only_entry false zero (suc slot) e h = absurd (cc)
only_entry false (suc chunk) slot e h = absurd (cc)

plain-IsBounded : IsBounded plain
unfolding get
plain-IsBounded = record {
  rates = omega arith;
  weights = omega arith;
  allocations = λ i e h. only_entry (leb 1 (chunk_of i)) (chunk_of i) (slot_of i) e h;
}

-- The rate would overbook.
configure_entry-KeepsOnFailure_example : KeepsOnFailure plain (configure_entry plain 0 (rate 500))
configure_entry-KeepsOnFailure_example =
    configure_entry-KeepsOnFailure plain 0 (rate 500) plain-IsBounded

there : get pool 0 ≡ some zero_entry
unfolding get
there = refl

configure_entry_rate_example :
    let h = (configure_entry plain 0 (rate 400)).1 in
    ((configure_entry plain 0 (rate 400)).0 ≡ success)
    × (h.allocated_rate_capacity ≡ 600 + 400)
    × (get_entry_rate h 0 ≡ (success, 400))
    × (h.configured_entries ≡ 0 ∷ [])
    × (h.total_weight ≡ 0)
configure_entry_rate_example =
    configure_entry_rate plain 0 400 zero_entry (omega arith) (omega arith) there refl (omega arith)
      (omega arith)
