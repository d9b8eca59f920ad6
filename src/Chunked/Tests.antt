-- ===== src/Chunked/Tests.antt =====
-- Runs of the pool of entries on small inputs.
use hwfq_scheduler.Base.{◌<◌, true, ℕ, ◌≡◌, refl, some, [], ◌∷◌, arith}
use hwfq_scheduler.Types.{u32_max, success, Entry, zero_entry}
use hwfq_scheduler.Chunked.{ChunkedEntries, new_size, get, alloc, free}
use hwfq_scheduler.Chunked.Grow.{new_size_lem}
use hwfq_scheduler.Chunked.Reuse.{Replaced, alloc-free}

abbrev numbered : ℕ → Entry
numbered i = record zero_entry { entry_id = i }

abbrev two_slots : ChunkedEntries
two_slots = record {
  chunks = some (numbered 0 ∷ numbered 1 ∷ []) ∷ [];
  num_chunks = 1;
  num_allocated = 2;
  num_configured = 2;
  free_head = u32_max;
  max_entries = 0;
}

there : get two_slots 1 ≡ some (numbered 1)
unfolding get
there = refl

alloc-free_example :
    (ce : ChunkedEntries) × (alloc (λ _. true) (free two_slots 1) ≡ (success, some 1, ce))
    × Replaced two_slots 1 (numbered 1) ce
alloc-free_example =
    alloc-free (λ _. true) two_slots 1 (numbered 1) there (omega arith) (omega arith) (omega arith)
      (omega arith)

new_size_lem_example : 5 < new_size 5
new_size_lem_example = new_size_lem 5 (omega arith)
