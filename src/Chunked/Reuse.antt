-- ===== src/Chunked/Reuse.antt =====
-- The free list of `hwfq_chunked_entries_alloc` and `hwfq_chunked_entries_free`.
use hwfq_scheduler.Base.{
  ℕ, ◌+◌, ◌-◌, ◌%◌, ◌^◌, ◌≤◌, ◌<◌, Bool, true, false, ◌≡◌, ◌≢◌, refl, some, arith, leb, ltb,
  ne→not-==,
}
use hwfq_scheduler.Types.{success, Entry}
use hwfq_scheduler.Chunked.{
  ChunkedEntries, entry_none, get, put, max_of, alloc, alloc_free, reuse, free, free_at,
}
use hwfq_scheduler.Chunked.Access.{get-put_self}

-- The pool ce' is ce with the entry i as e, and with its free list and counts.
pub record Replaced (ce : ChunkedEntries) (i : ℕ) (e : Entry) (ce' : ChunkedEntries) : Type 0 where
  pub entry : get ce' i ≡ some e
  pub free_list : ce'.free_head ≡ ce.free_head
  pub configured : ce'.num_configured ≡ ce.num_configured
  pub allocated : ce'.num_allocated ≡ ce.num_allocated

module _ (ce : ChunkedEntries) (i : ℕ) (e : Entry) (there : get ce i ≡ some e)
    (counted : 0 < ce.num_configured) where
  abbrev listed : Entry
  listed = record e { configured = false; entry_id = ce.free_head }

  abbrev freed : ChunkedEntries
  freed = record (put ce i listed) { free_head = i; num_configured = ce.num_configured - 1 }

  free-eq : free ce i ≡ freed
  unfolding free free_at
  free-eq = rw (there, let q : ltb 0 ce.num_configured ≡ true = ground arith in q) refl

  get-freed : get freed i ≡ some listed
  unfolding get put
  get-freed = get-put_self ce i e listed there

  abbrev again : Entry
  again = record e { entry_id = i; configured = false }

  abbrev reused : ChunkedEntries
  reused = record (put freed i again) {
    free_head = ce.free_head;
    num_configured = (ce.num_configured - 1 + 1) % 2 ^ 32;
  }

  reused-Replaced : ce.num_configured < 2 ^ 32 → Replaced ce i again reused
  unfolding get put
  reused-Replaced small = record {
    entry = get-put_self freed i listed again get-freed;
    free_list = refl;
    configured = omega arith;
    allocated = refl;
  }

-- Freeing an entry of a pool that is not over its maximum, and then allocating, gives the same id
-- again, whatever the allocator does: the last entry freed is the first used again. The free list and
-- the counts are those from before, and the entry keeps all but its id and flag, its statistics too.
pub alloc-free :
    (mem : ℕ → Bool) (ce : ChunkedEntries) (i : ℕ) (e : Entry)
    → get ce i ≡ some e
    → i ≢ entry_none
    → 0 < ce.num_configured
    → ce.num_configured ≤ max_of ce
    → ce.num_configured < 2 ^ 32
    → (ce' : ChunkedEntries) × (alloc mem (free ce i) ≡ (success, some i, ce'))
      × Replaced ce i (record e { entry_id = i; configured = false }) ce'
unfolding alloc alloc_free reuse put
alloc-free mem ce i e there ne counted room small =
    let below : leb (max_of ce) (ce.num_configured - 1) ≡ false = ground arith in
    (
      reused ce i e there counted,
      rw
          (
            free-eq ce i e there counted,
            below,
            ne→not-== i entry_none ne,
            get-freed ce i e there counted,
          )
          refl,
      reused-Replaced ce i e there counted small,
    )
