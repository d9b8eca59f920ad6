-- ===== src/Chunked.antt =====
-- The entries of one owner, in chunks of 1024 that are allocated on demand:
-- src/hwfq_chunked_entries.c and .h. `mem i` says whether the i-th allocation of a call succeeds.
pub mod Access
pub mod Reuse
pub mod Grow
mod Tests
use hwfq_scheduler.Base.{
  ℕ, zero, suc, ◌+◌, ◌-◌, ◌*◌, ◌/◌, ◌%◌, ◌^◌, bit_or, Bool, true, false, Option, none, some, List,
  [], ◌∷◌, ◌++◌, ltb, leb, ◌==◌, if◌then◌else◌, get_or, get_elem?, set, replicate,
}
use hwfq_scheduler.Types.{u32_max, Status, success, no_memory, Entry, zero_entry}

abbrev pub chunk_shift : ℕ
chunk_shift = 10

abbrev pub chunk_size : ℕ
chunk_size = 2 ^ chunk_shift

abbrev pub max_chunks : ℕ
max_chunks = 2 ^ 20

-- `HWFQ_ENTRY_NONE`
abbrev pub entry_none : ℕ
entry_none = u32_max

-- `hwfq_chunked_entries_t`; a chunk that is not allocated is `none`. A free entry keeps the id of
-- the next free entry in its `entry_id`.
pub record ChunkedEntries : Type 0 where
  pub chunks : List (Option (List Entry))
  pub num_chunks : ℕ
  pub num_allocated : ℕ
  pub num_configured : ℕ
  pub free_head : ℕ
  pub max_entries : ℕ

-- `entry_id >> HWFQ_CHUNK_SHIFT` and `entry_id & HWFQ_CHUNK_MASK`
abbrev pub chunk_of : ℕ → ℕ
chunk_of entry_id = entry_id / 2 ^ chunk_shift

abbrev pub slot_of : ℕ → ℕ
slot_of entry_id = entry_id % 2 ^ chunk_shift

unfoldable pub encode : ℕ → ℕ → ℕ
encode chunk slot = bit_or (chunk * 2 ^ chunk_shift % 2 ^ 32) slot

abbrev pub chunk_at : ChunkedEntries → ℕ → Option (List Entry)
chunk_at ce i = get_or ce.chunks i none

abbrev pub slot_in : Option (List Entry) → ℕ → Option Entry
slot_in none slot = none
slot_in (some slots) slot = get_elem? slots slot

-- `hwfq_chunked_get`
unfoldable pub get : ChunkedEntries → ℕ → Option Entry
get ce entry_id =
    if leb ce.num_chunks (chunk_of entry_id)
    then none
    else slot_in (chunk_at ce (chunk_of entry_id)) (slot_of entry_id)

abbrev pub set_slot : Option (List Entry) → ℕ → Entry → Option (List Entry)
set_slot none slot e = none
set_slot (some slots) slot e = some (set slots slot e)

-- A store through the pointer that `hwfq_chunked_get` returned.
unfoldable pub put : ChunkedEntries → ℕ → Entry → ChunkedEntries
put ce entry_id e = record ce {
  chunks =
      set ce.chunks (chunk_of entry_id)
        (set_slot (chunk_at ce (chunk_of entry_id)) (slot_of entry_id) e);
}

unfoldable pub init : ℕ → ChunkedEntries
init max_entries = record {
  chunks = [];
  num_chunks = 0;
  num_allocated = 0;
  num_configured = 0;
  free_head = entry_none;
  max_entries = max_entries;
}

-- `hwfq_chunked_entries_destroy` on a structure: what it leaves.
unfoldable pub destroy : ChunkedEntries → ChunkedEntries
unfolding init
destroy ce = init 0

-- `while (alloc_chunks < new_num_chunks) alloc_chunks *= 2;`
unfoldable pub grow : ℕ → ℕ → ℕ → ℕ
grow zero n target = n
grow (suc fuel) n target =
    let rest = grow fuel (n * 2 % 2 ^ 32) target in if ltb n target then rest else n

-- The new array of chunks: the old ones, and none in the rest.
abbrev pub resize : ChunkedEntries → ℕ → ChunkedEntries
resize ce n = record ce { chunks = ce.chunks ++ replicate (n - ce.num_chunks) none; num_chunks = n }

abbrev pub new_size : ℕ → ℕ
new_size chunk_index =
    let n = grow 32 1 (chunk_index + 1) in if ltb max_chunks n then max_chunks else n

unfoldable pub fill_chunk : (ℕ → Bool) → ChunkedEntries → ℕ → Status × ChunkedEntries
fill_chunk mem ce chunk_index = elim (chunk_at ce chunk_index) [
  | some slots ↦ (success, ce)
  | none ↦
      if mem 1
      then (
        success,
        record ce { chunks = set ce.chunks chunk_index (some (replicate chunk_size zero_entry)) },
      )
      else (no_memory, ce)
]

unfoldable pub allocate_chunk : (ℕ → Bool) → ChunkedEntries → ℕ → Status × ChunkedEntries
allocate_chunk mem ce chunk_index =
    if leb max_chunks chunk_index
    then (no_memory, ce)
    else if leb ce.num_chunks chunk_index
    then if mem 0
      then fill_chunk mem (resize ce (new_size chunk_index)) chunk_index
      else (no_memory, ce)
    else fill_chunk mem ce chunk_index

abbrev pub max_of : ChunkedEntries → ℕ
max_of ce = if ltb 0 ce.max_entries then ce.max_entries else max_chunks * chunk_size

-- The entry at the head of the free list is used again; its statistics stay as they are.
unfoldable pub reuse : ChunkedEntries → Entry → Status × Option ℕ × ChunkedEntries
reuse ce e = (
  success,
  some ce.free_head,
  record (put ce ce.free_head (record e { entry_id = ce.free_head; configured = false })) {
    free_head = e.entry_id;
    num_configured = (ce.num_configured + 1) % 2 ^ 32;
  },
)

abbrev pub take_slot : ChunkedEntries → ℕ → Status × Option ℕ × ChunkedEntries
take_slot ce entry_id = (
  success,
  some entry_id,
  record (put ce entry_id (record zero_entry { entry_id = entry_id })) {
    num_allocated = (ce.num_allocated + 1) % 2 ^ 32;
    num_configured = (ce.num_configured + 1) % 2 ^ 32;
  },
)

abbrev pub after_chunk : ℕ → Status × ChunkedEntries → Status × Option ℕ × ChunkedEntries
after_chunk entry_id (success, ce) = take_slot ce entry_id
after_chunk entry_id (status, ce) = (status, none, ce)

unfoldable pub alloc_new : (ℕ → Bool) → ChunkedEntries → Status × Option ℕ × ChunkedEntries
alloc_new mem ce =
    after_chunk (encode (chunk_of ce.num_allocated) (slot_of ce.num_allocated))
      (allocate_chunk mem ce (chunk_of ce.num_allocated))

unfoldable pub alloc_free :
    (ℕ → Bool) → ChunkedEntries → Option Entry → Status × Option ℕ × ChunkedEntries
alloc_free mem ce (some e) = reuse ce e
alloc_free mem ce none = alloc_new mem (record ce { free_head = entry_none })

-- `hwfq_chunked_entries_alloc`
unfoldable pub alloc : (ℕ → Bool) → ChunkedEntries → Status × Option ℕ × ChunkedEntries
alloc mem ce =
    if leb (max_of ce) ce.num_configured
    then (no_memory, none, ce)
    else if ce.free_head == entry_none
    then alloc_new mem ce
    else alloc_free mem ce (get ce ce.free_head)

unfoldable pub free_at : ChunkedEntries → ℕ → Option Entry → ChunkedEntries
free_at ce entry_id none = ce
free_at ce entry_id (some e) =
    record (put ce entry_id (record e { configured = false; entry_id = ce.free_head })) {
      free_head = entry_id;
      num_configured =
          (if ltb 0 ce.num_configured then ce.num_configured - 1 else ce.num_configured);
    }

-- `hwfq_chunked_entries_free`
unfoldable pub free : ChunkedEntries → ℕ → ChunkedEntries
free ce entry_id = free_at ce entry_id (get ce entry_id)

-- `hwfq_chunked_entries_has_capacity`
unfoldable pub has_capacity : ChunkedEntries → Bool
has_capacity ce = if ce.free_head == entry_none then ltb ce.num_allocated (max_of ce) else true
