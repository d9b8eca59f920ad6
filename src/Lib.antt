-- ===== src/Lib.antt =====
-- Verification library of the H-WFQ scheduler: hierarchical worst-case fair weighted fair queueing
-- (WF2Q+) on a calendar queue.
--
-- The parts. The C library schedules at two levels: a system scheduler chooses a tenant, and the
-- tenant's flow scheduler one of its flows. Both are a group scheduler (src/hwfq_group_scheduler.c):
-- entries with a weight or a rate, and a calendar queue of sessions (src/hwfq_group_calendar.c) with
-- one or more sessions for each entry. The entries stand in a pool of chunks
-- (src/hwfq_chunked_entries.c) of the owner, to which the group scheduler has a pointer. A tenant has
-- one session in the system scheduler while it has work (src/hwfq_scheduler.c): `hwfq_dequeue` takes it,
-- takes a session of the tenant's flows, records the work as in flight and registers the tenant again
-- if more is queued; `hwfq_complete`, `hwfq_cancel` and `hwfq_check_timeouts` end work in flight.
-- src/hwfq_config.c sets up the scheduler, its tenants and their flows.
--
-- The files.
--   Base: shared names, Boolean tests, lists (Base/Tests, Base/Lists).
--   Word: bits of a machine word, ctz, and the loop over the set bits (Word/*), with the fields of
--     words (Word/Field) that the bit fields are.
--   Types: of include/hwfq.h, src/hwfq_internal.h and src/hwfq_group_scheduler_internal.h: status codes,
--     allocations, sessions, entries, statistics.
--   Calendar: src/hwfq_group_calendar.c. `Calendar` holds the fields of `group_scheduler_t` that
--     this file reads and writes; the functions keep the names of the C code without `calendar_`.
--     Calendar/Search is find_eligible_min_bitfield and calendar_find_min_session, Calendar/Remove
--     is calendar_remove_session. Calendar/Valid says what is always true of a calendar; the files
--     beside it prove it of each operation (Empty, Insert, Unlink) and what the operations give
--     (Least, Start, Progress, Reach). Calendar/Contents is the abstract view: a calendar as the multiset
--     of its sessions; Calendar/Wf2q says what the choice of WF2Q+ is among some sessions.
--   Chunked: src/hwfq_chunked_entries.c and .h; Chunked/Access is about reading and writing
--     entries, Chunked/Reuse about the free list, Chunked/Grow about the table's size.
--   Group: src/hwfq_group_scheduler.c: rates and the configuration of entries; Group/Queue has enqueue,
--     dequeue and removal, Group/Time virtual time and its rebase, and Group/Init, Enqueue, Ready,
--     Dequeue, Rebase, Walk, Shift, Choice, Advance, Clock, Configure and Destroy the proofs about them.
--   Trie: the allocator of flow ids, src/hwfq_flow_trie.c and .h. Trie/Valid says when the levels are
--     exact; Trie/First and Search follow the search, Trie/Marks, Fill and Release the levels under a
--     change, and Trie/Alloc and Free give the operations as those of a set of ids. Trie/Masks,
--     Levels and Init are about the start, Trie/Count and Reach about any calls in a row.
--   InFlight: the work in flight of src/hwfq_scheduler.c, a hash table and a list of the same entries;
--     InFlight/Table relates the two, InFlight/Lists has the lemmas on lists of entries.
--   Scheduler: the state of src/hwfq_internal.h and the helpers of src/hwfq_scheduler.c; Scheduler/Queue
--     is hwfq_enqueue, Serve hwfq_dequeue, Finish hwfq_complete, hwfq_cancel and hwfq_check_timeouts.
--     Beside them stand the proofs: Accounts and Flight about the totals of the work in flight, Leave
--     and Expire about its end, Refuse about an enqueue that fails, Choice about what is dequeued.
--   Configuration: src/hwfq_config.c. Configuration has hwfq_init, hwfq_destroy and the capacity report,
--     Configuration/Tenants, Flows and Stats the functions about these, Configuration/Flight the proof
--     that they leave the work in flight alone, Rates and RatesKept the sum of the tenants' rates, Ledger
--     that the scheduler and the system scheduler record the same rates, Reset and Destroy what these
--     two calls do.
--   System: the calls of include/hwfq.h as steps from one scheduler to the next, and what holds of every
--     scheduler that steps reach (System/Accounts) or of calls in a row (System/RoundTrip, and
--     System/Passage with System/Intake).
--   The Tests of a part run its definitions on small inputs.
--
-- How the code is modelled. A group scheduler's call holds its lock from the first read to the last
-- write, so each operation is one function from the state to a status and the next state. Numbers
-- are native; additions and subtractions that can wrap in 64 or 32 bits are written with `% 2 ^ 64`
-- or `% 2 ^ 32`. A bin's doubly linked list is a list, and `address`, where a session is allocated,
-- stands for the pointer's identity; the allocator's answer and the clock are arguments. The list
-- of configured entries is the list of their ids. Null checks of the scheduler's pointer are left
-- out.
--
-- Bounds and fuel. The bit fields have 32 words of 32 bits over words of 32 bins, so 32768 bins;
-- a valid calendar has no more. The loop over the bits of a word takes 32 rounds of fuel, one for
-- each bit (Word/Loop), and the growth of the table of chunks 32, which Chunked/Grow shows to be
-- enough: each round doubles the size, and the maximum is 2 ^ 20. A trie is for at most 2 ^ 24 ids,
-- where its state must be exact: each of the 64 bits of level 2 covers 2 ^ 18 of them.
--
-- The pool of a tenant's flows is reached through its flow scheduler, and so is the pool of tenants
-- through the system scheduler, so the two owners of a pool see one pool. A pointer to a tenant in a
-- session of the system scheduler is the tenant's id.
--
-- Not modelled: cleanup callbacks, locks and threads (a call is one step), the memory dispatch of
-- src/hwfq_memory.c (an allocation's answer is an argument), the percentage of the capacity report, and
-- the examples and tests, which call the library.
pub mod Base
pub mod Word
pub mod Types
pub mod Calendar
pub mod Chunked
pub mod Group
pub mod Trie
pub mod InFlight
pub mod Scheduler
pub mod Configuration
pub mod System
