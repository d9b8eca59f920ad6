-- ===== src/Trie.antt =====
-- The allocator of flow ids of src/hwfq_flow_trie.c and .h: a bit field of the ids in use with three
-- levels above it, whose bits say that some id below is free.
pub mod First
pub mod Valid
pub mod Search
pub mod Marks
pub mod Fill
pub mod Alloc
pub mod Release
pub mod Free
pub mod Masks
pub mod Levels
pub mod Init
pub mod Count
pub mod Reach
mod Tests
use hwfq_scheduler.Base.{
  ℕ, ◌+◌, ◌-◌, ◌*◌, ◌/◌, ◌%◌, ◌^◌, bit_and, bit_or, Bool, false, Option, none, some, List, [], ltb,
  leb, ◌==◌, if◌then◌else◌, get_or, set, replicate,
}
use hwfq_scheduler.Types.{u64_max, Status, success, invalid_arg, no_memory, internal}
use hwfq_scheduler.Word.{complement, set_bit_of, clear_bit_of, ctz}
use hwfq_scheduler.Word.Field.{set_at, clear_at, test_at}

-- `hwfq_flow_trie_t`, less `alloc_hint`, which nothing reads.
pub record FlowTrie : Type 0 where
  pub level2 : ℕ
  pub level1 : List ℕ
  pub level0 : List ℕ
  pub leaf : List ℕ
  pub level1_size : ℕ
  pub level0_size : ℕ
  pub leaf_size : ℕ
  pub max_flows : ℕ
  pub allocated_count : ℕ

-- `__builtin_ffsll`, 1 more than the position.
unfoldable pub find_first_set_bit64 : ℕ → ℕ
find_first_set_bit64 value = if value == 0 then 0 else ctz 64 value + 1

unfoldable pub find_first_zero_bit64 : ℕ → ℕ
find_first_zero_bit64 value = find_first_set_bit64 (complement 64 value)

abbrev pub bits_to_words : ℕ → ℕ
bits_to_words num_bits = (num_bits + 63) % 2 ^ 32 / 64

-- The last word of a level with the bits that stand for nothing set or cleared.
unfoldable pub mask_leaf : List ℕ → (size used : ℕ) → List ℕ
mask_leaf ws size used =
    if used == 0
    then ws
    else set ws (size - 1) (bit_or (get_or ws (size - 1) 0) (complement 64 (2 ^ used - 1)))

unfoldable pub mask_level : List ℕ → (size used : ℕ) → List ℕ
mask_level ws size used =
    if used == 0 then ws else set ws (size - 1) (bit_and (get_or ws (size - 1) 0) (2 ^ used - 1))

-- The bits above a leaf word are cleared, as far up as there is no free id left.
abbrev pub fill_level2 : FlowTrie → ℕ → FlowTrie
fill_level2 t l1_word =
    if get_or t.level1 l1_word 0 == 0
    then record t { level2 = clear_bit_of 64 t.level2 l1_word }
    else t

abbrev pub fill_level1 : FlowTrie → (l0_word l1_word : ℕ) → FlowTrie
fill_level1 t l0_word l1_word =
    if get_or t.level0 l0_word 0 == 0
    then fill_level2 (record t { level1 = clear_at 64 t.level1 l0_word }) l1_word
    else t

unfoldable pub fill : FlowTrie → (leaf_word l0_word l1_word : ℕ) → FlowTrie
fill t leaf_word l0_word l1_word =
    if get_or t.leaf leaf_word 0 == u64_max
    then fill_level1 (record t { level0 = clear_at 64 t.level0 leaf_word }) l0_word l1_word
    else t

-- `hwfq_flow_trie_init`. `mem i` says whether the i-th allocation succeeds.
unfoldable pub trie_init : (ℕ → Bool) → ℕ → Status × Option FlowTrie
trie_init mem max_flows =
    if max_flows == 0
    then (invalid_arg, none)
    else if mem 0
    then if mem 1
      then if mem 2 then (success, some reserved) else (no_memory, none)
      else (no_memory, none)
    else (no_memory, none)
  where
    n : ℕ
    n = bits_to_words max_flows

    n0 : ℕ
    n0 = bits_to_words n

    n1 : ℕ
    n1 = bits_to_words n0

    unused : FlowTrie
    unused = record {
      level2 = (if ltb n1 64 then bit_and u64_max (2 ^ n1 - 1) else u64_max);
      level1 = mask_level (replicate n1 u64_max) n1 (n0 % 64);
      level0 = mask_level (replicate n0 u64_max) n0 (n % 64);
      leaf = mask_leaf (replicate n 0) n (max_flows % 64);
      level1_size = n1;
      level0_size = n0;
      leaf_size = n;
      max_flows = max_flows;
      allocated_count = 0;
    }

    reserved : FlowTrie
    reserved =
        fill
          (record unused {
            leaf = set unused.leaf 0 (bit_or (get_or unused.leaf 0 0) 1);
            allocated_count = 1;
          })
          0 0 0

-- What `hwfq_flow_trie_destroy` leaves.
unfoldable pub trie_destroy : FlowTrie → FlowTrie
trie_destroy t = record t {
  level2 = 0;
  level1 = [];
  level0 = [];
  leaf = [];
  max_flows = 0;
  allocated_count = 0;
}

-- The end of `hwfq_flow_trie_alloc`, with the id found.
unfoldable pub claim :
    FlowTrie → (flow_id leaf_word l0_word l1_word : ℕ) → Status × Option ℕ × FlowTrie
claim t flow_id leaf_word l0_word l1_word =
    if leb t.max_flows flow_id then (no_memory, none, t) else (
      success,
      some flow_id,
      fill
          (record t {
            leaf = set_at 64 t.leaf flow_id;
            allocated_count = (t.allocated_count + 1) % 2 ^ 32;
          })
          leaf_word l0_word l1_word,
    )

-- The search in one leaf word, one word of level 0 and one word of level 1.
unfoldable pub alloc_leaf :
    FlowTrie → (leaf_word l0_word l1_word : ℕ) → Status × Option ℕ × FlowTrie
alloc_leaf t leaf_word l0_word l1_word =
    let leaf_bit = find_first_zero_bit64 (get_or t.leaf leaf_word 0) in
    if leaf_bit == 0
    then (internal, none, t)
    else claim t (leaf_word * 64 + (leaf_bit - 1)) leaf_word l0_word l1_word

unfoldable pub alloc_level0 : FlowTrie → (l0_word l1_word : ℕ) → Status × Option ℕ × FlowTrie
alloc_level0 t l0_word l1_word =
    let l0_bit = find_first_set_bit64 (get_or t.level0 l0_word 0) in
    if l0_bit == 0
    then (internal, none, t)
    else alloc_leaf t (l0_word * 64 + (l0_bit - 1)) l0_word l1_word

unfoldable pub alloc_level1 : FlowTrie → ℕ → Status × Option ℕ × FlowTrie
alloc_level1 t l1_word =
    let l1_bit = find_first_set_bit64 (get_or t.level1 l1_word 0) in
    if l1_bit == 0
    then (internal, none, t)
    else alloc_level0 t (l1_word * 64 + (l1_bit - 1)) l1_word

-- `hwfq_flow_trie_alloc`
unfoldable pub trie_alloc : FlowTrie → Status × Option ℕ × FlowTrie
trie_alloc t =
    if t.level2 == 0
    then (no_memory, none, t)
    else let l2_bit = find_first_set_bit64 t.level2 in
      if l2_bit == 0 then (no_memory, none, t) else alloc_level1 t (l2_bit - 1)

-- The bits above a leaf word that has got its first free id, as far up as they were clear.
abbrev pub open_level2 : FlowTrie → (l0_word l1_word : ℕ) → FlowTrie
open_level2 t l0_word l1_word =
    if get_or t.level1 l1_word 0 == 2 ^ (l0_word % 64)
    then record t { level2 = set_bit_of t.level2 l1_word }
    else t

abbrev pub open_level1 : FlowTrie → (leaf_word l0_word l1_word : ℕ) → FlowTrie
open_level1 t leaf_word l0_word l1_word =
    if get_or t.level0 l0_word 0 == 2 ^ (leaf_word % 64)
    then open_level2 (record t { level1 = set_at 64 t.level1 l0_word }) l0_word l1_word
    else t

unfoldable pub release : FlowTrie → ℕ → FlowTrie
release t flow_id =
    let leaf_word = flow_id / 64 in
    let cleared = record t {
      leaf = clear_at 64 t.leaf flow_id;
      allocated_count = (t.allocated_count + 2 ^ 32 - 1) % 2 ^ 32;
    } in
    if get_or t.leaf leaf_word 0 == u64_max
    then open_level1 (record cleared { level0 = set_at 64 t.level0 leaf_word }) leaf_word
        (leaf_word / 64) (leaf_word / 64 / 64)
    else cleared

-- `hwfq_flow_trie_free`
unfoldable pub trie_free : FlowTrie → ℕ → FlowTrie
trie_free t flow_id =
    if flow_id == 0
    then t
    else if leb t.max_flows flow_id
    then t
    else if test_at 64 t.leaf flow_id
    then release t flow_id
    else t

-- `hwfq_flow_trie_is_allocated`
unfoldable pub is_allocated : FlowTrie → ℕ → Bool
is_allocated t flow_id = if leb t.max_flows flow_id then false else test_at 64 t.leaf flow_id
