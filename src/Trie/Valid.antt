-- ===== src/Trie/Valid.antt =====
-- What is always true of the trie of flow ids: each level says exactly which words below have a free
-- id.
use hwfq_scheduler.Base.{ℕ, ◌*◌, ◌^◌, ◌≤◌, ◌<◌, true, not, ◌==◌, ◌≡◌, List, length, get_or}
use hwfq_scheduler.Types.{u64_max}
use hwfq_scheduler.Word.{bit}
use hwfq_scheduler.Word.Field.{IsField, bit_at}
use hwfq_scheduler.Trie.{FlowTrie}

-- Level 0 over the leaf words; a leaf word that does not exist counts as full.
abbrev pub MarksLeaf : (level0 leaf : List ℕ) → Type 0
MarksLeaf level0 leaf = (i : ℕ) → bit_at 64 level0 i ≡ not (get_or leaf i u64_max == u64_max)

-- Level 1 over the words of level 0.
abbrev pub MarksLevel : (upper lower : List ℕ) → Type 0
MarksLevel upper lower = (i : ℕ) → bit_at 64 upper i ≡ not (get_or lower i 0 == 0)

-- Level 2 over the words of level 1.
abbrev pub MarksTop : ℕ → List ℕ → Type 0
MarksTop level2 level1 = (i : ℕ) → bit level2 i ≡ not (get_or level1 i 0 == 0)

pub record IsExact (t : FlowTrie) : Type 0 where
  pub leaf_words : IsField 64 t.leaf
  pub level0_words : IsField 64 t.level0
  pub level1_words : IsField 64 t.level1
  pub level2_word : t.level2 < 2 ^ 64
  pub leaf_covers : t.max_flows ≤ length t.leaf * 64
  pub level0_covers : length t.leaf ≤ length t.level0 * 64
  pub level1_covers : length t.level0 ≤ length t.level1 * 64
  pub level2_covers : length t.level1 ≤ 64
  pub marks_leaf : MarksLeaf t.level0 t.leaf
  pub marks_level0 : MarksLevel t.level1 t.level0
  pub marks_level1 : MarksTop t.level2 t.level1
  pub no_more : (i : ℕ) → t.max_flows ≤ i → i < length t.leaf * 64 → bit_at 64 t.leaf i ≡ true
