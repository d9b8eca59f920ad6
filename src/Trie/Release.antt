-- ===== src/Trie/Release.antt =====
-- `hwfq_flow_trie_free` frees the id and no other, and keeps the trie exact.
use Prim.Native.Nat.{bit_or-bitwise}
use hwfq_scheduler.Base.{
  ℕ, ◌+◌, ◌-◌, ◌*◌, ◌/◌, ◌%◌, ◌^◌, ◌≤◌, ◌<◌, true, false, not, ◌==◌, ◌≡◌, ◌≢◌, refl, sym, ap, ◌∙◌,
  inl, inr, List, arith, get_or, length, Bool-cases, ==→ne, ==_self, ne→not-==, get_or-set_self,
}
use hwfq_scheduler.Types.{u64_max}
use hwfq_scheduler.Word.{bit, set_bit_of}
use hwfq_scheduler.Word.Laws.{bit-set_bit_of, set_bit_of-lt, bit-ones, ne-zero_of_bit}
use hwfq_scheduler.Word.Field.{
  IsField, set_at, clear_at, bit_at, bit_at-set_at, bit_at-clear_at, set_at-IsField,
  clear_at-IsField, length-set_at, length-clear_at,
}
use hwfq_scheduler.Trie.{FlowTrie, release}
use hwfq_scheduler.Trie.Valid.{IsExact, MarksLeaf, MarksLevel, MarksTop}
use hwfq_scheduler.Trie.Marks.{marks_keep, marks_set, set_at-others, clear_at-others}
use hwfq_scheduler.Trie.Search.{get_or_in}

-- The first bit of a word that was 0 is the whole word then.
set_at-zero :
    (ws : List ℕ) (i : ℕ)
    → i / 64 < length ws
    → get_or ws (i / 64) 0 ≡ 0
    → get_or (set_at 64 ws i) (i / 64) 0 ≡ 2 ^ (i % 64)
unfolding set_at set_bit_of
set_at-zero ws i l e = rw (get_or-set_self ws (i / 64) _ 0 l, e) (bit_or-bitwise 0 (2 ^ (i % 64)))

set_at-ne-zero : (ws : List ℕ) (i : ℕ) → i / 64 < length ws → get_or (set_at 64 ws i) (i / 64) 0 ≢ 0
set_at-ne-zero ws i l =
    ne-zero_of_bit (get_or (set_at 64 ws i) (i / 64) 0) (i % 64)
      (bit_at-set_at 64 (omega arith) ws i i l ∙ rw (==_self i) (ground arith))

module _ (t : FlowTrie) (x : IsExact t) (id : ℕ) (id-lt : id < t.max_flows) where
  abbrev w : ℕ
  w = id / 64

  abbrev l0 : ℕ
  l0 = w / 64

  abbrev l1 : ℕ
  l1 = l0 / 64

  abbrev leaf' : List ℕ
  leaf' = clear_at 64 t.leaf id

  abbrev level0' : List ℕ
  level0' = set_at 64 t.level0 w

  abbrev level1' : List ℕ
  level1' = set_at 64 t.level1 l0

  abbrev level2' : ℕ
  level2' = set_bit_of t.level2 l1

  pub w-lt : w < length t.leaf
  w-lt = omega (arith, x.leaf_covers)

  l0-lt : l0 < length t.level0
  l0-lt = omega (arith, w-lt, x.level0_covers)

  l1-lt : l1 < length t.level1
  l1-lt = omega (arith, l0-lt, x.level1_covers)

  leaf_others :
      (i : ℕ)
      → w ≢ i
      → not (get_or leaf' i u64_max == u64_max) ≡ not (get_or t.leaf i u64_max == u64_max)
  leaf_others i ne = ap (λ v. not (v == u64_max)) (clear_at-others t.leaf id i u64_max ne)

  level0_others : (i : ℕ) → l0 ≢ i → not (get_or level0' i 0 == 0) ≡ not (get_or t.level0 i 0 == 0)
  level0_others i ne = ap (λ v. not (v == 0)) (set_at-others t.level0 w i 0 ne)

  level1_others : (i : ℕ) → l1 ≢ i → not (get_or level1' i 0 == 0) ≡ not (get_or t.level1 i 0 == 0)
  level1_others i ne = ap (λ v. not (v == 0)) (set_at-others t.level1 l0 i 0 ne)

  -- The leaf word has a free id now.
  leaf_open : not (get_or leaf' w u64_max == u64_max) ≡ true
  leaf_open = ap not (
      ne→not-== _ _ (λ e.
        let one : bit (get_or leaf' w 0) (id % 64) ≡ true =
          ap (λ v. bit v (id % 64))
            (get_or_in leaf' w 0 u64_max (omega (arith, w-lt, length-clear_at 64 t.leaf id)) ∙ e)
          ∙ bit-ones 64 (id % 64) (omega arith) in
        let none =
          bit_at-clear_at 64 (omega arith) t.leaf id id w-lt ∙ rw (==_self id) (ground arith) in
        true-ne-false (sym one ∙ none)))
    where
      true-ne-false : true ≢ false
      true-ne-false e = cc

  leaf_keep : (get_or t.leaf w 0 == u64_max) ≡ false → MarksLeaf t.level0 leaf'
  leaf_keep e = marks_keep _ _ _ w x.marks_leaf leaf_others (
      x.marks_leaf w
      ∙ ap not (ap (λ v. v == u64_max) (get_or_in t.leaf w u64_max 0 w-lt) ∙ e)
      ∙ sym leaf_open)

  leaf_set : MarksLeaf level0' leaf'
  leaf_set =
      marks_set _ _ _ w x.marks_leaf leaf_others (bit_at 64 level0')
        (λ i. bit_at-set_at 64 (omega arith) t.level0 w i l0-lt) leaf_open

  level0_open : not (get_or level0' l0 0 == 0) ≡ true
  level0_open = ap not (ne→not-== _ _ (set_at-ne-zero t.level0 w l0-lt))

  level1_open : not (get_or level1' l1 0 == 0) ≡ true
  level1_open = ap not (ne→not-== _ _ (set_at-ne-zero t.level1 l0 l1-lt))

  level0_keep : (get_or level0' l0 0 == 2 ^ (w % 64)) ≡ false → MarksLevel t.level1 level0'
  level0_keep e = marks_keep _ _ _ l0 x.marks_level0 level0_others (
      x.marks_level0 l0
      ∙ ap not (ne→not-== _ _ (λ z. ==→ne _ _ e (set_at-zero t.level0 w l0-lt z)))
      ∙ sym level0_open)

  level0_set : MarksLevel level1' level0'
  level0_set =
      marks_set _ _ _ l0 x.marks_level0 level0_others (bit_at 64 level1')
        (λ i. bit_at-set_at 64 (omega arith) t.level1 l0 i l1-lt) level0_open

  level1_keep : (get_or level1' l1 0 == 2 ^ (l0 % 64)) ≡ false → MarksTop t.level2 level1'
  level1_keep e = marks_keep _ _ _ l1 x.marks_level1 level1_others (
      x.marks_level1 l1
      ∙ ap not (ne→not-== _ _ (λ z. ==→ne _ _ e (set_at-zero t.level1 l0 l1-lt z)))
      ∙ sym level1_open)

  level1_set : MarksTop level2' level1'
  level1_set =
      marks_set _ _ _ l1 x.marks_level1 level1_others (bit level2')
        (λ i. bit-set_bit_of t.level2 l1 i) level1_open

  no_more' : (i : ℕ) → t.max_flows ≤ i → i < length leaf' * 64 → bit_at 64 leaf' i ≡ true
  no_more' i le l =
      bit_at-clear_at 64 (omega arith) t.leaf id i w-lt
      ∙ rw
          (
            x.no_more i le (omega (arith, length-clear_at 64 t.leaf id)),
            ne→not-== id i (omega arith),
          )
          (ground arith)

  released-IsExact :
      (n top : ℕ) (upper lower : List ℕ)
      → length lower ≡ length t.level0
      → length upper ≡ length t.level1
      → IsField 64 lower
      → IsField 64 upper
      → top < 2 ^ 64
      → MarksLeaf lower leaf'
      → MarksLevel upper lower
      → MarksTop top upper
      → IsExact (record t {
        leaf = leaf';
        allocated_count = n;
        level2 = top;
        level1 = upper;
        level0 = lower;
      })
  released-IsExact n top upper lower le0 le1 f0 f1 f2 m0 m1 m2 = record {
    leaf_words = clear_at-IsField 64 (omega arith) t.leaf id x.leaf_words;
    level0_words = f0;
    level1_words = f1;
    level2_word = f2;
    leaf_covers = omega (arith, length-clear_at 64 t.leaf id, x.leaf_covers);
    level0_covers = omega (arith, length-clear_at 64 t.leaf id, x.level0_covers);
    level1_covers = omega (arith, x.level1_covers);
    level2_covers = omega (arith, x.level2_covers);
    marks_leaf = m0;
    marks_level0 = m1;
    marks_level1 = m2;
    no_more = no_more';
  }

  pub release-IsExact : IsExact (release t id)
  unfolding release
  release-IsExact =
      let n = (t.allocated_count + 2 ^ 32 - 1) % 2 ^ 32 in
      let same0 = length-set_at 64 t.level0 w in
      let same1 = length-set_at 64 t.level1 l0 in
      let f0 = set_at-IsField 64 (omega arith) t.level0 w x.level0_words in
      let f1 = set_at-IsField 64 (omega arith) t.level1 l0 x.level1_words in
      elim (Bool-cases (get_or t.leaf w 0 == u64_max)) [
        | inr e ↦ rw e (
            released-IsExact n t.level2 t.level1 t.level0 refl refl x.level0_words x.level1_words
              x.level2_word (leaf_keep e) x.marks_level0 x.marks_level1)
        | inl e ↦ elim (Bool-cases (get_or level0' l0 0 == 2 ^ (w % 64))) [
          | inr e0 ↦
              rw (e, e0)
                (released-IsExact n t.level2 t.level1 level0' same0 refl f0 x.level1_words
                  x.level2_word leaf_set (level0_keep e0) x.marks_level1)
          | inl e0 ↦ elim (Bool-cases (get_or level1' l1 0 == 2 ^ (l0 % 64))) [
            | inr e1 ↦
                rw (e, e0, e1)
                  (released-IsExact n t.level2 level1' level0' same0 same1 f0 f1 x.level2_word
                    leaf_set level0_set (level1_keep e1))
            | inl e1 ↦
                rw (e, e0, e1)
                  (released-IsExact n level2' level1' level0' same0 same1 f0 f1
                    (set_bit_of-lt 64 t.level2 l1 (omega (arith, l1-lt, x.level2_covers))
                      x.level2_word)
                    leaf_set level0_set level1_set)
          ]
        ]
      ]

pub release-leaf :
    (t : FlowTrie) (id : ℕ)
    → ((release t id).leaf ≡ clear_at 64 t.leaf id)
      × ((release t id).max_flows ≡ t.max_flows)
      × ((release t id).allocated_count ≡ (t.allocated_count + 2 ^ 32 - 1) % 2 ^ 32)
unfolding release
release-leaf t id = ground arith
