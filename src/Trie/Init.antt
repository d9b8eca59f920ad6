-- ===== src/Trie/Init.antt =====
-- `hwfq_flow_trie_init`: the levels of a new trie agree with each other, and only the reserved id 0 is in
-- use.
use hwfq_scheduler.Base.{
  ℕ, ◌+◌, ◌-◌, ◌/◌, ◌%◌, ◌^◌, ◌≤◌, ◌<◌, bit_and, Bool, true, ◌||◌, ◌==◌, ◌≡◌, refl, ap, ◌∙◌, some,
  arith, ltb, replicate, if◌then◌else◌, Bool-cases, inl, inr, ne→not-==,
}
use hwfq_scheduler.Types.{u64_max, success}
use hwfq_scheduler.Word.{bit, set_bit_of}
use hwfq_scheduler.Word.Laws.{bit_and-lt}
use hwfq_scheduler.Word.Field.{set_at, bit_at, bit_at-set_at}
use hwfq_scheduler.Trie.{
  FlowTrie, bits_to_words, mask_leaf, mask_level, fill, trie_init, is_allocated,
}
use hwfq_scheduler.Trie.Valid.{IsExact}
use hwfq_scheduler.Trie.Fill.{fill-IsExact}
use hwfq_scheduler.Trie.Alloc.{fill-leaf, is_allocated-bit}
use hwfq_scheduler.Trie.Masks.{bit-low, bit-masked}
use hwfq_scheduler.Trie.Levels.{
  length-mask_level, length-mask_leaf, level_bits, leaf_bits, level_marks, leaf_marks,
  level-IsField, leaf-IsField,
}

-- A trie of n ids that is exact and has the id 0 in use alone.
pub record IsNewTrie (n : ℕ) (t : FlowTrie) : Type 0 where
  pub exact : IsExact t
  pub capacity : t.max_flows ≡ n
  pub counted : t.allocated_count ≡ 1
  pub only_reserved : (i : ℕ) → i < n → is_allocated t i ≡ (i == 0)

module _ (n : ℕ) (pos : 0 < n) (fits : n ≤ 2 ^ 24) where
  abbrev w0 : ℕ
  w0 = bits_to_words n

  abbrev w1 : ℕ
  w1 = bits_to_words w0

  abbrev w2 : ℕ
  w2 = bits_to_words w1

  abbrev unused : FlowTrie
  unused = record {
    level2 = (if ltb w2 64 then bit_and u64_max (2 ^ w2 - 1) else u64_max);
    level1 = mask_level (replicate w2 u64_max) w2 (w1 % 64);
    level0 = mask_level (replicate w1 u64_max) w1 (w0 % 64);
    leaf = mask_leaf (replicate w0 0) w0 (n % 64);
    level1_size = w2;
    level0_size = w1;
    leaf_size = w0;
    max_flows = n;
    allocated_count = 0;
  }

  eq0 : w0 ≡ (n + 63) / 64
  eq0 = omega arith

  eq1 : w1 ≡ (w0 + 63) / 64
  eq1 = omega arith

  eq2 : w2 ≡ (w1 + 63) / 64
  eq2 = omega arith

  top-word : unused.level2 < 2 ^ 64
  top-word = elim (Bool-cases (ltb w2 64)) [
    | inl e ↦ rw e (bit_and-lt 64 u64_max (2 ^ w2 - 1) (omega arith))
    | inr e ↦ rw e (omega arith)
  ]

  top_bits : (i : ℕ) → bit unused.level2 i ≡ ltb i w2
  top_bits i = elim (Bool-cases (ltb w2 64)) [
    | inl e ↦ rw e (bit-masked w2 i (omega arith))
    | inr e ↦ rw e (bit-low 64 i ∙ ap (λ k. ltb i k) (let q : 64 ≡ w2 = ground arith in q))
  ]

  unused-IsExact : IsExact unused
  unused-IsExact = record {
    leaf_words = leaf-IsField w0 (omega arith) n eq0;
    level0_words = level-IsField w1 (omega arith) w0 eq1;
    level1_words = level-IsField w2 (omega arith) w1 eq2;
    level2_word = top-word;
    leaf_covers = omega (arith, length-mask_leaf w0 (omega arith) n eq0);
    level0_covers =
        omega (
          arith,
          length-mask_leaf w0 (omega arith) n eq0,
          length-mask_level w1 (omega arith) w0 eq1,
        );
    level1_covers = omega (
      arith,
      length-mask_level w1 (omega arith) w0 eq1,
      length-mask_level w2 (omega arith) w1 eq2,
    );
    level2_covers = omega (arith, length-mask_level w2 (omega arith) w1 eq2);
    marks_leaf = λ i. level_bits w1 (omega arith) w0 eq1 i ∙ leaf_marks w0 (omega arith) n eq0 i;
    marks_level0 =
        λ i. level_bits w2 (omega arith) w1 eq2 i ∙ level_marks w1 (omega arith) w0 eq1 i;
    marks_level1 = λ i. top_bits i ∙ level_marks w2 (omega arith) w1 eq2 i;
    no_more = λ i h l.
        leaf_bits w0 (omega arith) n eq0 i (omega (arith, length-mask_leaf w0 (omega arith) n eq0))
        ∙ ground arith;
  }

  abbrev reserved : FlowTrie
  reserved = fill (record unused { leaf = set_at 64 unused.leaf 0; allocated_count = 1 }) 0 0 0

  init-eq :
      (mem : ℕ → Bool)
      → mem 0 ≡ true
      → mem 1 ≡ true
      → mem 2 ≡ true
      → trie_init mem n ≡ (success, some reserved)
  unfolding trie_init set_at set_bit_of
  init-eq mem m0 m1 m2 = rw (ne→not-== n 0 (omega arith), m0, m1, m2) refl

  reserved-IsExact : IsExact reserved
  reserved-IsExact =
      fill-IsExact unused unused-IsExact 0 0 0 0 refl refl refl
        (omega (arith, length-mask_leaf w0 (omega arith) n eq0))
        (level_bits w1 (omega arith) w0 eq1 0 ∙ ground arith)
        (level_bits w2 (omega arith) w1 eq2 0 ∙ ground arith) (top_bits 0 ∙ ground arith) 1

  reserved-IsNewTrie : IsNewTrie n reserved
  reserved-IsNewTrie =
      let kept =
        fill-leaf (record unused { leaf = set_at 64 unused.leaf 0; allocated_count = 1 }) 0 0 0 in
      let len = length-mask_leaf w0 (omega arith) n eq0 in
      record {
        exact = reserved-IsExact;
        capacity = kept.1;
        counted = kept.2;
        only_reserved = λ i h.
            is_allocated-bit reserved i reserved-IsExact (omega (arith, kept.1))
            ∙ ap (λ ws. bit_at 64 ws i) kept.0
            ∙ bit_at-set_at 64 (omega arith) unused.leaf 0 i (omega (arith, len))
            ∙ ap (λ b. b || (0 == i)) (leaf_bits w0 (omega arith) n eq0 i (omega arith))
            ∙ ground arith;
      }

-- `hwfq_flow_trie_init` for 1 to 2 ^ 24 ids, with the memory it asks for, succeeds with a trie whose
-- levels are exact, whose count is 1 and in which of the ids below the maximum the id 0 alone is in
-- use.
pub trie_init-IsNewTrie :
    (mem : ℕ → Bool) (max_flows : ℕ)
    → 0 < max_flows
    → max_flows ≤ 2 ^ 24
    → mem 0 ≡ true
    → mem 1 ≡ true
    → mem 2 ≡ true
    → (t : FlowTrie) × (trie_init mem max_flows ≡ (success, some t)) × IsNewTrie max_flows t
trie_init-IsNewTrie mem n pos fits m0 m1 m2 =
    (reserved n pos fits, init-eq n pos fits mem m0 m1 m2, reserved-IsNewTrie n pos fits)
