-- ===== src/Trie/Fill.antt =====
-- The bits above a leaf word in which `hwfq_flow_trie_alloc` has claimed an id: they stay exact.
use hwfq_scheduler.Base.{
  ℕ, ◌*◌, ◌/◌, ◌^◌, ◌≤◌, ◌<◌, true, false, not, ◌&&◌, ◌||◌, ◌==◌, ◌≡◌, ◌≢◌, refl, sym, ap, ◌∙◌, inl,
  inr, List, arith, get_or, length, Bool-cases, dec_lt,
}
use hwfq_scheduler.Types.{u64_max}
use hwfq_scheduler.Word.{bit, clear_bit_of}
use hwfq_scheduler.Word.Laws.{bit-clear_bit_of, clear_bit_of-lt, bit_out}
use hwfq_scheduler.Word.Field.{
  IsField, set_at, clear_at, bit_at, bit_at-set_at, bit_at-clear_at, set_at-IsField,
  clear_at-IsField, length-set_at, length-clear_at,
}
use hwfq_scheduler.Trie.{FlowTrie, fill}
use hwfq_scheduler.Trie.Valid.{IsExact, MarksLeaf, MarksLevel, MarksTop}
use hwfq_scheduler.Trie.Marks.{marks_keep, marks_clear, set_at-others, clear_at-others}
use hwfq_scheduler.Trie.Search.{get_or_in}

module _ (t : FlowTrie) (x : IsExact t) (id w l0 l1 : ℕ) (in_word : id / 64 ≡ w)
    (in_l0 : w / 64 ≡ l0) (in_l1 : l0 / 64 ≡ l1) (w-lt : w < length t.leaf)
    (open0 : bit_at 64 t.level0 w ≡ true) (open1 : bit_at 64 t.level1 l0 ≡ true)
    (open2 : bit t.level2 l1 ≡ true) where
  abbrev leaf' : List ℕ
  leaf' = set_at 64 t.leaf id

  abbrev level0' : List ℕ
  level0' = clear_at 64 t.level0 w

  abbrev level1' : List ℕ
  level1' = clear_at 64 t.level1 l0

  abbrev level2' : ℕ
  level2' = clear_bit_of 64 t.level2 l1

  leaf_same : get_or leaf' w 0 ≡ get_or leaf' w u64_max
  leaf_same = get_or_in leaf' w 0 u64_max (omega (arith, length-set_at 64 t.leaf id))

  leaf_others :
      (i : ℕ)
      → w ≢ i
      → not (get_or leaf' i u64_max == u64_max) ≡ not (get_or t.leaf i u64_max == u64_max)
  leaf_others i ne = ap (λ v. not (v == u64_max)) (set_at-others t.leaf id i u64_max (omega arith))

  level0_others : (i : ℕ) → l0 ≢ i → not (get_or level0' i 0 == 0) ≡ not (get_or t.level0 i 0 == 0)
  level0_others i ne = ap (λ v. not (v == 0)) (clear_at-others t.level0 w i 0 (omega arith))

  level1_others : (i : ℕ) → l1 ≢ i → not (get_or level1' i 0 == 0) ≡ not (get_or t.level1 i 0 == 0)
  level1_others i ne = ap (λ v. not (v == 0)) (clear_at-others t.level1 l0 i 0 (omega arith))

  leaf_keep : (get_or leaf' w 0 == u64_max) ≡ false → MarksLeaf t.level0 leaf'
  leaf_keep e =
      marks_keep _ _ _ w x.marks_leaf leaf_others
        (open0 ∙ sym (ap not (ap (λ v. v == u64_max) (sym leaf_same) ∙ e)))

  leaf_clear : (get_or leaf' w 0 == u64_max) ≡ true → MarksLeaf level0' leaf'
  leaf_clear e =
      marks_clear _ _ _ w x.marks_leaf leaf_others (bit_at 64 level0')
        (λ i. bit_at-clear_at 64 (omega arith) t.level0 w i (omega (arith, x.level0_covers)))
        (ap not (ap (λ v. v == u64_max) (sym leaf_same) ∙ e))

  level0_keep : (get_or level0' l0 0 == 0) ≡ false → MarksLevel t.level1 level0'
  level0_keep e = marks_keep _ _ _ l0 x.marks_level0 level0_others (open1 ∙ sym (ap not e))

  level0_clear : (get_or level0' l0 0 == 0) ≡ true → MarksLevel level1' level0'
  level0_clear e =
      marks_clear _ _ _ l0 x.marks_level0 level0_others (bit_at 64 level1')
        (λ i.
          bit_at-clear_at 64 (omega arith) t.level1 l0 i
            (omega (arith, x.level0_covers, x.level1_covers)))
        (ap not e)

  level1_keep : (get_or level1' l1 0 == 0) ≡ false → MarksTop t.level2 level1'
  level1_keep e = marks_keep _ _ _ l1 x.marks_level1 level1_others (open2 ∙ sym (ap not e))

  l1-lt : l1 < 64
  l1-lt = omega (arith, x.level0_covers, x.level1_covers, x.level2_covers)

  level2-after : (i : ℕ) → bit level2' i ≡ (bit t.level2 i && not (l1 == i))
  level2-after i = elim (dec_lt i 64) [
    | yes l ↦ bit-clear_bit_of 64 t.level2 l1 i l1-lt l
    | no l ↦
        bit_out 64 level2' i (clear_bit_of-lt 64 t.level2 l1 x.level2_word) (omega arith)
        ∙ sym (ap (λ b. b && not (l1 == i)) (bit_out 64 t.level2 i x.level2_word (omega arith)))
  ]

  level1_clear : (get_or level1' l1 0 == 0) ≡ true → MarksTop level2' level1'
  level1_clear e =
      marks_clear _ _ _ l1 x.marks_level1 level1_others (bit level2') level2-after (ap not e)

  no_more' : (i : ℕ) → t.max_flows ≤ i → i < length leaf' * 64 → bit_at 64 leaf' i ≡ true
  no_more' i le l =
      bit_at-set_at 64 (omega arith) t.leaf id i (omega arith)
      ∙ ap (λ b. b || (id == i)) (x.no_more i le (omega (arith, length-set_at 64 t.leaf id)))

  abbrev claimed : ℕ → FlowTrie
  claimed n = record t { leaf = leaf'; allocated_count = n }

  -- The trie is exact, whatever the upper levels are, if they fit and their bits are right.
  filled-IsExact :
      (n top : ℕ) (upper lower : List ℕ)
      → length lower ≡ length t.level0
      → length upper ≡ length t.level1
      → IsField 64 lower
      → IsField 64 upper
      → top < 2 ^ 64
      → MarksLeaf lower leaf'
      → MarksLevel upper lower
      → MarksTop top upper
      → IsExact (record (claimed n) { level2 = top; level1 = upper; level0 = lower })
  filled-IsExact n top upper lower le0 le1 f0 f1 f2 m0 m1 m2 = record {
    leaf_words = set_at-IsField 64 (omega arith) t.leaf id x.leaf_words;
    level0_words = f0;
    level1_words = f1;
    level2_word = f2;
    leaf_covers = omega (arith, length-set_at 64 t.leaf id, x.leaf_covers);
    level0_covers = omega (arith, length-set_at 64 t.leaf id, x.level0_covers);
    level1_covers = omega (arith, x.level1_covers);
    level2_covers = omega (arith, x.level2_covers);
    marks_leaf = m0;
    marks_level0 = m1;
    marks_level1 = m2;
    no_more = no_more';
  }

  pub fill-IsExact : (n : ℕ) → IsExact (fill (claimed n) w l0 l1)
  unfolding fill
  fill-IsExact n =
      let same0 = length-clear_at 64 t.level0 w in
      let same1 = length-clear_at 64 t.level1 l0 in
      let f0 = clear_at-IsField 64 (omega arith) t.level0 w x.level0_words in
      let f1 = clear_at-IsField 64 (omega arith) t.level1 l0 x.level1_words in
      elim (Bool-cases (get_or leaf' w 0 == u64_max)) [
        | inr e ↦ rw e (
            filled-IsExact n t.level2 t.level1 t.level0 refl refl x.level0_words x.level1_words
              x.level2_word (leaf_keep e) x.marks_level0 x.marks_level1)
        | inl e ↦ elim (Bool-cases (get_or level0' l0 0 == 0)) [
          | inr e0 ↦
              rw (e, e0)
                (filled-IsExact n t.level2 t.level1 level0' same0 refl f0 x.level1_words
                  x.level2_word (leaf_clear e) (level0_keep e0) x.marks_level1)
          | inl e0 ↦ elim (Bool-cases (get_or level1' l1 0 == 0)) [
            | inr e1 ↦
                rw (e, e0, e1)
                  (filled-IsExact n t.level2 level1' level0' same0 same1 f0 f1 x.level2_word
                    (leaf_clear e) (level0_clear e0) (level1_keep e1))
            | inl e1 ↦
                rw (e, e0, e1)
                  (filled-IsExact n level2' level1' level0' same0 same1 f0 f1
                    (clear_bit_of-lt 64 t.level2 l1 x.level2_word) (leaf_clear e) (level0_clear e0)
                    (level1_clear e1))
          ]
        ]
      ]
