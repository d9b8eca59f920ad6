-- ===== src/Trie/Search.antt =====
-- The search of `hwfq_flow_trie_alloc` ends at the lowest id that is free.
use hwfq_scheduler.Base.{
  ℕ, zero, suc, ◌+◌, ◌*◌, ◌/◌, ◌%◌, ◌<◌, Bool, true, false, not, ◌==◌, ◌≡◌, ◌≢◌, refl, ap, ◌∙◌,
  List, [], ◌∷◌, arith, get_or, length, dec_lt, get_or_out,
}
use hwfq_scheduler.Types.{u64_max}
use hwfq_scheduler.Word.{bit, ctz, complement}
use hwfq_scheduler.Word.Laws.{bit-complement, bit-ones}
use hwfq_scheduler.Word.Field.{bit_at}
use hwfq_scheduler.Trie.{FlowTrie}
use hwfq_scheduler.Trie.First.{IsLowest, ctz-IsLowest, IsFirst, words-IsFirst, bit_at-at}
use hwfq_scheduler.Trie.Valid.{IsExact}

pub get_or_in : (xs : List ℕ) (i a b : ℕ) → i < length xs → get_or xs i a ≡ get_or xs i b
get_or_in [] i a b h = absurd (omega arith)
get_or_in (x ∷ xs) zero a b h = refl
get_or_in (x ∷ xs) (suc i) a b h = get_or_in xs i a b (omega arith)

pub mark_zero : (b : Bool) (w : ℕ) → b ≡ not (w == 0) → b ≡ false → w ≡ 0
mark_zero b w h e = ground arith

mark_ne-zero : (b : Bool) (w : ℕ) → b ≡ not (w == 0) → b ≡ true → w ≢ 0
mark_ne-zero b w h e q = ground arith

pub mark_full : (b : Bool) (w : ℕ) → b ≡ not (w == u64_max) → b ≡ false → w ≡ u64_max
mark_full b w h e = ground arith

mark_open : (b : Bool) (w : ℕ) → b ≡ not (w == u64_max) → b ≡ true → w ≢ u64_max
mark_open b w h e q = ground arith

module _ (t : FlowTrie) (x : IsExact t) (some_free : t.level2 ≢ 0) where
  abbrev pub l1_word : ℕ
  l1_word = ctz 64 t.level2

  abbrev pub word1 : ℕ
  word1 = get_or t.level1 l1_word 0

  pub top : IsLowest 64 t.level2 l1_word
  top = ctz-IsLowest 64 t.level2 x.level2_word some_free

  pub word1-ne-zero : word1 ≢ 0
  word1-ne-zero = mark_ne-zero _ word1 (x.marks_level1 l1_word) top.set_here

  abbrev pub l0_word : ℕ
  l0_word = l1_word * 64 + ctz 64 word1

  pub digit1-lt : ctz 64 word1 < 64
  digit1-lt = (ctz-IsLowest 64 word1 (x.level1_words l1_word) word1-ne-zero).inside

  pub first1 : IsFirst t.level1 l0_word
  first1 =
      words-IsFirst t.level1 l1_word (ctz 64 word1)
        (λ j l. mark_zero _ _ (x.marks_level1 j) (top.clear_below j l))
        (ctz-IsLowest 64 word1 (x.level1_words l1_word) word1-ne-zero)

  abbrev pub word0 : ℕ
  word0 = get_or t.level0 l0_word 0

  pub word0-ne-zero : word0 ≢ 0
  word0-ne-zero = mark_ne-zero _ word0 (x.marks_level0 l0_word) first1.set_here

  abbrev pub leaf_word : ℕ
  leaf_word = l0_word * 64 + ctz 64 word0

  pub digit0-lt : ctz 64 word0 < 64
  digit0-lt = (ctz-IsLowest 64 word0 (x.level0_words l0_word) word0-ne-zero).inside

  pub first0 : IsFirst t.level0 leaf_word
  first0 =
      words-IsFirst t.level0 l0_word (ctz 64 word0)
        (λ j l. mark_zero _ _ (x.marks_level0 j) (first1.clear_below j l))
        (ctz-IsLowest 64 word0 (x.level0_words l0_word) word0-ne-zero)

  open_word : get_or t.leaf leaf_word u64_max ≢ u64_max
  open_word = mark_open _ _ (x.marks_leaf leaf_word) first0.set_here

  pub leaf_word-lt : leaf_word < length t.leaf
  leaf_word-lt = elim (dec_lt leaf_word (length t.leaf)) [
    | yes l ↦ l
    | no l ↦ absurd (open_word (get_or_out t.leaf leaf_word u64_max (omega arith)))
  ]

  abbrev pub free_bits : ℕ
  free_bits = complement 64 (get_or t.leaf leaf_word 0)

  pub free_bits-ne-zero : free_bits ≢ 0
  free_bits-ne-zero e =
      open_word
        (get_or_in t.leaf leaf_word u64_max 0 leaf_word-lt ∙ omega (arith, x.leaf_words leaf_word))

  abbrev pub flow_id : ℕ
  flow_id = leaf_word * 64 + ctz 64 free_bits

  lowest_free : IsLowest 64 free_bits (ctz 64 free_bits)
  lowest_free = ctz-IsLowest 64 free_bits (omega arith) free_bits-ne-zero

  pub digit-lt : ctz 64 free_bits < 64
  digit-lt = lowest_free.inside

  -- A digit of the complement against the digit of the word.
  flipped : (k : ℕ) → k < 64 → bit free_bits k ≡ not (bit (get_or t.leaf leaf_word 0) k)
  flipped k l = bit-complement 64 (get_or t.leaf leaf_word 0) k l (x.leaf_words leaf_word)

  pub flow_id-free : bit_at 64 t.leaf flow_id ≡ false
  flow_id-free =
      let f = flipped (ctz 64 free_bits) digit-lt in
      bit_at-at t.leaf leaf_word (ctz 64 free_bits) digit-lt ∙ ground (arith, lowest_free.set_here)

  pub used_below : (j : ℕ) → j < flow_id → bit_at 64 t.leaf j ≡ true
  used_below j l = elim (dec_lt (j / 64) leaf_word) [
    | yes q ↦
        let full =
          get_or_in t.leaf (j / 64) 0 u64_max (omega (arith, leaf_word-lt))
          ∙ mark_full _ _ (x.marks_leaf (j / 64)) (first0.clear_below (j / 64) q) in
        ap (λ w. bit w (j % 64)) full ∙ bit-ones 64 (j % 64) (omega arith)
    | no q ↦
        let same : j / 64 ≡ leaf_word = omega (arith, digit-lt) in
        let f = flipped (j % 64) (omega arith) in
        let e = lowest_free.clear_below (j % 64) (omega arith) in
        ap (λ k. bit (get_or t.leaf k 0) (j % 64)) same ∙ ground arith
  ]

  -- The id exists, since what is past the last id is marked as used.
  pub flow_id-lt : flow_id < t.max_flows
  flow_id-lt = elim (dec_lt flow_id t.max_flows) [
    | yes l ↦ l
    | no l ↦
        absurd (
          cc
            (flow_id-free, x.no_more flow_id (omega arith) (omega (arith, leaf_word-lt, digit-lt))))
  ]
