-- ===== src/Trie/Tests.antt =====
-- Runs of the trie on small inputs.
use hwfq_scheduler.Base.{
  ℕ, zero, suc, ◌-◌, ◌^◌, ◌/◌, ◌%◌, ◌<◌, true, not, ◌==◌, ◌≡◌, ◌⊎◌, refl, ap, ◌∙◌, none, some, [],
  ◌∷◌, arith, get_or, get_or_out, dec_lt,
}
use hwfq_scheduler.Types.{u64_max, success, no_memory}
use hwfq_scheduler.Word.{bit}
use hwfq_scheduler.Word.Laws.{bit-zero, bit-two-pow}
use hwfq_scheduler.Word.Field.{bit_at, IsField}
use hwfq_scheduler.Trie.{
  FlowTrie, mask_leaf, mask_level, fill, trie_init, trie_alloc, trie_free, is_allocated,
}
use hwfq_scheduler.Trie.Valid.{IsExact}
use hwfq_scheduler.Trie.Alloc.{Allocated, trie_alloc_lem}
use hwfq_scheduler.Trie.Init.{IsNewTrie, trie_init-IsNewTrie}
use hwfq_scheduler.Trie.Reach.{begin, claiming, releasing, IsSound, Reached-IsSound}
use hwfq_scheduler.Trie.Free.{Freed, trie_free_lem}

-- The trie of 64 ids where only the reserved one is in use.
abbrev reserved_only : FlowTrie
reserved_only = record {
  level2 = 1;
  level1 = 1 ∷ [];
  level0 = 1 ∷ [];
  leaf = 1 ∷ [];
  level1_size = 1;
  level0_size = 1;
  leaf_size = 1;
  max_flows = 64;
  allocated_count = 1;
}

digit : (i : ℕ) → bit 1 i ≡ (i == 0)
digit zero = bit-two-pow 0 0
digit (suc i) = bit-two-pow 0 (suc i) ∙ ground arith

first_bit : (i : ℕ) → bit_at 64 (1 ∷ []) i ≡ (i == 0)
first_bit i = elim (dec_lt i 64) [
  | yes l ↦
      ap (λ k. bit (get_or (1 ∷ []) k 0) (i % 64)) (let q : i / 64 ≡ 0 = omega arith in q)
      ∙ ap (bit 1) (let q : i % 64 ≡ i = omega arith in q)
      ∙ digit i
  | no l ↦
      ap (λ v. bit v (i % 64)) (get_or_out (1 ∷ []) (i / 64) 0 (omega arith))
      ∙ bit-zero (i % 64)
      ∙ ground arith
]

leaf_mark : (i : ℕ) → (i == 0) ≡ not (get_or (1 ∷ []) i u64_max == u64_max)
leaf_mark zero = refl
leaf_mark (suc i) = ground arith

level_mark : (i : ℕ) → (i == 0) ≡ not (get_or (1 ∷ []) i 0 == 0)
level_mark zero = refl
level_mark (suc i) = ground arith

small : IsField 64 (1 ∷ [])
small zero = omega arith
small (suc i) = omega arith

reserved_only-IsExact : IsExact reserved_only
reserved_only-IsExact = record {
  leaf_words = small;
  level0_words = small;
  level1_words = small;
  level2_word = omega arith;
  leaf_covers = omega arith;
  level0_covers = omega arith;
  level1_covers = omega arith;
  level2_covers = omega arith;
  marks_leaf = λ i. first_bit i ∙ leaf_mark i;
  marks_level0 = λ i. first_bit i ∙ level_mark i;
  marks_level1 = λ i. digit i ∙ level_mark i;
  no_more = λ i h l. absurd (omega arith);
}

trie_alloc_lem_example :
    ((i : ℕ) × (t : FlowTrie) × (trie_alloc reserved_only ≡ (success, some i, t))
      × Allocated reserved_only i t)
    ⊎ ((trie_alloc reserved_only ≡ (no_memory, none, reserved_only))
        × ((j : ℕ) → j < 64 → is_allocated reserved_only j ≡ true))
trie_alloc_lem_example = trie_alloc_lem reserved_only reserved_only-IsExact

trie_free_lem_example : Freed reserved_only 5 (trie_free reserved_only 5)
trie_free_lem_example = trie_free_lem reserved_only 5 reserved_only-IsExact (omega arith)

abbrev of_three : FlowTrie
of_three = record {
  level2 = 1;
  level1 = 1 ∷ [];
  level0 = 1 ∷ [];
  leaf = (2 ^ 64 - 7) ∷ [];
  level1_size = 1;
  level0_size = 1;
  leaf_size = 1;
  max_flows = 3;
  allocated_count = 1;
}

start-of_three : trie_init (λ _. true) 3 ≡ (success, some of_three)
unfolding trie_init fill mask_leaf mask_level
start-of_three = refl

trie_init-IsNewTrie_example :
    (t : FlowTrie) × (trie_init (λ _. true) 3 ≡ (success, some t)) × IsNewTrie 3 t
trie_init-IsNewTrie_example =
    trie_init-IsNewTrie (λ _. true) 3 (omega arith) (omega arith) refl refl refl

Reached-IsSound_example : IsSound 3 (trie_free (trie_alloc of_three).2 1)
Reached-IsSound_example = Reached-IsSound 3 (trie_free (trie_alloc of_three).2 1) (omega arith) (
    releasing 3 (trie_alloc of_three).2 1
      (claiming 3 of_three (begin (λ _. true) 3 of_three start-of_three)))
