-- ===== src/Trie/Levels.antt =====
-- The levels of a new trie: their bits, words and lengths after the last word is masked.
use hwfq_scheduler.Base.{
  ℕ, ◌+◌, ◌-◌, ◌*◌, ◌/◌, ◌%◌, ◌^◌, ◌<◌, bit_and, bit_or, true, false, not, ◌==◌, ◌≡◌, ◌≢◌, sym, ap,
  ◌∙◌, List, arith, ltb, leb, length, get_or, set, replicate, if◌then◌else◌, Bool-cases, inl, inr,
  dec_lt, ℕ_discrete, get_or_out, get_or-set_self, get_or-set_ne, length-set, length-replicate,
  get_or-replicate, ==→eq, ==→ne, ne→not-==, ==_self,
}
use hwfq_scheduler.Types.{u64_max}
use hwfq_scheduler.Word.{bit, complement}
use hwfq_scheduler.Word.Laws.{bit-zero, bit-ones, ne-zero_of_bit}
use hwfq_scheduler.Word.Field.{IsField, bit_at}
use hwfq_scheduler.Trie.{mask_leaf, mask_level}
use hwfq_scheduler.Trie.Search.{get_or_in}
use hwfq_scheduler.Trie.Masks.{if_bits, if_below, if_high, if_high_below}

module _ (size : ℕ) (some_words : 0 < size) where
  replicate-word : (a k d : ℕ) → k < size → get_or (replicate size a) k d ≡ a
  replicate-word a k d h =
      get_or_in (replicate size a) k d a (omega (arith, length-replicate size a))
      ∙ get_or-replicate size a k

  set-word :
      (a m k d : ℕ)
      → k < size
      → get_or (set (replicate size a) (size - 1) m) k d ≡ (if k == size - 1 then m else a)
  set-word a m k d h = elim (ℕ_discrete k (size - 1)) [
    | yes e ↦
        rw (e, ==_self (size - 1))
          (get_or-set_self (replicate size a) (size - 1) m d
            (omega (arith, length-replicate size a)))
    | no ne ↦ rw (ne→not-== k (size - 1) ne) (
        get_or-set_ne (replicate size a) (size - 1) k m d (λ e. ne (sym e))
        ∙ replicate-word a k d h)
  ]

  module _ (n : ℕ) (covers : size ≡ (n + 63) / 64) where
    pub length-mask_level : length (mask_level (replicate size u64_max) size (n % 64)) ≡ size
    unfolding mask_level
    length-mask_level = elim (Bool-cases (n % 64 == 0)) [
      | inl e ↦ rw e (length-replicate size u64_max)
      | inr e ↦ rw e (length-set (replicate size u64_max) _ _ ∙ length-replicate size u64_max)
    ]

    pub length-mask_leaf : length (mask_leaf (replicate size 0) size (n % 64)) ≡ size
    unfolding mask_leaf
    length-mask_leaf = elim (Bool-cases (n % 64 == 0)) [
      | inl e ↦ rw e (length-replicate size 0)
      | inr e ↦ rw e (length-set (replicate size 0) _ _ ∙ length-replicate size 0)
    ]

    -- The digit j of the word k stands for `k * 64 + j`.
    rest_of :
        (k j : ℕ)
        → k < size
        → j < 64
        → n % 64 ≢ 0
        → ltb (k * 64 + j) n ≡ (if k == size - 1 then ltb j (n % 64) else true)
    rest_of k j h l ne = ground arith

    whole_of : (k j : ℕ) → k < size → j < 64 → n % 64 ≡ 0 → ltb (k * 64 + j) n ≡ true
    whole_of k j h l e = ground arith

    level-word :
        (k j : ℕ)
        → k < size
        → j < 64
        → bit (get_or (mask_level (replicate size u64_max) size (n % 64)) k 0) j
          ≡ ltb (k * 64 + j) n
    unfolding mask_level
    level-word k j h l = elim (Bool-cases (n % 64 == 0)) [
      | inl e ↦
          rw (e, replicate-word u64_max k 0 h)
            (bit-ones 64 j l ∙ sym (whole_of k j h l (==→eq _ _ e)))
      | inr e ↦
          rw
            (
              e,
              replicate-word u64_max (size - 1) 0 (omega arith),
              set-word u64_max (bit_and u64_max (2 ^ (n % 64) - 1)) k 0 h,
              rest_of k j h l (==→ne _ _ e),
            )
            (if_bits (k == size - 1) (n % 64) j (omega arith) l)
    ]

    leaf-word :
        (k j : ℕ)
        → k < size
        → j < 64
        → bit (get_or (mask_leaf (replicate size 0) size (n % 64)) k 0) j ≡ leb n (k * 64 + j)
    unfolding mask_leaf
    leaf-word k j h l = elim (Bool-cases (n % 64 == 0)) [
      | inl e ↦
          rw (e, replicate-word 0 k 0 h)
            (bit-zero j ∙ (let q = whole_of k j h l (==→eq _ _ e) in ground arith))
      | inr e ↦
          rw
            (
              e,
              replicate-word 0 (size - 1) 0 (omega arith),
              set-word 0 (bit_or 0 (complement 64 (2 ^ (n % 64) - 1))) k 0 h,
            )
            (if_high (k == size - 1) (n % 64) j (omega arith) l
              ∙ (let q = rest_of k j h l (==→ne _ _ e) in ground arith))
    ]

    abbrev level : List ℕ
    level = mask_level (replicate size u64_max) size (n % 64)

    abbrev leaf : List ℕ
    leaf = mask_leaf (replicate size 0) size (n % 64)

    pub level_bits : (i : ℕ) → bit_at 64 level i ≡ ltb i n
    level_bits i = elim (dec_lt (i / 64) size) [
      | yes h ↦
          level-word (i / 64) (i % 64) h (omega arith)
          ∙ ap (λ m. ltb m n) (let q : i / 64 * 64 + i % 64 ≡ i = omega arith in q)
      | no g ↦
          ap (λ v. bit v (i % 64)) (get_or_out level (i / 64) 0 (omega (arith, length-mask_level)))
          ∙ bit-zero (i % 64)
          ∙ ground arith
    ]

    pub leaf_bits : (i : ℕ) → i < size * 64 → bit_at 64 leaf i ≡ leb n i
    leaf_bits i h =
        leaf-word (i / 64) (i % 64) (omega arith) (omega arith)
        ∙ ap (λ m. leb n m) (let q : i / 64 * 64 + i % 64 ≡ i = omega arith in q)

    -- A word of the level is 0 where there is none.
    pub level_marks : (k : ℕ) → ltb k size ≡ not (get_or level k 0 == 0)
    level_marks k = elim (dec_lt k size) [
      | yes h ↦
          let ne =
            ne-zero_of_bit (get_or level k 0) 0
              (level-word k 0 h (omega arith) ∙ ground (arith, covers)) in
          rw (ne→not-== _ _ ne) (ground arith)
      | no g ↦ rw (get_or_out level k 0 (omega (arith, length-mask_level))) (ground arith)
    ]

    pub leaf_marks : (k : ℕ) → ltb k size ≡ not (get_or leaf k u64_max == u64_max)
    leaf_marks k = elim (dec_lt k size) [
      | yes h ↦
          let zero_bit : bit (get_or leaf k 0) 0 ≡ false =
            leaf-word k 0 h (omega arith) ∙ ground (arith, covers) in
          let ne : get_or leaf k 0 ≢ u64_max =
            λ e. cc (ap (λ v. bit v 0) e, zero_bit, bit-ones 64 0 (omega arith)) in
          rw (get_or_in leaf k u64_max 0 (omega (arith, length-mask_leaf)), ne→not-== _ _ ne)
            (ground arith)
      | no g ↦ rw (get_or_out leaf k u64_max (omega (arith, length-mask_leaf))) (ground arith)
    ]

    pub level-IsField : IsField 64 level
    unfolding mask_level
    level-IsField k = elim (dec_lt k size) [
      | yes h ↦ elim (Bool-cases (n % 64 == 0)) [
        | inl e ↦ rw (e, replicate-word u64_max k 0 h) (omega arith)
        | inr e ↦
            rw
              (
                e,
                replicate-word u64_max (size - 1) 0 (omega arith),
                set-word u64_max (bit_and u64_max (2 ^ (n % 64) - 1)) k 0 h,
              )
              (if_below (k == size - 1) (n % 64))
      ]
      | no g ↦ rw (get_or_out level k 0 (omega (arith, length-mask_level))) (omega arith)
    ]

    pub leaf-IsField : IsField 64 leaf
    unfolding mask_leaf
    leaf-IsField k = elim (dec_lt k size) [
      | yes h ↦ elim (Bool-cases (n % 64 == 0)) [
        | inl e ↦ rw (e, replicate-word 0 k 0 h) (omega arith)
        | inr e ↦
            rw
              (
                e,
                replicate-word 0 (size - 1) 0 (omega arith),
                set-word 0 (bit_or 0 (complement 64 (2 ^ (n % 64) - 1))) k 0 h,
              )
              (if_high_below (k == size - 1) (n % 64))
      ]
      | no g ↦ rw (get_or_out leaf k 0 (omega (arith, length-mask_leaf))) (omega arith)
    ]
