-- ===== src/Trie/Alloc.antt =====
-- `hwfq_flow_trie_alloc` gives the lowest free id and keeps the trie exact.
use hwfq_scheduler.Base.{
  ℕ, ◌+◌, ◌/◌, ◌%◌, ◌^◌, ◌<◌, true, false, ◌||◌, ◌==◌, ◌≡◌, ◌≢◌, ◌⊎◌, refl, sym, ap, ◌∙◌, inl, inr,
  none, some, arith, get_or, Bool-cases, ==→eq, ==→ne, ne→not-==, leb,
}
use hwfq_scheduler.Types.{u64_max, success, no_memory}
use hwfq_scheduler.Word.{bit}
use hwfq_scheduler.Word.Laws.{bit-zero, bit-ones}
use hwfq_scheduler.Word.Field.{set_at, bit_at, bit_at-set_at, test_at-bit_at}
use hwfq_scheduler.Trie.{
  FlowTrie, fill, claim, alloc_leaf, alloc_level0, alloc_level1, trie_alloc, is_allocated,
  find_first_zero_bit64,
}
use hwfq_scheduler.Trie.Valid.{IsExact}
use hwfq_scheduler.Trie.First.{find_first_set_bit64_lem}
use hwfq_scheduler.Trie.Search
use hwfq_scheduler.Trie.Search.{get_or_in, mark_zero, mark_full}
use hwfq_scheduler.Trie.Fill.{fill-IsExact}

pub fill-leaf :
    (t : FlowTrie) (a b c : ℕ)
    → ((fill t a b c).leaf ≡ t.leaf)
      × ((fill t a b c).max_flows ≡ t.max_flows)
      × ((fill t a b c).allocated_count ≡ t.allocated_count)
unfolding fill
fill-leaf t a b c = ground arith

module _ (t : FlowTrie) (x : IsExact t) (some_free : t.level2 ≢ 0) where
  abbrev id : ℕ
  id = Search.flow_id t x some_free

  abbrev w : ℕ
  w = Search.leaf_word t x some_free

  abbrev l0 : ℕ
  l0 = Search.l0_word t x some_free

  abbrev l1 : ℕ
  l1 = Search.l1_word t x some_free

  abbrev after : FlowTrie
  after =
      fill
        (record t {
          leaf = set_at 64 t.leaf id;
          allocated_count = (t.allocated_count + 1) % 2 ^ 32;
        })
        w l0 l1

  claim-eq : claim t id w l0 l1 ≡ (success, some id, after)
  unfolding claim
  claim-eq =
      rw (let q : leb t.max_flows id ≡ false = ground (arith, Search.flow_id-lt t x some_free) in q)
        refl

  alloc_leaf-eq : alloc_leaf t w l0 l1 ≡ claim t id w l0 l1
  unfolding alloc_leaf find_first_zero_bit64
  alloc_leaf-eq =
      let e =
        find_first_set_bit64_lem (Search.free_bits t x some_free)
          (Search.free_bits-ne-zero t x some_free) in
      rw (e.0, e.1) refl

  alloc_level0-eq : alloc_level0 t l0 l1 ≡ alloc_leaf t w l0 l1
  unfolding alloc_level0
  alloc_level0-eq =
      let e =
        find_first_set_bit64_lem (Search.word0 t x some_free)
          (Search.word0-ne-zero t x some_free) in
      rw (e.0, e.1) refl

  alloc_level1-eq : alloc_level1 t l1 ≡ alloc_level0 t l0 l1
  unfolding alloc_level1
  alloc_level1-eq =
      let e =
        find_first_set_bit64_lem (Search.word1 t x some_free)
          (Search.word1-ne-zero t x some_free) in
      rw (e.0, e.1) refl

  trie_alloc-level1 : trie_alloc t ≡ alloc_level1 t l1
  unfolding trie_alloc
  trie_alloc-level1 =
      let e = find_first_set_bit64_lem t.level2 some_free in
      rw (ne→not-== _ _ some_free, e.0, e.1) refl

  trie_alloc-eq : trie_alloc t ≡ (success, some id, after)
  trie_alloc-eq = trie_alloc-level1 ∙ alloc_level1-eq ∙ alloc_level0-eq ∙ alloc_leaf-eq ∙ claim-eq

  after-IsExact : IsExact after
  after-IsExact =
      fill-IsExact t x id w l0 l1 (omega (arith, Search.digit-lt t x some_free))
        (omega (arith, Search.digit0-lt t x some_free))
        (omega (arith, Search.digit1-lt t x some_free)) (Search.leaf_word-lt t x some_free)
        (Search.first0 t x some_free).set_here (Search.first1 t x some_free).set_here
        (Search.top t x some_free).set_here ((t.allocated_count + 1) % 2 ^ 32)

-- Whether an id below the maximum is in use is its leaf bit.
pub is_allocated-bit :
    (t : FlowTrie) (j : ℕ) → IsExact t → j < t.max_flows → is_allocated t j ≡ bit_at 64 t.leaf j
unfolding is_allocated
is_allocated-bit t j x l =
    rw (let q : leb t.max_flows j ≡ false = ground arith in q)
      (test_at-bit_at 64 t.leaf j x.leaf_words)

-- The id i is the lowest free one of the trie t, and t' is t with i in use.
pub record Allocated (t : FlowTrie) (i : ℕ) (t' : FlowTrie) : Type 0 where
  pub in_range : i < t.max_flows
  pub was_free : is_allocated t i ≡ false
  pub lowest : (j : ℕ) → j < i → is_allocated t j ≡ true
  pub marked : (j : ℕ) → j < t.max_flows → is_allocated t' j ≡ (is_allocated t j || (i == j))
  pub exact : IsExact t'
  pub counted : t'.allocated_count ≡ (t.allocated_count + 1) % 2 ^ 32
  pub capacity : t'.max_flows ≡ t.max_flows

after-Allocated :
    (t : FlowTrie) (x : IsExact t) (f : t.level2 ≢ 0) → Allocated t (id t x f) (after t x f)
after-Allocated t x f =
    let i = id t x f in
    let l = Search.flow_id-lt t x f in
    let kept =
      fill-leaf
        (record t { leaf = set_at 64 t.leaf i; allocated_count = (t.allocated_count + 1) % 2 ^ 32 })
        (w t x f) (l0 t x f) (l1 t x f) in
    record {
      in_range = l;
      was_free = is_allocated-bit t i x l ∙ Search.flow_id-free t x f;
      lowest = λ j h. is_allocated-bit t j x (omega arith) ∙ Search.used_below t x f j h;
      marked = λ j h.
          is_allocated-bit (after t x f) j (after-IsExact t x f) (omega (arith, kept.1))
          ∙ ap (λ ws. bit_at 64 ws j) kept.0
          ∙ bit_at-set_at 64 (omega arith) t.leaf i j
              (omega (arith, Search.leaf_word-lt t x f, Search.digit-lt t x f))
          ∙ ap (λ b. b || (i == j)) (sym (is_allocated-bit t j x h));
      exact = after-IsExact t x f;
      counted = kept.2;
      capacity = kept.1;
    }

-- With level 2 clear every word below is, and every leaf word is full.
all_used :
    (t : FlowTrie) → IsExact t → t.level2 ≡ 0 → (j : ℕ) → j < t.max_flows → is_allocated t j ≡ true
all_used t x e j l =
    is_allocated-bit t j x l
    ∙ ap (λ v. bit v (j % 64))
        (get_or_in t.leaf (j / 64) 0 u64_max (omega (arith, x.leaf_covers)) ∙ full (j / 64))
    ∙ bit-ones 64 (j % 64) (omega arith)
  where
    no_level1 : (i : ℕ) → get_or t.level1 i 0 ≡ 0
    no_level1 i = mark_zero _ _ (x.marks_level1 i) (ap (λ v. bit v i) e ∙ bit-zero i)

    no_level0 : (i : ℕ) → get_or t.level0 i 0 ≡ 0
    no_level0 i =
        mark_zero _ _ (x.marks_level0 i)
          (ap (λ v. bit v (i % 64)) (no_level1 (i / 64)) ∙ bit-zero (i % 64))

    full : (i : ℕ) → get_or t.leaf i u64_max ≡ u64_max
    full i =
        mark_full _ _ (x.marks_leaf i)
          (ap (λ v. bit v (i % 64)) (no_level0 (i / 64)) ∙ bit-zero (i % 64))

-- On an exact trie, an allocation gives the lowest free id, marks it and no other, counts it and
-- leaves the trie exact; or it reports that memory is short, changes nothing, and every id is in
-- use.
pub trie_alloc_lem :
    (t : FlowTrie)
    → IsExact t
    → ((i : ℕ) × (t' : FlowTrie) × (trie_alloc t ≡ (success, some i, t')) × Allocated t i t')
      ⊎ ((trie_alloc t ≡ (no_memory, none, t))
          × ((j : ℕ) → j < t.max_flows → is_allocated t j ≡ true))
trie_alloc_lem t x = elim (Bool-cases (t.level2 == 0)) [
  | inl e ↦ inr (unfold trie_alloc in rw e refl, all_used t x (==→eq _ _ e))
  | inr e ↦
      let f = ==→ne t.level2 0 e in
      inl (id t x f, after t x f, trie_alloc-eq t x f, after-Allocated t x f)
]
