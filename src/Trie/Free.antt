-- ===== src/Trie/Free.antt =====
-- `hwfq_flow_trie_free`: what it frees, on every branch.
use hwfq_scheduler.Base.{
  ℕ, ◌+◌, ◌-◌, ◌%◌, ◌^◌, ◌<◌, true, false, not, ◌&&◌, ◌==◌, ◌≡◌, ◌≢◌, refl, sym, ap, ◌∙◌, inl, inr,
  arith, Bool-cases, dec_lt, ==→eq, ne→not-==, leb, if◌then◌else◌,
}
use hwfq_scheduler.Word.Field.{bit_at, bit_at-clear_at, test_at}
use hwfq_scheduler.Trie.{FlowTrie, release, trie_free, is_allocated}
use hwfq_scheduler.Trie.Valid.{IsExact}
use hwfq_scheduler.Trie.Alloc.{is_allocated-bit}
use hwfq_scheduler.Trie.Release.{release-IsExact, release-leaf, w-lt}

-- t' is t with the id i free.
pub record Freed (t : FlowTrie) (i : ℕ) (t' : FlowTrie) : Type 0 where
  pub exact : IsExact t'
  pub unmarked : (j : ℕ) → j < t.max_flows → is_allocated t' j ≡ (is_allocated t j && not (i == j))
  pub counted :
      t'.allocated_count
      ≡ (if is_allocated t i then (t.allocated_count + 2 ^ 32 - 1) % 2 ^ 32 else t.allocated_count)
  pub capacity : t'.max_flows ≡ t.max_flows

release-Freed :
    (t : FlowTrie) (i : ℕ)
    → IsExact t
    → i < t.max_flows
    → is_allocated t i ≡ true
    → Freed t i (release t i)
release-Freed t i x l used = record {
  exact = release-IsExact t x i l;
  unmarked = λ j h.
      is_allocated-bit (release t i) j (release-IsExact t x i l)
        (omega (arith, (release-leaf t i).1))
      ∙ ap (λ ws. bit_at 64 ws j) (release-leaf t i).0
      ∙ bit_at-clear_at 64 (omega arith) t.leaf i j (w-lt t x i l)
      ∙ ap (λ b. b && not (i == j)) (sym (is_allocated-bit t j x h));
  counted = rw used (release-leaf t i).2;
  capacity = (release-leaf t i).1;
}

-- An id that is not in use is freed by doing nothing.
same-Freed : (t : FlowTrie) (i : ℕ) → IsExact t → is_allocated t i ≡ false → Freed t i t
same-Freed t i x unused = record {
  exact = x;
  unmarked = λ j h. elim (Bool-cases (i == j)) [
    | inl e ↦ rw (e, ← ==→eq i j e, unused) refl
    | inr e ↦ rw e (ground arith)
  ];
  counted = rw unused refl;
  capacity = refl;
}

-- On an exact trie, freeing any id but the reserved 0 unmarks it and no other, corrects the count if
-- the id was in use, and leaves the trie exact; an id that is free or too large changes nothing.
pub trie_free_lem : (t : FlowTrie) (i : ℕ) → IsExact t → i ≢ 0 → Freed t i (trie_free t i)
unfolding trie_free
trie_free_lem t i x ne = elim (dec_lt i t.max_flows) [
  | no l ↦
      let out : leb t.max_flows i ≡ true = ground arith in
      rw (ne→not-== i 0 ne, out) (same-Freed t i x (unfold is_allocated in rw out refl))
  | yes l ↦
      let inside : leb t.max_flows i ≡ false = ground arith in
      let same : is_allocated t i ≡ test_at 64 t.leaf i = (unfold is_allocated in rw inside refl) in
      elim (Bool-cases (test_at 64 t.leaf i)) [
        | inl e ↦ rw (ne→not-== i 0 ne, inside, e) (release-Freed t i x l (same ∙ e))
        | inr e ↦ rw (ne→not-== i 0 ne, inside, e) (same-Freed t i x (same ∙ e))
      ]
]
