-- ===== src/Trie/Reach.antt =====
-- The life of a trie: `hwfq_flow_trie_init`, and then any calls of `hwfq_flow_trie_alloc` and
-- `hwfq_flow_trie_free`.
use hwfq_scheduler.Base.{
  ℕ, ◌+◌, ◌^◌, ◌≤◌, ◌<◌, Bool, true, false, ◌&&◌, not, ◌==◌, ◌≡◌, ◌≢◌, refl, sym, ap, ◌∙◌, some,
  none, arith, leb, if◌then◌else◌, Bool-cases, inl, inr, ==→eq, ne→not-==, Option, some_inj,
  ℕ_discrete, subst, dec_lt,
}
use hwfq_scheduler.Types.{Status, success}
use hwfq_scheduler.Word.Field.{test_at}
use hwfq_scheduler.Trie.{FlowTrie, trie_init, trie_alloc, trie_free, is_allocated}
use hwfq_scheduler.Trie.Valid.{IsExact}
use hwfq_scheduler.Trie.Alloc.{Allocated, trie_alloc_lem}
use hwfq_scheduler.Trie.Free.{Freed, trie_free_lem}
use hwfq_scheduler.Trie.Init.{IsNewTrie, trie_init-IsNewTrie}
use hwfq_scheduler.Trie.Count.{
  number_of, number_of-le, number_of-ext, number_of-more, number_of-fewer, number_of-zero,
}

-- The tries that calls reach from the start with n ids.
pub data Reached : ℕ → FlowTrie → Type 0 where
  begin :
      (mem : ℕ → Bool) (n : ℕ) (t : FlowTrie) → trie_init mem n ≡ (success, some t) → Reached n t
  claiming : (n : ℕ) (t : FlowTrie) → Reached n t → Reached n (trie_alloc t).2
  releasing : (n : ℕ) (t : FlowTrie) (flow_id : ℕ) → Reached n t → Reached n (trie_free t flow_id)

-- The levels agree, the reserved id is in use, and the count is the number of ids in use.
pub record IsSound (n : ℕ) (t : FlowTrie) : Type 0 where
  pub exact : IsExact t
  pub capacity : t.max_flows ≡ n
  pub reserved : is_allocated t 0 ≡ true
  pub counted : t.allocated_count ≡ number_of (is_allocated t) n

in_range : (t : FlowTrie) (i : ℕ) → is_allocated t i ≡ true → i < t.max_flows
unfolding is_allocated
in_range t i h = elim (dec_lt i t.max_flows) [
  | yes l ↦ l
  | no g ↦
      let out : leb t.max_flows i ≡ true = ground arith in
      absurd (cc (h, ap (λ b. if b then false else test_at 64 t.leaf i) out))
]

-- Taking away an id that is not in use changes nothing.
others :
    (t : FlowTrie) (i j : ℕ)
    → is_allocated t i ≡ false
    → (is_allocated t j && not (i == j)) ≡ is_allocated t j
others t i j h = elim (Bool-cases (i == j)) [
  | inl e ↦ rw (e, ← ==→eq i j e, h) refl
  | inr e ↦ rw e (ground arith)
]

module _ (n : ℕ) (pos : 0 < n) (fits : n ≤ 2 ^ 24) where
  new-IsSound : (t : FlowTrie) → IsNewTrie n t → IsSound n t
  new-IsSound t k = record {
    exact = k.exact;
    capacity = k.capacity;
    reserved = k.only_reserved 0 pos;
    counted = k.counted ∙ sym (number_of-zero (is_allocated t) n pos k.only_reserved);
  }

  taken-IsSound :
      (t : FlowTrie) (i : ℕ) (t' : FlowTrie) → IsSound n t → Allocated t i t' → IsSound n t'
  taken-IsSound t i t' k a =
      let more : number_of (is_allocated t') n ≡ number_of (is_allocated t) n + 1 =
        number_of-more (is_allocated t) (is_allocated t') i n
          (omega (arith, a.in_range, k.capacity)) a.was_free
          (λ j h. a.marked j (omega (arith, k.capacity))) in
      record {
        exact = a.exact;
        capacity = a.capacity ∙ k.capacity;
        reserved = a.marked 0 (omega (arith, k.capacity)) ∙ rw (k.reserved) refl;
        counted = omega (arith, a.counted, k.counted, more, number_of-le (is_allocated t') n);
      }

  given_back-IsSound :
      (t : FlowTrie) (i : ℕ) (t' : FlowTrie) → i ≢ 0 → IsSound n t → Freed t i t' → IsSound n t'
  given_back-IsSound t i t' ne k a = record {
    exact = a.exact;
    capacity = a.capacity ∙ k.capacity;
    reserved = a.unmarked 0 (omega (arith, k.capacity)) ∙ rw (k.reserved, ne→not-== i 0 ne) refl;
    counted = elim (Bool-cases (is_allocated t i)) [
      | inl used ↦
          let below = in_range t i used in
          let fewer : number_of (is_allocated t) n ≡ number_of (is_allocated t') n + 1 =
            number_of-fewer (is_allocated t) (is_allocated t') i n
              (omega (arith, k.capacity, below)) used
              (λ j h. a.unmarked j (omega (arith, k.capacity))) in
          let le = number_of-le (is_allocated t) n in
          a.counted ∙ rw used (omega (arith, k.counted, fewer, le))
      | inr unused ↦
          a.counted
          ∙ rw unused (
              k.counted
              ∙ number_of-ext (is_allocated t) (is_allocated t') n
                  (λ j h. sym (a.unmarked j (omega (arith, k.capacity)) ∙ others t i j unused)))
    ];
  }

  alloc-IsSound : (t : FlowTrie) → IsSound n t → IsSound n (trie_alloc t).2
  alloc-IsSound t k = elim (trie_alloc_lem t k.exact) [
    | inl (i, t', e, a) ↦ rw e (taken-IsSound t i t' k a)
    | inr (e, _) ↦ rw e k
  ]

  free-IsSound : (t : FlowTrie) (i : ℕ) → IsSound n t → IsSound n (trie_free t i)
  free-IsSound t i k = elim (ℕ_discrete i 0) [
    | yes e ↦ unfold trie_free in rw e k
    | no ne ↦ given_back-IsSound t i (trie_free t i) ne k (trie_free_lem t i k.exact ne)
  ]

-- What a result with a trie says of the tests before it.
needs :
    (b : Bool) (r : Status × Option FlowTrie) (code : Status) (t : FlowTrie)
    → (if b then r else (code, none)) ≡ (success, some t)
    → (b ≡ true) × (r ≡ (success, some t))
needs true r code t h = (refl, h)
needs false r code t h = absurd (cc (ap (λ p. p.1) h))

refuses :
    (b : Bool) (r : Status × Option FlowTrie) (code : Status) (t : FlowTrie)
    → (if b then (code, none) else r) ≡ (success, some t)
    → (b ≡ false) × (r ≡ (success, some t))
refuses true r code t h = absurd (cc (ap (λ p. p.1) h))
refuses false r code t h = (refl, h)

-- A start that succeeds was asked for some ids and got its memory.
init-succeeded :
    (mem : ℕ → Bool) (n : ℕ) (t : FlowTrie)
    → trie_init mem n ≡ (success, some t)
    → (0 < n) × (mem 0 ≡ true) × (mem 1 ≡ true) × (mem 2 ≡ true)
unfolding trie_init
init-succeeded mem n t h =
    let (nonzero, h0) = refuses (n == 0) _ _ t h in
    let (m0, h1) = needs (mem 0) _ _ t h0 in
    let (m1, h2) = needs (mem 1) _ _ t h1 in
    let (m2, _) = needs (mem 2) _ _ t h2 in (ground (arith, nonzero), m0, m1, m2)

-- Of at most 2 ^ 24 ids.
init-IsNewTrie :
    (mem : ℕ → Bool) (n : ℕ) (t : FlowTrie)
    → n ≤ 2 ^ 24
    → trie_init mem n ≡ (success, some t)
    → (0 < n) × IsNewTrie n t
init-IsNewTrie mem n t fits h =
    let (pos, m0, m1, m2) = init-succeeded mem n t h in
    let (t', e, k) = trie_init-IsNewTrie mem n pos fits m0 m1 m2 in
    (pos, subst (IsNewTrie n) (some_inj (ap (λ r. r.1) (sym e ∙ h))) k)

some_ids : (n : ℕ) (t : FlowTrie) → n ≤ 2 ^ 24 → Reached n t → 0 < n
some_ids n t fits (begin mem _ _ h) = (init-IsNewTrie mem n t fits h).0
some_ids n t fits (claiming _ t0 r) = some_ids n t0 fits r
some_ids n t fits (releasing _ t0 i r) = some_ids n t0 fits r

-- Whatever calls of `hwfq_flow_trie_alloc` and `hwfq_flow_trie_free` follow a successful
-- `hwfq_flow_trie_init` for at most 2 ^ 24 ids: the levels of the trie are exact, it is still for as
-- many ids, the id 0 is in use, and `allocated_count` is the number of ids in use.
pub Reached-IsSound : (n : ℕ) (t : FlowTrie) → n ≤ 2 ^ 24 → Reached n t → IsSound n t
Reached-IsSound n t fits (begin mem _ _ h) =
    let (pos, k) = init-IsNewTrie mem n t fits h in new-IsSound n pos fits t k
Reached-IsSound n t fits (claiming _ t0 r) =
    alloc-IsSound n (some_ids n t0 fits r) fits t0 (Reached-IsSound n t0 fits r)
Reached-IsSound n t fits (releasing _ t0 i r) =
    free-IsSound n (some_ids n t0 fits r) fits t0 i (Reached-IsSound n t0 fits r)
