-- ===== src/Group/Configure.antt =====
-- `group_scheduler_configure_entry`: its failures change nothing, and what a new rate does.
use hwfq_scheduler.Base.{
  ℕ, ◌+◌, ◌^◌, ◌≤◌, ◌<◌, true, false, ◌≡◌, ◌≢◌, refl, sym, ap, ◌∙◌, inl, inr, Option, none, some,
  List, [], ◌∷◌, arith, subst, Bool-cases, Option-cases, some_inj, leb, ltb, ne→not-==, ℕ_discrete,
  if◌then◌else◌,
}
use hwfq_scheduler.Types.{success, Allocation, weight, rate, Entry}
use hwfq_scheduler.Chunked.{ChunkedEntries, get, put}
use hwfq_scheduler.Chunked.Access.{get-put_self, get-put_ne}
use hwfq_scheduler.Group.{
  GroupScheduler, add64, retract, restore, reserve, link_entry, configure_at, configure_entry,
  recalculated, recalculate_at, recalculate_list, recalculate_weight_based_rates, find_entry,
  get_entry_rate, is_zero,
}
use hwfq_scheduler.Group.Enqueue.{KeepsOnFailure}

-- The allocation fits its type.
abbrev pub IsSmall : Allocation → Type 0
IsSmall (rate r) = r < 2 ^ 64
IsSmall (weight w) = w < 2 ^ 32

-- The totals fit theirs, and so do the entries' allocations.
pub record IsBounded (g : GroupScheduler) : Type 0 where
  pub rates : g.allocated_rate_capacity < 2 ^ 64
  pub weights : g.total_weight < 2 ^ 32
  pub allocations : (i : ℕ) (e : Entry) → get g.entries i ≡ some e → IsSmall e.allocation

restore-retract :
    (g : GroupScheduler) (a : Allocation)
    → g.allocated_rate_capacity < 2 ^ 64
    → g.total_weight < 2 ^ 32
    → IsSmall a
    → restore (retract g a) a ≡ g
unfolding restore retract
restore-retract g (rate r) rates weights l =
    ap (λ n. record g { allocated_rate_capacity = n }) (omega arith)
restore-retract g (weight w) rates weights l = ap (λ n. record g { total_weight = n }) (omega arith)

reserve-KeepsOnFailure :
    (g : GroupScheduler) (i : ℕ) (a : Allocation) (e : Entry)
    → IsBounded g
    → get g.entries i ≡ some e
    → KeepsOnFailure g (reserve (if e.configured then retract g e.allocation else g) i a e)
unfolding reserve
reserve-KeepsOnFailure g i (weight w) e b there = inl refl
reserve-KeepsOnFailure g i (rate r) e b there = elim (Bool-cases e.configured) [
  | inl c ↦
      rw c
        (elim (Bool-cases (
          ltb (retract g e.allocation).total_capacity
            (add64 (retract g e.allocation).allocated_rate_capacity r))) [
              | inl over ↦
                  rw over (
                    inr
                      (restore-retract g e.allocation b.rates b.weights (b.allocations i e there)))
              | inr fits ↦ rw fits (inl refl)
            ])
  | inr c ↦ rw c (elim (Bool-cases (ltb g.total_capacity (add64 g.allocated_rate_capacity r))) [
    | inl over ↦ rw over (inr refl)
    | inr fits ↦ rw fits (inl refl)
  ])
]

-- With totals and allocations that fit their types, a call that fails leaves the scheduler as it was:
-- what an overbooked call has taken out of the totals it puts back.
pub configure_entry-KeepsOnFailure :
    (g : GroupScheduler) (i : ℕ) (a : Allocation)
    → IsBounded g
    → KeepsOnFailure g (configure_entry g i a)
unfolding configure_entry configure_at
configure_entry-KeepsOnFailure g i a b = elim (Bool-cases (leb g.max_entries i)) [
  | inl l ↦ rw l (inr refl)
  | inr l ↦ elim (Bool-cases (is_zero a)) [
    | inl z ↦ rw (l, z) (inr refl)
    | inr z ↦ elim (Option-cases (get g.entries i)) [
      | inl n ↦ rw (l, z, n) (inr refl)
      | inr (e, there) ↦ rw (l, z, there) (reserve-KeepsOnFailure g i a e b there)
    ]
  ]
]

-- The walk that renews the rates of the weight entries leaves an entry with a rate as it is.
recalculate_at-rate :
    (g : GroupScheduler) (i j r : ℕ) (ce : ChunkedEntries) (e : Entry)
    → e.allocation ≡ rate r
    → get ce i ≡ some e
    → (o : Option Entry) → get ce j ≡ o
    → get (recalculate_at g j o ce) i ≡ some e
unfolding recalculate_at
recalculate_at-rate g i j r ce e a there none q = there
recalculate_at-rate g i j r ce e a there (some d) q = elim (ℕ_discrete j i) [
  | no ne ↦ get-put_ne ce j d (recalculated g d.allocation d) q i ne ∙ there
  | yes p ↦
      let same : d ≡ e = some_inj (sym q ∙ ap (get ce) p ∙ there) in
      let unchanged : recalculated g d.allocation d ≡ d =
        (subst (λ b. recalculated g b d ≡ d) (sym (ap (λ x. x.allocation) same ∙ a))
          (unfold recalculated in refl)) in
      subst (λ k. get (put ce j (recalculated g d.allocation d)) k ≡ some e) p
        (get-put_self ce j d (recalculated g d.allocation d) q ∙ ap some (unchanged ∙ same))
]

recalculate_list-rate :
    (g : GroupScheduler) (i r : ℕ) (e : Entry) (ids : List ℕ) (ce : ChunkedEntries)
    → e.allocation ≡ rate r
    → get ce i ≡ some e
    → get (recalculate_list g ids ce) i ≡ some e
unfolding recalculate_list
recalculate_list-rate g i r e [] ce a there = there
recalculate_list-rate g i r e (j ∷ rest) ce a there =
    recalculate_list-rate g i r e rest (recalculate_at g j (get ce j) ce) a
      (recalculate_at-rate g i j r ce e a there (get ce j) refl)

served_at :
    (h : GroupScheduler) (i r : ℕ) (e : Entry)
    → i < h.max_entries
    → get h.entries i ≡ some e
    → e.configured ≡ true
    → e.allocation ≡ rate r
    → e.calculated_rate ≡ r
    → get_entry_rate h i ≡ (success, r)
unfolding get_entry_rate find_entry
served_at h i r e l there on a c =
    rw (let q : leb h.max_entries i ≡ false = ground arith in q, there, on, a, c) refl

-- Giving an entry that is not configured yet a rate above 0 that the capacity has room for succeeds:
-- the rate is added to what is allocated, which stays within the capacity, the entry's sessions are
-- served at the rate, and weights are not affected.
pub configure_entry_rate :
    (g : GroupScheduler) (i r : ℕ) (e : Entry)
    → i < g.max_entries
    → r ≢ 0
    → get g.entries i ≡ some e
    → e.configured ≡ false
    → g.total_capacity < 2 ^ 64
    → g.allocated_rate_capacity + r ≤ g.total_capacity
    → let h = (configure_entry g i (rate r)).1 in
      ((configure_entry g i (rate r)).0 ≡ success)
      × (h.allocated_rate_capacity ≡ g.allocated_rate_capacity + r)
      × (get_entry_rate h i ≡ (success, r))
      × (h.configured_entries ≡ i ∷ g.configured_entries)
      × (h.total_weight ≡ g.total_weight)
unfolding configure_entry configure_at reserve link_entry recalculate_weight_based_rates
configure_entry_rate g i r e l ne there off cap room =
    let in_range : leb g.max_entries i ≡ false = ground arith in
    let sum : add64 g.allocated_rate_capacity r ≡ g.allocated_rate_capacity + r = omega arith in
    let fits : ltb g.total_capacity (g.allocated_rate_capacity + r) ≡ false = ground arith in
    let written : Entry = record e {
      entry_id = i;
      allocation = rate r;
      calculated_rate = r;
      last_finish_time = 0;
      configured = true;
    } in
    let stored = get-put_self g.entries i e written there in
    rw (in_range, ne→not-== r 0 ne, there, off, sum, fits)
      (
        refl,
        refl,
        served_at _ i r written l
            (recalculate_list-rate _ i r written (i ∷ g.configured_entries)
              (put g.entries i written) refl stored)
            refl refl refl,
        refl,
        refl,
      )
