-- ===== src/Configuration/Rates.antt =====
-- The rates of the tenants: `allocated_rate_capacity` is their sum and stays within the capacity.
use hwfq_scheduler.Base.{
  some_inj, ℕ, zero, suc, ◌+◌, ◌%◌, ◌^◌, ◌<◌, ◌≤◌, Bool, true, false, ◌≡◌, refl, sym, ap, ◌∙◌,
  Option, none, some, List, [], ◌∷◌, arith, get_or, set, length, Bool-cases, inl, inr,
  if◌then◌else◌, leb,
}
use hwfq_scheduler.Types.{Status, Allocation, weight, rate}
use hwfq_scheduler.Scheduler.{Tenant, Scheduler, tenant_at, find_tenant, configured_only}
use hwfq_scheduler.Scheduler.Accounts.{if_both}
use hwfq_scheduler.Configuration.{validate_allocation, allocated_without, would_exceed_capacity}
use hwfq_scheduler.Configuration.Tenants.{more_rate, configure_found, hwfq_configure_tenant}

abbrev pub rate_in : Allocation → ℕ
rate_in (rate r) = r
rate_in (weight w) = 0

abbrev pub rate_of : Option Tenant → ℕ
rate_of none = 0
rate_of (some t) = if t.configured then rate_in t.allocation else 0

abbrev pub rate_sum : List (Option Tenant) → ℕ
rate_sum [] = 0
rate_sum (o ∷ os) = rate_of o + rate_sum os

pub rate_sum-set :
    (os : List (Option Tenant)) (i : ℕ) (o : Option Tenant)
    → i < length os
    → rate_sum (set os i o) + rate_of (get_or os i none) ≡ rate_sum os + rate_of o
rate_sum-set [] i o l = absurd (omega arith)
rate_sum-set (x ∷ os) zero o l = omega arith
rate_sum-set (x ∷ os) (suc i) o l = omega (arith, rate_sum-set os i o (omega arith))

pub lt_of_some :
    (os : List (Option Tenant)) (i : ℕ) (t : Tenant) → get_or os i none ≡ some t → i < length os
lt_of_some [] i t h = absurd (cc)
lt_of_some (x ∷ os) zero t h = omega arith
lt_of_some (x ∷ os) (suc i) t h = omega (arith, lt_of_some os i t h)

-- The sum of the rates is what is recorded, and at most the capacity, a 64-bit word.
pub record IsSum (allocated : ℕ) (tenants : List (Option Tenant)) (capacity : ℕ) : Type 0 where
  pub sum : allocated ≡ rate_sum tenants
  pub bounded : allocated ≤ capacity
  pub word : capacity < 2 ^ 64

abbrev pub IsRated : Scheduler → Type 0
IsRated s = IsSum s.allocated_rate_capacity s.tenants s.config.total_capacity

-- Where the check of `would_exceed_capacity` passes, no addition wraps and the sum is within the
-- capacity.
pub changed_rate :
    (s : Scheduler) (old : ℕ) (o : Option Allocation) (a : Allocation)
    → rate_in a + s.config.total_capacity < 2 ^ 64
    → allocated_without s.allocated_rate_capacity o + old ≡ s.allocated_rate_capacity
    → s.allocated_rate_capacity ≤ s.config.total_capacity
    → would_exceed_capacity s a o ≡ false
    → let n = more_rate (allocated_without s.allocated_rate_capacity o) a in
      (n + old ≡ s.allocated_rate_capacity + rate_in a) × (n ≤ s.config.total_capacity)
unfolding would_exceed_capacity
changed_rate s old o (weight w) small e b h = (omega (arith, e), omega (arith, e, b))
changed_rate s old o (rate r) small e b h =
    let k : (allocated_without s.allocated_rate_capacity o + r) % 2 ^ 64 ≤ s.config.total_capacity =
      ground (arith, h) in
    (omega (arith, e, b, k, small), omega (arith, e, b, k, small))

pub without_rate :
    (n cap : ℕ) (a : Allocation)
    → n < 2 ^ 64
    → rate_in a ≤ n
    → allocated_without n (some a) + rate_in a ≡ n
without_rate n cap (rate r) small l = omega arith
without_rate n cap (weight w) small l = omega arith

rate_of-some : (t : Tenant) → t.configured ≡ true → rate_of (some t) ≡ rate_in t.allocation
rate_of-some t c = rw c refl

pub configured_of_find :
    (s : Scheduler) (i : ℕ) (t : Tenant)
    → find_tenant s i ≡ some t
    → (tenant_at s i ≡ some t) × (t.configured ≡ true)
unfolding find_tenant
configured_of_find s i t h = go (tenant_at s i) h
  where
    if_some : (b : Bool) (d : Tenant) → (if b then some d else none) ≡ some t → (d ≡ t) × (b ≡ true)
    if_some true d k = (some_inj k, refl)
    if_some false d k = absurd (cc)

    go : (o : Option Tenant) → configured_only o ≡ some t → (o ≡ some t) × (t.configured ≡ true)
    go none k = absurd (cc)
    go (some d) k =
        let p = if_some d.configured d k in
        (ap some p.0, ap (λ (x : Tenant). x.configured) (sym p.0) ∙ p.1)

-- The tenant's own rate is part of the sum.
pub held_rate :
    (s : Scheduler) (i : ℕ) (t : Tenant)
    → IsRated s
    → tenant_at s i ≡ some t
    → t.configured ≡ true
    → (i < length s.tenants)
      × (rate_in t.allocation ≤ s.allocated_rate_capacity)
      × ((o : Option Tenant)
          → rate_sum (set s.tenants i o) + rate_in t.allocation ≡ rate_sum s.tenants + rate_of o)
held_rate s i t v there c =
    let l = lt_of_some s.tenants i t there in
    let q : rate_of (get_or s.tenants i none) ≡ rate_in t.allocation =
      ap rate_of there ∙ rate_of-some t c in
    (
      l,
      omega (arith, rate_sum-set s.tenants i none l, q, v.sum),
      λ o. omega (arith, rate_sum-set s.tenants i o l, q),
    )

abbrev Rated : Status × Scheduler → Type 0
Rated r = IsRated (r.1)

configure_found-IsRated :
    (s : Scheduler) (i : ℕ) (t : Tenant) (a : Allocation)
    → IsRated s
    → rate_in a + s.config.total_capacity < 2 ^ 64
    → tenant_at s i ≡ some t
    → t.configured ≡ true
    → Rated (configure_found s (some t) i a)
unfolding configure_found
configure_found-IsRated s i t a v small there c =
    elim (Bool-cases (would_exceed_capacity s a (some t.allocation))) [
      | inl over ↦ rw over v
      | inr fits ↦
          let h = held_rate s i t v there c in
          let k =
            changed_rate s (rate_in t.allocation) (some t.allocation) a small
              (without_rate s.allocated_rate_capacity s.config.total_capacity t.allocation
                (omega (arith, v.bounded, v.word)) h.1)
              v.bounded fits in
          rw fits (record {
            sum = omega (
              arith,
              k.0,
              v.sum,
              h.2 (some (record t { allocation = a })),
              rate_of-some (record t { allocation = a }) c,
            );
            bounded = k.1;
            word = v.word;
          })
    ]

-- Giving a tenant another allocation keeps the record of the rates right, if the rate and the
-- capacity add up to a 64-bit word: it is the sum of the tenants' rates, and at most the capacity.
pub hwfq_configure_tenant-IsRated :
    (s : Scheduler) (tenant_id : ℕ) (a : Allocation)
    → IsRated s
    → rate_in a + s.config.total_capacity < 2 ^ 64
    → IsRated (hwfq_configure_tenant s tenant_id a).1
unfolding hwfq_configure_tenant
hwfq_configure_tenant-IsRated s i a v small =
    if_both Rated (leb s.config.max_tenants i) _ _ v
      (if_both Rated (validate_allocation a) _ _ (by_tenant (find_tenant s i) refl) v)
  where
    by_tenant : (o : Option Tenant) → find_tenant s i ≡ o → Rated (configure_found s o i a)
    by_tenant none q = unfold configure_found in v
    by_tenant (some t) q =
        let p = configured_of_find s i t q in configure_found-IsRated s i t a v small p.0 p.1
