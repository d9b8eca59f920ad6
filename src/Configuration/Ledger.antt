-- ===== src/Configuration/Ledger.antt =====
-- The two records of the allocated rates, that of the scheduler and that of the system scheduler, when a
-- tenant gets another allocation: `hwfq_configure_tenant` ignores what
-- `group_scheduler_configure_entry` returns.
use hwfq_scheduler.Base.{
  ℕ, ◌<◌, Bool, true, false, ◌≡◌, refl, sym, ap, ◌∙◌, subst, some, arith, leb, if◌then◌else◌,
  Bool-cases, inl, inr,
}
use hwfq_scheduler.Types.{Status, success, Allocation, weight, rate, Entry}
use hwfq_scheduler.Chunked.{get}
use hwfq_scheduler.Group.{
  GroupScheduler, is_zero, retract, reserve, link_entry, configure_at, configure_entry,
  recalculate_weight_based_rates,
}
use hwfq_scheduler.Scheduler.{Tenant, Scheduler, tenant_at}
use hwfq_scheduler.Scheduler.Accounts.{if_both}
use hwfq_scheduler.Configuration.{validate_allocation, would_exceed_capacity, allocated_without}
use hwfq_scheduler.Configuration.Tenants.{more_rate, configure_found, hwfq_configure_tenant}
use hwfq_scheduler.Configuration.Reset.{find_of_tenant}

-- The tenant i and its entry in the system scheduler have the same allocation, and the two records
-- of the allocated rates agree, as do the two capacities.
pub record IsMatched (s : Scheduler) (i : ℕ) (t : Tenant) (e : Entry) : Type 0 where
  pub there : tenant_at s i ≡ some t
  pub configured : t.configured ≡ true
  pub held : get s.system_scheduler.entries i ≡ some e
  pub entered : e.configured ≡ true
  pub same : e.allocation ≡ t.allocation
  pub below : i < s.system_scheduler.max_entries
  pub rates : s.system_scheduler.allocated_rate_capacity ≡ s.allocated_rate_capacity
  pub capacity : s.system_scheduler.total_capacity ≡ s.config.total_capacity

-- An entry that is given another allocation succeeds, and the totals are as recorded.
abbrev Reserves : ℕ → Status × GroupScheduler → Type 0
Reserves n r = (r.0 ≡ success) × ((r.1).allocated_rate_capacity ≡ n)

retract-fields :
    (g : GroupScheduler) (old : Allocation)
    → ((retract g old).allocated_rate_capacity
        ≡ allocated_without g.allocated_rate_capacity (some old))
      × ((retract g old).total_capacity ≡ g.total_capacity)
unfolding retract
retract-fields g (rate r) = (refl, refl)
retract-fields g (weight w) = (refl, refl)

reserve-Reserves :
    (s : Scheduler) (g : GroupScheduler) (i : ℕ) (e : Entry) (old a : Allocation)
    → g.allocated_rate_capacity ≡ s.allocated_rate_capacity
    → g.total_capacity ≡ s.config.total_capacity
    → would_exceed_capacity s a (some old) ≡ false
    → Reserves
        (more_rate (allocated_without s.allocated_rate_capacity (some old)) a)
        (reserve (retract g old) i a e)
unfolding reserve link_entry recalculate_weight_based_rates would_exceed_capacity
reserve-Reserves s g i e old (weight w) rates cap fits =
    (refl, (retract-fields g old).0 ∙ ap (λ n. allocated_without n (some old)) rates)
reserve-Reserves s g i e old (rate r) rates cap fits =
    let p : (retract g old).allocated_rate_capacity
        ≡ allocated_without s.allocated_rate_capacity (some old) =
      (retract-fields g old).0 ∙ ap (λ n. allocated_without n (some old)) rates in
    let q : (retract g old).total_capacity ≡ s.config.total_capacity =
      (retract-fields g old).1 ∙ cap in
    rw (p, q, fits) (refl, refl)

configure_entry-Reserves :
    (s : Scheduler) (i : ℕ) (t : Tenant) (e : Entry) (a : Allocation)
    → IsMatched s i t e
    → is_zero a ≡ false
    → would_exceed_capacity s a (some t.allocation) ≡ false
    → Reserves
        (more_rate (allocated_without s.allocated_rate_capacity (some t.allocation)) a)
        (configure_entry s.system_scheduler i a)
unfolding configure_entry configure_at
configure_entry-Reserves s i t e a k nonzero fits =
    let below : leb s.system_scheduler.max_entries i ≡ false = ground (arith, k.below) in
    let kept : ℕ = more_rate (allocated_without s.allocated_rate_capacity (some t.allocation)) a in
    rw (below, nonzero, k.held)
      (subst
        (λ b. Reserves kept (
          reserve (if b then retract s.system_scheduler e.allocation else s.system_scheduler) i a
            e))
        (sym k.entered)
        (subst (λ old. Reserves kept (reserve (retract s.system_scheduler old) i a e)) (sym k.same)
          (reserve-Reserves s s.system_scheduler i e t.allocation a k.rates k.capacity fits)))

nonzero_of_valid : (a : Allocation) → validate_allocation a ≡ true → is_zero a ≡ false
unfolding validate_allocation
nonzero_of_valid a h = go (is_zero a) h
  where
    go : (b : Bool) → (if b then false else true) ≡ true → b ≡ false
    go true k = absurd (cc)
    go false k = refl

-- Where the call answers success, so did the call that it ignores, and the two records agree.
abbrev Agrees : Scheduler → ℕ → Allocation → Status × Scheduler → Type 0
Agrees s i a r =
    r.0 ≡ success
    → ((configure_entry s.system_scheduler i a).0 ≡ success)
      × ((r.1).system_scheduler.allocated_rate_capacity ≡ (r.1).allocated_rate_capacity)

configure_found-Agrees :
    (s : Scheduler) (i : ℕ) (t : Tenant) (e : Entry) (a : Allocation)
    → IsMatched s i t e
    → is_zero a ≡ false
    → Agrees s i a (configure_found s (some t) i a)
unfolding configure_found
configure_found-Agrees s i t e a k nonzero =
    elim (Bool-cases (would_exceed_capacity s a (some t.allocation))) [
      | inl over ↦ rw over (λ q. absurd (cc))
      | inr fits ↦ rw fits (λ q. configure_entry-Reserves s i t e a k nonzero fits)
    ]

hwfq_configure_tenant-Agrees :
    (s : Scheduler) (i : ℕ) (t : Tenant) (e : Entry) (a : Allocation)
    → IsMatched s i t e
    → Agrees s i a (hwfq_configure_tenant s i a)
unfolding hwfq_configure_tenant
hwfq_configure_tenant-Agrees s i t e a k =
    if_both (Agrees s i a) (leb s.config.max_tenants i) _ _ (λ q. absurd (cc))
      (elim (Bool-cases (validate_allocation a)) [
        | inl valid ↦
            rw (valid, find_of_tenant s i t k.there k.configured)
              (configure_found-Agrees s i t e a k (nonzero_of_valid a valid))
        | inr invalid ↦ rw invalid (λ q. absurd (cc))
      ])

-- Let the tenant's entry in the system scheduler have the tenant's allocation, and let the scheduler and
-- the system scheduler agree on the capacity and on the rates allocated. Where `hwfq_configure_tenant`
-- answers success, the call of `group_scheduler_configure_entry` whose result it ignores has succeeded
-- too, and afterwards the two agree on the rates allocated again.
pub hwfq_configure_tenant_ledger :
    (s : Scheduler) (tenant_id : ℕ) (t : Tenant) (e : Entry) (a : Allocation)
    → IsMatched s tenant_id t e
    → (hwfq_configure_tenant s tenant_id a).0 ≡ success
    → let s' = (hwfq_configure_tenant s tenant_id a).1 in
      ((configure_entry s.system_scheduler tenant_id a).0 ≡ success)
      × (s'.system_scheduler.allocated_rate_capacity ≡ s'.allocated_rate_capacity)
hwfq_configure_tenant_ledger s i t e a k ok = hwfq_configure_tenant-Agrees s i t e a k ok
