-- ===== src/Configuration/RatesKept.antt =====
-- `hwfq_add_tenant` and `hwfq_remove_tenant` keep the record of the rates right.
use hwfq_scheduler.Base.{
  ℕ, ◌+◌, ◌^◌, ◌<◌, Bool, true, false, ◌≡◌, refl, Option, none, some, arith, length, ap, Bool-cases,
  inl, inr, leb,
}
use hwfq_scheduler.Types.{
  Status, success, invalid_arg, no_memory, not_found, overbooked, no_work, has_backlog, internal,
  Allocation,
}
use hwfq_scheduler.Chunked.{ChunkedEntries}
use hwfq_scheduler.Group.{GroupScheduler}
use hwfq_scheduler.Scheduler.{Tenant, Scheduler, tenant_at, find_tenant}
use hwfq_scheduler.Scheduler.Accounts.{if_both}
use hwfq_scheduler.Configuration.{validate_allocation, would_exceed_capacity, remove_tenant}
use hwfq_scheduler.Configuration.Tenants.{
  Adding, has_free_slot, fresh_tenant, settle_tenant, enter_tenant, equip_tenant, hwfq_add_tenant,
  hwfq_configure_tenant, remove_found, hwfq_remove_tenant,
}
use hwfq_scheduler.Configuration.Rates.{
  rate_in, rate_of, rate_sum-set, IsRated, changed_rate, without_rate, held_rate,
  configured_of_find, hwfq_configure_tenant-IsRated,
}

-- The id that a call gives out is that of a slot without a tenant.
abbrev pub GivesFreeSlot : Scheduler → Adding → Type 0
GivesFreeSlot s r = (i : ℕ) → r.1 ≡ some i → (tenant_at s i ≡ none) × (i < length s.tenants)

abbrev Keeps : Scheduler → Adding → Type 0
Keeps s r = GivesFreeSlot s r → IsRated (r.2)

module _ (s : Scheduler) (a : Allocation) (v : IsRated s)
    (small : rate_in a + s.config.total_capacity < 2 ^ 64)
    (fits : would_exceed_capacity s a none ≡ false) where
  settle_tenant-Keeps :
      (g : GroupScheduler) (i : ℕ) (r : Status × GroupScheduler) → Keeps s (settle_tenant s a g i r)
  unfolding settle_tenant
  settle_tenant-Keeps g i (success, system) free =
      let k = changed_rate s 0 none a small (omega arith) v.bounded fits in
      let slot = free i refl in
      record {
        sum = omega (
          arith,
          k.0,
          v.sum,
          rate_sum-set s.tenants i (some (fresh_tenant i a g)) slot.1,
          ap rate_of slot.0,
        );
        bounded = k.1;
        word = v.word;
      }
  settle_tenant-Keeps g i (invalid_arg, system) free = record {
    sum = v.sum;
    bounded = v.bounded;
    word = v.word;
  }
  settle_tenant-Keeps g i (no_memory, system) free = record {
    sum = v.sum;
    bounded = v.bounded;
    word = v.word;
  }
  settle_tenant-Keeps g i (not_found, system) free = record {
    sum = v.sum;
    bounded = v.bounded;
    word = v.word;
  }
  settle_tenant-Keeps g i (overbooked, system) free = record {
    sum = v.sum;
    bounded = v.bounded;
    word = v.word;
  }
  settle_tenant-Keeps g i (no_work, system) free = record {
    sum = v.sum;
    bounded = v.bounded;
    word = v.word;
  }
  settle_tenant-Keeps g i (has_backlog, system) free = record {
    sum = v.sum;
    bounded = v.bounded;
    word = v.word;
  }
  settle_tenant-Keeps g i (internal, system) free = record {
    sum = v.sum;
    bounded = v.bounded;
    word = v.word;
  }

  enter_tenant-Keeps :
      (g : GroupScheduler) (r : Status × Option ℕ × ChunkedEntries) → Keeps s (enter_tenant s a g r)
  unfolding enter_tenant
  enter_tenant-Keeps g (success, some i, ce) free = settle_tenant-Keeps g i _ free
  enter_tenant-Keeps g (success, none, ce) free = v
  enter_tenant-Keeps g (invalid_arg, i, ce) free = v
  enter_tenant-Keeps g (no_memory, i, ce) free = v
  enter_tenant-Keeps g (not_found, i, ce) free = v
  enter_tenant-Keeps g (overbooked, i, ce) free = v
  enter_tenant-Keeps g (no_work, i, ce) free = v
  enter_tenant-Keeps g (has_backlog, i, ce) free = v
  enter_tenant-Keeps g (internal, i, ce) free = v

  equip_tenant-Keeps :
      (mem : ℕ → Bool) (o : Option GroupScheduler) → Keeps s (equip_tenant mem s a o)
  unfolding equip_tenant
  equip_tenant-Keeps mem none free = v
  equip_tenant-Keeps mem (some g) free = enter_tenant-Keeps g _ free

hwfq_add_tenant-Keeps :
    (mem : ℕ → Bool) (s : Scheduler) (a : Allocation)
    → IsRated s
    → rate_in a + s.config.total_capacity < 2 ^ 64
    → Keeps s (hwfq_add_tenant mem s a)
unfolding hwfq_add_tenant
hwfq_add_tenant-Keeps mem s a v small =
    if_both (Keeps s) (validate_allocation a) _ _
      (if_both (Keeps s) (has_free_slot s s.config.max_tenants 0) _ _
        (elim (Bool-cases (would_exceed_capacity s a none)) [
          | inl over ↦ rw over (λ free. v)
          | inr fits ↦ rw fits (
              if_both (Keeps s) (mem 0) _ _ (equip_tenant-Keeps s a v small fits mem _) (λ free. v))
        ])
        (λ free. v))
      (λ free. v)

remove_found-IsRated :
    (s : Scheduler) (i : ℕ) (t : Tenant)
    → IsRated s
    → tenant_at s i ≡ some t
    → t.configured ≡ true
    → IsRated (remove_found s (some t) i).1
unfolding remove_found remove_tenant
remove_found-IsRated s i t v there c =
    if_both (λ (r : Status × Scheduler). IsRated (r.1)) t.has_backlog _ _ v
      (let h = held_rate s i t v there c in
        let k =
          without_rate s.allocated_rate_capacity s.config.total_capacity t.allocation
            (omega (arith, v.bounded, v.word)) h.1 in
        rw c (record {
          sum = omega (arith, k, v.sum, h.2 none);
          bounded = omega (arith, k, v.bounded);
          word = v.word;
        }))

hwfq_remove_tenant-IsRated :
    (s : Scheduler) (i : ℕ) → IsRated s → IsRated (hwfq_remove_tenant s i).1
unfolding hwfq_remove_tenant
hwfq_remove_tenant-IsRated s i v =
    if_both (λ (r : Status × Scheduler). IsRated (r.1)) (leb s.config.max_tenants i) _ _ v
      (by_tenant (find_tenant s i) refl)
  where
    by_tenant : (o : Option Tenant) → find_tenant s i ≡ o → IsRated (remove_found s o i).1
    by_tenant none q = unfold remove_found in v
    by_tenant (some t) q =
        let p = configured_of_find s i t q in remove_found-IsRated s i t v p.0 p.1

-- Adding a tenant, giving it another allocation and removing it keep the record of the rates right:
-- `allocated_rate_capacity` is the sum of the rates of the tenants, and at most the capacity. The new
-- rate and the capacity add up to a 64-bit word, and the pool gives out the id of a slot without a
-- tenant.
pub tenants-IsRated :
    (mem : ℕ → Bool) (s : Scheduler) (tenant_id : ℕ) (a : Allocation)
    → IsRated s
    → rate_in a + s.config.total_capacity < 2 ^ 64
    → GivesFreeSlot s (hwfq_add_tenant mem s a)
    → IsRated (hwfq_add_tenant mem s a).2
      × IsRated (hwfq_configure_tenant s tenant_id a).1
      × IsRated (hwfq_remove_tenant s tenant_id).1
tenants-IsRated mem s i a v small free = (
  hwfq_add_tenant-Keeps mem s a v small free,
  hwfq_configure_tenant-IsRated s i a v small,
  hwfq_remove_tenant-IsRated s i v,
)
