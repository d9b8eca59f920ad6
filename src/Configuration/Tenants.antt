-- ===== src/Configuration/Tenants.antt =====
-- The tenants of src/hwfq_config.c: `hwfq_add_tenant`, `hwfq_configure_tenant` and
-- `hwfq_remove_tenant`.
use hwfq_scheduler.Base.{
  ℕ, zero, suc, ◌+◌, Bool, true, false, Option, none, some, leb, if◌then◌else◌, set,
}
use hwfq_scheduler.Types.{
  Status, success, invalid_arg, no_memory, not_found, overbooked, has_backlog, Allocation, weight,
  rate, Entry, zero_stats, zero_tracking,
}
use hwfq_scheduler.Chunked.{ChunkedEntries, init, get, put, alloc, free}
use hwfq_scheduler.Group.{
  GroupScheduler, init_with_entries, configure_entry, remove_entry, add64, add32, sub32,
}
use hwfq_scheduler.Scheduler.{Tenant, Scheduler, tenant_at, set_tenant, find_tenant}
use hwfq_scheduler.Configuration.{
  validate_allocation, allocated_without, would_exceed_capacity, remove_tenant,
}

-- The search for a slot without a tenant, with the number of slots to go.
unfoldable pub has_free_slot : Scheduler → (left i : ℕ) → Bool
has_free_slot s zero i = false
has_free_slot s (suc left) i =
    let rest = has_free_slot s left (suc i) in elim (tenant_at s i) [ none ↦ true | some t ↦ rest ]

abbrev pub unconfigure_at : ChunkedEntries → ℕ → Option Entry → ChunkedEntries
unconfigure_at ce i none = ce
unconfigure_at ce i (some e) = put ce i (record e { configured = false })

abbrev pub if_reserved : Status × Option ℕ × ChunkedEntries → ChunkedEntries
if_reserved (success, some i, ce) = unconfigure_at ce i (get ce i)
if_reserved (status, i, ce) = ce

-- The pool of a new tenant; its flow 0 is taken.
unfoldable pub flow_pool : (ℕ → Bool) → Scheduler → ChunkedEntries
flow_pool mem s = if_reserved (alloc mem (init (add32 s.config.max_flows_per_tenant 1)))

abbrev pub tenant_capacity : Scheduler → Allocation → ℕ
tenant_capacity s (rate r) = r
tenant_capacity s (weight w) = s.config.total_capacity

abbrev pub fresh_tenant : ℕ → Allocation → GroupScheduler → Tenant
fresh_tenant tenant_id a g = record {
  tenant_id = tenant_id;
  allocation = a;
  configured = true;
  flow_scheduler = g;
  has_backlog = false;
  tenant_session = none;
  stats = zero_stats;
  rate_tracking = zero_tracking;
}

abbrev pub more_rate : ℕ → Allocation → ℕ
more_rate allocated (rate r) = add64 allocated r
more_rate allocated (weight w) = allocated

abbrev pub with_entries : Scheduler → ChunkedEntries → Scheduler
with_entries s ce = record s { system_scheduler = record (s.system_scheduler) { entries = ce } }

-- The status, the id of the new tenant or flow, and the scheduler.
abbrev pub Adding : Type 0
Adding = Status × Option ℕ × Scheduler

-- On the result of configuring the tenant's entry in the system scheduler.
unfoldable pub settle_tenant :
    Scheduler → Allocation → GroupScheduler → ℕ → Status × GroupScheduler → Adding
settle_tenant s a g tenant_id (success, system) = (
  success,
  some tenant_id,
  record s {
    system_scheduler = system;
    tenants = set s.tenants tenant_id (some (fresh_tenant tenant_id a g));
    num_configured_tenants = add32 s.num_configured_tenants 1;
    allocated_rate_capacity = more_rate s.allocated_rate_capacity a;
  },
)
settle_tenant s a g tenant_id (status, system) = (
  status,
  none,
  with_entries (record s { system_scheduler = system }) (free system.entries tenant_id),
)

-- On the result of the allocation of the tenant's entry.
unfoldable pub enter_tenant :
    Scheduler → Allocation → GroupScheduler → Status × Option ℕ × ChunkedEntries → Adding
enter_tenant s a g (success, some i, ce) =
    settle_tenant s a g i (configure_entry (record (s.system_scheduler) { entries = ce }) i a)
enter_tenant s a g (status, i, ce) = (no_memory, none, with_entries s ce)

unfoldable pub equip_tenant : (ℕ → Bool) → Scheduler → Allocation → Option GroupScheduler → Adding
equip_tenant mem s a none = (no_memory, none, s)
equip_tenant mem s a (some g) =
    enter_tenant s a g (alloc (λ i. mem (6 + i)) s.system_scheduler.entries)

-- Its allocations: 0 the tenant, 1 and 2 its pool, 3 to 5 its scheduler, 6 and 7 the system's pool.
unfoldable pub hwfq_add_tenant : (ℕ → Bool) → Scheduler → Allocation → Adding
hwfq_add_tenant mem s a =
    if validate_allocation a
    then if has_free_slot s s.config.max_tenants 0
      then if would_exceed_capacity s a none
        then (overbooked, none, s)
        else if mem 0
        then equip_tenant mem s a (
            init_with_entries (λ i. mem (3 + i)) s.config.num_groups s.config.bins_per_group
              (tenant_capacity s a) (add32 s.config.max_flows_per_tenant 1)
              (flow_pool (λ i. mem (1 + i)) s))
        else (no_memory, none, s)
      else (no_memory, none, s)
    else (invalid_arg, none, s)

-- The result of `group_scheduler_configure_entry` is ignored.
unfoldable pub configure_found : Scheduler → Option Tenant → ℕ → Allocation → Status × Scheduler
configure_found s none tenant_id a = (not_found, s)
configure_found s (some t) tenant_id a =
    if would_exceed_capacity s a (some t.allocation) then (overbooked, s) else (
      success,
      set_tenant
          (record s {
            allocated_rate_capacity =
                more_rate (allocated_without s.allocated_rate_capacity (some t.allocation)) a;
            system_scheduler = (configure_entry s.system_scheduler tenant_id a).1;
          })
          tenant_id (record t { allocation = a }),
    )

unfoldable pub hwfq_configure_tenant : Scheduler → ℕ → Allocation → Status × Scheduler
hwfq_configure_tenant s tenant_id a =
    if leb s.config.max_tenants tenant_id
    then (invalid_arg, s)
    else if validate_allocation a
    then configure_found s (find_tenant s tenant_id) tenant_id a
    else (invalid_arg, s)

-- The tenant's entry goes back to the pool.
abbrev pub without_entry : Scheduler → ℕ → Scheduler
without_entry s tenant_id =
    let system = (remove_entry s.system_scheduler tenant_id).1 in
    with_entries (record s { system_scheduler = system }) (free system.entries tenant_id)

unfoldable pub remove_found : Scheduler → Option Tenant → ℕ → Status × Scheduler
remove_found s none tenant_id = (not_found, s)
remove_found s (some t) tenant_id = if t.has_backlog then (has_backlog, s) else (
  success,
  record (remove_tenant (without_entry s tenant_id) t) {
    tenants = set s.tenants tenant_id none;
    num_configured_tenants = sub32 s.num_configured_tenants 1;
  },
)

unfoldable pub hwfq_remove_tenant : Scheduler → ℕ → Status × Scheduler
hwfq_remove_tenant s tenant_id =
    if leb s.config.max_tenants tenant_id
    then (invalid_arg, s)
    else remove_found s (find_tenant s tenant_id) tenant_id
