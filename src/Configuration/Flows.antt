-- ===== src/Configuration/Flows.antt =====
-- The flows of src/hwfq_config.c: `hwfq_add_flow`, `hwfq_remove_flow` and `hwfq_reconfigure_flow`.
use hwfq_scheduler.Base.{ℕ, ◌-◌, Bool, ◌&&◌, Option, none, some, ltb, leb, ◌==◌, if◌then◌else◌}
use hwfq_scheduler.Types.{
  Status, success, invalid_arg, no_memory, not_found, has_backlog, Allocation, Entry,
}
use hwfq_scheduler.Chunked.{ChunkedEntries, alloc, free}
use hwfq_scheduler.Group.{GroupScheduler, configure_entry, remove_entry, add32}
use hwfq_scheduler.Scheduler.{Tenant, Scheduler, set_tenant, find_tenant, find_flow_entry}
use hwfq_scheduler.Configuration.{validate_allocation}
use hwfq_scheduler.Configuration.Tenants.{Adding}

abbrev pub with_flows : Tenant → GroupScheduler → ChunkedEntries → Tenant
with_flows t g ce = record t { flow_scheduler = record g { entries = ce } }

-- On the result of configuring the flow's entry.
unfoldable pub settle_flow :
    Scheduler → Tenant → (tenant_id flow_id : ℕ) → Status × GroupScheduler → Adding
settle_flow s t tenant_id flow_id (success, g) = (
  success,
  some flow_id,
  set_tenant (record s { total_active_flows = add32 s.total_active_flows 1 }) tenant_id
      (record t { flow_scheduler = g }),
)
settle_flow s t tenant_id flow_id (status, g) =
    (status, none, set_tenant s tenant_id (with_flows t g (free g.entries flow_id)))

-- On the result of the allocation of the flow's entry.
unfoldable pub enter_flow :
    Scheduler → Tenant → ℕ → Allocation → Status × Option ℕ × ChunkedEntries → Adding
enter_flow s t tenant_id a (success, some i, ce) =
    settle_flow s t tenant_id i (configure_entry (record (t.flow_scheduler) { entries = ce }) i a)
enter_flow s t tenant_id a (status, i, ce) =
    (no_memory, none, set_tenant s tenant_id (with_flows t t.flow_scheduler ce))

unfoldable pub add_flow_to : (ℕ → Bool) → Scheduler → Option Tenant → ℕ → Allocation → Adding
add_flow_to mem s none tenant_id a = (not_found, none, s)
add_flow_to mem s (some t) tenant_id a =
    if ltb 0 s.config.max_total_flows && leb s.config.max_total_flows s.total_active_flows
    then (no_memory, none, s)
    else enter_flow s t tenant_id a (alloc mem t.flow_scheduler.entries)

unfoldable pub hwfq_add_flow : (ℕ → Bool) → Scheduler → ℕ → Allocation → Adding
hwfq_add_flow mem s tenant_id a =
    if leb s.config.max_tenants tenant_id
    then (invalid_arg, none, s)
    else if validate_allocation a
    then add_flow_to mem s (find_tenant s tenant_id) tenant_id a
    else (invalid_arg, none, s)

-- The tenant without the flow.
abbrev pub without_flow : Tenant → ℕ → Tenant
without_flow t flow_id =
    let g = (remove_entry t.flow_scheduler flow_id).1 in with_flows t g (free g.entries flow_id)

unfoldable pub remove_flow_entry :
    Scheduler → Tenant → (tenant_id flow_id : ℕ) → Option Entry → Status × Scheduler
remove_flow_entry s t tenant_id flow_id none = (not_found, s)
remove_flow_entry s t tenant_id flow_id (some e) =
    if ltb 0 e.stats.current_backlog then (has_backlog, s) else (
      success,
      set_tenant
          (record s {
            total_active_flows =
                (if ltb 0 s.total_active_flows then s.total_active_flows - 1 else 0);
          })
          tenant_id (without_flow t flow_id),
    )

unfoldable pub remove_flow_of :
    Scheduler → Option Tenant → (tenant_id flow_id : ℕ) → Status × Scheduler
remove_flow_of s none tenant_id flow_id = (not_found, s)
remove_flow_of s (some t) tenant_id flow_id =
    remove_flow_entry s t tenant_id flow_id (find_flow_entry t flow_id)

unfoldable pub hwfq_remove_flow : Scheduler → (tenant_id flow_id : ℕ) → Status × Scheduler
hwfq_remove_flow s tenant_id flow_id =
    if leb s.config.max_tenants tenant_id
    then (invalid_arg, s)
    else remove_flow_of s (find_tenant s tenant_id) tenant_id flow_id

abbrev pub store_flows : Scheduler → Tenant → ℕ → Status × GroupScheduler → Status × Scheduler
store_flows s t tenant_id (status, g) =
    (status, set_tenant s tenant_id (record t { flow_scheduler = g }))

unfoldable pub reconfigure_flow_entry :
    Scheduler → Tenant → (tenant_id flow_id : ℕ) → Allocation → Option Entry → Status × Scheduler
reconfigure_flow_entry s t tenant_id flow_id a none = (not_found, s)
reconfigure_flow_entry s t tenant_id flow_id a (some e) =
    store_flows s t tenant_id (configure_entry t.flow_scheduler flow_id a)

unfoldable pub reconfigure_flow_of :
    Scheduler → Option Tenant → (tenant_id flow_id : ℕ) → Allocation → Status × Scheduler
reconfigure_flow_of s none tenant_id flow_id a = (not_found, s)
reconfigure_flow_of s (some t) tenant_id flow_id a =
    reconfigure_flow_entry s t tenant_id flow_id a (find_flow_entry t flow_id)

unfoldable pub hwfq_reconfigure_flow :
    Scheduler → (tenant_id flow_id : ℕ) → Allocation → Status × Scheduler
hwfq_reconfigure_flow s tenant_id flow_id a =
    if flow_id == 0
    then (invalid_arg, s)
    else if leb s.config.max_tenants tenant_id
    then (invalid_arg, s)
    else if validate_allocation a
    then reconfigure_flow_of s (find_tenant s tenant_id) tenant_id flow_id a
    else (invalid_arg, s)
