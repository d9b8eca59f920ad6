-- ===== src/Configuration/Stats.antt =====
-- The statistics of src/hwfq_config.c: the two readers and `hwfq_reset_stats`.
use hwfq_scheduler.Base.{ℕ, zero, suc, Option, none, some, List, map, ltb, leb, ◌==◌, if◌then◌else◌}
use hwfq_scheduler.Types.{
  u32_max, Status, success, invalid_arg, not_found, Stats, zero_stats, zero_tracking, Entry,
}
use hwfq_scheduler.Chunked.{ChunkedEntries, get, put}
use hwfq_scheduler.Scheduler.{
  Tenant, Scheduler, tenant_at, set_tenant, find_tenant, find_flow_entry,
}

abbrev pub stats_of_tenant : Option Tenant → Status × Option Stats
stats_of_tenant none = (not_found, none)
stats_of_tenant (some t) = (success, some t.stats)

-- It does not ask whether the tenant is configured.
unfoldable pub hwfq_get_tenant_stats : Scheduler → ℕ → Status × Option Stats
hwfq_get_tenant_stats s tenant_id =
    if leb s.config.max_tenants tenant_id
    then (invalid_arg, none)
    else stats_of_tenant (tenant_at s tenant_id)

abbrev pub stats_of_entry : Option Entry → Status × Option Stats
stats_of_entry none = (not_found, none)
stats_of_entry (some e) = (success, some e.stats)

abbrev pub stats_of_flow : Option Tenant → ℕ → Status × Option Stats
stats_of_flow none flow_id = (not_found, none)
stats_of_flow (some t) flow_id = stats_of_entry (find_flow_entry t flow_id)

unfoldable pub hwfq_get_flow_stats : Scheduler → (tenant_id flow_id : ℕ) → Status × Option Stats
hwfq_get_flow_stats s tenant_id flow_id =
    if leb s.config.max_tenants tenant_id
    then (invalid_arg, none)
    else stats_of_flow (find_tenant s tenant_id) flow_id

-- All but the backlog is 0.
abbrev pub cleared_stats : Stats → Stats
cleared_stats st = record zero_stats { current_backlog = st.current_backlog }

unfoldable pub reset_tenant_stats : Tenant → Tenant
reset_tenant_stats t = record t { stats = cleared_stats t.stats; rate_tracking = zero_tracking }

unfoldable pub reset_flow_stats : Entry → Entry
reset_flow_stats e =
    if e.configured
    then record e { stats = cleared_stats e.stats; rate_tracking = zero_tracking }
    else e

abbrev pub reset_slots : Option (List Entry) → Option (List Entry)
reset_slots none = none
reset_slots (some slots) = some (map reset_flow_stats slots)

abbrev pub with_pool : Tenant → ChunkedEntries → Tenant
with_pool t ce = record t { flow_scheduler = record (t.flow_scheduler) { entries = ce } }

-- The loops over the chunks and their slots.
unfoldable pub reset_all_flow_stats : Tenant → Tenant
reset_all_flow_stats t =
    let ce = t.flow_scheduler.entries in
    with_pool t (record ce { chunks = map reset_slots ce.chunks })

abbrev pub reset_tenant : Scheduler → ℕ → Option Tenant → Scheduler
reset_tenant s tenant_id none = s
reset_tenant s tenant_id (some t) =
    set_tenant s tenant_id (reset_all_flow_stats (reset_tenant_stats t))

-- The loop over all tenants, with the number of tenants to go.
unfoldable pub reset_from : Scheduler → (left i : ℕ) → Scheduler
reset_from s zero i = s
reset_from s (suc left) i = reset_from (reset_tenant s i (find_tenant s i)) left (suc i)

abbrev pub reset_entry : Scheduler → Tenant → (tenant_id flow_id : ℕ) → Option Entry → Scheduler
reset_entry s t tenant_id flow_id none = s
reset_entry s t tenant_id flow_id (some e) =
    set_tenant s tenant_id (with_pool t (put t.flow_scheduler.entries flow_id (reset_flow_stats e)))

abbrev pub reset_flow_of : Scheduler → Option Tenant → (tenant_id flow_id : ℕ) → Scheduler
reset_flow_of s none tenant_id flow_id = s
reset_flow_of s (some t) tenant_id flow_id =
    reset_entry s t tenant_id flow_id (get t.flow_scheduler.entries flow_id)

-- `u32_max` is `HWFQ_ALL_TENANTS` and `HWFQ_ALL_FLOWS`.
unfoldable pub hwfq_reset_stats : Scheduler → (tenant_id flow_id : ℕ) → Scheduler
hwfq_reset_stats s tenant_id flow_id =
    if tenant_id == u32_max
    then reset_from s s.config.max_tenants 0
    else if ltb tenant_id s.config.max_tenants
    then if flow_id == u32_max
      then reset_tenant s tenant_id (find_tenant s tenant_id)
      else reset_flow_of s (find_tenant s tenant_id) tenant_id flow_id
    else s
