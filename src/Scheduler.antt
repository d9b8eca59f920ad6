-- ===== src/Scheduler.antt =====
-- The hierarchical scheduler: its state (`hwfq_scheduler_t` of src/hwfq_internal.h and the
-- configuration of include/hwfq.h) and the helpers of src/hwfq_scheduler.c. The scheduler's lock is
-- held throughout a call but for the callbacks at its end, so each function is one step; the
-- callbacks are part of its result.
pub mod Queue
pub mod Serve
pub mod Finish
pub mod Accounts
pub mod Flight
pub mod Expire
pub mod Refuse
pub mod Choice
pub mod Sample
mod Tests
pub mod Leave
use hwfq_scheduler.Base.{
  ℕ, ◌+◌, ◌-◌, ◌%◌, ◌^◌, Bool, true, false, Option, none, some, List, ltb, leb, ◌==◌, if◌then◌else◌,
  get_or, set,
}
use hwfq_scheduler.Types.{
  Status, success, not_found, UserData, tenant, Allocation, Stats, EffectiveRate, measured,
  RateTracking, Entry, Session,
}
use hwfq_scheduler.Calendar.{Calendar}
use hwfq_scheduler.Chunked.{ChunkedEntries, get, put}
use hwfq_scheduler.Group.{GroupScheduler, add64, sub64, add32, sub32}
use hwfq_scheduler.Group.Queue.{enqueue}
use hwfq_scheduler.InFlight.{InFlight}

-- `hwfq_config_t`, less the allocator: of the callbacks, whether they are set.
pub record Config : Type 0 where
  pub max_tenants : ℕ
  pub max_flows_per_tenant : ℕ
  pub max_total_flows : ℕ
  pub num_groups : ℕ
  pub bins_per_group : ℕ
  pub total_capacity : ℕ
  pub enable_statistics : Bool
  pub session_available_fn : Bool
  pub session_timeout_fn : Bool

-- `tenant_config_t`. Its pool of entries, `flow_entries`, is the one that its flow scheduler reaches:
-- `flow_scheduler.entries`. `tenant_session` is the address of its session in the system scheduler.
pub record Tenant : Type 0 where
  pub tenant_id : ℕ
  pub allocation : Allocation
  pub configured : Bool
  pub flow_scheduler : GroupScheduler
  pub has_backlog : Bool
  pub tenant_session : Option ℕ
  pub stats : Stats
  pub rate_tracking : RateTracking

-- `hwfq_scheduler_t`; `tenant_entries` is `system_scheduler.entries`.
pub record Scheduler : Type 0 where
  pub config : Config
  pub tenants : List (Option Tenant)
  pub num_configured_tenants : ℕ
  pub total_active_flows : ℕ
  pub allocated_rate_capacity : ℕ
  pub system_scheduler : GroupScheduler
  pub in_flight_work_size : ℕ
  pub in_flight_count : ℕ
  pub in_flight : InFlight

-- What surrounds a call: the answers of the allocator, an address or NULL, and the readings of the
-- monotonic clock, each by its place in the function's text.
pub record Surroundings : Type 0 where
  pub memory : ℕ → Option ℕ
  pub clock : ℕ → ℕ

-- `scheduler->tenants[tenant_id]`, a pointer to a tenant.
abbrev pub tenant_at : Scheduler → ℕ → Option Tenant
tenant_at s tenant_id = get_or s.tenants tenant_id none

-- A store to the tenant that the pointer at the index points to.
abbrev pub set_tenant : Scheduler → ℕ → Tenant → Scheduler
set_tenant s tenant_id t = record s { tenants = set s.tenants tenant_id (some t) }

abbrev pub configured_only : Option Tenant → Option Tenant
configured_only none = none
configured_only (some t) = if t.configured then some t else none

-- The tenant at the index, if there is one and it is configured.
unfoldable pub find_tenant : Scheduler → ℕ → Option Tenant
find_tenant s tenant_id = configured_only (tenant_at s tenant_id)

abbrev pub rate_window_ns : ℕ
rate_window_ns = 1000000000

-- `elapsed > 0` as a guard of the division.
abbrev pub rated : ℕ → ℕ → Stats → Stats
rated work elapsed stats =
    if ltb 0 elapsed then record stats { effective_rate = measured work elapsed } else stats

-- `update_tenant_rate_tracking` and `update_entry_rate_tracking`, which differ in what they are given.
unfoldable pub update_rate_tracking :
    RateTracking → Stats → (work_size now_ns : ℕ) → RateTracking × Stats
update_rate_tracking rt stats work_size now_ns =
    let elapsed = sub64 now_ns rt.window_start_ns in
    let started : RateTracking = record {
      window_start_ns = now_ns;
      window_work_units = work_size;
    } in
    let work = add64 rt.window_work_units work_size in
    if rt.window_start_ns == 0
    then (started, stats)
    else if leb rate_window_ns elapsed
    then (started, rated rt.window_work_units elapsed stats)
    else (record rt { window_work_units = work }, rated work elapsed stats)

unfoldable pub update_tenant_rate_tracking : Tenant → (work_size now_ns : ℕ) → Tenant
update_tenant_rate_tracking t work_size now_ns =
    let r = update_rate_tracking t.rate_tracking t.stats work_size now_ns in
    record t { rate_tracking = r.0; stats = r.1 }

unfoldable pub update_entry_rate_tracking : Entry → (work_size now_ns : ℕ) → Entry
update_entry_rate_tracking e work_size now_ns =
    let r = update_rate_tracking e.rate_tracking e.stats work_size now_ns in
    record e { rate_tracking = r.0; stats = r.1 }

abbrev pub if_configured_entry : Option Entry → Option Entry
if_configured_entry none = none
if_configured_entry (some e) = if e.configured then some e else none

-- `find_flow_entry`
unfoldable pub find_flow_entry : Tenant → ℕ → Option Entry
find_flow_entry t flow_id = if_configured_entry (get t.flow_scheduler.entries flow_id)

abbrev pub found_status : Option Entry → Status
found_status none = not_found
found_status (some e) = success

-- `ensure_flow_entry`
unfoldable pub ensure_flow_entry : Tenant → ℕ → Status
ensure_flow_entry t flow_id = found_status (find_flow_entry t flow_id)

-- A change of the entry that `find_flow_entry` returns, where it returns one.
abbrev pub change_entry : (Entry → Entry) → Tenant → ℕ → Option Entry → Tenant
change_entry f t flow_id none = t
change_entry f t flow_id (some e) = record t {
  flow_scheduler = record (t.flow_scheduler) {
    entries = put t.flow_scheduler.entries flow_id (f e);
  };
}

unfoldable pub with_flow_entry : (Entry → Entry) → Tenant → ℕ → Tenant
with_flow_entry f t flow_id = change_entry f t flow_id (find_flow_entry t flow_id)

-- `TENANT_QUANTUM_SIZE`
abbrev pub tenant_quantum_size : ℕ
tenant_quantum_size = 4096

abbrev pub registered :
    Tenant → Option ℕ → Status × GroupScheduler → Status × Tenant × GroupScheduler
registered t address (success, g) =
    (success, record t { has_backlog = true; tenant_session = address }, g)
registered t address (status, g) = (status, t, g)

-- `register_tenant_backlog`, on the tenant and the system scheduler.
unfoldable pub register_tenant_backlog :
    Tenant → GroupScheduler → (now_ns : ℕ) → Option ℕ → Status × Tenant × GroupScheduler
register_tenant_backlog t system now_ns mem =
    if t.has_backlog
    then (success, t, system)
    else registered t mem
        (enqueue system t.tenant_id tenant_quantum_size (tenant t.tenant_id) now_ns mem)
