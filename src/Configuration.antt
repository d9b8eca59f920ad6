-- ===== src/Configuration.antt =====
-- src/hwfq_config.c: the set-up and the end of a scheduler, and what its parts share. `mem i` says
-- whether the i-th allocation in the function's text succeeds. The tests for a NULL argument are not
-- modelled.
pub mod Tenants
pub mod Flows
pub mod Stats
pub mod Flight
pub mod Rates
pub mod RatesKept
pub mod Destroy
pub mod Ledger
pub mod Reset
mod Tests
mod LedgerTests
use hwfq_scheduler.Base.{
  ℕ, zero, suc, ◌+◌, ◌-◌, ◌%◌, ◌^◌, Bool, true, false, Option, none, some, List, [], ◌∷◌, ◌++◌, ltb,
  leb, ◌==◌, if◌then◌else◌, replicate,
}
use hwfq_scheduler.Types.{
  Status, success, invalid_arg, no_memory, Allocation, weight, rate, Session,
}
use hwfq_scheduler.Chunked.{init}
use hwfq_scheduler.Group.{GroupScheduler, init_with_entries, is_zero, add64, sub64, sub32}
use hwfq_scheduler.Group.Queue.{freed_by_destroy}
use hwfq_scheduler.InFlight.{InFlightEntry, hash_buckets}
use hwfq_scheduler.Scheduler.{Config, Tenant, Scheduler, tenant_at}

-- `validate_allocation`; the tag of an `Allocation` is valid.
unfoldable pub validate_allocation : Allocation → Bool
validate_allocation a = if is_zero a then false else true

-- `current_allocated` of `would_exceed_capacity`
abbrev pub allocated_without : ℕ → Option Allocation → ℕ
allocated_without allocated none = allocated
allocated_without allocated (some (rate r)) = sub64 allocated r
allocated_without allocated (some (weight w)) = allocated

unfoldable pub would_exceed_capacity : Scheduler → Allocation → Option Allocation → Bool
would_exceed_capacity s (weight w) old = false
would_exceed_capacity s (rate r) old =
    ltb s.config.total_capacity (add64 (allocated_without s.allocated_rate_capacity old) r)

abbrev pub reserved_rate : Tenant → ℕ → ℕ
reserved_rate t allocated =
    if t.configured then allocated_without allocated (some t.allocation) else allocated

abbrev pub fewer_flows : ℕ → (configured : ℕ) → ℕ
fewer_flows total configured =
    if ltb 0 configured
    then if leb (configured - 1) total then total - (configured - 1) else 0
    else total

-- What `remove_tenant` does to the scheduler; it frees the tenant.
unfoldable pub remove_tenant : Scheduler → Tenant → Scheduler
remove_tenant s t = record s {
  total_active_flows = fewer_flows s.total_active_flows t.flow_scheduler.entries.num_configured;
  allocated_rate_capacity = reserved_rate t s.allocated_rate_capacity;
}

-- `HWFQ_DEFAULT_NUM_GROUPS` and `HWFQ_DEFAULT_BINS_PER_GROUP`
abbrev pub with_defaults : Config → Config
with_defaults config = record config {
  num_groups = (if config.num_groups == 0 then 16 else config.num_groups);
  bins_per_group = (if config.bins_per_group == 0 then 2048 else config.bins_per_group);
}

abbrev pub fresh : Config → GroupScheduler → Scheduler
fresh config system = record {
  config = config;
  tenants = replicate config.max_tenants none;
  num_configured_tenants = 0;
  total_active_flows = 0;
  allocated_rate_capacity = 0;
  system_scheduler = system;
  in_flight_work_size = 0;
  in_flight_count = 0;
  in_flight = record { hash = replicate hash_buckets []; entries = [] };
}

unfoldable pub with_hash : Bool → Config → Option GroupScheduler → Status × Option Scheduler
with_hash mem config none = (no_memory, none)
with_hash true config (some system) = (success, some (fresh config system))
with_hash false config (some system) = (no_memory, none)

unfoldable pub init_configured : (ℕ → Bool) → Config → Status × Option Scheduler
init_configured mem config = with_hash (mem 5) config (
    init_with_entries (λ i. mem (2 + i)) config.num_groups config.bins_per_group
      config.total_capacity config.max_tenants (init config.max_tenants))

-- Its allocations: 0 the scheduler, 1 the tenants, 2 to 4 the system scheduler, 5 the hash table.
unfoldable pub hwfq_init : (ℕ → Bool) → Config → Status × Option Scheduler
hwfq_init mem config =
    if config.max_tenants == 0
    then (invalid_arg, none)
    else if config.max_flows_per_tenant == 0
    then (invalid_arg, none)
    else if config.total_capacity == 0
    then (invalid_arg, none)
    else if mem 0
    then if mem 1 then init_configured mem (with_defaults config) else (no_memory, none)
    else (no_memory, none)

abbrev pub flow_sessions_of : Option Tenant → List Session
flow_sessions_of none = []
flow_sessions_of (some t) = freed_by_destroy t.flow_scheduler

-- The loop of `hwfq_destroy` over the tenants, with the number of tenants to go: the sessions that
-- are freed, each after its clean-up.
unfoldable pub destroy_tenants : Scheduler → (left i : ℕ) → List Session
destroy_tenants s zero i = []
destroy_tenants s (suc left) i = flow_sessions_of (tenant_at s i) ++ destroy_tenants s left (suc i)

-- The sessions and the in-flight entries that `hwfq_destroy` frees, in its order.
pub record Destroyed : Type 0 where
  pub system_sessions : List Session
  pub flow_sessions : List Session
  pub in_flight_entries : List InFlightEntry

unfoldable pub hwfq_destroy : Scheduler → Destroyed
hwfq_destroy s = record {
  system_sessions = freed_by_destroy s.system_scheduler;
  flow_sessions = destroy_tenants s s.config.max_tenants 0;
  in_flight_entries = s.in_flight.entries;
}

-- `hwfq_capacity_info_t`, less the percentage, a double.
pub record CapacityInfo : Type 0 where
  pub total_capacity : ℕ
  pub allocated_capacity : ℕ
  pub available_capacity : ℕ
  pub num_configured_tenants : ℕ
  pub num_active_flows : ℕ

unfoldable pub hwfq_get_capacity_info : Scheduler → CapacityInfo
hwfq_get_capacity_info s = record {
  total_capacity = s.config.total_capacity;
  allocated_capacity = s.allocated_rate_capacity;
  available_capacity = sub64 s.config.total_capacity s.allocated_rate_capacity;
  num_configured_tenants = s.num_configured_tenants;
  num_active_flows = s.total_active_flows;
}
