-- ===== src/Scheduler/Sample.antt =====
-- A small scheduler for tests: one tenant, with one piece of work queued.
use hwfq_scheduler.Base.{◌+◌, true, false, some, [], ◌∷◌, replicate}
use hwfq_scheduler.Types.{tenant, flow, FlowSessionContext, rate, zero_stats, zero_tracking}
use hwfq_scheduler.Group.Sample.{queued}
use hwfq_scheduler.InFlight.{hash_buckets}
use hwfq_scheduler.Scheduler.{Scheduler, Tenant, Surroundings}

abbrev pub context : FlowSessionContext
context = record {
  tenant_id = 0;
  flow_id = 0;
  user_data = 55;
  work_size = 1;
  enqueue_time_ns = 0;
  timeout_ns = 0;
}

abbrev pub customer : Tenant
customer = record {
  tenant_id = 0;
  allocation = rate 1000;
  configured = true;
  flow_scheduler = queued (flow context);
  has_backlog = true;
  tenant_session = some 100;
  stats = zero_stats;
  rate_tracking = zero_tracking;
}

abbrev pub busy : Scheduler
busy = record {
  config = record {
    max_tenants = 1;
    max_flows_per_tenant = 4;
    max_total_flows = 0;
    num_groups = 2;
    bins_per_group = 2;
    total_capacity = 1000;
    enable_statistics = true;
    session_available_fn = false;
    session_timeout_fn = false;
  };
  tenants = some customer ∷ [];
  num_configured_tenants = 1;
  total_active_flows = 1;
  allocated_rate_capacity = 1000;
  system_scheduler = queued (tenant 0);
  in_flight_work_size = 0;
  in_flight_count = 0;
  in_flight = record { hash = replicate hash_buckets []; entries = [] };
}

abbrev pub around : Surroundings
around = record { memory = λ i. some (200 + i); clock = λ i. 50 + i }
