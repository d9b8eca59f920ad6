-- ===== src/System/PassageTests.antt =====
-- Work passing through a scheduler with one idle tenant.
use hwfq_scheduler.Base.{◌+◌, ◌^◌, ◌≡◌, refl, true, false, some, none, [], ◌∷◌, arith, replicate}
use hwfq_scheduler.Types.{success, rate, Entry, zero_stats, zero_tracking, tenant, flow, u32_max}
use hwfq_scheduler.Calendar.{
  calculate_group_index_from_interval, calculate_bin_index_from_finish_time,
}
use hwfq_scheduler.Chunked.{ChunkedEntries, get, put}
use hwfq_scheduler.Group.{GroupScheduler, find_entry}
use hwfq_scheduler.Group.Queue.{
  new_session, service_interval_of, scaled_work, start_time_of, finish_time_of,
}
use hwfq_scheduler.Group.Ready.{IsReady}
use hwfq_scheduler.Group.Sample.{served, fresh, fresh-IsReady}
use hwfq_scheduler.InFlight.{hash_buckets}
use hwfq_scheduler.Scheduler.{
  Scheduler, Tenant, Surroundings, find_flow_entry, with_flow_entry, tenant_quantum_size,
}
use hwfq_scheduler.Scheduler.Queue.{Work, one_more, both_stats, entry_stats, hwfq_enqueue}
use hwfq_scheduler.Scheduler.Serve.{hwfq_dequeue}
use hwfq_scheduler.System.Intake.{CanTake}
use hwfq_scheduler.System.Passage.{CanPass, context_at, enqueue-dequeue}

-- An entry that a quantum of 4096 takes one unit of virtual time for.
abbrev fast : Entry
fast = record served { allocation = rate (2 ^ 32); calculated_rate = 2 ^ 32 }

abbrev two_entries : ChunkedEntries
two_entries = record {
  chunks = some (fast ∷ served ∷ []) ∷ [];
  num_chunks = 1;
  num_allocated = 2;
  num_configured = 2;
  free_head = u32_max;
  max_entries = 4;
}

abbrev with_two : GroupScheduler
with_two = record fresh { entries = two_entries }

with_two-IsReady : IsReady with_two
with_two-IsReady = record {
  calendar = fresh-IsReady.calendar;
  timed = fresh-IsReady.timed;
  counted = fresh-IsReady.counted;
}

abbrev guest : Tenant
guest = record {
  tenant_id = 0;
  allocation = rate (2 ^ 32);
  configured = true;
  flow_scheduler = with_two;
  has_backlog = false;
  tenant_session = none;
  stats = zero_stats;
  rate_tracking = zero_tracking;
}

abbrev idle : Scheduler
idle = record {
  config = record {
    max_tenants = 1;
    max_flows_per_tenant = 3;
    max_total_flows = 0;
    num_groups = 2;
    bins_per_group = 2;
    total_capacity = 1000;
    enable_statistics = true;
    session_available_fn = false;
    session_timeout_fn = false;
  };
  tenants = some guest ∷ [];
  num_configured_tenants = 1;
  total_active_flows = 1;
  allocated_rate_capacity = 2 ^ 32;
  system_scheduler = with_two;
  in_flight_work_size = 0;
  in_flight_count = 0;
  in_flight = record { hash = replicate hash_buckets []; entries = [] };
}

abbrev around : Surroundings
around = record { memory = λ i. some (200 + i); clock = λ i. 50 + i }

abbrev work : Work
work = record { user_data = 55; work_size = 1; timeout_ns = 0 }

system_takes : CanTake with_two 0 tenant_quantum_size (tenant 0) 52 202
unfolding find_entry get new_session service_interval_of scaled_work start_time_of finish_time_of
    calculate_group_index_from_interval calculate_bin_index_from_finish_time
system_takes = record {
  entry = fast;
  ready = with_two-IsReady;
  idle = refl;
  below = omega arith;
  found = refl;
  has_rate = omega arith;
  fits = omega arith;
  calm = omega arith;
}

flow_takes :
    CanTake
      (both_stats one_more guest 1).flow_scheduler
      1
      1
      (flow (context_at idle 0 1 work around))
      51
      201
unfolding both_stats with_flow_entry find_flow_entry put find_entry get new_session
    service_interval_of scaled_work start_time_of finish_time_of calculate_group_index_from_interval
    calculate_bin_index_from_finish_time
flow_takes = record {
  entry = entry_stats one_more served;
  ready = record {
    calendar = fresh-IsReady.calendar;
    timed = fresh-IsReady.timed;
    counted = fresh-IsReady.counted;
  };
  idle = refl;
  below = omega arith;
  found = refl;
  has_rate = omega arith;
  fits = omega arith;
  calm = omega arith;
}

flow_there : find_flow_entry guest 1 ≡ some served
unfolding find_flow_entry get
flow_there = refl

passes : CanPass idle 0 1 work around around
passes = record {
  t = guest;
  there = refl;
  configured = refl;
  own_id = refl;
  unregistered = refl;
  below = omega arith;
  entry = served;
  flow_found = flow_there;
  context_block = 200;
  context_given = refl;
  flow_block = 201;
  flow_given = refl;
  tenant_block = 202;
  tenant_given = refl;
  entry_block = 202;
  entry_given = refl;
  flow_takes = flow_takes;
  system_takes = system_takes;
  capacity = refl;
}

enqueue-dequeue_example :
    let r = hwfq_dequeue (hwfq_enqueue idle 0 1 work around).2 around in
    (r.0 ≡ success)
    × (r.1
        ≡ some
            (record { user_data = 55; work_size = 1; timestamp = 50; tenant_id = 0; flow_id = 1 }))
enqueue-dequeue_example =
    enqueue-dequeue idle 0 1 work around around passes (omega arith) (omega arith)
