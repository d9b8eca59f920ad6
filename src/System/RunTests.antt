-- ===== src/System/RunTests.antt =====
-- A run of the scheduler: a tenant, a flow and a piece of work, from `hwfq_init` on.
use hwfq_scheduler.Base.{ℕ, ◌+◌, true, Bool, ◌≡◌, refl, some, none, [], ◌∷◌, ◌^◌, replicate}
use hwfq_scheduler.Chunked.{init}
use hwfq_scheduler.Group.{GroupScheduler, init_with_entries}
use hwfq_scheduler.Types.{u64_max, success, rate}
use hwfq_scheduler.Scheduler.{Config, Scheduler, Surroundings}
use hwfq_scheduler.Scheduler.Queue.{Work, hwfq_enqueue}
use hwfq_scheduler.Scheduler.Serve.{Delivery, hwfq_dequeue}
use hwfq_scheduler.Configuration.{fresh, with_hash, init_configured, hwfq_init}
use hwfq_scheduler.Configuration.Tenants.{hwfq_add_tenant}
use hwfq_scheduler.Configuration.Flows.{hwfq_add_flow}
use hwfq_scheduler.Word.Field.{set_at}
use hwfq_scheduler.Word.{bit, set_bit_of, clear_bit_of, ctz, each_bit}
use hwfq_scheduler.Calendar.{
  clz, calculate_group_index_from_interval, calculate_bin_index_from_finish_time, insert_sorted,
  bin_list_insert, insert_session,
}
use hwfq_scheduler.Calendar.Search.{
  find_eligible_min_bitfield, search_words, search_groups, search_bins, first_eligible, consider,
  search_twice, update_cache, find_min_session,
}
use hwfq_scheduler.Calendar.Remove.{remove_session}
use hwfq_scheduler.Chunked.{
  encode, get, put, destroy, grow, fill_chunk, allocate_chunk, alloc_new, alloc,
}
use hwfq_scheduler.Group.{
  recalculated, recalculate_at, recalculate_list, recalculate_weight_based_rates, find_entry,
  link_entry, reserve, configure_at, configure_entry,
}
use hwfq_scheduler.Group.Queue.{
  scaled_work, service_interval_of, start_time_of, finish_time_of, new_session, accept, enqueue_for,
  enqueue_at, enqueue, discount, take_found, dequeue, is_empty,
}
use hwfq_scheduler.Scheduler.{
  find_tenant, find_flow_entry, ensure_flow_entry, with_flow_entry, register_tenant_backlog,
}
use hwfq_scheduler.Scheduler.Queue.{both_stats, after_enqueue, enqueue_context, enqueue_tenant}
use hwfq_scheduler.Scheduler.Serve.{
  hand_out, serve, dequeue_flow, dequeue_at, dequeue_from, dequeue_system,
}
use hwfq_scheduler.Configuration.Tenants.{
  has_free_slot, flow_pool, settle_tenant, enter_tenant, equip_tenant,
}
use hwfq_scheduler.Configuration.Flows.{settle_flow, enter_flow, add_flow_to}
use hwfq_scheduler.Configuration.{validate_allocation, would_exceed_capacity}
use hwfq_scheduler.Base.{◌<◌, subst, some_inj, arith}
use hwfq_scheduler.Types.{Entry}
use hwfq_scheduler.Scheduler.{Tenant}
use hwfq_scheduler.Scheduler.Refuse.{HasWords}

abbrev pub config : Config
config = record {
  max_tenants = 2;
  max_flows_per_tenant = 2;
  max_total_flows = 0;
  num_groups = 16;
  bins_per_group = 2;
  total_capacity = 2 ^ 21;
  enable_statistics = true;
  session_available_fn = true;
  session_timeout_fn = true;
}

abbrev pub all : ℕ → Bool
all i = true

abbrev pub around : Surroundings
around = record { memory = λ i. some (7 + i); clock = λ i. 100 + i }

abbrev pub system : GroupScheduler
system = record {
  calendar = record {
    bin_bitfield = 0 ∷ [];
    bin_heads = replicate 32 [];
    group_bitfield = replicate 32 0;
    bins_per_group = 2;
    num_bins = 32;
    bin_bitfield_size = 1;
    base_interval = 1;
    virtual_time = 0;
    active_session_count = 0;
    min_finish_time = u64_max;
    min_start_time = u64_max;
    min_session = none;
  };
  entries = init 2;
  max_entries = 2;
  configured_entries = [];
  allocated_rate_capacity = 0;
  total_weight = 0;
  num_groups = 16;
  total_capacity = 2 ^ 21;
}

abbrev pub started : Scheduler
started = fresh config system

-- `hwfq_init` makes the scheduler.
pub init-started : hwfq_init all config ≡ (success, some started)
unfolding hwfq_init init_configured with_hash init_with_entries
init-started = refl

abbrev pub work : Work
work = record { user_data = 55; work_size = 1; timeout_ns = 5 }

abbrev pub with_tenant : Scheduler
with_tenant = (hwfq_add_tenant all started (rate (2 ^ 20))).2

abbrev pub with_flow : Scheduler
with_flow = (hwfq_add_flow all with_tenant 0 (rate (2 ^ 20))).2

abbrev pub with_work : Scheduler
with_work = (hwfq_enqueue with_flow 0 1 work around).2

abbrev pub served : Scheduler
served = (hwfq_dequeue with_work around).2

abbrev pub delivered : Delivery
delivered = record { user_data = 55; work_size = 1; timestamp = 100; tenant_id = 0; flow_id = 1 }

-- The pool gives the tenant the id 0.
pub added : (hwfq_add_tenant all started (rate (2 ^ 20))).1 ≡ some 0
unfolding find_eligible_min_bitfield search_words search_groups search_bins set_at bit set_bit_of
    clear_bit_of ctz each_bit clz calculate_group_index_from_interval
    calculate_bin_index_from_finish_time insert_sorted bin_list_insert insert_session first_eligible
    consider search_twice update_cache find_min_session remove_session encode get put destroy grow
    fill_chunk allocate_chunk alloc_new alloc recalculated recalculate_at recalculate_list
    recalculate_weight_based_rates init_with_entries find_entry link_entry reserve configure_at
    configure_entry scaled_work service_interval_of start_time_of finish_time_of new_session accept
    enqueue_for enqueue_at enqueue discount take_found dequeue is_empty find_tenant find_flow_entry
    ensure_flow_entry with_flow_entry register_tenant_backlog both_stats after_enqueue
    enqueue_context enqueue_tenant hwfq_enqueue hand_out serve dequeue_flow dequeue_at dequeue_from
    dequeue_system hwfq_dequeue has_free_slot flow_pool settle_tenant enter_tenant equip_tenant
    hwfq_add_tenant settle_flow enter_flow add_flow_to hwfq_add_flow validate_allocation
    would_exceed_capacity
added = refl

-- No work is in flight, the configuration is as it was, and the work is delivered.
pub run :
    (with_work.in_flight.entries ≡ [])
    × (with_work.config ≡ config)
    × (hwfq_dequeue with_work around ≡ (success, some delivered, served))
unfolding find_eligible_min_bitfield search_words search_groups search_bins set_at bit set_bit_of
    clear_bit_of ctz each_bit clz calculate_group_index_from_interval
    calculate_bin_index_from_finish_time insert_sorted bin_list_insert insert_session first_eligible
    consider search_twice update_cache find_min_session remove_session encode get put destroy grow
    fill_chunk allocate_chunk alloc_new alloc recalculated recalculate_at recalculate_list
    recalculate_weight_based_rates init_with_entries find_entry link_entry reserve configure_at
    configure_entry scaled_work service_interval_of start_time_of finish_time_of new_session accept
    enqueue_for enqueue_at enqueue discount take_found dequeue is_empty find_tenant find_flow_entry
    ensure_flow_entry with_flow_entry register_tenant_backlog both_stats after_enqueue
    enqueue_context enqueue_tenant hwfq_enqueue hand_out serve dequeue_flow dequeue_at dequeue_from
    dequeue_system hwfq_dequeue has_free_slot flow_pool settle_tenant enter_tenant equip_tenant
    hwfq_add_tenant settle_flow enter_flow add_flow_to hwfq_add_flow validate_allocation
    would_exceed_capacity
run = (refl, refl, refl)

pub counted : HasWords with_flow 0 1
unfolding find_eligible_min_bitfield search_words search_groups search_bins set_at bit set_bit_of
    clear_bit_of ctz each_bit clz calculate_group_index_from_interval
    calculate_bin_index_from_finish_time insert_sorted bin_list_insert insert_session first_eligible
    consider search_twice update_cache find_min_session remove_session encode get put destroy grow
    fill_chunk allocate_chunk alloc_new alloc recalculated recalculate_at recalculate_list
    recalculate_weight_based_rates init_with_entries find_entry link_entry reserve configure_at
    configure_entry scaled_work service_interval_of start_time_of finish_time_of new_session accept
    enqueue_for enqueue_at enqueue discount take_found dequeue is_empty find_tenant find_flow_entry
    ensure_flow_entry with_flow_entry register_tenant_backlog both_stats after_enqueue
    enqueue_context enqueue_tenant hwfq_enqueue hand_out serve dequeue_flow dequeue_at dequeue_from
    dequeue_system hwfq_dequeue has_free_slot flow_pool settle_tenant enter_tenant equip_tenant
    hwfq_add_tenant settle_flow enter_flow add_flow_to hwfq_add_flow validate_allocation
    would_exceed_capacity
counted t q =
    subst
      (λ (t : Tenant).
        (t.stats.current_backlog < 2 ^ 32)
        × ((e : Entry) → find_flow_entry t 1 ≡ some e → e.stats.current_backlog < 2 ^ 32))
      (some_inj q)
      (
        omega arith,
        λ e h. subst (λ (e : Entry). e.stats.current_backlog < 2 ^ 32) (some_inj h) (omega arith),
      )
