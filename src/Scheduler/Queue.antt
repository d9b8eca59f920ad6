-- ===== src/Scheduler/Queue.antt =====
-- `hwfq_enqueue` of src/hwfq_scheduler.c. The tests for a NULL argument are not modelled.
use hwfq_scheduler.Base.{
  ℕ, Bool, true, false, ◌&&◌, Option, none, some, ltb, leb, ◌==◌, if◌then◌else◌,
}
use hwfq_scheduler.Types.{
  Status, success, invalid_arg, not_found, no_memory, flow, FlowSessionContext, Stats, Entry,
}
use hwfq_scheduler.Group.{GroupScheduler, add32, sub32}
use hwfq_scheduler.Group.Queue.{enqueue}
use hwfq_scheduler.Scheduler.{
  Tenant, Scheduler, Surroundings, set_tenant, find_tenant, ensure_flow_entry, with_flow_entry,
  register_tenant_backlog,
}

-- `hwfq_session_t`, as a caller hands it in.
pub record Work : Type 0 where
  pub user_data : ℕ
  pub work_size : ℕ
  pub timeout_ns : ℕ

-- What a call returns: its status, whether it calls `session_available_fn`, and the scheduler.
abbrev pub Outcome : Type 0
Outcome = Status × Bool × Scheduler

-- `current_backlog++` and `current_backlog--`
abbrev pub one_more : Stats → Stats
one_more st = record st { current_backlog = add32 st.current_backlog 1 }

abbrev pub one_fewer : Stats → Stats
one_fewer st = record st { current_backlog = sub32 st.current_backlog 1 }

abbrev pub entry_stats : (Stats → Stats) → Entry → Entry
entry_stats f e = record e { stats = f e.stats }

-- A change of the statistics of the tenant, and of its flow where `find_flow_entry` finds it.
unfoldable pub both_stats : (Stats → Stats) → Tenant → ℕ → Tenant
both_stats f t flow_id = with_flow_entry (entry_stats f) (record t { stats = f t.stats }) flow_id

abbrev pub register_if :
    Bool → Tenant → GroupScheduler → (now_ns : ℕ) → Option ℕ → Status × Tenant × GroupScheduler
register_if true t system now_ns mem = register_tenant_backlog t system now_ns mem
register_if false t system now_ns mem = (success, t, system)

abbrev pub negate : Bool → Bool
negate true = false
negate false = true

abbrev pub store_tenant : Scheduler → ℕ → Status × Tenant × GroupScheduler → Scheduler
store_tenant s tenant_id (status, t, system) =
    set_tenant (record s { system_scheduler = system }) tenant_id t

-- The rest of `hwfq_enqueue`, on the result of the enqueue at the tenant's scheduler.
unfoldable pub after_enqueue :
    Scheduler → Tenant → (tenant_id flow_id : ℕ) → Surroundings → Status × GroupScheduler → Outcome
after_enqueue s t tenant_id flow_id around (success, g) = (
  success,
  s.config.session_available_fn && ltb s.in_flight_work_size s.config.total_capacity,
  store_tenant s tenant_id (
      register_if (negate t.has_backlog) (record t { flow_scheduler = g }) s.system_scheduler
        (around.clock 2) (around.memory 2)),
)
after_enqueue s t tenant_id flow_id around (status, g) = (
  status,
  false,
  set_tenant s tenant_id (both_stats one_fewer (record t { flow_scheduler = g }) flow_id),
)

abbrev pub context_of : (tenant_id flow_id : ℕ) → Work → (enqueue_time_ns : ℕ) → FlowSessionContext
context_of tenant_id flow_id work enqueue_time_ns = record {
  tenant_id = tenant_id;
  flow_id = flow_id;
  user_data = work.user_data;
  work_size = work.work_size;
  enqueue_time_ns = enqueue_time_ns;
  timeout_ns = work.timeout_ns;
}

unfoldable pub enqueue_context :
    Scheduler → Tenant → (tenant_id flow_id : ℕ) → Work → Surroundings → Option ℕ → Outcome
enqueue_context s t tenant_id flow_id work around none = (no_memory, false, s)
enqueue_context s t tenant_id flow_id work around (some address) =
    let counted = both_stats one_more t flow_id in
    let time = if s.config.enable_statistics then around.clock 0 else 0 in
    after_enqueue s counted tenant_id flow_id around (
      enqueue counted.flow_scheduler flow_id work.work_size
        (flow (context_of tenant_id flow_id work time)) (around.clock 1) (around.memory 1))

abbrev pub enqueue_if_there :
    Scheduler → Tenant → (tenant_id flow_id : ℕ) → Work → Surroundings → Status → Outcome
enqueue_if_there s t tenant_id flow_id work around success =
    enqueue_context s t tenant_id flow_id work around (around.memory 0)
enqueue_if_there s t tenant_id flow_id work around status = (status, false, s)

unfoldable pub enqueue_tenant :
    Scheduler → Option Tenant → (tenant_id flow_id : ℕ) → Work → Surroundings → Outcome
enqueue_tenant s none tenant_id flow_id work around = (not_found, false, s)
enqueue_tenant s (some t) tenant_id flow_id work around =
    enqueue_if_there s t tenant_id flow_id work around (ensure_flow_entry t flow_id)

-- Its calls of the allocator: 0 the context, 1 the session of the flow, 2 that of the tenant. Its
-- readings of the clock: 0 the time of enqueuing, 1 and 2 those of the two sessions.
unfoldable pub hwfq_enqueue : Scheduler → (tenant_id flow_id : ℕ) → Work → Surroundings → Outcome
hwfq_enqueue s tenant_id flow_id work around =
    if work.work_size == 0
    then (invalid_arg, false, s)
    else if leb s.config.max_tenants tenant_id
    then (invalid_arg, false, s)
    else if flow_id == 0
    then (invalid_arg, false, s)
    else enqueue_tenant s (find_tenant s tenant_id) tenant_id flow_id work around
