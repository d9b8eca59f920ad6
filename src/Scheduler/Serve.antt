-- ===== src/Scheduler/Serve.antt =====
-- `hwfq_dequeue` of src/hwfq_scheduler.c.
use hwfq_scheduler.Base.{ℕ, suc, Bool, false, ◌&&◌, Option, none, some, ltb, if◌then◌else◌}
use hwfq_scheduler.Types.{
  Status, success, no_memory, no_work, internal, UserData, tenant, flow, FlowSessionContext, Stats,
  Entry, Session,
}
use hwfq_scheduler.Group.{GroupScheduler, add64, sub64, add32}
use hwfq_scheduler.Group.Queue.{enqueue, dequeue, is_empty}
use hwfq_scheduler.Group.Time.{update_virtual_time}
use hwfq_scheduler.InFlight.{InFlightEntry, in_flight_insert}
use hwfq_scheduler.Scheduler.{
  Tenant, Scheduler, Surroundings, tenant_at, set_tenant, find_flow_entry, register_tenant_backlog,
}
use hwfq_scheduler.Scheduler.Queue.{both_stats, register_if, negate, store_tenant}

-- What `hwfq_dequeue` writes to its out parameters.
pub record Delivery : Type 0 where
  pub user_data : ℕ
  pub work_size : ℕ
  pub timestamp : ℕ
  pub tenant_id : ℕ
  pub flow_id : ℕ

-- The status, what is written (`none`: nothing), and the scheduler.
abbrev pub Dequeuing : Type 0
Dequeuing = Status × Option Delivery × Scheduler

-- The work goes back: the tenant is registered and the work is enqueued anew, whatever the two calls
-- return. They have the places `at` and `at + 1` in the text.
unfoldable pub put_back :
    Scheduler → ℕ → Tenant → FlowSessionContext → (at : ℕ) → Surroundings → Scheduler
put_back s tenant_id t context at around =
    let r = register_tenant_backlog t s.system_scheduler (around.clock at) (around.memory at) in
    let q =
      enqueue (r.1).flow_scheduler context.flow_id context.work_size (flow context)
        (around.clock (suc at)) (around.memory (suc at)) in
    set_tenant (record s { system_scheduler = r.2 }) tenant_id
      (record (r.1) { flow_scheduler = q.1 })

abbrev pub wait_time : FlowSessionContext → (dequeue_time : ℕ) → ℕ
wait_time context dequeue_time =
    if ltb 0 context.enqueue_time_ns then sub64 dequeue_time context.enqueue_time_ns else 0

abbrev pub more_wait : ℕ → Stats → Stats
more_wait w st = record st { total_wait_time_ns = add64 st.total_wait_time_ns w }

abbrev pub waited_for : Option Entry → (Stats → Stats) → Tenant → ℕ → Tenant
waited_for none f t flow_id = t
waited_for (some e) f t flow_id = both_stats f t flow_id

unfoldable pub count_wait : Scheduler → Tenant → FlowSessionContext → (dequeue_time : ℕ) → Tenant
count_wait s t context dequeue_time =
    if s.config.enable_statistics
    then waited_for (find_flow_entry t context.flow_id) (more_wait (wait_time context dequeue_time))
        t context.flow_id
    else t

abbrev pub in_flight_entry : FlowSessionContext → (dequeue_time address : ℕ) → InFlightEntry
in_flight_entry context dequeue_time address = record {
  address = address;
  tenant_id = context.tenant_id;
  flow_id = context.flow_id;
  work_size = context.work_size;
  dequeue_time_ns = dequeue_time;
  timeout_ns = context.timeout_ns;
  user_data = context.user_data;
}

-- The entry joins the work in flight.
unfoldable pub launched : Scheduler → InFlightEntry → Scheduler
launched s e = record s {
  in_flight = in_flight_insert s.in_flight e;
  in_flight_work_size = add64 s.in_flight_work_size e.work_size;
  in_flight_count = add32 s.in_flight_count 1;
}

abbrev pub delivery_of : FlowSessionContext → Delivery
delivery_of context = record {
  user_data = context.user_data;
  work_size = context.work_size;
  timestamp = context.enqueue_time_ns;
  tenant_id = context.tenant_id;
  flow_id = context.flow_id;
}

unfoldable pub hand_out :
    Scheduler → ℕ → Tenant → FlowSessionContext → Surroundings → Option ℕ → Dequeuing
hand_out s tenant_id t context around none =
    (no_memory, some (delivery_of context), put_back s tenant_id t context 3 around)
hand_out s tenant_id t context around (some address) =
    let t' = count_wait s t context (around.clock 2) in
    (
      success,
      some (delivery_of context),
      store_tenant (launched s (in_flight_entry context (around.clock 2) address)) tenant_id (
          register_if (negate (is_empty t'.flow_scheduler)) t' s.system_scheduler (around.clock 5)
            (around.memory 5)),
    )

abbrev pub exceeds : Scheduler → ℕ → Bool
exceeds s work_size =
    ltb 0 s.config.total_capacity
    && ltb s.config.total_capacity (add64 s.in_flight_work_size work_size)

unfoldable pub serve : Scheduler → ℕ → Tenant → UserData → Surroundings → Dequeuing
serve s tenant_id t (flow context) around =
    if exceeds s context.work_size
    then (no_work, none, put_back s tenant_id t context 0 around)
    else hand_out s tenant_id
        (record t { flow_scheduler = update_virtual_time t.flow_scheduler context.work_size })
        context around (around.memory 2)
serve s tenant_id t other around = (internal, none, set_tenant s tenant_id t)

unfoldable pub dequeue_flow :
    Scheduler → ℕ → Tenant → Option Session × GroupScheduler → Surroundings → Dequeuing
dequeue_flow s tenant_id t (none, g) around =
    (internal, none, set_tenant s tenant_id (record t { flow_scheduler = g }))
dequeue_flow s tenant_id t (some session, g) around =
    serve s tenant_id (record t { flow_scheduler = g }) session.user_data around

-- A session in the system scheduler whose tenant is gone does not arise (`hwfq_remove_tenant` refuses a
-- tenant that has a session there); it is answered as NULL is.
unfoldable pub dequeue_at :
    Scheduler → (work tenant_id : ℕ) → Option Tenant → Surroundings → Dequeuing
dequeue_at s work tenant_id none around = (internal, none, s)
dequeue_at s work tenant_id (some t) around =
    dequeue_flow (record s { system_scheduler = update_virtual_time s.system_scheduler work })
      tenant_id (record t { has_backlog = false; tenant_session = none }) (dequeue t.flow_scheduler)
      around

unfoldable pub dequeue_from : Scheduler → (work : ℕ) → UserData → Surroundings → Dequeuing
dequeue_from s work (tenant tenant_id) around =
    dequeue_at s work tenant_id (tenant_at s tenant_id) around
dequeue_from s work other around = (internal, none, s)

unfoldable pub dequeue_system :
    Scheduler → Option Session × GroupScheduler → Surroundings → Dequeuing
dequeue_system s (none, system) around = (no_work, none, record s { system_scheduler = system })
dequeue_system s (some session, system) around =
    dequeue_from (record s { system_scheduler = system }) session.work_size session.user_data around

-- Its places in the text, for the allocator and the clock: 0 and 1 the return of work beyond the
-- capacity, 2 the in-flight entry, 3 and 4 the return of work without an entry, 5 the registration.
unfoldable pub hwfq_dequeue : Scheduler → Surroundings → Dequeuing
hwfq_dequeue s around =
    if is_empty s.system_scheduler
    then (no_work, none, s)
    else dequeue_system s (dequeue s.system_scheduler) around
