-- ===== src/Scheduler/Finish.antt =====
-- `hwfq_complete`, `hwfq_cancel` and `hwfq_check_timeouts` of src/hwfq_scheduler.c: work leaves the
-- list of the work in flight.
use hwfq_scheduler.Base.{
  ℕ, ◌-◌, Bool, false, ◌&&◌, ◌||◌, Option, none, some, List, [], ◌∷◌, ltb, leb, if◌then◌else◌,
}
use hwfq_scheduler.Types.{success, not_found, Stats, Entry}
use hwfq_scheduler.Group.{add64, sub64, add32, sub32}
use hwfq_scheduler.Group.Queue.{is_empty}
use hwfq_scheduler.InFlight.{InFlightEntry, in_flight_remove, find_session}
use hwfq_scheduler.Scheduler.{
  Tenant, Scheduler, Surroundings, tenant_at, set_tenant, find_flow_entry, change_entry,
  update_tenant_rate_tracking, update_entry_rate_tracking,
}
use hwfq_scheduler.Scheduler.Queue.{Outcome, entry_stats, negate, register_if, store_tenant}

-- The entry leaves the work in flight.
unfoldable pub released : Scheduler → InFlightEntry → Scheduler
released s e = record s {
  in_flight = in_flight_remove s.in_flight e;
  in_flight_work_size = sub64 s.in_flight_work_size e.work_size;
  in_flight_count = sub32 s.in_flight_count 1;
}

-- `has_capacity`, `has_work` and the callback.
abbrev pub announces : Scheduler → Bool → Bool
announces s has_work =
    ltb s.in_flight_work_size s.config.total_capacity && (has_work && s.config.session_available_fn)

abbrev pub has_work : Scheduler → Bool
has_work s = negate (is_empty s.system_scheduler)

-- The tenant's pointer, configured or not.
abbrev pub tenant_below : Scheduler → ℕ → Option Tenant
tenant_below s tenant_id =
    if ltb tenant_id s.config.max_tenants then tenant_at s tenant_id else none

abbrev pub flow_entry_of : Tenant → ℕ → Option Entry
flow_entry_of t flow_id = if t.configured then find_flow_entry t flow_id else none

-- `if (current_backlog > 0) current_backlog--`
abbrev pub less_backlog : Stats → Stats
less_backlog st = record st {
  current_backlog = (if ltb 0 st.current_backlog then st.current_backlog - 1 else 0);
}

-- The backlogs of the tenant and of its flow.
unfoldable pub discounted : Tenant → ℕ → Tenant
discounted t flow_id =
    change_entry (entry_stats less_backlog) (record t { stats = less_backlog t.stats }) flow_id
      (flow_entry_of t flow_id)

abbrev pub one_done : ℕ → Stats → Stats
one_done work_size st = record st {
  work_units_processed = add64 st.work_units_processed work_size;
  operations_completed = add64 st.operations_completed 1;
}

abbrev pub entry_done : (work_size now_ns : ℕ) → Entry → Entry
entry_done work_size now_ns e =
    update_entry_rate_tracking (entry_stats (one_done work_size) e) work_size now_ns

-- The statistics of `hwfq_complete`.
unfoldable pub credited : Tenant → (flow_id work_size now_ns : ℕ) → Tenant
credited t flow_id work_size now_ns =
    change_entry (entry_done work_size now_ns)
      (update_tenant_rate_tracking (record t { stats = one_done work_size t.stats }) work_size
        now_ns)
      flow_id (flow_entry_of t flow_id)

unfoldable pub complete_tenant :
    Scheduler → Option Tenant → (tenant_id flow_id work_size now_ns : ℕ) → Surroundings → Outcome
complete_tenant s none tenant_id flow_id work_size now_ns around =
    (success, announces s (has_work s), s)
complete_tenant s (some t) tenant_id flow_id work_size now_ns around =
    let t' = discounted t flow_id in
    let t'' = if s.config.enable_statistics then credited t' flow_id work_size now_ns else t' in
    let queued = negate (is_empty t''.flow_scheduler) in
    (
      success,
      announces s (has_work s || queued),
      store_tenant s tenant_id
          (register_if queued t'' s.system_scheduler (around.clock 0) (around.memory 0)),
    )

unfoldable pub complete_found :
    Scheduler → Option InFlightEntry → (tenant_id flow_id now_ns : ℕ) → Surroundings → Outcome
complete_found s none tenant_id flow_id now_ns around = (not_found, false, s)
complete_found s (some found) tenant_id flow_id now_ns around =
    complete_tenant (released s found) (tenant_below s tenant_id) tenant_id flow_id found.work_size
      now_ns around

-- `user_data` is the pointer of the caller's session, 0 also where the session is NULL.
unfoldable pub hwfq_complete :
    Scheduler → (user_data tenant_id flow_id completion_time_ns : ℕ) → Surroundings → Outcome
hwfq_complete s user_data tenant_id flow_id completion_time_ns around =
    complete_found s (find_session s.in_flight user_data tenant_id flow_id) tenant_id flow_id
      completion_time_ns around

abbrev pub discount_tenant : Scheduler → Option Tenant → (tenant_id flow_id : ℕ) → Scheduler
discount_tenant s none tenant_id flow_id = s
discount_tenant s (some t) tenant_id flow_id = set_tenant s tenant_id (discounted t flow_id)

unfoldable pub cancel_found : Scheduler → Option InFlightEntry → Outcome
cancel_found s none = (not_found, false, s)
cancel_found s (some found) =
    let s' =
      discount_tenant (released s found) (tenant_below s found.tenant_id) found.tenant_id
        found.flow_id in
    (success, announces s' (has_work s'), s')

unfoldable pub hwfq_cancel : Scheduler → (user_data tenant_id flow_id : ℕ) → Outcome
hwfq_cancel s user_data tenant_id flow_id =
    cancel_found s (find_session s.in_flight user_data tenant_id flow_id)

-- The elapsed time is a difference of unsigned 64-bit numbers.
abbrev pub is_timed_out : (current_time_ns : ℕ) → InFlightEntry → Bool
is_timed_out current_time_ns e =
    ltb 0 e.timeout_ns && leb e.timeout_ns (sub64 current_time_ns e.dequeue_time_ns)

-- The state of the walk; `timed_out_list` has the newest first.
pub record Expiry : Type 0 where
  pub scheduler : Scheduler
  pub timed_out_list : List InFlightEntry
  pub timeout_count : ℕ

abbrev pub expire_one : (current_time_ns : ℕ) → InFlightEntry → Expiry → Expiry
expire_one current_time_ns e w =
    if is_timed_out current_time_ns e
    then record {
      scheduler = released w.scheduler e;
      timed_out_list = e ∷ w.timed_out_list;
      timeout_count = add32 w.timeout_count 1;
    }
    else w

unfoldable pub expire : (current_time_ns : ℕ) → List InFlightEntry → Expiry → Expiry
expire current_time_ns [] w = w
expire current_time_ns (e ∷ rest) w = expire current_time_ns rest (expire_one current_time_ns e w)

-- What the call does besides: the entries that `session_timeout_fn` is called for, in order, and
-- whether `session_available_fn` is called.
pub record Timeouts : Type 0 where
  pub timeout_count : ℕ
  pub callbacks : List InFlightEntry
  pub notified : Bool
  pub scheduler : Scheduler

unfoldable pub hwfq_check_timeouts : Scheduler → (current_time_ns : ℕ) → Timeouts
hwfq_check_timeouts s current_time_ns =
    let w =
      expire current_time_ns s.in_flight.entries
        (record { scheduler = s; timed_out_list = []; timeout_count = 0 }) in
    record {
      timeout_count = w.timeout_count;
      callbacks = (if s.config.session_timeout_fn then w.timed_out_list else []);
      notified = ltb 0 w.timeout_count && announces w.scheduler (has_work w.scheduler);
      scheduler = w.scheduler;
    }
