-- ===== src/Scheduler/Flight.antt =====
-- What `hwfq_enqueue` and `hwfq_dequeue` do to the work in flight.
use hwfq_scheduler.Base.{
  ℕ, false, ◌≡◌, ◌≢◌, ◌⊎◌, inl, inr, refl, Option, none, some, leb, ◌==◌, Bool-cases,
}
use hwfq_scheduler.Types.{
  Status, success, invalid_arg, no_memory, not_found, overbooked, no_work, has_backlog, internal,
  UserData, null, tenant, flow, FlowSessionContext, Session,
}
use hwfq_scheduler.Group.{GroupScheduler}
use hwfq_scheduler.Group.Queue.{dequeue, is_empty}
use hwfq_scheduler.Group.Time.{update_virtual_time}
use hwfq_scheduler.InFlight.{InFlightEntry}
use hwfq_scheduler.Scheduler.{
  Tenant, Scheduler, Surroundings, tenant_at, find_tenant, ensure_flow_entry,
}
use hwfq_scheduler.Scheduler.Queue.{
  Outcome, Work, after_enqueue, enqueue_context, enqueue_if_there, enqueue_tenant, hwfq_enqueue,
}
use hwfq_scheduler.Scheduler.Serve.{
  Delivery, Dequeuing, delivery_of, in_flight_entry, launched, exceeds, put_back, hand_out, serve,
  dequeue_flow, dequeue_at, dequeue_from, dequeue_system, hwfq_dequeue,
}
use hwfq_scheduler.Scheduler.Accounts.{flight, SameFlight, if_both}

abbrev KeepsFlight : Scheduler → Outcome → Type 0
KeepsFlight s r = SameFlight s (r.2)

after_enqueue-SameFlight :
    (s : Scheduler) (t : Tenant) (i f : ℕ) (around : Surroundings) (r : Status × GroupScheduler)
    → SameFlight s (after_enqueue s t i f around r).2
unfolding after_enqueue
after_enqueue-SameFlight s t i f around (success, g) = refl
after_enqueue-SameFlight s t i f around (invalid_arg, g) = refl
after_enqueue-SameFlight s t i f around (no_memory, g) = refl
after_enqueue-SameFlight s t i f around (not_found, g) = refl
after_enqueue-SameFlight s t i f around (overbooked, g) = refl
after_enqueue-SameFlight s t i f around (no_work, g) = refl
after_enqueue-SameFlight s t i f around (has_backlog, g) = refl
after_enqueue-SameFlight s t i f around (internal, g) = refl

module _ (s : Scheduler) (t : Tenant) (i f : ℕ) (work : Work) (around : Surroundings) where
  enqueue_context-SameFlight :
      (m : Option ℕ) → SameFlight s (enqueue_context s t i f work around m).2
  unfolding enqueue_context
  enqueue_context-SameFlight none = refl
  enqueue_context-SameFlight (some a) = after_enqueue-SameFlight s _ i f around _

  enqueue_if_there-SameFlight :
      (c : Status) → SameFlight s (enqueue_if_there s t i f work around c).2
  enqueue_if_there-SameFlight success = enqueue_context-SameFlight (around.memory 0)
  enqueue_if_there-SameFlight invalid_arg = refl
  enqueue_if_there-SameFlight no_memory = refl
  enqueue_if_there-SameFlight not_found = refl
  enqueue_if_there-SameFlight overbooked = refl
  enqueue_if_there-SameFlight no_work = refl
  enqueue_if_there-SameFlight has_backlog = refl
  enqueue_if_there-SameFlight internal = refl

module _ (s : Scheduler) (i f : ℕ) (work : Work) (around : Surroundings) where
  enqueue_tenant-SameFlight :
      (o : Option Tenant) → SameFlight s (enqueue_tenant s o i f work around).2
  unfolding enqueue_tenant
  enqueue_tenant-SameFlight none = refl
  enqueue_tenant-SameFlight (some t) =
      enqueue_if_there-SameFlight s t i f work around (ensure_flow_entry t f)

  pub hwfq_enqueue-SameFlight : SameFlight s (hwfq_enqueue s i f work around).2
  unfolding hwfq_enqueue
  hwfq_enqueue-SameFlight = if_both (KeepsFlight s) (work.work_size == 0) _ _ refl (
      if_both (KeepsFlight s) (leb s.config.max_tenants i) _ _ refl
        (if_both (KeepsFlight s) (f == 0) _ _ refl (enqueue_tenant-SameFlight (find_tenant s i))))

-- The dequeuing delivered work, and its entry joined the work in flight.
pub record Launch (s : Scheduler) (around : Surroundings) (r : Dequeuing) : Type 0 where
  pub entry : InFlightEntry
  pub delivery : Delivery
  pub status : (r.0 ≡ success)
  pub written : (r.1 ≡ some delivery)
  pub allocated : around.memory 2 ≡ some entry.address
  pub same_work : entry.work_size ≡ delivery.work_size
  pub same_user_data : entry.user_data ≡ delivery.user_data
  pub same_tenant : entry.tenant_id ≡ delivery.tenant_id
  pub same_flow : entry.flow_id ≡ delivery.flow_id
  pub within : exceeds s entry.work_size ≡ false
  pub after : flight (r.2) ≡ flight (launched s entry)

-- Or it delivered nothing to be completed, and the work in flight is as it was.
abbrev pub LaunchOrSame : Scheduler → Surroundings → Dequeuing → Type 0
LaunchOrSame s around r = (SameFlight s (r.2) × (r.0 ≢ success)) ⊎ Launch s around r

put_back-SameFlight :
    (s : Scheduler) (i : ℕ) (t : Tenant) (context : FlowSessionContext) (at : ℕ)
    (around : Surroundings)
    → SameFlight s (put_back s i t context at around)
unfolding put_back
put_back-SameFlight s i t context at around = refl

hand_out_lem :
    (s : Scheduler) (i : ℕ) (t : Tenant) (context : FlowSessionContext) (around : Surroundings)
    (m : Option ℕ)
    → around.memory 2 ≡ m
    → exceeds s context.work_size ≡ false
    → LaunchOrSame s around (hand_out s i t context around m)
unfolding hand_out
hand_out_lem s i t context around none q within =
    inl (put_back-SameFlight s i t context 3 around, λ e. cc)
hand_out_lem s i t context around (some a) q within = inr (record {
  entry = in_flight_entry context (around.clock 2) a;
  delivery = delivery_of context;
  status = refl;
  written = refl;
  allocated = q;
  same_work = refl;
  same_user_data = refl;
  same_tenant = refl;
  same_flow = refl;
  within = within;
  after = refl;
})

serve_lem :
    (s : Scheduler) (i : ℕ) (t : Tenant) (u : UserData) (around : Surroundings)
    → LaunchOrSame s around (serve s i t u around)
unfolding serve
serve_lem s i t null around = inl (refl, λ e. cc)
serve_lem s i t (tenant j) around = inl (refl, λ e. cc)
serve_lem s i t (flow context) around = elim (Bool-cases (exceeds s context.work_size)) [
  | inl q ↦ rw q (inl (put_back-SameFlight s i t context 0 around, λ e. cc))
  | inr q ↦ rw q (hand_out_lem s i _ context around (around.memory 2) refl q)
]

dequeue_flow_lem :
    (s : Scheduler) (i : ℕ) (t : Tenant) (r : Option Session × GroupScheduler)
    (around : Surroundings)
    → LaunchOrSame s around (dequeue_flow s i t r around)
unfolding dequeue_flow
dequeue_flow_lem s i t (none, g) around = inl (refl, λ e. cc)
dequeue_flow_lem s i t (some session, g) around = serve_lem s i _ session.user_data around

-- Some fields of the scheduler do not matter.
of_system :
    (s : Scheduler) (g : GroupScheduler) (around : Surroundings) (r : Dequeuing)
    → LaunchOrSame (record s { system_scheduler = g }) around r
    → LaunchOrSame s around r
unfolding launched
of_system s g around r (inl h) = inl h
of_system s g around r (inr h) = inr (record {
  entry = h.entry;
  delivery = h.delivery;
  status = h.status;
  written = h.written;
  allocated = h.allocated;
  same_work = h.same_work;
  same_user_data = h.same_user_data;
  same_tenant = h.same_tenant;
  same_flow = h.same_flow;
  within = h.within;
  after = h.after;
})

dequeue_at_lem :
    (s : Scheduler) (work i : ℕ) (o : Option Tenant) (around : Surroundings)
    → LaunchOrSame s around (dequeue_at s work i o around)
unfolding dequeue_at
dequeue_at_lem s work i none around = inl (refl, λ e. cc)
dequeue_at_lem s work i (some t) around =
    of_system s (update_virtual_time s.system_scheduler work) around _
      (dequeue_flow_lem _ i _ (dequeue t.flow_scheduler) around)

dequeue_from_lem :
    (s : Scheduler) (work : ℕ) (u : UserData) (around : Surroundings)
    → LaunchOrSame s around (dequeue_from s work u around)
unfolding dequeue_from
dequeue_from_lem s work null around = inl (refl, λ e. cc)
dequeue_from_lem s work (flow c) around = inl (refl, λ e. cc)
dequeue_from_lem s work (tenant i) around = dequeue_at_lem s work i (tenant_at s i) around

dequeue_system_lem :
    (s : Scheduler) (r : Option Session × GroupScheduler) (around : Surroundings)
    → LaunchOrSame s around (dequeue_system s r around)
unfolding dequeue_system
dequeue_system_lem s (none, g) around = inl (refl, λ e. cc)
dequeue_system_lem s (some session, g) around =
    of_system s g around _ (dequeue_from_lem _ session.work_size session.user_data around)

pub hwfq_dequeue_lem :
    (s : Scheduler) (around : Surroundings) → LaunchOrSame s around (hwfq_dequeue s around)
unfolding hwfq_dequeue
hwfq_dequeue_lem s around =
    if_both (LaunchOrSame s around) (is_empty s.system_scheduler) _ _ (inl (refl, λ e. cc))
      (dequeue_system_lem s (dequeue s.system_scheduler) around)
