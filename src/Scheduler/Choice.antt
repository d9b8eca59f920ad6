-- ===== src/Scheduler/Choice.antt =====
-- The choice of `hwfq_dequeue`: WF2Q+ among the tenants, and among the flows of the chosen tenant.
use hwfq_scheduler.Base.{ℕ, ◌<◌, ◌^◌, false, ◌≡◌, ◌≢◌, refl, some, arith, Has, length, ne→not-==}
use hwfq_scheduler.Types.{success, UserData, tenant, flow, FlowSessionContext, Session}
use hwfq_scheduler.Calendar.Contents.{sessions, Has-concat}
use hwfq_scheduler.Calendar.Wf2q.{IsWf2qChoice}
use hwfq_scheduler.Group.{GroupScheduler}
use hwfq_scheduler.Group.Queue.{dequeue, is_empty}
use hwfq_scheduler.Group.Ready.{IsReady}
use hwfq_scheduler.Group.Dequeue.{Dequeued, dequeue_lem}
use hwfq_scheduler.Scheduler.{Tenant, Scheduler, Surroundings, tenant_at}
use hwfq_scheduler.Scheduler.Serve.{
  Dequeuing, delivery_of, exceeds, hand_out, serve, dequeue_flow, dequeue_at, dequeue_from,
  dequeue_system, hwfq_dequeue,
}

-- The group scheduler is ready and has work queued, fewer than 2 ^ 32 sessions.
pub record HasQueue (g : GroupScheduler) : Type 0 where
  pub ready : IsReady g
  pub work : length (sessions g.calendar) ≢ 0
  pub small : length (sessions g.calendar) < 2 ^ 32

-- The session stands for the tenant t, whose work may be delivered: it is queued, and the capacity
-- takes any piece of it.
pub record IsServable (s : Scheduler) (session : Session) : Type 0 where
  pub tenant_id : ℕ
  pub t : Tenant
  pub points : session.user_data ≡ tenant tenant_id
  pub there : tenant_at s tenant_id ≡ some t
  pub queue : HasQueue t.flow_scheduler
  pub contexts :
      (x : Session)
      → Has x (sessions t.flow_scheduler.calendar)
      → (c : FlowSessionContext) × (x.user_data ≡ flow c) × (exceeds s c.work_size ≡ false)

-- The call delivered the work of the two choices, among the sessions that it found queued and by the
-- virtual times that it found.
pub record Chosen (s : Scheduler) (r : Dequeuing) : Type 0 where
  pub tenant_session : Session
  pub tenant_id : ℕ
  pub t : Tenant
  pub flow_session : Session
  pub context : FlowSessionContext
  pub tenant_choice :
      IsWf2qChoice s.system_scheduler.calendar.virtual_time
        (sessions s.system_scheduler.calendar)
        tenant_session
  pub points : tenant_session.user_data ≡ tenant tenant_id
  pub there : tenant_at s tenant_id ≡ some t
  pub flow_choice :
      IsWf2qChoice t.flow_scheduler.calendar.virtual_time
        (sessions t.flow_scheduler.calendar)
        flow_session
  pub carries : flow_session.user_data ≡ flow context
  pub status : (r.0 ≡ success)
  pub written : (r.1 ≡ some (delivery_of context))

pub Dequeued-Has :
    (g g' : GroupScheduler) (s : Session) → Dequeued g s g' → Has s (sessions g.calendar)
Dequeued-Has g g' s d = Has-concat s g.calendar.bin_heads d.least.0.bin d.least.0.member

-- Success, with the context's work.
abbrev pub Delivers : FlowSessionContext → Dequeuing → Type 0
Delivers c r = (r.0 ≡ success) × (r.1 ≡ some (delivery_of c))

module _ (around : Surroundings) (a : ℕ) (given : around.memory 2 ≡ some a) where
  serve-Delivers :
      (s : Scheduler) (i : ℕ) (t : Tenant) (u : UserData) (c : FlowSessionContext)
      → u ≡ flow c
      → exceeds s c.work_size ≡ false
      → Delivers c (serve s i t u around)
  unfolding serve hand_out
  serve-Delivers s i t u c q fits = rw (q, fits, given) (refl, refl)

  module _ (s : Scheduler) (x : Session) (y : Session) (g' h' : GroupScheduler) (k : IsServable s x)
      (c : FlowSessionContext) (carries : y.user_data ≡ flow c)
      (fits : exceeds s c.work_size ≡ false) (system : dequeue s.system_scheduler ≡ (some x, g'))
      (flows : dequeue k.t.flow_scheduler ≡ (some y, h'))
      (busy : is_empty s.system_scheduler ≡ false) where
    pub hwfq_dequeue-Delivers : Delivers c (hwfq_dequeue s around)
    unfolding hwfq_dequeue dequeue_system dequeue_from dequeue_at dequeue_flow
    hwfq_dequeue-Delivers =
        rw (busy, system, k.points, k.there, flows)
          (serve-Delivers _ k.tenant_id _ y.user_data c carries fits)

pub ready_busy : (g : GroupScheduler) → HasQueue g → is_empty g ≡ false
unfolding is_empty
ready_busy g q =
    ne→not-== _ _
      (let k : g.calendar.active_session_count ≢ 0 = omega (arith, q.ready.counted, q.work) in k)

-- With work queued at a ready system scheduler, where every session there stands for a tenant with
-- work queued at a ready scheduler, that all fits into the capacity, and memory for the in-flight
-- entry, `hwfq_dequeue` delivers work: that of the WF2Q+ choice among the flows of the tenant that is
-- the WF2Q+ choice among the tenants. The choice at a scheduler is a session with the smallest finish
-- time of those queued there whose start time is at most max(V, min S), with V the scheduler's virtual
-- time before the call and min S the smallest start time queued there.
pub hwfq_dequeue_choice :
    (s : Scheduler) (around : Surroundings) (a : ℕ)
    → HasQueue s.system_scheduler
    → ((x : Session) → Has x (sessions s.system_scheduler.calendar) → IsServable s x)
    → around.memory 2 ≡ some a
    → Chosen s (hwfq_dequeue s around)
hwfq_dequeue_choice s around a q servable given =
    let (x, g', e, d) = dequeue_lem s.system_scheduler q.ready q.work q.small in
    let k = servable x (Dequeued-Has s.system_scheduler g' x d) in
    let (y, h', e', d') = dequeue_lem k.t.flow_scheduler k.queue.ready k.queue.work k.queue.small in
    let (c, carries, fits) = k.contexts y (Dequeued-Has k.t.flow_scheduler h' y d') in
    let r =
      hwfq_dequeue-Delivers around a given s x y g' h' k c carries fits e e'
        (ready_busy s.system_scheduler q) in
    record {
      tenant_session = x;
      tenant_id = k.tenant_id;
      t = k.t;
      flow_session = y;
      context = c;
      tenant_choice = d.choice;
      points = k.points;
      there = k.there;
      flow_choice = d'.choice;
      carries = carries;
      status = r.0;
      written = r.1;
    }
