-- ===== src/System/Passage.antt =====
-- From `hwfq_enqueue` to `hwfq_dequeue`: an idle tenant's work passes through.
use hwfq_scheduler.Base.{
  ℕ, ◌<◌, leb, true, false, ◌≡◌, ◌≢◌, sym, ap, ◌∙◌, subst, none, some, arith, Has, ne→not-==,
  if◌then◌else◌, get_or-set_self,
}
use hwfq_scheduler.Types.{success, tenant, flow, FlowSessionContext, Session, Entry}
use hwfq_scheduler.Calendar.Contents.{sessions}
use hwfq_scheduler.Group.{GroupScheduler}
use hwfq_scheduler.Group.Queue.{enqueue}
use hwfq_scheduler.Group.Dequeue.{dequeue_lem}
use hwfq_scheduler.Scheduler.{
  Tenant, Scheduler, Surroundings, tenant_at, set_tenant, registered, find_flow_entry,
  ensure_flow_entry, tenant_quantum_size, register_tenant_backlog,
}
use hwfq_scheduler.Scheduler.Queue.{
  Work, one_more, both_stats, context_of, store_tenant, register_if, negate, after_enqueue,
  enqueue_context, enqueue_tenant, hwfq_enqueue,
}
use hwfq_scheduler.Scheduler.Serve.{exceeds, hwfq_dequeue}
use hwfq_scheduler.Scheduler.Refuse.{both_stats-found}
use hwfq_scheduler.Scheduler.Choice.{
  IsServable, Delivers, Dequeued-Has, hwfq_dequeue-Delivers, ready_busy,
}
use hwfq_scheduler.Configuration.Rates.{lt_of_some}
use hwfq_scheduler.Configuration.Reset.{find_of_tenant}
use hwfq_scheduler.System.Intake.{CanTake, Took, takes}

-- What the work carries when it is queued.
abbrev pub context_at :
    Scheduler → (tenant_id flow_id : ℕ) → Work → Surroundings → FlowSessionContext
context_at s i f work around =
    context_of i f work (if s.config.enable_statistics then around.clock 0 else 0)

-- The tenant i is idle and configured, and so is its flow f; both schedulers can take a session, with
-- the blocks that the allocator gives, the capacity takes the work, and there is a block for its
-- in-flight entry.
pub record CanPass (s : Scheduler) (i f : ℕ) (work : Work) (around around' : Surroundings)
    : Type 0 where
  pub t : Tenant
  pub there : tenant_at s i ≡ some t
  pub configured : t.configured ≡ true
  pub own_id : t.tenant_id ≡ i
  pub unregistered : t.has_backlog ≡ false
  pub below : i < s.config.max_tenants
  pub entry : Entry
  pub flow_found : find_flow_entry t f ≡ some entry
  pub context_block : ℕ
  pub context_given : around.memory 0 ≡ some context_block
  pub flow_block : ℕ
  pub flow_given : around.memory 1 ≡ some flow_block
  pub tenant_block : ℕ
  pub tenant_given : around.memory 2 ≡ some tenant_block
  pub entry_block : ℕ
  pub entry_given : around'.memory 2 ≡ some entry_block
  pub flow_takes :
      CanTake
        (both_stats one_more t f).flow_scheduler
        f
        work.work_size
        (flow (context_at s i f work around))
        (around.clock 1)
        flow_block
  pub system_takes :
      CanTake s.system_scheduler i tenant_quantum_size (tenant i) (around.clock 2) tenant_block
  pub capacity : exceeds s work.work_size ≡ false

module _ (s : Scheduler) (i f : ℕ) (work : Work) (around around' : Surroundings)
    (k : CanPass s i f work around around') (some_work : work.work_size ≢ 0) (ne : f ≢ 0) where
  abbrev c : FlowSessionContext
  c = context_at s i f work around

  abbrev counted : Tenant
  counted = both_stats one_more k.t f

  abbrev flows : GroupScheduler
  flows =
      (enqueue counted.flow_scheduler f work.work_size (flow c) (around.clock 1)
        (some k.flow_block)).1

  abbrev system : GroupScheduler
  system =
      (enqueue s.system_scheduler i tenant_quantum_size (tenant i) (around.clock 2)
        (some k.tenant_block)).1

  flow-Took : Took counted.flow_scheduler f work.work_size (flow c) (around.clock 1) k.flow_block
  flow-Took =
      takes counted.flow_scheduler f work.work_size (flow c) (around.clock 1) k.flow_block some_work
        k.flow_takes

  system-Took :
      Took s.system_scheduler i tenant_quantum_size (tenant i) (around.clock 2) k.tenant_block
  system-Took =
      takes s.system_scheduler i tenant_quantum_size (tenant i) (around.clock 2) k.tenant_block
        (omega arith) k.system_takes

  abbrev registered_tenant : Tenant
  registered_tenant = record counted {
    flow_scheduler = flows;
    has_backlog = true;
    tenant_session = some k.tenant_block;
  }

  abbrev queued : Scheduler
  queued = set_tenant (record s { system_scheduler = system }) i registered_tenant

  counted_fields : (counted.has_backlog ≡ false) × (counted.tenant_id ≡ i)
  counted_fields =
      let q = both_stats-found one_more k.t f k.entry k.flow_found in
      (
        ap (λ (x : Tenant). x.has_backlog) q ∙ k.unregistered,
        ap (λ (x : Tenant). x.tenant_id) q ∙ k.own_id,
      )

  registers :
      (t : Tenant)
      → t.has_backlog ≡ false
      → t.tenant_id ≡ i
      → register_tenant_backlog t s.system_scheduler (around.clock 2) (around.memory 2)
        ≡ (success, record t { has_backlog = true; tenant_session = some k.tenant_block }, system)
  unfolding register_tenant_backlog
  registers t off own =
      let now = around.clock 2 in
      let q = tenant_quantum_size in
      let g = s.system_scheduler in
      ap
        (λ b.
          if b
          then (success, t, g)
          else registered t (around.memory 2)
              (enqueue g t.tenant_id q (tenant t.tenant_id) now (around.memory 2)))
        off
      ∙ ap (λ j. registered t (around.memory 2) (enqueue g j q (tenant j) now (around.memory 2)))
          own
      ∙ ap (λ m. registered t m (enqueue g i q (tenant i) now m)) k.tenant_given
      ∙ ap (registered t (some k.tenant_block)) system-Took.accepted

  after_success : (after_enqueue s counted i f around (success, flows)).2 ≡ queued
  unfolding after_enqueue
  after_success =
      ap
        (λ b. store_tenant s i (
          register_if (negate b) (record counted { flow_scheduler = flows }) s.system_scheduler
            (around.clock 2) (around.memory 2)))
        counted_fields.0
      ∙ ap (store_tenant s i)
          (registers (record counted { flow_scheduler = flows }) counted_fields.0 counted_fields.1)

  enqueued : (hwfq_enqueue s i f work around).2 ≡ queued
  unfolding hwfq_enqueue enqueue_tenant ensure_flow_entry enqueue_context
  enqueued =
      rw
        (
          ne→not-== _ _ some_work,
          (let q : leb s.config.max_tenants i ≡ false = ground (arith, k.below) in q),
          ne→not-== _ _ ne,
          find_of_tenant s i k.t k.there k.configured,
          k.flow_found,
          k.context_given,
          k.flow_given,
        )
        (ap (λ r. (after_enqueue s counted i f around r).2) flow-Took.accepted ∙ after_success)

  there' : tenant_at queued i ≡ some registered_tenant
  there' =
      get_or-set_self s.tenants i (some registered_tenant) none (lt_of_some s.tenants i k.t k.there)

  servable : (x : Session) → Has x (sessions system.calendar) → IsServable queued x
  servable x h = record {
    tenant_id = i;
    t = registered_tenant;
    points = system-Took.carries x h;
    there = there';
    queue = flow-Took.queue;
    contexts = λ y m. (c, flow-Took.carries y m, k.capacity);
  }

  delivers : Delivers c (hwfq_dequeue queued around')
  unfolding servable
  delivers =
      let q = system-Took.queue in
      let r = flow-Took.queue in
      let (x, g', e, d) = dequeue_lem system q.ready q.work q.small in
      let (y, h', e', d') = dequeue_lem flows r.ready r.work r.small in
      hwfq_dequeue-Delivers around' k.entry_block k.entry_given queued x y g' h'
        (servable x (Dequeued-Has system g' x d)) c
        (flow-Took.carries y (Dequeued-Has flows h' y d')) k.capacity e e' (ready_busy system q)

-- Work that is enqueued for a flow of an idle tenant comes out of the next dequeuing, with the pointer
-- and the size that it went in with, and the ids of its tenant and flow. Both are configured, each of
-- the two schedulers is ready, has no session and can take one (with a rate for the entry, a bin, and
-- times that do not saturate), the allocator gives the four blocks, and the capacity takes the work.
pub enqueue-dequeue :
    (s : Scheduler) (i f : ℕ) (work : Work) (around around' : Surroundings)
    → CanPass s i f work around around'
    → work.work_size ≢ 0
    → f ≢ 0
    → let r = hwfq_dequeue (hwfq_enqueue s i f work around).2 around' in
      (r.0 ≡ success)
      × (r.1
          ≡ some (record {
            user_data = work.user_data;
            work_size = work.work_size;
            timestamp = (if s.config.enable_statistics then around.clock 0 else 0);
            tenant_id = i;
            flow_id = f;
          }))
enqueue-dequeue s i f work around around' k some_work ne =
    subst (λ x. Delivers (context_at s i f work around) (hwfq_dequeue x around'))
      (sym (enqueued s i f work around around' k some_work ne))
      (delivers s i f work around around' k some_work ne)
