-- ===== src/System.antt =====
-- The scheduler as a whole: every call of the API that changes it, as a step, and the schedulers
-- that calls reach from `hwfq_init` (include/hwfq.h).
pub mod Accounts
pub mod RoundTrip
pub mod Intake
pub mod Passage
mod RunTests
mod PassageTests
mod Tests
use hwfq_scheduler.Base.{ℕ, ◌+◌, ◌<◌, ◌^◌, Bool, ◌≡◌, some}
use hwfq_scheduler.Types.{success, Allocation}
use hwfq_scheduler.Scheduler.{Config, Scheduler, Surroundings}
use hwfq_scheduler.Scheduler.Queue.{Work, hwfq_enqueue}
use hwfq_scheduler.Scheduler.Serve.{Delivery, hwfq_dequeue}
use hwfq_scheduler.Scheduler.Finish.{hwfq_complete, hwfq_cancel, hwfq_check_timeouts}
use hwfq_scheduler.Scheduler.Accounts.{IsNewAddress}
use hwfq_scheduler.Configuration.{hwfq_init}
use hwfq_scheduler.Configuration.Tenants.{
  hwfq_add_tenant, hwfq_configure_tenant, hwfq_remove_tenant,
}
use hwfq_scheduler.Configuration.Flows.{hwfq_add_flow, hwfq_remove_flow, hwfq_reconfigure_flow}
use hwfq_scheduler.Configuration.Stats.{hwfq_reset_stats}

-- The allocator gives a new in-flight entry an address that none has yet.
abbrev pub AllocatesAnew : Scheduler → Surroundings → Type 0
AllocatesAnew s around = (a : ℕ) → around.memory 2 ≡ some a → IsNewAddress s.in_flight a

-- The size of work that is delivered does not wrap when it is added to a size within the capacity.
abbrev pub FitsWord : Scheduler → Surroundings → Type 0
FitsWord s around =
    (d : Delivery)
    → (hwfq_dequeue s around).1 ≡ some d
    → d.work_size + s.config.total_capacity < 2 ^ 64

pub data Step : Scheduler → Scheduler → Type 0 where
  add_tenant :
      (mem : ℕ → Bool) (s : Scheduler) (a : Allocation) → Step s (hwfq_add_tenant mem s a).2
  configure_tenant :
      (s : Scheduler) (i : ℕ) (a : Allocation) → Step s (hwfq_configure_tenant s i a).1
  remove_tenant : (s : Scheduler) (i : ℕ) → Step s (hwfq_remove_tenant s i).1
  add_flow :
      (mem : ℕ → Bool) (s : Scheduler) (i : ℕ) (a : Allocation) → Step s (hwfq_add_flow mem s i a).2
  remove_flow : (s : Scheduler) (i f : ℕ) → Step s (hwfq_remove_flow s i f).1
  reconfigure_flow :
      (s : Scheduler) (i f : ℕ) (a : Allocation) → Step s (hwfq_reconfigure_flow s i f a).1
  reset_stats : (s : Scheduler) (i f : ℕ) → Step s (hwfq_reset_stats s i f)
  enqueue :
      (s : Scheduler) (i f : ℕ) (work : Work) (around : Surroundings)
      → Step s (hwfq_enqueue s i f work around).2
  dequeue :
      (s : Scheduler) (around : Surroundings)
      → AllocatesAnew s around
      → FitsWord s around
      → Step s (hwfq_dequeue s around).2
  complete :
      (s : Scheduler) (u i f now : ℕ) (around : Surroundings)
      → Step s (hwfq_complete s u i f now around).2
  cancel : (s : Scheduler) (u i f : ℕ) → Step s (hwfq_cancel s u i f).2
  check_timeouts : (s : Scheduler) (now : ℕ) → Step s (hwfq_check_timeouts s now).scheduler

-- What calls make of what `hwfq_init` returned.
pub data Reach (config : Config) : Scheduler → Type 0 where
  start :
      (mem : ℕ → Bool) (s : Scheduler) → hwfq_init mem config ≡ (success, some s) → Reach config s
  step : {s s' : Scheduler} → Reach config s → Step s s' → Reach config s'
