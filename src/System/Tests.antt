-- ===== src/System/Tests.antt =====
-- The theorems about the whole scheduler, on the run of System/RunTests.
use hwfq_scheduler.Base.{◌+◌, ◌≡◌, some, none, [], ◌^◌}
use hwfq_scheduler.Types.{rate}
use hwfq_scheduler.Scheduler.{Config, Surroundings}
use hwfq_scheduler.Scheduler.Queue.{hwfq_enqueue}
use hwfq_scheduler.Scheduler.Serve.{Delivery}
use hwfq_scheduler.InFlight.{find_by, in_flight_find}
use mathlib.Core.List.{reverse}
use hwfq_scheduler.Base.{
  ◌%◌, ◌<◌, sym, ap, ◌∙◌, subst, some_inj, arith, length, if◌then◌else◌, ◌==◌,
}
use hwfq_scheduler.InFlight.{in_flight_find, find_by, is_session}
use hwfq_scheduler.InFlight.Lists.{keep}
use hwfq_scheduler.InFlight.Table.{in_flight_find_lem}
use hwfq_scheduler.Scheduler.Serve.{Dequeuing}
use hwfq_scheduler.Scheduler.Finish.{hwfq_complete, hwfq_cancel, is_timed_out, hwfq_check_timeouts}
use hwfq_scheduler.Scheduler.Accounts.{IsAccounted}
use hwfq_scheduler.Scheduler.Expire.{in_time, hwfq_check_timeouts_lem}
use hwfq_scheduler.Scheduler.Leave.{EndsWanted, ends_wanted}
use hwfq_scheduler.Scheduler.Refuse.{KeepsScheduler, hwfq_enqueue-KeepsScheduler}
use hwfq_scheduler.System.{AllocatesAnew, FitsWord, Step, Reach}
use hwfq_scheduler.System.Reach.{start, step}
use hwfq_scheduler.System.Accounts.{Reach-IsAccounted}
use hwfq_scheduler.System.RoundTrip.{IsBack, dequeue-end}
use hwfq_scheduler.Base.{ℕ, ◌<◌, none, refl}
use hwfq_scheduler.Scheduler.{tenant_at}
use hwfq_scheduler.Configuration.Tenants.{
  hwfq_configure_tenant, hwfq_remove_tenant, hwfq_add_tenant,
}
use hwfq_scheduler.Configuration.Rates.{IsRated}
use hwfq_scheduler.Configuration.RatesKept.{GivesFreeSlot, tenants-IsRated}
use hwfq_scheduler.System.RunTests.{added}
use hwfq_scheduler.System.RunTests.{
  config, all, around, started, init-started, work, with_tenant, with_flow, with_work, served,
  delivered, run, counted,
}

anew : AllocatesAnew with_work around
anew a q = rw run.0 tt

fits : FitsWord with_work around
fits d q =
    subst (λ (c : Config). d.work_size + c.total_capacity < 2 ^ 64) (sym run.1)
      (subst (λ (d : Delivery). d.work_size + 2 ^ 21 < 2 ^ 64)
        (some_inj (sym (ap (λ (r : Dequeuing). r.1) run.2) ∙ q)) (omega arith))

Reach-with_work : Reach config with_work
Reach-with_work =
    step
      (step (step (start all started init-started) (Step.add_tenant all started (rate (2 ^ 20))))
        (Step.add_flow all with_tenant 0 (rate (2 ^ 20))))
      (Step.enqueue with_flow 0 1 work around)

Reach-served : Reach config served
Reach-served = step Reach-with_work (Step.dequeue with_work around anew fits)

Reach-IsAccounted_example : IsAccounted served
Reach-IsAccounted_example = Reach-IsAccounted config served Reach-served (omega arith)

dequeue-end_example :
    IsBack with_work (hwfq_complete served 55 0 1 200 around)
    × IsBack with_work (hwfq_cancel served 55 0 1)
dequeue-end_example =
    dequeue-end with_work around around 200 delivered
      (Reach-IsAccounted config with_work Reach-with_work (omega arith)) anew fits
      (ap (λ (r : Dequeuing). r.0) run.2) (ap (λ (r : Dequeuing). r.1) run.2) (omega arith)

ends_wanted_example :
    EndsWanted served 55 0 1 (hwfq_complete served 55 0 1 200 around)
    × EndsWanted served 55 0 1 (hwfq_cancel served 55 0 1)
ends_wanted_example =
    ends_wanted served 55 0 1 200 around
      (Reach-IsAccounted config served Reach-served (omega arith))

hwfq_check_timeouts_lem_example :
    let r = hwfq_check_timeouts served 200 in
    let out = keep (is_timed_out 200) served.in_flight.entries in
    (r.scheduler.in_flight.entries ≡ keep (in_time 200) served.in_flight.entries)
    × (r.callbacks ≡ (if served.config.session_timeout_fn then reverse out else []))
    × (r.timeout_count ≡ length out % 2 ^ 32)
    × IsAccounted r.scheduler
    × (r.scheduler ≡ record served {
      in_flight = r.scheduler.in_flight;
      in_flight_work_size = r.scheduler.in_flight_work_size;
      in_flight_count = r.scheduler.in_flight_count;
    })
hwfq_check_timeouts_lem_example =
    hwfq_check_timeouts_lem served 200 (Reach-IsAccounted config served Reach-served (omega arith))

in_flight_find_lem_example :
    in_flight_find served.in_flight 55 0 1
    ≡ find_by (is_session 55 0 1) (reverse served.in_flight.entries)
in_flight_find_lem_example =
    in_flight_find_lem served.in_flight 55 0 1
      (Reach-IsAccounted config served Reach-served (omega arith)).table

-- The allocator has no block for the session of the flow.
abbrev full : Surroundings
full = record around { memory = λ i. if i == 0 then some 7 else none }

hwfq_enqueue-KeepsScheduler_example :
    KeepsScheduler with_flow (hwfq_enqueue with_flow 0 1 work full)
hwfq_enqueue-KeepsScheduler_example = hwfq_enqueue-KeepsScheduler with_flow 0 1 work full counted

gives_free_slot : GivesFreeSlot started (hwfq_add_tenant all started (rate (2 ^ 20)))
gives_free_slot i q =
    subst (λ (i : ℕ). (tenant_at started i ≡ none) × (i < length started.tenants))
      (some_inj (sym added ∙ q)) (refl, omega arith)

tenants-IsRated_example :
    IsRated (hwfq_add_tenant all started (rate (2 ^ 20))).2
    × IsRated (hwfq_configure_tenant started 0 (rate (2 ^ 20))).1
    × IsRated (hwfq_remove_tenant started 0).1
tenants-IsRated_example =
    tenants-IsRated all started 0 (rate (2 ^ 20))
      (record { sum = refl; bounded = omega arith; word = omega arith }) (omega arith)
      gives_free_slot
