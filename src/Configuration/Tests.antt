-- ===== src/Configuration/Tests.antt =====
-- The end of a scheduler and the reset of its statistics, with one tenant that has one flow.
use hwfq_scheduler.Base.{◌≡◌, refl}
use hwfq_scheduler.Types.{UserData, tenant, flow, Entry}
use hwfq_scheduler.Calendar.Contents.{sessions}
use hwfq_scheduler.Group.Sample.{queued, queued-lem, bins_match, served}
use hwfq_scheduler.Scheduler.Sample.{context, busy}
use hwfq_scheduler.Configuration.{hwfq_destroy}
use hwfq_scheduler.Configuration.Destroy.{IsWhole, queued_of_all, hwfq_destroy_lem}

queued-IsWhole : (u : UserData) → IsWhole (queued u)
queued-IsWhole u = ((queued-lem u).1, bins_match u)

hwfq_destroy_lem_example :
    let d = hwfq_destroy busy in
    (d.system_sessions ≡ sessions busy.system_scheduler.calendar)
    × (d.flow_sessions ≡ queued_of_all busy.tenants)
    × (d.in_flight_entries ≡ busy.in_flight.entries)
hwfq_destroy_lem_example =
    hwfq_destroy_lem busy (queued-IsWhole (tenant 0)) (queued-IsWhole (flow context), tt) refl

abbrev entry : Entry
entry = record served { last_finish_time = 1 }
