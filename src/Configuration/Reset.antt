-- ===== src/Configuration/Reset.antt =====
-- `hwfq_reset_stats` as the two readers of the statistics see it.
use hwfq_scheduler.Base.{ℕ, true, ◌≡◌, refl, ap, ◌∙◌, Option, none, some}
use hwfq_scheduler.Types.{Entry}
use hwfq_scheduler.Scheduler.{Tenant, Scheduler, tenant_at, find_tenant, configured_only}
use hwfq_scheduler.Scheduler.Accounts.{Flight}
use hwfq_scheduler.Configuration.Stats.{reset_tenant_stats, reset_flow_stats, reset_all_flow_stats}

abbrev reset_whole : Tenant → Tenant
reset_whole t = reset_all_flow_stats (reset_tenant_stats t)

pub find_of_tenant :
    (s : Scheduler) (i : ℕ) (t : Tenant)
    → tenant_at s i ≡ some t
    → t.configured ≡ true
    → find_tenant s i ≡ some t
unfolding find_tenant
find_of_tenant s i t there c = ap configured_only there ∙ (rw c refl)

-- The entry as `reset_all_flow_stats` leaves it.
abbrev reset_entry_of : Option Entry → Option Entry
reset_entry_of none = none
reset_entry_of (some e) = some (reset_flow_stats e)
