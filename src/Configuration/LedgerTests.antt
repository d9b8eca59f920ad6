-- ===== src/Configuration/LedgerTests.antt =====
-- A tenant that gets another rate, with the tenant's entry in the system scheduler.
use hwfq_scheduler.Base.{◌≡◌, refl, some, [], ◌∷◌, arith}
use hwfq_scheduler.Types.{success, rate, Entry}
use hwfq_scheduler.Chunked.{get}
use hwfq_scheduler.Group.{configure_entry}
use hwfq_scheduler.Group.Sample.{served, pool, fresh}
use hwfq_scheduler.Scheduler.{Tenant, Scheduler, find_tenant}
use hwfq_scheduler.Scheduler.Sample.{customer, busy}
use hwfq_scheduler.Configuration.{would_exceed_capacity, validate_allocation}
use hwfq_scheduler.Configuration.Tenants.{configure_found, hwfq_configure_tenant}
use hwfq_scheduler.Configuration.Ledger.{IsMatched, hwfq_configure_tenant_ledger}

abbrev metered_entry : Entry
metered_entry = record served { allocation = rate 400; calculated_rate = 400 }

abbrev metered_tenant : Tenant
metered_tenant = record customer { allocation = rate 400 }

abbrev metered : Scheduler
metered = record busy {
  tenants = some metered_tenant ∷ [];
  allocated_rate_capacity = 400;
  system_scheduler = record fresh {
    entries = record pool { chunks = some (metered_entry ∷ []) ∷ [] };
    allocated_rate_capacity = 400;
  };
}

matched : IsMatched metered 0 metered_tenant metered_entry
unfolding get
matched = record {
  there = refl;
  configured = refl;
  held = refl;
  entered = refl;
  same = refl;
  below = omega arith;
  rates = refl;
  capacity = refl;
}

accepted : (hwfq_configure_tenant metered 0 (rate 900)).0 ≡ success
unfolding hwfq_configure_tenant configure_found would_exceed_capacity validate_allocation
    find_tenant
accepted = refl

hwfq_configure_tenant_ledger_example :
    let s' = (hwfq_configure_tenant metered 0 (rate 900)).1 in
    ((configure_entry metered.system_scheduler 0 (rate 900)).0 ≡ success)
    × (s'.system_scheduler.allocated_rate_capacity ≡ s'.allocated_rate_capacity)
hwfq_configure_tenant_ledger_example =
    hwfq_configure_tenant_ledger metered 0 metered_tenant metered_entry (rate 900) matched accepted
