-- ===== src/Configuration/Destroy.antt =====
-- `hwfq_destroy`: what it frees.
use hwfq_scheduler.Base.{
  ℕ, suc, ◌+◌, ◌*◌, ◌≡◌, refl, sym, ap, ap₂, ◌∙◌, Option, none, some, List, [], ◌∷◌, ◌++◌, arith,
  get_or, length, All,
}
use hwfq_scheduler.Types.{Session}
use hwfq_scheduler.Calendar.Contents.{sessions}
use hwfq_scheduler.Group.{GroupScheduler}
use hwfq_scheduler.Group.Ready.{IsReady}
use hwfq_scheduler.Group.Destroy.{freed_by_destroy_lem}
use hwfq_scheduler.Scheduler.{Tenant, Scheduler, tenant_at}
use hwfq_scheduler.Configuration.{flow_sessions_of, destroy_tenants, hwfq_destroy}

-- Ready, and with the number of bins that its groups make.
abbrev pub IsWhole : GroupScheduler → Type 0
IsWhole g = IsReady g × (g.num_groups * g.calendar.bins_per_group ≡ g.calendar.num_bins)

abbrev pub IsWholeTenant : Option Tenant → Type 0
IsWholeTenant none = Unit
IsWholeTenant (some t) = IsWhole t.flow_scheduler

abbrev pub queued_at : Option Tenant → List Session
queued_at none = []
queued_at (some t) = sessions t.flow_scheduler.calendar

-- The sessions of the flows of all tenants, in the order of the tenants.
abbrev pub queued_of_all : List (Option Tenant) → List Session
queued_of_all [] = []
queued_of_all (o ∷ os) = queued_at o ++ queued_of_all os

flow_sessions_of_lem : (o : Option Tenant) → IsWholeTenant o → flow_sessions_of o ≡ queued_at o
flow_sessions_of_lem none w = refl
flow_sessions_of_lem (some t) w = freed_by_destroy_lem t.flow_scheduler w.0 w.1

destroy_tenants-suffix :
    (s : Scheduler) (rest : List (Option Tenant)) (i : ℕ)
    → ((k : ℕ) → tenant_at s (i + k) ≡ get_or rest k none)
    → All IsWholeTenant rest
    → destroy_tenants s (length rest) i ≡ queued_of_all rest
unfolding destroy_tenants
destroy_tenants-suffix s [] i h w = refl
destroy_tenants-suffix s (o ∷ rest) i h w =
    ap₂ (λ a b. a ++ b)
      (ap flow_sessions_of (ap (tenant_at s) (let q : i ≡ i + 0 = omega arith in q) ∙ h 0)
        ∙ flow_sessions_of_lem o w.0)
      (destroy_tenants-suffix s rest (suc i)
        (λ k. ap (tenant_at s) (let q : suc i + k ≡ i + suc k = omega arith in q) ∙ h (suc k)) w.1)

-- `hwfq_destroy` frees every session of the system scheduler and of every tenant's flows exactly
-- once, in the order of the bins and of the tenants, and every entry in flight, if all these
-- schedulers are ready, with the number of bins that their groups make, and there is a slot for each
-- of `max_tenants`.
pub hwfq_destroy_lem :
    (s : Scheduler)
    → IsWhole s.system_scheduler
    → All IsWholeTenant s.tenants
    → length s.tenants ≡ s.config.max_tenants
    → let d = hwfq_destroy s in
      (d.system_sessions ≡ sessions s.system_scheduler.calendar)
      × (d.flow_sessions ≡ queued_of_all s.tenants)
      × (d.in_flight_entries ≡ s.in_flight.entries)
unfolding hwfq_destroy
hwfq_destroy_lem s w ws slots = (
  freed_by_destroy_lem s.system_scheduler w.0 w.1,
  ap (λ n. destroy_tenants s n 0) (sym slots)
      ∙ destroy_tenants-suffix s s.tenants 0 (λ k. ap (tenant_at s) (omega arith)) ws,
  refl,
)
