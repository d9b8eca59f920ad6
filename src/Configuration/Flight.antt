-- ===== src/Configuration/Flight.antt =====
-- The work in flight does not depend on src/hwfq_config.c: a new scheduler has none, and no
-- function there but `hwfq_destroy` touches it.
use hwfq_scheduler.Base.{ℕ, zero, suc, Bool, ◌&&◌, refl, ◌∙◌, Option, none, some, ltb, leb, ◌==◌}
use hwfq_scheduler.Types.{
  u32_max, Status, success, invalid_arg, no_memory, not_found, overbooked, no_work, has_backlog,
  internal, Allocation, Entry,
}
use hwfq_scheduler.Chunked.{ChunkedEntries, get}
use hwfq_scheduler.Group.{GroupScheduler}
use hwfq_scheduler.Scheduler.{Tenant, Scheduler, find_tenant, find_flow_entry}
use hwfq_scheduler.Scheduler.Accounts.{SameFlight, if_both}
use hwfq_scheduler.Configuration.{validate_allocation, would_exceed_capacity, remove_tenant}
use hwfq_scheduler.Configuration.Tenants.{
  Adding, has_free_slot, settle_tenant, enter_tenant, equip_tenant, hwfq_add_tenant,
  configure_found, hwfq_configure_tenant, remove_found, hwfq_remove_tenant,
}
use hwfq_scheduler.Configuration.Flows.{
  settle_flow, enter_flow, add_flow_to, hwfq_add_flow, remove_flow_entry, remove_flow_of,
  hwfq_remove_flow, reconfigure_flow_entry, reconfigure_flow_of, hwfq_reconfigure_flow,
}
use hwfq_scheduler.Configuration.Stats.{
  reset_tenant, reset_from, reset_entry, reset_flow_of, hwfq_reset_stats,
}

abbrev Adds : Scheduler → Adding → Type 0
Adds s r = SameFlight s (r.2)

abbrev Answers : Scheduler → Status × Scheduler → Type 0
Answers s r = SameFlight s (r.1)

settle_tenant-SameFlight :
    (s : Scheduler) (a : Allocation) (g : GroupScheduler) (i : ℕ) (r : Status × GroupScheduler)
    → Adds s (settle_tenant s a g i r)
unfolding settle_tenant
settle_tenant-SameFlight s a g i (success, system) = refl
settle_tenant-SameFlight s a g i (invalid_arg, system) = refl
settle_tenant-SameFlight s a g i (no_memory, system) = refl
settle_tenant-SameFlight s a g i (not_found, system) = refl
settle_tenant-SameFlight s a g i (overbooked, system) = refl
settle_tenant-SameFlight s a g i (no_work, system) = refl
settle_tenant-SameFlight s a g i (has_backlog, system) = refl
settle_tenant-SameFlight s a g i (internal, system) = refl

enter_tenant-SameFlight :
    (s : Scheduler) (a : Allocation) (g : GroupScheduler) (r : Status × Option ℕ × ChunkedEntries)
    → Adds s (enter_tenant s a g r)
unfolding enter_tenant
enter_tenant-SameFlight s a g (success, some i, ce) = settle_tenant-SameFlight s a g i _
enter_tenant-SameFlight s a g (success, none, ce) = refl
enter_tenant-SameFlight s a g (invalid_arg, i, ce) = refl
enter_tenant-SameFlight s a g (no_memory, i, ce) = refl
enter_tenant-SameFlight s a g (not_found, i, ce) = refl
enter_tenant-SameFlight s a g (overbooked, i, ce) = refl
enter_tenant-SameFlight s a g (no_work, i, ce) = refl
enter_tenant-SameFlight s a g (has_backlog, i, ce) = refl
enter_tenant-SameFlight s a g (internal, i, ce) = refl

equip_tenant-SameFlight :
    (mem : ℕ → Bool) (s : Scheduler) (a : Allocation) (o : Option GroupScheduler)
    → Adds s (equip_tenant mem s a o)
unfolding equip_tenant
equip_tenant-SameFlight mem s a none = refl
equip_tenant-SameFlight mem s a (some g) = enter_tenant-SameFlight s a g _

pub hwfq_add_tenant-SameFlight :
    (mem : ℕ → Bool) (s : Scheduler) (a : Allocation) → SameFlight s (hwfq_add_tenant mem s a).2
unfolding hwfq_add_tenant
hwfq_add_tenant-SameFlight mem s a =
    if_both (Adds s) (validate_allocation a) _ _
      (if_both (Adds s) (has_free_slot s s.config.max_tenants 0) _ _
        (if_both (Adds s) (would_exceed_capacity s a none) _ _ refl
          (if_both (Adds s) (mem 0) _ _ (equip_tenant-SameFlight mem s a _) refl))
        refl)
      refl

configure_found-SameFlight :
    (s : Scheduler) (o : Option Tenant) (i : ℕ) (a : Allocation)
    → Answers s (configure_found s o i a)
unfolding configure_found
configure_found-SameFlight s none i a = refl
configure_found-SameFlight s (some t) i a =
    if_both (Answers s) (would_exceed_capacity s a (some t.allocation)) _ _ refl refl

pub hwfq_configure_tenant-SameFlight :
    (s : Scheduler) (i : ℕ) (a : Allocation) → SameFlight s (hwfq_configure_tenant s i a).1
unfolding hwfq_configure_tenant
hwfq_configure_tenant-SameFlight s i a = if_both (Answers s) (leb s.config.max_tenants i) _ _ refl (
    if_both (Answers s) (validate_allocation a) _ _
      (configure_found-SameFlight s (find_tenant s i) i a) refl)

remove_found-SameFlight :
    (s : Scheduler) (o : Option Tenant) (i : ℕ) → Answers s (remove_found s o i)
unfolding remove_found remove_tenant
remove_found-SameFlight s none i = refl
remove_found-SameFlight s (some t) i = if_both (Answers s) t.has_backlog _ _ refl refl

pub hwfq_remove_tenant-SameFlight :
    (s : Scheduler) (i : ℕ) → SameFlight s (hwfq_remove_tenant s i).1
unfolding hwfq_remove_tenant
hwfq_remove_tenant-SameFlight s i =
    if_both (Answers s) (leb s.config.max_tenants i) _ _ refl
      (remove_found-SameFlight s (find_tenant s i) i)

settle_flow-SameFlight :
    (s : Scheduler) (t : Tenant) (i f : ℕ) (r : Status × GroupScheduler)
    → Adds s (settle_flow s t i f r)
unfolding settle_flow
settle_flow-SameFlight s t i f (success, g) = refl
settle_flow-SameFlight s t i f (invalid_arg, g) = refl
settle_flow-SameFlight s t i f (no_memory, g) = refl
settle_flow-SameFlight s t i f (not_found, g) = refl
settle_flow-SameFlight s t i f (overbooked, g) = refl
settle_flow-SameFlight s t i f (no_work, g) = refl
settle_flow-SameFlight s t i f (has_backlog, g) = refl
settle_flow-SameFlight s t i f (internal, g) = refl

enter_flow-SameFlight :
    (s : Scheduler) (t : Tenant) (i : ℕ) (a : Allocation) (r : Status × Option ℕ × ChunkedEntries)
    → Adds s (enter_flow s t i a r)
unfolding enter_flow
enter_flow-SameFlight s t i a (success, some f, ce) = settle_flow-SameFlight s t i f _
enter_flow-SameFlight s t i a (success, none, ce) = refl
enter_flow-SameFlight s t i a (invalid_arg, f, ce) = refl
enter_flow-SameFlight s t i a (no_memory, f, ce) = refl
enter_flow-SameFlight s t i a (not_found, f, ce) = refl
enter_flow-SameFlight s t i a (overbooked, f, ce) = refl
enter_flow-SameFlight s t i a (no_work, f, ce) = refl
enter_flow-SameFlight s t i a (has_backlog, f, ce) = refl
enter_flow-SameFlight s t i a (internal, f, ce) = refl

add_flow_to-SameFlight :
    (mem : ℕ → Bool) (s : Scheduler) (o : Option Tenant) (i : ℕ) (a : Allocation)
    → Adds s (add_flow_to mem s o i a)
unfolding add_flow_to
add_flow_to-SameFlight mem s none i a = refl
add_flow_to-SameFlight mem s (some t) i a =
    if_both (Adds s)
      (ltb 0 s.config.max_total_flows && leb s.config.max_total_flows s.total_active_flows) _ _ refl
      (enter_flow-SameFlight s t i a _)

pub hwfq_add_flow-SameFlight :
    (mem : ℕ → Bool) (s : Scheduler) (i : ℕ) (a : Allocation)
    → SameFlight s (hwfq_add_flow mem s i a).2
unfolding hwfq_add_flow
hwfq_add_flow-SameFlight mem s i a = if_both (Adds s) (leb s.config.max_tenants i) _ _ refl (
    if_both (Adds s) (validate_allocation a) _ _
      (add_flow_to-SameFlight mem s (find_tenant s i) i a) refl)

remove_flow_entry-SameFlight :
    (s : Scheduler) (t : Tenant) (i f : ℕ) (o : Option Entry)
    → Answers s (remove_flow_entry s t i f o)
unfolding remove_flow_entry
remove_flow_entry-SameFlight s t i f none = refl
remove_flow_entry-SameFlight s t i f (some e) =
    if_both (Answers s) (ltb 0 e.stats.current_backlog) _ _ refl refl

remove_flow_of-SameFlight :
    (s : Scheduler) (o : Option Tenant) (i f : ℕ) → Answers s (remove_flow_of s o i f)
unfolding remove_flow_of
remove_flow_of-SameFlight s none i f = refl
remove_flow_of-SameFlight s (some t) i f =
    remove_flow_entry-SameFlight s t i f (find_flow_entry t f)

pub hwfq_remove_flow-SameFlight :
    (s : Scheduler) (i f : ℕ) → SameFlight s (hwfq_remove_flow s i f).1
unfolding hwfq_remove_flow
hwfq_remove_flow-SameFlight s i f =
    if_both (Answers s) (leb s.config.max_tenants i) _ _ refl
      (remove_flow_of-SameFlight s (find_tenant s i) i f)

reconfigure_flow_entry-SameFlight :
    (s : Scheduler) (t : Tenant) (i f : ℕ) (a : Allocation) (o : Option Entry)
    → Answers s (reconfigure_flow_entry s t i f a o)
unfolding reconfigure_flow_entry
reconfigure_flow_entry-SameFlight s t i f a none = refl
reconfigure_flow_entry-SameFlight s t i f a (some e) = refl

reconfigure_flow_of-SameFlight :
    (s : Scheduler) (o : Option Tenant) (i f : ℕ) (a : Allocation)
    → Answers s (reconfigure_flow_of s o i f a)
unfolding reconfigure_flow_of
reconfigure_flow_of-SameFlight s none i f a = refl
reconfigure_flow_of-SameFlight s (some t) i f a =
    reconfigure_flow_entry-SameFlight s t i f a (find_flow_entry t f)

pub hwfq_reconfigure_flow-SameFlight :
    (s : Scheduler) (i f : ℕ) (a : Allocation) → SameFlight s (hwfq_reconfigure_flow s i f a).1
unfolding hwfq_reconfigure_flow
hwfq_reconfigure_flow-SameFlight s i f a = if_both (Answers s) (f == 0) _ _ refl (
    if_both (Answers s) (leb s.config.max_tenants i) _ _ refl (
      if_both (Answers s) (validate_allocation a) _ _
        (reconfigure_flow_of-SameFlight s (find_tenant s i) i f a) refl))

reset_tenant-SameFlight :
    (s : Scheduler) (i : ℕ) (o : Option Tenant) → SameFlight s (reset_tenant s i o)
reset_tenant-SameFlight s i none = refl
reset_tenant-SameFlight s i (some t) = refl

reset_from-SameFlight : (s : Scheduler) (left i : ℕ) → SameFlight s (reset_from s left i)
unfolding reset_from
reset_from-SameFlight s zero i = refl
reset_from-SameFlight s (suc left) i =
    reset_from-SameFlight (reset_tenant s i (find_tenant s i)) left (suc i)
    ∙ reset_tenant-SameFlight s i (find_tenant s i)

reset_flow_of-SameFlight :
    (s : Scheduler) (o : Option Tenant) (i f : ℕ) → SameFlight s (reset_flow_of s o i f)
reset_flow_of-SameFlight s none i f = refl
reset_flow_of-SameFlight s (some t) i f = entry_same (get t.flow_scheduler.entries f)
  where
    entry_same : (o : Option Entry) → SameFlight s (reset_entry s t i f o)
    entry_same none = refl
    entry_same (some e) = refl

pub hwfq_reset_stats-SameFlight : (s : Scheduler) (i f : ℕ) → SameFlight s (hwfq_reset_stats s i f)
unfolding hwfq_reset_stats
hwfq_reset_stats-SameFlight s i f =
    if_both (SameFlight s) (i == u32_max) _ _ (reset_from-SameFlight s s.config.max_tenants 0) (
      if_both (SameFlight s) (ltb i s.config.max_tenants) _ _
        (if_both (SameFlight s) (f == u32_max) _ _ (reset_tenant-SameFlight s i (find_tenant s i))
          (reset_flow_of-SameFlight s (find_tenant s i) i f))
        refl)
