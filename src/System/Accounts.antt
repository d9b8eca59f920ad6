-- ===== src/System/Accounts.antt =====
-- The accounts of the work in flight are in order in every scheduler that calls reach.
use hwfq_scheduler.Base.{
  List, ltb, ◌&&◌, ◌%◌, some_inj, ℕ, ◌+◌, ◌<◌, ◌≤◌, ◌^◌, Bool, true, false, ◌≡◌, refl, subst, ap,
  inl, inr, Option, none, some, [], arith, length-replicate, get_or-replicate, Bool-cases,
  replicate, ◌==◌,
}
use hwfq_scheduler.Types.{Status, success}
use hwfq_scheduler.Group.{GroupScheduler}
use hwfq_scheduler.InFlight.{InFlightEntry, hash_buckets}
use hwfq_scheduler.InFlight.Table.{IsTable}
use hwfq_scheduler.InFlight.Lists.{keep}
use hwfq_scheduler.Scheduler.{Config, Scheduler, Surroundings}
use hwfq_scheduler.Scheduler.Serve.{hwfq_dequeue}
use hwfq_scheduler.Scheduler.Accounts.{if_both, IsAccounted, IsBalanced-same, launched-IsAccounted}
use hwfq_scheduler.Scheduler.Flight.{hwfq_enqueue-SameFlight, LaunchOrSame, hwfq_dequeue_lem}
use hwfq_scheduler.Scheduler.Leave.{hwfq_complete-Ends, hwfq_cancel-Ends, Ends-IsAccounted}
use hwfq_scheduler.Scheduler.Expire.{hwfq_check_timeouts_lem}
use hwfq_scheduler.Configuration.{with_defaults, fresh, with_hash, init_configured, hwfq_init}
use hwfq_scheduler.Configuration.Flight.{
  hwfq_add_tenant-SameFlight, hwfq_configure_tenant-SameFlight, hwfq_remove_tenant-SameFlight,
  hwfq_add_flow-SameFlight, hwfq_remove_flow-SameFlight, hwfq_reconfigure_flow-SameFlight,
  hwfq_reset_stats-SameFlight,
}
use hwfq_scheduler.System.{AllocatesAnew, FitsWord, Step, Reach}
use hwfq_scheduler.System.Step.{
  add_tenant, configure_tenant, remove_tenant, add_flow, remove_flow, reconfigure_flow, reset_stats,
  enqueue, dequeue, complete, cancel, check_timeouts,
}
use hwfq_scheduler.System.Reach.{start, step}

empty-IsTable : IsTable (record { hash = replicate hash_buckets []; entries = [] })
unfolding keep
empty-IsTable = record {
  buckets = length-replicate {A = List InFlightEntry} hash_buckets [];
  chains = λ b l. get_or-replicate {A = List InFlightEntry} hash_buckets [] b;
  distinct = tt;
}

fresh-IsAccounted :
    (config : Config) (g : GroupScheduler)
    → 0 < config.total_capacity
    → config.total_capacity < 2 ^ 64
    → IsAccounted (fresh config g)
fresh-IsAccounted config g positive word = record {
  table = empty-IsTable;
  size = refl;
  bounded = omega arith;
  count = refl;
  positive = positive;
  word = word;
}

abbrev Initial : Status × Option Scheduler → Type 0
Initial r = (s : Scheduler) → r ≡ (success, some s) → IsAccounted s

with_hash-Initial :
    (m : Bool) (config : Config) (o : Option GroupScheduler)
    → 0 < config.total_capacity
    → config.total_capacity < 2 ^ 64
    → Initial (with_hash m config o)
unfolding with_hash
with_hash-Initial m config none positive word = λ s h. absurd (cc)
with_hash-Initial false config (some g) positive word = λ s h. absurd (cc)
with_hash-Initial true config (some g) positive word = λ s h.
    subst IsAccounted (some_inj (ap (λ (r : Status × Option Scheduler). r.1) h))
      (fresh-IsAccounted config g positive word)

hwfq_init-IsAccounted :
    (mem : ℕ → Bool) (config : Config)
    → config.total_capacity < 2 ^ 64
    → Initial (hwfq_init mem config)
unfolding hwfq_init init_configured
hwfq_init-IsAccounted mem config word =
    if_both Initial (config.max_tenants == 0) _ _ (λ s h. absurd (cc))
      (if_both Initial (config.max_flows_per_tenant == 0) _ _ (λ s h. absurd (cc))
        (elim (Bool-cases (config.total_capacity == 0)) [
          | inl z ↦ rw z (λ s h. absurd (cc))
          | inr z ↦ rw z (
              if_both Initial (mem 0) _ _
                (if_both Initial (mem 1) _ _
                  (with_hash-Initial (mem 5) (with_defaults config) _ (ground arith) word)
                  (λ s h. absurd (cc)))
                (λ s h. absurd (cc)))
        ]))

within_capacity :
    (cap size w : ℕ)
    → 0 < cap
    → size ≤ cap
    → w + cap < 2 ^ 64
    → (ltb 0 cap && ltb cap ((size + w) % 2 ^ 64)) ≡ false
    → size + w ≤ cap
within_capacity cap size w p b f h = ground arith

pub hwfq_dequeue-IsAccounted :
    (s : Scheduler) (around : Surroundings)
    → IsAccounted s
    → AllocatesAnew s around
    → FitsWord s around
    → IsAccounted (hwfq_dequeue s around).2
hwfq_dequeue-IsAccounted s around v anew fits = by_case (hwfq_dequeue_lem s around)
  where
    by_case : LaunchOrSame s around (hwfq_dequeue s around) → IsAccounted (hwfq_dequeue s around).2
    by_case (inl h) = IsBalanced-same h.0 v
    by_case (inr h) = IsBalanced-same h.after (
        launched-IsAccounted s h.entry v (anew h.entry.address h.allocated) (
          within_capacity _ _ _ v.positive v.bounded (rw h.same_work (fits h.delivery h.written))
            h.within))

Step-IsAccounted : (s s' : Scheduler) → Step s s' → IsAccounted s → IsAccounted s'
Step-IsAccounted s s' (add_tenant mem _ a) v =
    IsBalanced-same (hwfq_add_tenant-SameFlight mem s a) v
Step-IsAccounted s s' (configure_tenant _ i a) v =
    IsBalanced-same (hwfq_configure_tenant-SameFlight s i a) v
Step-IsAccounted s s' (remove_tenant _ i) v = IsBalanced-same (hwfq_remove_tenant-SameFlight s i) v
Step-IsAccounted s s' (add_flow mem _ i a) v =
    IsBalanced-same (hwfq_add_flow-SameFlight mem s i a) v
Step-IsAccounted s s' (remove_flow _ i f) v = IsBalanced-same (hwfq_remove_flow-SameFlight s i f) v
Step-IsAccounted s s' (reconfigure_flow _ i f a) v =
    IsBalanced-same (hwfq_reconfigure_flow-SameFlight s i f a) v
Step-IsAccounted s s' (reset_stats _ i f) v = IsBalanced-same (hwfq_reset_stats-SameFlight s i f) v
Step-IsAccounted s s' (enqueue _ i f work around) v =
    IsBalanced-same (hwfq_enqueue-SameFlight s i f work around) v
Step-IsAccounted s s' (dequeue _ around anew fits) v = hwfq_dequeue-IsAccounted s around v anew fits
Step-IsAccounted s s' (complete _ u i f now around) v =
    Ends-IsAccounted s u i f _ v (hwfq_complete-Ends s u i f now around)
Step-IsAccounted s s' (cancel _ u i f) v = Ends-IsAccounted s u i f _ v (hwfq_cancel-Ends s u i f)
Step-IsAccounted s s' (check_timeouts _ now) v = (hwfq_check_timeouts_lem s now v).3

-- In every scheduler that calls reach from `hwfq_init`, with a capacity that is a 64-bit word, the
-- hash table and the list of the work in flight agree, `in_flight_work_size` is the exact total of
-- the list and at most the capacity, and `in_flight_count` is the length of the list, in 32 bits.
-- The steps assume that a new in-flight entry has an address of its own and that the size of
-- delivered work and the capacity add up to a 64-bit word.
pub Reach-IsAccounted :
    (config : Config) (s : Scheduler)
    → Reach config s
    → config.total_capacity < 2 ^ 64
    → IsAccounted s
Reach-IsAccounted config s (start mem _ h) word = hwfq_init-IsAccounted mem config word s h
Reach-IsAccounted config s (step {s = s0} r k) word =
    Step-IsAccounted s0 s k (Reach-IsAccounted config s0 r word)
