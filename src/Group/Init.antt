-- ===== src/Group/Init.antt =====
-- `group_scheduler_init_with_entries`: what it makes is ready and empty.
use hwfq_scheduler.Base.{
  ℕ, ◌+◌, ◌*◌, ◌/◌, ◌%◌, ◌^◌, ◌≤◌, ◌<◌, Bool, true, ◌≡◌, ◌≢◌, refl, sym, some, List, [], arith,
  length, replicate, All, subst, ap, ne→not-==,
}
use hwfq_scheduler.Types.{u64_max, Session}
use hwfq_scheduler.Calendar.Contents.{sessions}
use hwfq_scheduler.Calendar.Empty.{concat-empty, no_bin, empty-IsValid}
use hwfq_scheduler.Chunked.{ChunkedEntries}
use hwfq_scheduler.Group.{GroupScheduler, init_with_entries}
use hwfq_scheduler.Group.Ready.{IsReady}

-- The scheduler g is new: ready, with no session, no entry configured, and virtual time 0.
pub record IsNew (g : GroupScheduler) (bins capacity : ℕ) (ce : ChunkedEntries) : Type 0 where
  pub ready : IsReady g
  pub no_sessions : sessions g.calendar ≡ []
  pub num_bins : g.calendar.num_bins ≡ bins
  pub at_zero : g.calendar.virtual_time ≡ 0
  pub no_entries : g.configured_entries ≡ []
  pub unallocated : g.allocated_rate_capacity ≡ 0
  pub unweighted : g.total_weight ≡ 0
  pub capacity_kept : g.total_capacity ≡ capacity
  pub entries_kept : g.entries ≡ ce

-- If no allocation fails, the sizes are not 0 and there are at most 32768 bins, the new scheduler
-- is ready and empty, at virtual time 0, with nothing allocated.
pub init_with_entries_lem :
    (mem : ℕ → Bool) (num_groups bins_per_group total_capacity max_entries : ℕ)
    (ce : ChunkedEntries)
    → mem 0 ≡ true
    → mem 1 ≡ true
    → mem 2 ≡ true
    → num_groups ≢ 0
    → bins_per_group ≢ 0
    → max_entries ≢ 0
    → num_groups * bins_per_group ≤ 32768
    → (g : GroupScheduler) × (init_with_entries mem num_groups bins_per_group total_capacity
          max_entries ce
        ≡ some g)
      × IsNew g (num_groups * bins_per_group) total_capacity ce
unfolding init_with_entries
init_with_entries_lem mem ng bp total me ce m0 m1 m2 h1 h2 h3 small =
    rw (ne→not-== _ _ h1, ne→not-== _ _ h2, ne→not-== _ _ h3, m0, m1, m2)
      (
        _,
        refl,
        record {
          ready = record {
            calendar =
                empty-IsValid _ (ng * bp) small num
                  (ap (λ n. replicate {A = List Session} n []) num) (ap (λ n. replicate n 0) size)
                  size refl refl;
            timed = λ i.
                subst (All (λ t. (t.start_time ≤ t.finish_time) × (t.finish_time < u64_max)))
                  (sym (no_bin (ng * bp % 2 ^ 32) i)) tt;
            counted = sym (ap length (concat-empty (ng * bp % 2 ^ 32)));
          };
          no_sessions = concat-empty (ng * bp % 2 ^ 32);
          num_bins = num;
          at_zero = refl;
          no_entries = refl;
          unallocated = refl;
          unweighted = refl;
          capacity_kept = refl;
          entries_kept = refl;
        },
      )
  where
    num : ng * bp % 2 ^ 32 ≡ ng * bp
    num = omega arith

    size : (ng * bp % 2 ^ 32 + 31) % 2 ^ 32 / 32 ≡ (ng * bp + 31) / 32
    size = omega arith
