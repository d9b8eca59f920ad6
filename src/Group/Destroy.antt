-- ===== src/Group/Destroy.antt =====
-- `group_scheduler_destroy`: which sessions it frees.
use hwfq_scheduler.Base.{
  ℕ, suc, ◌+◌, ◌*◌, ◌%◌, ◌^◌, ◌≡◌, refl, ap, ap₂, ◌∙◌, List, [], ◌∷◌, ◌++◌, arith, get_or, length,
}
use hwfq_scheduler.Types.{Session}
use hwfq_scheduler.Calendar.Contents.{concat, sessions}
use hwfq_scheduler.Group.{GroupScheduler}
use hwfq_scheduler.Group.Queue.{freed_from, freed_by_destroy}
use hwfq_scheduler.Group.Ready.{IsReady}

-- The bins from i on, given as a list.
freed_from-suffix :
    (g : GroupScheduler) (rest : List (List Session)) (i : ℕ)
    → ((k : ℕ) → get_or g.calendar.bin_heads (i + k) [] ≡ get_or rest k [])
    → freed_from g (length rest) i ≡ concat rest
unfolding freed_from
freed_from-suffix g [] i h = refl
freed_from-suffix g (xs ∷ rest) i h =
    ap₂ (λ a b. a ++ b)
      (ap (λ j. get_or g.calendar.bin_heads j []) (let q : i ≡ i + 0 = omega arith in q) ∙ h 0)
      (freed_from-suffix g rest (suc i) (λ k.
        ap (λ j. get_or g.calendar.bin_heads j [])
          (let q : suc i + k ≡ i + suc k = omega arith in q)
        ∙ h (suc k)))

-- On a ready scheduler whose number of bins is that of its groups, destruction frees every queued
-- session exactly once, in the order of the bins.
pub freed_by_destroy_lem :
    (g : GroupScheduler)
    → IsReady g
    → g.num_groups * g.calendar.bins_per_group ≡ g.calendar.num_bins
    → freed_by_destroy g ≡ sessions g.calendar
unfolding freed_by_destroy
freed_by_destroy_lem g r e =
    ap (λ n. freed_from g n 0) bins
    ∙ freed_from-suffix g g.calendar.bin_heads 0
        (λ k. ap (λ j. get_or g.calendar.bin_heads j []) (omega arith))
  where
    bins : g.num_groups * g.calendar.bins_per_group % 2 ^ 32 ≡ length g.calendar.bin_heads
    bins = omega (arith, e, r.calendar.indexed.bins_fit, r.calendar.indexed.heads_length)
