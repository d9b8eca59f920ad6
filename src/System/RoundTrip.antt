-- ===== src/System/RoundTrip.antt =====
-- Work that `hwfq_dequeue` delivers and `hwfq_complete` or `hwfq_cancel` gives back.
use mathlib.Core.List.{reverse-append, append-nil}
use hwfq_scheduler.Base.{
  ℕ, ◌+◌, ◌^◌, ◌<◌, ◌≡◌, ◌≢◌, refl, sym, ap, ◌∙◌, subst, some, [], ◌∷◌, arith, inl, inr, ==_self,
  ne→not-==, some_inj,
}
use hwfq_scheduler.Types.{success}
use hwfq_scheduler.Group.{sub64, sub32}
use hwfq_scheduler.InFlight.{
  InFlightEntry, InFlight, find_by, find_session, in_flight_insert, in_flight_remove,
}
use hwfq_scheduler.InFlight.Table.{IsTable, in_flight_find_lem}
use hwfq_scheduler.Scheduler.{Scheduler, Surroundings}
use hwfq_scheduler.Scheduler.Queue.{Outcome}
use hwfq_scheduler.Scheduler.Serve.{Delivery, launched, hwfq_dequeue}
use hwfq_scheduler.Scheduler.Finish.{released, hwfq_complete, hwfq_cancel}
use hwfq_scheduler.Scheduler.Accounts.{Flight, flight, IsAccounted, IsBalanced-same}
use hwfq_scheduler.Scheduler.Flight.{Launch, LaunchOrSame, hwfq_dequeue_lem}
use hwfq_scheduler.Scheduler.Leave.{Ends, hwfq_complete-Ends, hwfq_cancel-Ends}
use hwfq_scheduler.Scheduler.Expire.{erase_middle}
use hwfq_scheduler.System.{AllocatesAnew, FitsWord}
use hwfq_scheduler.System.Accounts.{hwfq_dequeue-IsAccounted}

-- The newest entry is what a search for its pointer and its flow finds.
find_session-newest :
    (t : InFlight) (e : InFlightEntry)
    → IsTable (in_flight_insert t e)
    → e.user_data ≢ 0
    → find_session (in_flight_insert t e) e.user_data e.tenant_id e.flow_id ≡ some e
unfolding find_session in_flight_insert find_by
find_session-newest t e v ne = rw (ne→not-== _ _ ne) (
    in_flight_find_lem (in_flight_insert t e) e.user_data e.tenant_id e.flow_id v
    ∙ (rw
        (
          reverse-append t.entries (e ∷ []),
          ==_self e.user_data,
          ==_self e.tenant_id,
          ==_self e.flow_id,
        )
        refl))

-- The work in flight without the entry.
abbrev flight_without : InFlightEntry → Flight → Flight
flight_without e f = (in_flight_remove (f.0) e, sub64 (f.1) e.work_size, sub32 (f.2) 1, f.3)

-- The work in flight of the call's result is that of s: the same list and the same totals.
abbrev pub IsBack : Scheduler → Outcome → Type 0
IsBack s r =
    (r.0 ≡ success)
    × ((r.2).in_flight.entries ≡ s.in_flight.entries)
    × ((r.2).in_flight_work_size ≡ s.in_flight_work_size)
    × ((r.2).in_flight_count ≡ s.in_flight_count)

module _ (s : Scheduler) (around : Surroundings) (v : IsAccounted s) (anew : AllocatesAnew s around)
    (fits : FitsWord s around) (h : Launch s around (hwfq_dequeue s around))
    (some_data : h.delivery.user_data ≢ 0) where
  abbrev after : Scheduler
  after = (hwfq_dequeue s around).2

  after-IsAccounted : IsAccounted (launched s h.entry)
  after-IsAccounted = IsBalanced-same (sym h.after) (hwfq_dequeue-IsAccounted s around v anew fits)

  found :
      find_session after.in_flight h.delivery.user_data h.delivery.tenant_id h.delivery.flow_id
      ≡ some h.entry
  unfolding launched
  found =
      rw (sym h.same_user_data, sym h.same_tenant, sym h.same_flow)
        (ap (λ (f : Flight). find_session (f.0) h.entry.user_data h.entry.tenant_id h.entry.flow_id)
            h.after
          ∙ find_session-newest s.in_flight h.entry (after-IsAccounted.table)
              (rw h.same_user_data some_data))

  Ends-IsBack :
      (r : Outcome)
      → Ends after
          (find_session after.in_flight h.delivery.user_data h.delivery.tenant_id
            h.delivery.flow_id)
          r
      → IsBack s r
  unfolding launched released in_flight_insert in_flight_remove
  Ends-IsBack r k =
      let k' : Ends after (some h.entry) r = subst (λ o. Ends after o r) found k in
      let q : flight (r.2) ≡ flight_without h.entry (flight (launched s h.entry)) =
        k'.1 ∙ ap (flight_without h.entry) h.after in
      let room : h.entry.work_size + s.config.total_capacity < 2 ^ 64 =
        rw h.same_work (fits h.delivery h.written) in
      (
        k'.0,
        ap (λ (f : Flight). (f.0).entries) q
            ∙ erase_middle h.entry s.in_flight.entries [] after-IsAccounted.table.distinct
            ∙ append-nil s.in_flight.entries,
        ap (λ (f : Flight). f.1) q ∙ (omega (arith, v.bounded, room)),
        ap (λ (f : Flight). f.2) q ∙ (omega (arith, v.count)),
      )

-- Work that `hwfq_dequeue` delivered with a pointer is found by `hwfq_complete` and by `hwfq_cancel`,
-- and either call takes the work in flight back to the list and the totals before the delivery. As
-- for every dequeuing here, a new in-flight entry has an address of its own and the size of the
-- delivered work and the capacity add up to a 64-bit word; the accounts are in order.
pub dequeue-end :
    (s : Scheduler) (around around' : Surroundings) (now : ℕ) (d : Delivery)
    → IsAccounted s
    → AllocatesAnew s around
    → FitsWord s around
    → (hwfq_dequeue s around).0 ≡ success
    → (hwfq_dequeue s around).1 ≡ some d
    → d.user_data ≢ 0
    → let s' = (hwfq_dequeue s around).2 in
      IsBack s (hwfq_complete s' d.user_data d.tenant_id d.flow_id now around')
      × IsBack s (hwfq_cancel s' d.user_data d.tenant_id d.flow_id)
dequeue-end s around around' now d v anew fits ok out ne = by_case (hwfq_dequeue_lem s around)
  where
    by_case :
        LaunchOrSame s around (hwfq_dequeue s around)
        → let s' = (hwfq_dequeue s around).2 in
          IsBack s (hwfq_complete s' d.user_data d.tenant_id d.flow_id now around')
          × IsBack s (hwfq_cancel s' d.user_data d.tenant_id d.flow_id)
    by_case (inl k) = absurd (k.1 ok)
    by_case (inr h) =
        subst
          (λ (d : Delivery).
            let s' = (hwfq_dequeue s around).2 in
            IsBack s (hwfq_complete s' d.user_data d.tenant_id d.flow_id now around')
            × IsBack s (hwfq_cancel s' d.user_data d.tenant_id d.flow_id))
          same
          (
            Ends-IsBack s around v anew fits h (rw same ne) _ (hwfq_complete-Ends _ _ _ _ _ _),
            Ends-IsBack s around v anew fits h (rw same ne) _ (hwfq_cancel-Ends _ _ _ _),
          )
      where
        same : h.delivery ≡ d
        same = some_inj (sym h.written ∙ out)
