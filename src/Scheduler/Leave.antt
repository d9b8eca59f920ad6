-- ===== src/Scheduler/Leave.antt =====
-- `hwfq_complete` and `hwfq_cancel`: which work they find, and what leaves.
use mathlib.Core.List.{reverse, reverse-reverse}
use hwfq_scheduler.Base.{
  sym, subst, ◌∙◌, All-map, ◌&&◌, ◌||◌, ◌==◌, ap, All, Bool-cases, ℕ, Bool, true, false, ◌≡◌, refl,
  Option, none, some, Has, inl, inr, ◌⊎◌,
}
use hwfq_scheduler.Types.{success, not_found}
use hwfq_scheduler.InFlight.{InFlight, is_of, is_session, InFlightEntry, find_session}
use hwfq_scheduler.InFlight.Lists.{find_by-Has, find_by-none, All-reverse}
use hwfq_scheduler.InFlight.Table.{IsTable, in_flight_find_lem, find_session-Has}
use hwfq_scheduler.Scheduler.{Tenant, Scheduler, Surroundings}
use hwfq_scheduler.Scheduler.Queue.{Outcome}
use hwfq_scheduler.Scheduler.Finish.{
  released, tenant_below, complete_tenant, complete_found, hwfq_complete, discount_tenant,
  cancel_found, hwfq_cancel,
}
use hwfq_scheduler.Scheduler.Accounts.{
  flight, IsAccounted, released-IsAccounted, SameFlight, IsBalanced-same,
}

-- What a call that ends work does: where it finds the entry, it succeeds and the entry leaves the
-- work in flight; where it finds none, it fails and nothing changes.
abbrev pub Ends : Scheduler → Option InFlightEntry → Outcome → Type 0
Ends s none r = r ≡ (not_found, false, s)
Ends s (some e) r = (r.0 ≡ success) × (flight (r.2) ≡ flight (released s e))

complete_tenant_lem :
    (s : Scheduler) (o : Option Tenant) (i f w now : ℕ) (around : Surroundings)
    → let r = complete_tenant s o i f w now around in (r.0 ≡ success) × SameFlight s (r.2)
unfolding complete_tenant
complete_tenant_lem s none i f w now around = (refl, refl)
complete_tenant_lem s (some t) i f w now around = (refl, refl)

complete_found-Ends :
    (s : Scheduler) (o : Option InFlightEntry) (i f now : ℕ) (around : Surroundings)
    → Ends s o (complete_found s o i f now around)
unfolding complete_found
complete_found-Ends s none i f now around = refl
complete_found-Ends s (some e) i f now around =
    complete_tenant_lem (released s e) (tenant_below s i) i f e.work_size now around

pub hwfq_complete-Ends :
    (s : Scheduler) (u i f now : ℕ) (around : Surroundings)
    → Ends s (find_session s.in_flight u i f) (hwfq_complete s u i f now around)
unfolding hwfq_complete
hwfq_complete-Ends s u i f now around =
    complete_found-Ends s (find_session s.in_flight u i f) i f now around

discount_tenant-SameFlight :
    (s : Scheduler) (o : Option Tenant) (i f : ℕ) → SameFlight s (discount_tenant s o i f)
discount_tenant-SameFlight s none i f = refl
discount_tenant-SameFlight s (some t) i f = refl

cancel_found-Ends : (s : Scheduler) (o : Option InFlightEntry) → Ends s o (cancel_found s o)
unfolding cancel_found
cancel_found-Ends s none = refl
cancel_found-Ends s (some e) = (
  refl,
  discount_tenant-SameFlight (released s e) (tenant_below s e.tenant_id) e.tenant_id e.flow_id,
)

pub hwfq_cancel-Ends :
    (s : Scheduler) (u i f : ℕ) → Ends s (find_session s.in_flight u i f) (hwfq_cancel s u i f)
unfolding hwfq_cancel
hwfq_cancel-Ends s u i f = cancel_found-Ends s (find_session s.in_flight u i f)

-- A call that ends work keeps the accounts in order.
pub Ends-IsAccounted :
    (s : Scheduler) (u i f : ℕ) (r : Outcome)
    → IsAccounted s
    → Ends s (find_session s.in_flight u i f) r
    → IsAccounted (r.2)
Ends-IsAccounted s u i f r v h = by_found (find_session s.in_flight u i f) refl h
  where
    by_found :
        (o : Option InFlightEntry)
        → find_session s.in_flight u i f ≡ o
        → Ends s o r
        → IsAccounted (r.2)
    by_found none q k = IsBalanced-same (ap (λ (x : Outcome). flight (x.2)) k) v
    by_found (some e) q k =
        IsBalanced-same k.1
          (released-IsAccounted s e v (find_session-Has s.in_flight u i f e v.table q))

-- What the caller of the two functions asks for: work of the flow, and with the pointer if there is
-- one.
abbrev pub is_wanted : (user_data tenant_id flow_id : ℕ) → InFlightEntry → Bool
is_wanted u i f e = is_of i f e && ((u == 0) || (e.user_data == u))

-- The call ended work that is wanted; or no work in flight is, and it failed and changed nothing.
abbrev pub EndsWanted : Scheduler → (user_data tenant_id flow_id : ℕ) → Outcome → Type 0
EndsWanted s u i f r =
    ((e : InFlightEntry) × Has e s.in_flight.entries
      × (is_wanted u i f e ≡ true)
      × (r.0 ≡ success)
      × (flight (r.2) ≡ flight (released s e)))
    ⊎ (All (λ e. is_wanted u i f e ≡ false) s.in_flight.entries × (r ≡ (not_found, false, s)))

is_wanted-any : (u i f : ℕ) (e : InFlightEntry) → (u == 0) ≡ true → is_wanted u i f e ≡ is_of i f e
is_wanted-any u i f e q = rw q (and_true (is_of i f e))
  where
    and_true : (b : Bool) → (b && true) ≡ b
    and_true true = refl
    and_true false = refl

is_wanted-pointer :
    (u i f : ℕ) (e : InFlightEntry) → (u == 0) ≡ false → is_wanted u i f e ≡ is_session u i f e
is_wanted-pointer u i f e q = rw q (and_comm (is_of i f e) (e.user_data == u))
  where
    and_comm : (a b : Bool) → (a && b) ≡ (b && a)
    and_comm true true = refl
    and_comm true false = refl
    and_comm false true = refl
    and_comm false false = refl

find_session-wanted :
    (t : InFlight) (u i f : ℕ) (e : InFlightEntry)
    → IsTable t
    → find_session t u i f ≡ some e
    → is_wanted u i f e ≡ true
unfolding find_session
find_session-wanted t u i f e v h = elim (Bool-cases (u == 0)) [
  | inl q ↦ is_wanted-any u i f e q ∙ (find_by-Has (is_of i f) t.entries e (rw q at h)).1
  | inr q ↦
      is_wanted-pointer u i f e q
      ∙ (find_by-Has (is_session u i f) (reverse t.entries) e
          (sym (in_flight_find_lem t u i f v) ∙ (rw q at h))).1
]

find_session-none :
    (t : InFlight) (u i f : ℕ)
    → IsTable t
    → find_session t u i f ≡ none
    → All (λ e. is_wanted u i f e ≡ false) t.entries
unfolding find_session
find_session-none t u i f v h = elim (Bool-cases (u == 0)) [
  | inl q ↦
      All-map (λ e. is_of i f e ≡ false) (λ e. is_wanted u i f e ≡ false)
        (λ e k. is_wanted-any u i f e q ∙ k) t.entries
        (find_by-none (is_of i f) t.entries (rw q at h))
  | inr q ↦
      All-map (λ e. is_session u i f e ≡ false) (λ e. is_wanted u i f e ≡ false)
        (λ e k. is_wanted-pointer u i f e q ∙ k) t.entries
        (subst (All (λ e. is_session u i f e ≡ false)) (reverse-reverse t.entries) (
          All-reverse (λ e. is_session u i f e ≡ false) (reverse t.entries)
            (find_by-none (is_session u i f) (reverse t.entries)
              (sym (in_flight_find_lem t u i f v) ∙ (rw q at h)))))
]

Ends-wanted :
    (s : Scheduler) (u i f : ℕ) (r : Outcome) (o : Option InFlightEntry)
    → IsAccounted s
    → find_session s.in_flight u i f ≡ o
    → Ends s o r
    → EndsWanted s u i f r
Ends-wanted s u i f r none v q h = inr (find_session-none s.in_flight u i f v.table q, h)
Ends-wanted s u i f r (some e) v q h = inl (
  e,
  find_session-Has s.in_flight u i f e v.table q,
  find_session-wanted s.in_flight u i f e v.table q,
  h.0,
  h.1,
)

-- On accounts that are in order, `hwfq_complete` and `hwfq_cancel` succeed exactly where work of the
-- tenant and the flow, with the caller's pointer if there is one, is in flight: such an entry
-- leaves the table, the list and the totals, and nothing else is in flight after than before.
-- Where none is, they answer that it is not found and change nothing.
pub ends_wanted :
    (s : Scheduler) (user_data tenant_id flow_id now : ℕ) (around : Surroundings)
    → IsAccounted s
    → EndsWanted s user_data tenant_id flow_id
        (hwfq_complete s user_data tenant_id flow_id now around)
      × EndsWanted s user_data tenant_id flow_id (hwfq_cancel s user_data tenant_id flow_id)
ends_wanted s u i f now around v = (
  Ends-wanted s u i f _ (find_session s.in_flight u i f) v refl
      (hwfq_complete-Ends s u i f now around),
  Ends-wanted s u i f _ (find_session s.in_flight u i f) v refl (hwfq_cancel-Ends s u i f),
)
