-- ===== src/Scheduler/Expire.antt =====
-- The end of work in flight: what the walk of `hwfq_check_timeouts` takes out of the list.
use mathlib.Core.List.{reverse, reverse-cons, append_assoc, append-nil}
use hwfq_scheduler.Base.{
  ℕ, ◌+◌, ◌%◌, ◌^◌, ◌<◌, Bool, true, false, ◌≡◌, ◌≢◌, refl, sym, ap, ◌∙◌, subst, List, [], ◌∷◌,
  ◌++◌, arith, Has, length, if◌then◌else◌, Bool-cases, inl, inr, All-Has, ==_self, ne→not-==,
}
use hwfq_scheduler.Group.{add32}
use hwfq_scheduler.InFlight.{InFlightEntry, erase, in_flight_remove}
use hwfq_scheduler.InFlight.Lists.{keep, IsDistinct}
use hwfq_scheduler.Scheduler.{Scheduler}
use hwfq_scheduler.Scheduler.Queue.{negate}
use hwfq_scheduler.Scheduler.Finish.{released, is_timed_out, Expiry, expire, hwfq_check_timeouts}
use hwfq_scheduler.Scheduler.Accounts.{IsAccounted, released-IsAccounted}

Has-middle : (e : InFlightEntry) (ys xs : List InFlightEntry) → Has e (ys ++ e ∷ xs)
Has-middle e [] xs = inl refl
Has-middle e (y ∷ ys) xs = inr (Has-middle e ys xs)

pub erase_middle :
    (e : InFlightEntry) (ys xs : List InFlightEntry)
    → IsDistinct (ys ++ e ∷ xs)
    → erase e.address (ys ++ e ∷ xs) ≡ ys ++ xs
unfolding erase
erase_middle e [] xs d = rw (==_self e.address) refl
erase_middle e (y ∷ ys) xs d =
    rw
      (ne→not-== y.address e.address (λ q.
        All-Has (λ z. z.address ≢ y.address) e (ys ++ e ∷ xs) d.0 (Has-middle e ys xs) (sym q)))
      (ap (λ zs. y ∷ zs) (erase_middle e ys xs d.1))

abbrev pub in_time : (now : ℕ) → InFlightEntry → Bool
in_time now e = negate (is_timed_out now e)

-- The walk from the state w over the entries xs, where ys has stayed so far.
record Expired (now : ℕ) (w w' : Expiry) (ys xs : List InFlightEntry) : Type 0 where
  pub accounted : IsAccounted w'.scheduler
  pub rest : w'.scheduler.in_flight.entries ≡ ys ++ keep (in_time now) xs
  pub out : w'.timed_out_list ≡ reverse (keep (is_timed_out now) xs) ++ w.timed_out_list
  pub count : w'.timeout_count ≡ (w.timeout_count + length (keep (is_timed_out now) xs)) % 2 ^ 32
  pub others : w'.scheduler ≡ record (w.scheduler) {
    in_flight = w'.scheduler.in_flight;
    in_flight_work_size = w'.scheduler.in_flight_work_size;
    in_flight_count = w'.scheduler.in_flight_count;
  }

abbrev timed : InFlightEntry → Expiry → Expiry
timed e w = record {
  scheduler = released w.scheduler e;
  timed_out_list = e ∷ w.timed_out_list;
  timeout_count = add32 w.timeout_count 1;
}

timed_step :
    (now : ℕ) (e : InFlightEntry) (w w' : Expiry) (ys xs : List InFlightEntry)
    → is_timed_out now e ≡ true
    → Expired now (timed e w) w' ys xs
    → Expired now w w' ys (e ∷ xs)
unfolding keep released
timed_step now e w w' ys xs t k = record {
  accounted = k.accounted;
  rest = k.rest ∙ ap (λ zs. ys ++ zs) (rw t refl);
  out =
      k.out
      ∙ (rw (t, reverse-cons e (keep (is_timed_out now) xs))
          (sym (append_assoc (reverse (keep (is_timed_out now) xs)) (e ∷ []) w.timed_out_list)));
  count = k.count ∙ (rw t (omega arith));
  others = k.others;
}

stays_step :
    (now : ℕ) (e : InFlightEntry) (w w' : Expiry) (ys xs : List InFlightEntry)
    → is_timed_out now e ≡ false
    → Expired now w w' (ys ++ e ∷ []) xs
    → Expired now w w' ys (e ∷ xs)
unfolding keep
stays_step now e w w' ys xs t k = record {
  accounted = k.accounted;
  rest = k.rest ∙ (rw t (append_assoc ys (e ∷ []) (keep (in_time now) xs)));
  out = k.out ∙ (rw t refl);
  count = k.count ∙ (rw t refl);
  others = k.others;
}

expire_lem :
    (now : ℕ) (w : Expiry) (ys xs : List InFlightEntry)
    → IsAccounted w.scheduler
    → w.scheduler.in_flight.entries ≡ ys ++ xs
    → w.timeout_count < 2 ^ 32
    → Expired now w (expire now xs w) ys xs
unfolding expire keep in_flight_remove released
expire_lem now w ys [] v q small = record {
  accounted = v;
  rest = q;
  out = refl;
  count = omega arith;
  others = refl;
}
expire_lem now w ys (e ∷ xs) v q small = elim (Bool-cases (is_timed_out now e)) [
  | inl t ↦ timed_step now e w _ ys xs t (
      subst (λ w1. Expired now (timed e w) (expire now xs w1) ys xs) (sym (rw t refl))
        (expire_lem now (timed e w) ys xs
          (released-IsAccounted w.scheduler e v (rw q (Has-middle e ys xs)))
          (ap (erase e.address) q ∙ erase_middle e ys xs (subst IsDistinct q v.table.distinct))
          (omega arith)))
  | inr t ↦ stays_step now e w _ ys xs t (
      subst (λ w1. Expired now w (expire now xs w1) (ys ++ e ∷ []) xs) (sym (rw t refl))
        (expire_lem now w (ys ++ e ∷ []) xs v (q ∙ sym (append_assoc ys (e ∷ []) xs)) small))
]

-- On accounts that are in order, `hwfq_check_timeouts` takes out exactly the entries that have timed
-- out and leaves the others in their order. It reports how many it took, in 32 bits, and calls
-- `session_timeout_fn`, where it is set, once for each of them, the newest first. The accounts stay
-- in order, and nothing of the scheduler changes but they: not the backlog of a tenant either.
pub hwfq_check_timeouts_lem :
    (s : Scheduler) (now : ℕ)
    → IsAccounted s
    → let r = hwfq_check_timeouts s now in
      let out = keep (is_timed_out now) s.in_flight.entries in
      (r.scheduler.in_flight.entries ≡ keep (in_time now) s.in_flight.entries)
      × (r.callbacks ≡ (if s.config.session_timeout_fn then reverse out else []))
      × (r.timeout_count ≡ length out % 2 ^ 32)
      × IsAccounted r.scheduler
      × (r.scheduler ≡ record s {
        in_flight = r.scheduler.in_flight;
        in_flight_work_size = r.scheduler.in_flight_work_size;
        in_flight_count = r.scheduler.in_flight_count;
      })
unfolding hwfq_check_timeouts
hwfq_check_timeouts_lem s now v =
    let k =
      expire_lem now (record { scheduler = s; timed_out_list = []; timeout_count = 0 }) []
        s.in_flight.entries v refl (omega arith) in
    (
      k.rest,
      ap (λ l. if s.config.session_timeout_fn then l else []) (k.out ∙ append-nil _),
      k.count ∙ (omega arith),
      k.accounted,
      k.others,
    )
