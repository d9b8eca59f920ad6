-- ===== src/Scheduler/Accounts.antt =====
-- The accounts of the work in flight: `in_flight_work_size` and `in_flight_count` against the list,
-- and the calls that leave them alone.
use hwfq_scheduler.Base.{
  ℕ, ◌+◌, ◌%◌, ◌^◌, ◌≤◌, ◌<◌, Bool, true, false, ◌≡◌, ◌≢◌, sym, ap, subst, List, [], ◌∷◌, arith,
  All, Has, length, length-append, if◌then◌else◌, inl, inr,
}
use hwfq_scheduler.InFlight.{InFlightEntry, InFlight, erase, in_flight_insert, in_flight_remove}
use hwfq_scheduler.InFlight.Lists.{total_work, total_work-snoc, total_work-erase}
use hwfq_scheduler.InFlight.Table.{IsTable, in_flight_insert-IsTable, in_flight_remove-IsTable}
use hwfq_scheduler.Scheduler.{Config, Scheduler}
use hwfq_scheduler.Scheduler.Serve.{launched}
use hwfq_scheduler.Scheduler.Finish.{released}

-- What the accounts are about.
abbrev pub Flight : Type 0
Flight = InFlight × ℕ × ℕ × Config

abbrev pub flight : Scheduler → Flight
flight s = (s.in_flight, s.in_flight_work_size, s.in_flight_count, s.config)

-- The table agrees with the list, the size is the total of the list and at most the capacity, and
-- the count is the length of the list, in 32 bits.
pub record IsBalanced (f : Flight) : Type 0 where
  pub table : IsTable (f.0)
  pub size : (f.1 ≡ total_work (f.0).entries)
  pub bounded : f.1 ≤ (f.3).total_capacity
  pub count : (f.2 ≡ length (f.0).entries % 2 ^ 32)
  pub positive : 0 < (f.3).total_capacity
  pub word : (f.3).total_capacity < 2 ^ 64

abbrev pub IsAccounted : Scheduler → Type 0
IsAccounted s = IsBalanced (flight s)

-- The entry is at an address of its own.
abbrev pub IsNewAddress : InFlight → ℕ → Type 0
IsNewAddress t a = All (λ x. x.address ≢ a) t.entries

pub launched-IsAccounted :
    (s : Scheduler) (e : InFlightEntry)
    → IsAccounted s
    → IsNewAddress s.in_flight e.address
    → s.in_flight_work_size + e.work_size ≤ s.config.total_capacity
    → IsAccounted (launched s e)
unfolding launched in_flight_insert
launched-IsAccounted s e v fresh fits = record {
  table = in_flight_insert-IsTable s.in_flight e v.table fresh;
  size = omega (arith, v.size, v.word, total_work-snoc s.in_flight.entries e);
  bounded = omega (arith, v.word);
  count = omega (arith, v.count, length-append s.in_flight.entries (e ∷ []));
  positive = v.positive;
  word = v.word;
}

pub length-erase :
    (e : InFlightEntry) (xs : List InFlightEntry)
    → Has e xs
    → length (erase e.address xs) + 1 ≡ length xs
unfolding erase
length-erase e [] h = absurd h
length-erase e (x ∷ xs) (inl q) =
    let same : e.address ≡ x.address = ap (λ y. y.address) q in ground arith
length-erase e (x ∷ xs) (inr h) = let ih = length-erase e xs h in ground (arith, ih)

pub released-IsAccounted :
    (s : Scheduler) (e : InFlightEntry)
    → IsAccounted s
    → Has e s.in_flight.entries
    → IsAccounted (released s e)
unfolding released in_flight_remove
released-IsAccounted s e v held =
    let t = total_work-erase e s.in_flight.entries v.table.distinct held in
    record {
      table = in_flight_remove-IsTable s.in_flight e v.table held;
      size = omega (arith, v.size, v.bounded, v.word, t);
      bounded = omega (arith, v.size, v.bounded, v.word, t);
      count = omega (arith, v.count, length-erase e s.in_flight.entries held);
      positive = v.positive;
      word = v.word;
    }

-- The two have the same work in flight and the same configuration.
abbrev pub SameFlight : Scheduler → Scheduler → Type 0
SameFlight s s' = flight s' ≡ flight s

pub IsBalanced-same : {f f' : Flight} → f' ≡ f → IsBalanced f → IsBalanced f'
IsBalanced-same q v = subst IsBalanced (sym q) v

-- A conditional has what both of its branches have.
pub if_both {ℓ κ} :
    {A : Type ℓ} (P : A → Type κ) (b : Bool) (x y : A) → P x → P y → P (if b then x else y)
if_both P true x y h k = h
if_both P false x y h k = k
