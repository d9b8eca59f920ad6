-- ===== src/InFlight/Lists.antt =====
-- Lists of entries in flight: filtering, reversal, and the removal of one entry.
use mathlib.Core.List.{reverse, reverse-cons, append-nil}
use hwfq_scheduler.Base.{
  ℕ, ◌+◌, Bool, true, false, not, ◌==◌, ◌≡◌, ◌≢◌, ◌⊎◌, refl, sym, ap, ◌∙◌, inl, inr, some, List, [],
  none, ◌∷◌, ◌++◌, arith, Bool-cases, All, Has, All-Has, All-map, subst, some_inj, if◌then◌else◌,
  length, ==→eq, ==_self,
}
use hwfq_scheduler.InFlight.{InFlightEntry, erase, find_by}

-- The elements that pass the test, in their order.
unfoldable pub keep : (InFlightEntry → Bool) → List InFlightEntry → List InFlightEntry
keep p [] = []
keep p (x ∷ xs) = if p x then x ∷ keep p xs else keep p xs

-- No two entries have one address.
abbrev pub IsDistinct : List InFlightEntry → Type 0
IsDistinct [] = Unit
IsDistinct (x ∷ xs) = All (λ y. y.address ≢ x.address) xs × IsDistinct xs

-- The sum of the work in flight.
abbrev pub total_work : List InFlightEntry → ℕ
total_work [] = 0
total_work (x ∷ xs) = x.work_size + total_work xs

keep-append :
    (p : InFlightEntry → Bool) (xs ys : List InFlightEntry)
    → keep p (xs ++ ys) ≡ keep p xs ++ keep p ys
unfolding keep
keep-append p [] ys = refl
keep-append p (x ∷ xs) ys = ground (arith, keep-append p xs ys)

pub keep-reverse :
    (p : InFlightEntry → Bool) (xs : List InFlightEntry) → keep p (reverse xs) ≡ reverse (keep p xs)
unfolding keep
keep-reverse p [] = refl
keep-reverse p (x ∷ xs) =
    ap (keep p) (reverse-cons x xs)
    ∙ keep-append p (reverse xs) (x ∷ [])
    ∙ elim (Bool-cases (p x)) [
      | inl e ↦
          rw e (ap (λ ys. ys ++ x ∷ []) (keep-reverse p xs) ∙ sym (reverse-cons x (keep p xs)))
      | inr e ↦ rw e (append-nil (keep p (reverse xs)) ∙ keep-reverse p xs)
    ]

pub keep-keep :
    (p q : InFlightEntry → Bool) (xs : List InFlightEntry) → keep p (keep q xs) ≡ keep q (keep p xs)
unfolding keep
keep-keep p q [] = refl
keep-keep p q (x ∷ xs) = ground (arith, keep-keep p q xs)

pub keep_lem :
    (p : InFlightEntry → Bool) (xs : List InFlightEntry) → All (λ x. p x ≡ true) xs → keep p xs ≡ xs
unfolding keep
keep_lem p [] h = refl
keep_lem p (x ∷ xs) h = rw (h.0) (ap (λ ys. x ∷ ys) (keep_lem p xs h.1))

pub All-keep {κ} :
    (P : InFlightEntry → Type κ) (p : InFlightEntry → Bool) (xs : List InFlightEntry)
    → All P xs
    → All P (keep p xs)
unfolding keep
All-keep P p [] h = tt
All-keep P p (x ∷ xs) h = elim (Bool-cases (p x)) [
  | inl e ↦ rw e (h.0, All-keep P p xs h.1)
  | inr e ↦ rw e (All-keep P p xs h.1)
]

-- A test that implies the filter's finds the same.
pub find_by-keep :
    (m p : InFlightEntry → Bool) (xs : List InFlightEntry)
    → ((x : InFlightEntry) → m x ≡ true → p x ≡ true)
    → find_by m (keep p xs) ≡ find_by m xs
unfolding keep find_by
find_by-keep m p [] h = refl
find_by-keep m p (x ∷ xs) h = ground (arith, h x, find_by-keep m p xs h)

abbrev pub other_than : ℕ → InFlightEntry → Bool
other_than a x = not (x.address == a)

pub erase-eq-keep :
    (a : ℕ) (xs : List InFlightEntry) → IsDistinct xs → erase a xs ≡ keep (other_than a) xs
unfolding erase keep
erase-eq-keep a [] d = refl
erase-eq-keep a (x ∷ xs) d = elim (Bool-cases (x.address == a)) [
  | inl e ↦ rw e (sym (keep_lem (other_than a) xs (All-map _ _ (λ y ne. ground arith) xs d.0)))
  | inr e ↦ rw e (ap (λ ys. x ∷ ys) (erase-eq-keep a xs d.1))
]

pub keep-IsDistinct :
    (p : InFlightEntry → Bool) (xs : List InFlightEntry) → IsDistinct xs → IsDistinct (keep p xs)
unfolding keep
keep-IsDistinct p [] d = tt
keep-IsDistinct p (x ∷ xs) d = elim (Bool-cases (p x)) [
  | inl e ↦ rw e (All-keep _ p xs d.0, keep-IsDistinct p xs d.1)
  | inr e ↦ rw e (keep-IsDistinct p xs d.1)
]

pub All-snoc {κ} :
    (P : InFlightEntry → Type κ) (xs : List InFlightEntry) (y : InFlightEntry)
    → All P xs
    → P y
    → All P (xs ++ y ∷ [])
All-snoc P [] y h p = (p, tt)
All-snoc P (x ∷ xs) y h p = (h.0, All-snoc P xs y h.1 p)

pub IsDistinct-snoc :
    (xs : List InFlightEntry) (y : InFlightEntry)
    → IsDistinct xs
    → All (λ x. x.address ≢ y.address) xs
    → IsDistinct (xs ++ y ∷ [])
IsDistinct-snoc [] y d h = (tt, tt)
IsDistinct-snoc (x ∷ xs) y d h =
    (All-snoc _ xs y d.0 (λ e. h.0 (sym e)), IsDistinct-snoc xs y d.1 h.1)

pub All-reverse {κ} :
    (P : InFlightEntry → Type κ) (xs : List InFlightEntry) → All P xs → All P (reverse xs)
All-reverse P [] h = tt
All-reverse P (x ∷ xs) h =
    subst (All P) (sym (reverse-cons x xs)) (All-snoc P (reverse xs) x (All-reverse P xs h.1) h.0)

pub IsDistinct-reverse : (xs : List InFlightEntry) → IsDistinct xs → IsDistinct (reverse xs)
IsDistinct-reverse [] d = tt
IsDistinct-reverse (x ∷ xs) d = subst IsDistinct (sym (reverse-cons x xs)) (
    IsDistinct-snoc (reverse xs) x (IsDistinct-reverse xs d.1)
      (All-reverse (λ y. y.address ≢ x.address) xs d.0))

-- Erasing an entry that a filter drops does not change what it keeps.
pub keep-erase_dropped :
    (p : InFlightEntry → Bool) (e : InFlightEntry) (xs : List InFlightEntry)
    → IsDistinct xs
    → Has e xs
    → p e ≡ false
    → keep p (erase e.address xs) ≡ keep p xs
unfolding keep erase
keep-erase_dropped p e [] d h q = absurd h
keep-erase_dropped p e (x ∷ xs) d (inl s) q = rw (← s, ==_self e.address, q) refl
keep-erase_dropped p e (x ∷ xs) d (inr h) q = elim (Bool-cases (x.address == e.address)) [
  | inl s ↦ absurd (All-Has (λ y. y.address ≢ x.address) e xs d.0 h (sym (==→eq _ _ s)))
  | inr s ↦ rw s (ground (arith, keep-erase_dropped p e xs d.1 h q))
]

-- The sum and the length, with one entry fewer.
pub total_work-erase :
    (e : InFlightEntry) (xs : List InFlightEntry)
    → IsDistinct xs
    → Has e xs
    → (total_work (erase e.address xs) + e.work_size ≡ total_work xs)
      × (length (erase e.address xs) + 1 ≡ length xs)
unfolding erase
total_work-erase e [] d h = absurd h
total_work-erase e (x ∷ xs) d (inl s) = rw (← s, ==_self e.address) (omega arith, omega arith)
total_work-erase e (x ∷ xs) d (inr h) = elim (Bool-cases (x.address == e.address)) [
  | inl s ↦ absurd (All-Has (λ y. y.address ≢ x.address) e xs d.0 h (sym (==→eq _ _ s)))
  | inr s ↦ let k = total_work-erase e xs d.1 h in rw s (omega (arith, k.0), omega (arith, k.1))
]

pub total_work-snoc :
    (xs : List InFlightEntry) (e : InFlightEntry)
    → (total_work (xs ++ e ∷ []) ≡ total_work xs + e.work_size)
      × (length (xs ++ e ∷ []) ≡ length xs + 1)
total_work-snoc [] e = (omega arith, omega arith)
total_work-snoc (x ∷ xs) e =
    let k = total_work-snoc xs e in (omega (arith, k.0), omega (arith, k.1))

-- What is found stands in the list and passes the test.
pub find_by-Has :
    (m : InFlightEntry → Bool) (xs : List InFlightEntry) (e : InFlightEntry)
    → find_by m xs ≡ some e
    → Has e xs × (m e ≡ true)
unfolding find_by
find_by-Has m [] e h = absurd (cc)
find_by-Has m (x ∷ xs) e h = elim (Bool-cases (m x)) [
  | inl q ↦ let same : x ≡ e = some_inj (rw q at h) in (inl (sym same), ap m (sym same) ∙ q)
  | inr q ↦ let k = find_by-Has m xs e (rw q at h) in (inr k.0, k.1)
]

Has-snoc :
    (e y : InFlightEntry) (xs : List InFlightEntry) → (e ≡ y) ⊎ Has e xs → Has e (xs ++ y ∷ [])
Has-snoc e y [] (inl p) = inl p
Has-snoc e y [] (inr h) = absurd h
Has-snoc e y (x ∷ xs) (inl p) = inr (Has-snoc e y xs (inl p))
Has-snoc e y (x ∷ xs) (inr (inl p)) = inl p
Has-snoc e y (x ∷ xs) (inr (inr h)) = inr (Has-snoc e y xs (inr h))

pub Has-reverse : (e : InFlightEntry) (xs : List InFlightEntry) → Has e xs → Has e (reverse xs)
Has-reverse e [] h = h
Has-reverse e (x ∷ xs) (inl p) =
    subst (Has e) (sym (reverse-cons x xs)) (Has-snoc e x (reverse xs) (inl p))
Has-reverse e (x ∷ xs) (inr h) =
    subst (Has e) (sym (reverse-cons x xs)) (Has-snoc e x (reverse xs) (inr (Has-reverse e xs h)))

pub find_by-none :
    (m : InFlightEntry → Bool) (xs : List InFlightEntry)
    → find_by m xs ≡ none
    → All (λ x. m x ≡ false) xs
unfolding find_by
find_by-none m [] h = tt
find_by-none m (x ∷ xs) h = elim (Bool-cases (m x)) [
  | inl q ↦ cc (rw q at h)
  | inr q ↦ (q, find_by-none m xs (rw q at h))
]
