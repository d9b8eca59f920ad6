-- ===== src/Calendar/Bins.antt =====
-- The list of one bin: order, membership and distinct addresses under insertion and unlinking.
use mathlib.Core.List.{Perm}
use mathlib.Core.List.Perm
use hwfq_scheduler.Base.{
  ℕ, ◌≤◌, ◌<◌, true, false, ◌≡◌, ◌≢◌, ◌⊎◌, inl, inr, refl, List, [], ◌∷◌, ◌==◌, arith, All, Has,
  All-map, All-Has, Bool-cases, ==→eq, ==_self, ne→not-==, not-ltb→le, ltb→lt, some_inj, ◌∙◌, some,
  none, ap, subst, sym, ltb,
}
use hwfq_scheduler.Types.{Session}
use hwfq_scheduler.Calendar.{session_less, insert_sorted, unlink}
use hwfq_scheduler.Calendar.Search.{first_eligible}

-- By finish time, then by start time.
abbrev pub Before : Session → Session → Type 0
Before a b =
    (a.finish_time < b.finish_time)
    ⊎ ((a.finish_time ≡ b.finish_time) × (a.start_time ≤ b.start_time))

abbrev pub IsSorted : List Session → Type 0
IsSorted [] = Unit
IsSorted (x ∷ xs) = All (Before x) xs × IsSorted xs

-- No two sessions of the list have one address.
abbrev pub IsDistinct : List Session → Type 0
IsDistinct [] = Unit
IsDistinct (x ∷ xs) = All (λ y. y.address ≢ x.address) xs × IsDistinct xs

session_less-Before : (a b : Session) → session_less a b ≡ true → Before a b
unfolding session_less
session_less-Before a b h = ground arith

not-session_less-Before : (a b : Session) → session_less a b ≡ false → Before b a
unfolding session_less
not-session_less-Before a b h = ground arith

Before-trans : (a b c : Session) → Before a b → Before b c → Before a c
Before-trans a b c p q = ground arith

pub All-insert_sorted {κ} :
    (P : Session → Type κ) (s : Session) (xs : List Session)
    → P s
    → All P xs
    → All P (insert_sorted s xs)
unfolding insert_sorted
All-insert_sorted P s [] p h = (p, tt)
All-insert_sorted P s (x ∷ xs) p h = elim (Bool-cases (session_less x s)) [
  | inl e ↦ rw e (h.0, All-insert_sorted P s xs p h.1)
  | inr e ↦ rw e (p, h)
]

pub insert_sorted-IsSorted :
    (s : Session) (xs : List Session) → IsSorted xs → IsSorted (insert_sorted s xs)
unfolding insert_sorted
insert_sorted-IsSorted s [] h = (tt, tt)
insert_sorted-IsSorted s (x ∷ xs) h = elim (Bool-cases (session_less x s)) [
  | inl e ↦ rw e (
    All-insert_sorted (Before x) s xs (session_less-Before x s e) h.0,
    insert_sorted-IsSorted s xs h.1,
  )
  | inr e ↦ rw e (
    (
      not-session_less-Before x s e,
      All-map (Before x) (Before s) (λ y. Before-trans s x y (not-session_less-Before x s e)) xs
          h.0,
    ),
    h,
  )
]

pub insert_sorted-IsDistinct :
    (s : Session) (xs : List Session)
    → All (λ y. y.address ≢ s.address) xs
    → IsDistinct xs
    → IsDistinct (insert_sorted s xs)
unfolding insert_sorted
insert_sorted-IsDistinct s [] n h = (tt, tt)
insert_sorted-IsDistinct s (x ∷ xs) n h = elim (Bool-cases (session_less x s)) [
  | inl e ↦ rw e (
    All-insert_sorted (λ y. y.address ≢ x.address) s xs (λ q. n.0 (sym q)) h.0,
    insert_sorted-IsDistinct s xs n.1 h.1,
  )
  | inr e ↦ rw e (n, h)
]

pub Has-insert_sorted : (s : Session) (xs : List Session) → Has s (insert_sorted s xs)
unfolding insert_sorted
Has-insert_sorted s [] = inl refl
Has-insert_sorted s (x ∷ xs) = elim (Bool-cases (session_less x s)) [
  | inl e ↦ rw e (inr (Has-insert_sorted s xs))
  | inr e ↦ rw e (inl refl)
]

pub Has-insert_sorted_old :
    (s t : Session) (xs : List Session) → Has t xs → Has t (insert_sorted s xs)
unfolding insert_sorted
Has-insert_sorted_old s t [] h = absurd h
Has-insert_sorted_old s t (x ∷ xs) (inl p) = elim (Bool-cases (session_less x s)) [
  | inl e ↦ rw e (inl p)
  | inr e ↦ rw e (inr (inl p))
]
Has-insert_sorted_old s t (x ∷ xs) (inr p) = elim (Bool-cases (session_less x s)) [
  | inl e ↦ rw e (inr (Has-insert_sorted_old s t xs p))
  | inr e ↦ rw e (inr (inr p))
]

pub insert_sorted-perm : (s : Session) (xs : List Session) → Perm (insert_sorted s xs) (s ∷ xs)
unfolding insert_sorted
insert_sorted-perm s [] = Perm.refl _
insert_sorted-perm s (x ∷ xs) = elim (Bool-cases (session_less x s)) [
  | inl e ↦ rw e (Perm.trans (Perm.cons x (insert_sorted-perm s xs)) (Perm.swap s x xs))
  | inr e ↦ rw e (Perm.refl _)
]

pub All-unlink {κ} :
    (P : Session → Type κ) (a : ℕ) (xs : List Session) → All P xs → All P (unlink a xs)
unfolding unlink
All-unlink P a [] h = tt
All-unlink P a (x ∷ xs) h = elim (Bool-cases (x.address == a)) [
  | inl e ↦ rw e h.1
  | inr e ↦ rw e (h.0, All-unlink P a xs h.1)
]

pub unlink-IsSorted : (a : ℕ) (xs : List Session) → IsSorted xs → IsSorted (unlink a xs)
unfolding unlink
unlink-IsSorted a [] h = tt
unlink-IsSorted a (x ∷ xs) h = elim (Bool-cases (x.address == a)) [
  | inl e ↦ rw e h.1
  | inr e ↦ rw e (All-unlink (Before x) a xs h.0, unlink-IsSorted a xs h.1)
]

pub unlink-IsDistinct : (a : ℕ) (xs : List Session) → IsDistinct xs → IsDistinct (unlink a xs)
unfolding unlink
unlink-IsDistinct a [] h = tt
unlink-IsDistinct a (x ∷ xs) h = elim (Bool-cases (x.address == a)) [
  | inl e ↦ rw e h.1
  | inr e ↦ rw e (All-unlink (λ y. y.address ≢ x.address) a xs h.0, unlink-IsDistinct a xs h.1)
]

-- With distinct addresses, unlinking takes away the session with the address and no other.
pub unlink-perm :
    (s : Session) (xs : List Session) → IsDistinct xs → Has s xs → Perm xs (s ∷ unlink s.address xs)
unfolding unlink
unlink-perm s [] d h = absurd h
unlink-perm s (x ∷ xs) d (inl p) = rw (p, ==_self x.address) (Perm.refl _)
unlink-perm s (x ∷ xs) d (inr p) = elim (Bool-cases (x.address == s.address)) [
  | inl e ↦ absurd (All-Has (λ y. y.address ≢ x.address) s xs d.0 p (sym (==→eq _ _ e)))
  | inr e ↦ rw e (Perm.trans (Perm.cons x (unlink-perm s xs d.1 p)) (Perm.swap s x _))
]

pub Has-unlink : (a : ℕ) (t : Session) (xs : List Session) → Has t (unlink a xs) → Has t xs
unfolding unlink
Has-unlink a t [] h = h
Has-unlink a t (x ∷ xs) h = elim (Bool-cases (x.address == a)) [
  | inl e ↦ inr (rw (e) at h)
  | inr e ↦ elim (let g : (t ≡ x) ⊎ Has t (unlink a xs) = (rw (e) at h) in g) [
    | inl p ↦ inl p
    | inr p ↦ inr (Has-unlink a t xs p)
  ]
]

pub Has-unlink_ne :
    (a : ℕ) (t : Session) (xs : List Session) → Has t xs → t.address ≢ a → Has t (unlink a xs)
unfolding unlink
Has-unlink_ne a t [] h ne = h
Has-unlink_ne a t (x ∷ xs) (inl p) ne =
    rw (ne→not-== x.address a (λ e. ne (ap (λ (y : Session). y.address) p ∙ e))) (inl p)
Has-unlink_ne a t (x ∷ xs) (inr p) ne = elim (Bool-cases (x.address == a)) [
  | inl e ↦ rw e p
  | inr e ↦ rw e (inr (Has-unlink_ne a t xs p ne))
]

pub first_eligible-some :
    (vt : ℕ) (xs : List Session) (s : Session)
    → first_eligible vt xs ≡ some s
    → Has s xs × (s.start_time ≤ vt)
unfolding first_eligible
first_eligible-some vt [] s h = cc
first_eligible-some vt (x ∷ xs) s h = elim (Bool-cases (ltb vt x.start_time)) [
  | inl e ↦ let r = first_eligible-some vt xs s (rw e at h) in (inr r.0, r.1)
  | inr e ↦
      let p : x ≡ s = some_inj (rw e at h) in
      (inl (sym p), subst (λ (y : Session). y.start_time ≤ vt) p (not-ltb→le _ _ e))
]

-- A bin in order gives its eligible session of the smallest finish time.
pub first_eligible-least :
    (vt : ℕ) (xs : List Session) (s : Session)
    → IsSorted xs
    → first_eligible vt xs ≡ some s
    → All (λ t. t.start_time ≤ vt → s.finish_time ≤ t.finish_time) xs
unfolding first_eligible
first_eligible-least vt [] s o h = tt
first_eligible-least vt (x ∷ xs) s o h = elim (Bool-cases (ltb vt x.start_time)) [
  | inl e ↦
      (λ le. absurd (omega (arith, ltb→lt _ _ e)), first_eligible-least vt xs s o.1 (rw e at h))
  | inr e ↦
      let p : x ≡ s = some_inj (rw e at h) in
      subst (λ (y : Session). All (λ t. t.start_time ≤ vt → y.finish_time ≤ t.finish_time) (x ∷ xs))
        p (λ le. omega arith, All-map (Before x) _ (λ y b le. ground arith) xs o.0)
]

pub first_eligible-none :
    (vt : ℕ) (xs : List Session) → first_eligible vt xs ≡ none → All (λ t. vt < t.start_time) xs
unfolding first_eligible
first_eligible-none vt [] h = tt
first_eligible-none vt (x ∷ xs) h = elim (Bool-cases (ltb vt x.start_time)) [
  | inl e ↦ (ltb→lt _ _ e, first_eligible-none vt xs (rw e at h))
  | inr e ↦ absurd (ground arith)
]
