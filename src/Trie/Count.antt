-- ===== src/Trie/Count.antt =====
-- The number of the ids below a bound that have a property.
use hwfq_scheduler.Base.{
  ℕ, zero, suc, ◌+◌, ◌≤◌, ◌<◌, Bool, true, false, not, ◌&&◌, ◌||◌, ◌==◌, ◌≡◌, refl, sym, ap, ◌∙◌,
  arith, if◌then◌else◌, ℕ_discrete, ==_self, ne→not-==, Bool-cases, inl, inr, ==→eq,
}

abbrev pub number_of : (ℕ → Bool) → ℕ → ℕ
number_of f zero = 0
number_of f (suc n) = (if f n then 1 else 0) + number_of f n

pub number_of-le : (f : ℕ → Bool) (n : ℕ) → number_of f n ≤ n
number_of-le f zero = omega arith
number_of-le f (suc n) = ground (arith, number_of-le f n)

pub number_of-ext :
    (f g : ℕ → Bool) (n : ℕ) → ((i : ℕ) → i < n → f i ≡ g i) → number_of f n ≡ number_of g n
number_of-ext f g zero h = refl
number_of-ext f g (suc n) h =
    rw (h n (omega arith))
      (ap (λ m. (if g n then 1 else 0) + m) (number_of-ext f g n (λ i l. h i (omega arith))))

-- One id more.
pub number_of-more :
    (f g : ℕ → Bool) (k n : ℕ)
    → k < n
    → f k ≡ false
    → ((i : ℕ) → i < n → g i ≡ (f i || (k == i)))
    → number_of g n ≡ number_of f n + 1
number_of-more f g k zero l e h = absurd (omega arith)
number_of-more f g k (suc n) l e h = elim (ℕ_discrete k n) [
  | yes p ↦
      let same : number_of g n ≡ number_of f n =
        number_of-ext g f n
          (λ i b. h i (omega arith) ∙ rw (ne→not-== k i (omega arith)) (ground arith)) in
      let here : g n ≡ true = h n (omega arith) ∙ rw (p, ==_self n) (ground arith) in
      let before : f n ≡ false = ap f (sym p) ∙ e in rw (here, before) (omega arith)
  | no ne ↦
      let rest = number_of-more f g k n (omega arith) e (λ i b. h i (omega arith)) in
      let here : g n ≡ f n = h n (omega arith) ∙ rw (ne→not-== k n ne) (ground arith) in
      rw here (omega arith)
]

-- One id fewer.
pub number_of-fewer :
    (f g : ℕ → Bool) (k n : ℕ)
    → k < n
    → f k ≡ true
    → ((i : ℕ) → i < n → g i ≡ (f i && not (k == i)))
    → number_of f n ≡ number_of g n + 1
number_of-fewer f g k n l e h =
    number_of-more g f k n l (h k l ∙ rw (==_self k) (ground arith)) (λ i b.
      elim (Bool-cases (k == i)) [
        | inl p ↦ let q : f i ≡ true = ap f (sym (==→eq k i p)) ∙ e in rw p (ground arith)
        | inr p ↦ rw p (ground (arith, h i b, p))
      ])

pub number_of-zero :
    (f : ℕ → Bool) (n : ℕ) → 0 < n → ((i : ℕ) → i < n → f i ≡ (i == 0)) → number_of f n ≡ 1
number_of-zero f n l h =
    number_of-more (λ _. false) f 0 n l refl (λ i b. h i b ∙ ground arith)
    ∙ ap (λ m. m + 1) (none_of n)
  where
    none_of : (m : ℕ) → number_of (λ _. false) m ≡ 0
    none_of zero = refl
    none_of (suc m) = omega (arith, none_of m)
