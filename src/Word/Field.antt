-- ===== src/Word/Field.antt =====
-- A bit field: an array of words of n bits, where bit i is digit i % n of word i / n.
use native.Mathlib.Nat.{div-add-mod, mod-lt}
use hwfq_scheduler.Base.{
  ℕ, ◌+◌, ◌*◌, ◌/◌, ◌%◌, ◌^◌, ◌<◌, Bool, false, not, ◌&&◌, ◌||◌, ◌==◌, ◌≡◌, ◌≢◌, ap, sym, ◌∙◌, inl,
  inr, List, arith, get_or, set, length, Bool-cases, ==→eq, ==→ne, ne→not-==, ==_self,
  get_or-set_self, get_or-set_ne, get_or_out, dec_lt, ℕ_discrete, length-set,
}
use hwfq_scheduler.Word.{bit, set_bit_of, clear_bit_of, test_bit_of}
use hwfq_scheduler.Word.Laws.{
  two-pow-pos, bit-set_bit_of, bit-clear_bit_of, set_bit_of-lt, clear_bit_of-lt, test_bit_of-bit,
}

module _ (n : ℕ) where
  -- `array[i / n] |= 1 << (i % n)`
  unfoldable pub set_at : List ℕ → ℕ → List ℕ
  set_at ws i = set ws (i / n) (set_bit_of (get_or ws (i / n) 0) (i % n))

  -- `array[i / n] &= ~(1 << (i % n))`
  unfoldable pub clear_at : List ℕ → ℕ → List ℕ
  clear_at ws i = set ws (i / n) (clear_bit_of n (get_or ws (i / n) 0) (i % n))

  -- `(array[i / n] & (1 << (i % n))) != 0`
  unfoldable pub test_at : List ℕ → ℕ → Bool
  test_at ws i = test_bit_of (get_or ws (i / n) 0) (i % n)

  -- Every word fits n bits.
  abbrev pub IsField : List ℕ → Type 0
  IsField ws = (i : ℕ) → get_or ws i 0 < 2 ^ n

  -- Bit i of the field.
  abbrev pub bit_at : List ℕ → ℕ → Bool
  bit_at ws i = bit (get_or ws (i / n) 0) (i % n)

  pub test_at-bit_at : (ws : List ℕ) (i : ℕ) → IsField ws → test_at ws i ≡ bit_at ws i
  unfolding test_at
  test_at-bit_at ws i f = test_bit_of-bit n (get_or ws (i / n) 0) (i % n) (f (i / n))

  module _ (pos : 0 < n) where
    same_word : (i j : ℕ) → i / n ≡ j / n → i % n ≡ j % n → i ≡ j
    same_word i j p q =
        sym (div-add-mod i n)
        ∙ ap (λ k. k + i % n) (ap (λ k. n * k) p)
        ∙ ap (λ k. n * (j / n) + k) q
        ∙ div-add-mod j n

    same_digit : (i j : ℕ) → i / n ≡ j / n → (i % n == j % n) ≡ (i == j)
    same_digit i j p = elim (Bool-cases (i == j)) [
      | inl e ↦ rw (==→eq i j e) (==_self (j % n) ∙ sym (==_self j))
      | inr ne ↦ ne→not-== _ _ (λ q. ==→ne i j ne (same_word i j p q)) ∙ sym ne
    ]

    other_word : (i j : ℕ) → i / n ≢ j / n → (i == j) ≡ false
    other_word i j h = ne→not-== i j (λ e. h (ap (λ k. k / n) e))

    -- Setting bit i makes it 1 and leaves the others.
    pub bit_at-set_at :
        (ws : List ℕ) (i j : ℕ)
        → i / n < length ws
        → bit_at (set_at ws i) j ≡ (bit_at ws j || (i == j))
    unfolding set_at
    bit_at-set_at ws i j h = elim (ℕ_discrete (i / n) (j / n)) [
      | yes p ↦
          rw (← p, get_or-set_self ws (i / n) _ 0 h, bit-set_bit_of)
            (ap (λ b. bit (get_or ws (i / n) 0) (j % n) || b) (same_digit i j p))
      | no ne ↦ rw (get_or-set_ne ws (i / n) (j / n) _ 0 ne, other_word i j ne) (ground arith)
    ]

    -- Clearing bit i makes it 0 and leaves the others.
    pub bit_at-clear_at :
        (ws : List ℕ) (i j : ℕ)
        → i / n < length ws
        → bit_at (clear_at ws i) j ≡ (bit_at ws j && not (i == j))
    unfolding clear_at
    bit_at-clear_at ws i j h = elim (ℕ_discrete (i / n) (j / n)) [
      | yes p ↦
          rw
            (
              ← p,
              get_or-set_self ws (i / n) _ 0 h,
              bit-clear_bit_of n _ _ _ (mod-lt i pos) (mod-lt j pos),
            )
            (ap (λ b. bit (get_or ws (i / n) 0) (j % n) && not b) (same_digit i j p))
      | no ne ↦ rw (get_or-set_ne ws (i / n) (j / n) _ 0 ne, other_word i j ne) (ground arith)
    ]

    set-IsField : (ws : List ℕ) (i v : ℕ) → IsField ws → v < 2 ^ n → IsField (set ws i v)
    set-IsField ws i v f l j = elim (ℕ_discrete i j) [
      | yes p ↦ elim (dec_lt i (length ws)) [
        | yes q ↦ rw (← p, get_or-set_self ws i v 0 q) l
        | no q ↦
            rw (get_or_out (set ws i v) j 0 (omega (arith, length-set {0} ws i v))) (two-pow-pos n)
      ]
      | no ne ↦ rw (get_or-set_ne ws i j v 0 ne) (f j)
    ]

    pub set_at-IsField : (ws : List ℕ) (i : ℕ) → IsField ws → IsField (set_at ws i)
    unfolding set_at
    set_at-IsField ws i f =
        set-IsField ws (i / n) _ f (set_bit_of-lt n _ (i % n) (mod-lt i pos) (f (i / n)))

    pub clear_at-IsField : (ws : List ℕ) (i : ℕ) → IsField ws → IsField (clear_at ws i)
    unfolding clear_at
    clear_at-IsField ws i f = set-IsField ws (i / n) _ f (clear_bit_of-lt n _ (i % n) (f (i / n)))

  pub length-set_at : (ws : List ℕ) (i : ℕ) → length (set_at ws i) ≡ length ws
  unfolding set_at
  length-set_at ws i = length-set ws (i / n) _

  pub length-clear_at : (ws : List ℕ) (i : ℕ) → length (clear_at ws i) ≡ length ws
  unfolding clear_at
  length-clear_at ws i = length-set ws (i / n) _
