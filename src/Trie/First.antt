-- ===== src/Trie/First.antt =====
-- The first set bit of a word and of a field of words, as the search of the trie finds it.
use hwfq_scheduler.Base.{
  ℕ, zero, suc, ◌+◌, ◌-◌, ◌*◌, ◌/◌, ◌%◌, ◌^◌, ◌<◌, true, false, ◌==◌, ◌≡◌, ◌≢◌, ap, ◌∙◌, inl, inr,
  List, arith, get_or, Bool-cases, dec_lt, ne→not-==,
}
use native.Mathlib.Nat.{pow-suc}
use hwfq_scheduler.Word.{bit, ctz}
use hwfq_scheduler.Word.Laws.{bit-zero}
use hwfq_scheduler.Word.Field.{bit_at}
use hwfq_scheduler.Trie.{find_first_set_bit64}

-- The position p is that of the lowest set digit of the word.
pub record IsLowest (width w p : ℕ) : Type 0 where
  pub inside : p < width
  pub set_here : bit w p ≡ true
  pub clear_below : (j : ℕ) → j < p → bit w j ≡ false

pub ctz-IsLowest : (n w : ℕ) → w < 2 ^ n → w ≢ 0 → IsLowest n w (ctz n w)
unfolding ctz bit
ctz-IsLowest zero w l ne = absurd (omega arith)
ctz-IsLowest (suc n) w l ne = elim (Bool-cases (w % 2 == 1)) [
  | inl e ↦
      rw e
        (record { inside = omega arith; set_here = e; clear_below = λ j h. absurd (omega arith) })
  | inr e ↦
      let h : IsLowest n (w / 2) (ctz n (w / 2)) =
        ctz-IsLowest n (w / 2) (omega (arith, pow-suc 2 n)) (λ q. ne (ground arith)) in
      rw e (record {
        inside = omega (arith, h.inside);
        set_here = h.set_here;
        clear_below = λ j l. below e h j l;
      })
]
  where
    below :
        (w % 2 == 1) ≡ false
        → IsLowest n (w / 2) (ctz n (w / 2))
        → (j : ℕ) → j < suc (ctz n (w / 2))
        → bit w j ≡ false
    below e h zero l = e
    below e h (suc j) l = h.clear_below j (omega arith)

-- What `find_first_set_bit64` gives on a word that is not 0.
pub find_first_set_bit64_lem :
    (w : ℕ)
    → w ≢ 0
    → (find_first_set_bit64 w == 0 ≡ false) × (find_first_set_bit64 w - 1 ≡ ctz 64 w)
unfolding find_first_set_bit64
find_first_set_bit64_lem w ne = rw (ne→not-== _ _ ne) (ground arith, omega arith)

-- Bit p of the field is its lowest set bit.
pub record IsFirst (ws : List ℕ) (p : ℕ) : Type 0 where
  pub set_here : bit_at 64 ws p ≡ true
  pub clear_below : (j : ℕ) → j < p → bit_at 64 ws j ≡ false

pub bit_at-at : (ws : List ℕ) (g k : ℕ) → k < 64 → bit_at 64 ws (g * 64 + k) ≡ bit (get_or ws g 0) k
bit_at-at ws g k h =
    ap (λ j. bit (get_or ws j 0) ((g * 64 + k) % 64))
      (let e : (g * 64 + k) / 64 ≡ g = omega arith in e)
    ∙ ap (bit (get_or ws g 0)) (omega arith)

-- Below the word g all words are 0, and p is the lowest set digit of that word.
pub words-IsFirst :
    (ws : List ℕ) (g p : ℕ)
    → ((j : ℕ) → j < g → get_or ws j 0 ≡ 0)
    → IsLowest 64 (get_or ws g 0) p
    → IsFirst ws (g * 64 + p)
words-IsFirst ws g p zeros h = record {
  set_here = bit_at-at ws g p h.inside ∙ h.set_here;
  clear_below = λ j l. elim (dec_lt (j / 64) g) [
    | yes q ↦ ap (λ w. bit w (j % 64)) (zeros (j / 64) q) ∙ bit-zero (j % 64)
    | no q ↦
        let same : j / 64 ≡ g = omega (arith, h.inside) in
        ap (λ k. bit (get_or ws k 0) (j % 64)) same ∙ h.clear_below (j % 64) (omega arith)
  ];
}
