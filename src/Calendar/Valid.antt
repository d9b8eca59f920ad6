-- ===== src/Calendar/Valid.antt =====
-- What is always true of the calendar: the bit fields name exactly the bins in use, each bin is in
-- order, and `min_start_time` is the smallest start time.
use hwfq_scheduler.Base.{
  ℕ, ◌+◌, ◌*◌, ◌/◌, ◌%◌, ◌≤◌, ◌<◌, false, not, ◌==◌, ◌≡◌, ◌⊎◌, refl, ap, sym, ◌∙◌, List, [], ◌∷◌,
  arith, length, get_or, All, Has, get_or_out,
}
use hwfq_scheduler.Types.{u64_max, Session}
use hwfq_scheduler.Word.{bit}
use hwfq_scheduler.Word.Laws.{bit-zero}
use hwfq_scheduler.Word.Field.{IsField, bit_at}
use hwfq_scheduler.Calendar.{Calendar, is_nil}
use hwfq_scheduler.Calendar.Bins.{IsSorted, IsDistinct}

-- The sessions of the bin with the index, none out of range.
abbrev pub bin_of : Calendar → ℕ → List Session
bin_of c i = get_or c.bin_heads i []

-- A word of the bin bit field, 0 out of range.
abbrev pub word_of : Calendar → ℕ → ℕ
word_of c g = get_or c.bin_bitfield g 0

-- The arrays have their lengths, and bits are set exactly for the bins and words in use.
pub record IsIndexed (c : Calendar) : Type 0 where
  pub heads_length : length c.bin_heads ≡ c.num_bins
  pub words_length : length c.bin_bitfield ≡ c.bin_bitfield_size
  pub words_cover : c.bin_bitfield_size ≡ (c.num_bins + 31) / 32
  pub groups_length : length c.group_bitfield ≡ 32
  pub bins_fit : c.num_bins ≤ 32768
  pub bin_words : IsField 32 c.bin_bitfield
  pub group_words : IsField 32 c.group_bitfield
  pub bin_bits : (i : ℕ) → bit_at 32 c.bin_bitfield i ≡ not (is_nil (bin_of c i))
  pub group_bits : (g : ℕ) → bit_at 32 c.group_bitfield g ≡ not (word_of c g == 0)

-- Each bin is sorted, holds the sessions that were put there, and none twice.
pub record IsOrdered (c : Calendar) : Type 0 where
  pub sorted : (i : ℕ) → IsSorted (bin_of c i)
  pub distinct : (i : ℕ) → IsDistinct (bin_of c i)
  pub placed : (i : ℕ) → All (λ s. s.bin_index ≡ i) (bin_of c i)

-- Some bin holds a session with the start time.
abbrev pub StartsAt : Calendar → ℕ → Type 0
StartsAt c m = (i : ℕ) × (s : Session) × Has s (bin_of c i) × (s.start_time ≡ m)

-- `min_start_time` is the smallest start time, or `UINT64_MAX` if there is none below it.
pub record IsMinStart (c : Calendar) (m : ℕ) : Type 0 where
  pub lower : (i : ℕ) → All (λ s. m ≤ s.start_time) (bin_of c i)
  pub attained : (m ≡ u64_max) ⊎ StartsAt c m

pub record IsValid (c : Calendar) : Type 0 where
  pub indexed : IsIndexed c
  pub ordered : IsOrdered c
  pub min_start : IsMinStart c c.min_start_time

pub is_nil-eq : (xs : List Session) → not (is_nil xs) ≡ false → xs ≡ []
is_nil-eq [] h = refl
is_nil-eq (x ∷ xs) h = cc

pub bit_at-word :
    (ws : List ℕ) (g k : ℕ) → k < 32 → bit_at 32 ws (g * 32 + k) ≡ bit (get_or ws g 0) k
bit_at-word ws g k h =
    ap (λ j. bit (get_or ws j 0) ((g * 32 + k) % 32))
      (let e : (g * 32 + k) / 32 ≡ g = omega arith in e)
    ∙ ap (bit (get_or ws g 0)) (omega arith)

module _ (c : Calendar) (x : IsIndexed c) where
  pub bin_past : (i : ℕ) → c.num_bins ≤ i → bin_of c i ≡ []
  bin_past i h = get_or_out c.bin_heads i [] (omega (arith, x.heads_length))

  pub bin_unset : (g k : ℕ) → k < 32 → bit (word_of c g) k ≡ false → bin_of c (g * 32 + k) ≡ []
  bin_unset g k h e =
      is_nil-eq _ (sym (x.bin_bits (g * 32 + k)) ∙ bit_at-word c.bin_bitfield g k h ∙ e)

  pub word_unset :
      (w k : ℕ) → k < 32 → bit (get_or c.group_bitfield w 0) k ≡ false → word_of c (w * 32 + k) ≡ 0
  word_unset w k h e = ground (arith, x.group_bits (w * 32 + k), bit_at-word c.group_bitfield w k h)

  pub bin_of_word-zero : (g k : ℕ) → k < 32 → word_of c g ≡ 0 → bin_of c (g * 32 + k) ≡ []
  bin_of_word-zero g k h e = bin_unset g k h (ap (λ w. bit w k) e ∙ bit-zero k)
