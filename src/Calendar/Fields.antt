-- ===== src/Calendar/Fields.antt =====
-- The bit fields stay exact when a bin is filled or emptied.
use hwfq_scheduler.Base.{
  ℕ, ◌/◌, ◌%◌, ◌<◌, true, false, not, ◌==◌, ◌≡◌, ◌≢◌, ◌∙◌, List, [], arith, length, get_or, set,
  ne→not-==, ==_self, ltb, lt→ltb, get_or-set_self, get_or-set_ne, length-set, ℕ_discrete,
}
use hwfq_scheduler.Types.{Session}
use hwfq_scheduler.Word.{bit}
use hwfq_scheduler.Word.Laws.{ne-zero_of_bit}
use hwfq_scheduler.Word.Field.{bit_at, set_at, bit_at-set_at, set_at-IsField, length-set_at}
use hwfq_scheduler.Calendar.{Calendar, is_nil, set_bin_bit}
use hwfq_scheduler.Calendar.Valid.{IsIndexed}

-- Only these fields matter.
pub IsIndexed-same :
    (c d : Calendar)
    → d.bin_heads ≡ c.bin_heads
    → d.bin_bitfield ≡ c.bin_bitfield
    → d.group_bitfield ≡ c.group_bitfield
    → d.num_bins ≡ c.num_bins
    → d.bin_bitfield_size ≡ c.bin_bitfield_size
    → IsIndexed c
    → IsIndexed d
IsIndexed-same c d h b g n s x = record {
  heads_length = rw (h, n) x.heads_length;
  words_length = rw (b, s) x.words_length;
  words_cover = rw (s, n) x.words_cover;
  groups_length = rw g x.groups_length;
  bins_fit = rw n x.bins_fit;
  bin_words = rw b x.bin_words;
  group_words = rw g x.group_words;
  bin_bits = rw (b, h) x.bin_bits;
  group_bits = rw (g, b) x.group_bits;
}

-- Outside the word where bit b lies, an update of bit b changes no word.
pub word_other :
    (ws : List ℕ) (b g v : ℕ) → b / 32 ≢ g → get_or (set ws (b / 32) v) g 0 ≡ get_or ws g 0
word_other ws b g v ne = get_or-set_ne ws (b / 32) g v 0 ne

module _ (c : Calendar) (x : IsIndexed c) (b : ℕ) (lt : b < c.num_bins) where
  pub word_in : b / 32 < length c.bin_bitfield
  word_in = omega (arith, x.words_length, x.words_cover)

  pub group_in : b / 32 / 32 < length c.group_bitfield
  group_in = omega (arith, x.groups_length, x.bins_fit)

  pub group_bound : ltb (b / 32 / 32) 32 ≡ true
  group_bound = lt→ltb _ _ (omega (arith, x.bins_fit))

  -- A bin that is given at least one session.
  fill-bin_bits :
      (ys : List Session)
      → is_nil ys ≡ false
      → (i : ℕ)
      → bit_at 32 (set_bin_bit c.bin_bitfield b) i
        ≡ not (is_nil (get_or (set c.bin_heads b ys) i []))
  fill-bin_bits ys some_ys i = elim (ℕ_discrete b i) [
    | yes p ↦
        bit_at-set_at 32 (omega arith) c.bin_bitfield b i word_in
        ∙ rw
            (
              ← p,
              get_or-set_self c.bin_heads b ys [] (omega (arith, x.heads_length)),
              some_ys,
              ==_self b,
            )
            (ground arith)
    | no ne ↦
        bit_at-set_at 32 (omega arith) c.bin_bitfield b i word_in
        ∙ rw (get_or-set_ne c.bin_heads b i ys [] ne, x.bin_bits i, ne→not-== b i ne) (ground arith)
  ]

  fill-group_bits :
      (g : ℕ)
      → bit_at 32 (set_bin_bit c.group_bitfield (b / 32)) g
        ≡ not (get_or (set_bin_bit c.bin_bitfield b) g 0 == 0)
  unfolding set_at
  fill-group_bits g = elim (ℕ_discrete (b / 32) g) [
    | yes p ↦
        bit_at-set_at 32 (omega arith) c.group_bitfield (b / 32) g group_in
        ∙ rw (← p, ne→not-== _ 0 (ne-zero_of_bit _ (b % 32) lit), ==_self (b / 32)) (ground arith)
    | no ne ↦
        bit_at-set_at 32 (omega arith) c.group_bitfield (b / 32) g group_in
        ∙ rw (word_other c.bin_bitfield b g _ ne, x.group_bits g, ne→not-== (b / 32) g ne)
            (ground arith)
  ]
    where
      lit : bit (get_or (set_bin_bit c.bin_bitfield b) (b / 32) 0) (b % 32) ≡ true
      lit = bit_at-set_at 32 (omega arith) c.bin_bitfield b b word_in ∙ ground (arith, ==_self b)

  pub fill-IsIndexed :
      (ys : List Session)
      → is_nil ys ≡ false
      → IsIndexed (record c {
        bin_heads = set c.bin_heads b ys;
        bin_bitfield = set_bin_bit c.bin_bitfield b;
        group_bitfield = set_bin_bit c.group_bitfield (b / 32);
      })
  fill-IsIndexed ys some_ys = record {
    heads_length = length-set c.bin_heads b ys ∙ x.heads_length;
    words_length = length-set_at 32 c.bin_bitfield b ∙ x.words_length;
    words_cover = x.words_cover;
    groups_length = length-set_at 32 c.group_bitfield (b / 32) ∙ x.groups_length;
    bins_fit = x.bins_fit;
    bin_words = set_at-IsField 32 (omega arith) c.bin_bitfield b x.bin_words;
    group_words = set_at-IsField 32 (omega arith) c.group_bitfield (b / 32) x.group_words;
    bin_bits = fill-bin_bits ys some_ys;
    group_bits = fill-group_bits;
  }
