-- ===== src/Calendar/Clear.antt =====
-- The bit fields stay exact when a bin loses a session.
use hwfq_scheduler.Base.{
  ℕ, ◌/◌, ◌%◌, ◌<◌, true, false, not, ◌==◌, ◌≡◌, ap, ◌∙◌, inl, inr, List, [], arith, get_or, set,
  Bool-cases, ne→not-==, ==_self, ltb, lt→ltb, get_or-set_self, get_or-set_ne, length-set,
  ℕ_discrete,
}
use hwfq_scheduler.Types.{Session}
use hwfq_scheduler.Word.Laws.{ne-zero_of_bit}
use hwfq_scheduler.Word.Field.{bit_at, clear_at, bit_at-clear_at, clear_at-IsField, length-clear_at}
use hwfq_scheduler.Calendar.{Calendar, is_nil, clear_bin_bit, bin_list_is_empty}
use hwfq_scheduler.Calendar.Remove.{clear_group, clear_if_empty}
use hwfq_scheduler.Calendar.Valid.{IsIndexed, bin_of, word_of}
use hwfq_scheduler.Calendar.Fields.{word_in, group_in, group_bound, word_other}

module _ (c : Calendar) (x : IsIndexed c) (b : ℕ) (lt : b < c.num_bins) (ys : List Session)
    (used : is_nil (bin_of c b) ≡ false) where
  abbrev without : Calendar
  without = record c { bin_heads = set c.bin_heads b ys }

  abbrev emptied : Calendar
  emptied = record without { bin_bitfield = clear_bin_bit c.bin_bitfield b }

  new_bin : get_or (set c.bin_heads b ys) b [] ≡ ys
  new_bin = get_or-set_self c.bin_heads b ys [] (omega (arith, x.heads_length))

  -- Bit b was set, so its word was not 0.
  old_bit : bit_at 32 c.bin_bitfield b ≡ true
  old_bit = x.bin_bits b ∙ ap not used

  old_group : bit_at 32 c.group_bitfield (b / 32) ≡ true
  old_group = x.group_bits (b / 32) ∙ ap not (ne→not-== _ 0 (ne-zero_of_bit _ (b % 32) old_bit))

  keep-bin_bits :
      is_nil ys ≡ false → (i : ℕ) → bit_at 32 c.bin_bitfield i ≡ not (is_nil (bin_of without i))
  keep-bin_bits e i = elim (ℕ_discrete b i) [
    | yes p ↦ rw (← p, new_bin, e) old_bit
    | no ne ↦ rw (get_or-set_ne c.bin_heads b i ys [] ne) (x.bin_bits i)
  ]

  clear-bin_bits :
      is_nil ys ≡ true
      → (i : ℕ) → bit_at 32 (clear_bin_bit c.bin_bitfield b) i ≡ not (is_nil (bin_of without i))
  clear-bin_bits e i = elim (ℕ_discrete b i) [
    | yes p ↦
        bit_at-clear_at 32 (omega arith) c.bin_bitfield b i (word_in c x b lt)
        ∙ rw (← p, new_bin, e, ==_self b) (ground arith)
    | no ne ↦
        bit_at-clear_at 32 (omega arith) c.bin_bitfield b i (word_in c x b lt)
        ∙ rw (get_or-set_ne c.bin_heads b i ys [] ne, x.bin_bits i, ne→not-== b i ne) (ground arith)
  ]

  -- The group bit of the word goes exactly if the word is now 0.
  clear-group_bits :
      (get_or (clear_bin_bit c.bin_bitfield b) (b / 32) 0 == 0) ≡ true
      → (g : ℕ)
      → bit_at 32 (clear_bin_bit c.group_bitfield (b / 32)) g ≡ not (word_of emptied g == 0)
  unfolding clear_at
  clear-group_bits e g = elim (ℕ_discrete (b / 32) g) [
    | yes p ↦
        bit_at-clear_at 32 (omega arith) c.group_bitfield (b / 32) g (group_in c x b lt)
        ∙ rw (← p, e, ==_self (b / 32)) (ground arith)
    | no ne ↦
        bit_at-clear_at 32 (omega arith) c.group_bitfield (b / 32) g (group_in c x b lt)
        ∙ rw (word_other c.bin_bitfield b g _ ne, x.group_bits g, ne→not-== (b / 32) g ne)
            (ground arith)
  ]

  keep-group_bits :
      (get_or (clear_bin_bit c.bin_bitfield b) (b / 32) 0 == 0) ≡ false
      → (g : ℕ) → bit_at 32 c.group_bitfield g ≡ not (word_of emptied g == 0)
  unfolding clear_at
  keep-group_bits e g = elim (ℕ_discrete (b / 32) g) [
    | yes p ↦ rw (← p, e) old_group
    | no ne ↦ rw (word_other c.bin_bitfield b g _ ne) (x.group_bits g)
  ]

  keep-IsIndexed : is_nil ys ≡ false → IsIndexed without
  keep-IsIndexed e = record {
    heads_length = length-set c.bin_heads b ys ∙ x.heads_length;
    words_length = x.words_length;
    words_cover = x.words_cover;
    groups_length = x.groups_length;
    bins_fit = x.bins_fit;
    bin_words = x.bin_words;
    group_words = x.group_words;
    bin_bits = keep-bin_bits e;
    group_bits = x.group_bits;
  }

  emptied-IsIndexed :
      is_nil ys ≡ true
      → (get_or (clear_bin_bit c.bin_bitfield b) (b / 32) 0 == 0) ≡ false
      → IsIndexed emptied
  emptied-IsIndexed e z = record {
    heads_length = length-set c.bin_heads b ys ∙ x.heads_length;
    words_length = length-clear_at 32 c.bin_bitfield b ∙ x.words_length;
    words_cover = x.words_cover;
    groups_length = x.groups_length;
    bins_fit = x.bins_fit;
    bin_words = clear_at-IsField 32 (omega arith) c.bin_bitfield b x.bin_words;
    group_words = x.group_words;
    bin_bits = clear-bin_bits e;
    group_bits = keep-group_bits z;
  }

  cleared-IsIndexed :
      is_nil ys ≡ true
      → (get_or (clear_bin_bit c.bin_bitfield b) (b / 32) 0 == 0) ≡ true
      → IsIndexed (record emptied { group_bitfield = clear_bin_bit c.group_bitfield (b / 32) })
  cleared-IsIndexed e z = record {
    heads_length = length-set c.bin_heads b ys ∙ x.heads_length;
    words_length = length-clear_at 32 c.bin_bitfield b ∙ x.words_length;
    words_cover = x.words_cover;
    groups_length = length-clear_at 32 c.group_bitfield (b / 32) ∙ x.groups_length;
    bins_fit = x.bins_fit;
    bin_words = clear_at-IsField 32 (omega arith) c.bin_bitfield b x.bin_words;
    group_words = clear_at-IsField 32 (omega arith) c.group_bitfield (b / 32) x.group_words;
    bin_bits = clear-bin_bits e;
    group_bits = clear-group_bits z;
  }

  word_bound : ltb (b / 32) c.bin_bitfield_size ≡ true
  word_bound = lt→ltb _ _ (omega (arith, x.words_cover))

  pub clear_if_empty-IsIndexed : IsIndexed (clear_if_empty without b)
  unfolding clear_if_empty clear_group bin_list_is_empty
  clear_if_empty-IsIndexed = elim (Bool-cases (is_nil ys)) [
    | inl e ↦ elim (Bool-cases (get_or (clear_bin_bit c.bin_bitfield b) (b / 32) 0 == 0)) [
      | inl z ↦ rw (new_bin, e, word_bound, z, group_bound c x b lt) (cleared-IsIndexed e z)
      | inr z ↦ rw (new_bin, e, word_bound, z) (emptied-IsIndexed e z)
    ]
    | inr e ↦ rw (new_bin, e) (keep-IsIndexed e)
  ]
