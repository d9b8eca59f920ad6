-- ===== src/Calendar/Empty.antt =====
-- The calendar without sessions is valid.
use hwfq_scheduler.Base.{
  ℕ, zero, suc, ◌+◌, ◌/◌, ◌%◌, ◌≤◌, not, ◌≡◌, refl, sym, inl, List, [], arith, get_or, replicate,
  length-replicate, get_or-replicate, All, subst,
}
use hwfq_scheduler.Types.{u64_max, Session}
use hwfq_scheduler.Word.Laws.{bit-zero}
use hwfq_scheduler.Word.Field.{bit_at}
use hwfq_scheduler.Calendar.{Calendar, is_nil}
use hwfq_scheduler.Calendar.Bins.{IsSorted, IsDistinct}
use hwfq_scheduler.Calendar.Valid.{IsValid, bin_of}
use hwfq_scheduler.Calendar.Contents.{concat}

pub concat-empty : (n : ℕ) → concat {A = Session} (replicate n []) ≡ []
concat-empty zero = refl
concat-empty (suc n) = concat-empty n

pub no_bin : (n i : ℕ) → get_or (replicate {A = List Session} n []) i [] ≡ []
no_bin n i = get_or-replicate n [] i

module _ (c : Calendar) (n : ℕ) (small : n ≤ 32768) (bins : c.num_bins ≡ n)
    (heads : c.bin_heads ≡ replicate n []) (words : c.bin_bitfield ≡ replicate ((n + 31) / 32) 0)
    (size : c.bin_bitfield_size ≡ (n + 31) / 32) (groups : c.group_bitfield ≡ replicate 32 0)
    (start : c.min_start_time ≡ u64_max) where
  bin_empty : (i : ℕ) → bin_of c i ≡ []
  bin_empty i = rw heads (no_bin n i)

  -- What holds of the empty list holds of every bin.
  at_empty {κ} : (P : List Session → Type κ) → P [] → (i : ℕ) → P (bin_of c i)
  at_empty P h i = subst P (sym (bin_empty i)) h

  word_zero : (g : ℕ) → get_or c.bin_bitfield g 0 ≡ 0
  word_zero g = rw words (get_or-replicate {A = ℕ} ((n + 31) / 32) 0 g)

  group_zero : (g : ℕ) → get_or c.group_bitfield g 0 ≡ 0
  group_zero g = rw groups (get_or-replicate {A = ℕ} 32 0 g)

  -- A calendar without sessions is valid.
  pub empty-IsValid : IsValid c
  empty-IsValid = record {
    indexed = record {
      heads_length = rw (heads, bins) (length-replicate {A = List Session} n []);
      words_length = rw (words, size) (length-replicate {A = ℕ} ((n + 31) / 32) 0);
      words_cover = rw (size, bins) refl;
      groups_length = rw groups refl;
      bins_fit = rw bins small;
      bin_words = λ i. rw (word_zero i) (omega arith);
      group_words = λ i. rw (group_zero i) (omega arith);
      bin_bits = λ i.
          subst (λ xs. bit_at 32 c.bin_bitfield i ≡ not (is_nil xs)) (sym (bin_empty i))
            (rw (word_zero (i / 32)) (bit-zero (i % 32)));
      group_bits = λ g. rw (word_zero g, group_zero (g / 32)) (bit-zero (g % 32));
    };
    ordered = record {
      sorted = at_empty IsSorted tt;
      distinct = at_empty IsDistinct tt;
      placed = λ i. at_empty (λ xs. All (λ s. s.bin_index ≡ i) xs) tt i;
    };
    min_start = record {
      lower = at_empty (λ xs. All (λ s. c.min_start_time ≤ s.start_time) xs) tt;
      attained = inl start;
    };
  }
