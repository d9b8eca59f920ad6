-- ===== src/Trie/Marks.antt =====
-- How the bits of one level follow a change of the level below, for any two levels.
use hwfq_scheduler.Base.{
  ℕ, ◌/◌, Bool, true, false, not, ◌&&◌, ◌||◌, ◌==◌, ◌≡◌, ◌≢◌, sym, ◌∙◌, List, arith, ℕ_discrete,
  subst, ==_self, ne→not-==, get_or, get_or-set_ne,
}
use hwfq_scheduler.Word.Field.{set_at, clear_at}

-- `u i` is the bit for the word i below, and `v i` whether that word has a free id; `v'` is `v` after
-- the word g has changed.
module _ (u v v' : ℕ → Bool) (g : ℕ) (marks : (i : ℕ) → u i ≡ v i)
    (others : (i : ℕ) → g ≢ i → v' i ≡ v i) where
  pub marks_keep : u g ≡ v' g → (i : ℕ) → u i ≡ v' i
  marks_keep here i = elim (ℕ_discrete g i) [
    | yes p ↦ subst (λ j. u j ≡ v' j) p here
    | no ne ↦ marks i ∙ sym (others i ne)
  ]

  module _ (u' : ℕ → Bool) where
    pub marks_clear :
        ((i : ℕ) → u' i ≡ (u i && not (g == i))) → v' g ≡ false → (i : ℕ) → u' i ≡ v' i
    marks_clear after here i = elim (ℕ_discrete g i) [
      | yes p ↦ subst (λ j. u' j ≡ v' j) p (after g ∙ rw (==_self g, here) (ground arith))
      | no ne ↦ after i ∙ rw (ne→not-== g i ne, others i ne, marks i) (ground arith)
    ]

    pub marks_set : ((i : ℕ) → u' i ≡ (u i || (g == i))) → v' g ≡ true → (i : ℕ) → u' i ≡ v' i
    marks_set after here i = elim (ℕ_discrete g i) [
      | yes p ↦ subst (λ j. u' j ≡ v' j) p (after g ∙ rw (==_self g, here) (ground arith))
      | no ne ↦ after i ∙ rw (ne→not-== g i ne, others i ne, marks i) (ground arith)
    ]

pub set_at-others :
    (ws : List ℕ) (i j d : ℕ) → i / 64 ≢ j → get_or (set_at 64 ws i) j d ≡ get_or ws j d
unfolding set_at
set_at-others ws i j d ne = get_or-set_ne ws (i / 64) j _ d ne

pub clear_at-others :
    (ws : List ℕ) (i j d : ℕ) → i / 64 ≢ j → get_or (clear_at 64 ws i) j d ≡ get_or ws j d
unfolding clear_at
clear_at-others ws i j d ne = get_or-set_ne ws (i / 64) j _ d ne
