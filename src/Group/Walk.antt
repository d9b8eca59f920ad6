-- ===== src/Group/Walk.antt =====
-- The walk of `group_scheduler_rebase_if_needed` along the configured entries.
use hwfq_scheduler.Base.{
  ℕ, ◌-◌, ◌≡◌, ◌≢◌, refl, sym, ap, ◌∙◌, Option, none, some, List, [], ◌∷◌, arith, All, Has, All-Has,
  inl, inr, subst,
}
use hwfq_scheduler.Types.{Entry}
use hwfq_scheduler.Chunked.{ChunkedEntries, get}
use hwfq_scheduler.Chunked.Access.{get-put_self, get-put_ne}
use hwfq_scheduler.Group.Time.{shift_down, rebase_entry, rebase_entries}

-- No id is on the list twice.
abbrev pub IsOnce : List ℕ → Type 0
IsOnce [] = Unit
IsOnce (i ∷ rest) = All (λ j. i ≢ j) rest × IsOnce rest

-- The entry with an earlier last finish time, or 0 where it would be below it.
abbrev pub ends_earlier : ℕ → Entry → Entry
ends_earlier n e = record e { last_finish_time = e.last_finish_time - n }

shift_down-eq : (n t : ℕ) → shift_down n t ≡ t - n
unfolding shift_down
shift_down-eq n t = ground arith

module _ (n : ℕ) where
  rebase_entry-ne :
      (ce : ChunkedEntries) (i j : ℕ) (o : Option Entry)
      → i ≢ j
      → get ce i ≡ o
      → get (rebase_entry n i o ce) j ≡ get ce j
  unfolding rebase_entry
  rebase_entry-ne ce i j none ne q = refl
  rebase_entry-ne ce i j (some d) ne q = get-put_ne ce i d _ q j ne

  rebase_entry_self :
      (ce : ChunkedEntries) (i : ℕ) (e : Entry) (o : Option Entry)
      → get ce i ≡ some e
      → o ≡ some e
      → get (rebase_entry n i o ce) i ≡ some (ends_earlier n e)
  unfolding rebase_entry
  rebase_entry_self ce i e o there q =
      subst (λ o. get (rebase_entry n i o ce) i ≡ some (ends_earlier n e)) (sym q)
        (get-put_self ce i e (record e { last_finish_time = shift_down n e.last_finish_time }) there
          ∙ ap (λ t. some (record e { last_finish_time = t })) (shift_down-eq n e.last_finish_time))

  rebase_entries_other :
      (ids : List ℕ) (ce : ChunkedEntries) (j : ℕ)
      → All (λ i. j ≢ i) ids
      → get (rebase_entries n ids ce) j ≡ get ce j
  unfolding rebase_entries
  rebase_entries_other [] ce j h = refl
  rebase_entries_other (i ∷ rest) ce j h =
      rebase_entries_other rest (rebase_entry n i (get ce i) ce) j h.1
      ∙ rebase_entry-ne ce i j (get ce i) (λ e. h.0 (sym e)) refl

  -- An entry on the list ends earlier by the offset.
  pub rebase_entries_listed :
      (ids : List ℕ) (ce : ChunkedEntries) (j : ℕ) (e : Entry)
      → IsOnce ids
      → Has j ids
      → get ce j ≡ some e
      → get (rebase_entries n ids ce) j ≡ some (ends_earlier n e)
  unfolding rebase_entries
  rebase_entries_listed [] ce j e once h there = absurd h
  rebase_entries_listed (i ∷ rest) ce j e once (inl p) there =
      subst
        (λ k.
          get (rebase_entries n rest (rebase_entry n i (get ce i) ce)) k ≡ some (ends_earlier n e))
        (sym p)
        (rebase_entries_other rest (rebase_entry n i (get ce i) ce) i once.0
          ∙ rebase_entry_self ce i e (get ce i) (ap (get ce) (sym p) ∙ there)
              (ap (get ce) (sym p) ∙ there))
  rebase_entries_listed (i ∷ rest) ce j e once (inr m) there =
      rebase_entries_listed rest (rebase_entry n i (get ce i) ce) j e once.1 m
        (rebase_entry-ne ce i j (get ce i) (All-Has (λ k. i ≢ k) j rest once.0 m) refl ∙ there)
