-- ===== src/Chunked/Access.antt =====
-- Reading an entry after a store to an entry.
use hwfq_scheduler.Base.{
  ℕ, ◌<◌, ◌≡◌, ◌≢◌, refl, ap, ◌∙◌, set, set-set, set-get_or, set-get_elem?, Option, none, some,
  false, List, arith, leb, get_or, length, ℕ_discrete, get_or-set_self, get_or-set_ne,
  get_elem?-set_self, get_elem?-set_ne, lt-length_of_get_elem?, dec_lt, get_or_out,
}
use hwfq_scheduler.Types.{Entry}
use hwfq_scheduler.Chunked.{
  ChunkedEntries, chunk_of, slot_of, chunk_at, slot_in, set_slot, get, put,
}

pub slot_in-set_slot_self :
    (o : Option (List Entry)) (k : ℕ) (d e : Entry)
    → slot_in o k ≡ some d
    → slot_in (set_slot o k e) k ≡ some e
slot_in-set_slot_self none k d e h = cc
slot_in-set_slot_self (some xs) k d e h =
    get_elem?-set_self xs k e (lt-length_of_get_elem? xs k d h)

slot_in-set_slot_ne :
    (o : Option (List Entry)) (k j : ℕ) (e : Entry)
    → k ≢ j
    → slot_in (set_slot o k e) j ≡ slot_in o j
slot_in-set_slot_ne none k j e h = refl
slot_in-set_slot_ne (some xs) k j e h = get_elem?-set_ne xs k j e h

in_chunks :
    (xs : List (Option (List Entry))) (i k : ℕ) (d : Entry)
    → slot_in (get_or xs i none) k ≡ some d
    → i < length xs
in_chunks xs i k d h = elim (dec_lt i (length xs)) [
  | yes l ↦ l
  | no l ↦ absurd (cc (h, ap (λ o. slot_in o k) (get_or_out xs i none (omega arith))))
]

set_slot_twice :
    (o : Option (List Entry)) (k : ℕ) (d e : Entry) → set_slot (set_slot o k d) k e ≡ set_slot o k e
set_slot_twice none k d e = refl
set_slot_twice (some xs) k d e = ap some (set-set xs k d e)

set_slot_same :
    (o : Option (List Entry)) (k : ℕ) (e : Entry) → slot_in o k ≡ some e → set_slot o k e ≡ o
set_slot_same none k e h = refl
set_slot_same (some xs) k e h = ap some (set-get_elem? xs k e h)

module _ (ce : ChunkedEntries) (i : ℕ) (d e : Entry) (there : get ce i ≡ some d) where
  bound : leb ce.num_chunks (chunk_of i) ≡ false
  unfolding get
  bound = ground arith

  held : slot_in (chunk_at ce (chunk_of i)) (slot_of i) ≡ some d
  unfolding get
  held = ground arith

  -- The entry that was stored.
  pub get-put_self : get (put ce i e) i ≡ some e
  unfolding get put
  get-put_self =
      rw
        (
          bound,
          get_or-set_self ce.chunks (chunk_of i) _ none (in_chunks ce.chunks _ (slot_of i) d held),
        )
        (slot_in-set_slot_self (chunk_at ce (chunk_of i)) (slot_of i) d e held)

  -- Any other entry.
  pub get-put_ne : (j : ℕ) → i ≢ j → get (put ce i e) j ≡ get ce j
  unfolding get put
  get-put_ne j ne = elim (ℕ_discrete (chunk_of i) (chunk_of j)) [
    | yes p ↦
        rw
          (
            ← p,
            bound,
            get_or-set_self ce.chunks (chunk_of i) _ none
                (in_chunks ce.chunks _ (slot_of i) d held),
          )
          (slot_in-set_slot_ne (chunk_at ce (chunk_of i)) (slot_of i) (slot_of j) e
            (λ q. ne (omega arith)))
    | no q ↦ rw (get_or-set_ne ce.chunks (chunk_of i) (chunk_of j) _ none q) refl
  ]

  -- A store, and then another to the same entry.
  pub put-put : (e' : Entry) → put (put ce i e) i e' ≡ put ce i e'
  unfolding put
  put-put e' =
      ap (λ cs. record ce { chunks = cs })
        ((rw
            (get_or-set_self ce.chunks (chunk_of i)
              (set_slot (chunk_at ce (chunk_of i)) (slot_of i) e) none
              (in_chunks ce.chunks _ (slot_of i) d held))
            (set-set ce.chunks (chunk_of i) _ _))
          ∙ ap (set ce.chunks (chunk_of i))
              (set_slot_twice (chunk_at ce (chunk_of i)) (slot_of i) e e'))

  -- A store of what is there.
  pub put-get : put ce i d ≡ ce
  unfolding put
  put-get =
      ap (λ cs. record ce { chunks = cs })
        (ap (set ce.chunks (chunk_of i))
            (set_slot_same (chunk_at ce (chunk_of i)) (slot_of i) d held)
          ∙ set-get_or ce.chunks (chunk_of i) none)
