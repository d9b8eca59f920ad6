-- ===== src/InFlight/Table.antt =====
-- The hash table and the list of the work in flight hold the same entries: the table refines the
-- search of the list.
use mathlib.Core.List.{reverse, reverse-append, reverse-reverse}
use hwfq_scheduler.Base.{
  ℕ, ◌<◌, Bool, true, false, ◌==◌, ◌≡◌, ◌≢◌, sym, ap, ◌∙◌, some, List, [], ◌∷◌, ◌++◌, arith, All,
  Has, length, get_or, set, subst, ℕ_discrete, length-set, get_or-set_self, get_or-set_ne, inl, inr,
  ◌⊎◌, Bool-cases, ==→eq, ==_self, ne→not-==,
}
use hwfq_scheduler.InFlight.{
  InFlightEntry, InFlight, hash_buckets, hash_user_data, in_flight_insert, in_flight_remove,
  in_flight_find, find_by, is_session, is_of, find_session, erase,
}
use hwfq_scheduler.InFlight.Lists.{
  keep, keep-reverse, keep-keep, keep-IsDistinct, find_by-keep, erase-eq-keep, other_than,
  IsDistinct, IsDistinct-snoc, IsDistinct-reverse, keep-erase_dropped, find_by-Has, Has-reverse,
}

abbrev pub hashes_to : ℕ → InFlightEntry → Bool
hashes_to b e = hash_user_data e.user_data == b

-- Each chain holds the entries of its bucket, the newest first, and no entry stands twice.
pub record IsTable (t : InFlight) : Type 0 where
  pub buckets : length t.hash ≡ hash_buckets
  pub chains :
      (b : ℕ) → b < hash_buckets → get_or t.hash b [] ≡ keep (hashes_to b) (reverse t.entries)
  pub distinct : IsDistinct t.entries

pub hash-lt : (u : ℕ) → hash_user_data u < hash_buckets
unfolding hash_user_data
hash-lt u = omega arith

-- A new entry at a new address.
pub in_flight_insert-IsTable :
    (t : InFlight) (e : InFlightEntry)
    → IsTable t
    → All (λ x. x.address ≢ e.address) t.entries
    → IsTable (in_flight_insert t e)
unfolding in_flight_insert keep
in_flight_insert-IsTable t e v fresh = record {
  buckets = length-set t.hash (hash_user_data e.user_data) _ ∙ v.buckets;
  chains = λ b l. elim (ℕ_discrete (hash_user_data e.user_data) b) [
    | yes p ↦
        subst
          (λ b.
            get_or
              (set t.hash (hash_user_data e.user_data)
                (e ∷ get_or t.hash (hash_user_data e.user_data) []))
              b []
            ≡ keep (hashes_to b) (reverse (t.entries ++ e ∷ [])))
          p
          (get_or-set_self t.hash (hash_user_data e.user_data) _ []
              (omega (arith, hash-lt e.user_data, v.buckets))
            ∙ (rw (reverse-append t.entries (e ∷ []), ==_self (hash_user_data e.user_data))
                (ap (λ ys. e ∷ ys) (v.chains (hash_user_data e.user_data) (hash-lt e.user_data)))))
    | no ne ↦ rw (reverse-append t.entries (e ∷ [])) (
        rw (get_or-set_ne t.hash (hash_user_data e.user_data) b _ [] ne, ne→not-== _ b ne)
          (v.chains b l))
  ];
  distinct = IsDistinct-snoc t.entries e v.distinct fresh;
}

erase-chain :
    (b a : ℕ) (xs : List InFlightEntry)
    → IsDistinct xs
    → erase a (keep (hashes_to b) (reverse xs)) ≡ keep (hashes_to b) (reverse (erase a xs))
erase-chain b a xs d =
    erase-eq-keep a _ (keep-IsDistinct (hashes_to b) (reverse xs) (IsDistinct-reverse xs d))
    ∙ keep-keep (other_than a) (hashes_to b) (reverse xs)
    ∙ ap (keep (hashes_to b))
        (keep-reverse (other_than a) xs ∙ ap reverse (sym (erase-eq-keep a xs d)))

-- An entry of the list.
pub in_flight_remove-IsTable :
    (t : InFlight) (e : InFlightEntry)
    → IsTable t
    → Has e t.entries
    → IsTable (in_flight_remove t e)
unfolding in_flight_remove
in_flight_remove-IsTable t e v held = record {
  buckets = length-set t.hash (hash_user_data e.user_data) _ ∙ v.buckets;
  chains = λ b l. elim (ℕ_discrete (hash_user_data e.user_data) b) [
    | yes p ↦
        subst
          (λ b.
            get_or
              (set t.hash (hash_user_data e.user_data)
                (erase e.address (get_or t.hash (hash_user_data e.user_data) [])))
              b []
            ≡ keep (hashes_to b) (reverse (erase e.address t.entries)))
          p
          (get_or-set_self t.hash (hash_user_data e.user_data) _ []
              (omega (arith, hash-lt e.user_data, v.buckets))
            ∙ ap (erase e.address) (v.chains (hash_user_data e.user_data) (hash-lt e.user_data))
            ∙ erase-chain (hash_user_data e.user_data) e.address t.entries v.distinct)
    | no ne ↦
        get_or-set_ne t.hash (hash_user_data e.user_data) b _ [] ne
        ∙ v.chains b l
        ∙ keep-reverse (hashes_to b) t.entries
        ∙ ap reverse
            (sym (keep-erase_dropped (hashes_to b) e t.entries v.distinct held (ne→not-== _ b ne)))
        ∙ sym (keep-reverse (hashes_to b) (erase e.address t.entries))
  ];
  distinct =
      subst IsDistinct (sym (erase-eq-keep e.address t.entries v.distinct))
        (keep-IsDistinct (other_than e.address) t.entries v.distinct);
}

-- On a table that agrees with the list, the search of one chain finds what a search of the whole
-- list from its newest entry finds.
pub in_flight_find_lem :
    (t : InFlight) (u tenant_id flow_id : ℕ)
    → IsTable t
    → in_flight_find t u tenant_id flow_id
      ≡ find_by (is_session u tenant_id flow_id) (reverse t.entries)
unfolding in_flight_find
in_flight_find_lem t u ten fl v =
    ap (find_by (is_session u ten fl)) (v.chains (hash_user_data u) (hash-lt u))
    ∙ find_by-keep (is_session u ten fl) (hashes_to (hash_user_data u)) (reverse t.entries)
        (λ x h. same x (Bool-cases (x.user_data == u)) h)
  where
    same :
        (x : InFlightEntry)
        → ((x.user_data == u) ≡ true) ⊎ ((x.user_data == u) ≡ false)
        → is_session u ten fl x ≡ true
        → hashes_to (hash_user_data u) x ≡ true
    same x (inl q) h = rw (==→eq _ _ q) (==_self (hash_user_data u))
    same x (inr q) h = cc (rw q at h)

-- What is found stands in the list and is of the tenant and the flow.
pub find_session-Has :
    (t : InFlight) (u tenant_id flow_id : ℕ) (e : InFlightEntry)
    → IsTable t
    → find_session t u tenant_id flow_id ≡ some e
    → Has e t.entries
unfolding find_session
find_session-Has t u ten fl e v h = elim (Bool-cases (u == 0)) [
  | inl q ↦ (find_by-Has (is_of ten fl) t.entries e (rw q at h)).0
  | inr q ↦ subst (Has e) (reverse-reverse t.entries) (
      Has-reverse e (reverse t.entries)
        (find_by-Has (is_session u ten fl) (reverse t.entries) e
          (sym (in_flight_find_lem t u ten fl v) ∙ (rw q at h))).0)
]
