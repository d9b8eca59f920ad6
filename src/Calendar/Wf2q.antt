-- ===== src/Calendar/Wf2q.antt =====
-- The choice of WF2Q+ among queued sessions, without bins and bit fields, and what the calendar's search
-- has to do with it.
use hwfq_scheduler.Base.{
  ℕ, some, ap, ◌≤◌, dec_lt, min, max, ◌≡◌, inl, inr, List, [], ◌∷◌, arith, All, Has, All-Has, refl,
}
use hwfq_scheduler.Types.{u64_max, Session}
use hwfq_scheduler.Calendar.{Calendar}
use hwfq_scheduler.Calendar.Valid.{IsValid, bin_of}
use hwfq_scheduler.Calendar.Least.{IsEligibleMin}
use hwfq_scheduler.Calendar.Contents.{sessions, Has-concat, Has-bin}
use hwfq_scheduler.Calendar.Progress.{IsTimed, Moved}

-- min S over the sessions, below `UINT64_MAX`.
abbrev pub least_start : List Session → ℕ
least_start [] = u64_max
least_start (x ∷ xs) = min x.start_time (least_start xs)

-- The virtual time of the choice, max(V, min S).
abbrev pub choice_time : (now : ℕ) → List Session → ℕ
choice_time now xs = max now (least_start xs)

-- Of the sessions that may start at that time, s finishes first.
pub record IsWf2qChoice (now : ℕ) (xs : List Session) (s : Session) : Type 0 where
  pub queued : Has s xs
  pub started : s.start_time ≤ choice_time now xs
  pub least : All (λ t. t.start_time ≤ choice_time now xs → s.finish_time ≤ t.finish_time) xs

pub All-by_Has {κ} :
    {A : Type 0} (P : A → Type κ) (xs : List A) → ((a : A) → Has a xs → P a) → All P xs
All-by_Has P [] h = tt
All-by_Has P (x ∷ xs) h = (h x (inl refl), All-by_Has P xs (λ a m. h a (inr m)))

pub least_start-below : (xs : List Session) → least_start xs ≤ u64_max
least_start-below [] = omega arith
least_start-below (x ∷ xs) = omega (arith, least_start-below xs)

pub least_start-le : (xs : List Session) → All (λ t. least_start xs ≤ t.start_time) xs
least_start-le xs = All-by_Has _ xs (go xs)
  where
    go : (xs : List Session) (t : Session) → Has t xs → least_start xs ≤ t.start_time
    go [] t h = absurd h
    go (x ∷ xs) t (inl e) = omega (arith, ap (λ (s : Session). s.start_time) e)
    go (x ∷ xs) t (inr h) = omega (arith, go xs t h)

pub least_start-greatest :
    (m : ℕ) (xs : List Session) → m ≤ u64_max → All (λ t. m ≤ t.start_time) xs → m ≤ least_start xs
least_start-greatest m [] u h = u
least_start-greatest m (x ∷ xs) u h = omega (arith, h.0, least_start-greatest m xs u h.1)

-- Some session has it.
pub least_start-attained :
    (xs : List Session) (s : Session)
    → Has s xs
    → All (λ t. t.start_time ≤ u64_max) xs
    → (t : Session) × Has t xs × (t.start_time ≡ least_start xs)
least_start-attained [] s h u = absurd h
least_start-attained (x ∷ []) s h u = (x, inl refl, omega (arith, u.0))
least_start-attained (x ∷ y ∷ ys) s h u =
    let (t, m, e) = least_start-attained (y ∷ ys) y (inl refl) u.1 in
    elim (dec_lt x.start_time t.start_time) [
      | yes l ↦ (x, inl refl, omega arith)
      | no g ↦ (t, inr m, omega arith)
    ]

module _ (c : Calendar) (v : IsValid c) (timed : IsTimed c) where
  started_below : (s : Session) (i : ℕ) → Has s (bin_of c i) → s.start_time ≤ u64_max
  started_below s i h = let t = All-Has _ s (bin_of c i) (timed i) h in omega arith

  pub starts_below : All (λ t. t.start_time ≤ u64_max) (sessions c)
  starts_below =
      All-by_Has _ (sessions c) (λ t h. let (i, m) = Has-bin t c.bin_heads h in started_below t i m)

  min_start-below : c.min_start_time ≤ u64_max
  min_start-below = elim v.min_start.attained [
    | inl p ↦ omega arith
    | inr (i, s, h, p) ↦ omega (arith, started_below s i h)
  ]

  min_start-le : All (λ t. c.min_start_time ≤ t.start_time) (sessions c)
  min_start-le = All-by_Has _ (sessions c) (λ t h.
      let (i, m) = Has-bin t c.bin_heads h in All-Has _ t (bin_of c i) (v.min_start.lower i) m)

  -- The smallest start time that the calendar has cached is that of the sessions.
  pub min_start-eq : c.min_start_time ≡ least_start (sessions c)
  min_start-eq =
      let up = least_start-greatest c.min_start_time (sessions c) min_start-below min_start-le in
      elim v.min_start.attained [
        | inl p ↦ omega (arith, up, least_start-below (sessions c))
        | inr (i, s, h, p) ↦
            let down =
              All-Has _ s (sessions c) (least_start-le (sessions c))
                (Has-concat s c.bin_heads i h) in
            omega (arith, up)
      ]

  -- What a search finds at the virtual time to which it may have moved.
  pub found-IsWf2qChoice :
      (vt : ℕ) (s : Session)
      → IsEligibleMin c vt (some s)
      → Moved c vt
      → (vt ≡ choice_time c.virtual_time (sessions c)) × IsWf2qChoice c.virtual_time (sessions c) s
  found-IsWf2qChoice vt s e moved =
      let low = All-Has _ s (bin_of c e.0.bin) (v.min_start.lower e.0.bin) e.0.member in
      let started = e.0.started in
      let at : vt ≡ choice_time c.virtual_time (sessions c) = elim moved [
        | inl p ↦ omega (arith, min_start-eq, started, low)
        | inr (p, l) ↦ omega (arith, min_start-eq)
      ] in
      (
        at,
        record {
          queued = Has-concat s c.bin_heads e.0.bin e.0.member;
          started = omega arith;
          least = All-by_Has _ (sessions c) (λ t h le.
              let (i, m) = Has-bin t c.bin_heads h in
              All-Has _ t (bin_of c i) (e.1 i) m (omega arith));
        },
      )
