-- ===== src/Scheduler/Refuse.antt =====
-- A call of `hwfq_enqueue` that fails.
use hwfq_scheduler.Base.{
  ℕ, ◌^◌, ◌<◌, Bool, true, false, ◌≡◌, ◌⊎◌, inl, inr, refl, sym, ap, ap₂, ◌∙◌, subst, Option, none,
  some, leb, ◌==◌, arith, some_inj, Option-cases, if◌then◌else◌, set, set-get_or,
}
use hwfq_scheduler.Types.{
  Status, success, invalid_arg, no_memory, not_found, overbooked, no_work, has_backlog, internal,
  Stats, Entry,
}
use hwfq_scheduler.Chunked.{get, put}
use hwfq_scheduler.Chunked.Access.{get-put_self, put-put, put-get}
use hwfq_scheduler.Group.{GroupScheduler, add32, sub32}
use hwfq_scheduler.Group.Enqueue.{KeepsOnFailure, enqueue-KeepsOnFailure}
use hwfq_scheduler.Scheduler.{
  found_status, Tenant, Scheduler, Surroundings, tenant_at, find_tenant, find_flow_entry,
  ensure_flow_entry, with_flow_entry, change_entry, if_configured_entry, configured_only,
}
use hwfq_scheduler.Scheduler.Queue.{
  Work, Outcome, one_more, one_fewer, entry_stats, both_stats, after_enqueue, enqueue_context,
  enqueue_if_there, enqueue_tenant, hwfq_enqueue,
}
use hwfq_scheduler.Scheduler.Accounts.{if_both}

one_fewer-one_more : (st : Stats) → st.current_backlog < 2 ^ 32 → one_fewer (one_more st) ≡ st
one_fewer-one_more st small =
    ap (λ b. record st { current_backlog = b })
      (let q : sub32 (add32 st.current_backlog 1) 1 ≡ st.current_backlog = omega arith in q)

if_some : (b : Bool) (d e : Entry) → (if b then some d else none) ≡ some e → (d ≡ e) × (b ≡ true)
if_some true d e h = (some_inj h, refl)
if_some false d e h = absurd (cc)

-- The entry that `find_flow_entry` finds is in the pool.
pub get_of_find :
    (t : Tenant) (f : ℕ) (e : Entry)
    → find_flow_entry t f ≡ some e
    → (get t.flow_scheduler.entries f ≡ some e) × (e.configured ≡ true)
unfolding find_flow_entry
get_of_find t f e h = elim (Option-cases (get t.flow_scheduler.entries f)) [
  | inl q ↦ absurd (cc (ap if_configured_entry q))
  | inr (d, q) ↦
      let k = if_some d.configured d e (sym (ap if_configured_entry q) ∙ h) in
      (q ∙ ap some k.0, ap (λ (x : Entry). x.configured) (sym k.0) ∙ k.1)
]

abbrev restated : (Stats → Stats) → Tenant → ℕ → Entry → Tenant
restated g t f e = record t {
  stats = g t.stats;
  flow_scheduler = record (t.flow_scheduler) {
    entries = put t.flow_scheduler.entries f (entry_stats g e);
  };
}

pub both_stats-found :
    (g : Stats → Stats) (t : Tenant) (f : ℕ) (e : Entry)
    → find_flow_entry t f ≡ some e
    → both_stats g t f ≡ restated g t f e
unfolding both_stats with_flow_entry find_flow_entry
both_stats-found g t f e h = ap (change_entry (entry_stats g) (record t { stats = g t.stats }) f) h

pub find_flow_entry-restated :
    (g : Stats → Stats) (t : Tenant) (f : ℕ) (e : Entry)
    → find_flow_entry t f ≡ some e
    → find_flow_entry (restated g t f e) f ≡ some (entry_stats g e)
unfolding find_flow_entry
find_flow_entry-restated g t f e h =
    let k = get_of_find t f e h in
    ap if_configured_entry (get-put_self t.flow_scheduler.entries f e (entry_stats g e) k.0)
    ∙ ap (λ b. if b then some (entry_stats g e) else none) k.1

-- The statistics of the two go up and down again.
both_stats-back :
    (t : Tenant) (f : ℕ) (e : Entry)
    → find_flow_entry t f ≡ some e
    → t.stats.current_backlog < 2 ^ 32
    → e.stats.current_backlog < 2 ^ 32
    → both_stats one_fewer (both_stats one_more t f) f ≡ t
both_stats-back t f e h small small' =
    let ce = t.flow_scheduler.entries in
    let there = (get_of_find t f e h).0 in
    ap (λ x. both_stats one_fewer x f) (both_stats-found one_more t f e h)
    ∙ both_stats-found one_fewer (restated one_more t f e) f (entry_stats one_more e)
        (find_flow_entry-restated one_more t f e h)
    ∙ ap₂
        (λ st ce. record t {
          stats = st;
          flow_scheduler = record (t.flow_scheduler) { entries = ce };
        })
        (one_fewer-one_more t.stats small)
        (put-put ce f e (entry_stats one_more e) there
            (entry_stats one_fewer (entry_stats one_more e))
          ∙ ap (λ st. put ce f (record e { stats = st })) (one_fewer-one_more e.stats small')
          ∙ put-get ce f e e there)

-- A success, or neither a callback nor a change.
abbrev pub KeepsScheduler : Scheduler → Outcome → Type 0
KeepsScheduler s r = (r.0 ≡ success) ⊎ ((r.1 ≡ false) × (r.2 ≡ s))

abbrev with_queue : Tenant → GroupScheduler → Tenant
with_queue t g = record t { flow_scheduler = g }

module _ (s : Scheduler) (i f : ℕ) (around : Surroundings) (t c : Tenant)
    (there : tenant_at s i ≡ some t) (back : both_stats one_fewer c f ≡ t) where
  failed :
      (g : GroupScheduler)
      → g ≡ c.flow_scheduler
      → record s { tenants = set s.tenants i (some (both_stats one_fewer (with_queue c g) f)) } ≡ s
  failed g q =
      ap (λ ts. record s { tenants = ts })
        (ap (λ x. set s.tenants i (some x))
            (ap (λ x. both_stats one_fewer (with_queue c x) f) q ∙ back)
          ∙ ap (set s.tenants i) (sym there)
          ∙ set-get_or s.tenants i none)

  after_enqueue-KeepsScheduler :
      (r : Status × GroupScheduler)
      → KeepsOnFailure c.flow_scheduler r
      → KeepsScheduler s (after_enqueue s c i f around r)
  unfolding after_enqueue
  after_enqueue-KeepsScheduler (success, g) k = inl refl
  after_enqueue-KeepsScheduler (invalid_arg, g) (inr k) = inr (refl, failed g k)
  after_enqueue-KeepsScheduler (no_memory, g) (inr k) = inr (refl, failed g k)
  after_enqueue-KeepsScheduler (not_found, g) (inr k) = inr (refl, failed g k)
  after_enqueue-KeepsScheduler (overbooked, g) (inr k) = inr (refl, failed g k)
  after_enqueue-KeepsScheduler (no_work, g) (inr k) = inr (refl, failed g k)
  after_enqueue-KeepsScheduler (has_backlog, g) (inr k) = inr (refl, failed g k)
  after_enqueue-KeepsScheduler (internal, g) (inr k) = inr (refl, failed g k)
  after_enqueue-KeepsScheduler (status, g) (inl k) = inl k

-- The backlogs of the tenant and of the flow are 32-bit words.
abbrev pub HasWords : Scheduler → (tenant_id flow_id : ℕ) → Type 0
HasWords s i f =
    (t : Tenant)
    → tenant_at s i ≡ some t
    → (t.stats.current_backlog < 2 ^ 32)
      × ((e : Entry) → find_flow_entry t f ≡ some e → e.stats.current_backlog < 2 ^ 32)

configured_only-some : (o : Option Tenant) (t : Tenant) → configured_only o ≡ some t → o ≡ some t
configured_only-some none t h = absurd (cc)
configured_only-some (some d) t h = go d.configured h
  where
    go : (b : Bool) → (if b then some d else none) ≡ some t → some d ≡ some t
    go true k = k
    go false k = absurd (cc)

-- A configured tenant stands at its index.
pub tenant_of_find :
    (s : Scheduler) (i : ℕ) (t : Tenant) → find_tenant s i ≡ some t → tenant_at s i ≡ some t
unfolding find_tenant
tenant_of_find s i t h = configured_only-some (tenant_at s i) t h

module _ (s : Scheduler) (i f : ℕ) (work : Work) (around : Surroundings)
    (words : HasWords s i f) where
  enqueue_context-KeepsScheduler :
      (t : Tenant) (e : Entry) (m : Option ℕ)
      → tenant_at s i ≡ some t
      → find_flow_entry t f ≡ some e
      → KeepsScheduler s (enqueue_context s t i f work around m)
  unfolding enqueue_context
  enqueue_context-KeepsScheduler t e none there found = inr (refl, refl)
  enqueue_context-KeepsScheduler t e (some a) there found =
      let w = words t there in
      let c = both_stats one_more t f in
      after_enqueue-KeepsScheduler s i f around t c there
        (both_stats-back t f e found w.0 (w.1 e found)) _
        (enqueue-KeepsOnFailure c.flow_scheduler f work.work_size _ (around.clock 1)
          (around.memory 1))

  enqueue_tenant-KeepsScheduler :
      (o : Option Tenant)
      → find_tenant s i ≡ o
      → KeepsScheduler s (enqueue_tenant s o i f work around)
  unfolding enqueue_tenant ensure_flow_entry
  enqueue_tenant-KeepsScheduler none h = inr (refl, refl)
  enqueue_tenant-KeepsScheduler (some t) h = elim (Option-cases (find_flow_entry t f)) [
    | inl q ↦ by_status q (inr (refl, refl))
    | inr (e, q) ↦
        by_status q
          (enqueue_context-KeepsScheduler t e (around.memory 0) (tenant_of_find s i t h) q)
  ]
    where
      by_status :
          {o : Option Entry}
          → find_flow_entry t f ≡ o
          → KeepsScheduler s (enqueue_if_there s t i f work around (found_status o))
          → KeepsScheduler s
              (enqueue_if_there s t i f work around (found_status (find_flow_entry t f)))
      by_status q k =
          subst (λ o. KeepsScheduler s (enqueue_if_there s t i f work around (found_status o)))
            (sym q) k

  -- A call of `hwfq_enqueue` that fails, for whatever reason, leaves the scheduler exactly as it was
  -- and calls nothing back, given that the backlogs of the tenant and of the flow are 32-bit words.
  pub hwfq_enqueue-KeepsScheduler : KeepsScheduler s (hwfq_enqueue s i f work around)
  unfolding hwfq_enqueue
  hwfq_enqueue-KeepsScheduler =
      if_both (KeepsScheduler s) (work.work_size == 0) _ _ (inr (refl, refl)) (
        if_both (KeepsScheduler s) (leb s.config.max_tenants i) _ _ (inr (refl, refl)) (
          if_both (KeepsScheduler s) (f == 0) _ _ (inr (refl, refl))
            (enqueue_tenant-KeepsScheduler (find_tenant s i) refl)))
