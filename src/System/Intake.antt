-- ===== src/System/Intake.antt =====
-- An idle group scheduler that takes one piece of work.
use mathlib.Core.List.{Perm, Permᴰ}
use mathlib.Core.Logic.{∥∥₁_elim}
use native.Mathlib.Nat.{ℕ_set}
use hwfq_scheduler.Base.{
  ℕ, suc, ◌<◌, ◌≡◌, ◌≢◌, refl, ap, ◌∙◌, subst, some, List, [], ◌∷◌, arith, All, Has, inl, inr,
  length,
}
use hwfq_scheduler.Types.{Status, success, UserData, Session, Entry}
use hwfq_scheduler.Calendar.Contents.{sessions, Has-concat, Perm-length}
use hwfq_scheduler.Calendar.Insert.{IsFresh, bin_for, stored}
use hwfq_scheduler.Calendar.Valid.{bin_of}
use hwfq_scheduler.Group.{GroupScheduler, find_entry, session_rate}
use hwfq_scheduler.Group.Queue.{enqueue, new_session}
use hwfq_scheduler.Group.Ready.{IsReady, IsUnsaturated, enqueue_lem}
use hwfq_scheduler.Scheduler.Choice.{HasQueue}

-- The idle scheduler g can take work of the entry i: the entry has a rate and the session a bin, and
-- the session's times do not saturate.
pub record CanTake (g : GroupScheduler) (i w : ℕ) (u : UserData) (now a : ℕ) : Type 0 where
  pub entry : Entry
  pub ready : IsReady g
  pub idle : sessions g.calendar ≡ []
  pub below : i < g.max_entries
  pub found : find_entry g i ≡ some entry
  pub has_rate : session_rate g entry ≢ 0
  pub fits : bin_for g.calendar (new_session g entry i w u now a) < g.calendar.num_bins
  pub calm : IsUnsaturated (new_session g entry i w u now a)

All-of-Has : {A : Type 0} (P : A → Type 0) (xs : List A) → ((x : A) → Has x xs → P x) → All P xs
All-of-Has P [] h = tt
All-of-Has P (x ∷ xs) h = (h x (inl refl), All-of-Has P xs (λ y m. h y (inr m)))

idle-IsFresh : (g : GroupScheduler) (a : ℕ) → sessions g.calendar ≡ [] → IsFresh g.calendar a
idle-IsFresh g a e i =
    All-of-Has (λ y. y.address ≢ a) (bin_of g.calendar i)
      (λ x h. absurd (subst (Has x) e (Has-concat x g.calendar.bin_heads i h)))

Has-Permᴰ : {A : Type 0} (x : A) {xs ys : List A} → Permᴰ xs ys → Has x xs → Has x ys
Has-Permᴰ x Permᴰ.nil h = h
Has-Permᴰ x (Permᴰ.cons e p) (inl q) = inl (q ∙ e)
Has-Permᴰ x (Permᴰ.cons e p) (inr h) = inr (Has-Permᴰ x p h)
Has-Permᴰ x (Permᴰ.swap e f) (inl q) = inr (inl (q ∙ e))
Has-Permᴰ x (Permᴰ.swap e f) (inr (inl q)) = inl (q ∙ f)
Has-Permᴰ x (Permᴰ.swap e f) (inr (inr h)) = inr (inr h)
Has-Permᴰ x (Permᴰ.trans p q) h = Has-Permᴰ x q (Has-Permᴰ x p h)

UserData_set : IsSet UserData
UserData_set = hlevel ℕ_set

-- What the sessions of a list with one element carry.
carried :
    (xs ys : List Session) (y x : Session)
    → Perm xs (y ∷ ys)
    → ys ≡ []
    → Has x xs
    → x.user_data ≡ y.user_data
carried xs ys y x p e h =
    ∥∥₁_elim p (UserData_set _ _) (λ q. only (subst (λ zs. Has x (y ∷ zs)) e (Has-Permᴰ x q h)))
  where
    only : Has x (y ∷ []) → x.user_data ≡ y.user_data
    only (inl q) = ap (λ (z : Session). z.user_data) q
    only (inr m) = absurd m

-- The scheduler took the work: it has a queue, and all that is queued is the work.
pub record Took (g : GroupScheduler) (i w : ℕ) (u : UserData) (now a : ℕ) : Type 0 where
  pub accepted : enqueue g i w u now (some a) ≡ (success, (enqueue g i w u now (some a)).1)
  pub queue : HasQueue (enqueue g i w u now (some a)).1
  pub carries :
      (x : Session) → Has x (sessions (enqueue g i w u now (some a)).1.calendar) → x.user_data ≡ u

pub takes :
    (g : GroupScheduler) (i w : ℕ) (u : UserData) (now a : ℕ)
    → w ≢ 0
    → CanTake g i w u now a
    → Took g i w u now a
unfolding new_session
takes g i w u now a work k =
    let none_yet : length (sessions g.calendar) ≡ 0 = ap length k.idle in
    let r =
      enqueue_lem g k.entry i w u now a k.ready work k.below k.found k.has_rate
        (idle-IsFresh g a k.idle) (omega (arith, none_yet)) k.fits k.calm in
    let one : length (sessions (enqueue g i w u now (some a)).1.calendar) ≡ 1 =
      Perm-length r.1 ∙ ap suc none_yet in
    record {
      accepted = ap (λ (c : Status). (c, (enqueue g i w u now (some a)).1)) r.0;
      queue = record { ready = r.4; work = omega (arith, one); small = omega (arith, one) };
      carries = λ x h.
          carried _ (sessions g.calendar) (stored g.calendar (new_session g k.entry i w u now a)) x
            r.1 k.idle h;
    }
