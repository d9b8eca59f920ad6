-- ===== src/Calendar/Contents.antt =====
-- The sessions of all bins in one list, and how it changes with one bin.
use mathlib.Core.List.{Perm, perm_middle}
use mathlib.Core.List.Perm
use mathlib.Core.List.{Permᴰ}
use mathlib.Core.Logic.{∥∥₁_elim}
use native.Mathlib.Nat.{ℕ_set}
use hwfq_scheduler.Base.{
  ℕ, zero, suc, ◌<◌, ◌⊎◌, inl, inr, List, [], ◌∷◌, ◌++◌, arith, length, ◌∙◌, refl, ◌≡◌, get_or, set,
  Has,
}
use hwfq_scheduler.Types.{Session}
use hwfq_scheduler.Calendar.{Calendar}

abbrev pub concat {ℓ} : {A : Type ℓ} → List (List A) → List A
concat [] = []
concat (xs ∷ xss) = xs ++ concat xss

-- The sessions that the calendar holds, bin by bin.
abbrev pub sessions : Calendar → List Session
sessions c = concat c.bin_heads

module _ {ℓ} {A : Type ℓ} where
  -- One bin is replaced by a list that has one element more.
  pub concat-set_more :
      (a : A) (xss : List (List A)) (i : ℕ) (ys : List A)
      → i < length xss
      → Perm ys (a ∷ get_or xss i [])
      → Perm (concat (set xss i ys)) (a ∷ concat xss)
  concat-set_more a [] i ys l p = absurd (omega arith)
  concat-set_more a (xs ∷ xss) zero ys l p = Perm.append p (Perm.refl (concat xss))
  concat-set_more a (xs ∷ xss) (suc i) ys l p =
      Perm.trans (Perm.append (Perm.refl xs) (concat-set_more a xss i ys (omega arith) p))
        (perm_middle xs (concat xss))

  -- One bin is replaced by a list that has one element less.
  pub concat-set_less :
      (a : A) (xss : List (List A)) (i : ℕ) (ys : List A)
      → i < length xss
      → Perm (get_or xss i []) (a ∷ ys)
      → Perm (concat xss) (a ∷ concat (set xss i ys))
  concat-set_less a [] i ys l p = absurd (omega arith)
  concat-set_less a (xs ∷ xss) zero ys l p = Perm.append p (Perm.refl (concat xss))
  concat-set_less a (xs ∷ xss) (suc i) ys l p =
      Perm.trans (Perm.append (Perm.refl xs) (concat-set_less a xss i ys (omega arith) p))
        (perm_middle xs _)

pub Has-append_left : {A : Type 0} (a : A) (xs ys : List A) → Has a xs → Has a (xs ++ ys)
Has-append_left a [] ys h = absurd h
Has-append_left a (x ∷ xs) ys (inl e) = inl e
Has-append_left a (x ∷ xs) ys (inr h) = inr (Has-append_left a xs ys h)

pub Has-append_right : {A : Type 0} (a : A) (xs ys : List A) → Has a ys → Has a (xs ++ ys)
Has-append_right a [] ys h = h
Has-append_right a (x ∷ xs) ys h = inr (Has-append_right a xs ys h)

pub Has-append : {A : Type 0} (a : A) (xs ys : List A) → Has a (xs ++ ys) → Has a xs ⊎ Has a ys
Has-append a [] ys h = inr h
Has-append a (x ∷ xs) ys (inl e) = inl (inl e)
Has-append a (x ∷ xs) ys (inr h) = elim (Has-append a xs ys h) [
  | inl p ↦ inl (inr p)
  | inr p ↦ inr p
]

-- What some bin holds, the calendar holds, and the other way round.
pub Has-concat :
    {A : Type 0} (a : A) (xss : List (List A)) (i : ℕ)
    → Has a (get_or xss i [])
    → Has a (concat xss)
Has-concat a [] i h = h
Has-concat a (xs ∷ xss) zero h = Has-append_left a xs (concat xss) h
Has-concat a (xs ∷ xss) (suc i) h = Has-append_right a xs (concat xss) (Has-concat a xss i h)

pub Has-bin :
    {A : Type 0} (a : A) (xss : List (List A))
    → Has a (concat xss)
    → (i : ℕ) × Has a (get_or xss i [])
Has-bin a [] h = absurd h
Has-bin a (xs ∷ xss) h = elim (Has-append a xs (concat xss) h) [
  | inl p ↦ (0, p)
  | inr p ↦ let r = Has-bin a xss p in (suc r.0, r.1)
]

Permᴰ-length : {A : Type 0} {xs ys : List A} → Permᴰ xs ys → length xs ≡ length ys
Permᴰ-length Permᴰ.nil = refl
Permᴰ-length (Permᴰ.cons e p) = omega (arith, Permᴰ-length p)
Permᴰ-length (Permᴰ.swap e f) = refl
Permᴰ-length (Permᴰ.trans p q) = Permᴰ-length p ∙ Permᴰ-length q

-- Lists that are permutations of each other are equally long.
pub Perm-length : {A : Type 0} {xs ys : List A} → Perm xs ys → length xs ≡ length ys
Perm-length p = ∥∥₁_elim p (ℕ_set _ _) Permᴰ-length
