-- ===== src/Prelude/Lists.antt =====
-- Lists measured by native numbers, and the predicates on lists that the components share.
use Prim.Native.Nat.{ℕ, zero, suc}
use mathlib.Core.Path.{◌≡◌, refl, sym, ap, subst}
use mathlib.Core.Logic.{◌⊎◌, inl, inr}
use mathlib.Core.List.{List, [], ◌∷◌, ◌++◌, map, reverse, reverse-append}
use mathlib.Core.Option.{Option, none, some}

module _ {ℓ} {A : Type ℓ} where
  abbrev pub length : List A → ℕ
  length [] = 0
  length (x ∷ xs) = suc (length xs)

  abbrev pub get_elem? : List A → ℕ → Option A
  get_elem? [] i = none
  get_elem? (x ∷ xs) zero = some x
  get_elem? (x ∷ xs) (suc i) = get_elem? xs i

module _ {ℓ κ} {A : Type ℓ} where
  -- Every element satisfies `P`.
  abbrev pub All : (A → Type κ) → List A → Type κ
  All P [] = Unit
  All P (x ∷ xs) = P x × All P xs

  pub All-append : (P : A → Type κ) (xs ys : List A) → All P xs → All P ys → All P (xs ++ ys)
  All-append P [] ys h k = k
  All-append P (x ∷ xs) ys h k = (h.0, All-append P xs ys h.1 k)

  pub All-reverse : (P : A → Type κ) (xs : List A) → All P xs → All P (reverse xs)
  All-reverse P [] h = tt
  All-reverse P (x ∷ xs) h =
      subst (All P) (sym (reverse-append (x ∷ []) xs))
        (All-append P (reverse xs) (x ∷ []) (All-reverse P xs h.1) (h.0, tt))

pub All-map {ℓ κ κ'} :
    {A : Type ℓ} {P : A → Type κ} {Q : A → Type κ'} (xs : List A)
    → ((a : A) → P a → Q a)
    → All P xs
    → All Q xs
All-map [] f h = tt
All-map (x ∷ xs) f h = (f x h.0, All-map xs f h.1)

infix 50 ◌∈◌
-- Membership by position: the proof says which element it is.
abbrev pub ◌∈◌ : {A : Type 0} → A → List A → Type 0
a ∈ [] = ⊥
a ∈ (x ∷ xs) = (x ≡ a) ⊎ (a ∈ xs)

module _ {A : Type 0} where
  pub mem-append_left : (a : A) (xs ys : List A) → a ∈ xs → a ∈ (xs ++ ys)
  mem-append_left a [] ys h = absurd h
  mem-append_left a (x ∷ xs) ys (inl e) = inl e
  mem-append_left a (x ∷ xs) ys (inr h) = inr (mem-append_left a xs ys h)

  pub mem-append_right : (a : A) (xs ys : List A) → a ∈ ys → a ∈ (xs ++ ys)
  mem-append_right a [] ys h = h
  mem-append_right a (x ∷ xs) ys h = inr (mem-append_right a xs ys h)

  pub mem-append_split : (a : A) (xs ys : List A) → a ∈ (xs ++ ys) → (a ∈ xs) ⊎ (a ∈ ys)
  mem-append_split a [] ys h = inr h
  mem-append_split a (x ∷ xs) ys (inl e) = inl (inl e)
  mem-append_split a (x ∷ xs) ys (inr h) = elim (mem-append_split a xs ys h) [
    | inl l ↦ inl (inr l)
    | inr r ↦ inr r
  ]

module _ {A B : Type 0} where
  pub mem-map : (f : A → B) (a : A) (xs : List A) → a ∈ xs → f a ∈ map f xs
  mem-map f a [] h = absurd h
  mem-map f a (x ∷ xs) (inl e) = inl (ap f e)
  mem-map f a (x ∷ xs) (inr h) = inr (mem-map f a xs h)

  pub mem-map_inv :
      (f : A → B) (b : B) (xs : List A) → b ∈ map f xs → (a : A) × (a ∈ xs) × (f a ≡ b)
  mem-map_inv f b [] h = absurd h
  mem-map_inv f b (x ∷ xs) (inl e) = (x, inl refl, e)
  mem-map_inv f b (x ∷ xs) (inr h) = let (a, m, e) = mem-map_inv f b xs h in (a, inr m, e)

module _ {κ} {A : Type 0} where
  pub All-mem : (P : A → Type κ) (a : A) (xs : List A) → All P xs → a ∈ xs → P a
  All-mem P a [] h m = absurd m
  All-mem P a (x ∷ xs) h (inl e) = subst P e h.0
  All-mem P a (x ∷ xs) h (inr m) = All-mem P a xs h.1 m

  pub All_of_mem : (P : A → Type κ) (xs : List A) → ((a : A) → a ∈ xs → P a) → All P xs
  All_of_mem P [] f = tt
  All_of_mem P (x ∷ xs) f = (f x (inl refl), All_of_mem P xs (λ a m. f a (inr m)))

module _ {A : Type 0} where
  pub append-eq-nil : (xs ys : List A) → xs ++ ys ≡ [] → (xs ≡ []) × (ys ≡ [])
  append-eq-nil [] ys h = (refl, h)
  append-eq-nil (x ∷ xs) ys h = cc

pub none≢some {ℓ} : {A : Type ℓ} {a : A} → none ≡ some a → ⊥
none≢some h = cc
