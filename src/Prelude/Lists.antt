-- ===== src/Prelude/Lists.antt =====
-- Lists measured and indexed by native numbers, and selected by Boolean tests, under the
-- library's names.
use Prim.Native.Nat.{ℕ, zero, suc, ◌+◌, ◌≤◌, ◌<◌, min}
use mathlib.Core.Path.{◌≡◌, refl, ap}
use mathlib.Core.Bool.{Bool, true, false, ◌&&◌, ◌||◌}
use mathlib.Core.List.{List, [], ◌∷◌, ◌++◌, map}
use mathlib.Core.Option.{Option, none, some}
use native.Mathlib.Omega.{arith}
use mathlib.Core.Logic.{◌↔◌, inl, inr}
use enterprise_rag.Prelude.Tests.{if◌then◌else◌, Bool-cases}

module _ {ℓ} {A : Type ℓ} where
  abbrev pub length : List A → ℕ
  length [] = 0
  length (x ∷ xs) = suc (length xs)

  abbrev pub get_elem? : List A → ℕ → Option A
  get_elem? [] i = none
  get_elem? (x ∷ xs) zero = some x
  get_elem? (x ∷ xs) (suc i) = get_elem? xs i

  abbrev pub take : ℕ → List A → List A
  take zero xs = []
  take (suc n) [] = []
  take (suc n) (x ∷ xs) = x ∷ take n xs

  abbrev pub any : (A → Bool) → List A → Bool
  any p [] = false
  any p (x ∷ xs) = p x || any p xs

  abbrev pub all : (A → Bool) → List A → Bool
  all p [] = true
  all p (x ∷ xs) = p x && all p xs

  abbrev pub filter : (A → Bool) → List A → List A
  filter p [] = []
  filter p (x ∷ xs) = let rest = filter p xs in if p x then x ∷ rest else rest

  abbrev pub is_empty : List A → Bool
  is_empty [] = true
  is_empty (x ∷ xs) = false

  abbrev pub All {κ} : (A → Type κ) → List A → Type κ
  All P [] = Unit
  All P (x ∷ xs) = P x × All P xs

module _ {ℓ} {A : Type ℓ} where
  pub length-append : (xs ys : List A) → length (xs ++ ys) ≡ length xs + length ys
  length-append [] ys = omega arith
  length-append (x ∷ xs) ys = omega (arith, length-append xs ys)

  pub length-take : (n : ℕ) (xs : List A) → length (take n xs) ≡ min n (length xs)
  length-take zero xs = omega arith
  length-take (suc n) [] = omega arith
  length-take (suc n) (x ∷ xs) = omega (arith, length-take n xs)

  pub take-nil : (n : ℕ) → ◌≡◌ {A = List A} (take n []) []
  take-nil zero = refl
  take-nil (suc n) = refl

  pub take-length-le : (n : ℕ) (xs : List A) → length (take n xs) ≤ length xs
  take-length-le n xs = omega (arith, length-take n xs)

  pub length-map {κ} : {B : Type κ} (xs : List A) (f : A → B) → length (map f xs) ≡ length xs
  length-map [] f = refl
  length-map (x ∷ xs) f = ap suc (length-map xs f)

  pub length-filter : (p : A → Bool) (xs : List A) → length (filter p xs) ≤ length xs
  length-filter p [] = omega arith
  length-filter p (x ∷ xs) = ground (arith, length-filter p xs)

  pub get_elem?_total : (xs : List A) (i : ℕ) → i < length xs → (a : A) × (get_elem? xs i ≡ some a)
  get_elem?_total [] i h = elim h [ ]
  get_elem?_total (x ∷ xs) zero h = (x, refl)
  get_elem?_total (x ∷ xs) (suc i) h = get_elem?_total xs i (omega arith)

  pub any-filter : (p : A → Bool) (xs : List A) → any p xs ≡ false → filter p xs ≡ []
  any-filter p [] h = refl
  any-filter p (x ∷ xs) h = ground (arith, any-filter p xs)

  pub All-filter {κ} :
      (P : A → Type κ) (p : A → Bool) (xs : List A) → All P xs → All P (filter p xs)
  All-filter P p [] h = tt
  All-filter P p (x ∷ xs) h = cons (p x) (All-filter P p xs h.1)
    where
      cons : (b : Bool) → All P (filter p xs) → All P (if b then x ∷ filter p xs else filter p xs)
      cons true rest = (h.0, rest)
      cons false rest = rest

  pub filter-All : (p : A → Bool) (xs : List A) → All (λ x. p x ≡ true) (filter p xs)
  filter-All p [] = tt
  filter-All p (x ∷ xs) = cons (p x) refl (filter-All p xs)
    where
      cons :
          (b : Bool)
          → p x ≡ b
          → All (λ y. p y ≡ true) (filter p xs)
          → All (λ y. p y ≡ true) (if b then x ∷ filter p xs else filter p xs)
      cons true e rest = (e, rest)
      cons false e rest = rest

  pub All-take {κ} : (P : A → Type κ) (n : ℕ) (xs : List A) → All P xs → All P (take n xs)
  All-take P zero xs h = tt
  All-take P (suc n) [] h = tt
  All-take P (suc n) (x ∷ xs) h = (h.0, All-take P n xs h.1)

  pub All-append {κ} : (P : A → Type κ) (xs ys : List A) → All P xs → All P ys → All P (xs ++ ys)
  All-append P [] ys hx hy = hy
  All-append P (x ∷ xs) ys hx hy = (hx.0, All-append P xs ys hx.1 hy)

module _ {ℓ} {A : Type ℓ} where
  -- `P` holds of an element.
  abbrev pub Some {κ} : (A → Type κ) → List A → Type (ℓ ⊔ κ)
  Some P xs = (i : ℕ) × (a : A) × (get_elem? xs i ≡ some a) × P a

  later :
      (p : A → Bool) (P : A → Type 0)
      → ((a : A) → (p a ≡ true) ↔ P a)
      → (x : A) (xs : List A) → p x ≡ false
      → Some P (x ∷ xs)
      → Some P xs
  later p P h x xs e (zero, a, here, holds) =
      absurd (let same : x ≡ a = cc in let q = (h a).1 holds in cc)
  later p P h x xs e (suc i, a, there, holds) = (i, a, there, holds)

  pub any_iff :
      (p : A → Bool) (P : A → Type 0)
      → ((a : A) → (p a ≡ true) ↔ P a)
      → (xs : List A) → (any p xs ≡ true) ↔ Some P xs
  any_iff p P h [] = (λ e. (let q : false ≡ true = e in cc), λ k. (let q = k.2 in cc))
  any_iff p P h (x ∷ xs) = elim (Bool-cases (p x)) [
    | inl here ↦ (λ e. (0, x, refl, (h x).0 here), λ k. rw here refl)
    | inr missed ↦ rw missed (
      λ e. (let (i, a, there, holds) = (any_iff p P h xs).0 e in (suc i, a, there, holds)),
      λ k. (any_iff p P h xs).1 (later p P h x xs missed k),
    )
  ]

  pub Some-cons : (P : A → Type 0) (x : A) (xs : List A) → Some P xs → Some P (x ∷ xs)
  Some-cons P x xs (i, a, there, holds) = (suc i, a, there, holds)

  pub All-Some-cons :
      {B : Type 0} (P : B → A → Type 0) (x : A) (xs : List A) (ys : List B)
      → All (λ y. Some (P y) xs) ys
      → All (λ y. Some (P y) (x ∷ xs)) ys
  All-Some-cons P x xs [] h = tt
  All-Some-cons P x xs (y ∷ ys) h = (Some-cons (P y) x xs h.0, All-Some-cons P x xs ys h.1)
