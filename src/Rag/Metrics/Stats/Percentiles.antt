-- ===== src/Rag/Metrics/Stats/Percentiles.antt =====
-- What `_percentile` of app/services/rag_metrics_service.py draws from a window.
use enterprise_rag.Prelude.{
  ℕ, zero, suc, ◌+◌, ◌-◌, ◌*◌, ◌/◌, ◌%◌, ◌^◌, ◌≤◌, min, ◌≡◌, refl, ap, ◌∙◌, sym, subst, ◌⊎◌, inl,
  inr, none, some, List, [], ◌∷◌, length, get_elem?, All, get_elem?_total, ltb, arith, Bool-cases,
}
use mathlib.Core.Option.{some-injective}
use native.Mathlib.Nat.{mul-le-mul, div-zero, div-mul-le_self, le-div_iff_mul-le}
use enterprise_rag.Prelude.Int.{◌≤ℤ◌}
use enterprise_rag.Prelude.Float.{Float, le}
use enterprise_rag.Rag.Metrics.Stats.{
  round_half_even, spacing, nearest_double, truncated_product, one_half, ninety_five_percent,
  insert_duration, sorted_durations, percentile,
}

spacing_le :
    (fuel p d : ℕ)
    → (d ≡ 1) ⊎ (2 ^ 52 * d ≤ p)
    → (spacing fuel p 1 d ≡ 1) ⊎ (2 ^ 52 * spacing fuel p 1 d ≤ p)
spacing_le zero p d h = h
spacing_le (suc fuel) p d h = elim (Bool-cases (ltb p (2 ^ 53 * (d * 1)))) [
  | inl e ↦ rw (spacing, e) h
  | inr e ↦ rw (spacing, e) (spacing_le fuel p (2 * d) (inr (ground arith)))
]

round_half_even_cases :
    (p d : ℕ) → (round_half_even p d ≡ p / d) ⊎ (round_half_even p d ≡ p / d + 1)
round_half_even_cases p d = elim (Bool-cases (ltb (2 * (p % d)) d)) [
  | inl e ↦ rw (round_half_even, e) (inl refl)
  | inr e ↦ elim (Bool-cases (ltb d (2 * (p % d)))) [
    | inl k ↦ rw (round_half_even, e, k) (inr refl)
    | inr k ↦ rw (round_half_even, e, k) (ground arith)
  ]
]

round_half_even-near :
    (p d : ℕ) → 1 ≤ d → (round_half_even p d * d ≤ p + d) × (p ≤ round_half_even p d * d + d)
round_half_even-near p d h = elim (round_half_even_cases p d) [
  | inl e ↦ rw e (omega arith, omega arith)
  | inr e ↦ rw e (omega arith, omega arith)
]

spacing_pos : (fuel p d : ℕ) → 1 ≤ d → 1 ≤ spacing fuel p 1 d
spacing_pos zero p d h = h
spacing_pos (suc fuel) p d h = elim (Bool-cases (ltb p (2 ^ 53 * (d * 1)))) [
  | inl e ↦ rw (spacing, e) h
  | inr e ↦ rw (spacing, e) (spacing_pos fuel p (2 * d) (omega arith))
]

-- A rounding by at most the spacing moves a number by at most one part in 2^52, or by one unit.
relative :
    (r p d : ℕ)
    → (d ≡ 1) ⊎ (2 ^ 52 * d ≤ p)
    → (r * (d * 1) ≤ p + d * 1) × (p ≤ r * (d * 1) + d * 1)
    → (2 ^ 52 * (r * d) ≤ 2 ^ 52 * p + p + 2 ^ 52) × (2 ^ 52 * p ≤ 2 ^ 52 * (r * d) + p + 2 ^ 52)
relative r p d (inl e) h = (omega (arith, h.0, e), omega (arith, h.1, e))
relative r p d (inr m) h = (omega (arith, h.0, m), omega (arith, h.1, m))

one_le_one : 1 ≤ 1
one_le_one = omega arith

one_le-mul_one : (d : ℕ) → 1 ≤ d → 1 ≤ d * 1
one_le-mul_one d h = omega arith

nearest_double-near :
    (p : ℕ)
    → (2 ^ 52 * nearest_double p 1 ≤ 2 ^ 52 * p + p + 2 ^ 52)
      × (2 ^ 52 * p ≤ 2 ^ 52 * nearest_double p 1 + p + 2 ^ 52)
nearest_double-near p =
    relative (round_half_even p (spacing 2045 p 1 1 * 1)) p (spacing 2045 p 1 1)
      (spacing_le 2045 p 1 (inl refl))
      (round_half_even-near p (spacing 2045 p 1 1 * 1)
        (one_le-mul_one (spacing 2045 p 1 1) (spacing_pos 2045 p 1 one_le_one)))

div_le : (a b c : ℕ) → a ≤ b → a / c ≤ b / c
div_le a b zero h = rw (div-zero a) (omega arith)
div_le a b (suc c) h =
    (le-div_iff_mul-le {k = suc c} {x = a / suc c} {y = b} (omega arith)).1
      (omega (arith, h, div-mul-le_self a (suc c)))

halves_lt :
    (n u v a b : ℕ)
    → 1 ≤ v
    → v ≡ n * u
    → 2 ^ 52 * a ≤ 2 ^ 52 * (n * one_half * u) + n * one_half * u + 2 ^ 52
    → 2 ^ 52 * (n * ninety_five_percent * u) ≤ 2 ^ 52 * b + n * ninety_five_percent * u + 2 ^ 52
    → a ≤ b
halves_lt n u v a b h e k m = omega arith

one_le-power : 1 ≤ 2 ^ 1022
one_le-power = omega arith

-- A half of a length comes before 95 percent of it.
truncated_product_le :
    (n : ℕ) → 1 ≤ n → truncated_product n one_half ≤ truncated_product n ninety_five_percent
unfolding truncated_product
truncated_product_le n h =
    div_le (nearest_double (n * one_half * 2 ^ 1022) 1)
      (nearest_double (n * ninety_five_percent * 2 ^ 1022) 1) (2 ^ 1074)
      (halves_lt n (2 ^ 1022) (n * 2 ^ 1022) (nearest_double (n * one_half * 2 ^ 1022) 1)
        (nearest_double (n * ninety_five_percent * 2 ^ 1022) 1)
        (mul-le-mul {n₁ = 1} {m₁ = 1} {n₂ = n} {m₂ = 2 ^ 1022} h one_le-power) refl
        (nearest_double-near (n * one_half * 2 ^ 1022)).0
        (nearest_double-near (n * ninety_five_percent * 2 ^ 1022)).1)

-- The durations stand in ascending order.
abbrev IsAscending : List Float → Type 0
IsAscending [] = Unit
IsAscending (x ∷ xs) = All (λ y. x ≤ℤ y) xs × IsAscending xs

All-le_trans :
    (a b : Float) (xs : List Float) → a ≤ℤ b → All (λ y. b ≤ℤ y) xs → All (λ y. a ≤ℤ y) xs
All-le_trans a b [] h k = tt
All-le_trans a b (x ∷ xs) h k = (omega (arith, h, k.0), All-le_trans a b xs h k.1)

All-insert_duration :
    (P : Float → Type 0) (a : Float) (xs : List Float)
    → P a
    → All P xs
    → All P (insert_duration a xs)
unfolding insert_duration
All-insert_duration P a [] h k = (h, tt)
All-insert_duration P a (x ∷ xs) h k = elim (Bool-cases (le a x)) [
  | inl e ↦ rw e (h, k)
  | inr e ↦ rw e (k.0, All-insert_duration P a xs h k.1)
]

All-sorted_durations :
    (P : Float → Type 0) (xs : List Float) → All P xs → All P (sorted_durations xs)
unfolding sorted_durations
All-sorted_durations P [] h = tt
All-sorted_durations P (x ∷ xs) h =
    All-insert_duration P x (sorted_durations xs) h.0 (All-sorted_durations P xs h.1)

insert_duration-IsAscending :
    (a : Float) (xs : List Float) → IsAscending xs → IsAscending (insert_duration a xs)
unfolding insert_duration
insert_duration-IsAscending a [] h = (tt, tt)
insert_duration-IsAscending a (x ∷ xs) h = elim (Bool-cases (le a x)) [
  | inl e ↦ rw e ((ground arith, All-le_trans a x xs (ground arith) h.0), h)
  | inr e ↦ rw e (
    All-insert_duration (λ y. x ≤ℤ y) a xs (ground arith) h.0,
    insert_duration-IsAscending a xs h.1,
  )
]

sorted_durations-IsAscending : (xs : List Float) → IsAscending (sorted_durations xs)
unfolding sorted_durations
sorted_durations-IsAscending [] = tt
sorted_durations-IsAscending (x ∷ xs) =
    insert_duration-IsAscending x (sorted_durations xs) (sorted_durations-IsAscending xs)

length-insert_duration :
    (a : Float) (xs : List Float) → length (insert_duration a xs) ≡ suc (length xs)
unfolding insert_duration
length-insert_duration a [] = refl
length-insert_duration a (x ∷ xs) = elim (Bool-cases (le a x)) [
  | inl e ↦ rw e refl
  | inr e ↦ rw e (ap suc (length-insert_duration a xs))
]

length-sorted_durations : (xs : List Float) → length (sorted_durations xs) ≡ length xs
unfolding sorted_durations
length-sorted_durations [] = refl
length-sorted_durations (x ∷ xs) =
    length-insert_duration x (sorted_durations xs) ∙ ap suc (length-sorted_durations xs)

get_elem?-All :
    (P : Float → Type 0) (xs : List Float) (i : ℕ) (a : Float)
    → All P xs
    → get_elem? xs i ≡ some a
    → P a
get_elem?-All P [] i a h e = cc
get_elem?-All P (x ∷ xs) zero a h e = subst P (some-injective x a e) h.0
get_elem?-All P (x ∷ xs) (suc i) a h e = get_elem?-All P xs i a h.1 e

get_elem?-le :
    (xs : List Float) (i j : ℕ) (a b : Float)
    → IsAscending xs
    → i ≤ j
    → get_elem? xs i ≡ some a
    → get_elem? xs j ≡ some b
    → a ≤ℤ b
get_elem?-le [] i j a b h k e m = cc
get_elem?-le (x ∷ xs) zero zero a b h k e m =
    subst (λ y. a ≤ℤ y) (some-injective a b (sym e ∙ m)) (omega arith)
get_elem?-le (x ∷ xs) zero (suc j) a b h k e m =
    subst (λ y. y ≤ℤ b) (some-injective x a e) (get_elem?-All (λ y. x ≤ℤ y) xs j b h.0 m)
get_elem?-le (x ∷ xs) (suc i) zero a b h k e m = elim k [ ]
get_elem?-le (x ∷ xs) (suc i) (suc j) a b h k e m = get_elem?-le xs i j a b h.1 (omega arith) e m

-- The duration was sampled: it stands somewhere in the list.
abbrev pub IsSampled : List Float → Float → Type 0
IsSampled xs a = (i : ℕ) × (get_elem? xs i ≡ some a)

IsSampled-cons :
    (x : Float) (xs ys : List Float) → All (IsSampled xs) ys → All (IsSampled (x ∷ xs)) ys
IsSampled-cons x xs [] h = tt
IsSampled-cons x xs (y ∷ ys) h = ((suc h.0.0, h.0.1), IsSampled-cons x xs ys h.1)

All-IsSampled : (xs : List Float) → All (IsSampled xs) xs
All-IsSampled [] = tt
All-IsSampled (x ∷ xs) = ((zero, refl), IsSampled-cons x xs xs (All-IsSampled xs))

percentile_eq :
    (xs : List Float) (fraction : ℕ)
    → 1 ≤ length xs
    → percentile xs fraction
      ≡ get_elem? xs (min (length xs - 1) (truncated_product (length xs) fraction))
unfolding percentile
percentile_eq [] fraction h = elim h [ ]
percentile_eq (x ∷ xs) fraction h = refl

-- The two latencies of a snapshot whose window has these durations, where it is not empty.
abbrev pub HasLatencies : List Float → List Float → Type 0
HasLatencies durations ys =
    (p50 p95 : Float) × (percentile ys one_half ≡ some p50)
    × (percentile ys ninety_five_percent ≡ some p95)
    × IsSampled durations p50
    × IsSampled durations p95
    × (p50 ≤ℤ p95)

ascending-HasLatencies :
    (durations ys : List Float)
    → 1 ≤ length ys
    → IsAscending ys
    → All (IsSampled durations) ys
    → HasLatencies durations ys
ascending-HasLatencies durations ys h ascending sampled = (
  low.0,
  high.0,
  percentile_eq ys one_half h ∙ low.1,
  percentile_eq ys ninety_five_percent h ∙ high.1,
  get_elem?-All (IsSampled durations) ys i low.0 sampled low.1,
  get_elem?-All (IsSampled durations) ys j high.0 sampled high.1,
  get_elem?-le ys i j low.0 high.0 ascending ordered low.1 high.1,
)
  where
    i : ℕ
    i = min (length ys - 1) (truncated_product (length ys) one_half)

    j : ℕ
    j = min (length ys - 1) (truncated_product (length ys) ninety_five_percent)

    low : (a : Float) × (get_elem? ys i ≡ some a)
    low = get_elem?_total ys i (omega (arith, h))

    high : (a : Float) × (get_elem? ys j ≡ some a)
    high = get_elem?_total ys j (omega (arith, h))

    ordered : i ≤ j
    ordered = omega (arith, truncated_product_le (length ys) h)

-- Of an empty window there are no latencies. Of any other both are there and are durations of the
-- window, and the 50th percentile is at most the 95th.
pub percentile_lem :
    (durations : List Float)
    → ((durations ≡ [])
        × (percentile (sorted_durations durations) one_half ≡ none)
        × (percentile (sorted_durations durations) ninety_five_percent ≡ none))
      ⊎ HasLatencies durations (sorted_durations durations)
unfolding sorted_durations percentile
percentile_lem [] = inl (refl, refl, refl)
percentile_lem (x ∷ xs) = inr (
    ascending-HasLatencies (x ∷ xs) (sorted_durations (x ∷ xs))
      (omega (arith, length-sorted_durations (x ∷ xs))) (sorted_durations-IsAscending (x ∷ xs))
      (All-sorted_durations (IsSampled (x ∷ xs)) (x ∷ xs) (All-IsSampled (x ∷ xs))))
