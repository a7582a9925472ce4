-- ===== src/Rag/Hyde/Fusion.antt =====
-- `mean_pool_and_normalize` of app/rag_services/fusion/embedding_fusion.py. The floating-point
-- operations that round are parameters.
use enterprise_rag.Prelude.{
  ℕ, zero, suc, ◌≡◌, ◌≢◌, refl, ap, ◌∙◌, sym, subst, Bool, true, false, not, ◌||◌, List, [], ◌∷◌,
  length, length-map, All, map, ◌==◌, arith, Bool-cases, inl, inr, if◌then◌else◌,
}
use enterprise_rag.Prelude.Float.{Float, le, zero_float}
use enterprise_rag.Errors.{Result, ok, raised, value_error, index_error, Result-cases}
use enterprise_rag.Rag.World.{Embedding}

pub record FloatOps : Type 0 where
  pub add : Float → Float → Float
  pub multiply : Float → Float → Float
  pub divide : Float → Float → Float
  pub sqrt : Float → Float
  pub of_ℕ : ℕ → Float
  pub is_finite : Float → Bool
  -- `1e-12`
  pub min_norm : Float

module _ (f : FloatOps) where
  -- `[0.0] * dimension`
  abbrev pub zeros : ℕ → Embedding
  zeros zero = []
  zeros (suc n) = zero_float ∷ zeros n

  -- The loop over one vector: its values checked and added to the totals.
  abbrev pub add_values : Embedding → Embedding → Result Embedding
  add_values [] totals = ok totals
  add_values (value ∷ values) [] = raised index_error
  add_values (value ∷ values) (total ∷ totals) =
      let rest = add_values values totals in
      if not (f.is_finite value)
      then raised value_error
      else elim rest [ ok sums ↦ ok (f.add total value ∷ sums) | raised e ↦ raised e ]

  -- The loop over the vectors.
  pub add_vectors : ℕ → List Embedding → Embedding → Result Embedding
  add_vectors dimension [] totals = ok totals
  add_vectors dimension (vector ∷ vectors) totals =
      if not (length vector == dimension)
      then raised value_error
      else elim (add_values vector totals) [
        | ok sums ↦ add_vectors dimension vectors sums
        | raised e ↦ raised e
      ]

  -- `sum(value * value for value in mean)`
  abbrev pub sum_squares : Float → Embedding → Float
  sum_squares acc [] = acc
  sum_squares acc (value ∷ values) = sum_squares (f.add acc (f.multiply value value)) values

  abbrev pub normalize : Embedding → Result Embedding
  normalize mean =
      let norm = f.sqrt (sum_squares zero_float mean) in
      if not (f.is_finite norm) || le norm f.min_norm
      then raised value_error
      else ok (map (λ value. f.divide value norm) mean)

  abbrev pub pooled : ℕ → Result Embedding → Result Embedding
  pooled count (raised e) = raised e
  pooled count (ok totals) = normalize (map (λ value. f.divide value (f.of_ℕ count)) totals)

  pub mean_pool_and_normalize : List Embedding → Result Embedding
  mean_pool_and_normalize [] = raised value_error
  mean_pool_and_normalize (vector ∷ vectors) =
      let dimension = length vector in
      if dimension == 0
      then raised value_error
      else pooled (length (vector ∷ vectors))
          (add_vectors dimension (vector ∷ vectors) (zeros dimension))

  length-zeros : (n : ℕ) → length (zeros n) ≡ n
  length-zeros zero = refl
  length-zeros (suc n) = ap suc (length-zeros n)

  add_values-length :
      (values totals sums : Embedding)
      → add_values values totals ≡ ok sums
      → length sums ≡ length totals
  add_values-length [] totals sums e = ap length (let q : sums ≡ totals = cc in q)
  add_values-length (value ∷ values) [] sums e = cc
  add_values-length (value ∷ values) (total ∷ totals) sums e =
      elim (Bool-cases (f.is_finite value)) [
        | inr infinite ↦ absurd (let q = rw infinite at e in ground arith)
        | inl finite ↦ elim (Result-cases (add_values values totals)) [
          | inr (x, bad) ↦ absurd (let q = rw (finite, bad) at e in ground arith)
          | inl (rest, good) ↦
              let same : sums ≡ f.add total value ∷ rest = (let q = rw (finite, good) at e in cc) in
              rw same (ap suc (add_values-length values totals rest good))
        ]
      ]

  add_vectors-length :
      (dimension : ℕ) (vectors : List Embedding) (totals sums : Embedding)
      → add_vectors dimension vectors totals ≡ ok sums
      → (length sums ≡ length totals) × All (λ vector. length vector ≡ dimension) vectors
  unfolding add_vectors
  add_vectors-length dimension [] totals sums e = (ap length (let q : sums ≡ totals = cc in q), tt)
  add_vectors-length dimension (vector ∷ vectors) totals sums e =
      elim (Bool-cases (length vector == dimension)) [
        | inr differs ↦ absurd (let q = rw differs at e in ground arith)
        | inl agrees ↦ elim (Result-cases (add_values vector totals)) [
          | inr (x, bad) ↦ absurd (let q = rw (agrees, bad) at e in ground arith)
          | inl (added, good) ↦
              let (same, rest) =
                add_vectors-length dimension vectors added sums (rw (agrees, good) at e) in
              (same ∙ add_values-length vector totals added good, (agrees_lem vector agrees, rest))
        ]
      ]
    where
      agrees_lem :
          (vector : Embedding) → (length vector == dimension) ≡ true → length vector ≡ dimension
      agrees_lem vector h = ground arith

  pooled-eq-ok :
      (count : ℕ) (totals v : Embedding)
      → pooled count (ok totals) ≡ ok v
      → length v ≡ length totals
  pooled-eq-ok count totals v e =
      let mean = map (λ value. f.divide value (f.of_ℕ count)) totals in
      let norm = f.sqrt (sum_squares zero_float mean) in
      elim (Bool-cases (not (f.is_finite norm) || le norm f.min_norm)) [
        | inl bad ↦ absurd (let q = rw bad at e in ground arith)
        | inr good ↦
            let same : v ≡ map (λ value. f.divide value norm) mean = (let q = rw good at e in cc) in
            rw same (
              length-map mean (λ value. f.divide value norm)
              ∙ length-map totals (λ value. f.divide value (f.of_ℕ count)))
      ]

  nonzero : (n : ℕ) → (n == 0) ≡ false → n ≢ 0
  nonzero n h p = ground arith

  -- A pooled embedding was made from at least one vector, none of them empty, all of them of one
  -- dimension, and has that dimension itself.
  pub mean_pool_and_normalize-eq-ok :
      (vectors : List Embedding) (v : Embedding)
      → mean_pool_and_normalize vectors ≡ ok v
      → (vectors ≢ []) × (length v ≢ 0) × All (λ vector. length vector ≡ length v) vectors
  unfolding mean_pool_and_normalize
  mean_pool_and_normalize-eq-ok [] v e = cc
  mean_pool_and_normalize-eq-ok (vector ∷ vectors) v e = elim (Bool-cases (length vector == 0)) [
    | inl empty ↦ absurd (let q = rw empty at e in ground arith)
    | inr proper ↦
        elim (Result-cases
          (add_vectors (length vector) (vector ∷ vectors) (zeros (length vector)))) [
            | inr (x, bad) ↦ absurd (let q = rw (proper, bad) at e in ground arith)
            | inl (totals, good) ↦
                let (total, dims) =
                  add_vectors-length (length vector) (vector ∷ vectors) (zeros (length vector))
                    totals good in
                let size : length v ≡ length vector =
                  pooled-eq-ok (length (vector ∷ vectors)) totals v (rw (proper, good) at e)
                  ∙ total
                  ∙ length-zeros (length vector) in
                (
                  λ p. cc,
                  rw size (nonzero (length vector) proper),
                  subst (λ n. All (λ x. length x ≡ n) (vector ∷ vectors)) (sym size) dims,
                )
          ]
  ]
