-- ===== src/Crag/Grader/Contract.antt =====
-- What the grader promises to the refiner and to the failure boundary.
use Prim.Native.Nat.{◌≤◌}
use enterprise_rag.Prelude.{
  take-length-le, take-nil, ap, ◌∙◌, ℕ, zero, suc, ◌<◌, ◌≤◌, ◌+◌, String, ◌≡◌, ◌≢◌, refl, true,
  false, List, [], ◌∷◌, length, take, all, All, is_empty, ltb, arith, Bool-cases, inl, inr, ◌⊎◌,
}
use enterprise_rag.Prelude.Float.{le}
use enterprise_rag.Errors.{>>=-eq-ok, and_then, lift, value_error, Result, ok, raised, Action}
use enterprise_rag.Crag.Types.{
  grade_call, RetrievedChunk, incorrect, ChunkGrade, RetrievalGrade, Calls, searches, grade_calls,
}
use enterprise_rag.Crag.Grader.{
  check_indices, read_response, GradePayload, GradeModel, GraderSettings, exact_indices, validate,
  attempt, after_attempt, attempts, decide, supportive, graded, grade, empty_grade,
}

all→All :
    (n : ℕ) (xs : List ChunkGrade)
    → all (λ item. ltb item.index n) xs ≡ true
    → All (λ item. item.index < n) xs
all→All n [] h = tt
all→All n (x ∷ xs) h = (ground arith, all→All n xs (ground arith))

All-lt_mono :
    (n m : ℕ) (xs : List ChunkGrade)
    → n ≤ m
    → All (λ item. item.index < n) xs
    → All (λ item. item.index < m) xs
All-lt_mono n m [] le h = tt
All-lt_mono n m (x ∷ xs) le h = (omega arith, All-lt_mono n m xs le h.1)

-- What later stages rely on: the indices are in range, and an `incorrect` grade has no chunk that
-- supports the question at the ambiguous threshold.
pub record IsGradeOf (s : GraderSettings) (n : ℕ) (g : RetrievalGrade) : Type 0 where
  pub in_range : All (λ item. item.index < n) g.chunks
  pub incorrect_unsupported : g.decision ≡ incorrect → supportive s g.chunks ≡ false

module _ (model : GradeModel) where
  check_indices-eq-ok :
      (n : ℕ) (v w : GradePayload) (t u : ℕ)
      → check_indices n v t ≡ ok (w, u)
      → All (λ item. item.index < n) w.chunks
  unfolding check_indices exact_indices
  check_indices-eq-ok n v w t u e = all→All n w.chunks (ground arith)

  read_response-eq-ok :
      (n : ℕ) (p : GradePayload) (t : ℕ) (w : GradePayload) (u : ℕ)
      → read_response model n (p, t) ≡ ok (w, u)
      → All (λ item. item.index < n) w.chunks
  unfolding read_response
  read_response-eq-ok n p t w u = go (validate model p)
    where
      go :
          (r : Result GradePayload)
          → elim r as (λ _. Result (GradePayload × ℕ)) [
            | ok value ↦ check_indices n value t
            | raised x ↦ raised x
          ]
            ≡ ok (w, u)
          → All (λ item. item.index < n) w.chunks
      go (ok value) e = check_indices-eq-ok n value w t u e
      go (raised x) e = cc

  attempt_in_range :
      (question : String) (selected : List RetrievedChunk) (h : Calls) (v : GradePayload) (t : ℕ)
      → (attempt model question selected h).0 ≡ ok (v, t)
      → All (λ item. item.index < length selected) v.chunks
  unfolding attempt
  attempt_in_range question selected h v t e =
      let (r, _, read) =
        >>=-eq-ok (λ h. (model.generate_structured question selected h, grade_call ∷ h)) _ h e in
      read_response-eq-ok (length selected) r.0 r.1 v t read

module _ (model : GradeModel) (s : GraderSettings) where
  decide-incorrect :
      (v : GradePayload) → decide model s v ≡ incorrect → supportive s v.chunks ≡ false
  unfolding decide
  decide-incorrect v e = ground arith

  graded-IsGradeOf :
      (n : ℕ) (v : GradePayload) (t : ℕ)
      → All (λ item. item.index < n) v.chunks
      → IsGradeOf s n (graded model s (v, t))
  unfolding graded
  graded-IsGradeOf n v t h = record { in_range = h; incorrect_unsupported = decide-incorrect v }

  after_attempt-eq-ok :
      (r : Result (GradePayload × ℕ)) (next : Action Calls RetrievalGrade) (h : Calls)
      (g : RetrievalGrade)
      → (after_attempt model s r next h).0 ≡ ok g
      → ((v : GradePayload × ℕ) × (r ≡ ok v) × (g ≡ graded model s v)) ⊎ ((next h).0 ≡ ok g)
  unfolding after_attempt
  after_attempt-eq-ok (ok v) next h g e = inl (v, refl, cc)
  after_attempt-eq-ok (raised value_error) next h g e = inr e
  after_attempt-eq-ok (raised _) next h g e = cc

  attempts-IsGradeOf :
      (left : ℕ) (question : String) (selected : List RetrievedChunk) (h : Calls)
      (g : RetrievalGrade)
      → (attempts model s left question selected h).0 ≡ ok g
      → IsGradeOf s (length selected) g
  unfolding attempts
  attempts-IsGradeOf zero question selected h g e = cc
  attempts-IsGradeOf (suc left) question selected h g e =
      let (r, h') = attempt model question selected h in
      elim (after_attempt-eq-ok r (attempts model s left question selected) h' g e) [
        | inl (v, returned, same) ↦ rw same (
            graded-IsGradeOf (length selected) v.0 v.1
              (attempt_in_range model question selected h v.0 v.1 returned))
        | inr later ↦ attempts-IsGradeOf left question selected h' g later
      ]

  -- A grade that was returned is a grade of the chunks that were passed: its indices are those of
  -- chunks, so that no reader of the grade indexes past the end, and a grade `incorrect` has no
  -- chunk that supports the question at the ambiguous threshold.
  pub grade-IsGradeOf :
      (question : String) (chunks : List RetrievedChunk) (h : Calls) (g : RetrievalGrade)
      → (grade model s question chunks h).0 ≡ ok g
      → IsGradeOf s (length chunks) g
  unfolding grade
  grade-IsGradeOf question chunks h g e = elim (Bool-cases (is_empty (take s.max_chunks chunks))) [
    | inl none_left ↦
        let same : g ≡ empty_grade model s = ground arith in
        rw same (record { in_range = tt; incorrect_unsupported = λ _. refl })
    | inr some_left ↦
        let o = attempts-IsGradeOf 2 question (take s.max_chunks chunks) h g (rw some_left at e) in
        record {
          in_range = All-lt_mono _ _ g.chunks (take-length-le s.max_chunks chunks) o.in_range;
          incorrect_unsupported = o.incorrect_unsupported;
        }
  ]

  after_attempt-calls :
      (n : ℕ) (r : Result (GradePayload × ℕ)) (next : Action Calls RetrievalGrade) (h : Calls)
      → (searches (next h).1 ≡ searches h) × (grade_calls (next h).1 ≤ grade_calls h + n)
      → (searches (after_attempt model s r next h).1 ≡ searches h)
        × (grade_calls (after_attempt model s r next h).1 ≤ grade_calls h + n)
  unfolding after_attempt
  after_attempt-calls n (ok v) next h k = (refl, omega arith)
  after_attempt-calls n (raised value_error) next h k = k
  after_attempt-calls n (raised _) next h k = (refl, omega arith)

  attempt-calls :
      (question : String) (selected : List RetrievedChunk) (h : Calls)
      → (attempt model question selected h).1 ≡ grade_call ∷ h
  unfolding attempt
  attempt-calls question selected h =
      elim (model.generate_structured question selected h)
        as (λ r.
          (and_then r (λ response. lift (read_response model (length selected) response))
            (grade_call ∷ h)).1
          ≡ grade_call ∷ h) [ ok v ↦ refl | raised x ↦ refl ]

  attempts-calls :
      (left : ℕ) (question : String) (selected : List RetrievedChunk) (h : Calls)
      → (searches (attempts model s left question selected h).1 ≡ searches h)
        × (grade_calls (attempts model s left question selected h).1 ≤ grade_calls h + left)
  unfolding attempts
  attempts-calls zero question selected h = (refl, omega arith)
  attempts-calls (suc left) question selected h =
      let (r, h') = attempt model question selected h in
      let same : h' ≡ grade_call ∷ h = attempt-calls question selected h in
      let rest = attempts-calls left question selected h' in
      let step = after_attempt-calls left r (attempts model s left question selected) h' rest in
      let a : searches h' ≡ searches h = ap searches same in
      let b : grade_calls h' ≡ suc (grade_calls h) = ap grade_calls same in
      (step.0 ∙ a, omega (arith, step.1, b))

  after_attempt-ne :
      (r : Result (GradePayload × ℕ)) (next : Action Calls RetrievalGrade) (h : Calls)
      → (next h).0 ≢ raised value_error
      → (after_attempt model s r next h).0 ≢ raised value_error
  unfolding after_attempt
  after_attempt-ne (ok v) next h k = λ e. cc
  after_attempt-ne (raised value_error) next h k = k
  after_attempt-ne (raised _) next h k = λ e. cc

  attempts-ne :
      (left : ℕ) (question : String) (selected : List RetrievedChunk) (h : Calls)
      → (attempts model s left question selected h).0 ≢ raised value_error
  unfolding attempts
  attempts-ne zero question selected h = λ e. cc
  attempts-ne (suc left) question selected h =
      after_attempt-ne (attempt model question selected h).0
        (attempts model s left question selected) (attempt model question selected h).1
        (attempts-ne left question selected (attempt model question selected h).1)

  -- Grading calls the model at most twice, not at all for no chunks, and never searches the web.
  -- It raises `GraderParseError` in place of every `ValueError`.
  pub grade-calls :
      (question : String) (chunks : List RetrievedChunk) (h : Calls)
      → (searches (grade model s question chunks h).1 ≡ searches h)
        × (grade_calls (grade model s question chunks h).1 ≤ grade_calls h + 2)
        × ((grade model s question [] h).1 ≡ h)
        × ((grade model s question chunks h).0 ≢ raised value_error)
  unfolding grade
  grade-calls question chunks h = elim (Bool-cases (is_empty (take s.max_chunks chunks))) [
    | inl none_left ↦ (
      rw none_left,
      rw none_left (omega arith),
      rw (take-nil s.max_chunks),
      rw none_left (λ e. cc),
    )
    | inr some_left ↦
        let calls = attempts-calls 2 question (take s.max_chunks chunks) h in
        (
          rw some_left calls.0,
          rw some_left calls.1,
          rw (take-nil s.max_chunks),
          rw some_left (attempts-ne 2 question (take s.max_chunks chunks) h),
        )
  ]
