-- ===== src/Crag/Grader.antt =====
-- app/rag_services/crag/crag_retrieval_grader.py: a structured language model grades every chunk,
-- and the code turns the grades into a decision.
pub mod Contract
use Prim.Native.String.{◌++◌}
use enterprise_rag.Prelude.{
  ℕ, zero, suc, String, Bool, true, false, not, ◌&&◌, ◌||◌, List, [], ◌∷◌, map, length, take, any,
  all, is_empty, ltb, ◌==◌, if◌then◌else◌,
}
use enterprise_rag.Prelude.Float.{Float, le, lt, zero_float, one_float}
use enterprise_rag.PyText.{PyText}
use enterprise_rag.Errors.{
  Exception, value_error, grader_parse_error, Result, ok, raised, Action, raise, caught, ◌>>=◌,
  lift, pure,
}
use enterprise_rag.Crag.Types.{
  RetrievedChunk, CragDecision, correct, ambiguous, incorrect, ChunkGrade, RetrievalGrade, Calls,
  grade_call, RetrievalGrader,
}

-- `_RetrievalGradePayload`, before its validation. A negative index is refused by the reader
-- of the JSON text.
pub record GradePayload : Type 0 where
  pub coverage : Float
  pub chunks : List ChunkGrade

-- The structured model call, and the pattern of the reason codes, which the schema holds.
pub record GradeModel : Type 0 where
  pub generate_structured : String → List RetrievedChunk → Calls → Result (GradePayload × ℕ)
  pub is_reason_code : String → Bool

mem_ℕ : ℕ → List ℕ → Bool
mem_ℕ n [] = false
mem_ℕ n (x ∷ xs) = x == n || mem_ℕ n xs

-- `len(indices) == len(set(indices))`
unique : List ℕ → Bool
unfolding mem_ℕ
unique [] = true
unique (x ∷ xs) = not (mem_ℕ x xs) && unique xs

-- every number below `n` is in the list
covers : ℕ → List ℕ → Bool
covers zero xs = true
covers (suc n) xs = mem_ℕ n xs && covers n xs

abbrev in_unit : Float → Bool
in_unit x = le zero_float x && le x one_float

abbrev indices : List ChunkGrade → List ℕ
indices chunks = map (λ item. item.index) chunks

-- The field bounds and `unique_indices`.
validate : GradeModel → GradePayload → Result GradePayload
unfolding unique
validate model payload =
    if in_unit payload.coverage
      && all (λ item. in_unit item.relevance && model.is_reason_code item.reason_code)
          payload.chunks
      && unique (indices payload.chunks)
    then ok payload
    else raised value_error

-- `received != expected`, the comparison of two sets.
exact_indices : ℕ → List ChunkGrade → Bool
exact_indices n chunks = all (λ item. ltb item.index n) chunks && covers n (indices chunks)

pub record GraderSettings : Type 0 where
  pub model : String
  pub prompt_version : String
  pub correct_threshold : Float
  pub ambiguous_threshold : Float
  pub max_chunks : ℕ

-- `__init__`
pub new_settings : GraderSettings → Result GraderSettings
new_settings s =
    if le zero_float s.ambiguous_threshold
      && lt s.ambiguous_threshold s.correct_threshold
      && le s.correct_threshold one_float
    then ok s
    else raised value_error

-- `any(item.supports_question and item.relevance >= threshold for item in chunks)`
abbrev pub supports : Float → ChunkGrade → Bool
supports threshold item = item.supports_question && le threshold item.relevance

abbrev pub supportive : GraderSettings → List ChunkGrade → Bool
supportive s chunks = any (supports s.ambiguous_threshold) chunks

-- The test after the call.
check_indices : ℕ → GradePayload → ℕ → Result (GradePayload × ℕ)
unfolding exact_indices covers
check_indices n value tokens =
    if exact_indices n value.chunks then ok (value, tokens) else raised value_error

-- The body of the `try`.
module _ (model : GradeModel) where
  read_response : ℕ → GradePayload × ℕ → Result (GradePayload × ℕ)
  unfolding validate check_indices
  read_response n (payload, tokens) = elim (validate model payload) [
    | ok value ↦ check_indices n value tokens
    | raised e ↦ raised e
  ]

  attempt : String → List RetrievedChunk → Action Calls (GradePayload × ℕ)
  unfolding read_response
  attempt question selected = do
    response ← λ h. (model.generate_structured question selected h, grade_call ∷ h)
    lift (read_response (length selected) response)

module _ (model : GradeModel) (s : GraderSettings) where
  pub grader_namespace : PyText → String
  grader_namespace py =
      "grader="
      ++ s.model
      ++ ":prompt="
      ++ s.prompt_version
      ++ ":correct="
      ++ py.fixed3 s.correct_threshold
      ++ ":ambiguous="
      ++ py.fixed3 s.ambiguous_threshold
      ++ ":max_chunks="
      ++ py.str_of_int s.max_chunks

  decide : GradePayload → CragDecision
  decide value =
      if le s.correct_threshold value.coverage && supportive s value.chunks
      then correct
      else if lt value.coverage s.ambiguous_threshold && not (supportive s value.chunks)
      then incorrect
      else ambiguous

  graded : GradePayload × ℕ → RetrievalGrade
  unfolding decide
  graded (value, tokens) = record {
    decision = decide value;
    coverage = value.coverage;
    chunks = value.chunks;
    usage_tokens = tokens;
  }

  -- The rest of the loop body, from the result of the `try`: on a `ValueError` go on with the
  -- attempts that are left. Any other exception passes.
  after_attempt :
      Result (GradePayload × ℕ) → Action Calls RetrievalGrade → Action Calls RetrievalGrade
  unfolding graded
  after_attempt (ok v) next h = (ok (graded v), h)
  after_attempt (raised value_error) next h = next h
  after_attempt (raised e) next h = raise e h

  -- `for attempt in range(1, _PARSE_RETRY_ATTEMPTS + 1)`, by the attempts left.
  attempts : ℕ → String → List RetrievedChunk → Action Calls RetrievalGrade
  unfolding attempt after_attempt
  attempts zero question selected h = raise grader_parse_error h
  attempts (suc left) question selected h =
      let (r, h') = attempt model question selected h in
      after_attempt r (attempts left question selected) h'

  abbrev pub empty_grade : RetrievalGrade
  empty_grade = record {
    decision = incorrect;
    coverage = zero_float;
    chunks = [];
    usage_tokens = 0;
  }

  unfoldable pub grade : String → List RetrievedChunk → Action Calls RetrievalGrade
  unfolding attempts
  grade question chunks =
      let selected = take s.max_chunks chunks in
      if is_empty selected then pure empty_grade else attempts 2 question selected

  abbrev pub structured_grader : PyText → RetrievalGrader
  structured_grader py = record { cache_namespace = grader_namespace py; grade = grade }
