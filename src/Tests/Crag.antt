-- ===== src/Tests/Crag.antt =====
-- The theorems on correction, with one chunk and fixed models.
use enterprise_rag.Prelude.{◌≡◌, refl, Bool, true, false, none, some, [], ◌∷◌, All, arith}
use enterprise_rag.Prelude.Float.{zero_float, one_float, fraction}
use enterprise_rag.Errors.{ok}
use enterprise_rag.Crag.Types.{
  incorrect, ambiguous, RetrievalGrade, CragOutcome, searches, CorrectiveRetriever, treatment,
  disabled, CragPlan,
}
use enterprise_rag.Crag.Grader.{grade}
use enterprise_rag.Crag.Grader.Contract.{IsGradeOf, grade-IsGradeOf}
use enterprise_rag.Crag.Refiner.{refine_local}
use enterprise_rag.Crag.Refiner.Extraction.{QuotesSupported, refine_local-quotes, refine_local-nil}
use enterprise_rag.Crag.Corrective.{correct_chunks, corrective_retriever}
use enterprise_rag.Crag.Corrective.Outcomes.{IsSound, correct_chunks-IsSound}
use enterprise_rag.Crag.Corrective.WebGate.{wired, incorrect_abstains}
use enterprise_rag.Crag.Plan.{dynamic_plan, dynamic_execute}
use enterprise_rag.Crag.Plan.Gates.{
  IsGated, IsHandled, dynamic_plan_total, dynamic_execute_total, searches-dynamic_execute,
}
use enterprise_rag.Tests.World.{
  py, chunk, evidence_chunk, grade_of, grade_model, grader_settings, selection_model,
  refiner_settings, scope, web, promoted_config, promoted-IsValid,
}

abbrev supported_grade : RetrievalGrade
supported_grade = record {
  decision = ambiguous;
  coverage = zero_float;
  chunks = grade_of true ∷ [];
  usage_tokens = 5;
}

grade-IsGradeOf_example : IsGradeOf grader_settings 1 supported_grade
unfolding grade fraction zero_float one_float
grade-IsGradeOf_example =
    grade-IsGradeOf (grade_model true) grader_settings "q" (chunk ∷ []) [] supported_grade refl

refine_local-quotes_example :
    All
      (QuotesSupported py selection_model refiner_settings (chunk ∷ []) supported_grade.chunks)
      (evidence_chunk ∷ [])
unfolding refine_local fraction one_float
refine_local-quotes_example =
    refine_local-quotes py selection_model refiner_settings "q" (chunk ∷ []) supported_grade []
      (evidence_chunk ∷ []) 3 (omega arith, tt) refl

abbrev unsupported : RetrievalGrade
unsupported = record {
  decision = incorrect;
  coverage = zero_float;
  chunks = grade_of false ∷ [];
  usage_tokens = 5;
}

refine_local-nil_example :
    refine_local py selection_model refiner_settings "q" (chunk ∷ []) unsupported []
    ≡ (ok ([], 0), [])
refine_local-nil_example =
    refine_local-nil py selection_model refiner_settings "q" (chunk ∷ []) unsupported [] refl

-- The production wiring with a grader that finds the chunk supportive, or not.
abbrev delegate : Bool → CorrectiveRetriever
delegate supporting =
    corrective_retriever
      (wired py (grade_model supporting) grader_settings selection_model refiner_settings scope
        (some web) none 1)
      py

abbrev served_outcome : CragOutcome
served_outcome = record {
  evidence = evidence_chunk ∷ [];
  decision = some ambiguous;
  applied = true;
  fallback = false;
  abstain = false;
  web_used = false;
  bypass_reason = none;
  usage_tokens = 8;
}

abbrev refused_outcome : CragOutcome
refused_outcome = record {
  evidence = [];
  decision = some incorrect;
  applied = true;
  fallback = false;
  abstain = true;
  web_used = false;
  bypass_reason = some "external_correction_not_permitted";
  usage_tokens = 5;
}

correct_chunks-IsSound_example :
    IsSound
      (wired py
        (grade_model true)
        grader_settings
        selection_model
        refiner_settings
        scope
        (some web)
        none
        1)
      "q"
      true
      served_outcome
unfolding correct_chunks grade refine_local fraction zero_float one_float
correct_chunks-IsSound_example =
    correct_chunks-IsSound
      (wired py (grade_model true) grader_settings selection_model refiner_settings scope (some web)
        none 1)
      "q" true (chunk ∷ []) [] served_outcome refl

incorrect_abstains_example : (refused_outcome.abstain ≡ true) × (refused_outcome.evidence ≡ [])
unfolding correct_chunks grade refine_local fraction zero_float one_float
incorrect_abstains_example =
    incorrect_abstains py (grade_model false) grader_settings selection_model refiner_settings scope
      (some web) none 1 "q" (chunk ∷ []) false [] refused_outcome (omega arith) (omega arith) refl
      refl refl

dynamic_plan_total_example :
    (p : CragPlan) × (dynamic_plan (delegate true) py "q" promoted_config true ≡ ok p)
    × IsGated (delegate true) py "q" promoted_config true p
dynamic_plan_total_example =
    dynamic_plan_total (delegate true) py "q" promoted_config true promoted-IsValid

abbrev plan : CragPlan
plan = record { cohort = treatment; bypass_reason = none; allow_web = false; cache_namespace = "" }

dynamic_execute_total_example :
    IsHandled
      (delegate true)
      "q"
      (chunk ∷ [])
      plan
      []
      treatment
      (dynamic_execute (delegate true) "q" (chunk ∷ []) plan [])
dynamic_execute_total_example = dynamic_execute_total (delegate true) "q" (chunk ∷ []) plan []

abbrev off_plan : CragPlan
off_plan = record {
  cohort = disabled;
  bypass_reason = some "disabled";
  allow_web = false;
  cache_namespace = "crag:none:reason=disabled";
}

searches-dynamic_execute_example :
    searches (dynamic_execute (delegate false) "q" (chunk ∷ []) off_plan []).1 ≡ 0
unfolding dynamic_plan
searches-dynamic_execute_example =
    searches-dynamic_execute py (grade_model false) grader_settings selection_model refiner_settings
      scope (some web) none 1 "q" (chunk ∷ []) promoted_config false off_plan [] refl refl
