-- ===== src/Tests/Reflection.antt =====
-- The theorems on self-reflection, with a critic that is content.
use enterprise_rag.Prelude.{◌⊎◌, String, ◌≡◌, ◌↔◌, refl, true, false, none, some, [], ◌∷◌}
use enterprise_rag.Prelude.Int.{ℤ, pos}
use enterprise_rag.Prelude.Float.{zero_float, one_float, fraction}
use enterprise_rag.Errors.{raised, value_error, Result, ok}
use enterprise_rag.PyText.{join}
use enterprise_rag.Reflection.Types.{
  full, accept, ReflectionCritique, ReflectionBudget, ReflectionState, SelfReflectionOutcome, Calls,
  read_clock, EvidenceAugmenter,
}
use enterprise_rag.Reflection.Policy.{
  ThresholdReflectionDecisionPolicy, decide, threshold_policy, PassesBar, decide-accept_iff,
  policy_runs,
}
use enterprise_rag.Reflection.Query.{
  IsAcceptable, validate_reflection_query, validate_reflection_query_total,
}
use enterprise_rag.Reflection.Engine.{
  StructuredSelfReflectionEngine, World, initial_state, loop, reflect, structured_engine,
  engine_runs,
}
use enterprise_rag.Reflection.Engine.Contract.{
  IsReflection, reflect_bounded, MeetsBar, accepted-MeetsBar,
}
use enterprise_rag.Reflection.Serving.{SelfReflectionPlan, treatment, dynamic_reflection_execute}
use enterprise_rag.Reflection.Serving.Gates.{IsHandled, dynamic_reflection_execute_total}
use enterprise_rag.Tests.World.{py, evidence_chunk}

abbrev world : World
world = record {
  perf_counter = λ h. zero_float;
  add = λ a b. b;
  sub = λ a b. a;
  find_unsupported_claims = λ answer chunks. [];
  fixed1 = λ x. "x";
}

abbrev content : ReflectionCritique
content = record {
  retrieval_needed = false;
  retrieval_query = none;
  evidence_relevance = one_float;
  support_level = full;
  answer_relevance = one_float;
  citation_completeness = one_float;
  utility = pos 5;
  missing_aspects = [];
  unsupported_claims = [];
  usage_tokens = 10;
}

abbrev bar : ThresholdReflectionDecisionPolicy
bar = record {
  min_evidence = fraction 6305039478318694;
  min_answer = fraction 6305039478318694;
  min_citations = fraction 7205759403792794;
  min_utility = pos 4;
}

abbrev str : ℤ → String
str n = "n"

abbrev engine : StructuredSelfReflectionEngine
engine = record {
  critic = record {
    cache_namespace = "c";
    critique = λ question evidence answer time h. ok content;
  };
  policy = threshold_policy bar py str;
  reviser = record {
    cache_namespace = "r";
    revise = λ question evidence answer critique time h. ok ("Ten.", 3);
  };
  max_iterations = 2;
  max_retrievals = 1;
  max_total_tokens = 1000;
  total_timeout = one_float;
  max_evidence = 8;
}

abbrev augmenter : EvidenceAugmenter
augmenter = record { retrieve = λ query h. ok [] }

abbrev outcome : SelfReflectionOutcome
outcome = record {
  answer = "Ten days.";
  evidence = evidence_chunk ∷ [];
  applied = true;
  accepted = true;
  final_action = accept;
  iterations = 1;
  additional_retrievals = 0;
  fallback = false;
  abstain = false;
  bypass_reason = none;
  support_level = some full;
  answer_relevance = some one_float;
  citation_completeness = some one_float;
  utility = some (pos 5);
  usage_tokens = 10;
}

reflect_bounded_example :
    (end : Result SelfReflectionOutcome × Calls) × (loop world py engine "q" augmenter true
        one_float 3
        (initial_state "Ten days." (evidence_chunk ∷ []))
        (read_clock ∷ [])
      ≡ some end)
    × (reflect world py engine "q" augmenter true (evidence_chunk ∷ []) "Ten days." [] ≡ end)
    × IsReflection world py engine "q" augmenter true [] end
reflect_bounded_example =
    reflect_bounded world py engine "q" augmenter true (evidence_chunk ∷ []) "Ten days." []

accepted-MeetsBar_example : MeetsBar world py engine bar str "q" augmenter true outcome
unfolding engine_runs policy_runs fraction zero_float one_float
accepted-MeetsBar_example =
    accepted-MeetsBar world py engine bar str "q" augmenter true (evidence_chunk ∷ []) "Ten days."
      [] outcome refl refl refl

abbrev start : ReflectionState
start = record {
  answer = "Ten days.";
  evidence = evidence_chunk ∷ [];
  iteration = 1;
  additional_retrievals = 0;
  total_tokens = 10;
}

abbrev budget : ReflectionBudget
budget = record {
  max_iterations = 2;
  max_additional_retrievals = 1;
  max_total_tokens = 1000;
  deadline_monotonic = one_float;
}

decide-accept_iff_example : (decide bar content start budget [] ≡ accept) ↔ PassesBar bar content []
decide-accept_iff_example = decide-accept_iff bar content start budget []

validate_reflection_query_total_example :
    (IsAcceptable py "days of leave"
      × (validate_reflection_query py "days of leave" ≡ ok (join " " (py.split "days of leave"))))
    ⊎ ((¬ IsAcceptable py "days of leave")
        × (validate_reflection_query py "days of leave" ≡ raised value_error))
validate_reflection_query_total_example = validate_reflection_query_total py "days of leave"

abbrev plan : SelfReflectionPlan
plan = record {
  cohort = treatment;
  bypass_reason = none;
  cache_namespace = "";
  allow_retrieval = false;
}

dynamic_reflection_execute_total_example :
    IsHandled world py engine "q" (evidence_chunk ∷ []) "Ten days." augmenter plan [] treatment (
      dynamic_reflection_execute
        (structured_engine world py engine)
        "q"
        (evidence_chunk ∷ [])
        "Ten days."
        augmenter
        plan
        [])
dynamic_reflection_execute_total_example =
    dynamic_reflection_execute_total world py engine "q" (evidence_chunk ∷ []) "Ten days." augmenter
      plan []
