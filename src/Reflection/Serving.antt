-- ===== src/Reflection/Serving.antt =====
-- Around the reflection engine: the availability boundary and the no-op of
-- app/rag_services/reflection/reflection.py, and the planned engines of
-- app/rag_services/reflection/dynamic_self_reflection.py.
pub mod Gates
pub mod Boundary
use Prim.Native.String.{◌++◌}
use enterprise_rag.Prelude.{
  String, Bool, true, false, not, Option, none, some, List, str_eq, if◌then◌else◌,
}
use enterprise_rag.Errors.{Result, ok, raised, Action, pure, try_except}
use enterprise_rag.PyText.{PyText}
use enterprise_rag.Rollout.{sampled_in}
use enterprise_rag.RuntimeConfig.{RagRuntimeConfig}
use enterprise_rag.Crag.Types.{EvidenceChunk}
use enterprise_rag.Reflection.Types.{
  accept, abstain, SelfReflectionOutcome, Calls, EvidenceAugmenter, SelfReflectionEngine,
}

pub data ReflectionCohort : Type 0 where
  disabled control shadow treatment : ReflectionCohort

pub record SelfReflectionPlan : Type 0 where
  pub cohort : ReflectionCohort
  pub bypass_reason : Option String
  pub cache_namespace : String
  pub allow_retrieval : Bool

-- `plan.bypass_reason or "disabled"`
or_disabled : Option String → String
or_disabled none = "disabled"
or_disabled (some reason) = if str_eq reason "" then "disabled" else reason

abbrev pub disabled_plan : SelfReflectionPlan
disabled_plan = record {
  cohort = disabled;
  bypass_reason = some "disabled";
  cache_namespace = "self-reflection:none:reason=disabled";
  allow_retrieval = false;
}

bool_text : Bool → String
bool_text true = "True"
bool_text false = "False"

unfoldable pub noop_reflection_plan : String → RagRuntimeConfig → Bool → Result SelfReflectionPlan
noop_reflection_plan question config enabled = ok disabled_plan

unfoldable pub untouched : List EvidenceChunk → String → SelfReflectionPlan → SelfReflectionOutcome
unfolding or_disabled
untouched evidence answer plan = record {
  answer = answer;
  evidence = evidence;
  applied = false;
  accepted = true;
  final_action = accept;
  iterations = 0;
  additional_retrievals = 0;
  fallback = false;
  abstain = false;
  bypass_reason = some (or_disabled plan.bypass_reason);
  support_level = none;
  answer_relevance = none;
  citation_completeness = none;
  utility = none;
  usage_tokens = 0;
}

unfoldable pub noop_reflection_execute :
    String
    → List EvidenceChunk
    → String
    → EvidenceAugmenter
    → SelfReflectionPlan
    → Action Calls SelfReflectionOutcome
noop_reflection_execute question evidence answer augmenter plan =
    pure (untouched evidence answer plan)

unfoldable pub reflection_fallback : List EvidenceChunk → String → SelfReflectionOutcome
reflection_fallback evidence answer = record {
  answer = answer;
  evidence = evidence;
  applied = false;
  accepted = false;
  final_action = abstain;
  iterations = 0;
  additional_retrievals = 0;
  fallback = true;
  abstain = false;
  bypass_reason = some "reflection_error";
  support_level = none;
  answer_relevance = none;
  citation_completeness = none;
  utility = none;
  usage_tokens = 0;
}

module _ (delegate : SelfReflectionEngine) where
  unfoldable pub fail_safe_reflect :
      String
      → List EvidenceChunk
      → String
      → EvidenceAugmenter
      → Bool
      → Action Calls SelfReflectionOutcome
  fail_safe_reflect question evidence answer augmenter allow =
      try_except (delegate.reflect question evidence answer augmenter allow)
        (λ e. pure (reflection_fallback evidence answer))

  -- The plan once the sampling is known.
  sampled_reflection_plan : RagRuntimeConfig → Bool → SelfReflectionPlan
  sampled_reflection_plan config sampled =
      if not sampled
      then record {
        cohort = control;
        bypass_reason = some "rollout";
        cache_namespace = "self-reflection:none:reason=rollout";
        allow_retrieval = false;
      }
      else record {
        cohort = treatment;
        bypass_reason = none;
        cache_namespace =
            "self-reflection:dynamic:v1:cohort=treatment:retrieval="
            ++ bool_text config.self_reflective_retrieval_enabled
            ++ ":"
            ++ delegate.cache_namespace;
        allow_retrieval = config.self_reflective_retrieval_enabled;
      }

  unfoldable pub dynamic_reflection_plan :
      PyText → String → RagRuntimeConfig → Bool → Result SelfReflectionPlan
  unfolding sampled_reflection_plan bool_text
  dynamic_reflection_plan py question config enabled =
      if not enabled
      then ok disabled_plan
      else if config.emergency_disabled
      then ok (record {
        cohort = disabled;
        bypass_reason = some "emergency_disabled";
        cache_namespace = "self-reflection:none:reason=emergency_disabled";
        allow_retrieval = false;
      })
      else if config.self_reflective_shadow_enabled
      then ok (record {
        cohort = shadow;
        bypass_reason = none;
        cache_namespace = "self-reflection:shadow:v1";
        allow_retrieval = false;
      })
      else elim (sampled_in py question config.self_reflective_rollout_percentage
          "self_reflective:v1") [
            | ok sampled ↦ ok (sampled_reflection_plan config sampled)
            | raised e ↦ raised e
          ]

  dynamic_by_cohort :
      ReflectionCohort
      → String
      → List EvidenceChunk
      → String
      → EvidenceAugmenter
      → SelfReflectionPlan
      → Action Calls SelfReflectionOutcome
  dynamic_by_cohort treatment question evidence answer augmenter plan =
      fail_safe_reflect question evidence answer augmenter plan.allow_retrieval
  dynamic_by_cohort shadow question evidence answer augmenter plan =
      fail_safe_reflect question evidence answer augmenter plan.allow_retrieval
  dynamic_by_cohort _ question evidence answer augmenter plan =
      noop_reflection_execute question evidence answer augmenter plan

  unfoldable pub dynamic_reflection_execute :
      String
      → List EvidenceChunk
      → String
      → EvidenceAugmenter
      → SelfReflectionPlan
      → Action Calls SelfReflectionOutcome
  unfolding dynamic_by_cohort
  dynamic_reflection_execute question evidence answer augmenter plan =
      dynamic_by_cohort plan.cohort question evidence answer augmenter plan

  unfoldable pub static_reflection_plan :
      String → RagRuntimeConfig → Bool → Result SelfReflectionPlan
  static_reflection_plan question config enabled =
      if not enabled
      then ok disabled_plan
      else ok (record {
        cohort = treatment;
        bypass_reason = none;
        cache_namespace = "self-reflection:static:v1:retrieval=True:" ++ delegate.cache_namespace;
        allow_retrieval = true;
      })

  static_by_cohort :
      ReflectionCohort
      → String
      → List EvidenceChunk
      → String
      → EvidenceAugmenter
      → SelfReflectionPlan
      → Action Calls SelfReflectionOutcome
  static_by_cohort treatment question evidence answer augmenter plan =
      fail_safe_reflect question evidence answer augmenter plan.allow_retrieval
  static_by_cohort _ question evidence answer augmenter plan =
      noop_reflection_execute question evidence answer augmenter plan

  unfoldable pub static_reflection_execute :
      String
      → List EvidenceChunk
      → String
      → EvidenceAugmenter
      → SelfReflectionPlan
      → Action Calls SelfReflectionOutcome
  unfolding static_by_cohort
  static_reflection_execute question evidence answer augmenter plan =
      static_by_cohort plan.cohort question evidence answer augmenter plan
