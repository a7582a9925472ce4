-- ===== src/Crag/Plan.antt =====
-- The planned retrievers: `PlannedNoOpCorrectiveRetriever` and `StaticPlannedCorrectiveRetriever`
-- of app/rag_services/crag/crag.py, and app/rag_services/crag/dynamic_corrective_retriever.py.
pub mod Gates
use Prim.Native.String.{◌++◌}
use enterprise_rag.Prelude.{
  String, Bool, true, false, not, Option, none, some, List, str_eq, if◌then◌else◌,
}
use enterprise_rag.Errors.{Result, ok, raised, Action, pure}
use enterprise_rag.PyText.{PyText}
use enterprise_rag.Rollout.{sampled_in}
use enterprise_rag.RuntimeConfig.{RagRuntimeConfig}
use enterprise_rag.Crag.Types.{
  RetrievedChunk, CragOutcome, Calls, CorrectiveRetriever, CragCohort, disabled, control, shadow,
  treatment, CragPlan, local_evidence,
}
use enterprise_rag.Crag.FailSafe.{fail_safe}

abbrev crag_plan : CragCohort → Option String → Bool → String → CragPlan
crag_plan cohort reason allow_web namespace = record {
  cohort = cohort;
  bypass_reason = reason;
  allow_web = allow_web;
  cache_namespace = namespace;
}

-- `plan.bypass_reason or "disabled"`
or_disabled : Option String → String
or_disabled none = "disabled"
or_disabled (some reason) = if str_eq reason "" then "disabled" else reason

unfoldable pub noop_plan : String → RagRuntimeConfig → Bool → Result CragPlan
noop_plan question config enabled =
    ok (crag_plan disabled (some "disabled") false "crag:none:reason=disabled")

unfoldable pub noop_execute : String → List RetrievedChunk → CragPlan → Action Calls CragOutcome
unfolding or_disabled
noop_execute question chunks plan = pure (record {
  evidence = local_evidence chunks;
  decision = none;
  applied = false;
  fallback = false;
  abstain = false;
  web_used = false;
  bypass_reason = some (or_disabled plan.bypass_reason);
  usage_tokens = 0;
})

module _ (delegate : CorrectiveRetriever) where
  unfoldable pub static_plan : String → RagRuntimeConfig → Bool → Result CragPlan
  static_plan question config enabled = ok (
      if not enabled
      then crag_plan disabled (some "disabled") false "crag:none:reason=disabled"
      else crag_plan treatment none false ("crag:static:v1:" ++ delegate.cache_namespace))

  static_by_cohort : CragCohort → String → List RetrievedChunk → CragPlan → Action Calls CragOutcome
  static_by_cohort treatment question chunks plan = delegate.correct question chunks plan.allow_web
  static_by_cohort _ question chunks plan = noop_execute question chunks plan

  unfoldable pub static_execute : String → List RetrievedChunk → CragPlan → Action Calls CragOutcome
  unfolding static_by_cohort
  static_execute question chunks plan = static_by_cohort plan.cohort question chunks plan

  -- The plan once the sampling is known.
  sampled_plan : RagRuntimeConfig → Bool → CragPlan
  sampled_plan config sampled =
      if not sampled
      then crag_plan control (some "rollout") false "crag:none:reason=rollout"
      else crag_plan treatment none config.crag_web_enabled
          ("crag:dynamic:v1:cohort=treatment:" ++ delegate.cache_namespace)

  unfoldable pub dynamic_plan : PyText → String → RagRuntimeConfig → Bool → Result CragPlan
  unfolding sampled_plan
  dynamic_plan py question config enabled =
      if not enabled
      then ok (crag_plan disabled (some "disabled") false "crag:none:reason=disabled")
      else if config.emergency_disabled
      then ok (
          crag_plan disabled (some "emergency_disabled") false
            "crag:none:reason=emergency_disabled")
      else if config.crag_shadow_enabled
      then ok (crag_plan shadow none false "crag:shadow:v1")
      else elim (sampled_in py question config.crag_rollout_percentage "crag:v1") [
        | ok sampled ↦ ok (sampled_plan config sampled)
        | raised e ↦ raised e
      ]

  dynamic_by_cohort :
      CragCohort → String → List RetrievedChunk → CragPlan → Action Calls CragOutcome
  dynamic_by_cohort treatment question chunks plan =
      (fail_safe delegate).correct question chunks plan.allow_web
  dynamic_by_cohort shadow question chunks plan =
      (fail_safe delegate).correct question chunks plan.allow_web
  dynamic_by_cohort _ question chunks plan = noop_execute question chunks plan

  unfoldable pub dynamic_execute :
      String → List RetrievedChunk → CragPlan → Action Calls CragOutcome
  unfolding dynamic_by_cohort
  dynamic_execute question chunks plan = dynamic_by_cohort plan.cohort question chunks plan
