-- ===== src/Rag/Hyde.antt =====
-- Query expansion: app/rag_services/hyde/query_transformer.py, hyde_query_transformer.py and
-- dynamic_query_transformer.py, and app/rag_services/fusion/embedding_fusion.py.
pub mod Fusion
pub mod Boundary
pub mod Hypotheses
use Prim.Native.String.{◌++◌}
use enterprise_rag.Prelude.{
  ℕ, String, Bool, true, false, not, Option, none, some, List, [], ◌∷◌, str_eq, if◌then◌else◌,
}
use enterprise_rag.PyText.{PyText}
use enterprise_rag.Errors.{Result, ok, raised, Action, pure, try_except}
use enterprise_rag.Rollout.{sampled_in}
use enterprise_rag.RuntimeConfig.{RagRuntimeConfig}
use enterprise_rag.Rag.World.{Calls}

pub record QueryTransformOutcome : Type 0 where
  pub retrieval_texts : List String
  pub backend : String
  pub applied : Bool
  pub fallback : Bool
  pub bypass_reason : Option String
  pub usage_tokens : ℕ

pub record QueryTransformer : Type 0 where
  pub name : String
  pub cache_namespace : String
  pub transform : String → Action Calls QueryTransformOutcome

abbrev pub noop_transform : String → String → QueryTransformOutcome
noop_transform reason query = record {
  retrieval_texts = query ∷ [];
  backend = "none";
  applied = false;
  fallback = false;
  bypass_reason = some reason;
  usage_tokens = 0;
}

-- The answer of `FailOpenQueryTransformer` to a failure.
abbrev pub transform_fallback : String → String → QueryTransformOutcome
transform_fallback backend query = record {
  retrieval_texts = query ∷ [];
  backend = backend;
  applied = false;
  fallback = true;
  bypass_reason = some "transform_error";
  usage_tokens = 0;
}

pub data HydeCohort : Type 0 where
  disabled control treatment : HydeCohort

pub record HydePlan : Type 0 where
  pub cohort : HydeCohort
  pub bypass_reason : Option String
  pub cache_namespace : String

pub record PlannedQueryTransformer : Type 0 where
  pub plan : String → RagRuntimeConfig → Bool → Result HydePlan
  pub execute : String → HydePlan → Action Calls QueryTransformOutcome

abbrev pub is_treatment : HydeCohort → Bool
is_treatment treatment = true
is_treatment control = false
is_treatment disabled = false

-- `plan.bypass_reason or "disabled"`
abbrev pub or_disabled : Option String → String
or_disabled none = "disabled"
or_disabled (some reason) = if str_eq reason "" then "disabled" else reason

abbrev pub hyde_bypass : HydeCohort → String → HydePlan
hyde_bypass cohort reason = record {
  cohort = cohort;
  bypass_reason = some reason;
  cache_namespace = "query-transform:none:reason=" ++ reason;
}

abbrev pub noop_execute : String → HydePlan → Action Calls QueryTransformOutcome
noop_execute query plan = pure (noop_transform (or_disabled plan.bypass_reason) query)

-- `PlannedNoOpQueryTransformer`
abbrev pub planned_noop : PlannedQueryTransformer
planned_noop = record {
  plan = λ query config enabled. ok (hyde_bypass disabled "disabled");
  execute = noop_execute;
}

module _ (delegate : QueryTransformer) where
  unfoldable pub fail_open_transform : String → Action Calls QueryTransformOutcome
  fail_open_transform query =
      try_except (delegate.transform query) (λ e. pure (transform_fallback delegate.name query))

  abbrev pub fail_open_transformer : QueryTransformer
  fail_open_transformer = record {
    name = delegate.name;
    cache_namespace = delegate.cache_namespace;
    transform = fail_open_transform;
  }

  abbrev pub static_hyde_plan : String → RagRuntimeConfig → Bool → Result HydePlan
  static_hyde_plan query config enabled =
      if not enabled
      then ok (hyde_bypass disabled "disabled")
      else ok (record {
        cohort = treatment;
        bypass_reason = none;
        cache_namespace = "static:v1:" ++ delegate.cache_namespace;
      })

  abbrev pub static_hyde_execute : String → HydePlan → Action Calls QueryTransformOutcome
  static_hyde_execute query plan =
      if not (is_treatment plan.cohort) then noop_execute query plan else delegate.transform query

  abbrev pub sampled_hyde_plan : Bool → HydePlan
  sampled_hyde_plan sampled = if not sampled then hyde_bypass control "rollout" else record {
    cohort = treatment;
    bypass_reason = none;
    cache_namespace = "dynamic-query-transform:v1:cohort=treatment:" ++ delegate.cache_namespace;
  }

  unfoldable pub dynamic_hyde_plan : PyText → String → RagRuntimeConfig → Bool → Result HydePlan
  dynamic_hyde_plan py query config enabled =
      if not enabled
      then ok (hyde_bypass disabled "disabled")
      else if config.emergency_disabled
      then ok (hyde_bypass disabled "emergency_disabled")
      else elim (sampled_in py query config.hyde_rollout_percentage "hyde:v1") [
        | ok sampled ↦ ok (sampled_hyde_plan sampled)
        | raised e ↦ raised e
      ]

  -- The delegate is wrapped in `FailOpenQueryTransformer` when the object is made.
  unfoldable pub dynamic_hyde_execute : String → HydePlan → Action Calls QueryTransformOutcome
  dynamic_hyde_execute query plan =
      if not (is_treatment plan.cohort) then noop_execute query plan else fail_open_transform query

  abbrev pub dynamic_transformer : PyText → PlannedQueryTransformer
  dynamic_transformer py = record { plan = dynamic_hyde_plan py; execute = dynamic_hyde_execute }
