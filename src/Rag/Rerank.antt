-- ===== src/Rag/Rerank.antt =====
-- app/rag_services/reranker/reranker.py and app/rag_services/reranker/dynamic_reranker.py.
pub mod Bounds
use Prim.Native.String.{◌++◌}
use enterprise_rag.Prelude.{
  ℕ, suc, ◌+◌, String, Bool, true, false, not, Option, none, some, List, [], ◌∷◌, take, ◌==◌,
  if◌then◌else◌,
}
use enterprise_rag.Prelude.Float.{Float}
use enterprise_rag.PyText.{PyText}
use enterprise_rag.Errors.{
  Exception, runtime_error, value_error, other, Result, ok, raised, Action, pure, raise, lift,
  ◌>>=◌, ◌>>◌, try_except,
}
use enterprise_rag.Rollout.{sampled_in}
use enterprise_rag.RuntimeConfig.{RagRuntimeConfig, RerankerBackendName, local, voyage}
use enterprise_rag.Crag.Types.{RetrievedChunk}
use enterprise_rag.Rag.World.{Calls, record_metric, rerank as rerank_metric}

pub record ReRankedChunk : Type 0 where
  pub chunk : RetrievedChunk
  pub original_rank : ℕ
  pub rerank_score : Option Float

pub record ReRankOutcome : Type 0 where
  pub items : List ReRankedChunk
  pub backend : String
  pub applied : Bool
  pub fallback : Bool
  pub usage_tokens : Option ℕ

pub record ReRanker : Type 0 where
  pub name : String
  pub cache_namespace : String
  pub rerank : String → List RetrievedChunk → ℕ → Action Calls ReRankOutcome

-- `for rank, chunk in enumerate(chunks, start=rank)`
abbrev pub in_order : ℕ → List RetrievedChunk → List ReRankedChunk
in_order rank [] = []
in_order rank (chunk ∷ chunks) =
    record { chunk = chunk; original_rank = rank; rerank_score = none } ∷ in_order (suc rank) chunks

-- A number of results is not negative here: `top_k <= 0` is `top_k == 0`.
unfoldable pub noop_rerank : String → List RetrievedChunk → ℕ → Action Calls ReRankOutcome
noop_rerank query candidates top_k =
    if top_k == 0
    then raise value_error
    else pure (record {
      items = in_order 1 (take top_k candidates);
      backend = "none";
      applied = false;
      fallback = false;
      usage_tokens = none;
    })

abbrev pub noop_reranker : ReRanker
noop_reranker = record { name = "none"; cache_namespace = "reranker:none:v1"; rerank = noop_rerank }

-- What the resilience decorator answers with, around the items of its fallback.
abbrev pub fallen_back : String → List ReRankedChunk → ReRankOutcome
fallen_back backend items = record {
  items = items;
  backend = backend;
  applied = false;
  fallback = true;
  usage_tokens = none;
}

pub record FailOpenReranker : Type 0 where
  pub delegate : ReRanker
  pub fallback : Option ReRanker

module _ (r : FailOpenReranker) where
  pub rerank_by_fallback :
      Option ReRanker → String → List RetrievedChunk → ℕ → Action Calls ReRankOutcome
  rerank_by_fallback none query candidates top_k =
      pure (fallen_back r.delegate.name (in_order 1 (take top_k candidates)))
  rerank_by_fallback (some f) query candidates top_k = do
    outcome ← f.rerank query candidates top_k
    pure (fallen_back r.delegate.name outcome.items)

  unfoldable pub fail_open_rerank : String → List RetrievedChunk → ℕ → Action Calls ReRankOutcome
  unfolding rerank_by_fallback
  fail_open_rerank query candidates top_k =
      try_except (r.delegate.rerank query candidates top_k)
        (λ e. rerank_by_fallback r.fallback query candidates top_k)

  abbrev pub fail_open_reranker : ReRanker
  fail_open_reranker = record {
    name = r.delegate.name;
    cache_namespace = "fail-open:v1:" ++ r.delegate.cache_namespace;
    rerank = fail_open_rerank;
  }

pub data RerankCohort : Type 0 where
  disabled control treatment : RerankCohort

pub record RerankPlan : Type 0 where
  pub cohort : RerankCohort
  pub backend_key : Option RerankerBackendName
  pub reported_backend : String
  pub bypass_reason : Option String
  pub cache_namespace : String

abbrev pub is_treatment : RerankCohort → Bool
is_treatment treatment = true
is_treatment control = false
is_treatment disabled = false

pub record PlannedReranker : Type 0 where
  pub plan : String → RagRuntimeConfig → Bool → Result RerankPlan
  pub execute : RerankPlan → String → List RetrievedChunk → ℕ → Action Calls ReRankOutcome

abbrev pub bypassed : RerankCohort → String → RerankPlan
bypassed cohort reason = record {
  cohort = cohort;
  backend_key = none;
  reported_backend = "none";
  bypass_reason = some reason;
  cache_namespace = "rerank:none:reason=" ++ reason;
}

-- `PlannedNoOpReranker`
abbrev pub planned_noop : PlannedReranker
planned_noop = record {
  plan = λ query config enabled. ok (bypassed disabled "disabled");
  execute = λ plan query candidates top_k. noop_rerank query candidates top_k;
}

module _ (delegate : ReRanker) where
  abbrev pub static_rerank_plan : String → RagRuntimeConfig → Bool → Result RerankPlan
  static_rerank_plan query config enabled =
      if not enabled
      then ok (bypassed disabled "disabled")
      else ok (record {
        cohort = treatment;
        backend_key = none;
        reported_backend = delegate.name;
        bypass_reason = none;
        cache_namespace = "static:v1:" ++ delegate.cache_namespace;
      })

  abbrev pub static_rerank_execute :
      RerankPlan → String → List RetrievedChunk → ℕ → Action Calls ReRankOutcome
  static_rerank_execute plan query candidates top_k =
      if not (is_treatment plan.cohort)
      then noop_rerank query candidates top_k
      else delegate.rerank query candidates top_k

-- `f"{backend}"`
abbrev pub backend_text : RerankerBackendName → String
backend_text local = "local"
backend_text voyage = "voyage"

pub record DynamicReranker : Type 0 where
  pub local_reranker : ReRanker
  pub voyage_reranker : Option ReRanker

module _ (d : DynamicReranker) where
  abbrev pub delegate_of : RerankerBackendName → Result ReRanker
  delegate_of local = ok d.local_reranker
  delegate_of voyage = elim d.voyage_reranker [ none ↦ raised runtime_error | some r ↦ ok r ]

  -- The names of a treatment plan; `_delegate` raises no other exception.
  abbrev pub treatment_plan : RerankerBackendName → Result ReRanker → RerankPlan
  treatment_plan backend (ok r) = record {
    cohort = treatment;
    backend_key = some backend;
    reported_backend = r.name;
    bypass_reason = none;
    cache_namespace =
        "dynamic:v1:cohort=treatment:backend=" ++ backend_text backend ++ ":" ++ r.cache_namespace;
  }
  treatment_plan backend (raised e) = record {
    cohort = treatment;
    backend_key = some backend;
    reported_backend = backend_text backend;
    bypass_reason = none;
    cache_namespace =
        "dynamic:v1:cohort=treatment:backend="
        ++ backend_text backend
        ++ ":unconfigured:"
        ++ backend_text backend;
  }

  abbrev pub sampled_rerank_plan : RagRuntimeConfig → Bool → RerankPlan
  sampled_rerank_plan config sampled =
      if not sampled
      then bypassed control "rollout"
      else treatment_plan config.reranker_backend (delegate_of config.reranker_backend)

  unfoldable pub dynamic_rerank_plan : PyText → String → RagRuntimeConfig → Bool → Result RerankPlan
  dynamic_rerank_plan py query config enabled =
      if not enabled
      then ok (bypassed disabled "disabled")
      else if config.emergency_disabled
      then ok (bypassed disabled "emergency_disabled")
      else elim (sampled_in py query config.reranker_rollout_percentage "reranker:v1") [
        | ok sampled ↦ ok (sampled_rerank_plan config sampled)
        | raised e ↦ raised e
      ]

  -- The delegate is known, or the configuration names one that is not there.
  abbrev pub execute_with :
      RerankerBackendName
      → Result ReRanker
      → String
      → List RetrievedChunk
      → ℕ
      → Action Calls ReRankOutcome
  execute_with backend (raised e) query candidates top_k = do
    record_metric (rerank_metric true none)
    outcome ← noop_rerank query candidates top_k
    pure (fallen_back (backend_text backend) outcome.items)
  execute_with backend (ok delegate) query candidates top_k = do
    outcome ←
        fail_open_rerank (record { delegate = delegate; fallback = some noop_reranker }) query
          candidates top_k
    record_metric (rerank_metric outcome.fallback outcome.usage_tokens)
    pure outcome

  -- `assert plan.backend_key is not None`
  abbrev pub execute_treatment :
      Option RerankerBackendName → String → List RetrievedChunk → ℕ → Action Calls ReRankOutcome
  execute_treatment none query candidates top_k = raise (other "AssertionError")
  execute_treatment (some backend) query candidates top_k =
      execute_with backend (delegate_of backend) query candidates top_k

  unfoldable pub dynamic_rerank_execute :
      RerankPlan → String → List RetrievedChunk → ℕ → Action Calls ReRankOutcome
  dynamic_rerank_execute plan query candidates top_k =
      if not (is_treatment plan.cohort)
      then noop_rerank query candidates top_k
      else execute_treatment plan.backend_key query candidates top_k

  abbrev pub dynamic_reranker : PyText → PlannedReranker
  dynamic_reranker py = record { plan = dynamic_rerank_plan py; execute = dynamic_rerank_execute }
