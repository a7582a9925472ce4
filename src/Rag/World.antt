-- ===== src/Rag/World.antt =====
-- What answering one question does to the outside of app/rag_services/rag_service.py: the calls it
-- makes, and the states of the services that keep their own history. Durations are left out.
use enterprise_rag.Prelude.{ℕ, String, Bool, Option, List, ◌∷◌}
use enterprise_rag.Prelude.Float.{Float}
use enterprise_rag.Errors.{Result, Action, pure}
use enterprise_rag.Crag.Types.{CragDecision, CragCohort, Calls as CragCalls}
use enterprise_rag.Reflection.Types.{ReflectionAction, Calls as ReflectionCalls}
use enterprise_rag.Reflection.Serving.{ReflectionCohort}
use enterprise_rag.Guardrails.Audit.{Trail}
use enterprise_rag.QueryCache.{CacheState}

abbrev pub Embedding : Type 0
Embedding = List Float

-- The records of `_RagServiceMetricsRecorder`, `CRAGTelemetry`, `SelfReflectionTelemetry` and of
-- `RagMetricsService.record_rerank`.
pub data Metric : Type 0 where
  semantic_cache_lookup : (hit : Bool) → Metric
  rerank : (fallback : Bool) (usage_tokens : Option ℕ) → Metric
  hyde_attempt : (fallback : Bool) (usage_tokens : ℕ) → Metric
  hyde_bypass : (reason : String) → Metric
  crag_outcome :
      (decision : Option CragDecision) (fallback abstain web_used : Bool) (usage_tokens : ℕ)
      → Metric
  crag_bypass : (reason : String) → Metric
  crag_shadow_decision :
      (decision : Option CragDecision) (fallback abstain web_used : Bool) (evidence_count : ℕ)
      (usage_tokens : ℕ)
      → Metric
  crag_attempt :
      (cohort : CragCohort) (decision : Option CragDecision) (fallback abstain web_used : Bool)
      (usage_tokens : ℕ) (served : Bool)
      → Metric
  self_reflection_outcome :
      (final_action : ReflectionAction) (fallback : Bool)
      (iterations additional_retrievals usage_tokens : ℕ)
      → Metric
  self_reflection_bypass : (reason : String) → Metric
  self_reflection_shadow_outcome :
      (final_action : ReflectionAction) (fallback : Bool)
      (iterations additional_retrievals usage_tokens : ℕ)
      → Metric
  self_reflection_attempt :
      (cohort : ReflectionCohort) (final_action : ReflectionAction) (fallback abstain : Bool)
      (iterations additional_retrievals usage_tokens : ℕ) (served : Bool)
      → Metric

pub data Call : Type 0 where
  embed_call : (texts : List String) → Call
  retrieve_call : (query : String) (top_k : ℕ) → Call
  generate_call : (message : String) → Call
  hypothesize_call : (query : String) → Call
  rerank_call : (backend : String) → Call
  semantic_find_call : (cache_namespace : String) → Call
  semantic_record_call : (cache_key : String) → Call
  metric_call : (metric : Metric) → Call

-- Newest first.
abbrev pub Calls : Type 0
Calls = List Call

-- A collaborator that may answer differently at each call, or raise.
abbrev pub ask : {A : Type 0} → Call → (Calls → Result A) → Action Calls A
ask call answer calls = (answer calls, call ∷ calls)

-- The recorders only count, and do not raise.
abbrev pub record_metric : Metric → Action Calls (Unit {0})
record_metric metric calls = pure tt (metric_call metric ∷ calls)

pub record World : Type 0 where
  pub calls : Calls
  pub cache : CacheState
  pub crag : CragCalls
  pub reflection : ReflectionCalls
  pub trail : Trail

abbrev pub on_calls : {A : Type 0} → Action Calls A → Action World A
on_calls action w = let (r, calls) = action w.calls in (r, record w { calls = calls })

abbrev pub on_cache : {A : Type 0} → Action CacheState A → Action World A
on_cache action w = let (r, cache) = action w.cache in (r, record w { cache = cache })

abbrev pub on_crag : {A : Type 0} → Action CragCalls A → Action World A
on_crag action w = let (r, crag) = action w.crag in (r, record w { crag = crag })

abbrev pub on_reflection : {A : Type 0} → Action ReflectionCalls A → Action World A
on_reflection action w =
    let (r, reflection) = action w.reflection in (r, record w { reflection = reflection })

abbrev pub on_trail : {A : Type 0} → Action Trail A → Action World A
on_trail action w = let (r, trail) = action w.trail in (r, record w { trail = trail })
