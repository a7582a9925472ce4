-- ===== src/Rag/Service.antt =====
-- `RAGService` of app/rag_services/rag_service.py: what it is made of, how it is made, and what it
-- decides about a question before any work is done. The stages are in the child modules.
pub mod Planning
pub mod Caching
pub mod Retrieving
pub mod Correcting
pub mod Reflecting
pub mod Responding
pub mod Answering
use enterprise_rag.Prelude.{
  ℕ, String, Bool, true, false, not, ◌||◌, Option, none, some, List, [], ◌∷◌, map, any, str_eq,
  if◌then◌else◌,
}
use enterprise_rag.Prelude.Float.{Float}
use enterprise_rag.PyText.{PyText}
use enterprise_rag.Errors.{Result, ok, raised, value_error, Action}
use enterprise_rag.RuntimeConfig.{RagRuntimeConfig, RagRuntimeConfigStore}
use enterprise_rag.Crag.Types.{
  RetrievedChunk, EvidenceChunk, CragOutcome, CragPlan, Calls as CragCalls,
}
use enterprise_rag.Reflection.Types.{
  SelfReflectionOutcome, EvidenceAugmenter, Calls as ReflectionCalls,
}
use enterprise_rag.Reflection.Serving.{SelfReflectionPlan}
use enterprise_rag.Guardrails.Audit.{Trail}
use enterprise_rag.QueryCache.{QueryCacheService}
use enterprise_rag.Rag.World.{Embedding, Calls}
use enterprise_rag.Rag.Schemas.{ChatResponse}
use enterprise_rag.Rag.Rerank.{PlannedReranker}
use enterprise_rag.Rag.Hyde.{PlannedQueryTransformer}
use enterprise_rag.Rag.Hyde.Fusion.{FloatOps}

pub record RetrievalStrategy : Type 0 where
  pub name : String
  pub cache_namespace : String
  pub requires_dense_embedding : Bool
  pub retrieve : String → Option Embedding → ℕ → Calls → Result (List RetrievedChunk)

pub record SemanticQueryCache : Type 0 where
  pub find_candidates : Embedding → String → ℕ → Float → Calls → Result (List String)
  pub record_entry : Embedding → String → ℕ → String → Calls → Result (Unit {0})

pub record PlannedCorrectiveRetriever : Type 0 where
  pub plan : String → RagRuntimeConfig → Bool → Result CragPlan
  pub execute : String → List RetrievedChunk → CragPlan → Action CragCalls CragOutcome

pub record PlannedSelfReflectionEngine : Type 0 where
  pub plan : String → RagRuntimeConfig → Bool → Result SelfReflectionPlan
  pub execute :
      String
      → List EvidenceChunk
      → String
      → EvidenceAugmenter
      → SelfReflectionPlan
      → Action ReflectionCalls SelfReflectionOutcome

-- What the service uses of Python's and pydantic's functions, and of the modules that read texts:
-- app/rag_services/confidence_scorer.py, claim_checker.py and reflection/answer_reviser.py.
pub record Functions : Type 0 where
  pub py : PyText
  -- `hashlib.sha256(text.encode()).hexdigest()`
  pub hexdigest : String → String
  -- `ChatResponse.model_dump_json` and `model_validate_json`
  pub dump : ChatResponse → String
  pub validate_json : String → Result ChatResponse
  -- `json.dumps(metadata, ensure_ascii=True)` of an item and its number
  pub metadata_json : ℕ → EvidenceChunk → String
  -- `sorted({…})`
  pub sorted_set : List String → List String
  pub floats : FloatOps
  -- `compute_confidence_breakdown(evidence, answer, mode, retrieval order).total`
  pub confidence : List RetrievedChunk → String → String → List RetrievedChunk → Float
  pub find_unsupported_claims : String → List RetrievedChunk → List String
  pub find_fabricated_citations : String → List EvidenceChunk → List String

pub record RagService : Type 0 where
  pub embed_texts : List String → Calls → Result (List Embedding)
  pub retrieval_strategies : List (String × RetrievalStrategy)
  -- `generate(_SYSTEM_PROMPT, message).text`
  pub generate : String → Calls → Result String
  pub cache : QueryCacheService
  pub default_retrieval_mode : String
  pub allowed_retrieval_modes : List String
  pub reranker : PlannedReranker
  pub reranker_initial_top_k : ℕ
  pub semantic_cache : Option SemanticQueryCache
  pub query_transformer : PlannedQueryTransformer
  pub corrective_retriever : PlannedCorrectiveRetriever
  pub self_reflection : PlannedSelfReflectionEngine
  pub reflection_retrieval_top_k : ℕ
  pub context_guard : List EvidenceChunk → String → Action Trail (List EvidenceChunk)
  pub output_guard : String → String → String → Action Trail String
  pub config_store : RagRuntimeConfigStore
  pub functions : Functions

-- The parameters of `answer`.
pub record Request : Type 0 where
  pub question : String
  pub top_k : ℕ
  pub retrieval_mode : Option String
  pub reranking_enabled : Option Bool
  pub hyde_enabled : Option Bool
  pub crag_enabled : Option Bool
  pub self_reflective_enabled : Option Bool

-- `key in mapping`, `mapping[key]` and `list(mapping)`, for the strategies by name.
abbrev pub find_strategy : String → List (String × RetrievalStrategy) → Option RetrievalStrategy
find_strategy mode [] = none
find_strategy mode (entry ∷ entries) =
    let rest = find_strategy mode entries in if str_eq entry.0 mode then some entry.1 else rest

abbrev pub has_strategy : String → List (String × RetrievalStrategy) → Bool
has_strategy mode [] = false
has_strategy mode (entry ∷ entries) = str_eq entry.0 mode || has_strategy mode entries

abbrev pub mem_mode : String → List String → Bool
mem_mode mode modes = any (λ name. str_eq name mode) modes

-- `if allowed_retrieval_modes is None: allowed_retrieval_modes = frozenset(retrieval_strategies)`
abbrev pub allowed_or_all : Option (List String) → List (String × RetrievalStrategy) → List String
allowed_or_all none strategies = map (λ entry. entry.0) strategies
allowed_or_all (some modes) strategies = modes

-- `__init__`, its other parameters being the fields of the record.
unfoldable pub new_service : Option (List String) → RagService → Result RagService
new_service allowed s =
    let modes = allowed_or_all allowed s.retrieval_strategies in
    if not (has_strategy s.default_retrieval_mode s.retrieval_strategies)
    then raised value_error
    else if not (mem_mode s.default_retrieval_mode modes)
    then raised value_error
    else ok (record s { allowed_retrieval_modes = modes })
