-- ===== src/Rag/Service/Retrieving.antt =====
-- `RAGService.answer` (app/rag_services/rag_service.py): the query's embedding, with the expansion
-- of the query, the retrieval, and the reranking.
use enterprise_rag.Prelude.{
  ℕ, String, Bool, true, false, ◌&&◌, not, ◌||◌, Option, none, some, List, [], ◌∷◌, map, length,
  is_empty, str_eq, if◌then◌else◌,
}
use enterprise_rag.Errors.{
  index_error, Result, ok, raised, Action, pure, lift, ◌>>=◌, ◌>>◌, try_except,
}
use enterprise_rag.Crag.Types.{RetrievedChunk}
use enterprise_rag.Rag.World.{
  Embedding, World, on_calls, ask, record_metric, embed_call, retrieve_call, hyde_attempt,
  hyde_bypass,
}
use enterprise_rag.Rag.Rerank as reranking
use enterprise_rag.Rag.Rerank.{ReRankedChunk, ReRankOutcome}
use enterprise_rag.Rag.Hyde.{QueryTransformOutcome, is_treatment, noop_transform, or_disabled}
use enterprise_rag.Rag.Hyde.Fusion.{mean_pool_and_normalize}
use enterprise_rag.Rag.Service.{RagService, Request, RetrievalStrategy}
use enterprise_rag.Rag.Service.Planning.{Plans}

-- `vectors[0]`
abbrev pub first : List Embedding → Result Embedding
first [] = raised index_error
first (vector ∷ vectors) = ok vector

-- `reason in ("rollout", "emergency_disabled")`
abbrev pub is_counted : Option String → Bool
is_counted none = false
is_counted (some reason) = str_eq reason "rollout" || str_eq reason "emergency_disabled"

abbrev pub text_of : Option String → String
text_of none = ""
text_of (some reason) = reason

-- The expansion, the vector to search with if the expansion made one, and that of the question if it
-- was needed.
pub record Embedded : Type 0 where
  pub hyde_outcome : QueryTransformOutcome
  pub query_embedding : Option Embedding
  pub original_query_embedding : Option Embedding

-- What `answer` keeps of the reranking.
pub record Reranked : Type 0 where
  pub chunks : List RetrievedChunk
  pub items : Option (List ReRankedChunk)
  pub applied : Bool
  pub fallback : Bool
  pub candidate_count : ℕ
  pub backend : String
  pub usage_tokens : Option ℕ

module _ (s : RagService) where
  abbrev pub embed : List String → Action World (List Embedding)
  embed texts = on_calls (ask (embed_call texts) (s.embed_texts texts))

  abbrev pub embed_one : String → Action World Embedding
  embed_one text = embed (text ∷ []) >>= λ vectors. lift (first vectors)

  -- The `except` around embedding and fusing the hypotheses.
  abbrev pub fusion_failed : String → QueryTransformOutcome → QueryTransformOutcome
  fusion_failed question outcome = record {
    retrieval_texts = question ∷ [];
    backend = outcome.backend;
    applied = false;
    fallback = true;
    bypass_reason = some "embedding_or_fusion_error";
    usage_tokens = outcome.usage_tokens;
  }

  abbrev pub fuse :
      String → QueryTransformOutcome → Action World (QueryTransformOutcome × Option Embedding)
  fuse question outcome =
      try_except
        (do
          vectors ← embed outcome.retrieval_texts
          fused ← lift (mean_pool_and_normalize s.functions.floats vectors)
          pure (outcome, some fused))
        (λ e. pure (fusion_failed question outcome, none))

  abbrev pub expand : String → Plans → Action World (QueryTransformOutcome × Option Embedding)
  expand question p = do
    outcome ← on_calls (s.query_transformer.execute question p.hyde_plan)
    fused ← if outcome.applied then fuse question outcome else pure (outcome, none)
    on_calls (record_metric (hyde_attempt fused.0.fallback fused.0.usage_tokens))
    pure fused

  abbrev pub skip_expansion :
      String → Plans → Action World (QueryTransformOutcome × Option Embedding)
  skip_expansion question p = do
    if is_counted p.hyde_plan.bypass_reason
        then on_calls (record_metric (hyde_bypass (text_of p.hyde_plan.bypass_reason)))
        else pure tt
    pure (noop_transform (or_disabled p.hyde_plan.bypass_reason) question, none)

  -- `if query_embedding is None: …`
  abbrev pub question_embedding : String → Option Embedding → Action World Embedding
  question_embedding question none = embed_one question
  question_embedding question (some original) = pure original

  abbrev pub search_vector :
      String → Option Embedding → QueryTransformOutcome × Option Embedding → Action World Embedded
  search_vector question original (outcome, some fused) = pure (record {
    hyde_outcome = outcome;
    query_embedding = some fused;
    original_query_embedding = original;
  })
  search_vector question original (outcome, none) = do
    vector ← question_embedding question original
    pure (record {
      hyde_outcome = outcome;
      query_embedding = some vector;
      original_query_embedding = some vector;
    })

  unfoldable pub embed_stage : String → Plans → Option Embedding → Action World Embedded
  embed_stage question p original =
      if p.strategy.requires_dense_embedding
      then (do
        expanded ←
            if is_treatment p.hyde_plan.cohort then expand question p else skip_expansion question p
        search_vector question original expanded)
      else pure (record {
        hyde_outcome = noop_transform (or_disabled p.hyde_plan.bypass_reason) question;
        query_embedding = none;
        original_query_embedding = original;
      })

  abbrev pub retrieve :
      RetrievalStrategy → String → Option Embedding → ℕ → Action World (List RetrievedChunk)
  retrieve strategy query vector top_k =
      on_calls (ask (retrieve_call query top_k) (strategy.retrieve query vector top_k))

  abbrev pub unranked : Plans → List RetrievedChunk → Reranked
  unranked p chunks = record {
    chunks = chunks;
    items = none;
    applied = false;
    fallback = false;
    candidate_count = 0;
    backend = p.rerank_plan.reported_backend;
    usage_tokens = none;
  }

  abbrev pub ranked : List RetrievedChunk → ReRankOutcome → Reranked
  ranked candidates outcome = record {
    chunks = map (λ item. item.chunk) outcome.items;
    items = some outcome.items;
    applied = outcome.applied;
    fallback = outcome.fallback;
    candidate_count = length candidates;
    backend = outcome.backend;
    usage_tokens = outcome.usage_tokens;
  }

  unfoldable pub rerank_stage : Request → Plans → List RetrievedChunk → Action World Reranked
  rerank_stage r p chunks =
      if reranking.is_treatment p.rerank_plan.cohort && not (is_empty chunks)
      then (do
        outcome ← on_calls (s.reranker.execute p.rerank_plan r.question chunks r.top_k)
        pure (ranked chunks outcome))
      else pure (unranked p chunks)
