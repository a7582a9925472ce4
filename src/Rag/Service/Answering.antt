-- ===== src/Rag/Service/Answering.antt =====
-- `RAGService.answer` (app/rag_services/rag_service.py), from its stages.
pub mod Frames
pub mod Yields
pub mod Answers
pub mod Hygiene
pub mod Replay
pub mod Availability
pub mod Production
pub mod Served
use enterprise_rag.Prelude.{
  ℕ, String, Bool, true, false, not, ◌&&◌, Option, none, some, List, [], ◌∷◌, take, if◌then◌else◌,
}
use enterprise_rag.Errors.{Result, ok, raised, Action, pure, lift, ◌>>=◌, ◌>>◌}
use enterprise_rag.Crag.Types.{RetrievedChunk}
use enterprise_rag.Reflection.Types.{SelfReflectionOutcome}
use enterprise_rag.Rag.World.{Embedding, World}
use enterprise_rag.Rag.Schemas.{ChatResponse}
use enterprise_rag.Rag.Service.{RagService, SemanticQueryCache, Request}
use enterprise_rag.Rag.Service.Planning.{Plans, config, plan_request, cache_key}
use enterprise_rag.Rag.Service.Caching.{
  get_cached, set_cached, check_semantic_cache, record_semantic_cache,
}
use enterprise_rag.Rag.Service.Retrieving.{
  Embedded, Reranked, embed_one, embed_stage, retrieve, rerank_stage,
}
use enterprise_rag.Rag.Service.Correcting.{Corrected, Draft, correct_stage, draft_stage}
use enterprise_rag.Rag.Service.Reflecting.{reflect_stage}
use enterprise_rag.Rag.Service.Responding.{
  Stages, Guarded, output_stage, response, pipeline_fallback,
}

-- The locals of `answer` before the corrective retrieval.
pub record Gathered : Type 0 where
  pub embedded : Embedded
  pub chunks : List RetrievedChunk
  pub reranked : Reranked

-- `model_copy(update={"cache_hit": True})`
abbrev pub as_hit : ChatResponse → ChatResponse
as_hit found = record found { cache_hit = true }

module _ (s : RagService) where
  -- The evidence as it was found: embedding, retrieval, reranking.
  unfoldable pub gather : Request → Plans → Option Embedding → Action World Gathered
  gather r p original = do
    embedded ← embed_stage s r.question p original
    chunks ← retrieve s p.strategy r.question embedded.query_embedding p.candidate_top_k
    reranked ← rerank_stage s r p chunks
    pure (record { embedded = embedded; chunks = chunks; reranked = reranked })

  abbrev pub staged :
      Request → Gathered → Corrected → Draft → SelfReflectionOutcome → Guarded → Stages
  staged r g corrected draft reflected output = record {
    hyde_outcome = g.embedded.hyde_outcome;
    original_query_embedding = g.embedded.original_query_embedding;
    retrieval_ordered_top_k = take r.top_k g.chunks;
    reranked = g.reranked;
    corrected = corrected;
    draft = draft;
    self_reflection = reflected;
    output = output;
  }

  -- From the draft to the text that is returned.
  unfoldable pub settle_draft : Request → Plans → Gathered → Corrected → Draft → Action World Stages
  settle_draft r p g corrected draft = do
    reflected ← reflect_stage s r.question p corrected.outcome draft
    output ← output_stage s r.question reflected.answer
    pure (staged r g corrected draft reflected output)

  -- From the evidence found to the text that is returned.
  unfoldable pub write_answer : Request → Plans → Gathered → Action World Stages
  write_answer r p g = do
    corrected ← correct_stage s r.question p g.reranked.chunks
    draft ← draft_stage s r.question corrected.outcome
    settle_draft r p g corrected draft

  -- Every stage, in the order of the code, and nothing of the cache.
  unfoldable pub produce : Request → Plans → Option Embedding → Action World Stages
  produce r p original = gather r p original >>= write_answer r p

  abbrev pub record_entry :
      Option SemanticQueryCache
      → Option Embedding
      → Request
      → Plans
      → String
      → Action World (Unit {0})
  record_entry none original r p key = pure tt
  record_entry (some semantic) none r p key = pure tt
  record_entry (some semantic) (some original) r p key =
      record_semantic_cache s semantic original p.cache_namespace r.top_k key

  unfoldable pub persist : Request → Plans → String → Stages → Action World (Unit {0})
  persist r p key st =
      if not (pipeline_fallback st)
      then (do
        written ← set_cached s key (response s p st)
        if written && (config s).semantic_cache_enabled
            then record_entry s.semantic_cache st.original_query_embedding r p key
            else pure tt)
      else pure tt

  unfoldable pub fresh : Request → Plans → String → Option Embedding → Action World ChatResponse
  fresh r p key original = do st ← produce r p original; persist r p key st; pure (response s p st)

  -- The question's embedding, where it was computed, and the answer to a similar question.
  abbrev pub lookup_similar :
      Option SemanticQueryCache
      → Request
      → Plans
      → Action World (Option Embedding × Option ChatResponse)
  lookup_similar none r p = pure (none, none)
  lookup_similar (some semantic) r p = do
    vector ← embed_one s r.question
    hit ←
        check_semantic_cache s semantic vector p.cache_namespace r.top_k
          (config s).semantic_cache_threshold
    pure (some vector, hit)

  unfoldable pub semantic_lookup :
      Request → Plans → Action World (Option Embedding × Option ChatResponse)
  semantic_lookup r p =
      if p.strategy.requires_dense_embedding && (config s).semantic_cache_enabled
      then lookup_similar s.semantic_cache r p
      else pure (none, none)

  abbrev pub or_fresh :
      Request → Plans → String → Option Embedding × Option ChatResponse → Action World ChatResponse
  or_fresh r p key (original, some found) = pure (as_hit found)
  or_fresh r p key (original, none) = fresh r p key original

  abbrev pub or_similar : Request → Plans → String → Option ChatResponse → Action World ChatResponse
  or_similar r p key (some found) = pure (as_hit found)
  or_similar r p key none = semantic_lookup r p >>= or_fresh r p key

  unfoldable pub answer : Request → Action World ChatResponse
  answer r = do
    p ← plan_request s r
    let key = cache_key s r.question r.top_k p.cache_namespace
    cached ← get_cached s key
    or_similar r p key cached
