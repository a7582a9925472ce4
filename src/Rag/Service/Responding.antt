-- ===== src/Rag/Service/Responding.antt =====
-- `RAGService.answer` (app/rag_services/rag_service.py): the output guardrail, the response, and
-- whether it may be cached.
use enterprise_rag.Prelude.{
  ℕ, String, Bool, true, false, not, ◌||◌, Option, none, some, List, [], map, length, str_eq,
  if◌then◌else◌,
}
use enterprise_rag.Errors.{Exception, guardrail_blocked, Action, pure, raise, ◌>>=◌, try_except}
use enterprise_rag.Crag.Types.{
  RetrievedChunk, EvidenceChunk, EvidenceOrigin, policy, regulatory_web,
}
use enterprise_rag.Crag.Corrective.{evidence_as_retrieved}
use enterprise_rag.Reflection.Types.{SelfReflectionOutcome}
use enterprise_rag.Guardrails.Policy.{GuardrailAction, allow, redact, block}
use enterprise_rag.Rag.World.{World, Embedding, on_trail}
use enterprise_rag.Rag.Schemas.{
  RetrievedChunkPreview, EvidencePreview, ResponseMetadata, ChatResponse, no_sql,
}
use enterprise_rag.Rag.Rerank.{ReRankedChunk}
use enterprise_rag.Rag.Hyde.{QueryTransformOutcome}
use enterprise_rag.Rag.Service.{RagService}
use enterprise_rag.Rag.Service.Planning.{Plans, config}
use enterprise_rag.Rag.Service.Retrieving.{Reranked}
use enterprise_rag.Rag.Service.Correcting.{Corrected, Draft}

abbrev pub output_guard_blocked_abstention : String
output_guard_blocked_abstention =
    "I could not produce a response that passed the required safety and grounding checks for this question."

-- The text that is served, and what the output guardrail did to it.
pub record Guarded : Type 0 where
  pub answer : String
  pub action : GuardrailAction
  pub is_blocked : Bool

abbrev pub let_through : String → String → Guarded
let_through answer guarded =
    if not (str_eq guarded answer)
    then record { answer = guarded; action = redact; is_blocked = false }
    else record { answer = answer; action = allow; is_blocked = false }

-- `except GuardrailBlockedError`: any other exception goes on.
abbrev pub on_block : Exception → Action World Guarded
on_block guardrail_blocked =
    pure (record { answer = output_guard_blocked_abstention; action = block; is_blocked = true })
on_block e = raise e

-- The locals of `answer` once every stage has run.
pub record Stages : Type 0 where
  pub hyde_outcome : QueryTransformOutcome
  pub original_query_embedding : Option Embedding
  pub retrieval_ordered_top_k : List RetrievedChunk
  pub reranked : Reranked
  pub corrected : Corrected
  pub draft : Draft
  pub self_reflection : SelfReflectionOutcome
  pub output : Guarded

abbrev pub preview_item : ReRankedChunk → RetrievedChunkPreview
preview_item item = record {
  text = item.chunk.text;
  source = item.chunk.source;
  score = item.chunk.score;
  page_number = item.chunk.page_number;
  rerank_score = item.rerank_score;
  original_rank = some item.original_rank;
}

abbrev pub preview_chunk : RetrievedChunk → RetrievedChunkPreview
preview_chunk chunk = record {
  text = chunk.text;
  source = chunk.source;
  score = chunk.score;
  page_number = chunk.page_number;
  rerank_score = none;
  original_rank = none;
}

unfoldable pub build_chunk_previews :
    List RetrievedChunk → Option (List ReRankedChunk) → List RetrievedChunkPreview
build_chunk_previews chunks none = map preview_chunk chunks
build_chunk_previews chunks (some items) = map preview_item items

unfoldable pub build_evidence_previews : List EvidenceChunk → List EvidencePreview
build_evidence_previews evidence =
    map
      (λ item. record {
        text = item.text;
        source = item.source;
        page_number = item.page_number;
        score = item.retrieval_score;
        origin = item.origin;
        canonical_url = item.canonical_url;
        retrieved_at_iso = item.retrieved_at_iso;
      })
      evidence

abbrev pub identify : EvidenceOrigin → Option String → String → String
identify policy url source = source
identify regulatory_web none source = source
identify regulatory_web (some url) source = url

abbrev pub public_source_identifier : EvidenceChunk → String
public_source_identifier item = identify item.origin item.canonical_url item.source

-- `len(hyde_outcome.retrieval_texts) if hyde_outcome.applied else 0`
abbrev pub hypothesis_count : QueryTransformOutcome → ℕ
hypothesis_count o = if o.applied then length o.retrieval_texts else 0

module _ (s : RagService) where
  unfoldable pub output_stage : String → String → Action World Guarded
  output_stage question answer =
      try_except
        (do
          guarded ← on_trail (s.output_guard question answer (config s).guardrail_mode)
          pure (let_through answer guarded))
        on_block

  abbrev pub metadata : Plans → Stages → List String → ResponseMetadata
  metadata p st flagged = record {
    route = "rag";
    retrieval_mode = p.strategy.name;
    hyde = record {
      enabled = p.hyde_can_run;
      applied = st.hyde_outcome.applied;
      fallback = st.hyde_outcome.fallback;
      backend = st.hyde_outcome.backend;
      hypothesis_count = hypothesis_count st.hyde_outcome;
      usage_tokens = st.hyde_outcome.usage_tokens;
      bypass_reason = st.hyde_outcome.bypass_reason;
    };
    reranking = record {
      enabled = p.reranking_enabled;
      applied = st.reranked.applied;
      fallback = st.reranked.fallback;
      backend = st.reranked.backend;
      candidate_count = st.reranked.candidate_count;
      usage_tokens = st.reranked.usage_tokens;
    };
    crag = record {
      enabled = p.crag_enabled;
      applied = st.corrected.outcome.applied;
      decision = st.corrected.outcome.decision;
      fallback = st.corrected.outcome.fallback;
      abstain = st.corrected.outcome.abstain;
      web_used = st.corrected.outcome.web_used;
      evidence_count = length st.corrected.outcome.evidence;
      usage_tokens = st.corrected.outcome.usage_tokens;
      bypass_reason = st.corrected.outcome.bypass_reason;
    };
    self_reflection = record {
      enabled = p.self_reflective_enabled;
      applied = st.self_reflection.applied;
      accepted = st.self_reflection.accepted;
      final_action = some st.self_reflection.final_action;
      iterations = st.self_reflection.iterations;
      additional_retrievals = st.self_reflection.additional_retrievals;
      fallback = st.self_reflection.fallback;
      abstain = st.self_reflection.abstain;
      support_level = st.self_reflection.support_level;
      answer_relevance = st.self_reflection.answer_relevance;
      citation_completeness = st.self_reflection.citation_completeness;
      utility = st.self_reflection.utility;
      usage_tokens = st.self_reflection.usage_tokens;
      bypass_reason = st.self_reflection.bypass_reason;
    };
    retrieved_chunks = build_chunk_previews st.reranked.chunks st.reranked.items;
    final_evidence = build_evidence_previews st.self_reflection.evidence;
    flagged_claims = flagged;
    sql = no_sql;
    guardrail = record {
      mode = (config s).guardrail_mode;
      input_action = allow;
      context_chunks_dropped = st.corrected.context_chunks_dropped;
      output_action = st.output.action;
      categories_flagged = [];
      policy_version = (config s).guardrail_policy_version;
    };
  }

  -- The scores and the flags are those of the text before the output guardrail.
  unfoldable pub response : Plans → Stages → ChatResponse
  response p st =
      let final_chunks = evidence_as_retrieved st.self_reflection.evidence in
      record {
        status = "completed";
        answer = st.output.answer;
        sources =
            s.functions.sorted_set
              (map (λ item. public_source_identifier item) st.self_reflection.evidence);
        confidence =
            s.functions.confidence final_chunks st.self_reflection.answer p.strategy.name
              st.retrieval_ordered_top_k;
        cache_hit = false;
        metadata =
            metadata p st
              (s.functions.find_unsupported_claims st.self_reflection.answer final_chunks);
        conversation_id = 0;
      }

unfoldable pub pipeline_fallback : Stages → Bool
pipeline_fallback st =
    st.reranked.fallback
    || st.hyde_outcome.fallback
    || st.corrected.outcome.fallback
    || st.corrected.outcome.web_used
    || st.corrected.outcome.abstain
    || st.draft.fabricated
    || st.self_reflection.fallback
    || st.self_reflection.abstain
    || not st.self_reflection.accepted
    || st.output.is_blocked
