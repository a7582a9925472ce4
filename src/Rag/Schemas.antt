-- ===== src/Rag/Schemas.antt =====
-- The answer that a caller of `/chat` receives: app/schemas/chat.py. Durations are left out, and a
-- time is a number of ticks.
use enterprise_rag.Prelude.{ℕ, String, Bool, false, Option, none, List, []}
use enterprise_rag.Prelude.Int.{ℤ}
use enterprise_rag.Prelude.Float.{Float}
use enterprise_rag.Crag.Types.{CragDecision, EvidenceOrigin}
use enterprise_rag.Reflection.Types.{SupportLevel, ReflectionAction}
use enterprise_rag.Guardrails.Policy.{GuardrailAction, GuardrailCategory}

pub record RetrievedChunkPreview : Type 0 where
  pub text : String
  pub source : String
  pub score : Float
  pub page_number : Option ℤ
  pub rerank_score : Option Float
  pub original_rank : Option ℕ

pub record EvidencePreview : Type 0 where
  pub text : String
  pub source : String
  pub page_number : Option ℤ
  pub score : Float
  pub origin : EvidenceOrigin
  pub canonical_url : Option String
  pub retrieved_at_iso : Option String

pub record RerankingMetadata : Type 0 where
  pub enabled : Bool
  pub applied : Bool
  pub fallback : Bool
  pub backend : String
  pub candidate_count : ℕ
  pub usage_tokens : Option ℕ

pub record HydeMetadata : Type 0 where
  pub enabled : Bool
  pub applied : Bool
  pub fallback : Bool
  pub backend : String
  pub hypothesis_count : ℕ
  pub usage_tokens : ℕ
  pub bypass_reason : Option String

pub record CragMetadata : Type 0 where
  pub enabled : Bool
  pub applied : Bool
  pub decision : Option CragDecision
  pub fallback : Bool
  pub abstain : Bool
  pub web_used : Bool
  pub evidence_count : ℕ
  pub usage_tokens : ℕ
  pub bypass_reason : Option String

pub record SelfReflectionMetadata : Type 0 where
  pub enabled : Bool
  pub applied : Bool
  pub accepted : Bool
  pub final_action : Option ReflectionAction
  pub iterations : ℕ
  pub additional_retrievals : ℕ
  pub fallback : Bool
  pub abstain : Bool
  pub support_level : Option SupportLevel
  pub answer_relevance : Option Float
  pub citation_completeness : Option Float
  pub utility : Option ℤ
  pub usage_tokens : ℕ
  pub bypass_reason : Option String

pub record SqlMetadata : Type 0 where
  pub enabled : Bool
  pub proposal_id : Option String
  pub proposal_status : Option String
  pub normalized_sql : Option String
  pub referenced_tables : List String
  pub expires_at : Option ℕ
  pub row_count : Option ℕ
  pub truncated : Bool
  pub execution_ms : Option Float
  pub catalog_version : Option ℕ
  pub policy_version : Option String
  pub reason_code : Option String

-- `SQLMetadata(enabled=False)`
abbrev pub no_sql : SqlMetadata
no_sql = record {
  enabled = false;
  proposal_id = none;
  proposal_status = none;
  normalized_sql = none;
  referenced_tables = [];
  expires_at = none;
  row_count = none;
  truncated = false;
  execution_ms = none;
  catalog_version = none;
  policy_version = none;
  reason_code = none;
}

pub record GuardrailMetadata : Type 0 where
  pub mode : String
  pub input_action : GuardrailAction
  pub context_chunks_dropped : ℕ
  pub output_action : GuardrailAction
  pub categories_flagged : List GuardrailCategory
  pub policy_version : String

pub record ResponseMetadata : Type 0 where
  pub route : String
  pub retrieval_mode : String
  pub hyde : HydeMetadata
  pub reranking : RerankingMetadata
  pub crag : CragMetadata
  pub self_reflection : SelfReflectionMetadata
  pub retrieved_chunks : List RetrievedChunkPreview
  pub final_evidence : List EvidencePreview
  pub flagged_claims : List String
  pub sql : SqlMetadata
  pub guardrail : GuardrailMetadata

pub record ChatResponse : Type 0 where
  pub status : String
  pub answer : String
  pub sources : List String
  pub confidence : Float
  pub cache_hit : Bool
  pub metadata : ResponseMetadata
  pub conversation_id : ℕ
