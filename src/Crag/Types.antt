-- ===== src/Crag/Types.antt =====
-- app/models/retrieved_chunk.py, and the data and protocols of app/rag_services/crag/crag.py.
-- Durations, which only feed telemetry, are left out.
use enterprise_rag.Prelude.{ℕ, suc, String, Bool, Option, none, List, [], ◌∷◌, map}
use enterprise_rag.Prelude.Int.{ℤ}
use enterprise_rag.Prelude.Float.{Float}
use enterprise_rag.Errors.{Action}

pub record RetrievedChunk : Type 0 where
  pub text : String
  pub source : String
  pub score : Float
  pub page_number : Option ℤ

pub data CragDecision : Type 0 where
  correct ambiguous incorrect : CragDecision

pub data EvidenceOrigin : Type 0 where
  policy regulatory_web : EvidenceOrigin

pub record ChunkGrade : Type 0 where
  pub index : ℕ
  pub relevance : Float
  pub supports_question : Bool
  pub reason_code : String

pub record RetrievalGrade : Type 0 where
  pub decision : CragDecision
  pub coverage : Float
  pub chunks : List ChunkGrade
  pub usage_tokens : ℕ

pub record EvidenceChunk : Type 0 where
  pub text : String
  pub source : String
  pub page_number : Option ℤ
  pub retrieval_score : Float
  pub origin : EvidenceOrigin
  pub canonical_url : Option String
  pub retrieved_at_iso : Option String

pub record WebEvidence : Type 0 where
  pub title : String
  pub text : String
  pub canonical_url : String
  pub domain : String
  pub retrieved_at_iso : String
  pub score : Float

pub record CragOutcome : Type 0 where
  pub evidence : List EvidenceChunk
  pub decision : Option CragDecision
  pub applied : Bool
  pub fallback : Bool
  pub abstain : Bool
  pub web_used : Bool
  pub bypass_reason : Option String
  pub usage_tokens : ℕ

-- What a request asks of the outside world, newest first.
pub data Call : Type 0 where
  grade_call : Call
  select_call : Call
  formulate_call : Call
  search_call : (query : String) → Call

abbrev pub Calls : Type 0
Calls = List Call

-- How often the web was searched.
abbrev pub searches : Calls → ℕ
searches [] = 0
searches (search_call _ ∷ h) = suc (searches h)
searches (grade_call ∷ h) = searches h
searches (select_call ∷ h) = searches h
searches (formulate_call ∷ h) = searches h

-- How often the grading model was called.
abbrev pub grade_calls : Calls → ℕ
grade_calls [] = 0
grade_calls (search_call _ ∷ h) = grade_calls h
grade_calls (grade_call ∷ h) = suc (grade_calls h)
grade_calls (select_call ∷ h) = grade_calls h
grade_calls (formulate_call ∷ h) = grade_calls h

-- The protocols. A collaborator's answer may depend on every call made before it.
pub record RetrievalGrader : Type 0 where
  pub cache_namespace : String
  pub grade : String → List RetrievedChunk → Action Calls RetrievalGrade

pub record KnowledgeRefiner : Type 0 where
  pub cache_namespace : String
  pub refine_local :
      String → List RetrievedChunk → RetrievalGrade → Action Calls (List EvidenceChunk × ℕ)
  pub refine_web : String → List WebEvidence → Action Calls (List EvidenceChunk × ℕ)

pub record SourceScopePolicy : Type 0 where
  pub cache_namespace : String
  pub permits_public_regulatory_web : String → Bool

pub record WebRetriever : Type 0 where
  pub cache_namespace : String
  pub search : String → Action Calls (List WebEvidence)

pub record WebQueryFormulator : Type 0 where
  pub cache_namespace : String
  pub formulate : String → Action Calls (String × ℕ)

pub record CorrectiveRetriever : Type 0 where
  pub cache_namespace : String
  pub correct : String → List RetrievedChunk → Bool → Action Calls CragOutcome

pub data CragCohort : Type 0 where
  disabled control shadow treatment : CragCohort

pub record CragPlan : Type 0 where
  pub cohort : CragCohort
  pub bypass_reason : Option String
  pub allow_web : Bool
  pub cache_namespace : String

unfoldable pub local_evidence : List RetrievedChunk → List EvidenceChunk
local_evidence chunks =
    map
      (λ chunk. record {
        text = chunk.text;
        source = chunk.source;
        page_number = chunk.page_number;
        retrieval_score = chunk.score;
        origin = EvidenceOrigin.policy;
        canonical_url = none;
        retrieved_at_iso = none;
      })
      chunks
