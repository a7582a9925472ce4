-- ===== src/Reflection/Types.antt =====
-- The data and protocols of app/rag_services/reflection/reflection.py. Durations, which only feed
-- telemetry, are left out.
use enterprise_rag.Prelude.{ℕ, suc, String, Bool, Option, List, [], ◌∷◌}
use enterprise_rag.Prelude.Int.{ℤ}
use enterprise_rag.Prelude.Float.{Float}
use enterprise_rag.Errors.{Result, Action}
use enterprise_rag.Crag.Types.{EvidenceChunk}

pub data SupportLevel : Type 0 where
  full partial none_at_all : SupportLevel

pub data ReflectionAction : Type 0 where
  accept revise retrieve_more abstain : ReflectionAction

pub record ReflectionCritique : Type 0 where
  pub retrieval_needed : Bool
  pub retrieval_query : Option String
  pub evidence_relevance : Float
  pub support_level : SupportLevel
  pub answer_relevance : Float
  pub citation_completeness : Float
  pub utility : ℤ
  pub missing_aspects : List String
  pub unsupported_claims : List String
  pub usage_tokens : ℕ

pub record ReflectionBudget : Type 0 where
  pub max_iterations : ℕ
  pub max_additional_retrievals : ℕ
  pub max_total_tokens : ℕ
  pub deadline_monotonic : Float

pub record ReflectionState : Type 0 where
  pub answer : String
  pub evidence : List EvidenceChunk
  pub iteration : ℕ
  pub additional_retrievals : ℕ
  pub total_tokens : ℕ

pub record SelfReflectionOutcome : Type 0 where
  pub answer : String
  pub evidence : List EvidenceChunk
  pub applied : Bool
  pub accepted : Bool
  pub final_action : ReflectionAction
  pub iterations : ℕ
  pub additional_retrievals : ℕ
  pub fallback : Bool
  pub abstain : Bool
  pub bypass_reason : Option String
  pub support_level : Option SupportLevel
  pub answer_relevance : Option Float
  pub citation_completeness : Option Float
  pub utility : Option ℤ
  pub usage_tokens : ℕ

-- What the stage asks of the outside world, newest first.
pub data Call : Type 0 where
  read_clock : Call
  critique_call : Call
  revise_call : Call
  retrieve_call : (query : String) → Call

abbrev pub Calls : Type 0
Calls = List Call

abbrev pub critiques : Calls → ℕ
critiques [] = 0
critiques (critique_call ∷ h) = suc (critiques h)
critiques (read_clock ∷ h) = critiques h
critiques (revise_call ∷ h) = critiques h
critiques (retrieve_call _ ∷ h) = critiques h

abbrev pub revisions : Calls → ℕ
revisions [] = 0
revisions (revise_call ∷ h) = suc (revisions h)
revisions (read_clock ∷ h) = revisions h
revisions (critique_call ∷ h) = revisions h
revisions (retrieve_call _ ∷ h) = revisions h

abbrev pub retrievals : Calls → ℕ
retrievals [] = 0
retrievals (retrieve_call _ ∷ h) = suc (retrievals h)
retrievals (read_clock ∷ h) = retrievals h
retrievals (critique_call ∷ h) = retrievals h
retrievals (revise_call ∷ h) = retrievals h

-- The protocols. A collaborator's answer may depend on every call made before it, so the same
-- question may be answered differently each time.
pub record ReflectionCritic : Type 0 where
  pub cache_namespace : String
  pub critique : String → List EvidenceChunk → String → Float → Calls → Result ReflectionCritique

pub record ReflectionDecisionPolicy : Type 0 where
  pub cache_namespace : String
  pub decide :
      ReflectionCritique → ReflectionState → ReflectionBudget → List String → ReflectionAction

pub record GroundedAnswerReviser : Type 0 where
  pub cache_namespace : String
  pub revise :
      String
      → List EvidenceChunk
      → String
      → ReflectionCritique
      → Float
      → Calls
      → Result (String × ℕ)

pub record EvidenceAugmenter : Type 0 where
  pub retrieve : String → Calls → Result (List EvidenceChunk)

pub record SelfReflectionEngine : Type 0 where
  pub cache_namespace : String
  pub reflect :
      String
      → List EvidenceChunk
      → String
      → EvidenceAugmenter
      → Bool
      → Action Calls SelfReflectionOutcome
