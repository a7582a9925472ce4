-- ===== src/Rag/Service/Correcting.antt =====
-- `RAGService.answer` (app/rag_services/rag_service.py): the corrective retrieval, the context
-- guardrail, and the draft of the answer.
use Prim.Native.String.{◌++◌}
use enterprise_rag.Prelude.{
  ℕ, suc, ◌-◌, String, Bool, true, false, not, none, some, List, [], ◌∷◌, length, is_empty,
  if◌then◌else◌,
}
use enterprise_rag.PyText.{join}
use enterprise_rag.Errors.{Action, pure, ◌>>=◌, ◌>>◌}
use enterprise_rag.Crag.Types.{
  RetrievedChunk, EvidenceChunk, CragOutcome, CragCohort, shadow, treatment, local_evidence,
}
use enterprise_rag.Rag.World.{
  World, on_calls, on_crag, on_trail, ask, record_metric, generate_call, crag_outcome, crag_bypass,
  crag_shadow_decision, crag_attempt,
}
use enterprise_rag.Rag.Service.{RagService}
use enterprise_rag.Rag.Service.Planning.{Plans, config}
use enterprise_rag.Rag.Service.Retrieving.{is_counted, text_of}

abbrev pub initial_answer_fabricated_citation_abstention : String
initial_answer_fabricated_citation_abstention =
    "The supplied approved evidence is insufficient to produce a fully cited answer to this question."

abbrev pub web_abstention : String
web_abstention =
    "The available approved internal and regulatory evidence is insufficient to determine this point."

abbrev pub internal_abstention : String
internal_abstention =
    "The supplied approved internal evidence is insufficient to determine this point. No external evidence was used."

-- What is served of a correction that was only observed.
abbrev pub shadow_not_served : List RetrievedChunk → CragOutcome
shadow_not_served chunks = record {
  evidence = local_evidence chunks;
  decision = none;
  applied = false;
  fallback = false;
  abstain = false;
  web_used = false;
  bypass_reason = some "shadow_not_served";
  usage_tokens = 0;
}

-- The evidence that reaches the answer, and how many items the guard dropped.
pub record Corrected : Type 0 where
  pub outcome : CragOutcome
  pub context_chunks_dropped : ℕ

-- The draft, and whether it cites what was never supplied.
pub record Draft : Type 0 where
  pub answer : String
  pub fabricated : Bool

module _ (s : RagService) where
  abbrev pub run_crag : String → Plans → List RetrievedChunk → Action World CragOutcome
  run_crag question p chunks = on_crag (s.corrective_retriever.execute question chunks p.crag_plan)

  abbrev pub observe_crag : CragOutcome → Action World (Unit {0})
  observe_crag o =
      on_calls (
        record_metric (
          crag_shadow_decision o.decision o.fallback o.abstain o.web_used (length o.evidence)
            o.usage_tokens))
      >> on_calls (
          record_metric
            (crag_attempt shadow o.decision o.fallback o.abstain o.web_used o.usage_tokens false))

  abbrev pub report_crag : CragOutcome → Action World (Unit {0})
  report_crag o =
      on_calls
        (record_metric (crag_outcome o.decision o.fallback o.abstain o.web_used o.usage_tokens))
      >> on_calls (
          record_metric
            (crag_attempt treatment o.decision o.fallback o.abstain o.web_used o.usage_tokens true))

  abbrev pub bypass_crag : Plans → Action World (Unit {0})
  bypass_crag p =
      if is_counted p.crag_plan.bypass_reason
      then on_calls (record_metric (crag_bypass (text_of p.crag_plan.bypass_reason)))
      else pure tt

  -- The branches of the stage, by cohort.
  abbrev pub correct_by_cohort :
      CragCohort → String → Plans → List RetrievedChunk → Action World CragOutcome
  correct_by_cohort shadow question p chunks = do
    observed ← run_crag question p chunks
    observe_crag observed
    pure (shadow_not_served chunks)
  correct_by_cohort treatment question p chunks = do
    outcome ← run_crag question p chunks
    report_crag outcome
    pure outcome
  correct_by_cohort _ question p chunks = do
    outcome ← run_crag question p chunks
    bypass_crag p
    pure outcome

  abbrev pub guarded : CragOutcome → List EvidenceChunk → Corrected
  guarded outcome kept = record {
    outcome = record outcome { evidence = kept };
    context_chunks_dropped = length outcome.evidence - length kept;
  }

  unfoldable pub correct_stage : String → Plans → List RetrievedChunk → Action World Corrected
  correct_stage question p chunks = do
    outcome ← correct_by_cohort p.crag_plan.cohort question p chunks
    kept ← on_trail (s.context_guard outcome.evidence (config s).guardrail_mode)
    pure (guarded outcome kept)

  abbrev pub evidence_blocks : ℕ → List EvidenceChunk → List String
  evidence_blocks index [] = []
  evidence_blocks index (item ∷ items) =
      ("<evidence metadata=" ++ s.functions.metadata_json index item ++ ">")
      ∷ item.text
      ∷ "</evidence>"
      ∷ evidence_blocks (suc index) items

  abbrev pub build_evidence_context : List EvidenceChunk → String
  build_evidence_context evidence =
      if is_empty evidence
      then "No relevant context was found."
      else join "\n" (evidence_blocks 1 evidence)

  abbrev pub user_message : String → List EvidenceChunk → String
  user_message question evidence = build_evidence_context evidence ++ "\n\nQuestion: " ++ question

  abbrev pub generate : String → Action World String
  generate message = on_calls (ask (generate_call message) (s.generate message))

  abbrev pub checked : List EvidenceChunk → String → Draft
  checked evidence answer =
      if not (is_empty (s.functions.find_fabricated_citations answer evidence))
      then record { answer = initial_answer_fabricated_citation_abstention; fabricated = true }
      else record { answer = answer; fabricated = false }

  unfoldable pub draft_stage : String → CragOutcome → Action World Draft
  draft_stage question outcome =
      if outcome.abstain
      then pure (record {
        answer = if outcome.web_used then web_abstention else internal_abstention;
        fabricated = false;
      })
      else (do
        answer ← generate (user_message question outcome.evidence)
        pure (checked outcome.evidence answer))
