-- ===== src/Rag/Service/Reflecting.antt =====
-- `RAGService.answer` (app/rag_services/rag_service.py): self-reflection on the draft, and what
-- becomes of a reflection that failed.
use enterprise_rag.Prelude.{
  ℕ, String, true, false, not, ◌&&◌, Option, none, some, List, if◌then◌else◌,
}
use enterprise_rag.Errors.{Action, pure, ◌>>=◌, ◌>>◌}
use enterprise_rag.Crag.Types.{EvidenceChunk, CragOutcome, local_evidence}
use enterprise_rag.Reflection.Types.{accept, SelfReflectionOutcome, EvidenceAugmenter}
use enterprise_rag.Reflection.Serving.{ReflectionCohort, shadow, treatment}
use enterprise_rag.Rag.World.{
  World, on_calls, on_reflection, record_metric, self_reflection_outcome, self_reflection_bypass,
  self_reflection_shadow_outcome, self_reflection_attempt,
}
use enterprise_rag.Rag.Service.{RagService, RetrievalStrategy}
use enterprise_rag.Rag.Service.Planning.{Plans}
use enterprise_rag.Rag.Service.Retrieving.{is_counted, text_of, embed_one, retrieve}
use enterprise_rag.Rag.Service.Correcting.{Draft}

abbrev pub self_reflection_fallback_abstention : String
self_reflection_fallback_abstention =
    "An internal error prevented full verification of this answer against approved evidence, and part of the draft could not be confirmed. Please retry your question."

-- The draft as it is, for a reason.
abbrev pub not_reflected : String → List EvidenceChunk → Option String → SelfReflectionOutcome
not_reflected answer evidence reason = record {
  answer = answer;
  evidence = evidence;
  applied = false;
  accepted = true;
  final_action = accept;
  iterations = 0;
  additional_retrievals = 0;
  fallback = false;
  abstain = false;
  bypass_reason = reason;
  support_level = none;
  answer_relevance = none;
  citation_completeness = none;
  utility = none;
  usage_tokens = 0;
}

-- A failed reflection is never served: its answer is replaced by an abstention.
abbrev pub withhold : SelfReflectionOutcome → SelfReflectionOutcome
withhold o =
    if o.fallback
    then record o { answer = self_reflection_fallback_abstention; abstain = true }
    else o

module _ (s : RagService) where
  unfoldable pub retrieve_reflection_evidence :
      RetrievalStrategy → ℕ → String → Action World (List EvidenceChunk)
  retrieve_reflection_evidence strategy top_k query = do
    vector ←
        if strategy.requires_dense_embedding
        then (embed_one s query >>= λ v. pure (some v))
        else pure none
    chunks ← retrieve s strategy query vector top_k
    pure (local_evidence chunks)

  -- `_CallableEvidenceAugmenter` around the closure: the engine's own history says how often it
  -- was used.
  abbrev pub augmenter : Plans → World → EvidenceAugmenter
  augmenter p w = record {
    retrieve = λ query calls.
        (retrieve_reflection_evidence p.strategy s.reflection_retrieval_top_k query
          (record w { reflection = calls })).0;
  }

  abbrev pub run_reflection :
      String → Plans → List EvidenceChunk → String → Action World SelfReflectionOutcome
  run_reflection question p evidence answer w =
      on_reflection
        (s.self_reflection.execute question evidence answer (augmenter p w) p.self_reflection_plan)
        w

  abbrev pub observe_reflection : SelfReflectionOutcome → Action World (Unit {0})
  observe_reflection o =
      on_calls (
        record_metric (
          self_reflection_shadow_outcome o.final_action o.fallback o.iterations
            o.additional_retrievals o.usage_tokens))
      >> on_calls (
          record_metric (
            self_reflection_attempt shadow o.final_action o.fallback o.abstain o.iterations
              o.additional_retrievals o.usage_tokens false))

  abbrev pub report_reflection : SelfReflectionOutcome → Action World (Unit {0})
  report_reflection o =
      on_calls (
        record_metric (
          self_reflection_outcome o.final_action o.fallback o.iterations o.additional_retrievals
            o.usage_tokens))
      >> on_calls (
          record_metric (
            self_reflection_attempt treatment o.final_action o.fallback o.abstain o.iterations
              o.additional_retrievals o.usage_tokens true))

  -- The reason that a stage which did not run reports.
  abbrev pub bypass_reason : Plans → CragOutcome → Draft → Option String
  bypass_reason p crag draft =
      if crag.abstain && p.self_reflective_enabled
      then some "crag_abstained"
      else if draft.fabricated && p.self_reflective_enabled
      then some "initial_answer_fabricated_citation"
      else p.self_reflection_plan.bypass_reason

  abbrev pub bypass_reflection : Plans → CragOutcome → Draft → Action World SelfReflectionOutcome
  bypass_reflection p crag draft = do
    if p.self_reflective_enabled && is_counted p.self_reflection_plan.bypass_reason
        then on_calls
            (record_metric (self_reflection_bypass (text_of p.self_reflection_plan.bypass_reason)))
        else pure tt
    pure (not_reflected draft.answer crag.evidence (bypass_reason p crag draft))

  -- The branches of the stage when there is a draft to reflect on.
  abbrev pub reflect_by_cohort :
      ReflectionCohort → String → Plans → CragOutcome → Draft → Action World SelfReflectionOutcome
  reflect_by_cohort shadow question p crag draft = do
    observed ← run_reflection question p crag.evidence draft.answer
    observe_reflection observed
    pure (not_reflected draft.answer crag.evidence (some "shadow_not_served"))
  reflect_by_cohort treatment question p crag draft = do
    outcome ← run_reflection question p crag.evidence draft.answer
    report_reflection outcome
    pure outcome
  reflect_by_cohort _ question p crag draft = bypass_reflection p crag draft

  unfoldable pub reflect_stage :
      String → Plans → CragOutcome → Draft → Action World SelfReflectionOutcome
  reflect_stage question p crag draft = do
    outcome ←
        if p.self_reflective_enabled && not crag.abstain && not draft.fabricated
        then reflect_by_cohort p.self_reflection_plan.cohort question p crag draft
        else bypass_reflection p crag draft
    pure (withhold outcome)
