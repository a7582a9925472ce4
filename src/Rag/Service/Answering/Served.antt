-- ===== src/Rag/Service/Answering/Served.antt =====
-- What `RAGService.answer` (app/rag_services/rag_service.py) may serve once every stage has run.
use enterprise_rag.Prelude.{String, ◌≡◌, true, false, ◌⊎◌, List, [], ◌≢◌, if◌then◌else◌}
use enterprise_rag.Errors.{ok}
use enterprise_rag.Crag.Types.{
  CragCohort, shadow, RetrievedChunk, EvidenceChunk, CragOutcome, local_evidence,
}
use enterprise_rag.Guardrails.Audit.{Trail}
use enterprise_rag.Reflection.Types.{SelfReflectionOutcome}
use enterprise_rag.Reflection.Serving.{ReflectionCohort}
use enterprise_rag.Rag.World.{Calls, World}
use enterprise_rag.Rag.Service.{RagService, Request}
use enterprise_rag.Rag.Service.Planning.{Plans, config}
use enterprise_rag.Rag.Service.Correcting.{
  Corrected, Draft, web_abstention, internal_abstention,
  initial_answer_fabricated_citation_abstention, generate, user_message,
}
use enterprise_rag.Rag.Service.Reflecting.{self_reflection_fallback_abstention}
use enterprise_rag.Rag.Service.Responding.{Stages, Guarded, output_guard_blocked_abstention}
use enterprise_rag.Rag.Service.Answering.Yields.{Yields}

module _ (s : RagService) (r : Request) (p : Plans) where
  -- The evidence that goes on is what the context guardrail kept of the evidence found; where the
  -- correction was only observed, that is the retrieved chunks as they were, without a trace of it.
  pub record IsCorrected (chunks : List RetrievedChunk) (c : Corrected) : Type 0 where
    pub found : CragOutcome
    pub trail : Trail
    pub filtered :
        (s.context_guard found.evidence (config s).guardrail_mode trail).0 ≡ ok c.outcome.evidence
    pub otherwise_same : c.outcome ≡ record found { evidence = c.outcome.evidence }
    pub unobserved :
        p.crag_plan.cohort ≡ shadow
        → (found.evidence ≡ local_evidence chunks)
          × (found.applied ≡ false)
          × (found.web_used ≡ false)
          × (found.abstain ≡ false)
          × (found.fallback ≡ false)

  -- A draft is the model's only where there was evidence to draft from and it cites nothing else.
  pub record IsDraft (outcome : CragOutcome) (d : Draft) : Type 0 where
    pub abstained :
        outcome.abstain ≡ true
        → d ≡ record {
          answer = if outcome.web_used then web_abstention else internal_abstention;
          fabricated = false;
        }
    pub drafted :
        outcome.abstain ≡ false
        → (text : String) × (calls : Calls) × (s.generate
              (user_message s r.question outcome.evidence)
              calls
            ≡ ok text)
          × (((s.functions.find_fabricated_citations text outcome.evidence ≡ [])
                × (d ≡ record { answer = text; fabricated = false }))
              ⊎ ((s.functions.find_fabricated_citations text outcome.evidence ≢ [])
                  × (d ≡ record {
                    answer = initial_answer_fabricated_citation_abstention;
                    fabricated = true;
                  })))

  -- What reflection hands on.
  pub record IsReflected (outcome : CragOutcome) (d : Draft) (o : SelfReflectionOutcome)
      : Type 0 where
    pub withheld :
        o.fallback ≡ true → (o.answer ≡ self_reflection_fallback_abstention) × (o.abstain ≡ true)
    pub drafted :
        (outcome.abstain ≡ true)
          ⊎ ((d.fabricated ≡ true)
              ⊎ ((p.self_reflective_enabled ≡ false)
                  ⊎ (p.self_reflection_plan.cohort ≡ ReflectionCohort.shadow)))
        → (o.answer ≡ d.answer) × (o.evidence ≡ outcome.evidence)

  -- What the output guardrail lets through.
  pub record IsGuarded (text : String) (g : Guarded) : Type 0 where
    pub stopped : g.is_blocked ≡ true → g.answer ≡ output_guard_blocked_abstention
    pub passed :
        g.is_blocked ≡ false
        → (w : World) × ((s.output_guard r.question text (config s).guardrail_mode w.trail).0
            ≡ ok g.answer)

  -- The model's text, and the history that it was asked with.
  abbrev IsGenerated : CragOutcome → String → Type 0
  IsGenerated outcome text =
      (calls : Calls) × (s.generate (user_message s r.question outcome.evidence) calls ≡ ok text)

  -- Of the outcome of the corrective stage, when the plan was only to observe.
  abbrev IsUnobserved : List RetrievedChunk → CragCohort → CragOutcome → Type 0
  IsUnobserved chunks cohort o =
      cohort ≡ shadow
      → (o.evidence ≡ local_evidence chunks)
        × (o.applied ≡ false)
        × (o.web_used ≡ false)
        × (o.abstain ≡ false)
        × (o.fallback ≡ false)

  abbrev IsKept : CragOutcome → List EvidenceChunk → Type 0
  IsKept o kept =
      (trail : Trail) × ((s.context_guard o.evidence (config s).guardrail_mode trail).0 ≡ ok kept)

  -- Of the outcome of the reflection stage before a failed one is withheld.
  abbrev IsHandedOn : CragOutcome → Draft → SelfReflectionOutcome → Type 0
  IsHandedOn outcome d o =
      (outcome.abstain ≡ true)
        ⊎ ((d.fabricated ≡ true)
            ⊎ ((p.self_reflective_enabled ≡ false)
                ⊎ (p.self_reflection_plan.cohort ≡ ReflectionCohort.shadow)))
      → (o.answer ≡ d.answer) × (o.evidence ≡ outcome.evidence) × (o.fallback ≡ false)

  -- What is known of the stages that a fresh answer comes from.
  abbrev pub IsServed : Stages → Type 0
  IsServed st =
      IsCorrected st.reranked.chunks st.corrected
      × IsDraft st.corrected.outcome st.draft
      × IsReflected st.corrected.outcome st.draft st.self_reflection
      × IsGuarded st.self_reflection.answer st.output
