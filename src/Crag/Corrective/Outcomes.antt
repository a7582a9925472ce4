-- ===== src/Crag/Corrective/Outcomes.antt =====
-- The outcomes of a correction.
use enterprise_rag.Prelude.{◌+◌, ◌≤◌, String, ◌≡◌, Bool, true, false, is_some, List, length, arith}
use enterprise_rag.Errors.{ok, Ensures-bind, of_Ensures}
use enterprise_rag.Crag.Types.{RetrievedChunk, RetrievalGrade, EvidenceChunk, CragOutcome, Calls}
use enterprise_rag.Crag.Corrective.{
  ProductionCorrectiveRetriever, from_local, abstained, corrected, correct_chunks,
}
use enterprise_rag.Crag.Corrective.Rule.{Rule, Permitted, conclude_ind}

module _ (c : ProductionCorrectiveRetriever) (question : String) (allow_web : Bool) where
  -- What an outcome promises to the stages that read it.
  pub record IsSound (o : CragOutcome) : Type 0 where
    pub applied : o.applied ≡ true
    pub no_fallback : o.fallback ≡ false
    pub enough : o.abstain ≡ false → c.min_evidence ≤ length o.evidence
    pub explained : o.abstain ≡ is_some o.bypass_reason
    pub web_permitted : o.web_used ≡ true → Permitted c question allow_web

  sound :
      (grade : RetrievalGrade) (local : List EvidenceChunk)
      → Rule c question allow_web IsSound grade local
  unfolding from_local abstained corrected
  sound grade local = record {
    on_local = λ tokens enough. ground arith;
    on_abstained = λ reason tokens. ground arith;
    on_corrected = λ web_evidence verification tokens permitted. ground arith;
  }

  -- Every outcome of a correction that returns is sound: it was applied and is no fallback; if it
  -- does not abstain it holds at least the required number of evidence chunks; it abstains exactly
  -- when it names a reason; and it used the web only if the request allowed it, a web retriever is
  -- configured and the scope policy permits the question.
  pub correct_chunks-IsSound :
      (chunks : List RetrievedChunk) (h : Calls) (o : CragOutcome)
      → (correct_chunks c question chunks allow_web h).0 ≡ ok o
      → IsSound o
  unfolding correct_chunks
  correct_chunks-IsSound chunks h o e =
      of_Ensures IsSound (correct_chunks c question chunks allow_web h).0 o
        (Ensures-bind IsSound (c.grader.grade question chunks) _
          (λ grade.
            Ensures-bind IsSound (c.refiner.refine_local question chunks grade) _ λ refined h'.
              conclude_ind c question allow_web (sound grade refined.0)
                (grade.usage_tokens + refined.1) h')
          h)
        e
