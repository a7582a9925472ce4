-- ===== src/Crag/Corrective/Rule.antt =====
-- A proof rule for what `correct_chunks` returns: a property that holds of its three kinds of
-- outcome holds of every outcome.
use enterprise_rag.Prelude.{
  ℕ, ◌+◌, String, ◌≡◌, refl, Bool, true, Option, none, some, is_some, List, ◌++◌ as append, length,
  arith, leb, Bool-cases, inl, inr, ◌&&◌, is_empty,
}
use enterprise_rag.Errors.{Ensures, Ensures-bind}
use enterprise_rag.Crag.Types.{RetrievalGrade, EvidenceChunk, CragOutcome, Calls, WebRetriever}
use enterprise_rag.Crag.Corrective.{
  ProductionCorrectiveRetriever, from_local, abstained, corrected, formulate, verify,
  correct_on_web, escalate, conclude, evidence_as_retrieved,
}

module _ (c : ProductionCorrectiveRetriever) (question : String) (allow_web : Bool) where
  -- The request, the deployment and the scope policy all open the web.
  abbrev pub Permitted : Type 0
  Permitted =
      (allow_web ≡ true)
      × (is_some c.web ≡ true)
      × (c.scope.permits_public_regulatory_web question ≡ true)

  pub record Rule (P : CragOutcome → Type 0) (grade : RetrievalGrade) (local : List EvidenceChunk)
      : Type 0 where
    pub on_local :
        (tokens : ℕ)
        → leb c.min_evidence (length local) ≡ true
        → P (from_local c grade local tokens)
    pub on_abstained : (reason : String) (tokens : ℕ) → P (abstained c reason grade local tokens)
    pub on_corrected :
        (web_evidence : List EvidenceChunk) (verification : RetrievalGrade) (tokens : ℕ)
        → Permitted
        → P (corrected c grade (append local web_evidence) verification tokens)

  module _ {P : CragOutcome → Type 0} {grade : RetrievalGrade} {local : List EvidenceChunk}
      (rule : Rule P grade local) where
    verify_ind :
        (web_evidence : List EvidenceChunk) (tokens : ℕ) (h : Calls)
        → Permitted
        → Ensures P (verify c question grade local web_evidence tokens h).0
    unfolding verify
    verify_ind web_evidence tokens h permitted = elim (Bool-cases (is_empty web_evidence)) [
      | inl nothing ↦ rw nothing (rule.on_abstained "web_correction_empty" tokens)
      | inr something ↦ rw something (
          Ensures-bind P
            (c.grader.grade question (evidence_as_retrieved (append local web_evidence))) _
            (λ v _. rule.on_corrected web_evidence v (tokens + v.usage_tokens) permitted) h)
    ]

    correct_on_web_ind :
        (web : WebRetriever) (tokens : ℕ) (h : Calls)
        → Permitted
        → Ensures P (correct_on_web c web question grade local tokens h).0
    unfolding correct_on_web
    correct_on_web_ind web tokens h permitted =
        Ensures-bind P (formulate c c.query_formulator question) _
          (λ formulated. Ensures-bind P (web.search formulated.0) _ λ results.
            Ensures-bind P (c.refiner.refine_web question results) _
              λ refined h'. verify_ind refined.0 (tokens + formulated.1 + refined.1) h' permitted)
          h

    escalate_ind :
        (web : Option WebRetriever) (tokens : ℕ) (h : Calls)
        → c.web ≡ web
        → Ensures P (escalate c web question allow_web grade local tokens h).0
    unfolding escalate
    escalate_ind none tokens h e = rule.on_abstained "external_correction_not_permitted" tokens
    escalate_ind (some web) tokens h e =
        elim (Bool-cases (allow_web && c.scope.permits_public_regulatory_web question)) [
          | inl permitted ↦
              rw permitted (correct_on_web_ind web tokens h (ground arith, rw e, ground arith))
          | inr denied ↦ rw denied (rule.on_abstained "external_correction_not_permitted" tokens)
        ]

    pub conclude_ind :
        (tokens : ℕ) (h : Calls) → Ensures P (conclude c question allow_web grade local tokens h).0
    unfolding conclude
    conclude_ind tokens h = elim (Bool-cases (leb c.min_evidence (length local))) [
      | inl enough ↦ rw enough (rule.on_local tokens enough)
      | inr short ↦ rw short (escalate_ind c.web tokens h refl)
    ]
