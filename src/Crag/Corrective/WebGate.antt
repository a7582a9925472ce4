-- ===== src/Crag/Corrective/WebGate.antt =====
-- When the web is searched, and what an `incorrect` grade leads to.
use enterprise_rag.Prelude.{
  ℕ, ◌+◌, ◌<◌, String, ◌≡◌, refl, Bool, true, false, Option, none, some, is_some, List, [], ◌∷◌,
  length, arith, leb, ◌&&◌, any, ap, ◌∙◌, ◌≤◌, Bool-cases, inl, inr,
}
use enterprise_rag.Prelude.Int.{◌≤ℤ◌}
use enterprise_rag.PyText.{PyText}
use enterprise_rag.Errors.{ok, pure, ◌>>=◌, >>=-eq-ok, of_Ensures}
use enterprise_rag.Crag.Types.{
  RetrievedChunk, incorrect, ChunkGrade, RetrievalGrade, EvidenceChunk, CragOutcome, Calls,
  SourceScopePolicy, WebRetriever, WebQueryFormulator,
}
use enterprise_rag.Crag.Offline.{IsOffline, IsOffline-pure, IsOffline-if, IsOffline-bind}
use enterprise_rag.Crag.Grader.{GradeModel, GraderSettings, supports, grade, structured_grader}
use enterprise_rag.Crag.Grader.Contract.{grade-IsGradeOf, IsGradeOf}
use enterprise_rag.Crag.Refiner.{SelectionModel, RefinerSettings, refine_local, extractive_refiner}
use enterprise_rag.Crag.Refiner.Extraction.{refine_local-nil}
use enterprise_rag.Crag.Corrective.{
  ProductionCorrectiveRetriever, abstained, from_local, corrected, escalate, conclude,
  correct_chunks,
}
use enterprise_rag.Crag.Corrective.Rule.{Rule, conclude_ind}
use enterprise_rag.Crag.Corrective.Outcomes.{correct_chunks-IsSound}

module _ (c : ProductionCorrectiveRetriever) (question : String) (allow_web : Bool) where
  -- The request, the deployment or the scope policy keeps the web closed.
  abbrev pub WebClosed : Type 0
  WebClosed = (allow_web && is_some c.web && c.scope.permits_public_regulatory_web question) ≡ false

  escalate-closed :
      (web : Option WebRetriever) (grade : RetrievalGrade) (local : List EvidenceChunk) (tokens : ℕ)
      → c.web ≡ web
      → WebClosed
      → escalate c web question allow_web grade local tokens
        ≡ pure (abstained c "external_correction_not_permitted" grade local tokens)
  unfolding escalate
  escalate-closed none grade local tokens e closed = refl
  escalate-closed (some web) grade local tokens e closed =
      let denied : (allow_web && c.scope.permits_public_regulatory_web question) ≡ false =
        ground arith in
      rw denied

  -- With the web closed, and a grader and a refiner that do not search it, a correction searches
  -- nothing.
  pub correct_chunks-IsOffline :
      (chunks : List RetrievedChunk)
      → WebClosed
      → IsOffline (c.grader.grade question chunks)
      → ((grade : RetrievalGrade) → IsOffline (c.refiner.refine_local question chunks grade))
      → IsOffline (correct_chunks c question chunks allow_web)
  correct_chunks-IsOffline chunks closed grading refining =
      unfold correct_chunks in
      IsOffline-bind (c.grader.grade question chunks) _ grading λ grade.
        IsOffline-bind (c.refiner.refine_local question chunks grade) _ (refining grade)
          λ refined. concluding grade refined.0 (grade.usage_tokens + refined.1)
    where
      concluding :
          (grade : RetrievalGrade) (local : List EvidenceChunk) (tokens : ℕ)
          → IsOffline (conclude c question allow_web grade local tokens)
      concluding grade local tokens =
          unfold conclude in
          IsOffline-if (leb c.min_evidence (length local)) _ _ (IsOffline-pure _)
            (rw (escalate-closed c.web grade local tokens refl closed) (IsOffline-pure _))

-- The production wiring of app/api/deps.py: the structured grader and the extractive refiner.
module _ (py : PyText) (gm : GradeModel) (gs : GraderSettings) (sm : SelectionModel)
    (rs : RefinerSettings) (scope : SourceScopePolicy) (web : Option WebRetriever)
    (formulator : Option WebQueryFormulator) (min_evidence : ℕ) where
  abbrev pub wired : ProductionCorrectiveRetriever
  wired = record {
    grader = structured_grader gm gs py;
    refiner = extractive_refiner py sm rs;
    scope = scope;
    web = web;
    query_formulator = formulator;
    min_evidence = min_evidence;
  }

  -- What the outcome keeps of the grade and of the local evidence.
  record Keeps (grade : RetrievalGrade) (local : List EvidenceChunk) (o : CragOutcome)
      : Type 0 where
    decision : o.decision ≡ some grade.decision
    local_only : o.web_used ≡ false → o.evidence ≡ local

  keeps :
      (question : String) (allow_web : Bool) (grade : RetrievalGrade) (local : List EvidenceChunk)
      → Rule wired question allow_web (Keeps grade local) grade local
  unfolding from_local abstained corrected
  keeps question allow_web grade local = record {
    on_local = λ tokens enough. ground arith;
    on_abstained = λ reason tokens. ground arith;
    on_corrected = λ web_evidence verification tokens permitted. ground arith;
  }

  must_abstain :
      (o : CragOutcome)
      → o.evidence ≡ []
      → (o.abstain ≡ false → min_evidence ≤ length o.evidence)
      → 0 < min_evidence
      → o.abstain ≡ true
  must_abstain o empty enough positive = elim (Bool-cases o.abstain) [
    | inl yes_it_does ↦ yes_it_does
    | inr answers ↦ absurd (omega (arith, enough answers, ap length empty))
  ]

  supports_mono :
      (items : List ChunkGrade)
      → gs.ambiguous_threshold ≤ℤ rs.min_relevance
      → any (supports gs.ambiguous_threshold) items ≡ false
      → any (supports rs.min_relevance) items ≡ false
  supports_mono [] le h = refl
  supports_mono (item ∷ items) le h = ground (arith, supports_mono items)

  incorrect_local :
      (question : String) (chunks : List RetrievedChunk) (g : RetrievalGrade) (h : Calls)
      (local : List EvidenceChunk) (tokens : ℕ)
      → gs.ambiguous_threshold ≤ℤ rs.min_relevance
      → IsGradeOf gs (length chunks) g
      → g.decision ≡ incorrect
      → (refine_local py sm rs question chunks g h).0 ≡ ok (local, tokens)
      → local ≡ []
  incorrect_local question chunks g h local tokens le graded is_incorrect e =
      let none_fit = supports_mono g.chunks le (graded.incorrect_unsupported is_incorrect) in
      cc (refine_local-nil py sm rs question chunks g h none_fit)

  -- In the production wiring, where the refiner's threshold is the grader's lower one (any larger
  -- one does too) and at least one evidence chunk is required, retrieval that was graded
  -- `incorrect` is never answered from local evidence: unless the web was used the outcome abstains,
  -- with no evidence.
  pub incorrect_abstains :
      (question : String) (chunks : List RetrievedChunk) (allow_web : Bool) (h : Calls)
      (o : CragOutcome)
      → gs.ambiguous_threshold ≤ℤ rs.min_relevance
      → 0 < min_evidence
      → (correct_chunks wired question chunks allow_web h).0 ≡ ok o
      → o.decision ≡ some incorrect
      → o.web_used ≡ false
      → (o.abstain ≡ true) × (o.evidence ≡ [])
  unfolding correct_chunks
  incorrect_abstains question chunks allow_web h o le positive e decided offline =
      let (g, graded, rest) =
        >>=-eq-ok (grade gm gs question chunks)
          (λ g. refine_local py sm rs question chunks g >>= λ refined.
            conclude wired question allow_web g refined.0 (g.usage_tokens + refined.1))
          h e in
      let h1 = (grade gm gs question chunks h).1 in
      let (refined, refining, last) =
        >>=-eq-ok (refine_local py sm rs question chunks g)
          (λ refined. conclude wired question allow_web g refined.0 (g.usage_tokens + refined.1)) h1
          rest in
      let kept =
        of_Ensures (Keeps g refined.0) _ o
          (conclude_ind wired question allow_web (keeps question allow_web g refined.0)
            (g.usage_tokens + refined.1) (refine_local py sm rs question chunks g h1).1)
          last in
      let is_incorrect : g.decision ≡ incorrect = cc (kept.decision, decided) in
      let nothing =
        incorrect_local question chunks g h1 refined.0 refined.1 le
          (grade-IsGradeOf gm gs question chunks h g graded) is_incorrect refining in
      let empty : o.evidence ≡ [] = kept.local_only offline ∙ nothing in
      let sound = correct_chunks-IsSound wired question allow_web chunks h o e in
      (must_abstain o empty sound.enough positive, empty)
