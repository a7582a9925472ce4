-- ===== src/Crag/Corrective.antt =====
-- app/rag_services/crag/corrective_retriever.py: local evidence first, the web only where it is
-- allowed, and abstention where neither is enough.
mod Rule
pub mod Outcomes
pub mod WebGate
use Prim.Native.String.{◌++◌}
use enterprise_rag.Prelude.{
  ℕ, ◌+◌, String, Bool, true, false, not, ◌&&◌, Option, none, some, List, [], ◌++◌ as append, map,
  length, is_empty, leb, str_eq, if◌then◌else◌,
}
use enterprise_rag.PyText.{PyText}
use enterprise_rag.Errors.{Action, pure, ◌>>=◌}
use enterprise_rag.Crag.Types.{
  RetrievedChunk, CragDecision, correct, RetrievalGrade, EvidenceChunk, CragOutcome, Calls,
  RetrievalGrader, KnowledgeRefiner, SourceScopePolicy, WebRetriever, WebQueryFormulator,
  CorrectiveRetriever,
}

pub record ProductionCorrectiveRetriever : Type 0 where
  pub grader : RetrievalGrader
  pub refiner : KnowledgeRefiner
  pub scope : SourceScopePolicy
  pub web : Option WebRetriever
  pub query_formulator : Option WebQueryFormulator
  pub min_evidence : ℕ

-- `item.canonical_url or item.source`: an empty address counts as none.
or_source : Option String → String → String
or_source none source = source
or_source (some url) source = if str_eq url "" then source else url

unfoldable pub evidence_as_retrieved : List EvidenceChunk → List RetrievedChunk
unfolding or_source
evidence_as_retrieved evidence =
    map
      (λ item. record {
        text = item.text;
        source = or_source item.canonical_url item.source;
        score = item.retrieval_score;
        page_number = item.page_number;
      })
      evidence

is_correct : CragDecision → Bool
is_correct CragDecision.correct = true
is_correct CragDecision.ambiguous = false
is_correct CragDecision.incorrect = false

module _ (c : ProductionCorrectiveRetriever) where
  web_namespace : String
  web_namespace = elim c.web [ none ↦ "none" | some w ↦ w.cache_namespace ]

  formulator_namespace : String
  formulator_namespace = elim c.query_formulator [ none ↦ "none" | some f ↦ f.cache_namespace ]

  pub corrective_namespace : PyText → String
  unfolding web_namespace formulator_namespace
  corrective_namespace py =
      "crag:v1:"
      ++ c.grader.cache_namespace
      ++ ":"
      ++ c.refiner.cache_namespace
      ++ ":"
      ++ c.scope.cache_namespace
      ++ ":web="
      ++ web_namespace
      ++ ":query_formulator="
      ++ formulator_namespace
      ++ ":min_evidence="
      ++ py.str_of_int c.min_evidence

  -- The search query, and the tokens that finding it took.
  formulate : Option WebQueryFormulator → String → Action Calls (String × ℕ)
  formulate none question = pure (question, 0)
  formulate (some f) question = f.formulate question

  -- The local evidence is enough.
  pub from_local : RetrievalGrade → List EvidenceChunk → ℕ → CragOutcome
  from_local grade local tokens = record {
    evidence = local;
    decision = some grade.decision;
    applied = true;
    fallback = false;
    abstain = false;
    web_used = false;
    bypass_reason = none;
    usage_tokens = tokens;
  }

  -- The local evidence is not enough, and nothing may be or was added to it.
  pub abstained : String → RetrievalGrade → List EvidenceChunk → ℕ → CragOutcome
  abstained reason grade local tokens = record {
    evidence = local;
    decision = some grade.decision;
    applied = true;
    fallback = false;
    abstain = true;
    web_used = false;
    bypass_reason = some reason;
    usage_tokens = tokens;
  }

  -- Web evidence was added, and the whole was graded again.
  pub corrected : RetrievalGrade → List EvidenceChunk → RetrievalGrade → ℕ → CragOutcome
  unfolding is_correct
  corrected grade combined verification tokens =
      let sufficient = is_correct verification.decision && leb c.min_evidence (length combined) in
      record {
        evidence = combined;
        decision = some grade.decision;
        applied = true;
        fallback = false;
        abstain = not sufficient;
        web_used = true;
        bypass_reason = if sufficient then none else some "corrected_evidence_insufficient";
        usage_tokens = tokens;
      }

  verify :
      String
      → RetrievalGrade
      → List EvidenceChunk
      → List EvidenceChunk
      → ℕ
      → Action Calls CragOutcome
  unfolding abstained corrected
  verify question grade local web_evidence tokens =
      if is_empty web_evidence
      then pure (abstained "web_correction_empty" grade local tokens)
      else (let combined = append local web_evidence in
          do
            verification ← c.grader.grade question (evidence_as_retrieved combined)
            pure (corrected grade combined verification (tokens + verification.usage_tokens)))

  correct_on_web :
      WebRetriever → String → RetrievalGrade → List EvidenceChunk → ℕ → Action Calls CragOutcome
  unfolding formulate verify
  correct_on_web web question grade local tokens = do
    formulated ← formulate c.query_formulator question
    results ← web.search formulated.0
    refined ← c.refiner.refine_web question results
    verify question grade local refined.0 (tokens + formulated.1 + refined.1)

  -- What follows when the local evidence is not enough.
  escalate :
      Option WebRetriever
      → String
      → Bool
      → RetrievalGrade
      → List EvidenceChunk
      → ℕ
      → Action Calls CragOutcome
  unfolding correct_on_web abstained
  escalate none question allow_web grade local tokens =
      pure (abstained "external_correction_not_permitted" grade local tokens)
  escalate (some web) question allow_web grade local tokens =
      if allow_web && c.scope.permits_public_regulatory_web question
      then correct_on_web web question grade local tokens
      else pure (abstained "external_correction_not_permitted" grade local tokens)

  pub conclude : String → Bool → RetrievalGrade → List EvidenceChunk → ℕ → Action Calls CragOutcome
  unfolding from_local escalate
  conclude question allow_web grade local tokens =
      if leb c.min_evidence (length local)
      then pure (from_local grade local tokens)
      else escalate c.web question allow_web grade local tokens

  unfoldable pub correct_chunks : String → List RetrievedChunk → Bool → Action Calls CragOutcome
  unfolding conclude
  correct_chunks question chunks allow_web = do
    grade ← c.grader.grade question chunks
    refined ← c.refiner.refine_local question chunks grade
    conclude question allow_web grade refined.0 (grade.usage_tokens + refined.1)

  abbrev pub corrective_retriever : PyText → CorrectiveRetriever
  corrective_retriever py = record {
    cache_namespace = corrective_namespace py;
    correct = correct_chunks;
  }
