-- ===== src/Tests/World.antt =====
-- A concrete outside world for the tests: models that answer from fixed data.
use enterprise_rag.Prelude.{Bool, true, false, none, [], ◌∷◌, refl, inl, arith}
use enterprise_rag.Prelude.Int.{pos}
use enterprise_rag.Prelude.Float.{zero_float, one_float, fraction}
use enterprise_rag.PyText.{PyText}
use enterprise_rag.RuntimeConfig.{RagRuntimeConfig, default_config}
use enterprise_rag.RuntimeConfig.Validity.{IsValid}
use enterprise_rag.Errors.{ok}
use enterprise_rag.Crag.Types.{
  RetrievedChunk, ChunkGrade, EvidenceChunk, EvidenceOrigin, SourceScopePolicy, WebRetriever,
}
use enterprise_rag.Crag.Grader.{GradeModel, GraderSettings}
use enterprise_rag.Crag.Refiner.{SelectionModel, RefinerSettings}

abbrev pub py : PyText
py = record {
  split = λ s. s ∷ [];
  casefold = λ s. s;
  has_control = λ s. false;
  contains = λ needle s. false;
  len = λ s. 12;
  strip = λ s. s;
  split_at_boundaries = λ s. s ∷ [];
  str_of_int = λ n. "n";
  fixed3 = λ x. "x";
  sha256 = λ s. 0 ∷ 0 ∷ 0 ∷ 0 ∷ 0 ∷ 0 ∷ 7 ∷ 208 ∷ [];
}

abbrev pub chunk : RetrievedChunk
chunk = record { text = "Ten days."; source = "leave.pdf"; score = one_float; page_number = none }

abbrev pub evidence_chunk : EvidenceChunk
evidence_chunk = record {
  text = "Ten days.";
  source = "leave.pdf";
  page_number = none;
  retrieval_score = one_float;
  origin = EvidenceOrigin.policy;
  canonical_url = none;
  retrieved_at_iso = none;
}

abbrev pub grade_of : Bool → ChunkGrade
grade_of supporting = record {
  index = 0;
  relevance = one_float;
  supports_question = supporting;
  reason_code = "direct";
}

-- A grader that finds the only chunk supportive, or not.
abbrev pub grade_model : Bool → GradeModel
grade_model supporting = record {
  generate_structured = λ question chunks h.
      ok (record { coverage = zero_float; chunks = grade_of supporting ∷ [] }, 5);
  is_reason_code = λ code. true;
}

abbrev pub grader_settings : GraderSettings
grader_settings = record {
  model = "m";
  prompt_version = "v1";
  correct_threshold = fraction 6305039478318694;
  ambiguous_threshold = fraction 3602879701896397;
  max_chunks = 5;
}

abbrev pub selection_model : SelectionModel
selection_model = record {
  generate_structured = λ question documents h.
      ok (record { document_index = 0; sentence_indices = pos 0 ∷ [] } ∷ [], 3);
}

abbrev pub refiner_settings : RefinerSettings
refiner_settings = record {
  model = "m";
  prompt_version = "v1";
  min_relevance = fraction 3602879701896397;
  max_documents = 3;
  max_sentences = 10;
}

abbrev pub scope : SourceScopePolicy
scope = record { cache_namespace = "scope"; permits_public_regulatory_web = λ question. true }

abbrev pub web : WebRetriever
web = record { cache_namespace = "web"; search = λ question h. (ok [], h) }

-- The defaults with correction and reflection switched on for everyone.
abbrev pub promoted_config : RagRuntimeConfig
promoted_config = record default_config {
  crag_enabled = true;
  crag_rollout_percentage = pos 100;
  self_reflective_enabled = true;
  self_reflective_rollout_percentage = pos 100;
  sql_enabled = true;
}

pub promoted-IsValid : IsValid promoted_config
unfolding fraction zero_float one_float
promoted-IsValid = record {
  reranker_percent = (omega arith, omega arith);
  hyde_percent = (omega arith, omega arith);
  threshold = (omega arith, omega arith);
  corpus = omega arith;
  crag_percent = (omega arith, omega arith);
  web_needs_crag = λ h. refl;
  shadow_needs_crag = λ h. refl;
  reflective_percent = (omega arith, omega arith);
  shadow_needs_reflection = λ h. refl;
  retrieval_needs_reflection = λ h. refl;
  sql_percent = (omega arith, omega arith);
  proposal_only = refl;
  mode = inl refl;
}
