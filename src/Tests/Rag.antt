-- ===== src/Tests/Rag.antt =====
-- The answering service at concrete inputs.
use enterprise_rag.Prelude.{
  ◌⊎◌, ◌↔◌, str_eq, String, ◌≡◌, ◌≢◌, refl, true, false, Option, none, some, List, ℕ, [], ◌∷◌,
  arith,
}
use enterprise_rag.Prelude.Float.{zero_float, one_float}
use enterprise_rag.Errors.{
  Result, ok, raised, other, hybrid_retrieval_disabled, value_error, pure, raise,
}
use enterprise_rag.RuntimeConfig.{RagRuntimeConfig, default_config, RerankerBackendName, local}
use enterprise_rag.Crag.Types.{RetrievedChunk, CragCohort}
use enterprise_rag.Crag.Plan.{noop_plan, noop_execute}
use enterprise_rag.Reflection.Serving.{disabled_plan, noop_reflection_plan, noop_reflection_execute}
use enterprise_rag.Guardrails.Policy.{allow}
use enterprise_rag.QueryCache.{QueryCacheService, rag_answer, start, get, set}
use enterprise_rag.Rag.World.{World, Embedding, hypothesize_call}
use enterprise_rag.Rag.Schemas.{ChatResponse}
use enterprise_rag.Rag.Rerank as rerank
use enterprise_rag.Rag.Rerank.{
  ReRanker, ReRankOutcome, DynamicReranker, dynamic_rerank_plan, dynamic_rerank_execute,
}
use enterprise_rag.Rag.Rerank.Bounds.{IsRetrievalOrder, IsServedBy, dynamic_rerank_execute_total}
use enterprise_rag.Rag.Hyde.Hypotheses.{
  HydeSettings, IsApplied, hypothesized, squeeze, transform, transform-IsApplied, hyde_run,
}
use enterprise_rag.Rag.Service.Caching.Misses.{get_cached_raises_iff}
use enterprise_rag.PyText.{PyText}
use enterprise_rag.Rollout.{sampled_in}
use enterprise_rag.Rag.Hyde as hyde
use enterprise_rag.Rag.Hyde.{QueryTransformer, QueryTransformOutcome}
use enterprise_rag.Rag.Hyde.Fusion.{FloatOps}
use enterprise_rag.Rag.Service.{
  RetrievalStrategy, Functions, RagService, Request, new_service, has_strategy, mem_mode,
}
use enterprise_rag.Rag.Service.Planning.{
  Plans, mode_of, resolve, resolve_total, plan_request, cache_key,
}
use enterprise_rag.Rag.Service.Caching.{get_cached, set_cached}
use enterprise_rag.Rag.Service.Retrieving.{embed_stage, rerank_stage}
use enterprise_rag.Rag.Service.Correcting.{correct_stage, draft_stage}
use enterprise_rag.Rag.Service.Reflecting.{not_reflected, reflect_stage}
use enterprise_rag.Rag.Service.Responding.{Stages, output_stage, response, pipeline_fallback}
use enterprise_rag.Rag.Service.Answering.Hygiene.{answers_stored, IsStored, key_of, answer-IsStored}
use enterprise_rag.Rag.Service.Answering.Replay.{ReadsBack, AsksNothing, answer-replay}
use enterprise_rag.Rag.Service.Answering.{
  as_hit, answer, semantic_lookup, fresh, produce, persist, gather, write_answer, settle_draft,
}
use enterprise_rag.Rag.Service.Answering.Production.{ProductionParts}
use enterprise_rag.Tests.World.{py, chunk, evidence_chunk, promoted_config}
use enterprise_rag.Tests.Cache.{memory_cache, memory_backend-Remembers}

abbrev floats : FloatOps
floats = record {
  add = λ a b. a;
  multiply = λ a b. a;
  divide = λ a b. a;
  sqrt = λ a. one_float;
  of_ℕ = λ n. one_float;
  is_finite = λ a. true;
  min_norm = zero_float;
}

abbrev functions : (String → Result ChatResponse) → Functions
functions parse = record {
  py = py;
  hexdigest = λ text. "key";
  dump = λ response. "stored";
  validate_json = parse;
  metadata_json = λ n item. "{}";
  sorted_set = λ names. names;
  floats = floats;
  confidence = λ evidence text mode chunks. one_float;
  find_unsupported_claims = λ text evidence. [];
  find_fabricated_citations = λ text evidence. [];
}

-- A search that finds one chunk, but not without a vector.
abbrev search_dense : Option Embedding → Result (List RetrievedChunk)
search_dense none = raised (other "AssertionError")
search_dense (some vector) = ok (chunk ∷ [])

abbrev dense : RetrievalStrategy
dense = record {
  name = "dense";
  cache_namespace = "dense:v1";
  requires_dense_embedding = true;
  retrieve = λ query vector top_k calls. search_dense vector;
}

abbrev question : Request
question = record {
  question = "How many days of leave?";
  top_k = 5;
  retrieval_mode = none;
  reranking_enabled = none;
  hyde_enabled = none;
  crag_enabled = none;
  self_reflective_enabled = none;
}

-- A service whose optional stages are the defaults of the constructor.
abbrev plain : (String → Result ChatResponse) → RagRuntimeConfig → QueryCacheService → RagService
plain parse config cache = record {
  embed_texts = λ texts calls. ok ((one_float ∷ []) ∷ []);
  retrieval_strategies = ("dense", dense) ∷ [];
  generate = λ message calls. ok "Ten days.";
  cache = cache;
  default_retrieval_mode = "dense";
  allowed_retrieval_modes = "dense" ∷ [];
  reranker = rerank.planned_noop;
  reranker_initial_top_k = 20;
  semantic_cache = none;
  query_transformer = hyde.planned_noop;
  corrective_retriever = record { plan = noop_plan; execute = noop_execute };
  self_reflection = record { plan = noop_reflection_plan; execute = noop_reflection_execute };
  reflection_retrieval_top_k = 5;
  context_guard = λ evidence mode. pure evidence;
  output_guard = λ asked text mode. pure text;
  config_store = record { current = config };
  functions = functions parse;
}

abbrev quiet : World
quiet = record { calls = []; cache = start; crag = []; reflection = []; trail = [] }

abbrev unreadable : String → Result ChatResponse
unreadable raw = raised value_error

abbrev sample : RagService
sample = plain unreadable default_config memory_cache

-- Parts of which every one raises.
abbrev broken_parts : ProductionParts
broken_parts = record {
  reranker = record {
    local_reranker = record {
      name = "local";
      cache_namespace = "local";
      rerank = λ query chunks top_k. raise (other "ReadTimeout");
    };
    voyage_reranker = none;
  };
  transformer = record {
    name = "hyde";
    cache_namespace = "hyde";
    transform = λ query. raise (other "ReadTimeout");
  };
  corrector = record {
    cache_namespace = "crag";
    correct = λ asked chunks allow. raise (other "ReadTimeout");
  };
  engine = record {
    cache_namespace = "reflection";
    reflect = λ asked evidence draft more allow. raise (other "ReadTimeout");
  };
}

abbrev broken_cache : QueryCacheService
broken_cache = record {
  backend = record {
    get = λ key. raise (other "ConnectionError");
    set = λ key value ttl. raise (other "ConnectionError");
    delete_prefix = λ prefix. raise (other "ConnectionError");
  };
  ttl_for = λ tier. 60;
}

abbrev sample_plans : Plans
sample_plans = record {
  strategy = dense;
  reranking_enabled = false;
  rerank_plan = rerank.bypassed rerank.disabled "disabled";
  candidate_top_k = 5;
  hyde_can_run = false;
  hyde_plan = hyde.hyde_bypass hyde.disabled "disabled";
  crag_enabled = false;
  crag_plan = record {
    cohort = CragCohort.disabled;
    bypass_reason = some "disabled";
    allow_web = false;
    cache_namespace = "crag:none:reason=disabled";
  };
  self_reflective_enabled = false;
  self_reflection_plan = disabled_plan;
  cache_namespace = "dense:v1:corpus=n";
}

abbrev sample_stages : Stages
sample_stages = record {
  hyde_outcome = hyde.noop_transform "disabled" question.question;
  original_query_embedding = some (one_float ∷ []);
  retrieval_ordered_top_k = chunk ∷ [];
  reranked = record {
    chunks = chunk ∷ [];
    items = none;
    applied = false;
    fallback = false;
    candidate_count = 0;
    backend = "none";
    usage_tokens = none;
  };
  corrected = record {
    outcome = record {
      evidence = evidence_chunk ∷ [];
      decision = none;
      applied = false;
      fallback = false;
      abstain = false;
      web_used = false;
      bypass_reason = some "disabled";
      usage_tokens = 0;
    };
    context_chunks_dropped = 0;
  };
  draft = record { answer = "Ten days."; fabricated = false };
  self_reflection = not_reflected "Ten days." (evidence_chunk ∷ []) (some "disabled");
  output = record { answer = "Ten days."; action = allow; is_blocked = false };
}

abbrev stored_answer : ChatResponse
stored_answer = response sample sample_plans sample_stages

-- A service that reads back from its cache what it answers without one.
abbrev remembering : RagService
remembering = plain (λ raw. (answer sample question quiet).0) default_config memory_cache

-- The service after its first answer, with every other history forgotten.
abbrev later : World
later = record quiet { cache = (answer remembering question quiet).1.cache }

first_answer_stored : answers_stored (answer remembering question quiet).1 ≢ 0
unfolding answer plan_request resolve cache_key get_cached set_cached semantic_lookup fresh produce
    persist gather write_answer settle_draft embed_stage rerank_stage correct_stage draft_stage
    reflect_stage output_stage response pipeline_fallback get set noop_execute noop_plan
    noop_reflection_execute noop_reflection_plan
first_answer_stored e = omega arith

first_answer_ReadsBack : ReadsBack remembering (answer remembering question quiet).0
unfolding answer plan_request resolve cache_key get_cached set_cached semantic_lookup fresh produce
    persist gather write_answer settle_draft embed_stage rerank_stage correct_stage draft_stage
    reflect_stage output_stage response pipeline_fallback get set noop_execute noop_plan
    noop_reflection_execute noop_reflection_plan
first_answer_ReadsBack x e = e

answer-replay_example :
    (served : ChatResponse) × ((answer remembering question quiet).0 ≡ ok served)
    × ((answer remembering question later).0 ≡ ok (as_hit served))
    × AsksNothing later (answer remembering question later).1
answer-replay_example =
    answer-replay remembering memory_backend-Remembers question quiet later first_answer_stored refl
      first_answer_ReadsBack

answer-IsStored_example :
    (answers_stored (answer remembering question quiet).1 ≡ answers_stored quiet)
    ⊎ ((p : Plans) × ((plan_request remembering question quiet).0 ≡ ok p)
        × (served : ChatResponse) × ((answer remembering question quiet).0 ≡ ok served)
        × IsStored remembering question p
            (key_of remembering question p)
            (answers_stored quiet)
            served
            (answer remembering question quiet).1.cache)
answer-IsStored_example = answer-IsStored remembering question quiet

-- A service whose cache holds what cannot be read, and whose every optional part raises.
abbrev production_base : RagService
production_base = plain (λ raw. ok stored_answer) promoted_config broken_cache

dynamic_rerank_execute_total_example :
    (out : ReRankOutcome) × ((dynamic_rerank_execute broken_parts.reranker
        (rerank.treatment_plan broken_parts.reranker local
          (ok broken_parts.reranker.local_reranker))
        "leave"
        (chunk ∷ [])
        5
        []).0
      ≡ ok out)
    × (((rerank.is_treatment rerank.treatment ≡ false) × IsRetrievalOrder (chunk ∷ []) 5 out)
        ⊎ ((backend : RerankerBackendName) × (◌≡◌ {A = Option RerankerBackendName}
              (some local)
              (some backend))
            × IsServedBy broken_parts.reranker backend "leave" (chunk ∷ []) 5 [] out))
unfolding dynamic_rerank_plan sampled_in
dynamic_rerank_execute_total_example =
    dynamic_rerank_execute_total broken_parts.reranker py "leave" promoted_config true
      (rerank.treatment_plan broken_parts.reranker local (ok broken_parts.reranker.local_reranker))
      (chunk ∷ []) 5 [] refl (λ e. omega arith)

-- A service with a strategy that is registered and not allowed.
abbrev restricted_parts : RagService
restricted_parts = record sample {
  retrieval_strategies = ("dense", dense) ∷ ("hybrid", dense) ∷ [];
}

resolve_total_example :
    ((strategy : RetrievalStrategy) × (resolve restricted_parts (some "hybrid") ≡ ok strategy))
    ⊎ ((resolve restricted_parts (some "hybrid") ≡ raised hybrid_retrieval_disabled)
        × (has_strategy
              (mode_of restricted_parts (some "hybrid"))
              restricted_parts.retrieval_strategies
            ≡ true)
        × (mem_mode
              (mode_of restricted_parts (some "hybrid"))
              restricted_parts.allowed_retrieval_modes
            ≡ false))
unfolding new_service
resolve_total_example =
    resolve_total (some ("dense" ∷ [])) restricted_parts restricted_parts (some "hybrid") refl

-- A cache entry that is no answer.
abbrev garbled_cache : QueryCacheService
garbled_cache = record {
  backend = record {
    get = λ key. pure (some "not an answer");
    set = λ key value ttl. pure tt;
    delete_prefix = λ prefix. pure 0;
  };
  ttl_for = λ tier. 60;
}

get_cached_raises_iff_example :
    ((get_cached (plain unreadable default_config garbled_cache) "key" quiet).0
      ≡ raised value_error)
    ↔ ((raw : String) × ((get garbled_cache rag_answer "key" quiet.cache).0 ≡ ok (some raw))
        × (unreadable raw ≡ raised value_error))
get_cached_raises_iff_example =
    get_cached_raises_iff (plain unreadable default_config garbled_cache) "key" quiet value_error

abbrev hyde_settings : HydeSettings
hyde_settings = record {
  model = "m";
  num_hypotheses = 1;
  prompt_version = "v1";
  temperature_text = "0.7";
  max_tokens_text = "800";
  generate = λ query calls. ok ("Staff may take ten days of paid leave each year." ∷ [], 40);
}

-- Texts long enough to be hypotheses.
abbrev long_py : PyText
long_py = record py { len = λ text. 48 }

abbrev expansion : QueryTransformOutcome
expansion =
    hypothesized long_py hyde_settings ("Staff may take ten days of paid leave each year." ∷ []) 40

transform-IsApplied_example :
    (answered : List String) × (tokens : ℕ) × (hyde_settings.generate (squeeze long_py "leave") []
      ≡ ok (answered, tokens))
    × IsApplied long_py hyde_settings answered expansion
    × (str_eq (squeeze long_py "leave") "" ≡ false)
    × ((transform long_py hyde_settings "leave" []).1
        ≡ hypothesize_call (squeeze long_py "leave") ∷ [])
unfolding hyde_run
transform-IsApplied_example = transform-IsApplied long_py hyde_settings "leave" [] expansion refl
