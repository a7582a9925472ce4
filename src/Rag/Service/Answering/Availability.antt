-- ===== src/Rag/Service/Answering/Availability.antt =====
-- When `RAGService.answer` (app/rag_services/rag_service.py) returns an answer.
use enterprise_rag.Prelude.{
  ℕ, String, ◌≡◌, refl, true, Option, none, some, is_some, ◌⊎◌, List, [], ◌∷◌, inl, inr,
  if◌then◌else◌,
}
use enterprise_rag.Errors.{
  Exception, guardrail_blocked, ok, raised, Returns, Result-cases, Action, pure, lift, ◌>>=◌,
  try_except, Ensures, Ensures-bind,
}
use enterprise_rag.QueryCache.{Store, rag_answer, namespaced_key, get}
use enterprise_rag.Crag.Types.{
  CragCohort, disabled, control, shadow, treatment, RetrievedChunk, EvidenceChunk, CragOutcome,
}
use enterprise_rag.Reflection.Types.{EvidenceAugmenter}
use enterprise_rag.Reflection.Serving.{ReflectionCohort}
use enterprise_rag.Prelude.Float.{Float}
use enterprise_rag.Guardrails.Audit.{Trail}
use enterprise_rag.Rag.World.{Calls, retrieve_call, Embedding, World, ask, on_cache}
use enterprise_rag.Rag.Schemas.{ChatResponse}
use enterprise_rag.Rag.Hyde.{QueryTransformOutcome, is_treatment}
use enterprise_rag.Rag.Service.{RagService, SemanticQueryCache, Request}
use enterprise_rag.Rag.Service.Planning.{Plans, config, plan_request}
use enterprise_rag.Rag.Service.Caching.{
  parse_cached, get_cached, or_next, first_live, check_semantic_cache,
}
use enterprise_rag.Rag.Service.Retrieving.{
  Embedded, expand, skip_expansion, embed_one, question_embedding, search_vector, embed_stage,
  retrieve, rerank_stage,
}
use enterprise_rag.Rag.Service.Correcting.{
  Corrected, Draft, correct_by_cohort, correct_stage, draft_stage, generate,
}
use enterprise_rag.Rag.Service.Reflecting.{
  run_reflection, reflect_by_cohort, reflect_stage, augmenter,
}
use enterprise_rag.Rag.Service.Responding.{Stages, output_stage}
use enterprise_rag.Rag.Service.Answering.{
  Gathered, as_hit, gather, settle_draft, write_answer, produce, persist, fresh, lookup_similar,
  semantic_lookup, or_fresh, or_similar, answer,
}
use enterprise_rag.Rag.Service.Answering.Hygiene.{persist_returns, planned_eq, key_of}
use enterprise_rag.Rag.Service.Answering.Answers.{
  Answers, pure-Answers, lift-Answers, try-Answers, bind-Answers, on_calls-Answers, ask-Answers,
  if-Ensures, bind-Answers-Ensures, answering,
}

-- What the service needs of the models, the retrieval and the guardrails to answer. Nothing is asked
-- of the cache, or of the semantic cache, but that what they hold can be parsed.
module _ (s : RagService) (r : Request) (p : Plans)
    (embeds : (text : String) (calls : Calls)
      → (v : Embedding) × (vs : List Embedding) × (s.embed_texts (text ∷ []) calls ≡ ok (v ∷ vs)))
    (retrieves : (query : String) (v : Option Embedding) (k : ℕ) (calls : Calls)
      → (p.strategy.requires_dense_embedding ≡ true → is_some v ≡ true)
      → Returns (p.strategy.retrieve query v k calls))
    (generates : (message : String) (calls : Calls) → Returns (s.generate message calls))
    (parses : (key raw : String) (store : Store)
      → (s.cache.backend.get (namespaced_key rag_answer key) store).0 ≡ ok (some raw)
      → Returns (s.functions.validate_json raw))
    (guards : (evidence : List EvidenceChunk) (mode : String)
      → Answers (s.context_guard evidence mode))
    (blocks_only : (question answer mode : String) (trail : Trail) (x : Exception)
      → (s.output_guard question answer mode trail).0 ≡ raised x
      → x ≡ guardrail_blocked)
    (expands : (question : String) → Answers (s.query_transformer.execute question p.hyde_plan))
    (reranks : (chunks : List RetrievedChunk)
      → Answers (s.reranker.execute p.rerank_plan r.question chunks r.top_k))
    (corrects : (chunks : List RetrievedChunk)
      → Answers (s.corrective_retriever.execute r.question chunks p.crag_plan))
    (reflects : (evidence : List EvidenceChunk) (draft : String) (more : EvidenceAugmenter)
      → Answers
          (s.self_reflection.execute r.question evidence draft more p.self_reflection_plan)) where
  embed_one-Answers : (text : String) → Answers (embed_one s text)
  unfolding Answers
  embed_one-Answers text w = let (v, vs, e) = embeds text w.calls in rw e (v, refl)

  question_embedding-Answers :
      (original : Option Embedding) → Answers (question_embedding s r.question original)
  question_embedding-Answers none = embed_one-Answers r.question
  question_embedding-Answers (some v) = pure-Answers World v

  search_vector-Answers :
      (original : Option Embedding) (out : QueryTransformOutcome × Option Embedding)
      → Answers (search_vector s r.question original out)
  search_vector-Answers original (o, some v) = search (answering)
  search_vector-Answers original (o, none) = search (answering, question_embedding-Answers)

  embed_stage-Answers :
      (original : Option Embedding) → Answers (embed_stage s r.question p original)
  unfolding embed_stage
  embed_stage-Answers original = search (answering, search_vector-Answers, expands) depth 20

  -- Where the strategy searches with a vector, there is one.
  abbrev HasVector : Embedded → Type 0
  HasVector e = p.strategy.requires_dense_embedding ≡ true → is_some e.query_embedding ≡ true

  search_vector-Ensures :
      (original : Option Embedding) (out : QueryTransformOutcome × Option Embedding) (w : World)
      → Ensures HasVector (search_vector s r.question original out w).0
  search_vector-Ensures original (o, some v) w = λ e. refl
  search_vector-Ensures original (o, none) w =
      Ensures-bind HasVector (question_embedding s r.question original)
        (λ vector. pure (record {
          hyde_outcome = o;
          query_embedding = some vector;
          original_query_embedding = some vector;
        }))
        (λ vector h e. refl) w

  embed_stage-Ensures :
      (original : Option Embedding) (w : World)
      → Ensures HasVector (embed_stage s r.question p original w).0
  unfolding embed_stage
  embed_stage-Ensures original w =
      if-Ensures HasVector p.strategy.requires_dense_embedding _ _ w
        (λ dense.
          Ensures-bind HasVector
            (if is_treatment p.hyde_plan.cohort
              then expand s r.question p
              else skip_expansion s r.question p)
            (search_vector s r.question original) (λ out h. search_vector-Ensures original out h) w)
        (λ sparse e. cc)

  retrieve-Answers :
      (v : Option Embedding) (k : ℕ)
      → (p.strategy.requires_dense_embedding ≡ true → is_some v ≡ true)
      → Answers (retrieve s p.strategy r.question v k)
  retrieve-Answers v k given =
      on_calls-Answers (ask (retrieve_call r.question k) (p.strategy.retrieve r.question v k)) (
        ask-Answers (retrieve_call r.question k) (p.strategy.retrieve r.question v k)
          (λ calls. retrieves r.question v k calls given))

  rerank_stage-Answers : (chunks : List RetrievedChunk) → Answers (rerank_stage s r p chunks)
  unfolding rerank_stage
  rerank_stage-Answers chunks = search (answering, reranks) depth 10

  correct_by_cohort-Answers :
      (c : CragCohort) (chunks : List RetrievedChunk)
      → Answers (correct_by_cohort s c r.question p chunks)
  correct_by_cohort-Answers shadow chunks = search (answering, corrects)
  correct_by_cohort-Answers treatment chunks = search (answering, corrects)
  correct_by_cohort-Answers control chunks = search (answering, corrects)
  correct_by_cohort-Answers disabled chunks = search (answering, corrects)

  correct_stage-Answers :
      (chunks : List RetrievedChunk) → Answers (correct_stage s r.question p chunks)
  unfolding correct_stage
  correct_stage-Answers chunks = search (answering, correct_by_cohort-Answers, guards) depth 10

  generate-Answers : (message : String) → Answers (generate s message)
  generate-Answers message = search (answering, generates)

  draft_stage-Answers : (outcome : CragOutcome) → Answers (draft_stage s r.question outcome)
  unfolding draft_stage
  draft_stage-Answers outcome = search (answering, generate-Answers)

  run_reflection-Answers :
      (evidence : List EvidenceChunk) (draft : String)
      → Answers (run_reflection s r.question p evidence draft)
  unfolding Answers
  run_reflection-Answers evidence draft w = reflects evidence draft (augmenter s p w) w.reflection

  reflect_by_cohort-Answers :
      (c : ReflectionCohort) (outcome : CragOutcome) (draft : Draft)
      → Answers (reflect_by_cohort s c r.question p outcome draft)
  reflect_by_cohort-Answers ReflectionCohort.shadow outcome draft =
      search (answering, run_reflection-Answers)
  reflect_by_cohort-Answers ReflectionCohort.treatment outcome draft =
      search (answering, run_reflection-Answers)
  reflect_by_cohort-Answers ReflectionCohort.control outcome draft = search (answering)
  reflect_by_cohort-Answers ReflectionCohort.disabled outcome draft = search (answering)

  reflect_stage-Answers :
      (outcome : CragOutcome) (draft : Draft) → Answers (reflect_stage s r.question p outcome draft)
  unfolding reflect_stage
  reflect_stage-Answers outcome draft = search (answering, reflect_by_cohort-Answers) depth 10

  output_stage-Answers : (text : String) → Answers (output_stage s r.question text)
  unfolding output_stage Answers
  output_stage-Answers text w =
      elim (Result-cases (s.output_guard r.question text (config s).guardrail_mode w.trail).0) [
        | inl (out, e) ↦ rw e (_, refl)
        | inr (x, e) ↦
            rw (e, blocks_only r.question text (config s).guardrail_mode w.trail x e) (_, refl)
      ]

  gather-Answers : (original : Option Embedding) → Answers (gather s r p original)
  unfolding gather
  gather-Answers original =
      bind-Answers-Ensures HasVector (embed_stage s r.question p original)
        (λ embedded.
          retrieve s p.strategy r.question embedded.query_embedding p.candidate_top_k >>= λ chunks.
          rerank_stage s r p chunks >>= λ reranked.
          pure (record { embedded = embedded; chunks = chunks; reranked = reranked }))
        (embed_stage-Answers original) (embed_stage-Ensures original)
        (λ embedded given.
          bind-Answers (retrieve s p.strategy r.question embedded.query_embedding p.candidate_top_k)
            (λ chunks. rerank_stage s r p chunks >>= λ reranked.
              pure (record { embedded = embedded; chunks = chunks; reranked = reranked }))
            (retrieve-Answers embedded.query_embedding p.candidate_top_k given)
            (λ chunks. search (answering, rerank_stage-Answers) depth 10))

  settle_draft-Answers :
      (g : Gathered) (c : Corrected) (d : Draft) → Answers (settle_draft s r p g c d)
  unfolding settle_draft
  settle_draft-Answers g c d =
      search (answering, reflect_stage-Answers, output_stage-Answers) depth 12

  write_answer-Answers : (g : Gathered) → Answers (write_answer s r p g)
  unfolding write_answer
  write_answer-Answers g =
      search (answering, correct_stage-Answers, draft_stage-Answers, settle_draft-Answers) depth 12

  produce-Answers : (original : Option Embedding) → Answers (produce s r p original)
  unfolding produce
  produce-Answers original = search (answering, gather-Answers, write_answer-Answers)

  -- The cache holds the text under the key.
  abbrev IsHeld : String → Option String → Type 0
  IsHeld key raw =
      (raw ≡ none)
      ⊎ ((text : String) × (store : Store) × (raw ≡ some text)
          × ((s.cache.backend.get (namespaced_key rag_answer key) store).0 ≡ ok (some text)))

  read-Ensures :
      (key : String) (w : World)
      → Ensures
          (IsHeld key)
          (try_except (on_cache (get s.cache rag_answer key)) (λ e. pure none) w).0
  unfolding get
  read-Ensures key w =
      elim (Result-cases (s.cache.backend.get (namespaced_key rag_answer key) w.cache.store).0) [
        | inl (none, e) ↦ rw e (inl refl)
        | inl (some text, e) ↦ rw e (inr (text, w.cache.store, refl, e))
        | inr (x, e) ↦ rw e (inl refl)
      ]

  parse_cached-Returns :
      (key : String) (raw : Option String) → IsHeld key raw → Returns (parse_cached s raw)
  parse_cached-Returns key none held = (none, refl)
  parse_cached-Returns key (some raw) (inl nothing) = cc
  parse_cached-Returns key (some raw) (inr (text, store, same, held)) =
      let q : raw ≡ text = cc in
      let (x, e) = parses key text store held in rw (q, parse_cached, e) (some x, refl)

  get_cached-Answers : (key : String) → Answers (get_cached s key)
  unfolding get_cached
  get_cached-Answers key =
      bind-Answers-Ensures (IsHeld key)
        (try_except (on_cache (get s.cache rag_answer key)) (λ e. pure none))
        (λ raw. lift (parse_cached s raw))
        (try-Answers (on_cache (get s.cache rag_answer key)) (λ e. pure none)
          (λ e. pure-Answers World none))
        (read-Ensures key)
        (λ raw held. lift-Answers World (parse_cached s raw) (parse_cached-Returns key raw held))

  or_next-Answers :
      (semantic : SemanticQueryCache) (next : Action World (Option ChatResponse))
      (found : Option ChatResponse)
      → Answers next
      → Answers (or_next s semantic next found)
  or_next-Answers semantic next none k = k
  or_next-Answers semantic next (some x) k = pure-Answers World (some x)

  first_live-Answers :
      (semantic : SemanticQueryCache) (keys : List String) → Answers (first_live s semantic keys)
  unfolding first_live
  first_live-Answers semantic [] = pure-Answers World none
  first_live-Answers semantic (key ∷ keys) =
      bind-Answers (get_cached s key) (or_next s semantic (first_live s semantic keys))
        (get_cached-Answers key)
        (λ found.
          or_next-Answers semantic (first_live s semantic keys) found
            (first_live-Answers semantic keys))

  check_semantic_cache-Answers :
      (semantic : SemanticQueryCache) (v : Embedding) (namespace : String) (top_k : ℕ) (t : Float)
      → Answers (check_semantic_cache s semantic v namespace top_k t)
  unfolding check_semantic_cache
  check_semantic_cache-Answers semantic v namespace top_k t =
      search (answering, first_live-Answers) depth 10

  lookup_similar-Answers :
      (semantic : Option SemanticQueryCache) → Answers (lookup_similar s semantic r p)
  lookup_similar-Answers none = pure-Answers World (none, none)
  lookup_similar-Answers (some semantic) =
      search (answering, embed_one-Answers, check_semantic_cache-Answers) depth 10

  semantic_lookup-Answers : Answers (semantic_lookup s r p)
  unfolding semantic_lookup
  semantic_lookup-Answers = search (answering, lookup_similar-Answers)

  persist-Answers : (key : String) (st : Stages) → Answers (persist s r p key st)
  unfolding Answers
  persist-Answers key st w = (tt, persist_returns s r p key st w)

  fresh-Answers : (key : String) (original : Option Embedding) → Answers (fresh s r p key original)
  unfolding fresh
  fresh-Answers key original = search (answering, produce-Answers, persist-Answers) depth 10

  or_fresh-Answers :
      (key : String) (found : Option Embedding × Option ChatResponse)
      → Answers (or_fresh s r p key found)
  or_fresh-Answers key (original, some hit) = pure-Answers World (as_hit hit)
  or_fresh-Answers key (original, none) = fresh-Answers key original

  or_similar-Answers :
      (key : String) (cached : Option ChatResponse) → Answers (or_similar s r p key cached)
  or_similar-Answers key (some hit) = pure-Answers World (as_hit hit)
  or_similar-Answers key none = search (answering, semantic_lookup-Answers, or_fresh-Answers)

  -- A request that has a plan is answered.
  pub answer_total : (w : World) → (plan_request s r w).0 ≡ ok p → Returns (answer s r w).0
  unfolding answer Answers
  answer_total w planned = rw (planned_eq s r w w (ok p) planned) (
      bind-Answers (get_cached s (key_of s r p)) (or_similar s r p (key_of s r p))
        (get_cached-Answers (key_of s r p)) (or_similar-Answers (key_of s r p)) w)
