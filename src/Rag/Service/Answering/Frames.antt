-- ===== src/Rag/Service/Answering/Frames.antt =====
-- Producing an answer (app/rag_services/rag_service.py) does not touch the cache: only the lookups
-- before it and the write after it do.
use enterprise_rag.Prelude.{
  String, ◌≡◌, refl, ap, ◌∙◌, Bool, true, false, Option, none, some, List, if◌then◌else◌,
}
use enterprise_rag.Errors.{
  Exception, guardrail_blocked, Result, ok, raised, Action, pure, raise, lift, and_then, ◌>>=◌,
  caught, try_except,
}
use enterprise_rag.Crag.Types.{
  CragCohort, disabled, control, shadow, treatment, RetrievedChunk, EvidenceChunk, CragOutcome,
  Calls as CragCalls,
}
use enterprise_rag.QueryCache.{CacheState}
use enterprise_rag.Rag.World.{Calls, Embedding, World, on_calls, on_crag, on_trail}
use enterprise_rag.Guardrails.Audit.{Trail}
use enterprise_rag.Reflection.Serving.{ReflectionCohort}
use enterprise_rag.Rag.Hyde.{QueryTransformOutcome}
use enterprise_rag.Rag.Service.Retrieving.{
  embed_one, question_embedding, search_vector, embed_stage, rerank_stage,
}
use enterprise_rag.Rag.Service.Correcting.{
  Corrected, Draft, correct_by_cohort, correct_stage, draft_stage,
}
use enterprise_rag.Rag.Service.Reflecting.{run_reflection, reflect_by_cohort, reflect_stage}
use enterprise_rag.Rag.Service.Responding.{on_block, output_stage}
use enterprise_rag.Rag.Service.Answering.{Gathered, gather, settle_draft, write_answer, produce}
use enterprise_rag.Rag.Service.{RagService, Request}
use enterprise_rag.Rag.Service.Planning.{Plans, plan_request}

-- A part of the world that a piece of the program leaves as it was.
unfoldable pub Keeps : {X A : Type 0} → (World → X) → Action World A → Type 0
Keeps view m = (w : World) → view (m w).1 ≡ view w

abbrev pub cache_of : World → CacheState
cache_of w = w.cache

abbrev pub KeepsCache : {A : Type 0} → Action World A → Type 0
KeepsCache m = Keeps cache_of m

module _ {A : Type 0} where
  pub on_calls-KeepsCache : (m : Action Calls A) → KeepsCache (on_calls m)
  unfolding Keeps
  on_calls-KeepsCache m w = refl

  pub on_crag-KeepsCache : (m : Action CragCalls A) → KeepsCache (on_crag m)
  unfolding Keeps
  on_crag-KeepsCache m w = refl

  pub on_trail-KeepsCache : (m : Action Trail A) → KeepsCache (on_trail m)
  unfolding Keeps
  on_trail-KeepsCache m w = refl

  -- What leaves the cache alone leaves alone all that is read off it.
  pub Keeps-view :
      {X : Type 0} (view : CacheState → X) (m : Action World A)
      → KeepsCache m
      → Keeps (λ w. view w.cache) m
  unfolding Keeps
  Keeps-view view m k w = ap view (k w)

module _ {X A : Type 0} (view : World → X) where
  pub pure-Keeps : (a : A) → Keeps view (pure a)
  unfolding Keeps
  pure-Keeps a w = refl

  pub lift-Keeps : (r : Result A) → Keeps view (lift r)
  unfolding Keeps
  lift-Keeps r w = refl

  pub if-Keeps :
      (b : Bool) (m n : Action World A)
      → Keeps view m
      → Keeps view n
      → Keeps view (if b then m else n)
  if-Keeps true m n km kn = km
  if-Keeps false m n km kn = kn

  caught-Keeps :
      (r : Result A) (handler : Exception → Action World A) (w : World)
      → ((e : Exception) → Keeps view (handler e))
      → view (caught r handler w).1 ≡ view w
  unfolding Keeps
  caught-Keeps (ok a) handler w k = refl
  caught-Keeps (raised e) handler w k = k e w

  pub try-Keeps :
      (m : Action World A) (handler : Exception → Action World A)
      → Keeps view m
      → ((e : Exception) → Keeps view (handler e))
      → Keeps view (try_except m handler)
  unfolding Keeps
  try-Keeps m handler km kh w = caught-Keeps (m w).0 handler (m w).1 kh ∙ km w

pub raise-Keeps :
    {X : Type 0} (view : World → X) (A : Type 0) (e : Exception) → Keeps {A = A} view (raise e)
unfolding Keeps
raise-Keeps view A e w = refl

module _ {X A B : Type 0} (view : World → X) where
  and_then-Keeps :
      (r : Result A) (f : A → Action World B) (w : World)
      → ((a : A) → Keeps view (f a))
      → view (and_then r f w).1 ≡ view w
  unfolding Keeps
  and_then-Keeps (ok a) f w k = k a w
  and_then-Keeps (raised e) f w k = refl

  pub bind-Keeps :
      (m : Action World A) (f : A → Action World B)
      → Keeps view m
      → ((a : A) → Keeps view (f a))
      → Keeps view (m >>= f)
  unfolding Keeps
  bind-Keeps m f km kf w = and_then-Keeps (m w).0 f (m w).1 kf ∙ km w

pub ruleset keeping = (pure-Keeps, lift-Keeps, if-Keeps, try-Keeps, bind-Keeps)

ruleset frames =
    (keeping, raise-Keeps, on_calls-KeepsCache, on_crag-KeepsCache, on_trail-KeepsCache)

module _ (s : RagService) (r : Request) (p : Plans) where
  embed_one-KeepsCache : (text : String) → KeepsCache (embed_one s text)
  embed_one-KeepsCache text = search (frames)

  question_embedding-KeepsCache :
      (original : Option Embedding) → KeepsCache (question_embedding s r.question original)
  question_embedding-KeepsCache none = embed_one-KeepsCache r.question
  question_embedding-KeepsCache (some v) = pure-Keeps cache_of v

  search_vector-KeepsCache :
      (original : Option Embedding) (out : QueryTransformOutcome × Option Embedding)
      → KeepsCache (search_vector s r.question original out)
  search_vector-KeepsCache original (o, some v) = search (frames)
  search_vector-KeepsCache original (o, none) = search (frames, question_embedding-KeepsCache)

  embed_stage-KeepsCache :
      (original : Option Embedding) → KeepsCache (embed_stage s r.question p original)
  unfolding embed_stage
  embed_stage-KeepsCache original = search (frames, search_vector-KeepsCache) depth 20

  rerank_stage-KeepsCache : (chunks : List RetrievedChunk) → KeepsCache (rerank_stage s r p chunks)
  unfolding rerank_stage
  rerank_stage-KeepsCache chunks = search (frames)

  correct_by_cohort-KeepsCache :
      (c : CragCohort) (chunks : List RetrievedChunk)
      → KeepsCache (correct_by_cohort s c r.question p chunks)
  correct_by_cohort-KeepsCache shadow chunks = search (frames)
  correct_by_cohort-KeepsCache treatment chunks = search (frames)
  correct_by_cohort-KeepsCache control chunks = search (frames)
  correct_by_cohort-KeepsCache disabled chunks = search (frames)

  correct_stage-KeepsCache :
      (chunks : List RetrievedChunk) → KeepsCache (correct_stage s r.question p chunks)
  unfolding correct_stage
  correct_stage-KeepsCache chunks = search (frames, correct_by_cohort-KeepsCache)

  draft_stage-KeepsCache : (outcome : CragOutcome) → KeepsCache (draft_stage s r.question outcome)
  unfolding draft_stage
  draft_stage-KeepsCache outcome = search (frames)

  run_reflection-KeepsCache :
      (evidence : List EvidenceChunk) (answer : String)
      → KeepsCache (run_reflection s r.question p evidence answer)
  unfolding Keeps
  run_reflection-KeepsCache evidence answer w = refl

  reflect_by_cohort-KeepsCache :
      (c : ReflectionCohort) (outcome : CragOutcome) (draft : Draft)
      → KeepsCache (reflect_by_cohort s c r.question p outcome draft)
  reflect_by_cohort-KeepsCache ReflectionCohort.shadow outcome draft =
      search (frames, run_reflection-KeepsCache)
  reflect_by_cohort-KeepsCache ReflectionCohort.treatment outcome draft =
      search (frames, run_reflection-KeepsCache)
  reflect_by_cohort-KeepsCache ReflectionCohort.control outcome draft = search (frames)
  reflect_by_cohort-KeepsCache ReflectionCohort.disabled outcome draft = search (frames)

  reflect_stage-KeepsCache :
      (outcome : CragOutcome) (draft : Draft)
      → KeepsCache (reflect_stage s r.question p outcome draft)
  unfolding reflect_stage
  reflect_stage-KeepsCache outcome draft = search (frames, reflect_by_cohort-KeepsCache)

  on_block-KeepsCache : (e : Exception) → KeepsCache (on_block e)
  on_block-KeepsCache guardrail_blocked = search (frames)
  on_block-KeepsCache e = search (frames)

  output_stage-KeepsCache : (answer : String) → KeepsCache (output_stage s r.question answer)
  unfolding output_stage
  output_stage-KeepsCache answer = search (frames, on_block-KeepsCache)

  gather-KeepsCache : (original : Option Embedding) → KeepsCache (gather s r p original)
  unfolding gather
  gather-KeepsCache original =
      search (frames, embed_stage-KeepsCache, rerank_stage-KeepsCache) depth 12

  settle_draft-KeepsCache :
      (g : Gathered) (c : Corrected) (d : Draft) → KeepsCache (settle_draft s r p g c d)
  unfolding settle_draft
  settle_draft-KeepsCache g c d =
      search (frames, reflect_stage-KeepsCache, output_stage-KeepsCache) depth 12

  write_answer-KeepsCache : (g : Gathered) → KeepsCache (write_answer s r p g)
  unfolding write_answer
  write_answer-KeepsCache g =
      search (frames, correct_stage-KeepsCache, draft_stage-KeepsCache, settle_draft-KeepsCache)
        depth 12

  pub produce-KeepsCache : (original : Option Embedding) → KeepsCache (produce s r p original)
  unfolding produce
  produce-KeepsCache original = search (frames, gather-KeepsCache, write_answer-KeepsCache)

-- A piece of the program that only computes: it leaves the world alone and does not read it.
unfoldable pub IsPure : {A : Type 0} → Action World A → Type 0
IsPure m = (w v : World) → m v ≡ ((m w).0, v)

lift-IsPure : {A : Type 0} (r : Result A) → IsPure (lift r)
unfolding IsPure
lift-IsPure r w v = refl

module _ {A B : Type 0} where
  and_then-IsPure :
      (out : Result A) (f : A → Action World B) (w v : World)
      → ((a : A) → IsPure (f a))
      → and_then out f v ≡ ((and_then out f w).0, v)
  unfolding IsPure
  and_then-IsPure (ok a) f w v k = k a w v
  and_then-IsPure (raised e) f w v k = refl

  bind-IsPure :
      (m : Action World A) (f : A → Action World B)
      → IsPure m
      → ((a : A) → IsPure (f a))
      → IsPure (m >>= f)
  unfolding IsPure
  bind-IsPure m f km kf w v = rw (km w v, km w w) (and_then-IsPure (m w).0 f w v kf)

pub plan_request-IsPure : (s : RagService) (r : Request) → IsPure (plan_request s r)
unfolding plan_request
plan_request-IsPure s r = search (lift-IsPure, bind-IsPure) depth 15
