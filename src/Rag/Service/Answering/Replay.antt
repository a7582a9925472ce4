-- ===== src/Rag/Service/Answering/Replay.antt =====
-- A stored answer is served again (app/rag_services/rag_service.py over
-- app/services/query_cache_service.py).
use enterprise_rag.Prelude.{String, ◌≡◌, ◌≢◌, refl, ◌∙◌, inl, inr, some}
use enterprise_rag.Errors.{Result, ok}
use enterprise_rag.QueryCache.{CacheState, rag_answer, get, set}
use enterprise_rag.QueryCache.RoundTrip.{Remembers, get-set}
use enterprise_rag.Rag.World.{World}
use enterprise_rag.Rag.Schemas.{ChatResponse}
use enterprise_rag.Rag.Service.{RagService, Request}
use enterprise_rag.Rag.Service.Planning.{Plans, plan_request}
use enterprise_rag.Rag.Service.Caching.{parse_cached, get_cached}
use enterprise_rag.Rag.Service.Answering.{as_hit, answer}
use enterprise_rag.Rag.Service.Answering.Hygiene.{
  IsStored, answers_stored, key_of, answer-IsStored, planned_eq,
}

-- Parsing undoes printing, for an answer that a call returns.
abbrev pub ReadsBack : RagService → Result ChatResponse → Type 0
ReadsBack s served =
    (x : ChatResponse) → served ≡ ok x → s.functions.validate_json (s.functions.dump x) ≡ ok x

-- Nothing was asked of the world but its cache.
abbrev pub AsksNothing : World → World → Type 0
AsksNothing w v =
    (v.calls ≡ w.calls) × (v.crag ≡ w.crag) × (v.reflection ≡ w.reflection) × (v.trail ≡ w.trail)

module _ (s : RagService) (remembers : Remembers s.cache.backend) where
  get_cached-set :
      (key : String) (x : ChatResponse) (c : CacheState) (v : World)
      → (set s.cache rag_answer key (s.functions.dump x) c).0 ≡ ok tt
      → v.cache ≡ (set s.cache rag_answer key (s.functions.dump x) c).1
      → s.functions.validate_json (s.functions.dump x) ≡ ok x
      → ((get_cached s key v).0 ≡ ok (some x)) × AsksNothing v (get_cached s key v).1
  unfolding get_cached
  get_cached-set key x c v taken after read =
      let (found, _) = get-set s.cache rag_answer key (s.functions.dump x) c remembers taken in
      let again : (get s.cache rag_answer key v.cache).0 ≡ ok (some (s.functions.dump x)) =
        rw after found in
      rw (again, parse_cached, read) (refl, (refl, refl, refl, refl))

  replayed :
      (r : Request) (w v : World)
      → v.cache ≡ (answer s r w).1.cache
      → (p : Plans) → (plan_request s r w).0 ≡ ok p
      → (served : ChatResponse) → s.functions.validate_json (s.functions.dump served) ≡ ok served
      → IsStored s r p (key_of s r p) (answers_stored w) served (answer s r w).1.cache
      → ((answer s r v).0 ≡ ok (as_hit served)) × AsksNothing v (answer s r v).1
  unfolding answer
  replayed r w v same p planned served read stored =
      let (found, quiet) =
        get_cached-set (key_of s r p) served stored.cache v stored.taken (same ∙ stored.left)
          read in
      rw (planned_eq s r w v (ok p) planned) (rw found (refl, quiet))

  -- Over a store that remembers, an answer that a call has stored, and whose text parses back, is
  -- served again by the next call with the same request, as a cache hit that is otherwise the same
  -- answer, whatever else of the world has changed; and nothing is asked for it of the embedding
  -- model, the retrieval, the language model, the corrective retriever, the reflection engine or
  -- the guardrails.
  pub answer-replay :
      (r : Request) (w v : World)
      → answers_stored (answer s r w).1 ≢ answers_stored w
      → v.cache ≡ (answer s r w).1.cache
      → ReadsBack s (answer s r w).0
      → (served : ChatResponse) × ((answer s r w).0 ≡ ok served)
        × ((answer s r v).0 ≡ ok (as_hit served))
        × AsksNothing v (answer s r v).1
  answer-replay r w v grew same reads_back = elim (answer-IsStored s r w) [
    | inl kept ↦ absurd (grew kept)
    | inr (p, planned, served, e, stored) ↦
        let (hit, quiet) = replayed r w v same p planned served (reads_back served e) stored in
        (served, e, hit, quiet)
  ]
