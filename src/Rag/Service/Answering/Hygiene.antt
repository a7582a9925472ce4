-- ===== src/Rag/Service/Answering/Hygiene.antt =====
-- When `RAGService.answer` (app/rag_services/rag_service.py) writes to the cache.
use enterprise_rag.Prelude.{
  ℕ, suc, String, ◌≡◌, refl, ap, sym, subst, ◌∙◌, Bool, true, false, ◌&&◌, Bool-cases, ◌⊎◌, inl,
  inr, Option, none, some, List, [], ◌∷◌, arith, if◌then◌else◌,
}
use enterprise_rag.Errors.{Result, ok, raised, Result-cases, Action, pure, and_then, ◌>>=◌, ◌>>◌}
use enterprise_rag.Prelude.Float.{Float}
use enterprise_rag.QueryCache.{CacheState, rag_answer, namespaced_key, get, set}
use enterprise_rag.Rag.World.{Calls, Embedding, World, on_cache, on_calls}
use enterprise_rag.Rag.Schemas.{ChatResponse}
use enterprise_rag.Rag.Service.{RagService, SemanticQueryCache, Request}
use enterprise_rag.Rag.Service.Planning.{Plans, config, plan_request, cache_key}
use enterprise_rag.Rag.Service.Caching.{
  get_cached, set_cached, first_live, or_next, check_semantic_cache, record_semantic_cache,
}
use enterprise_rag.Rag.Service.Responding.{Stages, response, pipeline_fallback}
use enterprise_rag.Rag.Service.Answering.{
  produce, record_entry, persist, fresh, lookup_similar, semantic_lookup, or_fresh, or_similar,
  answer,
}
use enterprise_rag.Rag.Service.Answering.Frames.{
  IsPure, plan_request-IsPure, Keeps, KeepsCache, Keeps-view, keeping, on_calls-KeepsCache,
  produce-KeepsCache, bind-Keeps, pure-Keeps,
}

-- How many answers the cache has confirmed that it stored.
abbrev pub sets_in : CacheState → ℕ
sets_in c = (c.counters rag_answer).sets

abbrev pub answers_stored : World → ℕ
answers_stored w = sets_in w.cache

-- No stage of the answer fell back, abstained, took evidence from the web, cited what was never
-- supplied, was not accepted, or was blocked.
pub record IsUntouched (st : Stages) : Type 0 where
  pub ranked : st.reranked.fallback ≡ false
  pub expanded : st.hyde_outcome.fallback ≡ false
  pub corrected : st.corrected.outcome.fallback ≡ false
  pub offline : st.corrected.outcome.web_used ≡ false
  pub evident : st.corrected.outcome.abstain ≡ false
  pub cited : st.draft.fabricated ≡ false
  pub reflected : st.self_reflection.fallback ≡ false
  pub answered : st.self_reflection.abstain ≡ false
  pub accepted : st.self_reflection.accepted ≡ true
  pub passed : st.output.is_blocked ≡ false

-- The answer is that of stages that ran, and that left it untouched; its text was just written under
-- the key, and the cache is as that write left it, with one more answer than before.
pub record IsStored (s : RagService) (r : Request) (p : Plans) (key : String) (before : ℕ)
    (served : ChatResponse) (after : CacheState) : Type 0 where
  pub stages : Stages
  pub original : Option Embedding
  pub start : World
  pub ran : (produce s r p original start).0 ≡ ok stages
  pub made : served ≡ response s p stages
  pub untouched : IsUntouched stages
  pub more : sets_in after ≡ suc before
  pub cache : CacheState
  pub taken : (set s.cache rag_answer key (s.functions.dump served) cache).0 ≡ ok tt
  pub left : after ≡ (set s.cache rag_answer key (s.functions.dump served) cache).1

-- Either no answer was stored, or one was: the one that is returned.
abbrev Stores : RagService → Request → Plans → String → Action World ChatResponse → Type 0
Stores s r p key m =
    (w : World)
    → (answers_stored (m w).1 ≡ answers_stored w)
      ⊎ ((answer : ChatResponse) × ((m w).0 ≡ ok answer)
          × IsStored s r p key (answers_stored w) answer (m w).1.cache)

module _ (s : RagService) where
  on_get-Keeps : (key : String) → Keeps answers_stored (on_cache (get s.cache rag_answer key))
  unfolding Keeps get
  on_get-Keeps key w =
      elim (Result-cases (s.cache.backend.get (namespaced_key rag_answer key) w.cache.store).0) [
        | inl (none, e) ↦ rw e refl
        | inl (some raw, e) ↦ rw e refl
        | inr (x, e) ↦ rw e refl
      ]

  get_cached-Keeps : (key : String) → Keeps answers_stored (get_cached s key)
  unfolding get_cached
  get_cached-Keeps key = search (keeping, on_get-Keeps)

  calls_keep : {A : Type 0} (m : Action Calls A) → Keeps answers_stored (on_calls m)
  calls_keep m = Keeps-view sets_in (on_calls m) (on_calls-KeepsCache m)

  or_next-Keeps :
      (semantic : SemanticQueryCache) (next : Action World (Option ChatResponse))
      (found : Option ChatResponse)
      → Keeps answers_stored next
      → Keeps answers_stored (or_next s semantic next found)
  or_next-Keeps semantic next none k = k
  or_next-Keeps semantic next (some hit) k = pure-Keeps answers_stored (some hit)

  first_live-Keeps :
      (semantic : SemanticQueryCache) (keys : List String)
      → Keeps answers_stored (first_live s semantic keys)
  unfolding first_live
  first_live-Keeps semantic [] = pure-Keeps answers_stored none
  first_live-Keeps semantic (key ∷ keys) =
      bind-Keeps answers_stored (get_cached s key) (or_next s semantic (first_live s semantic keys))
        (get_cached-Keeps key)
        (λ found.
          or_next-Keeps semantic (first_live s semantic keys) found
            (first_live-Keeps semantic keys))

  check_semantic_cache-Keeps :
      (semantic : SemanticQueryCache) (v : Embedding) (namespace : String) (top_k : ℕ) (t : Float)
      → Keeps answers_stored (check_semantic_cache s semantic v namespace top_k t)
  unfolding check_semantic_cache
  check_semantic_cache-Keeps semantic v namespace top_k t =
      search (keeping, calls_keep, first_live-Keeps) depth 10

  lookup_similar-Keeps :
      (semantic : Option SemanticQueryCache) (r : Request) (p : Plans)
      → Keeps answers_stored (lookup_similar s semantic r p)
  lookup_similar-Keeps none r p = search (keeping)
  lookup_similar-Keeps (some semantic) r p =
      search (keeping, calls_keep, check_semantic_cache-Keeps) depth 10

  semantic_lookup-Keeps : (r : Request) (p : Plans) → Keeps answers_stored (semantic_lookup s r p)
  unfolding semantic_lookup
  semantic_lookup-Keeps r p = search (keeping, lookup_similar-Keeps)

  plan_request-Keeps : (r : Request) → Keeps answers_stored (plan_request s r)
  unfolding plan_request
  plan_request-Keeps r = search (keeping) depth 15

  record_entry-KeepsCache :
      (semantic : Option SemanticQueryCache) (v : Option Embedding) (r : Request) (p : Plans)
      (key : String)
      → KeepsCache (record_entry s semantic v r p key)
  unfolding record_semantic_cache
  record_entry-KeepsCache none v r p key = search (keeping)
  record_entry-KeepsCache (some semantic) none r p key = search (keeping)
  record_entry-KeepsCache (some semantic) (some v) r p key = search (keeping, on_calls-KeepsCache)

  -- A write to the exact-match cache never raises, and reports whether one more answer is stored.
  set_cached_total :
      (key : String) (response : ChatResponse) (w : World)
      → (((set_cached s key response w).0 ≡ ok false)
          × (answers_stored (set_cached s key response w).1 ≡ answers_stored w))
        ⊎ (((set_cached s key response w).0 ≡ ok true)
            × (answers_stored (set_cached s key response w).1 ≡ suc (answers_stored w))
            × ((set s.cache rag_answer key (s.functions.dump response) w.cache).0 ≡ ok tt)
            × ((set_cached s key response w).1.cache
                ≡ (set s.cache rag_answer key (s.functions.dump response) w.cache).1))
  unfolding set_cached set
  set_cached_total key response w =
      elim (Result-cases
        (s.cache.backend.set (namespaced_key rag_answer key) (s.functions.dump response)
          (s.cache.ttl_for rag_answer) w.cache.store).0) [
            | inl (_, e) ↦ rw e (inr (refl, refl, refl, refl))
            | inr (x, e) ↦ rw e (inl (refl, refl))
          ]

  -- Recording in the semantic cache never raises.
  record_entry_total :
      (semantic : Option SemanticQueryCache) (v : Option Embedding) (r : Request) (p : Plans)
      (key : String) (w : World)
      → (record_entry s semantic v r p key w).0 ≡ ok tt
  unfolding record_semantic_cache
  record_entry_total none v r p key w = refl
  record_entry_total (some semantic) none r p key w = refl
  record_entry_total (some semantic) (some v) r p key w =
      elim (Result-cases (semantic.record_entry v p.cache_namespace r.top_k key w.calls)) [
        | inl (_, e) ↦ rw e refl
        | inr (x, e) ↦ rw e refl
      ]

  -- What follows a write.
  abbrev pub index_entry : Request → Plans → String → Stages → Bool → Action World (Unit {0})
  index_entry r p key st written =
      if written && (config s).semantic_cache_enabled
      then record_entry s s.semantic_cache st.original_query_embedding r p key
      else pure tt

  index_entry-KeepsCache :
      (r : Request) (p : Plans) (key : String) (st : Stages) (written : Bool)
      → KeepsCache (index_entry r p key st written)
  index_entry-KeepsCache r p key st written = search (keeping, record_entry-KeepsCache)

  index_entry_total :
      (r : Request) (p : Plans) (key : String) (st : Stages) (written : Bool) (w : World)
      → (index_entry r p key st written w).0 ≡ ok tt
  index_entry_total r p key st written w =
      elim (Bool-cases (written && (config s).semantic_cache_enabled)) [
        | inl indexed ↦
            rw indexed (record_entry_total s.semantic_cache st.original_query_embedding r p key w)
        | inr not_now ↦ rw not_now refl
      ]

  fallback-IsUntouched : (st : Stages) → pipeline_fallback st ≡ false → IsUntouched st
  unfolding pipeline_fallback
  fallback-IsUntouched st e = record {
    ranked = ground arith;
    expanded = ground arith;
    corrected = ground arith;
    offline = ground arith;
    evident = ground arith;
    cited = ground arith;
    reflected = ground arith;
    answered = ground arith;
    accepted = ground arith;
    passed = ground arith;
  }

  -- Persisting never raises, and stores at most one answer, and none of a degraded run.
  persist_total :
      (r : Request) (p : Plans) (key : String) (st : Stages) (original : Option Embedding)
      (start w : World)
      → (produce s r p original start).0 ≡ ok st
      → ((persist s r p key st w).0 ≡ ok tt)
        × ((answers_stored (persist s r p key st w).1 ≡ answers_stored w)
            ⊎ IsStored s r p key
                (answers_stored w)
                (response s p st)
                (persist s r p key st w).1.cache)
  unfolding persist Keeps
  persist_total r p key st original start w ran = elim (Bool-cases (pipeline_fallback st)) [
    | inl degraded ↦ rw degraded (refl, inl refl)
    | inr clean ↦ elim (set_cached_total key (response s p st) w) [
      | inl (kept, same) ↦ rw (clean, kept) (refl, inl same)
      | inr (stored, more, taken, after) ↦
          let w' = (set_cached s key (response s p st) w).1 in
          let same = index_entry-KeepsCache r p key st true w' in
          rw (clean, stored)
            (
              index_entry_total r p key st true w',
              inr (record {
                stages = st;
                original = original;
                start = start;
                ran = ran;
                made = refl;
                untouched = fallback-IsUntouched st clean;
                more = ap sets_in same ∙ more;
                cache = w.cache;
                taken = taken;
                left = same ∙ after;
              }),
            )
    ]
  ]

  pub persist_returns :
      (r : Request) (p : Plans) (key : String) (st : Stages) (w : World)
      → (persist s r p key st w).0 ≡ ok tt
  unfolding persist
  persist_returns r p key st w = elim (Bool-cases (pipeline_fallback st)) [
    | inl degraded ↦ rw degraded refl
    | inr clean ↦ elim (set_cached_total key (response s p st) w) [
      | inl (kept, same) ↦ rw (clean, kept) refl
      | inr (stored, more, taken, after) ↦
          rw (clean, stored)
            (index_entry_total r p key st true (set_cached s key (response s p st) w).1)
    ]
  ]

  finish-Stores :
      (r : Request) (p : Plans) (key : String) (st : Stages) (original : Option Embedding)
      (start : World)
      → (produce s r p original start).0 ≡ ok st
      → Stores s r p key (persist s r p key st >> pure (response s p st))
  finish-Stores r p key st original start ran w =
      let (done, stored) = persist_total r p key st original start w ran in
      elim stored [
        | inl same ↦ rw done (inl same)
        | inr kept ↦ rw done (inr (response s p st, refl, kept))
      ]

module _ (s : RagService) (r : Request) (p : Plans) (key : String) {A : Type 0} where
  and_then-Stores :
      (out : Result A) (f : A → Action World ChatResponse) (w v : World)
      → answers_stored v ≡ answers_stored w
      → ((a : A) → out ≡ ok a → Stores s r p key (f a))
      → (answers_stored (and_then out f v).1 ≡ answers_stored w)
        ⊎ ((answer : ChatResponse) × ((and_then out f v).0 ≡ ok answer)
            × IsStored s r p key (answers_stored w) answer (and_then out f v).1.cache)
  and_then-Stores (raised x) f w v same stores = inl same
  and_then-Stores (ok a) f w v same stores = elim (stores a refl v) [
    | inl kept ↦ inl (kept ∙ same)
    | inr (answer, e, stored) ↦
        inr (answer, e, subst (λ n. IsStored s r p key n answer (f a v).1.cache) same stored)
  ]

  bind-Stores :
      (m : Action World A) (f : A → Action World ChatResponse)
      → Keeps answers_stored m
      → ((a : A) (w : World) → (m w).0 ≡ ok a → Stores s r p key (f a))
      → Stores s r p key (m >>= f)
  unfolding Keeps
  bind-Stores m f k stores w = and_then-Stores (m w).0 f w (m w).1 (k w) (λ a. stores a w)

module _ (s : RagService) (r : Request) (p : Plans) (key : String) where
  fresh-Stores : (original : Option Embedding) → Stores s r p key (fresh s r p key original)
  unfolding fresh
  fresh-Stores original =
      bind-Stores s r p key (produce s r p original)
        (λ st. persist s r p key st >> pure (response s p st))
        (Keeps-view sets_in (produce s r p original) (produce-KeepsCache s r p original))
        (λ st start ran. finish-Stores s r p key st original start ran)

  or_fresh-Stores :
      (found : Option Embedding × Option ChatResponse) → Stores s r p key (or_fresh s r p key found)
  or_fresh-Stores (original, some hit) w = inl refl
  or_fresh-Stores (original, none) w = fresh-Stores original w

  or_similar-Stores :
      (cached : Option ChatResponse) → Stores s r p key (or_similar s r p key cached)
  or_similar-Stores (some hit) w = inl refl
  or_similar-Stores none w =
      bind-Stores s r p key (semantic_lookup s r p) (or_fresh s r p key)
        (semantic_lookup-Keeps s r p) (λ found start e. or_fresh-Stores found) w

  pub lookup-Stores : Stores s r p key (get_cached s key >>= or_similar s r p key)
  lookup-Stores =
      bind-Stores s r p key (get_cached s key) (or_similar s r p key) (get_cached-Keeps s key)
        (λ found start e. or_similar-Stores found)

module _ (s : RagService) where
  -- The key under which a request is stored and looked up.
  abbrev pub key_of : Request → Plans → String
  key_of r p = cache_key s r.question r.top_k p.cache_namespace

  pub planned_eq :
      (r : Request) (w v : World) (out : Result Plans)
      → (plan_request s r w).0 ≡ out
      → plan_request s r v ≡ (out, v)
  unfolding IsPure
  planned_eq r w v out e = rw (sym e) (plan_request-IsPure s r w v)

  -- Answering a question has the cache confirm at most one stored answer, and only where it returns
  -- that very answer: its text is written under the key of the request's own plans, and the stages that
  -- it comes from ran for this request with these plans. No fallback of reranking, query expansion,
  -- corrective retrieval or reflection touched it, no abstention, no evidence from the web, no
  -- citation of what was never supplied and no block of the output guardrail, and reflection
  -- accepted it. A call that raises has none
  -- confirmed.
  pub answer-IsStored :
      (r : Request) (w : World)
      → (answers_stored (answer s r w).1 ≡ answers_stored w)
        ⊎ ((p : Plans) × ((plan_request s r w).0 ≡ ok p)
            × (served : ChatResponse) × ((answer s r w).0 ≡ ok served)
            × IsStored s r p (key_of r p) (answers_stored w) served (answer s r w).1.cache)
  unfolding answer
  answer-IsStored r w = elim (Result-cases (plan_request s r w).0) [
    | inr (x, refused) ↦ rw (planned_eq r w w (raised x) refused) (inl refl)
    | inl (p, planned) ↦ elim (lookup-Stores s r p (key_of r p) w) [
      | inl same ↦ rw (planned_eq r w w (ok p) planned) (inl same)
      | inr (served, e, stored) ↦
          rw (planned_eq r w w (ok p) planned) (inr (p, refl, served, e, stored))
    ]
  ]
