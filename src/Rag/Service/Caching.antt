-- ===== src/Rag/Service/Caching.antt =====
-- The exact-match and the semantic cache of `RAGService` (app/rag_services/rag_service.py).
pub mod Misses
use enterprise_rag.Prelude.{
  ℕ, String, Bool, true, false, Option, none, some, is_some, List, [], ◌∷◌,
}
use enterprise_rag.Prelude.Float.{Float}
use enterprise_rag.Errors.{Result, ok, raised, Action, pure, lift, ◌>>=◌, ◌>>◌, try_except}
use enterprise_rag.QueryCache.{rag_answer, get, set}
use enterprise_rag.Rag.World.{
  Embedding, World, on_calls, on_cache, ask, record_metric, semantic_find_call,
  semantic_record_call, semantic_cache_lookup,
}
use enterprise_rag.Rag.Schemas.{ChatResponse}
use enterprise_rag.Rag.Service.{RagService, SemanticQueryCache}

module _ (s : RagService) where
  -- `ChatResponse.model_validate_json(raw) if raw is not None else None`, outside the `try`.
  abbrev pub parse_cached : Option String → Result (Option ChatResponse)
  parse_cached none = ok none
  parse_cached (some raw) = elim (s.functions.validate_json raw) [
    | ok response ↦ ok (some response)
    | raised e ↦ raised e
  ]

  unfoldable pub get_cached : String → Action World (Option ChatResponse)
  get_cached key = do
    raw ← try_except (on_cache (get s.cache rag_answer key)) (λ e. pure none)
    lift (parse_cached raw)

  -- Whether the write was confirmed.
  unfoldable pub set_cached : String → ChatResponse → Action World Bool
  set_cached key response =
      try_except (on_cache (set s.cache rag_answer key (s.functions.dump response)) >> pure true)
        (λ e. pure false)

  module _ (semantic : SemanticQueryCache) where
    abbrev pub find_semantic_cache_candidates :
        Embedding → String → ℕ → Float → Action World (List String)
    find_semantic_cache_candidates query_embedding namespace top_k threshold =
        try_except
          (on_calls (
            ask (semantic_find_call namespace)
              (semantic.find_candidates query_embedding namespace top_k threshold)))
          (λ e. pure [])

    -- `break` at the first candidate whose answer is still there.
    abbrev pub or_next :
        Action World (Option ChatResponse)
        → Option ChatResponse
        → Action World (Option ChatResponse)
    or_next next none = next
    or_next next (some response) = pure (some response)

    unfoldable pub first_live : List String → Action World (Option ChatResponse)
    first_live [] = pure none
    first_live (key ∷ keys) = get_cached key >>= or_next (first_live keys)

    unfoldable pub check_semantic_cache :
        Embedding → String → ℕ → Float → Action World (Option ChatResponse)
    check_semantic_cache query_embedding namespace top_k threshold = do
      keys ← find_semantic_cache_candidates query_embedding namespace top_k threshold
      hit ← first_live keys
      on_calls (record_metric (semantic_cache_lookup (is_some hit)))
      pure hit

    unfoldable pub record_semantic_cache : Embedding → String → ℕ → String → Action World (Unit {0})
    record_semantic_cache query_embedding namespace top_k cache_key =
        try_except
          (on_calls (
            ask (semantic_record_call cache_key)
              (semantic.record_entry query_embedding namespace top_k cache_key)))
          (λ e. pure tt)
