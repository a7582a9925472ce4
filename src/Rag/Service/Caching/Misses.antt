-- ===== src/Rag/Service/Caching/Misses.antt =====
-- How a cache lookup of `RAGService` (app/rag_services/rag_service.py) can fail.
use enterprise_rag.Prelude.{String, ◌≡◌, refl, ◌↔◌, inl, inr, none, some, arith}
use enterprise_rag.Errors.{Exception, ok, raised, Result-cases}
use enterprise_rag.QueryCache.{rag_answer, get}
use enterprise_rag.Rag.World.{World}
use enterprise_rag.Rag.Service.{RagService}
use enterprise_rag.Rag.Service.Caching.{parse_cached, get_cached}

module _ (s : RagService) (key : String) (w : World) (e : Exception) where
  -- A lookup of a cached answer raises exactly where the cache returned a text that does not parse
  -- as an answer, and it raises the parser's exception: a cache that raises is a miss, a text
  -- that does not parse is not.
  pub get_cached_raises_iff : ((get_cached s key w).0 ≡ raised e) ↔ (
      (raw : String) × ((get s.cache rag_answer key w.cache).0 ≡ ok (some raw))
      × (s.functions.validate_json raw ≡ raised e))
  unfolding get_cached
  get_cached_raises_iff = elim (Result-cases (get s.cache rag_answer key w.cache).0) [
    | inr (x, failed) ↦ rw failed ((λ h. absurd (ground arith)), (λ h. absurd (ground arith)))
    | inl (none, missing) ↦ rw missing ((λ h. absurd (ground arith)), (λ h. absurd (ground arith)))
    | inl (some raw, found) ↦ elim (Result-cases (s.functions.validate_json raw)) [
      | inl (x, parsed) ↦
          rw (found, parse_cached, parsed)
            ((λ h. absurd (ground arith)), (λ h. let (other_raw, same, bad) = h in cc))
      | inr (x, malformed) ↦
          rw (found, parse_cached, malformed)
            ((λ h. (raw, refl, cc)), (λ h. let (other_raw, same, bad) = h in cc))
    ]
  ]
