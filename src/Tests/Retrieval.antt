-- ===== src/Tests/Retrieval.antt =====
-- The retrieval strategies at concrete inputs.
use enterprise_rag.Prelude.{String, refl, true, some, [], ◌∷◌}
use enterprise_rag.Prelude.Float.{one_float, zero_float}
use enterprise_rag.Errors.{ok}
use enterprise_rag.Rag.Hyde.Fusion.{FloatOps}
use enterprise_rag.Rag.Retrieval.{
  VectorRepository, normalized, hybrid_search, hybrid_retrieve, IsHybridOf,
  hybrid_retrieve-IsHybridOf,
}
use enterprise_rag.Tests.World.{chunk}

abbrev rounding : FloatOps
rounding = record {
  add = λ a b. a;
  multiply = λ a b. a;
  divide = λ a b. a;
  sqrt = λ a. one_float;
  of_ℕ = λ n. one_float;
  is_finite = λ a. true;
  min_norm = zero_float;
}

-- A sparse embedding is the text here.
abbrev store : VectorRepository String
store = record {
  search_dense = λ v k calls. ok (chunk ∷ []);
  search_sparse = λ q k calls. ok (chunk ∷ []);
  search_hybrid = λ v q k pool rrf_k calls. ok (chunk ∷ []);
}

hybrid_retrieve-IsHybridOf_example :
    IsHybridOf String store
      (λ text calls. ok text)
      rounding
      "q"
      (some (one_float ∷ []))
      3
      20
      60
      []
      (chunk ∷ [])
unfolding hybrid_retrieve hybrid_search normalized one_float
hybrid_retrieve-IsHybridOf_example =
    hybrid_retrieve-IsHybridOf String store (λ text calls. ok text) rounding 60 20 "q"
      (some (one_float ∷ [])) 3 [] (chunk ∷ []) refl
