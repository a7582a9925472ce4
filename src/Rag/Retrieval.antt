-- ===== src/Rag/Retrieval.antt =====
-- The strategies of app/rag_services/retrieval_strategy.py, over the vector store and the client for
-- sparse embeddings, which are parameters: what they answer may depend on the calls before the
-- retrieval.
use enterprise_rag.Prelude.{
  ℕ, zero, suc, ◌≤◌, max, String, ◌≡◌, refl, ap, true, false, Option, none, some, List, [], ◌∷◌,
  map, All, arith, if◌then◌else◌, inl, inr,
}
use enterprise_rag.Prelude.Int.{◌≤ℤ◌}
use enterprise_rag.Prelude.Float.{Float, lt, one_float, zero_float}
use enterprise_rag.Errors.{Result, ok, raised, other, Result-cases, Ensures, of_Ensures}
use enterprise_rag.Crag.Types.{RetrievedChunk}
use enterprise_rag.Rag.World.{Embedding, Calls}
use enterprise_rag.Rag.Hyde.Fusion.{FloatOps}
use enterprise_rag.Rag.Service.{RetrievalStrategy}

abbrev pub then_with : {A B : Type 0} → Result A → (A → Result B) → Result B
then_with (ok a) next = next a
then_with (raised e) next = raised e

abbrev pub assertion_error : {A : Type 0} → Result A
assertion_error = raised (other "AssertionError")

module _ (Sparse : Type 0) where
  pub record VectorRepository : Type 0 where
    pub search_dense : Embedding → ℕ → Calls → Result (List RetrievedChunk)
    pub search_sparse : Sparse → ℕ → Calls → Result (List RetrievedChunk)
    -- The embeddings, `top_k`, `candidate_top_k` and `rrf_k`.
    pub search_hybrid : Embedding → Sparse → ℕ → ℕ → ℕ → Calls → Result (List RetrievedChunk)

  module _ (repository : VectorRepository) where
    pub dense_retrieve : String → Option Embedding → ℕ → Calls → Result (List RetrievedChunk)
    dense_retrieve query_text none top_k calls = assertion_error
    dense_retrieve query_text (some query_embedding) top_k calls =
        repository.search_dense query_embedding top_k calls

    pub dense_strategy : RetrievalStrategy
    unfolding dense_retrieve
    dense_strategy = record {
      name = "dense";
      cache_namespace = "dense:v1";
      requires_dense_embedding = true;
      retrieve = dense_retrieve;
    }

    module _ (embed_query : String → Calls → Result Sparse) where
      pub sparse_retrieve : String → Option Embedding → ℕ → Calls → Result (List RetrievedChunk)
      sparse_retrieve query_text query_embedding top_k calls =
          then_with (embed_query query_text calls)
            (λ query_sparse. repository.search_sparse query_sparse top_k calls)

      pub sparse_strategy : RetrievalStrategy
      unfolding sparse_retrieve
      sparse_strategy = record {
        name = "sparse";
        cache_namespace = "sparse:v1";
        requires_dense_embedding = false;
        retrieve = sparse_retrieve;
      }

      module _ (f : FloatOps) where
        -- `min(score, 1.0)`
        abbrev pub at_most_one : Float → Float
        at_most_one score = if lt one_float score then one_float else score

        -- `replace(chunk, score=min(chunk.score / max_rrf_score, 1.0))`
        unfoldable pub normalized : Float → RetrievedChunk → RetrievedChunk
        normalized max_rrf_score chunk = record chunk {
          score = at_most_one (f.divide chunk.score max_rrf_score);
        }

        -- `max_rrf_score = 2.0 / rrf_k`
        abbrev pub max_rrf_score : ℕ → Result Float
        max_rrf_score zero = raised (other "ZeroDivisionError")
        max_rrf_score (suc k) = ok (f.divide (f.of_ℕ 2) (f.of_ℕ (suc k)))

        unfoldable pub hybrid_search :
            Embedding → String → ℕ → ℕ → ℕ → Calls → Result (List RetrievedChunk)
        unfolding normalized
        hybrid_search query_embedding query_text top_k rrf_k candidate_top_k calls =
            then_with (embed_query query_text calls) (λ query_sparse.
              then_with
                (repository.search_hybrid query_embedding query_sparse top_k
                  (max top_k candidate_top_k) rrf_k calls)
                (λ fused_results.
                  then_with (max_rrf_score rrf_k)
                    (λ max_score. ok (map (normalized max_score) fused_results))))

        unfoldable pub hybrid_retrieve :
            (rrf_k candidate_top_k : ℕ)
            → String
            → Option Embedding
            → ℕ
            → Calls
            → Result (List RetrievedChunk)
        unfolding hybrid_search
        hybrid_retrieve rrf_k candidate_top_k query_text none top_k calls = assertion_error
        hybrid_retrieve rrf_k candidate_top_k query_text (some query_embedding) top_k calls =
            hybrid_search query_embedding query_text top_k rrf_k (max top_k candidate_top_k) calls

        pub hybrid_strategy : (rrf_k candidate_top_k : ℕ) → RetrievalStrategy
        unfolding hybrid_retrieve
        hybrid_strategy rrf_k candidate_top_k = record {
          name = "hybrid";
          cache_namespace = "hybrid:v2";
          requires_dense_embedding = true;
          retrieve = hybrid_retrieve rrf_k candidate_top_k;
        }

        normalized-le_one :
            (max_score : Float) (chunks : List RetrievedChunk)
            → All (λ chunk. chunk.score ≤ℤ one_float) (map (normalized max_score) chunks)
        unfolding normalized
        normalized-le_one m [] = tt
        normalized-le_one m (chunk ∷ chunks) = (ground arith, normalized-le_one m chunks)

        -- A chunk without its score.
        abbrev pub unscored : RetrievedChunk → RetrievedChunk
        unscored chunk = record chunk { score = zero_float }

        unscored-normalized :
            (max_score : Float) (chunks : List RetrievedChunk)
            → map unscored (map (normalized max_score) chunks) ≡ map unscored chunks
        unfolding normalized
        unscored-normalized m [] = refl
        unscored-normalized m (chunk ∷ chunks) =
            ap (λ cs. unscored chunk ∷ cs) (unscored-normalized m chunks)

        -- What a hybrid retrieval returns is what the store fused, asked for a pool that holds at
        -- least the wanted number: the same chunks in the same order, where only the scores are
        -- replaced and none is above one.
        pub record IsHybridOf (query_text : String) (query_embedding : Option Embedding)
            (top_k candidate_top_k rrf_k : ℕ) (calls : Calls) (chunks : List RetrievedChunk)
            : Type 0 where
          pub embedding : Embedding
          pub given : query_embedding ≡ some embedding
          pub sparse : Sparse
          pub embedded : embed_query query_text calls ≡ ok sparse
          pub fused : List RetrievedChunk
          pub pool : ℕ
          pub enough : (top_k ≤ pool) × (candidate_top_k ≤ pool)
          pub searched : repository.search_hybrid embedding sparse top_k pool rrf_k calls ≡ ok fused
          pub same : map unscored chunks ≡ map unscored fused
          pub bounded : All (λ chunk. chunk.score ≤ℤ one_float) chunks

        scored :
            (query_text : String) (v : Embedding) (q : Sparse) (top_k candidate_top_k rrf_k : ℕ)
            (calls : Calls) (fused : List RetrievedChunk)
            → embed_query query_text calls ≡ ok q
            → repository.search_hybrid v q top_k (max top_k (max top_k candidate_top_k)) rrf_k calls
              ≡ ok fused
            → Ensures
                (IsHybridOf query_text (some v) top_k candidate_top_k rrf_k calls)
                (then_with (max_rrf_score rrf_k) (λ m. ok (map (normalized m) fused)))
        scored text v q top_k cand zero calls fused e m = tt
        scored text v q top_k cand (suc k) calls fused e m = record {
          embedding = v;
          given = refl;
          sparse = q;
          embedded = e;
          fused = fused;
          pool = max top_k (max top_k cand);
          enough = (omega arith, omega arith);
          searched = m;
          same = unscored-normalized (f.divide (f.of_ℕ 2) (f.of_ℕ (suc k))) fused;
          bounded = normalized-le_one (f.divide (f.of_ℕ 2) (f.of_ℕ (suc k))) fused;
        }

        hybrid_retrieve-Ensures :
            (rrf_k candidate_top_k : ℕ) (query_text : String) (query_embedding : Option Embedding)
            (top_k : ℕ) (calls : Calls)
            → Ensures
                (IsHybridOf query_text query_embedding top_k candidate_top_k rrf_k calls)
                (hybrid_retrieve rrf_k candidate_top_k query_text query_embedding top_k calls)
        unfolding hybrid_retrieve hybrid_search
        hybrid_retrieve-Ensures rrf_k cand text none top_k calls = tt
        hybrid_retrieve-Ensures rrf_k cand text (some v) top_k calls =
            elim (Result-cases (embed_query text calls)) [
              | inr (x, e) ↦ rw e tt
              | inl (q, e) ↦
                  elim (Result-cases
                    (repository.search_hybrid v q top_k (max top_k (max top_k cand)) rrf_k calls)) [
                      | inr (x, m) ↦ rw (e, m) tt
                      | inl (fused, m) ↦
                          rw (e, m) (scored text v q top_k cand rrf_k calls fused e m)
                    ]
            ]

        -- A hybrid retrieval that returns was given an embedding, and asked the store for a pool of
        -- at least the wanted number and at least the configured one. It returns the chunks that
        -- the store fused, in their order, with only the scores replaced and none above one.
        pub hybrid_retrieve-IsHybridOf :
            (rrf_k candidate_top_k : ℕ) (query_text : String) (query_embedding : Option Embedding)
            (top_k : ℕ) (calls : Calls) (chunks : List RetrievedChunk)
            → hybrid_retrieve rrf_k candidate_top_k query_text query_embedding top_k calls
              ≡ ok chunks
            → IsHybridOf query_text query_embedding top_k candidate_top_k rrf_k calls chunks
        hybrid_retrieve-IsHybridOf rrf_k cand text given top_k calls chunks h =
            of_Ensures (IsHybridOf text given top_k cand rrf_k calls)
              (hybrid_retrieve rrf_k cand text given top_k calls) chunks
              (hybrid_retrieve-Ensures rrf_k cand text given top_k calls) h
