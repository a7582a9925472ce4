-- ===== src/Rag/Service/Planning.antt =====
-- The first part of `RAGService.answer` (app/rag_services/rag_service.py): one snapshot of the
-- configuration, the strategy, every stage's plan, and the namespace and key of the cache.
use Prim.Native.String.{◌++◌}
use enterprise_rag.Prelude.{
  ℕ, suc, String, ◌≡◌, refl, Bool, true, false, not, ◌&&◌, Bool-cases, ◌⊎◌, inl, inr, Option, none,
  some, List, [], ◌∷◌, max, str_eq, if◌then◌else◌,
}
use enterprise_rag.Prelude.Int.{ℤ, pos, negsuc}
use enterprise_rag.PyText.{PyText, join}
use enterprise_rag.Errors.{
  hybrid_retrieval_disabled, other, Result, ok, raised, Action, pure, lift, ◌>>=◌, Ensures,
  of_Ensures,
}
use enterprise_rag.RuntimeConfig.{RagRuntimeConfig}
use enterprise_rag.Crag.Types.{CragPlan}
use enterprise_rag.Reflection.Serving.{SelfReflectionPlan}
use enterprise_rag.Rag.World.{World}
use enterprise_rag.Rag.Rerank.{RerankPlan, is_treatment}
use enterprise_rag.Rag.Hyde.{HydePlan}
use enterprise_rag.Rag.Service.{
  RetrievalStrategy, RagService, Request, find_strategy, has_strategy, mem_mode, new_service,
  allowed_or_all,
}

-- `configured if override is None else override`
abbrev pub effective : Option Bool → Bool → Bool
effective none configured = configured
effective (some override) configured = override

-- What `answer` knows before its first cache lookup.
pub record Plans : Type 0 where
  pub strategy : RetrievalStrategy
  pub reranking_enabled : Bool
  pub rerank_plan : RerankPlan
  pub candidate_top_k : ℕ
  pub hyde_can_run : Bool
  pub hyde_plan : HydePlan
  pub crag_enabled : Bool
  pub crag_plan : CragPlan
  pub self_reflective_enabled : Bool
  pub self_reflection_plan : SelfReflectionPlan
  pub cache_namespace : String

-- `f"{n}"`
abbrev pub int_text : PyText → ℤ → String
int_text py (pos n) = py.str_of_int n
int_text py (negsuc n) = "-" ++ py.str_of_int (suc n)

abbrev pub append_if : Bool → String → String → String
append_if test segment namespace = if test then namespace ++ ":" ++ segment else namespace

module _ (s : RagService) where
  abbrev pub config : RagRuntimeConfig
  config = s.config_store.current

  -- `retrieval_mode or self._default_retrieval_mode`
  abbrev pub mode_of : Option String → String
  mode_of none = s.default_retrieval_mode
  mode_of (some mode) = if str_eq mode "" then s.default_retrieval_mode else mode

  -- `self._retrieval_strategies[mode]`
  abbrev pub strategy_at : String → Result RetrievalStrategy
  strategy_at mode = elim (find_strategy mode s.retrieval_strategies) [
    | none ↦ raised (other "KeyError")
    | some strategy ↦ ok strategy
  ]

  unfoldable pub resolve : Option String → Result RetrievalStrategy
  resolve requested =
      let mode = mode_of requested in
      if has_strategy mode s.retrieval_strategies
      then if not (mem_mode mode s.allowed_retrieval_modes)
        then raised hybrid_retrieval_disabled
        else strategy_at mode
      else strategy_at s.default_retrieval_mode

  -- Only the treatment cohort widens the pool.
  abbrev pub pool_size : Request → Bool → RerankPlan → ℕ
  pool_size r enabled plan =
      if enabled && is_treatment plan.cohort then max r.top_k s.reranker_initial_top_k else r.top_k

  abbrev pub rerank_segment : Bool → RerankPlan → ℕ → String → String
  rerank_segment enabled plan candidates namespace =
      append_if (enabled && is_treatment plan.cohort)
        ("candidates=" ++ s.functions.py.str_of_int candidates)
        (append_if enabled plan.cache_namespace namespace)

  abbrev pub reflection_segment : Bool → SelfReflectionPlan → String → String
  reflection_segment enabled plan namespace =
      append_if enabled
        (plan.cache_namespace
          ++ ":reflection_top_k="
          ++ s.functions.py.str_of_int s.reflection_retrieval_top_k)
        namespace

  -- The namespace, segment after segment.
  abbrev pub namespace_of :
      RetrievalStrategy
      → Bool × RerankPlan × ℕ
      → Bool × HydePlan
      → Bool × CragPlan
      → Bool × SelfReflectionPlan
      → String
  namespace_of strategy (reranking, rerank_plan, candidates) (hyde, hyde_plan) (crag, crag_plan)
        (reflective, plan) =
      reflection_segment reflective plan (
        append_if crag crag_plan.cache_namespace (
          append_if hyde hyde_plan.cache_namespace (
            rerank_segment reranking rerank_plan candidates (
              strategy.cache_namespace
              ++ ":corpus="
              ++ int_text s.functions.py config.corpus_version))))

  unfoldable pub plan_request : Request → Action World Plans
  plan_request r = do
    strategy ← lift (resolve r.retrieval_mode)
    let reranking = effective r.reranking_enabled config.reranking_enabled
    rerank_plan ← lift (s.reranker.plan r.question config reranking)
    let hyde = effective r.hyde_enabled config.hyde_enabled && strategy.requires_dense_embedding
    hyde_plan ← lift (s.query_transformer.plan r.question config hyde)
    let crag = effective r.crag_enabled config.crag_enabled
    crag_plan ← lift (s.corrective_retriever.plan r.question config crag)
    let reflective = effective r.self_reflective_enabled config.self_reflective_enabled
    plan ← lift (s.self_reflection.plan r.question config reflective)
    let candidates = pool_size r reranking rerank_plan
    pure (record {
      strategy = strategy;
      reranking_enabled = reranking;
      rerank_plan = rerank_plan;
      candidate_top_k = candidates;
      hyde_can_run = hyde;
      hyde_plan = hyde_plan;
      crag_enabled = crag;
      crag_plan = crag_plan;
      self_reflective_enabled = reflective;
      self_reflection_plan = plan;
      cache_namespace =
          namespace_of strategy (reranking, rerank_plan, candidates) (hyde, hyde_plan)
            (crag, crag_plan) (reflective, plan);
    })

  unfoldable pub cache_key : String → ℕ → String → String
  cache_key question top_k namespace = s.functions.hexdigest (
      "rag:v8:"
      ++ namespace
      ++ ":"
      ++ s.functions.py.str_of_int top_k
      ++ ":"
      ++ join " " (s.functions.py.split question))

find_strategy-has :
    (mode : String) (strategies : List (String × RetrievalStrategy))
    → has_strategy mode strategies ≡ true
    → (strategy : RetrievalStrategy) × (find_strategy mode strategies ≡ some strategy)
find_strategy-has mode [] h = cc
find_strategy-has mode (entry ∷ entries) h = elim (Bool-cases (str_eq entry.0 mode)) [
  | inl here ↦ rw here (entry.1, refl)
  | inr elsewhere ↦
      let (strategy, found) = find_strategy-has mode entries (rw elsewhere at h) in
      rw elsewhere (strategy, found)
]

strategy_at-has :
    (s : RagService) (mode : String)
    → has_strategy mode s.retrieval_strategies ≡ true
    → (strategy : RetrievalStrategy) × (strategy_at s mode ≡ ok strategy)
strategy_at-has s mode h =
    let (strategy, found) = find_strategy-has mode s.retrieval_strategies h in
    rw (strategy_at, found) (strategy, refl)

-- The constructor refuses a default mode that is not registered.
new_service-default :
    (allowed : Option (List String)) (parts s : RagService)
    → new_service allowed parts ≡ ok s
    → has_strategy s.default_retrieval_mode s.retrieval_strategies ≡ true
unfolding new_service
new_service-default allowed parts s e =
    of_Ensures (λ made. has_strategy made.default_retrieval_mode made.retrieval_strategies ≡ true)
      (new_service allowed parts) s (made refl) e
  where
    made :
        {b : Bool}
        → has_strategy parts.default_retrieval_mode parts.retrieval_strategies ≡ b
        → Ensures
            (λ made. has_strategy made.default_retrieval_mode made.retrieval_strategies ≡ true)
            (new_service allowed parts)
    made {b = false} p = rw p tt
    made {b = true} p =
        elim (Bool-cases (
          mem_mode parts.default_retrieval_mode
            (allowed_or_all allowed parts.retrieval_strategies))) [
              | inl member ↦ rw (p, member) p
              | inr stranger ↦ rw (p, stranger) tt
            ]

-- On a service that its constructor made, a mode always resolves: to a strategy, or to the error of
-- a mode that is registered and not allowed. The lookup of a strategy never fails.
pub resolve_total :
    (allowed : Option (List String)) (parts s : RagService) (requested : Option String)
    → new_service allowed parts ≡ ok s
    → ((strategy : RetrievalStrategy) × (resolve s requested ≡ ok strategy))
      ⊎ ((resolve s requested ≡ raised hybrid_retrieval_disabled)
          × (has_strategy (mode_of s requested) s.retrieval_strategies ≡ true)
          × (mem_mode (mode_of s requested) s.allowed_retrieval_modes ≡ false))
unfolding resolve
resolve_total allowed parts s requested e =
    elim (Bool-cases (has_strategy (mode_of s requested) s.retrieval_strategies)) [
      | inr unknown ↦
          rw unknown (
            inl
              (strategy_at-has s s.default_retrieval_mode (new_service-default allowed parts s e)))
      | inl known ↦ elim (Bool-cases (mem_mode (mode_of s requested) s.allowed_retrieval_modes)) [
        | inl allowed_mode ↦
            rw (known, allowed_mode) (inl (strategy_at-has s (mode_of s requested) known))
        | inr refused ↦ rw (known, refused) (inr (refl, refl, refl))
      ]
    ]
