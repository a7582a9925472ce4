-- ===== src/Rag/Rerank/Bounds.antt =====
-- What app/rag_services/reranker/dynamic_reranker.py answers, whatever its backends do.
use enterprise_rag.Prelude.{
  ℕ, String, ◌≡◌, ◌≢◌, refl, Bool, true, false, not, ◌⊎◌, inl, inr, Option-cases, none, some, List,
  ◌∷◌, take, arith, if◌then◌else◌,
}
use enterprise_rag.PyText.{PyText}
use enterprise_rag.Errors.{
  Result, ok, raised, Result-cases, Ensures, of_Ensures, Returns, Returns-if,
}
use enterprise_rag.Rollout.{sampled_in}
use enterprise_rag.RuntimeConfig.{RagRuntimeConfig, RerankerBackendName, local, voyage}
use enterprise_rag.RuntimeConfig.Validity.{IsValid}
use enterprise_rag.Rollout.Cohorts.{sampled_in_total}
use enterprise_rag.Crag.Types.{RetrievedChunk}
use enterprise_rag.Rag.World.{Calls, metric_call, rerank as rerank_metric}
use enterprise_rag.Rag.Rerank.{
  ReRanker, ReRankOutcome, RerankPlan, disabled, DynamicReranker, in_order, is_treatment,
  noop_rerank, noop_reranker, fallen_back, fail_open_rerank, delegate_of, sampled_rerank_plan,
  dynamic_rerank_plan, execute_with, dynamic_rerank_execute, rerank_by_fallback, backend_text,
  bypassed, treatment_plan,
}

-- The candidates as they were retrieved, cut at `top_k`, and not marked as reranked.
abbrev pub IsRetrievalOrder : List RetrievedChunk → ℕ → ReRankOutcome → Type 0
IsRetrievalOrder candidates top_k out =
    (out.items ≡ in_order 1 (take top_k candidates)) × (out.applied ≡ false)

pub noop_rerank-eq :
    (query : String) (candidates : List RetrievedChunk) (top_k : ℕ) (calls : Calls)
    → top_k ≢ 0
    → noop_rerank query candidates top_k calls ≡ (
      ok (record {
        items = in_order 1 (take top_k candidates);
        backend = "none";
        applied = false;
        fallback = false;
        usage_tokens = none;
      }),
      calls,
    )
unfolding noop_rerank
noop_rerank-eq query candidates top_k calls positive = ground arith

-- The items and marks of what came from no backend.
abbrev pub IsFallback : List RetrievedChunk → ℕ → ReRankOutcome → Type 0
IsFallback candidates top_k out =
    (out.items ≡ in_order 1 (take top_k candidates)) × (out.applied ≡ false) × (out.fallback ≡ true)

-- What a backend that was asked leaves: its own answer, or the retrieval order marked as a fallback.
abbrev pub IsAnswered : Result ReRankOutcome → List RetrievedChunk → ℕ → ReRankOutcome → Type 0
IsAnswered (ok own) candidates top_k out = out ≡ own
IsAnswered (raised e) candidates top_k out = IsFallback candidates top_k out

-- The same for a backend that may not be configured.
abbrev pub IsAnsweredBy :
    Result ReRanker → String → List RetrievedChunk → ℕ → Calls → ReRankOutcome → Type 0
IsAnsweredBy (ok r) query candidates top_k calls out =
    IsAnswered (r.rerank query candidates top_k calls).0 candidates top_k out
IsAnsweredBy (raised e) query candidates top_k calls out = IsFallback candidates top_k out

module _ (query : String) (candidates : List RetrievedChunk) (top_k : ℕ)
    (positive : top_k ≢ 0) where
  pub fail_open_rerank_total :
      (r : ReRanker) (calls : Calls)
      → (out : ReRankOutcome) × ((fail_open_rerank
            (record { delegate = r; fallback = some noop_reranker })
            query
            candidates
            top_k
            calls).0
          ≡ ok out)
        × IsAnswered (r.rerank query candidates top_k calls).0 candidates top_k out
  unfolding fail_open_rerank rerank_by_fallback
  fail_open_rerank_total r calls = elim (Result-cases (r.rerank query candidates top_k calls).0) [
    | inl (own, e) ↦ rw e (own, refl, refl)
    | inr (x, e) ↦
        rw
          (
            e,
            noop_rerank-eq query candidates top_k (r.rerank query candidates top_k calls).1
                positive,
          )
          (fallen_back r.name (in_order 1 (take top_k candidates)), refl, (refl, refl, refl))
  ]

  execute_with_total :
      (d : DynamicReranker) (backend : RerankerBackendName) (calls : Calls)
      (known : Result ReRanker)
      → (out : ReRankOutcome) × ((execute_with d backend known query candidates top_k calls).0
          ≡ ok out)
        × IsAnsweredBy known query candidates top_k calls out
  execute_with_total d backend calls (ok r) =
      let (out, e, h) = fail_open_rerank_total r calls in (out, rw e refl, h)
  execute_with_total d backend calls (raised x) = (
    fallen_back (backend_text backend) (in_order 1 (take top_k candidates)),
    rw
        (noop_rerank-eq query candidates top_k (metric_call (rerank_metric true none) ∷ calls)
          positive)
        refl,
    (refl, refl, refl),
  )

module _ (d : DynamicReranker) where
  -- A treatment plan names its backend.
  abbrev pub HasBackend : RerankPlan → Type 0
  HasBackend plan =
      (is_treatment plan.cohort ≡ false)
      ⊎ ((is_treatment plan.cohort ≡ true)
          × (backend : RerankerBackendName) × (plan.backend_key ≡ some backend))

  treatment_plan-HasBackend :
      (backend : RerankerBackendName) (known : Result ReRanker)
      → HasBackend (treatment_plan d backend known)
  treatment_plan-HasBackend backend (ok r) = inr (refl, backend, refl)
  treatment_plan-HasBackend backend (raised e) = inr (refl, backend, refl)

  sampled-HasBackend :
      (config : RagRuntimeConfig) (sampled : Bool)
      → HasBackend (sampled_rerank_plan d config sampled)
  sampled-HasBackend config false = inl refl
  sampled-HasBackend config true =
      treatment_plan-HasBackend config.reranker_backend (delegate_of d config.reranker_backend)

  pub dynamic_rerank_plan-HasBackend :
      (py : PyText) (query : String) (config : RagRuntimeConfig) (enabled : Bool)
      (plan : RerankPlan)
      → dynamic_rerank_plan d py query config enabled ≡ ok plan
      → HasBackend plan
  unfolding dynamic_rerank_plan
  dynamic_rerank_plan-HasBackend py query config enabled plan e =
      of_Ensures HasBackend (dynamic_rerank_plan d py query config enabled) plan
        (planned enabled config.emergency_disabled
          (sampled_in py query config.reranker_rollout_percentage "reranker:v1"))
        e
    where
      planned :
          (on emergency : Bool) (r : Result Bool)
          → Ensures HasBackend (
              if not on
              then ok (bypassed disabled "disabled")
              else if emergency
              then ok (bypassed disabled "emergency_disabled")
              else elim r [
                | ok sampled ↦ ok (sampled_rerank_plan d config sampled)
                | raised e ↦ raised e
              ])
      planned false emergency r = inl refl
      planned true true r = inl refl
      planned true false (ok sampled) = sampled-HasBackend config sampled
      planned true false (raised e) = tt

  -- The local backend's own answer; or that of the other backend, and where that is not configured
  -- the retrieval order as a fallback.
  abbrev pub IsServedBy :
      RerankerBackendName → String → List RetrievedChunk → ℕ → Calls → ReRankOutcome → Type 0
  IsServedBy local query candidates top_k calls out =
      IsAnswered (d.local_reranker.rerank query candidates top_k calls).0 candidates top_k out
  IsServedBy voyage query candidates top_k calls out = elim d.voyage_reranker [
    | none ↦ IsFallback candidates top_k out
    | some r ↦ IsAnswered (r.rerank query candidates top_k calls).0 candidates top_k out
  ]

  delegate-IsServedBy :
      (backend : RerankerBackendName) (query : String) (candidates : List RetrievedChunk)
      (top_k : ℕ) (calls : Calls) (out : ReRankOutcome)
      → IsAnsweredBy (delegate_of d backend) query candidates top_k calls out
      → IsServedBy backend query candidates top_k calls out
  delegate-IsServedBy local query candidates top_k calls out h = h
  delegate-IsServedBy voyage query candidates top_k calls out h =
      elim (Option-cases d.voyage_reranker) [
        | inl e ↦ rw (IsServedBy, e) (rw e at h)
        | inr (r, e) ↦ rw (IsServedBy, e) (rw e at h)
      ]

  -- For a positive number of results, every plan that the planner makes can be executed, whatever
  -- the backends do: outside the treatment cohort the retrieval order is cut and kept; inside it
  -- the answer is the backend's own, or, when the backend raised or is not configured, the
  -- retrieval order cut and marked as a fallback.
  pub dynamic_rerank_execute_total :
      (py : PyText) (query : String) (config : RagRuntimeConfig) (enabled : Bool)
      (plan : RerankPlan) (candidates : List RetrievedChunk) (top_k : ℕ) (calls : Calls)
      → dynamic_rerank_plan d py query config enabled ≡ ok plan
      → top_k ≢ 0
      → (out : ReRankOutcome) × ((dynamic_rerank_execute d plan query candidates top_k calls).0
          ≡ ok out)
        × (((is_treatment plan.cohort ≡ false) × IsRetrievalOrder candidates top_k out)
            ⊎ ((backend : RerankerBackendName) × (plan.backend_key ≡ some backend)
                × IsServedBy backend query candidates top_k calls out))
  unfolding dynamic_rerank_execute
  dynamic_rerank_execute_total py query config enabled plan candidates top_k calls planned
        positive =
      elim (dynamic_rerank_plan-HasBackend py query config enabled plan planned) [
        | inl bypass ↦
            rw (bypass, noop_rerank-eq query candidates top_k calls positive)
              (_, refl, inl (refl, (refl, refl)))
        | inr (treated, backend, key) ↦
            let (out, e, h) =
              execute_with_total query candidates top_k positive d backend calls
                (delegate_of d backend) in
            rw (treated, key)
              (
                out,
                e,
                inr (backend, refl, delegate-IsServedBy backend query candidates top_k calls out h),
              )
      ]

  -- A valid configuration always has a plan.
  pub dynamic_rerank_plan_total :
      (py : PyText) (query : String) (config : RagRuntimeConfig) (enabled : Bool)
      → IsValid config
      → Returns (dynamic_rerank_plan d py query config enabled)
  dynamic_rerank_plan_total py query config enabled valid =
      let (sampled, e) =
        sampled_in_total py query "reranker:v1" config.reranker_rollout_percentage
          valid.reranker_percent in
      unfold dynamic_rerank_plan in
      Returns-if (not enabled) _ _ (_, refl)
        (Returns-if config.emergency_disabled _ _ (_, refl)
          (sampled_rerank_plan d config sampled, rw e refl))
