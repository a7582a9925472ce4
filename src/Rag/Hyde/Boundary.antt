-- ===== src/Rag/Hyde/Boundary.antt =====
-- The availability boundary around query expansion
-- (app/rag_services/hyde/dynamic_query_transformer.py).
use enterprise_rag.Prelude.{
  String, ◌≡◌, refl, Bool, true, false, not, Bool-cases, ◌⊎◌, inl, inr, [], ◌∷◌,
}
use enterprise_rag.PyText.{PyText}
use enterprise_rag.Errors.{Result, ok, raised, Result-cases, Returns, Returns-if}
use enterprise_rag.Rollout.Cohorts.{sampled_in_total}
use enterprise_rag.RuntimeConfig.{RagRuntimeConfig}
use enterprise_rag.RuntimeConfig.Validity.{IsValid}
use enterprise_rag.Rag.World.{Calls}
use enterprise_rag.Rag.Hyde.{
  QueryTransformOutcome, QueryTransformer, HydePlan, is_treatment, or_disabled, noop_transform,
  transform_fallback, fail_open_transform, sampled_hyde_plan, dynamic_hyde_plan,
  dynamic_hyde_execute,
}

-- How a result of the delegate is answered: as it is if it returned, otherwise by the question itself,
-- marked as a fallback.
abbrev pub IsExpanded : String → Result QueryTransformOutcome → QueryTransformOutcome → Type 0
IsExpanded query (ok own) out = out ≡ own
IsExpanded query (raised e) out =
    (out.retrieval_texts ≡ query ∷ []) × (out.applied ≡ false) × (out.fallback ≡ true)

module _ (delegate : QueryTransformer) where
  -- Executing a plan of the production transformer never raises. Outside the treatment cohort the
  -- text to embed is the question and nothing is called; inside it the answer is the delegate's, or,
  -- where the delegate raised, the question itself, marked as a fallback.
  pub dynamic_hyde_execute_total :
      (query : String) (plan : HydePlan) (calls : Calls)
      → (out : QueryTransformOutcome) × ((dynamic_hyde_execute delegate query plan calls).0
          ≡ ok out)
        × (((is_treatment plan.cohort ≡ false)
              × (out.retrieval_texts ≡ query ∷ [])
              × (out.applied ≡ false)
              × ((dynamic_hyde_execute delegate query plan calls).1 ≡ calls))
            ⊎ ((is_treatment plan.cohort ≡ true)
                × IsExpanded query (delegate.transform query calls).0 out))
  unfolding dynamic_hyde_execute fail_open_transform
  dynamic_hyde_execute_total query plan calls = elim (Bool-cases (is_treatment plan.cohort)) [
    | inr bypassed ↦
        rw bypassed (
          noop_transform (or_disabled plan.bypass_reason) query,
          refl,
          inl (refl, refl, refl, refl),
        )
    | inl treated ↦ elim (Result-cases (delegate.transform query calls).0) [
      | inl (own, e) ↦ rw (treated, e) (own, refl, inr (refl, refl))
      | inr (x, e) ↦
          rw (treated, e)
            (transform_fallback delegate.name query, refl, inr (refl, (refl, refl, refl)))
    ]
  ]

  pub dynamic_hyde_plan_total :
      (py : PyText) (query : String) (config : RagRuntimeConfig) (enabled : Bool)
      → IsValid config
      → Returns (dynamic_hyde_plan delegate py query config enabled)
  dynamic_hyde_plan_total py query config enabled valid =
      let (sampled, e) =
        sampled_in_total py query "hyde:v1" config.hyde_rollout_percentage valid.hyde_percent in
      unfold dynamic_hyde_plan in
      Returns-if (not enabled) _ _ (_, refl)
        (Returns-if config.emergency_disabled _ _ (_, refl)
          (sampled_hyde_plan delegate sampled, rw e refl))
