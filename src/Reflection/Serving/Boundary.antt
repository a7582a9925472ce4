-- ===== src/Reflection/Serving/Boundary.antt =====
-- The availability boundary around any reflection engine
-- (app/rag_services/reflection/dynamic_self_reflection.py).
use enterprise_rag.Prelude.{String, refl, Bool, List}
use enterprise_rag.Errors.{Result, ok, raised, Returns, caught, pure}
use enterprise_rag.Crag.Types.{EvidenceChunk}
use enterprise_rag.Reflection.Types.{
  SelfReflectionOutcome, Calls, EvidenceAugmenter, SelfReflectionEngine,
}
use enterprise_rag.Reflection.Serving.{
  ReflectionCohort, disabled, control, shadow, treatment, SelfReflectionPlan,
  noop_reflection_execute, reflection_fallback, fail_safe_reflect, dynamic_by_cohort,
  dynamic_reflection_execute,
}

module _ (delegate : SelfReflectionEngine) (question : String) (evidence : List EvidenceChunk)
    (answer : String) (augmenter : EvidenceAugmenter) (p : SelfReflectionPlan) (h : Calls) where
  caught-Returns :
      (r : Result SelfReflectionOutcome) (calls : Calls)
      → Returns (caught r (λ e. pure (reflection_fallback evidence answer)) calls).0
  caught-Returns (ok o) calls = (o, refl)
  caught-Returns (raised e) calls = (reflection_fallback evidence answer, refl)

  fail_safe-Returns :
      (allow : Bool)
      → Returns (fail_safe_reflect delegate question evidence answer augmenter allow h).0
  unfolding fail_safe_reflect
  fail_safe-Returns allow =
      caught-Returns (delegate.reflect question evidence answer augmenter allow h).0
        (delegate.reflect question evidence answer augmenter allow h).1

  by_cohort-Returns :
      (cohort : ReflectionCohort)
      → Returns (dynamic_by_cohort delegate cohort question evidence answer augmenter p h).0
  unfolding dynamic_by_cohort noop_reflection_execute
  by_cohort-Returns treatment = fail_safe-Returns p.allow_retrieval
  by_cohort-Returns shadow = fail_safe-Returns p.allow_retrieval
  by_cohort-Returns control = (_, refl)
  by_cohort-Returns disabled = (_, refl)

  -- Executing a plan never raises, whatever the engine is.
  pub dynamic_reflection_execute-Returns :
      Returns (dynamic_reflection_execute delegate question evidence answer augmenter p h).0
  unfolding dynamic_reflection_execute
  dynamic_reflection_execute-Returns = by_cohort-Returns p.cohort
