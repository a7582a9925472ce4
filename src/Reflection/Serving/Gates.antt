-- ===== src/Reflection/Serving/Gates.antt =====
-- Which requests reflect, what they may spend, and what they can be answered with.
use enterprise_rag.Prelude.{
  if◌then◌else◌, ◌+◌, ◌≤◌, String, ◌≡◌, refl, ◌↔◌, ◌⊎◌, inl, inr, Bool, true, false, List, arith,
  not,
}
use enterprise_rag.Errors.{Result, ok, raised, Returns-if, caught, pure}
use enterprise_rag.Prelude.Float.{Float}
use enterprise_rag.PyText.{PyText}
use enterprise_rag.Rollout.{sampled_in}
use enterprise_rag.Rollout.Cohorts.{sampled_in_total}
use enterprise_rag.RuntimeConfig.{RagRuntimeConfig}
use enterprise_rag.RuntimeConfig.Validity.{IsValid}
use enterprise_rag.Crag.Types.{EvidenceChunk}
use enterprise_rag.Reflection.Types.{
  SelfReflectionOutcome, Calls, critiques, revisions, retrievals, EvidenceAugmenter,
  SelfReflectionEngine,
}
use enterprise_rag.Reflection.Engine.{
  StructuredSelfReflectionEngine, World, abstention, structured_engine,
}
use enterprise_rag.Reflection.Engine.Bounds.{IsServed}
use enterprise_rag.Reflection.Engine.Contract.{IsReflection, reflect_bounded}
use enterprise_rag.Reflection.Serving.{
  ReflectionCohort, disabled, control, shadow, treatment, SelfReflectionPlan,
  sampled_reflection_plan, noop_reflection_execute, untouched, reflection_fallback,
  fail_safe_reflect, dynamic_reflection_plan, dynamic_by_cohort, dynamic_reflection_execute,
}

module _ (delegate : SelfReflectionEngine) (py : PyText) (question : String)
    (config : RagRuntimeConfig) (enabled : Bool) where
  abbrev sampling : Result Bool
  sampling = sampled_in py question config.self_reflective_rollout_percentage "self_reflective:v1"

  -- What a plan says of the settings that it was made from.
  pub record IsGated (p : SelfReflectionPlan) : Type 0 where
    pub treated : (p.cohort ≡ treatment) ↔ (
        (enabled ≡ true)
        × (config.emergency_disabled ≡ false)
        × (config.self_reflective_shadow_enabled ≡ false)
        × (sampling ≡ ok true))
    pub shadowed : (p.cohort ≡ shadow) ↔ (
        (enabled ≡ true)
        × (config.emergency_disabled ≡ false)
        × (config.self_reflective_shadow_enabled ≡ true))
    pub retrieval :
        (p.allow_retrieval ≡ true)
        ↔ ((p.cohort ≡ treatment) × (config.self_reflective_retrieval_enabled ≡ true))

  dynamic_reflection_plan-IsGated :
      (p : SelfReflectionPlan)
      → dynamic_reflection_plan delegate py question config enabled ≡ ok p
      → IsGated p
  unfolding dynamic_reflection_plan
  dynamic_reflection_plan-IsGated p e = record {
    treated = (λ h. ground arith, λ h. ground arith);
    shadowed = (λ h. ground arith, λ h. ground arith);
    retrieval = (λ h. ground arith, λ h. ground arith);
  }

  -- On a valid snapshot planning never raises. A question is treated exactly when the feature is
  -- on, no emergency or shadow mode is set and the rollout samples it in; it is shadowed exactly in
  -- shadow mode; and only a treated question may retrieve more evidence, and only where the
  -- snapshot enables that.
  pub dynamic_reflection_plan_total :
      IsValid config
      → (p : SelfReflectionPlan) × (dynamic_reflection_plan delegate py question config enabled
          ≡ ok p)
        × IsGated p
  dynamic_reflection_plan_total valid =
      let (p, e) = planned in (p, e, dynamic_reflection_plan-IsGated p e)
    where
      planned :
          (p : SelfReflectionPlan) × (dynamic_reflection_plan delegate py question config enabled
            ≡ ok p)
      planned =
          let (sampled, e) =
            sampled_in_total py question "self_reflective:v1"
              config.self_reflective_rollout_percentage valid.reflective_percent in
          unfold dynamic_reflection_plan in
          Returns-if (not enabled) _ _ (_, refl)
            (Returns-if config.emergency_disabled _ _ (_, refl)
              (Returns-if config.self_reflective_shadow_enabled _ _ (_, refl)
                (sampled_reflection_plan delegate config sampled, rw e refl)))

abbrev pub runs : ReflectionCohort → Bool
runs treatment = true
runs shadow = true
runs control = false
runs disabled = false

module _ (w : World) (py : PyText) (engine : StructuredSelfReflectionEngine) (question : String)
    (evidence : List EvidenceChunk) (answer : String) (augmenter : EvidenceAugmenter)
    (p : SelfReflectionPlan) (h : Calls) where
  -- What executing a plan gives.
  pub record IsHandled (cohort : ReflectionCohort) (out : Result SelfReflectionOutcome × Calls)
      : Type 0 where
    pub outcome : SelfReflectionOutcome
    pub returned : out.0 ≡ ok outcome
    pub idle : runs cohort ≡ false → (out.1 ≡ h) × (outcome.answer ≡ answer)
    pub critiques_le : critiques out.1 ≤ critiques h + (engine.max_iterations + 1)
    pub revisions_le : revisions out.1 ≤ revisions h + engine.max_iterations
    pub retrievals_le :
        retrievals out.1 ≤ retrievals h + (if p.allow_retrieval then engine.max_retrievals else 0)
    pub answered :
        (outcome.answer ≡ answer)
        ⊎ (outcome.answer ≡ abstention)
        ⊎ ((deadline : Float) × IsServed w py engine question augmenter p.allow_retrieval deadline
              outcome)

  noop-IsHandled :
      (cohort : ReflectionCohort)
      → runs cohort ≡ false
      → IsHandled cohort (noop_reflection_execute question evidence answer augmenter p h)
  unfolding noop_reflection_execute untouched
  noop-IsHandled cohort idle = record {
    outcome = _;
    returned = refl;
    idle = λ _. (refl, refl);
    critiques_le = omega arith;
    revisions_le = omega arith;
    retrievals_le = omega arith;
    answered = inl refl;
  }

  caught-IsHandled :
      (cohort : ReflectionCohort) (r : Result SelfReflectionOutcome) (end : Calls)
      → runs cohort ≡ true
      → IsReflection w py engine question augmenter p.allow_retrieval h (r, end)
      → IsHandled cohort (caught r (λ e. pure (reflection_fallback evidence answer)) end)
  unfolding reflection_fallback
  caught-IsHandled cohort (ok o) end running k = record {
    outcome = o;
    returned = refl;
    idle = λ stopped. cc;
    critiques_le = let b = k.critiques_le in omega arith;
    revisions_le = k.revisions_le;
    retrievals_le = k.retrievals_le;
    answered = elim k.outcome.served [
      | inl served ↦ inr (inr (k.deadline, served))
      | inr abstained ↦ inr (inl abstained.answer)
    ];
  }
  caught-IsHandled cohort (raised e) end running k = record {
    outcome = _;
    returned = refl;
    idle = λ stopped. cc;
    critiques_le = let b = k.critiques_le in omega arith;
    revisions_le = k.revisions_le;
    retrievals_le = k.retrievals_le;
    answered = inl refl;
  }

  fail_safe-IsHandled :
      (cohort : ReflectionCohort)
      → runs cohort ≡ true
      → IsHandled cohort (
          fail_safe_reflect
            (structured_engine w py engine)
            question
            evidence
            answer
            augmenter
            p.allow_retrieval
            h)
  unfolding fail_safe_reflect
  fail_safe-IsHandled cohort running =
      let (end, _, same, reflection) =
        reflect_bounded w py engine question augmenter p.allow_retrieval evidence answer h in
      rw same (caught-IsHandled cohort end.0 end.1 running reflection)

  by_cohort-IsHandled :
      (cohort : ReflectionCohort)
      → IsHandled cohort (
          dynamic_by_cohort
            (structured_engine w py engine)
            cohort
            question
            evidence
            answer
            augmenter
            p
            h)
  unfolding dynamic_by_cohort
  by_cohort-IsHandled treatment = fail_safe-IsHandled treatment refl
  by_cohort-IsHandled shadow = fail_safe-IsHandled shadow refl
  by_cohort-IsHandled control = noop-IsHandled control refl
  by_cohort-IsHandled disabled = noop-IsHandled disabled refl

  -- Executing a plan with the production engine never raises, and stays within the engine's
  -- budgets, with no retrieval at all where the plan does not allow it. Outside the treatment and
  -- the shadow cohorts nothing is called. The answer that comes out is the initial one as it was,
  -- the abstention, or one that the policy accepted on the critic's judgement; a partly revised
  -- answer never comes out.
  pub dynamic_reflection_execute_total : IsHandled p.cohort (
      dynamic_reflection_execute
        (structured_engine w py engine)
        question
        evidence
        answer
        augmenter
        p
        h)
  unfolding dynamic_reflection_execute
  dynamic_reflection_execute_total = by_cohort-IsHandled p.cohort
