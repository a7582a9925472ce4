-- ===== src/Crag/Plan/Gates.antt =====
-- Which requests are corrected, and which of them may search the web.
use enterprise_rag.Prelude.{
  ℕ, String, ◌≡◌, refl, ◌↔◌, Bool, true, false, Option, List, arith, Bool-cases, inl, inr, ◌&&◌,
  not, ap, ◌∙◌,
}
use enterprise_rag.Errors.{Result, ok, Returns-if}
use enterprise_rag.PyText.{PyText}
use enterprise_rag.Rollout.{sampled_in}
use enterprise_rag.Rollout.Cohorts.{sampled_in_total}
use enterprise_rag.RuntimeConfig.{RagRuntimeConfig}
use enterprise_rag.RuntimeConfig.Validity.{IsValid}
use enterprise_rag.Crag.Grader.{GradeModel, GraderSettings}
use enterprise_rag.Crag.Grader.Contract.{grade-calls}
use enterprise_rag.Crag.Refiner.{SelectionModel, RefinerSettings}
use enterprise_rag.Crag.Refiner.Extraction.{refine_local-IsOffline}
use enterprise_rag.Crag.Corrective.{corrective_retriever}
use enterprise_rag.Crag.Corrective.WebGate.{wired, correct_chunks-IsOffline}
use enterprise_rag.Crag.Types.{
  SourceScopePolicy, WebRetriever, WebQueryFormulator, RetrievedChunk, CragOutcome, Calls, searches,
  CorrectiveRetriever, CragCohort, disabled, control, shadow, treatment, CragPlan, local_evidence,
}
use enterprise_rag.Crag.FailSafe.{Answered, fail_safe_correct, fail_safe_total}
use enterprise_rag.Crag.Plan.{
  dynamic_by_cohort, sampled_plan, dynamic_plan, dynamic_execute, noop_execute,
}

module _ (delegate : CorrectiveRetriever) (py : PyText) (question : String)
    (config : RagRuntimeConfig) (enabled : Bool) where
  abbrev sampling : Result Bool
  sampling = sampled_in py question config.crag_rollout_percentage "crag:v1"

  -- What a plan says of the settings that it was made from.
  pub record IsGated (p : CragPlan) : Type 0 where
    pub treated : (p.cohort ≡ treatment) ↔ (
        (enabled ≡ true)
        × (config.emergency_disabled ≡ false)
        × (config.crag_shadow_enabled ≡ false)
        × (sampling ≡ ok true))
    pub shadowed : (p.cohort ≡ shadow) ↔ (
        (enabled ≡ true)
        × (config.emergency_disabled ≡ false)
        × (config.crag_shadow_enabled ≡ true))
    pub web : (p.allow_web ≡ true) ↔ ((p.cohort ≡ treatment) × (config.crag_web_enabled ≡ true))

  dynamic_plan-IsGated :
      (p : CragPlan) → dynamic_plan delegate py question config enabled ≡ ok p → IsGated p
  unfolding dynamic_plan
  dynamic_plan-IsGated p e = record {
    treated = (λ h. ground arith, λ h. ground arith);
    shadowed = (λ h. ground arith, λ h. ground arith);
    web = (λ h. ground arith, λ h. ground arith);
  }

  -- On a valid snapshot planning never raises. The plan treats the question exactly when the
  -- feature is on, no emergency or shadow mode is set and the rollout samples the question in; it
  -- shadows it exactly in shadow mode; and only a treated question may search the web, and only
  -- where the snapshot enables that.
  pub dynamic_plan_total :
      IsValid config
      → (p : CragPlan) × (dynamic_plan delegate py question config enabled ≡ ok p) × IsGated p
  dynamic_plan_total valid = let (p, e) = planned in (p, e, dynamic_plan-IsGated p e)
    where
      planned : (p : CragPlan) × (dynamic_plan delegate py question config enabled ≡ ok p)
      planned =
          let (sampled, e) =
            sampled_in_total py question "crag:v1" config.crag_rollout_percentage
              valid.crag_percent in
          unfold dynamic_plan in
          Returns-if (not enabled) _ _ (_, refl)
            (Returns-if config.emergency_disabled _ _ (_, refl)
              (Returns-if config.crag_shadow_enabled _ _ (_, refl)
                (sampled_plan delegate config sampled, rw e refl)))

  plan_closed :
      (p : CragPlan)
      → dynamic_plan delegate py question config enabled ≡ ok p
      → (enabled
          && not config.emergency_disabled
          && not config.crag_shadow_enabled
          && config.crag_web_enabled)
        ≡ false
      → p.allow_web ≡ false
  unfolding dynamic_plan
  plan_closed p e closed = ground arith

abbrev pub runs : CragCohort → Bool
runs treatment = true
runs shadow = true
runs control = false
runs disabled = false

module _ (delegate : CorrectiveRetriever) (question : String) (chunks : List RetrievedChunk)
    (p : CragPlan) (h : Calls) where
  -- What executing a plan gives.
  pub record IsHandled (cohort : CragCohort) (out : Result CragOutcome × Calls) : Type 0 where
    pub outcome : CragOutcome
    pub returned : out.0 ≡ ok outcome
    pub passed_on :
        runs cohort ≡ false
        → (out.1 ≡ h) × (outcome.evidence ≡ local_evidence chunks) × (outcome.abstain ≡ false)
    pub delegated :
        runs cohort ≡ true
        → (out.1 ≡ (delegate.correct question chunks p.allow_web h).1)
          × Answered delegate chunks (delegate.correct question chunks p.allow_web h).0 outcome

  noop-IsHandled :
      (cohort : CragCohort)
      → runs cohort ≡ false
      → IsHandled cohort (noop_execute question chunks p h)
  unfolding noop_execute
  noop-IsHandled cohort idle = record {
    outcome = _;
    returned = refl;
    passed_on = λ _. (refl, refl, refl);
    delegated = λ running. cc;
  }

  fail_safe-IsHandled :
      (cohort : CragCohort)
      → runs cohort ≡ true
      → IsHandled cohort (fail_safe_correct delegate question chunks p.allow_web h)
  fail_safe-IsHandled cohort running =
      let (o, same, answered) = fail_safe_total delegate question chunks p.allow_web h in
      record {
        outcome = o;
        returned = ap (λ (r : Result CragOutcome × Calls). r.0) same;
        passed_on = λ idle. cc;
        delegated = λ _. (ap (λ (r : Result CragOutcome × Calls). r.1) same, answered);
      }

  by_cohort-IsHandled :
      (cohort : CragCohort)
      → IsHandled cohort (dynamic_by_cohort delegate cohort question chunks p h)
  unfolding dynamic_by_cohort
  by_cohort-IsHandled treatment = fail_safe-IsHandled treatment refl
  by_cohort-IsHandled shadow = fail_safe-IsHandled shadow refl
  by_cohort-IsHandled control = noop-IsHandled control refl
  by_cohort-IsHandled disabled = noop-IsHandled disabled refl

  -- Executing a plan never raises. In the disabled and the control cohorts it passes the retrieved
  -- chunks on as they are and calls nothing; in the treatment and the shadow cohorts the delegate
  -- is called, and its outcome is served as it is or, if it raised, replaced by the local evidence
  -- marked as a fallback that abstains exactly when there is no chunk.
  pub dynamic_execute_total : IsHandled p.cohort (dynamic_execute delegate question chunks p h)
  unfolding dynamic_execute
  dynamic_execute_total = by_cohort-IsHandled p.cohort

module _ (py : PyText) (gm : GradeModel) (gs : GraderSettings) (sm : SelectionModel)
    (rs : RefinerSettings) (scope : SourceScopePolicy) (web : Option WebRetriever)
    (formulator : Option WebQueryFormulator) (min_evidence : ℕ) where
  abbrev delegate : CorrectiveRetriever
  delegate = corrective_retriever (wired py gm gs sm rs scope web formulator min_evidence) py

  -- A request that may not search the web does not, in the production wiring and through planning,
  -- the availability boundary and the correction: a plan made while the feature or its web step is
  -- off, or an emergency or the shadow mode is on, searches nothing, whatever the models answer.
  pub searches-dynamic_execute :
      (question : String) (chunks : List RetrievedChunk) (config : RagRuntimeConfig)
      (enabled : Bool) (p : CragPlan) (h : Calls)
      → dynamic_plan delegate py question config enabled ≡ ok p
      → (enabled
          && not config.emergency_disabled
          && not config.crag_shadow_enabled
          && config.crag_web_enabled)
        ≡ false
      → searches (dynamic_execute delegate question chunks p h).1 ≡ searches h
  searches-dynamic_execute question chunks config enabled p h planned closed =
      let handled = dynamic_execute_total delegate question chunks p h in
      elim (Bool-cases (runs p.cohort)) [
        | inl running ↦
            ap searches (handled.delegated running).0
            ∙ (correct_chunks-IsOffline (wired py gm gs sm rs scope web formulator min_evidence)
                  question p.allow_web chunks
                  (rw (plan_closed delegate py question config enabled p planned closed) refl)
                  (record { at = λ h. (grade-calls gm gs question chunks h).0 })
                  (λ grade. refine_local-IsOffline py sm rs question chunks grade)).at
                h
        | inr idle ↦ ap searches (handled.passed_on idle).0
      ]
