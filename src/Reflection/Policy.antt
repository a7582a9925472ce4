-- ===== src/Reflection/Policy.antt =====
-- `ThresholdReflectionDecisionPolicy` of app/rag_services/reflection/reflection_critic.py: the
-- model scores, the code decides.
use Prim.Native.String.{◌++◌}
use enterprise_rag.Prelude.{
  ◌<◌, String, ◌≡◌, ◌↔◌, Bool, true, false, not, ◌&&◌, ◌||◌, List, [], is_empty, ltb, arith,
  if◌then◌else◌,
}
use enterprise_rag.Prelude.Int.{ℤ, leb_ℤ, ◌≤ℤ◌}
use enterprise_rag.Prelude.Float.{Float, le, lt}
use enterprise_rag.PyText.{PyText}
use enterprise_rag.Reflection.Types.{
  SupportLevel, full, partial, none_at_all, ReflectionAction, accept, revise, retrieve_more,
  abstain, ReflectionCritique, ReflectionBudget, ReflectionState, ReflectionDecisionPolicy,
}

pub record ThresholdReflectionDecisionPolicy : Type 0 where
  pub min_evidence : Float
  pub min_answer : Float
  pub min_citations : Float
  pub min_utility : ℤ

is_full : SupportLevel → Bool
is_full full = true
is_full partial = false
is_full none_at_all = false

is_none : SupportLevel → Bool
is_none full = false
is_none partial = false
is_none none_at_all = true

module _ (p : ThresholdReflectionDecisionPolicy) where
  pub policy_namespace : PyText → (ℤ → String) → String
  policy_namespace py str =
      "policy:v1:evidence="
      ++ py.fixed3 p.min_evidence
      ++ ":answer="
      ++ py.fixed3 p.min_answer
      ++ ":citations="
      ++ py.fixed3 p.min_citations
      ++ ":utility="
      ++ str p.min_utility

  supported : ReflectionCritique → List String → Bool
  supported critique claims =
      is_full critique.support_level && is_empty critique.unsupported_claims && is_empty claims

  quality_pass : ReflectionCritique → List String → Bool
  quality_pass critique claims =
      supported critique claims
      && le p.min_evidence critique.evidence_relevance
      && le p.min_answer critique.answer_relevance
      && le p.min_citations critique.citation_completeness
      && leb_ℤ p.min_utility critique.utility
      && is_empty critique.missing_aspects

  evidence_insufficient : ReflectionCritique → Bool
  evidence_insufficient critique =
      critique.retrieval_needed
      || lt critique.evidence_relevance p.min_evidence
      || is_none critique.support_level

  evidence_usable : ReflectionCritique → Bool
  evidence_usable critique =
      le p.min_evidence critique.evidence_relevance && not (is_none critique.support_level)

  pub decide :
      ReflectionCritique → ReflectionState → ReflectionBudget → List String → ReflectionAction
  decide critique state budget claims =
      if quality_pass critique claims
      then accept
      else (let retrieval_budget =
            ltb state.additional_retrievals budget.max_additional_retrievals in
          let revision_budget = ltb state.iteration budget.max_iterations in
          if evidence_insufficient critique && retrieval_budget && revision_budget
          then retrieve_more
          else if evidence_usable critique && revision_budget
          then revise
          else abstain)

  abbrev pub threshold_policy : PyText → (ℤ → String) → ReflectionDecisionPolicy
  threshold_policy py str = record { cache_namespace = policy_namespace py str; decide = decide }

  -- The quality bar: full support by the model's and by the deterministic check, every score at
  -- its threshold, and nothing missing.
  pub record PassesBar (critique : ReflectionCritique) (claims : List String) : Type 0 where
    pub fully_supported : critique.support_level ≡ full
    pub no_unsupported : critique.unsupported_claims ≡ []
    pub no_flagged : claims ≡ []
    pub evidence : p.min_evidence ≤ℤ critique.evidence_relevance
    pub answer : p.min_answer ≤ℤ critique.answer_relevance
    pub citations : p.min_citations ≤ℤ critique.citation_completeness
    pub useful : p.min_utility ≤ℤ critique.utility
    pub complete : critique.missing_aspects ≡ []

  quality_pass_lem :
      (critique : ReflectionCritique) (claims : List String)
      → quality_pass critique claims ≡ true
      → PassesBar critique claims
  unfolding quality_pass supported is_full
  quality_pass_lem critique claims e = ground arith

  PassesBar-quality_pass :
      (critique : ReflectionCritique) (claims : List String)
      → PassesBar critique claims
      → quality_pass critique claims ≡ true
  unfolding quality_pass supported is_full
  PassesBar-quality_pass critique claims bar = ground arith

  -- The policy accepts exactly the answers that pass the quality bar, whatever the budgets are.
  pub decide-accept_iff :
      (critique : ReflectionCritique) (state : ReflectionState) (budget : ReflectionBudget)
      (claims : List String)
      → (decide critique state budget claims ≡ accept) ↔ PassesBar critique claims
  unfolding decide
  decide-accept_iff critique state budget claims = (
    λ e. quality_pass_lem critique claims (ground arith),
    λ bar. let passes = PassesBar-quality_pass critique claims bar in rw passes,
  )

  -- The policy never overspends: it asks for a revision only below the iteration budget, and for
  -- more evidence only below both budgets.
  pub decide_within_budget :
      (critique : ReflectionCritique) (state : ReflectionState) (budget : ReflectionBudget)
      (claims : List String)
      → (decide critique state budget claims ≡ revise → state.iteration < budget.max_iterations)
        × (decide critique state budget claims ≡ retrieve_more
            → (state.iteration < budget.max_iterations)
              × (state.additional_retrievals < budget.max_additional_retrievals))
  unfolding decide
  decide_within_budget critique state budget claims = (λ e. ground arith, λ e. ground arith)

-- Opened by the tests.
unfoldable pub policy_runs : Unit {0}
unfolding decide quality_pass supported is_full is_none evidence_insufficient evidence_usable
policy_runs = tt
