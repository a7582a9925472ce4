-- ===== src/Reflection/Engine.antt =====
-- `StructuredSelfReflectionEngine` of app/rag_services/reflection/reflection_engine.py: the bounded
-- loop of critique, decision, retrieval and revision.
pub mod Bounds
pub mod Rounds
pub mod Contract
use Prim.Native.String.{◌++◌}
use enterprise_rag.Prelude.{
  ℕ, zero, suc, ◌+◌, String, Bool, true, false, not, ◌&&◌, Option, none, some, List, [], ◌∷◌, map,
  leb, ltb, str_eq, if◌then◌else◌,
}
use enterprise_rag.Prelude.Float.{Float, le, zero_float}
use enterprise_rag.PyText.{PyText}
use enterprise_rag.Errors.{
  Exception, other, Result, ok, raised, Action, pure, lift, and_then, ◌>>=◌, ◌>>◌,
}
use enterprise_rag.Crag.Types.{RetrievedChunk, EvidenceChunk}
use enterprise_rag.Reflection.Types.{
  ReflectionAction, accept, revise, retrieve_more, abstain, ReflectionCritique, ReflectionBudget,
  ReflectionState, SelfReflectionOutcome, Call, Calls, read_clock, critique_call, revise_call,
  retrieve_call, ReflectionCritic, ReflectionDecisionPolicy, GroundedAnswerReviser,
  EvidenceAugmenter, SelfReflectionEngine,
}
use enterprise_rag.Reflection.Query.{validate_reflection_query}
use enterprise_rag.Reflection.Evidence.{dedupe_evidence}

-- The constructor's arguments.
pub record StructuredSelfReflectionEngine : Type 0 where
  pub critic : ReflectionCritic
  pub policy : ReflectionDecisionPolicy
  pub reviser : GroundedAnswerReviser
  pub max_iterations : ℕ
  pub max_retrievals : ℕ
  pub max_total_tokens : ℕ
  pub total_timeout : Float
  pub max_evidence : ℕ

-- What the engine uses of the outside world: the clock, which may say anything at each reading, the
-- sum and difference of doubles, and the claim check of the output guardrails.
pub record World : Type 0 where
  pub perf_counter : Calls → Float
  pub add : Float → Float → Float
  pub sub : Float → Float → Float
  pub find_unsupported_claims : String → List RetrievedChunk → List String
  pub fixed1 : Float → String

unfoldable pub abstention : String
abstention =
    "The supplied approved evidence is insufficient to produce a fully supported answer to this question."

-- What one pass through the loop's body comes to: `return`, or another pass.
pub data Step : Type 0 where
  done : SelfReflectionOutcome → Step
  again : ReflectionState → Step

pub or_question : Option String → String → String
or_question none question = question
or_question (some query) question = if str_eq query "" then question else query

abbrev pub as_retrieved : EvidenceChunk → RetrievedChunk
as_retrieved item = record {
  text = item.text;
  source = item.source;
  score = item.retrieval_score;
  page_number = item.page_number;
}

pub initial_state : String → List EvidenceChunk → ReflectionState
initial_state answer evidence = record {
  answer = answer;
  evidence = evidence;
  iteration = 0;
  additional_retrievals = 0;
  total_tokens = 0;
}

pub spend : ReflectionState → ℕ → ReflectionState
spend state tokens = record {
  answer = state.answer;
  evidence = state.evidence;
  iteration = state.iteration;
  additional_retrievals = state.additional_retrievals;
  total_tokens = state.total_tokens + tokens;
}

pub augmented : ReflectionState → List EvidenceChunk → ReflectionState
augmented state evidence = record {
  answer = state.answer;
  evidence = evidence;
  iteration = state.iteration;
  additional_retrievals = state.additional_retrievals + 1;
  total_tokens = state.total_tokens;
}

pub revised : ReflectionState → String × ℕ → ReflectionState
revised state (answer, tokens) = record {
  answer = answer;
  evidence = state.evidence;
  iteration = state.iteration + 1;
  additional_retrievals = state.additional_retrievals;
  total_tokens = state.total_tokens + tokens;
}

pub abstain_budget : ReflectionState → String → SelfReflectionOutcome
abstain_budget state reason = record {
  answer = abstention;
  evidence = state.evidence;
  applied = true;
  accepted = false;
  final_action = abstain;
  iterations = state.iteration;
  additional_retrievals = state.additional_retrievals;
  fallback = false;
  abstain = true;
  bypass_reason = some reason;
  support_level = none;
  answer_relevance = none;
  citation_completeness = none;
  utility = none;
  usage_tokens = state.total_tokens;
}

pub abstain_policy : ReflectionState → ReflectionCritique → Option String → SelfReflectionOutcome
abstain_policy state critique reason = record {
  answer = abstention;
  evidence = state.evidence;
  applied = true;
  accepted = false;
  final_action = abstain;
  iterations = state.iteration + 1;
  additional_retrievals = state.additional_retrievals;
  fallback = false;
  abstain = true;
  bypass_reason = reason;
  support_level = some critique.support_level;
  answer_relevance = some critique.answer_relevance;
  citation_completeness = some critique.citation_completeness;
  utility = some critique.utility;
  usage_tokens = state.total_tokens;
}

pub accepted_outcome : ReflectionState → ReflectionCritique → SelfReflectionOutcome
accepted_outcome state critique = record {
  answer = state.answer;
  evidence = state.evidence;
  applied = true;
  accepted = true;
  final_action = accept;
  iterations = state.iteration + 1;
  additional_retrievals = state.additional_retrievals;
  fallback = false;
  abstain = false;
  bypass_reason = none;
  support_level = some critique.support_level;
  answer_relevance = some critique.answer_relevance;
  citation_completeness = some critique.citation_completeness;
  utility = some critique.utility;
  usage_tokens = state.total_tokens;
}

module _ (w : World) (py : PyText) (engine : StructuredSelfReflectionEngine) where
  pub engine_namespace : String
  engine_namespace =
      "self-reflection:v1:"
      ++ engine.critic.cache_namespace
      ++ ":"
      ++ engine.policy.cache_namespace
      ++ ":"
      ++ engine.reviser.cache_namespace
      ++ ":iterations="
      ++ py.str_of_int engine.max_iterations
      ++ ":retrievals="
      ++ py.str_of_int engine.max_retrievals
      ++ ":tokens="
      ++ py.str_of_int engine.max_total_tokens
      ++ ":evidence="
      ++ py.str_of_int engine.max_evidence
      ++ ":deadline="
      ++ w.fixed1 engine.total_timeout

  abbrev pub now : Action Calls Float
  now h = (ok (w.perf_counter h), read_clock ∷ h)

  abbrev pub deadline_exceeded : Float → Action Calls Bool
  deadline_exceeded deadline h = (ok (le deadline (w.perf_counter h)), read_clock ∷ h)

  abbrev pub remaining_seconds : Float → Action Calls Float
  remaining_seconds deadline h = (ok (w.sub deadline (w.perf_counter h)), read_clock ∷ h)

  module _ (question : String) (augmenter : EvidenceAugmenter) (allow_retrieval : Bool) where
    pub effective_max_retrievals : ℕ
    effective_max_retrievals = if allow_retrieval then engine.max_retrievals else 0

    pub budget_at : Float → ReflectionBudget
    budget_at deadline = record {
      max_iterations = engine.max_iterations;
      max_additional_retrievals = effective_max_retrievals;
      max_total_tokens = engine.max_total_tokens;
      deadline_monotonic = deadline;
    }

    pub unsupported_in : ReflectionState → List String
    unsupported_in state = w.find_unsupported_claims state.answer (map as_retrieved state.evidence)

    module _ (deadline : Float) where
      -- From `remaining = …` before the revision to the end of the pass.
      pub revise_answer : ReflectionCritique → ReflectionState → Action Calls Step
      revise_answer critique state = do
        remaining ← remaining_seconds deadline
        if le remaining zero_float
            then pure (done (abstain_policy state critique (some "budget_exhausted_deadline")))
            else if leb engine.max_total_tokens state.total_tokens
            then pure (done (abstain_policy state critique (some "budget_exhausted_tokens")))
            else do
              rewritten ← (λ h. (
                engine.reviser.revise question state.evidence state.answer critique remaining h,
                revise_call ∷ h,
              ))
              late ← deadline_exceeded deadline
              if late
                  then pure
                      (done (abstain_policy state critique (some "budget_exhausted_deadline")))
                  else pure (again (revised state rewritten))

      -- The branch `if action is ReflectionAction.RETRIEVE_MORE`, and what follows it.
      pub retrieve_evidence : ReflectionCritique → ReflectionState → Action Calls Step
      retrieve_evidence critique state = do
        remaining ← remaining_seconds deadline
        if le remaining zero_float
            then pure (done (abstain_policy state critique (some "budget_exhausted_deadline")))
            else do
              query ←
                  lift
                    (validate_reflection_query py (or_question critique.retrieval_query question))
              additional ← (λ h. (augmenter.retrieve query h, retrieve_call query ∷ h))
              late ← deadline_exceeded deadline
              if late
                  then pure (
                      done (
                        abstain_policy
                          (augmented state
                            (dedupe_evidence py state.evidence additional engine.max_evidence))
                          critique (some "budget_exhausted_deadline")))
                  else revise_answer critique (
                      augmented state
                        (dedupe_evidence py state.evidence additional engine.max_evidence))

      -- The backstop for both actions that continue.
      pub continue_with : Bool → ReflectionCritique → ReflectionState → Action Calls Step
      continue_with more critique state =
          if leb engine.max_iterations state.iteration
          then pure (done (abstain_policy state critique (some "budget_exhausted_iterations")))
          else if more && not (leb effective_max_retrievals state.additional_retrievals)
          then retrieve_evidence critique state
          else revise_answer critique state

      pub act : ReflectionAction → ReflectionCritique → ReflectionState → Action Calls Step
      act accept critique state = do
        late ← deadline_exceeded deadline
        if late
            then pure (done (abstain_policy state critique (some "budget_exhausted_deadline")))
            else pure (done (accepted_outcome state critique))
      act abstain critique state = pure (done (abstain_policy state critique none))
      act revise critique state = continue_with false critique state
      act retrieve_more critique state = continue_with true critique state

      -- What follows the critique, with the state that its tokens are added to.
      pub after_critique : ReflectionCritique → ReflectionState → Action Calls Step
      after_critique critique state = do
        late ← deadline_exceeded deadline
        if late
            then pure (done (abstain_policy state critique (some "budget_exhausted_deadline")))
            else if ltb engine.max_total_tokens state.total_tokens
            then pure (done (abstain_policy state critique (some "budget_exhausted_tokens")))
            else act
                (engine.policy.decide critique state (budget_at deadline) (unsupported_in state))
                critique state

      -- One pass through the body of `while True`.
      pub round : ReflectionState → Action Calls Step
      round state = do
        late ← deadline_exceeded deadline
        if late
            then pure (done (abstain_budget state "budget_exhausted_deadline"))
            else if ltb engine.max_total_tokens state.total_tokens
            then pure (done (abstain_budget state "budget_exhausted_tokens"))
            else do
              remaining ← remaining_seconds deadline
              if le remaining zero_float
                  then pure (done (abstain_budget state "budget_exhausted_deadline"))
                  else do
                    critique ← (λ h. (
                      engine.critic.critique question state.evidence state.answer remaining h,
                      critique_call ∷ h,
                    ))
                    after_critique critique (spend state critique.usage_tokens)

      abbrev pub run_on :
          Result Step × Calls
          → (ReflectionState → Calls → Option (Result SelfReflectionOutcome × Calls))
          → Option (Result SelfReflectionOutcome × Calls)
      run_on (raised e, h) rest = some (raised e, h)
      run_on (ok (done outcome), h) rest = some (ok outcome, h)
      run_on (ok (again state), h) rest = rest state h

      -- `while True`, as often as the fuel allows.
      pub loop : ℕ → ReflectionState → Calls → Option (Result SelfReflectionOutcome × Calls)
      loop zero state h = none
      loop (suc fuel) state h = run_on (round state h) (loop fuel)

    abbrev pub or_stopped :
        Option (Result SelfReflectionOutcome × Calls) → Calls → Result SelfReflectionOutcome × Calls
    or_stopped none h = (raised (other "out of fuel"), h)
    or_stopped (some out) h = out

    -- The fuel is one pass more than there may be revisions.
    pub reflect : List EvidenceChunk → String → Action Calls SelfReflectionOutcome
    reflect evidence initial_answer = do
      started ← now
      λ h.
          or_stopped
            (loop (w.add started engine.total_timeout) (suc engine.max_iterations)
              (initial_state initial_answer evidence) h)
            h

  abbrev pub structured_engine : SelfReflectionEngine
  structured_engine = record {
    cache_namespace = engine_namespace;
    reflect = λ question evidence answer augmenter allow.
        reflect question augmenter allow evidence answer;
  }

-- Opened by the tests.
unfoldable pub engine_runs : Unit {0}
unfolding reflect loop round after_critique act accepted_outcome spend initial_state budget_at
    unsupported_in effective_max_retrievals
engine_runs = tt
