-- ===== src/Reflection/Engine/Rounds.antt =====
-- Every pass of the reflection loop stays within its budgets, and so does the whole reflection.
use enterprise_rag.Prelude.{
  ℕ, ◌<◌, String, ◌≡◌, refl, Bool, true, false, Bool-cases, not, ◌&&◌, inl, inr, ◌∷◌, leb, ltb,
  arith,
}
use enterprise_rag.Prelude.Float.{Float, le, zero_float}
use enterprise_rag.PyText.{PyText}
use enterprise_rag.Errors.{Result, ok, Result-cases}
use enterprise_rag.Reflection.Types.{
  ReflectionAction, accept, revise, retrieve_more, abstain, ReflectionCritique, ReflectionState,
  Calls, read_clock, critique_call, retrieve_call, EvidenceAugmenter,
}
use enterprise_rag.Reflection.Query.{validate_reflection_query}
use enterprise_rag.Reflection.Evidence.{dedupe_evidence}
use enterprise_rag.Reflection.Engine.{
  StructuredSelfReflectionEngine, World, Step, done, or_question, spend, augmented,
  accepted_outcome, budget_at, unsupported_in, retrieve_evidence, continue_with, act,
  after_critique, round,
}
use enterprise_rag.Reflection.Engine.Bounds

module _ (w : World) (py : PyText) (engine : StructuredSelfReflectionEngine) (question : String)
    (augmenter : EvidenceAugmenter) (allow_retrieval : Bool) (deadline : Float)
    (start : Calls) where
  abbrev Ends : ℕ → Result Step × Calls → Type 0
  Ends i out = Bounds.Post w py engine question augmenter allow_retrieval deadline start i out

  abbrev Counted : ℕ → ReflectionState → Calls → Type 0
  Counted extra state h =
      Bounds.Counts w py engine question augmenter allow_retrieval deadline start extra state h

  abbrev most : ℕ
  most = Bounds.most_retrievals w py engine question augmenter allow_retrieval

  retrieve_evidence-Post :
      (critique : ReflectionCritique) (state : ReflectionState) (h : Calls)
      → Counted 1 state h
      → state.iteration < engine.max_iterations
      → state.additional_retrievals < most
      → Ends state.iteration (
          retrieve_evidence w py engine question augmenter allow_retrieval deadline critique state
            h)
  unfolding retrieve_evidence
  retrieve_evidence-Post critique state h c room more =
      let c1 =
        Bounds.ticked w py engine question augmenter allow_retrieval deadline start 1 state h c in
      elim (Bool-cases (le (w.sub deadline (w.perf_counter h)) zero_float)) [
        | inl late ↦ rw late (
            Bounds.abstain_counted w py engine question augmenter allow_retrieval deadline start _
              critique _ state _ c1)
        | inr left ↦
            elim (Result-cases
              (validate_reflection_query py (or_question critique.retrieval_query question))) [
                | inr (e, invalid) ↦
                    rw (left, invalid)
                      (Bounds.raised-Post w py engine question augmenter allow_retrieval deadline
                        start _ 1 state e _ (omega arith) c1)
                | inl (query, valid) ↦
                    elim (Result-cases (augmenter.retrieve query (read_clock ∷ h))) [
                      | inr (e, failed) ↦
                          rw (left, valid, failed)
                            (record {
                              bounded =
                                  Bounds.failed_retrieval-IsBounded w py engine question augmenter
                                    allow_retrieval deadline start query state (read_clock ∷ h) c1
                                    more;
                              stepped = tt;
                            })
                      | inl (additional, given) ↦
                          let c2 =
                            Bounds.retrieve-Counts w py engine question augmenter allow_retrieval
                              deadline start query
                              (dedupe_evidence py state.evidence additional engine.max_evidence)
                              state (read_clock ∷ h) c1 more in
                          elim (Bool-cases
                            (le deadline (w.perf_counter (retrieve_call query ∷ read_clock ∷ h)))) [
                              | inl after ↦
                                  rw (left, valid, given, after)
                                    (Bounds.abstain_counted w py engine question augmenter
                                      allow_retrieval deadline start _ critique _ _ _ c2)
                              | inr before ↦
                                  rw (left, valid, given, before)
                                    (unfold augmented in
                                      Bounds.revise_answer-Post w py engine question augmenter
                                        allow_retrieval deadline start critique
                                        (augmented state (
                                          dedupe_evidence py state.evidence additional
                                            engine.max_evidence))
                                        (read_clock ∷ retrieve_call query ∷ read_clock ∷ h) c2 room)
                            ]
                    ]
              ]
      ]

  continue_with-Post :
      (more : Bool) (critique : ReflectionCritique) (state : ReflectionState) (h : Calls)
      → Counted 1 state h
      → Ends state.iteration (
          continue_with w py engine question augmenter allow_retrieval deadline more critique state
            h)
  unfolding continue_with
  continue_with-Post more critique state h c =
      elim (Bool-cases (leb engine.max_iterations state.iteration)) [
        | inl spent ↦ rw spent (
            Bounds.abstain_counted w py engine question augmenter allow_retrieval deadline start _
              critique _ state _ c)
        | inr room ↦ elim (Bool-cases (more && not (leb most state.additional_retrievals))) [
          | inl affordable ↦
              rw (room, affordable)
                (retrieve_evidence-Post critique state h c (ground arith) (ground arith))
          | inr closed ↦
              rw (room, closed)
                (Bounds.revise_answer-Post w py engine question augmenter allow_retrieval deadline
                  start critique state h c (ground arith))
        ]
      ]

  -- The critic judged the state's answer on its evidence so.
  record IsJudged (critique : ReflectionCritique) (state : ReflectionState) : Type 0 where
    time_left : Float
    history : Calls
    judged :
        engine.critic.critique question state.evidence state.answer time_left history ≡ ok critique

  accept-Post :
      (critique : ReflectionCritique) (state : ReflectionState) (h : Calls)
      → Counted 1 state h
      → IsJudged critique state
      → engine.policy.decide critique state
          (budget_at w py engine question augmenter allow_retrieval deadline)
          (unsupported_in w py engine question augmenter allow_retrieval state)
        ≡ accept
      → Ends state.iteration (ok (done (accepted_outcome state critique)), h)
  unfolding accepted_outcome
  accept-Post critique state h c j decided = record {
    bounded =
        Bounds.Counts-IsBounded w py engine question augmenter allow_retrieval deadline start 1
          state h (omega arith) c;
    stepped = record {
      served = inl (record {
        critique = critique;
        state = state;
        time_left = j.time_left;
        history = j.history;
        same_answer = refl;
        same_evidence = refl;
        judged = j.judged;
        decided = decided;
        accepted = refl;
        final_action = refl;
        not_abstained = refl;
      });
      iterations = c.critiqued;
      retrieved = c.retrieved;
    };
  }

  act-Post :
      (action : ReflectionAction) (critique : ReflectionCritique) (state : ReflectionState)
      (h : Calls)
      → Counted 1 state h
      → IsJudged critique state
      → engine.policy.decide critique state
          (budget_at w py engine question augmenter allow_retrieval deadline)
          (unsupported_in w py engine question augmenter allow_retrieval state)
        ≡ action
      → Ends state.iteration
          (act w py engine question augmenter allow_retrieval deadline action critique state h)
  unfolding act
  act-Post accept critique state h c j decided =
      let c1 =
        Bounds.ticked w py engine question augmenter allow_retrieval deadline start 1 state h c in
      elim (Bool-cases (le deadline (w.perf_counter h))) [
        | inl late ↦ rw late (
            Bounds.abstain_counted w py engine question augmenter allow_retrieval deadline start _
              critique _ state _ c1)
        | inr before ↦ rw before (accept-Post critique state (read_clock ∷ h) c1 j decided)
      ]
  act-Post abstain critique state h c j decided =
      Bounds.abstain_counted w py engine question augmenter allow_retrieval deadline start _
        critique _ state _ c
  act-Post revise critique state h c j decided = continue_with-Post false critique state h c
  act-Post retrieve_more critique state h c j decided = continue_with-Post true critique state h c

  after_critique-Post :
      (critique : ReflectionCritique) (state : ReflectionState) (h : Calls)
      → Counted 1 state h
      → IsJudged critique state
      → Ends state.iteration
          (after_critique w py engine question augmenter allow_retrieval deadline critique state h)
  unfolding after_critique
  after_critique-Post critique state h c j =
      let c1 =
        Bounds.ticked w py engine question augmenter allow_retrieval deadline start 1 state h c in
      elim (Bool-cases (le deadline (w.perf_counter h))) [
        | inl late ↦ rw late (
            Bounds.abstain_counted w py engine question augmenter allow_retrieval deadline start _
              critique _ state _ c1)
        | inr before ↦ elim (Bool-cases (ltb engine.max_total_tokens state.total_tokens)) [
          | inl spent ↦
              rw (before, spent)
                (Bounds.abstain_counted w py engine question augmenter allow_retrieval deadline
                  start _ critique _ state _ c1)
          | inr left ↦ rw (before, left) (act-Post _ critique state (read_clock ∷ h) c1 j refl)
        ]
      ]

  -- One more critique; adding its tokens changes no count.
  critique-Counts :
      (tokens : ℕ) (state : ReflectionState) (h : Calls)
      → Counted 0 state h
      → Counted 1 (spend state tokens) (critique_call ∷ h)
  unfolding spend
  critique-Counts tokens state h c = record {
    critiqued = let p = c.critiqued in omega arith;
    revised = c.revised;
    retrieved = c.retrieved;
    iteration_le = c.iteration_le;
    retrieval_le = c.retrieval_le;
  }

  failed_critique-IsBounded :
      (state : ReflectionState) (h : Calls)
      → Counted 0 state h
      → Bounds.IsBounded w py engine question augmenter allow_retrieval deadline start
          (critique_call ∷ h)
  failed_critique-IsBounded state h c = record {
    critiques_le = let p = c.critiqued in let q = c.iteration_le in omega arith;
    revisions_le = let p = c.revised in let q = c.iteration_le in omega arith;
    retrievals_le = let p = c.retrieved in let q = c.retrieval_le in omega arith;
  }

  spent-IsJudged :
      (critique : ReflectionCritique) (tokens : ℕ) (state : ReflectionState)
      → IsJudged critique state
      → IsJudged critique (spend state tokens)
  unfolding spend
  spent-IsJudged critique tokens state j = record {
    time_left = j.time_left;
    history = j.history;
    judged = j.judged;
  }

  after_critique-spent :
      (critique : ReflectionCritique) (tokens : ℕ) (state : ReflectionState) (h : Calls)
      → Counted 1 (spend state tokens) h
      → IsJudged critique (spend state tokens)
      → Ends state.iteration (
          after_critique w py engine question augmenter allow_retrieval deadline critique
            (spend state tokens)
            h)
  unfolding spend
  after_critique-spent critique tokens state h c j =
      after_critique-Post critique (spend state tokens) h c j

  pub round-Post :
      (state : ReflectionState) (h : Calls)
      → Counted 0 state h
      → Ends state.iteration (round w py engine question augmenter allow_retrieval deadline state h)
  unfolding round
  round-Post state h c =
      let c1 =
        Bounds.ticked w py engine question augmenter allow_retrieval deadline start 0 state h c in
      let c2 =
        Bounds.ticked w py engine question augmenter allow_retrieval deadline start 0 state
          (read_clock ∷ h) c1 in
      elim (Bool-cases (le deadline (w.perf_counter h))) [
        | inl late ↦ rw late (
            Bounds.abstain_budget-Post w py engine question augmenter allow_retrieval deadline start
              _ state _ c1)
        | inr before ↦ elim (Bool-cases (ltb engine.max_total_tokens state.total_tokens)) [
          | inl spent ↦
              rw (before, spent)
                (Bounds.abstain_budget-Post w py engine question augmenter allow_retrieval deadline
                  start _ state _ c1)
          | inr left ↦
              elim (Bool-cases (le (w.sub deadline (w.perf_counter (read_clock ∷ h))) zero_float)) [
                | inl out ↦
                    rw (before, left, out)
                      (Bounds.abstain_budget-Post w py engine question augmenter allow_retrieval
                        deadline start _ state _ c2)
                | inr time ↦
                    elim (Result-cases (
                      engine.critic.critique question state.evidence state.answer
                        (w.sub deadline (w.perf_counter (read_clock ∷ h)))
                        (read_clock ∷ read_clock ∷ h))) [
                          | inr (e, failed) ↦
                              rw (before, left, time, failed)
                                (record {
                                  bounded =
                                      failed_critique-IsBounded state (read_clock ∷ read_clock ∷ h)
                                        c2;
                                  stepped = tt;
                                })
                          | inl (critique, given) ↦
                              rw (before, left, time, given)
                                (after_critique-spent critique critique.usage_tokens state
                                  (critique_call ∷ read_clock ∷ read_clock ∷ h)
                                  (critique-Counts critique.usage_tokens state
                                    (read_clock ∷ read_clock ∷ h) c2)
                                  (spent-IsJudged critique critique.usage_tokens state
                                    (record { time_left = _; history = _; judged = given })))
                        ]
              ]
        ]
      ]
