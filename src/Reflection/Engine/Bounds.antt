-- ===== src/Reflection/Engine/Bounds.antt =====
-- What the reflection loop may spend, and what its outcomes mean.
use enterprise_rag.Prelude.{
  ℕ, suc, ◌+◌, ◌≤◌, ◌<◌, String, ◌≡◌, refl, Bool, true, false, Bool-cases, ◌⊎◌, inl, inr, Option,
  List, ◌∷◌, leb, arith,
}
use enterprise_rag.Prelude.Float.{Float, le, zero_float}
use enterprise_rag.PyText.{PyText}
use enterprise_rag.Errors.{Exception, Result, ok, raised, Ensures, Result-cases}
use enterprise_rag.Crag.Types.{EvidenceChunk}
use enterprise_rag.Reflection.Types.{
  accept, abstain, ReflectionCritique, ReflectionState, SelfReflectionOutcome, Calls, read_clock,
  revise_call, retrieve_call, critiques, revisions, retrievals, EvidenceAugmenter,
}
use enterprise_rag.Reflection.Engine.{
  StructuredSelfReflectionEngine, World, abstention, Step, done, again, augmented, revised,
  abstain_budget, abstain_policy, effective_max_retrievals, budget_at, unsupported_in,
  revise_answer,
}

module _ (w : World) (py : PyText) (engine : StructuredSelfReflectionEngine) (question : String)
    (augmenter : EvidenceAugmenter) (allow_retrieval : Bool) where
  abbrev pub most_retrievals : ℕ
  most_retrievals = effective_max_retrievals w py engine question augmenter allow_retrieval

  -- The critic judged this answer on this evidence, and the policy accepted it.
  pub record IsServed (deadline : Float) (o : SelfReflectionOutcome) : Type 0 where
    pub critique : ReflectionCritique
    pub state : ReflectionState
    pub time_left : Float
    pub history : Calls
    pub same_answer : o.answer ≡ state.answer
    pub same_evidence : o.evidence ≡ state.evidence
    pub judged :
        engine.critic.critique question state.evidence state.answer time_left history ≡ ok critique
    pub decided :
        engine.policy.decide critique state
          (budget_at w py engine question augmenter allow_retrieval deadline)
          (unsupported_in w py engine question augmenter allow_retrieval state)
        ≡ accept
    pub accepted : o.accepted ≡ true
    pub final_action : o.final_action ≡ accept
    pub not_abstained : o.abstain ≡ false

  pub record IsAbstention (o : SelfReflectionOutcome) : Type 0 where
    pub answer : o.answer ≡ abstention
    pub not_accepted : o.accepted ≡ false
    pub final_action : o.final_action ≡ abstain
    pub abstained : o.abstain ≡ true

  module _ (deadline : Float) (start : Calls) where
    -- What was spent since `start`.
    pub record IsBounded (h : Calls) : Type 0 where
      pub critiques_le : critiques h ≤ critiques start + suc engine.max_iterations
      pub revisions_le : revisions h ≤ revisions start + engine.max_iterations
      pub retrievals_le : retrievals h ≤ retrievals start + most_retrievals

    -- The outcome accepts or abstains, and reports the critiques and retrievals that were made.
    pub record IsOutcome (h : Calls) (o : SelfReflectionOutcome) : Type 0 where
      pub served : IsServed deadline o ⊎ IsAbstention o
      pub iterations : critiques h ≡ critiques start + o.iterations
      pub retrieved : retrievals h ≡ retrievals start + o.additional_retrievals

    -- The state counts the calls: `extra` is 1 between a pass's critique and its revision.
    pub record Counts (extra : ℕ) (state : ReflectionState) (h : Calls) : Type 0 where
      pub critiqued : critiques h ≡ critiques start + (state.iteration + extra)
      pub revised : revisions h ≡ revisions start + state.iteration
      pub retrieved : retrievals h ≡ retrievals start + state.additional_retrievals
      pub iteration_le : state.iteration ≤ engine.max_iterations
      pub retrieval_le : state.additional_retrievals ≤ most_retrievals

    abbrev pub Stepped : ℕ → Calls → Step → Type 0
    Stepped i h (done o) = IsOutcome h o
    Stepped i h (again state) = Counts 0 state h × (state.iteration ≡ suc i)

    -- Where a pass that started at iteration `i` ends.
    pub record Post (i : ℕ) (out : Result Step × Calls) : Type 0 where
      pub bounded : IsBounded out.1
      pub stepped : Ensures (Stepped i out.1) out.0

    pub Counts-IsBounded :
        (extra : ℕ) (state : ReflectionState) (h : Calls)
        → extra ≤ 1
        → Counts extra state h
        → IsBounded h
    Counts-IsBounded extra state h e c = record {
      critiques_le = let p = c.critiqued in let q = c.iteration_le in omega arith;
      revisions_le = let p = c.revised in let q = c.iteration_le in omega arith;
      retrievals_le = let p = c.retrieved in let q = c.retrieval_le in omega arith;
    }

    pub abstain_policy-Post :
        (i : ℕ) (critique : ReflectionCritique) (reason : Option String) (state : ReflectionState)
        (h : Calls)
        → IsBounded h
        → critiques h ≡ critiques start + (state.iteration + 1)
        → retrievals h ≡ retrievals start + state.additional_retrievals
        → Post i (ok (done (abstain_policy state critique reason)), h)
    unfolding abstain_policy
    abstain_policy-Post i critique reason state h b c r = record {
      bounded = b;
      stepped = record {
        served =
            inr (record {
              answer = refl;
              not_accepted = refl;
              final_action = refl;
              abstained = refl;
            });
        iterations = c;
        retrieved = r;
      };
    }

    -- The usual case: nothing was revised since the critique.
    pub abstain_counted :
        (i : ℕ) (critique : ReflectionCritique) (reason : Option String) (state : ReflectionState)
        (h : Calls)
        → Counts 1 state h
        → Post i (ok (done (abstain_policy state critique reason)), h)
    abstain_counted i critique reason state h c =
        abstain_policy-Post i critique reason state h (Counts-IsBounded 1 state h (omega arith) c)
          c.critiqued c.retrieved

    pub abstain_budget-Post :
        (reason : String) (state : ReflectionState) (h : Calls)
        → Counts 0 state h
        → Post state.iteration (ok (done (abstain_budget state reason)), h)
    unfolding abstain_budget
    abstain_budget-Post reason state h c = record {
      bounded = Counts-IsBounded 0 state h (omega arith) c;
      stepped = record {
        served =
            inr (record {
              answer = refl;
              not_accepted = refl;
              final_action = refl;
              abstained = refl;
            });
        iterations = let p = c.critiqued in omega arith;
        retrieved = c.retrieved;
      };
    }

    -- Reading the clock spends nothing.
    pub ticked :
        (extra : ℕ) (state : ReflectionState) (h : Calls)
        → Counts extra state h
        → Counts extra state (read_clock ∷ h)
    ticked extra state h c = record {
      critiqued = c.critiqued;
      revised = c.revised;
      retrieved = c.retrieved;
      iteration_le = c.iteration_le;
      retrieval_le = c.retrieval_le;
    }

    pub raised-Post :
        (i extra : ℕ) (state : ReflectionState) (e : Exception) (h : Calls)
        → extra ≤ 1
        → Counts extra state h
        → Post i (raised e, h)
    raised-Post i extra state e h le c = record {
      bounded = Counts-IsBounded extra state h le c;
      stepped = tt;
    }

    -- One more call for a revision, while the budget has one.
    pub revise-IsBounded :
        (state : ReflectionState) (h : Calls)
        → Counts 1 state h
        → state.iteration < engine.max_iterations
        → IsBounded (revise_call ∷ h)
    revise-IsBounded state h c room = record {
      critiques_le = let p = c.critiqued in omega arith;
      revisions_le = let p = c.revised in omega arith;
      retrievals_le = let p = c.retrieved in let q = c.retrieval_le in omega arith;
    }

    pub again-Post :
        (rewritten : String × ℕ) (state : ReflectionState) (h : Calls)
        → Counts 1 state h
        → state.iteration < engine.max_iterations
        → Post state.iteration (ok (again (revised state rewritten)), read_clock ∷ revise_call ∷ h)
    unfolding revised
    again-Post rewritten state h c room = record {
      bounded =
          let b = revise-IsBounded state h c room in
          record {
            critiques_le = b.critiques_le;
            revisions_le = b.revisions_le;
            retrievals_le = b.retrievals_le;
          };
      stepped = (
        record {
          critiqued = let p = c.critiqued in omega arith;
          revised = let p = c.revised in omega arith;
          retrieved = c.retrieved;
          iteration_le = omega arith;
          retrieval_le = c.retrieval_le;
        },
        omega arith,
      );
    }

    pub late_revision-Post :
        (i : ℕ) (critique : ReflectionCritique) (reason : Option String) (state : ReflectionState)
        (h : Calls)
        → Counts 1 state h
        → state.iteration < engine.max_iterations
        → Post i (ok (done (abstain_policy state critique reason)), read_clock ∷ revise_call ∷ h)
    late_revision-Post i critique reason state h c room =
        let b = revise-IsBounded state h c room in
        abstain_policy-Post i critique reason state (read_clock ∷ revise_call ∷ h)
          (record {
            critiques_le = b.critiques_le;
            revisions_le = b.revisions_le;
            retrievals_le = b.retrievals_le;
          })
          c.critiqued c.retrieved

    pub revise_answer-Post :
        (critique : ReflectionCritique) (state : ReflectionState) (h : Calls)
        → Counts 1 state h
        → state.iteration < engine.max_iterations
        → Post state.iteration
            (revise_answer w py engine question augmenter allow_retrieval deadline critique state h)
    unfolding revise_answer
    revise_answer-Post critique state h c room =
        let c1 = ticked 1 state h c in
        elim (Bool-cases (le (w.sub deadline (w.perf_counter h)) zero_float)) [
          | inl late ↦ rw late (abstain_counted _ critique _ state _ c1)
          | inr more ↦ elim (Bool-cases (leb engine.max_total_tokens state.total_tokens)) [
            | inl spent ↦ rw (more, spent) (abstain_counted _ critique _ state _ c1)
            | inr left ↦
                elim (Result-cases (
                  engine.reviser.revise question state.evidence state.answer critique
                    (w.sub deadline (w.perf_counter h)) (read_clock ∷ h))) [
                      | inr (e, failed) ↦
                          rw (more, left, failed)
                            (record {
                              bounded = revise-IsBounded state (read_clock ∷ h) c1 room;
                              stepped = tt;
                            })
                      | inl (rewritten, given) ↦
                          elim (Bool-cases
                            (le deadline (w.perf_counter (revise_call ∷ read_clock ∷ h)))) [
                              | inl after ↦
                                  rw (more, left, given, after)
                                    (late_revision-Post _ critique _ state (read_clock ∷ h) c1 room)
                              | inr before ↦
                                  rw (more, left, given, before)
                                    (again-Post rewritten state (read_clock ∷ h) c1 room)
                            ]
                    ]
          ]
        ]

    -- One more retrieval, while the budget has one, with the evidence that it gave.
    pub retrieve-Counts :
        (query : String) (evidence : List EvidenceChunk) (state : ReflectionState) (h : Calls)
        → Counts 1 state h
        → state.additional_retrievals < most_retrievals
        → Counts 1 (augmented state evidence) (read_clock ∷ retrieve_call query ∷ h)
    unfolding augmented
    retrieve-Counts query evidence state h c room = record {
      critiqued = c.critiqued;
      revised = c.revised;
      retrieved = let p = c.retrieved in omega arith;
      iteration_le = c.iteration_le;
      retrieval_le = omega arith;
    }

    pub failed_retrieval-IsBounded :
        (query : String) (state : ReflectionState) (h : Calls)
        → Counts 1 state h
        → state.additional_retrievals < most_retrievals
        → IsBounded (retrieve_call query ∷ h)
    failed_retrieval-IsBounded query state h c room = record {
      critiques_le = let p = c.critiqued in let q = c.iteration_le in omega arith;
      revisions_le = let p = c.revised in let q = c.iteration_le in omega arith;
      retrievals_le = let p = c.retrieved in omega arith;
    }
