-- ===== src/Reflection/Engine/Contract.antt =====
-- The whole reflection: it ends, stays within its budgets, and serves only what was accepted.
use enterprise_rag.Prelude.{
  if◌then◌else◌, ℕ, zero, suc, ◌+◌, ◌≤◌, ◌<◌, String, ◌≡◌, refl, Bool, true, inl, inr, Option, some,
  List, ◌∷◌, map, arith,
}
use enterprise_rag.Prelude.Int.{ℤ}
use enterprise_rag.Prelude.Float.{Float}
use enterprise_rag.PyText.{PyText}
use enterprise_rag.Errors.{Result, ok, raised, Ensures, of_Ensures}
use enterprise_rag.Crag.Types.{EvidenceChunk}
use enterprise_rag.Reflection.Types.{
  ReflectionCritique, ReflectionState, SelfReflectionOutcome, Calls, read_clock, critiques,
  revisions, retrievals, EvidenceAugmenter,
}
use enterprise_rag.Reflection.Policy.{
  ThresholdReflectionDecisionPolicy, threshold_policy, PassesBar, decide-accept_iff,
}
use enterprise_rag.Reflection.Engine.{
  StructuredSelfReflectionEngine, World, Step, done, again, as_retrieved, initial_state,
  effective_max_retrievals, unsupported_in, round, run_on, loop, reflect,
}
use enterprise_rag.Reflection.Engine.Bounds
use enterprise_rag.Reflection.Engine.Rounds.{round-Post}

module _ (w : World) (py : PyText) (engine : StructuredSelfReflectionEngine) (question : String)
    (augmenter : EvidenceAugmenter) (allow_retrieval : Bool) where
  module _ (deadline : Float) (start : Calls) where
    abbrev Good : Result SelfReflectionOutcome × Calls → Type 0
    Good out =
        Bounds.IsBounded w py engine question augmenter allow_retrieval deadline start out.1
        × Ensures
            (Bounds.IsOutcome w py engine question augmenter allow_retrieval deadline start out.1)
            out.0

    run_on-total :
        (i : ℕ) (out : Result Step × Calls)
        (rest : ReflectionState → Calls → Option (Result SelfReflectionOutcome × Calls))
        → Bounds.Post w py engine question augmenter allow_retrieval deadline start i out
        → ((state : ReflectionState) (h : Calls)
            → Bounds.Counts w py engine question augmenter allow_retrieval deadline start 0 state h
            → state.iteration ≡ suc i
            → (end : Result SelfReflectionOutcome × Calls) × (rest state h ≡ some end) × Good end)
        → (end : Result SelfReflectionOutcome × Calls) × (run_on w py engine question augmenter
              allow_retrieval deadline out rest
            ≡ some end)
          × Good end
    run_on-total i (raised e, h) rest p next = ((raised e, h), refl, (p.bounded, tt))
    run_on-total i (ok (done o), h) rest p next = ((ok o, h), refl, (p.bounded, p.stepped))
    run_on-total i (ok (again state), h) rest p next = next state h p.stepped.0 p.stepped.1

    loop-total :
        (fuel : ℕ) (state : ReflectionState) (h : Calls)
        → Bounds.Counts w py engine question augmenter allow_retrieval deadline start 0 state h
        → engine.max_iterations < state.iteration + fuel
        → (end : Result SelfReflectionOutcome × Calls) × (loop w py engine question augmenter
              allow_retrieval deadline fuel state h
            ≡ some end)
          × Good end
    unfolding loop
    loop-total zero state h c enough = absurd (let p = c.iteration_le in omega arith)
    loop-total (suc fuel) state h c enough =
        run_on-total state.iteration
          (round w py engine question augmenter allow_retrieval deadline state h) _
          (round-Post w py engine question augmenter allow_retrieval deadline start state h c)
          (λ s h' c' e. loop-total fuel s h' c' (omega arith))

    initial-Counts :
        (answer : String) (evidence : List EvidenceChunk)
        → Bounds.Counts w py engine question augmenter allow_retrieval deadline start 0
            (initial_state answer evidence)
            start
    unfolding initial_state
    initial-Counts answer evidence = record {
      critiqued = omega arith;
      revised = omega arith;
      retrieved = omega arith;
      iteration_le = omega arith;
      retrieval_le = omega arith;
    }

  before_clock :
      (deadline : Float) (h end : Calls) (r : Result SelfReflectionOutcome)
      → Ensures
          (Bounds.IsOutcome w py engine question augmenter allow_retrieval deadline
            (read_clock ∷ h)
            end)
          r
      → Ensures (Bounds.IsOutcome w py engine question augmenter allow_retrieval deadline h end) r
  before_clock deadline h end (ok o) p = record {
    served = p.served;
    iterations = p.iterations;
    retrieved = p.retrieved;
  }
  before_clock deadline h end (raised e) p = tt

  -- How a reflection that began with the calls `h` ended.
  pub record IsReflection (h : Calls) (out : Result SelfReflectionOutcome × Calls) : Type 0 where
    pub deadline : Float
    pub critiques_le : critiques out.1 ≤ critiques h + suc engine.max_iterations
    pub revisions_le : revisions out.1 ≤ revisions h + engine.max_iterations
    pub retrievals_le :
        retrievals out.1 ≤ retrievals h + (if allow_retrieval then engine.max_retrievals else 0)
    pub outcome :
        Ensures
          (Bounds.IsOutcome w py engine question augmenter allow_retrieval deadline h out.1)
          out.0

  -- The fuel lasts: the loop answers within one pass more than there may be revisions. The whole
  -- reflection makes at most `max_iterations` revisions, one critique more, and at most the allowed
  -- retrievals (none where retrieval is not allowed), whatever the clock, the critic, the reviser,
  -- the augmenter and even the decision policy do. What it returns either was accepted by the
  -- policy on the critic's judgement of exactly that answer and evidence, or is the abstention; and
  -- it reports the critiques and the retrievals that were made.
  pub reflect_bounded :
      (evidence : List EvidenceChunk) (answer : String) (h : Calls)
      → (end : Result SelfReflectionOutcome × Calls) × (loop w py engine question augmenter
            allow_retrieval
            (w.add (w.perf_counter h) engine.total_timeout)
            (suc engine.max_iterations)
            (initial_state answer evidence)
            (read_clock ∷ h)
          ≡ some end)
        × (reflect w py engine question augmenter allow_retrieval evidence answer h ≡ end)
        × IsReflection h end
  unfolding reflect effective_max_retrievals
  reflect_bounded evidence answer h =
      let deadline = w.add (w.perf_counter h) engine.total_timeout in
      let (end, ended, good) =
        loop-total deadline (read_clock ∷ h) (suc engine.max_iterations)
          (initial_state answer evidence) (read_clock ∷ h)
          (initial-Counts deadline (read_clock ∷ h) answer evidence)
          (unfold initial_state in omega arith) in
      (
        end,
        ended,
        (rw ended refl),
        record {
          deadline = deadline;
          critiques_le = good.0.critiques_le;
          revisions_le = good.0.revisions_le;
          retrievals_le = good.0.retrievals_le;
          outcome = before_clock deadline h end.1 end.0 good.1;
        },
      )

module _ (w : World) (py : PyText) (engine : StructuredSelfReflectionEngine)
    (bar : ThresholdReflectionDecisionPolicy) (str : ℤ → String) (question : String)
    (augmenter : EvidenceAugmenter) (allow_retrieval : Bool) where
  -- What the reader of an accepted answer may rely on.
  pub record MeetsBar (o : SelfReflectionOutcome) : Type 0 where
    pub critique : ReflectionCritique
    pub time_left : Float
    pub history : Calls
    pub judged : engine.critic.critique question o.evidence o.answer time_left history ≡ ok critique
    pub passes :
        PassesBar bar critique (w.find_unsupported_claims o.answer (map as_retrieved o.evidence))

  served-MeetsBar :
      (deadline : Float) (o : SelfReflectionOutcome)
      → engine.policy ≡ threshold_policy bar py str
      → Bounds.IsServed w py engine question augmenter allow_retrieval deadline o
      → MeetsBar o
  unfolding unsupported_in
  served-MeetsBar deadline o p s = record {
    critique = s.critique;
    time_left = s.time_left;
    history = s.history;
    judged = rw (s.same_answer, s.same_evidence) s.judged;
    passes =
        let q = s.decided in
        rw (s.same_answer, s.same_evidence)
          ((decide-accept_iff bar s.critique s.state _ _).0 (rw p at q));
  }

  -- With the threshold policy in place, an outcome marked accepted passes the quality bar: the
  -- critic judged exactly this answer on exactly this evidence to be fully supported, with every
  -- score at its threshold and nothing missing, and the deterministic claim check flags no claim.
  pub accepted-MeetsBar :
      (evidence : List EvidenceChunk) (answer : String) (h : Calls) (o : SelfReflectionOutcome)
      → engine.policy ≡ threshold_policy bar py str
      → (reflect w py engine question augmenter allow_retrieval evidence answer h).0 ≡ ok o
      → o.accepted ≡ true
      → MeetsBar o
  accepted-MeetsBar evidence answer h o p e accepted =
      let (end, _, same, reflection) =
        reflect_bounded w py engine question augmenter allow_retrieval evidence answer h in
      elim (of_Ensures _ end.0 o reflection.outcome (cc)).served [
        | inl served ↦ served-MeetsBar reflection.deadline o p served
        | inr abstained ↦ absurd (let q = abstained.not_accepted in cc)
      ]
