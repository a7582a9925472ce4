-- ===== src/Orchestrator/Gates.antt =====
-- Which questions reach the other services, and which lead to a SQL proposal.
use enterprise_rag.Prelude.{
  ℕ, suc, ◌+◌, ◌≤◌, String, ◌≡◌, refl, true, false, not, ◌||◌, ◌⊎◌, ◌≢◌, Some, ◌++◌, none,
  Bool-cases, inl, inr, some, List, [], ◌∷◌, arith,
}
use enterprise_rag.PyText.{PyText}
use enterprise_rag.Errors.{
  guardrail_blocked, sql_generation_failed, Result, ok, raised, and_then, Result-cases, Returns,
}
use enterprise_rag.Rollout.{sampled_in}
use enterprise_rag.RuntimeConfig.{RagRuntimeConfig}
use enterprise_rag.Sql.Types.{SqlProposal}
use enterprise_rag.Guardrails.Policy.{GuardrailDecision, ScanFinding, IsBlockWorthy}
use enterprise_rag.Guardrails.Audit.{Trail, SecurityEvent, record_event}
use enterprise_rag.Guardrails.Pipelines.{check_with_decision}
use enterprise_rag.Guardrails.Pipelines.Scanning.{
  IsScanned, IsScannedByMl, check_with_decision-blocks,
}
use enterprise_rag.Guardrails.Tool.{AuthenticatedUser, authorize_sql, authorize_sql_iff}
use enterprise_rag.Orchestrator.{
  QueryRoute, rag, sql, hybrid_rag_sql, reject, RouteDecision, ChatResponse, Call, route_call,
  rag_call, propose_call, Log, called, Services, answer_from_rag, proposed_answer, merged_answer,
  sql_answer, hybrid_answer, if_authorized, dispatch, answer_guarded, unless_blocked, answer,
  blocked_response,
}

-- How many proposals were asked for.
abbrev pub proposals : List Call → ℕ
proposals [] = 0
proposals (propose_call _ ∷ calls) = suc (proposals calls)
proposals (route_call _ ∷ calls) = proposals calls
proposals (rag_call _ ∷ calls) = proposals calls

module _ (s : Services) (py : PyText) (config : RagRuntimeConfig) (principal : AuthenticatedUser)
    (conversation_id : ℕ) where
  abbrev Out : Type 0
  Out = Result ChatResponse × Log

  answer_from_rag-proposals :
      (question : String) (d : GuardrailDecision) (log : Log)
      → proposals (answer_from_rag s py config principal conversation_id question d log).1.calls
        ≡ proposals log.calls
  unfolding answer_from_rag
  answer_from_rag-proposals question d log = elim (Result-cases (s.rag_answer question log)) [
    | inl (response, given) ↦ rw given refl
    | inr (e, failed) ↦ rw failed refl
  ]

  proposed_answer-log :
      (decision : RouteDecision) (d : GuardrailDecision) (r : Result SqlProposal) (log : Log)
      → (proposed_answer s py config principal conversation_id decision d r log).1 ≡ log
  unfolding proposed_answer
  proposed_answer-log decision d (ok p) log = refl
  proposed_answer-log decision d (raised (sql_generation_failed code)) log = refl
  proposed_answer-log decision d (raised _) log = refl

  merged_answer-log :
      (decision : RouteDecision) (response : ChatResponse) (r : Result SqlProposal) (log : Log)
      → (merged_answer s py config principal conversation_id decision response r log).1 ≡ log
  unfolding merged_answer
  merged_answer-log decision response (ok p) log = refl
  merged_answer-log decision response (raised (sql_generation_failed code)) log = refl
  merged_answer-log decision response (raised _) log = refl

  sql_answer-proposals :
      (question : String) (d : GuardrailDecision) (decision : RouteDecision) (log : Log)
      → proposals (sql_answer s py config principal conversation_id question d decision log).1.calls
        ≤ proposals log.calls + 1
  unfolding sql_answer
  sql_answer-proposals question d decision log =
      let same =
        proposed_answer-log decision d (s.propose principal conversation_id question log)
          (called (propose_call question) log) in
      rw same (omega arith)

  hybrid_answer-proposals :
      (question : String) (d : GuardrailDecision) (decision : RouteDecision) (log : Log)
      → proposals
          (hybrid_answer s py config principal conversation_id question d decision log).1.calls
        ≤ proposals log.calls + 1
  unfolding hybrid_answer
  hybrid_answer-proposals question d decision log =
      let asked = answer_from_rag-proposals question d log in
      go (answer_from_rag s py config principal conversation_id question d log).0
        (answer_from_rag s py config principal conversation_id question d log).1 asked
    where
      go :
          (r : Result ChatResponse) (log' : Log)
          → proposals log'.calls ≡ proposals log.calls
          → proposals
              (and_then r
                (λ response log.
                  merged_answer s py config principal conversation_id decision response
                    (s.propose principal conversation_id question log)
                    (called (propose_call question) log))
                log').1.calls
            ≤ proposals log.calls + 1
      go (raised e) log' asked = omega arith
      go (ok response) log' asked =
          let same =
            merged_answer-log decision response (s.propose principal conversation_id question log')
              (called (propose_call question) log') in
          rw same (omega arith)

  -- The tool guard lets the principal use SQL.
  abbrev pub MayUseSql : Type 0
  MayUseSql = (config.safety_lockdown_enabled ≡ false) × (principal.is_admin ≡ true)

  abbrev Fate : ℕ → Out → Type 0
  Fate base out = (proposals out.1.calls ≡ base) ⊎ (MayUseSql × (proposals out.1.calls ≤ base + 1))

  if_authorized-Fate :
      (r : Result (Unit {0})) (decision : RouteDecision) (d : GuardrailDecision) (next : Log → Out)
      (log : Log)
      → (r ≡ ok tt → MayUseSql)
      → proposals (next log).1.calls ≤ proposals log.calls + 1
      → Fate
          (proposals log.calls)
          (if_authorized s py config principal conversation_id r decision d next log)
  unfolding if_authorized
  if_authorized-Fate (ok u) decision d next log may few = inr (may refl, few)
  if_authorized-Fate (raised guardrail_blocked) decision d next log may few = inl refl
  if_authorized-Fate (raised _) decision d next log may few = inl refl

  dispatch-Fate :
      (route : QueryRoute) (question : String) (d : GuardrailDecision) (decision : RouteDecision)
      (log : Log)
      → Fate
          (proposals log.calls)
          (dispatch s py config principal conversation_id route question d decision log)
  unfolding dispatch
  dispatch-Fate rag question d decision log = inl (answer_from_rag-proposals question d log)
  dispatch-Fate reject question d decision log = inl refl
  dispatch-Fate sql question d decision log =
      let log' : Log = record {
        trail = (authorize_sql s.tool_events principal config log.trail).1;
        calls = log.calls;
      } in
      if_authorized-Fate (authorize_sql s.tool_events principal config log.trail).0 decision d
        (sql_answer s py config principal conversation_id question d decision) log'
        (λ e. (authorize_sql_iff s.tool_events principal config log.trail).0.0 e)
        (sql_answer-proposals question d decision log')
  dispatch-Fate hybrid_rag_sql question d decision log =
      let log' : Log = record {
        trail = (authorize_sql s.tool_events principal config log.trail).1;
        calls = log.calls;
      } in
      if_authorized-Fate (authorize_sql s.tool_events principal config log.trail).0 decision d
        (hybrid_answer s py config principal conversation_id question d decision) log'
        (λ e. (authorize_sql_iff s.tool_events principal config log.trail).0.0 e)
        (hybrid_answer-proposals question d decision log')

  -- The settings and the rollout send this question to the router.
  abbrev pub IsEligible : String → Type 0
  IsEligible question =
      (config.sql_enabled ≡ true)
      × (config.emergency_disabled ≡ false)
      × (sampled_in py question config.sql_rollout_percentage "sql" ≡ ok true)

  answer_guarded-Fate :
      (question : String) (d : GuardrailDecision) (log : Log)
      → (proposals (answer_guarded s py config principal conversation_id question d log).1.calls
          ≡ proposals log.calls)
        ⊎ (IsEligible question
            × MayUseSql
            × (proposals
                  (answer_guarded s py config principal conversation_id question d log).1.calls
                ≤ proposals log.calls + 1))
  unfolding answer_guarded
  answer_guarded-Fate question d log =
      let plain = answer_from_rag-proposals question d log in
      elim (Bool-cases (not config.sql_enabled || config.emergency_disabled)) [
        | inl off ↦ rw off (inl plain)
        | inr on ↦
            elim (Result-cases (sampled_in py question config.sql_rollout_percentage "sql")) [
              | inr (e, invalid) ↦ rw (on, invalid) (inl refl)
              | inl (false, sampled) ↦ rw (on, sampled) (inl plain)
              | inl (true, sampled) ↦ elim (Result-cases (s.route question log)) [
                | inr (e, failed) ↦ rw (on, sampled, failed) (inl refl)
                | inl (decision, routed) ↦
                    let fate =
                      dispatch-Fate decision.route question d decision
                        (called (route_call question) log) in
                    rw (on, sampled, routed)
                      (elim fate [
                        | inl none_asked ↦ inl none_asked
                        | inr (may, few) ↦ inr ((ground arith, ground arith, refl), may, few)
                      ])
              ]
            ]
      ]

  -- The input guard on the question.
  abbrev pub guarded : String → Log → Result (String × GuardrailDecision) × Trail
  guarded question log =
      check_with_decision s.input_guard question config.guardrail_mode (some principal.username)
        log.trail

  unless_blocked-Fate :
      (r : Result (String × GuardrailDecision)) (log : Log)
      → (proposals (unless_blocked s py config principal conversation_id r log).1.calls
          ≡ proposals log.calls)
        ⊎ ((q : String) × (d : GuardrailDecision) × (r ≡ ok (q, d))
            × IsEligible q
            × MayUseSql
            × (proposals (unless_blocked s py config principal conversation_id r log).1.calls
                ≤ proposals log.calls + 1))
  unfolding unless_blocked
  unless_blocked-Fate (raised guardrail_blocked) log = inl refl
  unless_blocked-Fate (raised _) log = inl refl
  unless_blocked-Fate (ok (q, d)) log = elim (answer_guarded-Fate q d log) [
    | inl none_asked ↦ inl none_asked
    | inr (eligible, may, few) ↦ inr (q, d, refl, eligible, may, few)
  ]

  -- A SQL proposal is asked for at most once for a question, and only for one that the input guard
  -- let through, while SQL is enabled, no emergency and no lockdown is on, the rollout samples the
  -- guarded question in and the principal is an administrator.
  pub answer-proposals :
      (question : String) (log : Log)
      → (proposals (answer s py config principal conversation_id question log).1.calls
          ≡ proposals log.calls)
        ⊎ ((q : String) × (d : GuardrailDecision) × ((guarded question log).0 ≡ ok (q, d))
            × IsEligible q
            × MayUseSql
            × (proposals (answer s py config principal conversation_id question log).1.calls
                ≤ proposals log.calls + 1))
  unfolding answer
  answer-proposals question log =
      unless_blocked-Fate (guarded question log).0
        (record { trail = (guarded question log).1; calls = log.calls })

  unless_blocked-blocked :
      (r : Result (String × GuardrailDecision)) (log : Log)
      → r ≡ raised guardrail_blocked
      → unless_blocked s py config principal conversation_id r log ≡ (ok blocked_response, log)
  unfolding unless_blocked
  unless_blocked-blocked r log e = rw e refl

  -- A question on whose canonical text every scanner of the input guard answers, one finding of which is of a
  -- category that always blocks or reaches the threshold of its category, is refused outside monitor
  -- mode, where the audit trail can be written: the response says so in fixed words, with no proposal,
  -- and no other service is called.
  pub answer_blocked :
      (question : String) (log : Log) (plain by_model : List ScanFinding)
      → IsScanned s.input_guard.deterministic_scanners (s.input_guard.canonicalize question) plain
      → IsScannedByMl s.input_guard.ml_scanner (s.input_guard.canonicalize question) by_model
      → config.guardrail_mode ≢ "monitor"
      → Some (IsBlockWorthy s.input_guard.policy) (plain ++ by_model)
      → ((event : SecurityEvent) (trail : Trail)
          → Returns (record_event s.input_guard.security_events event trail).0)
      → (response : ChatResponse) × ((answer s py config principal conversation_id question log).0
          ≡ ok response)
        × (response.status ≡ "rejected")
        × (response.answer
            ≡ "I can't process that request safely. Please restate the question without instructions to reveal or override system behavior.")
        × (response.sql_metadata
            ≡ some (record {
              enabled = false;
              reason_code = some "input_guardrail_blocked";
              proposal = none;
            }))
        × ((answer s py config principal conversation_id question log).1.calls ≡ log.calls)
  unfolding answer blocked_response
  answer_blocked question log plain by_model k m enforced worthy writes =
      let e =
        check_with_decision-blocks s.input_guard question config.guardrail_mode
          (some principal.username) log.trail plain by_model k m enforced worthy writes in
      let same =
        unless_blocked-blocked (guarded question log).0
          (record { trail = (guarded question log).1; calls = log.calls }) e in
      rw same (_, refl, refl, refl, refl, refl)
