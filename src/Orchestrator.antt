-- ===== src/Orchestrator.antt =====
-- `QueryOrchestrator` of app/query_orchestration/query_orchestrator.py: the guard on the question,
-- then routing to document search, to a SQL proposal, or to both. Of a response the fields that the
-- orchestrator itself writes are modelled.
pub mod Gates
pub mod Router
use Prim.Native.String.{◌++◌}
use enterprise_rag.Prelude.{
  ℕ, suc, String, Bool, true, false, not, ◌&&◌, ◌||◌, Option, none, some, List, [], ◌∷◌, map,
  if◌then◌else◌,
}
use enterprise_rag.Prelude.Float.{Float, zero_float}
use enterprise_rag.PyText.{PyText}
use enterprise_rag.Errors.{
  Exception, guardrail_blocked, sql_generation_failed, Result, ok, raised, Action, pure, raise,
  lift, and_then, ◌>>=◌,
}
use enterprise_rag.Rollout.{sampled_in}
use enterprise_rag.RuntimeConfig.{RagRuntimeConfig}
use enterprise_rag.Sql.Types.{SqlProposal, SqlProposalStatus}
use enterprise_rag.Guardrails.Policy.{
  GuardrailAction, allow, redact, block, GuardrailCategory, ScanFinding, GuardrailDecision,
}
use enterprise_rag.Guardrails.Audit.{Trail, SecurityEvents}
use enterprise_rag.Guardrails.Pipelines.{InputGuardPipeline, check_with_decision}
use enterprise_rag.Guardrails.Tool.{AuthenticatedUser, authorize_sql}

pub data QueryRoute : Type 0 where
  rag sql hybrid_rag_sql reject : QueryRoute

pub record RouteDecision : Type 0 where
  pub route : QueryRoute
  pub confidence : Float
  pub reason_code : String

pub record SqlMetadata : Type 0 where
  pub enabled : Bool
  pub reason_code : Option String
  pub proposal : Option SqlProposal

pub record ChatResponse : Type 0 where
  pub status : String
  pub answer : String
  pub confidence : Float
  pub route : QueryRoute
  pub sql_metadata : Option SqlMetadata
  pub input_action : GuardrailAction
  pub categories_flagged : List GuardrailCategory

-- What the orchestrator asks of the other services, newest first.
pub data Call : Type 0 where
  route_call : (question : String) → Call
  rag_call : (question : String) → Call
  propose_call : (question : String) → Call

-- The calls made so far, and the guardrails' audit trail.
pub record Log : Type 0 where
  pub trail : Trail
  pub calls : List Call

abbrev pub called : Call → Log → Log
called c log = record { trail = log.trail; calls = c ∷ log.calls }

-- The other services; each may answer differently at each call, or raise.
pub record Services : Type 0 where
  pub rag_answer : String → Log → Result ChatResponse
  pub route : String → Log → Result RouteDecision
  pub propose : AuthenticatedUser → ℕ → String → Log → Result SqlProposal
  pub input_guard : InputGuardPipeline
  pub tool_events : SecurityEvents
  -- `sorted({…} | set(…))`
  pub merge_categories : List GuardrailCategory → List GuardrailCategory → List GuardrailCategory

abbrev pub on_trail : {A : Type 0} → Action Trail A → Log → Result A × Log
on_trail action log =
    let (r, trail) = action log.trail in (r, record { trail = trail; calls = log.calls })

abbrev pub categories : List ScanFinding → List GuardrailCategory
categories findings = map (λ finding. finding.category) findings

pub blocked_response : ChatResponse
blocked_response = record {
  status = "rejected";
  answer =
      "I can't process that request safely. Please restate the question without instructions to reveal or override system behavior.";
  confidence = zero_float;
  route = reject;
  sql_metadata =
      some
        (record { enabled = false; reason_code = some "input_guardrail_blocked"; proposal = none });
  input_action = block;
  categories_flagged = [];
}

module _ (s : Services) (py : PyText) (config : RagRuntimeConfig) (principal : AuthenticatedUser)
    (conversation_id : ℕ) where
  -- `_overlay_input_guardrail`
  pub overlay : GuardrailDecision → ChatResponse → ChatResponse
  overlay d response = elim d.action [
    | allow ↦ response
    | redact ↦ record response {
      input_action = redact;
      categories_flagged = s.merge_categories (categories d.findings) response.categories_flagged;
    }
    | block ↦ record response {
      input_action = block;
      categories_flagged = s.merge_categories (categories d.findings) response.categories_flagged;
    }
  ]

  pub answer_from_rag : String → GuardrailDecision → Log → Result ChatResponse × Log
  answer_from_rag question d = do
    response ← (λ log. (s.rag_answer question log, called (rag_call question) log))
    pure (overlay d response)

  -- `_sql_response` and `_proposal_response`
  pub sql_response :
      RouteDecision → String → String → SqlMetadata → GuardrailDecision → ChatResponse
  sql_response decision status answer metadata d = overlay d (record {
    status = status;
    answer = answer;
    confidence = decision.confidence;
    route = decision.route;
    sql_metadata = some metadata;
    input_action = allow;
    categories_flagged = [];
  })

  abbrev pub rejected_metadata : String → SqlMetadata
  rejected_metadata reason = record { enabled = true; reason_code = some reason; proposal = none }

  abbrev pub proposal_metadata : SqlProposal → SqlMetadata
  proposal_metadata proposal = record {
    enabled = true;
    reason_code = none;
    proposal = some proposal;
  }

  abbrev pub ask_proposal : String → Log → Result SqlProposal × Log
  ask_proposal question log =
      (s.propose principal conversation_id question log, called (propose_call question) log)

  -- What becomes of the proposal for a question about data only.
  pub proposed_answer :
      RouteDecision → GuardrailDecision → Result SqlProposal → Log → Result ChatResponse × Log
  proposed_answer decision d (ok proposal) = pure (
      sql_response decision "approval_required"
        "A SQL query has been generated for this question and is waiting for your approval before it runs. Review the query and approve or reject it."
        (proposal_metadata proposal) d)
  proposed_answer decision d (raised (sql_generation_failed code)) = pure (
      sql_response decision "rejected"
        "A safe SQL query could not be generated for this question. Try rephrasing it or ask about a narrower set of data."
        (rejected_metadata "sql_generation_failed") d)
  proposed_answer decision d (raised e) = raise e

  -- What becomes of it next to an answer from the documents.
  pub merged_answer :
      RouteDecision → ChatResponse → Result SqlProposal → Log → Result ChatResponse × Log
  merged_answer decision response (ok proposal) = pure (record response {
    status = "approval_required";
    answer =
        response.answer
        ++ "\n\nA related data lookup has also been generated for the structured-data part of this question and is waiting for admin approval before it runs - review and approve it to get the exact figure.";
    route = decision.route;
    sql_metadata = some (proposal_metadata proposal);
  })
  merged_answer decision response (raised (sql_generation_failed code)) = pure (record response {
    route = decision.route;
    sql_metadata = some (rejected_metadata "sql_generation_failed");
  })
  merged_answer decision response (raised e) = raise e

  pub sql_answer : String → GuardrailDecision → RouteDecision → Log → Result ChatResponse × Log
  sql_answer question d decision log =
      let (r, log') = ask_proposal question log in proposed_answer decision d r log'

  -- `_generate_hybrid_answer`
  pub hybrid_answer : String → GuardrailDecision → RouteDecision → Log → Result ChatResponse × Log
  hybrid_answer question d decision = do
    response ← answer_from_rag question d
    λ log. let (r, log') = ask_proposal question log in merged_answer decision response r log'

  -- The `except` clause of the authorisation.
  abbrev pub unauthorized : RouteDecision → GuardrailDecision → ChatResponse
  unauthorized decision d =
      if config.safety_lockdown_enabled
      then sql_response decision "rejected"
          "This data operation is not authorized or is temporarily unavailable."
          (rejected_metadata "sql_safety_lockdown") d
      else sql_response decision "rejected"
          "This question needs structured-data access, which is currently limited to administrators while Text-to-SQL is in early rollout."
          (rejected_metadata "sql_admin_only_initial_rollout") d

  pub if_authorized :
      Result (Unit {0})
      → RouteDecision
      → GuardrailDecision
      → (Log → Result ChatResponse × Log)
      → Log
      → Result ChatResponse × Log
  if_authorized (ok u) decision d next = next
  if_authorized (raised guardrail_blocked) decision d next = pure (unauthorized decision d)
  if_authorized (raised e) decision d next = raise e

  abbrev pub authorized :
      RouteDecision
      → GuardrailDecision
      → (Log → Result ChatResponse × Log)
      → Log
      → Result ChatResponse × Log
  authorized decision d next log =
      let (r, log') = on_trail (authorize_sql s.tool_events principal config) log in
      if_authorized r decision d next log'

  pub dispatch :
      QueryRoute → String → GuardrailDecision → RouteDecision → Log → Result ChatResponse × Log
  dispatch rag question d decision = answer_from_rag question d
  dispatch sql question d decision = authorized decision d (sql_answer question d decision)
  dispatch hybrid_rag_sql question d decision =
      authorized decision d (hybrid_answer question d decision)
  dispatch reject question d decision = pure (
      sql_response decision "rejected"
        "This question could not be safely routed to either document search or data lookup."
        (rejected_metadata decision.reason_code) d)

  -- What follows the guard.
  pub answer_guarded : String → GuardrailDecision → Log → Result ChatResponse × Log
  answer_guarded question d =
      if not config.sql_enabled || config.emergency_disabled then answer_from_rag question d else do
        sampled ← lift (sampled_in py question config.sql_rollout_percentage "sql")
        if not sampled then answer_from_rag question d else do
          decision ← (λ log. (s.route question log, called (route_call question) log))
          dispatch decision.route question d decision

  pub unless_blocked : Result (String × GuardrailDecision) → Log → Result ChatResponse × Log
  unless_blocked (ok (question, d)) = answer_guarded question d
  unless_blocked (raised guardrail_blocked) = pure blocked_response
  unless_blocked (raised e) = raise e

  pub answer : String → Log → Result ChatResponse × Log
  answer question log =
      let (r, log') =
        on_trail
          (check_with_decision s.input_guard question config.guardrail_mode
            (some principal.username))
          log in
      unless_blocked r log'
