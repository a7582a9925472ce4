-- ===== src/Tests/Orchestrator.antt =====
-- The orchestrator with a router that sends everything to SQL.
use enterprise_rag.Prelude.{
  eq_iff, ◌+◌, ◌≤◌, String, ◌≡◌, ◌⊎◌, refl, true, false, none, some, inl, [], ◌∷◌,
}
use enterprise_rag.Prelude.Int.{pos}
use enterprise_rag.Prelude.Float.{one_float}
use enterprise_rag.Errors.{ok, raised, operational_error}
use enterprise_rag.RuntimeConfig.{RagRuntimeConfig}
use enterprise_rag.Guardrails.Policy.{secrets, ScanFinding, GuardrailDecision, default_policy}
use enterprise_rag.Guardrails.Pipelines.{Scanner}
use enterprise_rag.Guardrails.Pipelines.Scanning.{pipelines_run}
use enterprise_rag.Guardrails.Tool.{AuthenticatedUser}
use enterprise_rag.Orchestrator.{sql, ChatResponse, Log, Services, answer}
use enterprise_rag.Orchestrator.Gates.{
  proposals, IsEligible, MayUseSql, guarded, answer-proposals, answer_blocked,
}
use enterprise_rag.Tests.World.{py, promoted_config}

abbrev leak : ScanFinding
leak = record { category = secrets; score = one_float; detector = "d"; detail = none }

-- The services, with one scanner on the questions.
abbrev services : Scanner → Services
services scanner = record {
  rag_answer = λ question log. raised operational_error;
  route = λ question log. ok (record { route = sql; confidence = one_float; reason_code = "sql" });
  propose = λ user conversation question log. raised operational_error;
  input_guard = record {
    deterministic_scanners = scanner ∷ [];
    ml_scanner = none;
    policy = default_policy;
    security_events = none;
    canonicalize = λ text. text;
    tokenize = λ text. text;
  };
  tool_events = none;
  merge_categories = λ a b. a;
}

abbrev quiet : Scanner
quiet text = ok []

abbrev alarmed : Scanner
alarmed text = ok (leak ∷ [])

abbrev admin : AuthenticatedUser
admin = record { username = "root"; is_admin = true }

abbrev everyone : RagRuntimeConfig
everyone = record promoted_config { sql_rollout_percentage = pos 100 }

abbrev fresh : Log
fresh = record { trail = []; calls = [] }

answer-proposals_example :
    (proposals (answer (services quiet) py everyone admin 1 "How many?" fresh).1.calls ≡ 0)
    ⊎ ((q : String) × (d : GuardrailDecision) × ((guarded
            (services quiet)
            py
            everyone
            admin
            1
            "How many?"
            fresh).0
          ≡ ok (q, d))
        × IsEligible (services quiet) py everyone admin 1 q
        × MayUseSql (services quiet) py everyone admin 1
        × (proposals (answer (services quiet) py everyone admin 1 "How many?" fresh).1.calls
            ≤ 0 + 1))
answer-proposals_example = answer-proposals (services quiet) py everyone admin 1 "How many?" fresh

answer_blocked_example :
    (response : ChatResponse) × ((answer (services alarmed) py everyone admin 1 "my key" fresh).0
      ≡ ok response)
    × (response.status ≡ "rejected")
    × (response.answer
        ≡ "I can't process that request safely. Please restate the question without instructions to reveal or override system behavior.")
    × (response.sql_metadata
        ≡ some (record {
          enabled = false;
          reason_code = some "input_guardrail_blocked";
          proposal = none;
        }))
    × ((answer (services alarmed) py everyone admin 1 "my key" fresh).1.calls ≡ [])
unfolding pipelines_run default_policy
answer_blocked_example =
    answer_blocked (services alarmed) py everyone admin 1 "my key" fresh (leak ∷ []) []
      (leak ∷ [], [], refl, refl, refl) refl
      (λ e. let q : false ≡ true = (eq_iff everyone.guardrail_mode "monitor").1 e in cc)
      (0, leak, refl, inl refl) (λ event trail. (tt, refl))
