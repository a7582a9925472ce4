-- ===== src/Guardrails/Audit.antt =====
-- The rows that the guardrails write to the audit trail (app/guardrails/security_events.py and
-- app/repositories/security_events_repository.py). The JSON summary of the findings is left out.
use enterprise_rag.Prelude.{String, Option, none, some, List, [], ◌∷◌}
use enterprise_rag.Errors.{Result, Action, pure}
use enterprise_rag.Guardrails.Policy.{GuardrailStage, GuardrailCategory, ScanFinding}

pub record SecurityEvent : Type 0 where
  pub actor : Option String
  pub action : String
  pub stage : GuardrailStage
  pub category : Option GuardrailCategory
  pub mode : String

-- The rows whose writing was tried, newest first.
abbrev pub Trail : Type 0
Trail = List SecurityEvent

-- `security_events`: the repository, or none. Writing may raise.
abbrev pub SecurityEvents : Type 0
SecurityEvents = Option (SecurityEvent → Trail → Result (Unit {0}))

unfoldable pub record_event : SecurityEvents → SecurityEvent → Action Trail (Unit {0})
record_event none event = pure tt
record_event (some write) event = λ trail. (write event trail, event ∷ trail)

-- `next((f.category for f in findings), None)`
abbrev pub first_category : List ScanFinding → Option GuardrailCategory
first_category [] = none
first_category (finding ∷ _) = some finding.category
