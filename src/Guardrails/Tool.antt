-- ===== src/Guardrails/Tool.antt =====
-- `ToolGuardrail` of app/guardrails/tool_guardrail.py.
use enterprise_rag.Prelude.{
  String, ◌≡◌, ◌≢◌, refl, Bool, true, false, not, ◌↔◌, Bool-cases, inl, inr, none, some,
  if◌then◌else◌,
}
use enterprise_rag.Errors.{
  Result, ok, raised, guardrail_blocked, Action, pure, raise, and_then, ◌>>◌,
}
use enterprise_rag.RuntimeConfig.{RagRuntimeConfig}
use enterprise_rag.Guardrails.Policy.{GuardrailStage}
use enterprise_rag.Guardrails.Audit.{SecurityEvent, Trail, SecurityEvents, record_event}

pub record AuthenticatedUser : Type 0 where
  pub username : String
  pub is_admin : Bool

abbrev pub tool_event : AuthenticatedUser → RagRuntimeConfig → String → SecurityEvent
tool_event principal config action = record {
  actor = some principal.username;
  action = action;
  stage = GuardrailStage.tool;
  category = none;
  mode = config.guardrail_mode;
}

unfoldable pub authorize_sql :
    SecurityEvents → AuthenticatedUser → RagRuntimeConfig → Action Trail (Unit {0})
authorize_sql events principal config =
    if config.safety_lockdown_enabled
    then record_event events (tool_event principal config "tool_lockdown_denied")
      >> raise guardrail_blocked
    else if not principal.is_admin
    then record_event events (tool_event principal config "tool_permission_denied")
      >> raise guardrail_blocked
    else pure tt

denied :
    (r : Result (Unit {0})) (t : Trail)
    → (and_then r (λ _. raise {A = Unit {0}} guardrail_blocked) t).0 ≢ ok tt
denied (ok u) t = λ e. cc
denied (raised x) t = λ e. cc

-- SQL is authorised exactly for an administrator while no lockdown is on, and then nothing is
-- written to the audit trail; also a failing audit trail never lets a denied request through.
pub authorize_sql_iff :
    (events : SecurityEvents) (principal : AuthenticatedUser) (config : RagRuntimeConfig)
    (t : Trail)
    → (((authorize_sql events principal config t).0 ≡ ok tt)
        ↔ ((config.safety_lockdown_enabled ≡ false) × (principal.is_admin ≡ true)))
      × ((authorize_sql events principal config t).0 ≡ ok tt
          → (authorize_sql events principal config t).1 ≡ t)
unfolding authorize_sql
authorize_sql_iff events principal config t = elim (Bool-cases config.safety_lockdown_enabled) [
  | inl locked ↦ rw locked (
    (
      λ e. absurd (
          denied (record_event events (tool_event principal config "tool_lockdown_denied") t).0 _
            e),
      λ h. cc,
    ),
    λ e.
        absurd (
          denied (record_event events (tool_event principal config "tool_lockdown_denied") t).0 _
            e),
  )
  | inr unlocked ↦ elim (Bool-cases principal.is_admin) [
    | inl admin ↦ rw (unlocked, admin) ((λ e. (refl, refl), λ h. refl), λ e. refl)
    | inr other_user ↦
        rw (unlocked, other_user)
          (
            (
              λ e. absurd (
                  denied
                    (record_event events (tool_event principal config "tool_permission_denied") t).0
                    _ e),
              λ h. cc,
            ),
            λ e. absurd (
                denied
                  (record_event events (tool_event principal config "tool_permission_denied") t).0 _
                  e),
          )
  ]
]
