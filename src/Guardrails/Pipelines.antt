-- ===== src/Guardrails/Pipelines.antt =====
-- `InputGuardPipeline` of app/guardrails/input_pipeline.py and `OutputGuardPipeline` of
-- app/guardrails/output_pipeline.py. `canonicalize` and `tokenize` are parameters here.
pub mod Scanning
use Prim.Native.String.{◌++◌}
use enterprise_rag.Prelude.{
  String, ◌≡◌, refl, ap, sym, subst, ◌∙◌, ◌⊎◌, ◌≢◌, Some, true, false, ◌||◌, Bool-cases, inl, inr,
  Option, none, some, List, [], ◌∷◌, ◌++◌ as append, arith, if◌then◌else◌,
}
use enterprise_rag.Errors.{
  Result, ok, raised, guardrail_blocked, Action, pure, raise, lift, and_then, ◌>>=◌, ◌>>◌,
  Result-cases, Returns,
}
use enterprise_rag.Guardrails.Policy.{
  GuardrailAction, allow, redact, block, GuardrailStage, ScanFinding, GuardrailDecision,
  GuardrailPolicy, is_redact, blocked, decide, is_block_worthy, IsBlockWorthy, decide_lem,
}
use enterprise_rag.Guardrails.Audit.{
  SecurityEvent, Trail, SecurityEvents, record_event, first_category,
}

abbrev pub Scanner : Type 0
Scanner = String → Result (List ScanFinding)

abbrev pub prepend_findings :
    Result (List ScanFinding) → Result (List ScanFinding) → Result (List ScanFinding)
prepend_findings (ok xs) (ok ys) = ok (append xs ys)
prepend_findings (ok xs) (raised e) = raised e
prepend_findings (raised e) rest = raised e

-- `for scanner in …: findings.extend(scanner.scan(text))`, in order.
pub scan_all : List Scanner → String → Result (List ScanFinding)
scan_all [] text = ok []
scan_all (scan ∷ scanners) text = prepend_findings (scan text) (scan_all scanners text)

-- The deterministic scanners, then the model's scanner if there is one.
abbrev pub with_ml : List Scanner → Option Scanner → List Scanner
with_ml scanners none = scanners
with_ml scanners (some ml) = append scanners (ml ∷ [])

pub record InputGuardPipeline : Type 0 where
  pub deterministic_scanners : List Scanner
  pub ml_scanner : Option Scanner
  pub policy : GuardrailPolicy
  pub security_events : SecurityEvents
  pub canonicalize : String → String
  pub tokenize : String → String

pub record OutputGuardPipeline : Type 0 where
  pub deterministic_scanners : List Scanner
  pub ml_scanner : Option (String → Scanner)
  pub policy : GuardrailPolicy
  pub security_events : SecurityEvents
  pub tokenize : String → String

-- `"input_would_block" if action == "allow" else f"input_{action}"`
abbrev pub action_name : String → GuardrailAction → String
action_name stage allow = stage ++ "_would_block"
action_name stage redact = stage ++ "_redact"
action_name stage block = stage ++ "_block"

abbrev pub decision_event : Option String → String → GuardrailDecision → SecurityEvent
decision_event actor stage d = record {
  actor = actor;
  action = action_name stage d.action;
  stage = d.stage;
  category = first_category d.findings;
  mode = d.mode;
}

-- What both pipelines do with a decision on a text.
unfoldable pub settle :
    SecurityEvents
    → (String → String)
    → Option String
    → String
    → String
    → GuardrailDecision
    → Action Trail (String × GuardrailDecision)
settle events tokenize actor stage text d = do
  if d.would_block || is_redact d.action
      then record_event events (decision_event actor stage d)
      else pure tt
  if blocked d
      then raise guardrail_blocked
      else if is_redact d.action
      then pure (tokenize text, d)
      else pure (text, d)

unfoldable pub check_with_decision :
    InputGuardPipeline → String → String → Option String → Action Trail (String × GuardrailDecision)
check_with_decision g text mode actor = do
  findings ← lift (scan_all (with_ml g.deterministic_scanners g.ml_scanner) (g.canonicalize text))
  settle g.security_events g.tokenize actor "input" (g.canonicalize text)
      (decide g.policy findings GuardrailStage.input mode)

abbrev pub ml_on : Option (String → Scanner) → String → Option Scanner
ml_on none prompt = none
ml_on (some ml) prompt = some (ml prompt)

unfoldable pub apply_output : OutputGuardPipeline → String → String → String → Action Trail String
apply_output g prompt answer mode = do
  findings ← lift (scan_all (with_ml g.deterministic_scanners (ml_on g.ml_scanner prompt)) answer)
  out ←
      settle g.security_events g.tokenize none "output" answer
        (decide g.policy findings GuardrailStage.output mode)
  pure out.0
