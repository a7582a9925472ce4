-- ===== src/Guardrails/Pipelines/Scanning.antt =====
-- What app/guardrails/input_pipeline.py lets through, and what it blocks, in terms of its scanners.
use enterprise_rag.Prelude.{
  String, ◌≡◌, refl, ap, sym, subst, ◌∙◌, ◌⊎◌, ◌≢◌, Some, true, false, Bool-cases, inl, inr, Option,
  none, some, List, [], ◌∷◌, ◌++◌ as append, arith, if◌then◌else◌,
}
use enterprise_rag.Errors.{
  Result, ok, raised, guardrail_blocked, pure, raise, and_then, Result-cases, Returns,
}
use enterprise_rag.Guardrails.Policy.{
  block, GuardrailStage, ScanFinding, GuardrailDecision, GuardrailPolicy, is_redact, blocked,
  decide, is_block_worthy, IsBlockWorthy, decide_lem,
}
use enterprise_rag.Guardrails.Audit.{SecurityEvent, Trail, SecurityEvents, record_event}
use enterprise_rag.Guardrails.Pipelines.{
  Scanner, scan_all, with_ml, InputGuardPipeline, decision_event, settle, check_with_decision,
}

-- The text that a decision lets through.
abbrev pub let_through : (String → String) → String → GuardrailDecision → String
let_through tokenize text d = if is_redact d.action then tokenize text else text

settle-after :
    (tokenize : String → String) (text : String) (d : GuardrailDecision) (r : Result (Unit {0}))
    (t : Trail) (out : String × GuardrailDecision)
    → (and_then r
        (λ _.
          if blocked d
          then raise guardrail_blocked
          else if is_redact d.action
          then pure (tokenize text, d)
          else pure (text, d))
        t).0
      ≡ ok out
    → (blocked d ≡ false) × (out ≡ (let_through tokenize text d, d))
settle-after tokenize text d (raised x) t out e = cc
settle-after tokenize text d (ok u) t out e = elim (Bool-cases (blocked d)) [
  | inl stopped ↦ absurd (let q = rw stopped at e in ground arith)
  | inr open_to ↦ elim (Bool-cases (is_redact d.action)) [
    | inl masked ↦ let q = rw (open_to, masked) at e in (open_to, rw masked (ground arith))
    | inr plain ↦ let q = rw (open_to, plain) at e in (open_to, rw plain (ground arith))
  ]
]

settle-eq-ok :
    (events : SecurityEvents) (tokenize : String → String) (actor : Option String)
    (stage text : String) (d : GuardrailDecision) (t : Trail) (out : String × GuardrailDecision)
    → (settle events tokenize actor stage text d t).0 ≡ ok out
    → (blocked d ≡ false) × (out ≡ (let_through tokenize text d, d))
unfolding settle
settle-eq-ok events tokenize actor stage text d t out e = settle-after tokenize text d _ _ out e

decide_findings :
    (p : GuardrailPolicy) (findings : List ScanFinding) (stage : GuardrailStage) (mode : String)
    → (decide p findings stage mode).findings ≡ findings
unfolding decide
decide_findings p findings stage mode = refl

unblocked_lem :
    (p : GuardrailPolicy) (findings : List ScanFinding) (mode : String)
    → blocked (decide p findings GuardrailStage.input mode) ≡ false
    → (mode ≡ "monitor") ⊎ (¬ Some (IsBlockWorthy p) findings)
unblocked_lem p findings mode open_to = elim (decide_lem p findings GuardrailStage.input mode).0 [
  | inl (monitoring, _) ↦ inl monitoring
  | inr (_, blocks, _) ↦ inr (λ k.
      let stopped : (decide p findings GuardrailStage.input mode).action ≡ block = blocks.1 k in
      let q = rw stopped at open_to in cc)
]

-- Each of the scanners answered on the text, and these are all their findings, in order.
pub IsScanned : List Scanner → String → List ScanFinding → Type 0
IsScanned [] text findings = findings ≡ []
IsScanned (scan ∷ scanners) text findings =
    (first rest : List ScanFinding) × (scan text ≡ ok first)
    × IsScanned scanners text rest
    × (findings ≡ append first rest)

-- So did the model's scanner, if there is one.
pub IsScannedByMl : Option Scanner → String → List ScanFinding → Type 0
IsScannedByMl none text findings = findings ≡ []
IsScannedByMl (some ml) text findings = ml text ≡ ok findings

scan_all-IsScanned :
    (scanners : List Scanner) (text : String) (findings : List ScanFinding)
    → scan_all scanners text ≡ ok findings
    → IsScanned scanners text findings
unfolding scan_all IsScanned
scan_all-IsScanned [] text findings e = cc
scan_all-IsScanned (scan ∷ scanners) text findings e = elim (Result-cases (scan text)) [
  | inr (x, broken) ↦ absurd (let q = rw broken at e in cc)
  | inl (first, answered) ↦ elim (Result-cases (scan_all scanners text)) [
    | inr (x, broken) ↦ absurd (let q = rw (answered, broken) at e in cc)
    | inl (rest, more) ↦ (
      first,
      rest,
      answered,
      scan_all-IsScanned scanners text rest more,
      let q = rw (answered, more) at e in cc,
    )
  ]
]

append_nil : (xs : List ScanFinding) → append xs [] ≡ xs
append_nil [] = refl
append_nil (x ∷ xs) = ap (λ ys. x ∷ ys) (append_nil xs)

append_assoc : (xs ys zs : List ScanFinding) → append (append xs ys) zs ≡ append xs (append ys zs)
append_assoc [] ys zs = refl
append_assoc (x ∷ xs) ys zs = ap (λ ws. x ∷ ws) (append_assoc xs ys zs)

with_ml-IsScanned :
    (scanners : List Scanner) (ml : Option Scanner) (text : String) (findings : List ScanFinding)
    → IsScanned (with_ml scanners ml) text findings
    → (plain by_model : List ScanFinding) × IsScanned scanners text plain
      × IsScannedByMl ml text by_model
      × (findings ≡ append plain by_model)
unfolding IsScanned IsScannedByMl
with_ml-IsScanned scanners none text findings h = (findings, [], h, refl, sym (append_nil findings))
with_ml-IsScanned [] (some ml) text findings (first, rest, answered, none_left, all) =
    ([], first, refl, answered, all ∙ ap (λ rest. append first rest) none_left ∙ append_nil first)
with_ml-IsScanned (scan ∷ scanners) (some ml) text findings (first, rest, answered, more, all) =
    let (plain, by_model, k, m, split) = with_ml-IsScanned scanners (some ml) text rest more in
    (
      append first plain,
      by_model,
      (first, plain, answered, k, refl),
      m,
      all ∙ ap (λ fs. append first fs) split ∙ sym (append_assoc first plain by_model),
    )

-- A question that the input guard lets through was scanned: every deterministic scanner, and the
-- model's scanner if there is one, answered on the canonical text. Outside monitor mode none of all
-- their findings is of a category that always blocks or reaches the threshold of its category. The
-- decision reports exactly these findings, and the text that goes on is the canonical one, with its
-- sensitive values masked where the decision is to redact.
pub check_with_decision-eq-ok :
    (g : InputGuardPipeline) (text mode : String) (actor : Option String) (t : Trail)
    (out : String × GuardrailDecision)
    → (check_with_decision g text mode actor t).0 ≡ ok out
    → (plain by_model : List ScanFinding) × IsScanned g.deterministic_scanners
        (g.canonicalize text)
        plain
      × IsScannedByMl g.ml_scanner (g.canonicalize text) by_model
      × (out.1.findings ≡ append plain by_model)
      × ((mode ≡ "monitor") ⊎ (¬ Some (IsBlockWorthy g.policy) (append plain by_model)))
      × (out.0 ≡ (
          if is_redact out.1.action then g.tokenize (g.canonicalize text) else g.canonicalize text))
unfolding check_with_decision
check_with_decision-eq-ok g text mode actor t out e =
    elim (Result-cases
      (scan_all (with_ml g.deterministic_scanners g.ml_scanner) (g.canonicalize text))) [
        | inr (x, broken) ↦ absurd (let q = rw broken at e in ground arith)
        | inl (findings, scanned) ↦
            let d = decide g.policy findings GuardrailStage.input mode in
            let (open_to, same) =
              settle-eq-ok g.security_events g.tokenize actor "input" (g.canonicalize text) d t out
                (rw scanned at e) in
            let (plain, by_model, k, m, split) =
              with_ml-IsScanned g.deterministic_scanners g.ml_scanner (g.canonicalize text) findings
                (scan_all-IsScanned (with_ml g.deterministic_scanners g.ml_scanner)
                  (g.canonicalize text) findings scanned) in
            (
              plain,
              by_model,
              k,
              m,
              rw same (decide_findings g.policy findings GuardrailStage.input mode ∙ split),
              subst (λ fs. (mode ≡ "monitor") ⊎ (¬ Some (IsBlockWorthy g.policy) fs)) split
                  (unblocked_lem g.policy findings mode open_to),
              rw same refl,
            )
      ]

IsScanned-scan_all :
    (scanners : List Scanner) (ml : Option Scanner) (text : String)
    (plain by_model : List ScanFinding)
    → IsScanned scanners text plain
    → IsScannedByMl ml text by_model
    → scan_all (with_ml scanners ml) text ≡ ok (append plain by_model)
unfolding scan_all IsScanned IsScannedByMl
IsScanned-scan_all [] none text plain by_model k m = rw (k, m) refl
IsScanned-scan_all [] (some ml) text plain by_model k m = rw (m, k, append_nil by_model) refl
IsScanned-scan_all (scan ∷ scanners) none text plain by_model (first, rest, e, more, all) m =
    rw (m, append_nil plain, all, e)
      (rw (IsScanned-scan_all scanners none text rest [] more refl, append_nil rest) refl)
IsScanned-scan_all (scan ∷ scanners) (some ml) text plain by_model (first, rest, e, more, all) m =
    rw
      (
        all,
        e,
        IsScanned-scan_all scanners (some ml) text rest by_model more m,
        append_assoc first rest by_model,
      )
      refl

settle-blocks :
    (events : SecurityEvents) (tokenize : String → String) (actor : Option String)
    (stage text : String) (d : GuardrailDecision) (t : Trail)
    → ((event : SecurityEvent) (trail : Trail) → Returns (record_event events event trail).0)
    → d.action ≡ block
    → d.would_block ≡ true
    → (settle events tokenize actor stage text d t).0 ≡ raised guardrail_blocked
unfolding settle
settle-blocks events tokenize actor stage text d t writes act would =
    let (u, written) = writes (decision_event actor stage d) t in rw (would, written, act) refl

-- A question is blocked, outside monitor mode, as soon as every scanner answers and one of their
-- findings blocks, where the audit trail can be written.
pub check_with_decision-blocks :
    (g : InputGuardPipeline) (text mode : String) (actor : Option String) (t : Trail)
    (plain by_model : List ScanFinding)
    → IsScanned g.deterministic_scanners (g.canonicalize text) plain
    → IsScannedByMl g.ml_scanner (g.canonicalize text) by_model
    → mode ≢ "monitor"
    → Some (IsBlockWorthy g.policy) (append plain by_model)
    → ((event : SecurityEvent) (trail : Trail)
        → Returns (record_event g.security_events event trail).0)
    → (check_with_decision g text mode actor t).0 ≡ raised guardrail_blocked
unfolding check_with_decision
check_with_decision-blocks g text mode actor t plain by_model k m enforced worthy writes =
    let findings = append plain by_model in
    let decided = decide_lem g.policy findings GuardrailStage.input mode in
    let scanned =
      IsScanned-scan_all g.deterministic_scanners g.ml_scanner (g.canonicalize text) plain by_model
        k m in
    let act : (decide g.policy findings GuardrailStage.input mode).action ≡ block = elim decided.0 [
      | inl (monitoring, _) ↦ absurd (enforced monitoring)
      | inr (_, blocks, _) ↦ blocks.1 worthy
    ] in
    rw scanned (
      settle-blocks g.security_events g.tokenize actor "input" (g.canonicalize text)
        (decide g.policy findings GuardrailStage.input mode) t writes act (decided.1.1 worthy))

-- Opened by the tests.
unfoldable pub pipelines_run : Unit {0}
unfolding check_with_decision settle scan_all record_event decide is_block_worthy IsScanned
    IsScannedByMl IsBlockWorthy
pipelines_run = tt
