-- ===== src/Guardrails/Policy.antt =====
-- The data of app/guardrails/contracts.py and `GuardrailPolicy` of app/guardrails/policy.py.
use enterprise_rag.Prelude.{
  String, ◌≡◌, ◌≢◌, ◌↔◌, refl, Bool, true, false, not, ◌&&◌, Option, none, some, List, any, ◌⊎◌,
  Option-cases, Some, any_iff, Bool-cases, inl, inr, arith, str_eq, eq_iff, if◌then◌else◌,
}
use enterprise_rag.Prelude.Int.{◌≤ℤ◌}
use enterprise_rag.Prelude.Float.{Float, le, fraction}

pub data GuardrailAction : Type 0 where
  allow redact block : GuardrailAction

pub data GuardrailStage : Type 0 where
  input context output tool ingestion : GuardrailStage

pub data GuardrailCategory : Type 0 where
  prompt_injection pii secrets toxicity banned_topic malicious_url prompt_leak unsafe_refusal
        policy :
      GuardrailCategory

pub record ScanFinding : Type 0 where
  pub category : GuardrailCategory
  pub score : Float
  pub detector : String
  pub detail : Option String

pub record GuardrailDecision : Type 0 where
  pub stage : GuardrailStage
  pub action : GuardrailAction
  pub mode : String
  pub findings : List ScanFinding
  pub would_block : Bool

abbrev pub is_block : GuardrailAction → Bool
is_block allow = false
is_block redact = false
is_block block = true

abbrev pub is_redact : GuardrailAction → Bool
is_redact allow = false
is_redact redact = true
is_redact block = false

-- The property `blocked`.
abbrev pub blocked : GuardrailDecision → Bool
blocked d = is_block d.action

pub record GuardrailPolicy : Type 0 where
  pub always_block : GuardrailCategory → Bool
  pub block_above_threshold : GuardrailCategory → Option Float
  pub redact_only : GuardrailCategory → Bool

default_always_block : GuardrailCategory → Bool
default_always_block prompt_injection = true
default_always_block secrets = true
default_always_block malicious_url = true
default_always_block prompt_leak = true
default_always_block _ = false

-- 0.75, and the double nearest to 0.6
default_threshold : GuardrailCategory → Option Float
default_threshold toxicity = some (fraction 6755399441055744)
default_threshold banned_topic = some (fraction 5404319552844595)
default_threshold _ = none

default_redact_only : GuardrailCategory → Bool
default_redact_only pii = true
default_redact_only _ = false

unfoldable pub default_policy : GuardrailPolicy
unfolding default_always_block default_threshold default_redact_only
default_policy = record {
  always_block = default_always_block;
  block_above_threshold = default_threshold;
  redact_only = default_redact_only;
}

-- `threshold is not None and finding.score >= threshold`
reaches : Option Float → Float → Bool
reaches none score = false
reaches (some threshold) score = le threshold score

module _ (p : GuardrailPolicy) where
  unfoldable pub is_block_worthy : ScanFinding → Bool
  unfolding reaches
  is_block_worthy finding =
      if p.always_block finding.category
      then true
      else reaches (p.block_above_threshold finding.category) finding.score

  abbrev pub would_block : List ScanFinding → Bool
  would_block findings = any is_block_worthy findings

  abbrev pub would_redact : List ScanFinding → Bool
  would_redact findings =
      not (would_block findings) && any (λ finding. p.redact_only finding.category) findings

  unfoldable pub decide : List ScanFinding → GuardrailStage → String → GuardrailDecision
  decide findings stage mode = record {
    stage = stage;
    action =
        if str_eq mode "monitor"
        then allow
        else if would_block findings
        then block
        else if would_redact findings
        then redact
        else allow;
    mode = mode;
    findings = findings;
    would_block = would_block findings;
  }

  -- A finding blocks: its category always does, or its score reaches the threshold of its category.
  unfoldable pub IsBlockWorthy : ScanFinding → Type 0
  IsBlockWorthy finding =
      (p.always_block finding.category ≡ true)
      ⊎ ((threshold : Float) × (p.block_above_threshold finding.category ≡ some threshold)
          × (threshold ≤ℤ finding.score))

  abbrev pub IsRedactable : ScanFinding → Type 0
  IsRedactable finding = p.redact_only finding.category ≡ true

  is_block_worthy_iff :
      (finding : ScanFinding) → (is_block_worthy finding ≡ true) ↔ IsBlockWorthy finding
  unfolding is_block_worthy reaches IsBlockWorthy
  is_block_worthy_iff finding = elim (Bool-cases (p.always_block finding.category)) [
    | inl always ↦ (λ e. inl always, λ h. rw always refl)
    | inr not_always ↦ elim (Option-cases (p.block_above_threshold finding.category)) [
      | inl unset ↦
          rw (not_always, unset)
            (
              λ e. (let q : false ≡ true = e in cc),
              λ h. elim h [ inl q ↦ cc | inr (t, q, le) ↦ cc ],
            )
      | inr (t, set) ↦
          rw (not_always, set)
            (
              λ e. inr (t, refl, ground arith),
              λ h. elim h [ inl q ↦ cc | inr (u, q, le) ↦ (let same : t ≡ u = cc in ground arith) ],
            )
    ]
  ]

  would_block_iff :
      (findings : List ScanFinding) → (would_block findings ≡ true) ↔ Some IsBlockWorthy findings
  would_block_iff findings = any_iff is_block_worthy IsBlockWorthy is_block_worthy_iff findings

  any-IsRedactable :
      (findings : List ScanFinding)
      → (any (λ finding. p.redact_only finding.category) findings ≡ true)
        ↔ Some IsRedactable findings
  any-IsRedactable findings =
      any_iff (λ finding. p.redact_only finding.category) IsRedactable (λ f. (λ e. e, λ e. e))
        findings

  not_true : (b : Bool) → b ≢ true → b ≡ false
  not_true true h = absurd (h refl)
  not_true false h = refl

  -- What a decision promises: in monitor mode everything is allowed; in every other mode it
  -- blocks exactly when some finding's category always blocks or its score reaches the threshold of
  -- its category, and redacts exactly when there is no such finding and some finding is of a
  -- category to redact. In every mode it reports whether there is such a finding.
  pub decide_lem :
      (findings : List ScanFinding) (stage : GuardrailStage) (mode : String)
      → (((mode ≡ "monitor") × ((decide findings stage mode).action ≡ allow))
          ⊎ ((mode ≢ "monitor")
              × (((decide findings stage mode).action ≡ block) ↔ Some IsBlockWorthy findings)
              × (((decide findings stage mode).action ≡ redact)
                  ↔ ((¬ Some IsBlockWorthy findings) × Some IsRedactable findings))))
        × (((decide findings stage mode).would_block ≡ true) ↔ Some IsBlockWorthy findings)
  unfolding decide
  decide_lem findings stage mode =
      let worthy = would_block_iff findings in
      let masked = any-IsRedactable findings in
      (
        elim (Bool-cases (str_eq mode "monitor")) [
          | inl monitoring ↦ inl ((eq_iff mode "monitor").0 monitoring, rw monitoring refl)
          | inr enforcing ↦ inr (
            λ e. (let q = (eq_iff mode "monitor").1 e in cc),
            rw enforcing (λ h. worthy.0 (ground arith), λ h. (let q = worthy.1 h in ground arith)),
            rw enforcing (
              λ h. (λ k. (let q = worthy.1 k in ground arith), masked.0 (ground arith)),
              λ h.
                  (let none_worthy = not_true (would_block findings) (λ q. h.0 (worthy.0 q)) in
                    let some_masked = masked.1 h.1 in ground arith),
            ),
          )
        ],
        worthy,
      )
