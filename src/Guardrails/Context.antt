-- ===== src/Guardrails/Context.antt =====
-- `ContextGuardPipeline` of app/guardrails/context_pipeline.py.
use enterprise_rag.Prelude.{
  String, ◌≡◌, ap, refl, Bool, true, not, ◌||◌, ◌≤◌, ◌+◌, Bool-cases, inl, inr, Option, none, some,
  List, [], ◌∷◌, ◌++◌ as append, filter, length, is_empty, arith, str_eq, if◌then◌else◌,
}
use enterprise_rag.Errors.{Result, ok, raised, Action, pure, lift, ◌>>=◌, ◌>>◌}
use enterprise_rag.Crag.Types.{EvidenceChunk}
use enterprise_rag.Guardrails.Policy.{
  GuardrailStage, ScanFinding, GuardrailDecision, GuardrailPolicy, blocked, would_block, decide,
}
use enterprise_rag.Guardrails.Audit.{
  SecurityEvent, Trail, SecurityEvents, record_event, first_category,
}
use enterprise_rag.Guardrails.Pipelines.{Scanner}

pub record ContextGuardPipeline : Type 0 where
  pub injection_scanner : Option Scanner
  pub policy : GuardrailPolicy
  pub security_events : SecurityEvents

-- The lists `kept` and `dropped_decisions` of the loop.
abbrev pub Sorted : Type 0
Sorted = List EvidenceChunk × List GuardrailDecision

abbrev pub sort_one : EvidenceChunk → GuardrailDecision → Sorted → Sorted
sort_one chunk d (kept, dropped) =
    if blocked d then (kept, d ∷ dropped) else (chunk ∷ kept, dropped)

abbrev pub sort_next :
    GuardrailPolicy
    → String
    → EvidenceChunk
    → Result (List ScanFinding)
    → Result Sorted
    → Result Sorted
sort_next p mode chunk (raised e) rest = raised e
sort_next p mode chunk (ok findings) (raised e) = raised e
sort_next p mode chunk (ok findings) (ok sorted) =
    ok (sort_one chunk (decide p findings GuardrailStage.context mode) sorted)

pub sort_evidence : GuardrailPolicy → Scanner → String → List EvidenceChunk → Result Sorted
sort_evidence p scan mode [] = ok ([], [])
sort_evidence p scan mode (chunk ∷ chunks) =
    sort_next p mode chunk (scan chunk.text) (sort_evidence p scan mode chunks)

abbrev pub all_findings : List GuardrailDecision → List ScanFinding
all_findings [] = []
all_findings (d ∷ ds) = append d.findings (all_findings ds)

abbrev pub dropped_event : String → List GuardrailDecision → SecurityEvent
dropped_event mode dropped = record {
  actor = none;
  action = "context_chunks_dropped";
  stage = GuardrailStage.context;
  category = first_category (all_findings dropped);
  mode = mode;
}

abbrev pub finish_filter : SecurityEvents → String → Sorted → Action Trail (List EvidenceChunk)
finish_filter events mode (kept, []) = pure kept
finish_filter events mode (kept, d ∷ ds) =
    record_event events (dropped_event mode (d ∷ ds)) >> pure kept

-- The scanner is there.
pub scan_and_filter :
    ContextGuardPipeline → Scanner → List EvidenceChunk → String → Action Trail (List EvidenceChunk)
scan_and_filter g scan evidence mode = do
  sorted ← lift (sort_evidence g.policy scan mode evidence)
  finish_filter g.security_events mode sorted

pub filter_evidence :
    ContextGuardPipeline → List EvidenceChunk → String → Action Trail (List EvidenceChunk)
filter_evidence g evidence mode = elim g.injection_scanner [
  | none ↦ pure evidence
  | some scan ↦ if is_empty evidence then pure evidence else scan_and_filter g scan evidence mode
]

-- The filter that the pipeline promises: in monitor mode every chunk stays, in every other mode
-- those without a block-worthy finding.
abbrev pub unblocked : GuardrailPolicy → (String → List ScanFinding) → String → EvidenceChunk → Bool
unblocked p findings_of mode chunk =
    str_eq mode "monitor" || not (would_block p (findings_of chunk.text))

unblocked_lem :
    (p : GuardrailPolicy) (findings : List ScanFinding) (mode : String)
    → blocked (decide p findings GuardrailStage.context mode)
      ≡ not (str_eq mode "monitor" || not (would_block p findings))
unfolding decide
unblocked_lem p findings mode = ground arith

sort_evidence-kept :
    (p : GuardrailPolicy) (scan : Scanner) (findings_of : String → List ScanFinding) (mode : String)
    (chunks : List EvidenceChunk)
    → ((text : String) → scan text ≡ ok (findings_of text))
    → (dropped : List GuardrailDecision) × (sort_evidence p scan mode chunks
        ≡ ok (filter (unblocked p findings_of mode) chunks, dropped))
unfolding sort_evidence
sort_evidence-kept p scan findings_of mode [] answers = ([], refl)
sort_evidence-kept p scan findings_of mode (chunk ∷ chunks) answers =
    let (dropped, rest) = sort_evidence-kept p scan findings_of mode chunks answers in
    let decided = unblocked_lem p (findings_of chunk.text) mode in
    elim (Bool-cases (unblocked p findings_of mode chunk)) [
      | inl stays ↦ (dropped, rw (answers chunk.text, rest, decided, stays) refl)
      | inr goes ↦ (
        decide p (findings_of chunk.text) GuardrailStage.context mode ∷ dropped,
        rw (answers chunk.text, rest, decided, goes) refl,
      )
    ]

record_event-calls :
    (events : SecurityEvents) (event : SecurityEvent) (t : Trail)
    → length (record_event events event t).1 ≤ length t + 1
unfolding record_event
record_event-calls none event t = omega arith
record_event-calls (some write) event t = omega arith

finish_filter_lem :
    (events : SecurityEvents) (mode : String) (kept : List EvidenceChunk)
    (dropped : List GuardrailDecision) (t : Trail)
    → ((event : SecurityEvent) (t : Trail) → (record_event events event t).0 ≡ ok tt)
    → ((finish_filter events mode (kept, dropped) t).0 ≡ ok kept)
      × (length (finish_filter events mode (kept, dropped) t).1 ≤ length t + 1)
finish_filter_lem events mode kept [] t writes = (refl, omega arith)
finish_filter_lem events mode kept (d ∷ ds) t writes =
    let wrote = writes (dropped_event mode (d ∷ ds)) t in
    rw wrote (refl, record_event-calls events (dropped_event mode (d ∷ ds)) t)

filter_empty :
    (test : EvidenceChunk → Bool) (evidence : List EvidenceChunk)
    → is_empty evidence ≡ true
    → evidence ≡ filter test evidence
filter_empty test [] e = refl
filter_empty test (chunk ∷ chunks) e = cc

-- With a scanner that answers and an audit trail that can be written, filtering returns exactly the
-- chunks without a block-worthy finding, in their order (all of them in monitor mode), and writes
-- at most one row to the audit trail, however many chunks are dropped.
pub filter_evidence_lem :
    (g : ContextGuardPipeline) (scan : Scanner) (findings_of : String → List ScanFinding)
    (evidence : List EvidenceChunk) (mode : String) (t : Trail)
    → g.injection_scanner ≡ some scan
    → ((text : String) → scan text ≡ ok (findings_of text))
    → ((event : SecurityEvent) (t : Trail) → (record_event g.security_events event t).0 ≡ ok tt)
    → ((filter_evidence g evidence mode t).0
        ≡ ok (filter (unblocked g.policy findings_of mode) evidence))
      × (length (filter_evidence g evidence mode t).1 ≤ length t + 1)
unfolding filter_evidence scan_and_filter
filter_evidence_lem g scan findings_of evidence mode t present answers writes =
    elim (Bool-cases (is_empty evidence)) [
      | inl empty ↦
          let same = filter_empty (unblocked g.policy findings_of mode) evidence empty in
          rw (present, empty) (ap ok same, omega arith)
      | inr full ↦
          let (dropped, sorted) =
            sort_evidence-kept g.policy scan findings_of mode evidence answers in
          rw (present, full, sorted)
            (finish_filter_lem g.security_events mode
              (filter (unblocked g.policy findings_of mode) evidence) dropped t writes)
    ]
