-- ===== src/Orchestrator/Router.antt =====
-- `StructuredIntentRouter.route` of app/query_orchestration/intent_router.py. The structured model
-- call, with the bounds of the payload's fields, is a parameter.
use enterprise_rag.Prelude.{
  String, ◌≡◌, Bool, true, false, ◌&&◌, Bool-cases, inl, inr, arith, if◌then◌else◌,
}
use enterprise_rag.Prelude.Int.{◌≤ℤ◌}
use enterprise_rag.Prelude.Float.{Float, lt}
use enterprise_rag.Errors.{Result, ok, raised}
use enterprise_rag.Orchestrator.{QueryRoute, rag, sql, hybrid_rag_sql, reject, RouteDecision, Log}

pub record StructuredIntentRouter : Type 0 where
  pub generate_structured : String → Log → Result RouteDecision
  pub min_sql_confidence : Float

-- `route in (QueryRoute.SQL, QueryRoute.HYBRID_RAG_SQL)`
abbrev pub uses_sql : QueryRoute → Bool
uses_sql rag = false
uses_sql sql = true
uses_sql hybrid_rag_sql = true
uses_sql reject = false

pub routed : Float → RouteDecision → RouteDecision
routed min value =
    if uses_sql value.route && lt value.confidence min
    then record {
      route = reject;
      confidence = value.confidence;
      reason_code = "uncertain_sql_intent";
    }
    else value

pub route_question : StructuredIntentRouter → String → Log → Result RouteDecision
route_question router question log = elim (router.generate_structured question log) [
  | ok value ↦ ok (routed router.min_sql_confidence value)
  | raised e ↦ raised e
]

routed-confidence :
    (min : Float) (value : RouteDecision)
    → uses_sql (routed min value).route ≡ true
    → min ≤ℤ (routed min value).confidence
unfolding routed
routed-confidence min value e =
    elim (Bool-cases (uses_sql value.route && lt value.confidence min)) [
      | inl doubtful ↦ absurd (let q = rw doubtful at e in ground arith)
      | inr clear ↦ let q = rw clear at e in rw clear (ground arith)
    ]

-- A question is routed to SQL, alone or next to the documents, only with the required confidence.
pub route_question-confidence :
    (router : StructuredIntentRouter) (question : String) (log : Log) (d : RouteDecision)
    → route_question router question log ≡ ok d
    → uses_sql d.route ≡ true
    → router.min_sql_confidence ≤ℤ d.confidence
unfolding route_question
route_question-confidence router question log d e h = go (router.generate_structured question log) e
  where
    go :
        (r : Result RouteDecision)
        → elim r as (λ _. Result RouteDecision) [
          | ok value ↦ ok (routed router.min_sql_confidence value)
          | raised x ↦ raised x
        ]
          ≡ ok d
        → router.min_sql_confidence ≤ℤ d.confidence
    go (raised x) e = absurd (ground arith)
    go (ok value) e =
        let same : d ≡ routed router.min_sql_confidence value = cc in
        rw same (routed-confidence router.min_sql_confidence value (rw same at h))

-- Opened by the tests.
unfoldable pub router_runs : Unit {0}
unfolding route_question routed
router_runs = tt
