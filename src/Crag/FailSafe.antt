-- ===== src/Crag/FailSafe.antt =====
-- `FailSafeCorrectiveRetriever` of app/rag_services/crag/crag.py: the availability boundary.
use enterprise_rag.Prelude.{
  String, ◌≡◌, refl, Bool, true, false, Option, none, some, List, is_empty, ◌↔◌, arith, eq_iff,
}
use enterprise_rag.Errors.{
  Exception, grader_parse_error, Result, ok, raised, Action, pure, caught, try_except,
}
use enterprise_rag.Crag.Types.{
  RetrievedChunk, CragOutcome, Calls, CorrectiveRetriever, local_evidence,
}

fallback : String → List RetrievedChunk → CragOutcome
fallback reason chunks = record {
  evidence = local_evidence chunks;
  decision = none;
  applied = false;
  fallback = true;
  abstain = is_empty chunks;
  web_used = false;
  bypass_reason = some reason;
  usage_tokens = 0;
}

-- The two `except` clauses.
reason_of : Exception → String
reason_of grader_parse_error = "grader_parse_error"
reason_of _ = "crag_error"

reasons_differ : ¬ (◌≡◌ {A = Option String} (some "crag_error") (some "grader_parse_error"))
reasons_differ p = ground (arith, eq_iff "crag_error" "grader_parse_error")

module _ (delegate : CorrectiveRetriever) where
  unfoldable pub fail_safe_correct : String → List RetrievedChunk → Bool → Action Calls CragOutcome
  unfolding fallback reason_of
  fail_safe_correct question chunks allow_web =
      try_except (delegate.correct question chunks allow_web)
        (λ e. pure (fallback (reason_of e) chunks))

  abbrev pub fail_safe : CorrectiveRetriever
  fail_safe = record { cache_namespace = delegate.cache_namespace; correct = fail_safe_correct }

  -- How a result of the delegate is answered: as it is if it returned; otherwise by the
  -- uncorrected local evidence, marked as a fallback, which abstains exactly when there is none, and
  -- whose reason tells a grader's parse error from every other failure.
  abbrev pub Answered : List RetrievedChunk → Result CragOutcome → CragOutcome → Type 0
  Answered chunks (ok o) out = out ≡ o
  Answered chunks (raised e) out =
      (out.evidence ≡ local_evidence chunks)
      × (out.fallback ≡ true)
      × (out.applied ≡ false)
      × (out.web_used ≡ false)
      × (out.abstain ≡ is_empty chunks)
      × ((out.bypass_reason ≡ some "grader_parse_error") ↔ (e ≡ grader_parse_error))

  answered :
      (chunks : List RetrievedChunk) (r : Result CragOutcome) (h : Calls)
      → (out : CragOutcome) × (caught r (λ e. pure (fallback (reason_of e) chunks)) h ≡ (ok out, h))
        × Answered chunks r out
  unfolding fallback reason_of
  answered chunks (ok o) h = (o, refl, refl)
  answered chunks (raised grader_parse_error) h = (
    fallback "grader_parse_error" chunks,
    refl,
    (refl, refl, refl, refl, refl, ((λ _. refl), (λ _. refl))),
  )
  answered chunks (raised e) h = (
    fallback "crag_error" chunks,
    refl,
    (refl, refl, refl, refl, refl, ((λ p. absurd (reasons_differ p)), (λ p. cc))),
  )

  -- The boundary never raises, whatever the delegate does, and adds no call of its own.
  pub fail_safe_total :
      (question : String) (chunks : List RetrievedChunk) (allow_web : Bool) (h : Calls)
      → (out : CragOutcome) × (fail_safe_correct question chunks allow_web h
          ≡ (ok out, (delegate.correct question chunks allow_web h).1))
        × Answered chunks (delegate.correct question chunks allow_web h).0 out
  unfolding fail_safe_correct
  fail_safe_total question chunks allow_web h =
      answered chunks (delegate.correct question chunks allow_web h).0
        (delegate.correct question chunks allow_web h).1
