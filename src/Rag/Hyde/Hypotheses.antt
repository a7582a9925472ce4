-- ===== src/Rag/Hyde/Hypotheses.antt =====
-- `HydeQueryTransformer` of app/rag_services/hyde/hyde_query_transformer.py. The structured call of
-- the model is a parameter; what `HyDEDocuments` accepts of its payload is modelled.
use Prim.Native.String.{◌++◌}
use enterprise_rag.Prelude.{
  ℕ, String, ◌≡◌, refl, sym, Bool, true, false, not, ◌&&◌, Bool-cases, inl, inr, List, [], ◌∷◌, map,
  any, all, All, Some, All-Some-cons, subst, length, leb, ◌==◌, str_eq, none, arith, if◌then◌else◌,
}
use enterprise_rag.PyText.{PyText, join}
use enterprise_rag.Errors.{
  Result, ok, raised, value_error, other, Action, raise, lift, ◌>>=◌, Result-cases,
}
use enterprise_rag.Rag.World.{Calls, hypothesize_call, ask}
use enterprise_rag.Rag.Hyde.{QueryTransformOutcome, QueryTransformer}

-- `Hypothesis`: stripped, then 32 to 2,000 characters. `HyDEDocuments`: 1 to 5 of them.
abbrev pub is_hypothesis : PyText → String → Bool
is_hypothesis py text = leb 32 (py.len text) && leb (py.len text) 2000

abbrev pub validate_documents : PyText → List String → Result (List String)
validate_documents py texts =
    let stripped = map (λ text. py.strip text) texts in
    if leb 1 (length texts) && leb (length texts) 5 && all (is_hypothesis py) stripped
    then ok stripped
    else raised (other "ValidationError")

pub record HydeSettings : Type 0 where
  pub model : String
  pub num_hypotheses : ℕ
  -- The parts of `cache_namespace` that other settings give.
  pub prompt_version : String
  pub temperature_text : String
  pub max_tokens_text : String
  -- `generate_structured`: the texts of the payload and the tokens used
  pub generate : String → Calls → Result (List String × ℕ)

-- `__init__`
abbrev pub new_transformer : HydeSettings → Result HydeSettings
new_transformer s =
    if not (leb 1 s.num_hypotheses && leb s.num_hypotheses 5) then raised value_error else ok s

module _ (py : PyText) where
  -- `" ".join(text.split())`
  abbrev pub squeeze : String → String
  squeeze text = join " " (py.split text)

  abbrev pub mem : String → List String → Bool
  mem key keys = any (λ other_key. str_eq key other_key) keys

  -- The loop over the hypotheses, `seen` being the case-folded keys of those kept.
  pub unique_hypotheses : List String → List String → List String
  unique_hypotheses seen [] = []
  unique_hypotheses seen (text ∷ texts) =
      let key = py.casefold (squeeze text) in
      let skip = unique_hypotheses seen texts in
      let keep = unique_hypotheses (key ∷ seen) texts in
      if not (mem key seen) then squeeze text ∷ keep else skip

  abbrev pub hypothesized : HydeSettings → List String → ℕ → QueryTransformOutcome
  hypothesized s unique tokens = record {
    retrieval_texts = unique;
    backend = "hyde:" ++ s.model;
    applied = true;
    fallback = false;
    bypass_reason = none;
    usage_tokens = tokens;
  }

  abbrev pub hyde_outcome : HydeSettings → List String → ℕ → Result QueryTransformOutcome
  hyde_outcome s texts tokens =
      let unique = unique_hypotheses [] texts in
      if not (length unique == s.num_hypotheses)
      then raised value_error
      else ok (hypothesized s unique tokens)

  pub transform : HydeSettings → String → Action Calls QueryTransformOutcome
  transform s query = if str_eq (squeeze query) "" then raise value_error else do
    response ← ask (hypothesize_call (squeeze query)) (s.generate (squeeze query))
    texts ← lift (validate_documents py response.0)
    lift (hyde_outcome s texts response.1)

  abbrev pub hyde_namespace : HydeSettings → String
  hyde_namespace s =
      "hyde:v2:model="
      ++ s.model
      ++ ":prompt="
      ++ s.prompt_version
      ++ ":n="
      ++ py.str_of_int s.num_hypotheses
      ++ ":temp="
      ++ s.temperature_text
      ++ ":max_tokens="
      ++ s.max_tokens_text
      ++ ":schema=v1:fusion=mean-pool-l2-normalize:v1"

  abbrev pub hyde_transformer : HydeSettings → QueryTransformer
  hyde_transformer s = record {
    name = "hyde";
    cache_namespace = hyde_namespace s;
    transform = transform s;
  }

  -- No two texts have the same case-folded key, and none has a key already seen.
  abbrev pub Distinct : List String → List String → Type 0
  Distinct seen [] = Unit
  Distinct seen (text ∷ texts) =
      (mem (py.casefold text) seen ≡ false) × Distinct (py.casefold text ∷ seen) texts

  unique_hypotheses-Distinct :
      (seen texts : List String) → Distinct seen (unique_hypotheses seen texts)
  unfolding unique_hypotheses
  unique_hypotheses-Distinct seen [] = tt
  unique_hypotheses-Distinct seen (text ∷ texts) =
      elim (Bool-cases (mem (py.casefold (squeeze text)) seen)) [
        | inl again ↦ rw again (unique_hypotheses-Distinct seen texts)
        | inr new ↦
            rw new (new, unique_hypotheses-Distinct (py.casefold (squeeze text) ∷ seen) texts)
      ]

  -- A passage is the text of a hypothesis with its white space normalised.
  abbrev pub IsPassageOf : String → String → Type 0
  IsPassageOf passage text = passage ≡ join " " (py.split text)

  unique_hypotheses-IsPassageOf :
      (seen texts : List String)
      → All (λ passage. Some (IsPassageOf passage) texts) (unique_hypotheses seen texts)
  unfolding unique_hypotheses
  unique_hypotheses-IsPassageOf seen [] = tt
  unique_hypotheses-IsPassageOf seen (text ∷ texts) =
      elim (Bool-cases (mem (py.casefold (squeeze text)) seen)) [
        | inl again ↦ rw again (
            All-Some-cons IsPassageOf text texts (unique_hypotheses seen texts)
              (unique_hypotheses-IsPassageOf seen texts))
        | inr new ↦
            let key = py.casefold (squeeze text) in
            rw new (
              (0, text, refl, refl),
              All-Some-cons IsPassageOf text texts (unique_hypotheses (key ∷ seen) texts)
                  (unique_hypotheses-IsPassageOf (key ∷ seen) texts),
            )
      ]

  -- What a transformation that was applied to the model's texts is: each passage is one of them,
  -- stripped and with its white space normalised, and no two are equal in any letter case.
  abbrev pub IsApplied : HydeSettings → List String → QueryTransformOutcome → Type 0
  IsApplied s answered out =
      (out.applied ≡ true)
      × (out.fallback ≡ false)
      × (length out.retrieval_texts ≡ s.num_hypotheses)
      × Distinct [] out.retrieval_texts
      × All (λ passage. Some (IsPassageOf passage) (map (λ text. py.strip text) answered))
          out.retrieval_texts

  outcome_lem :
      (s : HydeSettings) (answered : List String) (tokens : ℕ) (out : QueryTransformOutcome)
      → hyde_outcome s (map (λ text. py.strip text) answered) tokens ≡ ok out
      → IsApplied s answered out
  outcome_lem s answered tokens out e =
      let texts = map (λ text. py.strip text) answered in
      elim (Bool-cases (length (unique_hypotheses [] texts) == s.num_hypotheses)) [
        | inr wrong ↦ absurd (let q = rw wrong at e in ground arith)
        | inl right ↦
            let same : hypothesized s (unique_hypotheses [] texts) tokens ≡ out =
              (let q = rw right at e in cc) in
            rw (sym same) (
              refl,
              refl,
              ground arith,
              unique_hypotheses-Distinct [] texts,
              unique_hypotheses-IsPassageOf [] texts,
            )
      ]

  validated :
      (answered texts : List String)
      → validate_documents py answered ≡ ok texts
      → texts ≡ map (λ text. py.strip text) answered
  validated answered texts e = ground arith

  -- A query expansion that returns was asked for a query that is not blank, called the model once,
  -- and holds exactly the configured number of passages. Each is one of the texts that the model
  -- answered, stripped and with its white space normalised, and no two of them are equal in any
  -- letter case.
  pub transform-IsApplied :
      (s : HydeSettings) (query : String) (calls : Calls) (out : QueryTransformOutcome)
      → (transform s query calls).0 ≡ ok out
      → (answered : List String) × (tokens : ℕ) × (s.generate (squeeze query) calls
          ≡ ok (answered, tokens))
        × IsApplied s answered out
        × (str_eq (squeeze query) "" ≡ false)
        × ((transform s query calls).1 ≡ hypothesize_call (squeeze query) ∷ calls)
  unfolding transform
  transform-IsApplied s query calls out e = elim (Bool-cases (str_eq (squeeze query) "")) [
    | inl blank ↦ absurd (let q = rw blank at e in ground arith)
    | inr asked ↦ elim (Result-cases (s.generate (squeeze query) calls)) [
      | inr (x, failed) ↦ absurd (let q = rw (asked, failed) at e in ground arith)
      | inl (response, answered) ↦ elim (Result-cases (validate_documents py response.0)) [
        | inr (x, malformed) ↦ absurd (let q = rw (asked, answered, malformed) at e in ground arith)
        | inl (texts, valid) ↦
            let q : hyde_outcome s texts response.1 ≡ ok out = rw (asked, answered, valid) at e in
            (
              response.0,
              response.1,
              answered,
              outcome_lem s response.0 response.1 out (
                  subst (λ ts. hyde_outcome s ts response.1 ≡ ok out)
                    (validated response.0 texts valid) q),
              asked,
              rw (asked, answered, valid) refl,
            )
      ]
    ]
  ]

-- Opened by the tests.
unfoldable pub hyde_run : Unit {0}
unfolding transform unique_hypotheses
hyde_run = tt
