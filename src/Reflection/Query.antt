-- ===== src/Reflection/Query.antt =====
-- `validate_reflection_query` of app/rag_services/reflection/reflection.py.
use enterprise_rag.Prelude.{
  ◌≤◌, String, ◌≡◌, ◌≢◌, refl, true, Bool, false, ◌⊎◌, inl, inr, Bool-cases, not, ◌&&◌, List, [],
  ◌∷◌, any, arith, leb, if◌then◌else◌,
}
use enterprise_rag.PyText.{PyText, join}
use enterprise_rag.Errors.{Result, ok, raised, value_error}

abbrev forbidden_query_markers : List String
forbidden_query_markers =
    "ignore previous" ∷ "ignore all previous" ∷ "system prompt" ∷ "http://" ∷ "https://" ∷ "sql:"
    ∷ []

module _ (py : PyText) where
  -- `any(marker in lowered for marker in _FORBIDDEN_QUERY_MARKERS)`
  pub has_marker : String → Bool
  has_marker normalized =
      any (λ marker. py.contains marker (py.casefold normalized)) forbidden_query_markers

  pub validate_reflection_query : String → Result String
  validate_reflection_query value =
      if py.has_control value
      then raised value_error
      else (let normalized = join " " (py.split value) in
          if not (leb 3 (py.len normalized) && leb (py.len normalized) 500)
          then raised value_error
          else if has_marker normalized
          then raised value_error
          else ok normalized)

  abbrev pub IsFree : String → String → Type 0
  IsFree phrase value = py.contains phrase (py.casefold (join " " (py.split value))) ≡ false

  -- What a text must be like to become a query: no control character, and, with its white space
  -- normalised, 3 to 500 characters and none of the forbidden phrases in any letter case.
  pub record IsAcceptable (value : String) : Type 0 where
    pub printable : py.has_control value ≡ false
    pub long_enough : 3 ≤ py.len (join " " (py.split value))
    pub short_enough : py.len (join " " (py.split value)) ≤ 500
    pub keeps_previous : IsFree "ignore previous" value
    pub keeps_all_previous : IsFree "ignore all previous" value
    pub spares_system : IsFree "system prompt" value
    pub plain_link : IsFree "http://" value
    pub secure_link : IsFree "https://" value
    pub plain_sql : IsFree "sql:" value

  abbrev fits : String → Bool
  fits value =
      leb 3 (py.len (join " " (py.split value))) && leb (py.len (join " " (py.split value))) 500

  cannot : (value : String) → IsAcceptable value → has_marker (join " " (py.split value)) ≢ true
  unfolding has_marker
  cannot value a =
      rw
        (
          a.keeps_previous, a.keeps_all_previous, a.spares_system, a.plain_link, a.secure_link,
          a.plain_sql,
        )
        (λ e. cc)

  accept :
      (value : String)
      → py.has_control value ≡ false
      → fits value ≡ true
      → has_marker (join " " (py.split value)) ≡ false
      → IsAcceptable value
  unfolding has_marker
  accept value printable fitting free = record {
    printable = printable;
    long_enough = ground arith;
    short_enough = ground arith;
    keeps_previous = ground arith;
    keeps_all_previous = ground arith;
    spares_system = ground arith;
    plain_link = ground arith;
    secure_link = ground arith;
    plain_sql = ground arith;
  }

  -- A text becomes a query exactly where it has no control character and, with its white space
  -- normalised, has 3 to 500 characters and contains none of the six forbidden phrases in any letter
  -- case; then the query is the text so normalised. Of every other text the validation raises
  -- `ValueError`.
  pub validate_reflection_query_total :
      (value : String)
      → (IsAcceptable value × (validate_reflection_query value ≡ ok (join " " (py.split value))))
        ⊎ ((¬ IsAcceptable value) × (validate_reflection_query value ≡ raised value_error))
  unfolding validate_reflection_query has_marker
  validate_reflection_query_total value = elim (Bool-cases (py.has_control value)) [
    | inl control ↦ inr (λ a. (let e = a.printable in cc), rw control refl)
    | inr printable ↦ elim (Bool-cases (fits value)) [
      | inr misfit ↦ inr (
        λ a. (let e = a.long_enough in let k = a.short_enough in ground arith),
        rw (printable, misfit) refl,
      )
      | inl fitting ↦ elim (Bool-cases (has_marker (join " " (py.split value)))) [
        | inl marked ↦ inr (λ a. cannot value a marked, rw (printable, fitting, marked) refl)
        | inr free ↦ inl (accept value printable fitting free, rw (printable, fitting, free) refl)
      ]
    ]
  ]

-- Opened by the tests.
unfoldable pub query_runs : Unit {0}
unfolding validate_reflection_query has_marker
query_runs = tt
