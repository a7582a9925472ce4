-- ===== src/Sql/Masking.antt =====
-- `DefaultSQLResultPolicy` of app/sql/sql_result_policy.py. A cell is modelled by its text.
use enterprise_rag.Prelude.{
  ℕ, zero, suc, String, ◌≡◌, refl, Bool, Option, none, some, List, [], ◌∷◌, length, get_elem?, ap,
  if◌then◌else◌,
}
use enterprise_rag.Errors.{Result, ok, raised, value_error, Ensures}
use enterprise_rag.Sql.Types.{ValidatedSql, SqlExecutionResult, SanitizedSqlResult}

abbrev pub mask : String
mask = "***"

abbrev pub mask_cell : Bool → String → String
mask_cell is_sensitive value = if is_sensitive then mask else value

abbrev pub prepend {ℓ} : {A : Type ℓ} → A → Result (List A) → Result (List A)
prepend a (ok rest) = ok (a ∷ rest)
prepend a (raised e) = raised e

-- `zip(validated.projection_sensitive, row, strict=True)` raises when one is longer.
pub mask_row : List Bool → List String → Result (List String)
mask_row [] [] = ok []
mask_row (s ∷ ss) (v ∷ vs) = prepend (mask_cell s v) (mask_row ss vs)
mask_row [] (v ∷ vs) = raised value_error
mask_row (s ∷ ss) [] = raised value_error

abbrev pub prepend_row :
    Result (List String) → Result (List (List String)) → Result (List (List String))
prepend_row (ok row) rest = prepend row rest
prepend_row (raised e) rest = raised e

pub mask_rows : List Bool → List (List String) → Result (List (List String))
mask_rows sensitive [] = ok []
mask_rows sensitive (row ∷ rows) = prepend_row (mask_row sensitive row) (mask_rows sensitive rows)

abbrev pub sanitized :
    SqlExecutionResult → ℕ → Result (List (List String)) → Result SanitizedSqlResult
sanitized result now (ok rows) = ok (record {
  columns = result.columns;
  rows = rows;
  row_count = result.row_count;
  truncated = result.truncated;
  snapshot_at = now;
})
sanitized result now (raised e) = raised e

pub apply_policy : SqlExecutionResult → ValidatedSql → ℕ → Result SanitizedSqlResult
apply_policy result validated now =
    sanitized result now (mask_rows validated.projection_sensitive result.rows)

-- What a position of the masked row shows.
abbrev shown : Option Bool → Option String → Option String
shown (some is_sensitive) (some value) = some (mask_cell is_sensitive value)
shown _ _ = none

-- The masked row has the row's length and shows, at each position, the mask where the projection is
-- sensitive and the value itself elsewhere.
pub record IsMasked (sensitive : List Bool) (row masked : List String) : Type 0 where
  pub same_width : length sensitive ≡ length row
  pub cells : (i : ℕ) → get_elem? masked i ≡ shown (get_elem? sensitive i) (get_elem? row i)

mask_row-IsMasked :
    (sensitive : List Bool) (row : List String)
    → Ensures (IsMasked sensitive row) (mask_row sensitive row)
unfolding mask_row
mask_row-IsMasked [] [] = record { same_width = refl; cells = λ i. refl }
mask_row-IsMasked [] (v ∷ vs) = tt
mask_row-IsMasked (s ∷ ss) [] = tt
mask_row-IsMasked (s ∷ ss) (v ∷ vs) = go (mask_row ss vs) (mask_row-IsMasked ss vs)
  where
    go :
        (r : Result (List String))
        → Ensures (IsMasked ss vs) r
        → Ensures (IsMasked (s ∷ ss) (v ∷ vs)) (prepend (mask_cell s v) r)
    go (raised e) p = tt
    go (ok rest) p = record { same_width = ap suc p.same_width; cells = λ i. cell i }
      where
        cell :
            (i : ℕ)
            → get_elem? (mask_cell s v ∷ rest) i
              ≡ shown (get_elem? (s ∷ ss) i) (get_elem? (v ∷ vs) i)
        cell zero = refl
        cell (suc i) = p.cells i

abbrev pub AllMasked : List Bool → List (List String) → List (List String) → Type 0
AllMasked sensitive [] [] = Unit
AllMasked sensitive (row ∷ rows) (masked ∷ rest) =
    IsMasked sensitive row masked × AllMasked sensitive rows rest
AllMasked sensitive _ _ = ⊥

mask_rows-AllMasked :
    (sensitive : List Bool) (rows : List (List String))
    → Ensures (AllMasked sensitive rows) (mask_rows sensitive rows)
unfolding mask_rows
mask_rows-AllMasked sensitive [] = tt
mask_rows-AllMasked sensitive (row ∷ rows) =
    go (mask_row sensitive row) (mask_rows sensitive rows) (mask_row-IsMasked sensitive row)
      (mask_rows-AllMasked sensitive rows)
  where
    go :
        (r : Result (List String)) (rs : Result (List (List String)))
        → Ensures (IsMasked sensitive row) r
        → Ensures (AllMasked sensitive rows) rs
        → Ensures (AllMasked sensitive (row ∷ rows)) (prepend_row r rs)
    go (ok masked) (ok rest) p q = (p, q)
    go (ok masked) (raised e) p q = tt
    go (raised e) rs p q = tt

-- A result that leaves the policy has the rows of the raw result in order, each with every cell of
-- a sensitive projection masked and every other cell as it was; a raw row of another width is
-- refused. The labels of the columns play no part.
pub apply_policy-AllMasked :
    (result : SqlExecutionResult) (validated : ValidatedSql) (now : ℕ)
    → Ensures
        (λ (safe : SanitizedSqlResult).
          AllMasked validated.projection_sensitive result.rows safe.rows)
        (apply_policy result validated now)
unfolding apply_policy
apply_policy-AllMasked result validated now =
    go (mask_rows validated.projection_sensitive result.rows)
      (mask_rows-AllMasked validated.projection_sensitive result.rows)
  where
    go :
        (rs : Result (List (List String)))
        → Ensures (AllMasked validated.projection_sensitive result.rows) rs
        → Ensures
            (λ (safe : SanitizedSqlResult).
              AllMasked validated.projection_sensitive result.rows safe.rows)
            (sanitized result now rs)
    go (ok rows) p = p
    go (raised e) p = tt

-- Opened by the tests.
unfoldable pub masking_runs : Unit {0}
unfolding apply_policy mask_rows mask_row
masking_runs = tt
