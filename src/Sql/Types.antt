-- ===== src/Sql/Types.antt =====
-- The data of app/sql/models.py, the table of proposals, and the collaborators of the SQL service.
-- A point in time is a number of microseconds, a UUID a number.
use enterprise_rag.Prelude.{ℕ, String, Bool, true, false, Option, List, [], ◌∷◌}
use enterprise_rag.Errors.{Result}

pub data SqlProposalStatus : Type 0 where
  proposed approved executing executed rejected expired failed : SqlProposalStatus

abbrev pub is_proposed : SqlProposalStatus → Bool
is_proposed proposed = true
is_proposed approved = false
is_proposed executing = false
is_proposed executed = false
is_proposed rejected = false
is_proposed expired = false
is_proposed failed = false

abbrev pub is_executing : SqlProposalStatus → Bool
is_executing proposed = false
is_executing approved = false
is_executing executing = true
is_executing executed = false
is_executing rejected = false
is_executing expired = false
is_executing failed = false

pub record SqlPrincipal : Type 0 where
  pub username : String
  pub is_admin : Bool

pub record CatalogSnapshot : Type 0 where
  pub version : ℕ
  pub columns : List String

pub record SqlGeneration : Type 0 where
  pub sql : String
  pub tables : List String
  pub assumptions : List String

pub record ValidatedSql : Type 0 where
  pub sql : String
  pub fingerprint : String
  pub referenced_tables : List String
  pub referenced_columns : List String
  pub projection_sensitive : List Bool
  pub row_limit : ℕ
  pub policy_version : String

pub record SqlProposal : Type 0 where
  pub id : ℕ
  pub username : String
  pub conversation_id : ℕ
  pub question : String
  pub sql : String
  pub sql_fingerprint : String
  pub referenced_tables : List String
  pub assumptions : List String
  pub catalog_version : ℕ
  pub policy_version : String
  pub status : SqlProposalStatus
  pub expires_at : ℕ
  pub created_at : ℕ

pub record SqlExecutionResult : Type 0 where
  pub columns : List String
  pub rows : List (List String)
  pub row_count : ℕ
  pub truncated : Bool

pub record SanitizedSqlResult : Type 0 where
  pub columns : List String
  pub rows : List (List String)
  pub row_count : ℕ
  pub truncated : Bool
  pub snapshot_at : ℕ

pub record SqlCompletedAnswer : Type 0 where
  pub answer : String
  pub result : SanitizedSqlResult
  pub proposal : SqlProposal
  pub validated : ValidatedSql

-- A row of `sql_query_proposals`: the columns that are read back as a proposal, and the others that
-- the repository writes.
pub record Row : Type 0 where
  pub proposal : SqlProposal
  pub approved_at : Option ℕ
  pub error_code : Option String
  pub row_count : Option ℕ

-- What the service asks of its collaborators, newest first.
pub data Call : Type 0 where
  read_clock : Call
  read_catalog : Call
  sync_call : Call
  generate_call : Call
  explain_call : ValidatedSql → Call
  execute_call : ValidatedSql → Call
  answer_call : Call

-- The database's table and the calls made so far.
pub record Db : Type 0 where
  pub table : List Row
  pub calls : List Call

abbrev pub called : Call → Db → Db
called c db = record { table = db.table; calls = c ∷ db.calls }

-- The queries that were run, newest first.
abbrev pub executions : List Call → List ValidatedSql
executions [] = []
executions (execute_call v ∷ calls) = v ∷ executions calls
executions (read_clock ∷ calls) = executions calls
executions (read_catalog ∷ calls) = executions calls
executions (sync_call ∷ calls) = executions calls
executions (generate_call ∷ calls) = executions calls
executions (explain_call _ ∷ calls) = executions calls
executions (answer_call ∷ calls) = executions calls

-- The collaborators of the service; any of them may answer differently at each call, or raise.
pub record Collaborators : Type 0 where
  -- `catalog.current(principal)`
  pub current_catalog : SqlPrincipal → Db → Result CatalogSnapshot
  -- `generator.sync_catalog` and `generator.sync_examples`
  pub sync : CatalogSnapshot → Db → Result (Unit {0})
  -- `generator.generate`, with the correction code
  pub generate : String → SqlPrincipal → CatalogSnapshot → Option String → Db → Result SqlGeneration
  -- `policy.validate_and_rewrite`
  pub validate_and_rewrite : String → CatalogSnapshot → SqlPrincipal → Db → Result ValidatedSql
  -- `executor.explain` and `executor.execute`
  pub explain : ValidatedSql → SqlPrincipal → Db → Result (Unit {0})
  pub execute : ValidatedSql → SqlPrincipal → Db → Result SqlExecutionResult
  -- `answerer.answer`
  pub answer : String → ValidatedSql → SanitizedSqlResult → Db → Result String
  -- `datetime.now(UTC)`, the database's `now()`, `uuid4()` and `now + timedelta(seconds=ttl)`
  pub utc_now : Db → ℕ
  pub db_now : Db → ℕ
  pub uuid4 : Db → ℕ
  pub after_ttl : ℕ → ℕ
