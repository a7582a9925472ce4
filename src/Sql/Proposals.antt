-- ===== src/Sql/Proposals.antt =====
-- `PostgresSQLProposalRepository` of app/repositories/sql_proposal_repository.py. Each operation is
-- one transaction; the connection is taken to work. `WHERE id = %s` meets at most one row, since id
-- is the primary key.
pub mod Updates
pub mod Races
pub mod Diagram
use enterprise_rag.Prelude.{
  ℕ, ◌+◌, String, Bool, true, false, not, ◌&&◌, ◌==◌, Option, none, some, List, [], ◌∷◌, length,
  any, filter, map, leb, ltb, str_eq, if◌then◌else◌,
}
use enterprise_rag.Errors.{
  Result, ok, raised, Action, pure, raise, sql_proposal_not_found, sql_proposal_state, other,
}
use enterprise_rag.Sql.Types.{
  SqlProposalStatus, proposed, executing, executed, rejected, expired, failed, is_proposed,
  is_executing, SqlProposal, Row, Db,
}

abbrev pub with_status : SqlProposalStatus → SqlProposal → SqlProposal
with_status status p = record {
  id = p.id;
  username = p.username;
  conversation_id = p.conversation_id;
  question = p.question;
  sql = p.sql;
  sql_fingerprint = p.sql_fingerprint;
  referenced_tables = p.referenced_tables;
  assumptions = p.assumptions;
  catalog_version = p.catalog_version;
  policy_version = p.policy_version;
  status = status;
  expires_at = p.expires_at;
  created_at = p.created_at;
}

abbrev pub has_id : ℕ → Row → Bool
has_id id row = row.proposal.id == id

-- `WHERE id = %s AND username = %s`
abbrev pub is_owned : ℕ → String → Row → Bool
is_owned id username row = has_id id row && str_eq row.proposal.username username

-- `fetchone()` of a `SELECT`
abbrev pub fetch_one : (Row → Bool) → List Row → Option Row
fetch_one test [] = none
fetch_one test (row ∷ rows) = let rest = fetch_one test rows in if test row then some row else rest

-- `UPDATE … WHERE test`
abbrev pub update_where : (Row → Bool) → (Row → Row) → List Row → List Row
update_where test change [] = []
update_where test change (row ∷ rows) =
    (if test row then change row else row) ∷ update_where test change rows

abbrev pub inserted : SqlProposal → Row
inserted p = record { proposal = p; approved_at = none; error_code = none; row_count = none }

abbrev pub set_status : SqlProposalStatus → Row → Row
set_status status row = record {
  proposal = with_status status row.proposal;
  approved_at = row.approved_at;
  error_code = row.error_code;
  row_count = row.row_count;
}

abbrev pub set_executing : ℕ → Row → Row
set_executing now row = record {
  proposal = with_status executing row.proposal;
  approved_at = some now;
  error_code = row.error_code;
  row_count = row.row_count;
}

abbrev pub set_executed : ℕ → Row → Row
set_executed count row = record {
  proposal = with_status executed row.proposal;
  approved_at = row.approved_at;
  error_code = row.error_code;
  row_count = some count;
}

abbrev pub set_failed : String → Row → Row
set_failed code row = record {
  proposal = with_status failed row.proposal;
  approved_at = row.approved_at;
  error_code = some code;
  row_count = row.row_count;
}

abbrev pub stored : List Row → Db → Db
stored rows db = record { table = rows; calls = db.calls }

-- `INSERT`, which the primary key refuses for an id that is there.
unfoldable pub create : SqlProposal → Action Db SqlProposal
create p db =
    if any (has_id p.id) db.table
    then raise (other "UniqueViolation") db
    else (ok p, stored (inserted p ∷ db.table) db)

pub get_owned : ℕ → String → Db → Option SqlProposal
get_owned id username db = elim (fetch_one (is_owned id username) db.table) [
  | none ↦ none
  | some row ↦ some row.proposal
]

-- What `lock_for_execution` does with the row that `SELECT … FOR UPDATE` found.
unfoldable pub lock_row : ℕ → ℕ → ℕ → Option Row → Action Db SqlProposal
lock_row id now db_now none db = raise sql_proposal_not_found db
lock_row id now db_now (some row) db =
    if not (is_proposed row.proposal.status)
    then raise (sql_proposal_state "proposal_already_consumed") db
    else if leb row.proposal.expires_at now
    then (
      raised (sql_proposal_state "proposal_expired"),
      stored (update_where (has_id id) (set_status expired) db.table) db,
    )
    else (
      ok (with_status executing row.proposal),
      stored (update_where (has_id id) (set_executing db_now) db.table) db,
    )

unfoldable pub lock_for_execution : ℕ → String → ℕ → ℕ → Action Db SqlProposal
lock_for_execution id username now db_now db =
    lock_row id now db_now (fetch_one (is_owned id username) db.table) db

unfoldable pub mark_executed : ℕ → ℕ → Action Db (Unit {0})
mark_executed id count db =
    (ok tt, stored (update_where (has_id id) (set_executed count) db.table) db)

unfoldable pub mark_failed : ℕ → String → Action Db (Unit {0})
mark_failed id code db = (ok tt, stored (update_where (has_id id) (set_failed code) db.table) db)

abbrev pub is_pending : ℕ → String → Row → Bool
is_pending id username row = is_owned id username row && is_proposed row.proposal.status

pub reject : ℕ → String → Action Db (Unit {0})
reject id username db =
    if any (is_pending id username) db.table
    then (ok tt, stored (update_where (is_pending id username) (set_status rejected) db.table) db)
    else raise (sql_proposal_state "proposal_not_pending") db

-- `status = 'executing' AND approved_at < now() - older_than`; a NULL `approved_at` is not below.
abbrev pub before : Option ℕ → ℕ → ℕ → Bool
before none now older_than = false
before (some t) now older_than = ltb (t + older_than) now

abbrev pub is_stale : ℕ → ℕ → Row → Bool
is_stale now older_than row =
    is_executing row.proposal.status && before row.approved_at now older_than

pub reclaim_stale_executing : ℕ → ℕ → Action Db ℕ
reclaim_stale_executing older_than now db = (
  ok (length (filter (is_stale now older_than) db.table)),
  stored (update_where (is_stale now older_than) (set_failed "stale_execution_reclaimed") db.table)
      db,
)
