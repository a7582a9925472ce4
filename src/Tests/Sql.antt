-- ===== src/Tests/Sql.antt =====
-- The SQL theorems on a table with one pending proposal.
use enterprise_rag.Sql.Proposals.Diagram.{◌⟶*◌, commit_all, commit_all-⟶*}
use enterprise_rag.Prelude.{refl, some, inl, ◌≤◌, ◌≡◌, true, false, none, List, [], ◌∷◌, ◌⊎◌}
use enterprise_rag.Errors.{ok, Ensures}
use enterprise_rag.Sql.Types.{
  proposed, executing, Row, SqlPrincipal, ValidatedSql, SqlProposal, SqlExecutionResult, Db,
  executions, Collaborators,
}
use enterprise_rag.Sql.Proposals.Updates.{
  Transaction, lock_tx, mark_executed_tx, reclaim_tx, locks_won, commit,
}
use enterprise_rag.Sql.Proposals.Races.{locks_won-le-one}
use enterprise_rag.Sql.Service.Approval.{
  Approved, Guarded, approve_and_execute-Approved, approve_and_execute-Guarded,
}
use enterprise_rag.Sql.Service.Proposing.{IsProposal, propose-IsProposal}
use enterprise_rag.Sql.Service.{propose, attempts, check_generation, approve_and_execute}
use enterprise_rag.Sql.Proposals.{create, inserted, fetch_one, has_id, lock_for_execution, lock_row}
use enterprise_rag.Sql.Masking.{AllMasked, apply_policy, apply_policy-AllMasked}
use enterprise_rag.Tests.World.{promoted_config}

abbrev pending : SqlProposal
pending = record {
  id = 7;
  username = "root";
  conversation_id = 1;
  question = "How many claims?";
  sql = "SELECT 1";
  sql_fingerprint = "f";
  referenced_tables = [];
  assumptions = [];
  catalog_version = 1;
  policy_version = "p";
  status = proposed;
  expires_at = 900;
  created_at = 100;
}

abbrev db : Db
db = record {
  table =
      record { proposal = pending; approved_at = none; error_code = none; row_count = none } ∷ [];
  calls = [];
}

abbrev query : ValidatedSql
query = record {
  sql = "SELECT 1";
  fingerprint = "f";
  referenced_tables = [];
  referenced_columns = [];
  projection_sensitive = true ∷ false ∷ [];
  row_limit = 100;
  policy_version = "p";
}

abbrev raw : SqlExecutionResult
raw = record {
  columns = "harmless" ∷ "count" ∷ [];
  rows = ("123-45" ∷ "4" ∷ []) ∷ [];
  row_count = 1;
  truncated = false;
}

abbrev outside : Collaborators
outside = record {
  current_catalog = λ principal db. ok (record { version = 1; columns = [] });
  sync = λ catalog db. ok tt;
  generate = λ question principal catalog code db.
      ok (record { sql = "SELECT 1"; tables = []; assumptions = [] });
  validate_and_rewrite = λ sql catalog principal db. ok query;
  explain = λ v principal db. ok tt;
  execute = λ v principal db. ok raw;
  answer = λ question v safe db. ok "Four.";
  utc_now = λ db. 500;
  db_now = λ db. 501;
  uuid4 = λ db. 8;
  after_ttl = λ now. now;
}

abbrev root : SqlPrincipal
root = record { username = "root"; is_admin = true }

abbrev two_approvals : List Transaction
two_approvals =
    lock_tx 7 "root" 500 501
    ∷ reclaim_tx 10 900
    ∷ lock_tx 7 "root" 600 601
    ∷ mark_executed_tx 7 1
    ∷ []

locks_won-le-one_example : locks_won 7 two_approvals db ≤ 1
locks_won-le-one_example = locks_won-le-one 7 two_approvals db

approve_and_execute-Approved_example :
    Approved outside root 7 db (approve_and_execute outside root promoted_config 7 db)
approve_and_execute-Approved_example =
    approve_and_execute-Approved outside root promoted_config 7 db

approve_and_execute-Guarded_example :
    (executions (approve_and_execute outside root promoted_config 7 db).1.calls
      ≡ executions db.calls)
    ⊎ ((promoted_config.sql_enabled ≡ true)
        × (promoted_config.emergency_disabled ≡ false)
        × Guarded outside root 7 db (approve_and_execute outside root promoted_config 7 db).1)
approve_and_execute-Guarded_example = approve_and_execute-Guarded outside root promoted_config 7 db

apply_policy-AllMasked_example :
    Ensures
      (λ safe. AllMasked query.projection_sensitive raw.rows safe.rows)
      (apply_policy raw query 500)
apply_policy-AllMasked_example = apply_policy-AllMasked raw query 500

abbrev new : SqlProposal
new = record pending { id = 8; expires_at = 500; created_at = 500; status = proposed }

propose-IsProposal_example : IsProposal outside root new
unfolding propose attempts check_generation create
propose-IsProposal_example = propose-IsProposal outside root 2 1 "How many claims?" db new refl

-- A proposal locked for execution and then marked executed.
abbrev executed_run : List Transaction
executed_run = lock_tx 7 "root" 500 501 ∷ mark_executed_tx 7 3 ∷ []

status_of :
    (row : Row)
    → fetch_one (has_id 7) (commit (lock_tx 7 "root" 500 501) db).table ≡ some row
    → row.proposal.status ≡ executing
unfolding lock_for_execution lock_row
status_of row found = cc

commit_all-⟶*_example :
    (last : Row) × (fetch_one (has_id 7) (commit_all executed_run db).table ≡ some last)
    × (proposed ⟶* last.proposal.status)
unfolding lock_for_execution lock_row
commit_all-⟶*_example =
    commit_all-⟶* 7 executed_run db (inserted pending) ((λ h. refl), tt) refl
      ((λ row found. tt), ((λ row found h. inl (status_of row found)), tt))
