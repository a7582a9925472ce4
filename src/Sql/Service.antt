-- ===== src/Sql/Service.antt =====
-- `SQLService` of app/sql/sql_service.py.
pub mod Settlement
pub mod Proposing
pub mod Approval
use enterprise_rag.Prelude.{
  ℕ, zero, suc, String, Bool, true, false, not, ◌&&◌, ◌||◌, ◌==◌, str_eq, Option, none, some, List,
  [], ◌∷◌, if◌then◌else◌,
}
use enterprise_rag.Errors.{
  Exception, sql_generation_failed, sql_proposal_state, sql_policy_violation,
  sql_execution_rejected, query_canceled, lock_not_available, operational_error, Result, ok, raised,
  Action, pure, raise, lift, and_then, caught, try_except, ◌>>=◌, ◌>>◌,
}
use enterprise_rag.RuntimeConfig.{RagRuntimeConfig}
use enterprise_rag.Sql.Types.{
  proposed, executed, SqlPrincipal, CatalogSnapshot, SqlGeneration, ValidatedSql, SqlProposal,
  SqlExecutionResult, SanitizedSqlResult, SqlCompletedAnswer, Call, read_clock, read_catalog,
  sync_call, generate_call, explain_call, execute_call, answer_call, Db, called, Collaborators,
}
use enterprise_rag.Sql.Proposals.{
  with_status, create, lock_for_execution, mark_executed, mark_failed, reject,
}
use enterprise_rag.Sql.Masking.{apply_policy}

-- `_map_execution_error`
pub map_execution_error : Exception → String
map_execution_error query_canceled = "statement_timeout"
map_execution_error lock_not_available = "lock_timeout"
map_execution_error operational_error = "connection_error"
map_execution_error _ = "execution_error"

abbrev pub ask : {A : Type 0} → Call → (Db → Result A) → Action Db A
ask c answer db = (answer db, called c db)

-- `mark_failed`, then `raise SQLProposalStateError`
abbrev pub fail_with : {A : Type 0} → SqlProposal → String → String → Action Db A
fail_with p error_code code = mark_failed p.id error_code >> raise (sql_proposal_state code)

module _ (w : Collaborators) (principal : SqlPrincipal) where
  abbrev pub clock : Action Db ℕ
  clock db = (ok (w.utc_now db), called read_clock db)

  -- The end of `approve_and_execute`, from the result policy on.
  pub sanitize :
      ValidatedSql → SqlProposal → SqlExecutionResult → Action Db (SanitizedSqlResult × String)
  sanitize validated p raw = do
    now ← clock
    safe ← lift (apply_policy raw validated now)
    text ← ask answer_call (w.answer p.question validated safe)
    pure (safe, text)

  abbrev pub completed :
      ValidatedSql → SqlProposal → SanitizedSqlResult × String → SqlCompletedAnswer
  completed validated p (safe, text) = record {
    answer = text;
    result = safe;
    proposal = with_status executed p;
    validated = validated;
  }

  pub finish : ValidatedSql → SqlProposal → SqlExecutionResult → Action Db SqlCompletedAnswer
  finish validated p raw = do
    out ←
        try_except (sanitize validated p raw)
          (λ e. fail_with p "post_execution_failure" "post_execution_failure")
    mark_executed p.id out.0.row_count
    pure (completed validated p out)

  -- The `except` clauses of the execution.
  abbrev pub on_execution_failure : SqlProposal → Exception → Action Db SqlExecutionResult
  on_execution_failure p (sql_execution_rejected code) = fail_with p code code
  on_execution_failure p e = fail_with p (map_execution_error e) (map_execution_error e)

  pub explain_and_execute : ValidatedSql → Action Db SqlExecutionResult
  explain_and_execute validated = do
    ask (explain_call validated) (w.explain validated principal)
    ask (execute_call validated) (w.execute validated principal)

  pub run_query : ValidatedSql → SqlProposal → Action Db SqlCompletedAnswer
  run_query validated p = do
    raw ← try_except (explain_and_execute validated) (on_execution_failure p)
    finish validated p raw

  -- The `except` clause of the validation.
  abbrev pub on_violation : SqlProposal → Exception → Action Db ValidatedSql
  on_violation p (sql_policy_violation code) = fail_with p code code
  on_violation p e = raise e

  pub revalidate : SqlProposal → CatalogSnapshot → Action Db SqlCompletedAnswer
  revalidate p catalog = do
    validated ←
        (λ db. caught (w.validate_and_rewrite p.sql catalog principal db) (on_violation p) db)
    if not (str_eq validated.fingerprint p.sql_fingerprint)
        then fail_with p "fingerprint_mismatch" "fingerprint_mismatch"
        else run_query validated p

  -- What follows the lock.
  pub execute_locked : SqlProposal → Action Db SqlCompletedAnswer
  execute_locked p = do
    catalog ← ask read_catalog (w.current_catalog principal)
    if not (catalog.version == p.catalog_version)
        then fail_with p "catalog_changed" "catalog_changed_regenerate_proposal"
        else revalidate p catalog

  pub approve_and_execute : RagRuntimeConfig → ℕ → Action Db SqlCompletedAnswer
  approve_and_execute config id =
      if not config.sql_enabled || config.emergency_disabled
      then raise (sql_proposal_state "sql_disabled")
      else do
        now ← clock
        p ← (λ db. lock_for_execution id principal.username now (w.db_now db) db)
        execute_locked p

  pub reject_proposal : ℕ → Action Db (Unit {0})
  reject_proposal id = reject id principal.username

  -- The body of an attempt's `try`.
  unfoldable pub check_generation : CatalogSnapshot → SqlGeneration → Action Db ValidatedSql
  check_generation catalog generation = do
    validated ← (λ db. (w.validate_and_rewrite generation.sql catalog principal db, db))
    ask (explain_call validated) (w.explain validated principal)
    pure validated

  abbrev pub retry_code : Exception → Option String
  retry_code (sql_policy_violation code) = some code
  retry_code (sql_execution_rejected code) = some code
  retry_code _ = none

  abbrev pub retry_if :
      Option String → Exception → (String → Action Db ValidatedSql) → Action Db ValidatedSql
  retry_if none e retry = raise e
  retry_if (some code) e retry = retry code

  -- `break`, `continue` with the correction code, or an exception that no clause catches.
  abbrev pub settle_attempt :
      Result ValidatedSql → (String → Action Db ValidatedSql) → Action Db ValidatedSql
  settle_attempt (ok validated) retry = pure validated
  settle_attempt (raised e) retry = retry_if (retry_code e) e retry

  -- The loop over the attempts: how many are left, the correction code and the last error.
  unfoldable pub attempts :
      ℕ → String → CatalogSnapshot → Option String → String → Action Db ValidatedSql
  attempts zero question catalog correction last_error = raise (sql_generation_failed last_error)
  attempts (suc n) question catalog correction last_error = do
    generation ← ask generate_call (w.generate question principal catalog correction)
    λ db.
        let (r, db') = check_generation catalog generation db in
        settle_attempt r (λ code. attempts n question catalog (some code) code) db'

  abbrev pub new_proposal : ℕ → ℕ → String → CatalogSnapshot → ValidatedSql → ℕ → SqlProposal
  new_proposal id conversation_id question catalog validated now = record {
    id = id;
    username = principal.username;
    conversation_id = conversation_id;
    question = question;
    sql = validated.sql;
    sql_fingerprint = validated.fingerprint;
    referenced_tables = validated.referenced_tables;
    assumptions = [];
    catalog_version = catalog.version;
    policy_version = validated.policy_version;
    status = proposed;
    expires_at = w.after_ttl now;
    created_at = now;
  }

  unfoldable pub propose : ℕ → ℕ → String → Action Db SqlProposal
  propose max_generation_attempts conversation_id question = do
    catalog ← ask read_catalog (w.current_catalog principal)
    ask sync_call (w.sync catalog)
    validated ← attempts max_generation_attempts question catalog none "no_generation_attempted"
    now ← clock
    λ db. create (new_proposal (w.uuid4 db) conversation_id question catalog validated now) db
