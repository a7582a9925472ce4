-- ===== src/Sql/Service/Settlement.antt =====
-- How an approval that got the lock ends.
use enterprise_rag.Prelude.{
  ℕ, String, ◌≡◌, refl, Bool, true, false, Bool-cases, ◌==◌, str_eq, eq_iff, ◌⊎◌, inl, inr, ◌∷◌,
}
use enterprise_rag.Errors.{
  Exception, sql_proposal_state, sql_policy_violation, sql_execution_rejected, Result, ok, raised,
  Result-cases,
}
use enterprise_rag.Sql.Types.{
  SqlPrincipal, CatalogSnapshot, ValidatedSql, SqlProposal, SqlExecutionResult, SqlCompletedAnswer,
  read_clock, read_catalog, explain_call, execute_call, answer_call, executions, Db, called,
  Collaborators,
}
use enterprise_rag.Sql.Proposals.{
  has_id, update_where, set_executed, set_failed, stored, mark_executed, mark_failed,
}
use enterprise_rag.Sql.Masking.{apply_policy}
use enterprise_rag.Sql.Service.{
  map_execution_error, fail_with, sanitize, finish, on_execution_failure, explain_and_execute,
  run_query, on_violation, revalidate, execute_locked,
}

abbrev pub is_violation : Exception → Bool
is_violation (sql_policy_violation code) = true
is_violation _ = false

-- The database after `mark_failed`.
abbrev failed_db : ℕ → String → Db → Db
failed_db id code db = stored (update_where (has_id id) (set_failed code) db.table) db

module _ (w : Collaborators) (principal : SqlPrincipal) where
  -- An exception that no clause catches: it leaves the proposal as the lock left it.
  abbrev pub Escaped : SqlProposal → Exception → Type 0
  Escaped p e =
      ((db : Db) × (w.current_catalog principal db ≡ raised e))
      ⊎ ((db : Db) × (catalog : CatalogSnapshot) × (w.validate_and_rewrite p.sql catalog principal
              db
            ≡ raised e)
          × (is_violation e ≡ false))

  -- How an approval that got the lock on `p`, in the database `base`, ends.
  abbrev pub Left : SqlProposal → Db → Result SqlCompletedAnswer → Db → Type 0
  Left p base (ok c) after =
      (after.table ≡ update_where (has_id p.id) (set_executed c.result.row_count) base.table)
      × (executions after.calls ≡ c.validated ∷ executions base.calls)
      × (c.validated.fingerprint ≡ p.sql_fingerprint)
  Left p base (raised e) after =
      ((code : String) × (after.table ≡ update_where (has_id p.id) (set_failed code) base.table))
      ⊎ ((after.table ≡ base.table) × Escaped p e)

  pub record Settled (p : SqlProposal) (base : Db) (out : Result SqlCompletedAnswer × Db)
      : Type 0 where
    pub ran :
        (executions out.1.calls ≡ executions base.calls)
        ⊎ ((v : ValidatedSql) × (executions out.1.calls ≡ v ∷ executions base.calls)
            × (v.fingerprint ≡ p.sql_fingerprint))
    pub left : Left p base out.0 out.1

  -- Nothing was run since `base`, or one query with the proposal's fingerprint was.
  abbrev Ran : SqlProposal → Db → Db → Type 0
  Ran p base db =
      (executions db.calls ≡ executions base.calls)
      ⊎ ((v : ValidatedSql) × (executions db.calls ≡ v ∷ executions base.calls)
          × (v.fingerprint ≡ p.sql_fingerprint))

  fail_with-Settled :
      (p : SqlProposal) (code error : String) (base db : Db)
      → db.table ≡ base.table
      → Ran p base db
      → Settled p base (fail_with p code error db)
  unfolding mark_failed
  fail_with-Settled p code error base db same ran = record {
    ran = ran;
    left = inl (code, rw same refl);
  }

  finish-Settled :
      (v : ValidatedSql) (p : SqlProposal) (raw : SqlExecutionResult) (base db : Db)
      → db.table ≡ base.table
      → executions db.calls ≡ v ∷ executions base.calls
      → v.fingerprint ≡ p.sql_fingerprint
      → Settled p base (finish w principal v p raw db)
  unfolding finish sanitize mark_executed mark_failed
  finish-Settled v p raw base db same one matches =
      elim (Result-cases (apply_policy raw v (w.utc_now db))) [
        | inr (e, refused) ↦ rw refused (
            fail_with-Settled p "post_execution_failure" "post_execution_failure" base
              (called read_clock db) same (inr (v, one, matches)))
        | inl (safe, masked) ↦
            elim (Result-cases (w.answer p.question v safe (called read_clock db))) [
              | inr (e, silent) ↦
                  rw (masked, silent)
                    (fail_with-Settled p "post_execution_failure" "post_execution_failure" base
                      (called answer_call (called read_clock db)) same (inr (v, one, matches)))
              | inl (text, said) ↦
                  rw (masked, said)
                    (record { ran = inr (v, one, matches); left = (rw same refl, one, matches) })
            ]
      ]

  on_execution_failure-Settled :
      (p : SqlProposal) (e : Exception) (base db : Db)
      → db.table ≡ base.table
      → Ran p base db
      → (code : String) × (on_execution_failure w principal p e db
          ≡ (raised (sql_proposal_state code), failed_db p.id code db))
        × Settled p base (raised (sql_proposal_state code), failed_db p.id code db)
  unfolding mark_failed
  on_execution_failure-Settled p (sql_execution_rejected code) base db same ran =
      (code, refl, record { ran = ran; left = inl (code, rw same refl) })
  on_execution_failure-Settled p e base db same ran = (
    map_execution_error e,
    refl,
    record { ran = ran; left = inl (map_execution_error e, rw same refl) },
  )

  run_query-Settled :
      (v : ValidatedSql) (p : SqlProposal) (base db : Db)
      → db.table ≡ base.table
      → executions db.calls ≡ executions base.calls
      → v.fingerprint ≡ p.sql_fingerprint
      → Settled p base (run_query w principal v p db)
  unfolding run_query explain_and_execute
  run_query-Settled v p base db same none_yet matches =
      let db1 = called (explain_call v) db in
      let db2 = called (execute_call v) db1 in
      let one : executions db2.calls ≡ v ∷ executions base.calls = rw none_yet refl in
      elim (Result-cases (w.explain v principal db)) [
        | inr (e, refused) ↦
            let (code, ends, settled) =
              on_execution_failure-Settled p e base db1 same (inl none_yet) in
            rw (refused, ends) settled
        | inl (u, explained) ↦ elim (Result-cases (w.execute v principal db1)) [
          | inr (e, failed) ↦
              let (code, ends, settled) =
                on_execution_failure-Settled p e base db2 same (inr (v, one, matches)) in
              rw (explained, failed, ends) settled
          | inl (raw, given) ↦
              rw (explained, given) (finish-Settled v p raw base db2 same one matches)
        ]
      ]

  -- What the `except` clause of the validation makes of an exception.
  on_violation-Settled :
      (p : SqlProposal) (e : Exception) (base db : Db)
      → db.table ≡ base.table
      → executions db.calls ≡ executions base.calls
      → (is_violation e ≡ false → Escaped p e)
      → (x : Exception) × (after : Db) × (on_violation w principal p e db ≡ (raised x, after))
        × Settled p base (raised x, after)
  unfolding mark_failed
  on_violation-Settled p (sql_policy_violation code) base db same none_yet escapes = (
    sql_proposal_state code,
    failed_db p.id code db,
    refl,
    record { ran = inl none_yet; left = inl (code, rw same refl) },
  )
  on_violation-Settled p e base db same none_yet escapes =
      (e, db, refl, record { ran = inl none_yet; left = inr (same, escapes refl) })

  revalidate-Settled :
      (p : SqlProposal) (catalog : CatalogSnapshot) (base db : Db)
      → db.table ≡ base.table
      → executions db.calls ≡ executions base.calls
      → Settled p base (revalidate w principal p catalog db)
  unfolding revalidate
  revalidate-Settled p catalog base db same none_yet =
      elim (Result-cases (w.validate_and_rewrite p.sql catalog principal db)) [
        | inr (e, refused) ↦
            let (x, after, ends, settled) =
              on_violation-Settled p e base db same none_yet
                (λ escapes. inr (db, catalog, refused, escapes)) in
            rw (refused, ends) settled
        | inl (v, valid) ↦ elim (Bool-cases (str_eq v.fingerprint p.sql_fingerprint)) [
          | inr differs ↦
              rw (valid, differs)
                (fail_with-Settled p "fingerprint_mismatch" "fingerprint_mismatch" base db same
                  (inl none_yet))
          | inl agrees ↦
              rw (valid, agrees)
                (run_query-Settled v p base db same none_yet
                  ((eq_iff v.fingerprint p.sql_fingerprint).0 agrees))
        ]
      ]

  pub execute_locked-Settled :
      (p : SqlProposal) (base : Db) → Settled p base (execute_locked w principal p base)
  unfolding execute_locked
  execute_locked-Settled p base =
      let db = called read_catalog base in
      elim (Result-cases (w.current_catalog principal base)) [
        | inr (e, missing) ↦
            rw missing (record { ran = inl refl; left = inr (refl, inl (base, missing)) })
        | inl (catalog, current) ↦ elim (Bool-cases (catalog.version == p.catalog_version)) [
          | inr changed ↦
              rw (current, changed)
                (fail_with-Settled p "catalog_changed" "catalog_changed_regenerate_proposal" base db
                  refl (inl refl))
          | inl unchanged ↦ rw (current, unchanged) (revalidate-Settled p catalog base db refl refl)
        ]
      ]
