-- ===== src/Sql/Service/Proposing.antt =====
-- What a proposal rests on.
use enterprise_rag.Prelude.{
  ℕ, zero, suc, String, ◌≡◌, refl, sym, ap, ◌∙◌, Bool-cases, inl, inr, Option, none, some, any,
  arith,
}
use enterprise_rag.Errors.{
  sql_policy_violation, sql_execution_rejected, Result, ok, raised, and_then, Result-cases,
}
use enterprise_rag.Sql.Types.{
  proposed, SqlPrincipal, CatalogSnapshot, SqlGeneration, ValidatedSql, SqlProposal, read_clock,
  read_catalog, sync_call, generate_call, executions, Db, called, Collaborators,
}
use enterprise_rag.Sql.Proposals.{has_id, create}
use enterprise_rag.Sql.Service.{check_generation, settle_attempt, attempts, new_proposal, propose}

module _ (w : Collaborators) (principal : SqlPrincipal) where
  -- The policy validated this SQL for the principal, and the executor explained it.
  pub record IsChecked (v : ValidatedSql) : Type 0 where
    pub generated : String
    pub catalog : CatalogSnapshot
    pub before : Db
    pub after : Db
    pub validated : w.validate_and_rewrite generated catalog principal before ≡ ok v
    pub explained : w.explain v principal after ≡ ok tt

  check_generation-IsChecked :
      (catalog : CatalogSnapshot) (g : SqlGeneration) (db : Db) (v : ValidatedSql)
      → (check_generation w principal catalog g db).0 ≡ ok v
      → IsChecked v
  unfolding check_generation
  check_generation-IsChecked catalog g db v e =
      elim (Result-cases (w.validate_and_rewrite g.sql catalog principal db)) [
        | inr (x, refused) ↦ absurd (let q = rw refused at e in ground arith)
        | inl (u, valid) ↦ elim (Result-cases (w.explain u principal db)) [
          | inr (x, rejected) ↦ absurd (let q = rw (valid, rejected) at e in ground arith)
          | inl (unit, explained) ↦
              let q = rw (valid, explained) at e in
              let same : u ≡ v = cc in
              rw (sym same) (record {
                generated = g.sql;
                catalog = catalog;
                before = db;
                after = db;
                validated = valid;
                explained = explained;
              })
        ]
      ]

  check_generation-executions :
      (catalog : CatalogSnapshot) (g : SqlGeneration) (db : Db)
      → executions (check_generation w principal catalog g db).1.calls ≡ executions db.calls
  unfolding check_generation
  check_generation-executions catalog g db =
      elim (Result-cases (w.validate_and_rewrite g.sql catalog principal db)) [
        | inr (x, refused) ↦ rw refused refl
        | inl (u, valid) ↦ elim (Result-cases (w.explain u principal db)) [
          | inr (x, rejected) ↦ rw (valid, rejected) refl
          | inl (unit, explained) ↦ rw (valid, explained) refl
        ]
      ]

  -- What the attempts give: checked SQL if they return, and no execution.
  record Attempted (db : Db) (out : Result ValidatedSql × Db) : Type 0 where
    checked : (v : ValidatedSql) → out.0 ≡ ok v → IsChecked v
    nothing_run : executions out.1.calls ≡ executions db.calls

  settle_attempt-Attempted :
      (r : Result ValidatedSql) (retry : String → Db → Result ValidatedSql × Db) (base db : Db)
      → ((v : ValidatedSql) → r ≡ ok v → IsChecked v)
      → executions db.calls ≡ executions base.calls
      → ((code : String) → Attempted base (retry code db))
      → Attempted base (settle_attempt w principal r retry db)
  settle_attempt-Attempted (ok v) retry base db checked same again = record {
    checked = checked;
    nothing_run = same;
  }
  settle_attempt-Attempted (raised (sql_policy_violation code)) retry base db checked same again =
      again code
  settle_attempt-Attempted (raised (sql_execution_rejected code)) retry base db checked same again =
      again code
  settle_attempt-Attempted (raised x) retry base db checked same again = record {
    checked = λ v e. absurd (ground arith);
    nothing_run = same;
  }

  Attempted-from :
      (base db : Db) (out : Result ValidatedSql × Db)
      → executions db.calls ≡ executions base.calls
      → Attempted db out
      → Attempted base out
  Attempted-from base db out same a = record {
    checked = a.checked;
    nothing_run = a.nothing_run ∙ same;
  }

  attempts-Attempted :
      (n : ℕ) (question : String) (catalog : CatalogSnapshot) (correction : Option String)
      (last : String) (db : Db)
      → Attempted db (attempts w principal n question catalog correction last db)
  unfolding attempts
  attempts-Attempted zero question catalog correction last db = record {
    checked = λ v e. absurd (ground arith);
    nothing_run = refl;
  }
  attempts-Attempted (suc n) question catalog correction last db =
      let db1 = called generate_call db in
      elim (Result-cases (w.generate question principal catalog correction db)) [
        | inr (x, failed) ↦
            rw failed (record { checked = λ v e. absurd (ground arith); nothing_run = refl })
        | inl (g, generated) ↦
            let same = check_generation-executions catalog g db1 in
            rw generated (
              settle_attempt-Attempted (check_generation w principal catalog g db1).0
                (λ code. attempts w principal n question catalog (some code) code) db
                (check_generation w principal catalog g db1).1
                (λ v e. check_generation-IsChecked catalog g db1 v e) same
                (λ code. Attempted-from db (check_generation w principal catalog g db1).1 _ same (
                  attempts-Attempted n question catalog (some code) code
                    (check_generation w principal catalog g db1).1)))
      ]

  -- What a proposal that was stored rests on.
  pub record IsProposal (p : SqlProposal) : Type 0 where
    pub pending : p.status ≡ proposed
    pub owner : p.username ≡ principal.username
    pub query : ValidatedSql
    pub checked : IsChecked query
    pub same_sql : p.sql ≡ query.sql
    pub same_fingerprint : p.sql_fingerprint ≡ query.fingerprint

  create-eq-ok : (p q : SqlProposal) (db : Db) → (create p db).0 ≡ ok q → p ≡ q
  unfolding create
  create-eq-ok p q db e = elim (Bool-cases (any (has_id p.id) db.table)) [
    | inl taken ↦ absurd (let r = rw taken at e in ground arith)
    | inr free ↦ let r = rw free at e in cc
  ]

  -- A proposal that comes back is pending, belongs to the principal, and holds the SQL and the
  -- fingerprint of a query that the policy validated for the principal and the executor explained.
  pub propose-IsProposal :
      (max_attempts conversation_id : ℕ) (question : String) (db : Db) (p : SqlProposal)
      → (propose w principal max_attempts conversation_id question db).0 ≡ ok p
      → IsProposal p
  unfolding propose
  propose-IsProposal max_attempts conversation_id question db p e =
      let db1 = called read_catalog db in
      let db2 = called sync_call db1 in
      elim (Result-cases (w.current_catalog principal db)) [
        | inr (x, missing) ↦ absurd (let q = rw missing at e in ground arith)
        | inl (catalog, current) ↦ elim (Result-cases (w.sync catalog db1)) [
          | inr (x, failed) ↦ absurd (let q = rw (current, failed) at e in ground arith)
          | inl (u, synced) ↦
              go catalog
                (attempts w principal max_attempts question catalog none "no_generation_attempted"
                  db2).0
                (attempts w principal max_attempts question catalog none "no_generation_attempted"
                  db2).1
                (attempts-Attempted max_attempts question catalog none "no_generation_attempted"
                  db2).checked
                (rw (current, synced) at e)
        ]
      ]
    where
      go :
          (catalog : CatalogSnapshot) (r : Result ValidatedSql) (db3 : Db)
          → ((v : ValidatedSql) → r ≡ ok v → IsChecked v)
          → (and_then r
              (λ validated db.
                create
                  (new_proposal w principal
                    (w.uuid4 (called read_clock db))
                    conversation_id
                    question
                    catalog
                    validated
                    (w.utc_now db))
                  (called read_clock db))
              db3).0
            ≡ ok p
          → IsProposal p
      go catalog (raised x) db3 checked e = absurd (ground arith)
      go catalog (ok v) db3 checked e =
          let same =
            create-eq-ok
              (new_proposal w principal (w.uuid4 (called read_clock db3)) conversation_id question
                catalog v (w.utc_now db3))
              p (called read_clock db3) e in
          rw (sym same) (record {
            pending = refl;
            owner = refl;
            query = v;
            checked = checked v refl;
            same_sql = refl;
            same_fingerprint = refl;
          })

  create-calls : (p : SqlProposal) (db : Db) → (create p db).1.calls ≡ db.calls
  unfolding create
  create-calls p db = elim (Bool-cases (any (has_id p.id) db.table)) [
    | inl taken ↦ rw taken refl
    | inr free ↦ rw free refl
  ]

  -- Proposing never runs a query, however it ends.
  pub propose-executions :
      (max_attempts conversation_id : ℕ) (question : String) (db : Db)
      → executions (propose w principal max_attempts conversation_id question db).1.calls
        ≡ executions db.calls
  unfolding propose
  propose-executions max_attempts conversation_id question db =
      let db1 = called read_catalog db in
      let db2 = called sync_call db1 in
      elim (Result-cases (w.current_catalog principal db)) [
        | inr (x, missing) ↦ rw missing refl
        | inl (catalog, current) ↦ elim (Result-cases (w.sync catalog db1)) [
          | inr (x, failed) ↦ rw (current, failed) refl
          | inl (u, synced) ↦
              rw (current, synced)
                (go catalog
                  (attempts w principal max_attempts question catalog none "no_generation_attempted"
                    db2).0
                  (attempts w principal max_attempts question catalog none "no_generation_attempted"
                    db2).1
                  (attempts-Attempted max_attempts question catalog none "no_generation_attempted"
                    db2).nothing_run)
        ]
      ]
    where
      go :
          (catalog : CatalogSnapshot) (r : Result ValidatedSql) (db3 : Db)
          → executions db3.calls ≡ executions db.calls
          → executions
              (and_then r
                (λ validated db.
                  create
                    (new_proposal w principal
                      (w.uuid4 (called read_clock db))
                      conversation_id
                      question
                      catalog
                      validated
                      (w.utc_now db))
                    (called read_clock db))
                db3).1.calls
            ≡ executions db.calls
      go catalog (raised x) db3 same = same
      go catalog (ok v) db3 same =
          ap executions (
            create-calls
              (new_proposal w principal (w.uuid4 (called read_clock db3)) conversation_id question
                catalog v (w.utc_now db3))
              (called read_clock db3))
          ∙ same
