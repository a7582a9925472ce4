-- ===== src/Sql/Service/Approval.antt =====
-- What an approval does to the table, and what it runs.
use enterprise_rag.Prelude.{
  ℕ, ◌<◌, ◌≡◌, refl, ap, ◌∙◌, true, false, Bool-cases, not, ◌||◌, ◌⊎◌, inl, inr, Option, none, some,
  ◌∷◌, leb, arith,
}
use enterprise_rag.Errors.{Exception, Result, raised, and_then}
use enterprise_rag.RuntimeConfig.{RagRuntimeConfig}
use enterprise_rag.Sql.Types.{
  executing, expired, is_proposed, SqlPrincipal, ValidatedSql, SqlProposal, SqlCompletedAnswer, Row,
  read_clock, executions, Db, called, Collaborators,
}
use enterprise_rag.Sql.Proposals.{
  with_status, has_id, is_owned, fetch_one, update_where, set_status, set_executing, lock_row,
  lock_for_execution,
}
use enterprise_rag.Sql.Service.Settlement.{Settled, execute_locked-Settled}
use enterprise_rag.Sql.Service.{execute_locked, approve_and_execute}

module _ (w : Collaborators) (principal : SqlPrincipal) where
  -- The lock on the proposal `id`: won on a row that is owned, pending and unexpired.
  pub record IsLocked (id : ℕ) (db : Db) (p : SqlProposal) (base : Db) : Type 0 where
    pub row : Row
    pub owned : fetch_one (is_owned id principal.username) db.table ≡ some row
    pub pending : is_proposed row.proposal.status ≡ true
    pub unexpired : w.utc_now db < row.proposal.expires_at
    pub taken : p ≡ with_status executing row.proposal
    pub same_calls : base.calls ≡ read_clock ∷ db.calls
    pub table :
        base.table
        ≡ update_where (has_id id) (set_executing (w.db_now (called read_clock db))) db.table

  -- An approval is refused, with nothing run and at most the row marked EXPIRED; or it gets the
  -- lock, and then settles.
  pub data Approved (id : ℕ) (db : Db) : Result SqlCompletedAnswer × Db → Type 0 where
    refused :
        {e : Exception} {after : Db}
        → executions after.calls ≡ executions db.calls
        → (after.table ≡ db.table)
          ⊎ (after.table ≡ update_where (has_id id) (set_status expired) db.table)
        → Approved id db (raised e, after)
    locked :
        {out : Result SqlCompletedAnswer × Db} (p : SqlProposal) (base : Db)
        → IsLocked id db p base
        → Settled w principal p base out
        → Approved id db out

  locked-Approved :
      (id : ℕ) (db : Db) (found : Option Row)
      → fetch_one (is_owned id principal.username) db.table ≡ found
      → Approved id db (
          let (r, base) =
            lock_row id
              (w.utc_now db)
              (w.db_now (called read_clock db))
              found
              (called read_clock db) in
          and_then r (execute_locked w principal) base)
  unfolding lock_row
  locked-Approved id db none e = refused refl (inl refl)
  locked-Approved id db (some row) e = elim (Bool-cases (is_proposed row.proposal.status)) [
    | inr consumed ↦ rw consumed (refused refl (inl refl))
    | inl pending ↦ elim (Bool-cases (leb row.proposal.expires_at (w.utc_now db))) [
      | inl over ↦ rw (pending, over) (refused refl (inr refl))
      | inr valid ↦
          rw (pending, valid)
            (locked (with_status executing row.proposal) _
              (record {
                row = row;
                owned = e;
                pending = pending;
                unexpired = ground arith;
                taken = refl;
                same_calls = refl;
                table = refl;
              })
              (execute_locked-Settled w principal (with_status executing row.proposal) _))
    ]
  ]

  -- Every approval either is refused with nothing run, or has locked the principal's own pending,
  -- unexpired proposal. Then at most one query runs, whose fingerprint is the proposal's; if an
  -- answer comes back, that query ran and the row is marked EXECUTED; and if the approval raises,
  -- the row is marked FAILED, or it is left in EXECUTING where the catalog itself, or the policy
  -- with an exception other than a policy violation, raised.
  pub approve_and_execute-Approved :
      (config : RagRuntimeConfig) (id : ℕ) (db : Db)
      → Approved id db (approve_and_execute w principal config id db)
  unfolding approve_and_execute lock_for_execution
  approve_and_execute-Approved config id db =
      elim (Bool-cases (not config.sql_enabled || config.emergency_disabled)) [
        | inl off ↦ rw off (refused refl (inl refl))
        | inr on ↦ rw on (locked-Approved id db _ refl)
      ]

  -- The query that an approval ran, on a proposal that it could lock.
  abbrev pub Guarded : ℕ → Db → Db → Type 0
  Guarded id db after =
      (row : Row) × (fetch_one (is_owned id principal.username) db.table ≡ some row)
      × (is_proposed row.proposal.status ≡ true)
      × (w.utc_now db < row.proposal.expires_at)
      × (v : ValidatedSql) × (executions after.calls ≡ v ∷ executions db.calls)
      × (v.fingerprint ≡ row.proposal.sql_fingerprint)

  Approved-Guarded :
      (id : ℕ) (db : Db) (out : Result SqlCompletedAnswer × Db)
      → Approved id db out
      → (executions out.1.calls ≡ executions db.calls) ⊎ Guarded id db out.1
  Approved-Guarded id db _ (refused none_run _) = inl none_run
  Approved-Guarded id db _ (locked p base l s) = elim s.ran [
    | inl none_run ↦ inl (none_run ∙ ap executions l.same_calls)
    | inr (v, one, matches) ↦
        let same = ap executions l.same_calls in
        let taken = l.taken in
        inr (
          l.row,
          l.owned,
          l.pending,
          l.unexpired,
          v,
          one ∙ ap (λ vs. v ∷ vs) same,
          matches ∙ ap (λ (q : SqlProposal). q.sql_fingerprint) taken,
        )
  ]

  disabled_runs_nothing :
      (config : RagRuntimeConfig) (id : ℕ) (db : Db)
      → (not config.sql_enabled || config.emergency_disabled) ≡ true
      → executions (approve_and_execute w principal config id db).1.calls ≡ executions db.calls
  unfolding approve_and_execute
  disabled_runs_nothing config id db off = rw off refl

  -- A query that an approval runs needs SQL to be enabled with no emergency at that time, and the
  -- principal's own proposal to be pending and unexpired; it is the only one that the approval
  -- runs, and its fingerprint is the proposal's.
  pub approve_and_execute-Guarded :
      (config : RagRuntimeConfig) (id : ℕ) (db : Db)
      → (executions (approve_and_execute w principal config id db).1.calls ≡ executions db.calls)
        ⊎ ((config.sql_enabled ≡ true)
            × (config.emergency_disabled ≡ false)
            × Guarded id db (approve_and_execute w principal config id db).1)
  approve_and_execute-Guarded config id db =
      elim (Bool-cases (not config.sql_enabled || config.emergency_disabled)) [
        | inl off ↦ inl (disabled_runs_nothing config id db off)
        | inr on ↦ elim (Approved-Guarded id db _ (approve_and_execute-Approved config id db)) [
          | inl none_run ↦ inl none_run
          | inr guarded ↦ inr (ground arith, ground arith, guarded)
        ]
      ]
