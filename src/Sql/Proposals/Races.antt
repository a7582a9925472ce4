-- ===== src/Sql/Proposals/Races.antt =====
-- A proposal is locked for execution at most once, however the transactions of any number of
-- requests, and the recovery job, are interleaved.
use enterprise_rag.Prelude.{
  ℕ, ◌≤◌, String, ◌≡◌, refl, sym, ◌∙◌, Bool, true, false, Bool-cases, ◌&&◌, ◌==◌, inl, inr, Option,
  none, some, List, [], ◌∷◌, any, leb, arith,
}
use enterprise_rag.Sql.Types.{expired, rejected, is_proposed, SqlProposal, Row, Db}
use enterprise_rag.Sql.Proposals.{
  has_id, is_owned, fetch_one, update_where, set_status, set_executing, set_executed, set_failed,
  create, lock_row, lock_for_execution, mark_executed, mark_failed, reject, is_pending, is_stale,
  reclaim_stale_executing,
}
use enterprise_rag.Sql.Proposals.Updates.{
  Transaction, create_tx, lock_tx, mark_executed_tx, mark_failed_tx, reject_tx, reclaim_tx, is_ok,
  commit, wins, locks_won, lockable, known, Closes, update-known, update-lockable, update-closed,
  set_status-Closes, set_executing-Closes, set_executed-Closes, set_failed-Closes,
  fetch_one-lockable, fetch_one-known,
}

-- A proposal that is there and closed is still so after any transaction, and is not locked by it.
record StaysShut (target : ℕ) (won : Bool) (rows : List Row) : Type 0 where
  lost : won ≡ false
  still_known : known target rows ≡ true
  still_closed : lockable target rows ≡ false

update-StaysShut :
    (target : ℕ) (test : Row → Bool) (change : Row → Row) (rows : List Row)
    → Closes change
    → known target rows ≡ true
    → lockable target rows ≡ false
    → StaysShut target false (update_where test change rows)
update-StaysShut target test change rows c there shut = record {
  lost = refl;
  still_known = let same = update-known target test change rows c in cc;
  still_closed = update-lockable target test change rows c shut;
}

unchanged-StaysShut :
    (target : ℕ) (rows : List Row)
    → known target rows ≡ true
    → lockable target rows ≡ false
    → StaysShut target false rows
unchanged-StaysShut target rows there shut = record {
  lost = refl;
  still_known = there;
  still_closed = shut;
}

create-StaysShut :
    (target : ℕ) (p : SqlProposal) (db : Db)
    → known target db.table ≡ true
    → lockable target db.table ≡ false
    → StaysShut target false (create p db).1.table
unfolding create
create-StaysShut target p db there shut = elim (Bool-cases (any (has_id p.id) db.table)) [
  | inl taken ↦ rw taken (unchanged-StaysShut target db.table there shut)
  | inr free ↦ rw free (record {
    lost = refl;
    still_known = ground arith;
    still_closed = elim (Bool-cases (p.id == target)) [
      | inl same ↦ absurd (let e : p.id ≡ target = ground arith in let f = rw e at free in cc)
      | inr differs ↦ rw (differs, shut) refl
    ];
  })
]

reject-StaysShut :
    (target id : ℕ) (username : String) (db : Db)
    → known target db.table ≡ true
    → lockable target db.table ≡ false
    → StaysShut target false (reject id username db).1.table
unfolding reject
reject-StaysShut target id username db there shut =
    elim (Bool-cases (any (is_pending id username) db.table)) [
      | inl pending ↦ rw pending (
          update-StaysShut target (is_pending id username) (set_status rejected) db.table
            (set_status-Closes rejected refl) there shut)
      | inr idle ↦ rw idle (unchanged-StaysShut target db.table there shut)
    ]

lock_row-StaysShut :
    (target id now db_now : ℕ) (found : Option Row) (db : Db)
    → known target db.table ≡ true
    → lockable target db.table ≡ false
    → ((row : Row)
        → found ≡ some row
        → is_proposed row.proposal.status ≡ true
        → lockable id db.table ≡ true)
    → StaysShut target
        ((id == target) && is_ok (lock_row id now db_now found db).0)
        (lock_row id now db_now found db).1.table
unfolding lock_row
lock_row-StaysShut target id now db_now none db there shut open_one = record {
  lost = ground arith;
  still_known = there;
  still_closed = shut;
}
lock_row-StaysShut target id now db_now (some row) db there shut open_one =
    elim (Bool-cases (is_proposed row.proposal.status)) [
      | inr consumed ↦
          rw consumed (record { lost = ground arith; still_known = there; still_closed = shut })
      | inl pending ↦
          let closes = set_status-Closes expired refl in
          let late =
            update-StaysShut target (has_id id) (set_status expired) db.table closes there shut in
          let taken =
            update-StaysShut target (has_id id) (set_executing db_now) db.table
              (set_executing-Closes db_now) there shut in
          elim (Bool-cases (leb row.proposal.expires_at now)) [
            | inl over ↦
                rw (pending, over)
                  (record {
                    lost = ground arith;
                    still_known = late.still_known;
                    still_closed = late.still_closed;
                  })
            | inr valid ↦
                rw (pending, valid)
                  (record {
                    lost = elim (Bool-cases (id == target)) [
                      | inl same ↦ absurd (
                          let p = open_one row refl pending in
                          let e : id ≡ target = ground arith in let q = rw e at p in cc)
                      | inr differs ↦ rw differs refl
                    ];
                    still_known = taken.still_known;
                    still_closed = taken.still_closed;
                  })
          ]
    ]

commit-StaysShut :
    (target : ℕ) (t : Transaction) (db : Db)
    → known target db.table ≡ true
    → lockable target db.table ≡ false
    → StaysShut target (wins target t db) (commit t db).table
unfolding mark_executed mark_failed reclaim_stale_executing lock_for_execution
commit-StaysShut target (create_tx p) db there shut = create-StaysShut target p db there shut
commit-StaysShut target (lock_tx id username now db_now) db there shut =
    lock_row-StaysShut target id now db_now (fetch_one (is_owned id username) db.table) db there
      shut (λ row e h. fetch_one-lockable id username db.table row e h)
commit-StaysShut target (mark_executed_tx id count) db there shut =
    update-StaysShut target (has_id id) (set_executed count) db.table (set_executed-Closes count)
      there shut
commit-StaysShut target (mark_failed_tx id code) db there shut =
    update-StaysShut target (has_id id) (set_failed code) db.table (set_failed-Closes code) there
      shut
commit-StaysShut target (reject_tx id username) db there shut =
    reject-StaysShut target id username db there shut
commit-StaysShut target (reclaim_tx older_than now) db there shut =
    update-StaysShut target (is_stale now older_than) (set_failed "stale_execution_reclaimed")
      db.table (set_failed-Closes "stale_execution_reclaimed") there shut

locks_won-shut :
    (target : ℕ) (ts : List Transaction) (db : Db)
    → known target db.table ≡ true
    → lockable target db.table ≡ false
    → locks_won target ts db ≡ 0
locks_won-shut target [] db there shut = refl
locks_won-shut target (t ∷ ts) db there shut =
    let s = commit-StaysShut target t db there shut in
    let lost = s.lost in
    let rest = locks_won-shut target ts (commit t db) s.still_known s.still_closed in
    rw (lost, rest) (omega arith)

-- The transaction that locks a proposal closes it.
lock_row-closes :
    (target id now db_now : ℕ) (found : Option Row) (db : Db)
    → ((row : Row) → found ≡ some row → known id db.table ≡ true)
    → ((id == target) && is_ok (lock_row id now db_now found db).0) ≡ true
    → (known target (lock_row id now db_now found db).1.table ≡ true)
      × (lockable target (lock_row id now db_now found db).1.table ≡ false)
unfolding lock_row
lock_row-closes target id now db_now none db there won = absurd (ground arith)
lock_row-closes target id now db_now (some row) db there won =
    let same : id ≡ target = ground arith in
    elim (Bool-cases (is_proposed row.proposal.status)) [
      | inr consumed ↦ absurd (let w = rw consumed at won in ground arith)
      | inl pending ↦ elim (Bool-cases (leb row.proposal.expires_at now)) [
        | inl over ↦ absurd (let w = rw (pending, over) at won in ground arith)
        | inr valid ↦
            let closes = set_executing-Closes db_now in
            let kept = update-known id (has_id id) (set_executing db_now) db.table closes in
            let shut = update-closed id (set_executing db_now) db.table closes in
            let found = there row refl in rw (pending, valid, sym same) (kept ∙ found, shut)
      ]
    ]

commit-closes :
    (target : ℕ) (t : Transaction) (db : Db)
    → wins target t db ≡ true
    → (known target (commit t db).table ≡ true) × (lockable target (commit t db).table ≡ false)
unfolding lock_for_execution
commit-closes target (lock_tx id username now db_now) db won =
    lock_row-closes target id now db_now (fetch_one (is_owned id username) db.table) db
      (λ row e. fetch_one-known id username db.table row e) won
commit-closes target (create_tx p) db won = cc
commit-closes target (mark_executed_tx id count) db won = cc
commit-closes target (mark_failed_tx id code) db won = cc
commit-closes target (reject_tx id username) db won = cc
commit-closes target (reclaim_tx older_than now) db won = cc

-- Whatever transactions run, in whatever order, from whatever table: a proposal is locked for
-- execution at most once.
pub locks_won-le-one : (target : ℕ) (ts : List Transaction) (db : Db) → locks_won target ts db ≤ 1
locks_won-le-one target [] db = omega arith
locks_won-le-one target (t ∷ ts) db = elim (Bool-cases (wins target t db)) [
  | inl won ↦
      let (there, shut) = commit-closes target t db won in
      let rest = locks_won-shut target ts (commit t db) there shut in rw (won, rest) (omega arith)
  | inr lost ↦ let rest = locks_won-le-one target ts (commit t db) in rw lost (omega (arith, rest))
]
