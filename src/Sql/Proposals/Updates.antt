-- ===== src/Sql/Proposals/Updates.antt =====
-- The transactions on the table of proposals, and what an update does to a row that can be locked.
use enterprise_rag.Prelude.{
  ℕ, ◌+◌, String, ◌≡◌, refl, Bool, true, false, Bool-cases, ◌&&◌, ◌==◌, inl, inr, some, List, [],
  ◌∷◌, any, arith,
}
use enterprise_rag.Errors.{Result, ok, raised}
use enterprise_rag.Sql.Types.{SqlProposalStatus, is_proposed, SqlProposal, Row, Db}
use enterprise_rag.Sql.Proposals.{
  has_id, is_owned, fetch_one, update_where, set_status, set_executing, set_executed, set_failed,
  create, lock_for_execution, mark_executed, mark_failed, reject, reclaim_stale_executing,
}

-- One transaction on the table, by whichever request.
pub data Transaction : Type 0 where
  create_tx : SqlProposal → Transaction
  lock_tx : (id : ℕ) (username : String) (now db_now : ℕ) → Transaction
  mark_executed_tx : (id count : ℕ) → Transaction
  mark_failed_tx : (id : ℕ) (code : String) → Transaction
  reject_tx : (id : ℕ) (username : String) → Transaction
  reclaim_tx : (older_than now : ℕ) → Transaction

abbrev pub is_ok {ℓ} : {A : Type ℓ} → Result A → Bool
is_ok (ok a) = true
is_ok (raised e) = false

abbrev pub commit : Transaction → Db → Db
commit (create_tx p) db = (create p db).1
commit (lock_tx id username now db_now) db = (lock_for_execution id username now db_now db).1
commit (mark_executed_tx id count) db = (mark_executed id count db).1
commit (mark_failed_tx id code) db = (mark_failed id code db).1
commit (reject_tx id username) db = (reject id username db).1
commit (reclaim_tx older_than now) db = (reclaim_stale_executing older_than now db).1

abbrev bit : Bool → ℕ
bit true = 1
bit false = 0

-- Whether the transaction locks this proposal for execution.
abbrev pub wins : ℕ → Transaction → Db → Bool
wins target (lock_tx id username now db_now) db =
    (id == target) && is_ok (lock_for_execution id username now db_now db).0
wins target _ db = false

-- How often the proposal is locked in a sequence of transactions.
abbrev pub locks_won : ℕ → List Transaction → Db → ℕ
locks_won target [] db = 0
locks_won target (t ∷ ts) db = bit (wins target t db) + locks_won target ts (commit t db)

abbrev is_open : ℕ → Row → Bool
is_open target row = has_id target row && is_proposed row.proposal.status

-- The row can still be locked.
abbrev pub lockable : ℕ → List Row → Bool
lockable target rows = any (is_open target) rows

abbrev pub known : ℕ → List Row → Bool
known target rows = any (has_id target) rows

-- An update that sets a status other than PROPOSED, and keeps the id.
pub record Closes (change : Row → Row) : Type 0 where
  pub same_id : (row : Row) → (change row).proposal.id ≡ row.proposal.id
  pub not_proposed : (row : Row) → is_proposed (change row).proposal.status ≡ false

pub update-known :
    (target : ℕ) (test : Row → Bool) (change : Row → Row) (rows : List Row)
    → Closes change
    → known target (update_where test change rows) ≡ known target rows
update-known target test change [] c = refl
update-known target test change (row ∷ rows) c =
    let rest = update-known target test change rows c in
    let same = c.same_id row in
    elim (Bool-cases (test row)) [
      | inl hit ↦ rw (hit, same, rest) refl
      | inr miss ↦ rw (miss, rest) refl
    ]

-- No update makes a row lockable.
pub update-lockable :
    (target : ℕ) (test : Row → Bool) (change : Row → Row) (rows : List Row)
    → Closes change
    → lockable target rows ≡ false
    → lockable target (update_where test change rows) ≡ false
update-lockable target test change [] c closed = refl
update-lockable target test change (row ∷ rows) c closed =
    let rest = update-lockable target test change rows c (ground arith) in
    let shut = c.not_proposed row in
    elim (Bool-cases (test row)) [
      | inl hit ↦ rw (hit, shut, rest) (ground arith)
      | inr miss ↦ rw (miss, rest) (ground arith)
    ]

-- An update of the proposal's row closes it.
pub update-closed :
    (target : ℕ) (change : Row → Row) (rows : List Row)
    → Closes change
    → lockable target (update_where (has_id target) change rows) ≡ false
update-closed target change [] c = refl
update-closed target change (row ∷ rows) c =
    let rest = update-closed target change rows c in
    let shut = c.not_proposed row in
    elim (Bool-cases (has_id target row)) [
      | inl hit ↦ rw (hit, shut, rest) (ground arith)
      | inr miss ↦ rw (miss, rest) (ground arith)
    ]

pub set_status-Closes :
    (status : SqlProposalStatus) → is_proposed status ≡ false → Closes (set_status status)
set_status-Closes status h = record { same_id = λ row. refl; not_proposed = λ row. h }

pub set_executing-Closes : (now : ℕ) → Closes (set_executing now)
set_executing-Closes now = record { same_id = λ row. refl; not_proposed = λ row. refl }

pub set_executed-Closes : (count : ℕ) → Closes (set_executed count)
set_executed-Closes count = record { same_id = λ row. refl; not_proposed = λ row. refl }

pub set_failed-Closes : (code : String) → Closes (set_failed code)
set_failed-Closes code = record { same_id = λ row. refl; not_proposed = λ row. refl }

pub fetch_one-lockable :
    (id : ℕ) (username : String) (rows : List Row) (row : Row)
    → fetch_one (is_owned id username) rows ≡ some row
    → is_proposed row.proposal.status ≡ true
    → lockable id rows ≡ true
fetch_one-lockable id username [] row e h = cc
fetch_one-lockable id username (first ∷ rows) row e h =
    elim (Bool-cases (is_owned id username first)) [
      | inl hit ↦
          let found = rw hit at e in
          let same : first ≡ row = cc in
          let status : is_proposed first.proposal.status ≡ true = rw same h in ground arith
      | inr miss ↦
          let rest = fetch_one-lockable id username rows row (rw miss at e) h in ground arith
    ]

pub fetch_one-known :
    (id : ℕ) (username : String) (rows : List Row) (row : Row)
    → fetch_one (is_owned id username) rows ≡ some row
    → known id rows ≡ true
fetch_one-known id username [] row e = cc
fetch_one-known id username (first ∷ rows) row e = elim (Bool-cases (is_owned id username first)) [
  | inl hit ↦ ground arith
  | inr miss ↦ let rest = fetch_one-known id username rows row (rw miss at e) in ground arith
]
