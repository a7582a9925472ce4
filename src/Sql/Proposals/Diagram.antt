-- ===== src/Sql/Proposals/Diagram.antt =====
-- The life of a SQL proposal as a diagram of its statuses, and the table of
-- app/repositories/sql_proposal_repository.py as an implementation of it.
use enterprise_rag.Prelude.{
  ℕ, String, ◌≡◌, refl, ap, sym, ◌∙◌, subst, ◌⊎◌, inl, inr, Bool, true, false, Bool-cases, ◌==◌,
  some, none, Option, leb, List, [], ◌∷◌, any, arith, ==_iff, if◌then◌else◌,
}
use enterprise_rag.Sql.Types.{
  SqlProposalStatus, proposed, executing, executed, rejected, expired, failed, is_proposed,
  is_executing, SqlProposal, Row, Db,
}
use enterprise_rag.Sql.Proposals.{
  has_id, is_owned, is_pending, is_stale, fetch_one, update_where, set_status, set_executing,
  set_executed, set_failed, create, lock_row, lock_for_execution, mark_executed, mark_failed,
  reject, reclaim_stale_executing,
}
use enterprise_rag.Sql.Proposals.Updates.{
  fetch_one-known, Transaction, create_tx, lock_tx, mark_executed_tx, mark_failed_tx, reject_tx,
  reclaim_tx, commit,
}

-- What may happen to a proposal. `late_finish` is an execution that ends after it was reclaimed.
infix 40 ◌⟶◌ ◌⟶?◌ ◌⟶*◌
pub data ◌⟶◌ : SqlProposalStatus → SqlProposalStatus → Type 0 where
  lock : proposed ⟶ executing
  expire : proposed ⟶ expired
  turn_down : proposed ⟶ rejected
  finish : executing ⟶ executed
  fail : executing ⟶ failed
  late_finish : failed ⟶ executed

abbrev pub ◌⟶?◌ : SqlProposalStatus → SqlProposalStatus → Type 0
a ⟶? b = (a ≡ b) ⊎ (a ⟶ b)

pub data ◌⟶*◌ : SqlProposalStatus → SqlProposalStatus → Type 0 where
  here : {a : SqlProposalStatus} → a ⟶* a
  onward : {a b c : SqlProposalStatus} → a ⟶ b → b ⟶* c → a ⟶* c

is_proposed-eq : (s : SqlProposalStatus) → is_proposed s ≡ true → s ≡ proposed
is_proposed-eq proposed h = refl
is_proposed-eq _ h = cc

is_executing-eq : (s : SqlProposalStatus) → is_executing s ≡ true → s ≡ executing
is_executing-eq executing h = refl
is_executing-eq _ h = cc

-- The primary key: no second row has the id.
abbrev pub IsKeyed : ℕ → List Row → Type 0
IsKeyed target [] = Unit
IsKeyed target (row ∷ rows) =
    (has_id target row ≡ true → any (has_id target) rows ≡ false) × IsKeyed target rows

-- The service marks a proposal executed or failed only after it has locked it.
abbrev pub IsSettling : ℕ → SqlProposalStatus → Transaction → Type 0
IsSettling target status (mark_executed_tx id count) =
    id ≡ target → (status ≡ executing) ⊎ (status ≡ failed)
IsSettling target status (mark_failed_tx id code) =
    id ≡ target → (status ≡ executing) ⊎ (status ≡ failed)
IsSettling target status _ = Unit

module _ (target : ℕ) where
  -- An update that keeps the ids meets the target's row where it finds it.
  fetch_one-update_where :
      (test : Row → Bool) (change : Row → Row) (rows : List Row) (row : Row)
      → ((r : Row) → (change r).proposal.id ≡ r.proposal.id)
      → fetch_one (has_id target) rows ≡ some row
      → fetch_one (has_id target) (update_where test change rows)
        ≡ some (if test row then change row else row)
  fetch_one-update_where test change [] row same e = cc
  fetch_one-update_where test change (r ∷ rows) row same e = elim (Bool-cases (has_id target r)) [
    | inl hit ↦
        let found : r ≡ row = (let q = rw hit at e in cc) in
        let kept : has_id target (change r) ≡ true = ap (λ n. n == target) (same r) ∙ hit in
        subst
          (λ x.
            fetch_one (has_id target) (update_where test change (r ∷ rows))
            ≡ some (if test x then change x else x))
          found (met r (update_where test change rows) (test r) kept hit)
    | inr miss ↦
        let rest = fetch_one-update_where test change rows row same (rw miss at e) in
        let kept : has_id target (change r) ≡ false = ap (λ n. n == target) (same r) ∙ miss in
        elim (Bool-cases (test r)) [
          | inl changed ↦ rw (changed, kept) rest
          | inr spared ↦ rw (spared, miss) rest
        ]
  ]
    where
      met :
          (r : Row) (rows : List Row) (b : Bool)
          → has_id target (change r) ≡ true
          → has_id target r ≡ true
          → fetch_one (has_id target) ((if b then change r else r) ∷ rows)
            ≡ some (if b then change r else r)
      met r rows true kept hit = rw kept refl
      met r rows false kept hit = rw hit refl

  any-update_where :
      (test : Row → Bool) (change : Row → Row) (rows : List Row)
      → ((r : Row) → (change r).proposal.id ≡ r.proposal.id)
      → any (has_id target) (update_where test change rows) ≡ any (has_id target) rows
  any-update_where test change [] same = refl
  any-update_where test change (r ∷ rows) same =
      let rest = any-update_where test change rows same in
      let kept : has_id target (change r) ≡ has_id target r = ap (λ n. n == target) (same r) in
      elim (Bool-cases (test r)) [
        | inl changed ↦ rw (changed, kept, rest) refl
        | inr spared ↦ rw (spared, rest) refl
      ]

  update_where-IsKeyed :
      (test : Row → Bool) (change : Row → Row) (rows : List Row)
      → ((r : Row) → (change r).proposal.id ≡ r.proposal.id)
      → IsKeyed target rows
      → IsKeyed target (update_where test change rows)
  update_where-IsKeyed test change [] same k = tt
  update_where-IsKeyed test change (r ∷ rows) same k =
      let others = any-update_where test change rows same in
      let rest = update_where-IsKeyed test change rows same k.1 in
      let kept : has_id target (change r) ≡ has_id target r = ap (λ n. n == target) (same r) in
      elim (Bool-cases (test r)) [
        | inl changed ↦ rw (changed, others) ((λ h. k.0 (sym kept ∙ h)), rest)
        | inr spared ↦ rw (spared, others) (k.0, rest)
      ]

  -- Under the primary key, a row of the target that some test finds is the row of the target.
  fetch_one-IsKeyed :
      (username : String) (rows : List Row) (row : Row)
      → IsKeyed target rows
      → fetch_one (is_owned target username) rows ≡ some row
      → fetch_one (has_id target) rows ≡ some row
  fetch_one-IsKeyed username [] row k e = cc
  fetch_one-IsKeyed username (r ∷ rows) row k e = elim (Bool-cases (has_id target r)) [
    | inl hit ↦ elim (Bool-cases (is_owned target username r)) [
      | inl owned ↦ rw hit (rw owned at e)
      | inr foreign ↦ absurd (
          let found = fetch_one-known target username rows row (rw foreign at e) in
          let alone = k.0 hit in cc)
    ]
    | inr miss ↦ rw miss (fetch_one-IsKeyed username rows row k.1 (rw miss at e))
  ]

  fetch_one-has_id :
      (rows : List Row) (row : Row)
      → fetch_one (has_id target) rows ≡ some row
      → (row.proposal.id ≡ target) × (any (has_id target) rows ≡ true)
  fetch_one-has_id [] row e = cc
  fetch_one-has_id (r ∷ rows) row e = elim (Bool-cases (has_id target r)) [
    | inl hit ↦
        let found : r ≡ row = (let q = rw hit at e in cc) in
        (subst (λ x. x.proposal.id ≡ target) found (ground arith), ground arith)
    | inr miss ↦
        let (same, known) = fetch_one-has_id rows row (rw miss at e) in (same, ground arith)
  ]

  -- The proposal is still there, has made at most one step, and is still the only one with its id.
  abbrev pub Steps : SqlProposalStatus → List Row → Type 0
  Steps status rows =
      (row : Row) × (fetch_one (has_id target) rows ≡ some row)
      × (status ⟶? row.proposal.status)
      × IsKeyed target rows

  module _ (db : Db) (row : Row) (keyed : IsKeyed target db.table)
      (found : fetch_one (has_id target) db.table ≡ some row) where
    stays : Steps row.proposal.status db.table
    stays = (row, found, inl refl, keyed)

    updated :
        (test : Row → Bool) (change : Row → Row)
        → ((r : Row) → (change r).proposal.id ≡ r.proposal.id)
        → (test row ≡ true → row.proposal.status ⟶? (change row).proposal.status)
        → Steps row.proposal.status (update_where test change db.table)
    updated test change same moves = (
      if test row then change row else row,
      fetch_one-update_where test change db.table row same found,
      by_test (test row) refl,
      update_where-IsKeyed test change db.table same keyed,
    )
      where
        by_test :
            (b : Bool)
            → test row ≡ b
            → row.proposal.status ⟶? (if b then change row else row).proposal.status
        by_test true e = moves e
        by_test false e = inl refl

    -- The row that an update by id meets is the target's only for the target's id.
    same_id : (id : ℕ) → has_id id row ≡ true → id ≡ target
    same_id id h = let (same, _) = fetch_one-has_id db.table row found in ground arith

    pending_here :
        (id : ℕ) (username : String) (r : Row)
        → fetch_one (is_owned id username) db.table ≡ some r
        → is_proposed r.proposal.status ≡ true
        → has_id id row ≡ true
        → row.proposal.status ≡ proposed
    pending_here id username r owned pending h =
        let mine =
          fetch_one-IsKeyed username db.table r keyed
            (subst (λ n. fetch_one (is_owned n username) db.table ≡ some r) (same_id id h) owned) in
        let same : row ≡ r = cc in
        is_proposed-eq row.proposal.status
          (subst (λ x. is_proposed x.proposal.status ≡ true) (sym same) pending)

    locked :
        (id now db_now : ℕ) (username : String) (r : Row)
        → fetch_one (is_owned id username) db.table ≡ some r
        → Steps row.proposal.status (lock_row id now db_now (some r) db).1.table
    unfolding lock_row
    locked id now db_now username r owned = elim (Bool-cases (is_proposed r.proposal.status)) [
      | inr consumed ↦ rw consumed stays
      | inl pending ↦ elim (Bool-cases (leb r.proposal.expires_at now)) [
        | inl late ↦
            rw (pending, late)
              (updated (has_id id) (set_status expired) (λ x. refl)
                (λ h. inr (
                  subst (λ status. status ⟶ expired)
                    (sym (pending_here id username r owned pending h)) expire)))
        | inr in_time ↦
            rw (pending, in_time)
              (updated (has_id id) (set_executing db_now) (λ x. refl)
                (λ h. inr (
                  subst (λ status. status ⟶ executing)
                    (sym (pending_here id username r owned pending h)) lock)))
      ]
    ]

    to_executed :
        (row.proposal.status ≡ executing) ⊎ (row.proposal.status ≡ failed)
        → row.proposal.status ⟶? executed
    to_executed (inl e) = inr (subst (λ x. x ⟶ executed) (sym e) finish)
    to_executed (inr e) = inr (subst (λ x. x ⟶ executed) (sym e) late_finish)

    to_failed :
        (row.proposal.status ≡ executing) ⊎ (row.proposal.status ≡ failed)
        → row.proposal.status ⟶? failed
    to_failed (inl e) = inr (subst (λ x. x ⟶ failed) (sym e) fail)
    to_failed (inr e) = inl e

    created : (p : SqlProposal) → Steps row.proposal.status (create p db).1.table
    unfolding create
    created p = elim (Bool-cases (any (has_id p.id) db.table)) [
      | inl taken ↦ rw taken stays
      | inr free ↦ rw free (elim (Bool-cases (p.id == target)) [
        | inl same ↦
            let (_, known) = fetch_one-has_id db.table row found in
            let mine : p.id ≡ target = (==_iff p.id target).0 same in
            let unknown = subst (λ n. any (has_id n) db.table ≡ false) mine free in absurd (cc)
        | inr new ↦ rw new (row, found, inl refl, ((λ h. cc), keyed))
      ])
    ]

    lock_found :
        (id now db_now : ℕ) (username : String) (o : Option Row)
        → fetch_one (is_owned id username) db.table ≡ o
        → Steps row.proposal.status (lock_row id now db_now o db).1.table
    unfolding lock_row
    lock_found id now db_now username none e = stays
    lock_found id now db_now username (some r) e = locked id now db_now username r e

    turned_down :
        (id : ℕ) (username : String) → Steps row.proposal.status (reject id username db).1.table
    unfolding reject
    turned_down id username = elim (Bool-cases (any (is_pending id username) db.table)) [
      | inr nothing ↦ rw nothing stays
      | inl pending ↦ rw pending (
          updated (is_pending id username) (set_status rejected) (λ x. refl)
            (λ h. inr (
              subst (λ x. x ⟶ rejected) (sym (is_proposed-eq row.proposal.status (ground arith)))
                turn_down)))
    ]

  -- The table refines the diagram: whatever transaction is committed, by whichever request, a
  -- proposal that is in the table stays in it, and its status stays or makes one step of the
  -- diagram, as long as a proposal is marked executed or failed only while it executes or after it
  -- was reclaimed.
  pub commit-Steps :
      (t : Transaction) (db : Db) (row : Row)
      → IsKeyed target db.table
      → fetch_one (has_id target) db.table ≡ some row
      → IsSettling target row.proposal.status t
      → Steps row.proposal.status (commit t db).table
  unfolding mark_executed mark_failed lock_for_execution reclaim_stale_executing
  commit-Steps (create_tx p) db row keyed found _ = created db row keyed found p
  commit-Steps (lock_tx id username now db_now) db row keyed found _ =
      lock_found db row keyed found id now db_now username
        (fetch_one (is_owned id username) db.table) refl
  commit-Steps (mark_executed_tx id count) db row keyed found settling =
      updated db row keyed found (has_id id) (set_executed count) (λ x. refl)
        (λ h. to_executed db row keyed found (settling (same_id db row keyed found id h)))
  commit-Steps (mark_failed_tx id code) db row keyed found settling =
      updated db row keyed found (has_id id) (set_failed code) (λ x. refl)
        (λ h. to_failed db row keyed found (settling (same_id db row keyed found id h)))
  commit-Steps (reject_tx id username) db row keyed found _ =
      turned_down db row keyed found id username
  commit-Steps (reclaim_tx older_than now) db row keyed found _ =
      updated db row keyed found (is_stale now older_than) (set_failed "stale_execution_reclaimed")
        (λ x. refl)
        (λ h.
          inr (
            subst (λ x. x ⟶ failed) (sym (is_executing-eq row.proposal.status (ground arith)))
              fail))

-- A run of transactions in which the proposal is marked only while it executes or after it was
-- reclaimed.
abbrev pub IsOrderly : ℕ → List Transaction → Db → Type 0
IsOrderly target [] db = Unit
IsOrderly target (t ∷ ts) db =
    ((row : Row)
      → fetch_one (has_id target) db.table ≡ some row
      → IsSettling target row.proposal.status t)
    × IsOrderly target ts (commit t db)

abbrev pub commit_all : List Transaction → Db → Db
commit_all [] db = db
commit_all (t ∷ ts) db = commit_all ts (commit t db)

stepping : {a b c : SqlProposalStatus} → a ⟶? b → b ⟶* c → a ⟶* c
stepping {c = c} (inl e) path = subst (λ x. x ⟶* c) (sym e) path
stepping (inr step) path = onward step path

-- The table of proposals refines the diagram of their statuses: over any interleaving of the
-- repository's transactions, by whichever requests, a proposal in the table stays in it under its
-- id, and its status moves along the diagram only, from proposed to executing, expired or
-- rejected, from executing to executed or failed, and from failed to executed where an execution
-- ends after it was reclaimed. The run is one in which a proposal is marked executed or failed only
-- while it executes or after it was reclaimed, and the id is the table's key.
pub commit_all-⟶* :
    (target : ℕ) (ts : List Transaction) (db : Db) (row : Row)
    → IsKeyed target db.table
    → fetch_one (has_id target) db.table ≡ some row
    → IsOrderly target ts db
    → (last : Row) × (fetch_one (has_id target) (commit_all ts db).table ≡ some last)
      × (row.proposal.status ⟶* last.proposal.status)
commit_all-⟶* target [] db row keyed found orderly = (row, found, here)
commit_all-⟶* target (t ∷ ts) db row keyed found orderly =
    let (next, there, step, still) =
      commit-Steps target t db row keyed found (orderly.0 row found) in
    let (last, end, path) = commit_all-⟶* target ts (commit t db) next still there orderly.1 in
    (last, end, stepping step path)
