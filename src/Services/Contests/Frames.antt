-- ===== src/Services/Contests/Frames.antt =====
-- What the transactions of contest_service leave alone: the parts of the tables that their statements
-- do not touch.
use flux_backend.Common.{
  ℕ, Bool, true, false, List, [], ◌∷◌, Text, ◌≡◌, refl, sym, ◌∙◌, ap, subst, arith, inl, inr, ℕ_eq,
}
use flux_backend.Services.Result.{
  Result, ok, bind-ok, then-ok, ok-injective, Answer, handled, inr-injective,
}
use flux_backend.Services.Tables.{
  commit, commit-rows, get_new_transaction, get_new_transaction-rows, Db, Tables, Tx, Query,
  statement, statement_in, settle, unless_fault, unless_fault-inr, ContestProblemRow, RegisteredRow,
  UserRow,
}
use flux_backend.Services.Tables.ContestQueries.{
  sql_add_problem_to_contest, sql_register_user_to_contest,
}
use flux_backend.Services.Users.{get_users_by_names}
use flux_backend.Services.Contests.{ContestProblem}
use flux_backend.Services.Contests.Edit.{
  run, or_roll_back, added, problem_row, add_problems_to_contest, register_all,
  add_users_to_contest, check_names, or_nobody,
}

module _ {A : Type 0} (P : Tables → Type 0) where
  settle-rows :
      (tx : Tx) (r : Answer (A × Tables))
      → ((a : A) (t : Tables) → r ≡ inr (a, t) → P t)
      → P tx.rows
      → P (settle tx r).1.rows
  settle-rows tx (inl e) f h = h
  settle-rows tx (inr (a, t)) f h = f a t refl

  statement_in-rows :
      (tx : Tx) (dead : Bool) (execute : Tables → Answer (A × Tables))
      → ((a : A) (t : Tables) → execute tx.rows ≡ inr (a, t) → P t)
      → P tx.rows
      → P (statement_in tx dead execute).1.rows
  statement_in-rows tx true execute f h = h
  statement_in-rows tx false execute f h = settle-rows tx (execute tx.rows) f h

  -- What every run of the query keeps, a statement of a transaction keeps.
  pub run-rows :
      (db : Db) (q : Query) (tx : Tx) (sql : Tables → Answer (A × Tables))
      → ((t : Tables) (a : A) (u : Tables) → sql t ≡ inr (a, u) → P t → P u)
      → P tx.rows
      → P (run db q tx sql).1.rows
  unfolding statement
  run-rows db q tx sql f h =
      statement_in-rows tx tx.aborted (λ t. unless_fault (db.fault q) (sql t))
        (λ a t e. f tx.rows a t (unless_fault-inr (db.fault q) (sql tx.rows) e) h) h

  pub or_roll_back-rows :
      (r : Answer A × Tx) (a : A × Tx) → or_roll_back r ≡ ok a → P r.1.rows → P a.1.rows
  unfolding handled
  or_roll_back-rows (inl e, tx) a h p = absurd cc
  or_roll_back-rows (inr x, tx) a h p = subst (λ z. P z.1.rows) (ok-injective h) p

settle-inr :
    {A : Type 0} (tx : Tx) (r : Answer (A × Tables)) (a : A)
    → (settle tx r).0 ≡ inr a
    → r ≡ inr (a, (settle tx r).1.rows)
settle-inr tx (inl e) a h = absurd cc
settle-inr tx (inr (x, t)) a h = ap (λ y. inr (y, t)) (inr-injective h)

statement_in-inr :
    {A : Type 0} (tx : Tx) (dead : Bool) (execute : Tables → Answer (A × Tables)) (a : A)
    → (statement_in tx dead execute).0 ≡ inr a
    → execute tx.rows ≡ inr (a, (statement_in tx dead execute).1.rows)
statement_in-inr tx true execute a h = absurd cc
statement_in-inr tx false execute a h = settle-inr tx (execute tx.rows) a h

-- A statement that succeeds has run on the rows.
pub run-inr :
    {A : Type 0} (db : Db) (q : Query) (tx : Tx) (sql : Tables → Answer (A × Tables)) (a : A)
    → (run db q tx sql).0 ≡ inr a
    → sql tx.rows ≡ inr (a, (run db q tx sql).1.rows)
unfolding statement
run-inr db q tx sql a h =
    unless_fault-inr (db.fault q) (sql tx.rows)
      (statement_in-inr tx tx.aborted (λ t. unless_fault (db.fault q) (sql t)) a h)

added-rows :
    (P : Tables → Type 0) (r : Answer ContestProblemRow × Tx) (tx : Tx)
    → added r ≡ ok tx
    → P r.1.rows
    → P tx.rows
unfolding handled
added-rows P (inr row, t) tx h p = subst (λ z. P z.rows) (ok-injective h) p
added-rows P (inl e, t) tx h p = absurd (ground arith)

-- What the insertion of a problem keeps, the insertion of many keeps.
pub add_problems_to_contest-rows :
    (P : Tables → Type 0) (db : Db) (tx : Tx) (id : ℕ) (ps : List ContestProblem) (done : Tx)
    → ((row : ContestProblemRow) (t : Tables) (a : ContestProblemRow) (u : Tables)
        → sql_add_problem_to_contest row t ≡ inr (a, u)
        → P t
        → P u)
    → add_problems_to_contest db tx id ps ≡ ok done
    → P tx.rows
    → P done.rows
unfolding add_problems_to_contest
add_problems_to_contest-rows P db tx id [] done f h p = subst (λ z. P z.rows) (ok-injective h) p
add_problems_to_contest-rows P db tx id (x ∷ xs) done f h p =
    let q = Query.add_problem_to_contest in
    let sql = sql_add_problem_to_contest (problem_row id x) in
    let next = bind-ok (added (run db q tx sql)) _ h in
    add_problems_to_contest-rows P db next.0 id xs done f next.2 (
      added-rows P (run db q tx sql) next.0 next.1
        (run-rows P db q tx sql (f (problem_row id x)) p))

-- What a registration for the contest keeps, many keep.
register_all-rows :
    (P : Tables → Type 0) (db : Db) (tx : Tx) (id : ℕ) (us : List UserRow)
    → ((user : ℕ) (t : Tables) (a : RegisteredRow) (u : Tables)
        → sql_register_user_to_contest (record { user_id = user; contest_id = id }) t ≡ inr (a, u)
        → P t
        → P u)
    → P tx.rows
    → P (register_all db tx id us).rows
unfolding register_all
register_all-rows P db tx id [] f p = p
register_all-rows P db tx id (u ∷ us) f p =
    let row : RegisteredRow = record { user_id = u.id; contest_id = id } in
    let q = Query.register_user_to_contest in
    let sql = sql_register_user_to_contest row in
    register_all-rows P db (run db q tx sql).1 id us f (run-rows P db q tx sql (f u.id) p)

pub add_users_to_contest-rows :
    (P : Tables → Type 0) (db : Db) (tx : Tx) (id : ℕ) (names : List Text) (done : Tx)
    → ((user : ℕ) (t : Tables) (a : RegisteredRow) (u : Tables)
        → sql_register_user_to_contest (record { user_id = user; contest_id = id }) t ≡ inr (a, u)
        → P t
        → P u)
    → add_users_to_contest db tx id names ≡ ok done
    → P tx.rows
    → P done.rows
unfolding add_users_to_contest
add_users_to_contest-rows P db tx id [] done f h p = subst (λ z. P z.rows) (ok-injective h) p
add_users_to_contest-rows P db tx id (n ∷ ns) done f h p =
    let us = or_nobody (get_users_by_names db (n ∷ ns)) in
    let checked = then-ok (check_names us (n ∷ ns)) _ h in
    subst (λ z. P z.rows) (ok-injective checked.2) (register_all-rows P db tx id us f p)

-- What holds of the rows at the commit holds of the tables that the operation returns.
pub commit-keeps :
    {A : Type 0} (P : Tables → Type 0) (db : Db) (tx : Tx) (t : Tables) (x : A) (a : A × Tables)
    → commit db tx ≡ ok t
    → ◌≡◌ {A = Result (A × Tables)} (ok (x, t)) (ok a)
    → P tx.rows
    → P a.1
commit-keeps P db tx t x a h same p =
    subst P (sym (commit-rows db tx t h) ∙ ap (λ y. y.1) (ok-injective same)) p

-- A transaction begins with the tables.
pub begin-keeps :
    (P : Tables → Type 0) (db : Db) (tx : Tx)
    → get_new_transaction db ≡ ok tx
    → P db.tables
    → P tx.rows
begin-keeps P db tx h p = subst P (sym (get_new_transaction-rows db tx h)) p
