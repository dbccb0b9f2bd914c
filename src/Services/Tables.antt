-- ===== src/Services/Tables.antt =====
-- The tables of sql/schema that the services work on, their rows (internal/database/models.go), and the
-- way a query reaches them: a query may fail with an error of the driver; a statement that fails
-- inside a transaction aborts it, and an aborted transaction can run no statement and cannot commit.
-- PostgreSQL's `id` of an inserted row is a field of the database.
pub mod LockQueries
pub mod ContestQueries
pub mod ProblemQueries
pub mod UserQueries
use flux_backend.Common.{
  ℕ, Bool, true, false, Option, none, some, List, [], ◌∷◌, Text, text, ◌≡◌, refl, sym, ap, inl, inr,
  ◌⊎◌, any, arith, Bool-cases,
}
use flux_backend.Common.Int.{ℤ}
use flux_backend.Errors.{
  DbError, PgError, FluxError, code_unique_constraint, code_foreign_key_constraint,
}
use flux_backend.Errors.DbError.{pg, other}
use flux_backend.Errors.FluxError.{internal}
use flux_backend.Services.Result.{
  Result, ok, err, flux, Answer, or_internal, handled, handled-ok, or_internal-ok, inr-injective,
}

pub data LockType : Type 0 where
  manual timer : LockType

abbrev pub is_timer : LockType → Bool
is_timer manual = false
is_timer timer = true

abbrev pub same_type : LockType → LockType → Bool
same_type manual manual = true
same_type timer timer = true
same_type _ _ = false

pub LockType-cases : (k : LockType) → (k ≡ manual) ⊎ (k ≡ timer)
LockType-cases manual = inl refl
LockType-cases timer = inr refl

pub record LockRow : Type 0 where
  pub id : ℕ
  pub name : Text
  pub created_by : ℕ
  pub created_at : ℕ
  pub description : Text
  pub access : Text
  pub lock_type : LockType
  pub timeout : Option ℕ

pub record UserRow : Type 0 where
  pub id : ℕ
  pub user_name : Text
  pub roll_no : Text

-- `has_data` tells whether standard_problem_data has a row for the problem.
pub record ProblemRow : Type 0 where
  pub id : ℕ
  pub title : Text
  pub difficulty : ℕ
  pub evaluator : Text
  pub lock_id : Option ℕ
  pub created_by : ℕ
  pub last_updated_by : ℕ
  pub has_data : Bool

pub record ContestRow : Type 0 where
  pub id : ℕ
  pub title : Text
  pub created_by : ℕ
  pub start_time : Option ℕ
  pub end_time : ℕ
  pub is_published : Bool
  pub lock_id : Option ℕ

pub record ContestProblemRow : Type 0 where
  pub contest_id : ℕ
  pub problem_id : ℕ
  pub score : ℤ

pub record RegisteredRow : Type 0 where
  pub user_id : ℕ
  pub contest_id : ℕ

pub record SubmissionRow : Type 0 where
  pub id : ℕ
  pub submitted_by : ℕ
  pub contest_id : Option ℕ
  pub problem_id : ℕ
  pub solution : List (Text × Text)
  pub state : Text

pub record Tables : Type 0 where
  pub locks : List LockRow
  pub users : List UserRow
  pub problems : List ProblemRow
  pub contests : List ContestRow
  pub contest_problems : List ContestProblemRow
  pub registered_users : List RegisteredRow
  pub submissions : List SubmissionRow
  -- the contests that tournament_contests refers to
  pub tournament_contests : List ℕ

pub data Query : Type 0 where
  create_lock delete_lock_by_id get_lock_by_id get_locks_by_filter update_lock_details : Query
  get_contest_by_id create_contest update_contest delete_contest_by_id : Query
  delete_problems_by_contest_id get_contest_problems_by_contest_id get_contest_users : Query
  register_user_to_contest un_register_contest_users unset_contest_problems : Query
  add_problem_to_contest get_problem_by_id get_problems_by_filters update_problem : Query
  get_users_by_filters get_user_by_user_name get_user_by_roll_number : Query
  can_submit_problem_in_practice insert_submission begin_transaction commit_transaction : Query

-- A database: its tables, the queries that it answers with an error whatever the rows, the id of the
-- next row and its clock.
pub record Db : Type 0 where
  pub tables : Tables
  pub fault : Query → Option DbError
  pub new_id : ℕ
  pub clock : ℕ

-- A query that fails, or is answered from the tables.
abbrev pub unless_fault {ℓ} : {A : Type ℓ} → Option DbError → Answer A → Answer A
unless_fault (some e) answer = inl e
unless_fault none answer = answer

abbrev pub ask {ℓ} : {A : Type ℓ} → Db → Query → Answer A → Answer A
ask db q answer = unless_fault (db.fault q) answer

pub unless_fault-inr {ℓ} :
    {A : Type ℓ} (f : Option DbError) (answer : Answer A) {a : A}
    → unless_fault f answer ≡ inr a
    → answer ≡ inr a
unless_fault-inr none answer h = h
unless_fault-inr (some e) answer h = cc

-- A query that succeeds is answered from the tables.
pub ask-inr {ℓ} :
    {A : Type ℓ} (db : Db) (q : Query) (answer : Answer A) {a : A}
    → handled (ask db q answer) ≡ ok a
    → answer ≡ inr a
ask-inr db q answer h = unless_fault-inr (db.fault q) answer (handled-ok (ask db q answer) h)

abbrev pub unique_violation : Text → DbError
unique_violation name =
    pg (record { code = code_unique_constraint; constraint_name = name; detail = [] })

abbrev pub foreign_violation : Text → DbError
foreign_violation name =
    pg (record { code = code_foreign_key_constraint; constraint_name = name; detail = [] })

-- A transaction: the tables as its statements have left them, and whether one of them failed.
pub record Tx : Type 0 where
  pub rows : Tables
  pub aborted : Bool

-- A statement of a transaction.
abbrev pub settle {ℓ} : {A : Type ℓ} → Tx → Answer (A × Tables) → Answer A × Tx
settle tx (inl e) = (inl e, record tx { aborted = true })
settle tx (inr (a, t)) = (inr a, record tx { rows = t })

abbrev pub statement_in {ℓ} :
    {A : Type ℓ} → Tx → Bool → (Tables → Answer (A × Tables)) → Answer A × Tx
statement_in tx true execute = (inl other, tx)
statement_in tx false execute = settle tx (execute tx.rows)

unfoldable pub statement {ℓ} : {A : Type ℓ} → Tx → (Tables → Answer (A × Tables)) → Answer A × Tx
statement tx execute = statement_in tx tx.aborted execute

-- service.GetNewTransaction.
unfoldable pub get_new_transaction : Db → Result Tx
get_new_transaction db =
    or_internal (ask db begin_transaction (inr (record { rows = db.tables; aborted = false })))

-- tx.Commit, and the error that every caller makes of its failure.
abbrev pub commit_in : Db → Tx → Bool → Result Tables
commit_in db tx true = err (flux internal)
commit_in db tx false = or_internal (ask db commit_transaction (inr tx.rows))

unfoldable pub commit : Db → Tx → Result Tables
commit db tx = commit_in db tx tx.aborted

pub commit-rows : (db : Db) (tx : Tx) (t : Tables) → commit db tx ≡ ok t → t ≡ tx.rows
unfolding commit
commit-rows db tx t h = committed tx.aborted h
  where
    committed : (b : Bool) → commit_in db tx b ≡ ok t → t ≡ tx.rows
    committed true h = absurd cc
    committed false h = sym (
        inr-injective (
          unless_fault-inr (db.fault commit_transaction) (inr tx.rows)
            (or_internal-ok (ask db commit_transaction (inr tx.rows)) h)))

pub get_new_transaction-rows :
    (db : Db) (tx : Tx) → get_new_transaction db ≡ ok tx → tx.rows ≡ db.tables
unfolding get_new_transaction
get_new_transaction-rows db tx h = sym (
    ap (λ x. x.rows)
      (inr-injective (
        unless_fault-inr (db.fault begin_transaction)
          (inr (record { rows = db.tables; aborted = false }))
          (or_internal-ok
            (ask db begin_transaction (inr (record { rows = db.tables; aborted = false }))) h))))

-- What a caller is left with: the tables that an operation wrote, or those it found.
abbrev pub after {ℓ} : {A : Type ℓ} → Db → Result (A × Tables) → Tables
after db (ok (a, t)) = t
after db (err e) = db.tables
