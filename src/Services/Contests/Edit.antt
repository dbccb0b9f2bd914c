-- ===== src/Services/Contests/Edit.antt =====
-- internal/service/contest_service: creating, updating and deleting contests, and setting their
-- problems and users, with the transactions that these run in.
use flux_backend.Common.{
  ℕ, Bool, true, false, Option, none, some, List, [], ◌∷◌, Text, text, map, inl, inr, if◌then◌else◌,
  is_some, ℕ_eq, Text_eq, ◌==◌, find?, any,
}
use flux_backend.Errors.{DbError}
use flux_backend.Errors.DbError.{pg}
use flux_backend.Errors.FluxError.{internal, invalid_request}
use flux_backend.Services.Result.{
  Result, ok, err, flux, ◌>>=◌, ◌>>◌, require, reject, Answer, or_internal, handled, present,
}
use flux_backend.Services.Context.{Caller, Claims, get_claims_from_context}
use flux_backend.Services.Tables.{
  Db, Tables, ask, unless_fault, Query, ContestRow, UserRow, ContestProblemRow, RegisteredRow, Tx,
  statement, get_new_transaction, commit,
}
use flux_backend.Services.Tables.ContestQueries.{
  CreateContestParams, UpdateContestParams, sql_create_contest, sql_delete_contest_by_id,
  sql_delete_problems_by_contest_id, sql_unset_contest_problems, sql_un_register_contest_users,
  sql_add_problem_to_contest, sql_register_user_to_contest, sql_update_contest,
}
use flux_backend.Services.Locks.{get_lock_by_id}
use flux_backend.Services.Problems.{Problem, get_problems_by_ids}
use flux_backend.Services.Users.{get_users_by_names}
use flux_backend.Services.Contests.{
  Contest, ContestProblem, get_contest_by_id, authorize_contest_update, validate_private_contest,
  validate_public_contest, empty_contest,
}

-- A statement of the transaction, which the database may fail.
abbrev pub run {ℓ} : {A : Type ℓ} → Db → Query → Tx → (Tables → Answer (A × Tables)) → Answer A × Tx
run db q tx sql = statement tx (λ t. unless_fault (db.fault q) (sql t))

-- The statement, with its error translated; a caller that stops at the error rolls back.
abbrev pub or_roll_back {ℓ} : {A : Type ℓ} → Answer A × Tx → Result (A × Tx)
or_roll_back (inl e, tx) = handled (inl e)
or_roll_back (inr a, tx) = ok (a, tx)

-- A public contest wants its lock on every problem.
abbrev pub lock_matches : Option ℕ → Option ℕ → Bool
lock_matches none problem_lock = true
lock_matches (some l) none = false
lock_matches (some l) (some p) = l == p

abbrev pub fits_contest : Option ℕ → Option Problem → Bool
fits_contest lock none = false
fits_contest lock (some p) = lock_matches lock p.lock_id

unfoldable pub check_problems : Option ℕ → List Problem → List ContestProblem → Result (Unit {0})
check_problems lock fetched [] = ok tt
check_problems lock fetched (p ∷ ps) = do
  require (fits_contest lock (find? (λ x. x.id == p.problem_id) fetched)) invalid_request
  check_problems lock fetched ps

unfoldable pub check_scores : (ContestProblem → Bool) → List ContestProblem → Result (Unit {0})
check_scores accepts [] = ok tt
check_scores accepts (p ∷ ps) = do require (accepts p) invalid_request; check_scores accepts ps

unfoldable pub validate_contest_problems :
    (ContestProblem → Bool) → Caller → Db → Option ℕ → List ContestProblem → Result (Unit {0})
validate_contest_problems accepts c db lock [] = ok tt
validate_contest_problems accepts c db lock (p ∷ ps) = do
  check_scores accepts (p ∷ ps)
  fetched ← get_problems_by_ids c db (map (λ x. x.problem_id) (p ∷ ps))
  check_problems lock fetched (p ∷ ps)

unfoldable pub unset_contest_problems : Db → Tx → ℕ → Result (Unit {0} × Tx)
unset_contest_problems db tx id =
    or_roll_back (run db Query.unset_contest_problems tx (sql_unset_contest_problems id))

abbrev pub problem_row : ℕ → ContestProblem → ContestProblemRow
problem_row id p = record { contest_id = id; problem_id = p.problem_id; score = p.score }

-- Whether an error is the violation of the primary key of contest_problems.
abbrev pub is_duplicate_problem : DbError → Bool
is_duplicate_problem (pg e) = e.constraint_name == text "contest_problems_pkey"
is_duplicate_problem _ = false

abbrev pub added : Answer ContestProblemRow × Tx → Result Tx
added (inr row, tx) = ok tx
added (inl e, tx) = if is_duplicate_problem e then err (flux invalid_request) else handled (inl e)

unfoldable pub add_problems_to_contest : Db → Tx → ℕ → List ContestProblem → Result Tx
add_problems_to_contest db tx id [] = ok tx
add_problems_to_contest db tx id (p ∷ ps) = do
  next ←
      added (run db Query.add_problem_to_contest tx (sql_add_problem_to_contest (problem_row id p)))
  add_problems_to_contest db next id ps

-- The errors of the insertions are dropped; one of them aborts the transaction.
unfoldable pub register_all : Db → Tx → ℕ → List UserRow → Tx
register_all db tx id [] = tx
register_all db tx id (u ∷ us) =
    let row : RegisteredRow = record { user_id = u.id; contest_id = id } in
    let done = run db Query.register_user_to_contest tx (sql_register_user_to_contest row) in
    register_all db done.1 id us

-- The error of the query for the users is dropped: no user is found.
abbrev pub or_nobody : Result (List UserRow) → List UserRow
or_nobody (ok us) = us
or_nobody (err e) = []

unfoldable pub check_names : List UserRow → List Text → Result (Unit {0})
check_names us [] = ok tt
check_names us (name ∷ names) = do
  require (any (λ u. u.user_name == name) us) invalid_request
  check_names us names

unfoldable pub add_users_to_contest : Db → Tx → ℕ → List Text → Result Tx
add_users_to_contest db tx id [] = ok tx
add_users_to_contest db tx id (name ∷ names) =
    let us = or_nobody (get_users_by_names db (name ∷ names)) in
    do check_names us (name ∷ names); ok (register_all db tx id us)

pub record CreateContestRequest : Type 0 where
  pub contest_details : Contest
  pub registered_users : List Text
  pub contest_problems : List ContestProblem

abbrev pub create_params : Contest → Claims → CreateContestParams
create_params k who = record {
  title = k.title;
  created_by = who.user_id;
  start_time = k.start_time;
  end_time = k.end_time;
  is_published = k.is_published;
  lock_id = k.lock_id;
}

-- The contest that is returned.
abbrev pub created_contest : ContestRow → ℕ → Contest
created_contest row start = record {
  id = row.id;
  title = row.title;
  lock_id = row.lock_id;
  start_time = some start;
  end_time = row.end_time;
  is_published = row.is_published;
  created_by = row.created_by;
  lock_access = none;
  lock_timeout = none;
}

module _ (accepts : Contest → Bool) (accepts_problem : ContestProblem → Bool) where
  -- The validation of a request, with the start time of the contest.
  abbrev pub validate_request : Caller → Db → CreateContestRequest → Option ℕ → Result ℕ
  validate_request c db r none = do
    validate_private_contest accepts c r.contest_details
    present r.contest_details.start_time internal
  validate_request c db r (some l) = do
    lock ← get_lock_by_id c db l
    validate_public_contest accepts c r.contest_details r.registered_users lock
    present lock.timeout internal

  unfoldable pub create_contest : Caller → Db → CreateContestRequest → Result (Contest × Tables)
  create_contest c db r = do
    start ← validate_request c db r r.contest_details.lock_id
    who ← get_claims_from_context c
    validate_contest_problems accepts_problem c db r.contest_details.lock_id r.contest_problems
    tx ← get_new_transaction db
    let made =
        run db Query.create_contest tx
          (sql_create_contest db.new_id (create_params r.contest_details who))
    row ← or_internal made.0
    with_problems ← add_problems_to_contest db made.1 row.id r.contest_problems
    with_users ← add_users_to_contest db with_problems row.id r.registered_users
    t ← commit db with_users
    ok (created_contest row start, t)

  unfoldable pub set_problems_in_contest :
      Caller → Db → ℕ → List ContestProblem → Result (Unit {0} × Tables)
  set_problems_in_contest c db id problems = do
    get_claims_from_context c
    contest ← get_contest_by_id db id
    authorize_contest_update c contest
    validate_contest_problems accepts_problem c db contest.lock_id problems
    tx ← get_new_transaction db
    unset ← unset_contest_problems db tx id
    with_problems ← add_problems_to_contest db unset.1 id problems
    t ← commit db with_problems
    ok (tt, t)

  -- UpdateContest: the request is authorized against itself, and the row that is updated is that of
  -- the zero id, since the parameters of the query name no contest.
  unfoldable pub update_contest : Caller → Db → Contest → Result (Contest × Tables)
  update_contest c db contest = do
    previous ← get_contest_by_id db contest.id
    reject (is_some previous.lock_id) invalid_request
    authorize_contest_update c contest
    validate_private_contest accepts c contest
    made ←
        handled (ask db Query.update_contest (sql_update_contest (update_params contest) db.tables))
    ok (updated made.0 contest, made.1)
    where
      update_params : Contest → UpdateContestParams
      update_params k = record {
        title = k.title;
        start_time = k.start_time;
        end_time = k.end_time;
        id = 0;
      }

      updated : ContestRow → Contest → Contest
      updated row k = record empty_contest {
        id = row.id;
        title = row.title;
        start_time = k.start_time;
        end_time = row.end_time;
        is_published = row.is_published;
        created_by = row.created_by;
      }

unfoldable pub register_users_to_contest : Caller → Db → ℕ → List Text → Result (Unit {0} × Tables)
register_users_to_contest c db id user_names = do
  get_claims_from_context c
  contest ← get_contest_by_id db id
  authorize_contest_update c contest
  reject contest.is_published invalid_request
  tx ← get_new_transaction db
  cleared ←
      or_roll_back (run db Query.un_register_contest_users tx (sql_un_register_contest_users id))
  with_users ← add_users_to_contest db cleared.1 id user_names
  t ← commit db with_users
  ok (tt, t)

-- The error of the deletion of the problems is dropped.
unfoldable pub delete_contest : Caller → Db → ℕ → Result (Unit {0} × Tables)
delete_contest c db id = do
  previous ← get_contest_by_id db id
  reject (is_some previous.lock_id) invalid_request
  authorize_contest_update c previous
  tx ← get_new_transaction db
  cleared ←
      or_roll_back (run db Query.un_register_contest_users tx (sql_un_register_contest_users id))
  let emptied =
      run db Query.delete_problems_by_contest_id cleared.1 (sql_delete_problems_by_contest_id id)
  gone ← or_roll_back (run db Query.delete_contest_by_id emptied.1 (sql_delete_contest_by_id id))
  t ← commit db gone.1
  ok (tt, t)
