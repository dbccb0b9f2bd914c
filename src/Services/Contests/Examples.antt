-- ===== src/Services/Contests/Examples.antt =====
-- Concrete runs of the contests and of submissions to them.
use flux_backend.Common.{
  Bool, true, false, none, some, List, [], ◌∷◌, Text, text, ◌≡◌, ◌≢◌, refl, not, any, leb, ◌&&◌,
  Text_eq, ℕ_eq, lookup, arith, is_some,
}
use flux_backend.Common.Int.{pos}
use flux_backend.Services.Result.{ok, handled, or_internal}
use flux_backend.Services.Context.{Caller, Claims, minutes, get_claims_from_context}
use flux_backend.Services.Tables.{
  Db, Tables, LockRow, timer, ContestRow, ProblemRow, SubmissionRow, after, get_new_transaction,
  commit, statement,
}
use flux_backend.Services.Tables.LockQueries.{lock_by_id}
use flux_backend.Services.Tables.ContestQueries.{
  contest_by_id, sql_get_contest_by_id, sql_get_contest_problems_by_contest_id,
  sql_get_contest_users, sql_can_submit_problem_in_practice, locked_with, latest_end,
  sql_create_contest,
}
use flux_backend.Services.Tables.ProblemQueries.{
  problem_by_id, sql_get_problem_by_id, sql_get_problems_by_ids,
}
use flux_backend.Services.Tables.UserQueries.{sql_get_users_by_ids}
use flux_backend.Services.Users.{get_users_by_ids}
use flux_backend.Services.Locks.{FluxLock}
use flux_backend.Services.Problems.{get_problem_by_id, get_problems_by_ids, visible_problems}
use flux_backend.Services.Problems.View.{submit_to_locked_refused}
use flux_backend.Services.Contests.{
  Contest, ContestProblem, empty_contest, get_contest_by_id, db_contest_to_service_contest,
  get_contest_problems, authorize_problem_view, with_scores, get_contest_registered_users,
  validate_private_contest,
}
use flux_backend.Services.Contests.Edit.{
  CreateContestRequest, create_contest, update_contest, validate_contest_problems,
  add_problems_to_contest, add_users_to_contest,
}
use flux_backend.Services.Contests.Submit.{
  SubmissionRequest, submit, can_submit, check_registered, submission_row, sql_insert_submission,
}
use flux_backend.Services.Contests.Submit.Allowed.{Admitted, can_submit-admits}
use flux_backend.Services.Contests.Submit.Running.{
  Stored, submit-Stored, can_submit_problem_in_practice_lem, submit_to_public_refused,
}
use flux_backend.Services.Contests.Shape.{WellFormed}
use flux_backend.Services.Contests.Shape.Reachable.{
  stay, step, creates_contest, steps-WellFormed, update_contest_fails,
}

abbrev ann : Claims
ann = record { user_id = 1; user_name = text "ann" }

abbrev student : Caller
student = record { claims = some ann; now = 1000; fetch_user_roles = λ id. ok (text "User" ∷ []) }

abbrev free_problem : ProblemRow
free_problem = record {
  id = 3;
  title = text "sums";
  difficulty = 800;
  evaluator = text "codeforces";
  lock_id = none;
  created_by = 1;
  last_updated_by = 1;
  has_data = true;
}

abbrev locked_problem : ProblemRow
locked_problem = record free_problem { id = 4; lock_id = some 5 }

abbrev private_contest : ContestRow
private_contest = record {
  id = 8;
  title = text "training";
  created_by = 1;
  start_time = some 500;
  end_time = 5000;
  is_published = false;
  lock_id = none;
}

abbrev public_contest : ContestRow
public_contest = record private_contest {
  id = 7;
  start_time = none;
  is_published = true;
  lock_id = some 5;
}

-- A contest 8 that runs with problem 3, and a public contest 7 with problem 4.
abbrev tables : Tables
tables = record {
  locks =
      record {
        id = 5;
        name = text "round";
        created_by = 1;
        created_at = 0;
        description = [];
        access = text "role_manager";
        lock_type = timer;
        timeout = some 500;
      }
      ∷ [];
  users = record { id = 1; user_name = text "ann"; roll_no = text "r1" } ∷ [];
  problems = free_problem ∷ locked_problem ∷ [];
  contests = public_contest ∷ private_contest ∷ [];
  contest_problems =
      record { contest_id = 8; problem_id = 3; score = pos 10 }
      ∷ record { contest_id = 7; problem_id = 4; score = pos 10 }
      ∷ [];
  registered_users = record { user_id = 1; contest_id = 8 } ∷ [];
  submissions = [];
  tournament_contests = [];
}

abbrev db : Db
db = record { tables = tables; fault = λ q. none; new_id = 9; clock = 1000 }

abbrev mails : List (Text × Text)
mails = (text "codeforces", text "nyx_manager") ∷ []

may : can_submit student db 3 8 ≡ ok tt
unfolding can_submit get_claims_from_context get_contest_by_id sql_get_contest_by_id contest_by_id
    db_contest_to_service_contest get_contest_problems authorize_problem_view
    sql_get_contest_problems_by_contest_id get_problems_by_ids sql_get_problems_by_ids
    visible_problems with_scores check_registered get_contest_registered_users sql_get_contest_users
    get_users_by_ids sql_get_users_by_ids handled or_internal
may = refl

can_submit-admits_example : Admitted student db 3 8
can_submit-admits_example = can_submit-admits student db 3 8 may

abbrev request : SubmissionRequest
request = record { problem_id = 3; contest_id = some 8; solution = [] }

abbrev row : SubmissionRow
row = submission_row 9 request ann

submitted :
    submit mails student false db request
    ≡ ok ((row, text "nyx_manager"), record tables { submissions = row ∷ [] })
unfolding submit can_submit get_claims_from_context get_contest_by_id sql_get_contest_by_id
    contest_by_id db_contest_to_service_contest get_contest_problems authorize_problem_view
    sql_get_contest_problems_by_contest_id get_problems_by_ids sql_get_problems_by_ids
    visible_problems with_scores check_registered get_contest_registered_users sql_get_contest_users
    get_users_by_ids sql_get_users_by_ids handled or_internal get_problem_by_id
    sql_get_problem_by_id problem_by_id sql_can_submit_problem_in_practice latest_end
    sql_insert_submission lookup
submitted = refl

-- The registered student's submission is stored.
submit-Stored_example : Stored student db request row (record tables { submissions = row ∷ [] })
submit-Stored_example =
    submit-Stored mails student false db request row (text "nyx_manager")
      (record tables { submissions = row ∷ [] }) submitted

can_submit_problem_in_practice_lem_example :
    sql_can_submit_problem_in_practice 1000 4 tables
    ≡ not (
        any
          (λ k. locked_with tables 4 k && leb 1000 k.end_time)
          (public_contest ∷ private_contest ∷ []))
can_submit_problem_in_practice_lem_example = can_submit_problem_in_practice_lem 1000 4 tables

abbrev to_public : SubmissionRequest
to_public = record { problem_id = 4; contest_id = some 7; solution = [] }

public_found : contest_by_id 7 tables.contests ≡ some public_contest
unfolding contest_by_id
public_found = refl

submit_to_public_refused_example :
    submit mails student false db to_public
    ≢ ok ((submission_row 9 to_public ann, text "nyx_manager"), tables)
submit_to_public_refused_example =
    submit_to_public_refused mails student false db to_public 7 public_contest refl public_found
      refl (ground arith) ((submission_row 9 to_public ann, text "nyx_manager"), tables)

abbrev practice : SubmissionRequest
practice = record { problem_id = 4; contest_id = none; solution = [] }

problem_found : problem_by_id 4 tables.problems ≡ some locked_problem
unfolding problem_by_id
problem_found = refl

abbrev lock_row : LockRow
lock_row = record {
  id = 5;
  name = text "round";
  created_by = 1;
  created_at = 0;
  description = [];
  access = text "role_manager";
  lock_type = timer;
  timeout = some 500;
}

lock_found : lock_by_id 5 tables.locks ≡ some lock_row
unfolding lock_by_id
lock_found = refl

no_mail : lookup [] mails ≡ none
unfolding lookup
no_mail = refl

submit_to_locked_refused_example :
    submit mails student false db practice
    ≢ ok ((submission_row 9 practice ann, text "nyx_manager"), tables)
submit_to_locked_refused_example =
    submit_to_locked_refused mails student db practice locked_problem 5 lock_row problem_found refl
      lock_found no_mail ((submission_row 9 practice ann, text "nyx_manager"), tables)

abbrev empty_tables : Tables
empty_tables = record tables { contests = []; contest_problems = []; registered_users = [] }

abbrev empty_db : Db
empty_db = record db { tables = empty_tables }

no_contests : WellFormed empty_tables
unfolding contest_by_id
no_contests id r found = absurd cc

abbrev new_contest : Contest
new_contest = record empty_contest {
  title = text "sprint";
  start_time = some (minutes 5);
  end_time = minutes 10;
}

abbrev new_request : CreateContestRequest
new_request = record { contest_details = new_contest; registered_users = []; contest_problems = [] }

abbrev any_contest : Contest → Bool
any_contest k = true

abbrev any_problem : ContestProblem → Bool
any_problem p = true

abbrev any_lock : FluxLock → Bool
any_lock l = true

steps-WellFormed_example :
    WellFormed
      (after empty_db (create_contest any_contest any_problem student empty_db new_request))
steps-WellFormed_example =
    steps-WellFormed any_lock any_contest any_problem
      (step (creates_contest student empty_db new_request (λ e. absurd cc, refl)) stay) no_contests

update_contest_fails_example :
    update_contest any_contest any_problem student empty_db new_contest
    ≢ ok (new_contest, empty_tables)
update_contest_fails_example =
    update_contest_fails any_contest any_problem student empty_db new_contest
      (new_contest, empty_tables) no_contests

-- The contest of the run is created.
created_one :
    is_some (
      contest_by_id 9
        (after empty_db
          (create_contest any_contest any_problem student empty_db new_request)).contests)
    ≡ true
unfolding create_contest validate_private_contest get_claims_from_context validate_contest_problems
    get_new_transaction statement sql_create_contest add_problems_to_contest add_users_to_contest
    commit or_internal contest_by_id
created_one = refl
