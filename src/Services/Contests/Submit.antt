-- ===== src/Services/Contests/Submit.antt =====
-- contest_service/can_submit.go and submission_service/submit.go: who may submit a solution to a
-- problem, in a contest or outside of any, and the submission.
pub mod Allowed
pub mod Running
use flux_backend.Common.{
  ℕ, Bool, true, false, not, ◌&&◌, Option, none, some, List, [], ◌∷◌, Text, text, map, ltb, inl,
  inr, if◌then◌else◌, is_some, ℕ_eq, Text_eq, ◌==◌, any, ◌≡◌, refl, lookup,
}
use flux_backend.Common.Int.{ℤ}
use flux_backend.Errors.FluxError.{internal, invalid_request, unauthorized}
use flux_backend.Services.Result.{
  Result, ok, err, flux, ◌>>=◌, ◌>>◌, require, reject, Answer, handled, present, Error,
}
use flux_backend.Services.Context.{Caller, Claims, get_claims_from_context}
use flux_backend.Services.Tables.{Db, Tables, ask, Query, UserRow, SubmissionRow, foreign_violation}
use flux_backend.Services.Tables.ContestQueries.{sql_can_submit_problem_in_practice}
use flux_backend.Services.Problems.{Problem, get_problem_by_id}
use flux_backend.Services.Contests.{
  Contest, get_contest_by_id, get_contest_problems, get_contest_registered_users,
}

abbrev pub check_listed : Db → ℕ → Claims → Result (Unit {0})
check_listed db id who = do
  users ← get_contest_registered_users db id
  require (any (λ u. who.user_id == u.id) users) unauthorized

-- The end of CanSubmit: a published public contest is open to all.
unfoldable pub check_registered : Db → ℕ → Contest → Claims → Result (Unit {0})
check_registered db id contest who =
    let listed = check_listed db id who in
    if is_some contest.lock_id && contest.is_published then ok tt else listed

unfoldable pub can_submit : Caller → Db → ℕ → ℕ → Result (Unit {0})
can_submit c db problem_id contest_id = do
  who ← get_claims_from_context c
  contest ← get_contest_by_id db contest_id
  start ← present contest.start_time internal
  reject (ltb c.now start) unauthorized
  reject (ltb contest.end_time c.now) invalid_request
  problems ← get_contest_problems c db contest_id
  require (any (λ p. problem_id == p.0.id) problems) invalid_request
  check_registered db contest_id contest who

pub record SubmissionRequest : Type 0 where
  pub problem_id : ℕ
  pub contest_id : Option ℕ
  pub solution : List (Text × Text)

abbrev pub flux_queued : Text
flux_queued = text "flux_queued"

abbrev pub contest_exists : Option ℕ → Tables → Bool
contest_exists none t = true
contest_exists (some k) t = any (λ r. r.id == k) t.contests

unfoldable pub sql_insert_submission : SubmissionRow → Tables → Answer (SubmissionRow × Tables)
sql_insert_submission row t =
    if not (any (λ u. u.id == row.submitted_by) t.users)
    then inl (foreign_violation (text "submissions_submitted_by_fkey"))
    else if not (contest_exists row.contest_id t)
    then inl (foreign_violation (text "submissions_contest_id_fkey"))
    else if not (any (λ p. p.id == row.problem_id) t.problems)
    then inl (foreign_violation (text "submissions_problem_id_fkey"))
    else inr (row, record t { submissions = row ∷ t.submissions })

abbrev pub submission_row : ℕ → SubmissionRequest → Claims → SubmissionRow
submission_row new_id req who = record {
  id = new_id;
  submitted_by = who.user_id;
  contest_id = req.contest_id;
  problem_id = req.problem_id;
  solution = req.solution;
  state = flux_queued;
}

abbrev pub may_submit : Caller → Db → ℕ → Option ℕ → Result (Unit {0})
may_submit c db problem_id none = ok tt
may_submit c db problem_id (some k) = can_submit c db problem_id k

-- Submit: the row that is inserted, the mail id of the evaluator that is told of it, and the tables.
module _ (evaluator_mails : List (Text × Text)) where
  unfoldable pub submit :
      Caller → Bool → Db → SubmissionRequest → Result ((SubmissionRow × Text) × Tables)
  submit c is_internal db req = do
    who ← get_claims_from_context c
    problem ← get_problem_by_id c is_internal db req.problem_id
    may_submit c db req.problem_id req.contest_id
    in_practice ← handled (
        ask db Query.can_submit_problem_in_practice
          (inr (sql_can_submit_problem_in_practice db.clock req.problem_id db.tables)))
    require in_practice unauthorized
    evaluator ← present (lookup problem.evaluator evaluator_mails) internal
    made ← handled (
        ask db Query.insert_submission
          (sql_insert_submission (submission_row db.new_id req who) db.tables))
    ok ((made.0, evaluator), made.1)
