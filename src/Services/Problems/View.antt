-- ===== src/Services/Problems/View.antt =====
-- What GetProblemByID shows of a problem that has a lock.
use flux_backend.Common.{
  ℕ, false, none, some, List, ◌≡◌, ◌≢◌, refl, sym, ◌∙◌, ap, subst, inr, Text, Text_eq, lookup, [],
}
use flux_backend.Errors.FluxError.{internal, unauthorized}
use flux_backend.Services.Result.{
  ok, bind-ok, then-ok, ok-injective, handled, present, present-ok, require,
}
use flux_backend.Services.Context.{Caller, get_claims_from_context}
use flux_backend.Services.Tables.{
  Db, Tables, Query, ask, ask-inr, ProblemRow, LockRow, SubmissionRow,
}
use flux_backend.Services.Tables.LockQueries.{lock_by_id}
use flux_backend.Services.Tables.ContestQueries.{sql_can_submit_problem_in_practice}
use flux_backend.Services.Tables.ProblemQueries.{
  ProblemWithLock, problem_by_id, located-inr, problem_with_lock, sql_get_problem_by_id,
}
use flux_backend.Services.Locks.{authorize_lock, hidden}
use flux_backend.Services.Problems.{Problem, empty_problem, get_problem_by_id, shown, asks}
use flux_backend.Services.Contests.Submit.{SubmissionRequest, submit, may_submit}

shown-locked :
    (c : Caller) (p : ProblemWithLock) (access : Text) (q : Problem)
    → shown c false p (some access) ≡ ok q
    → q ≡ empty_problem
shown-locked c p access q h =
    let allowed = then-ok (hidden (authorize_lock c p.timeout access)) _ h in
    sym (ok-injective allowed.2)

-- A problem behind a lock is shown to no caller from outside, not even to those whom the lock lets in:
-- what they are given is the empty problem.
pub get_problem_by_id-locked :
    (c : Caller) (db : Db) (id : ℕ) (row : ProblemRow) (l : ℕ) (lock : LockRow) (p : Problem)
    → problem_by_id id db.tables.problems ≡ some row
    → row.lock_id ≡ some l
    → lock_by_id l db.tables.locks ≡ some lock
    → get_problem_by_id c false db id ≡ ok p
    → p ≡ empty_problem
unfolding get_problem_by_id sql_get_problem_by_id
get_problem_by_id-locked c db id row l lock p found locked held h =
    let answer = sql_get_problem_by_id id db.tables in
    let read = bind-ok (handled (ask db Query.get_problem_by_id answer)) _ h in
    let asked = then-ok (asks c false) _ read.2 in
    let at =
      located-inr db.tables (problem_by_id id db.tables.problems)
        (ask-inr db Query.get_problem_by_id answer read.1) in
    let same_row : some row ≡ some at.0 = sym found ∙ at.1 in
    let same : row ≡ at.0 = cc in
    let access : read.0.access ≡ some lock.access =
      ap (λ k. k.access) at.2
      ∙ ap (λ (r : ProblemRow). (problem_with_lock db.tables r).access) (sym same)
      ∙ with_access row l lock locked held in
    shown-locked c read.0 lock.access p (subst (λ a. shown c false read.0 a ≡ ok p) access asked.2)
  where
    with_access :
        (r : ProblemRow) (i : ℕ) (k : LockRow)
        → r.lock_id ≡ some i
        → lock_by_id i db.tables.locks ≡ some k
        → (problem_with_lock db.tables r).access ≡ some k.access
    with_access r i k e f = rw (e, f) refl

-- So no submission to a problem behind a lock is accepted, even when the lock's timeout has passed:
-- there is no evaluator for the evaluator of the empty problem.
pub submit_to_locked_refused :
    (evaluator_mails : List (Text × Text)) (c : Caller) (db : Db) (req : SubmissionRequest)
    (row : ProblemRow) (l : ℕ) (lock : LockRow)
    → problem_by_id req.problem_id db.tables.problems ≡ some row
    → row.lock_id ≡ some l
    → lock_by_id l db.tables.locks ≡ some lock
    → lookup [] evaluator_mails ≡ none
    → (accepted : (SubmissionRow × Text) × Tables)
    → submit evaluator_mails c false db req ≢ ok accepted
unfolding submit
submit_to_locked_refused mails c db req row l lock found locked held no_mail accepted h =
    let who = bind-ok (get_claims_from_context c) _ h in
    let problem = bind-ok (get_problem_by_id c false db req.problem_id) _ who.2 in
    let may = then-ok (may_submit c db req.problem_id req.contest_id) _ problem.2 in
    let free = sql_can_submit_problem_in_practice db.clock req.problem_id db.tables in
    let practice =
      bind-ok (handled (ask db Query.can_submit_problem_in_practice (inr free))) _ may.2 in
    let good = then-ok (require practice.0 unauthorized) _ practice.2 in
    let mail = bind-ok (present (lookup problem.0.evaluator mails) internal) _ good.2 in
    let empty =
      get_problem_by_id-locked c db req.problem_id row l lock problem.0 found locked held
        problem.1 in
    absurd (
      some_not_none (
        sym (present-ok (lookup problem.0.evaluator mails) internal mail.1)
        ∙ ap (λ (p : Problem). lookup p.evaluator mails) empty
        ∙ no_mail))
  where
    some_not_none : {m : Text} → some m ≡ none → ⊥
    some_not_none e = cc
