-- ===== src/Services/Contests.antt =====
-- internal/service/contest_service: contests, public ones (which start when their timer lock runs out)
-- and private ones (which have a start time). This file reads them and checks them; its children
-- write them and decide who may submit.
pub mod Edit
pub mod Submit
pub mod Shape
pub mod Frames
mod Examples
use flux_backend.Common.{
  ℕ, Bool, true, false, not, ◌&&◌, ◌+◌, ◌<◌, Option, none, some, List, [], ◌∷◌, Text, length, map,
  leb, ltb, inl, inr, if◌then◌else◌, is_some, ℕ_eq, ◌==◌, find?, any, ◌≡◌, refl,
}
use flux_backend.Common.Int.{ℤ}
use flux_backend.Errors.FluxError.{internal, invalid_request, not_found, unauthorized}
use flux_backend.Services.Result.{
  Result, ok, err, flux, ◌>>=◌, ◌>>◌, require, reject, Answer, or_internal, handled, present, Error,
}
use flux_backend.Services.Context.{
  Caller, Claims, get_claims_from_context, authorize_creator_access, authorize_user_role,
  role_manager, minutes,
}
use flux_backend.Services.Tables.{
  Db, Tables, ask, Query, is_timer, ContestRow, UserRow, ContestProblemRow,
}
use flux_backend.Services.Tables.ContestQueries.{
  ContestWithLock, sql_get_contest_by_id, sql_get_contest_problems_by_contest_id,
  sql_get_contest_users,
}
use flux_backend.Services.Locks.{FluxLock, is_lock_expired}
use flux_backend.Services.Problems.{Problem, get_problems_by_ids}
use flux_backend.Services.Users.{get_users_by_ids}

pub record Contest : Type 0 where
  pub id : ℕ
  pub title : Text
  pub lock_id : Option ℕ
  pub start_time : Option ℕ
  pub end_time : ℕ
  pub is_published : Bool
  pub created_by : ℕ
  pub lock_access : Option Text
  pub lock_timeout : Option ℕ

pub record ContestProblem : Type 0 where
  pub problem_id : ℕ
  pub score : ℤ

-- `Contest{}`.
abbrev pub empty_contest : Contest
empty_contest = record {
  id = 0;
  title = [];
  lock_id = none;
  start_time = none;
  end_time = 0;
  is_published = false;
  created_by = 0;
  lock_access = none;
  lock_timeout = none;
}

abbrev pub contest_of : ContestWithLock → ℕ → Contest
contest_of c start = record {
  id = c.contest.id;
  title = c.contest.title;
  lock_id = c.contest.lock_id;
  start_time = some start;
  end_time = c.contest.end_time;
  is_published = c.contest.is_published;
  created_by = c.contest.created_by;
  lock_access = c.access;
  lock_timeout = c.lock_timeout;
}

-- A contest with a lock starts when the lock runs out.
abbrev pub start_of : ContestWithLock → Option ℕ → Option ℕ
start_of c none = c.contest.start_time
start_of c (some l) = c.lock_timeout

unfoldable pub db_contest_to_service_contest : ContestWithLock → Result Contest
db_contest_to_service_contest c = do
  start ← present (start_of c c.contest.lock_id) internal
  ok (contest_of c start)

-- GetContestByID drops the error of the query and returns the empty contest.
abbrev pub contest_or_empty : Answer ContestWithLock → Result Contest
contest_or_empty (inl e) = ok empty_contest
contest_or_empty (inr c) = db_contest_to_service_contest c

unfoldable pub get_contest_by_id : Db → ℕ → Result Contest
get_contest_by_id db id =
    contest_or_empty (ask db Query.get_contest_by_id (sql_get_contest_by_id id db.tables))

-- Public contests are seen through the role of their lock, private ones by their creator.
unfoldable pub authorize_problem_view : Caller → Contest → Result (Unit {0})
authorize_problem_view c contest = do start ← present contest.start_time internal; view start
  where
    by_owner : Option ℕ → Result (Unit {0})
    by_owner none = authorize_creator_access c contest.created_by
    by_owner (some l) = do
      access ← present contest.lock_access internal
      authorize_user_role c access

    view : ℕ → Result (Unit {0})
    view start = let owner = by_owner contest.lock_id in if ltb c.now start then owner else ok tt

-- The problems that the caller may see, with their scores, in the order of the contest.
abbrev pub scored : ContestProblemRow → List (Problem × ℤ) → Option Problem → List (Problem × ℤ)
scored row rest none = rest
scored row rest (some p) = (p, row.score) ∷ rest

abbrev pub with_score : List Problem → ContestProblemRow → List (Problem × ℤ) → List (Problem × ℤ)
with_score ps row rest = scored row rest (find? (λ p. p.id == row.problem_id) ps)

unfoldable pub with_scores : List Problem → List ContestProblemRow → List (Problem × ℤ)
with_scores ps [] = []
with_scores ps (row ∷ rows) = with_score ps row (with_scores ps rows)

-- A contest without problems asks for none.
abbrev pub scored_problems : Caller → Db → List ContestProblemRow → Result (List (Problem × ℤ))
scored_problems c db [] = ok []
scored_problems c db (row ∷ rows) = do
  ps ← get_problems_by_ids c db (map (λ r. r.problem_id) (row ∷ rows))
  ok (with_scores ps (row ∷ rows))

unfoldable pub get_contest_problems : Caller → Db → ℕ → Result (List (Problem × ℤ))
get_contest_problems c db id = do
  contest ← get_contest_by_id db id
  authorize_problem_view c contest
  rows ← handled (
      ask db Query.get_contest_problems_by_contest_id
        (inr (sql_get_contest_problems_by_contest_id contest.id db.tables)))
  scored_problems c db rows

-- A contest without users asks for none.
abbrev pub users_of : Db → List ℕ → Result (List UserRow)
users_of db [] = ok []
users_of db (id ∷ ids) = get_users_by_ids db (id ∷ ids)

unfoldable pub get_contest_registered_users : Db → ℕ → Result (List UserRow)
get_contest_registered_users db id = do
  ids ← handled (ask db Query.get_contest_users (inr (sql_get_contest_users id db.tables)))
  users_of db ids

-- A contest cannot be changed once it has started, except that a manager can always change a public
-- one.
unfoldable pub authorize_contest_update : Caller → Contest → Result (Unit {0})
authorize_contest_update c contest = do get_claims_from_context c; by_owner contest.lock_id
  where
    by_owner : Option ℕ → Result (Unit {0})
    by_owner (some l) = authorize_user_role c role_manager
    by_owner none = do
      authorize_creator_access c contest.created_by
      start ← present contest.start_time internal
      reject (ltb start c.now) invalid_request

module _ (accepts : Contest → Bool) where
  unfoldable pub validate_private_contest : Caller → Contest → Result (Unit {0})
  validate_private_contest c contest = do
    require (accepts contest) invalid_request
    reject (is_some contest.lock_id) invalid_request
    start ← present contest.start_time invalid_request
    reject (ltb start (c.now + minutes 1)) invalid_request
    require (ltb start contest.end_time) invalid_request
    reject contest.is_published invalid_request

  -- The timeout of the lock is read last, when IsLockExpired has found it present.
  unfoldable pub validate_public_contest :
      Caller → Contest → List Text → FluxLock → Result (Unit {0})
  validate_public_contest c contest registered_user_names lock = do
    require (accepts contest) invalid_request
    reject (is_some contest.start_time) invalid_request
    require (is_timer lock.lock_type) invalid_request
    expired ← is_lock_expired c lock 1440
    reject expired invalid_request
    timeout ← present lock.timeout internal
    reject (ltb contest.end_time (timeout + minutes 5)) invalid_request
    reject (contest.is_published && ltb 0 (length registered_user_names)) invalid_request
