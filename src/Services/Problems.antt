-- ===== src/Services/Problems.antt =====
-- internal/service/problem_service: reading problems through their locks, and updating one.
-- `is_internal` is the mark that the program's own queries put in the context.
pub mod View
use flux_backend.Common.{
  ℕ, Bool, true, false, not, ◌||◌, ◌&&◌, Option, none, some, List, [], ◌∷◌, Text, length, map, leb,
  inl, inr, if◌then◌else◌, is_some, ℕ_eq, ◌==◌, find?, ltb, any, ◌≡◌, refl,
}
use flux_backend.Errors.FluxError.{internal, invalid_request, not_found, unauthorized}
use flux_backend.Services.Result.{
  Result, ok, err, flux, ◌>>=◌, ◌>>◌, require, reject, Answer, or_internal, handled, present, Error,
  is_ok,
}
use flux_backend.Services.Context.{
  Caller, get_claims_from_context, authorize_creator_access, Claims,
}
use flux_backend.Services.Tables.{Db, Tables, ProblemRow, ask, Query, is_timer}
use flux_backend.Services.Tables.ProblemQueries.{
  ProblemWithLock, sql_get_problem_by_id, sql_get_problems_by_ids, sql_update_problem,
  UpdateProblemParams,
}
use flux_backend.Services.Locks.{authorize_lock, get_lock_by_id, hidden, FluxLock}

pub record Problem : Type 0 where
  pub id : ℕ
  pub title : Text
  pub difficulty : ℕ
  pub evaluator : Text
  pub lock_id : Option ℕ
  pub created_by : ℕ
  pub lock_timeout : Option ℕ
  pub lock_access : Option Text

-- `Problem{}`.
abbrev pub empty_problem : Problem
empty_problem = record {
  id = 0;
  title = [];
  difficulty = 0;
  evaluator = [];
  lock_id = none;
  created_by = 0;
  lock_timeout = none;
  lock_access = none;
}

abbrev pub problem_of : ProblemWithLock → Problem
problem_of p = record {
  id = p.problem.id;
  title = p.problem.title;
  difficulty = p.problem.difficulty;
  evaluator = p.problem.evaluator;
  lock_id = p.problem.lock_id;
  created_by = p.problem.created_by;
  lock_timeout = p.timeout;
  lock_access = p.access;
}

-- The end of GetProblemByID: behind a lock, whoever asks from outside gets the empty problem, with the
-- error of the authorization or without one.
abbrev pub shown : Caller → Bool → ProblemWithLock → Option Text → Result Problem
shown c true p access = ok (problem_of p)
shown c false p none = ok (problem_of p)
shown c false p (some access) = hidden (authorize_lock c p.timeout access) >> ok empty_problem

abbrev pub asks : Caller → Bool → Result (Unit {0})
asks c true = ok tt
asks c false = get_claims_from_context c >> ok tt

unfoldable pub get_problem_by_id : Caller → Bool → Db → ℕ → Result Problem
get_problem_by_id c is_internal db id = do
  p ← handled (ask db Query.get_problem_by_id (sql_get_problem_by_id id db.tables))
  asks c is_internal
  shown c is_internal p p.access

-- The rows of GetProblemsByFilters that the caller may see: those whose lock lets the caller in.
abbrev pub lets_in : Caller → Option ℕ → Option Text → Bool
lets_in c timeout none = true
lets_in c timeout (some access) = is_ok (authorize_lock c timeout access)

unfoldable pub visible_problems : Caller → List ProblemWithLock → List Problem
visible_problems c [] = []
visible_problems c (p ∷ ps) =
    let rest = visible_problems c ps in
    if lets_in c p.timeout p.access then problem_of p ∷ rest else rest

-- GetProblemsByFilters, with ids and one page that holds them all; the map is the list of its values.
unfoldable pub get_problems_by_ids : Caller → Db → List ℕ → Result (List Problem)
get_problems_by_ids c db ids = do
  require (leb (length ids) 10000) invalid_request
  rows ←
      or_internal
        (ask db Query.get_problems_by_filters (inr (sql_get_problems_by_ids ids db.tables)))
  ok (visible_problems c rows)

-- The lock of a problem that is updated. A pointer of the request is never the pointer of the old
-- problem, so two locks always count as different.
unfoldable pub validate_lock_change : Caller → Db → Problem → Option ℕ → Result (Unit {0})
validate_lock_change c db old none =
    reject (is_some old.lock_id && is_some old.lock_timeout) invalid_request
validate_lock_change c db old (some id) = do
  new_lock ← get_lock_by_id c db id
  reject (if is_some old.lock_id then is_some old.lock_timeout else is_timer new_lock.lock_type)
      invalid_request

module _ (accepts : Problem → Bool) where
  unfoldable pub validate_problem_update : Caller → Db → Problem → Problem → Result (Unit {0})
  validate_problem_update c db old new = do
    require (accepts new) invalid_request
    validate_lock_change c db old new.lock_id

  abbrev pub problem_params : Problem → Claims → UpdateProblemParams
  problem_params new who = record {
    id = new.id;
    title = new.title;
    difficulty = new.difficulty;
    evaluator = new.evaluator;
    lock_id = new.lock_id;
    last_updated_by = who.user_id;
  }

  -- The creator that is checked is the one that the request names.
  unfoldable pub update_problem : Caller → Bool → Db → Problem → Result (ProblemRow × Tables)
  update_problem c is_internal db new = do
    old ← get_problem_by_id c is_internal db new.id
    who ← get_claims_from_context c
    authorize_creator_access c new.created_by
    validate_problem_update c db old new
    handled (ask db Query.update_problem (sql_update_problem (problem_params new who) db.tables))
