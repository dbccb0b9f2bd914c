-- ===== src/Services/Tables/ProblemQueries.antt =====
-- internal/database/problems.sql.go.
use flux_backend.Common.{
  ℕ, ◌&&◌, not, Option, none, some, List, [], ◌∷◌, Text, text, Text_eq, ℕ_eq, ◌==◌, ◌≡◌, refl, inl,
  inr, any, find?, map, keep_if, if◌then◌else◌, contains,
}
use flux_backend.Errors.DbError.{no_rows}
use flux_backend.Services.Result.{Answer}
use flux_backend.Services.Tables.{Tables, ProblemRow, foreign_violation}
use flux_backend.Services.Tables.ContestQueries.{lock_of, timeout_of, access_of, lock_exists}

pub record ProblemWithLock : Type 0 where
  pub problem : ProblemRow
  pub timeout : Option ℕ
  pub access : Option Text

abbrev pub problem_with_lock : Tables → ProblemRow → ProblemWithLock
problem_with_lock t p = record {
  problem = p;
  timeout = timeout_of (lock_of p.lock_id t);
  access = access_of (lock_of p.lock_id t);
}

unfoldable pub problem_by_id : ℕ → List ProblemRow → Option ProblemRow
problem_by_id id rows = find? (λ p. p.id == id) rows

abbrev pub located : Tables → Option ProblemRow → Answer ProblemWithLock
located t none = inl no_rows
located t (some p) = inr (problem_with_lock t p)

unfoldable pub sql_get_problem_by_id : ℕ → Tables → Answer ProblemWithLock
sql_get_problem_by_id id t = located t (problem_by_id id t.problems)

pub located-inr :
    (t : Tables) (o : Option ProblemRow) {k : ProblemWithLock}
    → located t o ≡ inr k
    → (p : ProblemRow) × (o ≡ some p) × (k ≡ problem_with_lock t p)
located-inr t none h = absurd cc
located-inr t (some p) h = (p, refl, cc)

-- The query as GetProblemsByFilters is called by the contests: by ids, with a limit of as many rows
-- as there are ids and no offset. Ids are unique, so the limit cuts nothing off; an empty array
-- filters nothing.
unfoldable pub sql_get_problems_by_ids : List ℕ → Tables → List ProblemWithLock
sql_get_problems_by_ids [] t = []
sql_get_problems_by_ids (id ∷ ids) t =
    map (problem_with_lock t) (keep_if (λ p. p.has_data && contains (id ∷ ids) p.id) t.problems)

pub record UpdateProblemParams : Type 0 where
  pub id : ℕ
  pub title : Text
  pub difficulty : ℕ
  pub evaluator : Text
  pub lock_id : Option ℕ
  pub last_updated_by : ℕ

abbrev pub with_columns : UpdateProblemParams → ProblemRow → ProblemRow
with_columns u p =
    if p.id == u.id
    then record p {
      title = u.title;
      difficulty = u.difficulty;
      evaluator = u.evaluator;
      lock_id = u.lock_id;
      last_updated_by = u.last_updated_by;
    }
    else p

abbrev pub update_found :
    UpdateProblemParams → Tables → Option ProblemRow → Answer (ProblemRow × Tables)
update_found u t none = inl no_rows
update_found u t (some p) =
    if not (any (λ x. x.id == u.last_updated_by) t.users)
    then inl (foreign_violation (text "problems_last_updated_by_fkey"))
    else if not (lock_exists u.lock_id t)
    then inl (foreign_violation (text "problems_lock_id_fkey"))
    else inr (with_columns u p, record t { problems = map (with_columns u) t.problems })

unfoldable pub sql_update_problem : UpdateProblemParams → Tables → Answer (ProblemRow × Tables)
sql_update_problem u t = update_found u t (problem_by_id u.id t.problems)
