-- ===== src/Services/Tables/ContestQueries.antt =====
-- internal/database/contests.sql.go, and the query of submissions.sql.go that looks at contests.
use flux_backend.Common.{
  ℕ, Bool, true, ◌||◌, ◌&&◌, not, Option, none, some, List, [], ◌∷◌, Text, text, Text_eq, ℕ_eq,
  ◌==◌, ◌≡◌, refl, inl, inr, any, find?, map, keep_if, if◌then◌else◌, delete_func, is_some, max,
  ltb,
}
use flux_backend.Errors.DbError.{no_rows}
use flux_backend.Services.Result.{Answer}
use flux_backend.Services.Tables.{
  LockRow, Tables, ContestRow, ContestProblemRow, RegisteredRow, unique_violation,
  foreign_violation,
}
use flux_backend.Services.Tables.LockQueries.{refers, lock_by_id}

-- An absent lock passes the foreign key.
abbrev pub lock_exists : Option ℕ → Tables → Bool
lock_exists none t = true
lock_exists (some l) t = any (λ r. r.id == l) t.locks

pub record CreateContestParams : Type 0 where
  pub title : Text
  pub created_by : ℕ
  pub start_time : Option ℕ
  pub end_time : ℕ
  pub is_published : Bool
  pub lock_id : Option ℕ

abbrev pub contest_row : ℕ → CreateContestParams → ContestRow
contest_row new_id p = record {
  id = new_id;
  title = p.title;
  created_by = p.created_by;
  start_time = p.start_time;
  end_time = p.end_time;
  is_published = p.is_published;
  lock_id = p.lock_id;
}

unfoldable pub sql_create_contest : ℕ → CreateContestParams → Tables → Answer (ContestRow × Tables)
sql_create_contest new_id p t =
    if not (any (λ u. u.id == p.created_by) t.users)
    then inl (foreign_violation (text "contests_created_by_fkey"))
    else if not (lock_exists p.lock_id t)
    then inl (foreign_violation (text "contests_lock_id_fkey"))
    else inr (contest_row new_id p, record t { contests = contest_row new_id p ∷ t.contests })

unfoldable pub contest_by_id : ℕ → List ContestRow → Option ContestRow
contest_by_id id rows = find? (λ c. c.id == id) rows

-- Whether a row of another table still refers to the contest.
unfoldable pub contest_in_use : ℕ → Tables → Bool
contest_in_use id t =
    any (λ p. p.contest_id == id) t.contest_problems
    || any (λ r. r.contest_id == id) t.registered_users
    || any (λ s. refers s.contest_id id) t.submissions
    || any (λ c. c == id) t.tournament_contests

unfoldable pub sql_delete_contest_by_id : ℕ → Tables → Answer (Unit {0} × Tables)
unfolding contest_in_use
sql_delete_contest_by_id id t =
    if contest_in_use id t
    then inl (foreign_violation (text "contests_id_fkey"))
    else inr (tt, record t { contests = delete_func t.contests (λ c. c.id == id) })

unfoldable pub sql_delete_problems_by_contest_id : ℕ → Tables → Answer (Unit {0} × Tables)
sql_delete_problems_by_contest_id id t =
    inr
      (tt, record t { contest_problems = delete_func t.contest_problems (λ p. p.contest_id == id) })

-- The query of UnsetContestProblems is the same DELETE.
unfoldable pub sql_unset_contest_problems : ℕ → Tables → Answer (Unit {0} × Tables)
sql_unset_contest_problems id t =
    inr
      (tt, record t { contest_problems = delete_func t.contest_problems (λ p. p.contest_id == id) })

unfoldable pub sql_un_register_contest_users : ℕ → Tables → Answer (Unit {0} × Tables)
sql_un_register_contest_users id t =
    inr
      (tt, record t { registered_users = delete_func t.registered_users (λ r. r.contest_id == id) })

-- A contest with the columns of its lock.
pub record ContestWithLock : Type 0 where
  pub contest : ContestRow
  pub lock_timeout : Option ℕ
  pub access : Option Text

abbrev pub lock_of : Option ℕ → Tables → Option LockRow
lock_of none t = none
lock_of (some l) t = lock_by_id l t.locks

abbrev pub timeout_of : Option LockRow → Option ℕ
timeout_of none = none
timeout_of (some l) = l.timeout

abbrev pub access_of : Option LockRow → Option Text
access_of none = none
access_of (some l) = some l.access

-- The LEFT JOIN.
abbrev pub with_lock : Tables → ContestRow → ContestWithLock
with_lock t c = record {
  contest = c;
  lock_timeout = timeout_of (lock_of c.lock_id t);
  access = access_of (lock_of c.lock_id t);
}

abbrev pub joined : Tables → Option ContestRow → Answer ContestWithLock
joined t none = inl no_rows
joined t (some c) = inr (with_lock t c)

unfoldable pub sql_get_contest_by_id : ℕ → Tables → Answer ContestWithLock
sql_get_contest_by_id id t = joined t (contest_by_id id t.contests)

pub joined-inr :
    (t : Tables) (o : Option ContestRow) (k : ContestWithLock)
    → joined t o ≡ inr k
    → (c : ContestRow) × (o ≡ some c) × (k ≡ with_lock t c)
joined-inr t none k h = absurd cc
joined-inr t (some c) k h = (c, refl, cc)

unfoldable pub sql_get_contest_problems_by_contest_id : ℕ → Tables → List ContestProblemRow
sql_get_contest_problems_by_contest_id id t = keep_if (λ p. p.contest_id == id) t.contest_problems

unfoldable pub sql_get_contest_users : ℕ → Tables → List ℕ
sql_get_contest_users id t =
    map (λ r. r.user_id) (keep_if (λ r. r.contest_id == id) t.registered_users)

abbrev pub same_problem : ContestProblemRow → ContestProblemRow → Bool
same_problem p q = p.contest_id == q.contest_id && p.problem_id == q.problem_id

unfoldable pub sql_add_problem_to_contest :
    ContestProblemRow → Tables → Answer (ContestProblemRow × Tables)
sql_add_problem_to_contest row t =
    if any (λ p. same_problem p row) t.contest_problems
    then inl (unique_violation (text "contest_problems_pkey"))
    else if not (any (λ c. c.id == row.contest_id) t.contests)
    then inl (foreign_violation (text "contest_problems_contest_id_fkey"))
    else if not (any (λ p. p.id == row.problem_id) t.problems)
    then inl (foreign_violation (text "contest_problems_problem_id_fkey"))
    else inr (row, record t { contest_problems = row ∷ t.contest_problems })

abbrev pub same_registration : RegisteredRow → RegisteredRow → Bool
same_registration p q = p.user_id == q.user_id && p.contest_id == q.contest_id

unfoldable pub sql_register_user_to_contest :
    RegisteredRow → Tables → Answer (RegisteredRow × Tables)
sql_register_user_to_contest row t =
    if any (λ r. same_registration r row) t.registered_users
    then inl (unique_violation (text "contest_registered_users_pkey"))
    else if not (any (λ u. u.id == row.user_id) t.users)
    then inl (foreign_violation (text "contest_registered_users_user_id_fkey"))
    else if not (any (λ c. c.id == row.contest_id) t.contests)
    then inl (foreign_violation (text "contest_registered_users_contest_id_fkey"))
    else inr (row, record t { registered_users = row ∷ t.registered_users })

pub record UpdateContestParams : Type 0 where
  pub title : Text
  pub start_time : Option ℕ
  pub end_time : ℕ
  pub id : ℕ

abbrev pub with_fields : UpdateContestParams → ContestRow → ContestRow
with_fields p c =
    if c.id == p.id
    then record c { title = p.title; start_time = p.start_time; end_time = p.end_time }
    else c

abbrev pub update_contest_row :
    UpdateContestParams → Tables → Option ContestRow → Answer (ContestRow × Tables)
update_contest_row p t none = inl no_rows
update_contest_row p t (some c) =
    inr (with_fields p c, record t { contests = map (with_fields p) t.contests })

unfoldable pub sql_update_contest : UpdateContestParams → Tables → Answer (ContestRow × Tables)
sql_update_contest p t = update_contest_row p t (contest_by_id p.id t.contests)

pub update_contest_row-inr :
    (p : UpdateContestParams) (t : Tables) (o : Option ContestRow) {a : ContestRow × Tables}
    → update_contest_row p t o ≡ inr a
    → (row : ContestRow) × (o ≡ some row)
update_contest_row-inr p t none h = absurd cc
update_contest_row-inr p t (some c) h = (c, refl)

-- Whether a contest has a lock and the problem, which itself has a row.
abbrev pub locked_with : Tables → ℕ → ContestRow → Bool
locked_with t problem c =
    is_some c.lock_id
    && any (λ p. p.id == problem) t.problems
    && any (λ r. r.contest_id == c.id && r.problem_id == problem) t.contest_problems

abbrev pub later_end : ℕ → Option ℕ → Option ℕ
later_end e none = some e
later_end e (some f) = some (max e f)

unfoldable pub latest_end : List ContestRow → Option ℕ
latest_end [] = none
latest_end (c ∷ cs) = later_end c.end_time (latest_end cs)

abbrev pub is_over : Option ℕ → ℕ → Bool
is_over none clock = true
is_over (some e) clock = ltb e clock

unfoldable pub sql_can_submit_problem_in_practice : ℕ → ℕ → Tables → Bool
sql_can_submit_problem_in_practice clock problem t =
    is_over (latest_end (keep_if (locked_with t problem) t.contests)) clock
