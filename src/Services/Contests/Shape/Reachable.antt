-- ===== src/Services/Contests/Shape/Reachable.antt =====
-- Every sequence of operations on contests and locks keeps the contests in shape.
use flux_backend.Common.{
  ℕ, Bool, false, some, List, ◌≡◌, ◌≢◌, refl, sym, subst, arith, inr, any, ◌==◌, ℕ_eq, is_some,
  Text,
}
use flux_backend.Errors.FluxError.{invalid_request}
use flux_backend.Services.Result.{Result, ok, err, bind-ok, then-ok, handled, reject}
use flux_backend.Services.Context.{Caller}
use flux_backend.Services.Tables.{Db, Tables, Query, ContestRow, LockRow, after, ask, ask-inr}
use flux_backend.Services.Tables.LockQueries.{
  CreateLockParams, UpdateLockParams, sql_create_lock, sql_update_lock_details,
  sql_delete_lock_by_id,
}
use flux_backend.Services.Tables.ContestQueries.{
  UpdateContestParams, sql_update_contest, update_contest_row-inr, contest_by_id,
}
use flux_backend.Services.Locks.{FluxLock, create_lock, update_lock, delete_lock, update_params}
use flux_backend.Services.Locks.Life.{
  LockStep, creates, updates, deletes, step-keeps, create_lock-ran, update_lock-ran,
  delete_lock-ran,
}
use flux_backend.Services.Contests.{
  Contest, ContestProblem, get_contest_by_id, authorize_contest_update, validate_private_contest,
}
use flux_backend.Services.Contests.Edit.{
  CreateContestRequest, create_contest, update_contest, delete_contest, set_problems_in_contest,
  register_users_to_contest,
}
use flux_backend.Services.Contests.Shape.{WellFormed, Moves, Moves-WellFormed, frame-Moves}
use flux_backend.Services.Contests.Shape.Kept.{
  set_problems_in_contest-Frame, register_users_to_contest-Moves,
}
use flux_backend.Services.Contests.Shape.Deleted.{delete_contest-Moves}
use flux_backend.Services.Contests.Shape.Created.{IsFresh, create_contest-WellFormed}

-- Tables with the same contests and users.
record SameContests (t u : Tables) : Type 0 where
  contests : u.contests ≡ t.contests
  users : u.registered_users ≡ t.registered_users

sql_create_lock-SameContests :
    (id clock : ℕ) (p : CreateLockParams) (t : Tables) {a : LockRow × Tables}
    → sql_create_lock id clock p t ≡ inr a
    → SameContests t a.1
unfolding sql_create_lock
sql_create_lock-SameContests id clock p t h = record {
  contests = ground arith;
  users = ground arith;
}

sql_delete_lock-SameContests :
    (id : ℕ) (t : Tables) {a : Unit {0} × Tables}
    → sql_delete_lock_by_id id t ≡ inr a
    → SameContests t a.1
unfolding sql_delete_lock_by_id
sql_delete_lock-SameContests id t h = record { contests = ground arith; users = ground arith }

sql_update_lock-SameContests :
    (p : UpdateLockParams) (t : Tables) {a : LockRow × Tables}
    → sql_update_lock_details p t ≡ inr a
    → SameContests t a.1
unfolding sql_update_lock_details
sql_update_lock-SameContests p t h = record { contests = ground arith; users = ground arith }

module _ (accepts : FluxLock → Bool) where
  create_lock-SameContests :
      (c : Caller) (db : Db) (new : FluxLock) (r : Result (FluxLock × Tables))
      → create_lock accepts c db new ≡ r
      → SameContests db.tables (after db r)
  create_lock-SameContests c db new (err e) h = record { contests = refl; users = refl }
  create_lock-SameContests c db new (ok a) h =
      let ran = create_lock-ran accepts c db new h in
      subst (SameContests db.tables) ran.3
        (sql_create_lock-SameContests db.new_id db.clock ran.0 db.tables ran.2)

  update_lock-SameContests :
      (c : Caller) (db : Db) (new : FluxLock) (r : Result (FluxLock × Tables))
      → update_lock accepts c db new ≡ r
      → SameContests db.tables (after db r)
  update_lock-SameContests c db new (err e) h = record { contests = refl; users = refl }
  update_lock-SameContests c db new (ok a) h =
      let ran = update_lock-ran accepts c db new h in
      subst (SameContests db.tables) ran.2
        (sql_update_lock-SameContests (update_params accepts new) db.tables ran.1)

  delete_lock-SameContests :
      (c : Caller) (db : Db) (id : ℕ) (r : Result (Unit {0} × Tables))
      → delete_lock c db id ≡ r
      → SameContests db.tables (after db r)
  delete_lock-SameContests c db id (err e) h = record { contests = refl; users = refl }
  delete_lock-SameContests c db id (ok a) h =
      sql_delete_lock-SameContests id db.tables (delete_lock-ran c db id h).0

  lock_step-SameContests : {t u : Tables} → LockStep accepts t u → SameContests t u
  lock_step-SameContests (creates c db new fresh) = create_lock-SameContests c db new _ refl
  lock_step-SameContests (updates c db new) = update_lock-SameContests c db new _ refl
  lock_step-SameContests (deletes c db id) = delete_lock-SameContests c db id _ refl

  -- Operations on locks keep the timers that contests wait for, and the contests.
  lock_step-Moves : {t u : Tables} → LockStep accepts t u → Moves t u
  lock_step-Moves s =
      let same = lock_step-SameContests s in
      record {
        timers = λ l timed kept. step-keeps l timed accepts s kept;
        contests = λ id row h. subst (λ rows. contest_by_id id rows ≡ some row) same.contests h;
        users = λ id row found published no_users.
            subst (λ rows. any (λ r. r.contest_id == id) rows ≡ false) (sym same.users) no_users;
      }

sql_update_contest-found :
    (p : UpdateContestParams) (t : Tables) {a : ContestRow × Tables}
    → sql_update_contest p t ≡ inr a
    → (row : ContestRow) × (contest_by_id p.id t.contests ≡ some row)
unfolding sql_update_contest
sql_update_contest-found p t h = update_contest_row-inr p t (contest_by_id p.id t.contests) h

-- UpdateContest cannot succeed: it updates the contest with the zero id, and there is none.
pub update_contest_fails :
    (accepts : Contest → Bool) (accepts_problem : ContestProblem → Bool) (c : Caller) (db : Db)
    (contest : Contest) (a : Contest × Tables)
    → WellFormed db.tables
    → update_contest accepts accepts_problem c db contest ≢ ok a
unfolding update_contest
update_contest_fails accepts accepts_problem c db contest a good h =
    let previous = bind-ok (get_contest_by_id db contest.id) _ h in
    let private = then-ok (reject (is_some previous.0.lock_id) invalid_request) _ previous.2 in
    let allowed = then-ok (authorize_contest_update c contest) _ private.2 in
    let valid = then-ok (validate_private_contest accepts c contest) _ allowed.2 in
    let sql =
      sql_update_contest
        (record {
          title = contest.title;
          start_time = contest.start_time;
          end_time = contest.end_time;
          id = 0;
        })
        db.tables in
    let made = bind-ok (handled (ask db Query.update_contest sql)) _ valid.2 in
    let found = sql_update_contest-found _ db.tables (ask-inr db Query.update_contest sql made.1) in
    absurd ((good 0 found.0 found.1).not_zero refl)

-- One operation on the locks or the contests. An id that the database generates is new.
pub data ContestStep (accepts_lock : FluxLock → Bool) (accepts : Contest → Bool)
    (accepts_problem : ContestProblem → Bool) : Tables → Tables → Type 0 where
  on_lock :
      {t u : Tables}
      → LockStep accepts_lock t u
      → ContestStep accepts_lock accepts accepts_problem t u
  creates_contest :
      (c : Caller) (db : Db) (r : CreateContestRequest)
      → IsFresh db
      → ContestStep accepts_lock accepts accepts_problem db.tables
          (after db (create_contest accepts accepts_problem c db r))
  updates_contest :
      (c : Caller) (db : Db) (k : Contest)
      → ContestStep accepts_lock accepts accepts_problem db.tables
          (after db (update_contest accepts accepts_problem c db k))
  sets_problems :
      (c : Caller) (db : Db) (id : ℕ) (ps : List ContestProblem)
      → ContestStep accepts_lock accepts accepts_problem db.tables
          (after db (set_problems_in_contest accepts accepts_problem c db id ps))
  registers_users :
      (c : Caller) (db : Db) (id : ℕ) (names : List Text)
      → ContestStep accepts_lock accepts accepts_problem db.tables
          (after db (register_users_to_contest c db id names))
  deletes_contest :
      (c : Caller) (db : Db) (id : ℕ)
      → ContestStep accepts_lock accepts accepts_problem db.tables
          (after db (delete_contest c db id))

pub data ContestSteps (accepts_lock : FluxLock → Bool) (accepts : Contest → Bool)
    (accepts_problem : ContestProblem → Bool) : Tables → Tables → Type 0 where
  stay : {t : Tables} → ContestSteps accepts_lock accepts accepts_problem t t
  step :
      {t u v : Tables}
      → ContestStep accepts_lock accepts accepts_problem t u
      → ContestSteps accepts_lock accepts accepts_problem u v
      → ContestSteps accepts_lock accepts accepts_problem t v

-- What holds after every result holds after the operation.
after-WellFormed :
    {A : Type 0} (db : Db) (r : Result (A × Tables))
    → WellFormed db.tables
    → ((a : A × Tables) → r ≡ ok a → WellFormed a.1)
    → WellFormed (after db r)
after-WellFormed db (ok a) good f = f a refl
after-WellFormed db (err e) good f = good

module _ (accepts_lock : FluxLock → Bool) (accepts : Contest → Bool)
    (accepts_problem : ContestProblem → Bool) where
  step-WellFormed :
      {t u : Tables}
      → ContestStep accepts_lock accepts accepts_problem t u
      → WellFormed t
      → WellFormed u
  step-WellFormed (on_lock {t = t} {u = u} s) good =
      Moves-WellFormed t u (lock_step-Moves accepts_lock s) good
  step-WellFormed (creates_contest c db r fresh) good =
      after-WellFormed db (create_contest accepts accepts_problem c db r) good
        (λ a h. create_contest-WellFormed accepts accepts_problem c db r fresh good h)
  step-WellFormed (updates_contest c db k) good =
      after-WellFormed db (update_contest accepts accepts_problem c db k) good
        (λ a h. absurd (update_contest_fails accepts accepts_problem c db k a good h))
  step-WellFormed (sets_problems c db id ps) good =
      after-WellFormed db (set_problems_in_contest accepts accepts_problem c db id ps) good (λ a h.
        Moves-WellFormed db.tables a.1
          (frame-Moves db.tables a.1
            (set_problems_in_contest-Frame accepts accepts_problem c db id ps h))
          good)
  step-WellFormed (registers_users c db id names) good =
      after-WellFormed db (register_users_to_contest c db id names) good (λ a h.
        Moves-WellFormed db.tables a.1 (register_users_to_contest-Moves c db id names h) good)
  step-WellFormed (deletes_contest c db id) good =
      after-WellFormed db (delete_contest c db id) good
        (λ a h. Moves-WellFormed db.tables a.1 (delete_contest-Moves c db id h) good)

  -- Through every sequence of operations on contests and locks, whoever makes them and whatever they
  -- return, every contest is private, with a start before its end and not published, or public,
  -- with a timer lock that runs out at least five minutes before its end, and a published contest
  -- has no registered users. The ids that the database generates are new and not zero.
  pub steps-WellFormed :
      {t u : Tables}
      → ContestSteps accepts_lock accepts accepts_problem t u
      → WellFormed t
      → WellFormed u
  steps-WellFormed stay good = good
  steps-WellFormed (step s rest) good = steps-WellFormed rest (step-WellFormed s good)
