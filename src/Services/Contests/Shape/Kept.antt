-- ===== src/Services/Contests/Shape/Kept.antt =====
-- Setting problems and registering users keep the shape of the contests.
use flux_backend.Common.{
  ℕ, Bool, true, false, not, some, List, Text, ◌≡◌, ◌≢◌, refl, sym, ◌∙◌, ap, subst, arith, inl, inr,
  ◌⊎◌, any, ◌==◌, ℕ_eq, delete_func, any-keep_if_none,
}
use flux_backend.Errors.FluxError.{internal, invalid_request}
use flux_backend.Services.Result.{
  ok, bind-ok, then-ok, ok-injective, present, reject, reject-ok, Answer, inr-injective,
}
use flux_backend.Services.Context.{Caller, get_claims_from_context, authorize_creator_access}
use flux_backend.Services.Tables.{
  Db, Tables, Query, ContestRow, ContestProblemRow, RegisteredRow, get_new_transaction, commit,
  unless_fault-inr, ask,
}
use flux_backend.Services.Tables.ContestQueries.{
  contest_by_id, sql_add_problem_to_contest, sql_register_user_to_contest,
  sql_unset_contest_problems, sql_un_register_contest_users, sql_get_contest_by_id, joined-inr,
  ContestWithLock,
}
use flux_backend.Services.Tables.LockQueries.{lock_by_id}
use flux_backend.Services.Contests.{
  Contest, ContestProblem, empty_contest, get_contest_by_id, authorize_contest_update,
  contest_or_empty, db_contest_to_service_contest, start_of, contest_of,
}
use flux_backend.Services.Contests.Edit.{
  run, or_roll_back, set_problems_in_contest, register_users_to_contest, unset_contest_problems,
  add_problems_to_contest, add_users_to_contest, validate_contest_problems,
}
use flux_backend.Services.Contests.Frames.{
  commit-keeps, begin-keeps, run-rows, or_roll_back-rows, add_problems_to_contest-rows,
  add_users_to_contest-rows,
}
use flux_backend.Services.Contests.Submit.Allowed.{true_not_false}
use flux_backend.Services.Contests.Shape.{Frame, Moves, has_users, unmoved}

pub add_problem-Frame :
    (t₀ : Tables) (row : ContestProblemRow) (t : Tables) (a : ContestProblemRow) (u : Tables)
    → sql_add_problem_to_contest row t ≡ inr (a, u)
    → Frame t₀ t
    → Frame t₀ u
unfolding sql_add_problem_to_contest
add_problem-Frame t₀ row t a u h f = record {
  locks = ground (arith, f.locks);
  contests = ground (arith, f.contests);
  users = ground (arith, f.users);
}

unset-Frame :
    (t₀ : Tables) (id : ℕ) (t : Tables) (a : Unit {0}) (u : Tables)
    → sql_unset_contest_problems id t ≡ inr (a, u)
    → Frame t₀ t
    → Frame t₀ u
unfolding sql_unset_contest_problems
unset-Frame t₀ id t a u h f = record {
  locks = ground (arith, f.locks);
  contests = ground (arith, f.contests);
  users = ground (arith, f.users);
}

-- Setting the problems of a contest changes nothing else.
pub set_problems_in_contest-Frame :
    (accepts : Contest → Bool) (accepts_problem : ContestProblem → Bool) (c : Caller) (db : Db)
    (id : ℕ) (problems : List ContestProblem) {a : Unit {0} × Tables}
    → set_problems_in_contest accepts accepts_problem c db id problems ≡ ok a
    → Frame db.tables a.1
unfolding set_problems_in_contest unset_contest_problems
set_problems_in_contest-Frame accepts accepts_problem c db id problems {a = a} h =
    let P : Tables → Type 0 = Frame db.tables in
    let claims = then-ok (get_claims_from_context c) _ h in
    let contest = bind-ok (get_contest_by_id db id) _ claims.2 in
    let allowed = then-ok (authorize_contest_update c contest.0) _ contest.2 in
    let valid =
      then-ok (validate_contest_problems accepts_problem c db contest.0.lock_id problems) _
        allowed.2 in
    let tx = bind-ok (get_new_transaction db) _ valid.2 in
    let cleared = run db Query.unset_contest_problems tx.0 (sql_unset_contest_problems id) in
    let unset = bind-ok (or_roll_back cleared) _ tx.2 in
    let added = bind-ok (add_problems_to_contest db unset.0.1 id problems) _ unset.2 in
    let done = bind-ok (commit db added.0) _ added.2 in
    let begun : P tx.0.rows = begin-keeps P db tx.0 tx.1 (unmoved db.tables) in
    let emptied : P unset.0.1.rows = or_roll_back-rows P cleared unset.0 unset.1 (
      run-rows P db Query.unset_contest_problems tx.0 (sql_unset_contest_problems id)
        (unset-Frame db.tables id) begun) in
    let filled : P added.0.rows =
      add_problems_to_contest-rows P db unset.0.1 id problems added.0 (add_problem-Frame db.tables)
        added.1 emptied in
    commit-keeps P db added.0 done.0 _ _ done.1 done.2 filled

-- Tables in which only the contest of the id may have gained users.
record UsersOf (t₀ : Tables) (id : ℕ) (t : Tables) : Type 0 where
  locks : t.locks ≡ t₀.locks
  contests : t.contests ≡ t₀.contests
  others : (n : ℕ) → n ≢ id → has_users t₀ n ≡ false → has_users t n ≡ false

register-UsersOf :
    (t₀ : Tables) (id user : ℕ) (t : Tables) (a : RegisteredRow) (u : Tables)
    → sql_register_user_to_contest (record { user_id = user; contest_id = id }) t ≡ inr (a, u)
    → UsersOf t₀ id t
    → UsersOf t₀ id u
unfolding sql_register_user_to_contest
register-UsersOf t₀ id user t a u h f = record {
  locks = ground (arith, f.locks);
  contests = ground (arith, f.contests);
  others = λ n ne none_before. ground (arith, f.others n ne none_before);
}

pub un_register-left :
    (id : ℕ) (t : Tables) (a : Unit {0}) (u : Tables)
    → sql_un_register_contest_users id t ≡ inr (a, u)
    → delete_func t.registered_users (λ r. r.contest_id == id) ≡ u.registered_users
unfolding sql_un_register_contest_users
un_register-left id t a u h = ap (λ x. x.1.registered_users) (inr-injective h)

un_register-UsersOf :
    (t₀ : Tables) (id : ℕ) (t : Tables) (a : Unit {0}) (u : Tables)
    → sql_un_register_contest_users id t ≡ inr (a, u)
    → UsersOf t₀ id t
    → UsersOf t₀ id u
unfolding sql_un_register_contest_users
un_register-UsersOf t₀ id t a u h f = record {
  locks = ground (arith, f.locks);
  contests = ground (arith, f.contests);
  others = λ n ne none_before.
      subst (λ rows. any (λ r. r.contest_id == n) rows ≡ false) (un_register-left id t a u h)
        (any-keep_if_none (λ r. r.contest_id == n) (λ r. not (r.contest_id == id))
          t.registered_users (f.others n ne none_before));
}

contest_or_empty-cases :
    (a : Answer ContestWithLock) (contest : Contest)
    → contest_or_empty a ≡ ok contest
    → (contest ≡ empty_contest)
      ⊎ ((k : ContestWithLock) × (a ≡ inr k) × (start : ℕ) × (contest ≡ contest_of k start))
unfolding db_contest_to_service_contest
contest_or_empty-cases (inl e) contest h = inl (sym (ok-injective h))
contest_or_empty-cases (inr k) contest h =
    let begun = bind-ok (present (start_of k k.contest.lock_id) internal) _ h in
    inr (k, refl, begun.0, sym (ok-injective begun.2))

empty_contest-refused : (c : Caller) → authorize_contest_update c empty_contest ≡ ok tt → ⊥
unfolding authorize_contest_update
empty_contest-refused c h =
    let claims = then-ok (get_claims_from_context c) _ h in
    let owner = then-ok (authorize_creator_access c 0) _ claims.2 in cc

-- The contest that an update is authorized for is in the tables.
pub authorized_contest-row :
    (c : Caller) (db : Db) (id : ℕ) (contest : Contest)
    → get_contest_by_id db id ≡ ok contest
    → authorize_contest_update c contest ≡ ok tt
    → (row : ContestRow) × (contest_by_id id db.tables.contests ≡ some row)
      × (contest.is_published ≡ row.is_published)
      × (contest.lock_id ≡ row.lock_id)
unfolding get_contest_by_id sql_get_contest_by_id
authorized_contest-row c db id contest h allowed =
    let answer = sql_get_contest_by_id id db.tables in
    elim (contest_or_empty-cases (ask db Query.get_contest_by_id answer) contest h) [
      | inl e ↦
          absurd
            (empty_contest-refused c (subst (λ k. authorize_contest_update c k ≡ ok tt) e allowed))
      | inr (k, found, start, same) ↦
          let row =
            joined-inr db.tables (contest_by_id id db.tables.contests) k
              (unless_fault-inr (db.fault Query.get_contest_by_id) answer found) in
          (
            row.0,
            row.1,
            ap (λ x. x.is_published) same ∙ ap (λ x. x.contest.is_published) row.2,
            ap (λ x. x.lock_id) same ∙ ap (λ x. x.contest.lock_id) row.2,
          )
    ]

UsersOf-Moves :
    (t₀ t : Tables) (id : ℕ) (row : ContestRow)
    → contest_by_id id t₀.contests ≡ some row
    → row.is_published ≡ false
    → UsersOf t₀ id t
    → Moves t₀ t
UsersOf-Moves t₀ t id row found unpublished f = record {
  timers = λ l timed k. subst (λ rows. lock_by_id l.id rows ≡ some l) (sym f.locks) k;
  contests = λ n r h. subst (λ rows. contest_by_id n rows ≡ some r) f.contests h;
  users = λ n r h published no_users. f.others n (other n r h published) no_users;
}
  where
    other :
        (n : ℕ) (r : ContestRow)
        → contest_by_id n t₀.contests ≡ some r
        → r.is_published ≡ true
        → n ≢ id
    other n r h published same =
        let both : some r ≡ some row = sym h ∙ ap (λ i. contest_by_id i t₀.contests) same ∙ found in
        let row_same : r ≡ row = cc in
        absurd (true_not_false (sym published ∙ ap (λ x. x.is_published) row_same ∙ unpublished))

-- Registering users gives users to one contest, which is not published, and changes nothing else.
pub register_users_to_contest-Moves :
    (c : Caller) (db : Db) (id : ℕ) (names : List Text) {a : Unit {0} × Tables}
    → register_users_to_contest c db id names ≡ ok a
    → Moves db.tables a.1
unfolding register_users_to_contest
register_users_to_contest-Moves c db id names {a = a} h =
    let P : Tables → Type 0 = UsersOf db.tables id in
    let claims = then-ok (get_claims_from_context c) _ h in
    let contest = bind-ok (get_contest_by_id db id) _ claims.2 in
    let allowed = then-ok (authorize_contest_update c contest.0) _ contest.2 in
    let closed = then-ok (reject contest.0.is_published invalid_request) _ allowed.2 in
    let tx = bind-ok (get_new_transaction db) _ closed.2 in
    let sql = sql_un_register_contest_users id in
    let ran = run db Query.un_register_contest_users tx.0 sql in
    let cleared = bind-ok (or_roll_back ran) _ tx.2 in
    let filled = bind-ok (add_users_to_contest db cleared.0.1 id names) _ cleared.2 in
    let done = bind-ok (commit db filled.0) _ filled.2 in
    let begun : P tx.0.rows =
      begin-keeps P db tx.0 tx.1
        (record { locks = refl; contests = refl; others = λ n ne before. before }) in
    let emptied : P cleared.0.1.rows = or_roll_back-rows P ran cleared.0 cleared.1 (
      run-rows P db Query.un_register_contest_users tx.0 sql (un_register-UsersOf db.tables id)
        begun) in
    let registered : P filled.0.rows =
      add_users_to_contest-rows P db cleared.0.1 id names filled.0 (register-UsersOf db.tables id)
        filled.1 emptied in
    let row = authorized_contest-row c db id contest.0 contest.1 allowed.1 in
    UsersOf-Moves db.tables a.1 id row.0 row.1
      (sym row.2 ∙ reject-ok contest.0.is_published invalid_request closed.1)
      (commit-keeps P db filled.0 done.0 _ _ done.1 done.2 registered)
