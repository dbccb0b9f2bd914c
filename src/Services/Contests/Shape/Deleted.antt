-- ===== src/Services/Contests/Shape/Deleted.antt =====
-- Deleting a contest keeps the shape of the contests.
use flux_backend.Common.{
  ℕ, false, not, none, some, List, [], ◌∷◌, ◌≡◌, ◌≢◌, refl, sym, ◌∙◌, ap, subst, arith, Bool-cases,
  inl, inr, any, ◌==◌, ℕ_eq, is_some, delete_func, eq_sound, eq_refl, any-keep_if_none,
}
use flux_backend.Errors.FluxError.{invalid_request}
use flux_backend.Services.Result.{ok, bind-ok, then-ok, reject, inr-injective}
use flux_backend.Services.Context.{Caller}
use flux_backend.Services.Tables.{Db, Tables, Query, ContestRow, get_new_transaction, commit}
use flux_backend.Services.Tables.ContestQueries.{
  contest_by_id, sql_un_register_contest_users, sql_delete_problems_by_contest_id,
  sql_delete_contest_by_id,
}
use flux_backend.Services.Tables.LockQueries.{lock_by_id}
use flux_backend.Services.Contests.{get_contest_by_id, authorize_contest_update}
use flux_backend.Services.Contests.Edit.{run, or_roll_back, delete_contest}
use flux_backend.Services.Contests.Frames.{commit-keeps, begin-keeps, run-rows, or_roll_back-rows}
use flux_backend.Services.Contests.Submit.Allowed.{true_not_false}
use flux_backend.Services.Contests.Shape.{Moves, has_users}
use flux_backend.Services.Contests.Shape.Kept.{un_register-left}

some_not_nothing : {row : ContestRow} → some row ≡ none → ⊥
some_not_nothing h = cc

contest_by_id-delete_self :
    (id : ℕ) (cs : List ContestRow) → contest_by_id id (delete_func cs (λ k. k.id == id)) ≡ none
unfolding contest_by_id
contest_by_id-delete_self id [] = refl
contest_by_id-delete_self id (k ∷ ks) = ground (arith, contest_by_id-delete_self id ks)

contest_by_id-delete_other :
    (id n : ℕ) (cs : List ContestRow)
    → n ≢ id
    → contest_by_id n (delete_func cs (λ k. k.id == id)) ≡ contest_by_id n cs
unfolding contest_by_id
contest_by_id-delete_other id n [] ne = refl
contest_by_id-delete_other id n (k ∷ ks) ne = ground (arith, contest_by_id-delete_other id n ks ne)

-- A deletion leaves no contest that was not there.
contest_by_id-delete :
    (id n : ℕ) (cs : List ContestRow) (row : ContestRow)
    → contest_by_id n (delete_func cs (λ k. k.id == id)) ≡ some row
    → contest_by_id n cs ≡ some row
contest_by_id-delete id n cs row h = elim (Bool-cases (n == id)) [
  | inl same ↦ absurd (
      some_not_nothing (
        sym h
        ∙ subst (λ i. contest_by_id i (delete_func cs (λ k. k.id == id)) ≡ none)
            (sym (eq_sound n id same)) (contest_by_id-delete_self id cs)))
  | inr differs ↦
      sym (
        contest_by_id-delete_other id n cs
          (λ same. true_not_false (sym (eq_refl id) ∙ ap (λ i. i == id) (sym same) ∙ differs)))
      ∙ h
]

-- Tables that have lost contests and users, but no locks.
record Shrunk (t₀ t : Tables) : Type 0 where
  locks : t.locks ≡ t₀.locks
  contests :
      (n : ℕ) (row : ContestRow)
      → contest_by_id n t.contests ≡ some row
      → contest_by_id n t₀.contests ≡ some row
  users : (n : ℕ) → has_users t₀ n ≡ false → has_users t n ≡ false

Shrunk-Moves : (t₀ t : Tables) → Shrunk t₀ t → Moves t₀ t
Shrunk-Moves t₀ t f = record {
  timers = λ l timed k. subst (λ rows. lock_by_id l.id rows ≡ some l) (sym f.locks) k;
  contests = f.contests;
  users = λ n r h published no_users. f.users n no_users;
}

un_register-Shrunk :
    (t₀ : Tables) (id : ℕ) (t : Tables) (a : Unit {0}) (u : Tables)
    → sql_un_register_contest_users id t ≡ inr (a, u)
    → Shrunk t₀ t
    → Shrunk t₀ u
unfolding sql_un_register_contest_users
un_register-Shrunk t₀ id t a u h f = record {
  locks = ground (arith, f.locks);
  contests = λ n row found.
      f.contests n row
        (subst (λ x. contest_by_id n x.1.contests ≡ some row) (sym (inr-injective h)) found);
  users = λ n none_before.
      subst (λ rows. any (λ r. r.contest_id == n) rows ≡ false) (un_register-left id t a u h)
        (any-keep_if_none (λ r. r.contest_id == n) (λ r. not (r.contest_id == id))
          t.registered_users (f.users n none_before));
}

delete_problems-Shrunk :
    (t₀ : Tables) (id : ℕ) (t : Tables) (a : Unit {0}) (u : Tables)
    → sql_delete_problems_by_contest_id id t ≡ inr (a, u)
    → Shrunk t₀ t
    → Shrunk t₀ u
unfolding sql_delete_problems_by_contest_id
delete_problems-Shrunk t₀ id t a u h f = record {
  locks = ground (arith, f.locks);
  contests = λ n row found.
      f.contests n row
        (subst (λ x. contest_by_id n x.1.contests ≡ some row) (sym (inr-injective h)) found);
  users = λ n none_before.
      subst (λ x. has_users x.1 n ≡ false) (inr-injective h) (f.users n none_before);
}

delete_contest-left :
    (id : ℕ) (t : Tables) (a : Unit {0}) (u : Tables)
    → sql_delete_contest_by_id id t ≡ inr (a, u)
    → (u.contests ≡ delete_func t.contests (λ k. k.id == id))
      × (u.locks ≡ t.locks)
      × (u.registered_users ≡ t.registered_users)
unfolding sql_delete_contest_by_id
delete_contest-left id t a u h = (ground arith, ground arith, ground arith)

delete_contest-Shrunk :
    (t₀ : Tables) (id : ℕ) (t : Tables) (a : Unit {0}) (u : Tables)
    → sql_delete_contest_by_id id t ≡ inr (a, u)
    → Shrunk t₀ t
    → Shrunk t₀ u
delete_contest-Shrunk t₀ id t a u h f =
    let left = delete_contest-left id t a u h in
    record {
      locks = left.1 ∙ f.locks;
      contests = λ n row found. f.contests n row (
          contest_by_id-delete id n t.contests row
            (subst (λ rows. contest_by_id n rows ≡ some row) left.0 found));
      users = λ n none_before.
          subst (λ rows. any (λ r. r.contest_id == n) rows ≡ false) (sym left.2)
            (f.users n none_before);
    }

-- Deleting a contest drops contests and users and keeps the locks.
pub delete_contest-Moves :
    (c : Caller) (db : Db) (id : ℕ) {a : Unit {0} × Tables}
    → delete_contest c db id ≡ ok a
    → Moves db.tables a.1
unfolding delete_contest
delete_contest-Moves c db id {a = a} h =
    let P : Tables → Type 0 = Shrunk db.tables in
    let previous = bind-ok (get_contest_by_id db id) _ h in
    let private = then-ok (reject (is_some previous.0.lock_id) invalid_request) _ previous.2 in
    let allowed = then-ok (authorize_contest_update c previous.0) _ private.2 in
    let tx = bind-ok (get_new_transaction db) _ allowed.2 in
    let sql = sql_un_register_contest_users id in
    let ran = run db Query.un_register_contest_users tx.0 sql in
    let cleared = bind-ok (or_roll_back ran) _ tx.2 in
    let emptied =
      run db Query.delete_problems_by_contest_id cleared.0.1
        (sql_delete_problems_by_contest_id id) in
    let deleted = run db Query.delete_contest_by_id emptied.1 (sql_delete_contest_by_id id) in
    let gone = bind-ok (or_roll_back deleted) _ cleared.2 in
    let done = bind-ok (commit db gone.0.1) _ gone.2 in
    let begun : P tx.0.rows = begin-keeps P db tx.0 tx.1 (record {
      locks = refl;
      contests = λ n row found. found;
      users = λ n none_before. none_before;
    }) in
    let no_users : P cleared.0.1.rows = or_roll_back-rows P ran cleared.0 cleared.1 (
      run-rows P db Query.un_register_contest_users tx.0 sql (un_register-Shrunk db.tables id)
        begun) in
    let no_problems : P emptied.1.rows =
      run-rows P db Query.delete_problems_by_contest_id cleared.0.1
        (sql_delete_problems_by_contest_id id) (delete_problems-Shrunk db.tables id) no_users in
    let no_contest : P gone.0.1.rows = or_roll_back-rows P deleted gone.0 gone.1 (
      run-rows P db Query.delete_contest_by_id emptied.1 (sql_delete_contest_by_id id)
        (delete_contest-Shrunk db.tables id) no_problems) in
    Shrunk-Moves db.tables a.1 (commit-keeps P db gone.0.1 done.0 _ _ done.1 done.2 no_contest)
