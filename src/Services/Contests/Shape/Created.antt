-- ===== src/Services/Contests/Shape/Created.antt =====
-- A contest that CreateContest makes has the shape of a contest, and the others keep theirs.
use flux_backend.Common.{
  ℕ, Bool, true, false, ◌&&◌, some, List, [], ◌∷◌, Text, ◌≡◌, ◌≢◌, refl, sym, ◌∙◌, ap, subst, arith,
  Bool-cases, inl, inr, ◌⊎◌, any, ◌==◌, ℕ_eq, ltb, length, eq_sound, eq_refl, if◌then◌else◌,
}
use flux_backend.Services.Result.{ok, bind-ok, then-ok, ok-injective, or_internal, or_internal-ok}
use flux_backend.Services.Context.{Caller, get_claims_from_context}
use flux_backend.Services.Tables.{
  Db, Tables, Tx, Query, ContestRow, ContestProblemRow, RegisteredRow, get_new_transaction, commit,
  get_new_transaction-rows, LockRow, is_timer,
}
use flux_backend.Services.Tables.LockQueries.{lock_by_id}
use flux_backend.Services.Tables.ContestQueries.{
  contest_by_id, contest_row, sql_create_contest, sql_add_problem_to_contest,
  sql_register_user_to_contest, CreateContestParams,
}
use flux_backend.Services.Locks.Life.{IsKept}
use flux_backend.Services.Contests.{Contest, ContestProblem}
use flux_backend.Services.Contests.Edit.{
  run, create_contest, create_params, validate_request, CreateContestRequest,
  add_problems_to_contest, add_users_to_contest, validate_contest_problems,
}
use flux_backend.Services.Contests.Frames.{
  commit-keeps, commit-keeps, run-inr, add_problems_to_contest-rows, add_users_to_contest-rows,
}
use flux_backend.Services.Contests.Submit.Allowed.{true_not_false}
use flux_backend.Services.Contests.Shape.Kept.{add_problem-Frame}
use flux_backend.Services.Contests.Shape.{
  unmoved, IsPrivate, IsPublic, IsGood, WellFormed, has_users, IsPublic-Moves,
}
use flux_backend.Services.Contests.Shape.Promised.{validate_request-Promised}

contest_by_id-cons :
    (row : ContestRow) (n : ℕ) (k : ContestRow) (cs : List ContestRow)
    → contest_by_id n (row ∷ cs) ≡ some k
    → ((row.id ≡ n) × (row ≡ k)) ⊎ ((row.id ≢ n) × (contest_by_id n cs ≡ some k))
unfolding contest_by_id
contest_by_id-cons row n k cs h = elim (Bool-cases (row.id == n)) [
  | inl y ↦
      let same : some row ≡ some k =
        subst (λ b. (if b then some row else contest_by_id n cs) ≡ some k) y h in
      inl (eq_sound row.id n y, cc)
  | inr f ↦ inr (
    λ same. true_not_false (sym (eq_refl n) ∙ ap (λ i. i == n) (sym same) ∙ f),
    subst (λ b. (if b then some row else contest_by_id n cs) ≡ some k) f h,
  )
]

-- Tables that have gained one contest, and users for it alone, if it is not published.
record Grown (t₀ : Tables) (row : ContestRow) (t : Tables) : Type 0 where
  locks : t.locks ≡ t₀.locks
  contests : t.contests ≡ row ∷ t₀.contests
  others : (n : ℕ) → n ≢ row.id → has_users t₀ n ≡ false → has_users t n ≡ false
  own : row.is_published ≡ true → has_users t₀ row.id ≡ false → has_users t row.id ≡ false

Grown-WellFormed :
    (t₀ t : Tables) (row : ContestRow)
    → WellFormed t₀
    → IsPrivate row ⊎ IsPublic t₀ row
    → row.id ≢ 0
    → has_users t₀ row.id ≡ false
    → Grown t₀ row t
    → WellFormed t
Grown-WellFormed t₀ t row good kind not_zero no_users g n k found =
    elim (contest_by_id-cons row n k t₀.contests
      (subst (λ cs. contest_by_id n cs ≡ some k) g.contests found)) [
        | inl (id, same) ↦ subst (λ x. IsGood t n x) same (subst (λ i. IsGood t i row) id new)
        | inr (ne, old) ↦ record {
          not_zero = (good n k old).not_zero;
          kind = IsPublic-Moves t₀ t k moved (good n k old).kind;
          closed = λ published. g.others n (λ e. ne (sym e)) ((good n k old).closed published);
        }
      ]
  where
    moved : (l : LockRow) → is_timer l.lock_type ≡ true → IsKept l t₀ → IsKept l t
    moved l timed h = subst (λ rows. lock_by_id l.id rows ≡ some l) (sym g.locks) h

    new : IsGood t row.id row
    new = record {
      not_zero = not_zero;
      kind = IsPublic-Moves t₀ t row moved kind;
      closed = λ published. g.own published no_users;
    }

add_problem-Grown :
    (t₀ : Tables) (new : ContestRow) (row : ContestProblemRow) (t : Tables) (a : ContestProblemRow)
    (u : Tables)
    → sql_add_problem_to_contest row t ≡ inr (a, u)
    → Grown t₀ new t
    → Grown t₀ new u
add_problem-Grown t₀ new row t a u h g =
    let f = add_problem-Frame t row t a u h (unmoved t) in
    record {
      locks = f.locks ∙ g.locks;
      contests = f.contests ∙ g.contests;
      others = λ n ne before.
          subst (λ rows. any (λ r. r.contest_id == n) rows ≡ false) (sym f.users)
            (g.others n ne before);
      own = λ published before.
          subst (λ rows. any (λ r. r.contest_id == new.id) rows ≡ false) (sym f.users)
            (g.own published before);
    }

register-Grown :
    (t₀ : Tables) (new : ContestRow) (user : ℕ) (t : Tables) (a : RegisteredRow) (u : Tables)
    → new.is_published ≡ false
    → sql_register_user_to_contest (record { user_id = user; contest_id = new.id }) t ≡ inr (a, u)
    → Grown t₀ new t
    → Grown t₀ new u
unfolding sql_register_user_to_contest
register-Grown t₀ new user t a u unpublished h g = record {
  locks = ground (arith, g.locks);
  contests = ground (arith, g.contests);
  others = λ n ne before. ground (arith, g.others n ne before);
  own = λ published before. absurd (true_not_false (sym published ∙ unpublished));
}

-- A published contest is given no users; the users of another one are its own.
add_users-Grown :
    (t₀ : Tables) (new : ContestRow) (db : Db) (tx done : Tx) (names : List Text)
    → (new.is_published && ltb 0 (length names)) ≡ false
    → add_users_to_contest db tx new.id names ≡ ok done
    → Grown t₀ new tx.rows
    → Grown t₀ new done.rows
unfolding add_users_to_contest
add_users-Grown t₀ new db tx done [] nobody h g =
    subst (λ z. Grown t₀ new z.rows) (ok-injective h) g
add_users-Grown t₀ new db tx done (x ∷ xs) nobody h g =
    add_users_to_contest-rows (Grown t₀ new) db tx new.id (x ∷ xs) done
      (λ user t a u. register-Grown t₀ new user t a u (ground (arith, nobody))) h g

sql_create_contest-row :
    (id : ℕ) (p : CreateContestParams) (t : Tables) (a : ContestRow) (u : Tables)
    → sql_create_contest id p t ≡ inr (a, u)
    → (a ≡ contest_row id p) × (u ≡ record t { contests = contest_row id p ∷ t.contests })
unfolding sql_create_contest
sql_create_contest-row id p t a u h = (ground arith, ground arith)

-- The rows that an id generated by the database is new to.
abbrev pub IsFresh : Db → Type 0
IsFresh db = (db.new_id ≢ 0) × (has_users db.tables db.new_id ≡ false)

-- CreateContest keeps the contests in shape.
pub create_contest-WellFormed :
    (accepts : Contest → Bool) (accepts_problem : ContestProblem → Bool) (c : Caller) (db : Db)
    (r : CreateContestRequest) {a : Contest × Tables}
    → IsFresh db
    → WellFormed db.tables
    → create_contest accepts accepts_problem c db r ≡ ok a
    → WellFormed a.1
unfolding create_contest
create_contest-WellFormed accepts accepts_problem c db r {a = a} fresh good h =
    let k = r.contest_details in
    let start = bind-ok (validate_request accepts accepts_problem c db r k.lock_id) _ h in
    let who = bind-ok (get_claims_from_context c) _ start.2 in
    let valid =
      then-ok (validate_contest_problems accepts_problem c db k.lock_id r.contest_problems) _
        who.2 in
    let tx = bind-ok (get_new_transaction db) _ valid.2 in
    let sql = sql_create_contest db.new_id (create_params k who.0) in
    let made = run db Query.create_contest tx.0 sql in
    let row = bind-ok (or_internal made.0) _ tx.2 in
    let filled = bind-ok (add_problems_to_contest db made.1 row.0.id r.contest_problems) _ row.2 in
    let users = bind-ok (add_users_to_contest db filled.0 row.0.id r.registered_users) _ filled.2 in
    let done = bind-ok (commit db users.0) _ users.2 in
    let new = contest_row db.new_id (create_params k who.0) in
    let promised =
      validate_request-Promised accepts accepts_problem c db r k.lock_id start.0 db.new_id who.0
        refl start.1 in
    let ran =
      sql_create_contest-row db.new_id (create_params k who.0) tx.0.rows row.0 made.1.rows
        (run-inr db Query.create_contest tx.0 sql row.0 (or_internal-ok made.0 row.1)) in
    let begun : made.1.rows ≡ record db.tables { contests = new ∷ db.tables.contests } =
      ran.1
      ∙ ap (λ (t : Tables). record t { contests = new ∷ t.contests })
          (get_new_transaction-rows db tx.0 tx.1) in
    let grown : Grown db.tables new made.1.rows =
      subst (Grown db.tables new) (sym begun)
        (record { locks = refl; contests = refl; others = λ n ne b. b; own = λ p b. b }) in
    let with_problems : Grown db.tables new filled.0.rows =
      add_problems_to_contest-rows (Grown db.tables new) db made.1 row.0.id r.contest_problems
        filled.0 (add_problem-Grown db.tables new) filled.1 grown in
    let id : row.0.id ≡ new.id = ap (λ x. x.id) ran.0 in
    let with_users : Grown db.tables new users.0.rows =
      add_users-Grown db.tables new db filled.0 users.0 r.registered_users promised.nobody
        (subst (λ i. add_users_to_contest db filled.0 i r.registered_users ≡ ok users.0) id users.1)
        with_problems in
    Grown-WellFormed db.tables a.1 new good promised.kind fresh.0 fresh.1
      (commit-keeps (Grown db.tables new) db users.0 done.0 _ _ done.1 done.2 with_users)
