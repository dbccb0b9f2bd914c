-- ===== src/Services/Contests/Submit/Allowed.antt =====
-- What the tables say of every submission to a contest that CanSubmit accepts.
use flux_backend.Common.{
  ℕ, Bool, true, false, ◌&&◌, Option, none, some, List, [], ◌∷◌, map, ltb, ◌≤◌, inl, inr, ◌⊎◌,
  if◌then◌else◌, is_some, ℕ_eq, ◌==◌, any, find?, keep_if, contains, ◌≡◌, refl, sym, ◌∙◌, ap, subst,
  arith, Bool-cases, Option-cases, any-keep_if, any-map, any-elim, leb, length, find?-passes,
  eq_sound,
}
use flux_backend.Common.Int.{ℤ}
use flux_backend.Errors.FluxError.{internal, invalid_request, unauthorized}
use flux_backend.Services.Result.{
  ok, require, reject, handled, present, bind-ok, then-ok, present-ok, reject-ok, require-ok,
  ok-injective, inr-injective, Answer, or_internal-ok,
}
use flux_backend.Services.Context.{Caller, Claims, get_claims_from_context}
use flux_backend.Services.Tables.{
  Db, Tables, ask, Query, UserRow, ContestRow, ContestProblemRow, ask-inr, unless_fault-inr,
}
use flux_backend.Services.Tables.ContestQueries.{
  contest_by_id, with_lock, joined-inr, sql_get_contest_by_id, ContestWithLock,
  sql_get_contest_problems_by_contest_id, sql_get_contest_users,
}
use flux_backend.Services.Tables.UserQueries.{sql_get_users_by_ids}
use flux_backend.Services.Users.{get_users_by_ids, max_page_size}
use flux_backend.Services.Problems.{Problem, get_problems_by_ids}
use flux_backend.Services.Contests.{
  scored_problems, Contest, contest_of, contest_or_empty, get_contest_by_id, get_contest_problems,
  get_contest_registered_users, db_contest_to_service_contest, start_of, scored, with_scores,
  authorize_problem_view, users_of,
}
use flux_backend.Services.Contests.Submit.{can_submit, check_registered, check_listed}

-- When a contest starts, by the tables.
abbrev pub starts_at : Tables → ContestRow → Option ℕ
starts_at t row = start_of (with_lock t row) row.lock_id

abbrev pub in_contest : Tables → ℕ → ℕ → Bool
in_contest t contest problem =
    any (λ r. r.contest_id == contest && r.problem_id == problem) t.contest_problems

abbrev pub is_registered : Tables → ℕ → ℕ → Bool
is_registered t contest user =
    any (λ r. r.contest_id == contest && r.user_id == user) t.registered_users

pub some_not_none : {n : ℕ} → some n ≡ none → ⊥
some_not_none h = cc

some-injective : {m n : ℕ} → some m ≡ some n → m ≡ n
some-injective h = cc

pub and-left : (a b : Bool) → a && b ≡ true → a ≡ true
and-left a b h = ground arith

pub and-right : (a b : Bool) → a && b ≡ true → b ≡ true
and-right a b h = ground arith

pub true_not_false : true ≡ false → ⊥
true_not_false h = cc

contest_or_empty-row :
    (a : Answer ContestWithLock) (contest : Contest) (start : ℕ)
    → contest_or_empty a ≡ ok contest
    → contest.start_time ≡ some start
    → (k : ContestWithLock) × (a ≡ inr k)
      × (start_of k k.contest.lock_id ≡ some start)
      × (contest ≡ contest_of k start)
unfolding db_contest_to_service_contest
contest_or_empty-row (inl e) contest start h s =
    absurd (some_not_none (sym s ∙ sym (ap (λ k. k.start_time) (ok-injective h))))
contest_or_empty-row (inr k) contest start h s =
    let begun = bind-ok (present (start_of k k.contest.lock_id) internal) _ h in
    let same : begun.0 ≡ start =
      some-injective (ap (λ x. x.start_time) (ok-injective begun.2) ∙ s) in
    (
      k,
      refl,
      present-ok (start_of k k.contest.lock_id) internal begun.1 ∙ ap some same,
      sym (ok-injective begun.2) ∙ ap (contest_of k) same,
    )

-- The contest that is read is the one of the row.
pub get_contest_by_id-row :
    (db : Db) (id : ℕ) (contest : Contest) (start : ℕ)
    → get_contest_by_id db id ≡ ok contest
    → contest.start_time ≡ some start
    → (row : ContestRow) × (contest_by_id id db.tables.contests ≡ some row)
      × (starts_at db.tables row ≡ some start)
      × (contest ≡ contest_of (with_lock db.tables row) start)
unfolding get_contest_by_id sql_get_contest_by_id
get_contest_by_id-row db id contest start h s =
    let answer = sql_get_contest_by_id id db.tables in
    let read = contest_or_empty-row (ask db Query.get_contest_by_id answer) contest start h s in
    let row =
      joined-inr db.tables (contest_by_id id db.tables.contests) read.0
        (unless_fault-inr (db.fault Query.get_contest_by_id) answer read.1) in
    (
      row.0,
      row.1,
      subst (λ k. start_of k k.contest.lock_id ≡ some start) row.2 read.2,
      subst (λ k. contest ≡ contest_of k start) row.2 read.3,
    )

pub contest_by_id-same :
    (id : ℕ) (rows : List ContestRow) (row : ContestRow)
    → contest_by_id id rows ≡ some row
    → row.id ≡ id
unfolding contest_by_id
contest_by_id-same id rows row h = eq_sound row.id id (find?-passes (λ c. c.id == id) rows row h)

-- A problem with a score is one of the rows.
with_scores-any :
    (ps : List Problem) (problem : ℕ) (rows : List ContestProblemRow)
    → any (λ p. problem == p.0.id) (with_scores ps rows) ≡ true
    → any (λ r. r.problem_id == problem) rows ≡ true
unfolding with_scores
with_scores-any ps problem [] h = absurd cc
with_scores-any ps problem (row ∷ rows) h =
    elim (Option-cases (find? (λ p. p.id == row.problem_id) ps)) [
      | inl n ↦ ground (
        arith,
        n,
        with_scores-any ps problem rows (
            subst (λ o. any (λ p. problem == p.0.id) (scored row (with_scores ps rows) o) ≡ true) n
              h),
      )
      | inr (p, f) ↦ ground (
        arith,
        find?-passes (λ p. p.id == row.problem_id) ps p f,
        subst (λ o. any (λ p. problem == p.0.id) (scored row (with_scores ps rows) o) ≡ true) f h,
        with_scores-any ps problem rows,
      )
    ]

scored_problems-any :
    (c : Caller) (db : Db) (problem : ℕ) (rows : List ContestProblemRow) (ps : List (Problem × ℤ))
    → scored_problems c db rows ≡ ok ps
    → any (λ p. problem == p.0.id) ps ≡ true
    → any (λ r. r.problem_id == problem) rows ≡ true
scored_problems-any c db problem [] ps h has =
    subst (λ x. any (λ p. problem == p.0.id) x ≡ true) (sym (ok-injective h)) has
scored_problems-any c db problem (row ∷ rows) ps h has =
    let fetched = bind-ok (get_problems_by_ids c db (map (λ r. r.problem_id) (row ∷ rows))) _ h in
    with_scores-any fetched.0 problem (row ∷ rows)
      (subst (λ x. any (λ p. problem == p.0.id) x ≡ true) (sym (ok-injective fetched.2)) has)

get_contest_problems-any :
    (c : Caller) (db : Db) (id problem : ℕ) (contest : Contest) (ps : List (Problem × ℤ))
    → get_contest_by_id db id ≡ ok contest
    → contest.id ≡ id
    → get_contest_problems c db id ≡ ok ps
    → any (λ p. problem == p.0.id) ps ≡ true
    → in_contest db.tables id problem ≡ true
unfolding get_contest_problems sql_get_contest_problems_by_contest_id
get_contest_problems-any c db id problem contest ps read same h has =
    let contest_read = bind-ok (get_contest_by_id db id) _ h in
    let allowed = then-ok (authorize_problem_view c contest_read.0) _ contest_read.2 in
    let rows =
      bind-ok
        (handled (
          ask db Query.get_contest_problems_by_contest_id
            (inr (sql_get_contest_problems_by_contest_id contest_read.0.id db.tables))))
        _ allowed.2 in
    let id_read : contest_read.0.id ≡ id =
      ap (λ k. k.id) (ok-injective (sym contest_read.1 ∙ read)) ∙ same in
    let listed : any (λ r. r.problem_id == problem) rows.0 ≡ true =
      scored_problems-any c db problem rows.0 ps rows.2 has in
    let kept : keep_if (λ r. r.contest_id == contest_read.0.id) db.tables.contest_problems
        ≡ rows.0 =
      inr-injective (ask-inr db Query.get_contest_problems_by_contest_id _ rows.1) in
    subst (λ i. in_contest db.tables i problem ≡ true) id_read
      (sym (
          any-keep_if (λ r. r.problem_id == problem) (λ r. r.contest_id == contest_read.0.id)
            db.tables.contest_problems)
        ∙ subst (λ x. any (λ r. r.problem_id == problem) x ≡ true) (sym kept) listed)

contains-keep_if :
    (ids : List ℕ) (user : ℕ) (us : List UserRow)
    → any (λ u. user == u.id) (keep_if (λ u. contains ids u.id) us) ≡ true
    → contains ids user ≡ true
contains-keep_if ids user us h =
    any-elim (λ u. contains ids u.id && user == u.id) us
      (λ u both.
        subst (λ i. contains ids i ≡ true) (sym (eq_sound user u.id (and-right _ _ both)))
          (and-left _ _ both))
      (sym (any-keep_if (λ u. user == u.id) (λ u. contains ids u.id) us) ∙ h)

users_of-any :
    (db : Db) (user : ℕ) (ids : List ℕ) (us : List UserRow)
    → users_of db ids ≡ ok us
    → any (λ u. user == u.id) us ≡ true
    → contains ids user ≡ true
unfolding get_users_by_ids sql_get_users_by_ids
users_of-any db user [] us h has =
    absurd (true_not_false (sym has ∙ ap (any (λ u. user == u.id)) (sym (ok-injective h))))
users_of-any db user (id ∷ ids) us h has =
    let paged = then-ok (require (leb (length (id ∷ ids)) max_page_size) invalid_request) _ h in
    let answered =
      or_internal-ok
        (ask db Query.get_users_by_filters (inr (sql_get_users_by_ids (id ∷ ids) db.tables)))
        paged.2 in
    let rows = inr-injective (unless_fault-inr (db.fault Query.get_users_by_filters) _ answered) in
    contains-keep_if (id ∷ ids) user db.tables.users
      (subst (λ x. any (λ u. user == u.id) x ≡ true) (sym rows) has)

get_contest_registered_users-any :
    (db : Db) (id user : ℕ) (us : List UserRow)
    → get_contest_registered_users db id ≡ ok us
    → any (λ u. user == u.id) us ≡ true
    → is_registered db.tables id user ≡ true
unfolding get_contest_registered_users sql_get_contest_users
get_contest_registered_users-any db id user us h has =
    let ids =
      bind-ok (handled (ask db Query.get_contest_users (inr (sql_get_contest_users id db.tables))))
        _ h in
    let rows : map (λ r. r.user_id) (keep_if (λ r. r.contest_id == id) db.tables.registered_users)
        ≡ ids.0 =
      inr-injective (ask-inr db Query.get_contest_users _ ids.1) in
    sym (any-keep_if (λ r. r.user_id == user) (λ r. r.contest_id == id) db.tables.registered_users)
    ∙ sym (
        any-map (λ i. i == user) (λ r. r.user_id)
          (keep_if (λ r. r.contest_id == id) db.tables.registered_users))
    ∙ subst (λ x. contains x user ≡ true) (sym rows) (users_of-any db user ids.0 us ids.2 has)

-- What entitles a caller to submit to a contest, by the tables: the contest runs, the problem is one
-- of its problems, and it is a published public contest or the caller is registered.
pub record Admitted (c : Caller) (db : Db) (problem contest : ℕ) : Type 0 where
  pub who : Claims
  pub row : ContestRow
  pub opening : ℕ
  pub known_claims : c.claims ≡ some who
  pub found : contest_by_id contest db.tables.contests ≡ some row
  pub starts : starts_at db.tables row ≡ some opening
  pub begun : opening ≤ c.now
  pub running : c.now ≤ row.end_time
  pub listed : in_contest db.tables contest problem ≡ true
  pub entitled :
      ((is_some row.lock_id ≡ true) × (row.is_published ≡ true))
      ⊎ (is_registered db.tables contest who.user_id ≡ true)

check_registered-entitled :
    (db : Db) (id : ℕ) (contest : Contest) (who : Claims)
    → check_registered db id contest who ≡ ok tt
    → ((is_some contest.lock_id ≡ true) × (contest.is_published ≡ true))
      ⊎ (is_registered db.tables id who.user_id ≡ true)
unfolding check_registered
check_registered-entitled db id contest who h =
    elim (Bool-cases (is_some contest.lock_id && contest.is_published)) [
      | inl free ↦ inl (and-left _ _ free, and-right _ _ free)
      | inr closed ↦
          let listed =
            bind-ok (get_contest_registered_users db id) _
              (subst (λ b. (if b then ok tt else check_listed db id who) ≡ ok tt) closed h) in
          inr (
            get_contest_registered_users-any db id who.user_id listed.0 listed.1
              (require-ok (any (λ u. who.user_id == u.id) listed.0) unauthorized listed.2))
    ]

-- CanSubmit lets a caller submit only what the tables entitle the caller to submit.
pub can_submit-admits :
    (c : Caller) (db : Db) (problem contest : ℕ)
    → can_submit c db problem contest ≡ ok tt
    → Admitted c db problem contest
unfolding can_submit get_claims_from_context
can_submit-admits c db problem contest h =
    let who = bind-ok (get_claims_from_context c) _ h in
    let read = bind-ok (get_contest_by_id db contest) _ who.2 in
    let start = bind-ok (present read.0.start_time internal) _ read.2 in
    let begun = then-ok (reject (ltb c.now start.0) unauthorized) _ start.2 in
    let running = then-ok (reject (ltb read.0.end_time c.now) invalid_request) _ begun.2 in
    let ps = bind-ok (get_contest_problems c db contest) _ running.2 in
    let has = then-ok (require (any (λ p. problem == p.0.id) ps.0) invalid_request) _ ps.2 in
    let row =
      get_contest_by_id-row db contest read.0 start.0 read.1
        (present-ok read.0.start_time internal start.1) in
    let same : read.0.id ≡ contest =
      ap (λ k. k.id) row.3 ∙ contest_by_id-same contest db.tables.contests row.0 row.1 in
    record {
      who = who.0;
      row = row.0;
      opening = start.0;
      known_claims = present-ok c.claims internal who.1;
      found = row.1;
      starts = row.2;
      begun = ground (arith, reject-ok (ltb c.now start.0) unauthorized begun.1);
      running =
          subst (λ k. c.now ≤ k.end_time) row.3
            (ground (arith, reject-ok (ltb read.0.end_time c.now) invalid_request running.1));
      listed =
          get_contest_problems-any c db contest problem read.0 ps.0 read.1 same ps.1
            (require-ok (any (λ p. problem == p.0.id) ps.0) invalid_request has.1);
      entitled =
          subst
            (λ k.
              ((is_some k.lock_id ≡ true) × (k.is_published ≡ true))
              ⊎ (is_registered db.tables contest who.0.user_id ≡ true))
            row.3 (check_registered-entitled db contest read.0 who.0 has.2);
    }
