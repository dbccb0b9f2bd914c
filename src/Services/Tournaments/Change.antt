-- ===== src/Services/Tournaments/Change.antt =====
-- tournament_service/change_tournament_contest.go, with GetContestsByFilters of contest_service as it is
-- called there: ids, and one page that is as long as they are. The rows of contests stand newest
-- first. `accepts_page` stands for the validator package's check of the size of the page.
use flux_backend.Common.{
  ℕ, Bool, true, not, ◌&&◌, Option, none, some, List, [], ◌∷◌, text, Text_eq, ◌≡◌, ◌==◌, ℕ_eq, ltb,
  inl, inr, if◌then◌else◌, any, keep_if, delete_func, contains, length, take, map, ap, ◌∙◌, sym,
  is_some, arith,
}
use flux_backend.Common.Int.{ℤ, pos, ltbℤ, wrap32, pos_part}
use flux_backend.Errors.DbError.{other}
use flux_backend.Errors.FluxError.{invalid_request, internal}
use flux_backend.Services.Result.{
  Result, ok, ◌>>=◌, ◌>>◌, require, reject, present, Answer, or_internal, bind-ok, then-ok,
  ok-injective, inr-injective,
}
use flux_backend.Services.Context.{
  Caller, get_claims_from_context, authorize_user_role, role_manager,
}
use flux_backend.Services.Tables.{
  Tables, Query, ask, get_new_transaction, unless_fault, unique_violation, foreign_violation,
}
use flux_backend.Services.Tables.LockQueries.{one_row}
use flux_backend.Services.Tables.ContestQueries.{ContestWithLock, with_lock}
use flux_backend.Services.Contests.{Contest, contest_of}
use flux_backend.Services.Tournaments.{
  TournamentRoundRow, TournamentTables, TournamentDb, TournamentQuery, same_number, request,
  request-inr, get_tournament_by_id,
}

pub record ChangeTournamentContestsRequest : Type 0 where
  pub tournament_id : ℕ
  pub round_number : ℤ
  pub contest_ids : List ℕ

-- No ids ask for every contest; a negative limit is an error.
unfoldable pub sql_get_contests_by_ids : List ℕ → ℤ → Tables → Answer (List ContestWithLock)
sql_get_contests_by_ids ids limit t =
    if ltbℤ limit (pos 0)
    then inl other
    else inr (
        map (with_lock t) (
          take (pos_part limit)
            (keep_if (λ c. if length ids == 0 then true else contains ids c.id) t.contests)))

abbrev pub start_or_timeout : Option ℕ → Option ℕ → Option ℕ
start_or_timeout (some s) timeout = some s
start_or_timeout none timeout = timeout

-- A contest without a start is left out.
abbrev pub with_start : ContestWithLock → Option ℕ → List Contest → List Contest
with_start k none rest = rest
with_start k (some s) rest = contest_of k s ∷ rest

unfoldable pub contests_of_rows : List ContestWithLock → List Contest
contests_of_rows [] = []
contests_of_rows (k ∷ ks) =
    with_start k (start_or_timeout k.contest.start_time k.lock_timeout) (contests_of_rows ks)

-- The row with the greatest number.
abbrev pub higher : TournamentRoundRow → Option TournamentRoundRow → TournamentRoundRow
higher r none = r
higher r (some q) = if ltbℤ r.round_number q.round_number then q else r

unfoldable pub latest_round : List TournamentRoundRow → Option TournamentRoundRow
latest_round [] = none
latest_round (r ∷ rs) = some (higher r (latest_round rs))

unfoldable pub sql_delete_tournament_contests : ℕ → TournamentTables → TournamentTables
sql_delete_tournament_contests id s = record s {
  round_contests = delete_func s.round_contests (λ tc. tc.round_id == id);
}

unfoldable pub sql_add_tournament_contest :
    ℕ → ℕ → Tables → TournamentTables → Answer TournamentTables
sql_add_tournament_contest round_id contest_id t s =
    if any (λ tc. tc.round_id == round_id && tc.contest_id == contest_id) s.round_contests
    then inl (unique_violation (text "tournament_contests_pkey"))
    else if not (any (λ r. r.id == round_id) s.rounds)
    then inl (foreign_violation (text "tournament_contests_round_id_fkey"))
    else if not (any (λ c. c.id == contest_id) t.contests)
    then inl (foreign_violation (text "tournament_contests_contest_id_fkey"))
    else inr (record s {
      round_contests = record { round_id = round_id; contest_id = contest_id } ∷ s.round_contests;
    })

unfoldable pub check_contests : Caller → List Contest → Result (Unit {0})
check_contests c [] = ok tt
check_contests c (k ∷ ks) = do
  require (is_some k.lock_id && is_some k.lock_timeout) invalid_request
  start ← present k.start_time internal
  reject (ltb start c.now) invalid_request
  reject k.is_published invalid_request
  check_contests c ks

unfoldable pub validate_tournament_contests : Caller → List ℕ → List Contest → Result (Unit {0})
validate_tournament_contests c ids contests = do
  check_contests c contests
  reject (ltb (length ids) (length contests)) internal
  reject (ltb (length contests) (length ids)) invalid_request

unfoldable pub add_tournament_contests :
    TournamentDb → ℕ → List Contest → TournamentTables → Result TournamentTables
add_tournament_contests d round_id [] s = ok s
add_tournament_contests d round_id (k ∷ ks) s = do
  t ←
      request d TournamentQuery.add_contest_query
        (sql_add_tournament_contest round_id k.id d.base.tables s)
  add_tournament_contests d round_id ks t

module _ (accepts_page : ℤ → Bool) where
  unfoldable pub get_contests_by_ids : TournamentDb → List ℕ → Result (List Contest)
  get_contests_by_ids d ids = do
    let size = wrap32 (pos (length ids))
    require (accepts_page size) invalid_request
    rows ← or_internal (
        unless_fault (d.failing TournamentQuery.get_contests_query)
          (sql_get_contests_by_ids ids size d.base.tables))
    ok (contests_of_rows rows)

  unfoldable pub change_tournament_contests :
      Caller
      → TournamentDb
      → ChangeTournamentContestsRequest
      → Result (List Contest × TournamentTables)
  change_tournament_contests c d r = do
    get_claims_from_context c
    authorize_user_role c role_manager
    get_tournament_by_id d r.tournament_id
    latest ←
        request d TournamentQuery.latest_round_query (
          one_row (latest_round (keep_if (λ k. k.tournament_id == r.tournament_id) d.store.rounds)))
    require (same_number latest.round_number r.round_number) invalid_request
    contests ← get_contests_by_ids d r.contest_ids
    validate_tournament_contests c r.contest_ids contests
    get_new_transaction d.base
    emptied ←
        request d TournamentQuery.delete_contests_query
          (inr (sql_delete_tournament_contests latest.id d.store))
    filled ← add_tournament_contests d latest.id contests emptied
    or_internal (ask {A = Unit {0}} d.base Query.commit_transaction (inr tt))
    ok (contests, filled)

sql_add_tournament_contest-rounds :
    (round_id contest_id : ℕ) (t : Tables) (s : TournamentTables) {u : TournamentTables}
    → sql_add_tournament_contest round_id contest_id t s ≡ inr u
    → u.rounds ≡ s.rounds
unfolding sql_add_tournament_contest
sql_add_tournament_contest-rounds round_id contest_id t s h = ground arith

add_tournament_contests-rounds :
    (d : TournamentDb) (round_id : ℕ) (ks : List Contest) (s u : TournamentTables)
    → add_tournament_contests d round_id ks s ≡ ok u
    → u.rounds ≡ s.rounds
unfolding add_tournament_contests
add_tournament_contests-rounds d round_id [] s u h = ap (λ x. x.rounds) (sym (ok-injective h))
add_tournament_contests-rounds d round_id (k ∷ ks) s u h =
    let sql = sql_add_tournament_contest round_id k.id d.base.tables s in
    let made = bind-ok (request d TournamentQuery.add_contest_query sql) _ h in
    add_tournament_contests-rounds d round_id ks made.0 u made.2
    ∙ sql_add_tournament_contest-rounds round_id k.id d.base.tables s
        (request-inr d TournamentQuery.add_contest_query sql made.1)

-- The rounds stay when their contests change.
pub change_tournament_contests-rounds :
    (accepts_page : ℤ → Bool) (c : Caller) (d : TournamentDb) (r : ChangeTournamentContestsRequest)
    (a : List Contest × TournamentTables)
    → change_tournament_contests accepts_page c d r ≡ ok a
    → a.1.rounds ≡ d.store.rounds
unfolding change_tournament_contests sql_delete_tournament_contests
change_tournament_contests-rounds accepts_page c d r a h =
    let who = then-ok (get_claims_from_context c) _ h in
    let allowed = then-ok (authorize_user_role c role_manager) _ who.2 in
    let t = then-ok (get_tournament_by_id d r.tournament_id) _ allowed.2 in
    let latest = bind-ok (request d TournamentQuery.latest_round_query _) _ t.2 in
    let same = then-ok (require (same_number latest.0.round_number r.round_number) _) _ latest.2 in
    let contests = bind-ok (get_contests_by_ids accepts_page d r.contest_ids) _ same.2 in
    let valid = then-ok (validate_tournament_contests c r.contest_ids contests.0) _ contests.2 in
    let tx = then-ok (get_new_transaction d.base) _ valid.2 in
    let gone = sql_delete_tournament_contests latest.0.id d.store in
    let emptied = bind-ok (request d TournamentQuery.delete_contests_query (inr gone)) _ tx.2 in
    let filled = bind-ok (add_tournament_contests d latest.0.id contests.0 emptied.0) _ emptied.2 in
    let done =
      then-ok (or_internal (ask {A = Unit {0}} d.base Query.commit_transaction (inr tt))) _
        filled.2 in
    ap (λ x. x.1.rounds) (sym (ok-injective done.2))
    ∙ add_tournament_contests-rounds d latest.0.id contests.0 emptied.0 filled.0 filled.1
    ∙ ap (λ x. x.rounds)
        (sym (
          inr-injective (request-inr d TournamentQuery.delete_contests_query (inr gone) emptied.1)))
