-- ===== src/Services/Tournaments.antt =====
-- internal/service/tournament_service, with the queries of internal/database/tournaments.sql.go that it
-- makes when tournaments and rounds are created. `accepts` and `accepts_round` stand for the validator
-- package's check against the struct tags.
pub mod Change
pub mod Requests
pub mod Rounds
mod Examples
use flux_backend.Common.{
  ℕ, Bool, true, false, not, ◌&&◌, Option, none, some, List, [], ◌∷◌, Text, text, Text_eq, ◌≡◌,
  refl, ◌==◌, ℕ_eq, ltb, inl, inr, if◌then◌else◌, any, find?, keep_if,
}
use flux_backend.Common.Int.{ℤ, pos, ltbℤ, add32}
use flux_backend.Errors.{DbError, handle_db_errors, MsgMap, code_foreign_key_constraint}
use flux_backend.Errors.FluxError.{invalid_request}
use flux_backend.Services.Result.{
  Result, ok, err, flux, ◌>>=◌, ◌>>◌, require, reject, present, Answer,
}
use flux_backend.Services.Context.{
  Caller, get_claims_from_context, authorize_user_role, role_manager,
}
use flux_backend.Services.Tables.{
  Db, Tables, ContestRow, is_timer, unless_fault, unless_fault-inr, unique_violation,
  foreign_violation,
}
use flux_backend.Services.Tables.LockQueries.{one_row}
use flux_backend.Services.Tables.ContestQueries.{lock_exists, latest_end}
use flux_backend.Services.Locks.{get_lock_by_id}

pub record TournamentRow : Type 0 where
  pub id : ℕ
  pub title : Text
  pub created_by : ℕ
  pub is_published : Bool

-- `round_number` is an int32.
pub record TournamentRoundRow : Type 0 where
  pub id : ℕ
  pub tournament_id : ℕ
  pub round_number : ℤ
  pub title : Text
  pub lock_id : Option ℕ
  pub created_by : ℕ

pub record TournamentContestRow : Type 0 where
  pub round_id : ℕ
  pub contest_id : ℕ

pub record TournamentTables : Type 0 where
  pub tournaments : List TournamentRow
  pub rounds : List TournamentRoundRow
  pub round_contests : List TournamentContestRow

pub data TournamentQuery : Type 0 where
  create_tournament_query create_tournament_round_query : TournamentQuery
  get_tournament_by_id_query latest_round_end_time_query latest_round_query : TournamentQuery
  get_contests_query delete_contests_query add_contest_query : TournamentQuery

-- The tables of tournaments beside those of the other services.
pub record TournamentDb : Type 0 where
  pub base : Db
  pub store : TournamentTables
  pub failing : TournamentQuery → Option DbError

-- MAX of the numbers, which is NULL for no rows, and COALESCE(…, 0).
abbrev pub larger : ℤ → Option ℤ → ℤ
larger n none = n
larger n (some m) = if ltbℤ n m then m else n

unfoldable pub largest : List ℤ → Option ℤ
largest [] = none
largest (n ∷ ns) = some (larger n (largest ns))

abbrev pub or_zero : Option ℤ → ℤ
or_zero none = pos 0
or_zero (some n) = n

-- The numbers of the rounds of a tournament, the newest round first.
unfoldable pub round_numbers : ℕ → List TournamentRoundRow → List ℤ
round_numbers id [] = []
round_numbers id (r ∷ rs) =
    let rest = round_numbers id rs in if r.tournament_id == id then r.round_number ∷ rest else rest

abbrev pub same_number : ℤ → ℤ → Bool
same_number a b = not (ltbℤ a b) && not (ltbℤ b a)

abbrev pub is_number : Option ℤ → ℤ → Bool
is_number none n = false
is_number (some m) n = same_number m n

-- The join of contests, tournament_contests and tournament_rounds, for the latest round.
abbrev pub in_latest_round : ℕ → TournamentTables → ContestRow → Bool
in_latest_round id s c =
    any
      (λ tc.
        c.id == tc.contest_id
        && any
            (λ r.
              tc.round_id == r.id
              && r.tournament_id == id
              && is_number (largest (round_numbers id s.rounds)) r.round_number)
            s.rounds)
      s.round_contests

-- 1970-01-01, in nanoseconds since the zero time.Time.
abbrev pub epoch : ℕ
epoch = 62135596800000000000

abbrev pub or_epoch : Option ℕ → ℕ
or_epoch none = epoch
or_epoch (some e) = e

unfoldable pub sql_latest_round_end_time : ℕ → Tables → TournamentTables → ℕ
sql_latest_round_end_time id t s = or_epoch (latest_end (keep_if (in_latest_round id s) t.contests))

abbrev pub err_msgs : Option (List (Text × MsgMap))
err_msgs = some (
    (
      code_foreign_key_constraint,
      (text "fk_rounds_tournament", text "Tournament does not exist.") ∷ [],
    )
    ∷ [])

unfoldable pub translated {ℓ} : {A : Type ℓ} → Answer A → Result A
translated (inl e) = err (flux (handle_db_errors e err_msgs).sentinel)
translated (inr a) = ok a

pub translated-ok {ℓ} : {A : Type ℓ} (r : Answer A) {a : A} → translated r ≡ ok a → r ≡ inr a
unfolding translated
translated-ok (inl e) h = cc
translated-ok (inr x) h = cc

abbrev pub request {ℓ} : {A : Type ℓ} → TournamentDb → TournamentQuery → Answer A → Result A
request d q answer = translated (unless_fault (d.failing q) answer)

pub request-inr :
    {A : Type 0} (d : TournamentDb) (q : TournamentQuery) (answer : Answer A) {a : A}
    → request d q answer ≡ ok a
    → answer ≡ inr a
request-inr d q answer h =
    unless_fault-inr (d.failing q) answer (translated-ok (unless_fault (d.failing q) answer) h)

unfoldable pub sql_create_tournament :
    TournamentRow → Tables → TournamentTables → Answer (TournamentRow × TournamentTables)
sql_create_tournament row t s =
    if any (λ k. k.title == row.title) s.tournaments
    then inl (unique_violation (text "tournaments_title_key"))
    else if not (any (λ u. u.id == row.created_by) t.users)
    then inl (foreign_violation (text "tournaments_created_by_fkey"))
    else inr (row, record s { tournaments = row ∷ s.tournaments })

unfoldable pub sql_create_tournament_round :
    TournamentRoundRow → Tables → TournamentTables → Answer (TournamentRoundRow × TournamentTables)
sql_create_tournament_round row t s =
    if any (same_number row.round_number) (round_numbers row.tournament_id s.rounds)
    then inl (unique_violation (text "tournament_rounds_tournament_id_round_number_key"))
    else if not (any (λ k. k.id == row.tournament_id) s.tournaments)
    then inl (foreign_violation (text "fk_rounds_tournament"))
    else if not (lock_exists row.lock_id t)
    then inl (foreign_violation (text "tournament_rounds_lock_id_fkey"))
    else if not (any (λ u. u.id == row.created_by) t.users)
    then inl (foreign_violation (text "tournament_rounds_created_by_fkey"))
    else inr (row, record s { rounds = row ∷ s.rounds })

pub record Tournament : Type 0 where
  pub id : ℕ
  pub title : Text
  pub created_by : ℕ
  pub is_published : Bool
  pub rounds : ℤ

-- `lock_access` and `lock_timeout`, which only GetTournamentRound fills in, are left out.
pub record TournamentRound : Type 0 where
  pub id : ℕ
  pub tournament_id : ℕ
  pub title : Text
  pub round_number : ℤ
  pub lock_id : Option ℕ
  pub created_by : ℕ

abbrev pub tournament_of : TournamentRow → ℤ → Tournament
tournament_of row rounds = record {
  id = row.id;
  title = row.title;
  created_by = row.created_by;
  is_published = row.is_published;
  rounds = rounds;
}

abbrev pub round_of : TournamentRoundRow → TournamentRound
round_of row = record {
  id = row.id;
  tournament_id = row.tournament_id;
  title = row.title;
  round_number = row.round_number;
  lock_id = row.lock_id;
  created_by = row.created_by;
}

unfoldable pub get_tournament_by_id : TournamentDb → ℕ → Result Tournament
get_tournament_by_id d id = do
  row ←
      request d TournamentQuery.get_tournament_by_id_query
        (one_row (find? (λ k. k.id == id) d.store.tournaments))
  ok (tournament_of row (or_zero (largest (round_numbers id d.store.rounds))))

abbrev pub tournament_row : ℕ → Tournament → ℕ → TournamentRow
tournament_row new_id t user_id = record {
  id = new_id;
  title = t.title;
  created_by = user_id;
  is_published = t.is_published;
}

abbrev pub round_row : ℕ → TournamentRound → ℤ → ℕ → TournamentRoundRow
round_row new_id r rounds user_id = record {
  id = new_id;
  tournament_id = r.tournament_id;
  round_number = add32 rounds (pos 1);
  title = r.title;
  lock_id = r.lock_id;
  created_by = user_id;
}

unfoldable pub validate_tournament_round_lock : Caller → Db → ℕ → Result (Unit {0})
validate_tournament_round_lock c db id = do
  l ← get_lock_by_id c db id
  reject (is_timer l.lock_type) invalid_request

module _ (accepts : Tournament → Bool) (accepts_round : TournamentRound → Bool) where
  unfoldable pub create_tournament :
      Caller → TournamentDb → Tournament → Result (Tournament × TournamentTables)
  create_tournament c d t = do
    who ← get_claims_from_context c
    authorize_user_role c role_manager
    require (accepts t) invalid_request
    made ←
        request d TournamentQuery.create_tournament_query
          (sql_create_tournament (tournament_row d.base.new_id t who.user_id) d.base.tables d.store)
    ok (tournament_of made.0 (pos 0), made.1)

  unfoldable pub create_tournament_round :
      Caller → TournamentDb → TournamentRound → Result (TournamentRound × TournamentTables)
  create_tournament_round c d r = do
    who ← get_claims_from_context c
    authorize_user_role c role_manager
    t ← get_tournament_by_id d r.tournament_id
    ended ←
        request d TournamentQuery.latest_round_end_time_query
          (inr (sql_latest_round_end_time r.tournament_id d.base.tables d.store))
    reject (ltb c.now ended) invalid_request
    require (accepts_round r) invalid_request
    lock_id ← present r.lock_id invalid_request
    validate_tournament_round_lock c d.base lock_id
    made ← request d TournamentQuery.create_tournament_round_query (
        sql_create_tournament_round (round_row d.base.new_id r t.rounds who.user_id) d.base.tables
          d.store)
    ok (round_of made.0, made.1)
