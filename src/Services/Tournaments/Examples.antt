-- ===== src/Services/Tournaments/Examples.antt =====
-- Concrete runs of tournament_service.
use flux_backend.Common.{
  Bool, true, false, none, some, [], ◌∷◌, text, Text_eq, ◌≡◌, refl, ℕ_eq, length, any, ltb, ◌&&◌,
  arith, ◌<◌,
}
use flux_backend.Common.Int.{ℤ, pos, add32, wrap32, ◌+ℤ◌}
use flux_backend.Services.Result.{ok, handled, or_internal}
use flux_backend.Services.Context.{
  Caller, HasRole, role_manager, get_claims_from_context, authorize_user_role,
}
use flux_backend.Services.Tables.{Db, manual, timer, get_new_transaction}
use flux_backend.Services.Tables.LockQueries.{lock_by_id, sql_get_lock_by_id}
use flux_backend.Services.Tables.ContestQueries.{latest_end}
use flux_backend.Services.Locks.{get_lock_by_id, db_lock_to_service_lock}
use flux_backend.Services.Tournaments.{
  TournamentDb, TournamentTables, Tournament, TournamentRound, create_tournament,
  create_tournament_round, get_tournament_by_id, validate_tournament_round_lock,
  sql_create_tournament, sql_create_tournament_round, sql_latest_round_end_time, translated,
  round_numbers, largest, or_zero, in_latest_round,
}
use flux_backend.Services.Contests.{Contest}
use flux_backend.Services.Tournaments.Change.{
  change_tournament_contests, latest_round, get_contests_by_ids, sql_get_contests_by_ids,
  contests_of_rows, validate_tournament_contests, check_contests, sql_delete_tournament_contests,
  add_tournament_contests, sql_add_tournament_contest,
}
use flux_backend.Services.Tournaments.Requests.{create_tournament_round-follows}
use flux_backend.Services.Tournaments.Rounds.{
  Reach, no_rounds, new_tournament, new_round, new_contests, countdown, rounds_numbered,
}

abbrev organizer : Caller
organizer = record {
  claims = some (record { user_id = 1; user_name = text "ann" });
  now = 70000000000000000000;
  fetch_user_roles = λ id. ok (text "role_manager" ∷ []);
}

abbrev base : Db
base = record {
  tables = record {
    locks =
        record {
          id = 5;
          name = text "finals";
          created_by = 1;
          created_at = 0;
          description = [];
          access = text "role_manager";
          lock_type = manual;
          timeout = none;
        }
        ∷ [];
    users = record { id = 1; user_name = text "ann"; roll_no = text "r1" } ∷ [];
    problems = [];
    contests =
        record {
          id = 3;
          title = text "heats";
          created_by = 1;
          start_time = none;
          end_time = 69000000000000000000;
          is_published = true;
          lock_id = none;
        }
        ∷ [];
    contest_problems = [];
    registered_users = [];
    submissions = [];
    tournament_contests = 3 ∷ [];
  };
  fault = λ q. none;
  new_id = 7;
  clock = 70000000000000000000;
}

abbrev at_first : TournamentDb
at_first = record {
  base = base;
  store = record { tournaments = []; rounds = []; round_contests = [] };
  failing = λ q. none;
}

abbrev cup : Tournament
cup = record {
  id = 0;
  title = text "cup 2025";
  created_by = 0;
  is_published = true;
  rounds = pos 0;
}

abbrev wanted : TournamentRound
wanted = record {
  id = 0;
  tournament_id = 7;
  title = text "round";
  round_number = pos 0;
  lock_id = some 5;
  created_by = 0;
}

-- The tables with the tournament, with its first round and that round's contest, and with two rounds.
abbrev with_cup : TournamentDb
with_cup = record at_first {
  store = record {
    tournaments =
        record { id = 7; title = text "cup 2025"; created_by = 1; is_published = true } ∷ [];
    rounds = [];
    round_contests = [];
  };
}

abbrev one_round : TournamentTables
one_round = record with_cup.store {
  rounds =
      record {
        id = 7;
        tournament_id = 7;
        round_number = pos 1;
        title = text "round";
        lock_id = some 5;
        created_by = 1;
      }
      ∷ [];
}

abbrev with_round : TournamentDb
with_round = record with_cup {
  store = record one_round { round_contests = record { round_id = 7; contest_id = 3 } ∷ [] };
}

abbrev second : TournamentRound
second = record wanted { id = 7; round_number = pos 2; created_by = 1 }

abbrev two_rounds : TournamentTables
two_rounds = record with_round.store {
  rounds =
      record {
        id = 7;
        tournament_id = 7;
        round_number = pos 2;
        title = text "round";
        lock_id = some 5;
        created_by = 1;
      }
      ∷ with_round.store.rounds;
}

abbrev any_tournament : Tournament → Bool
any_tournament t = true

abbrev any_round : TournamentRound → Bool
any_round r = true

second_round :
    create_tournament_round any_tournament any_round organizer with_round wanted
    ≡ ok (second, two_rounds)
unfolding create_tournament_round get_claims_from_context authorize_user_role get_tournament_by_id
    translated sql_latest_round_end_time latest_end largest round_numbers
    validate_tournament_round_lock get_lock_by_id db_lock_to_service_lock sql_get_lock_by_id
    lock_by_id sql_create_tournament_round wrap32 ◌+ℤ◌ handled
second_round = refl

create_tournament_round-follows_example :
    HasRole organizer role_manager
    × (any
          (λ k. in_latest_round 7 with_round.store k && ltb organizer.now k.end_time)
          base.tables.contests
        ≡ false)
    × (round_numbers 7 two_rounds.rounds
        ≡ add32 (or_zero (largest (round_numbers 7 with_round.store.rounds))) (pos 1)
          ∷ round_numbers 7 with_round.store.rounds)
create_tournament_round-follows_example =
    create_tournament_round-follows any_tournament any_round organizer with_round wanted
      (second, two_rounds) second_round

first_round :
    create_tournament_round any_tournament any_round organizer with_cup wanted
    ≡ ok (record second { round_number = pos 1 }, one_round)
unfolding create_tournament_round get_claims_from_context authorize_user_role get_tournament_by_id
    translated sql_latest_round_end_time latest_end largest round_numbers
    validate_tournament_round_lock get_lock_by_id db_lock_to_service_lock sql_get_lock_by_id
    lock_by_id sql_create_tournament_round wrap32 ◌+ℤ◌ handled
first_round = refl

-- Before the contest starts, its timer lock has not run out.
abbrev early : Caller
early = record organizer { now = 60000000000000000000 }

abbrev early_heats : TournamentDb
early_heats = record with_cup {
  base = record base {
    tables = record base.tables {
      locks =
          record {
            id = 6;
            name = text "heats";
            created_by = 1;
            created_at = 0;
            description = [];
            access = text "role_manager";
            lock_type = timer;
            timeout = some 68000000000000000000;
          }
          ∷ base.tables.locks;
      contests =
          record {
            id = 3;
            title = text "heats";
            created_by = 1;
            start_time = none;
            end_time = 69000000000000000000;
            is_published = false;
            lock_id = some 6;
          }
          ∷ [];
    };
  };
  store = one_round;
}

abbrev heats : Contest
heats = record {
  id = 3;
  title = text "heats";
  lock_id = some 6;
  start_time = some 68000000000000000000;
  end_time = 69000000000000000000;
  is_published = false;
  created_by = 1;
  lock_access = some (text "role_manager");
  lock_timeout = some 68000000000000000000;
}

abbrev any_page : ℤ → Bool
any_page n = true

first_contests :
    change_tournament_contests any_page early early_heats
      (record { tournament_id = 7; round_number = pos 1; contest_ids = 3 ∷ [] })
    ≡ ok (heats ∷ [], with_round.store)
unfolding change_tournament_contests get_claims_from_context authorize_user_role
    get_tournament_by_id translated largest round_numbers latest_round get_contests_by_ids
    or_internal handled lock_by_id sql_get_contests_by_ids contests_of_rows
    validate_tournament_contests check_contests get_new_transaction sql_delete_tournament_contests
    add_tournament_contests sql_add_tournament_contest wrap32 ◌+ℤ◌
first_contests = refl

new_cup :
    create_tournament any_tournament any_round organizer at_first cup
    ≡ ok (record cup { id = 7; created_by = 1 }, with_cup.store)
unfolding create_tournament get_claims_from_context authorize_user_role translated
    sql_create_tournament
new_cup = refl

two_rounds-Reach : Reach any_tournament any_round two_rounds
two_rounds-Reach =
    new_round organizer with_round wanted (second, two_rounds)
      (new_contests any_page early early_heats
        (record { tournament_id = 7; round_number = pos 1; contest_ids = 3 ∷ [] })
        (heats ∷ [], with_round.store)
        (new_round organizer with_cup wanted (record second { round_number = pos 1 }, one_round)
          (new_tournament organizer at_first cup
            (record cup { id = 7; created_by = 1 }, with_cup.store) (no_rounds at_first.store refl)
            new_cup)
          first_round)
        first_contests)
      second_round

two_numbers : round_numbers 7 two_rounds.rounds ≡ pos 2 ∷ pos 1 ∷ []
unfolding round_numbers
two_numbers = refl

few : length (round_numbers 7 two_rounds.rounds) < 2147483648
unfolding round_numbers
few = omega arith

rounds_numbered_example :
    round_numbers 7 two_rounds.rounds ≡ countdown (length (round_numbers 7 two_rounds.rounds))
rounds_numbered_example = rounds_numbered any_tournament any_round two_rounds two_rounds-Reach 7 few
