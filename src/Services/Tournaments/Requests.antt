-- ===== src/Services/Tournaments/Requests.antt =====
-- What create_tournament.go and create_tournament_round.go do when they succeed.
use flux_backend.Common.{
  ℕ, Bool, false, none, some, Option, List, [], ◌∷◌, ◌≡◌, ◌≢◌, refl, sym, ap, ◌∙◌, subst, arith,
  inl, inr, ℕ_eq, ltb, Bool-cases, any, keep_if, ◌||◌, ◌&&◌,
}
use flux_backend.Common.Int.{pos, add32}
use flux_backend.Errors.FluxError.{invalid_request}
use flux_backend.Services.Result.{
  ok, bind-ok, then-ok, ok-injective, require, reject, reject-ok, present, inr-injective,
}
use flux_backend.Services.Context.{
  Caller, get_claims_from_context, authorize_user_role, role_manager, HasRole,
  authorize_user_role_iff,
}
use flux_backend.Services.Tables.{ContestRow, Tables}
use flux_backend.Services.Tables.ContestQueries.{latest_end, later_end}
use flux_backend.Services.Tournaments.{
  request-inr, in_latest_round, or_epoch, TournamentRow, TournamentRoundRow, TournamentTables,
  TournamentDb, TournamentQuery, Tournament, TournamentRound, largest, or_zero, round_numbers,
  request, get_tournament_by_id, sql_create_tournament, sql_create_tournament_round,
  sql_latest_round_end_time, validate_tournament_round_lock, create_tournament,
  create_tournament_round, round_row, tournament_row,
}

sql_create_tournament-rounds :
    (row : TournamentRow) (t : Tables) (s : TournamentTables) {a : TournamentRow × TournamentTables}
    → sql_create_tournament row t s ≡ inr a
    → a.1.rounds ≡ s.rounds
unfolding sql_create_tournament
sql_create_tournament-rounds row t s h = ground arith

sql_create_tournament_round-rounds :
    (row : TournamentRoundRow) (t : Tables) (s : TournamentTables)
    {a : TournamentRoundRow × TournamentTables}
    → sql_create_tournament_round row t s ≡ inr a
    → (a.0 ≡ row) × (a.1.rounds ≡ row ∷ s.rounds)
unfolding sql_create_tournament_round
sql_create_tournament_round-rounds row t s h = (ground arith, ground arith)

pub round_numbers-same :
    (id : ℕ) (row : TournamentRoundRow) (rows : List TournamentRoundRow)
    → row.tournament_id ≡ id
    → round_numbers id (row ∷ rows) ≡ row.round_number ∷ round_numbers id rows
unfolding round_numbers
round_numbers-same id row rows h = ground (arith)

pub round_numbers-other :
    (id : ℕ) (row : TournamentRoundRow) (rows : List TournamentRoundRow)
    → row.tournament_id ≢ id
    → round_numbers id (row ∷ rows) ≡ round_numbers id rows
unfolding round_numbers
round_numbers-other id row rows h = ground (arith)

-- What a request for a new round does when it succeeds.
pub record NewRound (c : Caller) (d : TournamentDb) (r : TournamentRound)
    (a : TournamentRound × TournamentTables) : Type 0 where
  pub row : TournamentRoundRow
  pub rounds : a.1.rounds ≡ row ∷ d.store.rounds
  pub tournament : row.tournament_id ≡ r.tournament_id
  pub number :
      row.round_number
      ≡ add32 (or_zero (largest (round_numbers r.tournament_id d.store.rounds))) (pos 1)
  pub ended : ltb c.now (sql_latest_round_end_time r.tournament_id d.base.tables d.store) ≡ false
  pub manager : authorize_user_role c role_manager ≡ ok tt

get_tournament_by_id-rounds :
    (d : TournamentDb) (id : ℕ) {t : Tournament}
    → get_tournament_by_id d id ≡ ok t
    → t.rounds ≡ or_zero (largest (round_numbers id d.store.rounds))
unfolding get_tournament_by_id
get_tournament_by_id-rounds d id h =
    let found = bind-ok (request d TournamentQuery.get_tournament_by_id_query _) _ h in
    ap (λ t. t.rounds) (sym (ok-injective found.2))

module _ (accepts : Tournament → Bool) (accepts_round : TournamentRound → Bool) where
  pub create_tournament-rounds :
      (c : Caller) (d : TournamentDb) (t : Tournament) (a : Tournament × TournamentTables)
      → create_tournament accepts accepts_round c d t ≡ ok a
      → a.1.rounds ≡ d.store.rounds
  unfolding create_tournament
  create_tournament-rounds c d t a h =
      let who = bind-ok (get_claims_from_context c) _ h in
      let allowed = then-ok (authorize_user_role c role_manager) _ who.2 in
      let valid = then-ok (require (accepts t) invalid_request) _ allowed.2 in
      let sql =
        sql_create_tournament (tournament_row d.base.new_id t who.0.user_id) d.base.tables
          d.store in
      let made = bind-ok (request d TournamentQuery.create_tournament_query sql) _ valid.2 in
      ap (λ x. x.1.rounds) (sym (ok-injective made.2))
      ∙ sql_create_tournament-rounds _ d.base.tables d.store
          (request-inr d TournamentQuery.create_tournament_query sql made.1)

  pub create_tournament_round-NewRound :
      (c : Caller) (d : TournamentDb) (r : TournamentRound) (a : TournamentRound × TournamentTables)
      → create_tournament_round accepts accepts_round c d r ≡ ok a
      → NewRound c d r a
  unfolding create_tournament_round
  create_tournament_round-NewRound c d r a h =
      let who = bind-ok (get_claims_from_context c) _ h in
      let allowed = then-ok (authorize_user_role c role_manager) _ who.2 in
      let t = bind-ok (get_tournament_by_id d r.tournament_id) _ allowed.2 in
      let end_time = sql_latest_round_end_time r.tournament_id d.base.tables d.store in
      let ended =
        bind-ok (request d TournamentQuery.latest_round_end_time_query (inr end_time)) _ t.2 in
      let late = then-ok (reject (ltb c.now ended.0) invalid_request) _ ended.2 in
      let valid = then-ok (require (accepts_round r) invalid_request) _ late.2 in
      let lock = bind-ok (present r.lock_id invalid_request) _ valid.2 in
      let manual = then-ok (validate_tournament_round_lock c d.base lock.0) _ lock.2 in
      let row = round_row d.base.new_id r t.0.rounds who.0.user_id in
      let sql = sql_create_tournament_round row d.base.tables d.store in
      let made = bind-ok (request d TournamentQuery.create_tournament_round_query sql) _ manual.2 in
      let ran =
        sql_create_tournament_round-rounds row d.base.tables d.store
          (request-inr d TournamentQuery.create_tournament_round_query sql made.1) in
      let same : end_time ≡ ended.0 =
        inr-injective
          (request-inr d TournamentQuery.latest_round_end_time_query (inr end_time) ended.1) in
      record {
        row = row;
        rounds = ap (λ x. x.1.rounds) (sym (ok-injective made.2)) ∙ ran.1;
        tournament = refl;
        number = ap (λ n. add32 n (pos 1)) (get_tournament_by_id-rounds d r.tournament_id t.1);
        ended =
            subst (λ e. ltb c.now e ≡ false) (sym same)
              (reject-ok (ltb c.now ended.0) invalid_request late.1);
        manager = allowed.1;
      }

-- Some end is after the clock.
abbrev ends_after : ℕ → Option ℕ → Bool
ends_after clock none = false
ends_after clock (some e) = ltb clock e

ends_after-later :
    (clock e : ℕ) (o : Option ℕ)
    → ends_after clock (later_end e o) ≡ (ltb clock e || ends_after clock o)
ends_after-later clock e none = ground arith
ends_after-later clock e (some f) = ground arith

latest_end-after :
    (q : ContestRow → Bool) (clock : ℕ) (cs : List ContestRow)
    → ends_after clock (latest_end (keep_if q cs)) ≡ any (λ k. q k && ltb clock k.end_time) cs
unfolding latest_end
latest_end-after q clock [] = refl
latest_end-after q clock (c ∷ cs) = elim (Bool-cases (q c)) [
  | inl t ↦ rw t (
      ends_after-later clock c.end_time (latest_end (keep_if q cs))
      ∙ ap (λ b. ltb clock c.end_time || b) (latest_end-after q clock cs))
  | inr n ↦ rw n (latest_end-after q clock cs)
]

or_epoch-over :
    (clock : ℕ) (o : Option ℕ) → ltb clock (or_epoch o) ≡ false → ends_after clock o ≡ false
or_epoch-over clock none h = refl
or_epoch-over clock (some e) h = h

module _ (accepts : Tournament → Bool) (accepts_round : TournamentRound → Bool) where
  -- A round that CreateTournamentRound makes is asked for by a manager, no contest of the round with
  -- the greatest number ends after the request, and the new round is numbered one more, as an
  -- int32.
  pub create_tournament_round-follows :
      (c : Caller) (d : TournamentDb) (r : TournamentRound) (a : TournamentRound × TournamentTables)
      → create_tournament_round accepts accepts_round c d r ≡ ok a
      → HasRole c role_manager
        × (any
              (λ k. in_latest_round r.tournament_id d.store k && ltb c.now k.end_time)
              d.base.tables.contests
            ≡ false)
        × (round_numbers r.tournament_id a.1.rounds
            ≡ add32 (or_zero (largest (round_numbers r.tournament_id d.store.rounds))) (pos 1)
              ∷ round_numbers r.tournament_id d.store.rounds)
  unfolding sql_latest_round_end_time
  create_tournament_round-follows c d r a h =
      let new = create_tournament_round-NewRound accepts accepts_round c d r a h in
      let q = in_latest_round r.tournament_id d.store in
      (
        (authorize_user_role_iff c role_manager).0 new.manager,
        sym (latest_end-after q c.now d.base.tables.contests)
            ∙ or_epoch-over c.now (latest_end (keep_if q d.base.tables.contests)) new.ended,
        ap (round_numbers r.tournament_id) new.rounds
            ∙ round_numbers-same r.tournament_id new.row d.store.rounds new.tournament
            ∙ ap (λ n. n ∷ round_numbers r.tournament_id d.store.rounds) new.number,
      )
