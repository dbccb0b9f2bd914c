-- ===== src/Services/Tournaments/Rounds.antt =====
-- The numbers of the rounds of tournament_service.
use flux_backend.Common.{
  ℕ, zero, suc, Bool, none, some, Option, List, [], ◌∷◌, ◌≡◌, refl, sym, ap, ◌∙◌, subst, arith, inl,
  inr, ◌==◌, ℕ_eq, length, ◌<◌, eq_sound, Bool-cases,
}
use flux_backend.Common.Int.{ℤ, pos, wrap32, add32, ◌+ℤ◌}
use flux_backend.Services.Result.{ok}
use flux_backend.Services.Context.{Caller}
use flux_backend.Services.Tournaments.{
  TournamentRoundRow, TournamentTables, TournamentDb, Tournament, TournamentRound, larger, largest,
  or_zero, round_numbers, create_tournament, create_tournament_round,
}
use flux_backend.Services.Contests.{Contest}
use flux_backend.Services.Tournaments.Change.{
  ChangeTournamentContestsRequest, change_tournament_contests, change_tournament_contests-rounds,
}
use flux_backend.Services.Tournaments.Requests.{
  round_numbers-same, round_numbers-other, create_tournament-rounds,
  create_tournament_round-NewRound,
}

-- n, n - 1, …, 1.
abbrev pub countdown : ℕ → List ℤ
countdown zero = []
countdown (suc n) = pos (suc n) ∷ countdown n

larger-next : (n : ℕ) (o : Option ℤ) → or_zero o ≡ pos n → larger (pos (suc n)) o ≡ pos (suc n)
larger-next n none h = refl
larger-next n (some m) h = rw h (ground arith)

largest-countdown : (n : ℕ) → or_zero (largest (countdown n)) ≡ pos n
unfolding largest
largest-countdown zero = refl
largest-countdown (suc n) = larger-next n (largest (countdown n)) (largest-countdown n)

next-number : (n : ℕ) → suc n < 2147483648 → add32 (pos n) (pos 1) ≡ pos (suc n)
unfolding wrap32 ◌+ℤ◌
next-number n h = ground arith

-- The tables after operations on tournaments.
pub data Reach (accepts : Tournament → Bool) (accepts_round : TournamentRound → Bool)
    : TournamentTables → Type 0 where
  no_rounds : (s : TournamentTables) → s.rounds ≡ [] → Reach accepts accepts_round s
  new_tournament :
      (c : Caller) (d : TournamentDb) (t : Tournament) (a : Tournament × TournamentTables)
      → Reach accepts accepts_round d.store
      → create_tournament accepts accepts_round c d t ≡ ok a
      → Reach accepts accepts_round a.1
  new_round :
      (c : Caller) (d : TournamentDb) (r : TournamentRound) (a : TournamentRound × TournamentTables)
      → Reach accepts accepts_round d.store
      → create_tournament_round accepts accepts_round c d r ≡ ok a
      → Reach accepts accepts_round a.1
  new_contests :
      (accepts_page : ℤ → Bool) (c : Caller) (d : TournamentDb)
      (r : ChangeTournamentContestsRequest) (a : List Contest × TournamentTables)
      → Reach accepts accepts_round d.store
      → change_tournament_contests accepts_page c d r ≡ ok a
      → Reach accepts accepts_round a.1

-- The numbers count down to 1, if an int32 holds them.
pub AreNumbered : List ℤ → Type 0
AreNumbered ns = length ns < 2147483648 → ns ≡ countdown (length ns)

cons-AreNumbered :
    (ns : List ℤ) → AreNumbered ns → AreNumbered (add32 (or_zero (largest ns)) (pos 1) ∷ ns)
unfolding AreNumbered
cons-AreNumbered ns old h =
    let was = old (omega arith) in
    let top : or_zero (largest ns) ≡ pos (length ns) =
      ap (λ l. or_zero (largest l)) was ∙ largest-countdown (length ns) in
    ap (λ n. add32 n (pos 1) ∷ ns) top
    ∙ ap (λ n. n ∷ ns) (next-number (length ns) h)
    ∙ ap (λ l. pos (suc (length ns)) ∷ l) was

row-AreNumbered :
    (id : ℕ) (row : TournamentRoundRow) (rows : List TournamentRoundRow)
    → row.round_number ≡ add32 (or_zero (largest (round_numbers row.tournament_id rows))) (pos 1)
    → AreNumbered (round_numbers id rows)
    → AreNumbered (round_numbers id (row ∷ rows))
row-AreNumbered id row rows number old = elim (Bool-cases (row.tournament_id == id)) [
  | inl t ↦
      let same = eq_sound row.tournament_id id t in
      subst AreNumbered
        (sym (
          round_numbers-same id row rows same
          ∙ ap (λ n. n ∷ round_numbers id rows) number
          ∙ ap
              (λ k.
                add32 (or_zero (largest (round_numbers k rows))) (pos 1) ∷ round_numbers id rows)
              same))
        (cons-AreNumbered (round_numbers id rows) old)
  | inr n ↦ subst AreNumbered (sym (round_numbers-other id row rows (ground arith))) old
]

module _ (accepts : Tournament → Bool) (accepts_round : TournamentRound → Bool) where
  Reach-AreNumbered :
      (s : TournamentTables)
      → Reach accepts accepts_round s
      → (id : ℕ) → AreNumbered (round_numbers id s.rounds)
  unfolding round_numbers AreNumbered
  Reach-AreNumbered s (no_rounds _ h) id =
      subst (λ rows. AreNumbered (round_numbers id rows)) (sym h) (λ small. refl)
  Reach-AreNumbered s (new_tournament c d t a before h) id =
      subst (λ rows. AreNumbered (round_numbers id rows))
        (sym (create_tournament-rounds accepts accepts_round c d t a h))
        (Reach-AreNumbered d.store before id)
  Reach-AreNumbered s (new_contests accepts_page c d r a before h) id =
      subst (λ rows. AreNumbered (round_numbers id rows))
        (sym (change_tournament_contests-rounds accepts_page c d r a h))
        (Reach-AreNumbered d.store before id)
  Reach-AreNumbered s (new_round c d r a before h) id =
      let new = create_tournament_round-NewRound accepts accepts_round c d r a h in
      let number =
        new.number
        ∙ ap (λ k. add32 (or_zero (largest (round_numbers k d.store.rounds))) (pos 1))
            (sym new.tournament) in
      subst (λ rows. AreNumbered (round_numbers id rows)) (sym new.rounds)
        (row-AreNumbered id new.row d.store.rounds number (Reach-AreNumbered d.store before id))

  -- Whatever tournaments and rounds are created and contests of rounds changed, by whom and in which
  -- order, from tables without rounds on, the rounds of every tournament that has fewer than 2 ^ 31
  -- of them are numbered 1, 2, … in the order of their creation, without a gap or a repetition.
  pub rounds_numbered :
      (s : TournamentTables)
      → Reach accepts accepts_round s
      → (id : ℕ) → length (round_numbers id s.rounds) < 2147483648
      → round_numbers id s.rounds ≡ countdown (length (round_numbers id s.rounds))
  unfolding AreNumbered
  rounds_numbered s reached id small = Reach-AreNumbered s reached id small
