-- ===== src/Services/Contests/Submit/Running.antt =====
-- The check of submissions outside of contests: no locked contest with the problem still runs. Submit
-- makes it for every submission, also for one to such a contest.
use flux_backend.Common.{
  ℕ, Bool, true, false, not, ◌&&◌, Option, none, some, List, [], ◌∷◌, Text, ltb, leb, ◌≤◌, inl, inr,
  ◌⊎◌, is_some, ℕ_eq, ◌==◌, any, keep_if, ◌≡◌, ◌≢◌, refl, sym, ◌∙◌, ap, subst, arith, Bool-cases,
  find?-any, find?-passes, lookup, Text_eq,
}
use flux_backend.Errors.FluxError.{internal, unauthorized}
use flux_backend.Services.Result.{
  ok, require, handled, present, bind-ok, then-ok, present-ok, require-ok, ok-injective,
  inr-injective,
}
use flux_backend.Services.Context.{Caller, Claims, get_claims_from_context}
use flux_backend.Services.Tables.{
  Db, Tables, ask, Query, ContestRow, ProblemRow, SubmissionRow, ask-inr,
}
use flux_backend.Services.Tables.ContestQueries.{
  contest_by_id, locked_with, latest_end, later_end, is_over, sql_can_submit_problem_in_practice,
}
use flux_backend.Services.Tables.ProblemQueries.{sql_get_problem_by_id, problem_by_id, located-inr}
use flux_backend.Services.Problems.{Problem, get_problem_by_id}
use flux_backend.Services.Contests.Submit.{
  SubmissionRequest, submit, may_submit, submission_row, sql_insert_submission,
}
use flux_backend.Services.Contests.Submit.Allowed.{
  Admitted, can_submit-admits, in_contest, contest_by_id-same, true_not_false, some_not_none,
}

later_end-over :
    (e clock : ℕ) (o : Option ℕ) → is_over (later_end e o) clock ≡ (ltb e clock && is_over o clock)
later_end-over e clock none = ground arith
later_end-over e clock (some f) = ground arith

still_runs-over :
    (q : ContestRow → Bool) (clock : ℕ) (cs : List ContestRow)
    → is_over (latest_end (keep_if q cs)) clock ≡ not (any (λ k. q k && leb clock k.end_time) cs)
unfolding latest_end
still_runs-over q clock [] = refl
still_runs-over q clock (c ∷ cs) = elim (Bool-cases (q c)) [
  | inl t ↦ rw t (
      later_end-over c.end_time clock (latest_end (keep_if q cs))
      ∙ ground (arith, still_runs-over q clock cs))
  | inr f ↦ rw f (still_runs-over q clock cs)
]

-- The query answers that a problem may be submitted in practice exactly when none of the contests
-- with a lock that the problem is part of is still to end.
pub can_submit_problem_in_practice_lem :
    (clock problem : ℕ) (t : Tables)
    → sql_can_submit_problem_in_practice clock problem t
      ≡ not (any (λ k. locked_with t problem k && leb clock k.end_time) t.contests)
unfolding sql_can_submit_problem_in_practice
can_submit_problem_in_practice_lem clock problem t =
    still_runs-over (locked_with t problem) clock t.contests

of_not : (b : Bool) → not b ≡ true → b ≡ false
of_not true h = sym h
of_not false h = refl

-- What a submission that is accepted leaves behind.
pub record Stored (c : Caller) (db : Db) (req : SubmissionRequest) (row : SubmissionRow)
    (t : Tables) : Type 0 where
  pub who : Claims
  pub problem : ProblemRow
  pub known_claims : c.claims ≡ some who
  pub found : problem_by_id req.problem_id db.tables.problems ≡ some problem
  pub rows : t ≡ record db.tables { submissions = row ∷ db.tables.submissions }
  pub row_of : row ≡ submission_row db.new_id req who
  pub nowhere_locked :
      any
        (λ k. locked_with db.tables req.problem_id k && leb db.clock k.end_time)
        db.tables.contests
      ≡ false
  pub admitted :
      (req.contest_id ≡ none)
      ⊎ ((k : ℕ) × (req.contest_id ≡ some k) × Admitted c db req.problem_id k)

get_problem_by_id-row :
    (c : Caller) (is_internal : Bool) (db : Db) (id : ℕ) {p : Problem}
    → get_problem_by_id c is_internal db id ≡ ok p
    → (row : ProblemRow) × (problem_by_id id db.tables.problems ≡ some row)
unfolding get_problem_by_id sql_get_problem_by_id
get_problem_by_id-row c is_internal db id h =
    let answer = sql_get_problem_by_id id db.tables in
    let read = bind-ok (handled (ask db Query.get_problem_by_id answer)) _ h in
    let row =
      located-inr db.tables (problem_by_id id db.tables.problems)
        (ask-inr db Query.get_problem_by_id answer read.1) in
    (row.0, row.1)

may_submit-Admitted :
    (c : Caller) (db : Db) (problem : ℕ) (contest : Option ℕ)
    → may_submit c db problem contest ≡ ok tt
    → (contest ≡ none) ⊎ ((k : ℕ) × (contest ≡ some k) × Admitted c db problem k)
may_submit-Admitted c db problem none h = inl refl
may_submit-Admitted c db problem (some k) h = inr (k, refl, can_submit-admits c db problem k h)

sql_insert_submission-row :
    (row : SubmissionRow) (t : Tables) {made : SubmissionRow × Tables}
    → sql_insert_submission row t ≡ inr made
    → (made.0 ≡ row) × (made.1 ≡ record t { submissions = row ∷ t.submissions })
unfolding sql_insert_submission
sql_insert_submission-row row t h = (ground arith, ground arith)

-- A submission that Submit accepts is stored as queued, for the caller, with nothing else changed; its
-- problem exists and is part of no locked contest that is still to end; and where it names a contest,
-- the tables entitle the caller to submit to it.
pub submit-Stored :
    (evaluator_mails : List (Text × Text)) (c : Caller) (is_internal : Bool) (db : Db)
    (req : SubmissionRequest) (row : SubmissionRow) (mail : Text) (t : Tables)
    → submit evaluator_mails c is_internal db req ≡ ok ((row, mail), t)
    → Stored c db req row t
unfolding submit get_claims_from_context
submit-Stored evaluator_mails c is_internal db req row mail t h =
    let who = bind-ok (get_claims_from_context c) _ h in
    let problem = bind-ok (get_problem_by_id c is_internal db req.problem_id) _ who.2 in
    let may = then-ok (may_submit c db req.problem_id req.contest_id) _ problem.2 in
    let free = sql_can_submit_problem_in_practice db.clock req.problem_id db.tables in
    let practice =
      bind-ok (handled (ask db Query.can_submit_problem_in_practice (inr free))) _ may.2 in
    let good = then-ok (require practice.0 unauthorized) _ practice.2 in
    let mail_id =
      bind-ok (present (lookup problem.0.evaluator evaluator_mails) internal) _ good.2 in
    let new_row = submission_row db.new_id req who.0 in
    let made =
      bind-ok (handled (ask db Query.insert_submission (sql_insert_submission new_row db.tables))) _
        mail_id.2 in
    let stored =
      sql_insert_submission-row new_row db.tables
        (ask-inr db Query.insert_submission (sql_insert_submission new_row db.tables) made.1) in
    let same = ok-injective made.2 in
    let existing = get_problem_by_id-row c is_internal db req.problem_id problem.1 in
    let own : made.0.0 ≡ row = ap (λ r. r.0.0) same in
    record {
      who = who.0;
      problem = existing.0;
      known_claims = present-ok c.claims internal who.1;
      found = existing.1;
      rows =
          sym (ap (λ r. r.1) same)
          ∙ stored.1
          ∙ ap (λ r. record db.tables { submissions = r ∷ db.tables.submissions })
              (sym stored.0 ∙ own);
      row_of = sym own ∙ stored.0;
      nowhere_locked = of_not _ (
          sym (can_submit_problem_in_practice_lem db.clock req.problem_id db.tables)
          ∙ inr-injective (ask-inr db Query.can_submit_problem_in_practice _ practice.1)
          ∙ require-ok practice.0 unauthorized good.1);
      admitted = may_submit-Admitted c db req.problem_id req.contest_id may.1;
    }

-- A contest with a lock that the caller is entitled to submit to still runs, with the problem in it.
still_locked :
    (c : Caller) (db : Db) (problem k : ℕ) (contest : ContestRow) (existing : ProblemRow)
    → Admitted c db problem k
    → contest_by_id k db.tables.contests ≡ some contest
    → problem_by_id problem db.tables.problems ≡ some existing
    → is_some contest.lock_id ≡ true
    → db.clock ≤ contest.end_time
    → any (λ r. locked_with db.tables problem r && leb db.clock r.end_time) db.tables.contests
      ≡ true
unfolding contest_by_id problem_by_id
still_locked c db problem k contest existing a found has locked clock =
    let rows = db.tables.contests in
    let exists : any (λ p. p.id == problem) db.tables.problems ≡ true =
      find?-any (λ p. p.id == problem) (λ p. p.id == problem) db.tables.problems existing has
        (find?-passes (λ p. p.id == problem) db.tables.problems existing has) in
    let listed : in_contest db.tables contest.id problem ≡ true =
      subst (λ i. in_contest db.tables i problem ≡ true)
        (sym (contest_by_id-same k rows contest found)) a.listed in
    find?-any (λ r. r.id == k) (λ r. locked_with db.tables problem r && leb db.clock r.end_time)
      rows contest found (rw (locked, exists, listed) (ground arith))

-- A submission to a public contest is refused, whoever makes it, unless the contest has ended when the
-- database is asked whether the problem is open for practice: before, the contest itself is what
-- keeps the problem from being open.
pub submit_to_public_refused :
    (evaluator_mails : List (Text × Text)) (c : Caller) (is_internal : Bool) (db : Db)
    (req : SubmissionRequest) (k : ℕ) (contest : ContestRow)
    → req.contest_id ≡ some k
    → contest_by_id k db.tables.contests ≡ some contest
    → is_some contest.lock_id ≡ true
    → db.clock ≤ contest.end_time
    → (accepted : (SubmissionRow × Text) × Tables)
    → submit evaluator_mails c is_internal db req ≢ ok accepted
submit_to_public_refused mails c is_internal db req k contest named found locked clock
      ((row, mail), t) h =
    refuted (submit-Stored mails c is_internal db req row mail t h)
  where
    clash :
        Stored c db req row t
        → (n : ℕ) → req.contest_id ≡ some n
        → Admitted c db req.problem_id n
        → ⊥
    clash s n e a =
        let same_id : some n ≡ some k = sym e ∙ named in
        let id : n ≡ k = cc in
        let still =
          still_locked c db req.problem_id k contest s.problem
            (subst (Admitted c db req.problem_id) id a) found s.found locked clock in
        absurd (true_not_false (sym still ∙ s.nowhere_locked))

    refuted : Stored c db req row t → ⊥
    refuted s = elim s.admitted [
      | inl unnamed ↦ absurd (some_not_none (sym named ∙ unnamed))
      | inr (n, e, a) ↦ clash s n e a
    ]
