-- ===== src/Services/Contests/Shape/Promised.antt =====
-- What the validation of a request for a contest promises of its row.
use flux_backend.Common.{
  ℕ, Bool, true, false, ◌&&◌, ◌+◌, ◌≤◌, Option, none, some, List, Text, ◌≡◌, refl, sym, ◌∙◌, ap,
  subst, arith, inl, inr, ◌⊎◌, ◌==◌, ℕ_eq, is_some, ltb, length, eq_sound, find?-passes, ltb→lt,
}
use flux_backend.Errors.FluxError.{internal, invalid_request}
use flux_backend.Services.Result.{
  ok, bind-ok, then-ok, present, present-ok, reject, reject-ok, require, require-ok,
}
use flux_backend.Services.Context.{Caller, Claims, minutes}
use flux_backend.Services.Tables.{Db, Tables, ContestRow, LockRow, is_timer}
use flux_backend.Services.Tables.LockQueries.{lock_by_id}
use flux_backend.Services.Tables.ContestQueries.{contest_row}
use flux_backend.Services.Locks.{FluxLock, get_lock_by_id, is_lock_expired}
use flux_backend.Services.Locks.Life.{get_lock_by_id-row}
use flux_backend.Services.Contests.{
  Contest, ContestProblem, validate_private_contest, validate_public_contest,
}
use flux_backend.Services.Contests.Edit.{create_params, validate_request, CreateContestRequest}
use flux_backend.Services.Contests.Shape.{IsPrivate, IsPublic}

not_some : {o : Option ℕ} → is_some o ≡ false → o ≡ none
not_some {o = none} h = refl
not_some {o = some a} h = absurd cc

not_before : {a b : ℕ} → ltb a b ≡ false → b ≤ a
not_before h = ground arith

lock_by_id-same :
    (id : ℕ) (rows : List LockRow) (l : LockRow) → lock_by_id id rows ≡ some l → l.id ≡ id
unfolding lock_by_id
lock_by_id-same id rows l h = eq_sound l.id id (find?-passes (λ r. r.id == id) rows l h)

module _ (accepts : Contest → Bool) where
  validate_private_contest-IsPrivate :
      (c : Caller) (k : Contest) (id : ℕ) (who : Claims)
      → validate_private_contest accepts c k ≡ ok tt
      → IsPrivate (contest_row id (create_params k who))
  unfolding validate_private_contest
  validate_private_contest-IsPrivate c k id who h =
      let accepted = then-ok (require (accepts k) invalid_request) _ h in
      let unlocked = then-ok (reject (is_some k.lock_id) invalid_request) _ accepted.2 in
      let start = bind-ok (present k.start_time invalid_request) _ unlocked.2 in
      let ahead = then-ok (reject (ltb start.0 (c.now + minutes 1)) invalid_request) _ start.2 in
      let ordered = then-ok (require (ltb start.0 k.end_time) invalid_request) _ ahead.2 in
      record {
        opening = start.0;
        unlocked = not_some (reject-ok (is_some k.lock_id) invalid_request unlocked.1);
        starts = present-ok k.start_time invalid_request start.1;
        ordered =
            ltb→lt start.0 k.end_time
              (require-ok (ltb start.0 k.end_time) invalid_request ordered.1);
        unpublished = reject-ok k.is_published invalid_request ordered.2;
      }

  validate_public_contest-IsPublic :
      (c : Caller) (db : Db) (k : Contest) (names : List Text) (id l : ℕ) (who : Claims)
      (lock : FluxLock)
      → k.lock_id ≡ some l
      → get_lock_by_id c db l ≡ ok lock
      → validate_public_contest accepts c k names lock ≡ ok tt
      → IsPublic db.tables (contest_row id (create_params k who))
        × ((k.is_published && ltb 0 (length names)) ≡ false)
  unfolding validate_public_contest
  validate_public_contest-IsPublic c db k names id l who lock locked got h =
      let accepted = then-ok (require (accepts k) invalid_request) _ h in
      let unstarted = then-ok (reject (is_some k.start_time) invalid_request) _ accepted.2 in
      let timed = then-ok (require (is_timer lock.lock_type) invalid_request) _ unstarted.2 in
      let expired = bind-ok (is_lock_expired c lock 1440) _ timed.2 in
      let fresh = then-ok (reject expired.0 invalid_request) _ expired.2 in
      let timeout = bind-ok (present lock.timeout internal) _ fresh.2 in
      let ends =
        then-ok (reject (ltb k.end_time (timeout.0 + minutes 5)) invalid_request) _ timeout.2 in
      let row = get_lock_by_id-row c db l got in
      let row_id : row.0.id ≡ l = lock_by_id-same l db.tables.locks row.0 row.1 in
      (
        record {
          lock = row.0;
          opening = timeout.0;
          locked = locked ∙ ap some (sym row_id);
          kept = ap (λ i. lock_by_id i db.tables.locks) row_id ∙ row.1;
          timed =
              subst (λ y. is_timer y ≡ true) row.2
                (require-ok (is_timer lock.lock_type) invalid_request timed.1);
          starts = sym row.3 ∙ present-ok lock.timeout internal timeout.1;
          no_start_of_its_own =
              not_some (reject-ok (is_some k.start_time) invalid_request unstarted.1);
          ordered =
              not_before
                (reject-ok (ltb k.end_time (timeout.0 + minutes 5)) invalid_request ends.1);
        },
        reject-ok (k.is_published && ltb 0 (length names)) invalid_request ends.2,
      )

-- What a request that is validated promises of its row.
pub record Promised (t : Tables) (row : ContestRow) (names : List Text) : Type 0 where
  pub kind : IsPrivate row ⊎ IsPublic t row
  pub nobody : (row.is_published && ltb 0 (length names)) ≡ false

module _ (accepts : Contest → Bool) (accepts_problem : ContestProblem → Bool) where
  pub validate_request-Promised :
      (c : Caller) (db : Db) (r : CreateContestRequest) (lock : Option ℕ) (start id : ℕ)
      (who : Claims)
      → r.contest_details.lock_id ≡ lock
      → validate_request accepts accepts_problem c db r lock ≡ ok start
      → Promised db.tables (contest_row id (create_params r.contest_details who)) r.registered_users
  validate_request-Promised c db r none start id who e h =
      let valid = then-ok (validate_private_contest accepts c r.contest_details) _ h in
      let private = validate_private_contest-IsPrivate accepts c r.contest_details id who valid.1 in
      record { kind = inl private; nobody = rw private.unpublished refl }
  validate_request-Promised c db r (some l) start id who e h =
      let lock = bind-ok (get_lock_by_id c db l) _ h in
      let valid =
        then-ok (validate_public_contest accepts c r.contest_details r.registered_users lock.0) _
          lock.2 in
      let public =
        validate_public_contest-IsPublic accepts c db r.contest_details r.registered_users id l who
          lock.0 e lock.1 valid.1 in
      record { kind = inr public.0; nobody = public.1 }
