-- ===== src/Services/Locks/Life.antt =====
-- What becomes of a timer lock: through every operation on locks, whoever makes it and however it
-- ends, the lock stays what it was when it was created.
use flux_backend.Common.{
  ℕ, Bool, true, false, none, some, List, [], ◌∷◌, ◌≡◌, ◌≢◌, refl, inr, ◌==◌, ℕ_eq, map,
  delete_func, arith, sym, ◌∙◌, ap, eq_of_ne, subst,
}
use flux_backend.Errors.FluxError.{invalid_request}
use flux_backend.Services.Result.{
  Result, ok, err, handled, bind-ok, then-ok, ok-injective, require, reject, reject-ok,
}
use flux_backend.Services.Context.{
  role_manager, Caller, authorize_user_role, get_claims_from_context, authorize_creator_access,
}
use flux_backend.Services.Tables.{
  Db, Tables, LockRow, is_timer, same_type, ask, Query, after, ask-inr, unless_fault-inr,
}
use flux_backend.Services.Tables.LockQueries.{
  lock_by_id, sql_create_lock, sql_delete_lock_by_id, sql_update_lock_details, sql_get_lock_by_id,
  one_row-inr, UpdateLockParams, CreateLockParams, with_details,
}
use flux_backend.Services.Locks.{
  FluxLock, create_lock, update_lock, delete_lock, get_lock_by_id, db_lock_to_service_lock,
  validate_lock_update, validate_lock, lock_params, as_it_is, as_it_is-ok, hidden, update_params,
}

pub lock_by_id-delete :
    (id other : ℕ) (rows : List LockRow)
    → other ≢ id
    → lock_by_id id (delete_func rows (λ l. l.id == other)) ≡ lock_by_id id rows
unfolding lock_by_id
lock_by_id-delete id other [] ne = refl
lock_by_id-delete id other (l ∷ rows) ne = ground (arith, lock_by_id-delete id other rows ne)

pub lock_by_id-update :
    (id : ℕ) (p : UpdateLockParams) (rows : List LockRow)
    → p.id ≢ id
    → lock_by_id id (map (with_details p) rows) ≡ lock_by_id id rows
unfolding lock_by_id
lock_by_id-update id p [] ne = refl
lock_by_id-update id p (l ∷ rows) ne = ground (arith, lock_by_id-update id p rows ne)

-- A lock that the service returns is the row of that id.
pub get_lock_by_id-row :
    (c : Caller) (db : Db) (id : ℕ) {l : FluxLock}
    → get_lock_by_id c db id ≡ ok l
    → (row : LockRow) × (lock_by_id id db.tables.locks ≡ some row)
      × (l.lock_type ≡ row.lock_type)
      × (l.timeout ≡ row.timeout)
unfolding get_lock_by_id sql_get_lock_by_id db_lock_to_service_lock
get_lock_by_id-row c db id h =
    let claims = then-ok (get_claims_from_context c) _ h in
    let fetched =
      bind-ok (handled (ask db Query.get_lock_by_id (sql_get_lock_by_id id db.tables))) _
        claims.2 in
    let seen = then-ok (hidden (authorize_user_role c fetched.0.access)) _ fetched.2 in
    (
      fetched.0,
      one_row-inr (lock_by_id id db.tables.locks)
          (ask-inr db Query.get_lock_by_id (sql_get_lock_by_id id db.tables) fetched.1),
      ground (arith, seen.2),
      ground (arith, seen.2),
    )

-- The row is in both tables.
abbrev pub IsKept : LockRow → Tables → Type 0
IsKept l t = lock_by_id l.id t.locks ≡ some l

some_not_none : {l : LockRow} → some l ≡ none → ⊥
some_not_none h = cc

-- A lock that is not a timer has another id than a timer.
lock_by_id-other :
    (id : ℕ) (rows : List LockRow) (l row : LockRow)
    → lock_by_id l.id rows ≡ some l
    → is_timer l.lock_type ≡ true
    → lock_by_id id rows ≡ some row
    → is_timer row.lock_type ≡ false
    → id ≢ l.id
lock_by_id-other id rows l row kept timed found untimed same =
    let both : some row ≡ some l = sym found ∙ ap (λ i. lock_by_id i rows) same ∙ kept in cc

sql_create_lock-keeps :
    (id clock : ℕ) (p : CreateLockParams) (t : Tables) (l : LockRow) {a : LockRow × Tables}
    → sql_create_lock id clock p t ≡ inr a
    → id ≢ l.id
    → IsKept l t
    → IsKept l a.1
unfolding sql_create_lock lock_by_id
sql_create_lock-keeps id clock p t l h ne kept = ground (arith, eq_of_ne id l.id ne)

sql_delete_lock-keeps :
    (id : ℕ) (t : Tables) (l : LockRow) {a : Unit {0} × Tables}
    → sql_delete_lock_by_id id t ≡ inr a
    → id ≢ l.id
    → IsKept l t
    → IsKept l a.1
unfolding sql_delete_lock_by_id
sql_delete_lock-keeps id t l h ne kept = ground (arith, lock_by_id-delete l.id id t.locks ne)

sql_update_lock-keeps :
    (p : UpdateLockParams) (t : Tables) (l : LockRow) {a : LockRow × Tables}
    → sql_update_lock_details p t ≡ inr a
    → p.id ≢ l.id
    → IsKept l t
    → IsKept l a.1
unfolding sql_update_lock_details
sql_update_lock-keeps p t l h ne kept = ground (arith, lock_by_id-update l.id p t.locks ne)

-- What a deletion that succeeds has gone through.
pub delete_lock-ran :
    (c : Caller) (db : Db) (id : ℕ) {a : Unit {0} × Tables}
    → delete_lock c db id ≡ ok a
    → (sql_delete_lock_by_id id db.tables ≡ inr a)
      × (row : LockRow) × (lock_by_id id db.tables.locks ≡ some row)
      × (is_timer row.lock_type ≡ false)
unfolding delete_lock
delete_lock-ran c db id h =
    let claims = then-ok (get_claims_from_context c) _ h in
    let fetched = bind-ok (get_lock_by_id c db id) _ claims.2 in
    let allowed = then-ok (authorize_creator_access c fetched.0.created_by) _ fetched.2 in
    let unlocked = then-ok (reject (is_timer fetched.0.lock_type) invalid_request) _ allowed.2 in
    let row = get_lock_by_id-row c db id fetched.1 in
    (
      ask-inr db Query.delete_lock_by_id (sql_delete_lock_by_id id db.tables) unlocked.2,
      row.0,
      row.1,
      subst (λ x. is_timer x ≡ false) row.2
          (reject-ok (is_timer fetched.0.lock_type) invalid_request unlocked.1),
    )

module _ (accepts : FluxLock → Bool) where
  validate_lock_update-untimed :
      (previous new : FluxLock)
      → validate_lock_update accepts previous new ≡ ok tt
      → is_timer previous.lock_type ≡ false
  unfolding validate_lock_update
  validate_lock_update-untimed previous new h =
      let typed =
        then-ok (require (same_type previous.lock_type new.lock_type) invalid_request) _ h in
      let untimed = then-ok (reject (is_timer previous.lock_type) invalid_request) _ typed.2 in
      reject-ok (is_timer previous.lock_type) invalid_request untimed.1

  pub update_lock-ran :
      (c : Caller) (db : Db) (new : FluxLock) {a : FluxLock × Tables}
      → update_lock accepts c db new ≡ ok a
      → (made : LockRow × Tables) × (sql_update_lock_details (update_params accepts new) db.tables
          ≡ inr made)
        × (made.1 ≡ a.1)
        × (row : LockRow) × (lock_by_id new.id db.tables.locks ≡ some row)
        × (is_timer row.lock_type ≡ false)
  unfolding update_lock
  update_lock-ran c db new h =
      let p = update_params accepts new in
      let claims = then-ok (get_claims_from_context c) _ h in
      let fetched = bind-ok (get_lock_by_id c db new.id) _ claims.2 in
      let allowed = then-ok (authorize_creator_access c fetched.0.created_by) _ fetched.2 in
      let valid = then-ok (validate_lock_update accepts fetched.0 new) _ allowed.2 in
      let made =
        bind-ok (handled (ask db Query.update_lock_details (sql_update_lock_details p db.tables))) _
          valid.2 in
      let row = get_lock_by_id-row c db new.id fetched.1 in
      (
        made.0,
        ask-inr db Query.update_lock_details (sql_update_lock_details p db.tables) made.1,
        ap (λ r. r.1) (ok-injective made.2),
        row.0,
        row.1,
        subst (λ x. is_timer x ≡ false) row.2 (validate_lock_update-untimed fetched.0 new valid.1),
      )

  pub create_lock-ran :
      (c : Caller) (db : Db) (new : FluxLock) {a : FluxLock × Tables}
      → create_lock accepts c db new ≡ ok a
      → (p : CreateLockParams) × (made : LockRow × Tables) × (sql_create_lock db.new_id db.clock p
            db.tables
          ≡ inr made)
        × (made.1 ≡ a.1)
  unfolding create_lock
  create_lock-ran c db new h =
      let who = bind-ok (get_claims_from_context c) _ h in
      let allowed = then-ok (authorize_user_role c role_manager) _ who.2 in
      let valid = then-ok (validate_lock accepts c new) _ allowed.2 in
      let p = lock_params accepts new who.0 in
      let answer = ask db Query.create_lock (sql_create_lock db.new_id db.clock p db.tables) in
      let made = bind-ok (as_it_is answer) _ valid.2 in
      (
        p,
        made.0,
        unless_fault-inr (db.fault Query.create_lock)
            (sql_create_lock db.new_id db.clock p db.tables) (as_it_is-ok answer made.1),
        ap (λ r. r.1) (ok-injective made.2),
      )

-- One operation of the lock service. The id of a lock that is created is that of no other row.
pub data LockStep (accepts : FluxLock → Bool) : Tables → Tables → Type 0 where
  creates :
      (c : Caller) (db : Db) (new : FluxLock)
      → lock_by_id db.new_id db.tables.locks ≡ none
      → LockStep accepts db.tables (after db (create_lock accepts c db new))
  updates :
      (c : Caller) (db : Db) (new : FluxLock)
      → LockStep accepts db.tables (after db (update_lock accepts c db new))
  deletes :
      (c : Caller) (db : Db) (id : ℕ) → LockStep accepts db.tables (after db (delete_lock c db id))

pub data LockSteps (accepts : FluxLock → Bool) : Tables → Tables → Type 0 where
  stay : {t : Tables} → LockSteps accepts t t
  step : {t u v : Tables} → LockStep accepts t u → LockSteps accepts u v → LockSteps accepts t v

module _ (l : LockRow) (timed : is_timer l.lock_type ≡ true) (accepts : FluxLock → Bool) where
  create_lock-keeps :
      (c : Caller) (db : Db) (new : FluxLock)
      → lock_by_id db.new_id db.tables.locks ≡ none
      → IsKept l db.tables
      → (r : Result (FluxLock × Tables)) → create_lock accepts c db new ≡ r
      → IsKept l (after db r)
  create_lock-keeps c db new fresh kept (err e) h = kept
  create_lock-keeps c db new fresh kept (ok a) h =
      let ran = create_lock-ran accepts c db new h in
      let ne : db.new_id ≢ l.id = λ same.
        absurd
          (some_not_none (sym kept ∙ sym (ap (λ i. lock_by_id i db.tables.locks) same) ∙ fresh)) in
      subst (IsKept l) ran.3
        (sql_create_lock-keeps db.new_id db.clock ran.0 db.tables l ran.2 ne kept)

  delete_lock-keeps :
      (c : Caller) (db : Db) (id : ℕ)
      → IsKept l db.tables
      → (r : Result (Unit {0} × Tables)) → delete_lock c db id ≡ r
      → IsKept l (after db r)
  delete_lock-keeps c db id kept (err e) h = kept
  delete_lock-keeps c db id kept (ok a) h =
      let ran = delete_lock-ran c db id h in
      sql_delete_lock-keeps id db.tables l ran.0
        (lock_by_id-other id db.tables.locks l ran.1 kept timed ran.2 ran.3) kept

  update_lock-keeps :
      (c : Caller) (db : Db) (new : FluxLock)
      → IsKept l db.tables
      → (r : Result (FluxLock × Tables)) → update_lock accepts c db new ≡ r
      → IsKept l (after db r)
  update_lock-keeps c db new kept (err e) h = kept
  update_lock-keeps c db new kept (ok a) h =
      let ran = update_lock-ran accepts c db new h in
      subst (IsKept l) ran.2 (
        sql_update_lock-keeps (update_params accepts new) db.tables l ran.1
          (lock_by_id-other new.id db.tables.locks l ran.3 kept timed ran.4 ran.5) kept)

  pub step-keeps : {t u : Tables} → LockStep accepts t u → IsKept l t → IsKept l u
  step-keeps (creates c db new fresh) kept = create_lock-keeps c db new fresh kept _ refl
  step-keeps (updates c db new) kept = update_lock-keeps c db new kept _ refl
  step-keeps (deletes c db id) kept = delete_lock-keeps c db id kept _ refl

-- A timer lock stays exactly as it is, through any sequence of operations of the lock service, whoever
-- makes them and whatever they return.
pub timer_lock_stays :
    (accepts : FluxLock → Bool) (l : LockRow) {t u : Tables}
    → is_timer l.lock_type ≡ true
    → IsKept l t
    → LockSteps accepts t u
    → IsKept l u
timer_lock_stays accepts l timed kept stay = kept
timer_lock_stays accepts l timed kept (step s rest) =
    timer_lock_stays accepts l timed (step-keeps l timed accepts s kept) rest
