-- ===== src/Services/Locks.antt =====
-- internal/service/lock_service. `accepts` stands for the validator package's check of a lock against
-- its struct tags; the caller's clock is the one that validations read.
pub mod Life
pub mod Access
use flux_backend.Common.{
  ℕ, Bool, true, false, not, Option, none, some, List, Text, text, ◌≡◌, refl, ◌+◌, ltb, nat_eq,
  is_some, inl, inr, if◌then◌else◌,
}
use flux_backend.Errors.{FluxError, DbError}
use flux_backend.Errors.FluxError.{internal, invalid_request, unauthorized, not_found}
use flux_backend.Services.Result.{
  Result, ok, err, flux, explained, driver, ◌>>=◌, ◌>>◌, require, reject, present, Answer, handled,
  Error,
}
use flux_backend.Services.Context.{
  Caller, Claims, get_claims_from_context, authorize_user_role, authorize_creator_access,
  role_manager, minutes,
}
use flux_backend.Services.Tables.{
  Db, Tables, LockRow, LockType, manual, timer, is_timer, same_type, ask, Query,
}
use flux_backend.Services.Tables.LockQueries.{
  CreateLockParams, UpdateLockParams, sql_create_lock, sql_get_lock_by_id, sql_delete_lock_by_id,
  sql_update_lock_details,
}

pub record FluxLock : Type 0 where
  pub id : ℕ
  pub name : Text
  pub created_by : ℕ
  pub lock_type : LockType
  pub created_at : ℕ
  pub timeout : Option ℕ
  pub description : Text
  pub access : Text

unfoldable pub db_lock_to_service_lock : LockRow → FluxLock
db_lock_to_service_lock l = record {
  id = l.id;
  name = l.name;
  created_by = l.created_by;
  lock_type = l.lock_type;
  created_at = l.created_at;
  timeout = l.timeout;
  description = l.description;
  access = l.access;
}

-- AuthorizeLock: a lock whose timeout has passed lets everyone in.
abbrev pub has_passed : Caller → Option ℕ → Bool
has_passed c none = false
has_passed c (some t) = ltb t c.now

unfoldable pub authorize_lock : Caller → Option ℕ → Text → Result (Unit {0})
authorize_lock c timeout access =
    let by_role = authorize_user_role c access in if has_passed c timeout then ok tt else by_role

-- IsLockExpired, with its delay in minutes.
unfoldable pub is_lock_expired : Caller → FluxLock → ℕ → Result Bool
is_lock_expired c l delay = elim l.lock_type [
  | manual ↦ ok false
  | timer ↦ elim l.timeout [
    | none ↦ err (flux internal)
    | some t ↦ ok (ltb t (c.now + minutes delay))
  ]
]

-- A lock that the caller may not see is not found, with a text of its own.
abbrev pub hidden_text : Text
hidden_text = text "cannot find lock with given id"

abbrev pub is_unauthorized : Error → Bool
is_unauthorized (flux unauthorized) = true
is_unauthorized _ = false

abbrev pub hidden : Result (Unit {0}) → Result (Unit {0})
hidden (ok u) = ok u
hidden (err e) = if is_unauthorized e then err (explained not_found hidden_text) else err e

unfoldable pub get_lock_by_id : Caller → Db → ℕ → Result FluxLock
get_lock_by_id c db id = do
  get_claims_from_context c
  row ← handled (ask db Query.get_lock_by_id (sql_get_lock_by_id id db.tables))
  hidden (authorize_user_role c row.access)
  ok (db_lock_to_service_lock row)

unfoldable pub delete_lock : Caller → Db → ℕ → Result (Unit {0} × Tables)
delete_lock c db id = do
  get_claims_from_context c
  l ← get_lock_by_id c db id
  authorize_creator_access c l.created_by
  reject (is_timer l.lock_type) invalid_request
  handled (ask db Query.delete_lock_by_id (sql_delete_lock_by_id id db.tables))

-- CreateLock returns the driver's error as it is: the translated error is dropped.
abbrev pub as_it_is {ℓ} : {A : Type ℓ} → Answer A → Result A
as_it_is (inl e) = err (driver e)
as_it_is (inr a) = ok a

pub as_it_is-ok {ℓ} : {A : Type ℓ} (r : Answer A) {a : A} → as_it_is r ≡ ok a → r ≡ inr a
as_it_is-ok (inl e) h = cc
as_it_is-ok (inr x) h = cc

module _ (accepts : FluxLock → Bool) where
  unfoldable pub validate_manual_lock : FluxLock → Result (Unit {0})
  validate_manual_lock l = do
    require (accepts l) invalid_request
    reject (is_some l.timeout) invalid_request

  -- The zero time.Time is refused.
  unfoldable pub validate_timer_lock_timeout : Caller → FluxLock → Result (Unit {0})
  validate_timer_lock_timeout c l = do
    require (accepts l) invalid_request
    t ← present l.timeout invalid_request
    reject (nat_eq t 0) invalid_request
    reject (ltb t c.now) invalid_request

  abbrev pub validate_as : Caller → FluxLock → LockType → Result (Unit {0})
  validate_as c l manual = validate_manual_lock l
  validate_as c l timer = validate_timer_lock_timeout c l

  unfoldable pub validate_lock : Caller → FluxLock → Result (Unit {0})
  validate_lock c l = validate_as c l l.lock_type

  abbrev pub lock_params : FluxLock → Claims → CreateLockParams
  lock_params l who = record {
    timeout = l.timeout;
    lock_type = l.lock_type;
    name = l.name;
    created_by = who.user_id;
    description = l.description;
  }

  unfoldable pub create_lock : Caller → Db → FluxLock → Result (FluxLock × Tables)
  create_lock c db l = do
    who ← get_claims_from_context c
    authorize_user_role c role_manager
    validate_lock c l
    made ← as_it_is (
        ask db Query.create_lock (sql_create_lock db.new_id db.clock (lock_params l who) db.tables))
    ok (db_lock_to_service_lock made.0, made.1)

  unfoldable pub validate_lock_update : FluxLock → FluxLock → Result (Unit {0})
  validate_lock_update previous new = do
    require (same_type previous.lock_type new.lock_type) invalid_request
    reject (is_timer previous.lock_type) invalid_request
    validate_manual_lock new

  abbrev pub update_params : FluxLock → UpdateLockParams
  update_params l = record {
    id = l.id;
    name = l.name;
    timeout = l.timeout;
    description = l.description;
  }

  unfoldable pub update_lock : Caller → Db → FluxLock → Result (FluxLock × Tables)
  update_lock c db l = do
    get_claims_from_context c
    previous ← get_lock_by_id c db l.id
    authorize_creator_access c previous.created_by
    validate_lock_update previous l
    made ←
        handled
          (ask db Query.update_lock_details (sql_update_lock_details (update_params l) db.tables))
    ok (db_lock_to_service_lock made.0, made.1)
