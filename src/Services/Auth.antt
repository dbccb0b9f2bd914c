-- ===== src/Services/Auth.antt =====
-- internal/service/auth_service: verification tokens, signing up, resetting a password. The store is the
-- tables of users and tokens; bcrypt is two functions, the validator a Boolean answer. Between two
-- queries of a request nothing else writes the tables.
pub mod Accounts
pub mod Tokens
pub mod Once
mod Examples
use flux_backend.Common.{
  ℕ, suc, zero, Bool, true, false, not, ◌&&◌, ◌||◌, ◌+◌, Option, none, some, List, [], ◌∷◌, Text,
  text, Text_eq, ◌==◌, ◌≡◌, refl, inl, inr, any, find?, keep_if, map, delete_func, ltb,
  if◌then◌else◌,
}
use flux_backend.Errors.{DbError, PgError, handle_db_errors}
use flux_backend.Errors.DbError.{pg, no_rows}
use flux_backend.Errors.FluxError.{internal, invalid_request, not_found, corrupted_verification}
use flux_backend.Services.Result.{
  Result, ok, err, flux, Error, ◌>>=◌, ◌>>◌, require, reject, Answer, handled, or_internal, present,
}
use flux_backend.Services.Context.{minutes}
use flux_backend.Services.Tables.{unless_fault, unique_violation}
use flux_backend.Services.Tables.LockQueries.{one_row}

pub record Account : Type 0 where
  pub id : ℕ
  pub user_name : Text
  pub roll_no : Text
  pub first_name : Text
  pub last_name : Text
  pub email : Text
  pub password_hash : Text

pub record Token : Type 0 where
  pub hashed_token : Text
  pub purpose : Text
  pub email : Text
  pub expires_at : ℕ
  pub created_at : ℕ

pub record AuthTables : Type 0 where
  pub accounts : List Account
  pub tokens : List Token

pub data AuthQuery : Type 0 where
  create_token delete_by_email_and_purpose get_token_by_email_and_purpose create_user : AuthQuery
  reset_password_query get_user : AuthQuery

-- The database of a request: the queries that fail, the clock, the id that a new row gets, and which of
-- two rows of one time the query for the latest puts first.
pub record AuthDb : Type 0 where
  pub fault : AuthQuery → Option DbError
  pub now : ℕ
  pub new_id : ℕ
  pub prefers : Token → Token → Bool

pub record Bcrypt : Type 0 where
  -- CompareHashAndPassword
  pub matches : Text → Text → Bool
  -- GenerateFromPassword, with the salt it draws
  pub hash : Text → Option Text

abbrev pub purpose_sign_up : Text
purpose_sign_up = text "sign_up"

abbrev pub purpose_password_reset : Text
purpose_password_reset = text "reset_password"

abbrev pub is_for : Text → Text → Token → Bool
is_for mail purpose t = t.email == mail && t.purpose == purpose

-- ORDER BY created_at DESC LIMIT 1, which leaves the order of rows of one time to the database.
abbrev pub later : AuthDb → Token → Option Token → Option Token
later db t none = some t
later db t (some u) =
    if ltb t.created_at u.created_at
    then some u
    else if ltb u.created_at t.created_at
    then some t
    else if db.prefers t u
    then some t
    else some u

unfoldable pub latest_token : AuthDb → List Token → Option Token
latest_token db [] = none
latest_token db (t ∷ ts) = later db t (latest_token db ts)

unfoldable pub sql_get_token_by_email_and_purpose : AuthDb → Text → Text → AuthTables → Answer Token
sql_get_token_by_email_and_purpose db mail purpose s =
    one_row (latest_token db (keep_if (is_for mail purpose) s.tokens))

unfoldable pub sql_delete_by_email_and_purpose : Text → Text → AuthTables → AuthTables
sql_delete_by_email_and_purpose mail purpose s = record s {
  tokens = delete_func s.tokens (is_for mail purpose);
}

-- The hash of a token is unique.
unfoldable pub sql_create_token : Token → AuthTables → Answer (Token × AuthTables)
sql_create_token t s =
    if any (λ u. u.hashed_token == t.hashed_token) s.tokens
    then inl (unique_violation (text "tokens_hashed_token_key"))
    else inr (t, record s { tokens = t ∷ s.tokens })

abbrev pub default_token_expiry_minutes : ℕ
default_token_expiry_minutes = 15

abbrev pub new_token : AuthDb → Text → Text → Text → Token
new_token db mail purpose hashed = record {
  hashed_token = hashed;
  purpose = purpose;
  email = mail;
  expires_at = db.now + minutes default_token_expiry_minutes;
  created_at = db.now;
}

unfoldable pub create_token_in_db :
    AuthDb → AuthTables → Text → Text → Text → Result (Token × AuthTables)
create_token_in_db db s mail purpose hashed =
    or_internal
      (unless_fault (db.fault create_token) (sql_create_token (new_token db mail purpose hashed) s))

-- The errors of verifyToken: no token, a failing query.
abbrev pub found_token : Answer Token → Result Token
found_token (inr t) = ok t
found_token (inl no_rows) = err (flux corrupted_verification)
found_token (inl _) = err (flux internal)

module _ (bcrypt : Bcrypt) where
  unfoldable pub verify_token : AuthDb → AuthTables → Text → Text → Text → Result Token
  verify_token db s token mail purpose = do
    reject (mail == []) corrupted_verification
    t ← found_token (
        unless_fault (db.fault get_token_by_email_and_purpose)
          (sql_get_token_by_email_and_purpose db mail purpose s))
    require (bcrypt.matches t.hashed_token token) corrupted_verification
    ok t

  unfoldable pub invalidate_verification_token :
      AuthDb → AuthTables → Text → Text → Text → Result (Unit {0} × AuthTables)
  invalidate_verification_token db s token mail purpose = do
    verify_token db s token mail purpose
    or_internal (
        unless_fault (db.fault delete_by_email_and_purpose)
          (inr (tt, sql_delete_by_email_and_purpose mail purpose s)))

  -- What an operation that may fail leaves of the tables.
  abbrev pub left : AuthTables → Result (Unit {0} × AuthTables) → AuthTables
  left s (ok (u, t)) = t
  left s (err e) = s

  abbrev pub at_time : AuthTables → AuthTables → Bool → Result (Unit {0}) × AuthTables
  at_time cleared s true = (err (flux invalid_request), cleared)
  at_time cleared s false = (ok tt, s)

  -- An expired token is refused, after the tokens for signing up have been invalidated, whatever the
  -- purpose of the expired one; the error of the invalidation is dropped.
  abbrev pub unless_expired :
      AuthDb → AuthTables → Text → Text → Result Token → Result (Unit {0}) × AuthTables
  unless_expired db s token mail (err e) = (err e, s)
  unless_expired db s token mail (ok t) =
      let cleared = left s (invalidate_verification_token db s token mail purpose_sign_up) in
      at_time cleared s (ltb t.expires_at db.now)

  unfoldable pub validate_verification_token :
      AuthDb → AuthTables → Text → Text → Text → Result (Unit {0}) × AuthTables
  validate_verification_token db s token mail purpose =
      unless_expired db s token mail (verify_token db s token mail purpose)
