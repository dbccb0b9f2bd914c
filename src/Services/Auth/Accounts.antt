-- ===== src/Services/Auth/Accounts.antt =====
-- auth_service/signup.go and reset_password.go: the account that signing up creates, with its retries
-- for a free user name, and the reset of a password.
use flux_backend.Common.{
  ℕ, suc, zero, Bool, false, Option, none, some, ◌∷◌, Text, text, Text_eq, ◌==◌, inl, inr, any,
  find?, map, if◌then◌else◌,
}
use flux_backend.Errors.{DbError}
use flux_backend.Errors.DbError.{pg, no_rows}
use flux_backend.Errors.FluxError.{internal, invalid_request, not_found}
use flux_backend.Services.Result.{
  Result, ok, err, flux, ◌>>=◌, ◌>>◌, require, Answer, handled, or_internal, present,
}
use flux_backend.Services.Tables.{unless_fault, unique_violation}
use flux_backend.Services.Auth.{
  Account, AuthTables, AuthDb, Bcrypt, create_user, reset_password_query, get_user,
  validate_verification_token, invalidate_verification_token, purpose_sign_up,
  purpose_password_reset,
}

pub record UserRegestration : Type 0 where
  pub roll_no : Text
  pub first_name : Text
  pub last_name : Text
  pub password : Text
  pub user_mail : Text
  pub verification_token : Text

abbrev pub account_of : ℕ → UserRegestration → Text → Text → Account
account_of new_id r password_hash user_name = record {
  id = new_id;
  user_name = user_name;
  roll_no = r.roll_no;
  first_name = r.first_name;
  last_name = r.last_name;
  email = r.user_mail;
  password_hash = password_hash;
}

-- The three unique columns. Which constraint is reported when several are violated is the database's
-- choice; the name comes first here.
unfoldable pub sql_create_user : Account → AuthTables → Answer (Account × AuthTables)
sql_create_user a s =
    if any (λ b. b.user_name == a.user_name) s.accounts
    then inl (unique_violation (text "uq_users_user_name"))
    else if any (λ b. b.roll_no == a.roll_no) s.accounts
    then inl (unique_violation (text "uq_users_roll_no"))
    else if any (λ b. b.email == a.email) s.accounts
    then inl (unique_violation (text "uq_users_email"))
    else inr (a, record s { accounts = a ∷ s.accounts })

abbrev pub is_name_taken : DbError → Bool
is_name_taken (pg e) = e.constraint_name == text "uq_users_user_name"
is_name_taken _ = false

abbrev pub max_user_name_retries : ℕ
max_user_name_retries = 15

-- The retries that are left; `names i` is what genRandUserName gives in the attempt with i to go, and
-- `is_done i` whether the request's time is over by then.
module _ (db : AuthDb) (names : ℕ → Result Text) (is_done : ℕ → Bool) where
  abbrev pub after_attempt :
      Answer (Account × AuthTables) → Result (Account × AuthTables) → Result (Account × AuthTables)
  after_attempt (inr made) rest = ok made
  after_attempt (inl e) rest = if is_name_taken e then rest else handled (inl e)

  unfoldable pub attempts : ℕ → AuthTables → UserRegestration → Text → Result (Account × AuthTables)
  attempts zero s r password_hash = err (flux internal)
  attempts (suc n) s r password_hash =
      let rest = attempts n s r password_hash in
      let attempt = do
        user_name ← names n
        after_attempt
            (unless_fault (db.fault create_user)
              (sql_create_user (account_of db.new_id r password_hash user_name) s))
            rest
      in if is_done n then err (flux internal) else attempt

  unfoldable pub create_user_in_db :
      AuthTables → UserRegestration → Text → Result (Account × AuthTables)
  create_user_in_db s r password_hash = attempts max_user_name_retries s r password_hash

  module _ (bcrypt : Bcrypt) (accepts : UserRegestration → Bool) where
    -- The end of SignUp. When the token cannot be invalidated, the caller is told of a failure, and the
    -- account stays.
    abbrev pub close :
        Account → AuthTables → Result (Unit {0} × AuthTables) → Result Account × AuthTables
    close a t (ok (u, v)) = (ok a, v)
    close a t (err e) = (err e, t)

    abbrev pub finish :
        AuthTables → UserRegestration → Result (Account × AuthTables) → Result Account × AuthTables
    finish s r (err e) = (err e, s)
    finish s r (ok (a, t)) =
        close a t (
          invalidate_verification_token bcrypt db t r.verification_token r.user_mail
            purpose_sign_up)

    abbrev pub after_check :
        UserRegestration → Result (Unit {0}) × AuthTables → Result Account × AuthTables
    after_check r (err e, s) = (err e, s)
    after_check r (ok u, s) = finish s r (do
      require (accepts r) invalid_request
      password_hash ← present (bcrypt.hash r.password) internal
      create_user_in_db s r password_hash)

    -- SignUp: the account, and the tables as they are left.
    unfoldable pub sign_up : AuthTables → UserRegestration → Result Account × AuthTables
    sign_up s r =
        after_check r
          (validate_verification_token bcrypt db s r.verification_token r.user_mail purpose_sign_up)

-- GetUserByUserNameOrRollNo and GetUserProfile, which read one row.
abbrev pub found_account : Answer (Option Account) → Result Account
found_account (inl no_rows) = err (flux not_found)
found_account (inl e) = err (flux internal)
found_account (inr none) = err (flux not_found)
found_account (inr (some a)) = ok a

unfoldable pub get_account : AuthDb → AuthTables → Option Text → Option Text → Result Account
get_account db s (some name) roll =
    found_account
      (unless_fault (db.fault get_user) (inr (find? (λ a. a.user_name == name) s.accounts)))
get_account db s none (some roll) =
    found_account
      (unless_fault (db.fault get_user) (inr (find? (λ a. a.roll_no == roll) s.accounts)))
get_account db s none none = err (flux invalid_request)

abbrev pub with_password : Text → Text → Account → Account
with_password name password_hash a =
    if a.user_name == name then record a { password_hash = password_hash } else a

unfoldable pub sql_reset_password : Text → Text → AuthTables → AuthTables
sql_reset_password name password_hash s = record s {
  accounts = map (with_password name password_hash) s.accounts;
}

pub record ResetPasswordRequest : Type 0 where
  pub user_name : Option Text
  pub roll_no : Option Text
  pub password : Text
  pub token : Text

module _ (bcrypt : Bcrypt) (accepts_password : Text → Bool) where
  -- The end of ResetPassword: the error of the invalidation is dropped.
  abbrev pub clear_token : AuthDb → AuthTables → ResetPasswordRequest → Account → AuthTables
  clear_token db s r a =
      elim (invalidate_verification_token bcrypt db s r.token a.email purpose_password_reset) [
        | ok (u, t) ↦ t
        | err e ↦ s
      ]

  abbrev pub store_password :
      AuthDb → AuthTables → ResetPasswordRequest → Account → Text → Result (Unit {0} × AuthTables)
  store_password db s r a password_hash = do
    stored ← or_internal (
        unless_fault (db.fault reset_password_query)
          (inr (sql_reset_password a.user_name password_hash s)))
    ok (tt, clear_token db stored r a)

  abbrev pub or_kept : AuthTables → Result (Unit {0} × AuthTables) → Result (Unit {0}) × AuthTables
  or_kept s (ok (u, t)) = (ok u, t)
  or_kept s (err e) = (err e, s)

  abbrev pub reset_checked :
      AuthDb
      → ResetPasswordRequest
      → Account
      → Result (Unit {0}) × AuthTables
      → Result (Unit {0}) × AuthTables
  reset_checked db r a (err e, s) = (err e, s)
  reset_checked db r a (ok u, s) = or_kept s (do
    require (accepts_password r.password) invalid_request
    password_hash ← present (bcrypt.hash r.password) internal
    store_password db s r a password_hash)

  abbrev pub reset_for :
      AuthDb → AuthTables → ResetPasswordRequest → Result Account → Result (Unit {0}) × AuthTables
  reset_for db s r (err e) = (err e, s)
  reset_for db s r (ok a) =
      reset_checked db r a
        (validate_verification_token bcrypt db s r.token a.email purpose_password_reset)

  unfoldable pub reset_password :
      AuthDb → AuthTables → ResetPasswordRequest → Result (Unit {0}) × AuthTables
  reset_password db s r = reset_for db s r (get_account db s r.user_name r.roll_no)
