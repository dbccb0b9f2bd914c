-- ===== src/Services/Auth/Examples.antt =====
-- Concrete runs of signing up and of its tokens.
use flux_backend.Common.{
  ℕ, Bool, true, false, none, some, [], ◌∷◌, Text, text, Text_eq, ◌==◌, ◌≡◌, refl, any, ◌||◌, ◌↔◌,
  arith, ◌+◌, if◌then◌else◌, ℕ_eq,
}
use flux_backend.Services.Result.{Result, ok, or_internal, handled}
use flux_backend.Services.Context.{minutes}
use flux_backend.Services.Auth.{
  Account, Token, AuthTables, AuthDb, Bcrypt, new_token, create_token_in_db, sql_create_token,
  verify_token, validate_verification_token, invalidate_verification_token,
  sql_get_token_by_email_and_purpose, sql_delete_by_email_and_purpose, latest_token,
  purpose_sign_up,
}
use flux_backend.Services.Auth.Accounts.{
  UserRegestration, account_of, sql_create_user, attempts, create_user_in_db, sign_up,
}
use flux_backend.Services.Auth.Tokens.{
  Acceptable, validate_verification_token_iff, created_token_accepted,
}
use flux_backend.Services.Auth.Once.{sign_up-account}

-- A hash that keeps the text as it is.
abbrev plain : Bcrypt
plain = record { matches = λ hashed token. hashed == token; hash = λ password. some password }

abbrev db : AuthDb
db = record { fault = λ q. none; now = 1000; new_id = 2; prefers = λ t u. true }

abbrev later_db : AuthDb
later_db = record db { now = 1000 + minutes 10 }

abbrev mail : Text
mail = text "a@b.c"

abbrev code : Text
code = text "k7"

abbrev sign_up_token : Token
sign_up_token = new_token db mail purpose_sign_up code

abbrev old : Account
old = record {
  id = 1;
  user_name = text "flux#leeann300";
  roll_no = text "r1";
  first_name = text "ann";
  last_name = text "lee";
  email = text "x@y.z";
  password_hash = text "secret";
}

abbrev before : AuthTables
before = record { accounts = old ∷ []; tokens = [] }

abbrev ready : AuthTables
ready = record before { tokens = sign_up_token ∷ [] }

made : create_token_in_db db before mail purpose_sign_up code ≡ ok (sign_up_token, ready)
unfolding create_token_in_db sql_create_token or_internal
made = refl

-- Since then another mail has got a token.
abbrev meanwhile : AuthTables
meanwhile = record ready {
  tokens = new_token later_db (text "x@y.z") purpose_sign_up (text "k8") ∷ ready.tokens;
}

created_token_accepted_example :
    validate_verification_token plain later_db meanwhile code mail purpose_sign_up
    ≡ (ok tt, meanwhile)
created_token_accepted_example =
    created_token_accepted plain db later_db before meanwhile code code mail purpose_sign_up
      (sign_up_token, ready) (λ e. cc) refl tt refl (ground arith) made refl

validate_verification_token_iff_example :
    (((validate_verification_token plain later_db ready code mail purpose_sign_up).0 ≡ ok tt)
      ↔ Acceptable plain later_db ready code mail purpose_sign_up)
    × ((validate_verification_token plain later_db ready code mail purpose_sign_up ≡ (ok tt, ready))
        ↔ Acceptable plain later_db ready code mail purpose_sign_up)
validate_verification_token_iff_example =
    validate_verification_token_iff plain later_db ready code mail purpose_sign_up refl

abbrev registration : UserRegestration
registration = record {
  roll_no = text "r2";
  first_name = text "ann";
  last_name = text "lee";
  password = text "longsecret";
  user_mail = mail;
  verification_token = code;
}

-- The first name that is tried is taken.
abbrev names : ℕ → Result Text
names i = if i == 14 then ok (text "flux#leeann300") else ok (text "flux#leeann301")

abbrev never : ℕ → Bool
never i = false

abbrev anyone : UserRegestration → Bool
anyone r = true

abbrev new : Account
new = account_of 2 registration (text "longsecret") (text "flux#leeann301")

abbrev after_sign_up : AuthTables
after_sign_up = record { accounts = new ∷ old ∷ []; tokens = [] }

signed_up : sign_up db names never plain anyone ready registration ≡ (ok new, after_sign_up)
unfolding sign_up validate_verification_token verify_token sql_get_token_by_email_and_purpose
    latest_token create_user_in_db attempts sql_create_user handled invalidate_verification_token
    or_internal sql_delete_by_email_and_purpose
signed_up = refl

sign_up-account_example :
    (after_sign_up.accounts ≡ new ∷ ready.accounts)
    × (new.email ≡ mail)
    × (new.roll_no ≡ text "r2")
    × (any
          (λ b. b.user_name == new.user_name || b.roll_no == new.roll_no || b.email == new.email)
          ready.accounts
        ≡ false)
sign_up-account_example =
    sign_up-account plain db names never anyone ready after_sign_up registration new signed_up
