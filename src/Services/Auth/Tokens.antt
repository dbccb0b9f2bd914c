-- ===== src/Services/Auth/Tokens.antt =====
-- Which verification tokens are accepted, and for how long.
use flux_backend.Common.{
  ℕ, Bool, true, false, ◌&&◌, ◌+◌, ◌≤◌, ◌<◌, lt→ltb, Option, none, some, List, [], ◌∷◌, Text,
  Text_eq, ◌==◌, ◌≡◌, ◌≢◌, refl, sym, ◌∙◌, ap, subst, arith, inl, inr, ◌↔◌, keep_if, ltb,
  Bool-cases, eq_refl, eq_of_ne, All,
}
use flux_backend.Errors.DbError.{no_rows, pg, other}
use flux_backend.Errors.FluxError.{corrupted_verification}
use flux_backend.Services.Result.{
  Result, ok, err, require, reject, require-ok, reject-ok, bind-ok, then-ok, ok-injective, Answer,
  or_internal-ok,
}
use flux_backend.Services.Context.{minutes}
use flux_backend.Services.Tables.{unless_fault, unless_fault-inr}
use flux_backend.Services.Tables.LockQueries.{one_row-inr}
use flux_backend.Services.Contests.Submit.Allowed.{true_not_false}
use flux_backend.Services.Auth.{
  Token, AuthTables, AuthDb, Bcrypt, latest_token, later, is_for, new_token, create_token_in_db,
  sql_create_token, verify_token, validate_verification_token, sql_get_token_by_email_and_purpose,
  found_token, get_token_by_email_and_purpose, create_token, unless_expired, at_time,
  default_token_expiry_minutes,
}

-- The token that a caller must present: the latest one for the mail and the purpose.
abbrev pub current_token : AuthDb → AuthTables → Text → Text → Option Token
current_token db s mail purpose = latest_token db (keep_if (is_for mail purpose) s.tokens)

-- What makes a token acceptable.
pub record Acceptable (bcrypt : Bcrypt) (db : AuthDb) (s : AuthTables) (token mail purpose : Text)
    : Type 0 where
  pub stored : Token
  pub addressed : mail ≢ []
  pub current : current_token db s mail purpose ≡ some stored
  pub matching : bcrypt.matches stored.hashed_token token ≡ true
  pub unexpired : db.now ≤ stored.expires_at

found_token-ok : (r : Answer Token) (t : Token) → found_token r ≡ ok t → r ≡ inr t
found_token-ok (inl no_rows) t h = absurd cc
found_token-ok (inl (pg e)) t h = absurd cc
found_token-ok (inl other) t h = absurd cc
found_token-ok (inr u) t h = ap inr (ok-injective h)

pub verify_token-found :
    (bcrypt : Bcrypt) (db : AuthDb) (s : AuthTables) (token mail purpose : Text) (t : Token)
    → verify_token bcrypt db s token mail purpose ≡ ok t
    → (mail ≢ [])
      × (current_token db s mail purpose ≡ some t)
      × (bcrypt.matches t.hashed_token token ≡ true)
unfolding verify_token sql_get_token_by_email_and_purpose
verify_token-found bcrypt db s token mail purpose t h =
    let answer = sql_get_token_by_email_and_purpose db mail purpose s in
    let asked = unless_fault (db.fault get_token_by_email_and_purpose) answer in
    let addressed = then-ok (reject (mail == []) corrupted_verification) _ h in
    let stored = bind-ok (found_token asked) _ addressed.2 in
    let same =
      then-ok (require (bcrypt.matches stored.0.hashed_token token) corrupted_verification) _
        stored.2 in
    let is_t : stored.0 ≡ t = ok-injective same.2 in
    (
      λ e. absurd (
          true_not_false (
            sym (ap (λ m. m == []) e) ∙ reject-ok (mail == []) corrupted_verification addressed.1)),
      one_row-inr (current_token db s mail purpose) (
            unless_fault-inr (db.fault get_token_by_email_and_purpose) answer
              (found_token-ok asked stored.0 stored.1))
          ∙ ap some is_t,
      subst (λ x. bcrypt.matches x.hashed_token token ≡ true) is_t
          (require-ok (bcrypt.matches stored.0.hashed_token token) corrupted_verification same.1),
    )

verify_token-known :
    (bcrypt : Bcrypt) (db : AuthDb) (s : AuthTables) (token mail purpose : Text) (t : Token)
    → db.fault get_token_by_email_and_purpose ≡ none
    → mail ≢ []
    → current_token db s mail purpose ≡ some t
    → bcrypt.matches t.hashed_token token ≡ true
    → verify_token bcrypt db s token mail purpose ≡ ok t
unfolding verify_token sql_get_token_by_email_and_purpose
verify_token-known bcrypt db s token mail purpose t up addressed current matching =
    simp (eq_of_ne mail [] addressed, up, current, matching)

at_time-ok :
    (bcrypt : Bcrypt) (cleared s : AuthTables) (late : Bool)
    → (at_time bcrypt cleared s late).0 ≡ ok tt
    → late ≡ false
at_time-ok bcrypt cleared s true h = absurd cc
at_time-ok bcrypt cleared s false h = refl

not_late : {m n : ℕ} → m ≤ n → ltb n m ≡ false
not_late h = ground arith

unless_expired-ok :
    (bcrypt : Bcrypt) (db : AuthDb) (s : AuthTables) (token mail : Text) (r : Result Token)
    → (unless_expired bcrypt db s token mail r).0 ≡ ok tt
    → (t : Token) × (r ≡ ok t) × (ltb t.expires_at db.now ≡ false)
unless_expired-ok bcrypt db s token mail (err e) h = absurd cc
unless_expired-ok bcrypt db s token mail (ok t) h =
    (t, refl, at_time-ok bcrypt _ s (ltb t.expires_at db.now) h)

-- While the database answers, a token is accepted exactly when it matches the latest one for the mail
-- and the purpose and that one has not expired, and then accepting it changes nothing.
pub validate_verification_token_iff :
    (bcrypt : Bcrypt) (db : AuthDb) (s : AuthTables) (token mail purpose : Text)
    → db.fault get_token_by_email_and_purpose ≡ none
    → (((validate_verification_token bcrypt db s token mail purpose).0 ≡ ok tt)
        ↔ Acceptable bcrypt db s token mail purpose)
      × ((validate_verification_token bcrypt db s token mail purpose ≡ (ok tt, s))
          ↔ Acceptable bcrypt db s token mail purpose)
unfolding validate_verification_token
validate_verification_token_iff bcrypt db s token mail purpose up =
    ((forth, λ a. ap (λ x. x.0) (back a)), (λ h. forth (ap (λ x. x.0) h), back))
  where
    forth :
        (validate_verification_token bcrypt db s token mail purpose).0 ≡ ok tt
        → Acceptable bcrypt db s token mail purpose
    forth h =
        let live =
          unless_expired-ok bcrypt db s token mail (verify_token bcrypt db s token mail purpose)
            h in
        let found = verify_token-found bcrypt db s token mail purpose live.0 live.1 in
        record {
          stored = live.0;
          addressed = found.0;
          current = found.1;
          matching = found.2;
          unexpired = ground (arith, live.2);
        }

    back :
        Acceptable bcrypt db s token mail purpose
        → validate_verification_token bcrypt db s token mail purpose ≡ (ok tt, s)
    back a =
        ap (unless_expired bcrypt db s token mail) (
          verify_token-known bcrypt db s token mail purpose a.stored up a.addressed a.current
            a.matching)
        ∙ ap (at_time bcrypt _ s) (not_late a.unexpired)

abbrev IsOlder : ℕ → Option Token → Type 0
IsOlder time none = Unit
IsOlder time (some u) = u.created_at < time

later-IsOlder :
    (db : AuthDb) (time : ℕ) (t : Token) (o : Option Token)
    → t.created_at < time
    → IsOlder time o
    → IsOlder time (later db t o)
later-IsOlder db time t none old h = old
later-IsOlder db time t (some u) old h = elim (Bool-cases (ltb t.created_at u.created_at)) [
  | inl y ↦ rw y h
  | inr n ↦ elim (Bool-cases (ltb u.created_at t.created_at)) [
    | inl y ↦ rw (n, y) old
    | inr m ↦ elim (Bool-cases (db.prefers t u)) [
      | inl y ↦ rw (n, m, y) old
      | inr k ↦ rw (n, m, k) h
    ]
  ]
]

-- The latest of tokens that are older than a time is older.
latest_token-IsOlder :
    (db : AuthDb) (time : ℕ) (ts : List Token)
    → All (λ u. u.created_at < time) ts
    → IsOlder time (latest_token db ts)
unfolding latest_token
latest_token-IsOlder db time [] older = tt
latest_token-IsOlder db time (t ∷ ts) older =
    later-IsOlder db time t (latest_token db ts) older.0 (latest_token-IsOlder db time ts older.1)

later-newest :
    (db : AuthDb) (t : Token) (o : Option Token) → IsOlder t.created_at o → later db t o ≡ some t
later-newest db t none h = refl
later-newest db t (some u) h = ground (arith, lt→ltb u.created_at t.created_at h)

-- A new token is the latest one, if those of before are older.
latest_token-new :
    (db : AuthDb) (t : Token) (p : Token → Bool) (ts : List Token)
    → All (λ u. u.created_at < t.created_at) (keep_if p ts)
    → p t ≡ true
    → latest_token db (keep_if p (t ∷ ts)) ≡ some t
unfolding latest_token
latest_token-new db t p ts older fits = rw fits (
    later-newest db t (latest_token db (keep_if p ts))
      (latest_token-IsOlder db t.created_at (keep_if p ts) older))

sql_create_token-tokens :
    (t : Token) (s : AuthTables) (made : Token × AuthTables)
    → sql_create_token t s ≡ inr made
    → made.1.tokens ≡ t ∷ s.tokens
unfolding sql_create_token
sql_create_token-tokens t s made h = ground arith

is_for_new : (mail purpose : Text) → (mail == mail && purpose == purpose) ≡ true
is_for_new mail purpose = rw (eq_refl mail, eq_refl purpose) refl

-- After a token was made for a mail and a purpose, later than all others for them, a text that
-- matches its stored hash is accepted at any time up to fifteen minutes later, on all tables whose
-- tokens for the mail and the purpose are still those that its creation left, while the database
-- answers.
pub created_token_accepted :
    (bcrypt : Bcrypt) (db later_db : AuthDb) (s u : AuthTables) (token hashed mail purpose : Text)
    (made : Token × AuthTables)
    → mail ≢ []
    → bcrypt.matches hashed token ≡ true
    → All (λ t. t.created_at < db.now) (keep_if (is_for mail purpose) s.tokens)
    → later_db.fault get_token_by_email_and_purpose ≡ none
    → later_db.now ≤ db.now + minutes default_token_expiry_minutes
    → create_token_in_db db s mail purpose hashed ≡ ok made
    → keep_if (is_for mail purpose) u.tokens ≡ keep_if (is_for mail purpose) made.1.tokens
    → validate_verification_token bcrypt later_db u token mail purpose ≡ (ok tt, u)
unfolding create_token_in_db
created_token_accepted bcrypt db later_db s u token hashed mail purpose made addressed matching
      older up timely h still =
    let t = new_token db mail purpose hashed in
    let row = unless_fault-inr (db.fault create_token) _ (or_internal-ok _ h) in
    let tokens = sql_create_token-tokens t s made row in
    (validate_verification_token_iff bcrypt later_db u token mail purpose up).1.1 (record {
      stored = t;
      addressed = addressed;
      current =
          ap (latest_token later_db) still
          ∙ ap (λ ts. latest_token later_db (keep_if (is_for mail purpose) ts)) tokens
          ∙ latest_token-new later_db t (is_for mail purpose) s.tokens older
              (is_for_new mail purpose);
      matching = matching;
      unexpired = timely;
    })
