-- ===== src/Services/Auth/Once.antt =====
-- Signing up uses its token up, and makes an account like no other.
use flux_backend.Common.{
  ℕ, suc, zero, Bool, true, false, ◌||◌, List, [], ◌∷◌, Text, Text_eq, ◌==◌, ◌≡◌, refl, sym, ◌∙◌,
  ap, subst, arith, inl, inr, ◌⊎◌, any, ltb, Bool-cases, if◌then◌else◌,
}
use flux_backend.Errors.{DbError}
use flux_backend.Errors.FluxError.{internal, invalid_request}
use flux_backend.Services.Result.{
  Result, ok, err, flux, ◌>>=◌, require, bind-ok, then-ok, ok-injective, Answer, or_internal-ok,
  inr-injective, handled, present,
}
use flux_backend.Services.Tables.{unless_fault, unless_fault-inr}
use flux_backend.Services.Auth.{
  Account, Token, AuthTables, AuthDb, Bcrypt, verify_token, validate_verification_token,
  invalidate_verification_token, sql_delete_by_email_and_purpose, delete_by_email_and_purpose,
  unless_expired, at_time, left, purpose_sign_up, create_user,
}
use flux_backend.Services.Auth.Accounts.{
  UserRegestration, account_of, sql_create_user, attempts, create_user_in_db, after_attempt, close,
  finish, after_check, sign_up, is_name_taken, max_user_name_retries,
}

deleted-accounts :
    (mail purpose : Text) (s : AuthTables)
    → (sql_delete_by_email_and_purpose mail purpose s).accounts ≡ s.accounts
unfolding sql_delete_by_email_and_purpose
deleted-accounts mail purpose s = refl

any-none :
    (p q r : Account → Bool) (xs : List Account)
    → any p xs ≡ false
    → any q xs ≡ false
    → any r xs ≡ false
    → any (λ x. p x || q x || r x) xs ≡ false
any-none p q r [] h i j = refl
any-none p q r (x ∷ xs) h i j = ground (arith, h, i, j, any-none p q r xs)

-- An insertion that passes its three checks.
inserted :
    (b₁ b₂ b₃ : Bool) (e₁ e₂ e₃ : DbError) (v made : Account × AuthTables)
    → (if b₁ then inl e₁ else if b₂ then inl e₂ else if b₃ then inl e₃ else inr v) ≡ inr made
    → (b₁ ≡ false) × (b₂ ≡ false) × (b₃ ≡ false) × (v ≡ made)
inserted true b₂ b₃ e₁ e₂ e₃ v made h = absurd cc
inserted false true b₃ e₁ e₂ e₃ v made h = absurd cc
inserted false false true e₁ e₂ e₃ v made h = absurd cc
inserted false false false e₁ e₂ e₃ v made h = (refl, refl, refl, inr-injective h)

-- The account that is inserted, and that it is like no other.
create_user-row :
    (x : Account) (s : AuthTables) (made : Account × AuthTables)
    → sql_create_user x s ≡ inr made
    → (made.0 ≡ x)
      × (made.1.accounts ≡ made.0 ∷ s.accounts)
      × (any
            (λ b.
              b.user_name == made.0.user_name
              || b.roll_no == made.0.roll_no
              || b.email == made.0.email)
            s.accounts
          ≡ false)
unfolding sql_create_user
create_user-row x s made h =
    let free =
      inserted (any (λ b. b.user_name == x.user_name) s.accounts)
        (any (λ b. b.roll_no == x.roll_no) s.accounts) (any (λ b. b.email == x.email) s.accounts) _
        _ _ (x, record s { accounts = x ∷ s.accounts }) made h in
    let same : x ≡ made.0 = ap (λ m. m.0) free.3 in
    (
      sym same,
      sym (ap (λ m. m.1.accounts) free.3) ∙ ap (λ y. y ∷ s.accounts) same,
      subst
          (λ y.
            any (λ b. b.user_name == y.user_name || b.roll_no == y.roll_no || b.email == y.email)
              s.accounts
            ≡ false)
          same
          (any-none (λ b. b.user_name == x.user_name) (λ b. b.roll_no == x.roll_no)
            (λ b. b.email == x.email) s.accounts free.0 free.1 free.2),
    )

module _ (bcrypt : Bcrypt) where
  invalidate-left :
      (db : AuthDb) (s : AuthTables) (token mail purpose : Text) (a : Unit {0} × AuthTables)
      → invalidate_verification_token bcrypt db s token mail purpose ≡ ok a
      → a.1 ≡ sql_delete_by_email_and_purpose mail purpose s
  unfolding invalidate_verification_token
  invalidate-left db s token mail purpose a h =
      let verified = then-ok (verify_token bcrypt db s token mail purpose) _ h in
      sym (
        ap (λ x. x.1)
          (inr-injective (
            unless_fault-inr (db.fault delete_by_email_and_purpose) _
              (or_internal-ok _ verified.2))))

  module _ (db : AuthDb) (names : ℕ → Result Text) (is_done : ℕ → Bool)
      (accepts : UserRegestration → Bool) where
    close-ok :
        (a : Account) (t : AuthTables) (i : Result (Unit {0} × AuthTables)) (b : Account)
        (v : AuthTables)
        → close db names is_done bcrypt accepts a t i ≡ (ok b, v)
        → (u : Unit {0}) × (i ≡ ok (u, v)) × (a ≡ b)
    close-ok a t (ok (u, w)) b v h =
        (u, ap (λ z. ok (u, z)) (ap (λ x. x.1) h), ok-injective (ap (λ x. x.0) h))
    close-ok a t (err e) b v h = absurd cc

    finish-ok :
        (s : AuthTables) (r : UserRegestration) (made : Result (Account × AuthTables)) (b : Account)
        (v : AuthTables)
        → finish db names is_done bcrypt accepts s r made ≡ (ok b, v)
        → (t : AuthTables) × (made ≡ ok (b, t))
          × (v ≡ sql_delete_by_email_and_purpose r.user_mail purpose_sign_up t)
    finish-ok s r (err e) b v h = absurd cc
    finish-ok s r (ok (a, t)) b v h =
        let done =
          close-ok a t
            (invalidate_verification_token bcrypt db t r.verification_token r.user_mail
              purpose_sign_up)
            b v h in
        (
          t,
          ap (λ x. ok (x, t)) done.2,
          invalidate-left db t r.verification_token r.user_mail purpose_sign_up (done.0, v) done.1,
        )

    after_attempt-ok :
        (answer : Answer (Account × AuthTables)) (rest : Result (Account × AuthTables))
        (made : Account × AuthTables)
        → after_attempt db names is_done answer rest ≡ ok made
        → (answer ≡ inr made) ⊎ (rest ≡ ok made)
    unfolding handled
    after_attempt-ok (inr m) rest made h = inl (ap inr (ok-injective h))
    after_attempt-ok (inl e) rest made h = elim (Bool-cases (is_name_taken e)) [
      | inl y ↦ inr (subst (λ b. (if b then rest else handled (inl e)) ≡ ok made) y h)
      | inr n ↦ absurd (failed (subst (λ b. (if b then rest else handled (inl e)) ≡ ok made) n h))
    ]
      where
        failed : handled {A = Account × AuthTables} (inl e) ≡ ok made → ⊥
        failed x = cc

    -- What the insertion that ends the attempts was.
    attempts-row :
        (n : ℕ) (s : AuthTables) (r : UserRegestration) (password_hash : Text)
        (made : Account × AuthTables)
        → attempts db names is_done n s r password_hash ≡ ok made
        → (name : Text) × (sql_create_user (account_of db.new_id r password_hash name) s ≡ inr made)
    unfolding attempts
    attempts-row zero s r password_hash made h = absurd cc
    attempts-row (suc n) s r password_hash made h = elim (Bool-cases (is_done n)) [
      | inl late ↦
          absurd
            (done_fails (subst (λ b. (if b then err (flux internal) else tried) ≡ ok made) late h))
      | inr timely ↦
          let name =
            bind-ok (names n) _
              (subst (λ b. (if b then err (flux internal) else tried) ≡ ok made) timely h) in
          elim (after_attempt-ok
            (unless_fault (db.fault create_user)
              (sql_create_user (account_of db.new_id r password_hash name.0) s))
            (attempts db names is_done n s r password_hash) made name.2) [
              | inl now ↦ (name.0, unless_fault-inr (db.fault create_user) _ now)
              | inr later_on ↦ attempts-row n s r password_hash made later_on
            ]
    ]
      where
        tried : Result (Account × AuthTables)
        tried = do
          user_name ← names n
          after_attempt db names is_done
              (unless_fault (db.fault create_user)
                (sql_create_user (account_of db.new_id r password_hash user_name) s))
              (attempts db names is_done n s r password_hash)

        done_fails : ◌≡◌ {A = Result (Account × AuthTables)} (err (flux internal)) (ok made) → ⊥
        done_fails e = cc

    validated-kept :
        (s : AuthTables) (token mail : Text) (found : Result Token)
        → (unless_expired bcrypt db s token mail found).0 ≡ ok tt
        → (unless_expired bcrypt db s token mail found).1 ≡ s
    validated-kept s token mail (err e) h = refl
    validated-kept s token mail (ok t) h =
        at_time-kept
          (left bcrypt s (invalidate_verification_token bcrypt db s token mail purpose_sign_up)) s
          (ltb t.expires_at db.now) h
      where
        at_time-kept :
            (cleared t : AuthTables) (late : Bool)
            → (at_time bcrypt cleared t late).0 ≡ ok tt
            → (at_time bcrypt cleared t late).1 ≡ t
        at_time-kept cleared t true h = absurd cc
        at_time-kept cleared t false h = refl

    after_check-ok :
        (r : UserRegestration) (v : Result (Unit {0}) × AuthTables) (b : Account) (t : AuthTables)
        → after_check db names is_done bcrypt accepts r v ≡ (ok b, t)
        → (v.0 ≡ ok tt)
          × (before : AuthTables) × (name password_hash : Text) × (sql_create_user
                (account_of db.new_id r password_hash name)
                v.1
              ≡ inr (b, before))
          × (t ≡ sql_delete_by_email_and_purpose r.user_mail purpose_sign_up before)
    unfolding create_user_in_db
    after_check-ok r (err e, s) b t h = absurd cc
    after_check-ok r (ok u, s) b t h =
        let finished = finish-ok s r _ b t h in
        let accepted = then-ok (require (accepts r) invalid_request) _ finished.1 in
        let hashed = bind-ok (present (bcrypt.hash r.password) internal) _ accepted.2 in
        let row = attempts-row max_user_name_retries s r hashed.0 (b, finished.0) hashed.2 in
        (refl, finished.0, row.0, hashed.0, row.1, finished.2)

    -- An account that SignUp makes shares its name, its roll number and its mail with no account that was
    -- there, and is added to them.
    pub sign_up-account :
        (s t : AuthTables) (r : UserRegestration) (a : Account)
        → sign_up db names is_done bcrypt accepts s r ≡ (ok a, t)
        → (t.accounts ≡ a ∷ s.accounts)
          × (a.email ≡ r.user_mail)
          × (a.roll_no ≡ r.roll_no)
          × (any
                (λ b. b.user_name == a.user_name || b.roll_no == a.roll_no || b.email == a.email)
                s.accounts
              ≡ false)
    unfolding sign_up validate_verification_token
    sign_up-account s t r a h =
        let found = verify_token bcrypt db s r.verification_token r.user_mail purpose_sign_up in
        let checked = unless_expired bcrypt db s r.verification_token r.user_mail found in
        let ran = after_check-ok r checked a t h in
        let kept = validated-kept s r.verification_token r.user_mail found ran.0 in
        let row =
          create_user-row (account_of db.new_id r ran.3 ran.2) s (a, ran.1)
            (subst (λ x. sql_create_user (account_of db.new_id r ran.3 ran.2) x ≡ inr (a, ran.1))
              kept ran.4) in
        (
          ap (λ x. x.accounts) ran.5 ∙ deleted-accounts r.user_mail purpose_sign_up ran.1 ∙ row.1,
          ap (λ x. x.email) row.0,
          ap (λ x. x.roll_no) row.0,
          row.2,
        )
