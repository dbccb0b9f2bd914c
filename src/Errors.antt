-- ===== src/Errors.antt =====
-- internal/flux_errors/errors.go: the error values of the services, and the translation of the
-- errors of the database driver. An error is the sentinel that it wraps first (what `errors.Is`
-- sees) and, where the source puts one there, the message shown to the user.
mod Examples
use flux_backend.Common.{
  Option, none, some, List, Text, text, Text_eq, ◌==◌, if◌then◌else◌, lookup, ◌≡◌, refl, arith,
  Bool-cases, inl, inr, eq_sound, eq_refl, ◌⊎◌, ◌↔◌, true, false, subst, sym, ap,
}

pub data FluxError : Type 0 where
  internal invalid_request user_already_exists invalid_user_credentials : FluxError
  invalid_request_credentials email_service_stopped verification_token_expired : FluxError
  corrupted_verification unauthorized not_found partial_result task_launch_error : FluxError
  task_sigterm task_kill submission_failed wait_already_called http_response : FluxError
  monitor_start component_start entity_already_exist : FluxError

pub FluxError-discrete : Discrete FluxError
FluxError-discrete = hlevel

abbrev pub code_unique_constraint : Text
code_unique_constraint = text "23505"

abbrev pub code_foreign_key_constraint : Text
code_foreign_key_constraint = text "23503"

pub record PgError : Type 0 where
  pub code : Text
  pub constraint_name : Text
  pub detail : Text

-- What the database driver returns: sql.ErrNoRows, a *pgconn.PgError, or another error.
pub data DbError : Type 0 where
  no_rows : DbError
  pg : PgError → DbError
  other : DbError

pub record Failure : Type 0 where
  pub sentinel : FluxError
  pub message : Option Text

abbrev pub MsgMap : Type 0
MsgMap = List (Text × Text)

abbrev wrap : FluxError → Failure
wrap e = record { sentinel = e; message = none }

abbrev invalid : Text → Failure
invalid m = record { sentinel = FluxError.invalid_request; message = some m }

-- The two functions have the same body but for what they log.
unfoldable pub handle_foreign_key_error : PgError → MsgMap → Failure
unfolding lookup
handle_foreign_key_error e msgs = elim (lookup e.constraint_name msgs) [
  | some msg ↦ invalid msg
  | none ↦ invalid e.detail
]

unfoldable pub handle_unique_key_error : PgError → MsgMap → Failure
unfolding lookup
handle_unique_key_error e msgs = elim (lookup e.constraint_name msgs) [
  | some msg ↦ invalid msg
  | none ↦ invalid e.detail
]

handle_unique : PgError → List (Text × MsgMap) → Failure
unfolding lookup handle_unique_key_error
handle_unique e msgs = elim (lookup code_unique_constraint msgs) [
  | none ↦ invalid e.detail
  | some m ↦ handle_unique_key_error e m
]

handle_foreign : PgError → List (Text × MsgMap) → Failure
unfolding lookup handle_foreign_key_error
handle_foreign e msgs = elim (lookup code_foreign_key_constraint msgs) [
  | none ↦ invalid e.detail
  | some m ↦ handle_foreign_key_error e m
]

handle_pg : PgError → Option (List (Text × MsgMap)) → Failure
unfolding handle_unique handle_foreign
handle_pg e none = wrap FluxError.internal
handle_pg e (some msgs) =
    if e.code == code_foreign_key_constraint
    then handle_foreign e msgs
    else if e.code == code_unique_constraint
    then handle_unique e msgs
    else wrap FluxError.internal

-- A nil `errMsgs` is `none`.
unfoldable pub handle_db_errors : DbError → Option (List (Text × MsgMap)) → Failure
unfolding handle_pg
handle_db_errors no_rows msgs = wrap FluxError.not_found
handle_db_errors (pg e) msgs = handle_pg e msgs
handle_db_errors other msgs = wrap FluxError.internal

foreign-sentinel :
    (e : PgError) (msgs : List (Text × MsgMap))
    → (handle_foreign e msgs).sentinel ≡ FluxError.invalid_request
unfolding handle_foreign handle_foreign_key_error
foreign-sentinel e msgs = ground arith

unique-sentinel :
    (e : PgError) (msgs : List (Text × MsgMap))
    → (handle_unique e msgs).sentinel ≡ FluxError.invalid_request
unfolding handle_unique handle_unique_key_error
unique-sentinel e msgs = ground arith

internal_not_invalid : FluxError.internal ≡ FluxError.invalid_request → ⊥
internal_not_invalid h = cc

pg-injective : {e e' : PgError} → pg e ≡ pg e' → e ≡ e'
pg-injective h = cc

neither :
    (e e' : PgError)
    → e ≡ e'
    → (e.code == code_foreign_key_constraint) ≡ false
    → (e.code == code_unique_constraint) ≡ false
    → (e'.code ≡ code_foreign_key_constraint) ⊎ (e'.code ≡ code_unique_constraint)
    → ⊥
neither e e' same f u (inl x) = cc (
  f,
  ap (λ c. c.code == code_foreign_key_constraint) same,
  ap (λ c. c == code_foreign_key_constraint) x,
  eq_refl code_foreign_key_constraint,
)
neither e e' same f u (inr x) = cc (
  u,
  ap (λ c. c.code == code_unique_constraint) same,
  ap (λ c. c == code_unique_constraint) x,
  eq_refl code_unique_constraint,
)

blames_iff :
    (err : DbError) (msgs : List (Text × MsgMap))
    → ((handle_db_errors err (some msgs)).sentinel ≡ FluxError.invalid_request) ↔ (
        (e : PgError) × (err ≡ pg e)
        × ((e.code ≡ code_foreign_key_constraint) ⊎ (e.code ≡ code_unique_constraint)))
unfolding handle_db_errors handle_pg
blames_iff no_rows msgs = (λ h. absurd cc, λ h. absurd cc)
blames_iff other msgs = (λ h. absurd cc, λ h. absurd cc)
blames_iff (pg e) msgs = elim (Bool-cases (e.code == code_foreign_key_constraint)) [
  | inl f ↦ (
    λ h. (e, refl, inl (eq_sound e.code code_foreign_key_constraint f)),
    λ h. rw (f, handle_pg) (foreign-sentinel e msgs),
  )
  | inr f ↦ elim (Bool-cases (e.code == code_unique_constraint)) [
    | inl u ↦ (
      λ h. (e, refl, inr (eq_sound e.code code_unique_constraint u)),
      λ h. rw (f, handle_pg) (rw u (unique-sentinel e msgs)),
    )
    | inr u ↦ (
      λ h. absurd (internal_not_invalid (ground arith)),
      λ (e', same, either). absurd (neither e e' (pg-injective same) f u either),
    )
  ]
]

handle_pg-kind :
    (e : PgError) (msgs : List (Text × MsgMap))
    → ((handle_pg e (some msgs)).sentinel ≡ FluxError.invalid_request)
      ⊎ ((handle_pg e (some msgs)).sentinel ≡ FluxError.internal)
unfolding handle_pg
handle_pg-kind e msgs = elim (Bool-cases (e.code == code_foreign_key_constraint)) [
  | inl f ↦ inl (rw f (foreign-sentinel e msgs))
  | inr f ↦ elim (Bool-cases (e.code == code_unique_constraint)) [
    | inl u ↦ inl (rw (f, u) (unique-sentinel e msgs))
    | inr u ↦ inr (rw (f, u) refl)
  ]
]

-- Where the service passes its table of messages, the caller is blamed exactly for violations of a
-- foreign key or of a unique constraint; that nothing was found is said exactly when the driver found
-- no rows; and every other error is an internal one.
pub handle_db_errors_blames_iff :
    (err : DbError) (msgs : List (Text × MsgMap))
    → (((handle_db_errors err (some msgs)).sentinel ≡ FluxError.invalid_request) ↔ (
        (e : PgError) × (err ≡ pg e)
        × ((e.code ≡ code_foreign_key_constraint) ⊎ (e.code ≡ code_unique_constraint))))
      × (((handle_db_errors err (some msgs)).sentinel ≡ FluxError.not_found) ↔ (err ≡ no_rows))
      × (((handle_db_errors err (some msgs)).sentinel ≡ FluxError.invalid_request)
          ⊎ ((handle_db_errors err (some msgs)).sentinel ≡ FluxError.not_found)
          ⊎ ((handle_db_errors err (some msgs)).sentinel ≡ FluxError.internal))
unfolding handle_db_errors
handle_db_errors_blames_iff no_rows msgs =
    (blames_iff no_rows msgs, (λ h. refl, λ h. refl), inr (inl refl))
handle_db_errors_blames_iff other msgs =
    (blames_iff other msgs, (λ h. absurd cc, λ h. absurd cc), inr (inr refl))
handle_db_errors_blames_iff (pg e) msgs = elim (handle_pg-kind e msgs) [
  | inl v ↦ (blames_iff (pg e) msgs, (λ h. absurd (cc (v, h)), λ h. absurd cc), inl v)
  | inr v ↦ (blames_iff (pg e) msgs, (λ h. absurd (cc (v, h)), λ h. absurd cc), inr (inr v))
]
