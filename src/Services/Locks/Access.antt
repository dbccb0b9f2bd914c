-- ===== src/Services/Locks/Access.antt =====
-- Who sees a lock, whom a lock lets in, and what a lock that is created looks like.
use flux_backend.Common.{
  ℕ, Bool, false, Option, none, some, List, Text, ◌≡◌, refl, inl, inr, ℕ_eq, ◌⊎◌, ◌↔◌, ◌<◌, ◌≤◌,
  Bool-cases, arith, Option-cases, sym, ◌∙◌, ap, subst, ltb→lt, ltb, contains, true, Text_eq,
}
use flux_backend.Errors.{handle_db_errors}
use flux_backend.Errors.FluxError.{internal, invalid_request, not_found}
use flux_backend.Services.Result.{
  Result, ok, err, flux, explained, handled, bind-ok, then-ok, ok-injective, require, ◌>>◌, present,
  present-ok,
}
use flux_backend.Services.Context.{
  Caller, Claims, HasRole, IsUser, authorize_user_role, authorize_user_role_iff,
  get_claims_from_context, role_manager, authorize_user_role-unheld, HasRole-contains,
}
use flux_backend.Services.Tables.{
  Db, Tables, LockRow, LockType, manual, timer, ask, ask-inr, Query, unless_fault-inr,
  LockType-cases,
}
use flux_backend.Services.Tables.LockQueries.{
  CreateLockParams, lock_by_id, sql_create_lock, sql_get_lock_by_id, role_manager_access,
  one_row-inr,
}
use flux_backend.Services.Locks.{
  FluxLock, create_lock, get_lock_by_id, db_lock_to_service_lock, authorize_lock, validate_lock,
  validate_as, validate_manual_lock, validate_timer_lock_timeout, hidden, hidden_text, lock_params,
  as_it_is, as_it_is-ok,
}

authorize_lock-waits :
    (c : Caller) (t : ℕ) (access : Text)
    → ltb t c.now ≡ false
    → authorize_lock c (some t) access ≡ authorize_user_role c access
unfolding authorize_lock
authorize_lock-waits c t access n = rw n refl

-- A lock lets a caller in exactly when its timeout lies in the past or the caller has its role.
pub authorize_lock_iff :
    (c : Caller) (timeout : Option ℕ) (access : Text)
    → (authorize_lock c timeout access ≡ ok tt)
      ↔ (((t : ℕ) × (timeout ≡ some t) × (t < c.now)) ⊎ HasRole c access)
unfolding authorize_lock
authorize_lock_iff c none access = (
  λ h. inr ((authorize_user_role_iff c access).0 h),
  λ h. elim h [ inl (t, e, _) ↦ absurd cc | inr r ↦ (authorize_user_role_iff c access).1 r ],
)
authorize_lock_iff c (some t) access = elim (Bool-cases (ltb t c.now)) [
  | inl y ↦ (λ h. inl (t, refl, ltb→lt t c.now y), λ h. rw y refl)
  | inr n ↦ (
    λ h. inr ((authorize_user_role_iff c access).0 (sym (authorize_lock-waits c t access n) ∙ h)),
    λ h. elim h [
      | inl (u, e, past) ↦ absurd (ground arith)
      | inr r ↦ authorize_lock-waits c t access n ∙ (authorize_user_role_iff c access).1 r
    ],
  )
]

-- The database answers the query for a lock by its id.
abbrev pub Answers : Db → Type 0
Answers db = db.fault Query.get_lock_by_id ≡ none

hidden-ok : (r : Result (Unit {0})) → hidden r ≡ ok tt → r ≡ ok tt
hidden-ok (ok u) h = refl
hidden-ok (err e) h = ground arith

get_lock_by_id-found :
    (c : Caller) (db : Db) (id : ℕ) (row : LockRow) (who : Claims)
    → Answers db
    → lock_by_id id db.tables.locks ≡ some row
    → c.claims ≡ some who
    → get_lock_by_id c db id
      ≡ (hidden (authorize_user_role c row.access) >> ok (db_lock_to_service_lock row))
unfolding get_lock_by_id sql_get_lock_by_id handled get_claims_from_context
get_lock_by_id-found c db id row who up found known = simp (known, up, found)

get_lock_by_id-gone :
    (c : Caller) (db : Db) (id : ℕ) (who : Claims)
    → Answers db
    → lock_by_id id db.tables.locks ≡ none
    → c.claims ≡ some who
    → get_lock_by_id c db id ≡ err (flux not_found)
unfolding get_lock_by_id sql_get_lock_by_id handled get_claims_from_context handle_db_errors
get_lock_by_id-gone c db id who up gone known = simp (known, up, gone)

get_lock_by_id-claims :
    (c : Caller) (db : Db) (id : ℕ) {l : FluxLock}
    → get_lock_by_id c db id ≡ ok l
    → (who : Claims) × (c.claims ≡ some who)
unfolding get_lock_by_id get_claims_from_context
get_lock_by_id-claims c db id h =
    let claims = then-ok (get_claims_from_context c) _ h in
    (claims.0, present-ok c.claims internal claims.1)

get_lock_by_id-row :
    (c : Caller) (db : Db) (id : ℕ) {l : FluxLock}
    → get_lock_by_id c db id ≡ ok l
    → (row : LockRow) × (lock_by_id id db.tables.locks ≡ some row)
      × (hidden (authorize_user_role c row.access) ≡ ok tt)
      × (l ≡ db_lock_to_service_lock row)
unfolding get_lock_by_id sql_get_lock_by_id
get_lock_by_id-row c db id h =
    let claims = then-ok (get_claims_from_context c) _ h in
    let answer = sql_get_lock_by_id id db.tables in
    let row = bind-ok (handled (ask db Query.get_lock_by_id answer)) _ claims.2 in
    let seen = then-ok (hidden (authorize_user_role c row.0.access)) _ row.2 in
    (
      row.0,
      one_row-inr (lock_by_id id db.tables.locks) (ask-inr db Query.get_lock_by_id answer row.1),
      seen.1,
      sym (ok-injective seen.2),
    )

-- With a database that answers, a caller is given a lock exactly when there is a row of that id, the
-- lock is that row's, and the caller has the role of the row.
pub get_lock_by_id_iff :
    (c : Caller) (db : Db) (id : ℕ) (l : FluxLock)
    → Answers db
    → (get_lock_by_id c db id ≡ ok l) ↔ (
        (row : LockRow) × (lock_by_id id db.tables.locks ≡ some row)
        × (l ≡ db_lock_to_service_lock row)
        × HasRole c row.access)
get_lock_by_id_iff c db id l up = (
  λ h.
      let (row, found, seen, same) = get_lock_by_id-row c db id h in
      (
        row,
        found,
        same,
        (authorize_user_role_iff c row.access).0
            (hidden-ok (authorize_user_role c row.access) seen),
      ),
  λ (row, found, same, held).
      get_lock_by_id-found c db id row held.who up found held.known_claims
      ∙ rw ((authorize_user_role_iff c row.access).1 held) (ap ok (sym same)),
)

-- To a caller whose roles are known, and with a database that answers, the text of the error tells a
-- lock that the caller may not see from one that does not exist: the first is reported exactly
-- when there is a row of that id whose role the caller lacks, the second exactly when there is none.
pub get_lock_by_id-tells :
    (c : Caller) (db : Db) (id : ℕ) (who : Claims) (roles : List Text)
    → Answers db
    → c.claims ≡ some who
    → c.fetch_user_roles who.user_id ≡ ok roles
    → ((get_lock_by_id c db id ≡ err (explained not_found hidden_text))
        ↔ ((row : LockRow) × (lock_by_id id db.tables.locks ≡ some row) × (¬ HasRole c row.access)))
      × ((get_lock_by_id c db id ≡ err (flux not_found)) ↔ (lock_by_id id db.tables.locks ≡ none))
get_lock_by_id-tells c db id who roles up known fetched =
    elim (Option-cases (lock_by_id id db.tables.locks)) [
      | inl gone ↦
          let is = get_lock_by_id-gone c db id who up gone known in
          (
            (λ h. absurd (cc (h, is)), λ (row, found, _). absurd (cc (gone, found))),
            (λ h. gone, λ h. is),
          )
      | inr (row, found) ↦ by_role row found (Bool-cases (contains roles row.access))
    ]
  where
    by_role :
        (row : LockRow)
        → lock_by_id id db.tables.locks ≡ some row
        → (contains roles row.access ≡ true) ⊎ (contains roles row.access ≡ false)
        → ((get_lock_by_id c db id ≡ err (explained not_found hidden_text)) ↔ (
            (row : LockRow) × (lock_by_id id db.tables.locks ≡ some row)
            × (¬ HasRole c row.access)))
          × ((get_lock_by_id c db id ≡ err (flux not_found))
              ↔ (lock_by_id id db.tables.locks ≡ none))
    by_role row found (inl has) =
        let held : HasRole c row.access = record {
          who = who;
          roles = roles;
          known_claims = known;
          fetched = fetched;
          held = has;
        } in
        let is =
          (get_lock_by_id_iff c db id (db_lock_to_service_lock row) up).1
            (row, found, refl, held) in
        (
          (
            λ h. absurd (cc (h, is)),
            λ (r, f, without).
                let same : some r ≡ some row = sym f ∙ found in
                let row_is : r ≡ row = cc in
                absurd (without (subst (λ x. HasRole c x.access) (sym row_is) held)),
          ),
          (λ h. absurd (cc (h, is)), λ h. absurd (cc (h, found))),
        )
    by_role row found (inr lacks) =
        let unheld : ¬ HasRole c row.access =
          λ h. absurd (cc (lacks, HasRole-contains c row.access who roles known fetched h)) in
        let is : get_lock_by_id c db id ≡ err (explained not_found hidden_text) =
          get_lock_by_id-found c db id row who up found known
          ∙ rw (authorize_user_role-unheld c row.access who roles known fetched unheld) refl in
        (
          (λ h. (row, found, unheld), λ h. is),
          (λ h. absurd (cc (h, is)), λ h. absurd (cc (h, found))),
        )

sql_create_lock-row :
    (id clock : ℕ) (p : CreateLockParams) (t : Tables) {a : LockRow × Tables}
    → sql_create_lock id clock p t ≡ inr a
    → (a.0.access ≡ role_manager_access)
      × (a.0.lock_type ≡ p.lock_type)
      × (a.0.timeout ≡ p.timeout)
      × (a.0.created_by ≡ p.created_by)
unfolding sql_create_lock
sql_create_lock-row id clock p t h = (ground arith, ground arith, ground arith, ground arith)

-- A timeout that lies ahead exactly for a timer.
abbrev pub FitsType : ℕ → LockType → Option ℕ → Type 0
FitsType now kind timeout =
    ((kind ≡ manual) × (timeout ≡ none))
    ⊎ ((kind ≡ timer) × ((u : ℕ) × (timeout ≡ some u) × (now ≤ u)))

module _ (accepts : FluxLock → Bool) where
  validate_manual_lock-ok :
      (l : FluxLock) → validate_manual_lock accepts l ≡ ok tt → l.timeout ≡ none
  unfolding validate_manual_lock
  validate_manual_lock-ok l h = ground arith

  validate_timer_lock_timeout-ok :
      (c : Caller) (l : FluxLock)
      → validate_timer_lock_timeout accepts c l ≡ ok tt
      → (u : ℕ) × (l.timeout ≡ some u) × (c.now ≤ u)
  unfolding validate_timer_lock_timeout
  validate_timer_lock_timeout-ok c l h =
      let accepted = then-ok (require (accepts l) invalid_request) _ h in
      let u = bind-ok (present l.timeout invalid_request) _ accepted.2 in
      (u.0, present-ok l.timeout invalid_request u.1, ground (arith, u.2))

  validate_lock-ok :
      (c : Caller) (l : FluxLock)
      → validate_lock accepts c l ≡ ok tt
      → FitsType c.now l.lock_type l.timeout
  unfolding validate_lock
  validate_lock-ok c l h = by_type (LockType-cases l.lock_type)
    where
      by_type :
          (l.lock_type ≡ manual) ⊎ (l.lock_type ≡ timer) → FitsType c.now l.lock_type l.timeout
      by_type (inl m) =
          inl (m, validate_manual_lock-ok l (subst (λ k. validate_as accepts c l k ≡ ok tt) m h))
      by_type (inr m) = inr (
        m,
        validate_timer_lock_timeout-ok c l (subst (λ k. validate_as accepts c l k ≡ ok tt) m h),
      )

-- What a lock that CreateLock makes looks like: the caller has the role of a manager and is its creator,
-- it is open to managers only, and it has a timeout, not yet passed, exactly when it
-- is a timer.
pub create_lock-made :
    (accepts : FluxLock → Bool) (c : Caller) (db : Db) (new l : FluxLock) (t : Tables)
    → create_lock accepts c db new ≡ ok (l, t)
    → HasRole c role_manager
      × IsUser c l.created_by
      × (l.access ≡ role_manager_access)
      × FitsType c.now l.lock_type l.timeout
unfolding create_lock db_lock_to_service_lock get_claims_from_context
create_lock-made accepts c db new l t h =
    let who = bind-ok (get_claims_from_context c) _ h in
    let allowed = then-ok (authorize_user_role c role_manager) _ who.2 in
    let valid = then-ok (validate_lock accepts c new) _ allowed.2 in
    let answer =
      ask db Query.create_lock
        (sql_create_lock db.new_id db.clock (lock_params accepts new who.0) db.tables) in
    let made = bind-ok (as_it_is answer) _ valid.2 in
    let row =
      sql_create_lock-row db.new_id db.clock (lock_params accepts new who.0) db.tables
        (unless_fault-inr (db.fault Query.create_lock) _ (as_it_is-ok answer made.1)) in
    let same = ap (λ r. r.0) (ok-injective made.2) in
    (
      (authorize_user_role_iff c role_manager).0 allowed.1,
      record {
        who = who.0;
        known_claims = present-ok c.claims internal who.1;
        same_id = sym row.3 ∙ ap (λ k. k.created_by) same;
      },
      sym (ap (λ k. k.access) same) ∙ row.0,
      subst (λ k. FitsType c.now k l.timeout) (sym row.1 ∙ ap (λ k. k.lock_type) same)
          (subst (FitsType c.now new.lock_type) (sym row.2 ∙ ap (λ k. k.timeout) same)
            (validate_lock-ok accepts c new valid.1)),
    )
