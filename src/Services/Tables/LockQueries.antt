-- ===== src/Services/Tables/LockQueries.antt =====
-- internal/database/locks.sql.go.
use flux_backend.Common.{
  ℕ, Bool, false, not, Option, none, some, List, ◌∷◌, Text, text, Text_eq, ℕ_eq, ◌==◌, ◌≡◌, inl,
  inr, any, find?, map, if◌then◌else◌, delete_func, is_some,
}
use flux_backend.Errors.DbError.{no_rows, other}
use flux_backend.Services.Result.{Answer}
use flux_backend.Services.Tables.{
  LockType, manual, timer, LockRow, Tables, ProblemRow, foreign_violation,
}

abbrev pub role_manager_access : Text
role_manager_access = text "role_manager"

pub record CreateLockParams : Type 0 where
  pub name : Text
  pub created_by : ℕ
  pub description : Text
  pub lock_type : LockType
  pub timeout : Option ℕ

-- The CHECK of the table: a timeout exactly for a timer.
unfoldable pub timeout_fits : LockType → Option ℕ → Bool
timeout_fits manual t = not (is_some t)
timeout_fits timer t = is_some t

unfoldable pub lock_by_id : ℕ → List LockRow → Option LockRow
lock_by_id id rows = find? (λ l. l.id == id) rows

abbrev pub one_row {ℓ} : {A : Type ℓ} → Option A → Answer A
one_row none = inl no_rows
one_row (some a) = inr a

pub one_row-inr {ℓ} : {A : Type ℓ} (o : Option A) {a : A} → one_row o ≡ inr a → o ≡ some a
one_row-inr none h = cc
one_row-inr (some x) h = cc

-- The role that `access` defaults to is among the roles that the migrations insert.
unfoldable pub sql_create_lock : ℕ → ℕ → CreateLockParams → Tables → Answer (LockRow × Tables)
sql_create_lock new_id clock p t =
    let row : LockRow = record {
      id = new_id;
      name = p.name;
      created_by = p.created_by;
      created_at = clock;
      description = p.description;
      access = role_manager_access;
      lock_type = p.lock_type;
      timeout = p.timeout;
    } in
    if not (timeout_fits p.lock_type p.timeout)
    then inl other
    else if not (any (λ u. u.id == p.created_by) t.users)
    then inl (foreign_violation (text "locks_created_by_fkey"))
    else inr (row, record t { locks = row ∷ t.locks })

-- A nullable foreign key refers to a row.
abbrev pub refers : Option ℕ → ℕ → Bool
refers none id = false
refers (some a) id = a == id

abbrev pub unlock : ℕ → ProblemRow → ProblemRow
unlock id p = if refers p.lock_id id then record p { lock_id = none } else p

-- A contest keeps its lock; a problem loses it.
unfoldable pub sql_delete_lock_by_id : ℕ → Tables → Answer (Unit {0} × Tables)
sql_delete_lock_by_id id t =
    if any (λ c. refers c.lock_id id) t.contests
    then inl (foreign_violation (text "contests_lock_id_fkey"))
    else inr (
      tt,
      record t {
        locks = delete_func t.locks (λ l. l.id == id);
        problems = map (unlock id) t.problems;
      },
    )

unfoldable pub sql_get_lock_by_id : ℕ → Tables → Answer LockRow
sql_get_lock_by_id id t = one_row (lock_by_id id t.locks)

pub record UpdateLockParams : Type 0 where
  pub id : ℕ
  pub name : Text
  pub timeout : Option ℕ
  pub description : Text

abbrev pub with_details : UpdateLockParams → LockRow → LockRow
with_details p l =
    if l.id == p.id
    then record l { name = p.name; timeout = p.timeout; description = p.description }
    else l

abbrev pub update_row : UpdateLockParams → LockRow → Tables → Answer (LockRow × Tables)
update_row p l t =
    if timeout_fits l.lock_type p.timeout
    then inr (with_details p l, record t { locks = map (with_details p) t.locks })
    else inl other

unfoldable pub sql_update_lock_details : UpdateLockParams → Tables → Answer (LockRow × Tables)
sql_update_lock_details p t = elim (lock_by_id p.id t.locks) [
  | none ↦ inl no_rows
  | some l ↦ update_row p l t
]
