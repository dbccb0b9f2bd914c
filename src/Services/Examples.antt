-- ===== src/Services/Examples.antt =====
-- Concrete runs of the services for locks, contests, problems and users.
use flux_backend.Common.{
  ℕ, Bool, true, false, none, some, List, [], ◌∷◌, Text, text, Text_eq, ◌≡◌, refl, inl, inr, lookup,
  insert, lookup-insert, ◌==◌, ℕ_eq, if◌then◌else◌, Bool-cases, eq_sound, ◌⊎◌, subst, ◌↔◌, sym, ◌∙◌,
}
use flux_backend.Errors.DbError.{other}
use flux_backend.Errors.FluxError.{not_found}
use flux_backend.Services.Result.{Answer, ok, err, flux, explained, handled}
use flux_backend.Services.Context.{
  Caller, Claims, role_manager, role_hc, HasRole, IsUser, get_claims_from_context,
  authorize_user_role, authorize_creator_access, authorize_creator_access_iff,
}
use flux_backend.Services.Tables.{Db, Tables, LockRow, manual, timer, after}
use flux_backend.Services.Tables.LockQueries.{
  lock_by_id, sql_get_lock_by_id, sql_create_lock, timeout_fits, role_manager_access,
}
use flux_backend.Services.Locks.{
  FluxLock, hidden_text, create_lock, delete_lock, get_lock_by_id, db_lock_to_service_lock,
  validate_lock, validate_manual_lock,
}
use flux_backend.Services.Locks.Life.{IsKept, deletes, stay, step, timer_lock_stays}
use flux_backend.Services.Locks.Access.{
  get_lock_by_id_iff, get_lock_by_id-tells, create_lock-made, FitsType,
}
use flux_backend.Services.Users.Roles.{
  Lru, LruLaws, fetch_many, fetch_many-refines, AllReturn, IsCoherent,
}

abbrev ann : Claims
ann = record { user_id = 1; user_name = text "ann" }

abbrev manager : Caller
manager = record {
  claims = some ann;
  now = 1000;
  fetch_user_roles = λ id. ok (text "User" ∷ text "role_manager" ∷ []);
}

abbrev student : Caller
student = record { claims = some ann; now = 1000; fetch_user_roles = λ id. ok (text "User" ∷ []) }

abbrev timer_row : LockRow
timer_row = record {
  id = 5;
  name = text "round one";
  created_by = 1;
  created_at = 0;
  description = [];
  access = text "role_manager";
  lock_type = timer;
  timeout = some 2000;
}

abbrev tables : Tables
tables = record {
  locks = timer_row ∷ [];
  users = record { id = 1; user_name = text "ann"; roll_no = text "r1" } ∷ [];
  problems = [];
  contests = [];
  contest_problems = [];
  registered_users = [];
  submissions = [];
  tournament_contests = [];
}

abbrev db : Db
db = record { tables = tables; fault = λ q. none; new_id = 9; clock = 1000 }

abbrev any_lock : FluxLock → Bool
any_lock l = true

abbrev manual_lock : FluxLock
manual_lock = record {
  id = 0;
  name = text "holiday";
  created_by = 0;
  lock_type = manual;
  created_at = 0;
  timeout = none;
  description = [];
  access = [];
}

timer-IsKept : IsKept timer_row tables
unfolding lock_by_id
timer-IsKept = refl

new_is_free : lock_by_id 9 tables.locks ≡ none
unfolding lock_by_id
new_is_free = refl

-- A manager deletes the timer lock (which is refused) and creates a manual one.
abbrev after_delete : Db
after_delete = record db { tables = after db (delete_lock manager db 5) }

delete_refused : after db (delete_lock manager db 5) ≡ tables
unfolding delete_lock get_lock_by_id get_claims_from_context sql_get_lock_by_id lock_by_id handled
    authorize_user_role authorize_creator_access db_lock_to_service_lock
delete_refused = refl

timer_lock_stays_example : IsKept timer_row (after db (delete_lock manager db 5))
timer_lock_stays_example =
    timer_lock_stays any_lock timer_row refl timer-IsKept (step (deletes manager db 5) stay)

authorize_creator_access_iff_example :
    (authorize_creator_access student 1 ≡ ok tt) ↔ (HasRole student role_hc ⊎ IsUser student 1)
authorize_creator_access_iff_example = authorize_creator_access_iff student 1

get_lock_by_id_iff_example :
    (get_lock_by_id manager db 5 ≡ ok (db_lock_to_service_lock timer_row)) ↔ (
      (row : LockRow) × (lock_by_id 5 tables.locks ≡ some row)
      × (db_lock_to_service_lock timer_row ≡ db_lock_to_service_lock row)
      × HasRole manager row.access)
get_lock_by_id_iff_example =
    get_lock_by_id_iff manager db 5 (db_lock_to_service_lock timer_row) refl

get_lock_by_id-tells_example :
    ((get_lock_by_id student db 5 ≡ err (explained not_found hidden_text))
      ↔ ((row : LockRow) × (lock_by_id 5 tables.locks ≡ some row) × (¬ HasRole student row.access)))
    × ((get_lock_by_id student db 5 ≡ err (flux not_found)) ↔ (lock_by_id 5 tables.locks ≡ none))
get_lock_by_id-tells_example =
    get_lock_by_id-tells student db 5 ann (text "User" ∷ []) refl refl refl

abbrev new_row : LockRow
new_row = record {
  id = 9;
  name = text "holiday";
  created_by = 1;
  created_at = 1000;
  description = [];
  access = role_manager_access;
  lock_type = manual;
  timeout = none;
}

abbrev with_new : Tables
with_new = record tables { locks = new_row ∷ timer_row ∷ [] }

lock_created :
    create_lock any_lock manager db manual_lock ≡ ok (db_lock_to_service_lock new_row, with_new)
unfolding create_lock get_claims_from_context authorize_user_role validate_lock validate_manual_lock
    sql_create_lock timeout_fits
lock_created = refl

-- The lock that a manager made is for managers, and has no timeout.
create_lock-made_example :
    HasRole manager role_manager
    × IsUser manager (db_lock_to_service_lock new_row).created_by
    × ((db_lock_to_service_lock new_row).access ≡ role_manager_access)
    × FitsType 1000
        (db_lock_to_service_lock new_row).lock_type
        (db_lock_to_service_lock new_row).timeout
create_lock-made_example =
    create_lock-made any_lock manager db manual_lock (db_lock_to_service_lock new_row) with_new
      lock_created

-- A cache that never drops an entry.
abbrev Entries : Type 0
Entries = List (ℕ × List Text)

abbrev entries : Lru Entries
entries = record { find = λ c i. lookup i c; touch = λ c i. c; put = λ c i roles. insert i roles c }

entries-laws : LruLaws Entries entries
entries-laws = record {
  find-touch = λ c i j. refl;
  find-add = λ c i j roles found h.
      added c i j roles found (Bool-cases (i == j)) (sym (lookup-insert i j roles c) ∙ h);
}
  where
    added :
        (c : Entries) (i j : ℕ) (roles found : List Text)
        → ((i == j) ≡ true) ⊎ ((i == j) ≡ false)
        → (if i == j then some roles else lookup j c) ≡ some found
        → ((i ≡ j) × (found ≡ roles)) ⊎ (lookup j c ≡ some found)
    added c i j roles found (inl y) h =
        let same : some roles ≡ some found =
          subst (λ b. (if b then some roles else lookup j c) ≡ some found) y h in
        inl (eq_sound i j y, cc)
    added c i j roles found (inr n) h =
        inr (subst (λ b. (if b then some roles else lookup j c) ≡ some found) n h)

abbrev stored_roles : ℕ → List Text
stored_roles id = text "role_manager" ∷ []

nothing_cached : IsCoherent Entries entries stored_roles []
unfolding lookup
nothing_cached id found h = absurd cc

-- Three calls for two users: the second fails with its query, and the last finds its answer in the cache.
abbrev calls : List (ℕ × Answer (List Text))
calls = (1, inr (stored_roles 1)) ∷ (2, inl other) ∷ (1, inl other) ∷ []

fetch_many-refines_example :
    AllReturn Entries entries entries-laws stored_roles calls
      (fetch_many Entries entries [] calls).0
    × IsCoherent Entries entries stored_roles (fetch_many Entries entries [] calls).1
fetch_many-refines_example =
    fetch_many-refines Entries entries entries-laws stored_roles [] calls nothing_cached
      (inl refl, (inr (other, refl), (inr (other, refl), tt)))
