-- ===== src/Services/Contests/Shape.antt =====
-- The shape of the contests in the tables, and what carries it from one state of the tables to the
-- next.
pub mod Kept
pub mod Deleted
pub mod Promised
pub mod Created
pub mod Reachable
use flux_backend.Common.{
  ℕ, Bool, true, false, not, ◌&&◌, ◌+◌, ◌<◌, ◌≤◌, Option, none, some, List, [], ◌∷◌, Text, ◌≡◌, ◌≢◌,
  refl, sym, ◌∙◌, ap, subst, arith, Bool-cases, Option-cases, inl, inr, ◌⊎◌, any, ◌==◌, ℕ_eq,
  is_some, find?-passes, eq_sound,
}
use flux_backend.Services.Context.{minutes}
use flux_backend.Services.Tables.{
  Tables, ContestRow, LockRow, LockType, timer, is_timer, RegisteredRow,
}
use flux_backend.Services.Tables.ContestQueries.{contest_by_id}
use flux_backend.Services.Tables.LockQueries.{lock_by_id}
use flux_backend.Services.Locks.Life.{IsKept}

pub record IsPrivate (row : ContestRow) : Type 0 where
  pub opening : ℕ
  pub unlocked : row.lock_id ≡ none
  pub starts : row.start_time ≡ some opening
  pub ordered : opening < row.end_time
  pub unpublished : row.is_published ≡ false

pub record IsPublic (t : Tables) (row : ContestRow) : Type 0 where
  pub lock : LockRow
  pub opening : ℕ
  pub locked : row.lock_id ≡ some lock.id
  pub kept : IsKept lock t
  pub timed : is_timer lock.lock_type ≡ true
  pub starts : lock.timeout ≡ some opening
  pub no_start_of_its_own : row.start_time ≡ none
  pub ordered : opening + minutes 5 ≤ row.end_time

abbrev pub has_users : Tables → ℕ → Bool
has_users t id = any (λ r. r.contest_id == id) t.registered_users

pub record IsGood (t : Tables) (id : ℕ) (row : ContestRow) : Type 0 where
  pub not_zero : id ≢ 0
  pub kind : IsPrivate row ⊎ IsPublic t row
  pub closed : row.is_published ≡ true → has_users t id ≡ false

-- Every contest is private, with a start before its end and not published, or public, with a timer
-- lock that runs out at least five minutes before its end; a published one has no registered
-- users, and no contest has the zero id.
abbrev pub WellFormed : Tables → Type 0
WellFormed t =
    (id : ℕ) (row : ContestRow) → contest_by_id id t.contests ≡ some row → IsGood t id row

pub IsPublic-Moves :
    (t u : Tables) (row : ContestRow)
    → ((l : LockRow) → is_timer l.lock_type ≡ true → IsKept l t → IsKept l u)
    → IsPrivate row ⊎ IsPublic t row
    → IsPrivate row ⊎ IsPublic u row
IsPublic-Moves t u row moves (inl p) = inl p
IsPublic-Moves t u row moves (inr p) = inr (record {
  lock = p.lock;
  opening = p.opening;
  locked = p.locked;
  kept = moves p.lock p.timed p.kept;
  timed = p.timed;
  starts = p.starts;
  no_start_of_its_own = p.no_start_of_its_own;
  ordered = p.ordered;
})

-- What an operation does to the parts of the tables that the shape is about: it keeps the timers, it
-- may drop contests, and it gives users only to contests that are not published.
pub record Moves (t u : Tables) : Type 0 where
  pub timers : (l : LockRow) → is_timer l.lock_type ≡ true → IsKept l t → IsKept l u
  pub contests :
      (id : ℕ) (row : ContestRow)
      → contest_by_id id u.contests ≡ some row
      → contest_by_id id t.contests ≡ some row
  pub users :
      (id : ℕ) (row : ContestRow)
      → contest_by_id id t.contests ≡ some row
      → row.is_published ≡ true
      → has_users t id ≡ false
      → has_users u id ≡ false

pub Moves-WellFormed : (t u : Tables) → Moves t u → WellFormed t → WellFormed u
Moves-WellFormed t u m good id row found =
    let before = m.contests id row found in
    let was = good id row before in
    record {
      not_zero = was.not_zero;
      kind = IsPublic-Moves t u row m.timers was.kind;
      closed = λ published. m.users id row before published (was.closed published);
    }

-- Tables with the same locks, contests and users.
pub record Frame (t u : Tables) : Type 0 where
  pub locks : u.locks ≡ t.locks
  pub contests : u.contests ≡ t.contests
  pub users : u.registered_users ≡ t.registered_users

abbrev pub unmoved : (t : Tables) → Frame t t
unmoved t = record { locks = refl; contests = refl; users = refl }

pub frame-Moves : (t u : Tables) → Frame t u → Moves t u
frame-Moves t u f = record {
  timers = λ l timed k. subst (λ rows. lock_by_id l.id rows ≡ some l) (sym f.locks) k;
  contests = λ id row h. subst (λ rows. contest_by_id id rows ≡ some row) f.contests h;
  users = λ id row found published no_users.
      subst (λ rows. any (λ r. r.contest_id == id) rows ≡ false) (sym f.users) no_users;
}
