-- ===== src/Services/Users.antt =====
-- internal/service/user_service: looking users up. A call with more names or ids than a page may
-- hold is refused by the validator (`page_size` at most 10000).
pub mod Roles
use flux_backend.Common.{ℕ, Option, none, some, List, [], ◌∷◌, Text, length, map, leb, inl, inr}
use flux_backend.Errors.{DbError}
use flux_backend.Errors.DbError.{no_rows}
use flux_backend.Errors.FluxError.{internal, invalid_request, not_found}
use flux_backend.Services.Result.{Result, ok, err, flux, ◌>>=◌, ◌>>◌, require, Answer, or_internal}
use flux_backend.Services.Tables.{Db, UserRow, ask, Query}
use flux_backend.Services.Tables.UserQueries.{
  sql_get_user_by_user_name, sql_get_user_by_roll_number, sql_get_users_by_ids,
  sql_get_users_by_names,
}

-- A user without its names is not found; any other error of the driver is internal.
abbrev found_user : Answer UserRow → Result UserRow
found_user (inr u) = ok u
found_user (inl no_rows) = err (flux not_found)
found_user (inl _) = err (flux internal)

unfoldable pub fetch_user_by_user_name : Db → Text → Result UserRow
fetch_user_by_user_name db name =
    found_user (ask db Query.get_user_by_user_name (sql_get_user_by_user_name name db.tables))

unfoldable pub fetch_user_by_roll_no : Db → Text → Result UserRow
fetch_user_by_roll_no db roll =
    found_user (ask db Query.get_user_by_roll_number (sql_get_user_by_roll_number roll db.tables))

-- The name is looked at first.
unfoldable pub get_user_by_user_name_or_roll_no : Db → Option Text → Option Text → Result UserRow
get_user_by_user_name_or_roll_no db (some name) roll = fetch_user_by_user_name db name
get_user_by_user_name_or_roll_no db none (some roll) = fetch_user_by_roll_no db roll
get_user_by_user_name_or_roll_no db none none = err (flux invalid_request)

abbrev pub max_page_size : ℕ
max_page_size = 10000

-- GetUsersByFilters, with names or with ids, for one page that holds them all.
unfoldable pub get_users_by_names : Db → List Text → Result (List UserRow)
get_users_by_names db names = do
  require (leb (length names) max_page_size) invalid_request
  or_internal (ask db Query.get_users_by_filters (inr (sql_get_users_by_names names db.tables)))

unfoldable pub get_users_by_ids : Db → List ℕ → Result (List UserRow)
get_users_by_ids db ids = do
  require (leb (length ids) max_page_size) invalid_request
  or_internal (ask db Query.get_users_by_filters (inr (sql_get_users_by_ids ids db.tables)))
