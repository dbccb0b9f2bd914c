-- ===== src/Services/Tables/UserQueries.antt =====
-- internal/database/users.sql.go, the queries that the services make for names and ids.
use flux_backend.Common.{ℕ, List, Text, Text_eq, ℕ_eq, ◌==◌, find?, keep_if, contains}
use flux_backend.Services.Result.{Answer}
use flux_backend.Services.Tables.{Tables, UserRow}
use flux_backend.Services.Tables.LockQueries.{one_row}

unfoldable pub sql_get_user_by_user_name : Text → Tables → Answer UserRow
sql_get_user_by_user_name name t = one_row (find? (λ u. u.user_name == name) t.users)

unfoldable pub sql_get_user_by_roll_number : Text → Tables → Answer UserRow
sql_get_user_by_roll_number roll t = one_row (find? (λ u. u.roll_no == roll) t.users)

-- The two ways in which the contests filter users; ids and names are unique, so a limit of as many
-- rows as there are ids or names cuts nothing off.
unfoldable pub sql_get_users_by_ids : List ℕ → Tables → List UserRow
sql_get_users_by_ids ids t = keep_if (λ u. contains ids u.id) t.users

unfoldable pub sql_get_users_by_names : List Text → Tables → List UserRow
sql_get_users_by_names names t = keep_if (λ u. contains names u.user_name) t.users
