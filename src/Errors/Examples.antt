-- ===== src/Errors/Examples.antt =====
-- A database error at a concrete constraint.
use flux_backend.Common.{◌≡◌, ◌↔◌, ◌⊎◌, [], some, text}
use flux_backend.Errors.{
  PgError, FluxError, pg, no_rows, handle_db_errors, handle_db_errors_blames_iff,
  code_foreign_key_constraint, code_unique_constraint,
}

abbrev taken_name : PgError
taken_name = record {
  code = text "23505";
  constraint_name = text "users_user_name_key";
  detail = text "Key exists";
}

handle_db_errors_blames_iff_example :
    (((handle_db_errors (pg taken_name) (some [])).sentinel ≡ FluxError.invalid_request) ↔ (
      (e : PgError) × (pg taken_name ≡ pg e)
      × ((e.code ≡ code_foreign_key_constraint) ⊎ (e.code ≡ code_unique_constraint))))
    × (((handle_db_errors (pg taken_name) (some [])).sentinel ≡ FluxError.not_found)
        ↔ (pg taken_name ≡ no_rows))
    × (((handle_db_errors (pg taken_name) (some [])).sentinel ≡ FluxError.invalid_request)
        ⊎ ((handle_db_errors (pg taken_name) (some [])).sentinel ≡ FluxError.not_found)
        ⊎ ((handle_db_errors (pg taken_name) (some [])).sentinel ≡ FluxError.internal))
handle_db_errors_blames_iff_example = handle_db_errors_blames_iff (pg taken_name) []
