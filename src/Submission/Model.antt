-- ===== src/Submission/Model.antt =====
-- submission_service/nyx_models.go and common_models.go: the data that the components exchange. Ids
-- are numbers in place of UUIDs, and times are nanoseconds.
use flux_backend.Common.{ℕ, Bool, ◌&&◌, Option, List, [], ◌∷◌, Text, text, ◌==◌, Text_eq, contains}
use flux_backend.Common.Int.{ℤ, ℤ_eq}
use flux_backend.Errors.{FluxError}

abbrev pub MailId : Type 0
MailId = Text

abbrev pub mail_nyx_master : MailId
mail_nyx_master = text "mail@nyx_master"

abbrev pub mail_nyx_bot_mgr : MailId
mail_nyx_bot_mgr = text "mail@nyx_bot_manager"

abbrev pub mail_nyx_ld_mnr : MailId
mail_nyx_ld_mnr = text "mail@nyx_load_monitor"

abbrev pub mail_nyx_manager : MailId
mail_nyx_manager = text "mail@nyx_manager"

abbrev pub mail_postman : MailId
mail_postman = text "mail@postman"

-- The cookies are passed on and never looked at.
pub record Bot : Type 0 where
  pub name : Text
  pub platform : Text
  pub cookies : Text

pub record CfSubRequest : Type 0 where
  pub submission_id : ℕ
  pub solution : Text
  pub language : Text
  pub site_problem_code : Text

-- int64 and int32 fields.
pub record CfSubStatus : Type 0 where
  pub cf_sub_id : ℤ
  pub verdict : Text
  pub time_consumed_millis : ℤ
  pub memory_consumed_bytes : ℤ
  pub passed_test_count : ℤ

pub record CfSubResult : Type 0 where
  pub status : CfSubStatus
  pub err : Option FluxError
  pub submission_id : ℕ

-- errNoBots is the submission service's own sentinel.
pub data BotError : Type 0 where
  flux : FluxError → BotError
  no_bots : BotError

pub record SlaveInfo : Type 0 where
  pub slave_id : ℕ
  pub slv_mail_id : MailId

-- The body of a mail, by the type that the receivers' type switches look at.
pub data Body : Type 0 where
  cf_sub_request : CfSubRequest → Body
  cf_sub_result : CfSubResult → Body
  slave_bot_error : BotError → Body
  invalid_mail_client : MailId → Body
  unregister_mail_client : MailId → Body
  corrupted_bot : Text → Body
  mgr_refresh_bots : List Bot → List SlaveInfo → Body
  mnr_stopped : Text → Body
  mnr_sub_alert : CfSubStatus → Body
  mnr_update_stop_decision : ℕ → Body
  stop : ℕ → Body
  keep_alive : ℕ → Body
  sub_alert : ℕ → Body
  submit watcher_failed : Body

pub record Mail : Type 0 where
  pub from : MailId
  pub to : MailId
  pub body : Body
  pub priority : ℕ

-- cfSubStatus.equal
abbrev pub equal : CfSubStatus → CfSubStatus → Bool
equal stat other =
    stat.cf_sub_id == other.cf_sub_id
    && (stat.verdict == other.verdict
        && (stat.time_consumed_millis == other.time_consumed_millis
            && (stat.memory_consumed_bytes == other.memory_consumed_bytes
                && stat.passed_test_count == other.passed_test_count)))

pub cf_sink_states : List Text
cf_sink_states =
    text "FAILED"
    ∷ text "OK"
    ∷ text "PARTIAL"
    ∷ text "COMPILATION_ERROR"
    ∷ text "RUNTIME_ERROR"
    ∷ text "WRONG_ANSWER"
    ∷ text "TIME_LIMIT_EXCEEDED"
    ∷ text "MEMORY_LIMIT_EXCEEDED"
    ∷ text "IDLENESS_LIMIT_EXCEEDED"
    ∷ text "SECURITY_VIOLATED"
    ∷ text "CRASHED"
    ∷ text "INPUT_PREPARATION_CRASHED"
    ∷ text "CHALLENGED"
    ∷ text "SKIPPED"
    ∷ text "REJECTED"
    ∷ []

unfoldable pub is_cf_sub_sink_state : Text → Bool
unfolding cf_sink_states
is_cf_sub_sink_state state = contains cf_sink_states state

abbrev pub sub_status_flux_queued : Text
sub_status_flux_queued = text "flux_queued"

abbrev pub sub_status_flux_failed : Text
sub_status_flux_failed = text "flux_failed"
