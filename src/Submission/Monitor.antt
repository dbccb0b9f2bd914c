-- ===== src/Submission/Monitor.antt =====
-- submission_service/cf_bot_monitor.go: the monitor of one bot's submissions. What Codeforces and the
-- database answer, and the clock, are arguments.
pub mod Merge
pub mod Life
pub mod Query
use flux_backend.Common.{
  ℕ, ◌+◌, Bool, true, false, not, ◌||◌, Option, none, some, List, [], ◌∷◌, ◌++◌, map, Text, text,
  Text_eq, ◌==◌, ltb, if◌then◌else◌, insert, any, length,
}
use flux_backend.Common.Int.{ℤ, ℤ_eq, ltbℤ}
use flux_backend.Submission.Model.{
  MailId, Mail, Body, stop, keep_alive, mnr_sub_alert, mnr_update_stop_decision, mnr_stopped,
  CfSubStatus, equal, is_cf_sub_sink_state, mail_nyx_bot_mgr,
}

pub record MnrStopDecision : Type 0 where
  pub end_life : Bool
  pub lts_signal : ℕ
  pub lts_stop_decision : ℕ

pub record CfBotMonitor : Type 0 where
  pub bot_name : Text
  pub mail_id : MailId
  pub sub_stat_map : List (ℤ × CfSubStatus)
  pub stop_decision : MnrStopDecision
  pub stopped : Bool

-- The fields that start sets. The zero time stands for the stop decision that was never taken.
abbrev pub new_monitor : Text → MailId → ℕ → CfBotMonitor
new_monitor bot_name mail_id now = record {
  bot_name = bot_name;
  mail_id = mail_id;
  sub_stat_map = [];
  stop_decision = record { end_life = false; lts_signal = now; lts_stop_decision = 0 };
  stopped = false;
}

abbrev pub decide_mail : ℕ → Body → MnrStopDecision → MnrStopDecision
decide_mail now (stop t) d =
    if ltb d.lts_signal t
    then record d { lts_signal = t; end_life = true; lts_stop_decision = t }
    else d
decide_mail now (keep_alive t) d =
    if ltb d.lts_signal t then record d { end_life = false; lts_signal = t } else d
decide_mail now (mnr_sub_alert st) d = record d { lts_stop_decision = now }
decide_mail now (mnr_update_stop_decision t) d =
    if d.end_life then record d { lts_stop_decision = t } else d
decide_mail now _ d = d

abbrev pub record_alert : Body → List (ℤ × CfSubStatus) → List (ℤ × CfSubStatus)
record_alert (mnr_sub_alert st) m = insert st.cf_sub_id st m
record_alert _ m = m

-- The mail case of processMails.
unfoldable pub process_mail : ℕ → CfBotMonitor → Body → CfBotMonitor
process_mail now m body = record m {
  stop_decision = decide_mail now body m.stop_decision;
  sub_stat_map = record_alert body m.sub_stat_map;
}

unfoldable pub should_query_cf : CfBotMonitor → Bool
should_query_cf m = any (λ e. not (is_cf_sub_sink_state (e.1).verdict)) m.sub_stat_map

abbrev pub is_cold_start : CfBotMonitor → Bool
is_cold_start m = elim m.sub_stat_map [ [] ↦ true | _ ∷ _ ↦ false ]

abbrev pub five_minutes : ℕ
five_minutes = 300000000000

-- What one tick does: it runs a cycle of `monitor`, or ends the monitor and tells the manager.
pub data Tick : Type 0 where
  cycle : Tick
  ended : CfBotMonitor → Mail → Tick

unfoldable pub tick : ℕ → CfBotMonitor → Tick
tick now m =
    if not m.stop_decision.end_life
    then cycle
    else if ltb now (m.stop_decision.lts_stop_decision + five_minutes)
    then cycle
    else ended (record m { stopped = true })
        (record {
          from = m.mail_id;
          to = mail_nyx_bot_mgr;
          body = mnr_stopped m.mail_id;
          priority = 0;
        })

index_by_id : List CfSubStatus → List (ℤ × CfSubStatus) → List (ℤ × CfSubStatus)
index_by_id [] acc = acc
index_by_id (st ∷ sts) acc = index_by_id sts (insert st.cf_sub_id st acc)

-- `none` is a query that failed; its cycle ends there, with nothing changed. Otherwise the second
-- part is the list that updateEntriesIntoDB gets.
unfoldable pub refresh_status :
    CfBotMonitor → Option (List CfSubStatus) → CfBotMonitor × Option (List CfSubStatus)
unfolding index_by_id
refresh_status m queried =
    if should_query_cf m || is_cold_start m
    then (elim queried [
      | none ↦ (m, none)
      | some l ↦ (record m { sub_stat_map = index_by_id l [] }, some l)
    ])
    else (m, some (map (λ e. e.1) m.sub_stat_map))
