-- ===== src/Submission/Examples.antt =====
-- The submission service's theorems at concrete mails, monitors and slaves.
use flux_backend.Common.{
  ℕ, ◌+◌, ◌%◌, ◌≤◌, min, max, Bool, true, false, Option, none, some, List, [], ◌∷◌, ◌≡◌, refl, ◌⊎◌,
  arith, Text, text, Text_eq, ℕ_eq, lookup, length, insert, All, get_elem?,
}
use flux_backend.Common.Int.{ℤ, ◌≤ℤ◌}
use flux_backend.Submission.Model.{
  Bot, SlaveInfo, Mail, CfSubRequest, CfSubResult, CfSubStatus, MailId, stop, cf_sub_request,
  sub_alert, mnr_stopped, mail_nyx_master, mail_nyx_ld_mnr,
}
use flux_backend.Submission.Postman.{Postman, deliver_mails, deliver_mails_rest}
use flux_backend.Submission.Monitor.{CfBotMonitor, new_monitor}
use flux_backend.Submission.Monitor.Merge.{changes, all_changes, changes-eq-all_changes}
use flux_backend.Submission.Monitor.Life.{
  process_signals, latest, decision, process_signals-latest, process_signals-reorder,
}
use flux_backend.Submission.BotManager.Given.{is_given, new_distribution_gives}
use flux_backend.Submission.BotManager.{
  bots_per_slave, NyxSlaveDist, NyxBotMgr, next_bot, next_index, new_distribution, monitor_mail_id,
}
use flux_backend.Submission.BotManager.RoundRobin.{uses, next_bot_turn}
use flux_backend.Submission.BotManager.Lost.{new_distribution_loses}
use flux_backend.Submission.BotManager.Stopping.{HasNot}
use flux_backend.Submission.Master.{
  Slave, NyxActSub, NyxMaster, handle_cf_sub_request, handle_cf_sub_result, handle_load_report,
  master_mail,
}
use flux_backend.Submission.Master.Balance.{
  IsBalanced, handle_cf_sub_request-IsBalanced, handle_cf_sub_result-IsBalanced,
  handle_cf_sub_request-least, count, DistinctKeys, DistinctIds,
}
use flux_backend.Submission.Model.{BotError}
use flux_backend.Submission.Master.{handle_slave_bot_error}
use flux_backend.Submission.Master.Extinction.{handle_slave_bot_error_kills}
use flux_backend.Submission.Master.Killing.{handle_load_report-keeps}
use flux_backend.Submission.Watcher.{
  SubDb, Insert, Calls, updates, stage, updates-stage, handle_sub_result, handle_sub_result_atomic,
  Committed, NothingNew,
}

abbrev mail_to : MailId → Mail
mail_to id = record { from = mail_nyx_master; to = id; body = stop 5; priority = 1 }

abbrev office : Postman
office = record {
  mail_box = mail_to (text "mail@slave_a") ∷ mail_to (text "mail@slave_b") ∷ [];
  mail_clients = text "mail@slave_a" ∷ [];
  delivered = [];
}

deliver_mails_rest_example : (deliver_mails 4 office).mail_box ≡ []
deliver_mails_rest_example = deliver_mails_rest office

abbrev status_of : ℕ → Text → CfSubStatus
status_of id verdict = record {
  cf_sub_id = ℤ.pos id;
  verdict = verdict;
  time_consumed_millis = ℤ.pos 15;
  memory_consumed_bytes = ℤ.pos 1000;
  passed_test_count = ℤ.pos 3;
}

abbrev result_of : ℕ → ℕ → Text → CfSubResult
result_of id sub verdict = record { status = status_of id verdict; err = none; submission_id = sub }

abbrev asked : List CfSubStatus
asked = status_of 10 (text "OK") ∷ status_of 12 (text "OK") ∷ status_of 13 (text "TESTING") ∷ []

abbrev known : List CfSubResult
known =
    result_of 11 1 (text "OK")
    ∷ result_of 12 2 (text "TESTING")
    ∷ result_of 13 3 (text "TESTING")
    ∷ []

changes-eq-all_changes_example : changes asked known ≡ all_changes asked known
changes-eq-all_changes_example =
    changes-eq-all_changes asked known
      ((omega arith, (omega arith, tt)), ((omega arith, tt), (tt, tt)))
      ((omega arith, (omega arith, tt)), ((omega arith, tt), (tt, tt)))

abbrev monitor : CfBotMonitor
monitor = new_monitor (text "ada") (monitor_mail_id (text "ada")) 100

process_signals-latest_example :
    decision (process_signals monitor ((true, 120) ∷ (false, 110) ∷ []))
    ≡ latest (false, 100) ((true, 120) ∷ (false, 110) ∷ [])
process_signals-latest_example = process_signals-latest ((true, 120) ∷ (false, 110) ∷ []) monitor

process_signals-reorder_example :
    decision (process_signals monitor ((true, 120) ∷ (false, 110) ∷ []))
    ≡ decision (process_signals monitor ((false, 110) ∷ (true, 120) ∷ []))
process_signals-reorder_example =
    process_signals-reorder monitor [] [] (true, 120) (false, 110) (λ e. omega (arith, e))

abbrev finished : CfBotMonitor
finished = record monitor { sub_stat_map = (ℤ.pos 10, status_of 10 (text "OK")) ∷ [] }

abbrev bot : Text → Bot
bot name = record { name = name; platform = text "codeforces"; cookies = [] }

abbrev two_bots : List Bot
two_bots = bot (text "ada") ∷ bot (text "bob") ∷ []

abbrev info : ℕ → SlaveInfo
info id = record { slave_id = id; slv_mail_id = text "mail@slave_a" }

abbrev dist : NyxSlaveDist
dist = record { slave_info = info 7; bots = two_bots; last_used_bot = ℤ.pos 4 }

abbrev manager : NyxBotMgr
manager = record { monitors = (text "ada", monitor) ∷ []; distribution = (7, dist) ∷ [] }

next_bot_turn_example :
    (next_bot (uses 3 dist)).1 ≡ get_elem? two_bots ((next_index (ℤ.pos 4) 2 + 3) % 2)
next_bot_turn_example = next_bot_turn 3 dist (omega arith)

abbrev ending : CfBotMonitor
ending = record monitor {
  stop_decision = record { end_life = true; lts_signal = 120; lts_stop_decision = 120 };
}

abbrev goodbye : Mail
goodbye = record {
  from = ending.mail_id;
  to = text "mail@nyx_bot_manager";
  body = mnr_stopped ending.mail_id;
  priority = 0;
}

abbrev slave : ℕ → Text → ℕ → Slave
slave task id subs = record { task_id = task; mail_id = id; num_act_subs = ℤ.pos subs }

abbrev entry : NyxActSub
entry = record { from = text "mail@watcher"; submission_id = 40; slave_id = text "a" }

abbrev two_slaves : List Slave
two_slaves = slave 7 (text "a") 1 ∷ slave 8 (text "b") 0 ∷ []

abbrev master : NyxMaster
master = record {
  bots = two_bots;
  slaves = two_slaves;
  killed_slaves = [];
  pending_slaves = [];
  active_submissions = (40, entry) ∷ [];
  requested = [];
  posted = [];
}

balanced : IsBalanced master
unfolding count DistinctKeys DistinctIds lookup
balanced = record {
  counts = (refl, (refl, tt));
  ids = ((refl, tt), (tt, tt));
  keys = (refl, tt);
  own = (refl, tt);
}

abbrev request : CfSubRequest
request = record {
  submission_id = 41;
  solution = text "print(1)";
  language = text "Python 3";
  site_problem_code = text "4A";
}

handle_cf_sub_request-IsBalanced_example :
    IsBalanced (handle_cf_sub_request 5 master (text "mail@watcher") request)
handle_cf_sub_request-IsBalanced_example =
    handle_cf_sub_request-IsBalanced 5 master (text "mail@watcher") request (omega arith) balanced

handle_cf_sub_request-least_example :
    (i : ℕ) × (chosen : Slave) × (get_elem? two_slaves i ≡ some chosen)
    × All (λ t. chosen.num_act_subs ≤ℤ t.num_act_subs) two_slaves
    × (lookup 41 (handle_cf_sub_request 5 master (text "mail@watcher") request).active_submissions
        ≡ some
            (record { from = text "mail@watcher"; submission_id = 41; slave_id = chosen.mail_id }))
    × ((handle_cf_sub_request 5 master (text "mail@watcher") request).posted
        ≡ master_mail mail_nyx_ld_mnr (sub_alert 5) 0
          ∷ master_mail chosen.mail_id (cf_sub_request request) 0
          ∷ [])
unfolding lookup
handle_cf_sub_request-least_example =
    handle_cf_sub_request-least 5 master (text "mail@watcher") request (slave 7 (text "a") 1)
      (slave 8 (text "b") 0 ∷ []) refl refl

handle_cf_sub_result-IsBalanced_example :
    (m' : NyxMaster) × (handle_cf_sub_result master (result_of 10 40 (text "OK")) ≡ some m')
    × IsBalanced m'
    × (lookup 40 m'.active_submissions ≡ none)
unfolding lookup
handle_cf_sub_result-IsBalanced_example =
    handle_cf_sub_result-IsBalanced master (result_of 10 40 (text "OK")) entry (omega arith)
      balanced refl refl

abbrev killed_always : ℕ → Bool
killed_always task = true

abbrev launches : ℕ → Option ℕ
launches request = some (9 + request)

handle_load_report-keeps_example :
    (min (max 1 (min 1 0)) 2
      ≤ length (handle_load_report 5 killed_always launches master (ℤ.pos 0)).slaves)
    × IsBalanced (handle_load_report 5 killed_always launches master (ℤ.pos 0))
handle_load_report-keeps_example =
    handle_load_report-keeps 5 killed_always launches master (ℤ.pos 0) balanced

abbrev queued_db : SubDb
queued_db = record { state = text "flux_queued"; rows = [] }

abbrev judged_db : SubDb
judged_db = record { state = text "OK"; rows = [] }

abbrev some_updates : List (Text × (Bool × Bool))
some_updates =
    (text "TESTING", (true, true))
    ∷ (text "flux_failed", (true, true))
    ∷ (text "OK", (true, true))
    ∷ []

updates-stage_example : stage (text "flux_queued") ≤ stage (updates queued_db some_updates).state
updates-stage_example = updates-stage queued_db some_updates

abbrev all_fine : Calls
all_fine = record {
  begins = true;
  insert = Insert.inserted;
  read = true;
  write = true;
  commits = true;
  read_failure = true;
  write_failure = true;
}

handle_sub_result_atomic_example :
    Committed queued_db
      (text "mail@watcher")
      (result_of 10 40 (text "OK"))
      (handle_sub_result all_fine queued_db (text "mail@watcher") (result_of 10 40 (text "OK")))
    ⊎ NothingNew queued_db
        (handle_sub_result all_fine queued_db (text "mail@watcher") (result_of 10 40 (text "OK")))
handle_sub_result_atomic_example =
    handle_sub_result_atomic all_fine queued_db (text "mail@watcher") (result_of 10 40 (text "OK"))

abbrev used_dist : NyxSlaveDist
used_dist = record dist { last_used_bot = ℤ.pos 0 }

new_distribution_loses_example :
    All
      (λ e. HasNot (text "ada") e.1)
      (new_distribution ((7, used_dist) ∷ []) two_bots (info 7 ∷ info 8 ∷ []))
unfolding lookup insert
new_distribution_loses_example =
    new_distribution_loses ((7, used_dist) ∷ []) two_bots (info 7) (info 8 ∷ []) used_dist
      (bot (text "ada")) refl refl refl refl

handle_slave_bot_error_kills_example :
    (handle_slave_bot_error 5 killed_always
      (record master { bots = [] })
      (text "a")
      BotError.no_bots).slaves
    ≡ []
handle_slave_bot_error_kills_example =
    handle_slave_bot_error_kills 5 killed_always (λ id. refl) (record master { bots = [] })
      (text "a") refl (omega arith)

-- The slave with the entry used `ada` last, so `bob` is given out.
new_distribution_gives_example :
    (is_given (text "bob") (new_distribution ((7, used_dist) ∷ []) two_bots (info 7 ∷ info 8 ∷ []))
      ≡ true)
    × All
        (λ e. length e.1.bots ≤ bots_per_slave 2 2)
        (new_distribution ((7, used_dist) ∷ []) two_bots (info 7 ∷ info 8 ∷ []))
new_distribution_gives_example =
    new_distribution_gives (text "bob") ((7, used_dist) ∷ []) two_bots (info 7 ∷ info 8 ∷ [])
      (omega arith) ((refl, tt), (tt, tt)) (refl, tt) refl
