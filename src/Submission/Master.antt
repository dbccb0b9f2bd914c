-- ===== src/Submission/Master.antt =====
-- submission_service/nyx_master.go: the master of the slaves, which hands submissions to them. A list of
-- the containers stands for the slice of pointers; the mails that a handler posts are added at the end
-- of `posted`. The sockets, files and goroutines that wait for a script, the start of a slave's own
-- goroutine and its registration with the postman are left out.
pub mod Balance
pub mod Killing
pub mod Extinction
use flux_backend.Common.{
  ℕ, zero, suc, ◌+◌, ◌-◌, ◌*◌, ◌/◌, min, max, Bool, true, false, not, ◌||◌, ◌&&◌, Option, none,
  some, List, [], ◌∷◌, ◌++◌, map, Text_eq, ℕ_eq, ◌==◌, ltb, leb, if◌then◌else◌, lookup, insert,
  erase, length, find?, any, is_some, keep_if, delete_func, contains, take, Text,
}
use flux_backend.Common.Int.{ℤ, ℤ_eq, pos_part, sub_ℕ, add32, sub32, ltbℤ}
use flux_backend.Errors.{FluxError}
use flux_backend.Submission.Model.{
  MailId, Mail, Body, Bot, BotError, SlaveInfo, CfSubRequest, CfSubResult, CfSubStatus,
  cf_sub_request, cf_sub_result, corrupted_bot, mgr_refresh_bots, stop, sub_alert,
  unregister_mail_client, mail_nyx_master, mail_nyx_bot_mgr, mail_nyx_ld_mnr, mail_postman,
}

-- nyxSlaveContainer: the fields of the slave that the master reads, and its number of active
-- submissions, an int32.
pub record Slave : Type 0 where
  pub task_id : ℕ
  pub mail_id : MailId
  pub num_act_subs : ℤ

pub record NyxActSub : Type 0 where
  pub from : MailId
  pub submission_id : ℕ
  pub slave_id : MailId

-- `requested` holds the priorities of the slaves that the scheduler was asked to launch.
pub record NyxMaster : Type 0 where
  pub bots : List Bot
  pub slaves : List Slave
  pub killed_slaves : List Slave
  pub pending_slaves : List ℕ
  pub active_submissions : List (ℕ × NyxActSub)
  pub requested : List ℕ
  pub posted : List Mail

unfoldable pub post : NyxMaster → Mail → NyxMaster
post m ml = record m { posted = m.posted ++ ml ∷ [] }

abbrev pub master_mail : MailId → Body → ℕ → Mail
master_mail to body pr = record { from = mail_nyx_master; to = to; body = body; priority = pr }

-- getSlaveByMailID, and slaveExist as its test.
abbrev pub get_slave_by_mail_id : List Slave → MailId → Option Slave
get_slave_by_mail_id slaves id = find? (λ s. s.mail_id == id) slaves

abbrev pub get_slaves_info : List Slave → List SlaveInfo
get_slaves_info slaves = map (λ s. record { slave_id = s.task_id; slv_mail_id = s.mail_id }) slaves

unfoldable pub inform_manager_to_refresh_bots : NyxMaster → NyxMaster
unfolding post
inform_manager_to_refresh_bots m =
    post m (master_mail mail_nyx_bot_mgr (mgr_refresh_bots m.bots (get_slaves_info m.slaves)) 0)

-- The loop that looks for the slave with the fewest submissions: its place, the first of equals.
unfoldable pub least_from : ℕ → Slave → ℕ → List Slave → ℕ × Slave
least_from best_i best i [] = (best_i, best)
least_from best_i best i (s ∷ ss) =
    let keep = least_from best_i best (suc i) ss in
    let move = least_from i s (suc i) ss in
    if ltbℤ s.num_act_subs best.num_act_subs then move else keep

unfoldable pub update_at {ℓ} : {A : Type ℓ} → ℕ → (A → A) → List A → List A
update_at i f [] = []
update_at zero f (x ∷ xs) = f x ∷ xs
update_at (suc i) f (x ∷ xs) = x ∷ update_at i f xs

abbrev pub one_more : Slave → Slave
one_more s = record s { num_act_subs = add32 s.num_act_subs (ℤ.pos 1) }

abbrev pub one_less : Slave → Slave
one_less s = record s { num_act_subs = sub32 s.num_act_subs (ℤ.pos 1) }

-- The fields that `cfSubResult{err: err}` does not name are zero.
abbrev pub no_slave_result : CfSubResult
no_slave_result = record {
  status = record {
    cf_sub_id = ℤ.pos 0;
    verdict = [];
    time_consumed_millis = ℤ.pos 0;
    memory_consumed_bytes = ℤ.pos 0;
    passed_test_count = ℤ.pos 0;
  };
  err = some FluxError.internal;
  submission_id = 0;
}

-- The rest of handleCfSubRequest, once a slave was chosen.
unfoldable pub assign : NyxMaster → MailId → CfSubRequest → ℕ × Slave → NyxMaster
unfolding post update_at
assign m from body (i, s) =
    let m1 = record m {
      slaves = update_at i one_more m.slaves;
      active_submissions =
          insert body.submission_id
            (record { from = from; submission_id = body.submission_id; slave_id = s.mail_id })
            m.active_submissions;
    } in
    post m1 (master_mail s.mail_id (cf_sub_request body) 0)

unfoldable pub choose_slave : NyxMaster → MailId → CfSubRequest → List Slave → NyxMaster
unfolding assign post least_from
choose_slave m from body [] = post m (master_mail from (cf_sub_result no_slave_result) 1)
choose_slave m from body (s ∷ ss) = assign m from body (least_from 0 s 0 (s ∷ ss))

-- An active entry whose slave exists makes a request a duplicate.
abbrev pub is_duplicate : NyxMaster → ℕ → Bool
is_duplicate m id = elim (lookup id m.active_submissions) [
  | none ↦ false
  | some act ↦ is_some (get_slave_by_mail_id m.slaves act.slave_id)
]

-- handleCfSubRequest, at the time `now`.
unfoldable pub handle_cf_sub_request : ℕ → NyxMaster → MailId → CfSubRequest → NyxMaster
unfolding choose_slave post
handle_cf_sub_request now m from body =
    if is_duplicate m body.submission_id
    then m
    else choose_slave (post m (master_mail mail_nyx_ld_mnr (sub_alert now) 0)) from body m.slaves

-- The first slave of this mail id, changed.
unfoldable pub update_slave : MailId → (Slave → Slave) → List Slave → List Slave
update_slave id f [] = []
update_slave id f (s ∷ ss) = if s.mail_id == id then f s ∷ ss else s ∷ update_slave id f ss

-- handleCfSubResult. `none` is the panic on a slave that is gone: the warning reads `slave.taskID` of a
-- nil pointer.
unfoldable pub handle_cf_sub_result : NyxMaster → CfSubResult → Option NyxMaster
unfolding post update_slave
handle_cf_sub_result m body = elim (lookup body.submission_id m.active_submissions) [
  | none ↦ some m
  | some act ↦
      let pr = if is_some body.err then 1 else 2 in
      let m1 = post m (master_mail act.from (cf_sub_result body) pr) in
      let m2 = record m1 { active_submissions = erase act.submission_id m1.active_submissions } in
      if is_some (get_slave_by_mail_id m.slaves act.slave_id)
      then some (record m2 { slaves = update_slave act.slave_id one_less m2.slaves })
      else none
]

-- omitSlaves.
unfoldable pub omit_slaves : NyxMaster → List MailId → NyxMaster
omit_slaves m ids = record m {
  slaves = delete_func m.slaves (λ s. contains ids s.mail_id);
  killed_slaves = m.killed_slaves ++ keep_if (λ s. contains ids s.mail_id) m.slaves;
}

-- sort.Slice, as the insertion sort that it is on short slices.
abbrev pub insert_slave : Slave → List Slave → List Slave
insert_slave s [] = s ∷ []
insert_slave s (t ∷ ts) =
    if ltbℤ t.num_act_subs s.num_act_subs then t ∷ insert_slave s ts else s ∷ t ∷ ts

abbrev pub sort_slaves : List Slave → List Slave
sort_slaves [] = []
sort_slaves (s ∷ ss) = insert_slave s (sort_slaves ss)

-- The loop that launches slaves; `schedule` holds the scheduler's answers to the requests one after
-- the other, the ids of the tasks.
unfoldable pub start_slaves : ℕ → ℕ → (ℕ → Option ℕ) → NyxMaster → NyxMaster
start_slaves zero pr schedule m = m
start_slaves (suc k) pr schedule m =
    let answer = schedule (length m.requested) in
    let m1 = record m {
      requested = m.requested ++ pr ∷ [];
      pending_slaves = elim answer [ none ↦ m.pending_slaves | some id ↦ id ∷ m.pending_slaves ];
    } in
    start_slaves k (max (pr - 10) 30) schedule m1

-- `kill` is the scheduler's answer to KillTask: whether it succeeded.
module _ (now : ℕ) (kill : ℕ → Bool) where
  -- The loop over the slaves to kill: the master, and the slaves to omit.
  unfoldable pub stop_slaves : NyxMaster → List Slave → NyxMaster × List MailId
  unfolding post
  stop_slaves m [] = (m, [])
  stop_slaves m (s ∷ ss) =
      let (m', ids) = stop_slaves (post m (master_mail s.mail_id (stop now) 1)) ss in
      (m', if kill s.task_id then s.mail_id ∷ ids else ids)

  -- killLeastRecentlyUsedSlaves.
  unfoldable pub kill_least_recently_used_slaves : NyxMaster → ℕ → NyxMaster
  unfolding stop_slaves omit_slaves
  kill_least_recently_used_slaves m num =
      let (m', ids) = stop_slaves m (take (min num (length m.slaves)) (sort_slaves m.slaves)) in
      omit_slaves m' ids

  -- killSlaveWithID.
  unfoldable pub kill_slave_with_id : NyxMaster → MailId → NyxMaster
  unfolding post omit_slaves
  kill_slave_with_id m id = elim (get_slave_by_mail_id m.slaves id) [
    | none ↦ m
    | some s ↦
        let m1 = post m (master_mail id (stop now) 1) in
        if kill s.task_id then omit_slaves m1 (id ∷ []) else m1
  ]

  -- handleSlaveBotError.
  unfoldable pub handle_slave_bot_error : NyxMaster → MailId → BotError → NyxMaster
  unfolding post inform_manager_to_refresh_bots kill_least_recently_used_slaves kill_slave_with_id
  handle_slave_bot_error m from (BotError.flux FluxError.not_found) =
      if is_some (get_slave_by_mail_id m.slaves from)
      then inform_manager_to_refresh_bots m
      else post m (master_mail from (stop now) 1)
  handle_slave_bot_error m from BotError.no_bots =
      if leb (length m.slaves) (length m.bots)
      then inform_manager_to_refresh_bots m
      else if length m.slaves == 1
      then m
      else inform_manager_to_refresh_bots
          (kill_least_recently_used_slaves m (length m.slaves - length m.bots))
  handle_slave_bot_error m from (BotError.flux _) = kill_slave_with_id m from

  -- min((len(bots) + 1) / 2, recSlaves), for a recommendation that is an int.
  abbrev pub cap_at : ℕ → ℤ → ℤ
  cap_at bots (ℤ.pos n) = ℤ.pos (min ((bots + 1) / 2) n)
  cap_at bots (ℤ.negsuc n) = ℤ.negsuc n

  -- handleLoadReport, for the number of slaves that the report recommends: `int` of a float, which is
  -- an argument. max(1, capSlaves) is not negative.
  unfoldable pub handle_load_report : (ℕ → Option ℕ) → NyxMaster → ℤ → NyxMaster
  unfolding start_slaves kill_least_recently_used_slaves
  handle_load_report schedule m rec_slaves =
      let cap_slaves = cap_at (length m.bots) rec_slaves in
      let total_slaves = length m.slaves + length m.pending_slaves in
      let min_slaves = max 1 (pos_part cap_slaves) in
      let m1 =
        if ltb total_slaves min_slaves
        then start_slaves (min_slaves - total_slaves) (max 30 (80 - 10 * total_slaves)) schedule m
        else m in
      if ltbℤ cap_slaves (ℤ.pos (length m.slaves))
      then (if sub_ℕ (length m.slaves) 1 == cap_slaves
          then m1
          else kill_least_recently_used_slaves m1 (length m.slaves - min_slaves))
      else m1

-- handleCorruptedBot; the mails to the managers go out through the email service.
unfoldable pub handle_corrupted_bot : NyxMaster → Text → NyxMaster
unfolding post
handle_corrupted_bot m name =
    post (record m { bots = delete_func m.bots (λ b. b.name == name) })
      (master_mail mail_nyx_bot_mgr (corrupted_bot name) 0)

-- handleSlaveReady: `ready` tells whether the script came up, and `mail_id` is the id made of its task.
unfoldable pub handle_slave_ready : NyxMaster → ℕ → MailId → Bool → NyxMaster
unfolding inform_manager_to_refresh_bots
handle_slave_ready m task_id mail_id ready =
    if contains m.pending_slaves task_id && ready
    then inform_manager_to_refresh_bots (record m {
      slaves =
          m.slaves
          ++ (record { task_id = task_id; mail_id = mail_id; num_act_subs = ℤ.pos 0 }) ∷ [];
      pending_slaves = delete_func m.pending_slaves (λ t. t == task_id);
    })
    else m

-- The rest of handleDeadSlave, for a slave that was found.
unfoldable pub bury : ℕ → NyxMaster → Slave → NyxMaster
unfolding post inform_manager_to_refresh_bots
bury now m dead =
    let m1 = post m (master_mail dead.mail_id (stop now) 1) in
    let m2 = post m1 (master_mail mail_postman (unregister_mail_client dead.mail_id) 0) in
    inform_manager_to_refresh_bots
      (record m2 { slaves = delete_func m2.slaves (λ s. s.task_id == dead.task_id) })

-- handleDeadSlave: the slave is looked for in the inventory, among the killed, and among the pending.
unfoldable pub handle_dead_slave : ℕ → NyxMaster → ℕ → NyxMaster
unfolding bury
handle_dead_slave now m task_id = elim (find? (λ s. s.task_id == task_id) m.slaves) [
  | some dead ↦ bury now m dead
  | none ↦
      let m1 = record m {
        killed_slaves = delete_func m.killed_slaves (λ s. s.task_id == task_id);
      } in
      elim (find? (λ s. s.task_id == task_id) m.killed_slaves) [
        | some dead ↦ bury now m1 dead
        | none ↦ record m1 { pending_slaves = delete_func m1.pending_slaves (λ t. t == task_id) }
      ]
]
