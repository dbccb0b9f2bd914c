-- ===== src/Submission/BotManager.antt =====
-- submission_service/bot_manager.go: the manager of the bots' monitors and of the distribution of the
-- bots over the slaves. Mails that it posts are returned as a list, oldest first.
pub mod RoundRobin
pub mod Distribution
pub mod Index
pub mod Slots
pub mod Given
pub mod Stopping
pub mod Lost
use flux_backend.Common.{
  ℕ, suc, ◌+◌, ◌-◌, ◌/◌, ◌%◌, Bool, true, false, not, ◌||◌, ◌&&◌, Option, none, some, List, [], ◌∷◌,
  ◌++◌, map, Text, text, Text_eq, ℕ_eq, ◌==◌, ltb, leb, if◌then◌else◌, lookup, insert, erase,
  length, get_elem?, take, drop, find?, is_some, delete_func, ◌⊎◌, inl, inr,
}
use flux_backend.Common.Int.{ℤ}
use flux_backend.Errors.{FluxError}
use flux_backend.Submission.Model.{
  MailId, Mail, Body, stop, keep_alive, Bot, BotError, SlaveInfo, mail_nyx_bot_mgr,
}
use flux_backend.Submission.Monitor.{CfBotMonitor, new_monitor}

-- `last_used_bot` is -1, as `negsuc 0`, before the first use.
pub record NyxSlaveDist : Type 0 where
  pub slave_info : SlaveInfo
  pub bots : List Bot
  pub last_used_bot : ℤ

pub record NyxBotMgr : Type 0 where
  pub monitors : List (Text × CfBotMonitor)
  pub distribution : List (ℕ × NyxSlaveDist)

-- The mail id of a bot's monitor.
abbrev pub monitor_mail_id : Text → MailId
monitor_mail_id bot_name = text "mail@bot-" ++ bot_name

-- (i + 1) % n of Go, for an index that is -1 or more.
abbrev pub next_index : ℤ → ℕ → ℕ
next_index (ℤ.pos i) n = (i + 1) % n
next_index (ℤ.negsuc i) n = 0

unfoldable pub next_bot : NyxSlaveDist → NyxSlaveDist × Option Bot
next_bot d =
    let i = next_index d.last_used_bot (length d.bots) in
    (record d { last_used_bot = ℤ.pos i }, get_elem? d.bots i)

-- getBot: the new state, and the bot or the error. The slice is not empty where it is indexed, and
-- `none` would stand for the panic of an index out of range.
unfoldable pub get_bot : NyxBotMgr → ℕ → NyxBotMgr × (Option Bot ⊎ BotError)
unfolding next_bot
get_bot mgr slave_id = elim (lookup slave_id mgr.distribution) [
  | none ↦ (mgr, inr (BotError.flux FluxError.not_found))
  | some d ↦
      if length d.bots == 0
      then (mgr, inr BotError.no_bots)
      else (let (d', bot) = next_bot d in
          (record mgr { distribution = insert slave_id d' mgr.distribution }, inl bot))
]

-- deleteBotFromDist.
unfoldable pub delete_bot_from_dist : Text → List (ℕ × NyxSlaveDist) → List (ℕ × NyxSlaveDist)
delete_bot_from_dist bot_name [] = []
delete_bot_from_dist bot_name ((id, d) ∷ ds) =
    (id, record d { bots = delete_func d.bots (λ b. b.name == bot_name) })
    ∷ delete_bot_from_dist bot_name ds

-- handleStoppedMonitor, for the name that the mail carries.
unfoldable pub handle_stopped_monitor : NyxBotMgr → Text → NyxBotMgr
unfolding delete_bot_from_dist
handle_stopped_monitor mgr stopped_bot_name =
    let dist = delete_bot_from_dist stopped_bot_name mgr.distribution in
    elim (lookup stopped_bot_name mgr.monitors) [
      | none ↦ record mgr { distribution = dist }
      | some m ↦ record mgr { distribution = dist; monitors = erase stopped_bot_name mgr.monitors }
    ]

abbrev pub signal_mail : CfBotMonitor → Body → Mail
signal_mail m body = record { from = mail_nyx_bot_mgr; to = m.mail_id; body = body; priority = 0 }

-- handleCorruptedBot.
unfoldable pub handle_corrupted_bot : ℕ → NyxBotMgr → Text → NyxBotMgr × List Mail
unfolding delete_bot_from_dist
handle_corrupted_bot now mgr bot_name =
    let mgr' = record mgr { distribution = delete_bot_from_dist bot_name mgr.distribution } in
    elim (lookup bot_name mgr.monitors) [
      | none ↦ (mgr', [])
      | some m ↦ (mgr', signal_mail m (stop now) ∷ [])
    ]

-- The name index of the bots.
abbrev pub all_bots : List Bot → List (Text × Bot) → List (Text × Bot)
all_bots [] m = m
all_bots (b ∷ bs) m = all_bots bs (insert b.name b m)

-- The life signals to the monitors that exist.
unfoldable pub life_signals : ℕ → List (Text × Bot) → List (Text × CfBotMonitor) → List Mail
life_signals now bots [] = []
life_signals now bots ((k, m) ∷ ms) =
    signal_mail m (if is_some (lookup m.bot_name bots) then keep_alive now else stop now)
    ∷ life_signals now bots ms

-- The loop that creates the monitors of new bots and registers them with the postman: the monitors,
-- and the mail ids that it registers.
unfoldable pub create_monitors :
    ℕ → List Bot → List (Text × CfBotMonitor) → List (Text × CfBotMonitor) × List MailId
create_monitors now [] ms = (ms, [])
create_monitors now (b ∷ bs) ms =
    let old = is_some (lookup b.name ms) in
    let (ms', ids) =
      create_monitors now bs
        (if old then ms else insert b.name (new_monitor b.name (monitor_mail_id b.name) now) ms) in
    (ms', if old then ids else monitor_mail_id b.name ∷ ids)

abbrev fresh_dist : SlaveInfo → NyxSlaveDist
fresh_dist info = record { slave_info = info; bots = []; last_used_bot = ℤ.negsuc 0 }

-- The bot that an entry of the old distribution used last; none for an index out of bounds.
abbrev pub last_bot : NyxSlaveDist → Option Bot
last_bot d = elim d.last_used_bot [ ℤ.pos i ↦ get_elem? d.bots i | ℤ.negsuc i ↦ none ]

-- What one round of the loop over the slaves does to the index of the bots: it takes out the bot
-- that the slave used last. The bot is then put into `sdist`, the entry of the old distribution, and
-- not into the slave's new entry.
unfoldable pub keep_last_bot :
    List (ℕ × NyxSlaveDist) → SlaveInfo → List (Text × Bot) → List (Text × Bot)
keep_last_bot old info bots = elim (lookup info.slave_id old) [
  | none ↦ bots
  | some d ↦ elim (last_bot d) [
    | none ↦ bots
    | some prev ↦ if is_some (lookup prev.name bots) then erase prev.name bots else bots
  ]
]

-- The old distribution after that round.
unfoldable pub narrow_old :
    SlaveInfo → List (Text × Bot) → List (ℕ × NyxSlaveDist) → List (ℕ × NyxSlaveDist)
narrow_old info bots old = elim (lookup info.slave_id old) [
  | none ↦ old
  | some d ↦ elim (last_bot d) [
    | none ↦ old
    | some prev ↦
        if is_some (lookup prev.name bots)
        then insert info.slave_id (record d { bots = prev ∷ []; last_used_bot = ℤ.pos 0 }) old
        else old
  ]
]

-- The loop over the slaves: the new entries and the remaining bots.
unfoldable pub get_slaves :
    List (ℕ × NyxSlaveDist)
    → List SlaveInfo
    → List (ℕ × NyxSlaveDist)
    → List (Text × Bot)
    → List (ℕ × NyxSlaveDist) × List (Text × Bot)
unfolding keep_last_bot narrow_old
get_slaves old [] cur bots = (cur, bots)
get_slaves old (info ∷ infos) cur bots =
    get_slaves (narrow_old info bots old) infos (insert info.slave_id (fresh_dist info) cur)
      (keep_last_bot old info bots)

-- The loop that gives each slave bots up to its share, from the bots that remain.
unfoldable pub distribute : ℕ → List (ℕ × NyxSlaveDist) → List Bot → List (ℕ × NyxSlaveDist)
distribute share [] rem = []
distribute share ((id, d) ∷ ds) rem =
    let room = share - length d.bots in
    (id, record d { bots = d.bots ++ take room rem }) ∷ distribute share ds (drop room rem)

-- int(ceilBots / floatSlaveCount): the division of floats is exact enough below 2^53.
abbrev pub bots_per_slave : ℕ → ℕ → ℕ
bots_per_slave bots slaves = (bots + slaves - 1) / slaves

empty_dists : List SlaveInfo → List (ℕ × NyxSlaveDist) → List (ℕ × NyxSlaveDist)
empty_dists [] m = m
empty_dists (i ∷ is) m =
    empty_dists is
      (insert i.slave_id (record { slave_info = i; bots = []; last_used_bot = ℤ.pos 0 }) m)

-- The distribution that refreshBots computes.
unfoldable pub new_distribution :
    List (ℕ × NyxSlaveDist) → List Bot → List SlaveInfo → List (ℕ × NyxSlaveDist)
unfolding empty_dists
new_distribution old bots slaves =
    if length slaves == 0
    then []
    else if length bots == 0
    then empty_dists slaves []
    else (let (cur, rem) = get_slaves old slaves [] (all_bots bots []) in
        distribute (bots_per_slave (length bots) (length slaves)) cur (map (λ e. e.1) rem))

-- What refreshBots does: the new state, the mails it posts and the mail ids it registers.
unfoldable pub refresh_bots :
    ℕ → NyxBotMgr → List Bot → List SlaveInfo → NyxBotMgr × (List Mail × List MailId)
refresh_bots now mgr bots slaves =
    let (monitors, registered) = create_monitors now bots mgr.monitors in
    (
      record mgr {
        monitors = monitors;
        distribution = new_distribution mgr.distribution bots slaves;
      },
      (life_signals now (all_bots bots []) mgr.monitors, registered),
    )
