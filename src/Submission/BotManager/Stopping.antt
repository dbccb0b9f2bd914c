-- ===== src/Submission/BotManager/Stopping.antt =====
-- What the manager does when a monitor has stopped.
use flux_backend.Common.{
  ℕ, Bool, true, false, none, List, [], ◌∷◌, ◌≡◌, refl, ap, subst, eq_sound, arith, Text, Text_eq,
  ◌==◌, length, lookup, lookup-erase, if◌then◌else◌, Bool-cases, Option-cases, inl, inr, ◌≢◌,
  eq_of_ne, All, delete_func,
}
use flux_backend.Submission.Model.{Bot, Mail, mnr_stopped}
use flux_backend.Submission.Monitor.{CfBotMonitor, tick, ended}
use flux_backend.Submission.BotManager.{
  NyxBotMgr, NyxSlaveDist, handle_stopped_monitor, delete_bot_from_dist, monitor_mail_id,
}

-- The slave has no bot of this name.
abbrev pub HasNot : Text → NyxSlaveDist → Type 0
HasNot name d = All (λ b. (b.name == name) ≡ false) d.bots

deleted-HasNot :
    (name : Text) (bs : List Bot)
    → All (λ b. (b.name == name) ≡ false) (delete_func bs (λ b. b.name == name))
deleted-HasNot name [] = tt
deleted-HasNot name (b ∷ bs) = elim (Bool-cases (b.name == name)) [
  | inl e ↦ rw e (deleted-HasNot name bs)
  | inr e ↦ rw e (e, deleted-HasNot name bs)
]

delete_bot-HasNot :
    (name : Text) (ds : List (ℕ × NyxSlaveDist))
    → All (λ e. HasNot name e.1) (delete_bot_from_dist name ds)
unfolding delete_bot_from_dist
delete_bot-HasNot name [] = tt
delete_bot-HasNot name ((id, d) ∷ ds) = (deleted-HasNot name d.bots, delete_bot-HasNot name ds)

stopped-distribution :
    (mgr : NyxBotMgr) (name : Text)
    → (handle_stopped_monitor mgr name).distribution ≡ delete_bot_from_dist name mgr.distribution
unfolding handle_stopped_monitor
stopped-distribution mgr name = ground arith

stopped-monitors :
    (mgr : NyxBotMgr) (name other : Text)
    → lookup other (handle_stopped_monitor mgr name).monitors
      ≡ (if name == other then none else lookup other mgr.monitors)
unfolding handle_stopped_monitor
stopped-monitors mgr name other = elim (Option-cases (lookup name mgr.monitors)) [
  | inl e ↦ rw (e, handle_stopped_monitor) (missing (name == other) refl e)
  | inr (m, e) ↦ rw (e, handle_stopped_monitor) (lookup-erase name other mgr.monitors)
]
  where
    missing :
        (b : Bool)
        → (name == other) ≡ b
        → lookup name mgr.monitors ≡ none
        → lookup other mgr.monitors ≡ (if b then none else lookup other mgr.monitors)
    missing true e h = subst (λ x. lookup x mgr.monitors ≡ none) (eq_sound name other e) h
    missing false e h = refl

-- Told the name of a bot, the manager takes the bot from every slave, and its monitor and no other
-- from the inventory.
pub handle_stopped_monitor_lem :
    (mgr : NyxBotMgr) (name : Text)
    → All (λ e. HasNot name e.1) (handle_stopped_monitor mgr name).distribution
      × ((other : Text)
          → lookup other (handle_stopped_monitor mgr name).monitors
            ≡ (if name == other then none else lookup other mgr.monitors))
handle_stopped_monitor_lem mgr name = (
  rw (stopped-distribution mgr name) (delete_bot-HasNot name mgr.distribution),
  stopped-monitors mgr name,
)

mail_id-ne : (name : Text) → monitor_mail_id name ≢ name
mail_id-ne name e = omega (arith, ap length e)

-- A monitor that stops by itself stays in the inventory: it reports its mail id where the manager
-- looks for the name of its bot, and the mail id of a bot is never its name.
pub stopped_stays :
    (mgr : NyxBotMgr) (now : ℕ) (m after : CfBotMonitor) (ml : Mail) (reported : Text)
    → m.mail_id ≡ monitor_mail_id m.bot_name
    → tick now m ≡ ended after ml
    → ml.body ≡ mnr_stopped reported
    → lookup m.bot_name (handle_stopped_monitor mgr reported).monitors
      ≡ lookup m.bot_name mgr.monitors
unfolding tick
stopped_stays mgr now m after ml reported own ends body =
    let same : reported ≡ monitor_mail_id m.bot_name = ground arith in
    rw (stopped-monitors mgr reported m.bot_name)
      (rw same (rw (eq_of_ne (monitor_mail_id m.bot_name) m.bot_name (mail_id-ne m.bot_name))))
