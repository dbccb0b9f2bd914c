-- ===== src/Submission/Master/Extinction.antt =====
-- What the master does when there are no bots left.
use flux_backend.Common.{
  ℕ, zero, suc, ◌-◌, ◌≤◌, min, Bool, true, false, ◌||◌, List, [], ◌∷◌, ◌≡◌, refl, ap, ◌∙◌, map,
  arith, Text_eq, ◌==◌, length, contains, take, All, All-imp, delete_func, eq_refl, leb, ℕ_eq,
}
use flux_backend.Submission.Model.{MailId, BotError, stop}
use flux_backend.Submission.Master.{
  Slave, NyxMaster, post, master_mail, insert_slave, sort_slaves, stop_slaves, omit_slaves,
  kill_least_recently_used_slaves, handle_slave_bot_error, inform_manager_to_refresh_bots,
}

-- Whether a slave of the list has this mail id.
has : List Slave → MailId → Bool
has ss id = contains (map (λ s. s.mail_id) ss) id

has-insert :
    (s : Slave) (ts : List Slave) (id : MailId) → has (insert_slave s ts) id ≡ has (s ∷ ts) id
unfolding has
has-insert s [] id = refl
has-insert s (t ∷ ts) id = ground (arith, has-insert s ts id)

has-sort : (ss : List Slave) (id : MailId) → has (sort_slaves ss) id ≡ has ss id
unfolding has
has-sort [] id = refl
has-sort (s ∷ ss) id =
    has-insert s (sort_slaves ss) id ∙ ap (λ b. (s.mail_id == id) || b) (has-sort ss id)

length-insert : (s : Slave) (ts : List Slave) → length (insert_slave s ts) ≡ suc (length ts)
length-insert s [] = refl
length-insert s (t ∷ ts) = ground (arith, length-insert s ts)

length-sort : (ss : List Slave) → length (sort_slaves ss) ≡ length ss
length-sort [] = refl
length-sort (s ∷ ss) = omega (arith, length-insert s (sort_slaves ss), length-sort ss)

take_whole : (n : ℕ) (ss : List Slave) → length ss ≤ n → take n ss ≡ ss
take_whole zero [] h = refl
take_whole zero (s ∷ ss) h = absurd (omega arith)
take_whole (suc n) [] h = refl
take_whole (suc n) (s ∷ ss) h = ap (◌∷◌ s) (take_whole n ss (omega arith))

has_own : (ss : List Slave) → All (λ s. has ss s.mail_id ≡ true) ss
unfolding has
has_own [] = tt
has_own (s ∷ ss) =
    (ground (arith, eq_refl s.mail_id), All-imp (λ t h. ground arith) ss (has_own ss))

deleted : (p : Slave → Bool) (ss : List Slave) → All (λ s. p s ≡ true) ss → delete_func ss p ≡ []
deleted p [] h = refl
deleted p (s ∷ ss) h = rw h.0 (deleted p ss h.1)

module _ (now : ℕ) (kill : ℕ → Bool) (obeys : (id : ℕ) → kill id ≡ true) where
  stopped_ids :
      (m : NyxMaster) (ss : List Slave) → (stop_slaves now kill m ss).1 ≡ map (λ s. s.mail_id) ss
  unfolding stop_slaves post
  stopped_ids m [] = refl
  stopped_ids m (s ∷ ss) =
      rw (obeys s.task_id)
        (ap (◌∷◌ s.mail_id) (stopped_ids (post m (master_mail s.mail_id (stop now) 1)) ss))

  stopped_slaves :
      (m : NyxMaster) (ss : List Slave) → (stop_slaves now kill m ss).0.slaves ≡ m.slaves
  unfolding stop_slaves post
  stopped_slaves m [] = refl
  stopped_slaves m (s ∷ ss) = stopped_slaves (post m (master_mail s.mail_id (stop now) 1)) ss

  kill_everyone :
      (m : NyxMaster) → (kill_least_recently_used_slaves now kill m (length m.slaves)).slaves ≡ []
  unfolding kill_least_recently_used_slaves omit_slaves has
  kill_everyone m =
      let sorted = sort_slaves m.slaves in
      let n = min (length m.slaves) (length m.slaves) in
      let whole : take n sorted ≡ sorted =
        take_whole n sorted (omega (arith, length-sort m.slaves)) in
      let r = stop_slaves now kill m (take n sorted) in
      let ids : r.1 ≡ map (λ s. s.mail_id) sorted =
        stopped_ids m (take n sorted) ∙ ap (map (λ s. s.mail_id)) whole in
      ap (λ xs. delete_func xs (λ s. contains r.1 s.mail_id)) (stopped_slaves m (take n sorted))
      ∙ deleted (λ s. contains r.1 s.mail_id) m.slaves
          (All-imp (λ s h. ap (λ l. contains l s.mail_id) ids ∙ (has-sort m.slaves s.mail_id ∙ h))
            m.slaves (has_own m.slaves))

  -- With no bots and two slaves or more, one slave that reports that it has no bots makes the master
  -- kill all of them, if the scheduler kills what it is asked to: no slave is left.
  pub handle_slave_bot_error_kills :
      (m : NyxMaster) (from : MailId)
      → m.bots ≡ []
      → 2 ≤ length m.slaves
      → (handle_slave_bot_error now kill m from BotError.no_bots).slaves ≡ []
  unfolding handle_slave_bot_error inform_manager_to_refresh_bots post
  handle_slave_bot_error_kills m from none more =
      let few : leb (length m.slaves) (length m.bots) ≡ false = rw none (ground arith) in
      let several : (length m.slaves == 1) ≡ false = ground arith in
      let num : length m.slaves - length m.bots ≡ length m.slaves = rw none (omega arith) in
      rw few (
        rw several
          (ap (λ k. (kill_least_recently_used_slaves now kill m k).slaves) num ∙ kill_everyone m))
