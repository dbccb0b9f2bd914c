-- ===== src/Submission/Master/Killing.antt =====
-- Slaves that the master kills: how many stay, and what becomes of their submissions.
use flux_backend.Common.{
  ℕ, zero, suc, ◌+◌, ◌-◌, ◌*◌, ◌/◌, ◌≤◌, min, max, Bool, true, false, not, Option, none, some, List,
  [], ◌∷◌, ◌≡◌, refl, sym, ap, ◌∙◌, arith, Text_eq, ℕ_eq, ◌==◌, ltb, length, lookup, contains,
  keep_if, if◌then◌else◌, Bool-cases, inl, inr, eq_sound, All, take, subst, find?, delete_func,
}
use flux_backend.Common.Int.{ℤ, ℤ_eq, pos_part, sub_ℕ, ltbℤ}
use flux_backend.Submission.Model.{MailId, CfSubResult, stop}
use flux_backend.Submission.Master.{
  Slave, NyxActSub, NyxMaster, post, master_mail, get_slave_by_mail_id, omit_slaves, sort_slaves,
  stop_slaves, kill_least_recently_used_slaves, kill_slave_with_id, start_slaves,
  handle_load_report, cap_at, handle_cf_sub_result,
}
use flux_backend.Submission.Master.Balance.{IsBalanced, DistinctIds, id-ne_symm, keep_if-IsBalanced}

-- The slaves whose mail id is not in the list.
abbrev survivors : List MailId → List Slave → List Slave
survivors ids xs = delete_func xs (λ s. contains ids s.mail_id)

survivors_same :
    (i : MailId) (ids : List MailId) (xs : List Slave)
    → All (λ t. (t.mail_id == i) ≡ false) xs
    → length (survivors (i ∷ ids) xs) ≡ length (survivors ids xs)
survivors_same i ids [] h = refl
survivors_same i ids (x ∷ xs) h =
    ground (arith, id-ne_symm x.mail_id i h.0, survivors_same i ids xs h.1)

-- One id more takes at most one slave more.
survivors_one_more :
    (i : MailId) (ids : List MailId) (xs : List Slave)
    → DistinctIds xs
    → length (survivors ids xs) ≤ length (survivors (i ∷ ids) xs) + 1
unfolding DistinctIds
survivors_one_more i ids [] h = omega arith
survivors_one_more i ids (x ∷ xs) h = elim (Bool-cases (i == x.mail_id)) [
  | inl e ↦
      let ne =
        subst (λ y. All (λ t. (t.mail_id == y) ≡ false) xs) (sym (eq_sound i x.mail_id e)) h.0 in
      ground (arith, survivors_same i ids xs ne)
  | inr f ↦ ground (arith, survivors_one_more i ids xs h.1)
]

survivors_none : (xs : List Slave) → length (survivors [] xs) ≡ length xs
survivors_none [] = refl
survivors_none (x ∷ xs) = ground (arith, survivors_none xs)

survivors_enough :
    (ids : List MailId) (xs : List Slave)
    → DistinctIds xs
    → length xs ≤ length (survivors ids xs) + length ids
survivors_enough [] xs h = omega (arith, survivors_none xs)
survivors_enough (i ∷ ids) xs h =
    omega (arith, survivors_enough ids xs h, survivors_one_more i ids xs h)

start_slaves-same :
    (k pr : ℕ) (schedule : ℕ → Option ℕ) (m : NyxMaster)
    → ((start_slaves k pr schedule m).slaves ≡ m.slaves)
      × ((start_slaves k pr schedule m).active_submissions ≡ m.active_submissions)
unfolding start_slaves
start_slaves-same zero pr schedule m = (refl, refl)
start_slaves-same (suc k) pr schedule m = start_slaves-same k (max (pr - 10) 30) schedule _

same-IsBalanced :
    (m m' : NyxMaster)
    → IsBalanced m
    → m'.slaves ≡ m.slaves
    → m'.active_submissions ≡ m.active_submissions
    → IsBalanced m'
same-IsBalanced m m' h slaves act =
    keep_if-IsBalanced m m' (λ s. true) h act (slaves ∙ sym (keep_all m.slaves))
  where
    keep_all : (xs : List Slave) → keep_if (λ s. true) xs ≡ xs
    keep_all [] = refl
    keep_all (x ∷ xs) = ap (λ ys. x ∷ ys) (keep_all xs)

module _ (now : ℕ) (kill : ℕ → Bool) where
  stop_slaves-length :
      (m : NyxMaster) (ss : List Slave) → length (stop_slaves now kill m ss).1 ≤ length ss
  unfolding stop_slaves post
  stop_slaves-length m [] = omega arith
  stop_slaves-length m (s ∷ ss) =
      ground (arith, stop_slaves-length (post m (master_mail s.mail_id (stop now) 1)) ss)

  -- The loop changes nothing but the mails posted.
  stop_slaves-same :
      (m : NyxMaster) (ss : List Slave)
      → ((stop_slaves now kill m ss).0.slaves ≡ m.slaves)
        × ((stop_slaves now kill m ss).0.active_submissions ≡ m.active_submissions)
  unfolding stop_slaves post
  stop_slaves-same m [] = (refl, refl)
  stop_slaves-same m (s ∷ ss) = stop_slaves-same (post m (master_mail s.mail_id (stop now) 1)) ss

  length-take-le : (n : ℕ) (xs : List Slave) → length (take n xs) ≤ n
  length-take-le zero xs = omega arith
  length-take-le (suc n) [] = omega arith
  length-take-le (suc n) (x ∷ xs) = omega (arith, length-take-le n xs)

  -- Asked to kill a number of slaves, a master whose counts of submissions are right, which keeps mail
  -- ids apart, loses no more slaves than that, and the counts stay right.
  pub kill_least_recently_used_slaves_lem :
      (m : NyxMaster) (num : ℕ)
      → IsBalanced m
      → (length m.slaves ≤ length (kill_least_recently_used_slaves now kill m num).slaves + num)
        × IsBalanced (kill_least_recently_used_slaves now kill m num)
  unfolding kill_least_recently_used_slaves omit_slaves
  kill_least_recently_used_slaves_lem m num h =
      let chosen = take (min num (length m.slaves)) (sort_slaves m.slaves) in
      let r = stop_slaves now kill m chosen in
      let same = stop_slaves-same m chosen in
      (
        rw same.0 (
            omega (
              arith,
              survivors_enough r.1 m.slaves h.ids,
              stop_slaves-length m chosen,
              length-take-le (min num (length m.slaves)) (sort_slaves m.slaves),
            )),
        keep_if-IsBalanced m _ (λ s. not (contains r.1 s.mail_id)) h same.1
            (ap (survivors r.1) same.0),
      )

  -- What is launched before.
  launched : (ℕ → Option ℕ) → NyxMaster → ℕ → NyxMaster
  launched schedule m min_slaves =
      let total = length m.slaves + length m.pending_slaves in
      if ltb total min_slaves
      then start_slaves (min_slaves - total) (max 30 (80 - 10 * total)) schedule m
      else m

  launched-same :
      (schedule : ℕ → Option ℕ) (m : NyxMaster) (min_slaves : ℕ)
      → ((launched schedule m min_slaves).slaves ≡ m.slaves)
        × ((launched schedule m min_slaves).active_submissions ≡ m.active_submissions)
  unfolding launched
  launched-same schedule m min_slaves =
      let total = length m.slaves + length m.pending_slaves in
      elim (Bool-cases (ltb total min_slaves)) [
        | inl e ↦
            rw e (start_slaves-same (min_slaves - total) (max 30 (80 - 10 * total)) schedule m)
        | inr f ↦ rw f (refl, refl)
      ]

  pos_part-cap :
      (bots : ℕ) (n : ℤ) → min ((bots + 1) / 2) (pos_part n) ≡ pos_part (cap_at now kill bots n)
  pos_part-cap bots (ℤ.pos n) = refl
  pos_part-cap bots (ℤ.negsuc n) = omega arith

  abbrev Kept : NyxMaster → ℕ → NyxMaster → Type 0
  Kept m k m' = (min k (length m.slaves) ≤ length m'.slaves) × IsBalanced m'

  -- A load report, whatever number of slaves it recommends, never takes the slaves of a master whose
  -- counts of submissions are right, which keeps mail ids apart, below the number that is wanted: one
  -- at the least, and the recommendation as far as there are bots for it. The counts stay right.
  pub handle_load_report-keeps :
      (schedule : ℕ → Option ℕ) (m : NyxMaster) (rec_slaves : ℤ)
      → IsBalanced m
      → (min (max 1 (min ((length m.bots + 1) / 2) (pos_part rec_slaves))) (length m.slaves)
          ≤ length (handle_load_report now kill schedule m rec_slaves).slaves)
        × IsBalanced (handle_load_report now kill schedule m rec_slaves)
  unfolding handle_load_report launched
  handle_load_report-keeps schedule m rec_slaves h =
      let cap = cap_at now kill (length m.bots) rec_slaves in
      let floor = max 1 (pos_part cap) in
      let wanted : min ((length m.bots + 1) / 2) (pos_part rec_slaves) ≡ pos_part cap =
        pos_part-cap (length m.bots) rec_slaves in
      let m1 = launched schedule m floor in
      let same = launched-same schedule m floor in
      let ok = same-IsBalanced m m1 h same.0 same.1 in
      let all : Kept m floor m1 = (rw same.0 (omega arith), ok) in
      let k = kill_least_recently_used_slaves_lem m1 (length m.slaves - floor) ok in
      let kl : length m.slaves
          ≤ length (kill_least_recently_used_slaves now kill m1 (length m.slaves - floor)).slaves
            + (length m.slaves - floor) =
        subst
          (λ n.
            n
            ≤ length (kill_least_recently_used_slaves now kill m1 (length m.slaves - floor)).slaves
              + (length m.slaves - floor))
          (ap length same.0) k.0 in
      rw wanted (elim (Bool-cases (ltbℤ cap (ℤ.pos (length m.slaves)))) [
        | inl e ↦ elim (Bool-cases (sub_ℕ (length m.slaves) 1 == cap)) [
          | inl n ↦ rw e (rw n all)
          | inr n ↦ rw e (rw n (omega arith, k.1))
        ]
        | inr f ↦ rw f all
      ])

  find_survivors :
      (id : MailId) (xs : List Slave) → find? (λ s. s.mail_id == id) (survivors (id ∷ []) xs) ≡ none
  find_survivors id [] = refl
  find_survivors id (x ∷ xs) = elim (Bool-cases (id == x.mail_id)) [
    | inl e ↦ ground (arith, find_survivors id xs)
    | inr f ↦ ground (arith, id-ne_symm id x.mail_id f, find_survivors id xs)
  ]

  -- When a slave that has an active submission was killed, and the result of the submission still
  -- arrives, the master panics.
  pub killed_slave_result :
      (m : NyxMaster) (body : CfSubResult) (act : NyxActSub) (s : Slave)
      → get_slave_by_mail_id m.slaves act.slave_id ≡ some s
      → kill s.task_id ≡ true
      → lookup body.submission_id m.active_submissions ≡ some act
      → handle_cf_sub_result (kill_slave_with_id now kill m act.slave_id) body ≡ none
  unfolding kill_slave_with_id handle_cf_sub_result omit_slaves post
  killed_slave_result m body act s found killed active =
      rw (found, kill_slave_with_id)
        (rw killed
          (rw (active, handle_cf_sub_result) (rw (find_survivors act.slave_id m.slaves) refl)))
