-- ===== src/Submission/Master/Balance.antt =====
-- The count of active submissions that the master keeps for each slave.
mod Counting
mod Slaves
mod Choice
use flux_backend.Common.{
  ℕ, zero, suc, ◌+◌, ◌≤◌, ◌<◌, Bool, true, false, not, Option, none, some, List, [], ◌∷◌, ◌++◌, ◌≡◌,
  refl, sym, ap, ◌∙◌, arith, Text_eq, ℕ_eq, ◌==◌, length, get_elem?, is_some, lookup, insert, erase,
  lookup-erase, lookup-insert, lookup-erase_self, lookup-insert_self, if◌then◌else◌, Bool-cases,
  Option-cases, ◌⊎◌, inl, inr, ◌≢◌, eq_of_ne, eq_sound, eq_refl, All, All-imp, All-keep_if, keep_if,
  All-append, find?, subst,
}
use flux_backend.Common.Int.{
  ℤ, ◌+ℤ◌, ◌-ℤ◌, pos_part, neg_part, ltbℤ, ◌≤ℤ◌, +ℤ_parts, -ℤ_parts, parts_disjoint, eq_of_parts,
}
use flux_backend.Submission.Model.{
  cf_sub_result, cf_sub_request, sub_alert, mail_nyx_ld_mnr, MailId, CfSubRequest, CfSubResult,
}
use flux_backend.Submission.Master.{
  Slave, NyxActSub, NyxMaster, post, get_slave_by_mail_id, master_mail, least_from, update_at,
  one_more, one_less, assign, choose_slave, is_duplicate, handle_cf_sub_request, update_slave,
  handle_cf_sub_result, omit_slaves,
}
unfoldable pub use Counting.*
pub use Slaves.*
use Choice.*

-- The count of each slave is the number of active submissions that are with it, and neither slaves nor
-- entries are there twice.
pub record IsBalanced (m : NyxMaster) : Type 0 where
  pub counts : All (Counts m.active_submissions) m.slaves
  pub ids : DistinctIds m.slaves
  pub keys : DistinctKeys m.active_submissions
  pub own : All Own m.active_submissions

-- What a request does when a slave was chosen.
assign-IsBalanced :
    (m : NyxMaster) (from : MailId) (body : CfSubRequest) (i : ℕ) (s : Slave)
    → Few m.active_submissions
    → is_duplicate m body.submission_id ≡ false
    → get_elem? m.slaves i ≡ some s
    → IsBalanced m
    → IsBalanced (assign m from body (i, s))
unfolding assign post
assign-IsBalanced m from body i s few fresh place h =
    let a : NyxActSub = record {
      from = from;
      submission_id = body.submission_id;
      slave_id = s.mail_id;
    } in
    let es = m.active_submissions in
    let more =
      request-More s.mail_id body.submission_id a es m.slaves refl
        (replaced m.slaves (lookup body.submission_id es) fresh) in
    record {
      counts =
          update_at-Counts es (insert body.submission_id a es) m.slaves i s few place h.ids more
            h.counts;
      ids = update_at-DistinctIds i m.slaves h.ids;
      keys = insert-DistinctKeys body.submission_id a es h.keys;
      own = insert-Own body.submission_id a es refl h.own;
    }

choose-IsBalanced :
    (m : NyxMaster) (from : MailId) (body : CfSubRequest) (xs : List Slave)
    → Few m.active_submissions
    → m.slaves ≡ xs
    → is_duplicate m body.submission_id ≡ false
    → IsBalanced m
    → IsBalanced (choose_slave m from body xs)
unfolding choose_slave post
choose-IsBalanced m from body [] few e fresh h = record {
  counts = h.counts;
  ids = h.ids;
  keys = h.keys;
  own = h.own;
}
choose-IsBalanced m from body (s ∷ ss) few e fresh h =
    let r = least_from 0 s 0 (s ∷ ss) in
    let place =
      least_from-place (s ∷ ss) 0 s 0 (s ∷ ss) refl
        (λ j. let same : j ≡ 0 + j = omega arith in ap (get_elem? (s ∷ ss)) same) in
    assign-IsBalanced m from body r.0 r.1 few fresh
      (subst (λ xs. get_elem? xs r.0 ≡ some r.1) (sym e) place) h

-- A request keeps the counts of the slaves' active submissions right, while the active submissions
-- are few enough for an int32.
pub handle_cf_sub_request-IsBalanced :
    (now : ℕ) (m : NyxMaster) (from : MailId) (body : CfSubRequest)
    → length m.active_submissions < 2147483647
    → IsBalanced m
    → IsBalanced (handle_cf_sub_request now m from body)
unfolding handle_cf_sub_request post
handle_cf_sub_request-IsBalanced now m from body few h =
    elim (Bool-cases (is_duplicate m body.submission_id)) [
      | inl t ↦ rw t h
      | inr f ↦ rw f (
          choose-IsBalanced _ from body m.slaves few refl f
            (record { counts = h.counts; ids = h.ids; keys = h.keys; own = h.own }))
    ]

found-Own :
    (m : NyxMaster) (k : ℕ) (act : NyxActSub)
    → IsBalanced m
    → lookup k m.active_submissions ≡ some act
    → All
        (Fewer act.slave_id m.active_submissions (erase act.submission_id m.active_submissions))
        m.slaves
found-Own m k act h e =
    let es = m.active_submissions in
    let own = lookup-Own k es act h.own e in
    let there = subst (λ x. lookup x es ≡ some act) (sym own) e in
    erase-Fewer act es there h.keys m.slaves

-- The result of a submission that is active and whose slave exists is handled: its entry is gone and
-- the counts are right, if they were and the active submissions are few enough for an int32.
pub handle_cf_sub_result-IsBalanced :
    (m : NyxMaster) (body : CfSubResult) (act : NyxActSub)
    → length m.active_submissions < 2147483647
    → IsBalanced m
    → lookup body.submission_id m.active_submissions ≡ some act
    → is_some (get_slave_by_mail_id m.slaves act.slave_id) ≡ true
    → (m' : NyxMaster) × (handle_cf_sub_result m body ≡ some m')
      × IsBalanced m'
      × (lookup body.submission_id m'.active_submissions ≡ none)
unfolding handle_cf_sub_result post
handle_cf_sub_result-IsBalanced m body act few h e exists =
    let es = m.active_submissions in
    let fewer = found-Own m body.submission_id act h e in
    let own = lookup-Own body.submission_id es act h.own e in
    (
      record m {
        posted =
            (post m (
              master_mail act.from (cf_sub_result body)
                (if is_some body.err then 1 else 2))).posted;
        active_submissions = erase act.submission_id es;
        slaves = update_slave act.slave_id one_less m.slaves;
      },
      rw (e, handle_cf_sub_result) (rw exists refl),
      record {
        counts = update_slave-Counts act.slave_id es _ m.slaves few h.ids fewer h.counts;
        ids = update_slave-DistinctIds act.slave_id m.slaves h.ids;
        keys = erase-DistinctKeys act.submission_id es h.keys;
        own = erase-Own act.submission_id es h.own;
      },
      subst (λ k. lookup body.submission_id (erase k es) ≡ none) (sym own)
          (lookup-erase_self body.submission_id es),
    )

-- Slaves that are taken away leave the counts of the others right.
pub keep_if-IsBalanced :
    (m m' : NyxMaster) (p : Slave → Bool)
    → IsBalanced m
    → m'.active_submissions ≡ m.active_submissions
    → m'.slaves ≡ keep_if p m.slaves
    → IsBalanced m'
keep_if-IsBalanced m m' p h act slaves = record {
  counts = rw (act, slaves) (All-keep_if (Counts m.active_submissions) p m.slaves h.counts);
  ids = rw slaves (DistinctIds-keep_if p m.slaves h.ids);
  keys = rw act h.keys;
  own = rw act h.own;
}

-- If there are slaves, a request that is not a duplicate is entered for one of them, whose count of
-- submissions is not greater than that of any other; the load monitor is alerted, and then that slave gets the request.
pub handle_cf_sub_request-least :
    (now : ℕ) (m : NyxMaster) (from : MailId) (body : CfSubRequest) (s : Slave) (ss : List Slave)
    → m.slaves ≡ s ∷ ss
    → is_duplicate m body.submission_id ≡ false
    → (i : ℕ) × (chosen : Slave) × (get_elem? (s ∷ ss) i ≡ some chosen)
      × All (λ t. chosen.num_act_subs ≤ℤ t.num_act_subs) (s ∷ ss)
      × (lookup body.submission_id (handle_cf_sub_request now m from body).active_submissions
          ≡ some (record {
            from = from;
            submission_id = body.submission_id;
            slave_id = chosen.mail_id;
          }))
      × ((handle_cf_sub_request now m from body).posted
          ≡ (m.posted ++ master_mail mail_nyx_ld_mnr (sub_alert now) 0 ∷ [])
            ++ master_mail chosen.mail_id (cf_sub_request body) 0 ∷ [])
unfolding handle_cf_sub_request choose_slave assign post
handle_cf_sub_request-least now m from body s ss e fresh =
    let r = least_from 0 s 0 (s ∷ ss) in
    (
      r.0,
      r.1,
      least_from-place (s ∷ ss) 0 s 0 (s ∷ ss) refl
          (λ j. let same : j ≡ 0 + j = omega arith in ap (get_elem? (s ∷ ss)) same),
      (least_from-least 0 s 0 (s ∷ ss)).1,
      rw fresh (rw e (lookup-insert_self body.submission_id _ m.active_submissions)),
      rw fresh (rw e refl),
    )
