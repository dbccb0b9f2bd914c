-- ===== src/Submission/Manager.antt =====
-- submission_service/nyx_manager.go: the manager of the watchers, with the part of a watcher's start that
-- can fail. `short_id` stands for the first characters of a UUID's text; the mail ids that are
-- registered with the postman are a list.
mod Examples
use flux_backend.Common.{
  ℕ, Bool, true, false, ◌&&◌, Option, none, some, List, [], ◌∷◌, ◌++◌, ◌≡◌, refl, Text, text,
  Text_eq, ℕ_eq, ◌==◌, is_some, lookup, insert, erase, lookup-insert_self, lookup-insert,
  lookup-erase, if◌then◌else◌, Bool-cases, Option-cases, inl, inr, arith, ap, sym, ◌∙◌, subst,
  find?,
}
use flux_backend.Submission.Model.{
  MailId, Mail, submit, unregister_mail_client, mail_nyx_manager, mail_postman, CfSubResult,
}

pub record FluxSubmission : Type 0 where
  pub submission_id : ℕ
  pub solution : List (Text × Text)

-- A watcher, and whether its goroutine processes mails.
pub record NyxWatcher : Type 0 where
  pub mail_id : MailId
  pub solution : List (Text × Text)
  pub running : Bool

pub record NyxManager : Type 0 where
  pub watchers : List (ℕ × NyxWatcher)
  pub registered : List MailId
  pub posted : List Mail

abbrev pub manager_mail : MailId → Mail
manager_mail to = record { from = mail_nyx_manager; to = to; body = submit; priority = 0 }

-- The check of start: the solution has both keys.
unfoldable pub is_complete : List (Text × Text) → Bool
is_complete solution =
    is_some (lookup (text "solution") solution) && is_some (lookup (text "language") solution)

-- start, for a watcher that its maker has filled in: it runs, unless its solution is incomplete.
abbrev pub started : NyxWatcher → NyxWatcher
started w = record w { running = if is_complete w.solution then true else w.running }

module _ (short_id : ℕ → Text) where
  abbrev pub new_watcher : FluxSubmission → NyxWatcher
  new_watcher sub = record {
    mail_id = text "mail@watcher-" ++ short_id sub.submission_id;
    solution = sub.solution;
    running = false;
  }

  -- createWatcher: the manager, and whether the watcher started.
  unfoldable pub create_watcher : NyxManager → FluxSubmission → NyxManager × Bool
  create_watcher mgr sub =
      let w = new_watcher sub in
      (
        record mgr {
          registered = w.mail_id ∷ mgr.registered;
          watchers = insert sub.submission_id (started w) mgr.watchers;
        },
        is_complete w.solution,
      )

  -- The mail to the watcher at the end of handleSubmission, which is there.
  unfoldable pub ask_to_submit : NyxManager → ℕ → NyxManager
  ask_to_submit mgr id = elim (lookup id mgr.watchers) [
    | none ↦ mgr
    | some w ↦ record mgr { posted = mgr.posted ++ manager_mail w.mail_id ∷ [] }
  ]

  -- handleSubmission.
  unfoldable pub handle_submission : NyxManager → FluxSubmission → NyxManager
  unfolding create_watcher ask_to_submit
  handle_submission mgr sub =
      if is_some (lookup sub.submission_id mgr.watchers)
      then ask_to_submit mgr sub.submission_id
      else (let (mgr', done) = create_watcher mgr sub in
          if done then ask_to_submit mgr' sub.submission_id else mgr')

  handle_new :
      (mgr : NyxManager) (sub : FluxSubmission)
      → lookup sub.submission_id mgr.watchers ≡ none
      → handle_submission mgr sub ≡ (
          if is_complete sub.solution
          then ask_to_submit (create_watcher mgr sub).0 sub.submission_id
          else (create_watcher mgr sub).0)
  unfolding handle_submission create_watcher
  handle_new mgr sub absent = rw (absent, handle_submission) refl

  asked :
      (mgr : NyxManager) (id : ℕ) (w : NyxWatcher)
      → lookup id mgr.watchers ≡ some w
      → ask_to_submit mgr id ≡ record mgr { posted = mgr.posted ++ manager_mail w.mail_id ∷ [] }
  unfolding ask_to_submit
  asked mgr id w there = rw (there, ask_to_submit) refl

  handle_known :
      (mgr : NyxManager) (sub : FluxSubmission) (w : NyxWatcher)
      → lookup sub.submission_id mgr.watchers ≡ some w
      → handle_submission mgr sub
        ≡ record mgr { posted = mgr.posted ++ manager_mail w.mail_id ∷ [] }
  unfolding handle_submission ask_to_submit
  handle_known mgr sub w there = rw (there, handle_submission) (asked mgr sub.submission_id w there)

  created :
      (mgr : NyxManager) (sub : FluxSubmission)
      → lookup sub.submission_id (create_watcher mgr sub).0.watchers
        ≡ some (started (new_watcher sub))
  unfolding create_watcher
  created mgr sub = lookup-insert_self sub.submission_id (started (new_watcher sub)) mgr.watchers

  abbrev choice : NyxManager → FluxSubmission → Bool → NyxManager
  choice mgr sub b =
      if b
      then ask_to_submit (create_watcher mgr sub).0 sub.submission_id
      else (create_watcher mgr sub).0

  -- The manager has this watcher for the submission, and has sent one mail to it since.
  abbrev pub Asks : ℕ → NyxWatcher → NyxManager → NyxManager → Type 0
  Asks id w mgr after =
      (lookup id after.watchers ≡ some w)
      × (after.posted ≡ mgr.posted ++ manager_mail w.mail_id ∷ [])

  -- Asked for a submission that has no watcher yet and whose solution is complete, the manager has a
  -- watcher for it that runs, and sends it one mail.
  pub handle_submission_starts :
      (mgr : NyxManager) (sub : FluxSubmission)
      → lookup sub.submission_id mgr.watchers ≡ none
      → is_complete sub.solution ≡ true
      → (w : NyxWatcher) × (w.running ≡ true)
        × Asks sub.submission_id w mgr (handle_submission mgr sub)
  unfolding create_watcher
  handle_submission_starts mgr sub absent complete =
      let w = started (new_watcher sub) in
      let e =
        handle_new mgr sub absent
        ∙ (ap (choice mgr sub) complete
            ∙ asked (create_watcher mgr sub).0 sub.submission_id w (created mgr sub)) in
      (w, rw complete refl, subst (Asks sub.submission_id w mgr) (sym e) (created mgr sub, refl))

  -- A watcher that could not be started stays in the inventory: asked again for its submission, the
  -- manager does not try to start it, but sends it a mail that it does not process.
  pub failed_watcher_stays :
      (mgr : NyxManager) (sub : FluxSubmission)
      → lookup sub.submission_id mgr.watchers ≡ none
      → is_complete sub.solution ≡ false
      → (w : NyxWatcher) × (w.running ≡ false)
        × Asks sub.submission_id w mgr (handle_submission (handle_submission mgr sub) sub)
  unfolding create_watcher
  failed_watcher_stays mgr sub absent incomplete =
      let w = started (new_watcher sub) in
      let once = handle_new mgr sub absent ∙ ap (choice mgr sub) incomplete in
      let twice =
        ap (λ m. handle_submission m sub) once
        ∙ handle_known (create_watcher mgr sub).0 sub w (created mgr sub) in
      (
        w,
        rw incomplete refl,
        subst (Asks sub.submission_id w mgr) (sym twice) (created mgr sub, refl),
      )

-- handleFailedWatcher.
unfoldable pub handle_failed_watcher : NyxManager → ℕ → NyxManager
handle_failed_watcher mgr id = elim (lookup id mgr.watchers) [
  | none ↦ mgr
  | some w ↦ record mgr { watchers = insert id (started w) mgr.watchers }
]

-- handleCfSubResult.
unfoldable pub handle_cf_sub_result : NyxManager → CfSubResult → NyxManager
handle_cf_sub_result mgr res = elim (lookup res.submission_id mgr.watchers) [
  | none ↦ mgr
  | some w ↦ record mgr {
    watchers = erase res.submission_id mgr.watchers;
    posted =
        mgr.posted
        ++ (record {
          from = mail_nyx_manager;
          to = mail_postman;
          body = unregister_mail_client w.mail_id;
          priority = 0;
        })
          ∷ [];
  }
]

-- A result ends the watch: the watcher is gone from the inventory, the watchers of other submissions
-- stay, and the postman is told to forget it.
pub handle_cf_sub_result_ends :
    (mgr : NyxManager) (res : CfSubResult) (w : NyxWatcher) (id : ℕ)
    → lookup res.submission_id mgr.watchers ≡ some w
    → (lookup id (handle_cf_sub_result mgr res).watchers
        ≡ (if res.submission_id == id then none else lookup id mgr.watchers))
      × ((handle_cf_sub_result mgr res).posted
          ≡ mgr.posted
            ++ (record {
              from = mail_nyx_manager;
              to = mail_postman;
              body = unregister_mail_client w.mail_id;
              priority = 0;
            })
              ∷ [])
unfolding handle_cf_sub_result
handle_cf_sub_result_ends mgr res w id there = (
  rw (there, handle_cf_sub_result) (lookup-erase res.submission_id id mgr.watchers),
  rw (there, handle_cf_sub_result) refl,
)
