-- ===== src/Submission/Watcher.antt =====
-- submission_service/nyx_watcher.go: what a watcher writes about its submission. The database is the
-- state of the one submission and the rows of the table of Codeforces submissions that belong to it;
-- how each statement of the transaction ends is an argument.
use flux_backend.Common.{
  ℕ, ◌≤◌, Bool, true, false, not, ◌||◌, ◌&&◌, Option, none, some, List, [], ◌∷◌, ◌++◌, ◌≡◌, refl,
  arith, Text, Text_eq, ◌==◌, if◌then◌else◌, Bool-cases, Option-cases, ◌⊎◌, inl, inr, is_some,
}
use flux_backend.Errors.{FluxError}
use flux_backend.Submission.Model.{
  MailId, Mail, CfSubStatus, CfSubResult, cf_sub_result, mail_nyx_manager, is_cf_sub_sink_state,
  sub_status_flux_queued, sub_status_flux_failed,
}

pub record SubDb : Type 0 where
  pub state : Text
  pub rows : List CfSubStatus

-- How the insert of the result ends.
pub data Insert : Type 0 where
  inserted unique_error other_error : Insert

abbrev pub is_flux_state : Text → Bool
is_flux_state state = state == sub_status_flux_queued || state == sub_status_flux_failed

-- updateCfSubmissionState: the database after it, and the error. `read` and `write` tell whether the
-- submission could be read and the update succeeded.
unfoldable pub update_cf_submission_state : Bool → Bool → SubDb → Text → SubDb × Option FluxError
update_cf_submission_state read write db state =
    if not read
    then (db, some FluxError.internal)
    else if is_cf_sub_sink_state db.state
    then (db, some FluxError.invalid_request)
    else if not (is_flux_state db.state) && is_flux_state state
    then (db, some FluxError.invalid_request)
    else if write
    then (record db { state = state }, none)
    else (db, some FluxError.internal)

-- How the calls that one result makes end.
pub record Calls : Type 0 where
  pub begins : Bool
  pub insert : Insert
  pub read : Bool
  pub write : Bool
  pub commits : Bool
  pub read_failure : Bool
  pub write_failure : Bool

-- updateSubStateToFailure.
unfoldable pub update_sub_state_to_failure : Calls → SubDb → SubDb
unfolding update_cf_submission_state
update_sub_state_to_failure c db =
    (update_cf_submission_state c.read_failure c.write_failure db sub_status_flux_failed).0

-- The transaction of handleSubResult once the row is in: the database that it commits, if it does.
unfoldable pub finish_result : Calls → SubDb → CfSubStatus → Option SubDb
unfolding update_cf_submission_state
finish_result c db status =
    let (db', err) =
      update_cf_submission_state c.read c.write (record db { rows = db.rows ++ status ∷ [] })
        status.verdict in
    if is_some err then none else if c.commits then some db' else none

-- handleSubResult: the database, the mails posted, and whether the watch ends.
unfoldable pub handle_sub_result : Calls → SubDb → MailId → CfSubResult → SubDb × (List Mail × Bool)
unfolding update_sub_state_to_failure finish_result
handle_sub_result c db mail_id res =
    let failed = update_sub_state_to_failure c db in
    if is_some res.err
    then (failed, ([], false))
    else if not c.begins
    then (failed, ([], false))
    else elim c.insert [
      | other_error ↦ (failed, ([], false))
      | unique_error ↦ (failed, ([], true))
      | inserted ↦ elim (finish_result c db res.status) [
        | none ↦ (failed, ([], false))
        | some db' ↦ (
          db',
          (
            (record {
              from = mail_id;
              to = mail_nyx_manager;
              body = cf_sub_result res;
              priority = 1;
            })
                ∷ [],
            true,
          ),
        )
      ]
    ]

-- The stages of a submission: flux states, other states of Codeforces, sink states.
unfoldable pub stage : Text → ℕ
stage state = if is_cf_sub_sink_state state then 2 else if is_flux_state state then 0 else 1

update-stage :
    (read write : Bool) (db : SubDb) (state : Text)
    → stage db.state ≤ stage (update_cf_submission_state read write db state).0.state
unfolding update_cf_submission_state stage
update-stage read write db state = ground arith

-- The updates that a submission sees, one after the other, with how their calls end.
unfoldable pub updates : SubDb → List (Text × (Bool × Bool)) → SubDb
unfolding update_cf_submission_state
updates db [] = db
updates db ((state, (read, write)) ∷ us) =
    updates (update_cf_submission_state read write db state).0 us

-- Whatever updates are asked for, a submission never goes back to an earlier stage.
pub updates-stage :
    (db : SubDb) (us : List (Text × (Bool × Bool))) → stage db.state ≤ stage (updates db us).state
unfolding updates
updates-stage db [] = omega arith
updates-stage db ((state, (read, write)) ∷ us) =
    let db' = (update_cf_submission_state read write db state).0 in
    omega (arith, update-stage read write db state, updates-stage db' us)

-- A sink state is final: no updates change it.
pub updates-sink :
    (db : SubDb) (us : List (Text × (Bool × Bool)))
    → is_cf_sub_sink_state db.state ≡ true
    → updates db us ≡ db
unfolding updates update_cf_submission_state
updates-sink db [] h = refl
updates-sink db ((state, (read, write)) ∷ us) h =
    let same : (update_cf_submission_state read write db state).0 ≡ db = ground arith in
    rw same (updates-sink db us h)

-- What one result leaves when its transaction commits.
abbrev pub Committed : SubDb → MailId → CfSubResult → SubDb × (List Mail × Bool) → Type 0
Committed db mail_id res r =
    (r.0 ≡ record { state = res.status.verdict; rows = db.rows ++ res.status ∷ [] })
    × (r.1 ≡ (
      (record { from = mail_id; to = mail_nyx_manager; body = cf_sub_result res; priority = 1 })
          ∷ [],
      true,
    ))

-- What it leaves otherwise: the submission as it was, or marked as failed, if it had no state of
-- Codeforces yet.
abbrev pub NothingNew : SubDb → SubDb × (List Mail × Bool) → Type 0
NothingNew db r =
    ((r.0 ≡ db)
      ⊎ ((r.0 ≡ record db { state = sub_status_flux_failed }) × (is_flux_state db.state ≡ true)))
    × (r.1.0 ≡ [])

-- The mark of a failure replaces a state of the program, and nothing else.
marked :
    (read write : Bool) (db : SubDb)
    → let r = (update_cf_submission_state read write db sub_status_flux_failed).0 in
      (r ≡ db)
      ⊎ ((r ≡ record db { state = sub_status_flux_failed }) × (is_flux_state db.state ≡ true))
unfolding update_cf_submission_state
marked false write db = inl refl
marked true write db = elim (Bool-cases (is_cf_sub_sink_state db.state)) [
  | inl s ↦ inl (rw s refl)
  | inr s ↦ elim (Bool-cases (is_flux_state db.state)) [
    | inr f ↦ inl (rw (s, f) refl)
    | inl f ↦ elim (Bool-cases write) [
      | inl w ↦ inr (rw (s, f, w) refl, f)
      | inr w ↦ inl (rw (s, f, w) refl)
    ]
  ]
]

failure-NothingNew :
    (c : Calls) (db : SubDb) (ends : Bool)
    → NothingNew db (update_sub_state_to_failure c db, ([], ends))
unfolding update_sub_state_to_failure
failure-NothingNew c db ends = (marked c.read_failure c.write_failure db, refl)

finish_result-Committed :
    (c : Calls) (db db' : SubDb) (status : CfSubStatus)
    → finish_result c db status ≡ some db'
    → db' ≡ record { state = status.verdict; rows = db.rows ++ status ∷ [] }
unfolding finish_result update_cf_submission_state
finish_result-Committed c db db' status e = ground arith

-- The result of a submission is all or nothing: either its row is in, the state is its verdict, the
-- manager is told and the watch ends, or there is no new row and no mail, and the state is what it was,
-- or is that of a failure, where it was one of the program's own states and not of Codeforces.
pub handle_sub_result_atomic :
    (c : Calls) (db : SubDb) (mail_id : MailId) (res : CfSubResult)
    → Committed db mail_id res (handle_sub_result c db mail_id res)
      ⊎ NothingNew db (handle_sub_result c db mail_id res)
unfolding handle_sub_result
handle_sub_result_atomic c db mail_id res = elim (Bool-cases (is_some res.err)) [
  | inl e ↦ inr (rw (e, handle_sub_result) (failure-NothingNew c db false))
  | inr e ↦ elim (Bool-cases c.begins) [
    | inr b ↦ inr (rw (e, handle_sub_result) (rw b (failure-NothingNew c db false)))
    | inl b ↦ by_insert c.insert refl e b
  ]
]
  where
    by_insert :
        (i : Insert)
        → c.insert ≡ i
        → is_some res.err ≡ false
        → c.begins ≡ true
        → Committed db mail_id res (handle_sub_result c db mail_id res)
          ⊎ NothingNew db (handle_sub_result c db mail_id res)
    by_insert other_error n e b =
        inr (rw (e, handle_sub_result) (rw b (rw n (failure-NothingNew c db false))))
    by_insert unique_error n e b =
        inr (rw (e, handle_sub_result) (rw b (rw n (failure-NothingNew c db true))))
    by_insert inserted n e b = elim (Option-cases (finish_result c db res.status)) [
      | inl f ↦ inr (rw (e, handle_sub_result) (rw b (rw n (rw f (failure-NothingNew c db false)))))
      | inr (db', f) ↦ inl (
          rw (e, handle_sub_result)
            (rw b (rw n (rw f (finish_result-Committed c db db' res.status f, refl)))))
    ]
