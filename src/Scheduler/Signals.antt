-- ===== src/Scheduler/Signals.antt =====
-- scheduler_service/scheduler_utils.go, external_task_manipulation.go: whether a task's process is
-- alive, how it is killed, and the state that callers see. The answers of the operating system to
-- the queries of `isAlive` (signal 0) are an argument: a Boolean, or a sequence of them where the
-- code asks again.
use flux_backend.Common.{
  ℕ, zero, suc, Bool, true, false, ◌&&◌, Option, none, some, List, [], ◌∷◌, ◌≡◌, if◌then◌else◌,
  is_some, inl, inr, arith, lookup, map, leb, ◌⊎◌, ℕ_eq,
}
use flux_backend.Errors.{FluxError}
use flux_backend.Scheduler.Model.{
  Task, Scheduler, TaskState, running, completed, failed, killed, dead, unknown, is_running,
  is_long_running, WaitError, exit_error, wait_already_called, other_error, Cmd,
}

pub data Signal : Type 0 where
  sigterm sigkill : Signal

abbrev pub sigterm_wait_duration : ℕ
sigterm_wait_duration = 2

abbrev has_process : Option Cmd → Bool
has_process none = false
has_process (some c) = is_some c.process

unfoldable pub is_alive : Task → Bool → Bool
is_alive t answer = is_running t.state && (has_process t.cmd && answer)

-- The loop that waits for a graceful end: rounds left, and the number of the next query. The result
-- is the number of the query after the loop.
wait_for_exit : ℕ → (ℕ → Bool) → ℕ → ℕ
wait_for_exit zero alive n = n
wait_for_exit (suc rounds) alive n =
    let rest = wait_for_exit rounds alive (suc n) in if alive n then rest else suc n

terminate : (ℕ → Bool) → List Signal
unfolding wait_for_exit
terminate alive =
    if alive 0
    then (sigterm
        ∷ (if alive (wait_for_exit sigterm_wait_duration alive 1) then sigkill ∷ [] else []))
    else []

-- The signals that one call sends.
unfoldable pub kill_task : Option Task → (ℕ → Bool) → List Signal
unfolding terminate is_alive
kill_task none answers = []
kill_task (some t) answers =
    if is_long_running t.command.cmd_exec_type then terminate (λ n. is_alive t (answers n)) else []

unfoldable pub kill_tasks : List Task → (ℕ → ℕ → Bool) → List (ℕ × List Signal)
unfolding kill_task
kill_tasks ts answers = map (λ t. (t.task_id, kill_task (some t) (answers t.task_id))) ts

unfoldable pub get_state : Task → Bool → TaskState
unfolding is_alive
get_state t answer =
    if is_running t.state then (if is_alive t answer then running else dead) else t.state

-- The signals that KillTask sends, or its error. The first answer is to the query of `getState`.
unfoldable pub kill_task_by_id : Scheduler → ℕ → Bool → (ℕ → Bool) → List Signal ⊎ FluxError
unfolding get_state kill_task lookup
kill_task_by_id s id first answers = elim (lookup id s.tasks) [
  | none ↦ inr FluxError.not_found
  | some t ↦ if is_running (get_state t first) then inl (kill_task (some t) answers) else inl []
]

-- GetTaskState.
unfoldable pub get_task_state : Scheduler → ℕ → Bool → TaskState × Option FluxError
unfolding get_state lookup
get_task_state s id answer = elim (lookup id s.tasks) [
  | none ↦ (unknown, some FluxError.not_found)
  | some t ↦ (get_state t answer, none)
]

-- The state inferred from the error of `cmd.Wait()`; a status is (Signaled, ExitStatus).
unfoldable pub get_task_state_from_error : Option WaitError → TaskState
get_task_state_from_error none = completed
get_task_state_from_error (some (exit_error none)) = dead
get_task_state_from_error (some (exit_error (some (signaled, exit_status)))) =
    if signaled then killed else if leb 1 exit_status then failed else completed
get_task_state_from_error (some wait_already_called) = dead
get_task_state_from_error (some other_error) = failed

-- A kill, for a process that does not come back to life: nothing is sent to a dead process, and
-- otherwise SIGTERM, followed by SIGKILL exactly if the process is alive at the fourth query.
pub kill_task_outcomes :
    (t : Task) (answers : ℕ → Bool)
    → ((n : ℕ) → answers (suc n) ≡ true → answers n ≡ true)
    → is_long_running t.command.cmd_exec_type ≡ true
    → kill_task (some t) answers ≡ (
        if is_alive t (answers 0)
        then sigterm ∷ (if is_alive t (answers 3) then sigkill ∷ [] else [])
        else [])
unfolding kill_task
kill_task_outcomes t answers mono long = ground (arith, mono 0, mono 1, mono 2)

-- The scheduler never signals a task that did not run as a long-running command.
pub kill_task_of_short :
    (t : Task) (answers : ℕ → Bool)
    → is_long_running t.command.cmd_exec_type ≡ false
    → kill_task (some t) answers ≡ []
unfolding kill_task
kill_task_of_short t answers h = rw h
