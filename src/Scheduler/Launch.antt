-- ===== src/Scheduler/Launch.antt =====
-- scheduler_service/schedule.go, launch.go, execute.go: a task's way from the request to its end.
-- The id that uuid.New draws, the clock and the outcome of a command are arguments.
pub mod Retries
pub mod Conservation
pub mod Invariant
pub mod Cleaning
pub mod Reachable
use flux_backend.Common.{
  ℕ, Bool, true, false, Option, none, some, List, [], ◌∷◌, ◌++◌, if◌then◌else◌, Text, lookup,
  insert, remove_first, ℕ_eq, not,
}
use flux_backend.Common.Int.{ℤ, add32, ltbℤ}
use flux_backend.Errors.{FluxError}
use flux_backend.Scheduler.Model.{
  Resources, Task, TaskRequest, TaskResponse, Scheduler, Cmd, TaskState, CmdExecType, cmd_run,
  cmd_output, cmd_combined, cmd_long_running, WaitError, LaunchError, is_long_running,
  zero_resources,
}
use flux_backend.Scheduler.Resources.{validate_task_request}
use flux_backend.Scheduler.Signals.{get_task_state_from_error}
use flux_backend.Scheduler.Plan.{plan}

-- Start, whose resources are those that the program was configured with.
unfoldable pub start : Resources → Scheduler
start r = record {
  resources = r;
  resource_release = [];
  task_queue = [];
  tasks = [];
  wait_queue = [];
  executing = [];
  waiters = [];
  responses = [];
  completions = [];
}

abbrev pub new_task : TaskRequest → ℕ → ℕ → Task
new_task req id now = record {
  request = req;
  task_id = id;
  cmd = none;
  queue_time = now;
  launch_time = 0;
  state = TaskState.queued;
  scheduling_tries = ℤ.pos 0;
}

-- ScheduleTask: the id, or the error.
unfoldable pub schedule_task :
    Scheduler → TaskRequest → ℕ → ℕ → Scheduler × (Option ℕ × Option FluxError)
schedule_task s req id now = elim (validate_task_request req) [
  | some e ↦ (s, (none, some e))
  | none ↦ (
    record s {
      tasks = insert id (new_task req id now) s.tasks;
      task_queue = s.task_queue ++ id ∷ [];
    },
    (some id, none),
  )
]

abbrev pub tried : Task → Task
tried t = record t { scheduling_tries = add32 t.scheduling_tries (ℤ.pos 1) }

-- launchTask after a failed plan.
unfoldable pub refuse : Scheduler → ℕ → Task → Scheduler
refuse s id t =
    if ltbℤ t.scheduling_tries t.scheduling_retries
    then (record s {
      tasks =
          insert id
            (record t { request = record t.request { priority = add32 t.priority (ℤ.pos 10) } })
            s.tasks;
      wait_queue = s.wait_queue ++ id ∷ [];
    })
    else (record s {
      tasks = insert id (record t { state = TaskState.failed }) s.tasks;
      responses =
          record {
            task_id = id;
            out = none;
            error = some (LaunchError.flux FluxError.task_launch_error);
          }
          ∷ s.responses;
    })

-- launchTask after a plan that succeeded.
unfoldable pub accept : Scheduler → ℕ → Task → ℕ → Scheduler
accept s id t now = record s {
  tasks = insert id (record t { launch_time = now }) s.tasks;
  executing = s.executing ++ id ∷ [];
}

unfoldable pub launch_task : (List Task → Scheduler → Scheduler) → ℕ → Scheduler → ℕ → Scheduler
launch_task world now s id = elim (lookup id s.tasks) [
  | none ↦ s
  | some t ↦
      let (s', can_launch) =
        plan world (record s { tasks = insert id (tried t) s.tasks }) (tried t) in
      if can_launch then accept s' id (tried t) now else refuse s' id (tried t)
]

-- One round of `launch`: it receives an id from the queue, if there is one.
unfoldable pub launch_received :
    (List Task → Scheduler → Scheduler) → ℕ → Scheduler → List ℕ → Scheduler
launch_received world now s [] = s
launch_received world now s (id ∷ rest) = launch_task world now (record s { task_queue = rest }) id

unfoldable pub launch : (List Task → Scheduler → Scheduler) → ℕ → Scheduler → Scheduler
launch world now s = launch_received world now s s.task_queue

-- queueWaitingTask, called by the wait queue once the delay is over.
unfoldable pub queue_waiting_task : Scheduler → ℕ → Scheduler
queue_waiting_task s id = record s {
  wait_queue = remove_first id s.wait_queue;
  task_queue = s.task_queue ++ id ∷ [];
}

-- What a short command does: its output, the error of Run, Output or CombinedOutput, and its process.
pub record ShortRun : Type 0 where
  pub out : Option Text
  pub error : Option WaitError
  pub process : Option ℕ

abbrev pub launch_error : Option WaitError → Option LaunchError
launch_error none = none
launch_error (some e) = some (LaunchError.command e)

-- The `switch` of execute: the output, the error, and the state inferred from the error. The error
-- of the default case is neither an exit error nor exec's error about a second Wait.
unfoldable pub run_command : CmdExecType → ShortRun → Option Text × (Option LaunchError × TaskState)
unfolding get_task_state_from_error
run_command cmd_run r = (none, (launch_error r.error, get_task_state_from_error r.error))
run_command cmd_output r = (r.out, (launch_error r.error, get_task_state_from_error r.error))
run_command cmd_combined r = (r.out, (launch_error r.error, get_task_state_from_error r.error))
run_command _ r = (
  none,
  (
    some (LaunchError.flux FluxError.invalid_request),
    get_task_state_from_error (some WaitError.other_error),
  ),
)

-- execute, for a task that is not long-running.
unfoldable pub execute_short : Scheduler → ℕ → Task → ShortRun → Scheduler
execute_short s id t r =
    let (out, ended) = run_command t.command.cmd_exec_type r in
    record s {
      executing = remove_first id s.executing;
      resource_release = s.resource_release ++ t.resources ∷ [];
      tasks =
          insert id (record t { cmd = some (record { process = r.process }); state = ended.1 })
            s.tasks;
      responses = record { task_id = id; out = out; error = ended.0 } ∷ s.responses;
    }

-- executeLongRunningTask; the argument is the process, or none if Start fails.
unfoldable pub execute_long_running_task : Scheduler → ℕ → Task → Option ℕ → Scheduler
execute_long_running_task s id t none = record s {
  executing = remove_first id s.executing;
  responses =
      record { task_id = id; out = none; error = some LaunchError.start_failed } ∷ s.responses;
}
execute_long_running_task s id t (some pid) = record s {
  executing = remove_first id s.executing;
  waiters = s.waiters ++ id ∷ [];
  tasks =
      insert id (record t { state = TaskState.running; cmd = some (record { process = some pid }) })
        s.tasks;
  responses = record { task_id = id; out = none; error = none } ∷ s.responses;
}

-- execute, run by its goroutine.
unfoldable pub execute : Scheduler → ℕ → Task → ShortRun → Option ℕ → Scheduler
execute s id t r started =
    if is_long_running t.command.cmd_exec_type
    then execute_long_running_task s id t started
    else execute_short s id t r

-- waitForTaskComplete, once the process has ended.
unfoldable pub wait_for_task_complete : Scheduler → ℕ → Task → Option WaitError → Scheduler
wait_for_task_complete s id t e = record s {
  waiters = remove_first id s.waiters;
  resource_release = s.resource_release ++ t.resources ∷ [];
  tasks = insert id (record t { state = get_task_state_from_error e }) s.tasks;
  completions = if t.on_task_complete then (id, e) ∷ s.completions else s.completions;
}
