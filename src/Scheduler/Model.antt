-- ===== src/Scheduler/Model.antt =====
-- scheduler_service/models.go: the scheduler's data. A channel is the list of what was sent and not
-- yet received; a map is an association list; a goroutine that was started and has not yet run is
-- an entry of `executing` (execute) or of `waiters` (waitForTaskComplete). Locks have no
-- counterpart: each function below runs under the lock that the source takes.
use flux_backend.Common.{ℕ, Bool, true, false, Option, List, Text}
use flux_backend.Common.Int.{ℤ}
use flux_backend.Errors.{FluxError}

-- `other` stands for the integers that no constant names.
pub data CmdExecType : Type 0 where
  cmd_run cmd_output cmd_combined cmd_long_running : CmdExecType
  other : ℕ → CmdExecType

abbrev pub is_long_running : CmdExecType → Bool
is_long_running cmd_long_running = true
is_long_running _ = false

pub data TaskState : Type 0 where
  queued running completed failed killed dead unknown : TaskState

abbrev pub is_running : TaskState → Bool
is_running running = true
is_running _ = false

-- int32 fields.
pub record Resources : Type 0 where
  pub cpu : ℤ
  pub memory : ℤ

pub record Command : Type 0 where
  pub name : Text
  pub args : List Text
  pub cmd_exec_type : CmdExecType

-- A callback is present or nil.
pub record TaskRequest : Type 0 where
  pub name : Text
  pub resources : Resources
  pub command : Command
  pub priority : ℤ
  pub scheduling_retries : ℤ
  pub on_launch_complete : Bool
  pub on_task_complete : Bool

-- exec.Cmd: the process once it has been started.
pub record Cmd : Type 0 where
  pub process : Option ℕ

-- Times are nanoseconds.
pub record Task : Type 0 where
  pub request : TaskRequest
  pub open request use *
  pub task_id : ℕ
  pub cmd : Option Cmd
  pub queue_time : ℕ
  pub launch_time : ℕ
  pub state : TaskState
  pub scheduling_tries : ℤ

-- What `cmd.Wait()` and its siblings return, as far as the code looks at it: no error, an exit error
-- with its wait status (absent if the cast to syscall.WaitStatus fails), exec's error about a second
-- Wait, or any other error.
pub data WaitError : Type 0 where
  exit_error : Option (Bool × ℕ) → WaitError
  wait_already_called other_error : WaitError

-- The error that a launch response carries.
pub data LaunchError : Type 0 where
  flux : FluxError → LaunchError
  command : WaitError → LaunchError
  start_failed : LaunchError

pub record TaskResponse : Type 0 where
  pub task_id : ℕ
  pub out : Option Text
  pub error : Option LaunchError

pub record Scheduler : Type 0 where
  pub resources : Resources
  pub resource_release : List Resources
  pub task_queue : List ℕ
  pub tasks : List (ℕ × Task)
  -- task ids that sleep in the service's wait queue before they are queued again
  pub wait_queue : List ℕ
  pub executing : List ℕ
  pub waiters : List ℕ
  -- calls of OnLaunchComplete and OnTaskComplete, latest first
  pub responses : List TaskResponse
  pub completions : List (ℕ × Option WaitError)

abbrev pub zero_resources : Resources
zero_resources = record { cpu = ℤ.pos 0; memory = ℤ.pos 0 }
