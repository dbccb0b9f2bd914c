-- ===== src/Scheduler/Examples.antt =====
-- The scheduler's theorems at concrete tasks.
use flux_backend.Common.{
  ℕ, zero, suc, ◌+◌, ◌<◌, Bool, true, false, none, some, List, [], ◌∷◌, ◌≡◌, refl, arith, text,
  lookup, ℕ_eq, insert, map,
}
use flux_backend.Common.Int.{add32, ℤ, pos_part, wrap32, ◌+ℤ◌}
use flux_backend.Scheduler.Model.{
  Resources, Task, TaskRequest, Scheduler, cmd_long_running, cmd_run, TaskState,
}
use flux_backend.Scheduler.Resources.{IsWord, IsNonNegative}
use flux_backend.Scheduler.Signals.{kill_task, kill_task_of_short}
use flux_backend.Scheduler.Plan.{
  plan_finish, plan, plan_prepare, clean_task_released_resources,
  sort_with_priority_and_launch_time, collect, add_all,
}
use flux_backend.Scheduler.Plan.Victims.{plan_prepare-IsJustified, IsJustified}
use flux_backend.Scheduler.Plan.Reserve.{plan-PlanEnds, PlanEnds}
use flux_backend.Scheduler.Launch.{
  ShortRun, execute, refuse, start, new_task, schedule_task, launch, launch_task,
}
use flux_backend.Scheduler.Launch.Conservation.{Component, cpu, amount, total, total-failed_start}
use flux_backend.Scheduler.Launch.Invariant.{Reach, Step, Works}
use flux_backend.Scheduler.Launch.Retries.{
  Refusals, unlaunched, refused, outcome, is_told, refused_until_last,
}
use flux_backend.Scheduler.Launch.Reachable.{Reach-conserved}

abbrev amounts : ℕ → ℕ → Resources
amounts c m = record { cpu = ℤ.pos c; memory = ℤ.pos m }

abbrev slave_request : ℕ → ℕ → TaskRequest
slave_request priority retries = record {
  name = text "nyx slave";
  resources = amounts 180 800;
  command = record { name = text "python3"; args = []; cmd_exec_type = cmd_long_running };
  priority = ℤ.pos priority;
  scheduling_retries = ℤ.pos retries;
  on_launch_complete = true;
  on_task_complete = true;
}

abbrev running_task : Task
running_task = record (new_task (slave_request 30 2) 1 10) {
  state = TaskState.running;
  launch_time = 11;
  cmd = some (record { process = some 4711 });
}

abbrev short_task : Task
short_task = record (new_task (slave_request 30 2) 2 10) {
  request = record (slave_request 30 2) {
    command = record { name = text "ls"; args = []; cmd_exec_type = cmd_run };
  };
}

-- One slave runs and too little is free for a second.
abbrev busy : Scheduler
busy = record (start (amounts 100 100)) { tasks = (1, running_task) ∷ [] }

abbrev urgent : Task
urgent = new_task (slave_request 80 2) 3 20

-- The killed task's process ends.
abbrev ends_at_once : List Task → Scheduler → Scheduler
ends_at_once victims s = record s { resource_release = map (λ t. t.resources) victims }

-- Nothing else happens.
abbrev quiet : List Task → Scheduler → Scheduler
quiet victims s = s

amounts-IsWord : (c m : ℕ) → c < 2147483648 → m < 2147483648 → IsWord (amounts c m)
amounts-IsWord c m hc hm = record {
  cpu = record { below = hc; above = omega arith };
  memory = record { below = hm; above = omega arith };
}

amounts-IsNonNegative : (c m : ℕ) → IsNonNegative (amounts c m)
amounts-IsNonNegative c m = record { cpu = omega arith; memory = omega arith }

abbrev launched : Scheduler
launched = launch quiet 21 (schedule_task (start (amounts 200 1000)) (slave_request 80 2) 3 20).0

reach : Reach (start (amounts 200 1000)) launched
unfolding lookup start
reach =
    Reach.next
      (Reach.next Reach.here (
        Step.schedules (start (amounts 200 1000)) (slave_request 80 2) 3 20 refl
          (amounts-IsNonNegative 180 800)))
      (Step.launches (schedule_task (start (amounts 200 1000)) (slave_request 80 2) 3 20).0 quiet 21
        (λ victims u. Works.rest))

Reach-conserved_example :
    IsNonNegative launched.resources
    × ((c : Component) → total c launched ≡ pos_part (amount c (amounts 200 1000)))
Reach-conserved_example =
    Reach-conserved (amounts 200 1000) (amounts-IsWord 200 1000 (omega arith) (omega arith))
      (amounts-IsNonNegative 200 1000) reach

plan-PlanEnds_example : PlanEnds ends_at_once busy urgent (plan ends_at_once busy urgent)
plan-PlanEnds_example = plan-PlanEnds ends_at_once busy urgent

plan_prepare-IsJustified_example :
    IsJustified (clean_task_released_resources busy) urgent (running_task ∷ [])
unfolding plan_prepare sort_with_priority_and_launch_time collect add_all
    clean_task_released_resources start wrap32 ◌+ℤ◌
plan_prepare-IsJustified_example = plan_prepare-IsJustified busy urgent (running_task ∷ []) refl

-- The process answers the first two queries.
abbrev dies_soon : ℕ → Bool
dies_soon zero = true
dies_soon (suc zero) = true
dies_soon (suc (suc n)) = false

dies_once : (n : ℕ) → dies_soon (suc n) ≡ true → dies_soon n ≡ true
dies_once zero h = refl
dies_once (suc zero) h = refl
dies_once (suc (suc n)) h = absurd cc

kill_task_of_short_example : kill_task (some short_task) dies_soon ≡ []
kill_task_of_short_example = kill_task_of_short short_task dies_soon refl

-- Nothing runs that could be killed, and too little is free.
abbrev poor : ℕ → Scheduler
poor tries = record (start (amounts 100 100)) {
  tasks = (3, record urgent { scheduling_tries = ℤ.pos tries }) ∷ [];
}

abbrev poor_task : ℕ → Task
poor_task tries = record urgent { scheduling_tries = ℤ.pos tries }

abbrev waits : Scheduler
waits = launch_task quiet 30 (poor 0) 3

abbrev fails : Scheduler
fails = launch_task quiet 30 (poor 1) 3

abbrev starting : Scheduler
starting = record (start (amounts 20 200)) { tasks = (3, urgent) ∷ []; executing = 3 ∷ [] }

abbrev no_run : ShortRun
no_run = record { out = none; error = none; process = none }

total-failed_start_example :
    total cpu (execute starting 3 urgent no_run none) + 180 ≡ total cpu starting
unfolding lookup start
total-failed_start_example = total-failed_start cpu starting 3 urgent refl no_run refl refl

abbrev twice : Scheduler
twice = launch_task quiet 60 waits 3

abbrev waiting_task : Task
waiting_task = record (poor_task 0) {
  request = record (slave_request 80 2) { priority = add32 (ℤ.pos 80) (ℤ.pos 10) };
  scheduling_tries = ℤ.pos 1;
}

-- The task is refused twice, and it has two tries.
refused_twice : Refusals 3 (poor_task 0) 2 twice
unfolding plan plan_prepare sort_with_priority_and_launch_time collect add_all
    clean_task_released_resources lookup insert plan_finish start launch_task refuse wrap32 ◌+ℤ◌
refused_twice =
    refused 1 waits waits _ quiet 60 waiting_task
      (refused 0 (poor 0) (poor 0) _ quiet 30 (poor_task 0) (unlaunched (poor 0) refl) refl refl
        refl)
      refl refl refl

refused_until_last_example :
    (lookup 3 twice.tasks ≡ some (outcome (poor_task 0) 1 1)) × (is_told 3 twice ≡ true)
refused_until_last_example =
    refused_until_last 3 (poor_task 0) 1 refl refl (omega arith) 1 twice (omega arith) refused_twice
