-- ===== src/Scheduler/Launch/Conservation.antt =====
-- Resources are conserved: what is free, what waits in the release channel and what the running
-- commands hold add up to what the scheduler was started with, as long as every command starts.
use flux_backend.Common.{
  ℕ, ◌+◌, true, Option, none, some, List, [], ◌∷◌, ◌++◌, ◌≡◌, refl, arith, lookup, insert,
  lookup-insert, ℕ_eq, ◌==◌, eq_sound, any, remove_first, Bool-cases, inl, inr, is_some,
}
use flux_backend.Common.Int.{ℤ, pos_part}
use flux_backend.Scheduler.Model.{Resources, Task, Scheduler, is_long_running, WaitError, TaskState}
use flux_backend.Scheduler.Signals.{get_task_state_from_error}
use flux_backend.Scheduler.Launch.{
  ShortRun, run_command, execute, execute_short, execute_long_running_task, wait_for_task_complete,
}

pub data Component : Type 0 where
  cpu memory : Component

abbrev pub amount : Component → Resources → ℤ
amount cpu r = r.cpu
amount memory r = r.memory

-- What the task with this id holds while it runs.
unfoldable pub need : Component → List (ℕ × Task) → ℕ → ℕ
need c tasks id = elim (lookup id tasks) [ none ↦ 0 | some t ↦ pos_part (amount c t.resources) ]

unfoldable pub sum_need : Component → List (ℕ × Task) → List ℕ → ℕ
sum_need c tasks [] = 0
sum_need c tasks (i ∷ is) = need c tasks i + sum_need c tasks is

unfoldable pub sum_amount : Component → List Resources → ℕ
sum_amount c [] = 0
sum_amount c (r ∷ rs) = pos_part (amount c r) + sum_amount c rs

unfoldable pub total : Component → Scheduler → ℕ
total c s =
    pos_part (amount c s.resources)
    + sum_amount c s.resource_release
    + (sum_need c s.tasks s.executing + sum_need c s.tasks s.waiters)

module _ (c : Component) (tasks : List (ℕ × Task)) where
  pub sum_need-append :
      (xs ys : List ℕ) → sum_need c tasks (xs ++ ys) ≡ sum_need c tasks xs + sum_need c tasks ys
  unfolding sum_need
  sum_need-append [] ys = omega arith
  sum_need-append (x ∷ xs) ys = omega (arith, sum_need-append xs ys)

  sum_need-remove_first :
      (id : ℕ) (xs : List ℕ)
      → any (λ x. x == id) xs ≡ true
      → sum_need c tasks (remove_first id xs) + need c tasks id ≡ sum_need c tasks xs
  unfolding sum_need
  sum_need-remove_first id [] h = cc
  sum_need-remove_first id (x ∷ xs) h = ground (arith, sum_need-remove_first id xs)

  -- A task's resources are never written, so updating a task changes no need.
  need-insert :
      (id : ℕ) (t u : Task)
      → lookup id tasks ≡ some t
      → u.resources ≡ t.resources
      → (j : ℕ) → need c (insert id u tasks) j ≡ need c tasks j
  unfolding need
  need-insert id t u found same j = elim (Bool-cases (id == j)) [
    | inl e ↦ ground (arith, lookup-insert id j u tasks, eq_sound id j e)
    | inr e ↦ ground (arith, lookup-insert id j u tasks)
  ]

  pub sum_need-insert :
      (id : ℕ) (t u : Task)
      → lookup id tasks ≡ some t
      → u.resources ≡ t.resources
      → (xs : List ℕ) → sum_need c (insert id u tasks) xs ≡ sum_need c tasks xs
  unfolding sum_need
  sum_need-insert id t u found same [] = refl
  sum_need-insert id t u found same (x ∷ xs) =
      omega (arith, need-insert id t u found same x, sum_need-insert id t u found same xs)

sum_amount-append :
    (c : Component) (xs ys : List Resources)
    → sum_amount c (xs ++ ys) ≡ sum_amount c xs + sum_amount c ys
unfolding sum_amount
sum_amount-append c [] ys = omega arith
sum_amount-append c (x ∷ xs) ys = omega (arith, sum_amount-append c xs ys)

pub need_of :
    (c : Component) (tasks : List (ℕ × Task)) (id : ℕ) (t : Task)
    → lookup id tasks ≡ some t
    → need c tasks id ≡ pos_part (amount c t.resources)
unfolding need
need_of c tasks id t h = rw (h, need) refl

module _ (c : Component) (s : Scheduler) (id : ℕ) (t : Task)
    (found : lookup id s.tasks ≡ some t) where
  total-execute_short :
      (r : ShortRun)
      → any (λ x. x == id) s.executing ≡ true
      → total c (execute_short s id t r) ≡ total c s
  unfolding total execute_short sum_amount
  total-execute_short r here =
      let u : Task = record t {
        cmd = some (record { process = r.process });
        state = (run_command t.command.cmd_exec_type r).1.1;
      } in
      omega (
        arith,
        sum_need-insert c s.tasks id t u found refl (remove_first id s.executing),
        sum_need-insert c s.tasks id t u found refl s.waiters,
        sum_need-remove_first c s.tasks id s.executing here,
        sum_amount-append c s.resource_release (t.resources ∷ []),
        need_of c s.tasks id t found,
      )

  total-execute_long :
      (pid : ℕ)
      → any (λ x. x == id) s.executing ≡ true
      → total c (execute_long_running_task s id t (some pid)) ≡ total c s
  unfolding total execute_long_running_task sum_need
  total-execute_long pid here =
      let u : Task = record t {
        state = TaskState.running;
        cmd = some (record { process = some pid });
      } in
      omega (
        arith,
        sum_need-insert c s.tasks id t u found refl (remove_first id s.executing),
        sum_need-insert c s.tasks id t u found refl (s.waiters ++ id ∷ []),
        sum_need-append c s.tasks s.waiters (id ∷ []),
        sum_need-remove_first c s.tasks id s.executing here,
      )

  total-execute_failed :
      any (λ x. x == id) s.executing ≡ true
      → total c (execute_long_running_task s id t none) + pos_part (amount c t.resources)
        ≡ total c s
  unfolding total execute_long_running_task
  total-execute_failed here =
      omega
        (arith, sum_need-remove_first c s.tasks id s.executing here, need_of c s.tasks id t found)

  -- The resources of a launched long-running task whose command cannot be started are lost by execute:
  -- what is free, what waits in the release channel and what commands hold is less afterwards by just
  -- the amount of the task.
  pub total-failed_start :
      (r : ShortRun)
      → any (λ x. x == id) s.executing ≡ true
      → is_long_running t.command.cmd_exec_type ≡ true
      → total c (execute s id t r none) + pos_part (amount c t.resources) ≡ total c s
  unfolding execute
  total-failed_start r here long = rw (long, execute) (total-execute_failed here)

  pub total-execute :
      (r : ShortRun) (started : Option ℕ)
      → any (λ x. x == id) s.executing ≡ true
      → (is_long_running t.command.cmd_exec_type ≡ true → is_some started ≡ true)
      → total c (execute s id t r started) ≡ total c s
  unfolding execute
  total-execute r none here starts = elim (Bool-cases (is_long_running t.command.cmd_exec_type)) [
    | inr e ↦ rw (e, execute) (total-execute_short r here)
    | inl e ↦ absurd (ground (arith, starts e))
  ]
  total-execute r (some pid) here starts =
      elim (Bool-cases (is_long_running t.command.cmd_exec_type)) [
        | inr e ↦ rw (e, execute) (total-execute_short r here)
        | inl e ↦ rw (e, execute) (total-execute_long pid here)
      ]

  pub total-wait :
      (e : Option WaitError)
      → any (λ x. x == id) s.waiters ≡ true
      → total c (wait_for_task_complete s id t e) ≡ total c s
  unfolding total wait_for_task_complete sum_amount
  total-wait e here =
      let u : Task = record t { state = get_task_state_from_error e } in
      omega (
        arith,
        sum_need-insert c s.tasks id t u found refl s.executing,
        sum_need-insert c s.tasks id t u found refl (remove_first id s.waiters),
        sum_need-remove_first c s.tasks id s.waiters here,
        sum_amount-append c s.resource_release (t.resources ∷ []),
        need_of c s.tasks id t found,
      )
