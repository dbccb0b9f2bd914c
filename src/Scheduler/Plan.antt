-- ===== src/Scheduler/Plan.antt =====
-- scheduler_service/plan.go, and the sort and the cleaning of scheduler_utils.go. `plan` waits twice
-- while other goroutines run: what they do between the kill and the second cleaning is the argument
-- `world`. What reaches the channel before a cleaning ends is in `resource_release` when it starts.
pub mod Sorting
pub mod Victims
pub mod Reserve
use flux_backend.Common.{
  ℕ, Bool, true, false, ◌&&◌, Option, none, some, List, [], ◌∷◌, map, ltb, if◌then◌else◌, keep_if,
}
use flux_backend.Common.Int.{ltbℤ}
use flux_backend.Scheduler.Model.{Resources, Task, Scheduler, is_long_running, is_running}
use flux_backend.Scheduler.Resources.{add, greater, use_resources}

-- The comparison that `sort.Slice` is given: low priority first, and the youngest first.
abbrev pub less : Task → Task → Bool
less a b =
    if ltbℤ a.priority b.priority
    then true
    else if ltbℤ b.priority a.priority
    then false
    else ltb b.launch_time a.launch_time

pub insert_task : Task → List Task → List Task
insert_task t [] = t ∷ []
insert_task t (u ∷ us) = if less u t then u ∷ insert_task t us else t ∷ u ∷ us

unfoldable pub sort_with_priority_and_launch_time : List Task → List Task
unfolding insert_task
sort_with_priority_and_launch_time [] = []
sort_with_priority_and_launch_time (t ∷ ts) = insert_task t (sort_with_priority_and_launch_time ts)

unfoldable pub add_all : Resources → List Resources → Resources
unfolding add
add_all r [] = r
add_all r (x ∷ xs) = add_all (add r x) xs

unfoldable pub clean_task_released_resources : Scheduler → Scheduler
unfolding add_all
clean_task_released_resources s = record s {
  resources = add_all s.resources s.resource_release;
  resource_release = [];
}

-- What the first loop of `plan` collects.
abbrev pub is_candidate : Task → Task → Bool
is_candidate req t =
    ltbℤ t.priority req.priority && (is_long_running t.command.cmd_exec_type && is_running t.state)

abbrev pub candidates : List (ℕ × Task) → Task → List Task
candidates tasks req = keep_if (is_candidate req) (map (λ e. e.1) tasks)

-- The second loop: the resources and the victims when it ends.
unfoldable pub collect : Resources → Resources → List Task → Resources × List Task
unfolding add
collect final need [] = (final, [])
collect final need (t ∷ ts) =
    let final' = add final t.resources in
    let (f, victims) = collect final' need ts in
    if greater final' need then (final', t ∷ []) else (f, t ∷ victims)

pub data Preparation : Type 0 where
  ready impossible : Preparation
  kill : List Task → Preparation

unfoldable pub reserve : Scheduler → Task → Scheduler × Bool
unfolding use_resources
reserve s req =
    let (r, failure) = use_resources s.resources req.resources in
    elim failure [ some e ↦ (s, false) | none ↦ (record s { resources = r }, true) ]

-- `plan` up to the kill.
unfoldable pub plan_prepare : Scheduler → Task → Scheduler × Preparation
plan_prepare s req =
    let s1 = clean_task_released_resources s in
    if greater s1.resources req.resources
    then (let (s2, done) = reserve s1 req in (s2, if done then ready else impossible))
    else (let (final, victims) =
          collect s1.resources req.resources
            (sort_with_priority_and_launch_time (candidates s1.tasks req)) in
        if greater final req.resources then (s1, kill victims) else (s1, impossible))

-- `plan` after the kill.
unfoldable pub plan_commit : Scheduler → Task → Scheduler × Bool
plan_commit s req =
    let s1 = clean_task_released_resources s in
    if greater s1.resources req.resources then reserve s1 req else (s1, false)

-- The branches of `plan` once the preparation is known.
unfoldable pub plan_finish :
    (List Task → Scheduler → Scheduler) → Task → Scheduler × Preparation → Scheduler × Bool
plan_finish world req (s, ready) = (s, true)
plan_finish world req (s, impossible) = (s, false)
plan_finish world req (s, kill victims) = plan_commit (world victims s) req

unfoldable pub plan : (List Task → Scheduler → Scheduler) → Scheduler → Task → Scheduler × Bool
plan world s req = plan_finish world req (plan_prepare s req)
