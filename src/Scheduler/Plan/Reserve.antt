-- ===== src/Scheduler/Plan/Reserve.antt =====
-- What a plan does to the free resources, on each of its branches.
use flux_backend.Common.{
  Bool, true, false, List, ◌≡◌, refl, ◌⊎◌, inl, inr, Bool-cases, arith, subst, sym,
}
use flux_backend.Scheduler.Model.{Task, Scheduler}
use flux_backend.Scheduler.Resources.{greater, use_resources}
use flux_backend.Scheduler.Plan.{
  plan, plan_finish, plan_prepare, plan_commit, reserve, clean_task_released_resources, Preparation,
  kill, ready, impossible, collect, sort_with_priority_and_launch_time, candidates,
}

-- The scheduler after a cleaning, with the request's resources taken out if the plan succeeded.
abbrev pub settled : Scheduler → Task → Bool → Scheduler
settled base req true = record base { resources = (use_resources base.resources req.resources).0 }
settled base req false = base

-- How a plan ends: after the first cleaning, or, if it killed tasks, after the second.
pub data PlanEnds (world : List Task → Scheduler → Scheduler) (s : Scheduler) (req : Task)
    : Scheduler × Bool → Type 0 where
  at_once :
      (done : Bool)
      → (done ≡ true → greater (clean_task_released_resources s).resources req.resources ≡ true)
      → PlanEnds world s req (settled (clean_task_released_resources s) req done, done)
  after_kill :
      (victims : List Task) (done : Bool)
      → (plan_prepare s req ≡ (clean_task_released_resources s, kill victims))
      → (greater
            (clean_task_released_resources
              (world victims (clean_task_released_resources s))).resources
            req.resources
          ≡ done)
      → PlanEnds world s req (
        settled
            (clean_task_released_resources (world victims (clean_task_released_resources s)))
            req
            done,
        done,
      )

reserve-of_greater :
    (s : Scheduler) (req : Task)
    → greater s.resources req.resources ≡ true
    → reserve s req ≡ (settled s req true, true)
unfolding reserve use_resources
reserve-of_greater s req h = ground arith

plan_commit_lem :
    (s : Scheduler) (req : Task)
    → let base = clean_task_released_resources s in
      let enough = greater base.resources req.resources in
      plan_commit s req ≡ (settled base req enough, enough)
unfolding plan_commit
plan_commit_lem s req =
    let base = clean_task_released_resources s in
    elim (Bool-cases (greater base.resources req.resources)) [
      | inl e ↦ rw e (reserve-of_greater base req e)
      | inr e ↦ rw e refl
    ]

settled-ready :
    (s : Scheduler) (req : Task)
    → greater (clean_task_released_resources s).resources req.resources ≡ true
    → plan_prepare s req ≡ (settled (clean_task_released_resources s) req true, ready)
unfolding plan_prepare
settled-ready s req h = ground (arith, reserve-of_greater (clean_task_released_resources s) req h)

unsettled :
    (s : Scheduler) (req : Task)
    → greater (clean_task_released_resources s).resources req.resources ≡ false
    → (plan_prepare s req ≡ (clean_task_released_resources s, impossible))
      ⊎ ((victims : List Task) × (plan_prepare s req
            ≡ (clean_task_released_resources s, kill victims)))
unfolding plan_prepare
unsettled s req h =
    let base = clean_task_released_resources s in
    let (final, victims) =
      collect base.resources req.resources
        (sort_with_priority_and_launch_time (candidates base.tasks req)) in
    elim (Bool-cases (greater final req.resources)) [
      | inl e ↦ inr (victims, ground arith)
      | inr e ↦ inl (ground arith)
    ]

-- Every run of `plan` ends in one of two ways: without a kill, with the resources that the first
-- cleaning found; or after a kill, with those that the second cleaning found once the world had run.
-- It succeeds only with more of both resources than the request needs, and then takes the request
-- out exactly once; a plan that fails takes nothing.
pub plan-PlanEnds :
    (world : List Task → Scheduler → Scheduler) (s : Scheduler) (req : Task)
    → PlanEnds world s req (plan world s req)
unfolding plan plan_finish
plan-PlanEnds world s req =
    let base = clean_task_released_resources s in
    let end = λ (e : Scheduler × Preparation). PlanEnds world s req (plan_finish world req e) in
    elim (Bool-cases (greater base.resources req.resources)) [
      | inl e ↦ subst end (sym (settled-ready s req e)) (PlanEnds.at_once true (λ _. e))
      | inr e ↦ elim (unsettled s req e) [
        | inl i ↦ subst end (sym i) (PlanEnds.at_once false (λ k. cc))
        | inr (victims, k) ↦ subst end (sym k) (
            subst (PlanEnds world s req) (sym (plan_commit_lem (world victims base) req))
              (PlanEnds.after_kill victims _ k refl))
      ]
    ]
