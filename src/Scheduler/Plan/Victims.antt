-- ===== src/Scheduler/Plan/Victims.antt =====
-- Whom `plan` kills: only tasks that may be killed for the request, in the order of the sort, and no
-- more of them than are needed.
use flux_backend.Common.{
  ℕ, zero, suc, ◌<◌, true, false, List, [], ◌∷◌, ◌≡◌, refl, All, Bool-cases, inl, inr, arith, take,
  length, ap, subst, sym,
}
use flux_backend.Common.Int.{◌<ℤ◌}
use flux_backend.Scheduler.Model.{Resources, Task, Scheduler, is_long_running, is_running}
use flux_backend.Scheduler.Resources.{add, greater}
use flux_backend.Scheduler.Plan.{
  candidates, is_candidate, sort_with_priority_and_launch_time, collect, kill, plan_prepare,
  clean_task_released_resources,
}
use flux_backend.Scheduler.Plan.Sorting.{All-sort_with_priority}

-- A task that may be killed for the request.
pub record MayDie (req t : Task) : Type 0 where
  pub lower : t.priority <ℤ req.priority
  pub long : is_long_running t.command.cmd_exec_type ≡ true
  pub running : is_running t.state ≡ true

-- The resources that are free once the first tasks of a list have released theirs.
abbrev pub freed : Resources → List Task → Resources
freed r [] = r
freed r (t ∷ ts) = freed (add r t.resources) ts

-- The victims are the shortest prefix of the list, with one task or more, that frees enough.
pub record IsShortest (r need : Resources) (order victims : List Task) : Type 0 where
  pub is_prefix : victims ≡ take (length victims) order
  pub not_fewer :
      (n : ℕ) → 0 < n → n < length victims → greater (freed r (take n order)) need ≡ false

collect-IsShortest :
    (r need : Resources) (ts : List Task) → IsShortest r need ts (collect r need ts).1
unfolding collect
collect-IsShortest r need [] = record {
  is_prefix = refl;
  not_fewer = λ n h k. absurd (omega arith);
}
collect-IsShortest r need (t ∷ ts) = elim (Bool-cases (greater (add r t.resources) need)) [
  | inl e ↦ rw e (record { is_prefix = refl; not_fewer = λ n h k. absurd (omega arith) })
  | inr e ↦
      let rest = collect-IsShortest (add r t.resources) need ts in
      rw e (record { is_prefix = ap (◌∷◌ t) rest.is_prefix; not_fewer = fewer e rest })
]
  where
    fewer :
        greater (add r t.resources) need ≡ false
        → IsShortest (add r t.resources) need ts (collect (add r t.resources) need ts).1
        → (n : ℕ) → 0 < n
        → n < suc (length (collect (add r t.resources) need ts).1)
        → greater (freed r (take n (t ∷ ts))) need ≡ false
    fewer e rest zero h k = absurd (omega arith)
    fewer e rest (suc zero) h k = e
    fewer e rest (suc (suc n)) h k = rest.not_fewer (suc n) (omega arith) (omega arith)

collect-freed :
    (r need : Resources) (ts : List Task) → (collect r need ts).0 ≡ freed r (collect r need ts).1
unfolding collect
collect-freed r need [] = refl
collect-freed r need (t ∷ ts) = elim (Bool-cases (greater (add r t.resources) need)) [
  | inl e ↦ rw e refl
  | inr e ↦ rw e (collect-freed (add r t.resources) need ts)
]

All-take {ℓ} : (P : Task → Type ℓ) (n : ℕ) (ts : List Task) → All P ts → All P (take n ts)
All-take P zero ts h = tt
All-take P (suc n) [] h = tt
All-take P (suc n) (t ∷ ts) h = (h.0, All-take P n ts h.1)

candidates-MayDie : (req : Task) (ts : List (ℕ × Task)) → All (MayDie req) (candidates ts req)
candidates-MayDie req [] = tt
candidates-MayDie req ((i, t) ∷ ts) = elim (Bool-cases (is_candidate req t)) [
  | inl e ↦ rw e (
    record { lower = ground arith; long = ground arith; running = ground arith },
    candidates-MayDie req ts,
  )
  | inr e ↦ rw e (candidates-MayDie req ts)
]

-- What `plan` decides to kill: lower-priority, long-running, running tasks alone; the shortest prefix
-- of the sorted candidates; and enough of them.
pub record IsJustified (s : Scheduler) (req : Task) (victims : List Task) : Type 0 where
  pub may_die : All (MayDie req) victims
  pub shortest :
      IsShortest s.resources req.resources
        (sort_with_priority_and_launch_time (candidates s.tasks req))
        victims
  pub scarce : greater s.resources req.resources ≡ false
  pub enough : greater (freed s.resources victims) req.resources ≡ true

collect-IsJustified :
    (s : Scheduler) (req : Task)
    → greater s.resources req.resources ≡ false
    → let order = sort_with_priority_and_launch_time (candidates s.tasks req) in
      greater (collect s.resources req.resources order).0 req.resources ≡ true
      → IsJustified s req (collect s.resources req.resources order).1
collect-IsJustified s req scarce enough =
    let order = sort_with_priority_and_launch_time (candidates s.tasks req) in
    let short = collect-IsShortest s.resources req.resources order in
    record {
      may_die = subst (All (MayDie req)) (sym short.is_prefix) (
          All-take (MayDie req) _ order
            (All-sort_with_priority (MayDie req) _ (candidates-MayDie req s.tasks)));
      shortest = short;
      scarce = scarce;
      enough = rw (collect-freed s.resources req.resources order) at enough;
    }

-- A plan kills only to make room: the victims have lower priority than the request, are running
-- long-running tasks, and are the shortest prefix of the candidates, ordered by priority and age,
-- whose resources suffice together with those that are free; and without a kill they do not suffice.
pub plan_prepare-IsJustified :
    (s : Scheduler) (req : Task) (victims : List Task)
    → (plan_prepare s req).1 ≡ kill victims
    → IsJustified (clean_task_released_resources s) req victims
unfolding plan_prepare
plan_prepare-IsJustified s req victims h =
    let base = clean_task_released_resources s in
    elim (Bool-cases (greater base.resources req.resources)) [
      | inl e ↦ absurd (settled_not_kill e)
      | inr e ↦ killed_case e
    ]
  where
    base : Scheduler
    base = clean_task_released_resources s

    order : List Task
    order = sort_with_priority_and_launch_time (candidates base.tasks req)

    settled_not_kill : greater base.resources req.resources ≡ true → ⊥
    settled_not_kill e = ground arith

    killed_case : greater base.resources req.resources ≡ false → IsJustified base req victims
    killed_case e =
        elim (Bool-cases (greater (collect base.resources req.resources order).0 req.resources)) [
          | inl f ↦ subst (IsJustified base req) (ground arith) (collect-IsJustified base req e f)
          | inr f ↦ absurd (ground arith)
        ]
