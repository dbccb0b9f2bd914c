-- ===== src/Scheduler/Launch/Reachable.antt =====
-- The invariant holds in every state that the scheduler reaches from its start.
use flux_backend.Common.{
  ℕ, ◌+◌, ◌<◌, Bool, true, false, none, some, List, [], ◌∷◌, ◌++◌, ◌≡◌, refl, sym, ap, ◌∙◌, arith,
  All, All-append, All-imp, lookup, insert, lookup-insert, lookup-insert_self, ℕ_eq, if◌then◌else◌,
  Bool-cases, Option-cases, inl, inr, eq_sound,
}
use flux_backend.Common.Int.{ℤ, pos_part, ltbℤ, add32}
use flux_backend.Scheduler.Model.{Resources, Task, TaskRequest, Scheduler, TaskState}
use flux_backend.Scheduler.Resources.{IsNonNegative, IsWord, validate_task_request}
use flux_backend.Scheduler.Plan.{plan}
use flux_backend.Scheduler.Launch.{
  schedule_task, new_task, launch, launch_received, launch_task, accept, refuse, tried,
  queue_waiting_task, start,
}
use flux_backend.Scheduler.Launch.Conservation.{
  Component, cpu, memory, amount, total, need, sum_need, sum_amount, need_of, sum_need-append,
  sum_need-insert,
}
use flux_backend.Scheduler.Launch.Invariant.{
  IsSound, Inv, Known, Known-insert, still_there, now_there, requests-update, requests-insert, Step,
  works, schedules, launches, wakes, Reach, here, next, Work-Inv, Works,
}
use flux_backend.Scheduler.Launch.Cleaning.{Planned, plan-Planned}

abbrev raised : Task → Task
raised u = record u { request = record u.request { priority = add32 u.priority (ℤ.pos 10) } }

-- A new task changes the need of no known one.
sum_need-fresh :
    (c : Component) (tasks : List (ℕ × Task)) (id : ℕ) (u : Task)
    → lookup id tasks ≡ none
    → (xs : List ℕ) → All (Known tasks) xs
    → sum_need c (insert id u tasks) xs ≡ sum_need c tasks xs
unfolding sum_need need
sum_need-fresh c tasks id u fresh [] h = refl
sum_need-fresh c tasks id u fresh (x ∷ xs) h =
    ground
      (arith, lookup-insert id x u tasks, eq_sound id x, sum_need-fresh c tasks id u fresh xs h.1)

schedule-total :
    (c : Component) (s : Scheduler) (id : ℕ) (u : Task)
    → lookup id s.tasks ≡ none
    → {limit : Component → ℕ} → Inv limit s
    → total c (record s { tasks = insert id u s.tasks }) ≡ total c s
unfolding total
schedule-total c s id u fresh v = omega (
  arith,
  sum_need-fresh c s.tasks id u fresh s.executing v.sound.known_executing,
  sum_need-fresh c s.tasks id u fresh s.waiters v.sound.known_waiters,
)

module _ (limit : Component → ℕ) where
  schedule-Inv :
      (s : Scheduler) (req : TaskRequest) (id now : ℕ)
      → lookup id s.tasks ≡ none
      → IsNonNegative req.resources
      → Inv limit s
      → Inv limit (schedule_task s req id now).0
  unfolding schedule_task total
  schedule-Inv s req id now fresh n v = elim (Option-cases (validate_task_request req)) [
    | inr (e, refused) ↦ rw (refused, schedule_task) v
    | inl valid ↦
        rw (valid, schedule_task)
          (record {
            sound = record {
              free = v.sound.free;
              released = v.sound.released;
              requests = requests-insert id (new_task req id now) s.tasks n v.sound.requests;
              known_executing = added s.executing v.sound.known_executing;
              known_waiters = added s.waiters v.sound.known_waiters;
            };
            conserved = sums;
          })
  ]
    where
      added :
          (xs : List ℕ)
          → All (Known s.tasks) xs
          → All (Known (insert id (new_task req id now) s.tasks)) xs
      added xs h = All-imp (Known-insert id (new_task req id now) s.tasks) xs h

      sums :
          (c : Component)
          → total c (record s { tasks = insert id (new_task req id now) s.tasks }) ≡ limit c
      sums c = schedule-total c s id (new_task req id now) fresh v ∙ v.conserved c

module _ (s : Scheduler) (id : ℕ) (t : Task) (found : lookup id s.tasks ≡ some t) where
  -- Replacing the task's entry by one with the same resources.
  update-IsSound :
      (u : Task)
      → u.resources ≡ t.resources
      → IsSound s
      → IsSound (record s { tasks = insert id u s.tasks })
  update-IsSound u same v = record {
    free = v.free;
    released = v.released;
    requests = requests-update s id t found v u same;
    known_executing = still_there s id t found v u s.executing v.known_executing;
    known_waiters = still_there s id t found v u s.waiters v.known_waiters;
  }

  update-total :
      (u : Task)
      → u.resources ≡ t.resources
      → (c : Component) → total c (record s { tasks = insert id u s.tasks }) ≡ total c s
  unfolding total
  update-total u same c = omega (
    arith,
    sum_need-insert c s.tasks id t u found same s.executing,
    sum_need-insert c s.tasks id t u found same s.waiters,
  )

  accept-IsSound :
      (u : Task) (now : ℕ) → u.resources ≡ t.resources → IsSound s → IsSound (accept s id u now)
  unfolding accept
  accept-IsSound u now same v =
      let w = record u { launch_time = now } in
      let base = update-IsSound w same v in
      record {
        free = base.free;
        released = base.released;
        requests = base.requests;
        known_executing =
            All-append (Known (insert id w s.tasks)) s.executing _ base.known_executing
              (now_there s id t found v w, tt);
        known_waiters = base.known_waiters;
      }

  accept-total :
      (u : Task) (now : ℕ)
      → u.resources ≡ t.resources
      → (c : Component) → total c (accept s id u now) ≡ total c s + pos_part (amount c t.resources)
  unfolding total accept sum_need
  accept-total u now same c =
      let w : Task = record u { launch_time = now } in
      omega (
        arith,
        sum_need-insert c s.tasks id t w found same (s.executing ++ id ∷ []),
        sum_need-insert c s.tasks id t w found same s.waiters,
        sum_need-append c s.tasks s.executing (id ∷ []),
        need_of c s.tasks id t found,
      )

  refuse-IsSound : (u : Task) → u.resources ≡ t.resources → IsSound s → IsSound (refuse s id u)
  unfolding refuse
  refuse-IsSound u same v = elim (Bool-cases (ltbℤ u.scheduling_tries u.scheduling_retries)) [
    | inl e ↦
        let base = update-IsSound (raised u) same v in
        rw (e, refuse)
          (record {
            free = base.free;
            released = base.released;
            requests = base.requests;
            known_executing = base.known_executing;
            known_waiters = base.known_waiters;
          })
    | inr e ↦
        let base = update-IsSound (record u { state = TaskState.failed }) same v in
        rw (e, refuse)
          (record {
            free = base.free;
            released = base.released;
            requests = base.requests;
            known_executing = base.known_executing;
            known_waiters = base.known_waiters;
          })
  ]

  refuse-total :
      (u : Task) → u.resources ≡ t.resources → (c : Component) → total c (refuse s id u) ≡ total c s
  unfolding refuse total
  refuse-total u same c = elim (Bool-cases (ltbℤ u.scheduling_tries u.scheduling_retries)) [
    | inl e ↦ rw (e, refuse) (update-total (raised u) same c)
    | inr e ↦ rw (e, refuse) (update-total (record u { state = TaskState.failed }) same c)
  ]

module _ (limit : Component → ℕ) (small : (c : Component) → limit c < 2147483648)
    (world : List Task → Scheduler → Scheduler)
    (works_only : (victims : List Task) (u : Scheduler) → Works u (world victims u)) (now : ℕ) where
  finished :
      (s : Scheduler) (id : ℕ) (t : Task) (r : Scheduler × Bool)
      → lookup id s.tasks ≡ some t
      → Planned limit s t r
      → Inv limit (if r.1 then accept r.0 id t now else refuse r.0 id t)
  finished s id t (u, true) found p =
      let (x, held, same) = p.keeps id t found in
      record {
        sound = accept-IsSound u id x held t now (sym same) p.sound;
        conserved = λ c. omega (
          arith,
          accept-total u id x held t now (sym same) c,
          p.balance c,
          ap (λ (r : Resources). pos_part (amount c r)) same,
        );
      }
  finished s id t (u, false) found p =
      let (x, held, same) = p.keeps id t found in
      record {
        sound = refuse-IsSound u id x held t (sym same) p.sound;
        conserved = λ c. omega (arith, refuse-total u id x held t (sym same) c, p.balance c);
      }

  launch_task-Inv : (s : Scheduler) (id : ℕ) → Inv limit s → Inv limit (launch_task world now s id)
  unfolding launch_task
  launch_task-Inv s id v = elim (Option-cases (lookup id s.tasks)) [
    | inl e ↦ rw (e, launch_task) v
    | inr (t, e) ↦
        let s1 : Scheduler = record s { tasks = insert id (tried t) s.tasks } in
        let v1 : Inv limit s1 = record {
          sound = update-IsSound s id t e (tried t) refl v.sound;
          conserved = λ c. update-total s id t e (tried t) refl c ∙ v.conserved c;
        } in
        rw (e, launch_task)
          (finished s1 id (tried t) (plan world s1 (tried t))
            (lookup-insert_self id (tried t) s.tasks)
            (plan-Planned limit small (tried t) (v.sound.requests id t e) world s1 works_only v1))
  ]

  -- The queue of task ids plays no part in the invariant.
  queue-Inv : (s : Scheduler) (q : List ℕ) → Inv limit s → Inv limit (record s { task_queue = q })
  unfolding total
  queue-Inv s q v = record {
    sound = record {
      free = v.sound.free;
      released = v.sound.released;
      requests = v.sound.requests;
      known_executing = v.sound.known_executing;
      known_waiters = v.sound.known_waiters;
    };
    conserved = v.conserved;
  }

  launch_received-Inv :
      (s : Scheduler) (q : List ℕ) → Inv limit s → Inv limit (launch_received world now s q)
  unfolding launch_received
  launch_received-Inv s [] v = v
  launch_received-Inv s (id ∷ rest) v = launch_task-Inv _ id (queue-Inv s rest v)

  launch-Inv : (s : Scheduler) → Inv limit s → Inv limit (launch world now s)
  unfolding launch
  launch-Inv s v = launch_received-Inv s s.task_queue v

module _ (limit : Component → ℕ) (small : (c : Component) → limit c < 2147483648) where
  wakes-Inv : (s : Scheduler) (id : ℕ) → Inv limit s → Inv limit (queue_waiting_task s id)
  unfolding queue_waiting_task total
  wakes-Inv s id v = record {
    sound = record {
      free = v.sound.free;
      released = v.sound.released;
      requests = v.sound.requests;
      known_executing = v.sound.known_executing;
      known_waiters = v.sound.known_waiters;
    };
    conserved = v.conserved;
  }

  Step-Inv : {s u : Scheduler} → Step s u → Inv limit s → Inv limit u
  Step-Inv (works w) v = Work-Inv limit w v
  Step-Inv (schedules s req id now fresh n) v = schedule-Inv limit s req id now fresh n v
  Step-Inv (launches s world now w) v = launch-Inv limit small world w now s v
  Step-Inv (wakes s id) v = wakes-Inv s id v

  Reach-Inv : {s u : Scheduler} → Reach s u → Inv limit s → Inv limit u
  Reach-Inv here v = v
  Reach-Inv (next r st) v = Step-Inv st (Reach-Inv r v)

abbrev configured : Resources → Component → ℕ
configured r c = pos_part (amount c r)

start-Inv : (r : Resources) → IsNonNegative r → Inv (configured r) (start r)
unfolding start total sum_need sum_amount
start-Inv r n = record {
  sound = record {
    free = n;
    released = tt;
    requests = λ id t h. absurd (missing id t h);
    known_executing = tt;
    known_waiters = tt;
  };
  conserved = λ c. omega arith;
}
  where
    missing : (id : ℕ) (t : Task) → lookup id [] ≡ some t → ⊥
    missing id t h = unfold lookup in cc

-- In every state that the scheduler reaches from its start, by requests for amounts that are not
-- negative, launches, wake-ups, executions whose command starts and ends of processes, the free
-- resources are not negative; and what is free, what waits in the release channel and what the
-- executing and the running tasks hold add up to what it was configured with.
pub Reach-conserved :
    (r : Resources)
    → IsWord r
    → IsNonNegative r
    → {s : Scheduler} → Reach (start r) s
    → IsNonNegative s.resources × ((c : Component) → total c s ≡ pos_part (amount c r))
Reach-conserved r w n reach =
    let v = Reach-Inv (configured r) small reach (start-Inv r n) in (v.sound.free, v.conserved)
  where
    small : (c : Component) → configured r c < 2147483648
    small cpu = w.cpu.below
    small memory = w.memory.below
