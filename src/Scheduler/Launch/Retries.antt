-- ===== src/Scheduler/Launch/Retries.antt =====
-- What becomes of a task at each try to launch it.
use flux_backend.Common.{
  ℕ, suc, ◌≤◌, ◌<◌, false, none, some, List, [], ◌∷◌, ◌++◌, ◌≡◌, arith, lookup, insert,
  lookup-insert_self, ℕ_eq, any, eq_refl, refl, sym, ap, ◌∙◌, zero, Bool, ◌==◌, ◌&&◌, is_some,
  if◌then◌else◌, true, inl, inr, Bool-cases, eq_sound,
}
use flux_backend.Common.Int.{ℤ, add32, ◌+ℤ◌, wrap32-of_IsInt32, int_laws, +ℤ_parts, eq_of_parts}
use flux_backend.Errors.{FluxError}
use flux_backend.Scheduler.Model.{Task, Scheduler, TaskState, LaunchError}
use flux_backend.Scheduler.Plan.{plan}
use flux_backend.Scheduler.Launch.{launch_task, refuse, tried}

+ℤ-one : (k : ℕ) → ℤ.pos k +ℤ ℤ.pos 1 ≡ ℤ.pos (suc k)
+ℤ-one k =
    omega (int_laws, +ℤ_parts (ℤ.pos k) (ℤ.pos 1), eq_of_parts (ℤ.pos k +ℤ ℤ.pos 1) (ℤ.pos (suc k)))

add32-suc : (k : ℕ) → k < 2147483647 → add32 (ℤ.pos k) (ℤ.pos 1) ≡ ℤ.pos (suc k)
add32-suc k h = ground (arith, wrap32-of_IsInt32 (ℤ.pos (suc k)) (omega arith), +ℤ-one k)

abbrev patient : Task → Task
patient t = record t { request = record t.request { priority = add32 t.priority (ℤ.pos 10) } }

abbrev given_up : Task → Task
given_up t = record t { state = TaskState.failed }

counted :
    (t : Task) (k : ℕ)
    → t.scheduling_tries ≡ ℤ.pos k
    → k < 2147483647
    → add32 t.scheduling_tries (ℤ.pos 1) ≡ ℤ.pos (suc k)
counted t k tries small = rw tries (add32-suc k small)

module _ (world : List Task → Scheduler → Scheduler) (now : ℕ) (s : Scheduler) (id : ℕ) (t : Task)
    (found : lookup id s.tasks ≡ some t) {s' : Scheduler} where
  launch_task-refused :
      plan world (record s { tasks = insert id (tried t) s.tasks }) (tried t) ≡ (s', false)
      → launch_task world now s id ≡ refuse s' id (tried t)
  unfolding launch_task
  launch_task-refused h = ground arith

  -- A task that no plan can be made for, and that has tries left, is not lost: it goes to the wait
  -- queue with one more try counted and its priority raised by ten, and nobody is told.
  pub refused_waits :
      (k r : ℕ)
      → t.scheduling_tries ≡ ℤ.pos k
      → k < 2147483647
      → t.scheduling_retries ≡ ℤ.pos r
      → suc k < r
      → plan world (record s { tasks = insert id (tried t) s.tasks }) (tried t) ≡ (s', false)
      → let after = launch_task world now s id in
        (after.wait_queue ≡ s'.wait_queue ++ id ∷ [])
        × (after.responses ≡ s'.responses)
        × (lookup id after.tasks
            ≡ some (record t {
              request = record t.request { priority = add32 t.priority (ℤ.pos 10) };
              scheduling_tries = ℤ.pos (suc k);
            }))
  unfolding refuse
  refused_waits k r tries small retries more h =
      let count = counted t k tries small in
      rw (launch_task-refused h)
        (ground (arith, lookup-insert_self id (patient (tried t)) s'.tasks))

  -- A task that no plan can be made for at its last try fails: its launch callback gets the launch
  -- error, and it does not wait again.
  pub refused_fails :
      (k r : ℕ)
      → t.scheduling_tries ≡ ℤ.pos k
      → k < 2147483647
      → t.scheduling_retries ≡ ℤ.pos r
      → r ≤ suc k
      → plan world (record s { tasks = insert id (tried t) s.tasks }) (tried t) ≡ (s', false)
      → let after = launch_task world now s id in
        (after.wait_queue ≡ s'.wait_queue)
        × (after.responses
            ≡ record {
              task_id = id;
              out = none;
              error = some (LaunchError.flux FluxError.task_launch_error);
            }
              ∷ s'.responses)
        × (lookup id after.tasks
            ≡ some (record t { state = TaskState.failed; scheduling_tries = ℤ.pos (suc k) }))
  unfolding refuse
  refused_fails k r tries small retries last h =
      let count = counted t k tries small in
      rw (launch_task-refused h)
        (ground (arith, lookup-insert_self id (given_up (tried t)) s'.tasks))

-- The priority after some tries.
abbrev raised : ℤ → ℕ → ℤ
raised p zero = p
raised p (suc n) = add32 (raised p n) (ℤ.pos 10)

-- The task after some tries that it waits to repeat.
abbrev pub waiting : Task → ℕ → Task
waiting t n = record t {
  request = record t.request { priority = raised t.priority n };
  scheduling_tries = ℤ.pos n;
}

abbrev once_more : ℕ → Task → Task
once_more n t = record t {
  request = record t.request { priority = add32 t.priority (ℤ.pos 10) };
  scheduling_tries = ℤ.pos (suc n);
}

abbrev gave_up : ℕ → Task → Task
gave_up n t = record t { scheduling_tries = ℤ.pos (suc n); state = TaskState.failed }

-- The task after some tries of which the last may be the last at all.
abbrev pub outcome : Task → ℕ → ℕ → Task
outcome t last k = if k == last then gave_up k (waiting t k) else waiting t (suc k)

-- Launches of a task that are all refused. Before each of them, whatever does not touch the entry of
-- the task may happen to the scheduler.
pub data Refusals (id : ℕ) (t : Task) : ℕ → Scheduler → Type 0 where
  unlaunched : (s : Scheduler) → lookup id s.tasks ≡ some t → Refusals id t 0 s
  refused :
      (n : ℕ) (s u s' : Scheduler) (world : List Task → Scheduler → Scheduler) (now : ℕ) (v : Task)
      → Refusals id t n s
      → lookup id u.tasks ≡ lookup id s.tasks
      → lookup id u.tasks ≡ some v
      → plan world (record u { tasks = insert id (tried v) u.tasks }) (tried v) ≡ (s', false)
      → Refusals id t (suc n) (launch_task world now u id)

any-last : (id : ℕ) (xs : List ℕ) → any (λ x. x == id) (xs ++ id ∷ []) ≡ true
any-last id [] = rw (eq_refl id) refl
any-last id (x ∷ xs) = ground (arith, any-last id xs)

-- The callback of the task got the launch error.
abbrev pub is_told : ℕ → Scheduler → Bool
is_told id s = any (λ r. r.task_id == id && is_some r.error) s.responses

module _ (id : ℕ) (t : Task) (last : ℕ) (untried : t.scheduling_tries ≡ ℤ.pos 0)
    (tries : t.scheduling_retries ≡ ℤ.pos (suc last)) (small : last < 2147483647) where
  entry :
      (n : ℕ) (s : Scheduler)
      → Refusals id t n s
      → n ≤ last
      → lookup id s.tasks ≡ some (waiting t n)
  entry zero s (unlaunched _ found) le =
      found ∙ ap (λ k. some (record t { scheduling_tries = k })) untried
  entry (suc n) s (refused _ v u s' world now w before same found no_plan) le =
      let old = entry n v before (omega arith) in
      let is : some w ≡ some (waiting t n) = sym found ∙ same ∙ old in
      let w_is : w ≡ waiting t n = cc in
      let waits =
        refused_waits world now u id w found n (suc last) (ap (λ x. x.scheduling_tries) w_is)
          (omega arith) (ap (λ x. x.scheduling_retries) w_is ∙ tries) (omega arith) no_plan in
      waits.2 ∙ ap (λ x. some (once_more n x)) w_is

  -- A task that is refused at every launch is given up at exactly its last try, whatever the rest of the
  -- program does between the launches without touching the entry of the task: at each try before
  -- it goes to the wait queue with its priority raised by ten, and at the last it fails and its
  -- launch callback gets the error. It starts untried, and the number of tries is an int32.
  pub refused_until_last :
      (k : ℕ) (s : Scheduler)
      → k ≤ last
      → Refusals id t (suc k) s
      → (lookup id s.tasks ≡ some (outcome t last k))
        × ((if k == last then is_told id s else any (λ x. x == id) s.wait_queue) ≡ true)
  refused_until_last k s le (refused _ v u s' world now w before same found no_plan) =
      let is : some w ≡ some (waiting t k) = sym found ∙ same ∙ entry k v before le in
      let w_is : w ≡ waiting t k = cc in
      let count = ap (λ x. x.scheduling_tries) w_is in
      let retries = ap (λ x. x.scheduling_retries) w_is ∙ tries in
      elim (Bool-cases (k == last)) [
        | inl e ↦
            let here = eq_sound k last e in
            let fails =
              refused_fails world now u id w found k (suc last) count (omega arith) retries
                (omega (arith, here)) no_plan in
            rw e (
              fails.2 ∙ ap (λ x. some (gave_up k x)) w_is,
              ap (any (λ r. r.task_id == id && is_some r.error)) fails.1 ∙ rw (eq_refl id) refl,
            )
        | inr e ↦
            let waits =
              refused_waits world now u id w found k (suc last) count (omega arith) retries
                (ground (arith, e)) no_plan in
            rw e (
              waits.2 ∙ ap (λ x. some (once_more k x)) w_is,
              ap (any (λ x. x == id)) waits.0 ∙ any-last id s'.wait_queue,
            )
      ]
