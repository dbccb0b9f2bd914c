-- ===== src/Scheduler/Launch/Invariant.antt =====
-- The scheduler as a step relation, and the invariant of every state that it reaches.
use flux_backend.Common.{
  ℕ, true, Option, none, some, List, ◌≡◌, refl, sym, ap, subst, ◌∙◌, arith, lookup, insert,
  lookup-insert, lookup-insert_self, ℕ_eq, All, All-imp, All-append, All-remove_first, ◌==◌,
  eq_sound, any, Bool-cases, inl, inr, is_some,
}
use flux_backend.Scheduler.Model.{Task, TaskRequest, Scheduler, is_long_running, WaitError}
use flux_backend.Scheduler.Resources.{IsNonNegative}
use flux_backend.Scheduler.Launch.{
  ShortRun, execute, execute_short, execute_long_running_task, wait_for_task_complete,
  schedule_task, launch, queue_waiting_task,
}
use flux_backend.Scheduler.Launch.Conservation.{Component, total, total-execute, total-wait}

-- What the goroutines of the tasks do: a command that starts is executed, or a process ends.
pub data Work : Scheduler → Scheduler → Type 0 where
  runs :
      (s : Scheduler) (id : ℕ) (t : Task) (r : ShortRun) (started : Option ℕ)
      → any (λ x. x == id) s.executing ≡ true
      → lookup id s.tasks ≡ some t
      → (is_long_running t.command.cmd_exec_type ≡ true → is_some started ≡ true)
      → Work s (execute s id t r started)
  ends :
      (s : Scheduler) (id : ℕ) (t : Task) (e : Option WaitError)
      → any (λ x. x == id) s.waiters ≡ true
      → lookup id s.tasks ≡ some t
      → Work s (wait_for_task_complete s id t e)

pub data Works (s : Scheduler) : Scheduler → Type 0 where
  rest : Works s s
  more : {t u : Scheduler} → Works s t → Work t u → Works s u

-- A request arrives under an id that is new; the next task is launched, while the other goroutines
-- work; a task wakes from the wait queue.
pub data Step : Scheduler → Scheduler → Type 0 where
  works : {s t : Scheduler} → Work s t → Step s t
  schedules :
      (s : Scheduler) (req : TaskRequest) (id now : ℕ)
      → lookup id s.tasks ≡ none
      → IsNonNegative req.resources
      → Step s (schedule_task s req id now).0
  launches :
      (s : Scheduler) (world : List Task → Scheduler → Scheduler) (now : ℕ)
      → ((victims : List Task) (u : Scheduler) → Works u (world victims u))
      → Step s (launch world now s)
  wakes : (s : Scheduler) (id : ℕ) → Step s (queue_waiting_task s id)

pub data Reach (s : Scheduler) : Scheduler → Type 0 where
  here : Reach s s
  next : {t u : Scheduler} → Reach s t → Step t u → Reach s u

abbrev pub Known : List (ℕ × Task) → ℕ → Type 0
Known tasks id = is_some (lookup id tasks) ≡ true

-- No amount is negative, and the goroutines work on known tasks.
pub record IsSound (s : Scheduler) : Type 0 where
  pub free : IsNonNegative s.resources
  pub released : All IsNonNegative s.resource_release
  pub requests : (id : ℕ) (t : Task) → lookup id s.tasks ≡ some t → IsNonNegative t.resources
  pub known_executing : All (Known s.tasks) s.executing
  pub known_waiters : All (Known s.tasks) s.waiters

pub record Inv (limit : Component → ℕ) (s : Scheduler) : Type 0 where
  pub sound : IsSound s
  pub conserved : (c : Component) → total c s ≡ limit c

pub Known-insert :
    (id : ℕ) (u : Task) (tasks : List (ℕ × Task)) (j : ℕ)
    → Known tasks j
    → Known (insert id u tasks) j
Known-insert id u tasks j h = elim (Bool-cases (id == j)) [
  | inl e ↦ rw (lookup-insert id j u tasks, e) refl
  | inr e ↦ rw (lookup-insert id j u tasks, e) h
]

pub requests-insert :
    (id : ℕ) (u : Task) (tasks : List (ℕ × Task))
    → IsNonNegative u.resources
    → ((j : ℕ) (t : Task) → lookup j tasks ≡ some t → IsNonNegative t.resources)
    → (j : ℕ) (t : Task) → lookup j (insert id u tasks) ≡ some t
    → IsNonNegative t.resources
requests-insert id u tasks new old j t h = elim (Bool-cases (id == j)) [
  | inl e ↦
      let same : u ≡ t = ground (arith, lookup-insert id j u tasks) in
      subst (λ (x : Task). IsNonNegative x.resources) same new
  | inr e ↦ old j t (ground (arith, lookup-insert id j u tasks))
]

module _ (s : Scheduler) (id : ℕ) (t : Task) (found : lookup id s.tasks ≡ some t)
    (v : IsSound s) where
  -- The task's entry is replaced by one with the same resources.
  pub requests-update :
      (u : Task)
      → u.resources ≡ t.resources
      → (j : ℕ) (x : Task) → lookup j (insert id u s.tasks) ≡ some x
      → IsNonNegative x.resources
  requests-update u same =
      requests-insert id u s.tasks (subst IsNonNegative (sym same) (v.requests id t found))
        v.requests

  pub still_there :
      (u : Task) (xs : List ℕ) → All (Known s.tasks) xs → All (Known (insert id u s.tasks)) xs
  still_there u xs h = All-imp (Known-insert id u s.tasks) xs h

  pub now_there : (u : Task) → Known (insert id u s.tasks) id
  now_there u = rw (lookup-insert_self id u s.tasks)

  execute_short-IsSound : (r : ShortRun) → IsSound (execute_short s id t r)
  unfolding execute_short
  execute_short-IsSound r = record {
    free = v.free;
    released = All-append IsNonNegative s.resource_release _ v.released (v.requests id t found, tt);
    requests = requests-update _ refl;
    known_executing = still_there _ _ (All-remove_first _ id s.executing v.known_executing);
    known_waiters = still_there _ _ v.known_waiters;
  }

  execute_long-IsSound : (started : Option ℕ) → IsSound (execute_long_running_task s id t started)
  unfolding execute_long_running_task
  execute_long-IsSound none = record {
    free = v.free;
    released = v.released;
    requests = v.requests;
    known_executing = All-remove_first _ id s.executing v.known_executing;
    known_waiters = v.known_waiters;
  }
  execute_long-IsSound (some pid) = record {
    free = v.free;
    released = v.released;
    requests = requests-update _ refl;
    known_executing = still_there _ _ (All-remove_first _ id s.executing v.known_executing);
    known_waiters = All-append _ s.waiters _ (still_there _ _ v.known_waiters) (now_there _, tt);
  }

  execute-IsSound : (r : ShortRun) (started : Option ℕ) → IsSound (execute s id t r started)
  unfolding execute
  execute-IsSound r started = elim (Bool-cases (is_long_running t.command.cmd_exec_type)) [
    | inl e ↦ rw (e, execute) (execute_long-IsSound started)
    | inr e ↦ rw (e, execute) (execute_short-IsSound r)
  ]

  wait-IsSound : (e : Option WaitError) → IsSound (wait_for_task_complete s id t e)
  unfolding wait_for_task_complete
  wait-IsSound e = record {
    free = v.free;
    released = All-append IsNonNegative s.resource_release _ v.released (v.requests id t found, tt);
    requests = requests-update _ refl;
    known_executing = still_there _ _ v.known_executing;
    known_waiters = still_there _ _ (All-remove_first _ id s.waiters v.known_waiters);
  }

module _ (limit : Component → ℕ) where
  pub Work-Inv : {s u : Scheduler} → Work s u → Inv limit s → Inv limit u
  Work-Inv (runs s id t r started held found starts) v = record {
    sound = execute-IsSound s id t found v.sound r started;
    conserved = λ c. total-execute c s id t found r started held starts ∙ v.conserved c;
  }
  Work-Inv (ends s id t e held found) v = record {
    sound = wait-IsSound s id t found v.sound e;
    conserved = λ c. total-wait c s id t found e held ∙ v.conserved c;
  }

  pub Works-Inv : {s u : Scheduler} → Works s u → Inv limit s → Inv limit u
  Works-Inv rest v = v
  Works-Inv (more ws w) v = Work-Inv w (Works-Inv ws v)

-- No task disappears, and none gets other resources.
abbrev pub Keeps : List (ℕ × Task) → List (ℕ × Task) → Type 0
Keeps old new =
    (id : ℕ) (t : Task)
    → lookup id old ≡ some t
    → (u : Task) × (lookup id new ≡ some u) × (u.resources ≡ t.resources)

pub Keeps-insert :
    (tasks : List (ℕ × Task)) (id : ℕ) (t u : Task)
    → lookup id tasks ≡ some t
    → u.resources ≡ t.resources
    → Keeps tasks (insert id u tasks)
Keeps-insert tasks id t u found same j x h = elim (Bool-cases (id == j)) [
  | inl e ↦
      let named : id ≡ j = eq_sound id j e in
      let one : t ≡ x = ground (arith, named) in
      (u, ground (arith, lookup-insert id j u tasks), same ∙ ap (λ (y : Task). y.resources) one)
  | inr e ↦ (x, ground (arith, lookup-insert id j u tasks), refl)
]

Keeps-refl : (tasks : List (ℕ × Task)) → Keeps tasks tasks
Keeps-refl tasks id t h = (t, h, refl)

pub Keeps-trans : (a b c : List (ℕ × Task)) → Keeps a b → Keeps b c → Keeps a c
Keeps-trans a b c f g id t h =
    let (u, hu, same) = f id t h in let (w, hw, same') = g id u hu in (w, hw, same' ∙ same)

Work-Keeps : {s u : Scheduler} → Work s u → Keeps s.tasks u.tasks
unfolding execute execute_short execute_long_running_task wait_for_task_complete
Work-Keeps (ends s id t e held found) = Keeps-insert s.tasks id t _ found refl
Work-Keeps (runs s id t r started held found starts) =
    elim (Bool-cases (is_long_running t.command.cmd_exec_type)) [
      | inl e ↦ rw (e, execute) (long started)
      | inr e ↦ rw (e, execute) (Keeps-insert s.tasks id t _ found refl)
    ]
  where
    long : (o : Option ℕ) → Keeps s.tasks (execute_long_running_task s id t o).tasks
    long none = Keeps-refl s.tasks
    long (some pid) = Keeps-insert s.tasks id t _ found refl

pub Works-Keeps : {s u : Scheduler} → Works s u → Keeps s.tasks u.tasks
Works-Keeps {s} rest = Keeps-refl s.tasks
Works-Keeps (more ws w) = Keeps-trans _ _ _ (Works-Keeps ws) (Work-Keeps w)
