-- ===== src/Scheduler/Launch/Cleaning.antt =====
-- Cleaning and planning keep the invariant: they move amounts and neither make nor lose any.
use flux_backend.Common.{
  ℕ, ◌+◌, ◌<◌, Bool, true, false, List, [], ◌∷◌, ◌≡◌, refl, ◌∙◌, arith, All, ℕ_eq, if◌then◌else◌,
}
use flux_backend.Common.Int.{ℤ, pos_part, ◌≤ℤ◌, ◌+ℤ◌, int_laws}
use flux_backend.Scheduler.Model.{Resources, Task, Scheduler}
use flux_backend.Scheduler.Resources.{
  add, greater, use_resources, IsNonNegative, IsWord, add32-of_bound, greater→lt,
  use_resources-of_greater,
}
use flux_backend.Scheduler.Plan.{add_all, clean_task_released_resources, plan}
use flux_backend.Scheduler.Plan.Reserve.{PlanEnds, at_once, after_kill, settled, plan-PlanEnds}
use flux_backend.Scheduler.Launch.Conservation.{Component, cpu, memory, amount, total, sum_amount}
use flux_backend.Scheduler.Launch.Invariant.{IsSound, Inv, Works, Works-Inv, Works-Keeps, Keeps}

module _ (r o : Resources) (nr : IsNonNegative r) (n : IsNonNegative o) where
  add-amount :
      (c : Component)
      → pos_part (amount c r) + pos_part (amount c o) < 2147483648
      → amount c (add r o) ≡ amount c r +ℤ amount c o
  unfolding add
  add-amount cpu h = add32-of_bound r.cpu o.cpu nr.cpu n.cpu h
  add-amount memory h = add32-of_bound r.memory o.memory nr.memory n.memory h

  add-pos_part :
      (c : Component)
      → pos_part (amount c r) + pos_part (amount c o) < 2147483648
      → (pos_part (amount c (add r o)) ≡ pos_part (amount c r) + pos_part (amount c o))
        × (ℤ.pos 0 ≤ℤ amount c (add r o))
  add-pos_part cpu h =
      rw (add-amount cpu h) (omega (int_laws, nr.cpu, n.cpu), omega (int_laws, nr.cpu, n.cpu))
  add-pos_part memory h =
      rw (add-amount memory h)
        (omega (int_laws, nr.memory, n.memory), omega (int_laws, nr.memory, n.memory))

add_all_lem :
    (r : Resources) (rs : List Resources)
    → IsNonNegative r
    → All IsNonNegative rs
    → ((c : Component) → pos_part (amount c r) + sum_amount c rs < 2147483648)
    → IsNonNegative (add_all r rs)
      × ((c : Component)
          → pos_part (amount c (add_all r rs)) ≡ pos_part (amount c r) + sum_amount c rs)
unfolding add_all sum_amount
add_all_lem r [] nr ns small = (nr, λ c. omega arith)
add_all_lem r (x ∷ xs) nr ns small =
    let one = λ (c : Component). add-pos_part r x nr ns.0 c (omega (arith, small c)) in
    let (nonneg, sums) =
      add_all_lem (add r x) xs (record { cpu = (one cpu).1; memory = (one memory).1 }) ns.1
        (λ c. omega (arith, small c, (one c).0)) in
    (nonneg, λ c. omega (arith, sums c, (one c).0))

module _ (limit : Component → ℕ) (small : (c : Component) → limit c < 2147483648) where
  pub clean-Inv : {s : Scheduler} → Inv limit s → Inv limit (clean_task_released_resources s)
  unfolding clean_task_released_resources total sum_amount
  clean-Inv {s} v =
      let (nonneg, sums) =
        add_all_lem s.resources s.resource_release v.sound.free v.sound.released
          (λ c. omega (arith, v.conserved c, small c)) in
      record {
        sound = record {
          free = nonneg;
          released = tt;
          requests = v.sound.requests;
          known_executing = v.sound.known_executing;
          known_waiters = v.sound.known_waiters;
        };
        conserved = λ c. omega (arith, sums c, v.conserved c);
      }

-- What a plan leaves: every amount is accounted for, with the request's taken out if it succeeded.
pub record Planned (limit : Component → ℕ) (s : Scheduler) (req : Task) (r : Scheduler × Bool)
    : Type 0 where
  pub sound : IsSound r.0
  pub balance :
      (c : Component)
      → total c r.0 + (if r.1 then pos_part (amount c req.resources) else 0) ≡ limit c
  pub keeps : Keeps s.tasks r.0.tasks

module _ (limit : Component → ℕ) (small : (c : Component) → limit c < 2147483648) (req : Task)
    (nq : IsNonNegative req.resources) where
  settled-sums :
      (s : Scheduler)
      → Inv limit s
      → greater s.resources req.resources ≡ true
      → IsNonNegative (use_resources s.resources req.resources).0
        × ((c : Component)
            → pos_part (amount c (use_resources s.resources req.resources).0)
                + pos_part (amount c req.resources)
              ≡ pos_part (amount c s.resources))
  unfolding total
  settled-sums s v enough =
      let (lc, lm) = greater→lt s.resources req.resources enough in
      let bc = v.conserved cpu in
      let bm = v.conserved memory in
      let wr : IsWord s.resources = record {
        cpu = record {
          below = omega (arith, bc, small cpu);
          above = omega (int_laws, v.sound.free.cpu);
        };
        memory = record {
          below = omega (arith, bm, small memory);
          above = omega (int_laws, v.sound.free.memory);
        };
      } in
      let wo : IsWord req.resources = record {
        cpu = record {
          below = omega (int_laws, bc, small cpu, v.sound.free.cpu);
          above = omega (int_laws, nq.cpu);
        };
        memory = record {
          below = omega (int_laws, bm, small memory, v.sound.free.memory);
          above = omega (int_laws, nq.memory);
        };
      } in
      rw (use_resources-of_greater s.resources req.resources wr wo nq enough).0 (
        record { cpu = omega int_laws; memory = omega int_laws },
        elim [
          | cpu ↦ omega (int_laws, nq.cpu, v.sound.free.cpu)
          | memory ↦ omega (int_laws, nq.memory, v.sound.free.memory)
        ],
      )

  settled-Planned :
      (old s : Scheduler) (done : Bool)
      → Inv limit s
      → (done ≡ true → greater s.resources req.resources ≡ true)
      → Keeps old.tasks s.tasks
      → Planned limit old req (settled s req done, done)
  unfolding total
  settled-Planned old s false v enough k = record {
    sound = v.sound;
    balance = λ c. omega (arith, v.conserved c);
    keeps = k;
  }
  settled-Planned old s true v enough k =
      let (nonneg, sums) = settled-sums s v (enough refl) in
      record {
        sound = record {
          free = nonneg;
          released = v.sound.released;
          requests = v.sound.requests;
          known_executing = v.sound.known_executing;
          known_waiters = v.sound.known_waiters;
        };
        balance = λ c. omega (arith, v.conserved c, sums c);
        keeps = k;
      }

  -- With a world that only lets the goroutines work, a plan accounts for every amount.
  pub plan-Planned :
      (world : List Task → Scheduler → Scheduler) (s : Scheduler)
      → ((victims : List Task) (u : Scheduler) → Works u (world victims u))
      → Inv limit s
      → Planned limit s req (plan world s req)
  unfolding clean_task_released_resources
  plan-Planned world s works v = go (plan world s req) (plan-PlanEnds world s req)
    where
      base : Scheduler
      base = clean_task_released_resources s

      vbase : Inv limit base
      vbase = clean-Inv limit small v

      go : (r : Scheduler × Bool) → PlanEnds world s req r → Planned limit s req r
      go r (at_once done e) = settled-Planned s base done vbase e (λ id t h. (t, h, refl))
      go r (after_kill victims done prepared e) =
          let w = works victims base in
          settled-Planned s (clean_task_released_resources (world victims base)) done
            (clean-Inv limit small (Works-Inv limit w vbase)) (λ d. e ∙ d) (Works-Keeps w)
