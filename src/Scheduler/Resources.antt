-- ===== src/Scheduler/Resources.antt =====
-- scheduler_service/scheduler_utils.go: arithmetic on the resources, and the check of a request.
use flux_backend.Common.{
  ◌+◌, ◌<◌, Bool, true, false, ◌&&◌, Option, none, some, ◌≡◌, refl, ◌↔◌, if◌then◌else◌, arith, ◌⊎◌,
}
use flux_backend.Common.Int.{
  ℤ, ltbℤ, ◌<ℤ◌, ◌≤ℤ◌, ◌-ℤ◌, ◌+ℤ◌, add32, sub32, wrap32-of_IsInt32, IsInt32, int_laws, pos_part,
}
use flux_backend.Errors.{FluxError}
use flux_backend.Scheduler.Model.{Resources, TaskRequest, zero_resources}

unfoldable pub add : Resources → Resources → Resources
add r other = record { cpu = add32 r.cpu other.cpu; memory = add32 r.memory other.memory }

abbrev pub greater : Resources → Resources → Bool
greater r other = ltbℤ other.cpu r.cpu && ltbℤ other.memory r.memory

-- The receiver after the call, and the error.
unfoldable pub use_resources : Resources → Resources → Resources × Option FluxError
use_resources r other =
    if greater other r
    then (r, some FluxError.invalid_request)
    else (record { cpu = sub32 r.cpu other.cpu; memory = sub32 r.memory other.memory }, none)

unfoldable pub validate_task_request : TaskRequest → Option FluxError
validate_task_request req =
    if greater zero_resources req.resources
    then some FluxError.invalid_request
    else if ltbℤ req.priority (ℤ.pos 0)
    then some FluxError.invalid_request
    else if req.on_launch_complete
    then none
    else some FluxError.invalid_request

-- Both components hold values of their machine type.
pub record IsWord (r : Resources) : Type 0 where
  pub cpu : IsInt32 r.cpu
  pub memory : IsInt32 r.memory

pub record IsNonNegative (r : Resources) : Type 0 where
  pub cpu : ℤ.pos 0 ≤ℤ r.cpu
  pub memory : ℤ.pos 0 ≤ℤ r.memory

pub sub32-of_nonneg :
    (a b : ℤ) → IsInt32 a → IsInt32 b → ℤ.pos 0 ≤ℤ a → ℤ.pos 0 ≤ℤ b → sub32 a b ≡ a -ℤ b
sub32-of_nonneg a b ha hb pa pb =
    wrap32-of_IsInt32 (a -ℤ b) (record { below = omega int_laws; above = omega int_laws })

pub add32-of_bound :
    (a b : ℤ)
    → ℤ.pos 0 ≤ℤ a
    → ℤ.pos 0 ≤ℤ b
    → pos_part a + pos_part b < 2147483648
    → add32 a b ≡ a +ℤ b
add32-of_bound a b pa pb h =
    wrap32-of_IsInt32 (a +ℤ b) (record { below = omega int_laws; above = omega int_laws })

pub greater→lt : (r o : Resources) → greater r o ≡ true → (o.cpu <ℤ r.cpu) × (o.memory <ℤ r.memory)
greater→lt r o h = ground arith

-- A reservation of resources that are greater than the request succeeds, subtracts the request with
-- no wrap-around, and leaves both components positive.
pub use_resources-of_greater :
    (r o : Resources)
    → IsWord r
    → IsWord o
    → IsNonNegative o
    → greater r o ≡ true
    → (use_resources r o ≡ (record { cpu = r.cpu -ℤ o.cpu; memory = r.memory -ℤ o.memory }, none))
      × (ℤ.pos 0 <ℤ (use_resources r o).0.cpu)
      × (ℤ.pos 0 <ℤ (use_resources r o).0.memory)
unfolding use_resources
use_resources-of_greater r o wr wo n h =
    let (lc, lm) = greater→lt r o h in
    let keep : greater o r ≡ false = ground arith in
    rw
      (
        keep,
        sub32-of_nonneg r.cpu o.cpu wr.cpu wo.cpu (omega int_laws) n.cpu,
        sub32-of_nonneg r.memory o.memory wr.memory wo.memory (omega int_laws) n.memory,
      )
      (refl, omega int_laws, omega int_laws)

-- `use` checks the components together: where the CPU suffices, it accepts a request for more memory
-- than is there, and leaves a negative amount.
pub use_resources_overdraws :
    (r o : Resources)
    → IsWord r
    → IsWord o
    → IsNonNegative r
    → IsNonNegative o
    → o.cpu ≤ℤ r.cpu
    → r.memory <ℤ o.memory
    → ((use_resources r o).1 ≡ none) × ((use_resources r o).0.memory <ℤ ℤ.pos 0)
unfolding use_resources
use_resources_overdraws r o wr wo nr n hc hm =
    let keep : greater o r ≡ false = ground arith in
    rw (keep, sub32-of_nonneg r.memory o.memory wr.memory wo.memory nr.memory n.memory)
      (refl, omega int_laws)

-- A request is accepted exactly if not both amounts are negative, its priority is not negative and
-- its launch callback is there.
pub validate_task_request_iff :
    (req : TaskRequest)
    → (validate_task_request req ≡ none) ↔ (
        ((ℤ.pos 0 ≤ℤ req.resources.cpu) ⊎ (ℤ.pos 0 ≤ℤ req.resources.memory))
        × (ℤ.pos 0 ≤ℤ req.priority)
        × (req.on_launch_complete ≡ true))
unfolding validate_task_request
validate_task_request_iff req = (λ h. ground arith, λ h. ground arith)
