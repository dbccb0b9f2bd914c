-- ===== src/Scheduler/Plan/Sorting.antt =====
-- The sort of `plan`: its result is sorted by priority and then by age, and holds the same tasks.
use mathlib.Core.List.{Perm}
use mathlib.Core.List.Perm
use flux_backend.Common.{true, false, List, [], ◌∷◌, ◌≡◌, All, Bool-cases, inl, inr, arith}
use flux_backend.Scheduler.Model.{Task}
use flux_backend.Scheduler.Plan.{less, insert_task, sort_with_priority_and_launch_time}

-- No task stands behind one that it should precede.
abbrev pub IsSorted : List Task → Type 0
IsSorted [] = Unit
IsSorted (t ∷ ts) = All (λ u. less u t ≡ false) ts × IsSorted ts

less_asymm : (a b : Task) → less a b ≡ true → less b a ≡ false
less_asymm a b h = ground arith

not-less_trans : (a b c : Task) → less b a ≡ false → less c b ≡ false → less c a ≡ false
not-less_trans a b c h k = ground arith

All-insert_task :
    (t u : Task) (us : List Task)
    → less u t ≡ false
    → All (λ v. less v t ≡ false) us
    → All (λ v. less v t ≡ false) (insert_task u us)
unfolding insert_task
All-insert_task t u [] h k = (h, tt)
All-insert_task t u (v ∷ vs) h k = elim (Bool-cases (less v u)) [
  | inl e ↦ rw e (k.0, All-insert_task t u vs h k.1)
  | inr e ↦ rw e (h, k)
]

All-trans :
    (t u : Task) (us : List Task)
    → less u t ≡ false
    → All (λ v. less v u ≡ false) us
    → All (λ v. less v t ≡ false) us
All-trans t u [] h k = tt
All-trans t u (v ∷ vs) h k = (not-less_trans t u v h k.0, All-trans t u vs h k.1)

insert_task-IsSorted : (t : Task) (us : List Task) → IsSorted us → IsSorted (insert_task t us)
unfolding insert_task
insert_task-IsSorted t [] h = (tt, tt)
insert_task-IsSorted t (u ∷ us) h = elim (Bool-cases (less u t)) [
  | inl e ↦ rw e (All-insert_task u t us (less_asymm u t e) h.0, insert_task-IsSorted t us h.1)
  | inr e ↦ rw e ((e, All-trans t u us e h.0), h)
]

insert_task-perm : (t : Task) (us : List Task) → Perm (insert_task t us) (t ∷ us)
unfolding insert_task
insert_task-perm t [] = Perm.refl _
insert_task-perm t (u ∷ us) = elim (Bool-cases (less u t)) [
  | inl e ↦ rw e (Perm.trans (Perm.cons u (insert_task-perm t us)) (Perm.swap t u us))
  | inr e ↦ rw e (Perm.refl _)
]

sort-IsSorted : (ts : List Task) → IsSorted (sort_with_priority_and_launch_time ts)
unfolding sort_with_priority_and_launch_time
sort-IsSorted [] = tt
sort-IsSorted (t ∷ ts) = insert_task-IsSorted t _ (sort-IsSorted ts)

sort-perm : (ts : List Task) → Perm (sort_with_priority_and_launch_time ts) ts
unfolding sort_with_priority_and_launch_time
sort-perm [] = Perm.refl []
sort-perm (t ∷ ts) = Perm.trans (insert_task-perm t _) (Perm.cons t (sort-perm ts))

-- The sort returns the given tasks, each as often, ordered by priority and among equal priorities by
-- launch time, the youngest first.
pub sort_lem :
    (ts : List Task)
    → IsSorted (sort_with_priority_and_launch_time ts)
      × Perm (sort_with_priority_and_launch_time ts) ts
sort_lem ts = (sort-IsSorted ts, sort-perm ts)

All-sort {ℓ} :
    (P : Task → Type ℓ) (t : Task) (us : List Task) → P t → All P us → All P (insert_task t us)
unfolding insert_task
All-sort P t [] h k = (h, tt)
All-sort P t (u ∷ us) h k = elim (Bool-cases (less u t)) [
  | inl e ↦ rw e (k.0, All-sort P t us h k.1)
  | inr e ↦ rw e (h, k)
]

-- What holds of every task holds of every sorted one.
pub All-sort_with_priority {ℓ} :
    (P : Task → Type ℓ) (ts : List Task) → All P ts → All P (sort_with_priority_and_launch_time ts)
unfolding sort_with_priority_and_launch_time
All-sort_with_priority P [] h = h
All-sort_with_priority P (t ∷ ts) h = All-sort P t _ h.0 (All-sort_with_priority P ts h.1)
