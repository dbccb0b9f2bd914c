-- ===== src/Submission/BotManager/Slots.antt =====
-- How many bots the new entries of the distribution take.
use flux_backend.Common.{
  ℕ, suc, ◌+◌, ◌-◌, ◌*◌, ◌≤◌, ◌<◌, false, List, [], ◌∷◌, ◌≡◌, refl, arith, Text, Text_eq, ℕ_eq,
  ◌==◌, length, insert, Bool-cases, inl, inr, All,
}
use native.Mathlib.Omega.{div_any}
use native.Mathlib.Nat.{mod-lt}
use flux_backend.Submission.Model.{Bot, SlaveInfo}
use flux_backend.Submission.BotManager.{
  NyxSlaveDist, keep_last_bot, narrow_old, get_slaves, bots_per_slave, fresh_dist,
}

-- The slaves have different ids.
abbrev pub DistinctSlaves : List SlaveInfo → Type 0
DistinctSlaves [] = Unit
DistinctSlaves (i ∷ is) = All (λ j. (i.slave_id == j.slave_id) ≡ false) is × DistinctSlaves is

-- The entries have none of the ids to come.
abbrev pub Unused : List (ℕ × NyxSlaveDist) → SlaveInfo → Type 0
Unused cur j = All (λ e. (e.0 == j.slave_id) ≡ false) cur

insert-Unused :
    (i j : SlaveInfo) (d : NyxSlaveDist) (cur : List (ℕ × NyxSlaveDist))
    → (i.slave_id == j.slave_id) ≡ false
    → Unused cur j
    → Unused (insert i.slave_id d cur) j
unfolding insert
insert-Unused i j d [] ne h = (ne, tt)
insert-Unused i j d ((k, x) ∷ cur) ne h = elim (Bool-cases (k == i.slave_id)) [
  | inl y ↦ rw y (ne, h.1)
  | inr n ↦ rw n (h.0, insert-Unused i j d cur ne h.1)
]

insert-AllUnused :
    (i : SlaveInfo) (d : NyxSlaveDist) (cur : List (ℕ × NyxSlaveDist)) (js : List SlaveInfo)
    → All (λ j. (i.slave_id == j.slave_id) ≡ false) js
    → All (Unused cur) js
    → All (Unused (insert i.slave_id d cur)) js
insert-AllUnused i d cur [] ne h = tt
insert-AllUnused i d cur (j ∷ js) ne h =
    (insert-Unused i j d cur ne.0 h.0, insert-AllUnused i d cur js ne.1 h.1)

length-insert_new :
    (i : SlaveInfo) (d : NyxSlaveDist) (cur : List (ℕ × NyxSlaveDist))
    → Unused cur i
    → length (insert i.slave_id d cur) ≡ suc (length cur)
unfolding insert
length-insert_new i d [] h = refl
length-insert_new i d ((k, x) ∷ cur) h = ground (arith, h.0, length-insert_new i d cur h.1)

pub get_slaves-length :
    (old : List (ℕ × NyxSlaveDist)) (is : List SlaveInfo) (cur : List (ℕ × NyxSlaveDist))
    (bots : List (Text × Bot))
    → DistinctSlaves is
    → All (Unused cur) is
    → length (get_slaves old is cur bots).0 ≡ length is + length cur
unfolding get_slaves
get_slaves-length old [] cur bots ne h = omega arith
get_slaves-length old (i ∷ is) cur bots ne h = omega (
  arith,
  get_slaves-length (narrow_old i bots old) is (insert i.slave_id (fresh_dist i) cur)
      (keep_last_bot old i bots) ne.1 (insert-AllUnused i (fresh_dist i) cur is ne.0 h.1),
  length-insert_new i (fresh_dist i) cur h.0,
)

-- How many bots the entries still take.
abbrev pub capacity : ℕ → List (ℕ × NyxSlaveDist) → ℕ
capacity share [] = 0
capacity share (e ∷ ds) = (share - length e.1.bots) + capacity share ds

pub capacity-empty :
    (share : ℕ) (ds : List (ℕ × NyxSlaveDist))
    → All (λ e. length e.1.bots ≡ 0) ds
    → capacity share ds ≡ length ds * share
capacity-empty share [] h = omega arith
capacity-empty share (e ∷ ds) h = omega (arith, h.0, capacity-empty share ds h.1)

-- The shares of all slaves are enough for the bots.
pub shares_enough : (bots slaves : ℕ) → 0 < slaves → bots ≤ slaves * bots_per_slave bots slaves
shares_enough bots slaves h =
    let total = bots + slaves - 1 in omega (arith, div_any total slaves, mod-lt total h)

pub no_ids : (is : List SlaveInfo) → All (Unused []) is
no_ids [] = tt
no_ids (i ∷ is) = (tt, no_ids is)
