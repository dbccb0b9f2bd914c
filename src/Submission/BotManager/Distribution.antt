-- ===== src/Submission/BotManager/Distribution.antt =====
-- The distribution of the bots over the slaves.
use flux_backend.Common.{
  ℕ, zero, suc, ◌-◌, ◌≤◌, List, [], ◌∷◌, arith, Text, Text_eq, ℕ_eq, ◌==◌, length, length-append,
  insert, Bool-cases, inl, inr, All, take, drop,
}
use flux_backend.Common.Int.{ℤ}
use flux_backend.Submission.Model.{Bot, SlaveInfo}
use flux_backend.Submission.BotManager.{
  NyxSlaveDist, keep_last_bot, narrow_old, get_slaves, distribute, new_distribution, all_bots,
  bots_per_slave, fresh_dist, empty_dists,
}

length-take-le {ℓ} : {A : Type ℓ} (n : ℕ) (xs : List A) → length (take n xs) ≤ n
length-take-le zero xs = omega arith
length-take-le (suc n) [] = omega arith
length-take-le (suc n) (x ∷ xs) = omega (arith, length-take-le n xs)

-- Every entry is below the share already, before the bots are given out.
abbrev Fits : ℕ → List (ℕ × NyxSlaveDist) → Type 0
Fits share ds = All (λ e. length e.1.bots ≤ share) ds

distribute-Fits :
    (share : ℕ) (ds : List (ℕ × NyxSlaveDist)) (rem : List Bot)
    → Fits share ds
    → Fits share (distribute share ds rem)
unfolding distribute
distribute-Fits share [] rem h = tt
distribute-Fits share ((id, d) ∷ ds) rem h = (
  omega (
    arith,
    length-append d.bots (take (share - length d.bots) rem),
    length-take-le (share - length d.bots) rem,
    h.0,
  ),
  distribute-Fits share ds (drop (share - length d.bots) rem) h.1,
)

All-insert :
    (P : NyxSlaveDist → Type 0) (id : ℕ) (d : NyxSlaveDist) (m : List (ℕ × NyxSlaveDist))
    → P d
    → All (λ e. P e.1) m
    → All (λ e. P e.1) (insert id d m)
unfolding insert
All-insert P id d [] h k = (h, tt)
All-insert P id d ((j, x) ∷ m) h k = elim (Bool-cases (j == id)) [
  | inl e ↦ rw e (h, k.1)
  | inr e ↦ rw e (k.0, All-insert P id d m h k.1)
]

-- The new entries start without bots.
pub get_slaves-All :
    (P : NyxSlaveDist → Type 0) (fresh : (i : SlaveInfo) → P (fresh_dist i))
    (old : List (ℕ × NyxSlaveDist)) (infos : List SlaveInfo) (cur : List (ℕ × NyxSlaveDist))
    (bots : List (Text × Bot))
    → All (λ e. P e.1) cur
    → All (λ e. P e.1) (get_slaves old infos cur bots).0
unfolding get_slaves
get_slaves-All P fresh old [] cur bots h = h
get_slaves-All P fresh old (i ∷ is) cur bots h =
    get_slaves-All P fresh (narrow_old i bots old) is (insert i.slave_id (fresh_dist i) cur)
      (keep_last_bot old i bots) (All-insert P i.slave_id (fresh_dist i) cur (fresh i) h)

empty_dists-All :
    (P : NyxSlaveDist → Type 0)
    → ((i : SlaveInfo) → P (record { slave_info = i; bots = []; last_used_bot = ℤ.pos 0 }))
    → (is : List SlaveInfo) (m : List (ℕ × NyxSlaveDist)) → All (λ e. P e.1) m
    → All (λ e. P e.1) (empty_dists is m)
unfolding empty_dists
empty_dists-All P fresh [] m h = h
empty_dists-All P fresh (i ∷ is) m h =
    empty_dists-All P fresh is _ (All-insert P i.slave_id _ m (fresh i) h)

-- No slave gets more than the share, the number of bots over the number of slaves, rounded up.
pub new_distribution_share :
    (old : List (ℕ × NyxSlaveDist)) (bots : List Bot) (slaves : List SlaveInfo)
    → All
        (λ e. length e.1.bots ≤ bots_per_slave (length bots) (length slaves))
        (new_distribution old bots slaves)
unfolding new_distribution
new_distribution_share old bots slaves = elim (Bool-cases (length slaves == 0)) [
  | inl e ↦ rw e tt
  | inr e ↦ elim (Bool-cases (length bots == 0)) [
    | inl f ↦ rw e (rw f (empty_dists-All _ (λ i. omega arith) slaves [] tt))
    | inr f ↦ rw e (
        rw f (
          distribute-Fits _ _ _ (
            get_slaves-All (λ d. length d.bots ≤ bots_per_slave (length bots) (length slaves))
              (λ i. omega arith) old slaves [] (all_bots bots []) tt)))
  ]
]
