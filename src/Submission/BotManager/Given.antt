-- ===== src/Submission/BotManager/Given.antt =====
-- The bots that the distribution gives out.
use flux_backend.Common.{
  ℕ, zero, suc, ◌-◌, ◌*◌, ◌≤◌, ◌<◌, Bool, true, false, ◌||◌, List, [], ◌∷◌, ◌++◌, ◌≡◌, refl, ap,
  ◌∙◌, arith, Text, Text_eq, ℕ_eq, ◌==◌, length, Bool-cases, inl, inr, All, take, drop, any, map,
}
use flux_backend.Submission.Model.{Bot, SlaveInfo}
use flux_backend.Submission.BotManager.{
  NyxSlaveDist, get_slaves, distribute, new_distribution, all_bots, bots_per_slave,
}
use flux_backend.Submission.BotManager.Distribution.{get_slaves-All, new_distribution_share}
use flux_backend.Submission.BotManager.Index.{
  Spares, get_slaves-listed, all_bots-listed, length-all_bots, length-get_slaves, map-listed,
  length-map_bots,
}
use flux_backend.Submission.BotManager.Slots.{
  DistinctSlaves, capacity, capacity-empty, get_slaves-length, shares_enough, no_ids,
}

any-split {ℓ} :
    {A : Type ℓ} (p : A → Bool) (k : ℕ) (xs : List A)
    → any p xs ≡ (any p (take k xs) || any p (drop k xs))
any-split p zero xs = refl
any-split p (suc k) [] = refl
any-split p (suc k) (x ∷ xs) = ground (arith, any-split p k xs)

any-append {ℓ} :
    {A : Type ℓ} (p : A → Bool) (xs ys : List A) → any p (xs ++ ys) ≡ (any p xs || any p ys)
any-append p [] ys = refl
any-append p (x ∷ xs) ys = ground (arith, any-append p xs ys)

length-drop {ℓ} : {A : Type ℓ} (k : ℕ) (xs : List A) → length (drop k xs) ≡ length xs - k
length-drop zero xs = omega arith
length-drop (suc k) [] = omega arith
length-drop (suc k) (x ∷ xs) = omega (arith, length-drop k xs)

-- A bot of the name is given to a slave.
abbrev pub is_given : Text → List (ℕ × NyxSlaveDist) → Bool
is_given name ds = any (λ e. any (λ b. b.name == name) e.1.bots) ds

distribute-given :
    (name : Text) (share : ℕ) (ds : List (ℕ × NyxSlaveDist)) (rem : List Bot)
    → length rem ≤ capacity share ds
    → any (λ b. b.name == name) rem ≡ true
    → is_given name (distribute share ds rem) ≡ true
unfolding distribute
distribute-given name share [] [] le h = absurd cc
distribute-given name share [] (x ∷ xs) le h = absurd (omega arith)
distribute-given name share ((id, d) ∷ ds) rem le h =
    let p : Bot → Bool = λ b. b.name == name in
    let k = share - length d.bots in
    let split = any-append p d.bots (take k rem) in
    elim (Bool-cases (any p (take k rem))) [
      | inl y ↦ ground (arith, split, y)
      | inr n ↦
          let rest =
            distribute-given name share ds (drop k rem) (omega (arith, length-drop k rem))
              (ground (arith, any-split p k rem, n)) in
          ground (arith, rest)
    ]

distribution-given :
    (name : Text) (old : List (ℕ × NyxSlaveDist)) (bots : List Bot) (slaves : List SlaveInfo)
    → 0 < length slaves
    → DistinctSlaves slaves
    → Spares name old
    → any (λ b. b.name == name) bots ≡ true
    → is_given name (
        distribute
          (bots_per_slave (length bots) (length slaves))
          (get_slaves old slaves [] (all_bots bots [])).0
          (map (λ e. e.1) (get_slaves old slaves [] (all_bots bots [])).1))
      ≡ true
distribution-given name old bots slaves some_slave distinct spares has =
    let share = bots_per_slave (length bots) (length slaves) in
    let index = all_bots bots [] in
    let cur = (get_slaves old slaves [] index).0 in
    let rem = (get_slaves old slaves [] index).1 in
    let slots : length cur * share ≡ length slaves * share =
      ap (λ n. n * share)
        (get_slaves-length old slaves [] index distinct (no_ids slaves) ∙ omega arith) in
    let few : length (map (λ e. e.1) rem) ≤ length bots = omega (
      arith,
      length-map_bots rem,
      length-get_slaves old slaves [] index,
      length-all_bots bots [],
    ) in
    let room : capacity share cur ≡ length cur * share =
      capacity-empty share cur
        (get_slaves-All (λ d. length d.bots ≡ 0) (λ i. refl) old slaves [] index tt) in
    distribute-given name share cur (map (λ e. e.1) rem)
      (omega (arith, slots, few, room, shares_enough (length bots) (length slaves) some_slave))
      (map-listed name rem (
        get_slaves-listed name old slaves [] index spares
          (all_bots-listed name bots [] (ground (arith, has)))))

new_distribution-some :
    (old : List (ℕ × NyxSlaveDist)) (b : Bot) (bots : List Bot) (i : SlaveInfo)
    (is : List SlaveInfo)
    → new_distribution old (b ∷ bots) (i ∷ is)
      ≡ distribute
          (bots_per_slave (length (b ∷ bots)) (length (i ∷ is)))
          (get_slaves old (i ∷ is) [] (all_bots (b ∷ bots) [])).0
          (map (λ e. e.1) (get_slaves old (i ∷ is) [] (all_bots (b ∷ bots) [])).1)
unfolding new_distribution
new_distribution-some old b bots i is =
    let slaves : (length (i ∷ is) == 0) ≡ false = ground arith in
    let some_bots : (length (b ∷ bots) == 0) ≡ false = ground arith in rw slaves (rw some_bots refl)

-- When there are slaves, which have different ids, a bot that no entry of the old distribution used last
-- is given to a slave, and no slave gets more than the share, the number of bots over the number of
-- slaves, rounded up.
pub new_distribution_gives :
    (name : Text) (old : List (ℕ × NyxSlaveDist)) (bots : List Bot) (slaves : List SlaveInfo)
    → 0 < length slaves
    → DistinctSlaves slaves
    → Spares name old
    → any (λ b. b.name == name) bots ≡ true
    → (is_given name (new_distribution old bots slaves) ≡ true)
      × All
          (λ e. length e.1.bots ≤ bots_per_slave (length bots) (length slaves))
          (new_distribution old bots slaves)
new_distribution_gives name old [] slaves some_slave distinct spares has = absurd cc
new_distribution_gives name old (b ∷ bots) [] some_slave distinct spares has = absurd (omega arith)
new_distribution_gives name old (b ∷ bots) (i ∷ is) some_slave distinct spares has = (
  ap (is_given name) (new_distribution-some old b bots i is)
      ∙ distribution-given name old (b ∷ bots) (i ∷ is) some_slave distinct spares has,
  new_distribution_share old (b ∷ bots) (i ∷ is),
)
