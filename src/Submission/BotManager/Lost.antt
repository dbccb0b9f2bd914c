-- ===== src/Submission/BotManager/Lost.antt =====
-- What becomes of the bot that a slave used last, when the bots are distributed anew.
use flux_backend.Common.{
  ℕ, zero, suc, ◌-◌, true, false, some, List, [], ◌∷◌, map, ◌≡◌, refl, sym, subst, arith, Text,
  Text_eq, ℕ_eq, ◌==◌, length, is_some, lookup, insert, erase, Bool-cases, Option-cases, inl, inr,
  All, All-append, take, drop,
}
use flux_backend.Submission.Model.{Bot, SlaveInfo}
use flux_backend.Submission.BotManager.{
  NyxSlaveDist, keep_last_bot, narrow_old, get_slaves, distribute, new_distribution, all_bots,
  last_bot, fresh_dist,
}
use flux_backend.Submission.BotManager.Distribution.{get_slaves-All}
use flux_backend.Submission.BotManager.Stopping.{HasNot}

-- The bots are indexed by their names.
abbrev Keyed : List (Text × Bot) → Type 0
Keyed m = All (λ e. e.1.name ≡ e.0) m

-- The index has no bot of this name.
abbrev Without : Text → List (Text × Bot) → Type 0
Without name m = All (λ e. (e.1.name == name) ≡ false) m

insert-Keyed : (b : Bot) (m : List (Text × Bot)) → Keyed m → Keyed (insert b.name b m)
unfolding insert
insert-Keyed b [] h = (refl, tt)
insert-Keyed b ((k, x) ∷ m) h = elim (Bool-cases (k == b.name)) [
  | inl e ↦ rw (e, insert) (refl, h.1)
  | inr e ↦ rw (e, insert) (h.0, insert-Keyed b m h.1)
]

all_bots-Keyed : (bs : List Bot) (m : List (Text × Bot)) → Keyed m → Keyed (all_bots bs m)
all_bots-Keyed [] m h = h
all_bots-Keyed (b ∷ bs) m h = all_bots-Keyed bs (insert b.name b m) (insert-Keyed b m h)

erase-Without : (name : Text) (m : List (Text × Bot)) → Keyed m → Without name (erase name m)
unfolding erase
erase-Without name [] h = tt
erase-Without name ((k, x) ∷ m) h = elim (Bool-cases (k == name)) [
  | inl e ↦ rw (e, erase) (erase-Without name m h.1)
  | inr e ↦ rw (e, erase) (subst (λ y. (y == name) ≡ false) (sym h.0) e, erase-Without name m h.1)
]

-- What is taken out later leaves the index without the name.
still_Without :
    (name other : Text) (m : List (Text × Bot)) → Without name m → Without name (erase other m)
unfolding erase
still_Without name other [] h = tt
still_Without name other ((k, x) ∷ m) h = elim (Bool-cases (k == other)) [
  | inl e ↦ rw (e, erase) (still_Without name other m h.1)
  | inr e ↦ rw (e, erase) (h.0, still_Without name other m h.1)
]

keep_last_bot-Without :
    (name : Text) (old : List (ℕ × NyxSlaveDist)) (info : SlaveInfo) (m : List (Text × Bot))
    → Without name m
    → Without name (keep_last_bot old info m)
unfolding keep_last_bot
keep_last_bot-Without name old info m h = elim (Option-cases (lookup info.slave_id old)) [
  | inl e ↦ rw (e, keep_last_bot) h
  | inr (d, e) ↦ elim (Option-cases (last_bot d)) [
    | inl f ↦ rw (e, keep_last_bot) (rw f h)
    | inr (prev, f) ↦ elim (Bool-cases (is_some (lookup prev.name m))) [
      | inl g ↦ rw (e, keep_last_bot) (rw f (rw g (still_Without name prev.name m h)))
      | inr g ↦ rw (e, keep_last_bot) (rw f (rw g h))
    ]
  ]
]

get_slaves-Without :
    (name : Text) (old : List (ℕ × NyxSlaveDist)) (infos : List SlaveInfo)
    (cur : List (ℕ × NyxSlaveDist)) (m : List (Text × Bot))
    → Without name m
    → Without name (get_slaves old infos cur m).1
unfolding get_slaves
get_slaves-Without name old [] cur m h = h
get_slaves-Without name old (i ∷ is) cur m h =
    get_slaves-Without name (narrow_old i m old) is (insert i.slave_id (fresh_dist i) cur)
      (keep_last_bot old i m) (keep_last_bot-Without name old i m h)

abbrev None : Text → List Bot → Type 0
None name bs = All (λ b. (b.name == name) ≡ false) bs

bots-None : (name : Text) (m : List (Text × Bot)) → Without name m → None name (map (λ e. e.1) m)
bots-None name [] h = tt
bots-None name (e ∷ m) h = (h.0, bots-None name m h.1)

take-None : (name : Text) (n : ℕ) (bs : List Bot) → None name bs → None name (take n bs)
take-None name zero bs h = tt
take-None name (suc n) [] h = tt
take-None name (suc n) (b ∷ bs) h = (h.0, take-None name n bs h.1)

drop-None : (name : Text) (n : ℕ) (bs : List Bot) → None name bs → None name (drop n bs)
drop-None name zero bs h = h
drop-None name (suc n) [] h = tt
drop-None name (suc n) (b ∷ bs) h = drop-None name n bs h.1

distribute-HasNot :
    (name : Text) (share : ℕ) (ds : List (ℕ × NyxSlaveDist)) (rem : List Bot)
    → All (λ e. HasNot name e.1) ds
    → None name rem
    → All (λ e. HasNot name e.1) (distribute share ds rem)
unfolding distribute
distribute-HasNot name share [] rem h k = tt
distribute-HasNot name share ((id, d) ∷ ds) rem h k =
    let room = share - length d.bots in
    (
      All-append (λ b. (b.name == name) ≡ false) d.bots (take room rem) h.0
          (take-None name room rem k),
      distribute-HasNot name share ds (drop room rem) h.1 (drop-None name room rem k),
    )

-- A slave that stays, and whose last used bot stays too, loses that bot, and no other slave gets it: if
-- there are bots, the slave comes first, and the old distribution names the bot as its last used one,
-- then no slave of the new distribution has a bot of that name.
pub new_distribution_loses :
    (old : List (ℕ × NyxSlaveDist)) (bots : List Bot) (info : SlaveInfo) (infos : List SlaveInfo)
    (d : NyxSlaveDist) (prev : Bot)
    → lookup info.slave_id old ≡ some d
    → last_bot d ≡ some prev
    → is_some (lookup prev.name (all_bots bots [])) ≡ true
    → (length bots == 0) ≡ false
    → All (λ e. HasNot prev.name e.1) (new_distribution old bots (info ∷ infos))
unfolding new_distribution get_slaves
new_distribution_loses old bots info infos d prev was used stays some_bots =
    let index = all_bots bots [] in
    let taken : Without prev.name (keep_last_bot old info index) =
      unfold keep_last_bot in
      rw (was, keep_last_bot)
        (rw used (rw stays (erase-Without prev.name index (all_bots-Keyed bots [] tt)))) in
    let more : (length (info ∷ infos) == 0) ≡ false = ground arith in
    rw (more, some_bots)
      (distribute-HasNot prev.name _ _ _
        (get_slaves-All (HasNot prev.name) (λ i. tt) old (info ∷ infos) [] index tt)
        (bots-None prev.name _ (
          get_slaves-Without prev.name (narrow_old info index old) infos _
            (keep_last_bot old info index) taken)))
