-- ===== src/Submission/BotManager/Index.antt =====
-- Which bots the loop over the slaves leaves in the index of refreshBots.
use flux_backend.Common.{
  ℕ, suc, ◌+◌, ◌≤◌, Bool, true, false, ◌&&◌, ◌||◌, none, some, Option, List, [], ◌∷◌, ◌≡◌, refl, ap,
  subst, arith, Text, Text_eq, ℕ_eq, ◌==◌, length, insert, erase, lookup, Bool-cases, Option-cases,
  inl, inr, All, any, map, is_some, if◌then◌else◌, eq_sound,
}
use flux_backend.Submission.Model.{Bot, SlaveInfo}
use flux_backend.Submission.BotManager.{
  NyxSlaveDist, keep_last_bot, narrow_old, get_slaves, all_bots, fresh_dist, last_bot,
}

-- The bot of the name is the one that the entry used last.
abbrev pub is_last : Text → Option Bot → Bool
is_last name none = false
is_last name (some b) = b.name == name

-- No entry used the bot of the name last.
abbrev pub Spares : Text → List (ℕ × NyxSlaveDist) → Type 0
Spares name old = All (λ e. is_last name (last_bot e.1) ≡ false) old

abbrev pub listed : Text → Text × Bot → Bool
listed name e = e.0 == name && e.1.name == name

insert-listed :
    (name : Text) (b : Bot) (m : List (Text × Bot))
    → any (listed name) (insert b.name b m) ≡ (b.name == name || any (listed name) m)
unfolding insert
insert-listed name b [] = ground arith
insert-listed name b ((k, x) ∷ m) = elim (Bool-cases (k == b.name)) [
  | inl y ↦
      let same : (k == name) ≡ (b.name == name) = ap (λ z. z == name) (eq_sound k b.name y) in
      rw y (ground (arith, same))
  | inr n ↦ rw n (ground (arith, insert-listed name b m))
]

erase-listed :
    (name a : Text) (m : List (Text × Bot))
    → (a == name) ≡ false
    → any (listed name) m ≡ true
    → any (listed name) (erase a m) ≡ true
unfolding erase
erase-listed name a [] ne h = h
erase-listed name a ((k, x) ∷ m) ne h = elim (Bool-cases (k == a)) [
  | inl y ↦
      let same : (k == name) ≡ (a == name) = ap (λ z. z == name) (eq_sound k a y) in
      rw y (ground (arith, same, ne, erase-listed name a m ne))
  | inr n ↦ rw n (ground (arith, erase-listed name a m ne))
]

pub all_bots-listed :
    (name : Text) (bs : List Bot) (m : List (Text × Bot))
    → (any (λ b. b.name == name) bs || any (listed name) m) ≡ true
    → any (listed name) (all_bots bs m) ≡ true
all_bots-listed name [] m h = h
all_bots-listed name (b ∷ bs) m h =
    all_bots-listed name bs (insert b.name b m) (ground (arith, insert-listed name b m))

lookup-Spares :
    (name : Text) (id : ℕ) (old : List (ℕ × NyxSlaveDist)) (d : NyxSlaveDist)
    → Spares name old
    → lookup id old ≡ some d
    → is_last name (last_bot d) ≡ false
unfolding lookup
lookup-Spares name id [] d s h = absurd cc
lookup-Spares name id ((k, x) ∷ old) d s h = elim (Bool-cases (k == id)) [
  | inl y ↦
      let same : some x ≡ some d =
        subst (λ (b : Bool). (if b then some x else lookup id old) ≡ some d) y h in
      let is : x ≡ d = cc in subst (λ z. is_last name (last_bot z) ≡ false) is s.0
  | inr n ↦
      lookup-Spares name id old d s.1
        (subst (λ (b : Bool). (if b then some x else lookup id old) ≡ some d) n h)
]

insert-Spares :
    (name : Text) (id : ℕ) (d : NyxSlaveDist) (old : List (ℕ × NyxSlaveDist))
    → is_last name (last_bot d) ≡ false
    → Spares name old
    → Spares name (insert id d old)
unfolding insert
insert-Spares name id d [] h s = (h, tt)
insert-Spares name id d ((k, x) ∷ old) h s = elim (Bool-cases (k == id)) [
  | inl y ↦ rw y (h, s.1)
  | inr n ↦ rw n (s.0, insert-Spares name id d old h s.1)
]

keep_last_bot-listed :
    (name : Text) (old : List (ℕ × NyxSlaveDist)) (i : SlaveInfo) (bots : List (Text × Bot))
    → Spares name old
    → any (listed name) bots ≡ true
    → any (listed name) (keep_last_bot old i bots) ≡ true
unfolding keep_last_bot
keep_last_bot-listed name old i bots s h = elim (Option-cases (lookup i.slave_id old)) [
  | inl n ↦ rw (n, keep_last_bot) h
  | inr (d, found) ↦ elim (Option-cases (last_bot d)) [
    | inl n ↦ rw (found, keep_last_bot) (rw n h)
    | inr (prev, f) ↦
        let ne : (prev.name == name) ≡ false =
          subst (λ o. is_last name o ≡ false) f (lookup-Spares name i.slave_id old d s found) in
        elim (Bool-cases (is_some (lookup prev.name bots))) [
          | inl y ↦ rw (found, keep_last_bot) (rw f (rw y (erase-listed name prev.name bots ne h)))
          | inr n ↦ rw (found, keep_last_bot) (rw f (rw n h))
        ]
  ]
]

narrow_old-Spares :
    (name : Text) (i : SlaveInfo) (bots : List (Text × Bot)) (old : List (ℕ × NyxSlaveDist))
    → Spares name old
    → Spares name (narrow_old i bots old)
unfolding narrow_old
narrow_old-Spares name i bots old s = elim (Option-cases (lookup i.slave_id old)) [
  | inl n ↦ rw (n, narrow_old) s
  | inr (d, found) ↦ elim (Option-cases (last_bot d)) [
    | inl n ↦ rw (found, narrow_old) (rw n s)
    | inr (prev, f) ↦
        let ne : (prev.name == name) ≡ false =
          subst (λ o. is_last name o ≡ false) f (lookup-Spares name i.slave_id old d s found) in
        elim (Bool-cases (is_some (lookup prev.name bots))) [
          | inl y ↦ rw (found, narrow_old) (rw f (rw y (insert-Spares name i.slave_id _ old ne s)))
          | inr n ↦ rw (found, narrow_old) (rw f (rw n s))
        ]
  ]
]

pub get_slaves-listed :
    (name : Text) (old : List (ℕ × NyxSlaveDist)) (is : List SlaveInfo)
    (cur : List (ℕ × NyxSlaveDist)) (bots : List (Text × Bot))
    → Spares name old
    → any (listed name) bots ≡ true
    → any (listed name) (get_slaves old is cur bots).1 ≡ true
unfolding get_slaves
get_slaves-listed name old [] cur bots s h = h
get_slaves-listed name old (i ∷ is) cur bots s h =
    get_slaves-listed name (narrow_old i bots old) is (insert i.slave_id (fresh_dist i) cur)
      (keep_last_bot old i bots) (narrow_old-Spares name i bots old s)
      (keep_last_bot-listed name old i bots s h)

length-insert_le : (b : Bot) (m : List (Text × Bot)) → length (insert b.name b m) ≤ suc (length m)
unfolding insert
length-insert_le b [] = omega arith
length-insert_le b ((k, x) ∷ m) = ground (arith, length-insert_le b m)

pub length-all_bots :
    (bs : List Bot) (m : List (Text × Bot)) → length (all_bots bs m) ≤ length bs + length m
length-all_bots [] m = omega arith
length-all_bots (b ∷ bs) m =
    omega (arith, length-all_bots bs (insert b.name b m), length-insert_le b m)

length-erase_le : (a : Text) (m : List (Text × Bot)) → length (erase a m) ≤ length m
unfolding erase
length-erase_le a [] = omega arith
length-erase_le a ((k, x) ∷ m) = ground (arith, length-erase_le a m)

length-keep_last_bot :
    (old : List (ℕ × NyxSlaveDist)) (i : SlaveInfo) (bots : List (Text × Bot))
    → length (keep_last_bot old i bots) ≤ length bots
unfolding keep_last_bot
length-keep_last_bot old i bots = elim (Option-cases (lookup i.slave_id old)) [
  | inl n ↦ rw (n, keep_last_bot) (omega arith)
  | inr (d, found) ↦ elim (Option-cases (last_bot d)) [
    | inl n ↦ rw (found, keep_last_bot) (rw n (omega arith))
    | inr (prev, f) ↦ elim (Bool-cases (is_some (lookup prev.name bots))) [
      | inl y ↦ rw (found, keep_last_bot) (rw f (rw y (length-erase_le prev.name bots)))
      | inr n ↦ rw (found, keep_last_bot) (rw f (rw n (omega arith)))
    ]
  ]
]

pub length-get_slaves :
    (old : List (ℕ × NyxSlaveDist)) (is : List SlaveInfo) (cur : List (ℕ × NyxSlaveDist))
    (bots : List (Text × Bot))
    → length (get_slaves old is cur bots).1 ≤ length bots
unfolding get_slaves
length-get_slaves old [] cur bots = omega arith
length-get_slaves old (i ∷ is) cur bots = omega (
  arith,
  length-get_slaves (narrow_old i bots old) is (insert i.slave_id (fresh_dist i) cur)
      (keep_last_bot old i bots),
  length-keep_last_bot old i bots,
)

pub map-listed :
    (name : Text) (m : List (Text × Bot))
    → any (listed name) m ≡ true
    → any (λ b. b.name == name) (map (λ e. e.1) m) ≡ true
map-listed name [] h = h
map-listed name (e ∷ m) h = ground (arith, map-listed name m)

pub length-map_bots : (m : List (Text × Bot)) → length (map (λ e. e.1) m) ≡ length m
length-map_bots [] = refl
length-map_bots (e ∷ m) = omega (arith, length-map_bots m)
