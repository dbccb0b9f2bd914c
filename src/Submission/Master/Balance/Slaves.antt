-- ===== src/Submission/Master/Balance/Slaves.antt =====
-- The counts of the slaves, when one submission is added or taken away.
use flux_backend.Common.{
  ℕ, zero, suc, ◌+◌, ◌≤◌, ◌<◌, Bool, true, false, Option, none, some, List, [], ◌∷◌, ◌≡◌, refl, sym,
  ap, ◌∙◌, arith, Text_eq, ℕ_eq, ◌==◌, length, get_elem?, is_some, lookup, insert, erase,
  if◌then◌else◌, Bool-cases, inl, inr, eq_sound, eq_refl, All, All-imp, All-keep_if, keep_if, subst,
}
use flux_backend.Common.Int.{ℤ, ◌+ℤ◌, ◌-ℤ◌, add32, sub32, wrap32}
use flux_backend.Submission.Model.{MailId}
use flux_backend.Submission.Master.{
  Slave, NyxActSub, get_slave_by_mail_id, update_at, one_more, one_less, update_slave,
}
use flux_backend.Submission.Master.Balance.Counting.{
  weight, count, DistinctKeys, DistinctIds, Counts, count-insert, count-erase, id-ne_symm,
}

-- One submission more at the slave `id`.
abbrev pub More : MailId → List (ℕ × NyxActSub) → List (ℕ × NyxActSub) → Slave → Type 0
More id es es' t = count t.mail_id es' ≡ count t.mail_id es + (if id == t.mail_id then 1 else 0)

abbrev pub Fewer : MailId → List (ℕ × NyxActSub) → List (ℕ × NyxActSub) → Slave → Type 0
Fewer id es es' t = count t.mail_id es' + (if id == t.mail_id then 1 else 0) ≡ count t.mail_id es

pub get_elem?-All :
    (P : Slave → Type 0) (xs : List Slave) (i : ℕ) (s : Slave)
    → All P xs
    → get_elem? xs i ≡ some s
    → P s
get_elem?-All P [] i s h e = absurd cc
get_elem?-All P (x ∷ xs) zero s h e = subst P (ap (λ o. elim o [ none ↦ x | some y ↦ y ]) e) h.0
get_elem?-All P (x ∷ xs) (suc i) s h e = get_elem?-All P xs i s h.1 e

-- The int32 of a count does not overflow while the active submissions are fewer than 2^31 - 1.
abbrev pub Few : List (ℕ × NyxActSub) → Type 0
Few es = length es < 2147483647

pub count-le : (id : MailId) (es : List (ℕ × NyxActSub)) → count id es ≤ length es
unfolding count
count-le id [] = omega arith
count-le id ((k, a) ∷ es) = ground (arith, count-le id es)

pub pos-add_one : (z : ℤ) (n : ℕ) → n < 2147483647 → z ≡ ℤ.pos n → add32 z (ℤ.pos 1) ≡ ℤ.pos (n + 1)
unfolding ◌+ℤ◌ wrap32
pos-add_one z n small e = rw e (ground arith)

pub pos-sub_one : (z : ℤ) (n : ℕ) → n < 2147483647 → z ≡ ℤ.pos (n + 1) → sub32 z (ℤ.pos 1) ≡ ℤ.pos n
unfolding ◌-ℤ◌ wrap32
pos-sub_one z n small e = rw e (ground arith)

pub kept :
    (id : MailId) (es es' : List (ℕ × NyxActSub)) (t : Slave)
    → (id == t.mail_id) ≡ false
    → More id es es' t
    → Counts es t
    → Counts es' t
kept id es es' t ne more c = ground (arith)

pub kept_each :
    (id : MailId) (es es' : List (ℕ × NyxActSub)) (xs : List Slave)
    → All (λ t. (t.mail_id == id) ≡ false) xs
    → All (More id es es') xs
    → All (Counts es) xs
    → All (Counts es') xs
kept_each id es es' [] ne more c = tt
kept_each id es es' (x ∷ xs) ne more c = (
  kept id es es' x (id-ne_symm x.mail_id id ne.0) more.0 c.0,
  kept_each id es es' xs ne.1 more.1 c.1,
)

pub raised :
    (es es' : List (ℕ × NyxActSub)) (s : Slave)
    → Few es
    → More s.mail_id es es' s
    → Counts es s
    → Counts es' (one_more s)
raised es es' s few more c =
    let self = eq_refl s.mail_id in
    let n : count s.mail_id es' ≡ count s.mail_id es + 1 = ground arith in
    pos-add_one s.num_act_subs (count s.mail_id es) (omega (arith, count-le s.mail_id es)) c
    ∙ ap ℤ.pos (sym n)

pub update_at-Counts :
    (es es' : List (ℕ × NyxActSub)) (xs : List Slave) (i : ℕ) (s : Slave)
    → Few es
    → get_elem? xs i ≡ some s
    → DistinctIds xs
    → All (More s.mail_id es es') xs
    → All (Counts es) xs
    → All (Counts es') (update_at i one_more xs)
unfolding update_at DistinctIds
update_at-Counts es es' [] i s few e d more c = tt
update_at-Counts es es' (x ∷ xs) zero s few e d more c =
    let x=s : x ≡ s = ap (λ o. elim o [ none ↦ x | some y ↦ y ]) e in
    let more' = subst (λ y. All (More y.mail_id es es') (x ∷ xs)) (sym x=s) more in
    (raised es es' x few more'.0 c.0, kept_each x.mail_id es es' xs d.0 more'.1 c.1)
update_at-Counts es es' (x ∷ xs) (suc i) s few e d more c =
    let ne = get_elem?-All (λ t. (t.mail_id == x.mail_id) ≡ false) xs i s d.0 e in
    (kept s.mail_id es es' x ne more.0 c.0, update_at-Counts es es' xs i s few e d.1 more.1 c.1)

pub update_at-ne :
    (id : MailId) (i : ℕ) (xs : List Slave)
    → All (λ t. (t.mail_id == id) ≡ false) xs
    → All (λ t. (t.mail_id == id) ≡ false) (update_at i one_more xs)
unfolding update_at
update_at-ne id i [] h = tt
update_at-ne id zero (x ∷ xs) h = h
update_at-ne id (suc i) (x ∷ xs) h = (h.0, update_at-ne id i xs h.1)

pub update_at-DistinctIds :
    (i : ℕ) (xs : List Slave) → DistinctIds xs → DistinctIds (update_at i one_more xs)
unfolding update_at DistinctIds
update_at-DistinctIds i [] d = tt
update_at-DistinctIds zero (x ∷ xs) d = d
update_at-DistinctIds (suc i) (x ∷ xs) d =
    (update_at-ne x.mail_id i xs d.0, update_at-DistinctIds i xs d.1)

pub weight-ne : (id : MailId) (a : NyxActSub) → (id == a.slave_id) ≡ false → weight id (some a) ≡ 0
weight-ne id a h = rw (id-ne_symm id a.slave_id h) refl

pub find-none :
    (id : MailId) (xs : List Slave)
    → is_some (get_slave_by_mail_id xs id) ≡ false
    → All (λ t. (t.mail_id == id) ≡ false) xs
find-none id [] h = tt
find-none id (x ∷ xs) h = elim (Bool-cases (x.mail_id == id)) [
  | inl e ↦ absurd (ground arith)
  | inr e ↦ (e, find-none id xs (ground arith))
]

-- The entry that a request replaces, if any, counts for no slave that exists.
pub replaced :
    (xs : List Slave) (o : Option NyxActSub)
    → elim o [ none ↦ false | some act ↦ is_some (get_slave_by_mail_id xs act.slave_id) ] ≡ false
    → All (λ t. weight t.mail_id o ≡ 0) xs
replaced [] none h = tt
replaced (x ∷ xs) none h = (refl, replaced xs none h)
replaced xs (some a) h = All-imp (λ t ne. weight-ne t.mail_id a ne) xs (find-none a.slave_id xs h)

-- Who got the new entry has one submission more, the other slaves as many as before.
pub request-More :
    (id : MailId) (k : ℕ) (a : NyxActSub) (es : List (ℕ × NyxActSub)) (xs : List Slave)
    → a.slave_id ≡ id
    → All (λ t. weight t.mail_id (lookup k es) ≡ 0) xs
    → All (More id es (insert k a es)) xs
request-More id k a es xs e h =
    All-imp
      (λ t z.
        let c = count-insert t.mail_id k a es in
        let w : weight t.mail_id (some a) ≡ (if id == t.mail_id then 1 else 0) =
          ap (λ x. if x == t.mail_id then 1 else 0) e in
        omega arith)
      xs h

pub erase-Fewer :
    (act : NyxActSub) (es : List (ℕ × NyxActSub))
    → lookup act.submission_id es ≡ some act
    → DistinctKeys es
    → (xs : List Slave) → All (Fewer act.slave_id es (erase act.submission_id es)) xs
erase-Fewer act es e keys [] = tt
erase-Fewer act es e keys (x ∷ xs) =
    let w : weight x.mail_id (lookup act.submission_id es)
        ≡ (if act.slave_id == x.mail_id then 1 else 0) =
      rw e refl in
    let c = count-erase x.mail_id act.submission_id es keys in
    (omega arith, erase-Fewer act es e keys xs)

pub kept_less :
    (id : MailId) (es es' : List (ℕ × NyxActSub)) (t : Slave)
    → (id == t.mail_id) ≡ false
    → Fewer id es es' t
    → Counts es t
    → Counts es' t
kept_less id es es' t ne fewer c = ground arith

pub kept_less_each :
    (id : MailId) (es es' : List (ℕ × NyxActSub)) (xs : List Slave)
    → All (λ t. (t.mail_id == id) ≡ false) xs
    → All (Fewer id es es') xs
    → All (Counts es) xs
    → All (Counts es') xs
kept_less_each id es es' [] ne fewer c = tt
kept_less_each id es es' (x ∷ xs) ne fewer c = (
  kept_less id es es' x (id-ne_symm x.mail_id id ne.0) fewer.0 c.0,
  kept_less_each id es es' xs ne.1 fewer.1 c.1,
)

pub lowered :
    (id : MailId) (es es' : List (ℕ × NyxActSub)) (s : Slave)
    → Few es
    → (s.mail_id == id) ≡ true
    → Fewer id es es' s
    → Counts es s
    → Counts es' (one_less s)
lowered id es es' s few same fewer c =
    let swap : (id == s.mail_id) ≡ true =
      subst (λ x. (x == s.mail_id) ≡ true) (eq_sound s.mail_id id same) (eq_refl s.mail_id) in
    let n : count s.mail_id es ≡ count s.mail_id es' + 1 = ground arith in
    let small : count s.mail_id es' < 2147483647 = omega (arith, count-le s.mail_id es) in
    pos-sub_one s.num_act_subs (count s.mail_id es') small (c ∙ ap ℤ.pos n)

pub update_slave-Counts :
    (id : MailId) (es es' : List (ℕ × NyxActSub)) (xs : List Slave)
    → Few es
    → DistinctIds xs
    → All (Fewer id es es') xs
    → All (Counts es) xs
    → All (Counts es') (update_slave id one_less xs)
unfolding update_slave DistinctIds
update_slave-Counts id es es' [] few d fewer c = tt
update_slave-Counts id es es' (x ∷ xs) few d fewer c = elim (Bool-cases (x.mail_id == id)) [
  | inl e ↦
      let ne = subst (λ y. All (λ t. (t.mail_id == y) ≡ false) xs) (eq_sound x.mail_id id e) d.0 in
      rw (e, update_slave)
        (lowered id es es' x few e fewer.0 c.0, kept_less_each id es es' xs ne fewer.1 c.1)
  | inr f ↦
      rw (f, update_slave)
        (
          kept_less id es es' x (id-ne_symm x.mail_id id f) fewer.0 c.0,
          update_slave-Counts id es es' xs few d.1 fewer.1 c.1,
        )
]

pub update_slave-ne :
    (id other : MailId) (xs : List Slave)
    → All (λ t. (t.mail_id == other) ≡ false) xs
    → All (λ t. (t.mail_id == other) ≡ false) (update_slave id one_less xs)
unfolding update_slave
update_slave-ne id other [] h = tt
update_slave-ne id other (x ∷ xs) h = elim (Bool-cases (x.mail_id == id)) [
  | inl e ↦ rw (e, update_slave) h
  | inr f ↦ rw (f, update_slave) (h.0, update_slave-ne id other xs h.1)
]

pub update_slave-DistinctIds :
    (id : MailId) (xs : List Slave) → DistinctIds xs → DistinctIds (update_slave id one_less xs)
unfolding update_slave DistinctIds
update_slave-DistinctIds id [] d = tt
update_slave-DistinctIds id (x ∷ xs) d = elim (Bool-cases (x.mail_id == id)) [
  | inl e ↦ rw (e, update_slave) d
  | inr f ↦
      rw (f, update_slave) (update_slave-ne id x.mail_id xs d.0, update_slave-DistinctIds id xs d.1)
]

pub DistinctIds-keep_if :
    (p : Slave → Bool) (xs : List Slave) → DistinctIds xs → DistinctIds (keep_if p xs)
unfolding DistinctIds
DistinctIds-keep_if p [] h = tt
DistinctIds-keep_if p (x ∷ xs) h = elim (Bool-cases (p x)) [
  | inl t ↦
      rw t
        (All-keep_if (λ t. (t.mail_id == x.mail_id) ≡ false) p xs h.0, DistinctIds-keep_if p xs h.1)
  | inr f ↦ rw f (DistinctIds-keep_if p xs h.1)
]
