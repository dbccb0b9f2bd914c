-- ===== src/Submission/Master/Balance/Counting.antt =====
-- Counting the active submissions of a slave.
use flux_backend.Common.{
  ℕ, ◌+◌, false, Option, none, some, List, [], ◌∷◌, ◌≡◌, refl, arith, Text_eq, ℕ_eq, ◌==◌, lookup,
  insert, erase, lookup-erase, lookup-insert, if◌then◌else◌, Bool-cases, inl, inr, ◌≢◌, eq_sound,
  eq_refl, All, subst,
}
use flux_backend.Common.Int.{ℤ}
use flux_backend.Submission.Model.{MailId}
use flux_backend.Submission.Master.{Slave, NyxActSub}

-- 1 for an entry of this slave.
abbrev pub weight : MailId → Option NyxActSub → ℕ
weight id none = 0
weight id (some a) = if a.slave_id == id then 1 else 0

-- How many active submissions are with this slave.
unfoldable pub count : MailId → List (ℕ × NyxActSub) → ℕ
count id [] = 0
count id ((k, a) ∷ es) = weight id (some a) + count id es

unfoldable pub DistinctKeys : List (ℕ × NyxActSub) → Type 0
DistinctKeys [] = Unit
DistinctKeys ((k, a) ∷ es) = (lookup k es ≡ none) × DistinctKeys es

-- No two slaves share a mail id.
unfoldable pub DistinctIds : List Slave → Type 0
DistinctIds [] = Unit
DistinctIds (s ∷ ss) = All (λ t. (t.mail_id == s.mail_id) ≡ false) ss × DistinctIds ss

abbrev pub Counts : List (ℕ × NyxActSub) → Slave → Type 0
Counts es s = s.num_act_subs ≡ ℤ.pos (count s.mail_id es)

pub count-insert :
    (id : MailId) (k : ℕ) (a : NyxActSub) (es : List (ℕ × NyxActSub))
    → count id (insert k a es) + weight id (lookup k es) ≡ count id es + weight id (some a)
unfolding count insert lookup
count-insert id k a [] = omega arith
count-insert id k a ((j, b) ∷ es) = elim (Bool-cases (j == k)) [
  | inl e ↦ rw (e, insert, lookup) (omega arith)
  | inr e ↦ rw (e, insert, lookup) (omega (arith, count-insert id k a es))
]

pub count-erase :
    (id : MailId) (k : ℕ) (es : List (ℕ × NyxActSub))
    → DistinctKeys es
    → count id (erase k es) + weight id (lookup k es) ≡ count id es
unfolding count erase lookup DistinctKeys
count-erase id k [] h = omega arith
count-erase id k ((j, b) ∷ es) h = elim (Bool-cases (j == k)) [
  | inl e ↦
      let gone : lookup k es ≡ none = subst (λ x. lookup x es ≡ none) (eq_sound j k e) h.0 in
      let rest : count id (erase k es) + weight id none ≡ count id es =
        subst (λ o. count id (erase k es) + weight id o ≡ count id es) gone
          (count-erase id k es h.1) in
      rw (e, erase, lookup) (omega arith)
  | inr e ↦ rw (e, erase, lookup) (omega (arith, count-erase id k es h.1))
]

pub ne_symm : (j k : ℕ) → (j == k) ≡ false → (k == j) ≡ false
ne_symm j k h = ground arith

pub id-ne_symm : (a b : MailId) → (a == b) ≡ false → (b == a) ≡ false
id-ne_symm a b h = elim (Bool-cases (b == a)) [
  | inl e ↦ absurd (subst (λ x. (x == b) ≢ false) (eq_sound b a e) (λ f. cc (eq_refl b)) h)
  | inr e ↦ e
]

pub insert-DistinctKeys :
    (k : ℕ) (a : NyxActSub) (es : List (ℕ × NyxActSub))
    → DistinctKeys es
    → DistinctKeys (insert k a es)
unfolding insert DistinctKeys lookup
insert-DistinctKeys k a [] h = (refl, tt)
insert-DistinctKeys k a ((j, b) ∷ es) h = elim (Bool-cases (j == k)) [
  | inl e ↦ rw (e, insert) (subst (λ x. lookup x es ≡ none) (eq_sound j k e) h.0, h.1)
  | inr e ↦
      rw (e, insert)
        (rw (lookup-insert k j a es) (rw (ne_symm j k e) h.0), insert-DistinctKeys k a es h.1)
]

pub erase-DistinctKeys :
    (k : ℕ) (es : List (ℕ × NyxActSub)) → DistinctKeys es → DistinctKeys (erase k es)
unfolding erase DistinctKeys lookup
erase-DistinctKeys k [] h = tt
erase-DistinctKeys k ((j, b) ∷ es) h = elim (Bool-cases (j == k)) [
  | inl e ↦ rw (e, erase) (erase-DistinctKeys k es h.1)
  | inr e ↦
      rw (e, erase) (rw (lookup-erase k j es) (rw (ne_symm j k e) h.0), erase-DistinctKeys k es h.1)
]

abbrev pub Own : ℕ × NyxActSub → Type 0
Own e = e.1.submission_id ≡ e.0

pub insert-Own :
    (k : ℕ) (a : NyxActSub) (es : List (ℕ × NyxActSub))
    → a.submission_id ≡ k
    → All Own es
    → All Own (insert k a es)
unfolding insert
insert-Own k a [] e h = (e, tt)
insert-Own k a ((j, b) ∷ es) e h = elim (Bool-cases (j == k)) [
  | inl t ↦ rw (t, insert) (e, h.1)
  | inr f ↦ rw (f, insert) (h.0, insert-Own k a es e h.1)
]

pub erase-Own : (k : ℕ) (es : List (ℕ × NyxActSub)) → All Own es → All Own (erase k es)
unfolding erase
erase-Own k [] h = h
erase-Own k ((j, b) ∷ es) h = elim (Bool-cases (j == k)) [
  | inl t ↦ rw (t, erase) (erase-Own k es h.1)
  | inr f ↦ rw (f, erase) (h.0, erase-Own k es h.1)
]

pub lookup-Own :
    (k : ℕ) (es : List (ℕ × NyxActSub)) (a : NyxActSub)
    → All Own es
    → lookup k es ≡ some a
    → a.submission_id ≡ k
unfolding lookup
lookup-Own k [] a h e = absurd cc
lookup-Own k ((j, b) ∷ es) a h e = elim (Bool-cases (j == k)) [
  | inl t ↦ ground (arith, eq_sound j k t, h.0)
  | inr f ↦ lookup-Own k es a h.1 (ground arith)
]
