-- ===== src/Common/Lists.antt =====
-- Lists measured by native numbers, under the library's names, and the loops of the source over
-- slices: a search, `slices.DeleteFunc`, a membership test.
use Prim.Native.Nat.{ℕ, zero, suc, ◌+◌, ◌≤◌}
use mathlib.Core.Path.{◌≡◌, refl, subst}
use mathlib.Core.Logic.{inl, inr}
use mathlib.Core.Bool.{Bool, true, false, not, ◌&&◌, ◌||◌}
use mathlib.Core.Option.{Option, none, some}
use mathlib.Core.List.{List, [], ◌∷◌, ◌++◌, map}
use native.Mathlib.Omega.{arith}
use flux_backend.Common.Tests.{if◌then◌else◌, Bool-cases, Eq, ◌==◌}

module _ {ℓ} {A : Type ℓ} where
  abbrev pub length : List A → ℕ
  length [] = 0
  length (x ∷ xs) = suc (length xs)

  abbrev pub get_elem? : List A → ℕ → Option A
  get_elem? [] i = none
  get_elem? (x ∷ xs) zero = some x
  get_elem? (x ∷ xs) (suc i) = get_elem? xs i

  abbrev pub take : ℕ → List A → List A
  take zero xs = []
  take (suc n) [] = []
  take (suc n) (x ∷ xs) = x ∷ take n xs

  abbrev pub drop : ℕ → List A → List A
  drop zero xs = xs
  drop (suc n) [] = []
  drop (suc n) (x ∷ xs) = drop n xs

  -- The elements that pass the test, in order.
  abbrev pub keep_if : (A → Bool) → List A → List A
  keep_if p [] = []
  keep_if p (x ∷ xs) = if p x then x ∷ keep_if p xs else keep_if p xs

  -- `slices.DeleteFunc`.
  abbrev pub delete_func : List A → (A → Bool) → List A
  delete_func xs p = keep_if (λ x. not (p x)) xs

  -- The first element that passes the test.
  abbrev pub find? : (A → Bool) → List A → Option A
  find? p [] = none
  find? p (x ∷ xs) = if p x then some x else find? p xs

  abbrev pub any : (A → Bool) → List A → Bool
  any p [] = false
  any p (x ∷ xs) = p x || any p xs

  abbrev pub All {κ} : (A → Type κ) → List A → Type κ
  All holds [] = Unit
  All holds (u ∷ us) = holds u × All holds us

  pub length-append : (xs ys : List A) → length (xs ++ ys) ≡ length xs + length ys
  length-append [] ys = omega arith
  length-append (x ∷ xs) ys = omega (arith, length-append xs ys)

  pub length-keep_if-le : (p : A → Bool) (xs : List A) → length (keep_if p xs) ≤ length xs
  length-keep_if-le p [] = omega arith
  length-keep_if-le p (x ∷ xs) = ground (arith, length-keep_if-le p xs)

  pub All-append {κ} : (P : A → Type κ) (us vs : List A) → All P us → All P vs → All P (us ++ vs)
  All-append P [] vs front own = own
  All-append P (u ∷ us) vs front own = (front.0, All-append P us vs front.1 own)

  pub All-keep_if {κ} :
      (P : A → Type κ) (p : A → Bool) (xs : List A) → All P xs → All P (keep_if p xs)
  All-keep_if P p [] h = h
  All-keep_if P p (x ∷ xs) h = elim (Bool-cases (p x)) [
    | inl t ↦ rw t (h.0, All-keep_if P p xs h.1)
    | inr f ↦ rw f (All-keep_if P p xs h.1)
  ]

  pub any-keep_if : (q p : A → Bool) (xs : List A) → any q (keep_if p xs) ≡ any (λ x. p x && q x) xs
  any-keep_if q p [] = refl
  any-keep_if q p (x ∷ xs) = ground (arith, any-keep_if q p xs)

  pub any-imp :
      (p q : A → Bool)
      → ((x : A) → p x ≡ true → q x ≡ true)
      → (xs : List A) → any p xs ≡ true
      → any q xs ≡ true
  any-imp p q f [] h = absurd cc
  any-imp p q f (x ∷ xs) h = elim (Bool-cases (p x)) [
    | inl t ↦ rw (f x t) refl
    | inr n ↦ ground (arith, n, any-imp p q f xs)
  ]

  pub any-keep_if_none :
      (p q : A → Bool) (xs : List A) → any p xs ≡ false → any p (keep_if q xs) ≡ false
  any-keep_if_none p q [] h = refl
  any-keep_if_none p q (x ∷ xs) h = ground (arith, any-keep_if_none p q xs)

  pub any-elim {κ} :
      {C : Type κ} (p : A → Bool) (xs : List A) → ((x : A) → p x ≡ true → C) → any p xs ≡ true → C
  any-elim p [] f h = absurd cc
  any-elim p (x ∷ xs) f h = elim (Bool-cases (p x)) [
    | inl t ↦ f x t
    | inr n ↦ any-elim p xs f (subst (λ b. b || any p xs ≡ true) n h)
  ]

  pub find?-passes : (p : A → Bool) (xs : List A) (a : A) → find? p xs ≡ some a → p a ≡ true
  find?-passes p [] a h = absurd cc
  find?-passes p (x ∷ xs) a h = elim (Bool-cases (p x)) [
    | inl t ↦ cc (t, subst (λ b. (if b then some x else find? p xs) ≡ some a) t h)
    | inr n ↦ find?-passes p xs a (subst (λ b. (if b then some x else find? p xs) ≡ some a) n h)
  ]

  pub find?-any :
      (p q : A → Bool) (xs : List A) (a : A) → find? p xs ≡ some a → q a ≡ true → any q xs ≡ true
  find?-any p q [] a h t = absurd cc
  find?-any p q (x ∷ xs) a h t = elim (Bool-cases (p x)) [
    | inl y ↦
        let found : some x ≡ some a =
          subst (λ b. (if b then some x else find? p xs) ≡ some a) y h in
        let same : a ≡ x = cc in rw (subst (λ z. q z ≡ true) same t) refl
    | inr n ↦
        ground (
          arith,
          find?-any p q xs a (subst (λ b. (if b then some x else find? p xs) ≡ some a) n h) t,
        )
  ]

module _ {ℓ κ μ} {A : Type ℓ} {P : A → Type κ} {Q : A → Type μ} where
  pub All-imp : ((a : A) → P a → Q a) → (xs : List A) → All P xs → All Q xs
  All-imp f [] h = tt
  All-imp f (x ∷ xs) h = (f x h.0, All-imp f xs h.1)

module _ {ℓ κ} {A : Type ℓ} {B : Type κ} where
  pub any-map : (q : B → Bool) (f : A → B) (xs : List A) → any q (map f xs) ≡ any (λ x. q (f x)) xs
  any-map q f [] = refl
  any-map q f (x ∷ xs) = rw (any-map q f xs) refl

module _ {ℓ} {A : Type ℓ} ⦃e : Eq A⦄ where
  -- `slices.Contains`.
  abbrev pub contains : List A → A → Bool
  contains xs a = any (λ x. x == a) xs

  abbrev pub remove_first : A → List A → List A
  remove_first a [] = []
  remove_first a (x ∷ xs) = if x == a then xs else x ∷ remove_first a xs

  pub All-remove_first {κ} :
      (P : A → Type κ) (a : A) (xs : List A) → All P xs → All P (remove_first a xs)
  All-remove_first P a [] h = h
  All-remove_first P a (x ∷ xs) h = elim (Bool-cases (x == a)) [
    | inl t ↦ rw t h.1
    | inr f ↦ rw f (h.0, All-remove_first P a xs h.1)
  ]
