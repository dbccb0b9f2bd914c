-- ===== src/Common/Tests.antt =====
-- Boolean tests, the conditional, and equality of Go's comparable types as an interface.
use Prim.Native.Nat.{ℕ, ◌≤◌, ◌<◌, compare, Ordering}
use Prim.Native.Char.{code}
use Prim.Native.String.{String}
use mathlib.Core.Path.{◌≡◌, refl}
use mathlib.Core.Logic.{◌↔◌, ◌⊎◌, inl, inr, ◌≢◌}
use mathlib.Core.Bool.{Bool, true, false, ◌&&◌}
use mathlib.Core.Option.{Option, none, some}
use mathlib.Core.List.{List, [], ◌∷◌}
use native.Mathlib.Omega.{arith}

abbrev pub ltb : ℕ → ℕ → Bool
ltb a b = elim (compare a b) [ Ordering.lt ↦ true | _ ↦ false ]

abbrev pub leb : ℕ → ℕ → Bool
leb a b = elim (compare a b) [ Ordering.gt ↦ false | _ ↦ true ]

abbrev pub nat_eq : ℕ → ℕ → Bool
nat_eq a b = elim (compare a b) [ Ordering.eq ↦ true | _ ↦ false ]

infix 50 ◌==◌
infix 1 if◌then◌else◌
abbrev pub if◌then◌else◌ {ℓ} : {A : Type ℓ} → Bool → A → A → A
if true then x else y = x
if false then x else y = y

pub ltb→lt : (a b : ℕ) → ltb a b ≡ true → a < b
ltb→lt a b h = ground arith

pub lt→ltb : (a b : ℕ) → a < b → ltb a b ≡ true
lt→ltb a b h = ground arith

pub leb→le : (a b : ℕ) → leb a b ≡ true → a ≤ b
leb→le a b h = ground arith

pub nat_eq_iff : (a b : ℕ) → (nat_eq a b ≡ true) ↔ (a ≡ b)
nat_eq_iff a b = ground arith

-- To split on a computed value and keep the equation.
pub Bool-cases : (b : Bool) → (b ≡ true) ⊎ (b ≡ false)
Bool-cases true = inl refl
Bool-cases false = inr refl

pub Option-cases {ℓ} : {A : Type ℓ} (o : Option A) → (o ≡ none) ⊎ ((a : A) × (o ≡ some a))
Option-cases none = inl refl
Option-cases (some a) = inr (a, refl)

abbrev pub is_some {ℓ} : {A : Type ℓ} → Option A → Bool
is_some (some a) = true
is_some none = false

-- A Go string: the sequence of its bytes.
abbrev pub Text : Type 0
Text = List ℕ

-- A literal of the source.
abbrev pub text : String → Text
text String.[] = []
text (String.◌∷◌ c s) = code c ∷ text s

-- A type whose values Go compares with `==`.
pub record Eq {ℓ} (A : Type ℓ) : Type ℓ where
  pub same_value : A → A → Bool
  pub same_iff : (x y : A) → (same_value x y ≡ true) ↔ (x ≡ y)

abbrev pub ◌==◌ {ℓ} : {A : Type ℓ} ⦃comparable : Eq A⦄ → A → A → Bool
◌==◌ ⦃comparable⦄ = comparable.same_value

instance abbrev pub ℕ_eq : Eq ℕ
ℕ_eq = record { same_value = nat_eq; same_iff = nat_eq_iff }

abbrev pub text_eq : Text → Text → Bool
text_eq [] [] = true
text_eq [] (y ∷ ys) = false
text_eq (x ∷ xs) [] = false
text_eq (x ∷ xs) (y ∷ ys) = nat_eq x y && text_eq xs ys

text_eq→eq : (a b : Text) → text_eq a b ≡ true → a ≡ b
text_eq→eq [] [] h = refl
text_eq→eq [] (y ∷ ys) h = cc
text_eq→eq (x ∷ xs) [] h = cc
text_eq→eq (x ∷ xs) (y ∷ ys) h = ground (arith, text_eq→eq xs ys)

text_eq_refl : (a : Text) → text_eq a a ≡ true
text_eq_refl [] = refl
text_eq_refl (x ∷ xs) = ground (arith, text_eq_refl xs)

pub text_eq_iff : (a b : Text) → (text_eq a b ≡ true) ↔ (a ≡ b)
text_eq_iff a b = (text_eq→eq a b, λ e. rw e (text_eq_refl b))

instance abbrev pub Text_eq : Eq Text
Text_eq = record { same_value = text_eq; same_iff = text_eq_iff }

module _ {ℓ} {A : Type ℓ} ⦃e : Eq A⦄ where
  pub eq_refl : (a : A) → (a == a) ≡ true
  eq_refl a = (e.same_iff a a).1 refl

  pub eq_sound : (a b : A) → (a == b) ≡ true → a ≡ b
  eq_sound a b = (e.same_iff a b).0

  pub eq_of_ne : (a b : A) → a ≢ b → (a == b) ≡ false
  eq_of_ne a b h = elim (Bool-cases (a == b)) [ inl t ↦ absurd (h (eq_sound a b t)) | inr f ↦ f ]
