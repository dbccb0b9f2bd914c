-- ===== src/Common/Int.antt =====
-- Go's signed integers: an integer, and the 32-bit arithmetic that wraps around.
use Prim.Native.Nat.{ℕ, suc, ◌+◌, ◌-◌, ◌%◌, ◌≤◌, ◌<◌}
use mathlib.Core.Path.{◌≡◌, refl}
use mathlib.Core.Logic.{◌⊎◌, ◌↔◌, inl, inr}
use mathlib.Core.Bool.{Bool, true}
use native.Mathlib.Omega.{arith}
use flux_backend.Common.Tests.{ltb, leb, nat_eq, if◌then◌else◌, Eq}

-- `negsuc n` is -(n + 1).
pub data ℤ : Type 0 where
  pos : ℕ → ℤ
  negsuc : ℕ → ℤ

abbrev pub pos_part : ℤ → ℕ
pos_part (pos n) = n
pos_part (negsuc n) = 0

abbrev pub neg_part : ℤ → ℕ
neg_part (pos n) = 0
neg_part (negsuc n) = suc n

-- a - b, as an integer.
abbrev pub sub_ℕ : ℕ → ℕ → ℤ
sub_ℕ a b = if leb b a then pos (a - b) else negsuc (b - a - 1)

infixl 65 ◌+ℤ◌ ◌-ℤ◌
infix 50 ◌≤ℤ◌ ◌<ℤ◌
unfoldable pub ◌+ℤ◌ : ℤ → ℤ → ℤ
a +ℤ b = sub_ℕ (pos_part a + pos_part b) (neg_part a + neg_part b)

unfoldable pub ◌-ℤ◌ : ℤ → ℤ → ℤ
a -ℤ b = sub_ℕ (pos_part a + neg_part b) (neg_part a + pos_part b)

abbrev pub ◌≤ℤ◌ : ℤ → ℤ → Type 0
a ≤ℤ b = pos_part a + neg_part b ≤ pos_part b + neg_part a

abbrev pub ◌<ℤ◌ : ℤ → ℤ → Type 0
a <ℤ b = pos_part a + neg_part b < pos_part b + neg_part a

-- The comparison `a < b` of the source.
abbrev pub ltbℤ : ℤ → ℤ → Bool
ltbℤ a b = ltb (pos_part a + neg_part b) (pos_part b + neg_part a)

-- The residue of an int32 bit pattern.
abbrev pub mod32 : ℤ → ℕ
mod32 (pos n) = n % 4294967296
mod32 (negsuc n) = 4294967295 - n % 4294967296

-- Conversion to int32: the two's complement value of the low 32 bits.
unfoldable pub wrap32 : ℤ → ℤ
wrap32 z = if ltb (mod32 z) 2147483648 then pos (mod32 z) else negsuc (4294967295 - mod32 z)

abbrev pub add32 : ℤ → ℤ → ℤ
add32 a b = wrap32 (a +ℤ b)

abbrev pub sub32 : ℤ → ℤ → ℤ
sub32 a b = wrap32 (a -ℤ b)

-- The values that an int32 has.
pub record IsInt32 (z : ℤ) : Type 0 where
  pub below : pos_part z < 2147483648
  pub above : neg_part z ≤ 2147483648

-- One lemma for each operation lets `omega` work with the operations shut.
pub +ℤ_parts :
    (a b : ℤ)
    → pos_part (a +ℤ b) + neg_part a + neg_part b ≡ neg_part (a +ℤ b) + pos_part a + pos_part b
unfolding ◌+ℤ◌
+ℤ_parts a b = ground arith

pub -ℤ_parts :
    (a b : ℤ)
    → pos_part (a -ℤ b) + neg_part a + pos_part b ≡ neg_part (a -ℤ b) + pos_part a + neg_part b
unfolding ◌-ℤ◌
-ℤ_parts a b = ground arith

pub eq_of_parts : (a b : ℤ) → pos_part a + neg_part b ≡ pos_part b + neg_part a → a ≡ b
eq_of_parts a b h = ground arith

-- At most one part is not zero.
pub parts_disjoint : (a : ℤ) → (pos_part a ≡ 0) ⊎ (neg_part a ≡ 0)
parts_disjoint (pos n) = inr refl
parts_disjoint (negsuc n) = inl refl

-- Every result of the 32-bit arithmetic is an int32.
pub wrap32-IsInt32 : (z : ℤ) → IsInt32 (wrap32 z)
unfolding wrap32
wrap32-IsInt32 (pos n) = ground arith
wrap32-IsInt32 (negsuc n) = ground arith

-- No wrap-around within the range.
pub wrap32-of_IsInt32 : (z : ℤ) → IsInt32 z → wrap32 z ≡ z
unfolding wrap32
wrap32-of_IsInt32 (pos n) h = ground arith
wrap32-of_IsInt32 (negsuc n) h = ground arith

pub ruleset int_laws = (arith, +ℤ_parts, -ℤ_parts, eq_of_parts, parts_disjoint)

abbrev pub eqℤ : ℤ → ℤ → Bool
eqℤ a b = nat_eq (pos_part a + neg_part b) (pos_part b + neg_part a)

pub eqℤ_iff : (a b : ℤ) → (eqℤ a b ≡ true) ↔ (a ≡ b)
eqℤ_iff a b = (λ h. eq_of_parts a b (ground arith), λ h. rw h (ground arith))

instance abbrev pub ℤ_eq : Eq ℤ
ℤ_eq = record { same_value = eqℤ; same_iff = eqℤ_iff }
