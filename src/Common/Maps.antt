-- ===== src/Common/Maps.antt =====
-- Go's maps as association lists. A write replaces the entry of its key, so keys stay distinct; the
-- order of the entries stands for the order in which a `range` loop meets them.
use mathlib.Core.Path.{◌≡◌, refl}
use mathlib.Core.Option.{Option, none, some}
use mathlib.Core.List.{List, [], ◌∷◌}
use native.Mathlib.Omega.{arith}
use flux_backend.Common.Tests.{if◌then◌else◌, Eq, ◌==◌, eq_refl}

module _ {ℓ κ} {Key : Type ℓ} {Val : Type κ} ⦃e : Eq Key⦄ where
  unfoldable pub lookup : Key → List (Key × Val) → Option Val
  lookup a [] = none
  lookup a ((b, x) ∷ es) = if b == a then some x else lookup a es

  unfoldable pub insert : Key → Val → List (Key × Val) → List (Key × Val)
  insert a x [] = (a, x) ∷ []
  insert a x ((b, y) ∷ es) = if b == a then (a, x) ∷ es else (b, y) ∷ insert a x es

  -- `delete(es, a)`.
  unfoldable pub erase : Key → List (Key × Val) → List (Key × Val)
  erase a [] = []
  erase a ((b, y) ∷ es) = if b == a then erase a es else (b, y) ∷ erase a es

  pub lookup-insert :
      (a b : Key) (x : Val) (es : List (Key × Val))
      → lookup b (insert a x es) ≡ (if a == b then some x else lookup b es)
  unfolding lookup insert
  lookup-insert a b x [] = refl
  lookup-insert a b x ((c, y) ∷ es) =
      ground (arith, e.same_iff a b, e.same_iff c a, e.same_iff c b, lookup-insert a b x es)

  pub lookup-erase :
      (a b : Key) (es : List (Key × Val))
      → lookup b (erase a es) ≡ (if a == b then none else lookup b es)
  unfolding lookup erase
  lookup-erase a b [] = ground arith
  lookup-erase a b ((c, y) ∷ es) =
      ground (arith, e.same_iff a b, e.same_iff c a, e.same_iff c b, lookup-erase a b es)

  pub lookup-insert_self :
      (a : Key) (x : Val) (es : List (Key × Val)) → lookup a (insert a x es) ≡ some x
  lookup-insert_self a x es = simp (lookup-insert, eq_refl)

  pub lookup-erase_self : (a : Key) (es : List (Key × Val)) → lookup a (erase a es) ≡ none
  lookup-erase_self a es = simp (lookup-erase, eq_refl)
