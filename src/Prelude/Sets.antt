-- ===== src/Prelude/Sets.antt =====
-- A Go set, `map[K]struct{}`, as the list of its members.
use mathlib.Core.Path.{◌≡◌, refl}
use mathlib.Core.Bool.{Bool, false, ◌||◌}
use mathlib.Core.List.{List, [], ◌∷◌, ◌++◌}
use native.Mathlib.Omega.{arith}
use Prim.Native.Nat.{◌≤◌, ◌<◌}
use mathlib.Core.Bool.{true}
use coderoom.Prelude.Lists.{length}
use coderoom.Prelude.Tests.{EqTest, if◌then◌else◌}

module _ {ℓ} {K : Type ℓ} ⦃e : EqTest K⦄ where
  -- `slices.Contains`, and the test `_, ok := m[k]` on a set.
  unfoldable pub contains : List K → K → Bool
  contains [] k = false
  contains (x ∷ xs) k = e.eqb x k || contains xs k

  -- `m[k] = struct{}{}`
  unfoldable pub insert : K → List K → List K
  insert k xs = if contains xs k then xs else k ∷ xs

  -- `delete(m, k)`
  unfoldable pub remove : K → List K → List K
  remove k [] = []
  remove k (x ∷ xs) = let rest = remove k xs in if e.eqb x k then rest else x ∷ rest

  pub contains-insert :
      (k j : K) (xs : List K) → contains (insert k xs) j ≡ (e.eqb k j || contains xs j)
  unfolding contains insert
  contains-insert k j [] = refl
  contains-insert k j (x ∷ xs) =
      ground (arith, contains-insert k j xs, e.eqb_iff x k, e.eqb_iff x j, e.eqb_iff k j)

  pub contains-remove :
      (k j : K) (xs : List K)
      → contains (remove k xs) j ≡ (if e.eqb k j then false else contains xs j)
  unfolding contains remove
  contains-remove k j [] = ground arith
  contains-remove k j (x ∷ xs) =
      ground (arith, contains-remove k j xs, e.eqb_iff x k, e.eqb_iff x j, e.eqb_iff k j)

  length-remove-le : (k : K) (xs : List K) → length (remove k xs) ≤ length xs
  unfolding remove
  length-remove-le k [] = omega arith
  length-remove-le k (x ∷ xs) = ground (arith, length-remove-le k xs)

  pub length-remove :
      (k : K) (xs : List K) → contains xs k ≡ true → length (remove k xs) < length xs
  unfolding contains remove
  length-remove k [] h = ground arith
  length-remove k (x ∷ xs) h = ground (arith, length-remove k xs, length-remove-le k xs)

  pub contains-append :
      (k : K) (xs ys : List K) → contains (xs ++ ys) k ≡ (contains xs k || contains ys k)
  unfolding contains
  contains-append k [] ys = refl
  contains-append k (x ∷ xs) ys = ground (arith, contains-append k xs ys)
