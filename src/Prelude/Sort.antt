-- ===== src/Prelude/Sort.antt =====
-- `slices.Sort` and `slices.Compact`, on numbers and on texts. Every sort of a list is the same
-- list, so the algorithm is insertion.
use Prim.Native.Nat.{ℕ, Ordering}
use Prim.Native.String.{String, compare}
use mathlib.Core.Path.{◌≡◌, refl}
use mathlib.Core.Bool.{Bool, true, false, ◌||◌}
use mathlib.Core.List.{List, [], ◌∷◌}
use native.Mathlib.Omega.{arith}
use coderoom.Prelude.Tests.{EqTest, leb, nat_eq, string_eq, if◌then◌else◌}
use coderoom.Prelude.Sets.{contains}

abbrev pub text_leb : String → String → Bool
text_leb s t = elim (compare s t) [ Ordering.gt ↦ false | _ ↦ true ]

module _ {ℓ} {A : Type ℓ} ⦃e : EqTest A⦄ (le : A → A → Bool) where
  insert_sorted : A → List A → List A
  insert_sorted x [] = x ∷ []
  insert_sorted x (y ∷ ys) =
      let rest = y ∷ insert_sorted x ys in if le x y then x ∷ y ∷ ys else rest

  unfoldable pub sort : List A → List A
  unfolding insert_sorted
  sort [] = []
  sort (x ∷ xs) = insert_sorted x (sort xs)

  contains-insert_sorted :
      (x k : A) (ys : List A) → contains (insert_sorted x ys) k ≡ (e.eqb x k || contains ys k)
  unfolding contains insert_sorted
  contains-insert_sorted x k [] = refl
  contains-insert_sorted x k (y ∷ ys) = ground (arith, contains-insert_sorted x k ys)

  pub contains-sort : (k : A) (xs : List A) → contains (sort xs) k ≡ contains xs k
  unfolding contains sort
  contains-sort k [] = refl
  contains-sort k (x ∷ xs) =
      ground (arith, contains-sort k xs, contains-insert_sorted x k (sort xs))

module _ {ℓ} {A : Type ℓ} ⦃e : EqTest A⦄ where
  -- Whether the list begins with `x`.
  abbrev starts_with : A → List A → Bool
  starts_with x [] = false
  starts_with x (y ∷ ys) = e.eqb x y

  -- Of equal neighbours one is kept.
  unfoldable pub compact : List A → List A
  compact [] = []
  compact (x ∷ xs) = let rest = compact xs in if starts_with x rest then rest else x ∷ rest

  contains_absorb :
      (x k : A) (ys : List A)
      → starts_with x ys ≡ true
      → contains ys k ≡ (e.eqb x k || contains ys k)
  unfolding contains
  contains_absorb x k [] h = ground arith
  contains_absorb x k (y ∷ ys) h = ground (arith, e.eqb_iff x y)

  pub contains-compact : (k : A) (xs : List A) → contains (compact xs) k ≡ contains xs k
  unfolding contains compact
  contains-compact k [] = refl
  contains-compact k (x ∷ xs) =
      ground (arith, contains-compact k xs, contains_absorb x k (compact xs))

abbrev pub sort_indices : List ℕ → List ℕ
sort_indices = sort leb

abbrev pub sort_texts : List String → List String
sort_texts = sort text_leb
