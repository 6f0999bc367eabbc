-- ===== src/Base/Sort.antt =====
-- `slices.SortFunc` and `sort.Slice` as insertion sort. Go leaves the order of equal elements
-- open; the theorems that use the sort hold where no two elements are equal, or for any order.
pub mod Order
pub mod Laws
use Prim.Native.Nat.{Ordering}
use mathlib.Core.List.{List, [], ◌∷◌}

module _ {ℓ} {A : Type ℓ} (cmp : A → A → Ordering) where
  unfoldable pub insert : A → List A → List A
  insert x [] = x ∷ []
  insert x (y ∷ ys) = elim (cmp x y) [ Ordering.gt ↦ y ∷ insert x ys | _ ↦ x ∷ y ∷ ys ]

  unfoldable pub sort_func : List A → List A
  unfolding insert
  sort_func [] = []
  sort_func (x ∷ xs) = insert x (sort_func xs)
