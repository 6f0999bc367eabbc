-- ===== src/Base/Sort/Order.antt =====
-- Three-way comparisons: what makes one an order, and how a chain of them is one.
use Prim.Native.Nat.{ℕ, compare, Ordering}
use mathlib.Core.Path.{◌≡◌, refl}
use mathlib.Core.Bool.{Bool, true, false}
use mathlib.Core.List.{[], ◌∷◌}
use native.Mathlib.Omega.{arith}
use rillan.Base.Text.{Str, str_compare}

abbrev pub swap : Ordering → Ordering
swap Ordering.lt = Ordering.gt
swap Ordering.gt = Ordering.lt
swap Ordering.eq = Ordering.eq

-- The order of two Booleans that puts `true` first.
unfoldable pub true_first : Bool → Bool → Ordering
true_first true false = Ordering.lt
true_first false true = Ordering.gt
true_first true true = Ordering.eq
true_first false false = Ordering.eq

-- The first of two orders that is not an equality decides.
unfoldable pub then_by : Ordering → Ordering → Ordering
then_by Ordering.lt o = Ordering.lt
then_by Ordering.gt o = Ordering.gt
then_by Ordering.eq o = o

pub record IsOrder {ℓ} {A : Type ℓ} (cmp : A → A → Ordering) : Type ℓ where
  pub flip : (x y : A) → cmp y x ≡ swap (cmp x y)
  pub lt_trans : (x y z : A) → cmp x y ≡ Ordering.lt → cmp y z ≡ Ordering.lt → cmp x z ≡ Ordering.lt
  pub eq_left : (x y z : A) → cmp x y ≡ Ordering.eq → cmp x z ≡ cmp y z

pub compare-IsOrder : IsOrder compare
compare-IsOrder = record {
  flip = λ x y. ground arith;
  lt_trans = λ x y z p q. ground arith;
  eq_left = λ x y z p. ground arith;
}

-- The higher number first.
pub compare_down-IsOrder : IsOrder (λ (x y : ℕ). compare y x)
compare_down-IsOrder = record {
  flip = λ x y. ground arith;
  lt_trans = λ x y z p q. ground arith;
  eq_left = λ x y z p. ground arith;
}

pub true_first-IsOrder : IsOrder true_first
unfolding true_first
true_first-IsOrder = record {
  flip = λ x y. ground arith;
  lt_trans = λ x y z p q. ground arith;
  eq_left = λ x y z p. ground arith;
}

str_compare_flip : (s t : Str) → str_compare t s ≡ swap (str_compare s t)
unfolding str_compare
str_compare_flip [] [] = refl
str_compare_flip [] (b ∷ t) = refl
str_compare_flip (a ∷ s) [] = refl
str_compare_flip (a ∷ s) (b ∷ t) = ground (arith, str_compare_flip s t)

str_compare_lt_trans :
    (s t u : Str)
    → str_compare s t ≡ Ordering.lt
    → str_compare t u ≡ Ordering.lt
    → str_compare s u ≡ Ordering.lt
unfolding str_compare
str_compare_lt_trans (a ∷ s) (b ∷ t) (c ∷ u) p q = ground (arith, str_compare_lt_trans s t u)
str_compare_lt_trans [] (b ∷ t) (c ∷ u) p q = refl
str_compare_lt_trans [] [] u p q = cc
str_compare_lt_trans (a ∷ s) [] u p q = cc
str_compare_lt_trans s (b ∷ t) [] p q = cc

pub eq_of_str_compare : (s t : Str) → str_compare s t ≡ Ordering.eq → s ≡ t
unfolding str_compare
eq_of_str_compare [] [] p = refl
eq_of_str_compare [] (b ∷ t) p = ground arith
eq_of_str_compare (a ∷ s) [] p = ground arith
eq_of_str_compare (a ∷ s) (b ∷ t) p = ground (arith, eq_of_str_compare s t)

pub str_compare-IsOrder : IsOrder str_compare
str_compare-IsOrder = record {
  flip = str_compare_flip;
  lt_trans = str_compare_lt_trans;
  eq_left = λ s t u p. rw (eq_of_str_compare s t p);
}

-- Two values by a key.
pub on-IsOrder {ℓ κ} :
    {A : Type ℓ} {B : Type κ} (key : A → B) {cmp : B → B → Ordering}
    → IsOrder cmp
    → IsOrder (λ (x y : A). cmp (key x) (key y))
on-IsOrder key o = record {
  flip = λ x y. o.flip (key x) (key y);
  lt_trans = λ x y z. o.lt_trans (key x) (key y) (key z);
  eq_left = λ x y z. o.eq_left (key x) (key y) (key z);
}

module _ {ℓ} {A : Type ℓ} {first second : A → A → Ordering} (o : IsOrder first)
    (o' : IsOrder second) where
  then_by_lt_trans :
      (x y z : A)
      → then_by (first x y) (second x y) ≡ Ordering.lt
      → then_by (first y z) (second y z) ≡ Ordering.lt
      → then_by (first x z) (second x z) ≡ Ordering.lt
  unfolding then_by
  then_by_lt_trans x y z p q = ground (
    arith,
    o.lt_trans x y z,
    o'.lt_trans x y z,
    o.eq_left x y z,
    o.flip x y,
    o.flip y z,
    o.flip x z,
    o.eq_left z y x,
  )

  then_by_eq_left :
      (x y z : A)
      → then_by (first x y) (second x y) ≡ Ordering.eq
      → then_by (first x z) (second x z) ≡ then_by (first y z) (second y z)
  unfolding then_by
  then_by_eq_left x y z p = ground (arith, o.eq_left x y z, o'.eq_left x y z)

  pub then_by-IsOrder : IsOrder (λ (x y : A). then_by (first x y) (second x y))
  unfolding then_by
  then_by-IsOrder = record {
    flip = λ x y. ground (arith, o.flip x y, o'.flip x y);
    lt_trans = then_by_lt_trans;
    eq_left = then_by_eq_left;
  }
