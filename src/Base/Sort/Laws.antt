-- ===== src/Base/Sort/Laws.antt =====
-- Sorting: what it keeps, that it sorts, and that its result does not depend on the order given.
use Prim.Native.Nat.{Ordering}
use mathlib.Core.Path.{◌≡◌, refl, ap, ◌∙◌, sym}
use mathlib.Core.Logic.{◌≢◌, ◌⊎◌, inl, inr}
use mathlib.Core.List.{List, [], ◌∷◌, Permᴰ}
use mathlib.Core.List.Permᴰ
use native.Mathlib.Omega.{arith}
use rillan.Base.Lists.{All}
use rillan.Base.Sort.{insert, sort_func}
use rillan.Base.Sort.Order.{IsOrder, swap}

module _ {ℓ κ} {A : Type ℓ} (P : A → Type κ) where
  pub All-perm : {xs ys : List A} → Permᴰ xs ys → All P xs → All P ys
  All-perm Permᴰ.nil h = tt
  All-perm (Permᴰ.cons e d) (p, h) = (rw e at p, All-perm d h)
  All-perm (Permᴰ.swap e e') (p, (q, h)) = (rw e' at q, (rw e at p, h))
  All-perm (Permᴰ.trans d d') h = All-perm d' (All-perm d h)

module _ {ℓ} {A : Type ℓ} (cmp : A → A → Ordering) where
  -- Whether `x` has to stand behind `y`.
  gt_cases : (x y : A) → (cmp x y ≡ Ordering.gt) ⊎ (cmp x y ≢ Ordering.gt)
  gt_cases x y = go (cmp x y) refl
    where
      go : (r : Ordering) → cmp x y ≡ r → (cmp x y ≡ Ordering.gt) ⊎ (cmp x y ≢ Ordering.gt)
      go Ordering.gt e = inl e
      go Ordering.lt e = inr (rw e (cc))
      go Ordering.eq e = inr (rw e (cc))

  -- No element stands behind one that it should precede.
  abbrev pub IsSorted : List A → Type ℓ
  IsSorted [] = Unit
  IsSorted (x ∷ xs) = All (λ y. cmp x y ≢ Ordering.gt) xs × IsSorted xs

  insert_gt :
      (x y : A) (ys : List A) → cmp x y ≡ Ordering.gt → insert cmp x (y ∷ ys) ≡ y ∷ insert cmp x ys
  unfolding insert
  insert_gt x y ys e = rw (e, insert)

  insert_le : (x y : A) (ys : List A) → cmp x y ≢ Ordering.gt → insert cmp x (y ∷ ys) ≡ x ∷ y ∷ ys
  unfolding insert
  insert_le x y ys h = ground arith

  module _ {κ} (P : A → Type κ) where
    insert-All : (x : A) (xs : List A) → P x → All P xs → All P (insert cmp x xs)
    unfolding insert
    insert-All x [] p h = (p, tt)
    insert-All x (y ∷ ys) p (q, h) = elim (gt_cases x y) [
      | inl e ↦ rw (insert_gt x y ys e) (q, insert-All x ys p h)
      | inr e ↦ rw (insert_le x y ys e) (p, (q, h))
    ]

    -- What holds of every element holds of every sorted one.
    pub sort_func-All : (xs : List A) → All P xs → All P (sort_func cmp xs)
    unfolding sort_func
    sort_func-All [] h = tt
    sort_func-All (x ∷ xs) (p, h) = insert-All x (sort_func cmp xs) p (sort_func-All xs h)

  insert-perm : (x : A) (xs : List A) → Permᴰ (insert cmp x xs) (x ∷ xs)
  unfolding insert
  insert-perm x [] = Permᴰ.cons refl Permᴰ.nil
  insert-perm x (y ∷ ys) = elim (gt_cases x y) [
    | inl e ↦
        rw (insert_gt x y ys e)
          (Permᴰ.trans (Permᴰ.cons refl (insert-perm x ys)) (Permᴰ.swap refl refl))
    | inr e ↦ rw (insert_le x y ys e) (Permᴰ.refl (x ∷ y ∷ ys))
  ]

  -- Sorting rearranges.
  pub sort_func-perm : (xs : List A) → Permᴰ (sort_func cmp xs) xs
  unfolding sort_func
  sort_func-perm [] = Permᴰ.nil
  sort_func-perm (x ∷ xs) =
      Permᴰ.trans (insert-perm x (sort_func cmp xs)) (Permᴰ.cons refl (sort_func-perm xs))

  module _ (o : IsOrder cmp) where
    pub le_trans :
        (x y z : A) → cmp x y ≢ Ordering.gt → cmp y z ≢ Ordering.gt → cmp x z ≢ Ordering.gt
    le_trans x y z p q = ground (
      arith,
      o.lt_trans x y z,
      o.eq_left x y z,
      o.eq_left z y x,
      o.flip y z,
      o.flip x z,
      o.flip y x,
    )

    le_of_gt : (x y : A) → cmp x y ≡ Ordering.gt → cmp y x ≢ Ordering.gt
    le_of_gt x y p = ground (arith, o.flip x y)

    All-le_trans :
        (x y : A) (zs : List A)
        → cmp x y ≢ Ordering.gt
        → All (λ z. cmp y z ≢ Ordering.gt) zs
        → All (λ z. cmp x z ≢ Ordering.gt) zs
    All-le_trans x y [] p h = tt
    All-le_trans x y (z ∷ zs) p (q, h) = (le_trans x y z p q, All-le_trans x y zs p h)

    insert-IsSorted : (x : A) (xs : List A) → IsSorted xs → IsSorted (insert cmp x xs)
    unfolding insert
    insert-IsSorted x [] h = (tt, tt)
    insert-IsSorted x (y ∷ ys) (q, h) = elim (gt_cases x y) [
      | inl e ↦
          rw (insert_gt x y ys e) (
            insert-All (λ z. cmp y z ≢ Ordering.gt) x ys (le_of_gt x y e) q,
            insert-IsSorted x ys h,
          )
      | inr e ↦ rw (insert_le x y ys e) ((e, All-le_trans x y ys e q), (q, h))
    ]

    pub sort_func-IsSorted : (xs : List A) → IsSorted (sort_func cmp xs)
    unfolding sort_func
    sort_func-IsSorted [] = tt
    sort_func-IsSorted (x ∷ xs) = insert-IsSorted x (sort_func cmp xs) (sort_func-IsSorted xs)

    insert_comm_lt :
        (x y : A) (zs : List A)
        → cmp x y ≡ Ordering.lt
        → insert cmp x (insert cmp y zs) ≡ insert cmp y (insert cmp x zs)
    unfolding insert
    insert_comm_lt x y [] p = ground (arith, o.flip x y)
    insert_comm_lt x y (z ∷ zs) p = ground (
      arith,
      insert_comm_lt x y zs p,
      o.flip x y,
      o.lt_trans x y z,
      o.eq_left z y x,
      o.flip y z,
      o.flip x z,
    )

    module _ {κ} (P : A → Type κ)
        (same : (x y : A) → P x → P y → cmp x y ≡ Ordering.eq → x ≡ y) where
      insert_comm :
          (x y : A) (zs : List A)
          → P x
          → P y
          → insert cmp x (insert cmp y zs) ≡ insert cmp y (insert cmp x zs)
      insert_comm x y zs p q = go (cmp x y) refl
        where
          go :
              (r : Ordering)
              → cmp x y ≡ r
              → insert cmp x (insert cmp y zs) ≡ insert cmp y (insert cmp x zs)
          go Ordering.lt e = insert_comm_lt x y zs e
          go Ordering.gt e = sym (insert_comm_lt y x zs (o.flip x y ∙ ap swap e))
          go Ordering.eq e = rw (same x y p q e)

      -- Where elements that compare equal are equal, the result is that of any rearrangement.
      pub sort_func-eq_of_perm :
          {xs ys : List A} → Permᴰ xs ys → All P xs → sort_func cmp xs ≡ sort_func cmp ys
      unfolding sort_func
      sort_func-eq_of_perm Permᴰ.nil h = refl
      sort_func-eq_of_perm (Permᴰ.cons e d) (p, h) = rw (e, sort_func-eq_of_perm d h)
      sort_func-eq_of_perm (Permᴰ.swap {a} {b} {l} e e') (p, (q, h)) =
          rw (← e, ← e') (insert_comm a b (sort_func cmp l) p q)
      sort_func-eq_of_perm (Permᴰ.trans d d') h =
          sort_func-eq_of_perm d h ∙ sort_func-eq_of_perm d' (All-perm P d h)
