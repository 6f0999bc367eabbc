-- ===== src/Base/Member.antt =====
-- Membership with its position: how it meets permutations, filters, searches and `All`.
use mathlib.Core.Path.{◌≡◌, refl, sym, ◌∙◌, subst}
use mathlib.Core.Logic.{inl, inr}
use mathlib.Core.Bool.{Bool, true, false}
use mathlib.Core.List.{List, [], ◌∷◌, Memᴰ, Permᴰ}
use mathlib.Core.List.Memᴰ
use native.Mathlib.Omega.{arith}
use rillan.Base.Tests.{Bool-cases}
use rillan.Base.Lists.{All, any, keep}

module _ {ℓ} {A : Type ℓ} where
  pub mem-perm : {a : A} {xs ys : List A} → Permᴰ xs ys → Memᴰ a xs → Memᴰ a ys
  mem-perm Permᴰ.nil m = m
  mem-perm (Permᴰ.cons e d) (Memᴰ.head p) = Memᴰ.head (p ∙ e)
  mem-perm (Permᴰ.cons e d) (Memᴰ.tail m) = Memᴰ.tail (mem-perm d m)
  mem-perm (Permᴰ.swap e e') (Memᴰ.head p) = Memᴰ.tail (Memᴰ.head (p ∙ e))
  mem-perm (Permᴰ.swap e e') (Memᴰ.tail (Memᴰ.head p)) = Memᴰ.head (p ∙ e')
  mem-perm (Permᴰ.swap e e') (Memᴰ.tail (Memᴰ.tail m)) = Memᴰ.tail (Memᴰ.tail m)
  mem-perm (Permᴰ.trans d d') m = mem-perm d' (mem-perm d m)

  pub of_mem-All {κ} : (P : A → Type κ) {a : A} (xs : List A) → All P xs → Memᴰ a xs → P a
  of_mem-All P [] h m = elim m [ ]
  of_mem-All P (x ∷ xs) (p, h) (Memᴰ.head e) = rw e p
  of_mem-All P (x ∷ xs) (p, h) (Memᴰ.tail m) = of_mem-All P xs h m

  pub All-of_mem {κ} : (P : A → Type κ) (xs : List A) → ((a : A) → Memᴰ a xs → P a) → All P xs
  All-of_mem P [] h = tt
  All-of_mem P (x ∷ xs) h = (h x (Memᴰ.head refl), All-of_mem P xs (λ a m. h a (Memᴰ.tail m)))

  module _ (p : A → Bool) where
    keep_cons : (x : A) (xs : List A) → p x ≡ true → keep p (x ∷ xs) ≡ x ∷ keep p xs
    keep_cons x xs e = rw e

    keep_skip : (x : A) (xs : List A) → p x ≡ false → keep p (x ∷ xs) ≡ keep p xs
    keep_skip x xs e = rw e

    pub mem_of_keep : {a : A} (xs : List A) → Memᴰ a (keep p xs) → Memᴰ a xs × (p a ≡ true)
    mem_of_keep [] m = absurd (Memᴰ.not-nil m)
    mem_of_keep {a} (x ∷ xs) m = elim (Bool-cases (p x)) [
      | inl e ↦ elim (Memᴰ.cases_cons (subst (Memᴰ a) (keep_cons x xs e) m)) [
        | inl q ↦ (Memᴰ.head q, rw q e)
        | inr m' ↦ let (n, h) = mem_of_keep xs m' in (Memᴰ.tail n, h)
      ]
      | inr e ↦
          let (n, h) = mem_of_keep xs (subst (Memᴰ a) (keep_skip x xs e) m) in (Memᴰ.tail n, h)
    ]

    pub keep_of_mem : {a : A} (xs : List A) → Memᴰ a xs → p a ≡ true → Memᴰ a (keep p xs)
    keep_of_mem [] m h = elim m [ ]
    keep_of_mem {a} (x ∷ xs) (Memᴰ.head q) h =
        subst (Memᴰ a) (sym (keep_cons x xs (rw (← q) h))) (Memᴰ.head q)
    keep_of_mem {a} (x ∷ xs) (Memᴰ.tail m) h = elim (Bool-cases (p x)) [
      | inl e ↦ subst (Memᴰ a) (sym (keep_cons x xs e)) (Memᴰ.tail (keep_of_mem xs m h))
      | inr e ↦ subst (Memᴰ a) (sym (keep_skip x xs e)) (keep_of_mem xs m h)
    ]

    pub mem_of_any : (xs : List A) → any p xs ≡ true → (a : A) × Memᴰ a xs × (p a ≡ true)
    mem_of_any [] h = cc
    mem_of_any (x ∷ xs) h = elim (Bool-cases (p x)) [
      | inl e ↦ (x, Memᴰ.head refl, e)
      | inr e ↦
          let later : any p xs ≡ true = ground arith in
          let (a, m, q) = mem_of_any xs later in (a, Memᴰ.tail m, q)
    ]

    pub any_of_mem : {a : A} (xs : List A) → Memᴰ a xs → p a ≡ true → any p xs ≡ true
    any_of_mem [] m h = elim m [ ]
    any_of_mem (x ∷ xs) (Memᴰ.head q) h = rw (← q, h)
    any_of_mem (x ∷ xs) (Memᴰ.tail m) h = ground (arith, any_of_mem xs m h)
