-- ===== src/Base/Trim.antt =====
-- A trimmed text is trimmed.
use mathlib.Core.List.{reverse-append, reverse-reverse}
use rillan.Base.{
  ◌≡◌, refl, sym, ap, ◌∙◌, [], ◌∷◌, ◌++◌, reverse, arith, Str, is_space, trim_left, trim_space,
  length, length-trim_left-le, Bool-cases, inl, inr,
}

trim_left-trim_left : (s : Str) → trim_left (trim_left s) ≡ trim_left s
unfolding trim_left
trim_left-trim_left [] = refl
trim_left-trim_left (c ∷ s) = elim (Bool-cases (is_space c)) [
  | inl space ↦ rw (space, trim_left) (trim_left-trim_left s)
  | inr solid ↦ ground (arith, solid)
]

-- What trimming takes off the front.
trimmed_front : (s : Str) → (front : Str) × (s ≡ front ++ trim_left s)
unfolding trim_left
trimmed_front [] = ([], refl)
trimmed_front (c ∷ s) = elim (Bool-cases (is_space c)) [
  | inl space ↦
      let (front, e) = trimmed_front s in (c ∷ front, rw (space, trim_left) (ap (◌∷◌ c) e))
  | inr solid ↦ ([], rw (solid, trim_left))
]

-- A text that trimming leaves alone has a start that trimming leaves alone.
trim_left_start : (s t : Str) → trim_left (s ++ t) ≡ s ++ t → trim_left s ≡ s
unfolding trim_left
trim_left_start [] t h = refl
trim_left_start (c ∷ s) t h = elim (Bool-cases (is_space c)) [
  | inl space ↦
      let shrunk : trim_left (s ++ t) ≡ c ∷ (s ++ t) = ground (arith, h, space) in
      absurd (omega (arith, length-trim_left-le (s ++ t), ap length shrunk))
  | inr solid ↦ rw (solid, trim_left)
]

pub trim_space-trim_space : (s : Str) → trim_space (trim_space s) ≡ trim_space s
unfolding trim_space
trim_space-trim_space s =
    let u = trim_left s in
    let v = reverse (trim_left (reverse u)) in
    let (back, e) = trimmed_front (reverse u) in
    let whole : u ≡ v ++ reverse back =
      sym (reverse-reverse u) ∙ (ap reverse e ∙ reverse-append back (trim_left (reverse u))) in
    let left : trim_left v ≡ v =
      trim_left_start v (reverse back)
        (ap trim_left (sym whole) ∙ (trim_left-trim_left s ∙ whole)) in
    ap (λ x. reverse (trim_left (reverse x))) left
    ∙ (ap (λ x. reverse (trim_left x)) (reverse-reverse (trim_left (reverse u)))
        ∙ ap reverse (trim_left-trim_left (reverse u)))
