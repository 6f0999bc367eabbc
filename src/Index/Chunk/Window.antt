-- ===== src/Index/Chunk/Window.antt =====
-- Windows of a list of lines, and the text of one.
use rillan.Base.{
  join_lines, ◌≡◌, refl, sym, ap, subst, ℕ, zero, suc, ◌+◌, ◌-◌, ◌<◌, min, false, List, [], ◌∷◌,
  take, drop, length, is_empty, arith, Str,
}

add_zero : (n : ℕ) → 0 + n ≡ n
add_zero n = omega arith

add_suc : (m n : ℕ) → suc m + n ≡ suc (m + n)
add_suc m n = omega arith

sub_one : (n : ℕ) → suc n - 1 ≡ n
sub_one n = omega arith

module _ {ℓ} {A : Type ℓ} where
  length-drop : (n : ℕ) (xs : List A) → length (drop n xs) ≡ length xs - n
  length-drop zero xs = omega arith
  length-drop (suc n) [] = omega arith
  length-drop (suc n) (x ∷ xs) = omega (arith, length-drop n xs)

  drop_nil : (n : ℕ) → drop {A = A} n [] ≡ []
  drop_nil zero = refl
  drop_nil (suc n) = refl

  pub drop-drop : (m n : ℕ) (xs : List A) → drop (m + n) xs ≡ drop n (drop m xs)
  drop-drop zero n xs = rw (add_zero n) refl
  drop-drop (suc m) n [] = rw (add_suc m n) (sym (drop_nil n))
  drop-drop (suc m) n (x ∷ xs) = rw (add_suc m n) (drop-drop m n xs)

  -- A take beyond the end is one up to the end.
  take_all : (m n : ℕ) (xs : List A) → m ≡ min n (length xs) → take n xs ≡ take m xs
  take_all zero zero xs e = refl
  take_all (suc m) zero xs e = absurd (omega (arith, e))
  take_all zero (suc n) [] e = refl
  take_all (suc m) (suc n) [] e = refl
  take_all zero (suc n) (x ∷ xs) e = absurd (omega (arith, e))
  take_all (suc m) (suc n) (x ∷ xs) e = ap (◌∷◌ x) (take_all m n xs (omega (arith, e)))

  pub drop_beyond :
      (n : ℕ) (xs : List A) {x : A} {rest : List A} → drop n xs ≡ x ∷ rest → n < length xs
  drop_beyond zero [] e = absurd (cc)
  drop_beyond zero (x ∷ xs) e = omega arith
  drop_beyond (suc n) [] e = absurd (cc)
  drop_beyond (suc n) (x ∷ xs) e = omega (arith, drop_beyond n xs e)

pub window :
    (start size : ℕ) (lines : List Str)
    → take size (drop start lines)
      ≡ take (suc (min (start + size) (length lines)) - suc start) (drop (suc start - 1) lines)
window start size lines =
    rw (sub_one start) (take_all _ size (drop start lines) (omega (arith, length-drop start lines)))

join_head :
    (line : Str) (lines : List Str)
    → is_empty line ≡ false
    → is_empty (join_lines (line ∷ lines)) ≡ false
unfolding join_lines
join_head [] lines e = absurd (cc)
join_head (c ∷ s) [] e = refl
join_head (c ∷ s) (next ∷ lines) e = refl

join_tail :
    (line : Str) (lines : List Str)
    → is_empty (join_lines lines) ≡ false
    → is_empty (join_lines (line ∷ lines)) ≡ false
unfolding join_lines
join_tail line [] e = absurd (cc)
join_tail [] (next ∷ lines) e = refl
join_tail (c ∷ s) (next ∷ lines) e = refl

-- A window with a line that is not empty is not empty.
pub filled_window :
    (i size : ℕ) (lines : List Str) {line : Str} {rest : List Str}
    → drop i lines ≡ line ∷ rest
    → i < size
    → is_empty line ≡ false
    → is_empty (join_lines (take size lines)) ≡ false
filled_window i zero lines e within filled = absurd (omega arith)
filled_window zero (suc size) lines {line} {rest} e within filled =
    subst (λ ls. is_empty (join_lines (take (suc size) ls)) ≡ false) (sym e)
      (join_head line (take size rest) filled)
filled_window (suc i) (suc size) [] e within filled = absurd (cc)
filled_window (suc i) (suc size) (l ∷ lines) e within filled =
    join_tail l (take size lines) (filled_window i size lines e (omega arith) filled)
