-- ===== src/Base/Decimal.antt =====
-- Numbers in decimal, as `%d` and strconv.Itoa print them.
use mathlib.Core.List.{reverse-reverse}
use rillan.Base.{
  ◌≡◌, sym, ap, ◌∙◌, ℕ, zero, suc, ◌+◌, ◌-◌, ◌*◌, ◌/◌, ◌%◌, ◌<◌, ltb, if◌then◌else◌, [], ◌∷◌,
  reverse, arith, Str, ℤ, pos, negsuc,
}

-- The digits of a number, the lowest first; each step is worth one unit of fuel.
unfoldable digits : (fuel n : ℕ) → Str
digits zero n = []
digits (suc fuel) n =
    let rest = digits fuel (n / 10) in if ltb n 10 then (b'0' + n) ∷ [] else (b'0' + n % 10) ∷ rest

unfoldable pub decimal : ℕ → Str
unfolding digits
decimal n = reverse (digits (suc n) n)

-- `%d` of an int.
unfoldable pub decimal_ℤ : ℤ → Str
decimal_ℤ (pos n) = decimal n
decimal_ℤ (negsuc n) = b'-' ∷ decimal (suc n)

unfoldable value : Str → ℕ
value [] = 0
value (c ∷ s) = (c - b'0') + 10 * value s

value-digits : (fuel n : ℕ) → n < fuel → value (digits fuel n) ≡ n
unfolding digits value
value-digits zero n h = absurd (omega arith)
value-digits (suc fuel) n h = ground (arith, value-digits fuel (n / 10))

-- No two numbers print alike.
pub eq_of_decimal : (m n : ℕ) → decimal m ≡ decimal n → m ≡ n
unfolding decimal
eq_of_decimal m n e =
    sym (value-digits (suc m) m (omega arith))
    ∙ (ap value same ∙ value-digits (suc n) n (omega arith))
  where
    same : digits (suc m) m ≡ digits (suc n) n
    same =
        sym (reverse-reverse (digits (suc m) m))
        ∙ (ap reverse e ∙ reverse-reverse (digits (suc n) n))
