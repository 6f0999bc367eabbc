-- ===== src/Base/Results.antt =====
-- Results that are an error or a value, as sums, for `do` blocks.
use mathlib.Core.Path.{◌≡◌, refl}
use mathlib.Core.Logic.{◌⊎◌, inl, inr}
use mathlib.Core.Bool.{Bool, true, false}
use mathlib.Core.Option
use mathlib.Core.Option.{Option, none, some}

-- What os.ReadFile gives: there may be no file, or it cannot be read.
pub data ReadFile {ℓ} (Bytes : Type ℓ) : Type ℓ where
  absent unreadable : ReadFile Bytes
  content : Bytes → ReadFile Bytes

infixl 5 ◌>>=◌ ◌>>◌
abbrev pub ◌>>=◌ {ℓ κ} : {E A : Type ℓ} {B : Type κ} → E ⊎ A → (A → E ⊎ B) → E ⊎ B
inl e >>= f = inl e
inr a >>= f = f a

abbrev pub ◌>>◌ {ℓ κ} : {E : Type ℓ} {B : Type κ} → E ⊎ Unit {ℓ} → E ⊎ B → E ⊎ B
m >> k = m >>= λ _. k

-- An early return of an error.
abbrev pub fail_if : {E : Type 0} → Bool → E → E ⊎ Unit {0}
fail_if true e = inl e
fail_if false e = inr tt

abbrev pub or_error : {E A : Type 0} → E → Option A → E ⊎ A
or_error e none = inl e
or_error e (some a) = inr a

-- No error, or one.
abbrev pub or_none : {E : Type 0} → Option E → E ⊎ Unit {0}
or_none none = inr tt
or_none (some e) = inl e

-- The parts of a sequence that gives a value.
pub >>=-eq-inr {ℓ κ} :
    {E A : Type ℓ} {B : Type κ} (m : E ⊎ A) (f : A → E ⊎ B) {b : B}
    → (m >>= f) ≡ inr b
    → (a : A) × (m ≡ inr a) × (f a ≡ inr b)
>>=-eq-inr (inr a) f h = (a, refl, h)
>>=-eq-inr (inl e) f h = absurd (cc)

pub fail_if-eq-inr :
    {E : Type 0} (b : Bool) (e : E) {u : Unit {0}} → fail_if b e ≡ inr u → b ≡ false
fail_if-eq-inr true e h = absurd (cc)
fail_if-eq-inr false e h = refl

pub or_error-eq-inr :
    {E A : Type 0} (e : E) (o : Option A) {a : A} → or_error e o ≡ inr a → o ≡ some a
or_error-eq-inr e none h = absurd (cc)
or_error-eq-inr e (some b) h = cc

pub or_none-map-eq-inr :
    {D E : Type 0} (f : D → E) (o : Option D) {u : Unit {0}}
    → or_none (Option.map f o) ≡ inr u
    → o ≡ none
or_none-map-eq-inr f none h = refl
or_none-map-eq-inr f (some d) h = absurd (cc)
