-- ===== src/Classify/Cut.antt =====
-- The part of a response that is taken for JSON.
use rillan.Base.{
  ◌≡◌, refl, ◌∙◌, ap, inl, inr, ◌==◌, false, none, some, [], ◌∷◌, ◌++◌, any, arith, Str, Bool-cases,
  Option-cases,
}
use rillan.Classify.{from_open, to_close, object_of}

-- A text is cut from a response at its first opening and its last closing brace.
pub record IsCut (response object : Str) : Type 0 where
  pub before : Str
  pub after : Str
  pub parts : response ≡ before ++ (object ++ after)
  pub first : any (λ c. c == b'{') before ≡ false
  pub last : any (λ c. c == b'}') after ≡ false

from_open_lem :
    (s t : Str)
    → from_open s ≡ some t
    → (before : Str) × (s ≡ before ++ t) × (any (λ c. c == b'{') before ≡ false)
unfolding from_open
from_open_lem [] t e = absurd (cc)
from_open_lem (c ∷ s) t e = elim (Bool-cases (c == b'{')) [
  | inl opens ↦ ([], ground (arith, e, opens), refl)
  | inr other ↦
      let later : from_open s ≡ some t = ground (arith, e, other) in
      let (before, parts, free) = from_open_lem s t later in
      (c ∷ before, ap (◌∷◌ c) parts, ground (arith, other, free))
]

to_close-none : (s : Str) → to_close s ≡ none → any (λ c. c == b'}') s ≡ false
unfolding to_close
to_close-none [] e = refl
to_close-none (c ∷ s) e = elim (Option-cases (to_close s)) [
  | inl absent ↦ ground (arith, e, absent, to_close-none s absent)
  | inr (t, found) ↦ absurd (ground (arith, e, found))
]

to_close_lem :
    (s t : Str)
    → to_close s ≡ some t
    → (after : Str) × (s ≡ t ++ after) × (any (λ c. c == b'}') after ≡ false)
unfolding to_close
to_close_lem [] t e = absurd (cc)
to_close_lem (c ∷ s) t e = elim (Option-cases (to_close s)) [
  | inl absent ↦
      let here : t ≡ c ∷ [] = ground (arith, e, absent) in (s, rw here refl, to_close-none s absent)
  | inr (u, found) ↦
      let longer : t ≡ c ∷ u = ground (arith, e, found) in
      let (after, parts, free) = to_close_lem s u found in (after, rw (longer, parts) refl, free)
]

pub object_of-IsCut :
    (response object : Str) → object_of response ≡ some object → IsCut response object
unfolding object_of
object_of-IsCut response object e = elim (Option-cases (from_open response)) [
  | inl absent ↦ absurd (ground (arith, e, absent))
  | inr (s, opened) ↦
      let (before, front, no_open) = from_open_lem response s opened in
      let closed : to_close s ≡ some object = ground (arith, e, opened) in
      let (after, back, no_close) = to_close_lem s object closed in
      record {
        before = before;
        after = after;
        parts = front ∙ ap (λ u. before ++ u) back;
        first = no_open;
        last = no_close;
      }
]
