-- ===== src/Base/Map.antt =====
-- Writes to a Go map, kept as an association list: a write replaces the entry of its key, or adds
-- one.
use rillan.Base.{
  ◌≡◌, ◌≢◌, refl, if◌then◌else◌, none, some, List, [], ◌∷◌, arith, Str, str_eq, str_eq_iff, lookup,
  suc, length, is_none, ◌+◌,
}

module _ {ℓ} {V : Type ℓ} where
  unfoldable pub put : Str → V → List (Str × V) → List (Str × V)
  put key v [] = (key, v) ∷ []
  put key v ((k, w) ∷ m) =
      let rest = put key v m in if str_eq k key then (key, v) ∷ m else (k, w) ∷ rest

  pub lookup-put : (key : Str) (v : V) (m : List (Str × V)) → lookup key (put key v m) ≡ some v
  unfolding put lookup
  lookup-put key v [] = ground (arith, str_eq_iff key key)
  lookup-put key v ((k, w) ∷ m) =
      ground (arith, str_eq_iff key key, str_eq_iff k key, lookup-put key v m)

  pub lookup-put_other :
      (key other : Str) (v : V) (m : List (Str × V))
      → other ≢ key
      → lookup other (put key v m) ≡ lookup other m
  unfolding put lookup
  lookup-put_other key other v [] ne = ground (arith, ne, str_eq_iff key other)
  lookup-put_other key other v ((k, w) ∷ m) ne = ground (
    arith,
    ne,
    str_eq_iff k key,
    str_eq_iff key other,
    str_eq_iff k other,
    lookup-put_other key other v m ne,
  )

  -- A write to a key that is read back, and else one entry more.
  pub length-put :
      (key : Str) (v : V) (m : List (Str × V))
      → length (put key v m) ≡ (if is_none (lookup key m) then suc (length m) else length m)
  unfolding put lookup
  length-put key v [] = refl
  length-put key v ((k, w) ∷ m) = ground (arith, length-put key v m)

  pub length-put_fresh :
      (key : Str) (v : V) (m : List (Str × V))
      → lookup key m ≡ none
      → length (put key v m) ≡ length m + 1
  length-put_fresh key v m e = ground (arith, length-put key v m, e)
