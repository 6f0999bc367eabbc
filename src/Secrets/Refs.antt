-- ===== src/Secrets/Refs.antt =====
-- What references parse to.
use rillan.Base.{
  ℕ, ◌≡◌, ◌≢◌, ◌↔◌, inl, inr, refl, ap, ◌∙◌, true, none, some, [], ◌∷◌, ◌++◌, arith, Str, All, drop,
  length, trim_space, has_prefix, Option-cases,
}
use rillan.Secrets.{split_last, parse_ref, keyring_prefix}

-- No separator stands in a text.
abbrev pub Lacks : ℕ → Str → Type 0
Lacks sep s = All (λ c. c ≢ sep) s

split_last-none : (sep : ℕ) (s : Str) → split_last sep s ≡ none → Lacks sep s
unfolding split_last
split_last-none sep [] e = tt
split_last-none sep (c ∷ s) e = ground (arith, split_last-none sep s)

split_last-some :
    (sep : ℕ) (s before after : Str)
    → split_last sep s ≡ some (before, after)
    → (s ≡ before ++ (sep ∷ after)) × Lacks sep after
unfolding split_last
split_last-some sep [] before after e = cc
split_last-some sep (c ∷ s) before after e = elim (Option-cases (split_last sep s)) [
  | inl none_left ↦ ground (arith, none_left, split_last-none sep s none_left)
  | inr ((b, a), found) ↦
      let (whole, lacks) = split_last-some sep s b a found in ground (arith, found, whole, lacks)
]

split_last-Lacks : (sep : ℕ) (s : Str) → Lacks sep s → split_last sep s ≡ none
unfolding split_last
split_last-Lacks sep [] h = refl
split_last-Lacks sep (c ∷ s) (n, h) = rw (split_last-Lacks sep s h, split_last) (ground (arith, n))

split_last_append :
    (sep : ℕ) (before after : Str)
    → Lacks sep after
    → split_last sep (before ++ (sep ∷ after)) ≡ some (before, after)
unfolding split_last
split_last_append sep [] after h = rw (split_last-Lacks sep after h, split_last) (ground arith)
split_last_append sep (c ∷ before) after h = rw (split_last_append sep before after h, split_last)

has_prefix-drop : (s p : Str) → has_prefix s p ≡ true → s ≡ p ++ drop (length p) s
unfolding has_prefix
has_prefix-drop s [] e = refl
has_prefix-drop [] (c ∷ p) e = cc
has_prefix-drop (d ∷ s) (c ∷ p) e = ground (arith, has_prefix-drop s p)

has_prefix_append : (p s : Str) → (has_prefix (p ++ s) p ≡ true) × (drop (length p) (p ++ s) ≡ s)
unfolding has_prefix
has_prefix_append [] s = (refl, refl)
has_prefix_append (c ∷ p) s = ground (arith, has_prefix_append p s)

abbrev rest_of : Str → Str
rest_of ref = drop (length keyring_prefix) (trim_space ref)

ref_of_parse :
    (ref service account : Str)
    → parse_ref ref ≡ inr (service, account)
    → (has_prefix (trim_space ref) keyring_prefix ≡ true)
      × (split_last b'/' (rest_of ref) ≡ some (service, account))
      × (service ≢ [])
      × (account ≢ [])
unfolding parse_ref
ref_of_parse ref service account e = ground arith

parse_of_ref :
    (ref service account : Str)
    → has_prefix (trim_space ref) keyring_prefix ≡ true
    → split_last b'/' (rest_of ref) ≡ some (service, account)
    → service ≢ []
    → account ≢ []
    → parse_ref ref ≡ inr (service, account)
unfolding parse_ref
parse_of_ref ref service account p found s a = ground arith

-- A reference names a service and an account exactly if it reads keyring://service/account,
-- white space around it aside, with neither of them empty and no slash in the account.
pub parse_ref_iff :
    (ref service account : Str)
    → (parse_ref ref ≡ inr (service, account)) ↔ (
        (trim_space ref ≡ keyring_prefix ++ (service ++ (b'/' ∷ account)))
        × (service ≢ [])
        × (account ≢ [])
        × Lacks b'/' account)
parse_ref_iff ref service account = (
  λ e.
      let (p, found, s, a) = ref_of_parse ref service account e in
      let (whole, lacks) = split_last-some b'/' (rest_of ref) service account found in
      (
        has_prefix-drop (trim_space ref) keyring_prefix p ∙ ap (◌++◌ keyring_prefix) whole,
        s,
        a,
        lacks,
      ),
  λ h.
      let (whole, s, a, lacks) = h in
      let (starts, rest) = has_prefix_append keyring_prefix (service ++ (b'/' ∷ account)) in
      parse_of_ref ref service account (ap (λ t. has_prefix t keyring_prefix) whole ∙ starts)
        (ap (λ t. split_last b'/' (drop (length keyring_prefix) t)) whole
          ∙ (ap (split_last b'/') rest ∙ split_last_append b'/' service account lacks))
        s a,
)
