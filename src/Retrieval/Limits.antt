-- ===== src/Retrieval/Limits.antt =====
-- The settings that a request may override.
use mathlib.Core.Sum.{inr-injective}
use rillan.Base.{
  subst, sym, ◌∙◌, Bool-cases, ◌≡◌, inl, inr, pos, ltb_ℤ, false, Option, none, some, arith, ℤ,
}
use rillan.Config.{RetrievalConfig}
use rillan.Retrieval.{Settings, RetrievalOptions, resolve_settings, too_small, or_default}

or_default-positive :
    (n : ℤ) (o : Option ℤ)
    → ltb_ℤ n (pos 1) ≡ false
    → too_small o ≡ false
    → ltb_ℤ (or_default n o) (pos 1) ≡ false
or_default-positive n none h e = h
or_default-positive n (some m) h e = e

settled :
    (defaults : RetrievalConfig) (override : RetrievalOptions)
    → too_small override.top_k ≡ false
    → too_small override.max_context_chars ≡ false
    → resolve_settings defaults (some override)
      ≡ inr (record {
        enabled = or_default defaults.enabled override.enabled;
        top_k = or_default defaults.top_k override.top_k;
        max_context_chars = or_default defaults.max_context_chars override.max_context_chars;
      })
unfolding resolve_settings
settled defaults override large wide = rw (large, wide, resolve_settings)

-- With defaults of at least one result and one byte, settings that are resolved ask for at least
-- one of each, whatever the request overrides.
pub resolve_settings-positive :
    (defaults : RetrievalConfig) (override : Option RetrievalOptions) (settings : Settings)
    → ltb_ℤ defaults.top_k (pos 1) ≡ false
    → ltb_ℤ defaults.max_context_chars (pos 1) ≡ false
    → resolve_settings defaults override ≡ inr settings
    → (ltb_ℤ settings.top_k (pos 1) ≡ false) × (ltb_ℤ settings.max_context_chars (pos 1) ≡ false)
unfolding resolve_settings
resolve_settings-positive defaults none settings h k e =
    subst
      (λ (s : Settings).
        (ltb_ℤ s.top_k (pos 1) ≡ false) × (ltb_ℤ s.max_context_chars (pos 1) ≡ false))
      (inr-injective _ _ e) (h, k)
resolve_settings-positive defaults (some override) settings h k e =
    elim (Bool-cases (too_small override.top_k)) [
      | inl small ↦ absurd (ground (arith, e, small))
      | inr large ↦ elim (Bool-cases (too_small override.max_context_chars)) [
        | inl small ↦ absurd (ground (arith, e, large, small))
        | inr wide ↦
            subst
              (λ (s : Settings).
                (ltb_ℤ s.top_k (pos 1) ≡ false) × (ltb_ℤ s.max_context_chars (pos 1) ≡ false))
              (inr-injective _ _ (sym (settled defaults override large wide) ∙ e))
              (
                or_default-positive defaults.top_k override.top_k h large,
                or_default-positive defaults.max_context_chars override.max_context_chars k wide,
              )
      ]
    ]
