-- ===== src/Handler/Plan/Caps.antt =====
-- The context of a request whose retrieval is planned is within the plan.
use rillan.Base.{
  refl, ap, subst, ◌∙◌, ◌||◌, ◌≡◌, inl, inr, ℕ, ◌≤◌, ltb_ℤ, ℤ, pos, true, false, Option, none, some,
  arith, if◌then◌else◌, Bool-cases,
}
use rillan.Config.{RetrievalConfig}
use rillan.Policy.{RetrievalPlan}
use rillan.Retrieval.{Settings, RetrievalOptions, or_default, too_small, resolve_settings}
use rillan.Chat.{ChatCompletionRequest}
use rillan.Handler.Plan.{is_above, no_options, cap_option, capped_options, apply_retrieval_plan}

-- The lower of a cap and a setting.
abbrev pub lower : ℕ → ℤ → ℤ
lower cap setting = if ltb_ℤ (pos cap) setting then pos cap else setting

-- A number that is resolved from its option, and is not too small, is capped with the option.
cap_option-lower :
    (fallback : ℤ) (cap : ℕ) (option : Option ℤ)
    → 1 ≤ cap
    → too_small option ≡ false
    → (too_small (cap_option cap (or_default fallback option) option) ≡ false)
      × (or_default fallback (cap_option cap (or_default fallback option) option)
          ≡ lower cap (or_default fallback option))
cap_option-lower fallback cap none h ok = ground (arith, h)
cap_option-lower fallback cap (some n) h ok = ground (arith, h, ok)

-- The settings of options whose numbers are not too small.
abbrev settings_of : RetrievalConfig → RetrievalOptions → Settings
settings_of defaults o = record {
  enabled = or_default defaults.enabled o.enabled;
  top_k = or_default defaults.top_k o.top_k;
  max_context_chars = or_default defaults.max_context_chars o.max_context_chars;
}

resolved_lem :
    (defaults : RetrievalConfig) (ro : Option RetrievalOptions) (s : Settings)
    → resolve_settings defaults ro ≡ inr s
    → (too_small (or_default no_options ro).top_k ≡ false)
      × (too_small (or_default no_options ro).max_context_chars ≡ false)
      × (settings_of defaults (or_default no_options ro) ≡ s)
unfolding resolve_settings
resolved_lem defaults none s e = ground (arith, e)
resolved_lem defaults (some o) s e = ground (arith, e)

resolve_settings-capped :
    (defaults : RetrievalConfig) (o : RetrievalOptions) (plan : RetrievalPlan)
    → too_small o.top_k ≡ false
    → too_small o.max_context_chars ≡ false
    → 1 ≤ plan.top_k_cap
    → 1 ≤ plan.max_context_chars
    → resolve_settings defaults (some (capped_options plan (settings_of defaults o) o))
      ≡ inr (record {
        enabled = or_default defaults.enabled o.enabled;
        top_k = lower plan.top_k_cap (settings_of defaults o).top_k;
        max_context_chars = lower plan.max_context_chars (settings_of defaults o).max_context_chars;
      })
unfolding resolve_settings
resolve_settings-capped defaults o plan p q k m =
    let (top, top_lower) = cap_option-lower defaults.top_k plan.top_k_cap o.top_k k p in
    let (chars, chars_lower) =
      cap_option-lower defaults.max_context_chars plan.max_context_chars o.max_context_chars m q in
    rw (top, chars, top_lower, chars_lower) refl

module _ {F : Type 0} where
  -- A plan that applies bounds the settings of the request that it is applied to, where its caps
  -- are positive and the retrieval is enabled in the settings: the request's new settings, which
  -- resolve, are still enabled, and each number is the old one, or the cap if that is lower.
  pub apply_retrieval_plan-caps :
      (defaults : RetrievalConfig) (req : ChatCompletionRequest F) (plan : RetrievalPlan)
      (old : Settings)
      → resolve_settings defaults req.retrieval ≡ inr old
      → plan.apply ≡ true
      → old.enabled ≡ true
      → 1 ≤ plan.top_k_cap
      → 1 ≤ plan.max_context_chars
      → (new : Settings) × (resolve_settings defaults (apply_retrieval_plan req plan old).retrieval
          ≡ inr new)
        × (new.enabled ≡ true)
        × (new.top_k ≡ lower plan.top_k_cap old.top_k)
        × (new.max_context_chars ≡ lower plan.max_context_chars old.max_context_chars)
  unfolding apply_retrieval_plan resolve_settings
  apply_retrieval_plan-caps defaults req plan old resolved on enabled k m =
      let o = or_default no_options req.retrieval in
      let (p, q, same) = resolved_lem defaults req.retrieval old resolved in
      let capped : resolve_settings defaults (some (capped_options plan old o))
          ≡ inr (record {
            enabled = old.enabled;
            top_k = lower plan.top_k_cap old.top_k;
            max_context_chars = lower plan.max_context_chars old.max_context_chars;
          }) =
        subst
          (λ (x : Settings).
            resolve_settings defaults (some (capped_options plan x o))
            ≡ inr (record {
              enabled = x.enabled;
              top_k = lower plan.top_k_cap x.top_k;
              max_context_chars = lower plan.max_context_chars x.max_context_chars;
            }))
          same (resolve_settings-capped defaults o plan p q k m) in
      elim (Bool-cases (
        is_above plan.top_k_cap old.top_k
        || is_above plan.max_context_chars old.max_context_chars)) [
          | inl over ↦ (
            _,
            ap (λ (r : ChatCompletionRequest F). resolve_settings defaults r.retrieval)
                  (replaced over)
                ∙ capped,
            enabled,
            refl,
            refl,
          )
          | inr within ↦ (
            old,
            ap (λ (r : ChatCompletionRequest F). resolve_settings defaults r.retrieval)
                  (kept within)
                ∙ resolved,
            enabled,
            ground (arith, k, within),
            ground (arith, m, within),
          )
        ]
    where
      replaced :
          is_above plan.top_k_cap old.top_k || is_above plan.max_context_chars old.max_context_chars
            ≡ true
          → apply_retrieval_plan req plan old ≡ record req {
            retrieval = some (capped_options plan old (or_default no_options req.retrieval));
          }
      replaced over = ground (arith, on, enabled, over)

      kept :
          is_above plan.top_k_cap old.top_k || is_above plan.max_context_chars old.max_context_chars
            ≡ false
          → apply_retrieval_plan req plan old ≡ req
      kept within = ground (arith, on, enabled, within)
