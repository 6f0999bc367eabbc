-- ===== src/Config/Presets.antt =====
-- internal/config/config.go: the bundled provider presets.
use rillan.Base.{Str, lit, str_eq, normalize_string, List, [], ◌∷◌, find, Option}
use rillan.Config.Types.{LlmProviderPreset}
use rillan.Config.Constants.{provider_openai_compatible, provider_anthropic, auth_api_key}

-- What the six presets share.
abbrev preset_of : Str → Str → Str → Str → LlmProviderPreset
preset_of id family endpoint model = record {
  id = id;
  family = family;
  endpoint = endpoint;
  auth_strategy = auth_api_key;
  default_model = model;
  model_pins = model ∷ [];
  capabilities = lit "chat" ∷ lit "reasoning" ∷ lit "tool_calling" ∷ [];
}

unfoldable pub bundled_llm_provider_presets : List LlmProviderPreset
bundled_llm_provider_presets =
    preset_of (lit "openai") provider_openai_compatible (lit "https://api.openai.com/v1")
      (lit "gpt-5")
    ∷ preset_of (lit "anthropic") provider_anthropic (lit "https://api.anthropic.com")
        (lit "claude-sonnet-4-5")
    ∷ preset_of (lit "xai") provider_openai_compatible (lit "https://api.x.ai/v1") (lit "grok-4")
    ∷ preset_of (lit "deepseek") provider_openai_compatible (lit "https://api.deepseek.com/v1")
        (lit "deepseek-chat")
    ∷ preset_of (lit "kimi") provider_openai_compatible (lit "https://api.moonshot.ai/v1")
        (lit "kimi-k2-0711-preview")
    ∷ preset_of (lit "zai") provider_openai_compatible (lit "https://api.z.ai/api/paas/v4")
        (lit "glm-4.5")
    ∷ []

-- `BundledLLMProviderPreset`: `none` stands for the preset with an empty id.
unfoldable pub bundled_llm_provider_preset : Str → Option LlmProviderPreset
unfolding bundled_llm_provider_presets
bundled_llm_provider_preset id =
    find (λ preset. str_eq preset.id (normalize_string id)) bundled_llm_provider_presets
