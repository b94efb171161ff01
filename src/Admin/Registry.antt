-- ===== src/Admin/Registry.antt =====
-- admin/registry.py: the definitions of the settings, and the keys of the templates.
use cine_gate.Base.{
  String, ℕ, Bool, false, ◌||◌, Option, none, some, List, [], ◌∷◌, str_eq, if◌then◌else◌,
}
use cine_gate.Models.{pos}
use cine_gate.Admin.Values.{
  SettingLibrary, Rule, int_range, float_range, duration_range, nonzero, archive_channel, https_url,
  block_id, Value, absent, integer, decimal,
}

abbrev pub template_keys : List String
template_keys =
    "welcome" ∷ "search_results" ∷ "search_no_results" ∷ "reward_prompt" ∷ "delivery_caption"
    ∷ "movie_unavailable" ∷ "stale_search" ∷ "reward_not_configured" ∷ "active_reward_conflict" ∷ []

-- Membership in the keys.
pub has_key : String → List String → Bool
has_key k [] = false
has_key k (l ∷ ls) = str_eq l k || has_key k ls

module _ (L : SettingLibrary) where
  -- A definition without its label, section, format and hint, which are shown only.
  pub record SettingDefinition : Type 0 where
    pub key : String
    pub default : Value L
    pub rule : Rule

  abbrev definition : String → Value L → Rule → SettingDefinition
  definition key default rule = record { key = key; default = default; rule = rule }

  abbrev number : ℕ → Value L
  number n = integer (pos n)

  -- `SETTINGS`.
  abbrev pub settings : List SettingDefinition
  settings =
      definition "movie_delete_seconds" (number 120) (duration_range 5 172000)
      ∷ definition "search_result_limit" (number 6) (int_range 1 10)
      ∷ definition "search_similarity_threshold" (decimal (L.hundredths 32)) (float_range 15 95)
      ∷ definition "source_channel_id" absent archive_channel
      ∷ definition "archive_channel_id" absent archive_channel
      ∷ definition "owner_chat_id" absent nonzero
      ∷ definition "public_base_url" absent https_url
      ∷ definition "adsgram_block_id" absent block_id
      ∷ definition "reward_session_seconds" (number 600) (duration_range 60 3600)
      ∷ definition "miniapp_init_data_max_age_seconds" (number 600) (duration_range 60 3600)
      ∷ []

  unfoldable pub find_definition : String → List SettingDefinition → Option SettingDefinition
  find_definition k [] = none
  find_definition k (d ∷ ds) = if str_eq d.key k then some d else find_definition k ds

  -- `get_setting_definition`; no definition is the validation error.
  abbrev pub get_setting_definition : String → Option SettingDefinition
  get_setting_definition k = find_definition k settings
