-- ===== src/Configuration/Numbers.antt =====
-- The readers of numbers: getEnvNumber of src/utils.ts and getConfigNumber of src/configuration.ts.
-- A number is a whole one. `parseFloat` is an argument: it gives nothing where JavaScript gives NaN.
pub mod Laws
use splunk_otel_js.Common.{ℤ, Option, none, some, List, [], ◌∷◌, Text}
use splunk_otel_js.Common.Yaml.{Yaml, number}
use splunk_otel_js.Configuration.Env.{get_env_value_by_precedence}
use splunk_otel_js.Configuration.Document.{Checked, returned, thrown}
use splunk_otel_js.Configuration.Instrumentations.{fetch_config_value}

-- The first of the keys that has a value in the document.
unfoldable pub first_config_value : List Text → Yaml → Option Yaml
unfolding fetch_config_value
first_config_value [] config = none
first_config_value (k ∷ ks) config =
    let rest = first_config_value ks config in
    elim (fetch_config_value k config) [ none ↦ rest | some v ↦ some v ]

abbrev pub as_number : Option Yaml → ℤ → Checked ℤ
as_number none default_value = returned default_value
as_number (some (number n)) default_value = returned n
as_number (some _) default_value = thrown

module _ (parse_float : Text → Option ℤ) (environ : Text → Option Text) where
  abbrev pub parsed : Option Text → ℤ → ℤ
  parsed none default_value = default_value
  parsed (some t) default_value = elim (parse_float t) [ none ↦ default_value | some n ↦ n ]

  -- A single key is a list of one.
  unfoldable pub get_env_number : List Text → ℤ → ℤ
  unfolding get_env_value_by_precedence
  get_env_number keys default_value =
      parsed (get_env_value_by_precedence environ keys none) default_value

  unfoldable pub get_config_number : Option Yaml → List Text → ℤ → Checked ℤ
  unfolding get_env_number first_config_value
  get_config_number global keys default_value = elim global [
    | none ↦ returned (get_env_number keys default_value)
    | some config ↦ as_number (first_config_value keys config) default_value
  ]
