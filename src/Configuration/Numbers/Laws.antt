-- ===== src/Configuration/Numbers/Laws.antt =====
-- When a number of the configuration is refused.
use splunk_otel_js.Common.{ℤ, Option, some, [], ◌∷◌, Text, codes, ◌≡◌, refl, ap, ◌∙◌, arith}
use splunk_otel_js.Common.Yaml.{Yaml, null}
use splunk_otel_js.Configuration.Document.{thrown, at}
use splunk_otel_js.Configuration.Instrumentations.{fetch_config_value}
use splunk_otel_js.Configuration.Numbers.{first_config_value, as_number, get_config_number}

attribute_count_limit-fetch :
    (config : Yaml)
    → fetch_config_value (codes "OTEL_ATTRIBUTE_COUNT_LIMIT") config
      ≡ at config "attribute_limits" "attribute_count_limit"
unfolding fetch_config_value
attribute_count_limit-fetch config = refl

first_config_value-one :
    (key : Text) (config : Yaml) (v : Yaml)
    → fetch_config_value key config ≡ some v
    → first_config_value (key ∷ []) config ≡ some v
unfolding first_config_value
first_config_value-one key config v h = ground (arith, h)

module _ (parse_float : Text → Option ℤ) (environ : Text → Option Text) where
  -- A limit of `null` in the document is refused.
  pub attribute_count_limit-null :
      (config : Yaml) (default_value : ℤ)
      → at config "attribute_limits" "attribute_count_limit" ≡ some null
      → get_config_number parse_float environ
          (some config)
          (codes "OTEL_ATTRIBUTE_COUNT_LIMIT" ∷ [])
          default_value
        ≡ thrown
  unfolding get_config_number
  attribute_count_limit-null config default_value h =
      ap (λ v. as_number v default_value)
        (first_config_value-one (codes "OTEL_ATTRIBUTE_COUNT_LIMIT") config null
          (attribute_count_limit-fetch config ∙ h))
