-- ===== src/Configuration/Instrumentations/Laws.antt =====
-- The instrumentations under a declarative configuration: src/instrumentations/index.ts with
-- fetchConfigValue of src/configuration.ts.
use mathlib.Core.Bool.{and-eq-true_iff}
use splunk_otel_js.Common.{
  Bool, true, false, not, ◌&&◌, Option, none, some, List, [], ◌∷◌, Text, codes, ◌===◌, nat_eq,
  bool_eq, list_eq, string_eq, option_eq, ===_iff, is_some, find, ◌≡◌, refl, ap, ◌∙◌, arith,
  Option-cases, inl, inr, if◌then◌else◌, starts_with, lower,
}
use splunk_otel_js.Common.Yaml.{Yaml, null, number, text, sequence, mapping, boolean, property}
use splunk_otel_js.Configuration.Document.{
  returned, thrown, ◌>>=◌, cases, splunk_config, limit_cases, profiling_cases, splunk_cases,
}
use splunk_otel_js.Configuration.Instrumentations.{
  InstrumentationInfo, bundled_instrumentations, info_of, fetch_config_value, get_config_boolean,
  env_key, enabled_value, chosen, get_instrumentations_to_load, keep, reject_both, default_enabled,
  as_boolean,
}

same_info : InstrumentationInfo → InstrumentationInfo → Bool
same_info i j = i.short_name === j.short_name && i.disabled_by_default === j.disabled_by_default

same_info_sound : (i j : InstrumentationInfo) → same_info i j ≡ true → i ≡ j
unfolding same_info
same_info_sound i j h = ground (
  arith,
  h,
  ===_iff i.short_name j.short_name,
  ===_iff i.disabled_by_default j.disabled_by_default,
)

-- Whether the key of each instrumentation leads back to it.
found : Option InstrumentationInfo → InstrumentationInfo → Bool
unfolding same_info
found none i = false
found (some j) i = same_info j i

all_found : List InstrumentationInfo → Bool
unfolding found
all_found [] = true
all_found (i ∷ is) =
    let rest = all_found is in
    (not (is_some (find (env_key i) cases)) && found (info_of (env_key i)) i) && rest

bundled-all_found : all_found bundled_instrumentations ≡ true
unfolding all_found cases info_of env_key starts_with lower
bundled-all_found = refl

info_of-found :
    (o : Option InstrumentationInfo) (i : InstrumentationInfo) → found o i ≡ true → o ≡ some i
unfolding found
info_of-found none i h = cc h
info_of-found (some j) i h = ap (λ x. some x) (same_info_sound j i h)

-- The instrumentations that a document leaves enabled.
abbrev pub enabled_of : Yaml → List InstrumentationInfo → List InstrumentationInfo
unfolding enabled_value
enabled_of config [] = []
enabled_of config (i ∷ is) =
    let rest = enabled_of config is in if enabled_value config i then i ∷ rest else rest

get_config_boolean-found :
    (environ : Text → Option Text) (config : Yaml) (i : InstrumentationInfo) (d : Bool)
    → (not (is_some (find (env_key i) cases)) && found (info_of (env_key i)) i) ≡ true
    → get_config_boolean environ (some config) (env_key i) d ≡ returned (enabled_value config i)
unfolding get_config_boolean fetch_config_value
get_config_boolean-found environ config i d h = elim (Option-cases (find (env_key i) cases)) [
  | inl no_case ↦
      ground (arith, no_case, info_of-found (info_of (env_key i)) i (ground (arith, h, no_case)))
  | inr (read, e) ↦ ground (arith, e, h)
]

keep-enabled :
    (b : Bool) (i : InstrumentationInfo) (is : List InstrumentationInfo)
    → keep (returned b) i (returned is) ≡ returned (if b then i ∷ is else is)
keep-enabled true i is = refl
keep-enabled false i is = refl

-- `use_bundled_instrumentations` is left out, or a Boolean.
abbrev pub is_boolean_or_absent : Option Yaml → Bool
is_boolean_or_absent none = true
is_boolean_or_absent (some (boolean b)) = true
is_boolean_or_absent (some _) = false

-- The reading of it.
common :
    (environ : Text → Option Text) (config : Yaml)
    → get_config_boolean environ
        (some config)
        (codes "OTEL_INSTRUMENTATION_COMMON_DEFAULT_ENABLED")
        true
      ≡ as_boolean (property (splunk_config config) "use_bundled_instrumentations") true
unfolding get_config_boolean fetch_config_value cases limit_cases profiling_cases splunk_cases
common environ config = refl

chosen-enabled_of :
    (environ : Text → Option Text) (config : Yaml) (b : Bool) (is : List InstrumentationInfo)
    → all_found is ≡ true
    → chosen environ (some config) b is ≡ returned (enabled_of config is)
unfolding chosen all_found enabled_of
chosen-enabled_of environ config b [] h = refl
chosen-enabled_of environ config b (i ∷ is) h =
    let (this, others) = (and-eq-true_iff _ _).0 h in
    rw
      (
        get_config_boolean-found environ config i (default_enabled b i) this,
        chosen-enabled_of environ config b is others,
      )
      (keep-enabled (enabled_value config i) i (enabled_of config is))

-- What follows the reading.
with_common :
    (environ : Text → Option Text) (config : Yaml) (v : Option Yaml)
    → (as_boolean v true
        >>= (λ d. reject_both (chosen environ (some config) d bundled_instrumentations)))
      ≡ (if is_boolean_or_absent v
          then reject_both (returned (enabled_of config bundled_instrumentations))
          else thrown)
with_common environ config none =
    ap reject_both
      (chosen-enabled_of environ config true bundled_instrumentations bundled-all_found)
with_common environ config (some (boolean b)) =
    ap reject_both (chosen-enabled_of environ config b bundled_instrumentations bundled-all_found)
with_common environ config (some null) = refl
with_common environ config (some (number n)) = refl
with_common environ config (some (text t)) = refl
with_common environ config (some (sequence vs)) = refl
with_common environ config (some (mapping fs)) = refl

-- Under a declarative configuration the bundled instrumentations that are loaded are those that the
-- document does not disable and that are not disabled by default, whether
-- `use_bundled_instrumentations` is left out, true or false; and any other value of it is refused.
pub get_instrumentations_to_load-declared :
    (environ : Text → Option Text) (config : Yaml)
    → get_instrumentations_to_load environ (some config) ≡ (
        if is_boolean_or_absent (property (splunk_config config) "use_bundled_instrumentations")
        then reject_both (returned (enabled_of config bundled_instrumentations))
        else thrown)
unfolding get_instrumentations_to_load
get_instrumentations_to_load-declared environ config =
    ap (λ r. r >>= (λ d. reject_both (chosen environ (some config) d bundled_instrumentations)))
      (common environ config)
    ∙ with_common environ config (property (splunk_config config) "use_bundled_instrumentations")
