-- ===== src/Configuration/Instrumentations.antt =====
-- The choice of instrumentations in src/instrumentations/index.ts, and the part of fetchConfigValue
-- of src/configuration.ts that answers for them; the readers getConfigBoolean, getConfigArray and
-- getNonEmptyConfigVar.
pub mod Laws
use splunk_otel_js.Common.{
  ℕ, ℤ, Bool, true, false, not, ◌&&◌, ◌||◌, Option, none, some, List, [], ◌∷◌, ◌++◌, map, Text,
  codes, String, ◌===◌, nat_eq, list_eq, string_eq, if◌then◌else◌, is_some, or_else, find, lower,
  starts_with, drop, take, length, ◌-◌, ◌+◌, leb, decimal, pos, negsuc,
}
use splunk_otel_js.Common.Yaml.{
  Yaml, null, boolean, number, text, sequence, mapping, Items, nil, cons, property,
}
use splunk_otel_js.Configuration.Env.{
  get_env_boolean, get_env_array, get_non_empty_env_var, lower_case,
}
use splunk_otel_js.Configuration.Document.{Checked, returned, thrown, ◌>>=◌, splunk_config, cases}

-- `create` is left out; `disabledByDefault` can be absent.
pub record InstrumentationInfo : Type 0 where
  pub short_name : String
  pub disabled_by_default : Option Bool

abbrev pub enabled_unless : String → InstrumentationInfo
enabled_unless name = record { short_name = name; disabled_by_default = none }

abbrev pub bundled_instrumentations : List InstrumentationInfo
bundled_instrumentations =
    enabled_unless "amqplib"
    ∷ enabled_unless "aws_sdk"
    ∷ enabled_unless "bunyan"
    ∷ enabled_unless "cassandra_driver"
    ∷ enabled_unless "connect"
    ∷ enabled_unless "dataloader"
    ∷ enabled_unless "dns"
    ∷ enabled_unless "express"
    ∷ enabled_unless "fastify"
    ∷ enabled_unless "generic_pool"
    ∷ enabled_unless "graphql"
    ∷ enabled_unless "grpc"
    ∷ enabled_unless "hapi"
    ∷ enabled_unless "http"
    ∷ enabled_unless "ioredis"
    ∷ enabled_unless "kafkajs"
    ∷ enabled_unless "knex"
    ∷ enabled_unless "koa"
    ∷ enabled_unless "lru_memoizer"
    ∷ enabled_unless "memcached"
    ∷ enabled_unless "mongodb"
    ∷ enabled_unless "mongoose"
    ∷ enabled_unless "mysql"
    ∷ enabled_unless "mysql2"
    ∷ enabled_unless "neo4j"
    ∷ enabled_unless "nestjs_core"
    ∷ enabled_unless "net"
    ∷ enabled_unless "nocode"
    ∷ enabled_unless "openai"
    ∷ enabled_unless "oracle"
    ∷ enabled_unless "pg"
    ∷ enabled_unless "pino"
    ∷ enabled_unless "redis"
    ∷ enabled_unless "restify"
    ∷ enabled_unless "router"
    ∷ enabled_unless "socketio"
    ∷ enabled_unless "tedious"
    ∷ enabled_unless "winston"
    ∷ enabled_unless "elasticsearch"
    ∷ enabled_unless "sequelize"
    ∷ enabled_unless "typeorm"
    ∷ enabled_unless "undici"
    ∷ record { short_name = "httpdc"; disabled_by_default = some true }
    ∷ []

abbrev pub ends_with : Text → Text → Bool
ends_with t suffix = starts_with (drop (length t - length suffix) t) suffix

-- `substring`, which exchanges its arguments if the first is the greater.
abbrev pub substring : ℕ → ℕ → Text → Text
substring a b t = if leb a b then take (b - a) (drop a t) else take (a - b) (drop b t)

abbrev pub key_prefix : Text
key_prefix = codes "OTEL_INSTRUMENTATION_"

abbrev pub key_suffix : Text
key_suffix = codes "_ENABLED"

abbrev pub find_info : Text → List InstrumentationInfo → Option InstrumentationInfo
find_info name [] = none
find_info name (i ∷ is) =
    let rest = find_info name is in if codes i.short_name === name then some i else rest

-- The instrumentation that a key is about.
unfoldable pub info_of : Text → Option InstrumentationInfo
info_of key =
    if starts_with key key_prefix && ends_with key key_suffix
    then find_info (lower_case (substring (length key_prefix) (length key - length key_suffix) key))
        bundled_instrumentations
    else none

abbrev pub is_disabled : Option Yaml → Bool
unfolding property
is_disabled v = elim (property v "disabled") [ some (boolean b) ↦ b | _ ↦ false ]

-- What the last case of the `switch` gives for an instrumentation.
abbrev pub enabled_value : Yaml → InstrumentationInfo → Bool
unfolding splunk_config is_disabled
enabled_value config i =
    not (is_disabled (property (property (splunk_config config) "instrumentations") i.short_name))
    && not (or_else i.disabled_by_default false)

-- `fetchConfigValue`.
unfoldable pub fetch_config_value : Text → Yaml → Option Yaml
unfolding cases info_of enabled_value
fetch_config_value key config = elim (find key cases) [
  | some read ↦ read config
  | none ↦ (elim (info_of key) [ some i ↦ some (boolean (enabled_value config i)) | none ↦ none ])
]

-- `String(value)`; the elements of a sequence that are `null` are left empty.
unfoldable mutual
  pub show : Yaml → Text
  show null = codes "null"
  show (boolean true) = codes "true"
  show (boolean false) = codes "false"
  show (number (pos n)) = decimal n
  show (number (negsuc n)) = codes "-" ++ decimal (n + 1)
  show (text t) = t
  show (sequence vs) = show_items vs
  show (mapping _) = codes "[object Object]"

  pub show_element : Yaml → Text
  show_element null = []
  show_element (boolean true) = codes "true"
  show_element (boolean false) = codes "false"
  show_element (number (pos n)) = decimal n
  show_element (number (negsuc n)) = codes "-" ++ decimal (n + 1)
  show_element (text t) = t
  show_element (sequence vs) = show_items vs
  show_element (mapping _) = codes "[object Object]"

  pub show_items : Items → Text
  show_items nil = []
  show_items (cons v nil) = show_element v
  show_items (cons v (cons w vs)) = show_element v ++ codes "," ++ show_items (cons w vs)

unfoldable pub show_all : Items → List Text
unfolding show
show_all nil = []
show_all (cons v vs) = show v ∷ show_all vs

abbrev pub as_boolean : Option Yaml → Bool → Checked Bool
as_boolean none default_value = returned default_value
as_boolean (some (boolean b)) default_value = returned b
as_boolean (some _) default_value = thrown

abbrev pub as_array : Option Yaml → Checked (Option (List Text))
unfolding show_all
as_array none = returned none
as_array (some (sequence vs)) = returned (some (show_all vs))
as_array (some _) = thrown

-- The readers, over the environment and the global configuration.
module _ (environ : Text → Option Text) (global : Option Yaml) where
  unfoldable pub get_non_empty_config_var : Text → Option Text
  unfolding fetch_config_value show
  get_non_empty_config_var key = elim global [
    | none ↦ get_non_empty_env_var environ key
    | some config ↦ (elim (fetch_config_value key config) [ none ↦ none | some v ↦ some (show v) ])
  ]

  unfoldable pub get_config_boolean : Text → Bool → Checked Bool
  unfolding fetch_config_value
  get_config_boolean key default_value = elim global [
    | none ↦ returned (get_env_boolean environ key default_value)
    | some config ↦ as_boolean (fetch_config_value key config) default_value
  ]

  unfoldable pub get_config_array : Text → Checked (Option (List Text))
  unfolding fetch_config_value as_array
  get_config_array key = elim global [
    | none ↦ returned (get_env_array environ key)
    | some config ↦ as_array (fetch_config_value key config)
  ]

-- `toUpperCase`, for ASCII.
abbrev pub upper : ℕ → ℕ
upper c = if leb b'a' c && leb c b'z' then c - 32 else c

-- `envKey`.
unfoldable pub env_key : InstrumentationInfo → Text
env_key i = key_prefix ++ (map upper (codes i.short_name) ++ key_suffix)

abbrev pub default_enabled : Bool → InstrumentationInfo → Bool
default_enabled by_default i = elim i.disabled_by_default [
  | none ↦ by_default
  | some disabled ↦ not disabled
]

abbrev pub keep {ℓ} : {A : Type ℓ} → Checked Bool → A → Checked (List A) → Checked (List A)
keep (returned true) x (returned xs) = returned (x ∷ xs)
keep (returned false) x (returned xs) = returned xs
keep _ x _ = thrown

abbrev pub reject_both : Checked (List InstrumentationInfo) → Checked (List InstrumentationInfo)
reject_both (returned is) =
    if is_some (find_info (codes "http") is) && is_some (find_info (codes "httpdc") is)
    then thrown
    else returned is
reject_both thrown = thrown

module _ (environ : Text → Option Text) (global : Option Yaml) where
  unfoldable pub chosen : Bool → List InstrumentationInfo → Checked (List InstrumentationInfo)
  unfolding get_config_boolean env_key
  chosen by_default [] = returned []
  chosen by_default (i ∷ is) =
      keep (get_config_boolean environ global (env_key i) (default_enabled by_default i)) i
        (chosen by_default is)

  -- `getInstrumentationsToLoad`.
  unfoldable pub get_instrumentations_to_load : Checked (List InstrumentationInfo)
  unfolding chosen
  get_instrumentations_to_load =
      get_config_boolean environ global (codes "OTEL_INSTRUMENTATION_COMMON_DEFAULT_ENABLED") true
      >>= (λ by_default. reject_both (chosen by_default bundled_instrumentations))
