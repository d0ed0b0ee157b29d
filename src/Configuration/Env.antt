-- ===== src/Configuration/Env.antt =====
-- The readers of environment variables in src/utils.ts, over `process.env` as a function, and the
-- endpoint of an OTLP exporter. `toLowerCase` is that for ASCII: no word that the readers look for
-- is the lower case of a text outside of it.
pub mod Laws
use splunk_otel_js.Common.{
  ℕ, Bool, true, false, not, ◌||◌, Option, none, some, List, [], ◌∷◌, ◌++◌, map, Text, codes, trim,
  lower, is_empty, split, ◌==◌, ◌===◌, nat_eq, list_eq, if◌then◌else◌, or_else,
}

-- `indexOf(value) >= 0`.
abbrev pub one_of : Text → List Text → Bool
one_of v [] = false
one_of v (w ∷ ws) = let rest = one_of v ws in v === w || rest

abbrev pub lower_case : Text → Text
lower_case s = map lower s

abbrev pub drop_equal : Text → List Text → List Text
drop_equal v [] = []
drop_equal v (w ∷ ws) = let rest = drop_equal v ws in if v === w then rest else w ∷ rest

unfoldable pub deduplicate : List Text → List Text
deduplicate [] = []
deduplicate (v ∷ vs) = v ∷ drop_equal v (deduplicate vs)

-- What `parseEnvBooleanString` does: it returns nothing, or a value, or throws.
pub data BooleanResult : Type 0 where
  missing thrown : BooleanResult
  boolean : Bool → BooleanResult

abbrev pub false_words : List Text
false_words = codes "false" ∷ codes "no" ∷ codes "n" ∷ codes "0" ∷ []

abbrev pub true_words : List Text
true_words = codes "true" ∷ codes "yes" ∷ codes "y" ∷ codes "1" ∷ []

abbrev pub parse_word : Text → BooleanResult
parse_word w =
    if is_empty w || one_of w false_words
    then BooleanResult.boolean false
    else if one_of w true_words
    then BooleanResult.boolean true
    else BooleanResult.thrown

unfoldable pub parse_env_boolean_string : Option Text → BooleanResult
parse_env_boolean_string none = BooleanResult.missing
parse_env_boolean_string (some v) = parse_word (lower_case (trim v))

abbrev pub off_words : List Text
off_words = codes "false" ∷ codes "no" ∷ codes "0" ∷ []

-- The levels of the logger of OpenTelemetry, and `toDiagLogLevel` after `validLogLevel`.
pub data DiagLogLevel : Type 0 where
  silent error warn info debug verbose : DiagLogLevel

abbrev pub to_diag_log_level : Text → DiagLogLevel
to_diag_log_level v =
    if v === codes "verbose"
    then verbose
    else if v === codes "debug"
    then debug
    else if v === codes "info"
    then info
    else if v === codes "warn"
    then warn
    else if v === codes "error"
    then error
    else silent

unfoldable pub parse_log_level : Option Text → DiagLogLevel
parse_log_level none = silent
parse_log_level (some v) = to_diag_log_level (lower_case (trim v))

-- The parser of URLs: whether a text is one, its path, and the text of it with another path.
pub record UrlParser : Type 0 where
  pub path_of : Text → Option Text
  pub with_path : Text → Text → Text

module _ (environ : Text → Option Text) where
  abbrev pub non_empty : Option Text → Option Text
  non_empty none = none
  non_empty (some v) = let trimmed = trim v in if is_empty trimmed then none else some trimmed

  unfoldable pub get_non_empty_env_var : Text → Option Text
  get_non_empty_env_var key = non_empty (environ key)

  unfoldable pub get_env_boolean : Text → Bool → Bool
  get_env_boolean key default_value = elim (get_non_empty_env_var key) [
    | none ↦ default_value
    | some v ↦ not (one_of (lower_case (trim v)) off_words)
  ]

  unfoldable pub get_env_array : Text → Option (List Text)
  unfolding deduplicate
  get_env_array key = elim (get_non_empty_env_var key) [
    | none ↦ none
    | some v ↦ some (map trim (deduplicate (split b',' v)))
  ]

  unfoldable pub get_env_value_by_precedence : List Text → Option Text → Option Text
  get_env_value_by_precedence [] default_value = default_value
  get_env_value_by_precedence (key ∷ keys) default_value =
      let rest = get_env_value_by_precedence keys default_value in
      elim (get_non_empty_env_var key) [ none ↦ rest | some v ↦ some v ]

-- `replace(/\/$/, '')`.
abbrev pub drop_slash : Text → Text
drop_slash [] = []
drop_slash (c ∷ s) =
    let rest = drop_slash s in if is_empty s then (if c == b'/' then [] else c ∷ []) else c ∷ rest

module _ (url : UrlParser) where
  unfoldable pub ensure_resource_path : Option Text → Text → Option Text
  ensure_resource_path none resource_path = none
  ensure_resource_path (some u) resource_path = elim (url.path_of u) [
    | none ↦ none
    | some path ↦ (if path === codes "/" then some (url.with_path u resource_path) else some u)
  ]

  -- The arguments are the environment, the explicit endpoint, the protocol, the name of the variable
  -- for the signal, and the resource path.
  unfoldable pub resolve_otlp_exporter_url :
      (Text → Option Text) → Option Text → Text → Text → Text → Text
  resolve_otlp_exporter_url environ endpoint protocol signal_key resource_path =
      let is_http = not (protocol === codes "grpc") in
      elim endpoint [
        | some u ↦ (if is_http then or_else (ensure_resource_path (some u) resource_path) u else u)
        | none ↦ (elim (get_non_empty_env_var environ signal_key) [
          | some u ↦ u
          | none ↦ (elim (get_non_empty_env_var environ (codes "OTEL_EXPORTER_OTLP_ENDPOINT")) [
            | some base ↦ (if is_http then drop_slash base ++ resource_path else base)
            | none ↦
                (if is_http
                  then codes "http://localhost:4318" ++ resource_path
                  else codes "http://localhost:4317")
          ])
        ])
      ]
