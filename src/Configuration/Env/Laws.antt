-- ===== src/Configuration/Env/Laws.antt =====
-- How the readers of src/utils.ts agree, and which source wins.
use splunk_otel_js.Common.{
  ℕ, Bool, not, Option, none, some, List, [], ◌∷◌, ◌++◌, Text, codes, trim, ◌==◌, nat_eq, list_eq,
  or_else, if◌then◌else◌, ◌≡◌, ◌≢◌, arith, ===_iff, All,
}
use splunk_otel_js.Configuration.Env.{
  one_of, lower_case, off_words, BooleanResult, parse_word, parse_env_boolean_string,
  get_non_empty_env_var, get_env_boolean, get_env_value_by_precedence, drop_slash, UrlParser,
  resolve_otlp_exporter_url,
}

parse_word-off :
    (w : Text) (b : Bool)
    → w ≢ []
    → w ≢ codes "n"
    → parse_word w ≡ BooleanResult.boolean b
    → not (one_of w off_words) ≡ b
parse_word-off w b e n h = ground (
  arith,
  ===_iff w (codes "false"),
  ===_iff w (codes "no"),
  ===_iff w (codes "n"),
  ===_iff w (codes "0"),
  ===_iff w (codes "true"),
  ===_iff w (codes "yes"),
  ===_iff w (codes "y"),
  ===_iff w (codes "1"),
)

-- A variable that has a value which `parseEnvBooleanString` reads as a Boolean is read as the same
-- one by `getEnvBoolean`, whatever the default, unless it is the word `n`, or blank when trimmed again.
get_env_boolean-parse :
    (environ : Text → Option Text) (key v : Text) (default_value b : Bool)
    → get_non_empty_env_var environ key ≡ some v
    → lower_case (trim v) ≢ []
    → lower_case (trim v) ≢ codes "n"
    → parse_env_boolean_string (some v) ≡ BooleanResult.boolean b
    → get_env_boolean environ key default_value ≡ b
unfolding get_env_boolean parse_env_boolean_string
get_env_boolean-parse environ key v default_value b s e n h =
    rw (s, get_env_boolean) (parse_word-off (lower_case (trim v)) b e n h)

-- Of the variables in the list, the first that has a value gives the result.
pub get_env_value_by_precedence-first :
    (environ : Text → Option Text) (before after : List Text) (key v : Text)
    (default_value : Option Text)
    → All (λ k. get_non_empty_env_var environ k ≡ none) before
    → get_non_empty_env_var environ key ≡ some v
    → get_env_value_by_precedence environ (before ++ key ∷ after) default_value ≡ some v
unfolding get_env_value_by_precedence
get_env_value_by_precedence-first environ [] after key v d a h = rw (h, get_env_value_by_precedence)
get_env_value_by_precedence-first environ (k ∷ before) after key v d (e, a) h =
    rw (e, get_env_value_by_precedence)
      (get_env_value_by_precedence-first environ before after key v d a h)

-- For gRPC the URL is that of the first source that has one, as it stands, and the resource path
-- has no part in it.
pub resolve_otlp_exporter_url-grpc :
    (url : UrlParser) (environ : Text → Option Text) (endpoint : Option Text) (key path : Text)
    → resolve_otlp_exporter_url url environ endpoint (codes "grpc") key path
      ≡ or_else endpoint (
          or_else (get_non_empty_env_var environ key) (
            or_else
              (get_non_empty_env_var environ (codes "OTEL_EXPORTER_OTLP_ENDPOINT"))
              (codes "http://localhost:4317")))
unfolding resolve_otlp_exporter_url
resolve_otlp_exporter_url-grpc url environ endpoint key path = ground arith

drop_slash-append :
    (s : Text) (c : ℕ) → drop_slash (s ++ c ∷ []) ≡ (if c == b'/' then s else s ++ c ∷ [])
drop_slash-append [] c = ground arith
drop_slash-append (x ∷ []) c = ground arith
drop_slash-append (x ∷ y ∷ s) c = ground (arith, drop_slash-append (y ∷ s) c)

-- Over HTTP, with neither an explicit endpoint nor one for the signal, a slash at the end of the
-- shared endpoint makes no difference, if no other slash stands before it.
pub resolve_otlp_exporter_url-trailing_slash :
    (url : UrlParser) (environ other : Text → Option Text) (base : Text) (c : ℕ)
    (protocol key path : Text)
    → protocol ≢ codes "grpc"
    → get_non_empty_env_var environ key ≡ none
    → get_non_empty_env_var other key ≡ none
    → get_non_empty_env_var environ (codes "OTEL_EXPORTER_OTLP_ENDPOINT") ≡ some (base ++ c ∷ [])
    → get_non_empty_env_var other (codes "OTEL_EXPORTER_OTLP_ENDPOINT")
      ≡ some ((base ++ c ∷ []) ++ b'/' ∷ [])
    → c ≢ b'/'
    → resolve_otlp_exporter_url url other none protocol key path
      ≡ resolve_otlp_exporter_url url environ none protocol key path
unfolding resolve_otlp_exporter_url
resolve_otlp_exporter_url-trailing_slash url environ other base c protocol key path p s t b d n =
    ground (
      arith,
      ===_iff protocol (codes "grpc"),
      s,
      t,
      b,
      d,
      drop_slash-append base c,
      drop_slash-append (base ++ c ∷ []) b'/',
    )
