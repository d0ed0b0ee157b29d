-- ===== src/Tracing/Options/Laws.antt =====
-- What the options of src/tracing/options.ts refuse and take over.
use splunk_otel_js.Common.{
  ℤ, Bool, true, false, not, ◌&&◌, ◌||◌, Option, none, some, List, [], ◌∷◌, Text, codes, is_some,
  is_empty, or_else, if◌then◌else◌, ◌≡◌, refl, sym, ◌∙◌, arith, subst, Bool-cases, inl, inr,
}
use splunk_otel_js.Common.Yaml.{Yaml, null}
use splunk_otel_js.Configuration.Env.{one_of}
use splunk_otel_js.Configuration.Document.{Checked, returned, thrown, ◌>>=◌, at}
use splunk_otel_js.Configuration.Instrumentations.{get_non_empty_config_var}
use splunk_otel_js.Configuration.Numbers.Laws.{attribute_count_limit-null}
use splunk_otel_js.Tracing.Options.{
  StartTracingOptions, TracingOptions, first_of, default_count_limit, create_sampler, limits,
  get_exporter_types, default_span_exporter_factory, factory_of, as_option, tracing_options,
  with_sampler, with_limits, with_timing, with_database, made_options, server_timing,
  database_propagation, set_default_options, are_valid_exporter_types,
}

>>=-thrown {ℓ κ} :
    {A : Type ℓ} {B : Type κ} (m : Checked A) (f : A → Checked B)
    → ((a : A) → f a ≡ thrown)
    → (m >>= f) ≡ thrown
>>=-thrown thrown f h = refl
>>=-thrown (returned a) f h = h a

module _ (parse_float : Text → Option ℤ) (environ : Text → Option Text)
    (has_tracer_provider : Bool) where
  limits-null :
      (config : Yaml)
      → at config "attribute_limits" "attribute_count_limit" ≡ some null
      → limits parse_float environ (some config) has_tracer_provider ≡ thrown
  unfolding limits
  limits-null config h =
      rw (attribute_count_limit-null parse_float environ config default_count_limit h) refl

  tracing_options-null :
      (config : Yaml) (o : StartTracingOptions) (realm : Option Text) (token : Text)
      → at config "attribute_limits" "attribute_count_limit" ≡ some null
      → tracing_options parse_float environ (some config) has_tracer_provider o realm token ≡ thrown
  unfolding tracing_options with_sampler
  tracing_options-null config o realm token h =
      >>=-thrown
        (create_sampler parse_float environ (some config) has_tracer_provider o.has_sampler)
        (with_sampler parse_float environ (some config) has_tracer_provider o realm token)
        (λ s. rw (limits-null config h) refl)

  -- A document that sets the limit of the count of attributes to `null` is refused, whatever else it
  -- says and whatever the options are.
  set_default_options-null :
      (config : Yaml) (o : StartTracingOptions)
      → at config "attribute_limits" "attribute_count_limit" ≡ some null
      → set_default_options parse_float environ (some config) has_tracer_provider o ≡ thrown
  unfolding set_default_options
  set_default_options-null config o h =
      elim (Bool-cases (is_some (realm_of config o) && is_empty (token_of config o))) [
        | inl y ↦ rw y refl
        | inr n ↦ rw n (tracing_options-null config o (realm_of config o) (token_of config o) h)
      ]
    where
      realm_of : Yaml → StartTracingOptions → Option Text
      realm_of c p =
          first_of p.realm (get_non_empty_config_var environ (some c) (codes "SPLUNK_REALM"))

      token_of : Yaml → StartTracingOptions → Text
      token_of c p =
          or_else
            (first_of p.access_token
              (get_non_empty_config_var environ (some c) (codes "SPLUNK_ACCESS_TOKEN")))
            []

abbrev pub is_empty_list : List Text → Bool
is_empty_list [] = true
is_empty_list (t ∷ ts) = false

abbrev Ensures {ℓ} : {A : Type ℓ} → (A → Type 0) → Checked A → Type 0
Ensures P thrown = Unit {0}
Ensures P (returned a) = P a

>>=-Ensures {ℓ κ} :
    {A : Type ℓ} {B : Type κ} (P : B → Type 0) (m : Checked A) (f : A → Checked B)
    → ((a : A) → m ≡ returned a → Ensures P (f a))
    → Ensures P (m >>= f)
>>=-Ensures P thrown f h = tt
>>=-Ensures P (returned a) f h = h a refl

Ensures-returned {ℓ} :
    {A : Type ℓ} (P : A → Type 0) (m : Checked A) (a : A) → Ensures P m → m ≡ returned a → P a
Ensures-returned P (returned b) a h e = subst P (cc e) h
Ensures-returned P thrown a h e = cc e

module _ (parse_float : Text → Option ℤ) (environ : Text → Option Text) (global : Option Yaml)
    (has_tracer_provider : Bool) where
  -- A realm comes with an access token, and the types of the default exporters are known ones, with the
  -- OTLP exporter among them if there is a realm; a document with a provider has no default exporters.
  abbrev pub allows : Option Text → Option (List Text) → Bool
  allows realm none = true
  allows realm (some types) =
      if has_tracer_provider
      then is_empty_list types
      else are_valid_exporter_types types && (not (is_some realm) || one_of (codes "otlp") types)

  abbrev pub IsCoherent : TracingOptions → Type 0
  IsCoherent t =
      ((is_some t.realm && is_empty t.access_token) ≡ false)
      × (allows t.realm t.exporter_types ≡ true)

  exporter_types-allows :
      (realm : Option Text) (types : List Text)
      → get_exporter_types parse_float environ global has_tracer_provider realm ≡ returned types
      → are_valid_exporter_types types && (not (is_some realm) || one_of (codes "otlp") types)
        ≡ true
  unfolding get_exporter_types
  exporter_types-allows realm types h = ground (arith, h)

  factory-allows :
      (custom : Bool) (realm : Option Text) (types : Option (List Text))
      → factory_of parse_float environ global has_tracer_provider custom realm ≡ returned types
      → allows realm types ≡ true
  unfolding factory_of default_span_exporter_factory
  factory-allows true realm none h = refl
  factory-allows true realm (some types) h = cc h
  factory-allows false realm types h = elim (Bool-cases has_tracer_provider) [
    | inl y ↦ none_made types (sym (rw y refl) ∙ h) y
    | inr n ↦
        own (get_exporter_types parse_float environ global has_tracer_provider realm) refl types
          (sym (rw n refl) ∙ h) n
  ]
    where
      none_made :
          (types : Option (List Text))
          → returned (some []) ≡ returned types
          → has_tracer_provider ≡ true
          → allows realm types ≡ true
      none_made types e y = ground (arith, e, y)

      own :
          (m : Checked (List Text))
          → get_exporter_types parse_float environ global has_tracer_provider realm ≡ m
          → (types : Option (List Text))
          → as_option parse_float environ global has_tracer_provider m ≡ returned types
          → has_tracer_provider ≡ false
          → allows realm types ≡ true
      own thrown i types e n = cc e
      own (returned ts) i none e n = refl
      own (returned ts) i (some us) e n =
          let same : ts ≡ us = cc e in
          rw n (
            subst
              (λ xs.
                are_valid_exporter_types xs && (not (is_some realm) || one_of (codes "otlp") xs)
                ≡ true)
              same (exporter_types-allows realm ts i))

  tracing_options-IsCoherent :
      (o : StartTracingOptions) (realm : Option Text) (token : Text)
      → is_some realm && is_empty token ≡ false
      → Ensures IsCoherent
          (tracing_options parse_float environ global has_tracer_provider o realm token)
  unfolding tracing_options with_sampler with_limits with_timing with_database
  tracing_options-IsCoherent o realm token h =
      >>=-Ensures IsCoherent
        (create_sampler parse_float environ global has_tracer_provider o.has_sampler)
        (with_sampler parse_float environ global has_tracer_provider o realm token)
        (λ sampler _.
          >>=-Ensures IsCoherent (limits parse_float environ global has_tracer_provider)
            (with_limits parse_float environ global has_tracer_provider o realm token sampler)
            (λ l _.
              >>=-Ensures IsCoherent
                (server_timing parse_float environ global has_tracer_provider o)
                (with_timing parse_float environ global has_tracer_provider o realm token sampler l)
                (λ timing _.
                  >>=-Ensures IsCoherent
                    (database_propagation parse_float environ global has_tracer_provider o)
                    (with_database parse_float environ global has_tracer_provider o realm token
                      sampler l timing)
                    (λ database _.
                      >>=-Ensures IsCoherent
                        (factory_of parse_float environ global has_tracer_provider
                          o.has_span_exporter_factory realm)
                        (λ types. returned (
                          made_options parse_float environ global has_tracer_provider o realm token
                            sampler l timing database types))
                        (λ types made.
                          (h, factory-allows o.has_span_exporter_factory realm types made))))))

  -- Options that are set up, whatever the application, the environment and the document say: a realm
  -- comes with an access token; the default exporters are known ones, with the OTLP exporter among them
  -- if there is a realm, and there are none if the document has a provider.
  pub set_default_options-IsCoherent :
      (o : StartTracingOptions) (t : TracingOptions)
      → set_default_options parse_float environ global has_tracer_provider o ≡ returned t
      → IsCoherent t
  unfolding set_default_options
  set_default_options-IsCoherent o t e = elim (Bool-cases (is_some realm_of && is_empty token_of)) [
    | inl y ↦ cc (sym (refused y) ∙ e)
    | inr n ↦
        Ensures-returned IsCoherent _ t (tracing_options-IsCoherent o realm_of token_of n)
          (sym (taken n) ∙ e)
  ]
    where
      realm_of : Option Text
      realm_of = first_of o.realm (get_non_empty_config_var environ global (codes "SPLUNK_REALM"))

      token_of : Text
      token_of =
          or_else
            (first_of o.access_token
              (get_non_empty_config_var environ global (codes "SPLUNK_ACCESS_TOKEN")))
            []

      refused :
          (is_some realm_of && is_empty token_of ≡ true)
          → set_default_options parse_float environ global has_tracer_provider o ≡ thrown
      refused y = rw y refl

      taken :
          (is_some realm_of && is_empty token_of ≡ false)
          → set_default_options parse_float environ global has_tracer_provider o
            ≡ tracing_options parse_float environ global has_tracer_provider o realm_of token_of
      taken n = rw n refl
