-- ===== src/Logging/Laws.antt =====
-- When the processors of a document for src/logging/index.ts cannot be made.
use splunk_otel_js.Common.{
  ℕ, ◌+◌, Bool, true, false, not, ◌&&◌, ◌||◌, Option, none, some, List, [], ◌∷◌, ◌++◌, length,
  length-append, ◌≡◌, refl, ap, ◌∙◌, arith, Bool-cases, inl, inr,
}
use splunk_otel_js.Configuration.Document.{Checked, returned, thrown, ◌>>=◌}
use splunk_otel_js.Logging.{
  ProcessorConfig, ExporterConfig, OtlpConfig, LogExporter, LogRecordProcessor, to_exporter,
  configured_exporter, made, processor_of, config_processors,
}

-- Whether an exporter is refused before any constructor is called: it is neither of the two that are
-- known, or an OTLP exporter that is null, or one with null for headers.
abbrev pub headers_refused : OtlpConfig → Bool
headers_refused o = elim o.headers [
  | none ↦ false
  | some h ↦ (elim h [ none ↦ true | some ps ↦ false ])
]

abbrev pub exporter_refused : ExporterConfig → Bool
exporter_refused c = not c.console && (elim c.otlp_http [
  | none ↦ true
  | some o ↦ (elim o [ none ↦ true | some config ↦ headers_refused config ])
])

-- `some` of the count of what is returned.
abbrev pub count_of : Checked (List LogRecordProcessor) → Option ℕ
count_of thrown = none
count_of (returned ps) = some (length ps)

abbrev pub counted : Bool → ℕ → Option ℕ
counted true n = none
counted false n = some n

is_thrown : Checked LogExporter → Bool
is_thrown thrown = true
is_thrown (returned e) = false

headers-thrown : (o : OtlpConfig) → is_thrown (configured_exporter (some o)) ≡ headers_refused o
unfolding is_thrown
headers-thrown o = ground arith

to_exporter-thrown : (c : ExporterConfig) → is_thrown (to_exporter c) ≡ exporter_refused c
unfolding is_thrown to_exporter
to_exporter-thrown c = ground arith

append_counted :
    (m k : Checked (List LogRecordProcessor)) (b c : Bool) (i j : ℕ)
    → count_of m ≡ counted b i
    → count_of k ≡ counted c j
    → count_of (m >>= (λ p. k >>= (λ q. returned (p ++ q)))) ≡ counted (b || c) (i + j)
append_counted thrown k true c i j h g = refl
append_counted thrown k false c i j h g = cc h
append_counted (returned p) k true c i j h g = cc h
append_counted (returned p) thrown false true i j h g = refl
append_counted (returned p) thrown false false i j h g = cc g
append_counted (returned p) (returned q) false true i j h g = cc g
append_counted (returned p) (returned q) false false i j h g =
    ground (arith, h, g, length-append p q)

module _ (accepts : LogRecordProcessor → Bool) where
  -- Whether the constructors refuse the processor with an exporter that was made.
  abbrev pub is_rejected : (LogExporter → LogRecordProcessor) → Checked LogExporter → Bool
  is_rejected processor thrown = false
  is_rejected processor (returned e) = not (accepts (processor e))

  abbrev pub is_refused : ProcessorConfig → Bool
  is_refused (ProcessorConfig.batch c) =
      exporter_refused c.exporter
      || is_rejected (λ e. LogRecordProcessor.batch e c) (to_exporter c.exporter)
  is_refused (ProcessorConfig.simple c) =
      exporter_refused c || is_rejected LogRecordProcessor.simple (to_exporter c)
  is_refused ProcessorConfig.other = false

  abbrev pub any_refused : List ProcessorConfig → Bool
  any_refused [] = false
  any_refused (p ∷ ps) = is_refused p || any_refused ps

  abbrev pub known : ProcessorConfig → ℕ
  known ProcessorConfig.other = 0
  known _ = 1

  abbrev pub known_processors : List ProcessorConfig → ℕ
  known_processors [] = 0
  known_processors (p ∷ ps) = known p + known_processors ps

  made_one :
      (p : LogRecordProcessor)
      → count_of (made accepts p >>= (λ q. returned (q ∷ []))) ≡ counted (not (accepts p)) 1
  made_one p = elim (Bool-cases (accepts p)) [ inl y ↦ rw y refl | inr n ↦ rw n refl ]

  made_with-counted :
      (processor : LogExporter → LogRecordProcessor) (m : Checked LogExporter)
      → count_of (m >>= (λ e. made accepts (processor e) >>= (λ q. returned (q ∷ []))))
        ≡ counted (is_thrown m || is_rejected processor m) 1
  unfolding is_thrown
  made_with-counted processor thrown = refl
  made_with-counted processor (returned e) = made_one (processor e)

  processor_of-counted :
      (p : ProcessorConfig) → count_of (processor_of accepts p) ≡ counted (is_refused p) (known p)
  unfolding processor_of
  processor_of-counted (ProcessorConfig.batch c) =
      let processor = λ (e : LogExporter). LogRecordProcessor.batch e c in
      made_with-counted processor (to_exporter c.exporter)
      ∙ ap (λ b. counted (b || is_rejected processor (to_exporter c.exporter)) 1)
          (to_exporter-thrown c.exporter)
  processor_of-counted (ProcessorConfig.simple c) =
      made_with-counted LogRecordProcessor.simple (to_exporter c)
      ∙ ap (λ b. counted (b || is_rejected LogRecordProcessor.simple (to_exporter c)) 1)
          (to_exporter-thrown c)
  processor_of-counted ProcessorConfig.other = refl

  -- The processors of a document: the whole is refused if one of them has an exporter that is neither of
  -- the two known ones, an OTLP exporter that is null, or null for its headers, or if the constructors
  -- refuse what they are given; otherwise there is one for each batch and each simple processor.
  pub config_processors-counted :
      (ps : List ProcessorConfig)
      → count_of (config_processors accepts ps) ≡ counted (any_refused ps) (known_processors ps)
  unfolding config_processors
  config_processors-counted [] = refl
  config_processors-counted (p ∷ ps) =
      append_counted (processor_of accepts p) (config_processors accepts ps) (is_refused p)
        (any_refused ps) (known p) (known_processors ps) (processor_of-counted p)
        (config_processors-counted ps)
