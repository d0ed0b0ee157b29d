-- ===== src/Metrics/Views.antt =====
-- The views of the metrics in src/metrics/index.ts: toViewOptions and what it calls.
-- A setting that is `null` or missing is `none`, as `?? undefined` reads it; a numeral of the document
-- is a whole number.
pub mod Laws
use splunk_otel_js.Common.{
  ℤ, Bool, Option, none, some, List, [], ◌∷◌, Text, codes, String, ◌===◌, nat_eq, list_eq,
  string_eq, if◌then◌else◌, or_else, is_some, find, set_key, delete_key,
}

-- `IncludeExclude` of the document.
pub record IncludeExclude : Type 0 where
  pub included : Option (List Text)
  pub excluded : Option (List Text)

-- The loops of `process`; an attribute that is `undefined` is one that is not there.
module _ {ℓ} {V : Type ℓ} where
  unfoldable pub include_all : List Text → List (Text × V) → List (Text × V) → List (Text × V)
  include_all [] incoming attributes = attributes
  include_all (k ∷ ks) incoming attributes =
      include_all ks incoming
        (elim (find k incoming) [ none ↦ attributes | some v ↦ set_key k v attributes ])

  unfoldable pub exclude_all : List Text → List (Text × V) → List (Text × V) → List (Text × V)
  exclude_all [] incoming attributes = attributes
  exclude_all (k ∷ ks) incoming attributes =
      exclude_all ks incoming
        (elim (find k incoming) [ none ↦ attributes | some v ↦ delete_key k attributes ])

  -- `toAttributesProcessor` on the attributes of a measurement.
  unfoldable pub process : IncludeExclude → List (Text × V) → List (Text × V)
  unfolding include_all exclude_all
  process keys incoming =
      exclude_all (or_else keys.excluded []) incoming
        (include_all (or_else keys.included []) incoming [])

pub record Histogram : Type 0 where
  pub record_min_max : Option Bool
  pub boundaries : Option (List ℤ)
  pub max_size : Option ℤ

-- `Aggregation` of the document; of the first four it matters only whether they are there.
pub record Aggregation : Type 0 where
  pub sum : Bool
  pub drop : Bool
  pub default_aggregation : Bool
  pub last_value : Bool
  pub explicit_bucket_histogram : Option Histogram
  pub base2_exponential_bucket_histogram : Option Histogram

pub data AggregationOption : Type 0 where
  sum drop default_aggregation last_value : AggregationOption
  explicit_bucket_histogram : Option Bool → List ℤ → AggregationOption
  exponential_histogram : Option Bool → Option ℤ → AggregationOption

abbrev pub exponential : Option Histogram → Option AggregationOption
exponential none = none
exponential (some h) = some (AggregationOption.exponential_histogram h.record_min_max h.max_size)

abbrev pub bucket_histogram : Option Histogram → Option Histogram → Option AggregationOption
bucket_histogram (some h) base2 =
    some (AggregationOption.explicit_bucket_histogram h.record_min_max (or_else h.boundaries []))
bucket_histogram none base2 = exponential base2

unfoldable pub to_view_aggregation_option : Option Aggregation → Option AggregationOption
to_view_aggregation_option none = none
to_view_aggregation_option (some a) =
    if a.sum
    then some AggregationOption.sum
    else if a.drop
    then some AggregationOption.drop
    else if a.default_aggregation
    then some AggregationOption.default_aggregation
    else if a.last_value
    then some AggregationOption.last_value
    else bucket_histogram a.explicit_bucket_histogram a.base2_exponential_bucket_histogram

pub data InstrumentType : Type 0 where
  counter gauge histogram observable_counter observable_gauge : InstrumentType
  observable_up_down_counter up_down_counter : InstrumentType

unfoldable pub to_instrument_type : Option Text → Option InstrumentType
to_instrument_type none = none
to_instrument_type (some t) =
    if t === codes "counter"
    then some InstrumentType.counter
    else if t === codes "gauge"
    then some InstrumentType.gauge
    else if t === codes "histogram"
    then some InstrumentType.histogram
    else if t === codes "observable_counter"
    then some InstrumentType.observable_counter
    else if t === codes "observable_gauge"
    then some InstrumentType.observable_gauge
    else if t === codes "observable_up_down_counter"
    then some InstrumentType.observable_up_down_counter
    else if t === codes "up_down_counter"
    then some InstrumentType.up_down_counter
    else none

-- The stream and the selector of a view of the document.
pub record ViewStream : Type 0 where
  pub name : Option Text
  pub description : Option Text
  pub aggregation : Option Aggregation
  pub aggregation_cardinality_limit : Option ℤ
  pub attribute_keys : Option IncludeExclude

pub record ViewSelector : Type 0 where
  pub instrument_type : Option Text
  pub instrument_name : Option Text
  pub unit : Option Text
  pub meter_name : Option Text
  pub meter_version : Option Text
  pub meter_schema_url : Option Text

pub record View : Type 0 where
  pub stream : ViewStream
  pub selector : ViewSelector

-- `ViewOptions`; a processor stands for the keys that it was made from.
pub record ViewOptions : Type 0 where
  pub name : Option Text
  pub description : Option Text
  pub attributes_processors : Option (List IncludeExclude)
  pub aggregation : Option AggregationOption
  pub aggregation_cardinality_limit : Option ℤ
  pub instrument_type : Option InstrumentType
  pub instrument_name : Option Text
  pub instrument_unit : Option Text
  pub meter_name : Option Text
  pub meter_version : Option Text
  pub meter_schema_url : Option Text

abbrev pub processors : Option IncludeExclude → Option (List IncludeExclude)
processors none = none
processors (some keys) = some (keys ∷ [])

unfoldable pub to_view_options : View → ViewOptions
unfolding to_view_aggregation_option to_instrument_type
to_view_options view = record {
  name = view.stream.name;
  description = view.stream.description;
  attributes_processors = processors view.stream.attribute_keys;
  aggregation = to_view_aggregation_option view.stream.aggregation;
  aggregation_cardinality_limit = view.stream.aggregation_cardinality_limit;
  instrument_type = to_instrument_type view.selector.instrument_type;
  instrument_name = view.selector.instrument_name;
  instrument_unit = view.selector.unit;
  meter_name = view.selector.meter_name;
  meter_version = view.selector.meter_version;
  meter_schema_url = view.selector.meter_schema_url;
}
