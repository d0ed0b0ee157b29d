-- ===== src/Tracing/RuleBasedSampler.antt =====
-- src/tracing/RuleBasedSampler.ts: the rules of OTEL_TRACES_SAMPLER_ARG, and which spans they drop.
-- A sampler of the library is named by the function that creates it.
pub mod Laws
use splunk_otel_js.Common.{
  ℕ, Bool, true, false, not, ◌&&◌, ◌||◌, Option, none, some, List, [], ◌∷◌, ◌++◌, Text, codes,
  ◌===◌, ◌==◌, nat_eq, list_eq, if◌then◌else◌, is_empty, trim, split, starts_with, or_else,
}
use splunk_otel_js.Configuration.Document.{Checked, returned, thrown, ◌>>=◌}

pub data ComposableSampler : Type 0 where
  always_on always_off : ComposableSampler
  parent_threshold : ComposableSampler → ComposableSampler

-- `selectComposableSampler`.
unfoldable pub select_composable_sampler : Text → Checked ComposableSampler
select_composable_sampler name =
    if name === codes "always_on"
    then returned always_on
    else if name === codes "always_off"
    then returned always_off
    else if name === codes "parentbased_always_on"
    then returned (parent_threshold always_on)
    else if name === codes "parentbased_always_off"
    then returned (parent_threshold always_off)
    else thrown

-- `indexOf(c)` with the two calls of `substring`: what stands before the first c and behind it.
abbrev pub cons_before : ℕ → Option (Text × Text) → Option (Text × Text)
cons_before c none = none
cons_before c (some (a, b)) = some (c ∷ a, b)

unfoldable pub split_first : ℕ → Text → Option (Text × Text)
split_first sep [] = none
split_first sep (c ∷ s) =
    let rest = split_first sep s in if c == sep then some ([], s) else cons_before c rest

-- `dropValues` and `fallback`.
pub record Rules : Type 0 where
  pub drop_values : List Text
  pub fallback : Option ComposableSampler

-- A rule that has a key and a value.
abbrev pub add_rule : Text → Text → Rules → Checked Rules
unfolding select_composable_sampler
add_rule key value r =
    if key === codes "drop" && not (is_empty value)
    then returned (record r { drop_values = r.drop_values ++ value ∷ [] })
    else if key === codes "fallback"
    then select_composable_sampler value >>= (λ s. returned (record r { fallback = some s }))
    else returned r

unfoldable pub parse_rule : Text → Rules → Checked Rules
unfolding add_rule split_first
parse_rule rule r = elim (split_first b'=' rule) [
  | none ↦ returned r
  | some (key, value) ↦ add_rule (trim key) (trim value) r
]

-- The loop over the rules.
unfoldable pub parse_rules : List Text → Rules → Checked Rules
unfolding parse_rule
parse_rules [] r = returned r
parse_rules (rule ∷ rules) r = parse_rule rule r >>= parse_rules rules

abbrev pub no_rules : Rules
no_rules = record { drop_values = []; fallback = none }

unfoldable pub parse_arg : Option Text → Checked Rules
unfolding parse_rules
parse_arg none = returned no_rules
parse_arg (some arg) =
    if is_empty (trim arg) then returned no_rules else parse_rules (split b';' arg) no_rules

-- `target.includes(value)`.
abbrev pub includes : Text → Text → Bool
includes [] v = is_empty v
includes (c ∷ s) v = let rest = includes s v in starts_with (c ∷ s) v || rest

abbrev pub some_included : List Text → Text → Bool
some_included [] target = false
some_included (v ∷ vs) target = let rest = some_included vs target in includes target v || rest

-- What the predicate reads of a span: its kind, and the attributes `url.path` and `http.target` if
-- they are texts.
pub record Span : Type 0 where
  pub is_server : Bool
  pub url_path : Option Text
  pub http_target : Option Text

abbrev pub target_of : Span → Option Text
target_of s = elim s.url_path [ some t ↦ some t | none ↦ s.http_target ]

-- `matchesDrops`.
unfoldable pub matches_drops : List Text → Span → Bool
matches_drops drops s =
    if s.is_server
    then (elim (target_of s) [ none ↦ false | some target ↦ some_included drops target ])
    else false

-- `createRuleBasedSampler`: the rules that it gives to the library, each a predicate and a sampler.
abbrev pub SamplerRules : Type 0
SamplerRules = List ((Span → Bool) × ComposableSampler)

abbrev pub sampler_rules : List Text → ComposableSampler → SamplerRules
unfolding matches_drops
sampler_rules drops fallback = (matches_drops drops, always_off) ∷ ((λ s. true), fallback) ∷ []

unfoldable pub create_rule_based_sampler : Option Text → Checked SamplerRules
unfolding parse_arg sampler_rules
create_rule_based_sampler arg =
    parse_arg arg >>= (λ r. returned (sampler_rules r.drop_values (or_else r.fallback always_on)))
