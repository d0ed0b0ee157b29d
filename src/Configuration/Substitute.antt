-- ===== src/Configuration/Substitute.antt =====
-- src/configuration/substitute.ts: `${NAME}` and `${NAME:-default}` in configuration files.
-- A text is a list of UTF-16 code units, and the environment a function.
pub mod Reader
pub mod Simulation
pub mod Laws
use splunk_otel_js.Common.{
  ℕ, zero, suc, ◌+◌, ◌-◌, Bool, true, false, Option, none, some, List, [], ◌∷◌, ◌++◌, Text, codes,
  ◌==◌, ◌===◌, nat_eq, list_eq, if◌then◌else◌, or_else, length, get_elem?, take, drop,
}

pub data State : Type 0 where
  normal dollar_sign substitute_begin default_value : State

-- The variables of the loop but `i`.
pub record Scan : Type 0 where
  pub state : State
  pub output : Text
  pub env_var_begin : ℕ
  pub env_var_end : ℕ

-- `value.substring(from, to)`, where `from` is at most `to`.
abbrev pub substring : Text → ℕ → ℕ → Text
substring value from to = take (to - from) (drop from value)

-- `value.charAt(i) === c`.
abbrev pub is_char : Text → ℕ → ℕ → Bool
is_char value i c = elim (get_elem? value i) [ none ↦ false | some d ↦ d == c ]

module _ (environ : Text → Option Text) (value : Text) where
  -- One round: the new `i`, before `i++`, and the other variables.
  unfoldable pub step : State → ℕ → ℕ → Scan → ℕ × Scan
  step normal i c s =
      if c == b'$'
      then (i, record s { state = dollar_sign })
      else (i, record s { output = s.output ++ c ∷ [] })
  step dollar_sign i c s =
      if c == b'$'
      then (i, record s { output = s.output ++ b'$' ∷ []; state = normal })
      else if c == b'{'
      then (i, record s { state = substitute_begin; env_var_begin = i + 1 })
      else (i, record s { output = (s.output ++ b'$' ∷ []) ++ c ∷ []; state = normal })
  step substitute_begin i c s =
      if c == b'}'
      then (
        i,
        record s {
          output = s.output ++ or_else (environ (substring value s.env_var_begin i)) [];
          state = normal;
        },
      )
      else if c == b':'
      then (if substring value s.env_var_begin i === codes "env"
          then (i, record s { env_var_begin = i + 1 })
          else if is_char value (i + 1) b'-'
          then (i + 2, record s { env_var_end = i; state = default_value })
          else (i, s))
      else (i, s)
  step default_value i c s =
      if c == b'}'
      then (
        i,
        record s {
          output =
              s.output
              ++ or_else (environ (substring value s.env_var_begin s.env_var_end))
                  (substring value (s.env_var_end + 2) i);
          state = normal;
        },
      )
      else (i, s)

  -- The loop, with fuel for its rounds.
  unfoldable pub loop : ℕ → ℕ → Scan → Text
  loop zero i s = s.output
  loop (suc fuel) i s = elim (get_elem? value i) [
    | none ↦ s.output
    | some c ↦ (let (i', s') = step s.state i c s in loop fuel (i' + 1) s')
  ]

abbrev pub initial : Scan
initial = record { state = normal; output = []; env_var_begin = 0; env_var_end = 0 }

-- `envSubstitute`; as many rounds as there are characters are enough.
unfoldable pub env_substitute : Text → (Text → Option Text) → Text
unfolding loop step
env_substitute value environ = loop environ value (length value) 0 initial
