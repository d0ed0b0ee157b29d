-- ===== src/Configuration/Substitute/Reader.antt =====
-- A description of the substitution of src/configuration/substitute.ts with no indices: a reader
-- that goes through the text once, and collects names and defaults as it goes.
use splunk_otel_js.Common.{
  ℕ, Bool, false, Option, [], ◌∷◌, ◌++◌, Text, codes, ◌==◌, ◌===◌, nat_eq, list_eq, if◌then◌else◌,
  or_else,
}

-- What was read so far: a `$`, the name in a reference, and after the name the dash of `:-`, the
-- first character of the default, and the rest of it.
pub data Mode : Type 0 where
  plain : Mode
  dollar : Mode
  name : Text → Mode
  dash : Text → Mode
  first : Text → Mode
  default : Text → Text → Mode

abbrev pub begins : Text → ℕ → Bool
begins [] c = false
begins (d ∷ s) c = d == c

-- The mode after a character, with the text behind it.
abbrev pub next_mode : Mode → ℕ → Text → Mode
next_mode plain c rest = if c == b'$' then dollar else plain
next_mode dollar c rest = if c == b'{' then name [] else plain
next_mode (name n) c rest =
    if c == b'}'
    then plain
    else if c == b':'
    then (if n === codes "env"
        then name []
        else if begins rest b'-'
        then dash n
        else name (n ++ c ∷ []))
    else name (n ++ c ∷ [])
next_mode (dash n) c rest = first n
next_mode (first n) c rest = default n (c ∷ [])
next_mode (default n d) c rest = if c == b'}' then plain else default n (d ++ c ∷ [])

module _ (environ : Text → Option Text) where
  -- What a character adds to the output.
  abbrev pub emitted : Mode → ℕ → Text
  emitted plain c = if c == b'$' then [] else c ∷ []
  emitted dollar c = if c == b'$' then b'$' ∷ [] else if c == b'{' then [] else b'$' ∷ c ∷ []
  emitted (name n) c = if c == b'}' then or_else (environ n) [] else []
  emitted (dash n) c = []
  emitted (first n) c = []
  emitted (default n d) c = if c == b'}' then or_else (environ n) d else []

  abbrev pub read : Mode → Text → Text
  read m [] = []
  read m (c ∷ rest) = emitted m c ++ read (next_mode m c rest) rest
