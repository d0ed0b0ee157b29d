-- ===== src/Configuration/Substitute/Laws.antt =====
-- What the substitution of src/configuration/substitute.ts makes of references and escapes.
use splunk_otel_js.Common.{
  ℕ, false, Option, [], ◌∷◌, ◌++◌, Text, codes, ◌==◌, ◌===◌, nat_eq, list_eq, or_else, ◌≡◌, ◌≢◌,
  refl, ap, ◌∙◌, arith, append_assoc, append-nil, Bool-cases, inl, inr, All, ===_iff, if◌then◌else◌,
}
use splunk_otel_js.Configuration.Substitute.{env_substitute}
use splunk_otel_js.Configuration.Substitute.Reader.{plain, name, default, read}
use splunk_otel_js.Configuration.Substitute.Simulation.{env_substitute-read}

-- A text without a character.
abbrev pub Avoids : ℕ → Text → Type 0
Avoids c = All (λ d. d ≢ c)

-- Every `$` twice.
unfoldable pub escape : Text → Text
escape [] = []
escape (c ∷ s) = let rest = escape s in if c == b'$' then b'$' ∷ b'$' ∷ rest else c ∷ rest

-- The reference to a variable.
abbrev pub reference : Text → Text → Text
reference n rest = b'$' ∷ b'{' ∷ (n ++ b'}' ∷ rest)

-- The reference to a variable with a default.
abbrev pub reference_or : Text → Text → Text → Text
reference_or n d rest = b'$' ∷ b'{' ∷ (n ++ b':' ∷ b'-' ∷ (d ++ b'}' ∷ rest))

module _ (environ : Text → Option Text) where
  read-escape : (s : Text) → read environ plain (escape s) ≡ s
  unfolding escape
  read-escape [] = refl
  read-escape (c ∷ s) = elim (Bool-cases (c == b'$')) [
    | inl t ↦ rw (t, escape) (ground (arith, read-escape s))
    | inr t ↦ rw (t, escape) (ground (arith, read-escape s))
  ]

  read-Avoids :
      (pre t : Text) → Avoids b'$' pre → read environ plain (pre ++ t) ≡ pre ++ read environ plain t
  read-Avoids [] t h = refl
  read-Avoids (c ∷ pre) t (ne, h) =
      let e : (c == b'$') ≡ false = ground arith in rw (e, read-Avoids pre t h)

  read-name :
      (acc n t : Text)
      → Avoids b'}' n
      → Avoids b':' n
      → read environ (name acc) (n ++ t) ≡ read environ (name (acc ++ n)) t
  read-name acc [] t h k = rw (append-nil acc)
  read-name acc (c ∷ n) t (p, h) (q, k) =
      let e : (c == b'}') ≡ false = ground arith in
      let f : (c == b':') ≡ false = ground arith in
      rw (e, f) (read-name (acc ++ c ∷ []) n t h k ∙ rw (append_assoc acc (c ∷ []) n))

  read-default :
      (n acc d rest : Text)
      → Avoids b'}' d
      → read environ (default n acc) (d ++ b'}' ∷ rest)
        ≡ or_else (environ n) (acc ++ d) ++ read environ plain rest
  read-default n acc [] rest h = rw (append-nil acc)
  read-default n acc (c ∷ d) rest (p, h) =
      let e : (c == b'}') ≡ false = ground arith in
      rw e (read-default n (acc ++ c ∷ []) d rest h ∙ rw (append_assoc acc (c ∷ []) d))

  read-colon_dash :
      (n t : Text) (x : ℕ)
      → Avoids b'}' n
      → Avoids b':' n
      → n ≢ codes "env"
      → read environ (name []) (n ++ b':' ∷ b'-' ∷ x ∷ t) ≡ read environ (default n (x ∷ [])) t
  read-colon_dash n t x h k ne =
      let e : (n === codes "env") ≡ false = ground (arith, ===_iff n (codes "env")) in
      read-name [] n (b':' ∷ b'-' ∷ x ∷ t) h k ∙ rw e

  read-unclosed : (n acc d : Text) → Avoids b'}' d → read environ (default n acc) d ≡ []
  read-unclosed n acc [] h = refl
  read-unclosed n acc (c ∷ d) (p, h) =
      let e : (c == b'}') ≡ false = ground arith in rw e (read-unclosed n (acc ++ c ∷ []) d h)

-- A text in which every `$` is doubled is read back as it was, in every environment.
env_substitute-escape :
    (s : Text) (environ : Text → Option Text) → env_substitute (escape s) environ ≡ s
env_substitute-escape s environ = env_substitute-read (escape s) environ ∙ read-escape environ s

-- Behind a text without `$`, a reference whose name holds neither `}` nor `:` is replaced by the
-- value of the variable, by nothing if there is none, and what follows is substituted in turn.
env_substitute-reference :
    (pre n rest : Text) (environ : Text → Option Text)
    → Avoids b'$' pre
    → Avoids b'}' n
    → Avoids b':' n
    → env_substitute (pre ++ reference n rest) environ
      ≡ pre ++ (or_else (environ n) [] ++ env_substitute rest environ)
env_substitute-reference pre n rest environ h k l =
    rw (env_substitute-read (pre ++ reference n rest) environ, env_substitute-read rest environ)
      (read-Avoids environ pre (reference n rest) h
        ∙ ap (◌++◌ pre) (read-name environ [] n (b'}' ∷ rest) k l))

-- With a default that is not empty, and holds no `}` behind its first character, the default stands
-- in for a variable that has no value; the name must not be `env`.
env_substitute-reference_or :
    (pre n rest d : Text) (x : ℕ) (environ : Text → Option Text)
    → Avoids b'$' pre
    → Avoids b'}' n
    → Avoids b':' n
    → n ≢ codes "env"
    → Avoids b'}' d
    → env_substitute (pre ++ reference_or n (x ∷ d) rest) environ
      ≡ pre ++ (or_else (environ n) (x ∷ d) ++ env_substitute rest environ)
env_substitute-reference_or pre n rest d x environ h k l ne m =
    rw
      (
        env_substitute-read (pre ++ reference_or n (x ∷ d) rest) environ,
        env_substitute-read rest environ,
      )
      (read-Avoids environ pre (reference_or n (x ∷ d) rest) h
        ∙ ap (◌++◌ pre) (
            read-colon_dash environ n (d ++ b'}' ∷ rest) x k l ne
            ∙ read-default environ n (x ∷ []) d rest m))

-- With an empty default the closing brace is taken for the default's first character: if no `}`
-- follows, the reference and all that stands behind it is lost, whether the variable has a value
-- or not.
env_substitute-empty_default :
    (n rest : Text) (environ : Text → Option Text)
    → Avoids b'}' n
    → Avoids b':' n
    → n ≢ codes "env"
    → Avoids b'}' rest
    → env_substitute (reference_or n [] rest) environ ≡ []
env_substitute-empty_default n rest environ k l ne m =
    env_substitute-read (reference_or n [] rest) environ
    ∙ (read-colon_dash environ n rest b'}' k l ne ∙ read-unclosed environ n (b'}' ∷ []) rest m)
