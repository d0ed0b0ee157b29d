-- ===== src/Configuration/Substitute/Simulation.antt =====
-- The loop of src/configuration/substitute.ts computes what the reader describes.
pub mod Characters
use splunk_otel_js.Common.{
  ℕ, zero, suc, ◌+◌, ◌-◌, ◌≤◌, true, false, Option, none, some, [], ◌∷◌, ◌++◌, Text, codes, ◌==◌,
  ◌===◌, nat_eq, list_eq, length, get_elem?, take, drop, ◌≡◌, refl, sym, ap, subst, ◌∙◌, arith,
  append_assoc, append-nil, Option-cases, Bool-cases, inl, inr,
}
use splunk_otel_js.Configuration.Substitute.{
  normal, dollar_sign, substitute_begin, default_value, Scan, substring, is_char, step, loop,
  initial, env_substitute,
}
use splunk_otel_js.Configuration.Substitute.Reader.{
  Mode, plain, dollar, name, dash, first, default, begins, read,
}
use splunk_otel_js.Configuration.Substitute.Simulation.Characters.{
  drop-end, drop-cons, substring-snoc, substring-empty, is_char-begins, get_elem?-none, drop-length,
}

-- The variables of the loop before round `i`, and the mode of the reader before that character.
abbrev Sim : Text → ℕ → Scan → Mode → Type 0
Sim v i s plain = s.state ≡ normal
Sim v i s dollar = s.state ≡ dollar_sign
Sim v i s (name n) =
    (s.state ≡ substitute_begin) × (s.env_var_begin ≤ i) × (substring v s.env_var_begin i ≡ n)
Sim v i s (default n d) =
    (s.state ≡ default_value)
    × (substring v s.env_var_begin s.env_var_end ≡ n)
    × (s.env_var_end + 2 ≤ i)
    × (substring v (s.env_var_end + 2) i ≡ d)
Sim v i s _ = ⊥

module _ (environ : Text → Option Text) (v : Text) where
  -- A round of the loop, from a related mode, leads to a related mode with the same result.
  abbrev Simulates : ℕ → Scan → ℕ × Scan → Mode → Type 0
  Simulates i s (i', s') m =
      (m' : Mode) × Sim v (i' + 1) s' m'
      × (s'.output ++ read environ m' (drop (i' + 1) v) ≡ s.output ++ read environ m (drop i v))
      × (i ≤ i')

  step-plain :
      (i c : ℕ) (s : Scan)
      → get_elem? v i ≡ some c
      → s.state ≡ normal
      → Simulates i s (step environ v normal i c s) plain
  unfolding step
  step-plain i c s e h = elim (Bool-cases (c == b'$')) [
    | inl t ↦ rw (drop-cons v i c e, t) (dollar, refl, refl, omega arith)
    | inr t ↦ rw (drop-cons v i c e, t) (plain, h, append_assoc s.output (c ∷ []) _, omega arith)
  ]

  step-dollar :
      (i c : ℕ) (s : Scan)
      → get_elem? v i ≡ some c
      → s.state ≡ dollar_sign
      → Simulates i s (step environ v dollar_sign i c s) dollar
  unfolding step
  step-dollar i c s e h = elim (Bool-cases (c == b'$')) [
    | inl t ↦
        let b : (c == b'{') ≡ false = ground arith in
        rw (drop-cons v i c e, t, b) (plain, refl, append_assoc s.output (b'$' ∷ []) _, omega arith)
    | inr t ↦ elim (Bool-cases (c == b'{')) [
      | inl b ↦
          rw (drop-cons v i c e, t, b)
            (
              name [],
              (refl, omega arith, substring-empty v (i + 1) (i + 1) (omega arith)),
              refl,
              omega arith,
            )
      | inr b ↦ rw (drop-cons v i c e, t, b) (plain, refl, simp append_assoc, omega arith)
    ]
  ]

  -- The three characters that the loop takes at once at `:-`.
  read-dash :
      (i : ℕ) (n : Text)
      → is_char v (i + 1) b'-' ≡ true
      → read environ (default n (substring v (i + 2) (i + 2 + 1))) (drop (i + 2 + 1) v)
        ≡ read environ (dash n) (drop (i + 1) v)
  read-dash i n h = elim (Option-cases (get_elem? v (i + 1))) [
    | inl missing ↦ absurd (no_dash missing)
    | inr (d, found) ↦ rw (drop-cons v (i + 1) d found) (elim (Option-cases (get_elem? v (i + 2))) [
      | inl past ↦
          let short = get_elem?-none v (i + 2) past in
          rw (drop-length v (i + 1 + 1) (omega arith), drop-length v (i + 2 + 1) (omega arith))
      | inr (x, behind) ↦
          let q : i + 1 + 1 ≡ i + 2 = omega arith in
          let one =
            substring-snoc v (i + 2) (i + 2) x (omega arith) behind
            ∙ ap (λ t. t ++ x ∷ []) (substring-empty v (i + 2) (i + 2) (omega arith)) in
          rw (one, q, drop-cons v (i + 2) x behind)
    ])
  ]
    where
      no_dash : get_elem? v (i + 1) ≡ none → ⊥
      no_dash e = ground arith

  step-name :
      (i c : ℕ) (s : Scan) (n : Text)
      → get_elem? v i ≡ some c
      → Sim v i s (name n)
      → Simulates i s (step environ v substitute_begin i c s) (name n)
  unfolding step
  step-name i c s n e (h, b, same) = elim (Bool-cases (c == b'}')) [
    | inl t ↦ rw (drop-cons v i c e, t, same) (plain, refl, append_assoc s.output _ _, omega arith)
    | inr t ↦ elim (Bool-cases (c == b':')) [
      | inr u ↦
          rw (drop-cons v i c e, t, u)
            (name (n ++ c ∷ []), (h, omega arith, longer), refl, omega arith)
      | inl u ↦ elim (Bool-cases (n === codes "env")) [
        | inl k ↦
            rw (drop-cons v i c e, t, u, same, k)
              (
                name [],
                (h, omega arith, substring-empty v (i + 1) (i + 1) (omega arith)),
                refl,
                omega arith,
              )
        | inr k ↦ elim (Bool-cases (is_char v (i + 1) b'-')) [
          | inl f ↦
              rw (drop-cons v i c e, t, u, same, k, f, sym (is_char-begins v (i + 1) b'-') ∙ f)
                (
                  default n (substring v (i + 2) (i + 2 + 1)),
                  (refl, same, omega arith, refl),
                  ap (◌++◌ s.output) (read-dash i n f),
                  omega arith,
                )
          | inr f ↦
              rw (drop-cons v i c e, t, u, same, k, f, sym (is_char-begins v (i + 1) b'-') ∙ f)
                (name (n ++ c ∷ []), (h, omega arith, longer), refl, omega arith)
        ]
      ]
    ]
  ]
    where
      longer : substring v s.env_var_begin (i + 1) ≡ n ++ c ∷ []
      longer = substring-snoc v s.env_var_begin i c b e ∙ ap (λ x. x ++ c ∷ []) same

  step-default :
      (i c : ℕ) (s : Scan) (n d : Text)
      → get_elem? v i ≡ some c
      → Sim v i s (default n d)
      → Simulates i s (step environ v default_value i c s) (default n d)
  unfolding step
  step-default i c s n d e (h, same, b, sofar) = elim (Bool-cases (c == b'}')) [
    | inl t ↦
        rw (drop-cons v i c e, t, same, sofar) (plain, refl, append_assoc s.output _ _, omega arith)
    | inr t ↦
        rw (drop-cons v i c e, t)
          (
            default n (d ++ c ∷ []),
            (
              h,
              same,
              omega arith,
              substring-snoc v (s.env_var_end + 2) i c b e ∙ ap (λ x. x ++ c ∷ []) sofar,
            ),
            refl,
            omega arith,
          )
  ]

  step-Sim :
      (i c : ℕ) (s : Scan) (m : Mode)
      → get_elem? v i ≡ some c
      → Sim v i s m
      → Simulates i s (step environ v s.state i c s) m
  step-Sim i c s plain e h =
      subst (λ st. Simulates i s (step environ v st i c s) plain) (sym h) (step-plain i c s e h)
  step-Sim i c s dollar e h =
      subst (λ st. Simulates i s (step environ v st i c s) dollar) (sym h) (step-dollar i c s e h)
  step-Sim i c s (name n) e h =
      subst (λ st. Simulates i s (step environ v st i c s) (name n)) (sym h.0)
        (step-name i c s n e h)
  step-Sim i c s (default n d) e h =
      subst (λ st. Simulates i s (step environ v st i c s) (default n d)) (sym h.0)
        (step-default i c s n d e h)
  step-Sim i c s (dash n) e h = absurd h
  step-Sim i c s (first n) e h = absurd h

  loop-read :
      (fuel i : ℕ) (s : Scan) (m : Mode)
      → Sim v i s m
      → length v ≤ i + fuel
      → loop environ v fuel i s ≡ s.output ++ read environ m (drop i v)
  unfolding loop
  loop-read zero i s m h long = rw (drop-length v i (omega arith)) (sym (append-nil s.output))
  loop-read (suc fuel) i s m h long = elim (Option-cases (get_elem? v i)) [
    | inl past ↦ rw (past, loop, drop-end v i past) (sym (append-nil s.output))
    | inr (c, found) ↦
        let (m', h', same, later) = step-Sim i c s m found h in
        rw (found, loop)
          (loop-read fuel ((step environ v s.state i c s).0 + 1) (step environ v s.state i c s).1 m'
              h' (omega arith)
            ∙ same)
  ]

-- The loop over indices is the reader: on every text and in every environment, as many rounds as
-- the text has characters go through all of it, and give what the reader gives.
pub env_substitute-read :
    (value : Text) (environ : Text → Option Text)
    → env_substitute value environ ≡ read environ plain value
unfolding env_substitute
env_substitute-read value environ =
    loop-read environ value (length value) 0 initial plain refl (omega arith)
