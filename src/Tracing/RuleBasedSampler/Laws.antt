-- ===== src/Tracing/RuleBasedSampler/Laws.antt =====
-- The rules of src/tracing/RuleBasedSampler.ts, written out and read back.
use mathlib.Core.List.{reverse, reverse-cons}
use splunk_otel_js.Common.{
  ℕ, Bool, true, false, not, ◌&&◌, some, List, [], ◌∷◌, ◌++◌, Text, codes, ◌==◌, nat_eq, list_eq,
  if◌then◌else◌, is_empty, trim, trim_start, is_space, split, All, ◌≡◌, refl, sym, ap, subst, ◌∙◌,
  arith, Bool-cases, inl, inr, append_assoc, append-nil, or_else,
}
use splunk_otel_js.Configuration.Document.{Checked, returned, thrown, ◌>>=◌}
use splunk_otel_js.Tracing.RuleBasedSampler.{
  ComposableSampler, always_on, select_composable_sampler, Rules, add_rule, parse_rule, parse_rules,
  parse_arg, no_rules, split_first, SamplerRules, sampler_rules, create_rule_based_sampler,
}

-- The rules as one writes them.
abbrev pub write : List Text → Text → Text
write [] fallback = codes "fallback=" ++ fallback
write (v ∷ vs) fallback = (codes "drop=" ++ v) ++ b';' ∷ write vs fallback

abbrev lacks : ℕ → Text → Bool
lacks c [] = true
lacks c (d ∷ s) = let rest = lacks c s in not (d == c) && rest

-- A value that can be written: without a semicolon, not empty, and without space around it.
abbrev pub IsPlain : Text → Type 0
IsPlain v = (lacks b';' v ≡ true) × (is_empty v ≡ false) × (trim v ≡ v)

split-lacks :
    (c : ℕ) (s rest : Text) → lacks c s ≡ true → split c (s ++ c ∷ rest) ≡ s ∷ split c rest
split-lacks c [] rest h = ground arith
split-lacks c (d ∷ s) rest h = ground (arith, h, split-lacks c s rest)

split_last : (c : ℕ) (s : Text) → lacks c s ≡ true → split c s ≡ s ∷ []
split_last c [] h = refl
split_last c (d ∷ s) h = ground (arith, h, split_last c s)

parse_rule-drop :
    (v : Text) (r : Rules)
    → IsPlain v
    → parse_rule (codes "drop=" ++ v) r
      ≡ returned (record r { drop_values = r.drop_values ++ v ∷ [] })
unfolding parse_rule split_first add_rule trim trim_start is_space
parse_rule-drop v r (_, filled, trimmed) =
    let read : Checked Rules = returned (record r { drop_values = r.drop_values ++ v ∷ [] }) in
    ap (λ w. add_rule (codes "drop") w r) trimmed ∙ ground (arith, filled)

parse_rule-fallback :
    (name : Text) (r : Rules)
    → trim name ≡ name
    → parse_rule (codes "fallback=" ++ name) r
      ≡ select_composable_sampler name >>= (λ s. returned (record r { fallback = some s }))
unfolding parse_rule split_first add_rule trim trim_start is_space
parse_rule-fallback name r h = ap (λ w. add_rule (codes "fallback") w r) h

-- What the rules give, behind what was read before.
abbrev fallen_back : List Text → ComposableSampler → Checked Rules
fallen_back drops s = returned (record { drop_values = drops; fallback = some s })

abbrev with_fallback : List Text → Text → Checked Rules
with_fallback drops fallback = select_composable_sampler fallback >>= (λ s. fallen_back drops s)

parse_rules_one : (c : Checked Rules) → (c >>= parse_rules []) ≡ c
unfolding parse_rules
parse_rules_one (returned r) = refl
parse_rules_one thrown = refl

parse_rules_single : (rule : Text) (r : Rules) → parse_rules (rule ∷ []) r ≡ parse_rule rule r
unfolding parse_rules
parse_rules_single rule r = parse_rules_one (parse_rule rule r)

parse_rules_more :
    (rule : Text) (rules : List Text) (r r' : Rules)
    → parse_rule rule r ≡ returned r'
    → parse_rules (rule ∷ rules) r ≡ parse_rules rules r'
unfolding parse_rules
parse_rules_more rule rules r r' h = ap (λ c. c >>= parse_rules rules) h

parse_rules-write :
    (vs : List Text) (fallback : Text) (r : Rules)
    → All IsPlain vs
    → lacks b';' fallback ≡ true
    → trim fallback ≡ fallback
    → parse_rules (split b';' (write vs fallback)) r ≡ with_fallback (r.drop_values ++ vs) fallback
parse_rules-write [] fallback r plain l t =
    ap (λ rules. parse_rules rules r) (split_last b';' (codes "fallback=" ++ fallback) l)
    ∙ (parse_rules_single (codes "fallback=" ++ fallback) r
        ∙ (parse_rule-fallback fallback r t
            ∙ ap (λ d. with_fallback d fallback) (sym (append-nil r.drop_values))))
parse_rules-write (v ∷ vs) fallback r (p, plain) l t =
    let r' : Rules = record r { drop_values = r.drop_values ++ v ∷ [] } in
    ap (λ rules. parse_rules rules r)
      (split-lacks b';' (codes "drop=" ++ v) (write vs fallback) (p.0))
    ∙ (parse_rules_more (codes "drop=" ++ v) (split b';' (write vs fallback)) r r'
          (parse_rule-drop v r p)
        ∙ (parse_rules-write vs fallback r' plain l t
            ∙ ap (λ d. with_fallback d fallback) (append_assoc r.drop_values (v ∷ []) vs)))

trim_start-visible :
    (xs : Text) (c : ℕ) → is_space c ≡ false → is_empty (trim_start (xs ++ c ∷ [])) ≡ false
unfolding trim_start
trim_start-visible [] c h = ground (arith, h)
trim_start-visible (x ∷ xs) c h = elim (Bool-cases (is_space x)) [
  | inl space ↦ ground (arith, space, trim_start-visible xs c h)
  | inr visible ↦ ground (arith, visible)
]

append-filled : (xs : Text) (c : ℕ) → is_empty (xs ++ c ∷ []) ≡ false
append-filled [] c = refl
append-filled (x ∷ xs) c = refl

reverse-filled : (xs : Text) → is_empty xs ≡ false → is_empty (reverse xs) ≡ false
reverse-filled [] h = cc h
reverse-filled (x ∷ xs) h = rw (reverse-cons x xs) (append-filled (reverse xs) x)

trim_start-keep : (c : ℕ) (s : Text) → is_space c ≡ false → trim_start (c ∷ s) ≡ c ∷ s
unfolding trim_start
trim_start-keep c s h = ground (arith, h)

-- A text that begins with something visible is not blank.
trim-visible : (c : ℕ) (s : Text) → is_space c ≡ false → is_empty (trim (c ∷ s)) ≡ false
unfolding trim
trim-visible c s h =
    subst (λ z. is_empty (reverse (trim_start (reverse z))) ≡ false) (sym (trim_start-keep c s h))
      (reverse-filled (trim_start (reverse (c ∷ s))) (
        subst (λ z. is_empty (trim_start z) ≡ false) (sym (reverse-cons c s))
          (trim_start-visible (reverse s) c h)))

write-visible : (vs : List Text) (fallback : Text) → is_empty (trim (write vs fallback)) ≡ false
unfolding is_space
write-visible [] fallback = trim-visible b'f' _ refl
write-visible (v ∷ vs) fallback = trim-visible b'd' _ refl

parse_arg-write :
    (vs : List Text) (fallback : Text)
    → All IsPlain vs
    → lacks b';' fallback ≡ true
    → trim fallback ≡ fallback
    → parse_arg (some (write vs fallback)) ≡ with_fallback vs fallback
unfolding parse_arg
parse_arg-write vs fallback plain l t =
    ap (λ b. if b then returned no_rules else parse_rules (split b';' (write vs fallback)) no_rules)
      (write-visible vs fallback)
    ∙ parse_rules-write vs fallback no_rules plain l t

as_rules : Rules → Checked SamplerRules
as_rules r = returned (sampler_rules r.drop_values (or_else r.fallback always_on))

rules_of :
    (c : Checked ComposableSampler) (vs : List Text)
    → ((c >>= fallen_back vs) >>= as_rules) ≡ (c >>= (λ s. returned (sampler_rules vs s)))
unfolding as_rules
rules_of (returned s) vs = refl
rules_of thrown vs = refl

-- Rules that are written out, each value non-empty and without a semicolon and space around it, and
-- the fallback without a semicolon and space around it, are read back in their order: spans that match
-- one of the values are dropped, and the others go to the fallback, if that has a sampler, or the whole
-- is refused.
pub create_rule_based_sampler-write :
    (vs : List Text) (fallback : Text)
    → All IsPlain vs
    → lacks b';' fallback ≡ true
    → trim fallback ≡ fallback
    → create_rule_based_sampler (some (write vs fallback))
      ≡ select_composable_sampler fallback >>= (λ s. returned (sampler_rules vs s))
unfolding create_rule_based_sampler as_rules
create_rule_based_sampler-write vs fallback plain l t =
    ap (λ c. c >>= as_rules) (parse_arg-write vs fallback plain l t)
    ∙ rules_of (select_composable_sampler fallback) vs
