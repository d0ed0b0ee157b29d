-- ===== src/JsonSchema/Order/Graph.antt =====
-- The graph of the definitions that topologicalSort of packages/jsonschema-to-typescript/src/generate.ts
-- sorts, and the lemmas on its sets of names.
use splunk_otel_js.Common.{
  ℕ, suc, ◌<◌, ◌≤◌, true, false, List, [], ◌∷◌, Text, ◌===◌, nat_eq, list_eq, if◌then◌else◌, find,
  is_some, length, ◌≡◌, refl, subst, ◌⊎◌, inl, inr, arith, ===_iff, ===_refl, Bool-cases,
}
use splunk_otel_js.JsonSchema.Order.{has, delete, Definitions, is_defined, refs_of}

pub has_head : (x : Text) (ys : List Text) → has x (x ∷ ys) ≡ true
has_head x ys = ground (arith, ===_refl x)

pub has_tail : (x y : Text) (ys : List Text) → has x ys ≡ true → has x (y ∷ ys) ≡ true
has_tail x y ys h = ground (arith, h)

pub has-cases : (x y : Text) (ys : List Text) → has x (y ∷ ys) ≡ true → (x ≡ y) ⊎ (has x ys ≡ true)
has-cases x y ys h = elim (Bool-cases (x === y)) [
  | inl same ↦ inl ((===_iff x y).0 same)
  | inr other ↦ inr (ground (arith, other, h))
]

pub differs : (x y : Text) (ys : List Text) → has x ys ≡ true → has y ys ≡ false → (x === y) ≡ false
differs x y ys h n = elim (Bool-cases (x === y)) [
  | inl same ↦ ground (arith, n, subst (λ z. has z ys ≡ true) ((===_iff x y).0 same) h)
  | inr other ↦ other
]

delete_absent : (x : Text) (ys : List Text) → has x ys ≡ false → delete x ys ≡ ys
delete_absent x [] h = refl
delete_absent x (y ∷ ys) h = ground (arith, h, delete_absent x ys)

pub delete_head : (x : Text) (ys : List Text) → has x ys ≡ false → delete x (x ∷ ys) ≡ ys
delete_head x ys h = ground (arith, ===_refl x, delete_absent x ys h)

abbrev pub IsDistinct : List Text → Type 0
IsDistinct [] = Unit
IsDistinct (n ∷ earlier) = (has n earlier ≡ false) × IsDistinct earlier

-- How many definitions are not among the names.
abbrev pub left : Definitions → List Text → ℕ
left [] vs = 0
left ((n, _) ∷ es) vs = let rest = left es vs in if has n vs then rest else suc rest

pub left_mono : (es : Definitions) (x : Text) (vs : List Text) → left es (x ∷ vs) ≤ left es vs
left_mono [] x vs = omega arith
left_mono ((n, _) ∷ es) x vs = ground (arith, left_mono es x vs)

pub left_less :
    (es : Definitions) (x : Text) (vs : List Text)
    → is_some (find x es) ≡ true
    → has x vs ≡ false
    → left es (x ∷ vs) < left es vs
left_less [] x vs h n = cc h
left_less ((m, d) ∷ es) x vs h n = elim (Bool-cases (x === m)) [
  | inl same ↦
      (let e = (===_iff x m).0 same in
        ground (
          arith,
          left_mono es x vs,
          subst (λ z. has z vs ≡ false) e n,
          subst (λ z. has z (x ∷ vs) ≡ true) e (has_head x vs),
        ))
  | inr other ↦ ground (arith, left_less es x vs (ground (arith, h, other)) n, n)
]

pub left_all : (es : Definitions) → left es [] ≤ length es
left_all [] = omega arith
left_all (_ ∷ es) = ground (arith, left_all es)

module _ (ds : Definitions) where
  -- One definition refers to another, and so from one to the next.
  abbrev pub Refers : Text → Text → Type 0
  Refers a b = (is_defined ds b ≡ true) × (has b (refs_of ds a) ≡ true)

  pub data Leads (a : Text) : Text → Type 0 where
    arrived : Leads a a
    follow : {b c : Text} → Leads a b → Refers b c → Leads a c

  -- With the newest first: what a name refers to stands before it, unless it leads back to the name.
  abbrev pub IsOrdered : List Text → Type 0
  IsOrdered [] = Unit
  IsOrdered (n ∷ earlier) =
      ((r : Text) → Refers n r → (has r earlier ≡ true) ⊎ Leads r n) × IsOrdered earlier
