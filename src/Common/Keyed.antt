-- ===== src/Common/Keyed.antt =====
-- A `Map` of the source in the order of insertion, with keys that can be compared.
use Prim.Native.Nat.{ℕ, zero, suc}
use mathlib.Core.Path.{◌≡◌, refl}
use mathlib.Core.Logic.{◌⊎◌, inl, inr}
use mathlib.Core.Bool.{Bool, false, ◌||◌}
use mathlib.Core.List.{List, [], ◌∷◌, ◌++◌}
use mathlib.Core.Option.{Option, none, some}
use native.Mathlib.Omega.{arith}
use splunk_otel_js.Common.Tests.{if◌then◌else◌, Bool-cases}
use splunk_otel_js.Common.Lists.{length, get_elem?}
use splunk_otel_js.Common.Equality.{Eq, ◌===◌, ===_iff}

module _ {ℓ} {A : Type ℓ} where
  -- What stands in one list stands at the same place in the other.
  abbrev pub Keeps : List A → List A → Type ℓ
  Keeps m n = (d : ℕ) (x : A) → get_elem? m d ≡ some x → get_elem? n d ≡ some x

  pub append-Keeps : (m n : List A) → Keeps m (m ++ n)
  append-Keeps [] n d x h = cc h
  append-Keeps (y ∷ m) n zero x h = h
  append-Keeps (y ∷ m) n (suc d) x h = append-Keeps m n d x h

  pub get_elem-last : (m : List A) (x : A) → get_elem? (m ++ x ∷ []) (length m) ≡ some x
  get_elem-last [] x = refl
  get_elem-last (y ∷ m) x = get_elem-last m x

  pub get_elem-append_one :
      (m : List A) (x y : A) (d : ℕ)
      → get_elem? (m ++ x ∷ []) d ≡ some y
      → (get_elem? m d ≡ some y) ⊎ ((d ≡ length m) × (y ≡ x))
  get_elem-append_one [] x y zero h = inr (refl, cc h)
  get_elem-append_one [] x y (suc d) h = cc h
  get_elem-append_one (z ∷ m) x y zero h = inl h
  get_elem-append_one (z ∷ m) x y (suc d) h = elim (get_elem-append_one m x y d h) [
    | inl old ↦ inl old
    | inr (e, f) ↦ inr (omega (arith, e), f)
  ]

module _ {ℓ κ} {K : Type ℓ} {A : Type κ} ⦃e : Eq K⦄ where
  -- `get`.
  abbrev pub find : K → List (K × A) → Option A
  find k [] = none
  find k ((l, a) ∷ m) = let rest = find k m in if k === l then some a else rest

  pub find-get_elem :
      (k : K) (a : A) (m : List (K × A))
      → find k m ≡ some a
      → (d : ℕ) × (get_elem? m d ≡ some (k, a))
  find-get_elem k a [] h = cc h
  find-get_elem k a ((l, b) ∷ m) h = elim (Bool-cases (k === l)) [
    | inl same ↦ (0, ground (arith, same, h, ===_iff k l))
    | inr other ↦ let (d, i) = find-get_elem k a m (ground (arith, other, h)) in (suc d, i)
  ]

  pub find-append_one :
      (k : K) (a : A) (m : List (K × A)) → find k m ≡ none → find k (m ++ (k, a) ∷ []) ≡ some a
  find-append_one k a [] h = ground (arith, ===_iff k k)
  find-append_one k a ((l, b) ∷ m) h = ground (arith, h, find-append_one k a m)

  -- `m[k] = a` and `delete m[k]` of an object.
  abbrev pub set_key : K → A → List (K × A) → List (K × A)
  set_key k a [] = (k, a) ∷ []
  set_key k a ((l, b) ∷ m) =
      let rest = set_key k a m in if k === l then (l, a) ∷ m else (l, b) ∷ rest

  abbrev pub delete_key : K → List (K × A) → List (K × A)
  delete_key k [] = []
  delete_key k ((l, b) ∷ m) = let rest = delete_key k m in if k === l then rest else (l, b) ∷ rest

  pub find-set_key :
      (j k : K) (a : A) (m : List (K × A))
      → find j (set_key k a m) ≡ (if j === k then some a else find j m)
  find-set_key j k a [] = refl
  find-set_key j k a ((l, b) ∷ m) =
      ground (arith, ===_iff j k, ===_iff k l, ===_iff j l, find-set_key j k a m)

  pub find-delete_key :
      (j k : K) (m : List (K × A)) → find j (delete_key k m) ≡ (if j === k then none else find j m)
  find-delete_key j k [] = ground arith
  find-delete_key j k ((l, b) ∷ m) =
      ground (arith, ===_iff j k, ===_iff k l, ===_iff j l, find-delete_key j k m)

-- Whether a list names the key.
abbrev pub has {ℓ} : {K : Type ℓ} ⦃e : Eq K⦄ → K → List K → Bool
has k [] = false
has k (l ∷ ls) = let rest = has k ls in k === l || rest
