-- ===== src/Common/Maps.antt =====
-- A `Map` of the source as a list of entries, and a `Set` of numbers as a list.
use Prim.Native.Nat.{ℕ, ◌+◌}
use mathlib.Core.Path.{◌≡◌, refl}
use mathlib.Core.Logic.{inl, inr}
use mathlib.Core.Bool.{Bool, true, false, not, ◌&&◌, ◌||◌}
use mathlib.Core.List.{List, [], ◌∷◌}
use mathlib.Core.Option.{Option, none, some}
use native.Mathlib.Omega.{arith}
use splunk_otel_js.Common.Tests.{◌==◌, ==_iff, if◌then◌else◌, Bool-cases}
use splunk_otel_js.Common.Lists.{length}

module _ {ℓ} {A : Type ℓ} where
  -- `get`, `set` and `delete`.
  abbrev pub lookup : ℕ → List (ℕ × A) → Option A
  lookup k [] = none
  lookup k ((l, a) ∷ m) = let rest = lookup k m in if k == l then some a else rest

  abbrev pub put : ℕ → A → List (ℕ × A) → List (ℕ × A)
  put k a [] = (k, a) ∷ []
  put k a ((l, b) ∷ m) = let rest = put k a m in if k == l then (k, a) ∷ m else (l, b) ∷ rest

  abbrev pub erase : ℕ → List (ℕ × A) → List (ℕ × A)
  erase k [] = []
  erase k ((l, a) ∷ m) = let rest = erase k m in if k == l then m else (l, a) ∷ rest

  pub length-put_fresh :
      (k : ℕ) (a : A) (m : List (ℕ × A)) → lookup k m ≡ none → length (put k a m) ≡ length m + 1
  length-put_fresh k a [] h = refl
  length-put_fresh k a ((l, b) ∷ m) h = ground (arith, length-put_fresh k a m)

  pub length-erase :
      (k : ℕ) (a : A) (m : List (ℕ × A)) → lookup k m ≡ some a → length m ≡ length (erase k m) + 1
  length-erase k a [] h = cc h
  length-erase k a ((l, b) ∷ m) h = ground (arith, length-erase k a m)

  pub lookup-put : (k : ℕ) (a : A) (m : List (ℕ × A)) → lookup k (put k a m) ≡ some a
  lookup-put k a [] = ground arith
  lookup-put k a ((l, b) ∷ m) = ground (arith, lookup-put k a m)

  pub erase-put_fresh :
      (k : ℕ) (a : A) (m : List (ℕ × A)) → lookup k m ≡ none → erase k (put k a m) ≡ m
  erase-put_fresh k a [] h = ground arith
  erase-put_fresh k a ((l, b) ∷ m) h = ground (arith, erase-put_fresh k a m)

abbrev pub values : List (ℕ × ℕ) → List ℕ
values [] = []
values ((k, v) ∷ m) = v ∷ values m

abbrev pub member : ℕ → List ℕ → Bool
member x [] = false
member x (y ∷ ys) = let rest = member x ys in x == y || rest

-- `delete` on a set.
abbrev pub without : ℕ → List ℕ → List ℕ
without x [] = []
without x (y ∷ ys) = let rest = without x ys in if x == y then rest else y ∷ rest

abbrev pub remove_all : List ℕ → List ℕ → List ℕ
remove_all [] ys = ys
remove_all (x ∷ xs) ys = remove_all xs (without x ys)

-- The values of a new `Set`.
abbrev pub distinct : List ℕ → List ℕ
distinct [] = []
distinct (x ∷ xs) = x ∷ without x (distinct xs)

pub member-without :
    (x y : ℕ) (ys : List ℕ) → member x (without y ys) ≡ (not (x == y) && member x ys)
member-without x y [] = ground arith
member-without x y (z ∷ ys) = ground (arith, member-without x y ys)

pub without_fresh : (x : ℕ) (ys : List ℕ) → member x ys ≡ false → without x ys ≡ ys
without_fresh x [] h = refl
without_fresh x (y ∷ ys) h = ground (arith, without_fresh x ys)

pub member-distinct : (x : ℕ) (xs : List ℕ) → member x (distinct xs) ≡ member x xs
member-distinct x [] = refl
member-distinct x (y ∷ xs) = ground (arith, member-distinct x xs, member-without x y (distinct xs))

pub member-put_same :
    (k v : ℕ) (m : List (ℕ × ℕ)) → lookup k m ≡ none → member v (values (put k v m)) ≡ true
member-put_same k v [] h = ground arith
member-put_same k v ((l, w) ∷ m) h = ground (arith, member-put_same k v m)

pub member-put :
    (x k v : ℕ) (m : List (ℕ × ℕ))
    → lookup k m ≡ none
    → member x (values m) ≡ true
    → member x (values (put k v m)) ≡ true
member-put x k v [] h e = cc e
member-put x k v ((l, w) ∷ m) h e = ground (arith, member-put x k v m)

pub member-erase :
    (x k v : ℕ) (m : List (ℕ × ℕ))
    → lookup k m ≡ some v
    → (x == v) ≡ false
    → member x (values m) ≡ true
    → member x (values (erase k m)) ≡ true
member-erase x k v [] h n e = cc e
member-erase x k v ((l, w) ∷ m) h n e = ground (arith, member-erase x k v m)

-- Every element of the first list is in the second.
abbrev pub Within : List ℕ → List ℕ → Type 0
Within [] ys = Unit
Within (x ∷ xs) ys = (member x ys ≡ true) × Within xs ys

pub Within-map :
    (xs ys zs : List ℕ)
    → ((x : ℕ) → member x ys ≡ true → member x zs ≡ true)
    → Within xs ys
    → Within xs zs
Within-map [] ys zs f h = tt
Within-map (x ∷ xs) ys zs f (e, h) = (f x e, Within-map xs ys zs f h)

pub Within-without :
    (v : ℕ) (xs ys zs : List ℕ)
    → ((x : ℕ) → (x == v) ≡ false → member x ys ≡ true → member x zs ≡ true)
    → Within xs ys
    → Within (without v xs) zs
Within-without v [] ys zs f h = tt
Within-without v (x ∷ xs) ys zs f (e, h) = elim (Bool-cases (v == x)) [
  | inl same ↦ rw same (Within-without v xs ys zs f h)
  | inr other ↦
      let o : (x == v) ≡ false = ground (arith, ==_iff v x, ==_iff x v) in
      rw other (f x o e, Within-without v xs ys zs f h)
]

pub remove_all-Within : (xs ys : List ℕ) → Within ys xs → remove_all xs ys ≡ []
remove_all-Within [] [] h = refl
remove_all-Within [] (y ∷ ys) (e, h) = cc e
remove_all-Within (x ∷ xs) ys h =
    remove_all-Within xs (without x ys)
      (Within-without x ys (x ∷ xs) xs (λ y n e. ground (arith, n, e)) h)
