-- ===== src/Common/Equality.antt =====
-- Equality tests as an interface: `===` on texts and numbers, `isDeepStrictEqual` on bytes.
use Prim.Native.Nat.{ℕ}
use Prim.Native.String.{String}
use text.Mathlib.Text.{◌==◌ as str_eq}
use text.Mathlib.TextEquality.{eq_iff}
use mathlib.Core.Path.{◌≡◌, refl}
use mathlib.Core.Logic.{◌↔◌}
use mathlib.Core.Bool.{Bool, true, false, ◌&&◌, and-eq-true_iff}
use mathlib.Core.List.{List, [], ◌∷◌}
use mathlib.Core.Option.{Option, none, some}
use native.Mathlib.Omega.{arith}
use splunk_otel_js.Common.Tests.{◌==◌, ==_iff}

-- What a type needs for `===`: a test, and that it decides the path.
pub record Eq {ℓ} (A : Type ℓ) : Type ℓ where
  pub agree : A → A → Bool
  pub agree_iff : (x y : A) → (agree x y ≡ true) ↔ (x ≡ y)

instance abbrev pub string_eq : Eq String
string_eq = record { agree_iff = eq_iff; agree = str_eq }

instance abbrev pub nat_eq : Eq ℕ
nat_eq = record { agree_iff = ==_iff; agree = ◌==◌ }

abbrev pub same_bool : Bool → Bool → Bool
same_bool true true = true
same_bool false false = true
same_bool _ _ = false

pub same_bool_iff : (x y : Bool) → (same_bool x y ≡ true) ↔ (x ≡ y)
same_bool_iff true true = ground arith
same_bool_iff false false = ground arith
same_bool_iff true false = ground arith
same_bool_iff false true = ground arith

instance abbrev pub bool_eq : Eq Bool
bool_eq = record { agree_iff = same_bool_iff; agree = same_bool }

module _ {ℓ} {A : Type ℓ} ⦃e : Eq A⦄ where
  infix 50 ◌===◌
  abbrev pub ◌===◌ : A → A → Bool
  x === y = e.agree x y

  pub ===_iff : (x y : A) → ((x === y) ≡ true) ↔ (x ≡ y)
  ===_iff = e.agree_iff

  pub ===_refl : (x : A) → (x === x) ≡ true
  ===_refl x = (===_iff x x).1 refl

  abbrev pub list_beq : List A → List A → Bool
  list_beq [] [] = true
  list_beq (x ∷ xs) (y ∷ ys) = (x === y) && list_beq xs ys
  list_beq _ _ = false

  list_beq_sound : (xs ys : List A) → list_beq xs ys ≡ true → xs ≡ ys
  list_beq_sound [] [] h = refl
  list_beq_sound (x ∷ xs) (y ∷ ys) h =
      let (p, q) = (and-eq-true_iff _ _).0 h in rw ((e.agree_iff x y).0 p, list_beq_sound xs ys q)
  list_beq_sound _ _ h = cc

  list_beq_refl : (xs : List A) → list_beq xs xs ≡ true
  list_beq_refl [] = refl
  list_beq_refl (x ∷ xs) = rw ((e.agree_iff x x).1 refl) (list_beq_refl xs)

  pub list_beq_iff : (xs ys : List A) → (list_beq xs ys ≡ true) ↔ (xs ≡ ys)
  list_beq_iff xs ys = (list_beq_sound xs ys, λ p. rw p (list_beq_refl ys))

  abbrev pub option_beq : Option A → Option A → Bool
  option_beq none none = true
  option_beq (some x) (some y) = x === y
  option_beq _ _ = false

  pub option_beq_iff : (o p : Option A) → (option_beq o p ≡ true) ↔ (o ≡ p)
  option_beq_iff none none = ground arith
  option_beq_iff (some x) (some y) = ground (arith, e.agree_iff x y)
  option_beq_iff _ _ = ground arith

instance abbrev pub list_eq {ℓ} : {A : Type ℓ} ⦃e : Eq A⦄ → Eq (List A)
list_eq = record { agree = list_beq; agree_iff = list_beq_iff }

instance abbrev pub option_eq {ℓ} : {A : Type ℓ} ⦃e : Eq A⦄ → Eq (Option A)
option_eq = record { agree = option_beq; agree_iff = option_beq_iff }
