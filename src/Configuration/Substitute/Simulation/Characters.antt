-- ===== src/Configuration/Substitute/Simulation/Characters.antt =====
-- Texts by their indices, for the loop of src/configuration/substitute.ts.
use splunk_otel_js.Common.{
  ℕ, zero, suc, ◌+◌, ◌-◌, ◌≤◌, none, some, [], ◌∷◌, ◌++◌, Text, nat_eq, list_eq, length, get_elem?,
  take, drop, ◌≡◌, refl, ap, ◌∙◌, arith,
}
use splunk_otel_js.Configuration.Substitute.{substring, is_char}
use splunk_otel_js.Configuration.Substitute.Reader.{begins}

pub drop-end : (v : Text) (i : ℕ) → get_elem? v i ≡ none → drop i v ≡ []
drop-end [] zero h = refl
drop-end [] (suc i) h = refl
drop-end (c ∷ v) zero h = cc
drop-end (c ∷ v) (suc i) h = drop-end v i h

pub drop-cons : (v : Text) (i c : ℕ) → get_elem? v i ≡ some c → drop i v ≡ c ∷ drop (i + 1) v
drop-cons [] i c h = cc
drop-cons (d ∷ v) zero c h = ground arith
drop-cons (d ∷ v) (suc i) c h = ground (arith, drop-cons v i c h)

take-snoc : (v : Text) (n c : ℕ) → get_elem? v n ≡ some c → take (n + 1) v ≡ take n v ++ c ∷ []
take-snoc [] n c h = cc
take-snoc (d ∷ v) zero c h = ground arith
take-snoc (d ∷ v) (suc n) c h = ground (arith, take-snoc v n c h)

get_elem?-drop : (v : Text) (b n : ℕ) → get_elem? (drop b v) n ≡ get_elem? v (b + n)
get_elem?-drop v zero n = ground arith
get_elem?-drop [] (suc b) n = ground arith
get_elem?-drop (c ∷ v) (suc b) n = ground (arith, get_elem?-drop v b n)

pub substring-snoc :
    (v : Text) (b i c : ℕ)
    → b ≤ i
    → get_elem? v i ≡ some c
    → substring v b (i + 1) ≡ substring v b i ++ c ∷ []
substring-snoc v b i c h e =
    let there : get_elem? (drop b v) (i - b) ≡ some c =
      get_elem?-drop v b (i - b) ∙ (ap (get_elem? v) (omega arith) ∙ e) in
    ap (λ n. take n (drop b v)) (omega arith) ∙ take-snoc (drop b v) (i - b) c there

pub substring-empty : (v : Text) (b i : ℕ) → i ≤ b → substring v b i ≡ []
substring-empty v b i h = let e : i - b ≡ 0 = omega arith in ap (λ n. take n (drop b v)) e

pub is_char-begins : (v : Text) (i c : ℕ) → is_char v i c ≡ begins (drop i v) c
is_char-begins [] zero c = refl
is_char-begins [] (suc i) c = refl
is_char-begins (d ∷ v) zero c = refl
is_char-begins (d ∷ v) (suc i) c = is_char-begins v i c

pub get_elem?-none : (v : Text) (i : ℕ) → get_elem? v i ≡ none → length v ≤ i
get_elem?-none [] i h = omega arith
get_elem?-none (c ∷ v) zero h = cc
get_elem?-none (c ∷ v) (suc i) h = omega (arith, get_elem?-none v i h)

pub drop-length : (v : Text) (i : ℕ) → length v ≤ i → drop i v ≡ []
drop-length [] zero h = refl
drop-length [] (suc i) h = refl
drop-length (c ∷ v) zero h = absurd (omega arith)
drop-length (c ∷ v) (suc i) h = drop-length v i (omega arith)
