-- ===== src/Opamp/Uuid/Layout.antt =====
-- What the fields of an identifier of src/opamp/uuid.ts hold.
use splunk_otel_js.Common.{
  ℕ, zero, suc, ◌+◌, ◌*◌, ◌/◌, ◌%◌, ◌^◌, ◌≤◌, ◌<◌, ◌≡◌, refl, Bool, true, ◌&&◌, arith, List, ◌∷◌,
  ◌==◌, ==_iff, Bool-cases, length, get_or, All,
}
use splunk_otel_js.Opamp.Uuid.{uuid7, stamp_version, stamp_variant}

-- Whether a test holds of the `k` numbers from `from` on.
tried : (ℕ → Bool) → ℕ → ℕ → Bool
tried test from zero = true
tried test from (suc k) = tried test (from + 1) k && test from

tried_elem :
    (test : ℕ → Bool) (from k b : ℕ)
    → from ≤ b
    → b < from + k
    → tried test from k ≡ true
    → test b ≡ true
unfolding tried
tried_elem test from zero b low high all = absurd (omega arith)
tried_elem test from (suc k) b low high all =
    ground (arith, ==_iff b from, Bool-cases (b == from), tried_elem test (from + 1) k b)

stamp_version_lem : (b : ℕ) → b < 256 → stamp_version b ≡ b % 16 + 112
unfolding tried stamp_version
stamp_version_lem b lt =
    (==_iff _ _).0
      (tried_elem (λ c. (stamp_version c == c % 16 + 112)) 0 256 b (omega arith) lt refl)

stamp_variant_lem : (b : ℕ) → b < 256 → stamp_variant b ≡ b % 64 + 128
unfolding tried stamp_variant
stamp_variant_lem b lt =
    (==_iff _ _).0
      (tried_elem (λ c. (stamp_variant c == c % 64 + 128)) 0 256 b (omega arith) lt refl)

-- The first six bytes, as one big-endian number.
abbrev pub timestamp : List ℕ → ℕ
timestamp u =
    get_or u 0 0 * 2 ^ 40
    + get_or u 1 0 * 2 ^ 32
    + get_or u 2 0 * 2 ^ 24
    + get_or u 3 0 * 2 ^ 16
    + get_or u 4 0 * 2 ^ 8
    + get_or u 5 0

abbrev pub version : List ℕ → ℕ
version u = get_or u 6 0 / 16

abbrev pub variant : List ℕ → ℕ
variant u = get_or u 8 0 / 64

abbrev IsByte : ℕ → Type 0
IsByte b = b < 256

-- A number below 2 ^ 48 is the sum of its six bytes.
digits :
    (n : ℕ)
    → n < 2 ^ 48
    → n / 2 ^ 40 % 256 * 2 ^ 40
        + n / 2 ^ 32 % 256 * 2 ^ 32
        + n / 2 ^ 24 % 256 * 2 ^ 24
        + n / 2 ^ 16 % 256 * 2 ^ 16
        + n / 2 ^ 8 % 256 * 2 ^ 8
        + n % 256
      ≡ n
digits n h = omega arith

-- From at least nine random bytes and a clock below 2 ^ 48 comes an identifier of the same length,
-- all of whose entries are bytes, from which the time, version 7 and the variant 10 are read.
pub uuid7_layout :
    (random : List ℕ) (ms : ℕ)
    → 9 ≤ length random
    → All IsByte random
    → ms < 2 ^ 48
    → let u = uuid7 random ms in
      (length u ≡ length random)
      × (timestamp u ≡ ms)
      × (version u ≡ 7)
      × (variant u ≡ 2)
      × All IsByte u
unfolding uuid7
uuid7_layout (b0 ∷ b1 ∷ b2 ∷ b3 ∷ b4 ∷ b5 ∷ b6 ∷ b7 ∷ b8 ∷ rest) ms long
      (h0, (h1, (h2, (h3, (h4, (h5, (h6, (h7, (h8, hs))))))))) small =
    (
      refl,
      digits ms small,
      omega (arith, stamp_version_lem b6 h6),
      omega (arith, stamp_variant_lem b8 h8),
      ground (arith, stamp_version_lem b6 h6, stamp_variant_lem b8 h8),
    )
uuid7_layout _ ms long h small = absurd (omega arith)
