-- ===== src/Opamp/Uuid.antt =====
-- src/opamp/uuid.ts: version 7 identifiers.
-- `randomBytes` and the clock are arguments. A byte array is a list of numbers below 256, and
-- `x & 0xff` is the remainder by 256.
pub mod Layout
use Prim.Native.Nat.{bit_and, bit_or}
use splunk_otel_js.Common.{ℕ, ◌/◌, ◌%◌, List, set, get_or}

abbrev low_byte : ℕ → ℕ
low_byte n = n % 256

-- Version 7 in the high nibble of byte 6.
stamp_version : ℕ → ℕ
stamp_version b = bit_or (bit_and b 0x0f) 0x70

-- Variant 10 in the high two bits of byte 8.
stamp_variant : ℕ → ℕ
stamp_variant b = bit_or (bit_and b 0x3f) 0x80

write_time : List ℕ → ℕ → List ℕ
write_time random ms =
    let b0 = set random 0 (low_byte (ms / 0x10000000000)) in
    let b1 = set b0 1 (low_byte (ms / 0x100000000)) in
    let b2 = set b1 2 (low_byte (ms / 0x1000000)) in
    let b3 = set b2 3 (low_byte (ms / 0x10000)) in
    let b4 = set b3 4 (low_byte (ms / 0x100)) in set b4 5 (low_byte ms)

unfoldable pub uuid7 : List ℕ → ℕ → List ℕ
unfolding write_time stamp_version stamp_variant
uuid7 random ms =
    let timed = write_time random ms in
    let versioned = set timed 6 (stamp_version (get_or timed 6 0)) in
    set versioned 8 (stamp_variant (get_or versioned 8 0))
