-- ===== src/Transport/Word.antt =====
-- Unsigned 32-bit arithmetic, and SequenceNumber (include/club/transport/sequence_number.h).
use libclub.Prelude.{ℕ, ◌+◌, ◌-◌, ◌%◌, ◌^◌}

abbrev pub SequenceNumber : Type 0
SequenceNumber = ℕ

abbrev pub u32_mod : ℕ
u32_mod = 2 ^ 32

abbrev pub add32 : ℕ → ℕ → ℕ
add32 a b = (a + b) % u32_mod

-- `-` on ℕ stops at 0, so the modulus is added first.
abbrev pub sub32 : ℕ → ℕ → ℕ
sub32 a b = (a + u32_mod - b) % u32_mod
