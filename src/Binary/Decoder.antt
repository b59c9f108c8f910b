-- ===== src/Binary/Decoder.antt =====
-- binary::decoder (include/binary/decoder.h). `bytes` are those from `begin` up to `end`. A `get`
-- returns its value and the decoder after it; where the source shifts bytes apart and joins them
-- by `|`, they share no bit, so the model adds them.
pub mod Read
use libclub.Prelude.{
  ℕ, zero, suc, ◌+◌, ◌-◌, ◌*◌, ◌^◌, Bool, true, false, List, [], ◌∷◌, ◌==◌, ltb, if◌then◌else◌,
  length, take, drop, get_or,
}

pub record Decoder : Type 0 where
  pub bytes : List ℕ
  pub was_error : Bool

-- The constructors over a sequence, and the default one.
abbrev pub decoder : List ℕ → Decoder
decoder sequence = record { bytes = sequence; was_error = false }

abbrev pub no_decoder : Decoder
no_decoder = record { bytes = []; was_error = true }

abbrev pub set_error : Decoder → Decoder
set_error d = record d { was_error = true }

abbrev pub size : Decoder → ℕ
size d = length d.bytes

abbrev pub empty : Decoder → Bool
empty d = size d == 0

abbrev pub shrink : Decoder → ℕ → Decoder
shrink d new_size =
    if d.was_error
    then d
    else if ltb new_size (size d)
    then record d { bytes = take new_size d.bytes }
    else d

-- The first line of each `get`.
abbrev pub require : Decoder → ℕ → Decoder
require d n = if ltb (size d) n then set_error d else d

-- `begin += n`
abbrev pub advance : Decoder → ℕ → Decoder
advance d n = record d { bytes = drop n d.bytes }

pub skip : Decoder → ℕ → Decoder
skip d n = let d' = require d n in if d'.was_error then d' else advance d' n

-- `begin[i]`
abbrev pub at : Decoder → ℕ → ℕ
at d i = get_or d.bytes i 0

-- uint8_t, int8_t and char
unfoldable pub get_u8 : Decoder → ℕ × Decoder
get_u8 d = let d' = require d 1 in if d'.was_error then (0, d') else (at d' 0, advance d' 1)

unfoldable pub get_u16 : Decoder → ℕ × Decoder
get_u16 d =
    let d' = require d 2 in
    if d'.was_error then (0, d') else (at d' 0 * 2 ^ 8 + at d' 1, advance d' 2)

unfoldable pub get_u32 : Decoder → ℕ × Decoder
get_u32 d =
    let d' = require d 4 in
    if d'.was_error
    then (0, d')
    else (at d' 0 * 2 ^ 24 + at d' 1 * 2 ^ 16 + at d' 2 * 2 ^ 8 + at d' 3, advance d' 4)

-- The bytes of the result are written from the lowest one on, on a little-endian machine.
pub get_u64 : Decoder → ℕ × Decoder
get_u64 d =
    let d' = require d 8 in
    let low = at d' 7 + at d' 6 * 2 ^ 8 + at d' 5 * 2 ^ 16 + at d' 4 * 2 ^ 24 in
    let high = at d' 3 * 2 ^ 32 + at d' 2 * 2 ^ 40 + at d' 1 * 2 ^ 48 + at d' 0 * 2 ^ 56 in
    if d'.was_error then (0, d') else (low + high, advance d' 8)

-- The bytes that `get_raw` copies, `none` of them after an error.
pub get_raw : Decoder → ℕ → List ℕ × Decoder
get_raw d n =
    let d' = require d n in if d'.was_error then ([], d') else (take n d'.bytes, advance d' n)

-- The template `get`, for a type with a `decode` and a default value.
abbrev pub get {ℓ} : {A : Type ℓ} → A → (Decoder → A × Decoder) → Decoder → A × Decoder
get default decode d = if d.was_error then (default, d) else decode d
