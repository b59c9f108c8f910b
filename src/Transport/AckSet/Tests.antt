-- ===== src/Transport/AckSet/Tests.antt =====
-- The results on include/club/transport/ack_set.h at concrete sets.
use libclub.Prelude.{
  ℕ, ◌+◌, ◌≤◌, ◌<◌, ◌≡◌, ◌↔◌, refl, true, false, ◌||◌, ◌==◌, arith, if◌then◌else◌, [], ◌∷◌, ◌++◌,
  replicate,
}
use libclub.Prelude.Bits.{bit}
use libclub.Transport.AckSet.{AckSet, may_drop, drops_known, get_bit, try_add, can_add, is_in}
use libclub.Transport.AckSet.Lemmas.{IsValid}
use libclub.Transport.AckSet.Add.{try_add-can_add}
use libclub.Transport.AckSet.Window.{try_add-is_in, try_add_accepts, is_in_low}
use libclub.Binary.Encoder.{encoder}
use libclub.Binary.Decoder.{decoder}
use libclub.Transport.AckSet.Wire.{encode_ack_set, decode_ack_set, decode_ack_set-encode_ack_set}

-- 100, 101 and 103 were received.
abbrev three : AckSet
three = record { highest_sequence_number = 103; lowest_sequence_number = 100; bitmask = 13 }

three-IsValid : IsValid three
unfolding bit
three-IsValid = record {
  in_range = omega arith;
  mask_range = omega arith;
  ordered = omega arith;
  highest_in = refl;
  lowest_in = λ near. refl;
}

-- 1 and 3 were received.
abbrev low : AckSet
low = record { highest_sequence_number = 3; lowest_sequence_number = 1; bitmask = 5 }

low-IsValid : IsValid low
unfolding bit
low-IsValid = record {
  in_range = omega arith;
  mask_range = omega arith;
  ordered = omega arith;
  highest_in = refl;
  lowest_in = λ near. refl;
}

accepted : (try_add three 105).0 ≡ true
unfolding try_add drops_known may_drop get_bit bit
accepted = refl

try_add-is_in_example : is_in (try_add three 105).1 102 ≡ (is_in three 102 || 102 == 105)
try_add-is_in_example = try_add-is_in 105 102 three-IsValid (omega arith) (omega arith) accepted

try_add_accepts_example :
    ((try_add three 134).0 ≡ true)
    ↔ ((134 ≤ 103 + 31) × ((x : ℕ) → x ≤ 103 → x + 31 < 134 → is_in three x ≡ true))
try_add_accepts_example =
    try_add_accepts 134 three-IsValid (omega arith) (omega arith) (omega arith) (omega arith)

-- 102 would fall out of the window, and was not received.
refused : (try_add three 134).0 ≡ false
unfolding try_add drops_known may_drop get_bit bit
refused = refl

try_add-can_add_example :
    try_add three 134
    ≡ (if can_add three 134 then (true, (try_add three 134).1) else (false, three))
try_add-can_add_example = try_add-can_add three 134

is_in_low_example : (is_in low 2 ≡ true) × (try_add low 2 ≡ (true, low))
is_in_low_example = is_in_low 2 low-IsValid (omega arith) (omega arith)

decode_ack_set-encode_ack_set_example :
    (t : AckSet) × (decode_ack_set
        (decoder ((encode_ack_set (encoder (replicate 8 0)) three).before ++ (1 ∷ [])))
      ≡ (t, decoder (1 ∷ [])))
    × ((x : ℕ) → is_in t x ≡ true → is_in three x ≡ true)
    × ((x : ℕ) → 100 ≤ x → is_in t x ≡ is_in three x)
decode_ack_set-encode_ack_set_example =
    decode_ack_set-encode_ack_set three (replicate 8 0) (1 ∷ []) (omega arith) (omega arith)
      (omega arith)
