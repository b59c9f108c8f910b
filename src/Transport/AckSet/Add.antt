-- ===== src/Transport/AckSet/Add.antt =====
-- `try_add` and `can_add` of include/club/transport/ack_set.h: agreement, refusal, the invariant.
use libclub.Prelude.{
  ℕ, ◌+◌, ◌-◌, ◌≤◌, ◌<◌, ◌≡◌, ◌⊎◌, inl, inr, Bool, true, false, arith, Bool-cases, ltb, ltb→lt,
  if◌then◌else◌,
}
use native.Mathlib.Decide.{dec_lt}
use libclub.Prelude.Bits.{
  with_bit, shift_left, bit-with_bit, with_bit-lt, bit-shift_left, shift_left-lt, bit_of_zero,
}
use libclub.Transport.Word.{u32_mod, sub32, add32}
use libclub.Transport.AckSet.{AckSet, set_bit, drops_known, try_add, can_add}
use libclub.Transport.AckSet.Lemmas.{IsValid, nonempty}

-- `can_add` answers as `try_add` does, and a refused number leaves the set as it was.
pub try_add-can_add :
    (s : AckSet) (sn : ℕ)
    → try_add s sn ≡ (if can_add s sn then (true, (try_add s sn).1) else (false, s))
unfolding try_add can_add
try_add-can_add s sn = ground arith

-- The first number makes the set valid.
pub try_add-IsValid_first :
    (s : AckSet) (sn : ℕ) → s.bitmask ≡ 0 → sn < u32_mod → IsValid (try_add s sn).1
unfolding try_add set_bit
try_add-IsValid_first s sn e h =
    ground (arith, bit-with_bit s.bitmask 0 0, with_bit-lt s.bitmask 0 32, bit_of_zero 0)

-- The set with a lower number added, and with one that is k above the highest.
abbrev pub lowered : AckSet → ℕ → AckSet
lowered s k = record s { bitmask = with_bit s.bitmask k }

abbrev pub raised : AckSet → ℕ → AckSet
raised s k = record s {
  highest_sequence_number = s.highest_sequence_number + k;
  bitmask = with_bit (shift_left 32 s.bitmask k) 0;
}

-- The ways in which a call of `try_add` on a valid set ends.
pub data Outcome (s : AckSet) (sn : ℕ) (r : Bool × AckSet) : Type 0 where
  same : sn ≡ s.highest_sequence_number → r ≡ (true, s) → Outcome s sn r
  too_low :
      sn < s.highest_sequence_number
      → (s.highest_sequence_number < 31) ⊎ (sn + 31 < s.highest_sequence_number)
      → r ≡ (true, s)
      → Outcome s sn r
  lower :
      sn < s.highest_sequence_number
      → 31 ≤ s.highest_sequence_number
      → s.highest_sequence_number ≤ sn + 31
      → r ≡ (true, lowered s (s.highest_sequence_number - sn))
      → Outcome s sn r
  too_high :
      s.highest_sequence_number < sn
      → (u32_mod ≤ s.highest_sequence_number + 31) ⊎ (s.highest_sequence_number + 31 < sn)
      → r ≡ (false, s)
      → Outcome s sn r
  higher :
      s.highest_sequence_number < sn
      → sn ≤ s.highest_sequence_number + 31
      → s.highest_sequence_number + 31 < u32_mod
      → drops_known s (31 - (sn - s.highest_sequence_number)) 31 ≡ true
      → r ≡ (true, raised s (sn - s.highest_sequence_number))
      → Outcome s sn r
  would_drop :
      s.highest_sequence_number < sn
      → sn ≤ s.highest_sequence_number + 31
      → s.highest_sequence_number + 31 < u32_mod
      → drops_known s (31 - (sn - s.highest_sequence_number)) 31 ≡ false
      → r ≡ (false, s)
      → Outcome s sn r

module _ {s : AckSet} (sn : ℕ) (v : IsValid s) (h : sn < u32_mod) where
  Outcome-below : sn < s.highest_sequence_number → Outcome s sn (try_add s sn)
  unfolding try_add set_bit
  Outcome-below below = elim (Bool-cases (ltb sn (sub32 s.highest_sequence_number 31))) [
    | inl low ↦ too_low below (omega (arith, ltb→lt _ _ low)) (ground (arith, nonempty v))
    | inr window ↦ lower below (ground arith) (ground arith) (ground (arith, nonempty v))
  ]

  Outcome-above : s.highest_sequence_number < sn → Outcome s sn (try_add s sn)
  unfolding try_add set_bit
  Outcome-above above = elim (Bool-cases (ltb (add32 s.highest_sequence_number 31) sn)) [
    | inl high ↦ too_high above (omega (arith, ltb→lt _ _ high)) (ground (arith, nonempty v))
    | inr near ↦
        let fits : sn ≤ s.highest_sequence_number + 31 = ground arith in
        let no_wrap : s.highest_sequence_number + 31 < u32_mod = ground arith in
        elim (Bool-cases (drops_known s (31 - (sn - s.highest_sequence_number)) 31)) [
          | inl all ↦ higher above fits no_wrap all (ground (arith, nonempty v))
          | inr gap ↦ would_drop above fits no_wrap gap (ground (arith, nonempty v))
        ]
  ]

  pub try_add-Outcome : Outcome s sn (try_add s sn)
  unfolding try_add
  try_add-Outcome = elim (dec_lt sn s.highest_sequence_number) [
    | yes below ↦ Outcome-below below
    | no ne ↦ elim (dec_lt s.highest_sequence_number sn) [
      | yes above ↦ Outcome-above above
      | no eq ↦ same (omega arith) (ground (arith, nonempty v))
    ]
  ]

module _ {s : AckSet} (v : IsValid s) where
  lowered-IsValid : (k : ℕ) → k < 32 → IsValid (lowered s k)
  lowered-IsValid k h = record {
    in_range = v.in_range;
    mask_range = with_bit-lt s.bitmask k 32 v.mask_range h;
    ordered = v.ordered;
    highest_in = ground (arith, bit-with_bit s.bitmask k 0);
    lowest_in = λ near. ground (
      arith,
      bit-with_bit s.bitmask k (s.highest_sequence_number - s.lowest_sequence_number),
      v.lowest_in near,
    );
  }

  raised-IsValid : (k : ℕ) → s.highest_sequence_number + k < u32_mod → IsValid (raised s k)
  raised-IsValid k h = record {
    in_range = h;
    mask_range =
        with_bit-lt (shift_left 32 s.bitmask k) 0 32 (shift_left-lt 32 s.bitmask k (omega arith))
          (omega arith);
    ordered = omega (arith, v.ordered);
    highest_in = ground (arith, bit-with_bit (shift_left 32 s.bitmask k) 0 0);
    lowest_in = λ near.
        let index : s.highest_sequence_number + k - s.lowest_sequence_number - k
            ≡ s.highest_sequence_number - s.lowest_sequence_number =
          omega (arith, v.ordered) in
        ground (
          arith,
          bit-with_bit (shift_left 32 s.bitmask k) 0
              (s.highest_sequence_number + k - s.lowest_sequence_number),
          bit-shift_left 32 s.bitmask k (s.highest_sequence_number + k - s.lowest_sequence_number),
          v.lowest_in (omega arith),
          index,
        );
  }

-- `try_add` keeps the invariant, on every branch.
pub try_add-IsValid : {s : AckSet} (sn : ℕ) → IsValid s → sn < u32_mod → IsValid (try_add s sn).1
try_add-IsValid {s} sn v h = keep (try_add-Outcome sn v h)
  where
    keep : {r : Bool × AckSet} → Outcome s sn r → IsValid r.1
    keep (same _ e) = rw e v
    keep (too_low _ _ e) = rw e v
    keep (lower below _ near e) =
        rw e (lowered-IsValid v (s.highest_sequence_number - sn) (omega arith))
    keep (too_high _ _ e) = rw e v
    keep (higher above near fits _ e) =
        rw e (raised-IsValid v (sn - s.highest_sequence_number) (omega arith))
    keep (would_drop _ _ _ _ e) = rw e v

-- The highest number never falls.
pub highest-try_add :
    {s : AckSet} (sn : ℕ) {n : ℕ}
    → IsValid s
    → sn < u32_mod
    → n ≤ s.highest_sequence_number
    → n ≤ (try_add s sn).1.highest_sequence_number
highest-try_add {s} sn {n} v h le = grows (try_add-Outcome sn v h)
  where
    grows : {r : Bool × AckSet} → Outcome s sn r → n ≤ r.1.highest_sequence_number
    grows (same _ e) = rw e le
    grows (too_low _ _ e) = rw e le
    grows (lower _ _ _ e) = rw e le
    grows (too_high _ _ e) = rw e le
    grows (higher above _ _ _ e) = rw e (omega arith)
    grows (would_drop _ _ _ _ e) = rw e le
