-- ===== src/Transport/AckSet/Lemmas.antt =====
-- The invariant of an AckSet, and the meaning of the loop over the bits that a shift pushes out.
use libclub.Prelude.{ℕ, zero, suc, ◌+◌, ◌-◌, ◌≤◌, ◌<◌, ◌≡◌, ◌≢◌, true, false, arith, ap, ◌∙◌}
use libclub.Prelude.Bits.{bit, bit_of_zero}
use libclub.Transport.Word.{u32_mod}
use libclub.Transport.AckSet.{AckSet, may_drop, drops_known}

-- What holds of a set that some number was added to.
pub record IsValid (s : AckSet) : Type 0 where
  pub in_range : s.highest_sequence_number < u32_mod
  pub mask_range : s.bitmask < u32_mod
  pub ordered : s.lowest_sequence_number ≤ s.highest_sequence_number
  pub highest_in : bit s.bitmask 0 ≡ true
  pub lowest_in :
      (s.highest_sequence_number ≤ s.lowest_sequence_number + 31
        → bit s.bitmask (s.highest_sequence_number - s.lowest_sequence_number) ≡ true)

pub nonzero_of_bit : (n : ℕ) → bit n 0 ≡ true → n ≢ 0
nonzero_of_bit n set e = let clear : bit n 0 ≡ false = ap (λ m. bit m 0) e ∙ bit_of_zero 0 in cc

pub nonempty : {s : AckSet} → IsValid s → s.bitmask ≢ 0
nonempty {s} v = nonzero_of_bit s.bitmask v.highest_in

pub drops_known_sound :
    (s : AckSet) (stop i j : ℕ)
    → drops_known s stop i ≡ true
    → stop < j
    → j ≤ i
    → may_drop s j ≡ true
unfolding drops_known
drops_known_sound s stop zero j h lo hi = absurd (omega arith)
drops_known_sound s stop (suc i) j h lo hi = ground (arith, drops_known_sound s stop i j)

pub drops_known_complete :
    (s : AckSet) (stop i : ℕ)
    → ((j : ℕ) → stop < j → j ≤ i → may_drop s j ≡ true)
    → drops_known s stop i ≡ true
unfolding drops_known
drops_known_complete s stop zero h = ground arith
drops_known_complete s stop (suc i) h =
    let rest = drops_known_complete s stop i (λ j lo hi. h j lo (omega arith)) in
    ground (arith, h (suc i))
