-- ===== src/Transport/AckSet/Iterate.antt =====
-- The range-for over an AckSet of include/club/transport/ack_set.h.
use libclub.Prelude.{
  ℕ, zero, suc, ◌-◌, ◌≤◌, ◌<◌, ◌≡◌, inl, inr, true, false, arith, Bool-cases, ◌==◌, refl,
  if◌then◌else◌, ◌∙◌, sym, ==_iff, List, [], ◌∷◌, All, ap,
}
use libclub.Prelude.Bits.{bit, bit_of_zero}
use libclub.Transport.Word.{sub32}
use libclub.Transport.AckSet.{
  AckSet, empty, get_bit, is_in, seek, begin, next, current, elements_from, elements,
}
use libclub.Transport.AckSet.Lemmas.{IsValid, nonempty}

-- The numbers whose bits are set, of those below position n, from the lowest number on.
pub members : AckSet → ℕ → List ℕ
members s zero = []
members s (suc p) =
    let lower = members s p in
    if bit s.bitmask p then sub32 s.highest_sequence_number p ∷ lower else lower

index : (p : ℕ) → suc p - 1 ≡ p
index p = omega arith

elements_from-seek :
    (s : AckSet) (n fuel : ℕ) → n ≤ fuel → elements_from s fuel (seek s n) ≡ members s n
unfolding elements_from seek next current get_bit members
elements_from-seek s zero zero h = refl
elements_from-seek s zero (suc fuel) h = refl
elements_from-seek s (suc p) zero h = absurd (omega arith)
elements_from-seek s (suc p) (suc fuel) h = elim (Bool-cases (bit s.bitmask p)) [
  | inl set ↦ rw (set, seek) (ground (arith, elements_from-seek s p fuel, index p))
  | inr clear ↦ rw (clear, seek) (elements_from-seek s p (suc fuel) (omega arith))
]

members_of_zero : (s : AckSet) (n : ℕ) → s.bitmask ≡ 0 → members s n ≡ []
unfolding members
members_of_zero s zero e = refl
members_of_zero s (suc n) e =
    let clear : bit s.bitmask n ≡ false = ap (λ m. bit m n) e ∙ bit_of_zero n in
    ground (arith, members_of_zero s n e)

-- Iterating over a set yields, from the highest bit down, the number `highest - p` in 32 bits for
-- each set bit p of the mask, and then stops.
pub elements_lem : (s : AckSet) → elements s ≡ members s 32
unfolding elements begin empty elements_from
elements_lem s = elim (Bool-cases (s.bitmask == 0)) [
  | inl e ↦ rw e (sym (members_of_zero s 32 ((==_iff s.bitmask 0).0 e)))
  | inr e ↦ rw e (elements_from-seek s 32 32 (omega arith))
]

bit-is_in :
    {s : AckSet} (p : ℕ)
    → IsValid s
    → 31 ≤ s.highest_sequence_number
    → p < 32
    → bit s.bitmask p ≡ true
    → is_in s (sub32 s.highest_sequence_number p) ≡ true
unfolding is_in get_bit empty
bit-is_in {s} p v wide h set =
    let hsn = s.highest_sequence_number in
    let back : sub32 hsn (sub32 hsn p) ≡ p = omega (arith, v.in_range) in
    let held : bit s.bitmask (sub32 hsn (sub32 hsn p)) ≡ true = ap (bit s.bitmask) back ∙ set in
    ground (arith, nonempty v)

held :
    {s : AckSet}
    → IsValid s
    → 31 ≤ s.highest_sequence_number
    → (n : ℕ) → n ≤ 32
    → All (λ x. is_in s x ≡ true) (members s n)
unfolding members
held v wide zero h = tt
held {s} v wide (suc p) h = elim (Bool-cases (bit s.bitmask p)) [
  | inl set ↦ rw set (bit-is_in p v wide h set, held v wide p (omega arith))
  | inr clear ↦ rw clear (held v wide p (omega arith))
]

-- On a valid set whose highest number is at least 31, each number that the iteration yields is in
-- the set.
pub All_is_in-elements :
    {s : AckSet}
    → IsValid s
    → 31 ≤ s.highest_sequence_number
    → All (λ x. is_in s x ≡ true) (elements s)
All_is_in-elements {s} v wide = rw (elements_lem s) (held v wide 32 (omega arith))
