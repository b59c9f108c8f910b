-- ===== src/Transport/AckSet/Window.antt =====
-- What `is_in` of include/club/transport/ack_set.h says after `try_add`.
use libclub.Prelude.{
  ℕ, ◌+◌, ◌-◌, ◌≤◌, ◌<◌, ◌≡◌, ◌↔◌, Bool, true, false, ◌||◌, arith, ◌==◌, ltb, leb, if◌then◌else◌,
  ◌∙◌, sym, ap,
}
use libclub.Prelude.Bits.{bit, with_bit, shift_left, bit-with_bit, bit-shift_left}
use libclub.Transport.Word.{u32_mod}
use libclub.Transport.AckSet.{
  AckSet, empty, get_bit, set_bit, may_drop, drops_known, try_add, is_in,
}
use libclub.Transport.AckSet.Lemmas.{
  IsValid, nonempty, nonzero_of_bit, drops_known_sound, drops_known_complete,
}
use libclub.Transport.AckSet.Add.{
  try_add-IsValid, highest-try_add, lowered, raised, Outcome, same, too_low, lower, too_high,
  higher, would_drop, try_add-Outcome,
}

-- `is_in` on a valid set whose window does not reach below zero.
window : AckSet → ℕ → Bool
window s x =
    if ltb s.highest_sequence_number x
    then false
    else if ltb (x + 31) s.highest_sequence_number
    then true
    else if ltb x s.lowest_sequence_number
    then true
    else bit s.bitmask (s.highest_sequence_number - x)

is_in-window :
    {s : AckSet} (x : ℕ) → IsValid s → 31 ≤ s.highest_sequence_number → is_in s x ≡ window s x
unfolding is_in empty get_bit window
is_in-window {s} x v h = ground (arith, nonempty v)

module _ {s : AckSet} (v : IsValid s) (x : ℕ) where
  window-lowered :
      (sn : ℕ)
      → sn < s.highest_sequence_number
      → s.highest_sequence_number ≤ sn + 31
      → window (lowered s (s.highest_sequence_number - sn)) x ≡ (window s x || x == sn)
  unfolding window
  window-lowered sn below near = ground (
    arith,
    bit-with_bit s.bitmask (s.highest_sequence_number - sn) (s.highest_sequence_number - x),
  )

  -- A number that falls out of the window is known already.
  known_below :
      (k : ℕ)
      → k ≤ 31
      → s.highest_sequence_number + 31 < u32_mod
      → drops_known s (31 - k) 31 ≡ true
      → x ≤ s.highest_sequence_number
      → x + 31 < s.highest_sequence_number + k
      → window s x ≡ true
  unfolding window may_drop get_bit
  known_below k hk fits all le out =
      ground
        (arith, drops_known_sound s (31 - k) 31 (s.highest_sequence_number - x) all, v.lowest_in)

  window-raised :
      (k : ℕ)
      → 0 < k
      → k ≤ 31
      → s.highest_sequence_number + 31 < u32_mod
      → drops_known s (31 - k) 31 ≡ true
      → window (raised s k) x ≡ (window s x || x == s.highest_sequence_number + k)
  unfolding window
  window-raised k pos hk fits all =
      let index : s.highest_sequence_number + k - x - k ≡ s.highest_sequence_number - x =
        omega arith in
      ground (
        arith,
        known_below k hk fits all,
        bit-with_bit (shift_left 32 s.bitmask k) 0 (s.highest_sequence_number + k - x),
        bit-shift_left 32 s.bitmask k (s.highest_sequence_number + k - x),
        v.ordered,
      )

module _ {s : AckSet} (v : IsValid s) where
  window_highest : window s s.highest_sequence_number ≡ true
  unfolding window
  window_highest = ground (arith, v.highest_in)

  window_below : (sn : ℕ) → sn + 31 < s.highest_sequence_number → window s sn ≡ true
  unfolding window
  window_below sn low = ground arith

known-may_drop :
    {s : AckSet}
    → IsValid s
    → 31 ≤ s.highest_sequence_number
    → s.highest_sequence_number + 31 < u32_mod
    → (j : ℕ) → j ≤ 31
    → is_in s (s.highest_sequence_number - j) ≡ true
    → may_drop s j ≡ true
unfolding window may_drop get_bit
known-may_drop {s} v wide fits j hi known =
    let index : s.highest_sequence_number - (s.highest_sequence_number - j) ≡ j = omega arith in
    let held : bit s.bitmask (s.highest_sequence_number - (s.highest_sequence_number - j))
        ≡ bit s.bitmask j =
      ap (bit s.bitmask) index in
    ground (arith, is_in-window (s.highest_sequence_number - j) v wide)

or_known : (f : ℕ → Bool) (x y : ℕ) → f y ≡ true → f x ≡ (f x || x == y)
or_known f x y h = ground arith

window-try_add :
    {s : AckSet} (sn x : ℕ)
    → IsValid s
    → 31 ≤ s.highest_sequence_number
    → {r : Bool × AckSet} → Outcome s sn r
    → r.0 ≡ true
    → window r.1 x ≡ (window s x || x == sn)
window-try_add {s} sn x v wide (same e r) ok =
    rw r (or_known (window s) x sn (ap (window s) e ∙ window_highest v))
window-try_add {s} sn x v wide (too_low below far r) ok =
    rw r (or_known (window s) x sn (window_below v sn (omega arith)))
window-try_add {s} sn x v wide (lower below _ near r) ok = rw r (window-lowered v x sn below near)
window-try_add {s} sn x v wide (too_high _ _ r) ok = cc
window-try_add {s} sn x v wide (higher above near fits all r) ok = rw r (
    ground (
      arith,
      window-raised v x (sn - s.highest_sequence_number) (omega arith) (omega arith) fits all,
    ))
window-try_add {s} sn x v wide (would_drop _ _ _ _ r) ok = cc

-- On a valid set whose highest number is at least 31, an accepted number x is in the set after the
-- call if and only if it was in the set before or it is the number added: nothing that was
-- received is forgotten, and nothing else is taken for received.
pub try_add-is_in :
    {s : AckSet} (sn x : ℕ)
    → IsValid s
    → 31 ≤ s.highest_sequence_number
    → sn < u32_mod
    → (try_add s sn).0 ≡ true
    → is_in (try_add s sn).1 x ≡ (is_in s x || x == sn)
try_add-is_in {s} sn x v wide h ok =
    is_in-window x (try_add-IsValid sn v h) (highest-try_add sn v h wide)
    ∙ window-try_add sn x v wide (try_add-Outcome sn v h) ok
    ∙ ap (λ b. b || x == sn) (sym (is_in-window x v wide))

-- On a valid set whose highest number is at least 31 and at most 2 ^ 32 - 32, a number above the
-- highest is accepted if and only if it is at most 31 above it and every number that then lies
-- more than 31 below it, and not above the old highest, is in the set.
pub try_add_accepts :
    {s : AckSet} (sn : ℕ)
    → IsValid s
    → 31 ≤ s.highest_sequence_number
    → s.highest_sequence_number + 31 < u32_mod
    → sn < u32_mod
    → s.highest_sequence_number < sn
    → ((try_add s sn).0 ≡ true) ↔ (
        (sn ≤ s.highest_sequence_number + 31)
        × ((x : ℕ) → x ≤ s.highest_sequence_number → x + 31 < sn → is_in s x ≡ true))
try_add_accepts {s} sn v wide fits h above =
    (accepted (try_add-Outcome sn v h), complete (try_add-Outcome sn v h))
  where
    accepted :
        {r : Bool × AckSet}
        → Outcome s sn r
        → r.0 ≡ true
        → (sn ≤ s.highest_sequence_number + 31)
          × ((x : ℕ) → x ≤ s.highest_sequence_number → x + 31 < sn → is_in s x ≡ true)
    accepted (same e _) ok = absurd (omega arith)
    accepted (too_low below _ _) ok = absurd (omega arith)
    accepted (lower below _ _ _) ok = absurd (omega arith)
    accepted (too_high _ _ r) ok = cc
    accepted (higher _ near _ all r) ok = (
      near,
      λ x le out.
          is_in-window x v wide
          ∙ known_below v x (sn - s.highest_sequence_number) (omega arith) fits all le
              (omega arith),
    )
    accepted (would_drop _ _ _ _ r) ok = cc

    complete :
        {r : Bool × AckSet}
        → Outcome s sn r
        → (sn ≤ s.highest_sequence_number + 31)
          × ((x : ℕ) → x ≤ s.highest_sequence_number → x + 31 < sn → is_in s x ≡ true)
        → r.0 ≡ true
    complete (same e _) ok = absurd (omega arith)
    complete (too_low below _ _) ok = absurd (omega arith)
    complete (lower below _ _ _) ok = absurd (omega arith)
    complete (too_high _ far _) ok = absurd (omega (arith, ok.0))
    complete (higher _ _ _ _ r) ok = ap (λ p. p.0) r
    complete (would_drop _ near _ gap _) ok =
        let all = drops_known_complete s (31 - (sn - s.highest_sequence_number)) 31 (λ j lo hi.
          known-may_drop v wide fits j hi
            (ok.1 (s.highest_sequence_number - j) (omega arith) (omega arith))) in
        cc

-- The first number added to an empty set: from then on it and every lower number count as
-- received, and no higher one does.
pub try_add-is_in_first :
    (s : AckSet) (sn x : ℕ)
    → s.bitmask ≡ 0
    → sn < u32_mod
    → ((try_add s sn).0 ≡ true) × (is_in (try_add s sn).1 x ≡ leb x sn)
unfolding try_add is_in set_bit get_bit empty
try_add-is_in_first s sn x e h =
    let set : bit (with_bit s.bitmask 0) 0 ≡ true = ground (arith, bit-with_bit s.bitmask 0 0) in
    ground (arith, nonzero_of_bit (with_bit s.bitmask 0) set)

-- On a valid set whose highest number is below 31, every number below it counts as received,
-- whether it was added or not, and adding such a number changes nothing.
pub is_in_low :
    {s : AckSet} (x : ℕ)
    → IsValid s
    → s.highest_sequence_number < 31
    → x < s.highest_sequence_number
    → (is_in s x ≡ true) × (try_add s x ≡ (true, s))
unfolding try_add is_in empty
is_in_low {s} x v low below = ground (arith, nonempty v)
