-- ===== src/Transport/AckSet/UpTo.antt =====
-- An AckSet of include/club/transport/ack_set.h to which numbers are added one after the other, as
-- the socket does.
use libclub.Prelude.{ℕ, ◌+◌, ◌-◌, ◌≤◌, ◌<◌, ◌≡◌, ap, sym, ◌∙◌, Bool, true, leb, arith}
use mathlib.Core.Path.{subst}
use libclub.Prelude.Bits.{bit, shift_left, bit-with_bit, bit-shift_left}
use libclub.Transport.Word.{u32_mod, sub32}
use libclub.Transport.AckSet.{
  AckSet, empty, get_bit, set_bit, may_drop, drops_known, try_add, can_add, is_in,
}
use libclub.Transport.AckSet.Lemmas.{IsValid, nonempty, drops_known_complete}
use libclub.Transport.AckSet.Add.{
  raised, Outcome, same, too_low, lower, too_high, higher, would_drop, try_add-Outcome,
  try_add-IsValid, try_add-IsValid_first,
}

-- All numbers from the lowest up to `last` were added, and no other.
pub record IsUpTo (last : ℕ) (s : AckSet) : Type 0 where
  pub valid : IsValid s
  pub last_highest : s.highest_sequence_number ≡ last
  pub held : ((i : ℕ) → i ≤ 31 → i + s.lowest_sequence_number ≤ last → bit s.bitmask i ≡ true)

-- The first number, which the sync message carries.
pub IsUpTo-try_add_first :
    (s : AckSet) (sn : ℕ) → s.bitmask ≡ 0 → sn < u32_mod → IsUpTo sn (try_add s sn).1
unfolding try_add set_bit
IsUpTo-try_add_first s sn e h = record {
  valid = try_add-IsValid_first s sn e h;
  last_highest = ground arith;
  held = λ i le near. ground (arith, bit-with_bit s.bitmask 0 i);
}

module _ {last : ℕ} {s : AckSet} (u : IsUpTo last s) where
  -- No number within the window is refused.
  all_known : last + 31 < u32_mod → (j : ℕ) → j ≤ 31 → may_drop s j ≡ true
  unfolding may_drop get_bit
  all_known fits j hi = ground (arith, u.held j, u.last_highest, u.valid.ordered)

  no_drop : last + 31 < u32_mod → (stop : ℕ) → drops_known s stop 31 ≡ true
  no_drop fits stop = drops_known_complete s stop 31 (λ j lo hi. all_known fits j hi)

  IsUpTo-raised : last + 1 < u32_mod → IsValid (raised s 1) → IsUpTo (last + 1) (raised s 1)
  IsUpTo-raised fits v = record {
    valid = v;
    last_highest = omega (arith, u.last_highest);
    held = λ i le near. ground (
      arith,
      bit-with_bit (shift_left 32 s.bitmask 1) 0 i,
      bit-shift_left 32 s.bitmask 1 i,
      u.held (i - 1),
    );
  }

  -- The number behind the last one is always accepted.
  pub IsUpTo-try_add :
      last + 32 < u32_mod
      → ((try_add s (last + 1)).0 ≡ true) × IsUpTo (last + 1) (try_add s (last + 1)).1
  IsUpTo-try_add fits =
      step (try_add-Outcome (last + 1) u.valid (omega arith))
        (try_add-IsValid (last + 1) u.valid (omega arith))
    where
      step :
          {r : Bool × AckSet}
          → Outcome s (last + 1) r
          → IsValid r.1
          → (r.0 ≡ true) × IsUpTo (last + 1) r.1
      step (same e _) v = absurd (omega (arith, u.last_highest))
      step (too_low below _ _) v = absurd (omega (arith, u.last_highest))
      step (lower below _ _ _) v = absurd (omega (arith, u.last_highest))
      step (too_high _ far _) v = absurd (omega (arith, u.last_highest))
      step (higher above _ _ _ e) v =
          let k : last + 1 - s.highest_sequence_number ≡ 1 = omega (arith, u.last_highest) in
          let r_is = e ∙ ap (λ k. (true, raised s k)) k in
          (
            ap (λ p. p.0) r_is,
            subst (λ p. IsUpTo (last + 1) p.1) (sym r_is)
                (IsUpTo-raised (omega arith) (subst (λ p. IsValid p.1) r_is v)),
          )
      step (would_drop _ _ _ gap _) v =
          let all = no_drop (omega arith) (31 - (last + 1 - s.highest_sequence_number)) in cc

  -- A number counts as received if and only if it is not above the last one.
  pub is_in-IsUpTo : (x : ℕ) → is_in s x ≡ leb x last
  unfolding is_in empty get_bit
  is_in-IsUpTo x = ground (
    arith,
    nonempty u.valid,
    u.last_highest,
    u.valid.ordered,
    u.valid.in_range,
    u.held (last - x),
  )

  pub can_add-IsUpTo : last + 31 < u32_mod → (sn : ℕ) → can_add s sn ≡ leb sn (last + 31)
  unfolding can_add
  can_add-IsUpTo fits sn = ground (
    arith,
    nonempty u.valid,
    u.last_highest,
    no_drop fits (sub32 31 (sub32 sn s.highest_sequence_number)),
  )
