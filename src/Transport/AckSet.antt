-- ===== src/Transport/AckSet.antt =====
-- include/club/transport/ack_set.h: the set of the sequence numbers that have been received, as a
-- window of 32 bits below the highest one. A position of `iterator` is held one higher than in the
-- source, so that its end, -1, is 0.
pub mod Lemmas
pub mod Add
pub mod Window
pub mod Iterate
pub mod Wire
pub mod UpTo
mod Tests
use libclub.Prelude.{
  ℕ, zero, suc, ◌+◌, ◌-◌, Bool, true, false, ◌||◌, List, [], ◌∷◌, ltb, leb, ◌==◌, if◌then◌else◌,
}
use libclub.Prelude.Bits.{bit, with_bit, shift_left}
use libclub.Transport.Word.{SequenceNumber, add32, sub32}

-- Bit i of `bitmask` is set if and only if `highest_sequence_number - i` belongs to the set.
pub record AckSet : Type 0 where
  pub highest_sequence_number : SequenceNumber
  pub lowest_sequence_number : SequenceNumber
  pub bitmask : ℕ

-- The two constructors.
abbrev pub empty_set : AckSet
empty_set = record { highest_sequence_number = 0; lowest_sequence_number = 0; bitmask = 0 }

abbrev pub starting_at : SequenceNumber → AckSet
starting_at sn = record { highest_sequence_number = sn; lowest_sequence_number = sn; bitmask = 0 }

pub empty : AckSet → Bool
empty s = s.bitmask == 0

pub get_bit : AckSet → ℕ → Bool
get_bit s p = bit s.bitmask p

pub set_bit : AckSet → ℕ → AckSet
set_bit s p = record s { bitmask = with_bit s.bitmask p }

-- What the loop of `try_add` and `can_add` asks of each bit that the shift pushes out.
pub may_drop : AckSet → ℕ → Bool
may_drop s i = get_bit s i || leb s.highest_sequence_number (add32 s.lowest_sequence_number i)

-- `for (i = 31; i > stop; --i) { … return false; }`, from the given i on.
pub drops_known : AckSet → ℕ → ℕ → Bool
drops_known s stop zero = true
drops_known s stop (suc i) =
    let rest = drops_known s stop i in
    if ltb stop (suc i) then (if may_drop s (suc i) then rest else false) else true

pub try_add : AckSet → SequenceNumber → Bool × AckSet
try_add s new_sn =
    let hsn = s.highest_sequence_number in
    let shift = sub32 new_sn hsn in
    if s.bitmask == 0
    then (
      true,
      set_bit (record s { highest_sequence_number = new_sn; lowest_sequence_number = new_sn }) 0,
    )
    else if new_sn == hsn
    then (true, s)
    else if ltb new_sn hsn
    then (if ltb new_sn (sub32 hsn 31) then (true, s) else (true, set_bit s (sub32 hsn new_sn)))
    else if ltb (add32 hsn 31) new_sn
    then (false, s)
    else if drops_known s (sub32 31 shift) 31
    then (
      true,
      record (set_bit (record s { bitmask = shift_left 32 s.bitmask shift }) 0) {
        highest_sequence_number = new_sn;
      },
    )
    else (false, s)

pub can_add : AckSet → SequenceNumber → Bool
can_add s new_sn =
    let hsn = s.highest_sequence_number in
    if s.bitmask == 0
    then true
    else if new_sn == hsn
    then true
    else if ltb new_sn hsn
    then (if ltb new_sn (sub32 hsn 31) then true else true)
    else if ltb (add32 hsn 31) new_sn
    then false
    else if drops_known s (sub32 31 (sub32 new_sn hsn)) 31
    then true
    else false

pub is_in : AckSet → SequenceNumber → Bool
is_in s sn =
    let hsn = s.highest_sequence_number in
    if empty s
    then false
    else if ltb hsn sn
    then false
    else if ltb sn (sub32 hsn 31)
    then true
    else if ltb sn s.lowest_sequence_number
    then true
    else get_bit s (sub32 hsn sn)

-- The constructor of `iterator`, and the loop of `operator++`: the first set bit below a position.
pub seek : AckSet → ℕ → ℕ
seek s zero = 0
seek s (suc p) = let lower = seek s p in if get_bit s p then suc p else lower

pub begin : AckSet → ℕ
begin s = if empty s then 0 else seek s 32

pub next : AckSet → ℕ → ℕ
next s zero = 0
next s (suc p) = seek s p

pub current : AckSet → ℕ → SequenceNumber
current s it = sub32 s.highest_sequence_number (it - 1)

-- A range-for from a position on, for a bounded number of rounds.
pub elements_from : AckSet → ℕ → ℕ → List SequenceNumber
elements_from s zero it = []
elements_from s (suc fuel) it =
    let rest = elements_from s fuel (next s it) in if it == 0 then [] else current s it ∷ rest

pub elements : AckSet → List SequenceNumber
elements s = elements_from s 32 (begin s)
