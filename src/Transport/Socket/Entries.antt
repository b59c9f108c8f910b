-- ===== src/Transport/Socket/Entries.antt =====
-- The map of pending messages of include/club/socket.h.
use libclub.Prelude.{
  ℕ, ◌≡◌, List, [], ◌∷◌, some, ltb, ◌==◌, ==_iff, All, arith, Bool-cases, inl, inr,
}
use mathlib.Core.Path.{subst}
use libclub.Transport.Word.{SequenceNumber}
use libclub.Transport.PendingMessage.{PendingMessage}
use libclub.Transport.Socket.{find, emplace, replace}

-- The map operations keep what holds of each entry.
module _ (P : SequenceNumber × PendingMessage → Type 0) where
  pub All-emplace :
      (sn : ℕ) (pm : PendingMessage) (l : List (SequenceNumber × PendingMessage))
      → P (sn, pm)
      → All P l
      → All P (emplace sn pm l)
  unfolding emplace
  All-emplace sn pm [] h k = (h, tt)
  All-emplace sn pm ((key, old) ∷ l) h k = elim (Bool-cases (ltb key sn)) [
    | inl y ↦ rw y (k.0, All-emplace sn pm l h k.1)
    | inr n ↦ rw n (elim (Bool-cases (key == sn)) [ inl y ↦ rw y k | inr m ↦ rw m (h, k) ])
  ]

  pub All-replace :
      (sn : ℕ) (pm : PendingMessage) (l : List (SequenceNumber × PendingMessage))
      → P (sn, pm)
      → All P l
      → All P (replace sn pm l)
  unfolding replace
  All-replace sn pm [] h k = tt
  All-replace sn pm ((key, old) ∷ l) h k = elim (Bool-cases (key == sn)) [
    | inl y ↦ rw y (rw ((==_iff key sn).0 y) h, k.1)
    | inr n ↦ rw n (k.0, All-replace sn pm l h k.1)
  ]

  pub All-find :
      (sn : ℕ) {pm : PendingMessage} (l : List (SequenceNumber × PendingMessage))
      → All P l
      → find l sn ≡ some pm
      → P (sn, pm)
  unfolding find
  All-find sn {pm} [] k e = cc
  All-find sn {pm} ((key, old) ∷ l) k e = elim (Bool-cases (key == sn)) [
    | inl y ↦ let same : (key, old) ≡ (sn, pm) = ground arith in subst P same k.0
    | inr n ↦ All-find sn l k.1 (ground arith)
  ]
