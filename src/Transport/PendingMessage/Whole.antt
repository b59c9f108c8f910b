-- ===== src/Transport/PendingMessage/Whole.antt =====
-- When the first part of pending_message.h is the whole message.
use libclub.Prelude.{ℕ, suc, ◌-◌, ◌<◌, ◌≡◌, refl, true, false, [], ◌∷◌, arith}
use libclub.Transport.PartInfo.{Info}
use libclub.Transport.PartInfo.Cover.{covers, Separated}
use libclub.Transport.PendingMessage.{is_whole}

pub covers_of_whole :
    (info : Info) (size x : ℕ) → is_whole info size ≡ true → x < size → covers info x ≡ true
unfolding is_whole
covers_of_whole [] size x h k = cc
covers_of_whole ((b, e) ∷ rest) size x h k = ground arith

covers_below : (m : ℕ) (info : Info) (x : ℕ) → Separated m info → x < m → covers info x ≡ false
covers_below m [] x s h = refl
covers_below m ((b, e) ∷ rest) x s h = ground (arith, covers_below (suc e) rest x)

pub whole_of_covers :
    (info : Info) (size : ℕ)
    → Separated 0 info
    → 0 < size
    → ((x : ℕ) → covers info x ≡ true → x < size)
    → ((x : ℕ) → x < size → covers info x ≡ true)
    → is_whole info size ≡ true
unfolding is_whole
whole_of_covers [] size s h inside all = all 0 h
whole_of_covers ((b, e) ∷ rest) size s h inside all = ground (
  arith,
  all 0,
  all e,
  inside (e - 1),
  covers_below (suc e) rest 0,
  covers_below (suc e) rest e,
  s,
)

pub not_whole_of_empty :
    (info : Info) (size : ℕ)
    → Separated 0 info
    → ((x : ℕ) → covers info x ≡ true → x < 0)
    → is_whole info size ≡ false
unfolding is_whole
not_whole_of_empty [] size s inside = refl
not_whole_of_empty ((b, e) ∷ rest) size s inside = ground (arith, inside b)
