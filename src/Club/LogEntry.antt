-- ===== src/Club/LogEntry.antt =====
-- src/club/log_entry.h: a message that waits to be committed, with who acknowledged it.
pub mod Quorum
mod Tests
use libclub.Prelude.{Bool, true, false, ◌&&◌, not, List, [], ◌∷◌, if◌then◌else◌}
use libclub.Generic.SortedSet.{Order, insert, holds}
use libclub.Club.MessageId.{MessageId, Uuid}
use libclub.Club.MessageId.Orders.{uuids}
use libclub.Club.Message.{AckData, LogMessage, fuse, user_data, header}

pub record LogEntry : Type 0 where
  pub predecessors : List (MessageId × Uuid)
  pub message : LogMessage
  pub quorum : List Uuid
  pub acks : List (Uuid × AckData)

unfoldable pub original_poster : LogMessage → Uuid
original_poster m = (header m).original_poster

unfoldable pub is_fuse : LogMessage → Bool
is_fuse (fuse m) = true
is_fuse (user_data m) = false

unfoldable pub log_entry : LogMessage → LogEntry
log_entry m = record {
  predecessors = [];
  message = m;
  quorum = insert uuids (original_poster m) [];
  acks = [];
}

-- `acks | map_keys`
abbrev pub keys {ℓ κ} : {K : Type ℓ} {V : Type κ} → List (K × V) → List K
keys [] = []
keys ((k, v) ∷ m) = k ∷ keys m

-- std::includes on ascending ranges
pub includes : List Uuid → List Uuid → Bool
includes l [] = true
includes [] (q ∷ qs) = false
includes (a ∷ l) (q ∷ qs) =
    let past = includes l (q ∷ qs) in
    let both = includes l qs in
    if uuids.less q a then false else if uuids.less a q then past else both

pub acked_by_quorum : LogEntry → Bool
acked_by_quorum e = includes (keys e.acks) e.quorum

-- `acked_by_quorum` with the nodes that are alive: the loop over the quorum.
unfoldable pub acked_by_alive : List (Uuid × AckData) → List Uuid → List Uuid → Bool
acked_by_alive acks alive [] = true
acked_by_alive acks alive (q ∷ qs) =
    let later = acked_by_alive acks alive qs in
    if not (holds uuids q (keys acks)) && holds uuids q alive then false else later
