-- ===== src/Club/Hub/Effects.antt =====
-- src/club/hub.cpp: `commit` leaves the log alone.
use libclub.Prelude.{◌≡◌, refl, ◌∙◌, List, [], ◌∷◌, Bool-cases, Option-cases, inl, inr}
use libclub.Generic.SortedSet.{holds}
use libclub.Generic.SortedMap.{find}
use libclub.Club.MessageId.{MessageId, Uuid}
use libclub.Club.MessageId.Orders.{uuids, message_ids}
use libclub.Club.Message.{LogMessage, fuse, user_data, message_id}
use libclub.Club.LogEntry.{LogEntry, acked_by_quorum}
use libclub.Club.Hub.{
  Hub, Event, forget_nodes, call_unless_empty, emplace_config, on_commit_fuse, commit_user_data,
  call_commit, on_remove, on_insert, set_difference, last_config, acks_to_graph,
}

-- The two agree on the log and on what was committed.
pub record SameLog (a b : Hub) : Type 0 where
  pub log : a.log ≡ b.log
  pub commits : a.commits ≡ b.commits

SameLog-trans : (a b c : Hub) → SameLog a b → SameLog b c → SameLog a c
SameLog-trans a b c s t = record { log = s.log ∙ t.log; commits = s.commits ∙ t.commits }

SameLog-refl : (h : Hub) → SameLog h h
SameLog-refl h = record { log = refl; commits = refl }

forget_nodes-SameLog : (l : List Uuid) (h : Hub) → SameLog (forget_nodes l h) h
unfolding forget_nodes
forget_nodes-SameLog [] h = SameLog-refl h
forget_nodes-SameLog (id ∷ l) h =
    let later = forget_nodes-SameLog l _ in record { log = later.log; commits = later.commits }

call_unless_empty-SameLog :
    (l : List Uuid) (event : Event) (h : Hub) → SameLog (call_unless_empty l event h) h
call_unless_empty-SameLog [] event h = SameLog-refl h
call_unless_empty-SameLog (id ∷ l) event h = record { log = refl; commits = refl }

emplace_config-SameLog :
    (id : MessageId) (quorum : List Uuid) (h : Hub) → SameLog (emplace_config id quorum h) h
unfolding emplace_config
emplace_config-SameLog id quorum h = elim (Option-cases (find message_ids id h.configs)) [
  | inl k ↦ rw (emplace_config, k) (record { log = refl; commits = refl })
  | inr (there, k) ↦ rw (emplace_config, k) (SameLog-refl h)
]

calls-SameLog :
    (removed added : List Uuid) (id : MessageId) (quorum : List Uuid) (h : Hub)
    → SameLog
        (call_unless_empty removed (on_remove removed) (
          call_unless_empty added
            (on_insert added)
            (forget_nodes removed (emplace_config id quorum h))))
        h
calls-SameLog removed added id quorum h =
    let h1 = emplace_config id quorum h in
    let h2 = forget_nodes removed h1 in
    let h3 = call_unless_empty added (on_insert added) h2 in
    SameLog-trans _ h3 h (call_unless_empty-SameLog removed (on_remove removed) h3) (
      SameLog-trans h3 h2 h (call_unless_empty-SameLog added (on_insert added) h2) (
        SameLog-trans h2 h1 h (forget_nodes-SameLog removed h1)
          (emplace_config-SameLog id quorum h)))

on_commit_fuse-SameLog : (e : LogEntry) (h : Hub) → SameLog (on_commit_fuse e h) h
unfolding on_commit_fuse
on_commit_fuse-SameLog e h = elim (Bool-cases (acked_by_quorum e)) [
  | inr n ↦ rw (on_commit_fuse, n) (SameLog-refl h)
  | inl y ↦
      let calls =
        calls-SameLog (set_difference (last_config [] h.configs) e.quorum)
          (set_difference e.quorum (last_config [] h.configs)) (message_id e.message) e.quorum
          (record h { graph = acks_to_graph e.acks (record { nodes = []; edges = [] }) }) in
      rw (on_commit_fuse, y) (record { log = calls.log; commits = calls.commits })
]

pub call_commit-SameLog : (e : LogEntry) (h : Hub) → SameLog (call_commit e h) h
unfolding call_commit commit_user_data
call_commit-SameLog e h = by_message e.message refl
  where
    by_message : (m : LogMessage) → e.message ≡ m → SameLog (call_commit e h) h
    by_message (fuse m) k = rw (call_commit, k) (on_commit_fuse-SameLog e h)
    by_message (user_data m) k = elim (Bool-cases (holds uuids m.header.original_poster h.nodes)) [
      | inl y ↦ rw (call_commit, k, commit_user_data, y) (record { log = refl; commits = refl })
      | inr n ↦ rw (call_commit, k, commit_user_data, n) (SameLog-refl h)
    ]
