-- ===== src/Club/Hub/Acked.antt =====
-- src/club/hub.cpp: who acknowledged what is committed.
use mathlib.Core.Path.{subst}
use libclub.Prelude.{
  ◌≡◌, refl, sym, ap, ◌∙◌, true, List, [], ◌∷◌, ◌++◌, append_assoc, Option, none, Bool-cases, inl,
  inr, All,
}
use libclub.Club.MessageId.{MessageId, Uuid}
use libclub.Club.LogEntry.{LogEntry}
use libclub.Club.Log.Valid.{Proper, IsValid}
use libclub.Club.Hub.Effects.{call_commit-SameLog}
use libclub.Club.Hub.{
  Hub, Verdict, stop, drop, commit_it, examine, waits_for_predecessor, drop_entry, commit_entry,
  unless_it, commit_loop, live_nodes_of, last_committable_fuse, commit_what_was_seen_by_everyone,
}
use libclub.Club.Hub.LastFuse.{
  agreed, OwnKeys, FuseThere, FuseThere-unless_it, Reason, stops, drops, commits, examine-Reason,
  last_committable_fuse_lem,
}

-- What is committed in a run of the loop: the last one first.
abbrev pub Agreed : List Uuid → Hub → Hub → Type 0
Agreed live h h' =
    (cs : List LogEntry) × (h'.commits ≡ cs ++ h.commits)
    × All (λ (c : LogEntry). agreed live c ≡ true) cs

Agreed-more :
    (live : List Uuid) (e : LogEntry) (h h1 h' : Hub)
    → h1.commits ≡ e ∷ h.commits
    → agreed live e ≡ true
    → Agreed live h1 h'
    → Agreed live h h'
Agreed-more live e h h1 h' k a (cs, p, all) = (
  cs ++ (e ∷ []),
  p ∙ ap (λ z. cs ++ z) k ∙ sym (append_assoc cs (e ∷ []) h.commits),
  both cs all,
)
  where
    both :
        (cs : List LogEntry)
        → All (λ (c : LogEntry). agreed live c ≡ true) cs
        → All (λ (c : LogEntry). agreed live c ≡ true) (cs ++ (e ∷ []))
    both [] all = (a, tt)
    both (c ∷ cs) all = (all.0, both cs all.1)

pub commits-commit_entry :
    (key : MessageId) (e : LogEntry) (h : Hub) → (commit_entry key e h).commits ≡ e ∷ h.commits
unfolding commit_entry
commits-commit_entry key e h = (call_commit-SameLog e _).commits

pub commit_loop-Agreed :
    (live : List Uuid) (last : Option (MessageId × LogEntry)) (rest : List (MessageId × LogEntry))
    (h : Hub)
    → OwnKeys rest
    → FuseThere last rest
    → Agreed live h (commit_loop live last rest h)
unfolding commit_loop drop_entry
commit_loop-Agreed live last [] h own t = ([], refl, tt)
commit_loop-Agreed live last ((key, e) ∷ rest) h own t =
    by_reason (examine live last e) refl (examine-Reason live last key e rest own.0 t)
      (commit_loop-Agreed live last rest (drop_entry key e h) own.1)
      (commit_loop-Agreed live (unless_it key last) rest (commit_entry key e h) own.1
        (FuseThere-unless_it key e last rest t))
  where
    kept : (cs : List LogEntry) → cs ++ (drop_entry key e h).commits ≡ cs ++ h.commits
    kept cs = refl

    by_reason :
        (v : Verdict)
        → examine live last e ≡ v
        → Reason live last rest e v
        → (FuseThere last rest
            → Agreed live (drop_entry key e h) (commit_loop live last rest (drop_entry key e h)))
        → Agreed live
            (commit_entry key e h)
            (commit_loop live (unless_it key last) rest (commit_entry key e h))
        → Agreed live h (commit_loop live last ((key, e) ∷ rest) h)
    by_reason stop k stops d c = rw (commit_loop, k) ([], refl, tt)
    by_reason drop k (drops there) d c =
        let (cs, p, all) = d there in rw (commit_loop, k) (cs, p ∙ kept cs, all)
    by_reason commit_it k (commits a) d c = elim (Bool-cases (waits_for_predecessor h e)) [
      | inl y ↦ rw (commit_loop, k, y) ([], refl, tt)
      | inr n ↦
          rw (commit_loop, k, n)
            (Agreed-more live e h (commit_entry key e h)
              (commit_loop live (unless_it key last) rest (commit_entry key e h))
              (commits-commit_entry key e h) a c)
    ]

pub own_keys :
    (last : MessageId) (m : List (MessageId × LogEntry)) → All (Proper last) m → OwnKeys m
own_keys last [] a = tt
own_keys last ((k, e) ∷ m) a = (a.0.0, own_keys last m a.1)

pub FuseThere-last_committable_fuse :
    (h : Hub) → IsValid h.log → FuseThere (last_committable_fuse none h.log.entries) h.log.entries
FuseThere-last_committable_fuse h v =
    let own = own_keys h.log.last_committed h.log.entries v.proper in
    elim (last_committable_fuse_lem none h.log.entries v.ascend own) [
      | inl r ↦ subst (λ z. FuseThere z h.log.entries) (sym r) tt
      | inr t ↦ t
    ]

-- With a log that is valid, each entry that a run of `commit_what_was_seen_by_everyone` commits
-- was acknowledged by all nodes of its quorum that are among the live nodes, or it is a fuse that
-- all nodes of its quorum acknowledged.
pub commit_what_was_seen_by_everyone-agreed :
    (h : Hub)
    → IsValid h.log
    → (cs : List LogEntry) × ((commit_what_was_seen_by_everyone h).commits ≡ cs ++ h.commits)
      × All (λ (c : LogEntry). agreed (live_nodes_of h) c ≡ true) cs
unfolding commit_what_was_seen_by_everyone
commit_what_was_seen_by_everyone-agreed h v =
    commit_loop-Agreed (live_nodes_of h) (last_committable_fuse none h.log.entries) h.log.entries h
      (own_keys h.log.last_committed h.log.entries v.proper) (FuseThere-last_committable_fuse h v)
