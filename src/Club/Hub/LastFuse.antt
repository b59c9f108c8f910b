-- ===== src/Club/Hub/LastFuse.antt =====
-- src/club/hub.cpp: the last fuse that can be committed, and what follows from the tests of an entry.
use mathlib.Core.Path.{subst}
use libclub.Prelude.{
  ◌≡◌, ◌⊎◌, refl, sym, ap, ◌∙◌, Bool, true, false, ◌&&◌, ◌||◌, List, [], ◌∷◌, Option, none, some,
  arith, Bool-cases, inl, inr, All,
}
use libclub.Generic.SortedMap.{find}
use libclub.Club.MessageId.{MessageId, Uuid, lt, eq, ne}
use libclub.Club.MessageId.Orders.{message_ids}
use libclub.Club.Message.{message_id}
use libclub.Club.LogEntry.{LogEntry, keys, is_fuse, acked_by_quorum, acked_by_alive}
use libclub.Club.Log.Valid.{IdsAscend}
use libclub.Club.Hub.{Verdict, stop, drop, commit_it, examine, unless_it, last_committable_fuse}

-- Acknowledged by all of its quorum that are alive, or a fuse that all of its quorum acknowledged.
abbrev pub agreed : List Uuid → LogEntry → Bool
agreed live e = acked_by_alive e.acks live e.quorum || (is_fuse e.message && acked_by_quorum e)

abbrev pub OwnKeys : List (MessageId × LogEntry) → Type 0
OwnKeys m = All (λ (p : MessageId × LogEntry). message_id p.1.message ≡ p.0) m

-- The last fuse is still in the log.
abbrev pub FuseThere : Option (MessageId × LogEntry) → List (MessageId × LogEntry) → Type 0
FuseThere none m = Unit
FuseThere (some (k, f)) m =
    (find message_ids k m ≡ some f)
    × ((is_fuse f.message && acked_by_quorum f) ≡ true)
    × (message_id f.message ≡ k)

find_later :
    (key k : MessageId) (e f : LogEntry) (rest : List (MessageId × LogEntry))
    → message_ids.same k key ≡ false
    → find message_ids k ((key, e) ∷ rest) ≡ some f
    → find message_ids k rest ≡ some f
unfolding find
find_later key k e f rest n h = ground (arith, n, h)

find_first :
    (key k : MessageId) (e f : LogEntry) (rest : List (MessageId × LogEntry))
    → key ≡ k
    → find message_ids k ((key, e) ∷ rest) ≡ some f
    → e ≡ f
unfolding find
find_first key k e f rest s h =
    let same : message_ids.same k key ≡ true =
      ap (λ z. message_ids.same z key) (sym s) ∙ message_ids.same_refl key in
    ground (arith, same, h)

pub FuseThere-unless_it :
    (key : MessageId) (e : LogEntry) (last : Option (MessageId × LogEntry))
    (rest : List (MessageId × LogEntry))
    → FuseThere last ((key, e) ∷ rest)
    → FuseThere (unless_it key last) rest
FuseThere-unless_it key e none rest t = tt
FuseThere-unless_it key e (some (k, f)) rest (h, a, o) = elim (Bool-cases (eq key k)) [
  | inl y ↦ rw y tt
  | inr n ↦ rw n (
    find_later key k e f rest
        (ground (
          arith,
          n,
          message_ids.same_refl key,
          λ (s : message_ids.same k key ≡ true).
              ap (message_ids.same key) (message_ids.same_sound k key s),
        ))
        h,
    a,
    o,
  )
]

-- A verdict, and what follows from it.
pub data Reason (live : List Uuid) (last : Option (MessageId × LogEntry))
    (rest : List (MessageId × LogEntry)) (e : LogEntry) : Verdict → Type 0 where
  stops : Reason live last rest e stop
  drops : FuseThere last rest → Reason live last rest e drop
  commits : agreed live e ≡ true → Reason live last rest e commit_it

pub examine-Reason :
    (live : List Uuid) (last : Option (MessageId × LogEntry)) (key : MessageId) (e : LogEntry)
    (rest : List (MessageId × LogEntry))
    → message_id e.message ≡ key
    → FuseThere last ((key, e) ∷ rest)
    → Reason live last rest e (examine live last e)
unfolding examine ne
examine-Reason live last key e rest own t = elim (Bool-cases (is_fuse e.message)) [
  | inr n ↦ elim (Bool-cases (acked_by_alive e.acks live e.quorum)) [
    | inl y ↦ rw (examine, n, y) (commits (ground (arith, y)))
    | inr m ↦ rw (examine, n, m) stops
  ]
  | inl fuse ↦ by_last last t fuse
]
  where
    other :
        (k : MessageId) (f : LogEntry)
        → lt (message_id e.message) (message_id f.message) ≡ true
        → message_id f.message ≡ k
        → message_ids.same k key ≡ false
    other k f b o = elim (Bool-cases (message_ids.same k key)) [
      | inr n ↦ n
      | inl s ↦ absurd (
          ground (
            arith,
            b,
            message_ids.irreflexive (message_id e.message),
            ap (lt (message_id e.message)) (own ∙ sym (message_ids.same_sound k key s) ∙ sym o),
          ))
    ]

    it :
        (k : MessageId) (f : LogEntry)
        → message_id e.message ≡ message_id f.message
        → message_id f.message ≡ k
        → find message_ids k ((key, e) ∷ rest) ≡ some f
        → e ≡ f
    it k f s o h = find_first key k e f rest (sym own ∙ s ∙ o) h

    by_last :
        (last : Option (MessageId × LogEntry))
        → FuseThere last ((key, e) ∷ rest)
        → is_fuse e.message ≡ true
        → Reason live last rest e (examine live last e)
    by_last none t y = rw (examine, y) stops
    by_last (some (k, f)) (h, a, o) y =
        elim (Bool-cases (lt (message_id e.message) (message_id f.message))) [
          | inl b ↦ elim (Bool-cases (acked_by_alive e.acks live e.quorum)) [
            | inl z ↦ rw (examine, y, b, z) (commits (ground (arith, z)))
            | inr m ↦
                rw (examine, y, b, m) (drops (find_later key k e f rest (other k f b o) h, a, o))
          ]
          | inr n ↦ elim (Bool-cases (ne (message_id e.message) (message_id f.message))) [
            | inl z ↦ rw (examine, y, n, z) stops
            | inr z ↦
                rw (examine, y, n, z)
                  (commits (
                    subst (λ c. agreed live c ≡ true)
                      (sym (
                        it k f
                          (message_ids.same_sound (message_id e.message) (message_id f.message)
                            (ground arith))
                          o h))
                      (ground (arith, a))))
          ]
        ]

above_found :
    (key k : MessageId) (f : LogEntry) (m : List (MessageId × LogEntry))
    → All (λ y. lt key y ≡ true) (keys m)
    → find message_ids k m ≡ some f
    → message_ids.same k key ≡ false
unfolding find
above_found key k f [] a h = absurd (ground arith)
above_found key k f ((x, e) ∷ m) a h = elim (Bool-cases (message_ids.same k x)) [
  | inl y ↦ ground (
    arith,
    a.0,
    message_ids.irreflexive key,
    λ (s : message_ids.same k key ≡ true).
        ap (lt key) (sym (message_ids.same_sound k x y) ∙ message_ids.same_sound k key s),
  )
  | inr n ↦ above_found key k f m a.1 (find_later x k e f m n h)
]

FuseThere-cons :
    (key : MessageId) (e : LogEntry) (last : Option (MessageId × LogEntry))
    (m : List (MessageId × LogEntry))
    → All (λ y. lt key y ≡ true) (keys m)
    → FuseThere last m
    → FuseThere last ((key, e) ∷ m)
unfolding find
FuseThere-cons key e none m a t = tt
FuseThere-cons key e (some (k, f)) m a (h, b, o) =
    (ground (arith, above_found key k f m a h, h), b, o)

pub last_committable_fuse_lem :
    (found : Option (MessageId × LogEntry)) (m : List (MessageId × LogEntry))
    → IdsAscend (keys m)
    → OwnKeys m
    → (last_committable_fuse found m ≡ found) ⊎ FuseThere (last_committable_fuse found m) m
unfolding last_committable_fuse find
last_committable_fuse_lem found [] a own = inl refl
last_committable_fuse_lem found ((key, e) ∷ m) a own =
    elim (Bool-cases (is_fuse e.message && acked_by_quorum e)) [
      | inl y ↦
          rw (last_committable_fuse, y)
            (inr (elim (last_committable_fuse_lem (some (key, e)) m a.1 own.1) [
              | inl r ↦
                  subst (λ z. FuseThere z ((key, e) ∷ m)) (sym r)
                    (ground (arith, message_ids.same_refl key), y, own.0)
              | inr t ↦ FuseThere-cons key e _ m a.0 t
            ]))
      | inr n ↦
          rw (last_committable_fuse, n)
            (elim (last_committable_fuse_lem found m a.1 own.1) [
              | inl r ↦ inl r
              | inr t ↦ inr (FuseThere-cons key e _ m a.0 t)
            ])
    ]
