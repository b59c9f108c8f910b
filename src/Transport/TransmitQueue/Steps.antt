-- ===== src/Transport/TransmitQueue/Steps.antt =====
-- `encode_payload` of transmit_queue.h as a sequence of steps, each of which does to one entry what
-- the loop may do to it.
use libclub.Prelude.{
  ℕ, ◌+◌, ◌≡◌, refl, true, false, not, List, [], ◌∷◌, ◌++◌, some, arith, Bool-cases, inl, inr,
}
use libclub.Binary.Encoder.{Encoder}
use libclub.Transport.Message.{OutMessage, payload_size, fully_sent}
use libclub.Transport.Message.Keep.{Keeps, put_out_message-Keeps}
use libclub.Transport.TransmitQueue.{
  Entry, TransmitQueue, Call, Verdict, drop_acked, skip_recent, no_room, partly_sent, sent_once,
  sent_kept, examine, stamp, try_encode, is_acked, sent_lately, encode_payload, sub64,
}
use libclub.Transport.TransmitQueue.Serve.{Served, serve, encode_payload-serve}

try_encode-Keeps :
    (e : Encoder) (entry : Entry) → Keeps entry.message (try_encode e entry).2.message
unfolding try_encode
try_encode-Keeps e entry = ground (arith, put_out_message-Keeps e entry.message)

stamp-Keeps : (call : Call) (entry : Entry) → (stamp call entry).message ≡ entry.message
unfolding stamp
stamp-Keeps call entry = ground arith

-- What a verdict says of the entry that was examined.
abbrev Explains : Call → Entry → Verdict → Type 0
Explains call entry drop_acked = is_acked call entry ≡ true
Explains call entry skip_recent = Unit
Explains call entry no_room = Unit
Explains call entry (partly_sent e entry') = Keeps entry.message entry'.message
Explains call entry (sent_once e entry') =
    Keeps entry.message entry'.message × (entry'.message.resend_until_acked ≡ false)
Explains call entry (sent_kept e entry') = Keeps entry.message entry'.message

examine-Explains :
    (call : Call) (e : Encoder) (entry : Entry) → Explains call entry (examine call e entry)
unfolding examine
examine-Explains call e entry =
    let sent = stamp call (try_encode e entry).2 in
    let kept : Keeps entry.message sent.message =
      rw (stamp-Keeps call (try_encode e entry).2) (try_encode-Keeps e entry) in
    elim (Bool-cases (is_acked call entry)) [
      | inl y ↦ rw y y
      | inr n ↦ rw n (elim (Bool-cases (sent_lately call entry)) [
        | inl y ↦ rw y tt
        | inr n2 ↦ rw n2 (elim (Bool-cases (not (try_encode e entry).0)) [
          | inl y ↦ rw y tt
          | inr n3 ↦ rw n3 (elim (Bool-cases (not (fully_sent sent.message))) [
            | inl y ↦ rw y kept
            | inr n4 ↦ rw n4 (elim (Bool-cases sent.message.resend_until_acked) [
              | inl y ↦ simp y kept
              | inr n5 ↦ simp n5 (kept, refl)
            ])
          ])
        ])
      ])
    ]

-- The entries that are left, those that were kept, and the bytes counted.
pub record State : Type 0 where
  pub todo : List Entry
  pub done : List Entry
  pub bytes_in : ℕ

pub data Step (call : Call) : State → State → Type 0 where
  -- An acknowledged message is erased.
  acked :
      (entry : Entry) (todo done : List Entry) (n : ℕ)
      → is_acked call entry ≡ true
      → Step call
          (record { todo = entry ∷ todo; done = done; bytes_in = n })
          (record { todo = todo; done = done; bytes_in = sub64 n (payload_size entry.message) })
  -- An entry is left behind, as it is or with its message sent whole.
  kept :
      (entry entry' : Entry) (todo done : List Entry) (n : ℕ)
      → Keeps entry.message entry'.message
      → Step call
          (record { todo = entry ∷ todo; done = done; bytes_in = n })
          (record { todo = todo; done = done ++ (entry' ∷ []); bytes_in = n })
  -- An unreliable message that was sent whole is erased.
  once :
      (entry entry' : Entry) (todo done : List Entry) (n : ℕ)
      → Keeps entry.message entry'.message
      → entry'.message.resend_until_acked ≡ false
      → Step call
          (record { todo = entry ∷ todo; done = done; bytes_in = n })
          (record { todo = todo; done = done; bytes_in = sub64 n (payload_size entry'.message) })
  -- A part of a message was sent: its entry stays at the front.
  partly :
      (entry entry' : Entry) (todo done : List Entry) (n : ℕ)
      → Keeps entry.message entry'.message
      → Step call
          (record { todo = entry ∷ todo; done = done; bytes_in = n })
          (record { todo = entry' ∷ todo; done = done; bytes_in = n })

pub data Steps (call : Call) : State → State → Type 0 where
  here : (s : State) → Steps call s s
  next : {s t u : State} → Step call s t → Steps call t u → Steps call s u

abbrev pub state_of : Served → State
state_of v = record { todo = v.todo; done = v.done; bytes_in = v.bytes_in }

Keeps-self : (m : OutMessage) → Keeps m m
Keeps-self m = record { header = refl; payload = refl; resend = refl }

module _ (call : Call) where
  serve-Steps :
      (todo done : List Entry) (n : ℕ) (e : Encoder) (count : ℕ)
      → Steps call
          (record { todo = todo; done = done; bytes_in = n })
          (state_of (serve call todo done n e count))
  unfolding serve
  serve-Steps [] done n e count = here _
  serve-Steps (entry ∷ todo) done n e count =
      step (examine call e entry) refl (examine-Explains call e entry)
        (λ done' n' e' count'. serve-Steps todo done' n' e' count')
    where
      step :
          (v : Verdict)
          → examine call e entry ≡ v
          → Explains call entry v
          → ((done' : List Entry) (n' : ℕ) (e' : Encoder) (count' : ℕ)
              → Steps call
                  (record { todo = todo; done = done'; bytes_in = n' })
                  (state_of (serve call todo done' n' e' count')))
          → Steps call
              (record { todo = entry ∷ todo; done = done; bytes_in = n })
              (state_of (serve call (entry ∷ todo) done n e count))
      step drop_acked eq x ih =
          rw (eq, serve) (next (acked entry todo done n x) (ih done _ e count))
      step skip_recent eq x ih =
          rw (eq, serve)
            (next (kept entry entry todo done n (Keeps-self entry.message)) (ih _ n e count))
      step no_room eq x ih = rw (eq, serve) (here _)
      step (partly_sent e' entry') eq x ih =
          rw (eq, serve) (next (partly entry entry' todo done n x) (here _))
      step (sent_once e' entry') eq x ih =
          rw (eq, serve) (next (once entry entry' todo done n x.0 x.1) (ih done _ e' (count + 1)))
      step (sent_kept e' entry') eq x ih =
          rw (eq, serve) (next (kept entry entry' todo done n x) (ih _ n e' (count + 1)))

  -- From any queue the call returns, and a sequence of steps leads to the queue that it leaves.
  pub encode_payload-Steps :
      (encoder : Encoder) (q : TransmitQueue)
      → (v : Served) × (encode_payload call encoder q
          ≡ some (v.encoder, record { bytes_in = v.bytes_in; queue = v.todo ++ v.done }, v.count))
        × Steps call (record { todo = q.queue; done = []; bytes_in = q.bytes_in }) (state_of v)
  encode_payload-Steps encoder q = (
    serve call q.queue [] q.bytes_in encoder 0,
    encode_payload-serve call encoder q,
    serve-Steps q.queue [] q.bytes_in encoder 0,
  )
