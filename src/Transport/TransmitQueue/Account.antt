-- ===== src/Transport/TransmitQueue/Account.antt =====
-- The byte count of include/club/transport/transmit_queue.h under `insert` and `encode_payload`.
use libclub.Prelude.{ℕ, ◌+◌, ◌^◌, ◌≤◌, ◌<◌, ◌≡◌, ap, List, [], ◌∷◌, ◌++◌, none, some, length, arith}
use libclub.Binary.Encoder.{Encoder}
use libclub.Transport.Message.{OutMessage, payload_size}
use libclub.Transport.TransmitQueue.{Entry, TransmitQueue, Call, encode_payload, insert}
use libclub.Transport.TransmitQueue.Steps.{
  State, Step, acked, kept, once, partly, Steps, here, next, encode_payload-Steps,
}

-- The bytes of the payloads in the queue.
abbrev pub total : List Entry → ℕ
total [] = 0
total (entry ∷ rest) = payload_size entry.message + total rest

total-append : (xs ys : List Entry) → total (xs ++ ys) ≡ total xs + total ys
total-append [] ys = omega arith
total-append (x ∷ xs) ys = omega (arith, total-append xs ys)

-- The queue counts the bytes that it holds, and each message knows its size.
pub record IsAccounted (q : TransmitQueue) : Type 0 where
  pub counted : q.bytes_in ≡ total q.queue
  pub bounded : total q.queue < 2 ^ 64

-- The bytes in a state of the walk.
abbrev held : State → ℕ
held s = total s.todo + total s.done

Step-held :
    {call : Call} {s t : State}
    → Step call s t
    → s.bytes_in ≡ held s
    → held s < 2 ^ 64
    → (t.bytes_in ≡ held t) × (held t ≤ held s)
Step-held (acked entry todo done n x) h k = omega arith
Step-held (kept entry entry' todo done n x) h k =
    omega (arith, total-append done (entry' ∷ []), ap length x.payload)
Step-held (once entry entry' todo done n x r) h k = omega (arith, ap length x.payload)
Step-held (partly entry entry' todo done n x) h k = omega (arith, ap length x.payload)

Steps-held :
    {call : Call} {s t : State}
    → Steps call s t
    → s.bytes_in ≡ held s
    → held s < 2 ^ 64
    → (t.bytes_in ≡ held t) × (held t < 2 ^ 64)
Steps-held (here s) h k = (h, k)
Steps-held (next step rest) h k =
    let (h', k') = Step-held step h k in Steps-held rest h' (omega arith)

-- On a queue whose byte count is the sum of its payloads, `insert` of a message whose header names
-- the size of its payload keeps the count right, if the sum stays below 2 ^ 64.
pub insert-IsAccounted :
    {q : TransmitQueue} (m : OutMessage)
    → IsAccounted q
    → m.header.original_size ≡ payload_size m
    → total q.queue + payload_size m < 2 ^ 64
    → IsAccounted (insert q m)
unfolding insert
insert-IsAccounted {q} m a e h =
    omega (arith, total-append q.queue (record { last_sent_time = none; message = m } ∷ []))

-- From a queue whose byte count is the sum of its payloads, below 2 ^ 64, `encode_payload`
-- returns, for every set of acknowledged numbers, time and encoder, and the queue it leaves counts
-- the bytes that it then holds.
pub encode_payload-IsAccounted :
    (call : Call) (encoder : Encoder) {q : TransmitQueue}
    → IsAccounted q
    → (e' : Encoder) × (q' : TransmitQueue) × (count : ℕ) × (encode_payload call encoder q
        ≡ some (e', q', count))
      × IsAccounted q'
encode_payload-IsAccounted call encoder {q} a =
    let (v, eq, steps) = encode_payload-Steps call encoder q in
    let (counted, bounded) =
      Steps-held steps (omega (arith, a.counted)) (omega (arith, a.bounded)) in
    (
      v.encoder,
      record { bytes_in = v.bytes_in; queue = v.todo ++ v.done },
      v.count,
      eq,
      omega (arith, total-append v.todo v.done),
    )
