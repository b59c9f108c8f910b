-- ===== src/Transport/TransmitQueue/Reliable.antt =====
-- `encode_payload` of transmit_queue.h and the messages that must be resent until acknowledged.
use libclub.Prelude.{
  ℕ, ◌≡◌, refl, sym, ap, ◌∙◌, true, false, ◌&&◌, not, List, [], ◌∷◌, ◌++◌, append_assoc, some,
  if◌then◌else◌, arith, Bool-cases, inl, inr,
}
use libclub.Binary.Encoder.{Encoder}
use libclub.Transport.AckSet.{is_in}
use libclub.Transport.Message.{Header}
use libclub.Transport.Message.Keep.{Keeps}
use libclub.Transport.TransmitQueue.{Entry, TransmitQueue, Call, is_acked, encode_payload}
use libclub.Transport.TransmitQueue.Steps.{
  State, Step, acked, kept, once, partly, Steps, here, next, encode_payload-Steps,
}

-- Headers and payloads of the reliable messages in a list that are not acknowledged, in order.
pub waiting : Call → List Entry → List (Header × List ℕ)
waiting call [] = []
waiting call (entry ∷ rest) =
    let m = entry.message in
    let later = waiting call rest in
    if m.resend_until_acked && not (is_in call.acked m.header.sequence_number)
    then (m.header, m.payload) ∷ later
    else later

module _ (call : Call) where
  waiting_nil_append : (l : List Entry) → waiting call [] ++ waiting call l ≡ waiting call l
  unfolding waiting
  waiting_nil_append l = refl

  waiting-append :
      (xs ys : List Entry) → waiting call (xs ++ ys) ≡ waiting call xs ++ waiting call ys
  unfolding waiting
  waiting-append [] ys = refl
  waiting-append (entry ∷ xs) ys =
      elim (Bool-cases (
        entry.message.resend_until_acked
        && not (is_in call.acked entry.message.header.sequence_number))) [
          | inl y ↦ simp (y, waiting-append xs ys)
          | inr n ↦ simp (n, waiting-append xs ys)
        ]

  waiting-Keeps :
      (entry entry' : Entry) (rest : List Entry)
      → Keeps entry.message entry'.message
      → waiting call (entry' ∷ rest) ≡ waiting call (entry ∷ rest)
  unfolding waiting
  waiting-Keeps entry entry' rest k = ground (arith, k.header, k.payload, k.resend)

  waiting_acked :
      (entry : Entry) (rest : List Entry)
      → is_acked call entry ≡ true
      → waiting call (entry ∷ rest) ≡ waiting call rest
  unfolding waiting is_acked
  waiting_acked entry rest h = ground arith

  waiting_unreliable :
      (entry : Entry) (rest : List Entry)
      → entry.message.resend_until_acked ≡ false
      → waiting call (entry ∷ rest) ≡ waiting call rest
  unfolding waiting
  waiting_unreliable entry rest h = ground arith

  -- Those of a state of the walk, in the order of the queue before it.
  abbrev owed : State → List (Header × List ℕ)
  owed s = waiting call s.done ++ waiting call s.todo

  Step-owed : {s t : State} → Step call s t → owed t ≡ owed s
  Step-owed (acked entry todo done n x) = rw (waiting_acked entry todo x)
  Step-owed (kept entry entry' todo done n x) =
      rw (waiting-append, append_assoc, ← waiting-append)
        (ap (λ l. waiting call done ++ l) (waiting-Keeps entry entry' todo x))
  Step-owed (once entry entry' todo done n x r) =
      rw (waiting_unreliable entry todo (sym x.resend ∙ r))
  Step-owed (partly entry entry' todo done n x) = rw (waiting-Keeps entry entry' todo x)

  Steps-owed : {s t : State} → Steps call s t → owed t ≡ owed s
  Steps-owed (here s) = refl
  Steps-owed (next step rest) = Steps-owed rest ∙ Step-owed step

  -- `encode_payload` returns, for every queue, time, encoder and set of acknowledged numbers; the
  -- queue it leaves is a list `todo` and behind it a list `done`, and the reliable messages that
  -- are not acknowledged are in `done` and then `todo` just those of the queue before, with the
  -- same headers and payloads and in the same order.
  pub encode_payload-waiting :
      (encoder : Encoder) (q : TransmitQueue)
      → (e' : Encoder) × (bytes_in : ℕ) × (todo : List Entry) × (done : List Entry) × (count : ℕ)
        × (encode_payload call encoder q
            ≡ some (e', record { bytes_in = bytes_in; queue = todo ++ done }, count))
        × (waiting call (done ++ todo) ≡ waiting call q.queue)
  encode_payload-waiting encoder q =
      let (v, eq, steps) = encode_payload-Steps call encoder q in
      (
        v.encoder,
        v.bytes_in,
        v.todo,
        v.done,
        v.count,
        eq,
        waiting-append v.done v.todo ∙ Steps-owed steps ∙ waiting_nil_append q.queue,
      )
