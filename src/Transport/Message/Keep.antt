-- ===== src/Transport/Message/Keep.antt =====
-- What `encode` of out_message.h leaves as it is.
use libclub.Prelude.{◌≡◌, arith}
use libclub.Binary.Encoder.{Encoder}
use libclub.Transport.Message.{
  OutMessage, encode_header_and_payload, encode_out_message, put_out_message,
}

pub record Keeps (m m' : OutMessage) : Type 0 where
  pub header : m'.header ≡ m.header
  pub payload : m'.payload ≡ m.payload
  pub resend : m'.resend_until_acked ≡ m.resend_until_acked

-- Only the counter of the sent bytes and the dirty flag change.
pub put_out_message-Keeps : (e : Encoder) (m : OutMessage) → Keeps m (put_out_message e m).1
unfolding encode_out_message encode_header_and_payload
put_out_message-Keeps e m = record {
  header = ground arith;
  payload = ground arith;
  resend = ground arith;
}
