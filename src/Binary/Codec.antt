-- ===== src/Binary/Codec.antt =====
-- What include/binary asks of a type that is put into an encoder and got from a decoder: its `put`
-- and `get`, the bytes on the wire, and that they agree.
pub mod Words
use libclub.Prelude.{
  ℕ, refl, ◌≤◌, ◌<◌, ◌≡◌, ap, ◌∙◌, true, false, List, [], ◌++◌, append-nil, sym, arith, length,
}
use libclub.Binary.Encoder.{Encoder, encoder, written}
use libclub.Binary.Encoder.Write.{Puts, write_room}
use libclub.Binary.Decoder.{Decoder, decoder}

pub record Codec (A : Type 0) : Type 1 where
  pub default : A
  pub put : Encoder → A → Encoder
  pub get : Decoder → A × Decoder
  -- What is written, and for which values it can be read back.
  pub bytes : A → List ℕ
  pub Fits : A → Type 0
  pub puts : (a : A) → Puts (λ e. put e a) (bytes a)
  pub get_bytes :
      (a : A) (rest : List ℕ) → Fits a → get (decoder (bytes a ++ rest)) ≡ (a, decoder rest)
  pub get_error : (d : Decoder) → d.was_error ≡ true → (get d).1.was_error ≡ true

module _ {A : Type 0} (c : Codec A) where
  open c use {put, get, bytes, Fits, puts, get_bytes}

  -- For every codec, decoding a value that can be read back, encoded into a buffer with enough
  -- room and followed by whatever bytes, gives the value back and leaves the decoder, with no
  -- error, at the bytes that follow.
  pub get-put :
      (a : A) (buffer rest : List ℕ)
      → Fits a
      → length (bytes a) ≤ length buffer
      → get (decoder ((put (encoder buffer) a).before ++ rest)) ≡ (a, decoder rest)
  get-put a buffer rest fits room =
      let whole =
        (puts a).room (encoder buffer) refl room
        ∙ write_room (encoder buffer) (bytes a) refl room in
      rw whole (get_bytes a rest fits)
