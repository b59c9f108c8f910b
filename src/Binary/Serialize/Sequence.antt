-- ===== src/Binary/Serialize/Sequence.antt =====
-- include/binary/serialize/vector.h, list.h and string.h: a count and the items, one by one.
use libclub.Prelude.{
  ◌≤◌, ℕ, ◌<◌, ◌≡◌, refl, List, [], ◌∷◌, ◌++◌, append_assoc, arith, true, length, All, le→ltb,
}
use libclub.Binary.Encoder.Write.{Puts, Puts-seq, Puts-nothing}
use libclub.Binary.Decoder.{Decoder, decoder}
use libclub.Binary.Codec.{Codec}
use libclub.Binary.Codec.Words.{u32_codec}
use libclub.Binary.Serialize.{max_size, put_items, get_items, encode_vector, decode_vector}

module _ {A : Type 0} (codec : Codec A) where
  abbrev pub items_bytes : List A → List ℕ
  items_bytes [] = []
  items_bytes (a ∷ as') = codec.bytes a ++ items_bytes as'

  abbrev pub vector_bytes : List A → List ℕ
  vector_bytes l = u32_codec.bytes (length l) ++ items_bytes l

  abbrev pub VectorFits : List A → Type 0
  VectorFits l = (length l < max_size) × All codec.Fits l

  pub Puts-put_items : (l : List A) → Puts (λ e. put_items codec e l) (items_bytes l)
  unfolding put_items
  Puts-put_items [] = Puts-nothing
  Puts-put_items (a ∷ l) =
      Puts-seq (codec.bytes a) (items_bytes l) (codec.puts a) (Puts-put_items l)

  pub Puts-encode_vector : (l : List A) → Puts (λ e. encode_vector codec e l) (vector_bytes l)
  unfolding encode_vector
  Puts-encode_vector l =
      Puts-seq (u32_codec.bytes (length l)) (items_bytes l) (u32_codec.puts (length l))
        (Puts-put_items l)

  pub get_items-append :
      (l : List A) (rest : List ℕ)
      → All codec.Fits l
      → get_items codec (decoder (items_bytes l ++ rest)) (length l) ≡ (l, decoder rest)
  unfolding get_items
  get_items-append [] rest fits = refl
  get_items-append (a ∷ l) rest fits = rw (
    append_assoc,
    codec.get_bytes a (items_bytes l ++ rest) fits.0,
    get_items-append l rest fits.1,
  )

  -- Decoding the bytes of a sequence below the largest size, whose items can be read back, gives
  -- the items in their order, and leaves the decoder behind them.
  pub decode_vector-append :
      (l : List A) (rest : List ℕ)
      → VectorFits l
      → decode_vector codec (decoder (vector_bytes l ++ rest)) max_size ≡ (l, decoder rest)
  unfolding decode_vector
  decode_vector-append l rest fits =
      rw
        (
          append_assoc,
          u32_codec.get_bytes (length l) (items_bytes l ++ rest) (omega (arith, fits.0)),
          le→ltb max_size (length l) (omega (arith, fits.0)),
        )
        (get_items-append l rest fits.1)

  pub decode_vector-append_within :
      (l : List A) (bound : ℕ) (rest : List ℕ)
      → VectorFits l
      → length l ≤ bound
      → decode_vector codec (decoder (vector_bytes l ++ rest)) bound ≡ (l, decoder rest)
  unfolding decode_vector
  decode_vector-append_within l bound rest fits within =
      rw
        (
          append_assoc,
          u32_codec.get_bytes (length l) (items_bytes l ++ rest) (omega (arith, fits.0)),
          le→ltb bound (length l) within,
        )
        (get_items-append l rest fits.1)

  pub decode_vector_error :
      (d : Decoder) → d.was_error ≡ true → (decode_vector codec d max_size).1.was_error ≡ true
  unfolding decode_vector
  decode_vector_error d bad = rw bad

  abbrev pub vector_codec : Codec (List A)
  vector_codec = record {
    default = [];
    put = encode_vector codec;
    get = λ d. decode_vector codec d max_size;
    bytes = vector_bytes;
    Fits = VectorFits;
    puts = Puts-encode_vector;
    get_bytes = decode_vector-append;
    get_error = decode_vector_error;
  }
