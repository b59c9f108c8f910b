-- ===== src/Binary/Serialize/Laws.antt =====
-- include/binary/serialize/pair.h and optional.h as codecs over those of their parts.
use libclub.Prelude.{ℕ, ◌≡◌, List, [], ◌∷◌, ◌++◌, append_assoc, arith, true, Option, none, some}
use libclub.Binary.Encoder.Write.{Puts, Puts-seq}
use libclub.Binary.Decoder.{Decoder, decoder}
use libclub.Binary.Codec.{Codec}
use libclub.Binary.Codec.Words.{u8_codec}
use libclub.Binary.Serialize.{encode_pair, decode_pair, encode_optional, decode_optional}

module _ {A B : Type 0} (a_codec : Codec A) (b_codec : Codec B) where
  abbrev pub pair_bytes : A × B → List ℕ
  pair_bytes (a, b) = a_codec.bytes a ++ b_codec.bytes b

  abbrev pub PairFits : A × B → Type 0
  PairFits (a, b) = a_codec.Fits a × b_codec.Fits b

  pub Puts-encode_pair : (p : A × B) → Puts (λ e. encode_pair a_codec b_codec e p) (pair_bytes p)
  unfolding encode_pair
  Puts-encode_pair (a, b) =
      Puts-seq (a_codec.bytes a) (b_codec.bytes b) (a_codec.puts a) (b_codec.puts b)

  -- Decoding the bytes of a pair whose parts can be read back gives it, and leaves the decoder
  -- behind them.
  pub decode_pair-append :
      (p : A × B) (rest : List ℕ)
      → PairFits p
      → decode_pair a_codec b_codec (decoder (pair_bytes p ++ rest)) ≡ (p, decoder rest)
  unfolding decode_pair
  decode_pair-append (a, b) rest fits = rw (
    append_assoc,
    a_codec.get_bytes a (b_codec.bytes b ++ rest) fits.0,
    b_codec.get_bytes b rest fits.1,
  )

  pub decode_pair_error :
      (d : Decoder) → d.was_error ≡ true → (decode_pair a_codec b_codec d).1.was_error ≡ true
  unfolding decode_pair
  decode_pair_error d bad = rw bad

  abbrev pub pair_codec : Codec (A × B)
  pair_codec = record {
    default = (a_codec.default, b_codec.default);
    put = encode_pair a_codec b_codec;
    get = decode_pair a_codec b_codec;
    bytes = pair_bytes;
    Fits = PairFits;
    puts = Puts-encode_pair;
    get_bytes = decode_pair-append;
    get_error = decode_pair_error;
  }

module _ {A : Type 0} (codec : Codec A) where
  abbrev pub optional_bytes : Option A → List ℕ
  optional_bytes none = 0 ∷ []
  optional_bytes (some a) = 1 ∷ codec.bytes a

  abbrev pub OptionalFits : Option A → Type 0
  OptionalFits none = Unit
  OptionalFits (some a) = codec.Fits a

  pub Puts-encode_optional :
      (o : Option A) → Puts (λ e. encode_optional codec e o) (optional_bytes o)
  unfolding encode_optional
  Puts-encode_optional none = u8_codec.puts 0
  Puts-encode_optional (some a) = Puts-seq (1 ∷ []) (codec.bytes a) (u8_codec.puts 1) (codec.puts a)

  -- Decoding the bytes of an optional value that can be read back gives it, and leaves the decoder
  -- behind them.
  pub decode_optional-append :
      (o : Option A) (rest : List ℕ)
      → OptionalFits o
      → decode_optional codec (decoder (optional_bytes o ++ rest)) ≡ (o, decoder rest)
  unfolding decode_optional
  decode_optional-append none rest fits = rw (u8_codec.get_bytes 0 rest (omega arith))
  decode_optional-append (some a) rest fits =
      rw (u8_codec.get_bytes 1 (codec.bytes a ++ rest) (omega arith), codec.get_bytes a rest fits)

  pub decode_optional_error :
      (d : Decoder) → d.was_error ≡ true → (decode_optional codec d).1.was_error ≡ true
  unfolding decode_optional
  decode_optional_error d bad = rw bad

  abbrev pub optional_codec : Codec (Option A)
  optional_codec = record {
    default = none;
    put = encode_optional codec;
    get = decode_optional codec;
    bytes = optional_bytes;
    Fits = OptionalFits;
    puts = Puts-encode_optional;
    get_bytes = decode_optional-append;
    get_error = decode_optional_error;
  }
