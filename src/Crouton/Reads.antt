-- ===== src/Crouton/Reads.antt =====
-- crouton/SecretHandshakeStream.cc, the methods `peekNoCopy` and `readNoCopy`.
pub mod Filling
use secret_handshake_capnp.Common.{
  ℕ, zero, suc, ◌≤◌, ◌<◌, ◌≡◌, refl, sym, ap, ◌∙◌, min, ◌⊎◌, inl, inr, Bytes, [], ◌∷◌, ◌++◌, length,
  take, ltb, Bool-cases, length-take, arith,
}
use secret_handshake_capnp.Crypto.{Crypto, IsCrypto}
use secret_handshake_capnp.Stream.Buffer.{CryptoStream, skip, pull, pull_lem, skip-pull}
use secret_handshake_capnp.Stream.Decryption
use secret_handshake_capnp.Stream.Transport.Arriving.{Awaits, pull-Awaits}
use secret_handshake_capnp.Async.{returned}
use secret_handshake_capnp.Async.Ends.{Ends, then-Ends, of_stream}
use secret_handshake_capnp.Crouton.Shaking.{IoStream}
use secret_handshake_capnp.Crouton.Wrapped.{
  SecretHandshakeStream, skip_last_read, peek_no_copy, read_no_copy_stream,
}
pub use secret_handshake_capnp.Crouton.Reads.Filling.{reading, IsHanding}
use secret_handshake_capnp.Crouton.Reads.Filling.{Seen, fill_reader-Seen}

pub skip_zero : (d : CryptoStream) → (skip 0 d).1 ≡ d
unfolding skip
skip_zero d = let e : min 0 d.processed ≡ 0 = omega arith in rw e refl

take-length : (n : ℕ) (xs : Bytes) → take (length (take n xs)) xs ≡ take n xs
take-length zero xs = refl
take-length (suc n) [] = refl
take-length (suc n) (x ∷ xs) = ap (◌∷◌ x) (take-length n xs)

take_nothing : (n : ℕ) (xs : Bytes) → take n xs ≡ [] → (n ≡ 0) ⊎ (xs ≡ [])
take_nothing zero xs e = inl refl
take_nothing (suc n) [] e = inr refl
take_nothing (suc n) (x ∷ xs) e = absurd (omega (arith, ap length e))

module _ {S : Type 0} (c : Crypto) (rest : S → Bytes) (max_len room : ℕ) (text : Bytes) where
  -- What a read takes from the text that is left: nothing only where it asks for nothing or none is
  -- left. The next call skips it.
  pub record Took (bytes : Bytes) (s : SecretHandshakeStream S) : Type 0 where
    pub reader : CryptoStream
    pub stream : S
    pub base : SecretHandshakeStream S
    pub is : s ≡ reading reader (length bytes) stream base
    pub later : Bytes
    pub parts : bytes ++ later ≡ text
    pub awaits : Awaits c (skip (length bytes) reader).1 (rest stream) later
    pub room_is : length (rest stream) ≤ room
    pub fits : length bytes ≤ max_len
    pub enough : bytes ≡ [] → (max_len ≡ 0) ⊎ (text ≡ [])

module _ {c : Crypto} (laws : IsCrypto c) {S : Type 0} {io : IoStream S} {rest : S → Bytes}
    (handing : IsHanding io rest) (room : ℕ) where
  skip_last_lem :
      (n : ℕ) (d : CryptoStream) (t : S) (s : SecretHandshakeStream S)
      → skip_last_read c io (reading d n t s) ≡ (returned tt, reading (skip n d).1 0 t s)
  skip_last_lem n d t s = elim (Bool-cases (ltb 0 n)) [
    | inl some_left ↦ rw some_left
    | inr nothing ↦
        let z : n ≡ 0 = ground arith in
        rw z (ap (λ r. (returned tt, reading r 0 t s)) (sym (skip_zero d)))
  ]

  -- `peekNoCopy` skips what the last read handed out.
  peek_no_copy-Seen :
      (fuel n : ℕ) (d : CryptoStream) (t : S) (s : SecretHandshakeStream S) (text : Bytes)
      → Awaits c (skip n d).1 (rest t) text
      → length (rest t) ≤ room
      → length (rest t) < fuel
      → Ends of_stream (Seen c rest room text) (peek_no_copy c io fuel (reading d n t s))
  unfolding peek_no_copy
  peek_no_copy-Seen fuel n d t s text a within enough =
      rw (skip_last_lem n d t s)
        (fill_reader-Seen laws handing room fuel (skip n d).1 t s text a within enough)

  Seen-Took :
      (max_len : ℕ) (bytes : Bytes) (s : SecretHandshakeStream S) (text : Bytes)
      → Seen c rest room text bytes s
      → Took c rest max_len room text
          (take max_len bytes)
          (record s { last_read_size = length (take max_len bytes) })
  Seen-Took max_len bytes s text v =
      let n : ℕ = length (take max_len bytes) in
      let (later, parts, a) = pull-Awaits laws n v.reader (rest v.stream) text v.awaits in
      let all = v.all_ready in
      let (_, taken, _, _, _) = pull_lem n v.reader v.awaits.coming.sound in
      let same : (pull n v.reader).0 ≡ take max_len bytes =
        taken ∙ ap (take n) (sym all) ∙ take-length max_len bytes in
      record {
        reader = v.reader;
        stream = v.stream;
        base = v.base;
        is = ap (λ (s' : SecretHandshakeStream S). record s' { last_read_size = n }) v.is;
        later = later;
        parts = ap (λ u. u ++ later) (sym same) ∙ parts;
        awaits = rw skip-pull a;
        room_is = v.room_is;
        fits = omega (arith, length-take max_len bytes);
        enough = λ e. elim (take_nothing max_len bytes e) [
          | inl z ↦ inl z
          | inr none_seen ↦ inr (v.ended none_seen)
        ];
      }

  -- On an open stream whose reader, once it has skipped what the last read handed out, holds with the
  -- bytes that the inner stream has left the rest of the peer's messages: `readNoCopy` ends with an
  -- error of the inner stream, or returns a beginning of the text that is left, no longer than asked
  -- for, and nothing only where nothing was asked for or nothing is left. What is left after it can be
  -- read in the same way. Any fuel above the number of bytes that the inner stream has left is enough.
  pub read_no_copy_stream_lem :
      (fuel max_len n : ℕ) (d : CryptoStream) (t : S) (s : SecretHandshakeStream S) (text : Bytes)
      → Awaits c (skip n d).1 (rest t) text
      → length (rest t) ≤ room
      → length (rest t) < fuel
      → Ends of_stream
          (Took c rest max_len room text)
          (read_no_copy_stream c io fuel max_len (reading d n t s))
  unfolding read_no_copy_stream
  read_no_copy_stream_lem fuel max_len n d t s text a within enough =
      then-Ends of_stream (Seen c rest room text) (Took c rest max_len room text)
        (peek_no_copy c io fuel (reading d n t s)) _
        (peek_no_copy-Seen fuel n d t s text a within enough)
        λ bytes s' v. Seen-Took max_len bytes s' text v
