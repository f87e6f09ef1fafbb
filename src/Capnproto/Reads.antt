-- ===== src/Capnproto/Reads.antt =====
-- capnproto/SecretConnection.cc, the method `tryRead`.
use secret_handshake_capnp.Common.{
  ℕ, zero, suc, ◌≤◌, ◌<◌, ◌≡◌, refl, sym, ap, ◌∙◌, subst, ◌⊎◌, inl, inr, Bytes, true, false, [],
  ◌∷◌, ◌++◌, length, is_empty, if◌then◌else◌, ltb, some, Bool-cases, length-append, length-take,
  arith,
}
use secret_handshake_capnp.Crypto.{Crypto, IsCrypto}
use secret_handshake_capnp.Stream.Buffer.{CryptoStream, available, pull, pull_lem}
use secret_handshake_capnp.Stream.Decryption.{push}
use secret_handshake_capnp.Stream.Transport.Arriving.{
  Awaits, push-Awaits, pull-Awaits, nothing_coming,
}
use secret_handshake_capnp.Async.{Reply, returned, failed, Async, reply_then, ◌>>=◌, ◌>>◌, pure}
use secret_handshake_capnp.Async.Ends.{Ends, of_stream}
use secret_handshake_capnp.Capnproto.Connection.{
  AsyncIoStream, WrappedStream, on_decryptor, check_good, try_read,
}

-- A connection with this decryptor.
abbrev pub decrypting : {S : Type 0} → CryptoStream → WrappedStream S → WrappedStream S
decrypting d s = record s { decryptor = some d }

-- An inner stream on which bytes are still to come: `tryRead`, asked for one byte or more, hands out the
-- first of them, and nothing only when there are none left; or it fails.
pub record IsHanding {S : Type 0} (io : AsyncIoStream S) (rest : S → Bytes) : Type 0 where
  pub hands :
      (most : ℕ) (t : S)
      → 1 ≤ most
      → Ends of_stream
          (λ bytes t'.
            (bytes ++ rest t' ≡ rest t) × (length bytes ≤ most) × (bytes ≡ [] → rest t ≡ []))
          (io.try_read 1 most t)

module _ {S : Type 0} (c : Crypto) (rest : S → Bytes) (min_bytes max_bytes room : ℕ)
    (text : Bytes) where
  -- What a read takes from the text that is left, on an inner stream with so many bytes at most.
  pub record Took (bytes : Bytes) (s : WrappedStream S) : Type 0 where
    pub decryptor : CryptoStream
    pub base : WrappedStream S
    pub is : s ≡ decrypting decryptor base
    pub later : Bytes
    pub parts : bytes ++ later ≡ text
    pub awaits : Awaits c decryptor (rest base.inner) later
    pub room_is : length (rest base.inner) ≤ room
    pub fits : length bytes ≤ max_bytes
    pub enough :
        (min_bytes ≤ length bytes)
        ⊎ ((bytes ≡ []) × (rest base.inner ≡ []) × (length later < min_bytes))

module _ {c : Crypto} (laws : IsCrypto c) {S : Type 0} {io : AsyncIoStream S} {rest : S → Bytes}
    (handing : IsHanding io rest) (min_bytes max_bytes room : ℕ)
    (ordered : min_bytes ≤ max_bytes) where
  -- Enough is decrypted.
  ready-Took :
      (d : CryptoStream) (s : WrappedStream S) (text : Bytes)
      → Awaits c d (rest s.inner) text
      → length (rest s.inner) ≤ room
      → ltb (length (available d)) min_bytes ≡ false
      → let (bytes, d') = pull max_bytes d in
        Took c rest min_bytes max_bytes room text bytes (decrypting d' s)
  ready-Took d s text a within ready =
      let (later, parts, awaits) = pull-Awaits laws max_bytes d (rest s.inner) text a in
      let (_, taken, _, _, _) = pull_lem max_bytes d a.coming.sound in
      let size = ap length taken ∙ length-take max_bytes (available d) in
      record {
        decryptor = (pull max_bytes d).1;
        base = s;
        is = refl;
        later = later;
        parts = parts;
        awaits = awaits;
        room_is = within;
        fits = omega (arith, size);
        enough = inl (ground (arith, size));
      }

  -- Nothing more comes, and less than was asked for is left.
  ended-Took :
      (d : CryptoStream) (s : WrappedStream S) (text : Bytes)
      → Awaits c d (rest s.inner) text
      → length (rest s.inner) ≤ room
      → rest s.inner ≡ []
      → ltb (length (available d)) min_bytes ≡ true
      → Took c rest min_bytes max_bytes room text [] (decrypting d s)
  ended-Took d s text a within over short =
      let (all, _) = nothing_coming laws d text (subst (λ y. Awaits c d y text) over a) in
      record {
        decryptor = d;
        base = s;
        is = refl;
        later = text;
        parts = refl;
        awaits = a;
        room_is = within;
        fits = omega arith;
        enough = inr (refl, over, ground (arith, ap length all));
      }

  -- How `tryRead` goes on when the inner stream has answered.
  abbrev arrived : Async (WrappedStream S) Bytes → Bytes → Async (WrappedStream S) Bytes
  arrived again bytes =
      if is_empty bytes
      then pure []
      else (do good ← on_decryptor (push c bytes); check_good c io good; again)

  arrived-Took :
      (again : Async (WrappedStream S) Bytes) (fuel : ℕ) (d : CryptoStream) (s : WrappedStream S)
      (text : Bytes)
      → Awaits c d (rest s.inner) text
      → ltb (length (available d)) min_bytes ≡ true
      → ((d' : CryptoStream) (s' : WrappedStream S) (text' : Bytes)
          → Awaits c d' (rest s'.inner) text'
          → length (rest s'.inner) ≤ room
          → length (rest s'.inner) < fuel
          → Ends of_stream (Took c rest min_bytes max_bytes room text') (again (decrypting d' s')))
      → length (rest s.inner) ≤ room
      → length (rest s.inner) ≤ fuel
      → (r : Reply Bytes × S)
      → Ends of_stream
          (λ bytes t.
            (bytes ++ rest t ≡ rest s.inner)
            × (length bytes ≤ max_bytes)
            × (bytes ≡ [] → rest s.inner ≡ []))
          r
      → Ends of_stream
          (Took c rest min_bytes max_bytes room text)
          (reply_then (r.0, record (decrypting d s) { inner = r.1 }) (arrived again))
  arrived-Took again fuel d s text a short next within enough (failed e, t) h = h
  arrived-Took again fuel d s text a short next within enough (returned [], t) (parts, fits, end) =
      let moved : WrappedStream S = record s { inner = t } in
      ended-Took d moved text (subst (λ y. Awaits c d y text) (sym parts) a)
        (omega (arith, ap length parts)) (parts ∙ end refl) short
  arrived-Took again fuel d s text a short next within enough (returned (x ∷ xs), t)
        (parts, fits, end) =
      let bytes : Bytes = x ∷ xs in
      let moved : WrappedStream S = record s { inner = t } in
      let (good, a') =
        push-Awaits laws bytes d (rest t) text (subst (λ y. Awaits c d y text) (sym parts) a) in
      rw good (
        next (push c bytes d).1 moved text a'
          (omega (arith, ap length parts, length-append bytes (rest t)))
          (omega (arith, ap length parts, length-append bytes (rest t))))

  -- On a connection whose decryptor, with the bytes that its inner stream has left, holds the rest of the
  -- peer's messages: `tryRead` for a least number of bytes and a greatest, which is no smaller, ends with an error of the
  -- inner stream, or returns a beginning of the text that is left, no longer than the greatest number
  -- and no shorter than the least, unless the inner stream has ended and fewer bytes than the least are
  -- left: then it returns none of them. What is left after it can be read in the same way. Any fuel
  -- above the number of bytes that the inner stream has left is enough.
  pub try_read_lem :
      (fuel : ℕ) (d : CryptoStream) (s : WrappedStream S) (text : Bytes)
      → Awaits c d (rest s.inner) text
      → length (rest s.inner) ≤ room
      → length (rest s.inner) < fuel
      → Ends of_stream
          (Took c rest min_bytes max_bytes room text)
          (try_read c io fuel min_bytes max_bytes (decrypting d s))
  unfolding try_read
  try_read_lem zero d s text a within enough = absurd (omega arith)
  try_read_lem (suc fuel) d s text a within enough =
      elim (Bool-cases (ltb (length (available d)) min_bytes)) [
        | inr ready ↦ rw ready (ready-Took d s text a within ready)
        | inl short ↦ rw short (
            arrived-Took (try_read c io fuel min_bytes max_bytes) fuel d s text a short
              (try_read_lem fuel) within (omega arith) (io.try_read 1 max_bytes s.inner)
              (handing.hands max_bytes s.inner (ground arith)))
      ]
