-- ===== src/Crouton/Reads/Filling.antt =====
-- crouton/SecretHandshakeStream.cc, the loop of `peekNoCopy`: it ends, with what is available.
use secret_handshake_capnp.Common.{
  ℕ, zero, suc, ◌≤◌, ◌<◌, ◌≡◌, refl, sym, ap, ◌∙◌, subst, inl, inr, Bytes, true, false, [], ◌∷◌,
  ◌++◌, length, is_empty, if◌then◌else◌, some, Bool-cases, length-append, length-drop, ◌==◌, arith,
}
use secret_handshake_capnp.Crypto.{Crypto, IsCrypto}
use secret_handshake_capnp.Stream.Buffer.{CryptoStream, available}
use secret_handshake_capnp.Stream.Decryption
use secret_handshake_capnp.Stream.Transport.Receiver.{nothing_incomplete}
use secret_handshake_capnp.Stream.Transport.Arriving.{Awaits, push-Awaits, nothing_coming}
use secret_handshake_capnp.Async.{Reply, returned, failed, Async, reply_then, ◌>>=◌}
use secret_handshake_capnp.Async.Ends.{Ends, of_stream}
use secret_handshake_capnp.Crouton.Shaking.{IoStream}
use secret_handshake_capnp.Crouton.Wrapped.{
  SecretHandshakeStream, on_reader, at_end, close_corrupt, fill_reader,
}

-- An open stream with this reader, of whose bytes the last read handed out so many, and this inner
-- stream.
abbrev pub reading :
    {S : Type 0} → CryptoStream → ℕ → S → SecretHandshakeStream S → SecretHandshakeStream S
reading d n t s = record s {
  reader = some d;
  last_read_size = n;
  link = record s.link { stream = some t };
  opened = true;
}

-- An inner stream on which bytes are still to come: `readNoCopy` hands out the first of them, and
-- nothing only when there are none left; or it fails.
pub record IsHanding {S : Type 0} (io : IoStream S) (rest : S → Bytes) : Type 0 where
  pub hands :
      (t : S)
      → Ends of_stream
          (λ bytes t'. (bytes ++ rest t' ≡ rest t) × (bytes ≡ [] → rest t ≡ []))
          (io.read_no_copy t)

module _ {S : Type 0} (c : Crypto) (rest : S → Bytes) (room : ℕ) (text : Bytes) where
  -- What is seen of the text that is left, on an inner stream with so many bytes at most.
  pub record Seen (bytes : Bytes) (s : SecretHandshakeStream S) : Type 0 where
    pub reader : CryptoStream
    pub stream : S
    pub base : SecretHandshakeStream S
    pub is : s ≡ reading reader 0 stream base
    pub awaits : Awaits c reader (rest stream) text
    pub room_is : length (rest stream) ≤ room
    pub all_ready : bytes ≡ available reader
    pub ended : bytes ≡ [] → text ≡ []

empty_is : (bytes : Bytes) → is_empty bytes ≡ true → bytes ≡ []
empty_is [] e = refl
empty_is (x ∷ bytes) e = cc

module _ {c : Crypto} (laws : IsCrypto c) {S : Type 0} {io : IoStream S} {rest : S → Bytes}
    (handing : IsHanding io rest) (room : ℕ) where
  ready-Seen :
      (d : CryptoStream) (t : S) (s : SecretHandshakeStream S) (text : Bytes)
      → Awaits c d (rest t) text
      → length (rest t) ≤ room
      → is_empty (available d) ≡ false
      → Seen c rest room text (available d) (reading d 0 t s)
  ready-Seen d t s text a within ready = record {
    reader = d;
    stream = t;
    base = s;
    is = refl;
    awaits = a;
    room_is = within;
    all_ready = refl;
    ended = λ e. let same = ap is_empty e in cc;
  }

  -- How `peekNoCopy` goes on when the inner stream has answered.
  abbrev arrived :
      Async (SecretHandshakeStream S) Bytes → Bytes → Async (SecretHandshakeStream S) Bytes
  arrived again bytes = if is_empty bytes then at_end c io else (do
    good ← on_reader c io (Decryption.push c bytes)
    if good then again else close_corrupt c io)

  ended-Seen :
      (d : CryptoStream) (t : S) (s : SecretHandshakeStream S) (text : Bytes)
      → Awaits c d (rest t) text
      → rest t ≡ []
      → available d ≡ []
      → Ends of_stream (Seen c rest room text) (at_end c io (reading d 0 t s))
  unfolding Decryption.close
  ended-Seen d t s text a over nothing =
      let (all, whole) = nothing_coming laws d text (subst (λ y. Awaits c d y text) over a) in
      let none_left : text ≡ [] = sym all ∙ nothing in
      let closed : CryptoStream = record { buffer = []; processed = 0; box = d.box } in
      let same : length d.buffer ≡ d.processed =
        omega (arith, ap length whole, length-drop d.processed d.buffer, a.coming.sound.within) in
      let full : (length d.buffer == d.processed) ≡ true = rw same (ground arith) in
      rw full (record {
        reader = closed;
        stream = t;
        base = s;
        is = refl;
        awaits = record {
          coming = record {
            sound = record { within = omega arith };
            messages = [];
            small = tt;
            encrypted = over;
            text_is = sym none_left;
          };
          drained = nothing_incomplete c closed refl;
        };
        room_is = omega (arith, ap length over);
        all_ready = refl;
        ended = λ e. none_left;
      })

  arrived-Seen :
      (again : Async (SecretHandshakeStream S) Bytes) (fuel : ℕ) (d : CryptoStream) (t : S)
      (s : SecretHandshakeStream S) (text : Bytes)
      → Awaits c d (rest t) text
      → available d ≡ []
      → ((d' : CryptoStream) (t' : S) (s' : SecretHandshakeStream S)
          → Awaits c d' (rest t') text
          → length (rest t') ≤ room
          → length (rest t') < fuel
          → Ends of_stream (Seen c rest room text) (again (reading d' 0 t' s')))
      → length (rest t) ≤ room
      → length (rest t) ≤ fuel
      → (r : Reply Bytes × S)
      → Ends of_stream (λ bytes t'. (bytes ++ rest t' ≡ rest t) × (bytes ≡ [] → rest t ≡ [])) r
      → Ends of_stream (Seen c rest room text) (reply_then (r.0, reading d 0 r.1 s) (arrived again))
  arrived-Seen again fuel d t s text a nothing next within enough (failed e, t') h = h
  arrived-Seen again fuel d t s text a nothing next within enough (returned [], t') (parts, end) =
      ended-Seen d t' s text (subst (λ y. Awaits c d y text) (sym parts) a) (parts ∙ end refl)
        nothing
  arrived-Seen again fuel d t s text a nothing next within enough (returned (x ∷ xs), t')
        (parts, end) =
      let bytes : Bytes = x ∷ xs in
      let (good, a') =
        push-Awaits laws bytes d (rest t') text (subst (λ y. Awaits c d y text) (sym parts) a) in
      rw good (
        next (Decryption.push c bytes d).1 t' s a'
          (omega (arith, ap length parts, length-append bytes (rest t')))
          (omega (arith, ap length parts, length-append bytes (rest t'))))

  pub fill_reader-Seen :
      (fuel : ℕ) (d : CryptoStream) (t : S) (s : SecretHandshakeStream S) (text : Bytes)
      → Awaits c d (rest t) text
      → length (rest t) ≤ room
      → length (rest t) < fuel
      → Ends of_stream (Seen c rest room text) (fill_reader c io fuel (reading d 0 t s))
  unfolding fill_reader
  fill_reader-Seen zero d t s text a within enough = absurd (omega arith)
  fill_reader-Seen (suc fuel) d t s text a within enough =
      elim (Bool-cases (is_empty (available d))) [
        | inr ready ↦ rw ready (ready-Seen d t s text a within ready)
        | inl waits ↦ rw waits (
            arrived-Seen (fill_reader c io fuel) fuel d t s text a (empty_is (available d) waits)
              (λ d' t' s'. fill_reader-Seen fuel d' t' s' text) within (omega arith)
              (io.read_no_copy t) (handing.hands t))
      ]
