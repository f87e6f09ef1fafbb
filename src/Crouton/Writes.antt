-- ===== src/Crouton/Writes.antt =====
-- crouton/SecretHandshakeStream.cc, `write`: what an open stream puts on the inner stream.
use secret_handshake_capnp.Common.{
  ℕ, ◌≡◌, refl, sym, ap, ◌∙◌, subst, Bytes, true, List, [], ◌∷◌, ◌++◌, length, Option, none, some,
  ok, take_all, append_assoc, append-nil, arith,
}
use secret_handshake_capnp.Crypto.{Crypto, IsCrypto}
use secret_handshake_capnp.Stream.Box.{CryptoBox}
use secret_handshake_capnp.Stream.Buffer.{
  CryptoStream, available, pending, new_stream, pull, pull_lem, skip-pull,
}
use secret_handshake_capnp.Stream.Encryption.Bytewise.{
  IsEncrypting, flushed, put_bytes, put_bytes-append, flush_lem, flushed-IsEncrypting,
  push_partial_lem,
}
use secret_handshake_capnp.Stream.Transport.{flatten, flatten_all}
use secret_handshake_capnp.Stream.Transport.Sender.{Sent, flushed-Sent, put_bytes-Sent, pull-Sent}
use secret_handshake_capnp.Stream.Transport.Delivery.{push_all, deliver}
use secret_handshake_capnp.Async.{Reply, returned, Async, reply_then}
use secret_handshake_capnp.Crouton.Shaking.{IoStream}
use secret_handshake_capnp.Crouton.Wrapped.{SecretHandshakeStream, push_each, write_stream}

abbrev with_writer : {S : Type 0} → CryptoStream → SecretHandshakeStream S → SecretHandshakeStream S
with_writer w s = record s { writer = some w }

-- An open stream with this writer, of which the last call wrote so many bytes, and this inner stream.
abbrev pub writing :
    {S : Type 0} → CryptoStream → ℕ → S → SecretHandshakeStream S → SecretHandshakeStream S
writing w n t s = record s {
  writer = some w;
  last_write_size = n;
  link = record s.link { stream = some t };
  opened = true;
}

-- The writer after a call: what the last one wrote is gone, and the buffers are encrypted.
abbrev pub written : Crypto → ℕ → List Bytes → CryptoStream → CryptoStream
written c n buffers w = flushed c (put_bytes c (pull n w).1 (flatten buffers))

module _ {c : Crypto} (laws : IsCrypto c) {S : Type 0} (io : IoStream S) where
  push_each_lem :
      (buffers : List Bytes) (w : CryptoStream) (s : SecretHandshakeStream S)
      → IsEncrypting w
      → (push_each c io buffers (with_writer w s)
          ≡ (returned tt, with_writer (put_bytes c w (flatten buffers)) s))
        × IsEncrypting (put_bytes c w (flatten buffers))
  unfolding put_bytes
  push_each_lem [] w s v = (refl, v)
  push_each_lem (x ∷ buffers) w s v =
      let (pushed, v') = push_partial_lem laws x w v in
      let (rest, v'') = push_each_lem buffers (put_bytes c w x) s v' in
      rw (pushed, put_bytes-append) (rest, v'')

  pulled-IsEncrypting : (n : ℕ) (w : CryptoStream) → IsEncrypting w → IsEncrypting (pull n w).1
  pulled-IsEncrypting n w v =
      let (_, _, kept, _, v') = pull_lem n w (record { within = v.within }) in
      record { within = v'.within; bounded = rw kept v.bounded }

  -- A call of `write` on an open stream hands the inner stream just the bytes that the writer then has
  -- available, remembers their number for the next call, and returns what the inner stream returns.
  pub write_stream_lem :
      (buffers : List Bytes) (n : ℕ) (w : CryptoStream) (t : S) (s : SecretHandshakeStream S)
      → IsEncrypting w
      → let w' = written c n buffers w in
        let (reply, t') = io.write (available w') t in
        write_stream c io buffers (writing w n t s)
        ≡ (reply, writing w' (length (available w')) t' s)
  unfolding write_stream
  write_stream_lem buffers n w t s v =
      let u = pulled-IsEncrypting n w v in
      let (pushed, v') = push_each_lem buffers (pull n w).1 (writing w 0 t s) u in
      rw (skip-pull, pushed, flush_lem laws (put_bytes c (pull n w).1 (flatten buffers)) v') refl

  -- Calls of `write`, each when the one before has returned.
  unfoldable pub write_all : List (List Bytes) → Async (SecretHandshakeStream S) (Unit {0})
  write_all [] s = (returned tt, s)
  write_all (buffers ∷ batches) s = reply_then (write_stream c io buffers s) λ _. write_all batches

  -- An inner stream that carries all that is written to it.
  pub record IsCarrying (sent : S → Bytes) : Type 0 where
    pub accepts : (bytes : Bytes) (t : S) → (io.write bytes t).0 ≡ returned tt
    pub carries : (bytes : Bytes) (t : S) → sent (io.write bytes t).1 ≡ sent t ++ bytes

  module _ (b : CryptoBox) (sent : S → Bytes) (inner : IsCarrying sent) where
    pub record Delivered (r : Reply (Unit {0}) × SecretHandshakeStream S) (text : Bytes)
        : Type 0 where
      pub out : Bytes
      pub writer : CryptoStream
      pub stream : S
      pub rest : SecretHandshakeStream S
      pub is : r ≡ (returned tt, writing writer (length (available writer)) stream rest)
      pub encrypted : Sent c b out writer text
      pub flushed_out : pending writer ≡ []
      pub on_wire : sent stream ≡ out ++ available writer

    written_Sent :
        (buffers : List Bytes) (out text : Bytes) (w : CryptoStream)
        → Sent c b out w text
        → let n : ℕ = length (available w) in
          Sent c b (out ++ available w) (written c n buffers w) (text ++ flatten buffers)
          × (pending (written c n buffers w) ≡ [])
    written_Sent buffers out text w t =
        let n : ℕ = length (available w) in
        let (_, taken, _, _, _) = pull_lem n w (record { within = t.sound.within }) in
        let all : (pull n w).0 ≡ available w = taken ∙ take_all n (available w) (omega arith) in
        let pulled =
          subst (λ o. Sent c b (out ++ o) (pull n w).1 text) all
            (pull-Sent laws b n out w text t) in
        let put =
          put_bytes-Sent laws b (out ++ available w) (flatten buffers) (pull n w).1 text pulled in
        (
          flushed-Sent laws b (out ++ available w) _ (text ++ flatten buffers) put,
          (flushed-IsEncrypting laws _ put.sound).1,
        )

    pub write_all-Delivered :
        (batches : List (List Bytes)) (out text : Bytes) (w : CryptoStream) (t : S)
        (s : SecretHandshakeStream S)
        → Sent c b out w text
        → pending w ≡ []
        → sent t ≡ out ++ available w
        → Delivered
            (write_all batches (writing w (length (available w)) t s))
            (text ++ flatten_all batches)
    unfolding write_all
    write_all-Delivered [] out text w t s e p q = record {
      out = out;
      writer = w;
      stream = t;
      rest = s;
      is = refl;
      encrypted = rw append-nil e;
      flushed_out = p;
      on_wire = q;
    }
    write_all-Delivered (buffers ∷ batches) out text w t s e p q =
        let n : ℕ = length (available w) in
        let w' : CryptoStream = written c n buffers w in
        let t' : S = (io.write (available w') t).1 in
        let (e', p') = written_Sent buffers out text w e in
        let q' : sent t' ≡ (out ++ available w) ++ available w' =
          inner.carries (available w') t ∙ ap (λ u. u ++ available w') q in
        let step : write_stream c io buffers (writing w n t s)
            ≡ (returned tt, writing w' (length (available w')) t' s) =
          write_stream_lem buffers n w t s e.sound
          ∙ ap (λ r. (r, writing w' (length (available w')) t' s))
              (inner.accepts (available w') t) in
        rw (step, ← append_assoc)
          (write_all-Delivered batches (out ++ available w) (text ++ flatten buffers) w' t' s e' p'
            q')

    -- What was written to the inner stream, if there is one.
    abbrev pub sent_over : Option S → Bytes
    sent_over none = []
    sent_over (some t) = sent t

    -- On a stream that was just opened, over an inner stream that carries what is written to it: all
    -- calls of `write` return without an error, and when the other end's `DecryptionStream`, with the
    -- same key and nonce, gets the bytes that were sent, in any pieces, it finds no corrupt data and
    -- has decrypted all the cleartext of all the calls.
    pub writes_delivered :
        (batches : List (List Bytes)) (x : Bytes) (pieces : List Bytes) (t : S)
        (s : SecretHandshakeStream S)
        → sent t ≡ []
        → let (reply, s') = write_all batches (writing (new_stream b) 0 t s) in
          let (verdict, receiver) = push_all c x pieces (new_stream b) in
          x ++ flatten pieces ≡ sent_over s'.link.stream
          → (reply ≡ returned tt)
            × (verdict ≡ ok true)
            × (available receiver ≡ flatten_all batches)
            × (pending receiver ≡ [])
    writes_delivered batches x pieces t s empty wire =
        let d =
          write_all-Delivered batches [] [] (new_stream b) t s
            (record {
              sound = record { within = omega arith; bounded = omega arith };
              messages = [];
              small = tt;
              wire = refl;
              box_is = refl;
              text_is = refl;
            })
            refl empty in
        let same : x ++ flatten pieces ≡ d.out ++ available d.writer =
          wire
          ∙ ap (λ (r : Reply (Unit {0}) × SecretHandshakeStream S). sent_over r.1.link.stream) d.is
          ∙ d.on_wire in
        let (good, text, _, nothing_left) = deliver laws b x pieces d.encrypted same in
        let receiver : CryptoStream = (push_all c x pieces (new_stream b)).1 in
        (
          ap (λ (r : Reply (Unit {0}) × SecretHandshakeStream S). r.0) d.is,
          good,
          sym (append-nil (available receiver))
              ∙ ap (◌++◌ (available receiver)) (sym d.flushed_out)
              ∙ text,
          nothing_left,
        )
