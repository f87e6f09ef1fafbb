-- ===== src/Crouton/Conversation.antt =====
-- crouton/SecretHandshakeStream.cc: what one stream writes and the other reads, after a handshake.
use secret_handshake_capnp.Common.{
  ℕ, ◌≤◌, ◌<◌, ◌≡◌, refl, sym, ap, ◌∙◌, subst, ◌⊎◌, inl, inr, Bytes, List, [], ◌∷◌, ◌++◌, length,
  arith,
}
use secret_handshake_capnp.Crypto.{Crypto, IsCrypto}
use secret_handshake_capnp.Shs.{Session}
use secret_handshake_capnp.Shs.Agreement.{mirror}
use secret_handshake_capnp.Stream.Box.{CryptoBox, compact, encryptor, decryptor}
use secret_handshake_capnp.Stream.Buffer.{CryptoStream, available, new_stream, skip}
use secret_handshake_capnp.Stream.Transport.{flatten_all}
use secret_handshake_capnp.Stream.Transport.Arriving.{Awaits, new-Awaits}
use secret_handshake_capnp.Stream.Transport.Taken.{AllAtLeast, ReadOf, both_reads}
use secret_handshake_capnp.Async.{Reply, returned, Async, ◌>>=◌, pure}
use secret_handshake_capnp.Async.Ends.{Ends, then-Ends, of_stream}
use secret_handshake_capnp.Crouton.Shaking.{IoStream}
use secret_handshake_capnp.Crouton.Wrapped.{SecretHandshakeStream, read_no_copy_stream}
use secret_handshake_capnp.Crouton.Writes.{
  IsCarrying, writing, write_all, write_all-Delivered, sent_over,
}
use secret_handshake_capnp.Crouton.Reads.{
  IsHanding, Took, reading, skip_zero, read_no_copy_stream_lem,
}

-- Calls of `readNoCopy` for at most these sizes; what they return together.
unfoldable pub read_all :
    {S : Type 0} → Crypto → IoStream S → ℕ → List ℕ → Async (SecretHandshakeStream S) Bytes
read_all c io fuel [] = pure []
read_all c io fuel (most ∷ sizes) = do
  bytes ← read_no_copy_stream c io fuel most
  more ← read_all c io fuel sizes
  pure (bytes ++ more)

module _ {c : Crypto} (laws : IsCrypto c) {S : Type 0} {io : IoStream S} {rest : S → Bytes}
    (handing : IsHanding io rest) where
  Took-enough :
      {most room : ℕ} {text : Bytes} (first : Bytes) {s : SecretHandshakeStream S}
      → 1 ≤ most
      → (t : Took c rest most room text first s) → (1 ≤ length first) ⊎ (length t.later < 1)
  Took-enough [] some_size t = elim (t.enough refl) [
    | inl nothing ↦ absurd (omega arith)
    | inr over ↦ inr (omega (arith, ap length t.parts, ap length over))
  ]
  Took-enough (x ∷ xs) some_size t = inl (omega arith)

  read_all-ReadOf :
      (fuel n : ℕ) (sizes : List ℕ) (d : CryptoStream) (t : S) (s : SecretHandshakeStream S)
      (text : Bytes)
      → AllAtLeast 1 sizes
      → Awaits c (skip n d).1 (rest t) text
      → length (rest t) < fuel
      → Ends of_stream
          (λ bytes s'. ReadOf 1 sizes text bytes)
          (read_all c io fuel sizes (reading d n t s))
  unfolding read_all
  read_all-ReadOf fuel n [] d t s text all a enough = record {
    later = text;
    parts = refl;
    enough = inl (omega arith);
  }
  read_all-ReadOf fuel n (most ∷ sizes) d t s text all a enough =
      then-Ends of_stream (Took c rest most (length (rest t)) text)
        (λ bytes s'. ReadOf 1 (most ∷ sizes) text bytes)
        (read_no_copy_stream c io fuel most (reading d n t s)) _
        (read_no_copy_stream_lem laws handing (length (rest t)) fuel most n d t s text a
          (omega arith) enough)
        λ first s' v. rw v.is (
          then-Ends of_stream (λ more s''. ReadOf 1 sizes v.later more)
            (λ bytes s''. ReadOf 1 (most ∷ sizes) text bytes)
            (read_all c io fuel sizes (reading v.reader (length first) v.stream v.base)) _
            (read_all-ReadOf fuel (length first) sizes v.reader v.stream v.base v.later all.1
              v.awaits (omega (arith, v.room_is)))
            λ more s'' r.
              both_reads 1 first more text v.later most sizes v.parts (Took-enough first all.0 v) r)

module _ {c : Crypto} (laws : IsCrypto c) {S T : Type 0} {io : IoStream S} {io' : IoStream T}
    (sent : S → Bytes) (inner : IsCarrying laws io sent) {rest : T → Bytes}
    (handing : IsHanding io' rest) where
  -- Two open streams, new ones, whose sessions mirror one another, as those of two peers do, the first
  -- over an inner stream that has carried nothing yet. All calls of `write` on it return without an error,
  -- if its inner stream carries what is written to it. Where the inner stream of the second hands out just
  -- these bytes, in any pieces, or fails, calls of `readNoCopy`, each for one byte or more, end with an
  -- error of that stream, or return a beginning of the cleartext that was written, together at least a
  -- byte for each call unless all has been read. Any fuel above the number of bytes that the inner stream
  -- hands out is enough.
  pub stream_conversation :
      (key : Bytes) (session : Session) (batches : List (List Bytes)) (sizes : List ℕ) (fuel : ℕ)
      (t : S) (u : T) (a : SecretHandshakeStream S) (b : SecretHandshakeStream T)
      → sent t ≡ []
      → AllAtLeast 1 sizes
      → let writer = writing (new_stream (encryptor session compact)) 0 t a in
        let reader = reading (new_stream (decryptor (mirror key session) compact)) 0 u b in
        let (reply, writer') = write_all laws io batches writer in
        rest u ≡ sent_over laws io (encryptor session compact) sent inner writer'.link.stream
        → length (rest u) < fuel
        → (reply ≡ returned tt)
          × Ends of_stream
              (λ bytes reader'. ReadOf 1 sizes (flatten_all batches) bytes)
              (read_all c io' fuel sizes reader)
  unfolding mirror
  stream_conversation key session batches sizes fuel t u a b empty all wire enough =
      let box : CryptoBox = encryptor session compact in
      let d =
        write_all-Delivered laws io box sent inner batches [] [] (new_stream box) t a
          (record {
            sound = record { within = omega arith; bounded = omega arith };
            messages = [];
            small = tt;
            wire = refl;
            box_is = refl;
            text_is = refl;
          })
          refl empty in
      let arrives : d.out ++ available d.writer ≡ rest u =
        sym d.on_wire
        ∙ ap
            (λ (r : Reply (Unit {0}) × SecretHandshakeStream S).
              sent_over laws io box sent inner r.1.link.stream)
            (sym d.is)
        ∙ sym wire in
      let coming =
        subst (λ y. Awaits c (new_stream box) y (flatten_all batches)) arrives
          (new-Awaits laws box d.out (flatten_all batches) d.writer d.encrypted d.flushed_out) in
      (
        ap (λ (r : Reply (Unit {0}) × SecretHandshakeStream S). r.0) d.is,
        read_all-ReadOf laws handing fuel 0 sizes (new_stream box) u b (flatten_all batches) all
            (rw skip_zero coming) enough,
      )
