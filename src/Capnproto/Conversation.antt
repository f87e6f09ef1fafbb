-- ===== src/Capnproto/Conversation.antt =====
-- capnproto/SecretConnection.cc: what one connection writes and the other reads, after a handshake.
use secret_handshake_capnp.Common.{
  ℕ, ◌≤◌, ◌<◌, ◌≡◌, refl, sym, ap, ◌∙◌, subst, ◌⊎◌, inl, inr, Bytes, List, [], ◌∷◌, ◌++◌, length,
  take_all, append_assoc, append-nil, length-append, arith,
}
use secret_handshake_capnp.Crypto.{Crypto, IsCrypto}
use secret_handshake_capnp.Shs.{Session}
use secret_handshake_capnp.Shs.Agreement.{mirror}
use secret_handshake_capnp.Stream.Box.{CryptoBox, compact, encryptor}
use secret_handshake_capnp.Stream.Buffer.{
  CryptoStream, available, pending, new_stream, pull, pull_lem, skip-pull,
}
use secret_handshake_capnp.Stream.Encryption.Bytewise.{flushed, put_bytes, flushed-IsEncrypting}
use secret_handshake_capnp.Stream.Transport.{flatten, flatten_all}
use secret_handshake_capnp.Stream.Transport.Sender.{Sent, flushed-Sent, put_bytes-Sent, pull-Sent}
use secret_handshake_capnp.Stream.Transport.Arriving.{Awaits, new-Awaits}
use secret_handshake_capnp.Stream.Transport.Taken.{AllAtLeast, ReadOf, both_reads}
use secret_handshake_capnp.Async.{returned, Async, reply_then, ◌>>=◌, pure}
use secret_handshake_capnp.Async.Ends.{Ends, then-Ends, of_stream}
use secret_handshake_capnp.Capnproto.Connection.{
  AsyncIoStream, WrappedStream, connected, write_pieces, try_read,
}
use secret_handshake_capnp.Capnproto.Writes.{encrypting, emptied, after_write, write_lem}
use secret_handshake_capnp.Capnproto.Reads.{IsHanding, Took, decrypting, try_read_lem}

-- An inner stream that carries all that is written to it.
pub record IsCarrying {S : Type 0} (io : AsyncIoStream S) (sent : S → Bytes) : Type 0 where
  pub accepts : (bytes : Bytes) (t : S) → (io.write bytes t).0 ≡ returned tt
  pub carries : (bytes : Bytes) (t : S) → sent (io.write bytes t).1 ≡ sent t ++ bytes

-- Calls of `write`, each when the one before has returned.
unfoldable pub write_all :
    {S : Type 0} → Crypto → AsyncIoStream S → List (List Bytes) → Async (WrappedStream S) (Unit {0})
write_all c io [] s = (returned tt, s)
write_all c io (pieces ∷ batches) s =
    reply_then (write_pieces c io pieces s) λ _. write_all c io batches

-- Calls of `tryRead` for no fewer bytes than the least, and no more than the sizes; what they return
-- together.
unfoldable pub read_all :
    {S : Type 0} → Crypto → AsyncIoStream S → ℕ → ℕ → List ℕ → Async (WrappedStream S) Bytes
read_all c io fuel least [] = pure []
read_all c io fuel least (most ∷ sizes) = do
  bytes ← try_read c io fuel least most
  more ← read_all c io fuel least sizes
  pure (bytes ++ more)

nothing_after : (xs ys : Bytes) → xs ++ ys ≡ xs → ys ≡ []
nothing_after xs [] e = refl
nothing_after xs (y ∷ ys) e = absurd (omega (arith, ap length e, length-append xs (y ∷ ys)))

module _ {c : Crypto} (laws : IsCrypto c) {S : Type 0} {io : AsyncIoStream S} (b : CryptoBox)
    (sent : S → Bytes) (inner : IsCarrying io sent) where
  -- A connection between two calls of `write`.
  record Wrote (text : Bytes) (s : WrappedStream S) : Type 0 where
    writer : CryptoStream
    base : WrappedStream S
    is : s ≡ encrypting writer base
    encrypted : Sent c b (sent base.inner) writer text
    flushed_out : pending writer ≡ []
    handed_out : available writer ≡ []

  emptied_Sent :
      (out text : Bytes) (w : CryptoStream)
      → Sent c b out w text
      → Sent c b (out ++ available w) (emptied w) text
        × (pending (emptied w) ≡ pending w)
        × (available (emptied w) ≡ [])
  emptied_Sent out text w t =
      let n : ℕ = length (available w) in
      let (parts, taken, kept, _, _) = pull_lem n w (record { within = t.sound.within }) in
      let all : (pull n w).0 ≡ available w = taken ∙ take_all n (available w) (omega arith) in
      rw skip-pull (
        subst (λ o. Sent c b (out ++ o) (pull n w).1 text) all (pull-Sent laws b n out w text t),
        kept,
        nothing_after (available w) (available (pull n w).1)
            (ap (λ u. u ++ available (pull n w).1) (sym all) ∙ parts),
      )

  write_all-Wrote :
      (batches : List (List Bytes)) (text : Bytes) (s : WrappedStream S)
      → Wrote text s
      → let (reply, s') = write_all c io batches s in
        (reply ≡ returned tt) × Wrote (text ++ flatten_all batches) s'
  unfolding write_all
  write_all-Wrote [] text s v = (refl, rw append-nil v)
  write_all-Wrote (pieces ∷ batches) text s v =
      let bytes : Bytes = flatten pieces in
      let t : S = v.base.inner in
      let w' : CryptoStream = flushed c (put_bytes c v.writer bytes) in
      let put = put_bytes-Sent laws b (sent t) bytes v.writer text v.encrypted in
      let full = flushed-Sent laws b (sent t) _ (text ++ bytes) put in
      let (e, kept, nothing) = emptied_Sent (sent t) (text ++ bytes) w' full in
      let t' : S = (io.write (available w') t).1 in
      let after : WrappedStream S = encrypting (emptied w') (record v.base { inner = t' }) in
      let step : write_pieces c io pieces s ≡ (returned tt, after) =
        ap (write_pieces c io pieces) v.is
        ∙ (write_lem laws io pieces v.writer v.base v.encrypted.sound).0
        ∙ ap (λ r. after_write w' v.base (r, t')) (inner.accepts (available w') t) in
      rw (step, ← append_assoc)
        (write_all-Wrote batches (text ++ bytes) after (record {
          writer = emptied w';
          base = record v.base { inner = t' };
          is = refl;
          encrypted =
              subst (λ o. Sent c b o (emptied w') (text ++ bytes))
                (sym (inner.carries (available w') t)) e;
          flushed_out = kept ∙ (flushed-IsEncrypting laws _ put.sound).1;
          handed_out = nothing;
        }))

module _ {c : Crypto} (laws : IsCrypto c) {S : Type 0} {io : AsyncIoStream S} {rest : S → Bytes}
    (handing : IsHanding io rest) (least : ℕ) where
  Took-enough :
      {most room : ℕ} {text first : Bytes} {s : WrappedStream S}
      (t : Took c rest least most room text first s)
      → (least ≤ length first) ⊎ (length t.later < least)
  Took-enough t = elim t.enough [ inl got ↦ inl got | inr (_, _, few) ↦ inr few ]

  read_all-ReadOf :
      (fuel : ℕ) (sizes : List ℕ) (d : CryptoStream) (s : WrappedStream S) (text : Bytes)
      → AllAtLeast least sizes
      → Awaits c d (rest s.inner) text
      → length (rest s.inner) < fuel
      → Ends of_stream
          (λ bytes s'. ReadOf least sizes text bytes)
          (read_all c io fuel least sizes (decrypting d s))
  unfolding read_all
  read_all-ReadOf fuel [] d s text all a enough = record {
    later = text;
    parts = refl;
    enough = inl (omega arith);
  }
  read_all-ReadOf fuel (most ∷ sizes) d s text all a enough =
      then-Ends of_stream (Took c rest least most (length (rest s.inner)) text)
        (λ bytes s'. ReadOf least (most ∷ sizes) text bytes)
        (try_read c io fuel least most (decrypting d s)) _
        (try_read_lem laws handing least most (length (rest s.inner)) all.0 fuel d s text a
          (omega arith) enough)
        λ first s' t. rw t.is (
          then-Ends of_stream (λ more s''. ReadOf least sizes t.later more)
            (λ bytes s''. ReadOf least (most ∷ sizes) text bytes)
            (read_all c io fuel least sizes (decrypting t.decryptor t.base)) _
            (read_all-ReadOf fuel sizes t.decryptor t.base t.later all.1 t.awaits
              (omega (arith, t.room_is)))
            λ more s'' r.
              both_reads least first more text t.later most sizes t.parts (Took-enough t) r)

module _ {c : Crypto} (laws : IsCrypto c) {S T : Type 0} {io : AsyncIoStream S}
    {io' : AsyncIoStream T} (sent : S → Bytes) (inner : IsCarrying io sent) {rest : T → Bytes}
    (handing : IsHanding io' rest) where
  -- Two connections whose handshakes gave sessions that mirror one another, as those of two peers do,
  -- the first over an inner stream that has carried nothing yet. All calls of `write` on it return without
  -- an error, if its inner stream carries what is written to it. Where the inner stream of the second
  -- hands out just these bytes, in any pieces, or fails, calls of `tryRead` for a least number of bytes
  -- and sizes that are no smaller end with an error of that stream, or return a beginning of the
  -- cleartext that was written, together at least the least number for each call unless fewer are left.
  -- Any fuel above the number of bytes that the inner stream hands out is enough.
  pub conversation :
      (key : Bytes) (session : Session) (batches : List (List Bytes)) (least : ℕ) (sizes : List ℕ)
      (fuel : ℕ) (a : WrappedStream S) (b : WrappedStream T)
      → sent a.inner ≡ []
      → AllAtLeast least sizes
      → let (_, writer) = connected c io (returned session, a) in
        let (_, reader) = connected c io' (returned (mirror key session), b) in
        let (reply, writer') = write_all c io batches writer in
        rest b.inner ≡ sent writer'.inner
        → length (rest b.inner) < fuel
        → (reply ≡ returned tt)
          × Ends of_stream
              (λ bytes reader'. ReadOf least sizes (flatten_all batches) bytes)
              (read_all c io' fuel least sizes reader)
  unfolding mirror
  conversation key session batches least sizes fuel a b empty all wire enough =
      let box : CryptoBox = encryptor session compact in
      let (_, writer) = connected c io (returned session, a) in
      let (done, w) = write_all-Wrote laws box sent inner batches [] writer (record {
        writer = new_stream box;
        base = writer;
        is = refl;
        encrypted = record {
          sound = record { within = omega arith; bounded = omega arith };
          messages = [];
          small = tt;
          wire = ap (λ u. u ++ []) empty;
          box_is = refl;
          text_is = refl;
        };
        flushed_out = refl;
        handed_out = refl;
      }) in
      let arrives : sent w.base.inner ++ available w.writer ≡ rest b.inner =
        ap (◌++◌ (sent w.base.inner)) w.handed_out
        ∙ append-nil (sent w.base.inner)
        ∙ ap (λ (s : WrappedStream S). sent s.inner) (sym w.is)
        ∙ sym wire in
      let (_, reader) = connected c io' (returned (mirror key session), b) in
      (
        done,
        read_all-ReadOf laws handing least fuel sizes (new_stream box) reader (flatten_all batches)
            all
            (subst (λ y. Awaits c (new_stream box) y (flatten_all batches)) arrives
              (new-Awaits laws box _ (flatten_all batches) w.writer w.encrypted w.flushed_out))
            enough,
      )
