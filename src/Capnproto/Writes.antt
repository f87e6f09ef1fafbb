-- ===== src/Capnproto/Writes.antt =====
-- capnproto/SecretConnection.cc, the two methods `write`.
use secret_handshake_capnp.Common.{◌≡◌, refl, Bytes, List, [], ◌∷◌, length, some}
use secret_handshake_capnp.Crypto.{Crypto, IsCrypto}
use secret_handshake_capnp.Stream.Buffer.{CryptoStream, available, skip}
use secret_handshake_capnp.Stream.Encryption.Bytewise.{
  IsEncrypting, flushed, put_bytes, put_bytes-append, flush_lem, push_partial_lem,
}
use secret_handshake_capnp.Stream.Transport.{flatten}
use secret_handshake_capnp.Stream.Transport.Sender.{push_lem}
use secret_handshake_capnp.Async.{Reply, returned, failed, reply_then}
use secret_handshake_capnp.Capnproto.Connection.{
  AsyncIoStream, WrappedStream, push_pieces, skip_written, write, write_pieces,
}

-- A connection with this encryptor.
abbrev pub encrypting : {S : Type 0} → CryptoStream → WrappedStream S → WrappedStream S
encrypting w s = record s { encryptor = some w }

-- The encryptor after a call whose bytes the inner stream took: they are gone.
abbrev pub emptied : CryptoStream → CryptoStream
emptied w = (skip (length (available w)) w).1

-- How a call goes on, by the reply of the inner stream.
abbrev pub after_write :
    {S : Type 0}
    → CryptoStream
    → WrappedStream S
    → Reply (Unit {0}) × S
    → Reply (Unit {0}) × WrappedStream S
after_write w s (returned a, t) = (returned tt, record (encrypting (emptied w) s) { inner = t })
after_write w s (failed e, t) = (failed e, record (encrypting w s) { inner = t })

module _ {c : Crypto} (laws : IsCrypto c) {S : Type 0} (io : AsyncIoStream S) where
  push_pieces_lem :
      (pieces : List Bytes) (w : CryptoStream) (s : WrappedStream S)
      → IsEncrypting w
      → (push_pieces c io pieces (encrypting w s)
          ≡ (returned tt, encrypting (put_bytes c w (flatten pieces)) s))
        × IsEncrypting (put_bytes c w (flatten pieces))
  unfolding put_bytes
  push_pieces_lem [] w s v = (refl, v)
  push_pieces_lem (piece ∷ pieces) w s v =
      let (pushed, v') = push_partial_lem laws piece w v in
      let (rest, v'') = push_pieces_lem pieces (put_bytes c w piece) s v' in
      rw (pushed, put_bytes-append) (rest, v'')

  after_write_lem :
      (w : CryptoStream) (s : WrappedStream S) (r : Reply (Unit {0}) × S)
      → reply_then
          (r.0, record (encrypting w s) { inner = r.1 })
          (λ a s'. skip_written c io (length (available w)) s')
        ≡ after_write w s r
  after_write_lem w s (returned a, t) = refl
  after_write_lem w s (failed e, t) = refl

  -- On a connection whose encryptor is sound, both methods `write` do the same: they hand the inner
  -- stream the bytes that the encryptor then has available, in one call. If the inner stream takes them,
  -- `write` returns and the encryptor's available bytes are skipped; if it fails, they stay.
  pub write_lem :
      (pieces : List Bytes) (w : CryptoStream) (s : WrappedStream S)
      → IsEncrypting w
      → let w' = flushed c (put_bytes c w (flatten pieces)) in
        let result = after_write w' s (io.write (available w') s.inner) in
        (write_pieces c io pieces (encrypting w s) ≡ result)
        × (write c io (flatten pieces) (encrypting w s) ≡ result)
  unfolding write write_pieces
  write_lem pieces w s v =
      let bytes : Bytes = flatten pieces in
      let w' : CryptoStream = flushed c (put_bytes c w bytes) in
      let (pushed, v') = push_pieces_lem pieces w s v in
      let last = after_write_lem w' s (io.write (available w') s.inner) in
      (
        rw (pushed, flush_lem laws (put_bytes c w bytes) v') last,
        rw (push_lem laws w.box bytes w v) last,
      )
