-- ===== src/Capnproto/Peers.antt =====
-- src/SecretHandshake.cc and capnproto/SecretConnection.cc: a client and a server, from their first message
-- to the text that they write and read.
use secret_handshake_capnp.Common.{
  ℕ, ◌<◌, ◌≡◌, Bytes, Bool, true, List, [], Option, some, length, Outcome,
}
use secret_handshake_capnp.Crypto.{Crypto, IsCrypto}
use secret_handshake_capnp.Shs.{Session}
use secret_handshake_capnp.Shs.Agreement.{client_session, mirror}
use secret_handshake_capnp.Handshake
use secret_handshake_capnp.Handshake.Trust.{as_client, as_server, start}
use secret_handshake_capnp.Handshake.Stages.{authorized}
use secret_handshake_capnp.Handshake.Complete.{Cuts, owner, converse, converse_completes}
use secret_handshake_capnp.Stream.Transport.{flatten_all}
use secret_handshake_capnp.Stream.Transport.Taken.{AllAtLeast, ReadOf}
use secret_handshake_capnp.Async.{returned, of_outcome}
use secret_handshake_capnp.Async.Ends.{Ends, of_stream}
use secret_handshake_capnp.Capnproto.Connection.{AsyncIoStream, WrappedStream, connected}
use secret_handshake_capnp.Capnproto.Reads.{IsHanding}
use secret_handshake_capnp.Capnproto.Conversation.{IsCarrying, write_all, read_all, conversation}

-- A connection over this stream, once its handshake has come to a session or not.
abbrev pub connection :
    Crypto → {S : Type 0} → AsyncIoStream S → Outcome Session → WrappedStream S → WrappedStream S
connection c io session s = (connected c io (of_outcome session, s)).1

-- Who writes.
pub data Side : Type 0 where
  client server : Side

module _ {c : Crypto} (laws : IsCrypto c) {S T : Type 0} {io : AsyncIoStream S}
    {io' : AsyncIoStream T} (sent : S → Bytes) (inner : IsCarrying io sent) {rest : T → Bytes}
    (handing : IsHanding io' rest) (cut : Bytes → List Bytes) (cuts : Cuts cut)
    (r : Option (Bytes → Bool)) (k a A b B : Bytes)
    (accepted : authorized r (some (c.get_public_key A)) ≡ true) where
  -- The handshakes after the four messages, from a client with the ephemeral key `a` and the long-term
  -- key `A` and a server with `b` and `B`.
  abbrev pub shaken : Handshake.Handshake × Handshake.Handshake
  shaken = converse c cut (
    start c (owner c k A) a (as_client (c.get_public_key B)),
    start c (owner c k B) b (as_server r),
  )

  -- The session of the one who writes, and of the one who reads.
  abbrev pub sessions : Side → Outcome Session × Outcome Session
  sessions client = ((Handshake.session c shaken.0).0, (Handshake.session c shaken.1).0)
  sessions server = ((Handshake.session c shaken.1).0, (Handshake.session c shaken.0).0)

  -- A client and a server with the same app ID, the client asking for the server by its public key, and
  -- the server's authorizer, if there is one, accepting the client's, with primitives that behave as
  -- documented, whose four messages have been sent and have arrived, in pieces of any sizes; either of
  -- them writes, over an inner stream that has carried nothing yet, and the other reads. With the sessions
  -- that they then have, all that is written to the connection of the one returns without an error, if its
  -- inner stream carries it. If the inner stream of the other hands out just these bytes or fails, reads
  -- for a least number of bytes and sizes that are no smaller end with an error of that stream, or return
  -- a beginning of the text, together at least the least number for each read unless fewer are left. Any
  -- fuel above the number of bytes that the inner stream hands out is enough.
  pub peers_converse :
      (writer : Side) (batches : List (List Bytes)) (least : ℕ) (sizes : List ℕ) (fuel : ℕ)
      (s : WrappedStream S) (t : WrappedStream T)
      → sent s.inner ≡ []
      → AllAtLeast least sizes
      → length (rest t.inner) < fuel
      → let (own, other) = sessions writer in
        let (reply, s') = write_all c io batches (connection c io own s) in
        rest t.inner ≡ sent s'.inner
        → (reply ≡ returned tt)
          × Ends of_stream
              (λ bytes t'. ReadOf least sizes (flatten_all batches) bytes)
              (read_all c io' fuel least sizes (connection c io' other t))
  unfolding client_session mirror
  peers_converse client batches least sizes fuel s t empty all enough =
      let (_, _, client_is, server_is) = converse_completes laws k a A b B cut cuts r accepted in
      let session : Session = client_session c k a A b B in
      rw (client_is, server_is)
        (λ wire.
          conversation laws sent inner handing (c.get_public_key A) session batches least sizes fuel
            s t empty all wire enough)
  peers_converse server batches least sizes fuel s t empty all enough =
      let (_, _, client_is, server_is) = converse_completes laws k a A b B cut cuts r accepted in
      let session : Session = mirror (c.get_public_key A) (client_session c k a A b B) in
      rw (client_is, server_is)
        (λ wire.
          conversation laws sent inner handing (c.get_public_key B) session batches least sizes fuel
            s t empty all wire enough)
