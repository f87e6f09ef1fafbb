-- ===== src/Capnproto/Settles.antt =====
-- capnproto/SecretConnection.cc, `StreamWrapper::wrap`: how the making of a connection ends.
use secret_handshake_capnp.Common.{ℕ, ◌≤◌, ◌≡◌, refl, Bytes, Bool, true, Option, none, some, arith}
use secret_handshake_capnp.Crypto.{Crypto, IsCrypto}
use secret_handshake_capnp.Shs.{Session}
use secret_handshake_capnp.Handshake
use secret_handshake_capnp.Handshake.{Context, Role}
use secret_handshake_capnp.Handshake.Invariant.{IsValid}
use secret_handshake_capnp.Handshake.Turns.{Prepared}
use secret_handshake_capnp.Handshake.Shown.{Shown, side, Final-Shown}
use secret_handshake_capnp.Handshake.Rounds.{rounds}
use secret_handshake_capnp.Handshake.Trust.{
  as_client, as_server, start, role_of, asked_for, start-Prepared,
}
use secret_handshake_capnp.Async.{Reply, returned}
use secret_handshake_capnp.Async.{failed as failed_with}
use secret_handshake_capnp.Async.Ends.{of_peer, Ends}
use secret_handshake_capnp.Capnproto.Connection.{
  AsyncIoStream, WrappedStream, is_authorized, connected, connect, new_wrapped, new_handshake, wrap,
}
use secret_handshake_capnp.Capnproto.Rounds.{IsOrderly, Agreed}
use secret_handshake_capnp.Capnproto.Rounds.Run.{run_handshake-Agreed}

-- A connection with a session of an authorized peer, or an error that the peer or the network can cause.
abbrev pub Settled :
    {S : Type 0}
    → Crypto
    → Context
    → Option Bytes
    → Option (Bytes → Bool)
    → Bytes
    → Reply (Unit {0}) × WrappedStream S
    → Type 0
Settled c context key authorizer x = Ends of_peer λ u s.
    (session : Session) × (s.session ≡ some session)
    × (is_authorized authorizer session.peer_public_key ≡ true)
    × Shown c context x key session

started :
    (c : Crypto) (context : Context) (x : Bytes) (key : Option Bytes)
    → let h = new_handshake c context key x in
      IsValid h
      × Prepared c context.app_id context.public_key x (asked_for (side key)) (role_of (side key)) h
      × (rounds h.step ≡ 5)
unfolding start Handshake.create_client Handshake.create_server Handshake.create_handshake
started c context x (some key) =
    let (v, g) = start-Prepared c context x (as_client key) in (v, g, refl)
started c context x none = let (v, g) = start-Prepared c context x (as_server none) in (v, g, refl)

module _ {c : Crypto} (laws : IsCrypto c) {S : Type 0} {io : AsyncIoStream S}
    (orderly : IsOrderly io) (authorizer : Option (Bytes → Bool)) (context : Context) (x : Bytes)
    (key : Option Bytes) where
  connected-Settled :
      (r : Reply Session × WrappedStream S)
      → Ends of_peer
          (Agreed c authorizer context.app_id context.public_key x
            (asked_for (side key))
            (role_of (side key)))
          r
      → Settled c context key authorizer x (connected c io r)
  connected-Settled (returned session, s) (allowed, f) =
      (session, refl, allowed, Final-Shown c context x key session f)
  connected-Settled (failed_with e, s) of = of

  -- With primitives that behave as documented, over an inner stream that only returns or fails with
  -- errors of its own, and whose `read` returns just what it was asked for: `wrap` needs five rounds of `runHandshake` at most. It then has a connection
  -- with a session, whose peer is authorized and has signed what a client or a server signs, or it ends
  -- with an error of the inner stream or one of the two `DISCONNECTED` exceptions. So nothing else is
  -- thrown, no assertion fails and no empty optional is read, whatever bytes arrive.
  pub wrap-Settled :
      (n : ℕ) (stream : S)
      → 5 ≤ n
      → Settled c context key authorizer x (wrap c io n context key authorizer x stream)
  unfolding wrap connect
  wrap-Settled n stream enough =
      let (v, g, five) = started c context x key in
      connected-Settled _ (
        run_handshake-Agreed laws orderly authorizer context.app_id context.public_key x
          (asked_for (side key)) (role_of (side key)) n
          (new_wrapped stream (new_handshake c context key x) authorizer)
          (new_handshake c context key x, refl, refl, ((v, g), omega arith)))
