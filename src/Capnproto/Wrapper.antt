-- ===== src/Capnproto/Wrapper.antt =====
-- capnproto/SecretConnection.cc and .hh: `StreamWrapper`'s `wrap` of an authenticated stream, with its
-- timeout, and `asyncWrap`. A timer is KJ's; whether it fires before the handshake is over is an
-- argument.
use secret_handshake_capnp.Common.{ℕ, Bytes, Bool, true, false, Option, none, some}
use secret_handshake_capnp.Crypto.{Crypto}
use secret_handshake_capnp.Handshake.{Context}
use secret_handshake_capnp.Async.{Reply, returned, failed, requirement_failed, not_connected}
use secret_handshake_capnp.Capnproto.Connection.{AsyncIoStream, WrappedStream, wrap, get_identity}

-- `kj::PeerIdentity`: none, one of KJ's own, or an `SHSPeerIdentity` with a key and an inner one.
pub data PeerIdentity : Type 0 where
  no_identity : PeerIdentity
  network_identity : ℕ → PeerIdentity
  shs_identity : Bytes → PeerIdentity → PeerIdentity

-- A stream as it comes, or one that is wrapped.
pub data Stream (S : Type 0) : Type 0 where
  plain_stream : S → Stream S
  wrapped_stream : WrappedStream S → Stream S

pub record AuthenticatedStream (S : Type 0) : Type 0 where
  pub stream : Stream S
  pub peer_identity : PeerIdentity

-- A `ClientWrapper` has the server's key, a `ServerWrapper` has none.
pub record StreamWrapper : Type 0 where
  pub context : Context
  pub server_public_key : Option Bytes
  pub authorizer : Option (Bytes → Bool)
  pub connect_timeout : Option ℕ
  pub has_timer : Bool
  pub is_socket : Bool

abbrev pub server_wrapper : Context → Option (Bytes → Bool) → StreamWrapper
server_wrapper context auth = record {
  context = context;
  server_public_key = none;
  authorizer = auth;
  connect_timeout = none;
  has_timer = false;
  is_socket = true;
}

abbrev pub client_wrapper : Context → Bytes → StreamWrapper
client_wrapper context server_key = record {
  context = context;
  server_public_key = some server_key;
  authorizer = none;
  connect_timeout = none;
  has_timer = false;
  is_socket = true;
}

abbrev pub set_connect_timeout : ℕ → StreamWrapper → StreamWrapper
set_connect_timeout timeout w = record w { connect_timeout = some timeout; has_timer = true }

abbrev pub set_is_socket : Bool → StreamWrapper → StreamWrapper
set_is_socket socket w = record w { is_socket = socket }

-- The join of the handshake with the timer, which fires first or does not.
abbrev pub timed : {A : Type 0} → Option ℕ → Bool → Bool → Reply A → Reply A
timed none has_timer late r = r
timed (some timeout) false late r = failed requirement_failed
timed (some timeout) true true r = failed not_connected
timed (some timeout) true false r = r

module _ (c : Crypto) {S : Type 0} (io : AsyncIoStream S) where
  -- `getIdentity`, over the identity of the inner stream
  abbrev pub identity_of : WrappedStream S → PeerIdentity → PeerIdentity
  identity_of conn inner = elim (get_identity c io conn) [
    | none ↦ no_identity
    | some key ↦ shs_identity key inner
  ]

  abbrev pub authenticated :
      PeerIdentity → Reply (Unit {0}) × WrappedStream S → Reply (AuthenticatedStream S)
  authenticated inner (returned u, conn) =
      returned (record { stream = wrapped_stream conn; peer_identity = identity_of conn inner })
  authenticated inner (failed e, conn) = failed e

  -- `wrap` of an authenticated stream, whose stream is not itself one of this library's.
  unfoldable pub wrap_authenticated :
      ℕ → StreamWrapper → Bytes → Bool → S → PeerIdentity → Reply (AuthenticatedStream S)
  wrap_authenticated fuel w ephemeral late stream inner = timed w.connect_timeout w.has_timer late (
      authenticated inner
        (wrap c io fuel w.context w.server_public_key w.authorizer ephemeral stream))

  abbrev pub unwrapped : S → PeerIdentity → AuthenticatedStream S
  unwrapped stream inner = record { stream = plain_stream stream; peer_identity = inner }

  -- `asyncWrap`, on a stream that has come; a null wrapper does nothing.
  abbrev pub async_wrap :
      ℕ → Option StreamWrapper → Bytes → Bool → S → PeerIdentity → Reply (AuthenticatedStream S)
  async_wrap fuel none ephemeral late stream inner = returned (unwrapped stream inner)
  async_wrap fuel (some w) ephemeral late stream inner =
      wrap_authenticated fuel w ephemeral late stream inner
