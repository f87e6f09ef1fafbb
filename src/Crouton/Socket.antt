-- ===== src/Crouton/Socket.antt =====
-- crouton/SecretHandshakeStream.cc and .hh: class `SecretHandshakeSocket`, the delegate's defaults, and
-- the small methods of `SecretHandshakeStream`. Crouton's TCP socket is a parameter: the stream of a
-- socket that is bound to an address.
use secret_handshake_capnp.Common.{
  ℕ, Bytes, Bool, true, Option, none, some, [], ◌∷◌, get_elem?, undefined_behaviour,
}
use Prim.Native.String.{String}
use secret_handshake_capnp.Crypto.{Crypto}
use secret_handshake_capnp.Handshake.{Context}
use secret_handshake_capnp.Async.{
  returned, failed, thrown, Async, reply_then, SecretHandshakeError, protocol, auth, data_error,
}
use secret_handshake_capnp.Crouton.Shaking.{IoStream, new_handshake}
use secret_handshake_capnp.Crouton.Wrapped.{SecretHandshakeStream, new_secret_stream, open_stream}

-- `SecretHandshakeStreamDelegate::authorizeSecretHandshake`, where it is not overridden
abbrev pub authorize_by_default : Bytes → Bool
authorize_by_default key = true

module _ {S : Type 0} where
  abbrev pub set_delegate :
      Option (Bytes → Bool) → SecretHandshakeStream S → SecretHandshakeStream S
  set_delegate d s = record s { delegate = d }

  abbrev pub is_open : SecretHandshakeStream S → Bool
  is_open s = s.opened

  abbrev pub set_raw_stream : S → SecretHandshakeStream S → SecretHandshakeStream S
  set_raw_stream t s = record s { link = record s.link { stream = some t } }

-- `_binding` of Crouton's `ISocket`, which may be null, and the stream
pub record SecretHandshakeSocket (B S : Type 0) : Type 0 where
  pub binding : Option B
  pub stream : SecretHandshakeStream S

module _ (c : Crypto) {B S : Type 0} (io : IoStream S) (tcp_stream : B → S) where
  -- The constructor: a client's stream, over no inner stream as yet.
  abbrev pub new_socket : Context → Bytes → Bytes → SecretHandshakeSocket B S
  new_socket context server_key ephemeral = record {
    binding = none;
    stream = new_secret_stream none (new_handshake c io context (some server_key) ephemeral);
  }

  -- The inner stream, made of the binding where there is none.
  abbrev pub with_raw_stream : Option B → Option S → Async (SecretHandshakeSocket B S) (Unit {0})
  with_raw_stream binding (some t) s = (returned tt, s)
  with_raw_stream none none s = (failed (thrown undefined_behaviour), s)
  with_raw_stream (some b) none s =
      (returned tt, record s { stream = set_raw_stream (tcp_stream b) s.stream })

  -- `stream`
  abbrev pub socket_stream : Async (SecretHandshakeSocket B S) (Unit {0})
  socket_stream s = with_raw_stream s.binding s.stream.link.stream s

  abbrev pub on_stream_of :
      {A : Type 0} → Async (SecretHandshakeStream S) A → Async (SecretHandshakeSocket B S) A
  on_stream_of m s = let (r, stream) = m s.stream in (r, record s { stream = stream })

  -- `open`
  unfoldable pub open_socket : ℕ → Async (SecretHandshakeSocket B S) (Unit {0})
  unfolding open_stream
  open_socket fuel s = reply_then (socket_stream s) λ _. on_stream_of (open_stream c io fuel)

-- The code of an error, and its place in the list of `description`
abbrev pub error_code : SecretHandshakeError → ℕ
error_code protocol = 1
error_code auth = 2
error_code data_error = 3

-- `description`: the list has four names, and no test of its bounds.
abbrev pub description : ℕ → Option String
description code =
    get_elem? ("" ∷ "protocol error" ∷ "authentication error" ∷ "data error" ∷ []) code
