-- ===== src/Capnproto/Api.antt =====
-- capnproto/SecretRPC.cc and .hh: the public methods of `SecretRPCServer` and `SecretRPCClient`. What they
-- ask of KJ's network, and of the RPC system, are parameters.
use secret_handshake_capnp.Common.{
  ℕ, ◌≡◌, refl, Bytes, Bool, true, false, Option, none, some, List, [], ◌∷◌, undefined_behaviour,
  ◌==◌, Bool-cases, inl, inr, arith,
}
use secret_handshake_capnp.Crypto.{Crypto}
use secret_handshake_capnp.Async.{Reply, returned, failed, thrown, Async, ◌>>=◌}
use secret_handshake_capnp.Capnproto.Connection.{AsyncIoStream}
use secret_handshake_capnp.Capnproto.Wrapper.{
  Stream, StreamWrapper, PeerIdentity, AuthenticatedStream,
}
use secret_handshake_capnp.Capnproto.Server
use secret_handshake_capnp.Capnproto.Server.{Server, offered, not_offered}
use secret_handshake_capnp.Capnproto.Client
use secret_handshake_capnp.Capnproto.Client.{Client, ClientContext, wrap_promised, set_up, asked}
use secret_handshake_capnp.Capnproto.ThreadContext.{Use, enter, leave, hold, hold_all}

-- `kj::AsyncIoContext`: its parts
pub record IoContext (W P L : Type 0) : Type 0 where
  pub wait_scope : W
  pub provider : P
  pub low_level_provider : L

-- `SecretRPCServer`'s constructors
abbrev pub listening_server :
    {S C : Type 0} → (Option Bytes → C) → Option StreamWrapper → Server S C
listening_server factory wrapper = Server.new_server factory true wrapper

abbrev pub offline_server : {S C : Type 0} → (Option Bytes → C) → Option StreamWrapper → Server S C
offline_server factory wrapper = Server.new_server factory false wrapper

-- `getPort`: the promise has a value once the server listens.
abbrev pub get_port : {S C : Type 0} → Server S C → Option ℕ
get_port s = s.port

-- `getWaitScope`, `getIoProvider` and `getLowLevelIoProvider`, of the thread's context
module _ {W P L : Type 0} (contexts : ℕ → IoContext W P L) where
  abbrev pub get_wait_scope : ℕ → W
  get_wait_scope context = (contexts context).wait_scope

  abbrev pub get_io_provider : ℕ → P
  get_io_provider context = (contexts context).provider

  abbrev pub get_low_level_io_provider : ℕ → L
  get_low_level_io_provider context = (contexts context).low_level_provider

-- `acceptStream`, when the promised stream has come or has failed
module _ (c : Crypto) {S C : Type 0} (io : AsyncIoStream S) where
  unfoldable pub accept_stream :
      ℕ
      → Reply (AuthenticatedStream S)
      → Bytes
      → Bool
      → Reply (S × PeerIdentity)
      → Server S C
      → Server S C
  accept_stream fuel null_reply ephemeral late (returned (stream, peer)) s =
      Server.handle c io fuel null_reply (offered ephemeral late stream peer) s
  accept_stream fuel null_reply ephemeral late (failed e) s =
      Server.handle c io fuel null_reply (not_offered e) s

-- KJ's network: `parseAddress` of an address and a port, and `connect`
pub record Network (N A S : Type 0) : Type 0 where
  pub parse_address : Bytes → ℕ → Async N A
  pub connect : A → Async N S

module _ {N A S : Type 0} (network : Network N A S) where
  -- `connectAttach`
  abbrev pub connect_attach : A → Async N S
  connect_attach addr = network.connect addr

  -- The stream that the first constructor of `SecretRPCClient` promises
  unfoldable pub stream_promise : Bytes → ℕ → Async N S
  stream_promise server_address server_port =
      network.parse_address server_address server_port >>= connect_attach

-- `SecretRPCClient`, whose pointer is null after it was moved from.
pub record SecretRpcClient (S C : Type 0) : Type 0 where
  pub impl : Option (Client S C)

-- The references to the thread's context that the two constructors take and give up: `Impl` keeps one,
-- and the one that connects to an address has one of its own until it returns.
abbrev pub uses_of_stream : ℕ → List Use
uses_of_stream t = enter t ∷ []

abbrev pub uses_of_address : ℕ → List Use
uses_of_address t = enter t ∷ enter t ∷ leave t ∷ []

-- The destructor
abbrev pub uses_of_end : ℕ → List Use
uses_of_end t = leave t ∷ []

module _ {S C : Type 0} (bootstrap : Stream S → C) where
  -- The constructor that takes a promised stream, once its promise is resolved.
  unfoldable pub client_of_stream :
      Crypto → AsyncIoStream S → ℕ → Option StreamWrapper → Bytes → Reply S → SecretRpcClient S C
  unfolding wrap_promised Client.handle
  client_of_stream c io fuel w x stream = record {
    impl =
        some
          (Client.handle bootstrap (set_up (wrap_promised c io fuel w x stream)) Client.new_client);
  }

  -- The one that takes an address
  unfoldable pub client_of_address :
      {N A : Type 0}
      → Network N A S
      → Crypto
      → AsyncIoStream S
      → ℕ
      → Option StreamWrapper
      → Bytes
      → Bytes
      → ℕ
      → N
      → SecretRpcClient S C × N
  unfolding stream_promise client_of_stream
  client_of_address network c io fuel w x server_address server_port n =
      let (stream, n') = stream_promise network server_address server_port n in
      (client_of_stream c io fuel w x stream, n')

  -- The move constructor: the new object, and the other.
  abbrev pub move_client : SecretRpcClient S C → SecretRpcClient S C × SecretRpcClient S C
  move_client other = (record { impl = other.impl }, record { impl = none })

  -- `getMain` through the pointer
  abbrev pub ask_client : ℕ → SecretRpcClient S C → Reply (SecretRpcClient S C)
  ask_client n s = elim s.impl [
    | none ↦ failed (thrown undefined_behaviour)
    | some client ↦ returned (record { impl = some (Client.handle bootstrap (asked n) client) })
  ]

-- `getMain<Type>`
abbrev pub get_main_as : {C D : Type 0} → (C → D) → Reply C → Reply D
get_main_as cast_as (returned capability) = returned (cast_as capability)
get_main_as cast_as (failed e) = failed e

-- `ClientContext::restore`: a name is asked of the server's side.
abbrev pub restore_by : {S C : Type 0} → (Stream S → Bytes → C) → Bytes → ClientContext S → C
restore_by rpc_restore name context = rpc_restore context.stream name

-- A client that connects to an address holds, after its constructor, just the one reference to the
-- thread's context that a client of a promised stream holds.
uses_of_address_lem :
    (t u : ℕ) (held : ℕ → ℕ)
    → hold_all (uses_of_address t) held u ≡ hold_all (uses_of_stream t) held u
unfolding hold_all hold
uses_of_address_lem t u held =
    let own : (t == t) ≡ true = ground arith in
    elim (Bool-cases (t == u)) [
      | inl same ↦ rw (own, same) (omega arith)
      | inr other ↦ rw (own, other) refl
    ]
