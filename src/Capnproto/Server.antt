-- ===== src/Capnproto/Server.antt =====
-- capnproto/SecretRPC.cc and .hh, class `SecretRPCServer`: the loop that accepts, and the connections
-- that come of it. Cap'n Proto's RPC system and KJ's event loop are not in this repository: a
-- capability is a parameter, and what the event loop reports are the events. A connection's life in
-- the RPC system is left out.
pub mod Serving
pub mod Listening
use secret_handshake_capnp.Common.{
  ℕ, zero, suc, Bytes, bytes_eq, get_elem?, erase_idx, Bool, true, false, Option, none, some, List,
  [], ◌∷◌, if◌then◌else◌,
}
use secret_handshake_capnp.Crypto.{Crypto}
use secret_handshake_capnp.Async.{
  Reply, returned, failed, Failure, thrown, requirement_failed, operation_timed_out,
}
use secret_handshake_capnp.Common.{undefined_behaviour}
use secret_handshake_capnp.Capnproto.Connection.{AsyncIoStream}
use secret_handshake_capnp.Capnproto.Wrapper.{
  StreamWrapper, PeerIdentity, shs_identity, AuthenticatedStream, wrap_authenticated, async_wrap,
}

-- `Impl::Connection`
pub record Connection (S C : Type 0) : Type 0 where
  pub stream : AuthenticatedStream S
  pub main_interface : C

-- A task that makes a connection, with the reply that it will get, and with the timer of 15 seconds
-- or without.
pub record Making (S : Type 0) : Type 0 where
  pub reply : Reply (AuthenticatedStream S)
  pub has_timer : Bool

-- `Impl`. Its tasks are the one that parses the address, those that wait for a stream to be accepted,
-- those that make a connection of one, and those of the connections.
pub record Server (S C : Type 0) : Type 0 where
  pub main_interface_factory : Option Bytes → C
  pub wrapper : Option StreamWrapper
  pub export_map : List (Bytes × C)
  pub starting : Bool
  pub port : Option ℕ
  pub accepting : ℕ
  pub making : List (Making S)
  pub connections : List (Connection S C)
  pub failures : List Failure

-- Either constructor: only one of them listens.
abbrev pub new_server :
    {S C : Type 0} → (Option Bytes → C) → Bool → Option StreamWrapper → Server S C
new_server factory listens wrapper = record {
  main_interface_factory = factory;
  wrapper = wrapper;
  export_map = [];
  starting = listens;
  port = none;
  accepting = 0;
  making = [];
  connections = [];
  failures = [];
}

-- `dynamic_cast<const SHSPeerIdentity*>`, and the key
abbrev pub key_of : PeerIdentity → Option Bytes
key_of (shs_identity key inner) = some key
key_of i = none

abbrev pub find_export : {C : Type 0} → Bytes → List (Bytes × C) → Option C
find_export name [] = none
find_export name ((exported, capability) ∷ rest) =
    if bytes_eq name exported then some capability else find_export name rest

-- What the event loop reports: the address was parsed, a stream was accepted, or offered by
-- `acceptStream`, with the new handshake's ephemeral key and with whether the connection timer fires
-- first; the `n`-th stream in the making is done, or the timer of 15 seconds fired before; the `n`-th
-- connection was closed. Where the code asks for the peer's name, which it only logs, an event has the
-- exception that `getPeerName` throws, if it does.
pub data Event (S : Type 0) : Type 0 where
  parsed : Reply ℕ → Event S
  accepted : Option Failure → Bytes → Bool → S → PeerIdentity → Event S
  offered : Bytes → Bool → S → PeerIdentity → Event S
  not_accepted not_offered : Failure → Event S
  made : ℕ → Option Failure → Event S
  timed_out disconnected : ℕ → Event S

module _ {S C : Type 0} where
  -- `acceptLoop`
  abbrev pub accept_loop : Server S C → Server S C
  accept_loop s = record s { accepting = suc s.accepting }

  abbrev pub add_making : Bool → Reply (AuthenticatedStream S) → Server S C → Server S C
  add_making timer r s =
      let task : Making S = record { reply = r; has_timer = timer } in
      record s { making = task ∷ s.making }

  -- The task that waited, if there is one besides these, calls `acceptLoop` and goes on to make a
  -- connection.
  abbrev pub accept_ended : ℕ → Bool → Reply (AuthenticatedStream S) → Server S C → Server S C
  accept_ended zero timer r s = s
  accept_ended (suc others) timer r s =
      add_making timer r (accept_loop (record s { accepting = others }))

  -- `taskFailed`
  abbrev pub task_failed : Failure → Server S C → Server S C
  task_failed e s = record s { failures = e ∷ s.failures }

  -- `getPeerName` throws before `acceptLoop` is called: the task fails, and none takes its place.
  abbrev pub accept_broken : ℕ → Failure → Server S C → Server S C
  accept_broken zero e s = s
  accept_broken (suc others) e s = task_failed e (record s { accepting = others })

  abbrev pub start_connection : AuthenticatedStream S → Server S C → Server S C
  start_connection stream s =
      let connection : Connection S C = record {
        stream = stream;
        main_interface = s.main_interface_factory (key_of stream.peer_identity);
      } in
      record s { connections = connection ∷ s.connections }

  -- `startConnection`, with what its `getPeerName` throws
  abbrev pub start_named : Option Failure → AuthenticatedStream S → Server S C → Server S C
  start_named none stream s = start_connection stream s
  start_named (some e) stream s = task_failed e s

  abbrev pub settle : Option Failure → Reply (AuthenticatedStream S) → Server S C → Server S C
  settle thrown_there (returned stream) s = start_named thrown_there stream s
  settle thrown_there (failed e) s = task_failed e s

  abbrev pub end_making : ℕ → Option Failure → Option (Making S) → Server S C → Server S C
  end_making n thrown_there none s = s
  end_making n thrown_there (some m) s =
      settle thrown_there m.reply (record s { making = erase_idx s.making n })

  -- `timeoutAfter`, where the task has a timer.
  abbrev pub expire : ℕ → Option (Making S) → Server S C → Server S C
  expire n none s = s
  expire n (some m) s =
      if m.has_timer
      then task_failed operation_timed_out (record s { making = erase_idx s.making n })
      else s

  -- The constructor's continuation, once the address is parsed.
  abbrev pub listen : Reply ℕ → Server S C → Server S C
  listen (returned number) s = accept_loop (record s { starting = false; port = some number })
  listen (failed e) s = task_failed e (record s { starting = false })

  -- `restore` of the server
  abbrev pub restore : Bytes → Server S C → Reply C
  restore name s = elim (find_export name s.export_map) [
    | none ↦ failed requirement_failed
    | some capability ↦ returned capability
  ]

  -- `Connection::restore`, of a null object or of a name
  abbrev pub restore_connection : Option Bytes → Connection S C → Server S C → Reply C
  restore_connection none connection s = returned connection.main_interface
  restore_connection (some name) connection s = restore name s

-- `_shsWrapper->wrap`, without a test of the pointer
abbrev pub wrap_accepted :
    Crypto
    → {S : Type 0} → AsyncIoStream S
    → ℕ
    → Option StreamWrapper
    → Bytes
    → Bool
    → S
    → PeerIdentity
    → Reply (AuthenticatedStream S)
wrap_accepted c io fuel none ephemeral late stream inner = failed (thrown undefined_behaviour)
wrap_accepted c io fuel (some w) ephemeral late stream inner =
    wrap_authenticated c io fuel w ephemeral late stream inner

module _ (c : Crypto) {S C : Type 0} (io : AsyncIoStream S) where
  -- `null_reply` is what KJ makes of the null promise that the handler of a failed accept returns.
  unfoldable pub handle : ℕ → Reply (AuthenticatedStream S) → Event S → Server S C → Server S C
  handle fuel null_reply (parsed address) s = if s.starting then listen address s else s
  handle fuel null_reply (accepted (some e) ephemeral late stream inner) s =
      accept_broken s.accepting e s
  handle fuel null_reply (accepted none ephemeral late stream inner) s =
      accept_ended s.accepting true (wrap_accepted c io fuel s.wrapper ephemeral late stream inner)
        s
  handle fuel null_reply (not_accepted e) s = accept_ended s.accepting false null_reply s
  handle fuel null_reply (offered ephemeral late stream inner) s =
      add_making false (async_wrap c io fuel s.wrapper ephemeral late stream inner) s
  handle fuel null_reply (not_offered e) s = add_making false (failed e) s
  handle fuel null_reply (made n thrown_there) s =
      end_making n thrown_there (get_elem? s.making n) s
  handle fuel null_reply (timed_out n) s = expire n (get_elem? s.making n) s
  handle fuel null_reply (disconnected n) s = record s { connections = erase_idx s.connections n }

  unfoldable pub serve :
      ℕ → Reply (AuthenticatedStream S) → List (Event S) → Server S C → Server S C
  serve fuel null_reply [] s = s
  serve fuel null_reply (event ∷ events) s =
      serve fuel null_reply events (handle fuel null_reply event s)
