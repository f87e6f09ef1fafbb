-- ===== src/Tests/Rpc.antt =====
-- capnproto/SecretRPC.cc, over the toy primitives and a recording of a client.
use secret_handshake_capnp.Common.{
  ◌≡◌, refl, ℕ, Bytes, true, false, List, [], ◌∷◌, ◌++◌, Option, some, none, length, bytes_eq,
  arith,
}
use secret_handshake_capnp.Crypto.Toy.{toy, toy-IsCrypto, add_bytes, open_sealed}
use secret_handshake_capnp.Shs
use secret_handshake_capnp.Handshake
use secret_handshake_capnp.Handshake.Invariant.{perform, run}
use secret_handshake_capnp.Handshake.Trust.{start}
use secret_handshake_capnp.Async.{Reply, returned, failed, not_connected, stream_error}
use secret_handshake_capnp.Capnproto.Connection.{connect, run_handshake, wrap, get_identity}
use secret_handshake_capnp.Capnproto.Wrapper.{
  StreamWrapper, server_wrapper, set_connect_timeout, network_identity, AuthenticatedStream,
  plain_stream, Stream, wrap_authenticated,
}
use secret_handshake_capnp.Capnproto.Server.{
  Server, Event, parsed, accepted, not_accepted, made, timed_out, new_server, handle, serve,
}
use secret_handshake_capnp.Capnproto.Server.Serving.{Every, Served, serve-Served}
use secret_handshake_capnp.Capnproto.Server.Listening.{
  stopped, begun, last_phase, Follows, serve-Follows,
}
use secret_handshake_capnp.Capnproto.ThreadContext.{
  Use, enter, leave, use_all, no_contexts, hold_all,
}
use secret_handshake_capnp.Capnproto.ThreadContext.Holding.{Represents, use_all-Represents}
use secret_handshake_capnp.Capnproto.Client
use secret_handshake_capnp.Capnproto.Client.{answer_all, told, get_main_lem}
use secret_handshake_capnp.Tests.Trust.{
  bob, challenging_client, authenticating_client, message, known,
}
use secret_handshake_capnp.Tests.Settled.{replay, replay-IsOrderly}

-- What the client says in a whole handshake with this server.
abbrev said : Bytes
said = message challenging_client ++ message authenticating_client

abbrev wrapper : StreamWrapper
wrapper = set_connect_timeout 30 (server_wrapper bob (some known))

-- A main interface is the key that it was made for.
abbrev factory : Option Bytes → Option Bytes
factory key = key

abbrev nothing : Reply (AuthenticatedStream Bytes)
nothing = failed not_connected

-- The server listens; a client comes whose handshake ends well, an accept fails, and another client
-- says nothing; the first is made a connection.
abbrev events : List (Event Bytes)
events =
    parsed (returned 8080)
    ∷ accepted none (30 ∷ []) false said (network_identity 1)
    ∷ not_accepted not_connected
    ∷ accepted none (31 ∷ []) false [] (network_identity 2)
    ∷ timed_out 0
    ∷ made 1 none
    ∷ []

abbrev serving : Server Bytes (Option Bytes)
serving = serve toy replay 5 nothing events (new_server factory true (some wrapper))

one_connection : length serving.connections ≡ 1
unfolding serve handle wrap_authenticated get_identity wrap connect run_handshake Handshake.session
    run perform Handshake.send_completed Handshake.bytes_to_send Handshake.received_bytes start
    Handshake.set_client_authorizer Handshake.create_server Handshake.create_client
    Handshake.create_handshake Handshake.produce Shs.create_challenge add_bytes open_sealed
    Shs.set_server_public_key Shs.create Handshake.read_completed Handshake.process bytes_eq
    Handshake.conclude Handshake.finished? Handshake.next_step Shs.client_auth_key
    Shs.create_client_auth Shs.create_server_ack Shs.get_outcome Shs.get_peer_public_key
    Shs.server_ack_box_key Shs.verify_challenge Shs.verify_client_auth Shs.verify_server_ack
    Handshake.fill_input Handshake.bytes_to_read
one_connection = refl

serve-Served_example : Every (Served toy wrapper factory) serving.connections
serve-Served_example =
    serve-Served toy-IsCrypto replay-IsOrderly wrapper factory 5 (omega arith) nothing (λ a h. cc)
      events true

-- Then a client is gone before its name is asked for.
abbrev ending : List (Event Bytes)
ending = events ++ accepted (some (stream_error 5)) (32 ∷ []) false said (network_identity 3) ∷ []

stopped_then : last_phase ending (begun true) ≡ stopped
unfolding last_phase
stopped_then = refl

serve-Follows_example :
    Follows
      (last_phase ending (begun true))
      (serve toy replay 5 nothing ending (new_server factory true (some wrapper)))
serve-Follows_example = serve-Follows toy replay 5 nothing factory true wrapper ending

-- A main capability is the number of bytes left on a plain stream.
abbrev bootstrap : Stream Bytes → ℕ
bootstrap (plain_stream bytes) = length bytes
bootstrap other = 0

get_main_lem_example :
    (Client.run bootstrap
      (Client.asks bootstrap (1 ∷ 2 ∷ [])
        ++ Client.set_up (returned (plain_stream (5 ∷ []))) ∷ Client.asks bootstrap (3 ∷ []))
      Client.new_client).answers
    ≡ answer_all bootstrap (told bootstrap (returned (plain_stream (5 ∷ [])))) (1 ∷ 2 ∷ 3 ∷ []) []
get_main_lem_example =
    get_main_lem bootstrap (returned (plain_stream (5 ∷ []))) (1 ∷ 2 ∷ []) (3 ∷ [])

-- Two threads, of which one gives up all that it has.
abbrev uses : List Use
uses = enter 0 ∷ enter 1 ∷ enter 0 ∷ leave 0 ∷ leave 0 ∷ []

use_all-Represents_example :
    ((use_all uses no_contexts).0 ≡ returned tt)
    × Represents (use_all uses no_contexts).1 (hold_all uses (λ t. 0))
use_all-Represents_example = use_all-Represents uses
