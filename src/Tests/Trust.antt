-- ===== src/Tests/Trust.antt =====
-- Whole handshakes of src/SecretHandshake.cc, over the toy primitives.
use secret_handshake_capnp.Common.{
  ◌≡◌, ◌⊎◌, refl, Bytes, Bool, true, List, [], ◌∷◌, ◌++◌, some, ok, fault, logic_error,
  assertion_failed, bytes_eq, arith, append-nil,
}
use secret_handshake_capnp.Crypto.Toy.{toy, toy-IsCrypto, add_bytes, open_sealed}
use secret_handshake_capnp.Shs
use secret_handshake_capnp.Shs.{Session}
use secret_handshake_capnp.Shs.Agreement.{client_session, mirror}
use secret_handshake_capnp.Handshake
use secret_handshake_capnp.Handshake.{Context, is_failed}
use secret_handshake_capnp.Handshake.Receive.{flatten, AllNonempty}
use secret_handshake_capnp.Handshake.Invariant.{
  Call, to_send, sent, received, read_gone, perform, run,
}
use secret_handshake_capnp.Handshake.Stages.{authorized}
use secret_handshake_capnp.Handshake.Trust.{
  as_client, as_server, start, calls_fault, server_session_lem, client_session_lem,
}
use secret_handshake_capnp.Handshake.Final.{Signed}
use secret_handshake_capnp.Handshake.Complete.{Cuts, converse, owner, converse_completes}

abbrev pub app_id : Bytes
app_id = 1 ∷ 2 ∷ 3 ∷ []

-- The client's keys are 10 and 20, the server's 30 and 40.
abbrev pub alice : Context
alice = owner toy app_id (20 ∷ [])

abbrev pub bob : Context
bob = owner toy app_id (40 ∷ [])

-- A message is cut after its first byte.
pub halves : Bytes → List Bytes
halves [] = []
halves (x ∷ []) = (x ∷ []) ∷ []
halves (x ∷ y ∷ m) = (x ∷ []) ∷ (y ∷ m) ∷ []

halves-whole : (m : Bytes) → flatten (halves m) ≡ m
unfolding halves
halves-whole [] = refl
halves-whole (x ∷ []) = refl
halves-whole (x ∷ y ∷ m) = append-nil (x ∷ y ∷ m)

halves-full : (m : Bytes) → AllNonempty (halves m)
unfolding halves
halves-full [] = tt
halves-full (x ∷ []) = (omega arith, tt)
halves-full (x ∷ y ∷ m) = (omega arith, (omega arith, tt))

pub halves-Cuts : Cuts halves
halves-Cuts = record { whole = halves-whole; full = halves-full }

abbrev pub known : Bytes → Bool
known key = bytes_eq key (toy.get_public_key (20 ∷ []))

pub known_alice : known (toy.get_public_key (20 ∷ [])) ≡ true
unfolding bytes_eq
known_alice = refl

converse_completes_example :
    let (client', server') = converse toy halves (
      start toy alice (10 ∷ []) (as_client (toy.get_public_key (40 ∷ []))),
      start toy bob (30 ∷ []) (as_server (some known)),
    ) in
    (Handshake.finished? client' ≡ true)
    × (Handshake.finished? server' ≡ true)
    × ((Handshake.session toy client').0
        ≡ ok (client_session toy app_id (10 ∷ []) (20 ∷ []) (30 ∷ []) (40 ∷ [])))
    × ((Handshake.session toy server').0
        ≡ ok (
            mirror
              (toy.get_public_key (20 ∷ []))
              (client_session toy app_id (10 ∷ []) (20 ∷ []) (30 ∷ []) (40 ∷ []))))
converse_completes_example =
    converse_completes toy-IsCrypto app_id (10 ∷ []) (20 ∷ []) (30 ∷ []) (40 ∷ []) halves
      halves-Cuts (some known) known_alice

-- The read fails while a message is being sent.
abbrev late_calls : List Call
late_calls = to_send ∷ read_gone ∷ []

abbrev late_client : Handshake.Handshake
late_client = run toy late_calls (start toy alice (10 ∷ []) (as_client (5 ∷ [])))

late_fault : (perform toy sent late_client).0 ≡ fault assertion_failed
unfolding perform Handshake.send_completed run Handshake.read_failed Handshake.bytes_to_send start
    Handshake.create_client Handshake.produce Shs.create_challenge add_bytes
    Shs.set_server_public_key Shs.create Handshake.next_step
late_fault = refl

calls_fault_example :
    (assertion_failed ≡ logic_error)
    ⊎ ((assertion_failed ≡ assertion_failed)
        × (is_failed (perform toy sent late_client).1.step ≡ true))
calls_fault_example =
    calls_fault toy alice (10 ∷ []) (as_client (5 ∷ [])) late_calls sent assertion_failed late_fault

-- What is in the output buffer after `bytesToSend`.
abbrev pub message : Handshake.Handshake → Bytes
message h = h.output_buffer

abbrev client_start : Handshake.Handshake
client_start = start toy alice (10 ∷ []) (as_client (toy.get_public_key (40 ∷ [])))

abbrev server_start : Handshake.Handshake
server_start = start toy bob (30 ∷ []) (as_server (some known))

abbrev pub challenging_client : Handshake.Handshake
challenging_client = run toy (to_send ∷ []) client_start

abbrev pub challenging_server : Handshake.Handshake
challenging_server = run toy (received (message challenging_client) ∷ to_send ∷ []) server_start

abbrev client_calls : List Call
client_calls = to_send ∷ sent ∷ received (message challenging_server) ∷ to_send ∷ []

abbrev pub authenticating_client : Handshake.Handshake
authenticating_client = run toy client_calls client_start

abbrev server_calls : List Call
server_calls =
    received (message challenging_client)
    ∷ to_send
    ∷ sent
    ∷ received (message authenticating_client)
    ∷ to_send
    ∷ []

abbrev pub acknowledging_server : Handshake.Handshake
acknowledging_server = run toy server_calls server_start

abbrev client_ends : List Call
client_ends = client_calls ++ sent ∷ received (message acknowledging_server) ∷ []

abbrev agreed : Session
agreed = client_session toy app_id (10 ∷ []) (20 ∷ []) (30 ∷ []) (40 ∷ [])

server_session_made :
    (Handshake.session toy (run toy (server_calls ++ sent ∷ []) server_start)).0
    ≡ ok (mirror (toy.get_public_key (20 ∷ [])) agreed)
unfolding Handshake.session run perform Handshake.send_completed Handshake.bytes_to_send
    Handshake.received_bytes start Handshake.set_client_authorizer Handshake.create_server
    Handshake.create_client Handshake.create_handshake Handshake.produce Shs.create_challenge
    add_bytes open_sealed Shs.set_server_public_key Shs.create Handshake.read_completed
    Handshake.process bytes_eq Handshake.conclude Handshake.finished? Handshake.next_step
    Shs.client_auth_key Shs.create_client_auth Shs.create_server_ack Shs.get_outcome
    Shs.get_peer_public_key Shs.server_ack_box_key Shs.verify_challenge Shs.verify_client_auth
    Shs.verify_server_ack client_session mirror
server_session_made = refl

client_session_made : (Handshake.session toy (run toy client_ends client_start)).0 ≡ ok agreed
unfolding Handshake.session run perform Handshake.send_completed Handshake.bytes_to_send
    Handshake.received_bytes start Handshake.set_client_authorizer Handshake.create_server
    Handshake.create_client Handshake.create_handshake Handshake.produce Shs.create_challenge
    add_bytes open_sealed Shs.set_server_public_key Shs.create Handshake.read_completed
    Handshake.process bytes_eq Handshake.conclude Handshake.finished? Handshake.next_step
    Shs.client_auth_key Shs.create_client_auth Shs.create_server_ack Shs.get_outcome
    Shs.get_peer_public_key Shs.server_ack_box_key Shs.verify_challenge Shs.verify_client_auth
    Shs.verify_server_ack client_session mirror
client_session_made = refl

server_session_lem_example :
    (authorized (some known) (some (toy.get_public_key (20 ∷ []))) ≡ true)
    × Signed toy app_id (30 ∷ []) (toy.get_public_key (20 ∷ [])) (toy.get_public_key (40 ∷ []))
unfolding mirror
server_session_lem_example =
    server_session_lem toy bob (30 ∷ []) (some known) (server_calls ++ sent ∷ [])
      (mirror (toy.get_public_key (20 ∷ [])) agreed) server_session_made

client_session_lem_example :
    (toy.get_public_key (40 ∷ []) ≡ toy.get_public_key (40 ∷ []))
    × ((mine : Bytes) × Signed toy app_id
          (10 ∷ [])
          (toy.get_public_key (40 ∷ []))
          (mine ++ toy.get_public_key (20 ∷ [])))
unfolding client_session
client_session_lem_example =
    client_session_lem toy alice (10 ∷ []) (toy.get_public_key (40 ∷ [])) client_ends agreed
      client_session_made
