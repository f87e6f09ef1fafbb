-- ===== src/Tests/Shake.antt =====
-- The state machine of src/SecretHandshake.cc, over the toy primitives.
use secret_handshake_capnp.Common.{◌≡◌, refl, [], ◌∷◌, arith}
use secret_handshake_capnp.Crypto.Toy.{toy}
use secret_handshake_capnp.Handshake
use secret_handshake_capnp.Handshake.{Context, client_challenge, server_challenge, failed, no_error}
use secret_handshake_capnp.Handshake.Receive.{IsReceiving, feed, received_pieces}
use secret_handshake_capnp.Handshake.Invariant.{
  to_send, sent, to_read, received, run, IsValid, run-IsValid,
}

abbrev context : Context
context = record { app_id = 1 ∷ 2 ∷ []; signing_key = 40 ∷ []; public_key = 41 ∷ [] }

abbrev server : Handshake.Handshake
server = Handshake.create_server toy context (30 ∷ [])

server-IsReceiving : IsReceiving server
unfolding Handshake.create_server Handshake.create_handshake
server-IsReceiving = record { running = refl; waiting = omega arith }

server-IsValid : IsValid server
unfolding Handshake.create_server Handshake.create_handshake
server-IsValid = record {
  fits = λ p. omega arith;
  pending = λ p q. cc;
  clean = λ p. refl;
  reported = λ p. cc;
}

received_pieces_example :
    feed toy ((1 ∷ 2 ∷ []) ∷ (3 ∷ []) ∷ []) server
    ≡ (Handshake.received_bytes toy (1 ∷ 2 ∷ 3 ∷ []) server).1
unfolding Handshake.create_server Handshake.create_handshake
received_pieces_example =
    received_pieces toy ((1 ∷ 2 ∷ []) ∷ (3 ∷ []) ∷ []) server server-IsReceiving (omega arith)
      (omega arith)

-- A client with a message of three bytes to send.
abbrev sending : Handshake.Handshake
unfolding Handshake.create_client Handshake.create_handshake
sending = record (Handshake.create_client toy context (50 ∷ []) (30 ∷ [])) {
  output_buffer = 1 ∷ 2 ∷ 3 ∷ [];
}

run-IsValid_example : IsValid (run toy (to_read ∷ received (1 ∷ []) ∷ to_send ∷ sent ∷ []) server)
run-IsValid_example =
    run-IsValid toy (to_read ∷ received (1 ∷ []) ∷ to_send ∷ sent ∷ []) server server-IsValid
