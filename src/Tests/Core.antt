-- ===== src/Tests/Core.antt =====
-- The handshake's cryptographic core, src/shs.cc, over the toy primitives.
use secret_handshake_capnp.Common.{
  ◌≡◌, ◌↔◌, refl, Bytes, true, [], ◌∷◌, ◌++◌, ok, some, none, range,
}
use secret_handshake_capnp.Crypto.Toy.{toy, toy-IsCrypto}
use secret_handshake_capnp.Shs
use secret_handshake_capnp.Shs.Agreement.{
  protocol, protocol_agrees, new_client, new_server, client_session, mirror,
}
use secret_handshake_capnp.Shs.Accepts.{verify_client_auth_iff, verify_server_ack_iff}

abbrev app_id : Bytes
app_id = 1 ∷ 2 ∷ 3 ∷ []

protocol_agrees_example :
    (protocol toy (
      new_client toy app_id (20 ∷ []) (10 ∷ []) (toy.get_public_key (40 ∷ [])),
      new_server toy app_id (40 ∷ []) (30 ∷ []),
    )).0
    ≡ ok (
      true,
      client_session toy app_id (10 ∷ []) (20 ∷ []) (30 ∷ []) (40 ∷ []),
      mirror
          (toy.get_public_key (20 ∷ []))
          (client_session toy app_id (10 ∷ []) (20 ∷ []) (30 ∷ []) (40 ∷ [])),
    )
protocol_agrees_example =
    protocol_agrees toy-IsCrypto app_id (10 ∷ []) (20 ∷ []) (30 ∷ []) (40 ∷ [])

-- An object that knows what both iff theorems ask for.
abbrev known : Shs.Shs
known = record {
  app_id = app_id;
  signing_key = 40 ∷ [];
  public_key = 41 ∷ [];
  ephemeral_key = 30 ∷ [];
  ephemeral_public = 31 ∷ [];
  peer_public_key = some (50 ∷ []);
  peer_ephemeral = some (60 ∷ []);
  ab = some (70 ∷ []);
  hash_ab = some (80 ∷ []);
  a_b_long = some (71 ∷ []);
  a_long_b = some (72 ∷ []);
  server_ack_key = none;
  h = some (90 ∷ []);
}

verify_client_auth_iff_example : ((Shs.verify_client_auth toy (1 ∷ []) known).0 ≡ ok true) ↔ (
    (h : Bytes) × (Shs.unbox toy
        (toy.sha256 (app_id ++ 70 ∷ Shs.long_times_ephemeral toy (40 ∷ []) (60 ∷ [])))
        (1 ∷ [])
      ≡ some h)
    × (toy.check (range 64 32 h) (range 0 64 h) (app_id ++ 41 ∷ 80 ∷ []) ≡ true))
verify_client_auth_iff_example =
    verify_client_auth_iff toy known (60 ∷ []) (70 ∷ []) (80 ∷ []) refl refl refl (1 ∷ [])

verify_server_ack_iff_example : ((Shs.verify_server_ack toy (1 ∷ []) known).0 ≡ ok true) ↔ (
    (sig : Bytes) × (Shs.unbox toy (toy.sha256 (app_id ++ 70 ∷ 71 ∷ 72 ∷ [])) (1 ∷ []) ≡ some sig)
    × (toy.check (50 ∷ []) sig (app_id ++ 90 ∷ 80 ∷ []) ≡ true))
verify_server_ack_iff_example =
    verify_server_ack_iff toy known (50 ∷ []) (60 ∷ []) (70 ∷ []) (80 ∷ []) (90 ∷ []) (71 ∷ [])
      (72 ∷ []) refl refl refl refl refl refl refl (1 ∷ [])
