-- ===== src/Handshake/Stages/Owns.antt =====
-- src/shs.cc: a handshake keeps its app ID, its public key and its ephemeral key.
use secret_handshake_capnp.Common.{Bytes, arith}
use secret_handshake_capnp.Crypto.{Crypto}
use secret_handshake_capnp.Shs
use secret_handshake_capnp.Handshake
use secret_handshake_capnp.Handshake.{
  Step, failed, client_challenge, server_challenge, client_auth, server_ack, finished, Role, client,
  server, next, bytes_wanted,
}
use secret_handshake_capnp.Handshake.Stages.{Owns}

module _ (c : Crypto) (k p x : Bytes) where
  pub process-Owns :
      (r : Role) (step : Step) (m : Bytes) (s : Shs.Shs)
      → Owns c k p x s
      → Owns c k p x (Handshake.process c r step m s).1
  unfolding Handshake.process Shs.verify_challenge Shs.verify_server_ack Shs.verify_client_auth
      Shs.get_peer_public_key
  process-Owns client step m s o = ground arith
  process-Owns (server a) step m s o = ground arith

  pub produce-Owns :
      (r : Role) (step : Step) (s : Shs.Shs)
      → Owns c k p x s
      → Owns c k p x (Handshake.produce c r step s).1
  unfolding Handshake.produce Shs.create_client_auth Shs.create_server_ack
  produce-Owns client step s o = ground arith
  produce-Owns (server a) step s o = ground arith
