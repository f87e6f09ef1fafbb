-- ===== src/Tests/Settled.antt =====
-- `wrap` of capnproto/SecretConnection.cc and `handshake` of crouton/SecretHandshakeStream.cc, over the
-- toy primitives and a recording of the peer.
use secret_handshake_capnp.Common.{
  ◌≡◌, refl, Bytes, false, [], ◌∷◌, ◌++◌, some, none, drop, take, length-take, resize,
  length-resize, bytes_eq, arith,
}
use secret_handshake_capnp.Crypto.Toy.{toy, toy-IsCrypto, add_bytes, open_sealed}
use secret_handshake_capnp.Shs
use secret_handshake_capnp.Shs.Agreement.{client_session}
use secret_handshake_capnp.Handshake
use secret_handshake_capnp.Handshake.Invariant.{perform, run}
use secret_handshake_capnp.Handshake.Trust.{start}
use secret_handshake_capnp.Async.{returned}
use secret_handshake_capnp.Capnproto.Connection.{AsyncIoStream, connect, run_handshake, wrap}
use secret_handshake_capnp.Capnproto.Rounds.{IsOrderly}
use secret_handshake_capnp.Capnproto.Settles.{Settled, wrap-Settled}
use secret_handshake_capnp.Crouton.Shaking.{IoStream, new_handshake, handshake}
use secret_handshake_capnp.Crouton.Rounds
use secret_handshake_capnp.Crouton.Wrapped.{SecretHandshakeStream, new_secret_stream, open_stream}
use secret_handshake_capnp.Crouton.Opens.{OpensOrNot, delegated_handshake, open_stream-OpensOrNot}
use secret_handshake_capnp.Crouton.Settles.{Ended, handshake-Ended}
use secret_handshake_capnp.Tests.Trust.{alice, challenging_server, acknowledging_server, message}

-- A stream that hands out recorded bytes, and zeros after them, and drops what is written to it.
abbrev pub replay : AsyncIoStream Bytes
replay = record {
  read = λ n t. (returned (resize n t), drop n t);
  try_read = λ least most t. (returned (resize most t), drop most t);
  write = λ bytes t. (returned tt, t);
  shutdown_write = λ t. t;
  abort_read = λ t. t;
}

pub replay-IsOrderly : IsOrderly replay
replay-IsOrderly = record { reads = length-resize; writes = λ bytes t. tt }

-- What the server says in a whole handshake with this client.
abbrev recorded : Bytes
recorded = message challenging_server ++ message acknowledging_server

abbrev bob_key : Bytes
bob_key = toy.get_public_key (40 ∷ [])

replay_returns : (wrap toy replay 5 alice (some bob_key) none (10 ∷ []) recorded).0 ≡ returned tt
unfolding wrap connect run_handshake Handshake.session run perform Handshake.send_completed
    Handshake.bytes_to_send Handshake.received_bytes start Handshake.set_client_authorizer
    Handshake.create_server Handshake.create_client Handshake.create_handshake Handshake.produce
    Shs.create_challenge add_bytes open_sealed Shs.set_server_public_key Shs.create
    Handshake.read_completed Handshake.process bytes_eq Handshake.conclude Handshake.finished?
    Handshake.next_step Shs.client_auth_key Shs.create_client_auth Shs.create_server_ack
    Shs.get_outcome Shs.get_peer_public_key Shs.server_ack_box_key Shs.verify_challenge
    Shs.verify_client_auth Shs.verify_server_ack client_session Handshake.fill_input
    Handshake.bytes_to_read
replay_returns = refl

wrap-Settled_example :
    Settled toy alice
      (some bob_key)
      none
      (10 ∷ [])
      (wrap toy replay 5 alice (some bob_key) none (10 ∷ []) recorded)
wrap-Settled_example =
    wrap-Settled toy-IsCrypto replay-IsOrderly none alice (10 ∷ []) (some bob_key) 5 recorded
      (omega arith)

-- The same, for Crouton; it ends with the recorded bytes.
abbrev playback : IoStream Bytes
playback = record {
  is_open = λ t. false;
  open_inner = λ t. (returned tt, t);
  read = λ n t. (returned (take n t), drop n t);
  read_no_copy = λ t. (returned t, []);
  write = λ bytes t. (returned tt, t);
  close = λ t. (returned tt, t);
  close_write = λ t. (returned tt, t);
}

playback-IsOrderly : Rounds.IsOrderly playback
playback-IsOrderly = record {
  reads = λ n t. omega (arith, length-take n t);
  writes = λ bytes t. tt;
  opens = λ t. tt;
}

handshake-Ended_example : Ended toy-IsCrypto playback-IsOrderly alice (10 ∷ []) (some bob_key) (
    handshake toy playback 5 (record {
      handshake = some (new_handshake toy playback alice (some bob_key) (10 ∷ []));
      stream = some recorded;
    }))
handshake-Ended_example =
    handshake-Ended toy-IsCrypto playback-IsOrderly alice (10 ∷ []) (some bob_key) 5 recorded
      (omega arith)

-- A client, which has no authorizer to set.
abbrev opening : SecretHandshakeStream Bytes
opening =
    new_secret_stream (some recorded) (new_handshake toy playback alice (some bob_key) (10 ∷ []))

opening_returns : (open_stream toy playback 5 opening).0 ≡ returned tt
unfolding open_stream handshake Handshake.session run perform Handshake.send_completed
    Handshake.bytes_to_send Handshake.received_bytes start Handshake.set_client_authorizer
    Handshake.create_server Handshake.create_client Handshake.create_handshake Handshake.produce
    Shs.create_challenge add_bytes open_sealed Shs.set_server_public_key Shs.create
    Handshake.read_completed Handshake.process bytes_eq Handshake.conclude Handshake.finished?
    Handshake.next_step Shs.client_auth_key Shs.create_client_auth Shs.create_server_ack
    Shs.get_outcome Shs.get_peer_public_key Shs.server_ack_box_key Shs.verify_challenge
    Shs.verify_client_auth Shs.verify_server_ack client_session Handshake.fill_input
    Handshake.bytes_to_read
opening_returns = refl

open_stream-OpensOrNot_example :
    OpensOrNot
      (delegated_handshake toy playback 5 opening.delegate opening.link).0
      opening
      (open_stream toy playback 5 opening)
open_stream-OpensOrNot_example = open_stream-OpensOrNot toy playback opening 5
