-- ===== src/Tests/Wrapped.antt =====
-- The streams of crouton/ and capnproto/, over the toy primitives and an inner stream that keeps what
-- is written to it.
use secret_handshake_capnp.Common.{
  ◌≡◌, refl, Bytes, true, List, [], ◌∷◌, ◌++◌, some, none, take, drop, ◌==◌, length, arith,
}
use secret_handshake_capnp.Crypto.Toy.{toy, toy-IsCrypto, add_bytes}
use secret_handshake_capnp.Shs
use secret_handshake_capnp.Handshake
use secret_handshake_capnp.Stream.Box.{CryptoBox, compact}
use secret_handshake_capnp.Stream.Buffer.{CryptoStream, available}
use secret_handshake_capnp.Async.{returned}
use secret_handshake_capnp.Crouton.Shaking.{IoStream}
use secret_handshake_capnp.Crouton.Wrapped.{SecretHandshakeStream, new_secret_stream, write_stream}
use secret_handshake_capnp.Crouton.Writes.{IsCarrying, writing, written, write_stream_lem}
use secret_handshake_capnp.Capnproto.Writes.{encrypting, after_write, write_lem}
use secret_handshake_capnp.Capnproto.Connection.{write, write_pieces}
use secret_handshake_capnp.Stream.Encryption.Bytewise.{flushed, put_bytes}
use secret_handshake_capnp.Capnproto.Connection.{AsyncIoStream, WrappedStream, new_wrapped, connect}
use secret_handshake_capnp.Capnproto.Connect.{Connected, connect-Connected}

abbrev pub pipe : IoStream Bytes
pipe = record {
  is_open = λ t. true;
  open_inner = λ t. (returned tt, t);
  read = λ n t. (returned (take n t), drop n t);
  read_no_copy = λ t. (returned t, []);
  write = λ bytes t. (returned tt, t ++ bytes);
  close = λ t. (returned tt, t);
  close_write = λ t. (returned tt, t);
}

abbrev pub key_box : CryptoBox
key_box = record { key = 7 ∷ 9 ∷ []; nonce = 1 ∷ 0 ∷ []; protocol = compact }

pub pipe-IsCarrying : IsCarrying toy-IsCrypto pipe (λ t. t)
pipe-IsCarrying = record { accepts = λ bytes t. refl; carries = λ bytes t. refl }

abbrev pub stream : SecretHandshakeStream Bytes
stream = new_secret_stream (some []) (
    Handshake.create_server toy
      (record { app_id = 1 ∷ []; signing_key = 2 ∷ []; public_key = 3 ∷ [] }) (4 ∷ []))

abbrev pub batches : List (List Bytes)
batches = ((10 ∷ []) ∷ (20 ∷ 30 ∷ []) ∷ []) ∷ ((40 ∷ []) ∷ []) ∷ []

abbrev writer : CryptoStream
writer = record { buffer = 5 ∷ 6 ∷ 7 ∷ []; processed = 2; box = key_box }

write_stream_lem_example :
    let w' = written toy 2 ((8 ∷ []) ∷ []) writer in
    write_stream toy pipe ((8 ∷ []) ∷ []) (writing writer 2 [] stream)
    ≡ (returned tt, writing w' (length (available w')) (available w') stream)
write_stream_lem_example =
    write_stream_lem toy-IsCrypto pipe ((8 ∷ []) ∷ []) 2 writer [] stream
      (record { within = omega arith; bounded = omega arith })

abbrev pub kj_pipe : AsyncIoStream Bytes
kj_pipe = record {
  read = λ n t. (returned (take n t), drop n t);
  try_read = λ least most t. (returned (take most t), drop most t);
  write = λ bytes t. (returned tt, t ++ bytes);
  shutdown_write = λ t. t;
  abort_read = λ t. t;
}

-- A server that has yet to send its acknowledgement, and accepts clients whose key has one byte.
abbrev pub acknowledging : WrappedStream Bytes
acknowledging =
    new_wrapped []
      (record {
        role = Handshake.server none;
        context = record { app_id = 1 ∷ []; signing_key = 2 ∷ []; public_key = 3 ∷ [] };
        step = Handshake.server_ack;
        error = Handshake.no_error;
        impl = record {
          app_id = 1 ∷ [];
          signing_key = 2 ∷ [];
          public_key = 3 ∷ [];
          ephemeral_key = 4 ∷ [];
          ephemeral_public = 5 ∷ [];
          peer_public_key = some (6 ∷ []);
          peer_ephemeral = some (7 ∷ []);
          ab = some (8 ∷ []);
          hash_ab = some (9 ∷ []);
          a_b_long = some (10 ∷ []);
          a_long_b = some (11 ∷ []);
          server_ack_key = none;
          h = some (12 ∷ []);
        };
        input_buffer = [];
        output_buffer = [];
      })
      (some (λ key. length key == 1))

acknowledged : (connect toy kj_pipe 2 acknowledging).0 ≡ returned tt
unfolding connect Handshake.finished? Handshake.bytes_to_send Handshake.produce
    Shs.create_server_ack add_bytes Handshake.send_completed Handshake.next_step Handshake.session
    Shs.get_outcome
acknowledged = refl

connect-Connected_example :
    Connected (some (λ key. length key == 1)) (connect toy kj_pipe 2 acknowledging).1
connect-Connected_example = connect-Connected toy kj_pipe 2 acknowledging acknowledged

write_lem_example :
    let w' = flushed toy (put_bytes toy writer (8 ∷ 9 ∷ [])) in
    let result = after_write w' acknowledging (returned tt, available w') in
    (write_pieces toy kj_pipe ((8 ∷ []) ∷ (9 ∷ []) ∷ []) (encrypting writer acknowledging) ≡ result)
    × (write toy kj_pipe (8 ∷ 9 ∷ []) (encrypting writer acknowledging) ≡ result)
write_lem_example =
    write_lem toy-IsCrypto kj_pipe ((8 ∷ []) ∷ (9 ∷ []) ∷ []) writer acknowledging
      (record { within = omega arith; bounded = omega arith })
