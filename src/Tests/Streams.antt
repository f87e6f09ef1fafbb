-- ===== src/Tests/Streams.antt =====
-- Streams and boxes of src/SecretStream.cc, over the toy primitives.
use secret_handshake_capnp.Common.{
  ◌≡◌, refl, Bytes, true, List, [], ◌∷◌, ◌++◌, length, take, drop, ok, and_then, arith, bytes_eq,
  ap, ◌∙◌, append-nil, take-append-drop,
}
use secret_handshake_capnp.Crypto.Toy.{toy, toy-IsCrypto, add_bytes, open_sealed, increment}
use secret_handshake_capnp.Stream.Uint16.{write_uint16}
use secret_handshake_capnp.Stream.Box
use secret_handshake_capnp.Stream.Box.{CryptoBox, compact, box_stream, success, seal}
use secret_handshake_capnp.Stream.Buffer
use secret_handshake_capnp.Stream.Buffer.{CryptoStream, IsStream, available, pending, new_stream}
use secret_handshake_capnp.Stream.Encryption
use secret_handshake_capnp.Stream.Encryption.{append}
use secret_handshake_capnp.Stream.Encryption.Bytewise.{
  IsEncrypting, put_bytes, push_partial_lem, push_partial-append,
}
use secret_handshake_capnp.Stream.Decryption
use secret_handshake_capnp.Stream.Decryption.Pieces.{Drained, push-Drained}
use secret_handshake_capnp.Stream.Transport.Sender
use secret_handshake_capnp.Stream.Transport.Sender.{
  Call, pushes, push_partials, flushes, pulls, run, given,
}
use secret_handshake_capnp.Stream.Transport.Delivery.{push_all, delivery, delivery_so_far}

abbrev box : CryptoBox
box = record { key = 7 ∷ 9 ∷ []; nonce = 1 ∷ 0 ∷ []; protocol = box_stream }

-- Two messages, the first pulled in part, and a third that is not flushed.
abbrev calls : List Call
calls =
    pushes (10 ∷ 20 ∷ [])
    ∷ pulls 30
    ∷ push_partials (30 ∷ [])
    ∷ flushes
    ∷ push_partials (40 ∷ [])
    ∷ []

abbrev sender : Bytes × CryptoStream
sender = run toy calls (new_stream box)

abbrev wire : Bytes
wire = sender.0 ++ available sender.1

sent_sizes : length wire ≡ 71
unfolding run Sender.perform Encryption.push Encryption.push_partial Encryption.push_loop
    Encryption.flush Box.encrypt Box.encrypted_size seal write_uint16 Buffer.pull Buffer.skip
    add_bytes open_sealed increment bytes_eq
sent_sizes = refl

cut_wire : take 40 wire ++ (drop 40 wire ++ []) ≡ wire
cut_wire = ap (◌++◌ (take 40 wire)) (append-nil (drop 40 wire)) ∙ take-append-drop 40 wire

-- The wire is cut within the second message.
delivery_example :
    let (verdict, receiver) = push_all toy (take 40 wire) (drop 40 wire ∷ []) (new_stream box) in
    (verdict ≡ ok true)
    × (available receiver ++ pending sender.1 ≡ 10 ∷ 20 ∷ 30 ∷ 40 ∷ [])
    × (receiver.box ≡ sender.1.box)
    × (pending receiver ≡ [])
delivery_example = delivery toy-IsCrypto box calls (take 40 wire) (drop 40 wire ∷ []) cut_wire

delivery_so_far_example :
    let (verdict, receiver) = Decryption.push toy (take 40 wire) (new_stream box) in
    (verdict ≡ ok true) × ((later : Bytes) × (available receiver ++ later ≡ 10 ∷ 20 ∷ 30 ∷ 40 ∷ []))
delivery_so_far_example =
    delivery_so_far toy-IsCrypto box calls (take 40 wire) (drop 40 wire) (take-append-drop 40 wire)

-- A stream with two processed bytes and one that is not.
abbrev stream : CryptoStream
stream = record { buffer = 5 ∷ 6 ∷ 7 ∷ []; processed = 2; box = box }

stream-IsStream : IsStream stream
stream-IsStream = record { within = omega arith }

stream-IsEncrypting : IsEncrypting stream
stream-IsEncrypting = record { within = omega arith; bounded = omega arith }

push_partial_lem_example :
    (Encryption.push_partial toy (8 ∷ 9 ∷ []) stream ≡ (ok tt, put_bytes toy stream (8 ∷ 9 ∷ [])))
    × IsEncrypting (put_bytes toy stream (8 ∷ 9 ∷ []))
push_partial_lem_example = push_partial_lem toy-IsCrypto (8 ∷ 9 ∷ []) stream stream-IsEncrypting

push_partial-append_example :
    and_then
      (Encryption.push_partial toy (8 ∷ []) stream)
      (λ _. Encryption.push_partial toy (9 ∷ []))
    ≡ Encryption.push_partial toy (8 ∷ 9 ∷ []) stream
push_partial-append_example =
    push_partial-append toy-IsCrypto (8 ∷ []) (9 ∷ []) stream stream-IsEncrypting

push-Drained_example : Drained toy stream (Decryption.push toy (1 ∷ 2 ∷ []) stream)
push-Drained_example = push-Drained toy (1 ∷ 2 ∷ []) stream stream-IsStream
