-- ===== src/Tests/Conversed.antt =====
-- The reads of crouton/ and capnproto/, over the toy primitives and an inner stream that hands out what
-- was written to it.
use secret_handshake_capnp.Common.{
  Outcome, some, ℕ, suc, ◌≤◌, ◌≡◌, refl, Bytes, List, [], ◌∷◌, length, take, ap, take-append-drop,
  append-nil, length-take, arith,
}
use secret_handshake_capnp.Crypto.Toy.{toy, toy-IsCrypto}
use secret_handshake_capnp.Shs.{Session}
use secret_handshake_capnp.Shs.Agreement.{mirror}
use secret_handshake_capnp.Stream.Box.{compact, encryptor, decryptor}
use secret_handshake_capnp.Stream.Buffer.{new_stream, skip}
use secret_handshake_capnp.Stream.Transport.{sealed, flatten_all}
use secret_handshake_capnp.Stream.Transport.Receiver.{nothing_incomplete}
use secret_handshake_capnp.Stream.Transport.Arriving.{Awaits}
use secret_handshake_capnp.Stream.Transport.Taken.{ReadOf}
use secret_handshake_capnp.Async.{returned}
use secret_handshake_capnp.Async.Ends.{Ends, of_stream}
use secret_handshake_capnp.Capnproto.Connection.{WrappedStream, connected, try_read}
use secret_handshake_capnp.Capnproto.Reads as KjReads
use secret_handshake_capnp.Capnproto.Reads.{decrypting, try_read_lem}
use secret_handshake_capnp.Capnproto.Conversation as KjConversation
use secret_handshake_capnp.Capnproto.Conversation.{conversation}
use secret_handshake_capnp.Capnproto.Peers.{client, sessions, connection, peers_converse}
use secret_handshake_capnp.Tests.Trust.{app_id, halves, halves-Cuts, known, known_alice}
use secret_handshake_capnp.Crouton.Wrapped.{SecretHandshakeStream, read_no_copy_stream}
use secret_handshake_capnp.Crouton.Writes.{writing, sent_over}
use secret_handshake_capnp.Crouton.Writes as CroutonWrites
use secret_handshake_capnp.Crouton.Reads as CroutonReads
use secret_handshake_capnp.Crouton.Reads.{reading, read_no_copy_stream_lem}
use secret_handshake_capnp.Crouton.Conversation as CroutonConversation
use secret_handshake_capnp.Crouton.Conversation.{stream_conversation}
use secret_handshake_capnp.Tests.Wrapped.{
  pipe, pipe-IsCarrying, key_box, stream, batches, kj_pipe, acknowledging,
}

taken_nothing : (n : ℕ) (t : Bytes) → 1 ≤ n → take n t ≡ [] → t ≡ []
taken_nothing n [] h e = refl
taken_nothing n (x ∷ t) h e = absurd (omega (arith, ap length e, length-take n (x ∷ t)))

kj_pipe-IsHanding : KjReads.IsHanding kj_pipe (λ t. t)
kj_pipe-IsHanding = record {
  hands = λ most t h.
      (take-append-drop most t, omega (arith, length-take most t), taken_nothing most t h);
}

kj_pipe-IsCarrying : KjConversation.IsCarrying kj_pipe (λ t. t)
kj_pipe-IsCarrying = record { accepts = λ bytes t. refl; carries = λ bytes t. refl }

abbrev hello : List Bytes
hello = (10 ∷ 20 ∷ 30 ∷ []) ∷ []

-- A message that has not arrived yet.
coming : Awaits toy (new_stream key_box) (sealed toy key_box hello).0 (10 ∷ 20 ∷ 30 ∷ [])
coming = record {
  coming = record {
    sound = record { within = omega arith };
    messages = hello;
    small = (omega arith, tt);
    encrypted = refl;
    text_is = refl;
  };
  drained = nothing_incomplete toy (new_stream key_box) refl;
}

abbrev hearing : WrappedStream Bytes
hearing = record acknowledging { inner = (sealed toy key_box hello).0 }

abbrev more_than : Bytes → ℕ
more_than bytes = suc (length bytes)

try_read_lem_example :
    Ends of_stream
      (KjReads.Took toy (λ t. t) 1 2 (length hearing.inner) (10 ∷ 20 ∷ 30 ∷ []))
      (try_read toy kj_pipe (more_than hearing.inner) 1 2 (decrypting (new_stream key_box) hearing))
try_read_lem_example =
    try_read_lem toy-IsCrypto kj_pipe-IsHanding 1 2 (length hearing.inner) (omega arith)
      (more_than hearing.inner) (new_stream key_box) hearing (10 ∷ 20 ∷ 30 ∷ []) coming
      (omega arith) (omega arith)

abbrev agreed : Session
agreed = record {
  encryption_key = 7 ∷ 9 ∷ [];
  encryption_nonce = 1 ∷ 0 ∷ [];
  decryption_key = 8 ∷ [];
  decryption_nonce = 2 ∷ [];
  peer_public_key = 3 ∷ [];
}

abbrev speaker : WrappedStream Bytes
speaker = (connected toy kj_pipe (returned agreed, acknowledging)).1

abbrev said : Bytes
said = (KjConversation.write_all toy kj_pipe batches speaker).1.inner

abbrev listener : WrappedStream Bytes
listener =
    (connected toy kj_pipe
      (returned (mirror (4 ∷ []) agreed), record acknowledging { inner = said })).1

conversation_example :
    ((KjConversation.write_all toy kj_pipe batches speaker).0 ≡ returned tt)
    × Ends of_stream
        (λ bytes s. ReadOf 1 (3 ∷ 3 ∷ []) (flatten_all batches) bytes)
        (KjConversation.read_all toy kj_pipe (more_than said) 1 (3 ∷ 3 ∷ []) listener)
conversation_example =
    conversation toy-IsCrypto (λ t. t) kj_pipe-IsCarrying kj_pipe-IsHanding (4 ∷ []) agreed batches
      1 (3 ∷ 3 ∷ []) (more_than said) acknowledging (record acknowledging { inner = said }) refl
      (omega arith, (omega arith, tt)) refl (omega arith)

pipe-IsHanding : CroutonReads.IsHanding pipe (λ t. t)
pipe-IsHanding = record { hands = λ t. (append-nil t, λ e. e) }

read_no_copy_stream_lem_example :
    Ends of_stream (CroutonReads.Took toy (λ t. t) 2 (length hearing.inner) (10 ∷ 20 ∷ 30 ∷ [])) (
      read_no_copy_stream toy pipe
        (more_than hearing.inner)
        2
        (reading (new_stream key_box) 0 hearing.inner stream))
unfolding skip
read_no_copy_stream_lem_example =
    read_no_copy_stream_lem toy-IsCrypto pipe-IsHanding (length hearing.inner)
      (more_than hearing.inner) 2 0 (new_stream key_box) hearing.inner stream (10 ∷ 20 ∷ 30 ∷ [])
      coming (omega arith) (omega arith)

abbrev writer : SecretHandshakeStream Bytes
writer = writing (new_stream (encryptor agreed compact)) 0 [] stream

abbrev wrote : Bytes
wrote =
    sent_over toy-IsCrypto pipe (encryptor agreed compact) (λ t. t) pipe-IsCarrying
      (CroutonWrites.write_all toy-IsCrypto pipe batches writer).1.link.stream

stream_conversation_example :
    ((CroutonWrites.write_all toy-IsCrypto pipe batches writer).0 ≡ returned tt)
    × Ends of_stream
        (λ bytes s. ReadOf 1 (3 ∷ 3 ∷ []) (flatten_all batches) bytes)
        (CroutonConversation.read_all toy pipe
          (more_than wrote)
          (3 ∷ 3 ∷ [])
          (reading (new_stream (decryptor (mirror (4 ∷ []) agreed) compact)) 0 wrote stream))
stream_conversation_example =
    stream_conversation toy-IsCrypto (λ t. t) pipe-IsCarrying pipe-IsHanding (4 ∷ []) agreed batches
      (3 ∷ 3 ∷ []) (more_than wrote) [] wrote stream stream refl (omega arith, (omega arith, tt))
      refl (omega arith)

-- Alice writes to Bob, over the handshake whose messages are cut after their first byte.
abbrev pair : Outcome Session × Outcome Session
pair =
    sessions toy-IsCrypto (λ t. t) kj_pipe-IsCarrying kj_pipe-IsHanding halves halves-Cuts
      (some known) app_id (10 ∷ []) (20 ∷ []) (30 ∷ []) (40 ∷ []) known_alice client

abbrev told : Bytes
told =
    (KjConversation.write_all toy kj_pipe batches
      (connection toy kj_pipe pair.0 acknowledging)).1.inner

peers_converse_example :
    ((KjConversation.write_all toy kj_pipe batches (connection toy kj_pipe pair.0 acknowledging)).0
      ≡ returned tt)
    × Ends of_stream
        (λ bytes s. ReadOf 1 (3 ∷ 3 ∷ []) (flatten_all batches) bytes)
        (KjConversation.read_all toy kj_pipe
          (more_than told)
          1
          (3 ∷ 3 ∷ [])
          (connection toy kj_pipe pair.1 (record acknowledging { inner = told })))
peers_converse_example =
    peers_converse toy-IsCrypto (λ t. t) kj_pipe-IsCarrying kj_pipe-IsHanding halves halves-Cuts
      (some known) app_id (10 ∷ []) (20 ∷ []) (30 ∷ []) (40 ∷ []) known_alice client batches 1
      (3 ∷ 3 ∷ []) (more_than told) acknowledging (record acknowledging { inner = told }) refl
      (omega arith, (omega arith, tt)) (omega arith) refl
