-- ===== src/Tests/CApi.antt =====
-- The C functions of src/SecretHandshake.cc and src/SecretStream.cc, over the toy primitives.
use secret_handshake_capnp.Common.{
  ◌≡◌, refl, Bytes, ℕ, List, [], ◌∷◌, ◌++◌, some, none, set, true, false, ok, arith, resize,
}
use secret_handshake_capnp.Stream.Box.{CryptoBox, box_stream, success, encrypted_size}
use secret_handshake_capnp.CApi.Boxes.{
  Boxes, encrypto_box_encrypt, decrypto_box_decrypt, encrypt-decrypt,
}
use secret_handshake_capnp.Crypto.Toy.{toy, toy-IsCrypto, add_bytes}
use secret_handshake_capnp.Handshake
use secret_handshake_capnp.CApi.{
  key_pair_regenerate, handshake_create_client, handshake_create_server, handshake_free,
  handshake_finished, handshake_get_bytes_to_send, handshake_received_bytes,
  handshake_send_completed, handshake_get_bytes_needed, handshake_get_error,
}
use secret_handshake_capnp.Handshake.{auth_error}
use secret_handshake_capnp.Shs
use secret_handshake_capnp.Shs.{Session}
use secret_handshake_capnp.Stream.Box.{PeekResult, incomplete_input}
use secret_handshake_capnp.Keys.{KeyPair, IsKeyPair, data_of}
use secret_handshake_capnp.CApi.{shs_key_pair}
use secret_handshake_capnp.CApi.Layout.{
  shs_session_of, session_of, renamed, shs_key_pair_at, shs_error_at, error_number, error_renamed,
  protocol_at, protocol_number, shs_box_stream, protocol_renamed, shs_peek_result_at, peek_words,
  status_renamed, casts_keep_members,
}
use secret_handshake_capnp.CApi.Calls.{
  Request, create_client, create_server, free, call, get_bytes_to_send, received_bytes,
  send_completed, get_bytes_needed, get_error, finished, c_call, c_step, c_run,
}
use secret_handshake_capnp.CApi.Interleaved.{Separate, c_run-Separate}

abbrev app_id : Bytes
app_id = 1 ∷ 2 ∷ []

-- A server is made and a client; the server is freed, and a handshake made after that.
abbrev requests : List Request
requests =
    create_server app_id (key_pair_regenerate toy (40 ∷ [])) (30 ∷ [])
    ∷ create_client app_id (key_pair_regenerate toy (20 ∷ [])) (41 ∷ []) (10 ∷ [])
    ∷ call 1 get_bytes_to_send
    ∷ call 0 (received_bytes (5 ∷ 6 ∷ []))
    ∷ call 1 send_completed
    ∷ call 0 get_bytes_needed
    ∷ free 0
    ∷ create_server app_id (key_pair_regenerate toy (40 ∷ [])) (31 ∷ [])
    ∷ call 1 (received_bytes (7 ∷ []))
    ∷ call 2 get_error
    ∷ []

c_run-Separate_example : Separate toy 0 requests [] 1 (c_run toy requests [])
c_run-Separate_example = c_run-Separate toy requests [] 1

-- It goes on to its end.
runs_through : elim (c_run toy requests []) [ none ↦ false | some result ↦ true ] ≡ true
unfolding c_run c_step c_call handshake_create_client handshake_create_server handshake_free
    handshake_get_bytes_to_send Handshake.bytes_to_send Handshake.create_client Handshake.produce
    handshake_received_bytes Handshake.received_bytes Handshake.create_server
    handshake_send_completed Handshake.send_completed Shs.create_challenge add_bytes
    Shs.set_server_public_key Shs.create Handshake.next_step handshake_get_bytes_needed
    handshake_get_error
runs_through = refl

-- A freed server is used.
abbrev misused : List Request
misused = create_server [] (key_pair_regenerate toy (40 ∷ [])) [] ∷ free 0 ∷ call 0 finished ∷ []

misused_ends : c_run toy misused [] ≡ none
unfolding c_run c_step c_call handshake_create_server handshake_free handshake_finished
    Handshake.create_server
misused_ends = refl

abbrev box : CryptoBox
box = record { key = 7 ∷ 9 ∷ []; nonce = 1 ∷ 0 ∷ []; protocol = box_stream }

abbrev boxes : Boxes
boxes = some box ∷ none ∷ some box ∷ []

encrypt-decrypt_example :
    (bytes : Bytes) × (b' : CryptoBox) × (encrypto_box_encrypt toy 0 (5 ∷ 6 ∷ []) 40 boxes
      ≡ (ok (success, bytes), set boxes 0 (some b')))
    × (decrypto_box_decrypt toy 2 (bytes ++ 8 ∷ []) (0 ∷ 0 ∷ 0 ∷ []) (set boxes 0 (some b'))
        ≡ (ok (success, 5 ∷ 6 ∷ [], 8 ∷ []), set (set boxes 0 (some b')) 2 (some b')))
unfolding encrypted_size
encrypt-decrypt_example =
    encrypt-decrypt toy-IsCrypto boxes 0 2 box (5 ∷ 6 ∷ []) (8 ∷ []) (0 ∷ 0 ∷ 0 ∷ []) 40 refl refl
      refl (omega arith) (omega arith) (omega arith)

abbrev zeros : ℕ → Bytes
zeros n = resize n []

abbrev zero_session : Session
zero_session = record {
  encryption_key = 1 ∷ zeros 31;
  encryption_nonce = 2 ∷ zeros 23;
  decryption_key = 3 ∷ zeros 31;
  decryption_nonce = 4 ∷ zeros 23;
  peer_public_key = 5 ∷ zeros 31;
}

abbrev a_pair : KeyPair
a_pair = record { signing_key = 6 ∷ zeros 31; public_key = 7 ∷ zeros 31 }

a_pair-IsKeyPair : IsKeyPair a_pair
a_pair-IsKeyPair = record { signing_size = refl; public_size = refl }

abbrev peeked : PeekResult
peeked = record { status = incomplete_input; decrypted_size = 0; encrypted_size = 2 }

casts_keep_members_example :
    (shs_session_of zero_session ≡ renamed zero_session)
    × (session_of (shs_session_of zero_session) ≡ zero_session)
    × (shs_key_pair_at (data_of a_pair) ≡ shs_key_pair a_pair)
    × (shs_error_at (error_number auth_error) ≡ some (error_renamed auth_error))
    × (protocol_at (protocol_number shs_box_stream) ≡ some (protocol_renamed shs_box_stream))
    × (shs_peek_result_at (peek_words peeked)
        ≡ some (record {
          status = status_renamed peeked.status;
          decrypted_size = peeked.decrypted_size;
          encrypted_size = peeked.encrypted_size;
        }))
casts_keep_members_example =
    casts_keep_members zero_session a_pair auth_error shs_box_stream peeked
      (record {
        encryption_key_size = refl;
        encryption_nonce_size = refl;
        decryption_key_size = refl;
        decryption_nonce_size = refl;
        peer_size = refl;
      })
      a_pair-IsKeyPair
