-- ===== src/Tests/Boxes.antt =====
-- Messages of src/SecretStream.cc, over the toy primitives.
use secret_handshake_capnp.Common.{
  ◌≤◌, ◌≡◌, refl, Bytes, [], ◌∷◌, ◌++◌, length, ok, arith, bytes_eq,
}
use secret_handshake_capnp.Crypto.Toy.{toy, toy-IsCrypto, add_bytes, open_sealed, increment}
use secret_handshake_capnp.Stream.Uint16.{write_uint16, read_uint16, read-write_uint16}
use secret_handshake_capnp.Stream.Box
use secret_handshake_capnp.Stream.Box.{
  CryptoBox, compact, box_stream, success, incomplete_input, out_too_small, corrupt_data, seal,
  Decrypted,
}
use secret_handshake_capnp.Stream.Box.RoundTrip.{decrypt-seal, encrypt_lem}
use secret_handshake_capnp.Stream.Box.Sizes.{decrypt_unchanged}
use secret_handshake_capnp.Stream.Box.Stable.{decrypt-append, decrypt_corrupt-append, success_with}

abbrev box : CryptoBox
box = record { key = 7 ∷ 9 ∷ []; nonce = 1 ∷ 0 ∷ []; protocol = compact }

-- The message 65 66, encrypted.
abbrev encrypted : Bytes
encrypted = 0 ∷ 2 ∷ 8 ∷ 9 ∷ 0 ∷ 0 ∷ 0 ∷ 0 ∷ 0 ∷ 0 ∷ 0 ∷ 0 ∷ 0 ∷ 0 ∷ 0 ∷ 0 ∷ 0 ∷ 0 ∷ 65 ∷ 66 ∷ []

encrypted_is : (seal toy compact box (65 ∷ 66 ∷ [])).0 ≡ encrypted
unfolding seal write_uint16 add_bytes open_sealed increment
encrypted_is = refl

opens : (Box.decrypt toy box encrypted (0 ∷ 0 ∷ [])).status ≡ success
unfolding Box.decrypt Box.decrypt_at Box.check_sizes Box.peek_at Box.encrypted_size read_uint16
    add_bytes open_sealed increment bytes_eq
opens = refl

-- The last byte of the MAC is changed.
abbrev forged : Bytes
forged = 0 ∷ 2 ∷ 8 ∷ 9 ∷ 0 ∷ 0 ∷ 0 ∷ 0 ∷ 0 ∷ 0 ∷ 0 ∷ 0 ∷ 0 ∷ 0 ∷ 0 ∷ 0 ∷ 0 ∷ 1 ∷ 65 ∷ 66 ∷ []

refused : (Box.decrypt toy box forged (0 ∷ 0 ∷ [])).status ≡ corrupt_data
unfolding Box.decrypt Box.decrypt_at Box.check_sizes Box.peek_at Box.encrypted_size read_uint16
    add_bytes open_sealed increment bytes_eq
refused = refl

read-write_uint16_example : read_uint16 (write_uint16 513 ++ 9 ∷ []) ≡ 513
read-write_uint16_example = read-write_uint16 513 (9 ∷ []) (omega arith)

decrypt-seal_example :
    Box.decrypt toy box ((seal toy compact box (65 ∷ 66 ∷ [])).0 ++ 1 ∷ []) (0 ∷ 0 ∷ [])
    ≡ success_with (65 ∷ 66 ∷ []) (1 ∷ []) (seal toy compact box (65 ∷ 66 ∷ [])).1
decrypt-seal_example =
    decrypt-seal toy-IsCrypto box (65 ∷ 66 ∷ []) (1 ∷ []) (0 ∷ 0 ∷ []) (omega arith) (omega arith)

encrypt_lem_example :
    let (bytes, b) = seal toy compact box (65 ∷ 66 ∷ []) in
    (Box.encrypt toy (65 ∷ 66 ∷ []) 20 box ≡ (ok (success, bytes), b))
    × (length bytes ≡ Box.encrypted_size box 2)
encrypt_lem_example = encrypt_lem toy-IsCrypto box (65 ∷ 66 ∷ []) 20 (omega arith) size
  where
    size : Box.encrypted_size box 2 ≤ 20
    size = unfold Box.encrypted_size in omega arith

decrypt-append_example :
    Box.decrypt toy box (encrypted ++ 1 ∷ []) (0 ∷ 0 ∷ 0 ∷ [])
    ≡ record (Box.decrypt toy box encrypted (0 ∷ 0 ∷ [])) {
      rest = (Box.decrypt toy box encrypted (0 ∷ 0 ∷ [])).rest ++ 1 ∷ [];
    }
decrypt-append_example = decrypt-append toy box encrypted (1 ∷ []) (0 ∷ 0 ∷ []) (0 ∷ []) opens

decrypt_corrupt-append_example :
    (Box.decrypt toy box (forged ++ 1 ∷ []) (0 ∷ 0 ∷ 0 ∷ [])).status ≡ corrupt_data
decrypt_corrupt-append_example =
    decrypt_corrupt-append toy box forged (1 ∷ []) (0 ∷ 0 ∷ []) (0 ∷ []) refused

decrypt_unchanged_example :
    let d = Box.decrypt toy box forged (0 ∷ 0 ∷ []) in
    (d.plaintext ≡ []) × (d.rest ≡ forged) × (d.box ≡ box)
decrypt_unchanged_example = decrypt_unchanged toy box forged (0 ∷ 0 ∷ []) (rw refused (λ p. cc))
