-- ===== src/CApi/Boxes.antt =====
-- src/SecretStream.cc, its last part, and include/SecretStream.h: the C functions over `EncryptoBox` and
-- `DecryptoBox` objects. A buffer's size on entry is the length of its bytes.
use secret_handshake_capnp.Common.{
  ℕ, ◌≤◌, ◌≡◌, refl, Bytes, false, some, ◌++◌, length, get_elem?, set, get_elem?-set_other, ◌==◌,
  ok, Exec, gets,
}
use secret_handshake_capnp.Crypto.{Crypto, IsCrypto}
use secret_handshake_capnp.Shs.{Session}
use secret_handshake_capnp.Stream.Box
use secret_handshake_capnp.Stream.Box.{
  CryptoBox, Protocol, Status, success, PeekResult, Decrypted, encryptor, decryptor,
  max_message_size,
}
use secret_handshake_capnp.Stream.Box.RoundTrip.{decrypt-seal, encrypt_lem}
use secret_handshake_capnp.CApi.{Heap, new_object, internal, free_object}

abbrev pub Boxes : Type 0
Boxes = Heap CryptoBox

unfoldable pub encrypto_box_create : Session → Protocol → Boxes → ℕ × Boxes
encrypto_box_create session protocol = new_object (encryptor session protocol)

unfoldable pub decrypto_box_create : Session → Protocol → Boxes → ℕ × Boxes
decrypto_box_create session protocol = new_object (decryptor session protocol)

-- `SHSEncryptoBox_Free` and `SHSDecryptoBox_Free`
unfoldable pub box_free : ℕ → Exec Boxes (Unit {0})
box_free p boxes = free_object p (get_elem? boxes p) boxes

unfoldable pub encrypto_box_get_encrypted_size : ℕ → ℕ → Exec Boxes ℕ
encrypto_box_get_encrypted_size p input_size =
    internal p (gets (λ b. Box.encrypted_size b input_size))

unfoldable pub decrypto_box_min_peek_size : ℕ → Exec Boxes ℕ
decrypto_box_min_peek_size p = internal p (gets Box.min_peek_size)

module _ (c : Crypto) where
  unfoldable pub encrypto_box_encrypt : ℕ → Bytes → ℕ → Exec Boxes (Status × Bytes)
  encrypto_box_encrypt p input capacity = internal p (Box.encrypt c input capacity)

  unfoldable pub decrypto_box_peek : ℕ → Bytes → Exec Boxes PeekResult
  decrypto_box_peek p input = internal p (gets (λ b. Box.peek c b input))

  -- The status, what was written to the output, and the input that is left.
  unfoldable pub decrypto_box_decrypt : ℕ → Bytes → Bytes → Exec Boxes (Status × Bytes × Bytes)
  decrypto_box_decrypt p input output =
      internal p
        λ b. let r = Box.decrypt c b input output in (ok (r.status, r.plaintext, r.rest), r.box)

module _ {c : Crypto} (laws : IsCrypto c) where
  -- With primitives that behave as documented, two handles on boxes with the same key, nonce and
  -- protocol, a message of at most 65535 bytes, and room for it at both ends: the C functions encrypt
  -- the message and decrypt it again, with what follows it left over, and both boxes then have the
  -- same nonce.
  pub encrypt-decrypt :
      (boxes : Boxes) (p q : ℕ) (b : CryptoBox) (m v out : Bytes) (capacity : ℕ)
      → get_elem? boxes p ≡ some (some b)
      → get_elem? boxes q ≡ some (some b)
      → (p == q) ≡ false
      → length m ≤ max_message_size
      → length m ≤ length out
      → Box.encrypted_size b (length m) ≤ capacity
      → (bytes : Bytes) × (b' : CryptoBox) × (encrypto_box_encrypt c p m capacity boxes
          ≡ (ok (success, bytes), set boxes p (some b')))
        × (decrypto_box_decrypt c q (bytes ++ v) out (set boxes p (some b'))
            ≡ (ok (success, m, v), set (set boxes p (some b')) q (some b')))
  unfolding encrypto_box_encrypt decrypto_box_decrypt
  encrypt-decrypt boxes p q b m v out capacity is_p is_q apart small fits room =
      let (bytes, b') = Box.seal c b.protocol b m in
      let encrypted = (encrypt_lem laws b m capacity small room).0 in
      (
        bytes,
        b',
        rw (is_p, encrypted) refl,
        rw
            (
              get_elem?-set_other boxes p q (some b') apart,
              is_q,
              decrypt-seal laws b m v out small fits,
            )
            refl,
      )
