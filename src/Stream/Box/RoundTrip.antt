-- ===== src/Stream/Box/RoundTrip.antt =====
-- src/SecretStream.cc: what `encrypt` writes, `decrypt` reads.
use secret_handshake_capnp.Common.{
  ℕ, ◌+◌, ◌-◌, ◌≤◌, ◌≡◌, refl, ap, ap₂, ◌∙◌, Bytes, some, [], ◌++◌, length, drop, length-append,
  take-append, drop-append, take_all, append_assoc, le→not_ltb, ok, arith,
}
use secret_handshake_capnp.Crypto.{Crypto, IsCrypto}
use secret_handshake_capnp.Stream.Uint16.{write_uint16, length-write_uint16, read-write_uint16}
use secret_handshake_capnp.Stream.Box
use secret_handshake_capnp.Stream.Box.{
  CryptoBox, Protocol, compact, box_stream, success, PeekResult, prefix_size, header_size, overhead,
  max_message_size, Decrypted, seal,
}
use secret_handshake_capnp.Stream.Box.Stable.{decrypt_at_computes, success_with}

module _ {c : Crypto} (laws : IsCrypto c) where
  open c use {xsalsa20, xchacha20, next_nonce}

  abbrev header : CryptoBox → Bytes → Bytes
  header b m = write_uint16 (length m) ++ xsalsa20.lock_mac b.key b.nonce m

  length-header : (b : CryptoBox) (m : Bytes) → length (header b m) ≡ 18
  length-header b m = omega (
    arith,
    length-append (write_uint16 (length m)) (xsalsa20.lock_mac b.key b.nonce m),
    length-write_uint16 (length m),
    laws.xsalsa20_IsCipher.mac_size b.key b.nonce m,
  )

  -- An encrypted message is longer than the message by what its protocol adds.
  pub length-seal :
      (p : Protocol) (b : CryptoBox) (m : Bytes) → length (seal c p b m).0 ≡ overhead p + length m
  unfolding seal
  length-seal box_stream b m = omega (
    arith,
    length-append (xsalsa20.box b.key (next_nonce b.nonce) (header b m))
        (xsalsa20.lock b.key b.nonce m),
    laws.xsalsa20_IsCipher.box_size b.key (next_nonce b.nonce) (header b m),
    laws.xsalsa20_IsCipher.lock_size b.key b.nonce m,
    length-header b m,
  )
  length-seal compact b m = omega (
    arith,
    length-append (write_uint16 (length m)) (xchacha20.box b.key b.nonce m),
    length-write_uint16 (length m),
    laws.xchacha20_IsCipher.box_size b.key b.nonce m,
  )

  overhead-le : (p : Protocol) → overhead p ≤ 34
  overhead-le box_stream = omega arith
  overhead-le compact = omega arith

  -- A message of at most 65535 bytes is encrypted, if the buffer has the room that `encryptedSize`
  -- asks for, and fills just that.
  pub encrypt_lem :
      (b : CryptoBox) (m : Bytes) (capacity : ℕ)
      → length m ≤ max_message_size
      → Box.encrypted_size b (length m) ≤ capacity
      → let (bytes, b') = seal c b.protocol b m in
        (Box.encrypt c m capacity b ≡ (ok (success, bytes), b'))
        × (length bytes ≡ Box.encrypted_size b (length m))
  unfolding Box.encrypt Box.encrypted_size
  encrypt_lem b m capacity small room =
      (ground arith, ground (arith, length-seal b.protocol b m, overhead-le b.protocol))

  abbrev read_result : Protocol → Bytes → PeekResult
  read_result p m = record {
    status = success;
    decrypted_size = length m;
    encrypted_size = overhead p + length m;
  }

  sizes_fit :
      (p : Protocol) (b : CryptoBox) (m v out : Bytes)
      → length m ≤ length out
      → Box.check_sizes (read_result p m) ((seal c p b m).0 ++ v) out ≡ success
  unfolding Box.check_sizes
  sizes_fit p b m v out room = ground (arith, length-append (seal c p b m).0 v, length-seal p b m)

  module _ (b : CryptoBox) (m v out : Bytes) where
    abbrev boxed_header : Bytes
    boxed_header = xsalsa20.box b.key (next_nonce b.nonce) (header b m)

    abbrev ciphertext : Bytes
    ciphertext = xsalsa20.lock b.key b.nonce m

    length-boxed_header : length boxed_header ≡ 34
    length-boxed_header = omega (
      arith,
      laws.xsalsa20_IsCipher.box_size b.key (next_nonce b.nonce) (header b m),
      length-header b m,
    )

    box_stream_read :
        length m ≤ max_message_size
        → Box.box_stream_header c b (boxed_header ++ (ciphertext ++ v))
          ≡ (read_result box_stream m, header b m)
    unfolding Box.box_stream_header
    box_stream_read small = rw (
      le→not_ltb (length (boxed_header ++ (ciphertext ++ v))) 34
          (omega (arith, length-append boxed_header (ciphertext ++ v), length-boxed_header)),
      take-append 34 boxed_header (ciphertext ++ v) length-boxed_header,
      laws.xsalsa20_IsCipher.unbox-box,
      length-header b m,
      read-write_uint16 (length m) (xsalsa20.lock_mac b.key b.nonce m) small,
    )

    box_stream_opened :
        Box.open_message c box_stream b
          (read_result box_stream m)
          (header b m)
          (boxed_header ++ (ciphertext ++ v))
          out
        ≡ some (m ++ drop (length m) out)
    box_stream_opened = rw (
      drop-append 2 (write_uint16 (length m)) (xsalsa20.lock_mac b.key b.nonce m)
          (length-write_uint16 (length m)),
      take_all 16 (xsalsa20.lock_mac b.key b.nonce m)
          (omega (arith, laws.xsalsa20_IsCipher.mac_size b.key b.nonce m)),
      drop-append 34 boxed_header (ciphertext ++ v) length-boxed_header,
      take-append (length m) ciphertext v (laws.xsalsa20_IsCipher.lock_size b.key b.nonce m),
      laws.xsalsa20_IsCipher.unlock-lock,
    )

    abbrev boxed : Bytes
    boxed = xchacha20.box b.key b.nonce m

    compact_read :
        b.protocol ≡ compact
        → length m ≤ max_message_size
        → Box.peek_at c compact b (write_uint16 (length m) ++ (boxed ++ v)) ≡ read_result compact m
    unfolding Box.peek_at Box.encrypted_size
    compact_read e small =
        rw
          (
            le→not_ltb (length (write_uint16 (length m) ++ (boxed ++ v))) 2 (
                omega (
                  arith,
                  length-append (write_uint16 (length m)) (boxed ++ v),
                  length-write_uint16 (length m),
                )),
            read-write_uint16 (length m) (boxed ++ v) small,
            e,
          )
          (ap (λ n. record { status = success; decrypted_size = length m; encrypted_size = n })
            (omega arith))

    compact_opened :
        Box.open_message c compact b
          (read_result compact m)
          []
          (write_uint16 (length m) ++ (boxed ++ v))
          out
        ≡ some (m ++ drop (length m) out)
    compact_opened =
        let size : 18 + length m - 2 ≡ 16 + length m = omega arith in
        rw
          (
            size,
            drop-append 2 (write_uint16 (length m)) (boxed ++ v) (length-write_uint16 (length m)),
            take-append (16 + length m) boxed v (laws.xchacha20_IsCipher.box_size b.key b.nonce m),
            laws.xchacha20_IsCipher.unbox-box,
          )
          (ground arith)

  -- What follows an encrypted message is left in the input.
  decrypt-seal_at :
      (p : Protocol) (b : CryptoBox) (m v out : Bytes)
      → b.protocol ≡ p
      → length m ≤ max_message_size
      → length m ≤ length out
      → Box.decrypt_at c p b ((seal c p b m).0 ++ v) out ≡ success_with m v (seal c p b m).1
  unfolding seal
  decrypt-seal_at box_stream b m v out e small room =
      let assoc = append_assoc (boxed_header b m v out) (ciphertext b m v out) v in
      decrypt_at_computes c b box_stream _ out (m ++ drop (length m) out) (header b m)
        (read_result box_stream m) (rw assoc (box_stream_read b m v out small))
        (sizes_fit box_stream b m v out room) (rw assoc (box_stream_opened b m v out))
      ∙ ap₂ (λ p r. success_with p r (Box.opened_box c box_stream b))
          (take-append (length m) m (drop (length m) out) refl)
          (drop-append (34 + length m) (seal c box_stream b m).0 v (length-seal box_stream b m))
  decrypt-seal_at compact b m v out e small room =
      let assoc = append_assoc (write_uint16 (length m)) (boxed b m v out) v in
      decrypt_at_computes c b compact _ out (m ++ drop (length m) out) [] (read_result compact m)
        (rw assoc (ap (λ r. (r, [])) (compact_read b m v out e small)))
        (sizes_fit compact b m v out room) (rw assoc (compact_opened b m v out))
      ∙ ap₂ (λ p r. success_with p r (Box.opened_box c compact b))
          (take-append (length m) m (drop (length m) out) refl)
          (drop-append (18 + length m) (seal c compact b m).0 v (length-seal compact b m))

  -- With primitives that behave as documented, a message of at most 65535 bytes, and an output buffer
  -- with room for it: `decrypt` reads back the message that `encrypt` sealed with the same key, nonce
  -- and protocol, leaves what follows it, and the two boxes go on with the same nonce.
  pub decrypt-seal :
      (b : CryptoBox) (m v out : Bytes)
      → length m ≤ max_message_size
      → length m ≤ length out
      → Box.decrypt c b ((seal c b.protocol b m).0 ++ v) out
        ≡ success_with m v (seal c b.protocol b m).1
  unfolding Box.decrypt
  decrypt-seal b m v out = decrypt-seal_at b.protocol b m v out refl
