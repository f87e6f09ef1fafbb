-- ===== src/Stream/Box/Sizes.antt =====
-- src/SecretStream.cc: the sizes of messages, and of what is consumed of the input.
use secret_handshake_capnp.Common.{
  ℕ, ◌+◌, ◌-◌, ◌≤◌, ◌≡◌, ◌≢◌, refl, ap, Bytes, true, Option, none, some, [], ◌++◌, length, take,
  drop, range, Option-cases, length-append, length-take, length-drop, Bool-cases, inl, inr, arith,
}
use secret_handshake_capnp.Crypto.{Crypto}
use secret_handshake_capnp.Stream.Uint16.{read_uint16-le}
use secret_handshake_capnp.Stream.Box
use secret_handshake_capnp.Stream.Box.{
  CryptoBox, Protocol, compact, box_stream, success, out_too_small, incomplete_input, corrupt_data,
  PeekResult, prefix_size, overhead, max_message_size, is_success, Decrypted, Status,
}

unpacked_sizes :
    (o : Option Bytes)
    → let r = (Box.unpack_header o).0 in
      r.status ≡ success
      → (r.decrypted_size ≤ max_message_size) × (r.encrypted_size ≡ prefix_size + r.decrypted_size)
unpacked_sizes none h = cc
unpacked_sizes (some header) h = (read_uint16-le header, refl)

written_room :
    (out : Bytes) (o : Option Bytes) (written : Bytes)
    → some (Box.written_over out o) ≡ some written
    → length out ≤ length written
written_room out none written h = ground arith
written_room out (some p) written h =
    let e : p ++ drop (length p) out ≡ written = ground arith in
    omega (arith, ap length e, length-append p (drop (length p) out), length-drop (length p) out)

unlocked_room :
    (out : Bytes) (o : Option Bytes) (written : Bytes)
    → Box.unlocked out o ≡ some written
    → length out ≤ length written
unlocked_room out none written h = cc
unlocked_room out (some p) written h = written_room out (some p) written h

pub is_success→success : (s : Status) → is_success s ≡ true → s ≡ success
is_success→success s h = ground arith

module _ (c : Crypto) where
  -- A header that is read says the message's size, which has 16 bits, and the size with what the
  -- protocol adds.
  pub header_sizes :
      (p : Protocol) (b : CryptoBox) (src : Bytes)
      → b.protocol ≡ p
      → let r = (Box.header_of c p b src).0 in
        r.status ≡ success
        → (r.decrypted_size ≤ max_message_size)
          × (r.encrypted_size ≡ overhead p + r.decrypted_size)
          × (overhead p ≤ length src + 16)
  unfolding Box.box_stream_header Box.peek_at Box.encrypted_size
  header_sizes box_stream b src e h = ground (
    arith,
    unpacked_sizes
        (Box.header_sized (c.xsalsa20.unbox b.key (c.next_nonce b.nonce) (take prefix_size src))),
  )
  header_sizes compact b src e h = ground (arith, read_uint16-le src)

  pub header-ne-too_small :
      (p : Protocol) (b : CryptoBox) (src : Bytes)
      → (Box.header_of c p b src).0.status ≢ out_too_small
  unfolding Box.box_stream_header Box.peek_at
  header-ne-too_small box_stream b src = ground arith
  header-ne-too_small compact b src = ground arith

  -- What is written to the output buffer leaves it no shorter.
  open_message_room :
      (p : Protocol) (b : CryptoBox) (r : PeekResult) (header src out written : Bytes)
      → Box.open_message c p b r header src out ≡ some written
      → length out ≤ length written
  open_message_room box_stream b r header src out written h =
      unlocked_room out
        (c.xsalsa20.unlock b.key b.nonce (range 2 16 header) (range 34 r.decrypted_size src))
        written h
  open_message_room compact b r header src out written h =
      written_room out (c.xchacha20.unbox b.key b.nonce (range 2 (r.encrypted_size - 2) src))
        written (ground arith)

  module _ (b : CryptoBox) (src out : Bytes) where
    abbrev pub result : PeekResult
    result = (Box.header_of c b.protocol b src).0

    abbrev pub message : Option Bytes
    message = Box.open_message c b.protocol b result (Box.header_of c b.protocol b src).1 src out

    -- A successful `decrypt`: the sizes that the header gives, and what was written to `out`.
    pub record Succeeds : Type 0 where
      pub written : Bytes
      pub size : ℕ
      pub small : size ≤ max_message_size
      pub whole : overhead b.protocol + size ≤ length src
      pub room : size ≤ length out
      pub filled : length out ≤ length written
      pub header_is : result ≡ record {
        status = success;
        decrypted_size = size;
        encrypted_size = overhead b.protocol + size;
      }
      pub message_is : message ≡ some written
      pub plaintext_is : (Box.decrypt c b src out).plaintext ≡ take size written
      pub rest_is : (Box.decrypt c b src out).rest ≡ drop (overhead b.protocol + size) src
      pub box_is : (Box.decrypt c b src out).box ≡ Box.opened_box c b.protocol b

    pub header_accepted :
        (Box.decrypt c b src out).status ≡ success
        → (result.status ≡ success) × (Box.check_sizes result src out ≡ success)
    unfolding Box.decrypt Box.decrypt_at Box.check_sizes
    header_accepted h = ground arith

    message_opened :
        (Box.decrypt c b src out).status ≡ success → (written : Bytes) × (message ≡ some written)
    unfolding Box.decrypt Box.decrypt_at
    message_opened h = elim (Option-cases message) [
      | inl closed ↦ absurd (ground (arith, header_accepted h))
      | inr opened ↦ opened
    ]

    pub checked :
        Box.check_sizes result src out ≡ success
        → (result.encrypted_size ≤ length src) × (result.decrypted_size ≤ length out)
    unfolding Box.check_sizes
    checked h = ground arith

    pub decrypt-Succeeds : (Box.decrypt c b src out).status ≡ success → Succeeds
    unfolding Box.decrypt Box.decrypt_at
    decrypt-Succeeds h =
        let (accepted, sized) = header_accepted h in
        let (written, opened) = message_opened h in
        let (small, enc, _) = header_sizes b.protocol b src refl accepted in
        let (whole, room) = checked sized in
        record {
          written = written;
          size = result.decrypted_size;
          small = small;
          whole = omega arith;
          room = room;
          filled =
              open_message_room b.protocol b result (Box.header_of c b.protocol b src).1 src out
                written opened;
          header_is = ground arith;
          message_is = opened;
          plaintext_is = ground arith;
          rest_is = ground arith;
          box_is = ground arith;
        }

  pub decrypt_consumes :
      (b : CryptoBox) (src out : Bytes)
      → let d = Box.decrypt c b src out in
        d.status ≡ success → length src ≡ length d.rest + overhead b.protocol + length d.plaintext
  decrypt_consumes b src out h =
      let s = decrypt-Succeeds b src out h in
      omega (
        arith,
        ap length s.plaintext_is,
        ap length s.rest_is,
        length-take s.size s.written,
        length-drop (overhead b.protocol + s.size) src,
        s.whole,
        s.room,
        s.filled,
      )

  -- The output buffer is large enough if it is no smaller than the input.
  pub decrypt-ne-too_small :
      (b : CryptoBox) (src out : Bytes)
      → length src ≤ length out
      → (Box.decrypt c b src out).status ≢ out_too_small
  unfolding Box.decrypt Box.decrypt_at Box.check_sizes
  decrypt-ne-too_small b src out h = elim (Bool-cases (is_success (result b src out).status)) [
    | inl good ↦ ground (arith, header_sizes b.protocol b src refl (is_success→success _ good))
    | inr bad ↦ ground (arith, header-ne-too_small b.protocol b src)
  ]

  -- Where `decrypt` does not succeed, it leaves the input and the box as they were.
  pub decrypt_unchanged :
      (b : CryptoBox) (src out : Bytes)
      → let d = Box.decrypt c b src out in
        d.status ≢ success → (d.plaintext ≡ []) × (d.rest ≡ src) × (d.box ≡ b)
  unfolding Box.decrypt Box.decrypt_at
  decrypt_unchanged b src out h = ground arith
