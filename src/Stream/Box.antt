-- ===== src/Stream/Box.antt =====
-- src/SecretStream.cc, `CryptoBox`, `EncryptoBox` and `DecryptoBox`: whole messages.
pub mod Sizes
pub mod Stable
pub mod RoundTrip
use secret_handshake_capnp.Common.{
  ℕ, ◌+◌, ◌-◌, ◌%◌, ◌^◌, Bytes, Bool, true, false, Option, none, some, [], ◌++◌, length, take, drop,
  range, ltb, ◌==◌, if◌then◌else◌, ok, fault, invalid_argument, Exec,
}
use secret_handshake_capnp.Crypto.{Cipher, Crypto}
use secret_handshake_capnp.Shs.{Session}
use secret_handshake_capnp.Stream.Uint16.{write_uint16, read_uint16}

pub data Status : Type 0 where
  success out_too_small incomplete_input corrupt_data : Status

pub data Protocol : Type 0 where
  compact box_stream : Protocol

-- The key and the protocol are constant; the nonce is incremented.
pub record CryptoBox : Type 0 where
  pub key : Bytes
  pub nonce : Bytes
  pub protocol : Protocol

pub record PeekResult : Type 0 where
  pub status : Status
  pub decrypted_size : ℕ
  pub encrypted_size : ℕ

abbrev pub mac_size : ℕ
mac_size = 16

-- `sizeof(BoxStreamHeader)`: the size and the MAC
abbrev pub header_size : ℕ
header_size = 18

abbrev pub prefix_size : ℕ
prefix_size = 34

abbrev pub max_message_size : ℕ
max_message_size = 0xFFFF

abbrev pub encryptor : Session → Protocol → CryptoBox
encryptor s p = record { key = s.encryption_key; nonce = s.encryption_nonce; protocol = p }

abbrev pub decryptor : Session → Protocol → CryptoBox
decryptor s p = record { key = s.decryption_key; nonce = s.decryption_nonce; protocol = p }

-- `~CryptoBox`, with Monocypher's `wipe` of some memory
abbrev pub wipe_box : (Bytes → Bytes) → CryptoBox → CryptoBox
wipe_box wipe b = record b { key = wipe b.key }

-- What a protocol adds to a message.
abbrev pub overhead : Protocol → ℕ
overhead compact = 18
overhead box_stream = 34

-- `size_t` addition
abbrev pub encrypted_size_for : Protocol → ℕ → ℕ
encrypted_size_for p input_size = (overhead p + input_size) % 2 ^ 64

unfoldable pub encrypted_size : CryptoBox → ℕ → ℕ
encrypted_size b input_size = encrypted_size_for b.protocol input_size

abbrev min_peek_size_for : Protocol → ℕ
min_peek_size_for compact = 2
min_peek_size_for box_stream = prefix_size

unfoldable pub min_peek_size : CryptoBox → ℕ
min_peek_size b = min_peek_size_for b.protocol

-- The size of the range that `unbox` returns.
abbrev unboxed_size : Cipher → Option Bytes → ℕ
unboxed_size e none = e.rejected_size
unboxed_size e (some p) = length p

-- What the output buffer holds after `unbox`: a rejected box leaves it as it was.
abbrev written_over : Bytes → Option Bytes → Bytes
written_over out none = out
written_over out (some p) = p ++ drop (length p) out

abbrev unlocked : Bytes → Option Bytes → Option Bytes
unlocked out none = none
unlocked out (some p) = some (written_over out (some p))

-- What a call of `decrypt` leaves: the status, the bytes of `out` up to `out.size` (none unless it
-- succeeds), the rest of `in`, and the box.
pub record Decrypted : Type 0 where
  pub status : Status
  pub plaintext : Bytes
  pub rest : Bytes
  pub box : CryptoBox

abbrev pub is_success : Status → Bool
is_success success = true
is_success _ = false

abbrev unpack_header : Option Bytes → PeekResult × Bytes
unpack_header none = (record { status = corrupt_data; decrypted_size = 0; encrypted_size = 0 }, [])
unpack_header (some header) =
    let size = read_uint16 header in
    (
      record { status = success; decrypted_size = size; encrypted_size = prefix_size + size },
      header,
    )

-- A header of the wrong size counts as rejected.
abbrev header_sized : Option Bytes → Option Bytes
header_sized none = none
header_sized (some header) = if length header == header_size then some header else none

-- The checks that `decrypt` makes of a header's sizes, against `in.size` and `out.size`.
unfoldable pub check_sizes : PeekResult → Bytes → Bytes → Status
check_sizes r src out =
    if is_success r.status
    then (if ltb (length src) r.encrypted_size
        then incomplete_input
        else if ltb (length out) r.decrypted_size
        then out_too_small
        else success)
    else r.status

module _ (c : Crypto) where
  open c use {xsalsa20, xchacha20, next_nonce}

  abbrev pub advance : CryptoBox → CryptoBox
  advance b = record b { nonce = next_nonce b.nonce }

  -- The encrypted message, and the box after it.
  unfoldable pub seal : Protocol → CryptoBox → Bytes → Bytes × CryptoBox
  seal box_stream b message =
      let mac = xsalsa20.lock_mac b.key b.nonce message in
      let ciphertext = xsalsa20.lock b.key b.nonce message in
      let header = write_uint16 (length message) ++ mac in
      (xsalsa20.box b.key (next_nonce b.nonce) header ++ ciphertext, advance (advance b))
  seal compact b message =
      (write_uint16 (length message) ++ xchacha20.box b.key b.nonce message, advance b)

  -- `out` is given by its capacity; the bytes written to it are `out.size` of them.
  unfoldable pub encrypt : Bytes → ℕ → Exec CryptoBox (Status × Bytes)
  encrypt input capacity b =
      let (bytes, b') = seal b.protocol b input in
      if ltb max_message_size (length input)
      then (fault invalid_argument, b)
      else if ltb capacity (encrypted_size b (length input))
      then (ok (out_too_small, []), b)
      else (ok (success, bytes), b')

  -- `decryptBoxStreamHeader`: the result, and the header.
  unfoldable pub box_stream_header : CryptoBox → Bytes → PeekResult × Bytes
  box_stream_header b src =
      if ltb (length src) prefix_size
      then (
        record { status = incomplete_input; decrypted_size = 0; encrypted_size = prefix_size },
        [],
      )
      else unpack_header
          (header_sized (xsalsa20.unbox b.key (next_nonce b.nonce) (take prefix_size src)))

  unfoldable pub peek_at : Protocol → CryptoBox → Bytes → PeekResult
  peek_at box_stream b src = (box_stream_header b src).0
  peek_at compact b src =
      if ltb (length src) 2
      then record { status = incomplete_input; decrypted_size = 0; encrypted_size = 2 }
      else (let size = read_uint16 src in
          record {
            status = success;
            decrypted_size = size;
            encrypted_size = encrypted_size b size;
          })

  unfoldable pub peek : CryptoBox → Bytes → PeekResult
  peek b src = peek_at b.protocol b src

  unfoldable pub get_decrypted_size : CryptoBox → Bytes → Status × ℕ
  get_decrypted_size b src = let r = peek b src in (r.status, r.decrypted_size)

  -- The end of `decrypt`, after the message was opened into `out`, or was not.
  abbrev finish : PeekResult → CryptoBox → Bytes → CryptoBox → Option Bytes → Decrypted
  finish r b src b' none = record { status = corrupt_data; plaintext = []; rest = src; box = b }
  finish r b src b' (some out) = record {
    status = success;
    plaintext = take r.decrypted_size out;
    rest = drop r.encrypted_size src;
    box = b';
  }

  -- What opening a message leaves in `out`.
  abbrev open_message : Protocol → CryptoBox → PeekResult → Bytes → Bytes → Bytes → Option Bytes
  open_message box_stream b r header src out = unlocked out (
      xsalsa20.unlock b.key b.nonce (range 2 mac_size header)
        (range prefix_size r.decrypted_size src))
  open_message compact b r header src out =
      let boxed = range 2 (r.encrypted_size - 2) src in
      let message = xchacha20.unbox b.key b.nonce boxed in
      if unboxed_size xchacha20 message == r.decrypted_size
      then some (written_over out message)
      else none

  abbrev header_of : Protocol → CryptoBox → Bytes → PeekResult × Bytes
  header_of box_stream b src = box_stream_header b src
  header_of compact b src = (peek_at compact b src, [])

  abbrev opened_box : Protocol → CryptoBox → CryptoBox
  opened_box box_stream b = advance (advance b)
  opened_box compact b = advance b

  unfoldable pub decrypt_at : Protocol → CryptoBox → Bytes → Bytes → Decrypted
  decrypt_at p b src out =
      let (r, header) = header_of p b src in
      let status = check_sizes r src out in
      if is_success status
      then finish r b src (opened_box p b) (open_message p b r header src out)
      else record { status = status; plaintext = []; rest = src; box = b }

  -- `decrypt`, with `in` and the contents of `out`.
  unfoldable pub decrypt : CryptoBox → Bytes → Bytes → Decrypted
  decrypt b src out = decrypt_at b.protocol b src out
