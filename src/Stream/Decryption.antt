-- ===== src/Stream/Decryption.antt =====
-- src/SecretStream.cc, `DecryptionStream`: encrypted bytes are collected, and each whole message is
-- decrypted in place in the buffer.
pub mod Pieces
use secret_handshake_capnp.Common.{
  ℕ, zero, suc, ◌+◌, Bytes, Bool, true, false, [], ◌++◌, length, take, ◌==◌, Outcome, ok, fault,
  logic_error, out_of_fuel, Exec,
}
use secret_handshake_capnp.Crypto.{Crypto}
use secret_handshake_capnp.Shs.{Session}
use secret_handshake_capnp.Stream.Box.{
  Protocol, Decrypted, decrypt, success, out_too_small, incomplete_input, corrupt_data,
}
use secret_handshake_capnp.Stream.Buffer.{CryptoStream, available, pending, new_stream}
use secret_handshake_capnp.Stream.Encryption.{append}

-- The two constructors
abbrev pub decryption_of_key : Bytes → Bytes → Protocol → CryptoStream
decryption_of_key key nonce p = new_stream (record { key = key; nonce = nonce; protocol = p })

abbrev pub decryption_of_session : Session → Protocol → CryptoStream
decryption_of_session s p = decryption_of_key s.decryption_key s.decryption_nonce p

-- The decrypted message takes the place of the encrypted one.
abbrev pub accept : CryptoStream → Decrypted → CryptoStream
accept s d = record s {
  buffer = (available s ++ d.plaintext) ++ d.rest;
  processed = s.processed + length d.plaintext;
  box = d.box;
}

module _ (c : Crypto) where
  -- `decrypt` of the unprocessed bytes, with their own place as the output buffer.
  abbrev pub attempt : CryptoStream → Decrypted
  attempt s = decrypt c s.box (pending s) (pending s)

  -- The loop of `push`. It runs on fuel; `push` gives enough.
  unfoldable pub drain : ℕ → Exec CryptoStream Bool
  drain zero s = (fault out_of_fuel, s)
  drain (suc fuel) s = elim (attempt s).status [
    | success ↦ drain fuel (accept s (attempt s))
    | incomplete_input ↦ (ok true, s)
    | corrupt_data ↦ (ok false, s)
    | out_too_small ↦ (fault logic_error, s)
  ]

  unfoldable pub push : Bytes → Exec CryptoStream Bool
  push bytes s = let s' = append bytes s in drain (length (pending s') + 1) s'

unfoldable pub close : CryptoStream → Bool × CryptoStream
close s = (length s.buffer == s.processed, record s { buffer = []; processed = 0 })
