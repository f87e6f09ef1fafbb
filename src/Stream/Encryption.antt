-- ===== src/Stream/Encryption.antt =====
-- src/SecretStream.cc, `EncryptionStream`: cleartext is collected into messages of at most 65535
-- bytes, which are encrypted in place in the buffer. The count of processed bytes is never above the
-- buffer's size (`IsStream`), so the subtraction of the two does not wrap.
pub mod Bytewise
use secret_handshake_capnp.Common.{
  ℕ, zero, suc, ◌+◌, ◌-◌, min, Bytes, [], ◌++◌, length, take, drop, resize, ltb, if◌then◌else◌,
  is_empty, Outcome, ok, fault, assertion_failed, out_of_fuel, Exec, and_then, ◌>>=◌, ◌>>◌, Bool,
  true, false,
}
use secret_handshake_capnp.Crypto.{Crypto}
use secret_handshake_capnp.Stream.Box.{
  CryptoBox, Status, success, max_message_size, encrypted_size, encrypt, is_success,
}
use secret_handshake_capnp.Stream.Buffer.{CryptoStream, pending}

abbrev pub append : Bytes → CryptoStream → CryptoStream
append bytes s = record s { buffer = s.buffer ++ bytes }

-- The end of `flush`: the message is replaced by what was written over it.
abbrev replace :
    CryptoStream → ℕ → Outcome (Status × Bytes) × CryptoBox → Outcome (Unit {0}) × CryptoStream
replace s capacity (fault e, b) =
    (fault e, record s { buffer = resize (s.processed + capacity) s.buffer; box = b })
replace s capacity (ok (status, bytes), b) =
    let end = s.processed + length bytes in
    if is_success status
    then (
      ok tt,
      record s {
        buffer = resize end (take s.processed s.buffer ++ bytes);
        processed = end;
        box = b;
      },
    )
    else (
      fault assertion_failed,
      record s { buffer = resize (s.processed + capacity) s.buffer; box = b },
    )

-- The space that is left for the current message.
abbrev pub room : CryptoStream → ℕ
room s = max_message_size - length (pending s)

module _ (c : Crypto) where
  unfoldable pub flush : Exec CryptoStream (Unit {0})
  flush s =
      let message = pending s in
      let capacity = encrypted_size s.box (length message) in
      if ltb 0 (length message)
      then replace s capacity (encrypt c message capacity s.box)
      else (ok tt, s)

  -- The loop of `pushPartial`, on the bytes that are left. It runs on fuel; `push_partial` gives
  -- enough.
  unfoldable pub push_loop : ℕ → Bytes → Exec CryptoStream (Unit {0})
  push_loop zero bytes s = (fault out_of_fuel, s)
  push_loop (suc fuel) bytes s =
      let chunk = min (length bytes) (room s) in
      let rest = drop chunk bytes in
      let s' = append (take chunk bytes) s in
      let next = and_then (flush s') (λ _. push_loop fuel rest) in
      if is_empty bytes then (ok tt, s) else if is_empty rest then (ok tt, s') else next

  unfoldable pub push_partial : Bytes → Exec CryptoStream (Unit {0})
  push_partial bytes = push_loop (length bytes + 2) bytes

  unfoldable pub push : Bytes → Exec CryptoStream (Unit {0})
  push bytes = do push_partial bytes; flush
