-- ===== src/Stream/Transport.antt =====
-- src/SecretStream.cc: an `EncryptionStream` and the `DecryptionStream` at the other end.
pub mod Sender
pub mod Receiver
pub mod Delivery
pub mod Arriving
pub mod Taken
use secret_handshake_capnp.Common.{ℕ, ◌+◌, ◌≤◌, ◌≡◌, Bytes, List, [], ◌∷◌, ◌++◌, length}
use secret_handshake_capnp.Crypto.{Crypto}
use secret_handshake_capnp.Stream.Box.{CryptoBox, max_message_size, seal}

-- What is on the wire for these messages, and the box after them.
abbrev pub sealed : Crypto → CryptoBox → List Bytes → Bytes × CryptoBox
sealed c b [] = ([], b)
sealed c b (m ∷ ms) =
    let (bytes, b') = seal c b.protocol b m in
    let (rest, b'') = sealed c b' ms in (bytes ++ rest, b'')

abbrev pub flatten : List Bytes → Bytes
flatten [] = []
flatten (m ∷ ms) = m ++ flatten ms

-- Messages of a size that can be encrypted.
abbrev pub AllSmall : List Bytes → Type 0
AllSmall [] = Unit {0}
AllSmall (m ∷ ms) = (length m ≤ max_message_size) × AllSmall ms

-- Bytes that are written in several calls, each with a list of buffers.
abbrev pub flatten_all : List (List Bytes) → Bytes
flatten_all [] = []
flatten_all (buffers ∷ batches) = flatten buffers ++ flatten_all batches
