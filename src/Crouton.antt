-- ===== src/Crouton.antt =====
-- crouton/SecretHandshakeStream.cc and crouton/SecretHandshakeStream.hh: the handshake over a Crouton
-- stream, and the encrypted stream. Logging is left out.
pub mod Shaking
pub mod Rounds
pub mod Settles
pub mod Wrapped
pub mod Opens
pub mod Socket
pub mod Writes
pub mod Reads
pub mod Conversation
