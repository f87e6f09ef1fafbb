-- ===== src/Stream.antt =====
-- src/SecretStream.cc and include/SecretStream.hh: message boxes and byte streams.
pub mod Uint16
pub mod Buffer
pub mod Box
pub mod Encryption
pub mod Decryption
pub mod Transport
