-- ===== src/Capnproto.antt =====
-- capnproto/SecretConnection.cc and capnproto/SecretConnection.hh: the encrypted stream for Cap'n Proto.
pub mod Connection
pub mod Connect
pub mod Writes
pub mod Reads
pub mod Conversation
pub mod Peers
pub mod Rounds
pub mod Settles
pub mod Wrapper
pub mod Socket
pub mod Server
pub mod Client
pub mod Api
pub mod ThreadContext
