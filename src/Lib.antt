-- ===== src/Lib.antt =====
-- The Secret Handshake protocol, and the encrypted streams that its sessions key.
--
-- The program. Two peers that share an application id run a handshake of four messages, after which
-- each knows the other's public key and both have the keys and nonces of a session. The session
-- keys two one-way encrypted streams. Two wrappers run this over a network stream, for Crouton and
-- for Cap'n Proto.
--
-- The files, with the code that they are about (paths from the repository's root):
--   Common     Boolean tests on the native numbers, lists of bytes, and `Outcome`, what a C++
--              call can do: return, throw, fail an assertion, or run into undefined behaviour.
--   Crypto     Monocypher, which is not in this repository: a record of functions, and as
--              IsCrypto its documented behaviour. Crypto/Toy is a concrete instance, for the
--              tests.
--   Shs        src/shs.cc and include/shs.hh: class `impl::handshake`, the messages and keys. The
--              optionals stay optionals; `value()` and `*` of an empty one are faults. Agreement:
--              the four messages in their order; Accepts: what the three checks accept; Frame:
--              what is computed at each stage.
--   Handshake  src/SecretHandshake.cc and include/SecretHandshake.hh: the state machine
--              `Handshake` with its two subclasses. Receive and Send: bytes that come and go in
--              pieces; Invariant: all sequences of calls. Stages: what each step can count on;
--              Turns: methods called in their turn; Calls: the public methods, called anyhow;
--              Messages: no message is empty; Final, Trust and Shown: what a session has checked;
--              Rounds: how far a handshake is from its end; Complete: a client and a server over
--              a wire.
--   Stream     src/SecretStream.cc and include/SecretStream.hh. Uint16: sizes; Box: `EncryptoBox`
--              and `DecryptoBox` (Sizes, Stable, RoundTrip); Buffer: `CryptoStream`; Encryption
--              and Decryption: the two streams; Transport: one at either end of a wire (Arriving:
--              while its bytes arrive).
--   Async      coroutines and promises, run one after the other.
--   Crouton    crouton/SecretHandshakeStream.cc and .hh. Shaking: `SecretHandshake`; Wrapped:
--              `SecretHandshakeStream`; Opens: `open`; Writes: what its `write` sends; Reads:
--              what its reads take (Filling: the loop of `peekNoCopy`); Conversation: two
--              streams; Rounds: the loop of `handshake`; Settles: how it ends; Socket:
--              `SecretHandshakeSocket`, and the small methods.
--   Capnproto  capnproto/SecretConnection.cc and .hh. Connection: `WrappedStream`; Connect: what
--              a connection that comes about has checked; Writes: its two methods `write`; Reads:
--              `tryRead`; Conversation: two connections; Peers: the same after their handshakes;
--              Rounds: the rounds of `runHandshake` (Calls: those of one round, Run: all);
--              Settles: how `wrap` ends; Wrapper: `StreamWrapper`; Socket: what is passed on to
--              the inner stream, and the peer's name. capnproto/SecretRPC.cc and .hh. Server:
--              `SecretRPCServer` (Serving: what its connections are; Listening: when it
--              accepts streams, and what stops it); Client: `SecretRPCClient`; ThreadContext:
--              `RPCContext` (Holding: what threads hold of it); Api: the public methods of server
--              and client.
--   Keys       include/SecretHandshakeTypes.hh: key pairs, app IDs and contexts.
--   CApi       the C functions of src/SecretHandshake.cc and include/SecretHandshake.h.
--              Calls: a program that makes, calls and frees handshakes; Interleaved: each handle
--              of it by itself; Boxes: the C functions of src/SecretStream.cc and
--              include/SecretStream.h; Layout: the structs and enumerations, and the casts.
--   Tests      runs on concrete inputs.
--
-- How code becomes definitions. A class is a record, and a method a function from the record to its
-- result and the record afterwards, so that what is written before a throw stays written. A pointer
-- with a size is a list of bytes; a byte that is read as a `uint8_t` is taken modulo 2^8, a
-- `size_t` subtraction wraps where it can (`sub_size`). A virtual method branches on the role of a
-- handshake.
--
-- Loops. `EncryptionStream::pushPartial` runs on fuel, the number of bytes plus 2: each round but
-- the first takes at least a byte. `DecryptionStream::push` runs on the number of unprocessed bytes
-- plus 1: each decrypted message takes at least its 18 or 34 bytes. That this is enough is proved
-- with the equations for both. The handshake loops and the reading loops of the wrappers depend on
-- the inner stream, and take their fuel as an argument; for both handshakes five rounds are enough,
-- and for a read one more than the bytes that the inner stream has left.
--
-- Bounds. A message has at most 65535 bytes; `encryptedSize` wraps as `size_t` does.
--
-- Assumptions. IsCrypto: sizes of the primitives' results; a signature is accepted by its own key;
-- a cipher opens what it sealed with the same key and nonce; Diffie-Hellman multiplication
-- commutes, also for converted signing keys. Nothing is assumed of forgeries: where the theorems
-- speak of acceptance, they say which signature or box was checked. A rejected `unbox` leaves its
-- output as it was and returns a range whose size is not that of a header. The inner streams are
-- parameters too: IoStream for Crouton's, AsyncIoStream for KJ's, with IsOrderly: it fails only
-- with errors of its own, and `read` returns just what it was asked for, or no more for Crouton's;
-- with IsCarrying: it carries what is written to it; and with IsHanding: it hands out what it has
-- left from its beginning, and nothing only when nothing is left, or fails with an error of its
-- own. Monocypher's key generator, `fillWithString` and `wipe`, KJ's sockets and network, and
-- Crouton's TCP sockets are arguments of the definitions that use them. Of KJ's event loop a server
-- sees events, in any order; what KJ makes of the null promise that a failed accept returns is an
-- argument.
--
-- Left out: logging, and the peer names that are only logged. What `getPeerName` throws there is in
-- the events of a server; in the handshake and in `connect` it would be one more error of the inner
-- stream. Left out too: the RPC system of Cap'n Proto, an exception of KJ's when a thread's first
-- context is made, and steps of other coroutines between those of a wrapper.
pub mod Common
pub mod Crypto
pub mod Shs
pub mod Handshake
pub mod Stream
pub mod Async
pub mod Crouton
pub mod Capnproto
pub mod Keys
pub mod CApi
mod Tests
