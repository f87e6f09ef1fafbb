-- ===== src/Capnproto/Connection.antt =====
-- capnproto/SecretConnection.cc, class `WrappedStream`, and the wrappers that make one. KJ is not in
-- this repository: its `AsyncIoStream` is the record of that name, over a state of its own, and
-- promises run one after the other. Logging is left out, with the peer names that it names.
use secret_handshake_capnp.Common.{
  ℕ, zero, suc, Bytes, Bool, true, false, not, Option, none, some, List, [], ◌∷◌, length, is_empty,
  ltb, if◌then◌else◌, ok, assertion_failed, undefined_behaviour, runtime_error, out_of_fuel, Exec,
}
use secret_handshake_capnp.Crypto.{Crypto}
use secret_handshake_capnp.Shs.{Session}
use secret_handshake_capnp.Handshake
use secret_handshake_capnp.Handshake.{Context, no_error}
use secret_handshake_capnp.Stream.Box.{compact, encryptor}
use secret_handshake_capnp.Stream.Buffer.{CryptoStream, new_stream, available, skip, pull}
use secret_handshake_capnp.Stream.Encryption.{push, push_partial, flush}
use secret_handshake_capnp.Stream.Decryption
use secret_handshake_capnp.Stream.Decryption.{decryption_of_key}
use secret_handshake_capnp.Async.{
  thrown, requirement_failed, unauthorized, not_connected, Reply, returned, failed, Async, ◌>>=◌,
  ◌>>◌, pure, fail_with, of_outcome,
}

-- `kj::AsyncIoStream`. `read` returns just as many bytes as were asked for, or fails; `try_read` is
-- given the least and the greatest number, and returns fewer than the least at the end of the stream.
pub record AsyncIoStream (S : Type 0) : Type 0 where
  pub read : ℕ → Async S Bytes
  pub try_read : ℕ → ℕ → Async S Bytes
  pub write : Bytes → Async S (Unit {0})
  pub shutdown_write : S → S
  pub abort_read : S → S

pub record WrappedStream (S : Type 0) : Type 0 where
  pub handshake : Option Handshake.Handshake
  pub authorizer : Option (Bytes → Bool)
  pub inner : S
  pub session : Option Session
  pub encryptor : Option CryptoStream
  pub decryptor : Option CryptoStream

abbrev pub new_wrapped :
    {S : Type 0} → S → Handshake.Handshake → Option (Bytes → Bool) → WrappedStream S
new_wrapped stream handshake authorizer = record {
  handshake = some handshake;
  authorizer = authorizer;
  inner = stream;
  session = none;
  encryptor = none;
  decryptor = none;
}

-- The handshake of a `ClientWrapper`, which has the server's key, or of a `ServerWrapper`.
abbrev pub new_handshake : Crypto → Context → Option Bytes → Bytes → Handshake.Handshake
new_handshake c context (some server_key) ephemeral =
    Handshake.create_client c context server_key ephemeral
new_handshake c context none ephemeral = Handshake.create_server c context ephemeral

-- `!_authorizer || _authorizer(key)`
abbrev pub is_authorized : Option (Bytes → Bool) → Bytes → Bool
is_authorized none key = true
is_authorized (some accepts) key = accepts key

abbrev pub has_error : Handshake.Error → Bool
has_error no_error = false
has_error _ = true

module _ {S : Type 0} where
  abbrev pub on_handshake : {A : Type 0} → Exec Handshake.Handshake A → Async (WrappedStream S) A
  on_handshake m s = elim s.handshake [
    | none ↦ (failed (thrown undefined_behaviour), s)
    | some h ↦ let (r, h') = m h in (of_outcome r, record s { handshake = some h' })
  ]

  abbrev pub on_inner : {A : Type 0} → Async S A → Async (WrappedStream S) A
  on_inner m s = let (r, t) = m s.inner in (r, record s { inner = t })

  -- `KJ_REQUIRE_NONNULL(_encryptor)`
  abbrev pub on_encryptor : {A : Type 0} → Exec CryptoStream A → Async (WrappedStream S) A
  on_encryptor m s = elim s.encryptor [
    | none ↦ (failed requirement_failed, s)
    | some w ↦ let (r, w') = m w in (of_outcome r, record s { encryptor = some w' })
  ]

  abbrev pub on_decryptor : {A : Type 0} → Exec CryptoStream A → Async (WrappedStream S) A
  on_decryptor m s = elim s.decryptor [
    | none ↦ (failed requirement_failed, s)
    | some d ↦ let (r, d') = m d in (of_outcome r, record s { decryptor = some d' })
  ]

abbrev pub plain : {T A : Type 0} → (T → A × T) → Exec T A
plain m t = let (a, t') = m t in (ok a, t')

abbrev pub look : {T A : Type 0} → (T → A) → Exec T A
look f t = (ok (f t), t)

module _ (c : Crypto) {S : Type 0} (io : AsyncIoStream S) where
  -- What `runHandshake` does with a finished handshake.
  abbrev pub accept_session : Session → Async (WrappedStream S) Session
  accept_session session s = (
    if is_authorized s.authorizer session.peer_public_key
        then returned session
        else failed unauthorized,
    record s { handshake = none },
  )

  abbrev pub conclude : Async (WrappedStream S) Session
  conclude = on_handshake (Handshake.session c) >>= accept_session

  -- The last branch of `runHandshake`, with its assertion
  abbrev pub give_up : Async (WrappedStream S) Session
  give_up = do
    error ← on_handshake (look (λ h. h.error))
    if has_error error then fail_with not_connected else fail_with (thrown assertion_failed)

  abbrev pub send_some : Bytes → Async (WrappedStream S) (Unit {0})
  send_some to_send = on_inner (io.write to_send) >> on_handshake (Handshake.send_completed c)

  -- The verdict of `readCompleted` is ignored; the next round sees the error.
  abbrev pub read_some : Bytes → Async (WrappedStream S) Bool
  read_some to_read = do
    bytes ← on_inner (io.read (length to_read))
    on_handshake (plain (λ h. (tt, Handshake.fill_input bytes h)))
    on_handshake (Handshake.read_completed c)

  -- On fuel.
  unfoldable pub run_handshake : ℕ → Async (WrappedStream S) Session
  run_handshake zero = fail_with (thrown out_of_fuel)
  run_handshake (suc fuel) =
      let again = run_handshake fuel in
      do
        finished ← on_handshake (look Handshake.finished?)
        if finished then conclude else (do
          to_send ← on_handshake (Handshake.bytes_to_send c)
          if not (is_empty to_send) then (send_some to_send >> again) else (do
            to_read ← on_handshake (plain Handshake.bytes_to_read)
            if not (is_empty to_read) then (read_some to_read >> again) else give_up))

  abbrev pub connected : Reply Session × WrappedStream S → Reply (Unit {0}) × WrappedStream S
  connected (returned session, s) = (
    returned tt,
    record s {
      session = some session;
      encryptor = some (new_stream (encryptor session compact));
      decryptor = some (decryption_of_key session.decryption_key session.decryption_nonce compact);
    },
  )
  connected (failed e, s) =
      (failed e, record s { inner = io.abort_read (io.shutdown_write s.inner) })

  unfoldable pub connect : ℕ → Async (WrappedStream S) (Unit {0})
  unfolding run_handshake
  connect fuel s = connected (run_handshake fuel s)

  -- `wrap`: the wrapped stream is handed out once it is connected.
  unfoldable pub wrap :
      ℕ
      → Context
      → Option Bytes
      → Option (Bytes → Bool)
      → Bytes
      → S
      → Reply (Unit {0}) × WrappedStream S
  unfolding connect
  wrap fuel context server_key authorizer ephemeral stream =
      connect fuel (new_wrapped stream (new_handshake c context server_key ephemeral) authorizer)

  abbrev pub check_good : Bool → Async (WrappedStream S) (Unit {0})
  check_good true = pure tt
  check_good false = fail_with (thrown runtime_error)

  -- On fuel.
  unfoldable pub try_read : ℕ → ℕ → ℕ → Async (WrappedStream S) Bytes
  try_read zero min_bytes max_bytes = fail_with (thrown out_of_fuel)
  try_read (suc fuel) min_bytes max_bytes =
      let again = try_read fuel min_bytes max_bytes in
      do
        ready ← on_decryptor (look available)
        if not (ltb (length ready) min_bytes) then on_decryptor (plain (pull max_bytes)) else (do
          bytes ← on_inner (io.try_read 1 max_bytes)
          if is_empty bytes
              then pure []
              else (do good ← on_decryptor (Decryption.push c bytes); check_good good; again))

  abbrev pub skip_written : ℕ → Async (WrappedStream S) (Unit {0})
  skip_written n = on_encryptor (plain (λ w. (tt, (skip n w).1)))

  -- `_endWrite`
  abbrev pub end_write : Async (WrappedStream S) (Unit {0})
  end_write = do
    bytes ← on_encryptor (look available)
    on_inner (io.write bytes)
    skip_written (length bytes)

  unfoldable pub write : Bytes → Async (WrappedStream S) (Unit {0})
  write bytes = on_encryptor (push c bytes) >> end_write

  abbrev pub push_pieces : List Bytes → Async (WrappedStream S) (Unit {0})
  push_pieces [] = pure tt
  push_pieces (piece ∷ pieces) = on_encryptor (push_partial c piece) >> push_pieces pieces

  -- `write` of several pieces
  unfoldable pub write_pieces : List Bytes → Async (WrappedStream S) (Unit {0})
  write_pieces pieces = push_pieces pieces >> on_encryptor (flush c) >> end_write

  -- The key of `getIdentity`'s identity
  unfoldable pub get_identity : WrappedStream S → Option Bytes
  get_identity s = elim s.session [ none ↦ none | some session ↦ some session.peer_public_key ]
