-- ===== src/Crouton/Wrapped.antt =====
-- crouton/SecretHandshakeStream.cc, class `SecretHandshakeStream`: a stream that encrypts and decrypts
-- what goes through the inner stream. A coroutine that is called and not awaited, as `(void)close()`,
-- runs at once.
use secret_handshake_capnp.Common.{
  ℕ, zero, suc, Bytes, Bool, true, false, Option, none, some, List, [], ◌∷◌, length, is_empty, take,
  ltb, if◌then◌else◌, ok, assertion_failed, undefined_behaviour, out_of_fuel, Exec,
}
use secret_handshake_capnp.Crypto.{Crypto}
use secret_handshake_capnp.Shs.{Session}
use secret_handshake_capnp.Handshake
use secret_handshake_capnp.Handshake.{
  Context, Role, client, server, no_error, protocol_error, auth_error,
}
use secret_handshake_capnp.Stream.Box.{compact, encryptor}
use secret_handshake_capnp.Stream.Buffer.{CryptoStream, new_stream, available, skip}
use secret_handshake_capnp.Stream.Encryption.{push_partial, flush}
use secret_handshake_capnp.Stream.Decryption
use secret_handshake_capnp.Stream.Decryption.{decryption_of_session}
use secret_handshake_capnp.Async.{
  shs_error, invalid_state, thrown, data_error, Reply, returned, failed, Async, reply_then, ◌>>=◌,
  ◌>>◌, pure, fail_with, of_outcome, no_throw,
}
use secret_handshake_capnp.Crouton.Shaking.{
  IoStream, Link, on_stream, set_client_authorizer, handshake,
}

pub record SecretHandshakeStream (S : Type 0) : Type 0 where
  pub link : Link S
  pub delegate : Option (Bytes → Bool)
  pub notices : ℕ
  pub peer_public_key : Bytes
  pub writer : Option CryptoStream
  pub reader : Option CryptoStream
  pub last_read_size : ℕ
  pub last_write_size : ℕ
  pub opened : Bool

-- A delegate is told.
abbrev pub notices_after : Option (Bytes → Bool) → ℕ → ℕ
notices_after none n = n
notices_after (some d) n = suc n

module _ {S : Type 0} where
  abbrev pub on_link : {A : Type 0} → Async (Link S) A → Async (SecretHandshakeStream S) A
  on_link m s = let (r, l) = m s.link in (r, record s { link = l })

module _ (c : Crypto) {S : Type 0} (io : IoStream S) where
  abbrev pub notify_closed : SecretHandshakeStream S → SecretHandshakeStream S
  notify_closed s = record s { notices = notices_after s.delegate s.notices }

  -- A reply that becomes the coroutine's own.
  abbrev pub returning : {A : Type 0} → Reply A → Async (SecretHandshakeStream S) (Unit {0})
  returning (returned a) = pure tt
  returning (failed e) = fail_with e

  abbrev pub authorize_by : Option (Bytes → Bool) → Async (Link S) (Unit {0})
  authorize_by none = pure tt
  authorize_by (some accepts) = set_client_authorizer c io accepts

  abbrev pub ask_delegate : Async (SecretHandshakeStream S) (Unit {0})
  ask_delegate s = on_link (authorize_by s.delegate) s

  -- The protocol is the default one of both classes.
  abbrev pub opened_with : Reply Session → Async (SecretHandshakeStream S) (Unit {0})
  opened_with (returned session) s = (
    returned tt,
    record s {
      peer_public_key = session.peer_public_key;
      writer = some (new_stream (encryptor session compact));
      reader = some (decryption_of_session session compact);
      opened = true;
    },
  )
  opened_with (failed e) s =
      reply_then (on_link (on_stream io.close) s) λ _ s. (failed e, notify_closed s)

  unfoldable pub open_stream : ℕ → Async (SecretHandshakeStream S) (Unit {0})
  unfolding handshake
  open_stream fuel = do
    ask_delegate
    session ← on_link (no_throw (handshake c io fuel))
    opened_with session

  unfoldable pub get_peer_public_key : Async (SecretHandshakeStream S) Bytes
  get_peer_public_key s =
      if s.opened then pure s.peer_public_key s else fail_with (thrown assertion_failed) s

  -- What `close` returns once the inner stream has answered.
  abbrev pub closed_with : Reply (Unit {0}) → Async (SecretHandshakeStream S) (Unit {0})
  closed_with r s = returning r (notify_closed s)

  abbrev pub close_inner : Option S → Async (SecretHandshakeStream S) (Unit {0})
  close_inner none = pure tt
  close_inner (some t) = do r ← on_link (no_throw (on_stream io.close)); closed_with r

  unfoldable pub close_stream : Async (SecretHandshakeStream S) (Unit {0})
  close_stream s = close_inner s.link.stream (record s { opened = false })

  unfoldable pub close_write_stream : Async (SecretHandshakeStream S) (Unit {0})
  close_write_stream s = elim s.link.stream [
    | none ↦ (failed (thrown assertion_failed), s)
    | some t ↦ on_link (on_stream io.close_write) s
  ]

  -- A call through `_reader`.
  abbrev pub on_reader : {A : Type 0} → Exec CryptoStream A → Async (SecretHandshakeStream S) A
  on_reader m s = elim s.reader [
    | none ↦ (failed (thrown undefined_behaviour), s)
    | some r ↦ let (a, r') = m r in (of_outcome a, record s { reader = some r' })
  ]

  abbrev pub on_writer : {A : Type 0} → Exec CryptoStream A → Async (SecretHandshakeStream S) A
  on_writer m s = elim s.writer [
    | none ↦ (failed (thrown undefined_behaviour), s)
    | some w ↦ let (a, w') = m w in (of_outcome a, record s { writer = some w' })
  ]

  abbrev pub plain : {A : Type 0} → (CryptoStream → A × CryptoStream) → Exec CryptoStream A
  plain m r = let (a, r') = m r in (ok a, r')

  abbrev pub look : {A : Type 0} → (CryptoStream → A) → Exec CryptoStream A
  look f r = (ok (f r), r)

  -- `(void)close()`, and the error
  abbrev pub close_corrupt : {A : Type 0} → Async (SecretHandshakeStream S) A
  close_corrupt s = (failed (shs_error data_error), (close_stream s).1)

  -- The end of the inner stream, which may not come in the middle of a message.
  abbrev pub at_end : Async (SecretHandshakeStream S) Bytes
  at_end = do whole ← on_reader (plain Decryption.close); if whole then pure [] else close_corrupt

  -- The loop of `peekNoCopy`, on fuel.
  unfoldable pub fill_reader : ℕ → Async (SecretHandshakeStream S) Bytes
  fill_reader zero = fail_with (thrown out_of_fuel)
  fill_reader (suc fuel) =
      let again = fill_reader fuel in
      do
        ready ← on_reader (look available)
        if is_empty ready
            then (do
              bytes ← on_link (on_stream io.read_no_copy)
              if is_empty bytes then at_end else (do
                good ← on_reader (Decryption.push c bytes)
                if good then again else close_corrupt))
            else pure ready

  abbrev pub skip_last_read : Async (SecretHandshakeStream S) (Unit {0})
  skip_last_read s =
      if ltb 0 s.last_read_size
      then (do
        on_reader (plain (skip s.last_read_size))
        λ s. (returned tt, record s { last_read_size = 0 }))
          s
      else (returned tt, s)

  unfoldable pub peek_no_copy : ℕ → Async (SecretHandshakeStream S) Bytes
  unfolding fill_reader
  peek_no_copy fuel s =
      if s.opened then (skip_last_read >> fill_reader fuel) s else (failed invalid_state, s)

  abbrev pub read_of : ℕ → Bytes → Async (SecretHandshakeStream S) Bytes
  read_of max_len bytes s =
      (returned (take max_len bytes), record s { last_read_size = length (take max_len bytes) })

  unfoldable pub read_no_copy_stream : ℕ → ℕ → Async (SecretHandshakeStream S) Bytes
  unfolding peek_no_copy
  read_no_copy_stream fuel max_len = do bytes ← peek_no_copy fuel; read_of max_len bytes

  abbrev pub push_each : List Bytes → Async (SecretHandshakeStream S) (Unit {0})
  push_each [] = pure tt
  push_each (bytes ∷ buffers) = on_writer (push_partial c bytes) >> push_each buffers

  abbrev pub remember_write : ℕ → Async (SecretHandshakeStream S) (Unit {0})
  remember_write n s = (returned tt, record s { last_write_size = n })

  abbrev pub skip_last_write : Async (SecretHandshakeStream S) (Unit {0})
  skip_last_write s = (on_writer (plain (skip s.last_write_size)) >> remember_write 0) s

  -- The encrypted bytes are written from the writer's buffer, and skipped by the next call.
  abbrev pub write_out : Async (SecretHandshakeStream S) (Unit {0})
  write_out = do
    bytes ← on_writer (look available)
    remember_write (length bytes)
    on_link (on_stream (io.write bytes))

  abbrev pub write_open : List Bytes → Async (SecretHandshakeStream S) (Unit {0})
  write_open buffers s =
      if s.opened
      then (push_each buffers >> on_writer (flush c) >> write_out) s
      else (failed invalid_state, s)

  unfoldable pub write_stream : List Bytes → Async (SecretHandshakeStream S) (Unit {0})
  write_stream buffers = skip_last_write >> write_open buffers

abbrev pub new_secret_stream :
    {S : Type 0} → Option S → Handshake.Handshake → SecretHandshakeStream S
new_secret_stream stream h = record {
  link = record { handshake = some h; stream = stream };
  delegate = none;
  notices = 0;
  peer_public_key = [];
  writer = none;
  reader = none;
  last_read_size = 0;
  last_write_size = 0;
  opened = false;
}
