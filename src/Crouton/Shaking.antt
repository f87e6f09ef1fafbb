-- ===== src/Crouton/Shaking.antt =====
-- crouton/SecretHandshakeStream.cc, class `SecretHandshake`: the handshake, run over an inner stream.
use secret_handshake_capnp.Common.{
  ℕ, zero, suc, Bytes, Bool, true, false, ◌||◌, Option, none, some, ◌++◌, length, is_empty, drop,
  ◌==◌, if◌then◌else◌, ok, fault, bad_cast, assertion_failed, undefined_behaviour, out_of_fuel,
  Exec,
}
use secret_handshake_capnp.Crypto.{Crypto}
use secret_handshake_capnp.Shs.{Session}
use secret_handshake_capnp.Handshake
use secret_handshake_capnp.Handshake.{
  Context, Role, client, server, no_error, protocol_error, auth_error,
}
use secret_handshake_capnp.Async.{
  shs_error, thrown, SecretHandshakeError, protocol, auth, returned, failed, Async, ◌>>=◌, ◌>>◌,
  pure, fail_with, of_outcome,
}

-- Crouton's `io::IStream`, which is not in this repository
pub record IoStream (S : Type 0) : Type 0 where
  pub is_open : S → Bool
  pub open_inner : Async S (Unit {0})
  pub read : ℕ → Async S Bytes
  pub read_no_copy : Async S Bytes
  pub write : Bytes → Async S (Unit {0})
  pub close : Async S (Unit {0})
  pub close_write : Async S (Unit {0})

-- The pointers to the handshake and to the inner stream, either of which may be null.
pub record Link (S : Type 0) : Type 0 where
  pub handshake : Option Handshake.Handshake
  pub stream : Option S

abbrev pub has_error : Handshake.Error → Bool
has_error no_error = false
has_error _ = true

-- `SecretHandshakeError(int(error))`, where there is one
abbrev pub error_of : Handshake.Error → Option SecretHandshakeError
error_of no_error = none
error_of protocol_error = some protocol
error_of auth_error = some auth

module _ {S : Type 0} where
  -- A call through `_handshake`.
  abbrev pub on_handshake : {A : Type 0} → Exec Handshake.Handshake A → Async (Link S) A
  on_handshake m l = elim l.handshake [
    | none ↦ (failed (thrown undefined_behaviour), l)
    | some h ↦ let (r, h') = m h in (of_outcome r, record l { handshake = some h' })
  ]

  -- A call through `_stream`.
  abbrev pub on_stream : {A : Type 0} → Async S A → Async (Link S) A
  on_stream m l = elim l.stream [
    | none ↦ (failed (thrown undefined_behaviour), l)
    | some t ↦ let (r, t') = m t in (r, record l { stream = some t' })
  ]

  abbrev pub drop_handshake : Async (Link S) (Unit {0})
  drop_handshake l = (returned tt, record l { handshake = none })

-- The buffer after `read` wrote some bytes at its start.
abbrev pub filled : Bytes → Bytes → Bytes
filled bytes buffer = bytes ++ drop (length bytes) buffer

-- `dynamic_cast<ServerHandshake&>`
abbrev pub authorizer_of : Crypto → (Bytes → Bool) → Role → Exec Handshake.Handshake (Unit {0})
authorizer_of c accepts client h = (fault bad_cast, h)
authorizer_of c accepts (server a) h = (ok tt, Handshake.set_client_authorizer c accepts h)

abbrev pub as_exec :
    {A : Type 0} → (Handshake.Handshake → A × Handshake.Handshake) → Exec Handshake.Handshake A
as_exec m h = let (a, h') = m h in (ok a, h')

abbrev pub updating :
    (Handshake.Handshake → Handshake.Handshake) → Exec Handshake.Handshake (Unit {0})
updating f h = (ok tt, f h)

abbrev pub reading : {A : Type 0} → (Handshake.Handshake → A) → Exec Handshake.Handshake A
reading f h = (ok (f h), h)

abbrev pub done : {A : Type 0} → Exec Handshake.Handshake A → Exec Handshake.Handshake (Unit {0})
done m h = elim (m h).0 [ ok a ↦ (ok tt, (m h).1) | fault e ↦ (fault e, (m h).1) ]

module _ (c : Crypto) {S : Type 0} (io : IoStream S) where
  -- `SecretHandshake`, for a client if it is given the server's key
  abbrev pub new_handshake : Context → Option Bytes → Bytes → Handshake.Handshake
  new_handshake context (some server_key) ephemeral =
      Handshake.create_client c context server_key ephemeral
  new_handshake context none ephemeral = Handshake.create_server c context ephemeral

  abbrev pub set_client_authorizer : (Bytes → Bool) → Async (Link S) (Unit {0})
  set_client_authorizer accepts = do
    role ← on_handshake (reading (λ h. h.role))
    on_handshake (authorizer_of c accepts role)

  abbrev pub send_turn : Async (Link S) (Unit {0})
  send_turn = do
    to_send ← on_handshake (Handshake.bytes_to_send c)
    if is_empty to_send
        then pure tt
        else (on_stream (io.write to_send) >> on_handshake (Handshake.send_completed c))

  -- `readCompleted` on a full buffer, `readFailed` on one that the end of the stream left short
  abbrev pub read_turn : Async (Link S) (Unit {0})
  read_turn = do
    to_read ← on_handshake (as_exec Handshake.bytes_to_read)
    if is_empty to_read then pure tt else (do
      bytes ← on_stream (io.read (length to_read))
      on_handshake (updating (Handshake.fill_input (filled bytes to_read)))
      if length bytes == length to_read
          then on_handshake (done (Handshake.read_completed c))
          else on_handshake (updating Handshake.read_failed))

  -- The loop of `handshake`, on fuel.
  unfoldable pub shake : ℕ → Async (Link S) (Unit {0})
  shake zero = fail_with (thrown out_of_fuel)
  shake (suc fuel) =
      let again = shake fuel in
      do
        send_turn
        read_turn
        finished ← on_handshake (reading Handshake.finished?)
        error ← on_handshake (reading (λ h. has_error h.error))
        if finished || error then pure tt else again

  -- What `handshake` returns after its loop; either way the handshake is gone.
  abbrev pub outcome_of : Option SecretHandshakeError → Async (Link S) Session
  outcome_of (some e) = do drop_handshake; fail_with (shs_error e)
  outcome_of none = do session ← on_handshake (Handshake.session c); drop_handshake; pure session

  abbrev pub require_stream : Async (Link S) (Unit {0})
  require_stream l = elim l.stream [
    | none ↦ (failed (thrown assertion_failed), l)
    | some t ↦ (if io.is_open t then pure tt else on_stream io.open_inner) l
  ]

  unfoldable pub handshake : ℕ → Async (Link S) Session
  unfolding shake
  handshake fuel = do
    require_stream
    shake fuel
    error ← on_handshake (reading (λ h. h.error))
    outcome_of (error_of error)
