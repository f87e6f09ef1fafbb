-- ===== src/Handshake.antt =====
-- src/SecretHandshake.cc and include/SecretHandshake.hh: the handshake's state machine, classes
-- `Handshake`, `ClientHandshake` and `ServerHandshake`. The two subclasses are a field, the role, and
-- its virtual methods branch on it. Logging is left out. A pointer with a size that a method returns
-- is the bytes that it points to.
pub mod Invariant
pub mod Receive
pub mod Send
pub mod Stages
pub mod Turns
pub mod Messages
pub mod Calls
pub mod Final
pub mod Trust
pub mod Shown
pub mod Rounds
pub mod Complete
use secret_handshake_capnp.Common.{
  ℕ, ◌+◌, ◌-◌, min, Bytes, Bool, true, false, not, ◌&&◌, ◌||◌, Option, none, some, [], ◌++◌, length,
  is_empty, take, drop, resize, sub_size, ltb, ◌==◌, if◌then◌else◌, Fault, Outcome, ok, fault,
  logic_error, assertion_failed, Exec, and_then, ◌>>=◌, ◌>>◌, pure, gets, modify, value,
}
use secret_handshake_capnp.Crypto.{Crypto}
use secret_handshake_capnp.Shs
use secret_handshake_capnp.Shs.{Session, challenge_size, client_auth_size, server_ack_size}

pub data Step : Type 0 where
  failed client_challenge server_challenge client_auth server_ack finished : Step

-- The enumerators' values.
abbrev pub step_number : Step → ℕ
step_number failed = 0
step_number client_challenge = 1
step_number server_challenge = 2
step_number client_auth = 3
step_number server_ack = 4
step_number finished = 5

pub data Error : Type 0 where
  no_error protocol_error auth_error : Error

-- `ClientAuthorizer` is an empty `std::function` or a test of the client's public key.
pub data Role : Type 0 where
  client : Role
  server : Option (Bytes → Bool) → Role

pub record Context : Type 0 where
  pub app_id : Bytes
  pub signing_key : Bytes
  pub public_key : Bytes

pub record Handshake : Type 0 where
  pub role : Role
  pub context : Context
  pub step : Step
  pub error : Error
  pub impl : Shs.Shs
  pub input_buffer : Bytes
  pub output_buffer : Bytes

-- `Step(_step + 1)`. The assertion of `nextStep` refuses the first and the last.
abbrev pub next : Step → Option Step
next failed = none
next client_challenge = some server_challenge
next server_challenge = some client_auth
next client_auth = some server_ack
next server_ack = some finished
next finished = none

abbrev pub is_over : Step → Bool
is_over failed = true
is_over finished = true
is_over _ = false

abbrev pub is_failed : Step → Bool
is_failed failed = true
is_failed _ = false

-- `byteCountNeeded` of both subclasses
abbrev pub bytes_wanted : Role → Step → ℕ
bytes_wanted client server_challenge = challenge_size
bytes_wanted client server_ack = server_ack_size
bytes_wanted (server a) client_challenge = challenge_size
bytes_wanted (server a) client_auth = client_auth_size
bytes_wanted _ _ = 0

abbrev pub byte_count_needed : Handshake → ℕ
byte_count_needed h = bytes_wanted h.role h.step

-- `(_step < ClientAuth) ? ProtocolError : AuthError`
abbrev pub error_at : Step → Error
error_at s = if ltb (step_number s) (step_number client_auth) then protocol_error else auth_error

unfoldable pub fail : Handshake → Handshake
fail h = record h { error = error_at h.step; step = failed }

abbrev advance : Option Step → Exec Handshake (Unit {0})
advance none h = (fault assertion_failed, h)
advance (some s) h = (ok tt, record h { step = s })

unfoldable pub next_step : Exec Handshake (Unit {0})
next_step h = advance (next h.step) h

-- The buffer that `bytesToRead` hands out for the caller to fill.
unfoldable pub bytes_to_read : Handshake → Bytes × Handshake
bytes_to_read h =
    let buffer = resize (byte_count_needed h) h.input_buffer in
    (buffer, record h { input_buffer = buffer })

-- The caller fills that buffer.
unfoldable pub fill_input : Bytes → Handshake → Handshake
fill_input bytes h = record h { input_buffer = bytes }

unfoldable pub read_failed : Handshake → Handshake
unfolding fail
read_failed h = fail h

unfoldable pub finished? : Handshake → Bool
finished? h = step_number h.step == 5

-- Only a server has the method.
abbrev authorized_by : (Bytes → Bool) → Role → Role
authorized_by authorizer client = client
authorized_by authorizer (server a) = server (some authorizer)

-- A call into the `impl::handshake` object.
abbrev pub on_impl {ℓ} : {A : Type ℓ} → Exec Shs.Shs A → Exec Handshake A
on_impl m h = let (r, s) = m h.impl in (r, record h { impl = s })

abbrev pub total {ℓ} : {A : Type ℓ} → (Shs.Shs → A × Shs.Shs) → Exec Shs.Shs A
total m s = let (r, s') = m s in (ok r, s')

-- `intptr_t`, with `none` for -1
abbrev pub count_or_error : ℕ → Exec Handshake (Option ℕ)
count_or_error count h = (ok (if is_failed h.step then none else some count), h)

-- The bytes that `receivedBytes` takes of those offered.
abbrev pub accepted_count : Bytes → Handshake → ℕ
accepted_count src h = min (length src) (sub_size (byte_count_needed h) (length h.input_buffer))

module _ (c : Crypto) where
  open c use {get_public_key}

  unfoldable pub create_handshake : Role → Context → Bytes → Handshake
  create_handshake role context ephemeral = record {
    role = role;
    context = context;
    step = client_challenge;
    error = no_error;
    impl = Shs.create c context.app_id context.signing_key context.public_key ephemeral;
    input_buffer = [];
    output_buffer = [];
  }

  unfoldable pub create_client : Context → Bytes → Bytes → Handshake
  unfolding create_handshake
  create_client context their_public_key ephemeral =
      let h = create_handshake client context ephemeral in
      record h { impl = Shs.set_server_public_key c their_public_key h.impl }

  unfoldable pub create_server : Context → Bytes → Handshake
  unfolding create_handshake
  create_server context ephemeral = create_handshake (server none) context ephemeral

  unfoldable pub set_client_authorizer : (Bytes → Bool) → Handshake → Handshake
  set_client_authorizer authorizer h = record h { role = authorized_by authorizer h.role }

  -- `!_clientAuth || _clientAuth(_impl->getPeerPublicKey())`, after the signature is accepted
  abbrev pub authorize : Option (Bytes → Bool) → Bool → Exec Shs.Shs Bool
  authorize authorizer false = pure false
  authorize none true = pure true
  authorize (some accepts) true = do key ← Shs.get_peer_public_key c; pure (accepts key)

  -- `_receivedBytes` of both subclasses
  unfoldable pub process : Role → Step → Bytes → Exec Shs.Shs Bool
  process client server_challenge bytes = total (Shs.verify_challenge c bytes)
  process client server_ack bytes = Shs.verify_server_ack c bytes
  process (server a) client_challenge bytes = total (Shs.verify_challenge c bytes)
  process (server a) client_auth bytes = do
    accepted ← Shs.verify_client_auth c bytes
    authorize a accepted
  process _ _ bytes = pure false

  -- `_fillOutputBuffer` of both subclasses, on an empty buffer
  unfoldable pub produce : Role → Step → Exec Shs.Shs Bytes
  produce client client_challenge = gets (Shs.create_challenge c)
  produce client client_auth = Shs.create_client_auth c
  produce (server a) server_challenge = gets (Shs.create_challenge c)
  produce (server a) server_ack = Shs.create_server_ack c
  produce _ _ = pure []

  -- What `readCompleted` does with the verdict on the bytes.
  unfoldable pub conclude : Bool → Exec Handshake Bool
  conclude true = do next_step; modify (λ h. record h { input_buffer = [] }); pure true
  conclude false = do modify fail; pure false

  unfoldable pub read_completed : Exec Handshake Bool
  read_completed h =
      if length h.input_buffer == byte_count_needed h
      then (do valid ← on_impl (process h.role h.step h.input_buffer); conclude valid) h
      else (fault logic_error, h)

  unfoldable pub received_bytes : Bytes → Exec Handshake (Option ℕ)
  received_bytes src h =
      let count = accepted_count src h in
      let h' = record h { input_buffer = h.input_buffer ++ take count src } in
      if is_over h.step
      then (ok none, h)
      else if byte_count_needed h == 0
      then (ok (some 0), h)
      else if ltb (length h'.input_buffer) (byte_count_needed h)
      then count_or_error count h'
      else (read_completed >> count_or_error count) h'

  unfoldable pub bytes_to_send : Exec Handshake Bytes
  bytes_to_send h =
      if is_over h.step
      then (ok [], h)
      else if is_empty h.output_buffer
      then (do
        bytes ← on_impl (produce h.role h.step)
        modify (λ h. record h { output_buffer = bytes })
        pure bytes)
          h
      else (ok h.output_buffer, h)

  unfoldable pub send_completed : Exec Handshake (Unit {0})
  send_completed h =
      if is_empty h.output_buffer
      then (fault logic_error, h)
      else next_step (record h { output_buffer = [] })

  -- The second half of `copyBytesToSend`; the result is the bytes written to `dst`.
  unfoldable pub copy_out : ℕ → Exec Handshake (Option Bytes)
  copy_out max_count h =
      let count = min (length h.output_buffer) max_count in
      let h' = record h { output_buffer = drop count h.output_buffer } in
      if is_empty h'.output_buffer
      then (next_step >> pure (some (take count h.output_buffer))) h'
      else (ok (some (take count h.output_buffer)), h')

  unfoldable pub copy_bytes_to_send : ℕ → Exec Handshake (Option Bytes)
  copy_bytes_to_send max_count h =
      if is_failed h.step
      then (ok none, h)
      else if is_empty h.output_buffer
      then (do bytes ← bytes_to_send; if is_empty bytes then pure (some []) else copy_out max_count)
          h
      else copy_out max_count h

  unfoldable pub session : Exec Handshake Session
  unfolding finished?
  session h = if finished? h then on_impl (Shs.get_outcome c) h else (fault logic_error, h)
