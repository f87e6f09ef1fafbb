-- ===== src/CApi/Calls.antt =====
-- src/SecretHandshake.cc, its C functions: a program's calls of them, on several handshakes that it makes
-- and frees, in any order. `SHSHandshake_GetBytesToRead` is two of these calls.
use secret_handshake_capnp.Common.{
  ℕ, suc, Bytes, Bool, true, false, List, [], ◌∷◌, Option, none, some, Outcome, ok, fault, Exec,
  gets, ◌==◌, undefined_behaviour, assertion_failed, out_of_fuel, if◌then◌else◌,
}
use secret_handshake_capnp.Crypto.{Crypto}
use secret_handshake_capnp.Shs.{Session}
use secret_handshake_capnp.Keys.{context_of}
use secret_handshake_capnp.Handshake
use secret_handshake_capnp.Handshake.Invariant.{perform, filled}
use secret_handshake_capnp.CApi.{
  ShsKeyPair, key_pair_of, Objects, internal, handshake_create_client, handshake_create_server,
  handshake_free, handshake_get_bytes_needed, handshake_get_input_buffer, handshake_read_completed,
  handshake_received_bytes, handshake_get_bytes_to_send, handshake_send_completed,
  handshake_copy_bytes_to_send, handshake_get_error, handshake_finished, handshake_get_session,
}

-- A C function about one handshake, or the caller's own writing to the input buffer.
pub data CCall : Type 0 where
  get_bytes_needed get_input_buffer read_completed get_bytes_to_send send_completed : CCall
  get_error finished get_session : CCall
  write_input received_bytes : Bytes → CCall
  copy_bytes_to_send : ℕ → CCall

-- What a C function gives back.
pub data Answer : Type 0 where
  nothing : Answer
  flag : Bool → Answer
  number handle : ℕ → Answer
  contents : Bytes → Answer
  counted : Option ℕ → Answer
  copied_out : Option Bytes → Answer
  error_code : Handshake.Error → Answer
  session_keys : Session → Answer

-- What a program does with the C functions.
pub data Request : Type 0 where
  create_client : Bytes → ShsKeyPair → Bytes → Bytes → Request
  create_server : Bytes → ShsKeyPair → Bytes → Request
  free : ℕ → Request
  call : ℕ → CCall → Request

abbrev pub answered : {S A : Type 0} → (A → Answer) → Outcome A × S → Outcome Answer × S
answered f (ok a, s) = (ok (f a), s)
answered f (fault e, s) = (fault e, s)

abbrev pub answering : {S A : Type 0} → (A → Answer) → Exec S A → Exec S Answer
answering f m s = answered f (m s)

-- After it, the program does not go on, or anything may happen.
abbrev pub is_end : Outcome Answer → Bool
is_end (fault undefined_behaviour) = true
is_end (fault assertion_failed) = true
is_end (fault out_of_fuel) = true
is_end r = false

abbrev pub then_answers :
    {T : Type 0}
    → Outcome Answer
    → Option (List (Outcome Answer) × T)
    → Option (List (Outcome Answer) × T)
then_answers r none = none
then_answers r (some (answers, t)) = some (r ∷ answers, t)

-- One handle: no object yet, one that is freed, or a handshake.
abbrev pub Slot : Type 0
Slot = Option (Option Handshake.Handshake)

-- The handle that a request is about, where this many were made before.
abbrev pub subject : ℕ → Request → ℕ
subject n (create_client app_id pair key ephemeral) = n
subject n (create_server app_id pair ephemeral) = n
subject n (free p) = p
subject n (call p k) = p

abbrev pub made_by : Request → ℕ → ℕ
made_by (create_client app_id pair key ephemeral) n = suc n
made_by (create_server app_id pair ephemeral) n = suc n
made_by request n = n

module _ (c : Crypto) where
  unfoldable pub c_call : ℕ → CCall → Exec Objects Answer
  c_call p get_bytes_needed = answering number (handshake_get_bytes_needed c p)
  c_call p get_input_buffer = answering contents (handshake_get_input_buffer c p)
  c_call p read_completed = answering flag (handshake_read_completed c p)
  c_call p get_bytes_to_send = answering contents (handshake_get_bytes_to_send c p)
  c_call p send_completed = answering (λ u. nothing) (handshake_send_completed c p)
  c_call p get_error = answering error_code (handshake_get_error c p)
  c_call p finished = answering flag (handshake_finished c p)
  c_call p get_session = answering session_keys (handshake_get_session c p)
  c_call p (write_input bytes) = answering (λ u. nothing) (internal p (perform c (filled bytes)))
  c_call p (received_bytes bytes) = answering counted (handshake_received_bytes c p bytes)
  c_call p (copy_bytes_to_send n) = answering copied_out (handshake_copy_bytes_to_send c p n)

  -- The method of `Handshake` that it calls.
  unfoldable pub method : CCall → Exec Handshake.Handshake Answer
  method get_bytes_needed = answering number (gets Handshake.byte_count_needed)
  method get_input_buffer =
      answering contents (λ h. let (buffer, h') = Handshake.bytes_to_read h in (ok buffer, h'))
  method read_completed = answering flag (Handshake.read_completed c)
  method get_bytes_to_send = answering contents (Handshake.bytes_to_send c)
  method send_completed = answering (λ u. nothing) (Handshake.send_completed c)
  method get_error = answering error_code (gets (λ h. h.error))
  method finished = answering flag (gets Handshake.finished?)
  method get_session = answering session_keys (Handshake.session c)
  method (write_input bytes) = answering (λ u. nothing) (perform c (filled bytes))
  method (received_bytes bytes) = answering counted (Handshake.received_bytes c bytes)
  method (copy_bytes_to_send n) = answering copied_out (Handshake.copy_bytes_to_send c n)

  unfoldable pub c_step : Request → Exec Objects Answer
  c_step (create_client app_id pair key ephemeral) objects =
      let (p, objects') = handshake_create_client c app_id pair key ephemeral objects in
      (ok (handle p), objects')
  c_step (create_server app_id pair ephemeral) objects =
      let (p, objects') = handshake_create_server c app_id pair ephemeral objects in
      (ok (handle p), objects')
  c_step (free p) objects = answering (λ u. nothing) (handshake_free c p) objects
  c_step (call p k) objects = c_call p k objects

  -- A program, with what it gets back; `none` where it came to an end before. An exception is one of
  -- the answers: the program may catch it and go on.
  unfoldable pub c_run : List Request → Objects → Option (List (Outcome Answer) × Objects)
  c_run [] objects = some ([], objects)
  c_run (request ∷ requests) objects =
      let result = c_step request objects in
      let rest = c_run requests result.1 in
      if is_end result.0 then none else then_answers result.0 rest

  -- One handshake by itself: it is made, its methods are called until it is freed, and then nothing
  -- may be done with it.
  abbrev pub call_slot : CCall → Slot → Outcome Answer × Slot
  call_slot k (some (some h)) = let (r, h') = method k h in (r, some (some h'))
  call_slot k slot = (fault undefined_behaviour, slot)

  abbrev pub free_slot : Slot → Outcome Answer × Slot
  free_slot (some (some h)) = (ok nothing, some none)
  free_slot slot = (fault undefined_behaviour, slot)

  unfoldable pub slot_step : Request → ℕ → Slot → Outcome Answer × Slot
  slot_step (create_client app_id pair key ephemeral) n slot = (
    ok (handle n),
    some (some (Handshake.create_client c (context_of app_id (key_pair_of pair)) key ephemeral)),
  )
  slot_step (create_server app_id pair ephemeral) n slot = (
    ok (handle n),
    some (some (Handshake.create_server c (context_of app_id (key_pair_of pair)) ephemeral)),
  )
  slot_step (free p) n slot = free_slot slot
  slot_step (call p k) n slot = call_slot k slot

  unfoldable pub alone : ℕ → List Request → ℕ → Slot → Option (List (Outcome Answer) × Slot)
  alone p [] n slot = some ([], slot)
  alone p (request ∷ requests) n slot =
      let result = slot_step request n slot in
      let rest = alone p requests (made_by request n) result.1 in
      let skipped = alone p requests (made_by request n) slot in
      if subject n request == p
      then (if is_end result.0 then none else then_answers result.0 rest)
      else skipped

-- The answers about one handle.
unfoldable pub answers_of : ℕ → List Request → ℕ → List (Outcome Answer) → List (Outcome Answer)
answers_of p [] n answers = []
answers_of p (request ∷ requests) n [] = []
answers_of p (request ∷ requests) n (r ∷ answers) =
    let rest = answers_of p requests (made_by request n) answers in
    if subject n request == p then r ∷ rest else rest
