-- ===== src/CApi.antt =====
-- src/SecretHandshake.cc, its last part, and include/SecretHandshake.h: the C functions over `Handshake`
-- objects. An `SHSHandshake*` is an index into the objects that were made; one that was freed has no
-- object any more, and to use it has no defined behaviour.
pub mod Layout
pub mod Calls
pub mod Interleaved
pub mod Boxes
use secret_handshake_capnp.Common.{
  ℕ, Bytes, Bool, List, [], ◌∷◌, ◌++◌, Option, none, some, length, get_elem?, set, ok, fault,
  undefined_behaviour, Exec, gets, ◌>>=◌, pure,
}
use secret_handshake_capnp.Crypto.{Crypto}
use secret_handshake_capnp.Shs.{Session}
use secret_handshake_capnp.Handshake
use secret_handshake_capnp.Keys.{
  KeyPair, from_signing_key, generate, context_of, app_id_from_string,
}

-- The C structs are the C++ ones under other names; a cast between them keeps every member.
pub record ShsKeyPair : Type 0 where
  pub signing_key : Bytes
  pub public_key : Bytes

abbrev pub shs_key_pair : KeyPair → ShsKeyPair
shs_key_pair pair = record { signing_key = pair.signing_key; public_key = pair.public_key }

abbrev pub key_pair_of : ShsKeyPair → KeyPair
key_pair_of pair = record { signing_key = pair.signing_key; public_key = pair.public_key }

-- The objects, each there until it is freed.
abbrev pub Heap : Type 0 → Type 0
Heap T = List (Option T)

abbrev pub Objects : Type 0
Objects = Heap Handshake.Handshake

abbrev pub new_object : {T : Type 0} → T → Heap T → ℕ × Heap T
new_object x objects = (length objects, objects ++ some x ∷ [])

-- What a method does through a pointer.
abbrev pub through : {T A : Type 0} → ℕ → Option (Option T) → Exec T A → Exec (Heap T) A
through p (some (some x)) m objects = let (r, x') = m x in (r, set objects p (some x'))
through p o m objects = (fault undefined_behaviour, objects)

abbrev pub internal : {T A : Type 0} → ℕ → Exec T A → Exec (Heap T) A
internal p m objects = through p (get_elem? objects p) m objects

-- `delete`
abbrev pub free_object : {T : Type 0} → ℕ → Option (Option T) → Exec (Heap T) (Unit {0})
free_object p (some (some x)) objects = (ok tt, set objects p none)
free_object p o objects = (fault undefined_behaviour, objects)

-- `SHSErase`, of the bytes of an object
abbrev pub erase : (Bytes → Bytes) → Bytes → Bytes
erase wipe bytes = wipe bytes

abbrev pub signing_key_erase : (Bytes → Bytes) → Bytes → Bytes
signing_key_erase wipe key = erase wipe key

-- `SHSKeyPair_Erase`: the private key only
abbrev pub key_pair_erase : (Bytes → Bytes) → ShsKeyPair → ShsKeyPair
key_pair_erase wipe pair = record pair { signing_key = signing_key_erase wipe pair.signing_key }

unfoldable pub key_pair_generate : Bytes → ShsKeyPair
key_pair_generate generated = shs_key_pair (generate generated)

unfoldable pub app_id_of : (Bytes → Bytes) → Bytes → Bytes
app_id_of fill_with_string str = app_id_from_string fill_with_string str

module _ (c : Crypto) where
  unfoldable pub key_pair_regenerate : Bytes → ShsKeyPair
  key_pair_regenerate signing_key = shs_key_pair (from_signing_key c signing_key)

  unfoldable pub handshake_create_client :
      Bytes → ShsKeyPair → Bytes → Bytes → Objects → ℕ × Objects
  handshake_create_client app_id pair server_public_key ephemeral =
      new_object (
        Handshake.create_client c (context_of app_id (key_pair_of pair)) server_public_key
          ephemeral)

  unfoldable pub handshake_create_server : Bytes → ShsKeyPair → Bytes → Objects → ℕ × Objects
  handshake_create_server app_id pair ephemeral =
      new_object (Handshake.create_server c (context_of app_id (key_pair_of pair)) ephemeral)

  unfoldable pub handshake_free : ℕ → Exec Objects (Unit {0})
  handshake_free p objects = free_object p (get_elem? objects p) objects

  unfoldable pub handshake_get_bytes_needed : ℕ → Exec Objects ℕ
  handshake_get_bytes_needed p = internal p (gets Handshake.byte_count_needed)

  unfoldable pub handshake_get_input_buffer : ℕ → Exec Objects Bytes
  handshake_get_input_buffer p =
      internal p (λ h. let (buffer, h') = Handshake.bytes_to_read h in (ok buffer, h'))

  -- `SHSHandshake_GetBytesToRead`: the pointer to the buffer, and the size
  unfoldable pub handshake_get_bytes_to_read : ℕ → Exec Objects (Bytes × ℕ)
  unfolding handshake_get_input_buffer handshake_get_bytes_needed
  handshake_get_bytes_to_read p = do
    dst ← handshake_get_input_buffer p
    size ← handshake_get_bytes_needed p
    pure (dst, size)

  unfoldable pub handshake_read_completed : ℕ → Exec Objects Bool
  handshake_read_completed p = internal p (Handshake.read_completed c)

  unfoldable pub handshake_received_bytes : ℕ → Bytes → Exec Objects (Option ℕ)
  handshake_received_bytes p src = internal p (Handshake.received_bytes c src)

  unfoldable pub handshake_get_bytes_to_send : ℕ → Exec Objects Bytes
  handshake_get_bytes_to_send p = internal p (Handshake.bytes_to_send c)

  unfoldable pub handshake_send_completed : ℕ → Exec Objects (Unit {0})
  handshake_send_completed p = internal p (Handshake.send_completed c)

  unfoldable pub handshake_copy_bytes_to_send : ℕ → ℕ → Exec Objects (Option Bytes)
  handshake_copy_bytes_to_send p capacity = internal p (Handshake.copy_bytes_to_send c capacity)

  unfoldable pub handshake_get_error : ℕ → Exec Objects Handshake.Error
  handshake_get_error p = internal p (gets (λ h. h.error))

  unfoldable pub handshake_finished : ℕ → Exec Objects Bool
  handshake_finished p = internal p (gets Handshake.finished?)

  unfoldable pub handshake_get_session : ℕ → Exec Objects Session
  handshake_get_session p = internal p (Handshake.session c)
