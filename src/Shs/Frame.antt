-- ===== src/Shs/Frame.antt =====
-- src/shs.cc: what has been computed at each stage of the handshake, so that no `value()` or `*` meets
-- an empty optional.
use secret_handshake_capnp.Common.{
  ◌≡◌, Bytes, Bool, true, false, ◌&&◌, Option, none, some, Outcome, ok, fault, arith,
}
use secret_handshake_capnp.Crypto.{Crypto}
use secret_handshake_capnp.Shs
use secret_handshake_capnp.Shs.{Session}

abbrev pub is_some : {A : Type 0} → Option A → Bool
is_some none = false
is_some (some a) = true

-- After an accepted challenge.
abbrev pub greeted : Shs.Shs → Bool
greeted s = is_some s.peer_ephemeral && is_some s.ab && is_some s.hash_ab

abbrev pub named : Shs.Shs → Bool
named s = is_some s.peer_public_key

-- After the client's authentication was made, or accepted.
abbrev pub authed : Shs.Shs → Bool
authed s = greeted s && named s && is_some s.h && is_some s.a_b_long && is_some s.a_long_b

-- After the server's acknowledgement was made, or accepted.
abbrev pub keyed : Shs.Shs → Bool
keyed s = authed s && is_some s.server_ack_key

-- A call returned with a value of which the second part holds, the object then being in the third.
abbrev pub Returns : {A : Type 0} → Outcome A × Shs.Shs → (A → Shs.Shs → Type 0) → Type 0
Returns (ok a, s) P = P a s
Returns (fault e, s) P = ⊥

module _ (c : Crypto) (s : Shs.Shs) where
  pub verify_challenge-greeted :
      (m : Bytes)
      → (Shs.verify_challenge c m s).0 ≡ true
      → greeted (Shs.verify_challenge c m s).1 ≡ true
  unfolding Shs.verify_challenge
  verify_challenge-greeted m h = ground arith

  pub verify_challenge-named :
      (m : Bytes) → (Shs.verify_challenge c m s).1.peer_public_key ≡ s.peer_public_key
  unfolding Shs.verify_challenge
  verify_challenge-named m = ground arith

  pub create_client_auth-Returns :
      greeted s ≡ true
      → named s ≡ true
      → Returns (Shs.create_client_auth c s) (λ bytes s'. authed s' ≡ true)
  unfolding Shs.create_client_auth
  create_client_auth-Returns g n = ground arith

  pub verify_client_auth-Returns :
      (m : Bytes)
      → greeted s ≡ true
      → Returns (Shs.verify_client_auth c m s) (λ valid s'. valid ≡ true → authed s' ≡ true)
  unfolding Shs.verify_client_auth
  verify_client_auth-Returns m g = ground arith

  pub create_server_ack-Returns :
      authed s ≡ true → Returns (Shs.create_server_ack c s) (λ bytes s'. keyed s' ≡ true)
  unfolding Shs.create_server_ack
  create_server_ack-Returns a = ground arith

  pub verify_server_ack-Returns :
      (m : Bytes)
      → authed s ≡ true
      → Returns (Shs.verify_server_ack c m s) (λ valid s'. keyed s' ≡ true)
  unfolding Shs.verify_server_ack
  verify_server_ack-Returns m a = ground arith

  pub get_outcome-Returns : keyed s ≡ true → Returns (Shs.get_outcome c s) (λ session s'. s' ≡ s)
  unfolding Shs.get_outcome
  get_outcome-Returns k = ground arith
