-- ===== src/Shs.antt =====
-- src/shs.cc and include/shs.hh: the cryptographic core of the handshake, class `impl::handshake`.
-- The random ephemeral key of the constructor is an argument. A call of `value()` on an empty
-- optional throws, and `*` on one has no defined behaviour.
pub mod Agreement
pub mod Accepts
pub mod Frame
use secret_handshake_capnp.Common.{
  ℕ, Bytes, Bool, true, false, Option, none, some, ◌++◌, range, bytes_eq, if◌then◌else◌, Outcome,
  ok, Exec, ◌>>=◌, ◌>>◌, pure, gets, modify, value, deref,
}
use secret_handshake_capnp.Crypto.{Cipher, Crypto}

-- Names as in the class, where `_x`, `_xp` are the ephemeral key pair and `_X`, `_Xp` the long-term
-- one; `_Yp` and `_yp` are the peer's public keys.
pub record Shs : Type 0 where
  pub app_id : Bytes
  pub signing_key : Bytes
  pub public_key : Bytes
  pub ephemeral_key : Bytes
  pub ephemeral_public : Bytes
  pub peer_public_key : Option Bytes
  pub peer_ephemeral : Option Bytes
  pub ab : Option Bytes
  pub hash_ab : Option Bytes
  pub a_b_long : Option Bytes
  pub a_long_b : Option Bytes
  pub server_ack_key : Option Bytes
  pub h : Option Bytes

-- The session keys that `getOutcome` writes, as `struct Session` holds them.
pub record Session : Type 0 where
  pub encryption_key : Bytes
  pub encryption_nonce : Bytes
  pub decryption_key : Bytes
  pub decryption_nonce : Bytes
  pub peer_public_key : Bytes

-- `sizeof(ChallengeData)`, `sizeof(ClientAuthData)`, `sizeof(ServerAckData)`, `sizeof(nonce)`
abbrev pub challenge_size : ℕ
challenge_size = 64

abbrev pub client_auth_size : ℕ
client_auth_size = 112

abbrev pub server_ack_size : ℕ
server_ack_size = 80

abbrev pub nonce_size : ℕ
nonce_size = 24

module _ (c : Crypto) where
  open c use {sha256, hmac_sha512, sign, check, kx_public_key, kx_multiply, zero_nonce}
  open c use {as_key_exchange, for_key_exchange, xsalsa20}

  -- The first 256 bits of HMAC-SHA-512
  abbrev pub hmac : Bytes → Bytes → Bytes
  hmac key message = range 0 32 (hmac_sha512 key message)

  abbrev pub hash_to_nonce : Bytes → Bytes
  hash_to_nonce hash = range 0 nonce_size hash

  abbrev pub make_box_key : Bytes → Bytes
  make_box_key material = sha256 material

  abbrev pub box : Bytes → Bytes → Bytes
  box key plaintext = xsalsa20.box key zero_nonce plaintext

  abbrev pub unbox : Bytes → Bytes → Option Bytes
  unbox key ciphertext = xsalsa20.unbox key zero_nonce ciphertext

  -- The two overloads of `*`: a signing key with an ephemeral public key, and an ephemeral key with
  -- a long-term public key.
  abbrev pub long_times_ephemeral : Bytes → Bytes → Bytes
  long_times_ephemeral k pk = kx_multiply (as_key_exchange k) pk

  abbrev pub ephemeral_times_long : Bytes → Bytes → Bytes
  ephemeral_times_long k pk = kx_multiply k (for_key_exchange pk)

  unfoldable pub create : Bytes → Bytes → Bytes → Bytes → Shs
  create app_id signing_key public_key ephemeral = record {
    app_id = app_id;
    signing_key = signing_key;
    public_key = public_key;
    ephemeral_key = ephemeral;
    ephemeral_public = kx_public_key ephemeral;
    peer_public_key = none;
    peer_ephemeral = none;
    ab = none;
    hash_ab = none;
    a_b_long = none;
    a_long_b = none;
    server_ack_key = none;
    h = none;
  }

  unfoldable pub set_ephemeral_keys : Bytes → Shs → Shs
  set_ephemeral_keys kx s = record s { ephemeral_key = kx; ephemeral_public = kx_public_key kx }

  unfoldable pub set_server_public_key : Bytes → Shs → Shs
  set_server_public_key pk s = record s { peer_public_key = some pk }

  -- `createClientChallenge` and `createServerChallenge` are both this function.
  unfoldable pub create_challenge : Shs → Bytes
  create_challenge s = hmac s.app_id s.ephemeral_public ++ s.ephemeral_public

  -- `verifyClientChallenge` and `verifyServerChallenge` are both this function.
  unfoldable pub verify_challenge : Bytes → Shs → Bool × Shs
  verify_challenge challenge s =
      let challenge_hmac = range 0 32 challenge in
      let challenge_pub_key = range 32 32 challenge in
      let product = kx_multiply s.ephemeral_key challenge_pub_key in
      if bytes_eq challenge_hmac (hmac s.app_id challenge_pub_key)
      then (
        true,
        record s {
          peer_ephemeral = some challenge_pub_key;
          ab = some product;
          hash_ab = some (sha256 product);
        },
      )
      else (false, s)

  unfoldable pub get_outcome : Exec Shs Session
  get_outcome = do
    ack_key ← value (λ s. s.server_ack_key)
    let box_key_hash = sha256 ack_key
    peer ← value (λ s. s.peer_public_key)
    peer_ephemeral ← value (λ s. s.peer_ephemeral)
    s ← gets (λ s. s)
    pure (record {
      encryption_key = sha256 (box_key_hash ++ peer);
      encryption_nonce = hash_to_nonce (hmac s.app_id peer_ephemeral);
      decryption_key = sha256 (box_key_hash ++ s.public_key);
      decryption_nonce = hash_to_nonce (hmac s.app_id s.ephemeral_public);
      peer_public_key = peer;
    })

  -- `[K | a·b | a·B]`
  unfoldable pub client_auth_key : Exec Shs Bytes
  client_auth_key = do
    k ← gets (λ s. s.app_id)
    ab ← deref (λ s. s.ab)
    a_b_long ← deref (λ s. s.a_b_long)
    pure (make_box_key (k ++ ab ++ a_b_long))

  -- `[K | a·b | a·B | A·b]`
  unfoldable pub server_ack_box_key : Exec Shs Bytes
  server_ack_box_key = do
    k ← gets (λ s. s.app_id)
    ab ← value (λ s. s.ab)
    a_b_long ← value (λ s. s.a_b_long)
    a_long_b ← value (λ s. s.a_long_b)
    let key = make_box_key (k ++ ab ++ a_b_long ++ a_long_b)
    modify (λ s. record s { server_ack_key = some key })
    pure key

  -- `box[K | a·b | a·B](H)`, where `H = sign[A](K | Bp | hash(a·b)) | Ap`
  unfoldable pub create_client_auth : Exec Shs Bytes
  unfolding client_auth_key
  create_client_auth = do
    server_key ← value (λ s. s.peer_public_key)
    server_ephemeral ← value (λ s. s.peer_ephemeral)
    hash_ab ← value (λ s. s.hash_ab)
    s ← gets (λ s. s)
    let h = sign s.signing_key (s.app_id ++ server_key ++ hash_ab) ++ s.public_key
    modify (λ s. record s {
      h = some h;
      a_long_b = some (long_times_ephemeral s.signing_key server_ephemeral);
      a_b_long = some (ephemeral_times_long s.ephemeral_key server_key);
    })
    key ← client_auth_key
    pure (box key h)

  -- The signature is read from the opened box.
  abbrev check_ack : Bytes → Option Bytes → Exec Shs Bool
  check_ack server_key none = pure false
  check_ack server_key (some sig) = do
    h ← value (λ s. s.h)
    hash_ab ← value (λ s. s.hash_ab)
    k ← gets (λ s. s.app_id)
    pure (check server_key sig (k ++ h ++ hash_ab))

  unfoldable pub verify_server_ack : Bytes → Exec Shs Bool
  unfolding server_ack_box_key
  verify_server_ack ack = do
    server_key ← value (λ s. s.peer_public_key)
    server_ephemeral ← value (λ s. s.peer_ephemeral)
    key ← server_ack_box_key
    check_ack server_key (unbox key ack)

  -- `Ap` is a reference to `_Yp`, so the peer's key is stored before its signature is checked.
  abbrev check_auth : Option Bytes → Exec Shs Bool
  check_auth none = pure false
  check_auth (some h) = do
    let sig = range 0 64 h
    let client_key = range 64 32 h
    modify (λ s. record s { peer_public_key = some client_key })
    modify (λ s. record s { a_long_b = some (ephemeral_times_long s.ephemeral_key client_key) })
    hash_ab ← value (λ s. s.hash_ab)
    s ← gets (λ s. s)
    pure (check client_key sig (s.app_id ++ s.public_key ++ hash_ab))

  unfoldable pub verify_client_auth : Bytes → Exec Shs Bool
  unfolding client_auth_key
  verify_client_auth auth = do
    client_ephemeral ← value (λ s. s.peer_ephemeral)
    modify (λ s. record s { a_b_long = some (long_times_ephemeral s.signing_key client_ephemeral) })
    key ← client_auth_key
    modify (λ s. record s { h = unbox key auth })
    check_auth (unbox key auth)

  -- The arguments of `box` are evaluated in their order here, as the language allows.
  unfoldable pub create_server_ack : Exec Shs Bytes
  unfolding server_ack_box_key
  create_server_ack = do
    client_ephemeral ← value (λ s. s.peer_ephemeral)
    key ← server_ack_box_key
    h ← value (λ s. s.h)
    hash_ab ← value (λ s. s.hash_ab)
    s ← gets (λ s. s)
    pure (box key (sign s.signing_key (s.app_id ++ h ++ hash_ab)))

  unfoldable pub get_peer_public_key : Exec Shs Bytes
  get_peer_public_key = value (λ s. s.peer_public_key)
