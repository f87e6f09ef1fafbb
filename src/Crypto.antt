-- ===== src/Crypto.antt =====
-- The cryptographic library (Monocypher) that the sources call, as a parameter. Byte arrays, keys,
-- nonces and signatures are byte strings.
pub mod Toy
use secret_handshake_capnp.Common.{ℕ, ◌+◌, ◌≡◌, Bytes, length, Bool, true, Option, some, ◌++◌}

-- An authenticated cipher: `monocypher::session::encryption_key<…>`.
pub record Cipher : Type 0 where
  -- `lock` returns the MAC, and writes the ciphertext.
  pub lock_mac : Bytes → Bytes → Bytes → Bytes
  pub lock : Bytes → Bytes → Bytes → Bytes
  -- `unlock key nonce mac ciphertext`
  pub unlock : Bytes → Bytes → Bytes → Bytes → Option Bytes
  -- `box` writes the MAC and the ciphertext as one string, which `unbox` reads.
  pub box : Bytes → Bytes → Bytes → Bytes
  pub unbox : Bytes → Bytes → Bytes → Option Bytes
  -- The size of the range that `unbox` returns when it rejects its input; it is not the size of a
  -- box-stream header.
  pub rejected_size : ℕ

-- What the sources use of Monocypher.
pub record Crypto : Type 0 where
  -- `monocypher::ext::sha256::create`
  pub sha256 : Bytes → Bytes
  -- `monocypher::hash<SHA512>::createMAC(in, key)`, here with the key first
  pub hmac_sha512 : Bytes → Bytes → Bytes
  -- Ed25519: `signing_key::get_public_key`, `signing_key::sign`, `public_key::check`
  pub get_public_key : Bytes → Bytes
  pub sign : Bytes → Bytes → Bytes
  pub check : Bytes → Bytes → Bytes → Bool
  -- `key_exchange::get_public_key`, for a key pair given by its secret key
  pub kx_public_key : Bytes → Bytes
  -- `key_exchange * kx_public_key`
  pub kx_multiply : Bytes → Bytes → Bytes
  -- `signing_key::as_key_exchange` and `public_key::for_key_exchange`
  pub as_key_exchange : Bytes → Bytes
  pub for_key_exchange : Bytes → Bytes
  -- `session::encryption_key<XSalsa20_Poly1305>`, and `session::key` (XChaCha20)
  pub xsalsa20 : Cipher
  pub xchacha20 : Cipher
  -- `++nonce`, and `nonce(0)`
  pub next_nonce : Bytes → Bytes
  pub zero_nonce : Bytes

-- A cipher opens what it has sealed with the same key and nonce, and a MAC is 16 bytes.
pub record IsCipher (e : Cipher) : Type 0 where
  pub mac_size : (k n p : Bytes) → length (e.lock_mac k n p) ≡ 16
  pub lock_size : (k n p : Bytes) → length (e.lock k n p) ≡ length p
  pub unlock-lock : (k n p : Bytes) → e.unlock k n (e.lock_mac k n p) (e.lock k n p) ≡ some p
  pub box_size : (k n p : Bytes) → length (e.box k n p) ≡ 16 + length p
  pub unbox-box : (k n p : Bytes) → e.unbox k n (e.box k n p) ≡ some p

-- The documented behaviour of the primitives: sizes, signatures that their own key accepts, and the
-- commutation of Diffie-Hellman multiplication, for Curve25519 keys and converted Ed25519 keys.
pub record IsCrypto (c : Crypto) : Type 0 where
  pub hmac_size : (k m : Bytes) → length (c.hmac_sha512 k m) ≡ 64
  pub kx_public_size : (x : Bytes) → length (c.kx_public_key x) ≡ 32
  pub public_size : (x : Bytes) → length (c.get_public_key x) ≡ 32
  pub signature_size : (x m : Bytes) → length (c.sign x m) ≡ 64
  pub check-sign : (x m : Bytes) → c.check (c.get_public_key x) (c.sign x m) m ≡ true
  pub kx_comm :
      (x y : Bytes) → c.kx_multiply x (c.kx_public_key y) ≡ c.kx_multiply y (c.kx_public_key x)
  pub converted :
      (x : Bytes) → c.for_key_exchange (c.get_public_key x) ≡ c.kx_public_key (c.as_key_exchange x)
  pub xsalsa20_IsCipher : IsCipher c.xsalsa20
  pub xchacha20_IsCipher : IsCipher c.xchacha20
