-- ===== src/Crypto/Toy.antt =====
-- A concrete, insecure set of primitives with the documented behaviour, on which the development
-- can be run: the hypotheses on the cryptographic library can be met.
use secret_handshake_capnp.Common.{
  ℕ, ◌+◌, ◌%◌, ◌≡◌, refl, ap, ap₂, Bytes, Option, none, some, [], ◌∷◌, ◌++◌, length, take, drop,
  resize, length-resize, length-append, take-append, drop-append, bytes_eq, bytes_eq_refl,
  if◌then◌else◌, arith,
}
use secret_handshake_capnp.Crypto.{Cipher, Crypto, IsCipher, IsCrypto}

unfoldable pub add_bytes : Bytes → Bytes → Bytes
add_bytes [] ys = []
add_bytes (x ∷ xs) [] = []
add_bytes (x ∷ xs) (y ∷ ys) = ((x + y) % 256) ∷ add_bytes xs ys

add_bytes_comm : (xs ys : Bytes) → add_bytes xs ys ≡ add_bytes ys xs
unfolding add_bytes
add_bytes_comm [] [] = refl
add_bytes_comm [] (y ∷ ys) = refl
add_bytes_comm (x ∷ xs) [] = refl
add_bytes_comm (x ∷ xs) (y ∷ ys) =
    ap₂ ◌∷◌ (ap (λ (s : ℕ). s % 256) (omega arith)) (add_bytes_comm xs ys)

abbrev pub mac : Bytes → Bytes → Bytes → Bytes
mac k n p = resize 16 (add_bytes (resize 16 n) (resize 16 k))

unfoldable pub open_sealed : Bytes → Bytes → Bytes → Option Bytes
open_sealed expected given ciphertext = if bytes_eq given expected then some ciphertext else none

abbrev pub unbox : Bytes → Bytes → Bytes → Option Bytes
unbox k n c = open_sealed (mac k n []) (take 16 c) (drop 16 c)

unfoldable pub increment : Bytes → Bytes
increment [] = []
increment (b ∷ bs) = (b + 1) ∷ bs

abbrev pub cipher : Cipher
cipher = record {
  lock_mac = mac;
  lock = λ k n p. p;
  unlock = λ k n m c. open_sealed (mac k n []) m c;
  box = λ k n p. mac k n p ++ p;
  unbox = unbox;
  rejected_size = 0;
}

abbrev pub toy : Crypto
toy = record {
  sha256 = resize 32;
  hmac_sha512 = λ k m. resize 64 (add_bytes (resize 32 k) (resize 32 m));
  get_public_key = resize 32;
  sign = λ x m. resize 64 (add_bytes (resize 32 x) (resize 32 m));
  check = λ p s m. bytes_eq s (resize 64 (add_bytes p (resize 32 m)));
  kx_public_key = resize 32;
  kx_multiply = λ x y. add_bytes (resize 32 x) y;
  as_key_exchange = λ x. x;
  for_key_exchange = λ x. x;
  xsalsa20 = cipher;
  xchacha20 = cipher;
  next_nonce = increment;
  zero_nonce = [];
}

open_sealed-same : (m c : Bytes) → open_sealed m m c ≡ some c
unfolding open_sealed
open_sealed-same m c = ground (arith, bytes_eq_refl m)

length-mac : (k n p : Bytes) → length (mac k n p) ≡ 16
length-mac k n p = length-resize 16 (add_bytes (resize 16 n) (resize 16 k))

unbox-box : (k n p : Bytes) → unbox k n (mac k n p ++ p) ≡ some p
unbox-box k n p =
    rw
      (
        take-append 16 (mac k n []) p (length-mac k n p),
        drop-append 16 (mac k n []) p (length-mac k n p),
      )
      (open_sealed-same (mac k n []) p)

pub cipher-IsCipher : IsCipher cipher
cipher-IsCipher = record {
  mac_size = length-mac;
  lock_size = λ k n p. refl;
  unlock-lock = λ k n p. open_sealed-same (mac k n []) p;
  box_size = λ k n p. omega (arith, length-append (mac k n p) p, length-mac k n p);
  unbox-box = unbox-box;
}

pub toy-IsCrypto : IsCrypto toy
toy-IsCrypto = record {
  hmac_size = λ k m. length-resize 64 (add_bytes (resize 32 k) (resize 32 m));
  kx_public_size = length-resize 32;
  public_size = length-resize 32;
  signature_size = λ x m. length-resize 64 (add_bytes (resize 32 x) (resize 32 m));
  check-sign = λ x m. bytes_eq_refl (resize 64 (add_bytes (resize 32 x) (resize 32 m)));
  kx_comm = λ x y. add_bytes_comm (resize 32 x) (resize 32 y);
  converted = λ x. refl;
  xsalsa20_IsCipher = cipher-IsCipher;
  xchacha20_IsCipher = cipher-IsCipher;
}
