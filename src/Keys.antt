-- ===== src/Keys.antt =====
-- include/SecretHandshakeTypes.hh and src/SecretHandshake.cc: key pairs, app IDs and contexts, and what
-- their destructors wipe. Monocypher's key generator, its `fillWithString` and its `wipe` are
-- arguments: the bytes that the first gives, and functions on the bytes that the others write to.
use secret_handshake_capnp.Common.{
  ◌≡◌, refl, sym, ap, ap₂, ◌∙◌, ◌↔◌, Bytes, Bool, true, ◌&&◌, ◌++◌, length, take, drop, range,
  bytes_eq, bytes_eq_refl, bytes_eq→eq, take-append, drop-append, take_all, take-append-drop,
  length-drop, arith,
}
use secret_handshake_capnp.Crypto.{Crypto}
use secret_handshake_capnp.Handshake.{Context}

pub record KeyPair : Type 0 where
  pub signing_key : Bytes
  pub public_key : Bytes

-- The sizes of `SigningKey` and `PublicKey`
pub record IsKeyPair (pair : KeyPair) : Type 0 where
  pub signing_size : length pair.signing_key ≡ 32
  pub public_size : length pair.public_key ≡ 32

-- `KeyPair(SigningKey const&)`
abbrev pub from_signing_key : Crypto → Bytes → KeyPair
from_signing_key c signing_key = record {
  signing_key = signing_key;
  public_key = c.get_public_key signing_key;
}

-- `KeyPair(KeyPairBytes const&)`: 64 bytes are copied over the two members.
abbrev pub from_bytes : Bytes → KeyPair
from_bytes bytes = record { signing_key = range 0 32 bytes; public_key = range 32 32 bytes }

-- `data`: the members as they lie in memory
abbrev pub data_of : KeyPair → Bytes
data_of pair = pair.signing_key ++ pair.public_key

-- `KeyPair::generate`, of the bytes of Monocypher's new key pair
abbrev pub generate : Bytes → KeyPair
generate generated = from_bytes generated

-- `operator==`
abbrev pub keys_equal : KeyPair → KeyPair → Bool
keys_equal a b = bytes_eq a.signing_key b.signing_key && bytes_eq a.public_key b.public_key

-- The two constructors of `Context`
abbrev pub context_of : Bytes → KeyPair → Context
context_of app_id pair = record {
  app_id = app_id;
  signing_key = pair.signing_key;
  public_key = pair.public_key;
}

-- `Context::appIDFromString`: `fillWithString` writes an array of 32 bytes.
abbrev pub app_id_from_string : (Bytes → Bytes) → Bytes → Bytes
app_id_from_string fill_with_string str = fill_with_string str

abbrev pub named_context : (Bytes → Bytes) → Bytes → KeyPair → Context
named_context fill_with_string str pair = context_of (app_id_from_string fill_with_string str) pair

-- `~KeyPair`
abbrev pub wipe_pair : (Bytes → Bytes) → KeyPair → KeyPair
wipe_pair wipe pair = record pair { signing_key = wipe pair.signing_key }

data-from_bytes : (bytes : Bytes) → length bytes ≡ 64 → data_of (from_bytes bytes) ≡ bytes
data-from_bytes bytes h =
    ap (◌++◌ (take 32 bytes)) (take_all 32 (drop 32 bytes) (omega (arith, length-drop 32 bytes)))
    ∙ take-append-drop 32 bytes

pub from_bytes-data : (pair : KeyPair) → IsKeyPair pair → from_bytes (data_of pair) ≡ pair
from_bytes-data pair v =
    ap₂ (λ x y. record { signing_key = x; public_key = y })
      (take-append 32 pair.signing_key pair.public_key v.signing_size)
      (ap (take 32) (drop-append 32 pair.signing_key pair.public_key v.signing_size)
        ∙ take_all 32 pair.public_key (omega (arith, v.public_size)))

keys_equal_iff : (a b : KeyPair) → (keys_equal a b ≡ true) ↔ (a ≡ b)
keys_equal_iff a b = (
  λ h.
      let signing = bytes_eq→eq a.signing_key b.signing_key (ground arith) in
      let public = bytes_eq→eq a.public_key b.public_key (ground arith) in
      ap₂ (λ x y. record { signing_key = x; public_key = y }) signing public,
  λ h. rw (h, bytes_eq_refl, bytes_eq_refl) refl,
)

-- A key pair is read back from its bytes, and any 64 bytes are those of the key pair made of them; two
-- key pairs are equal for `operator==` exactly when their bytes are the same.
pub key_pair_round_trip :
    (a b : KeyPair) (bytes : Bytes)
    → IsKeyPair a
    → IsKeyPair b
    → length bytes ≡ 64
    → (from_bytes (data_of a) ≡ a)
      × (data_of (from_bytes bytes) ≡ bytes)
      × ((keys_equal a b ≡ true) ↔ (data_of a ≡ data_of b))
key_pair_round_trip a b bytes v w h = (
  from_bytes-data a v,
  data-from_bytes bytes h,
  (
    λ same. ap data_of ((keys_equal_iff a b).0 same),
    λ same.
        (keys_equal_iff a b).1
          (sym (from_bytes-data a v) ∙ ap from_bytes same ∙ from_bytes-data b w),
  ),
)
