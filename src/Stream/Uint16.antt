-- ===== src/Stream/Uint16.antt =====
-- src/SecretStream.cc, `writeUint16At` and `readUint16At`: the big-endian size of a message.
use secret_handshake_capnp.Common.{
  ℕ, zero, suc, ◌+◌, ◌*◌, ◌/◌, ◌%◌, ◌^◌, ◌≤◌, ◌<◌, ◌≡◌, refl, ◌∙◌, Bytes, Bool, true, ◌&&◌, [], ◌∷◌,
  get_or, ◌++◌, subst, bit_or, ◌==◌, ==_iff, arith, length,
}

-- `(size >> 8) & 0xFF` and `size & 0xFF`
unfoldable pub write_uint16 : ℕ → Bytes
write_uint16 size = ((size / 2 ^ 8) % 2 ^ 8) ∷ (size % 2 ^ 8) ∷ []

-- A byte that is read as a `uint8_t`.
abbrev pub byte_at : ℕ → Bytes → ℕ
byte_at i src = get_or src i 0 % 2 ^ 8

-- `(size_t(src[0]) << 8) | src[1]`
unfoldable pub read_uint16 : Bytes → ℕ
read_uint16 src = bit_or (byte_at 0 src * 2 ^ 8) (byte_at 1 src)

-- Every number under the limit passes the test.
passes_under : (ℕ → Bool) → ℕ → Bool
passes_under test zero = true
passes_under test (suc limit) = passes_under test limit && test limit

passes_under_lem :
    (test : ℕ → Bool) (limit size : ℕ)
    → size < limit
    → passes_under test limit ≡ true
    → test size ≡ true
unfolding passes_under
passes_under_lem test zero size under all_pass = absurd (omega arith)
passes_under_lem test (suc limit) size under all_pass =
    let earlier = passes_under_lem test limit size in ground (arith, earlier)

abbrev no_carry : ℕ → Bool
no_carry x = bit_or ((x / 256) * 256) (x % 256) == x

no_carry_table : passes_under no_carry 65536 ≡ true
unfolding passes_under
no_carry_table = refl

or_is_sum : (a b : ℕ) → a < 256 → b < 256 → bit_or (a * 256) b ≡ a * 256 + b
or_is_sum a b ha hb =
    let x : ℕ = a * 256 + b in
    let high : x / 256 ≡ a = omega arith in
    let low : x % 256 ≡ b = omega arith in
    let e : bit_or ((x / 256) * 256) (x % 256) ≡ x =
      (==_iff _ x).0 (passes_under_lem no_carry 65536 x (omega arith) no_carry_table) in
    subst (λ p. bit_or (p * 256) b ≡ x) high (subst (λ q. bit_or ((x / 256) * 256) q ≡ x) low e)

pub read_uint16-sum : (src : Bytes) → read_uint16 src ≡ byte_at 0 src * 256 + byte_at 1 src
unfolding read_uint16
read_uint16-sum src = or_is_sum (byte_at 0 src) (byte_at 1 src) (omega arith) (omega arith)

pub read_uint16-le : (src : Bytes) → read_uint16 src ≤ 0xFFFF
read_uint16-le src = omega (arith, read_uint16-sum src)

pub length-write_uint16 : (size : ℕ) → length (write_uint16 size) ≡ 2
unfolding write_uint16
length-write_uint16 size = refl

-- A size of a message is read back as it was written.
pub read-write_uint16 :
    (size : ℕ) (rest : Bytes) → size ≤ 0xFFFF → read_uint16 (write_uint16 size ++ rest) ≡ size
unfolding write_uint16
read-write_uint16 size rest h = read_uint16-sum (write_uint16 size ++ rest) ∙ omega arith

pub read_uint16-append : (u v : Bytes) → 2 ≤ length u → read_uint16 (u ++ v) ≡ read_uint16 u
unfolding read_uint16
read_uint16-append [] v h = absurd (omega arith)
read_uint16-append (x ∷ []) v h = absurd (omega arith)
read_uint16-append (x ∷ y ∷ u) v h = refl
