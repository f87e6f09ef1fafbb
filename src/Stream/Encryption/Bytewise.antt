-- ===== src/Stream/Encryption/Bytewise.antt =====
-- src/SecretStream.cc, `pushPartial`: the loop does what collecting the bytes one at a time would.
use secret_handshake_capnp.Common.{
  ℕ, zero, suc, ◌+◌, ◌≤◌, ◌<◌, ◌≡◌, refl, sym, ap, ◌∙◌, min, Bytes, true, false, [], ◌∷◌, ◌++◌,
  length, take, drop, ltb, ◌==◌, if◌then◌else◌, is_empty, Outcome, ok, and_then, append_assoc,
  append-nil, length-append, length-take, length-drop, take_all, take-append-drop, drop_all,
  resize_same, drop-append_le, arith, Bool-cases, inl, inr,
}
use native.Mathlib.Decide.{dec_lt}
use secret_handshake_capnp.Crypto.{Crypto, IsCrypto}
use secret_handshake_capnp.Stream.Box.{max_message_size, encrypted_size, seal}
use secret_handshake_capnp.Stream.Box.RoundTrip.{encrypt_lem}
use secret_handshake_capnp.Stream.Buffer.{CryptoStream, available, pending}
use secret_handshake_capnp.Stream.Encryption.{append, flush, room, push_loop, push_partial}

-- The current message has at most 65535 bytes.
pub record IsEncrypting (s : CryptoStream) : Type 0 where
  pub within : s.processed ≤ length s.buffer
  pub bounded : length (pending s) ≤ max_message_size

module _ (c : Crypto) where
  -- The current message, encrypted; without a current message, nothing.
  unfoldable pub flushed : CryptoStream → CryptoStream
  flushed s =
      let (bytes, b) = seal c s.box.protocol s.box (pending s) in
      if ltb 0 (length (pending s))
      then record s {
        buffer = available s ++ bytes;
        processed = s.processed + length bytes;
        box = b;
      }
      else s

  -- One byte more: a message that is full is encrypted first.
  unfoldable pub put_byte : CryptoStream → ℕ → CryptoStream
  unfolding flushed
  put_byte s byte =
      append (byte ∷ []) (if length (pending s) == max_message_size then flushed s else s)

  unfoldable pub put_bytes : CryptoStream → Bytes → CryptoStream
  put_bytes s [] = s
  put_bytes s (byte ∷ bytes) = put_bytes (put_byte s byte) bytes

  pub put_bytes-append :
      (s : CryptoStream) (xs ys : Bytes) → put_bytes s (xs ++ ys) ≡ put_bytes (put_bytes s xs) ys
  unfolding put_bytes
  put_bytes-append s [] ys = refl
  put_bytes-append s (x ∷ xs) ys = put_bytes-append (put_byte s x) xs ys

nil_of : (xs : Bytes) → length xs ≡ 0 → xs ≡ []
nil_of [] h = refl
nil_of (x ∷ xs) h = absurd (omega arith)

abbrev with_buffer : CryptoStream → Bytes → CryptoStream
with_buffer s b = record s { buffer = b }

pub not_full :
    (s : CryptoStream)
    → IsEncrypting s
    → 0 < room s
    → (length (pending s) == max_message_size) ≡ false
not_full s v h = ground arith

is_full :
    (s : CryptoStream)
    → IsEncrypting s
    → room s ≡ 0
    → (length (pending s) == max_message_size) ≡ true
is_full s v h = let e : length (pending s) ≡ max_message_size = omega (arith, v.bounded) in rw e

pub nonempty : (xs : Bytes) → 0 < length xs → is_empty xs ≡ false
nonempty [] h = absurd (omega arith)
nonempty (x ∷ xs) h = refl

-- The loop's last round, with no byte left after it.
finished :
    (bytes : Bytes) (s : CryptoStream) {t : CryptoStream}
    → append bytes s ≡ t
    → ◌≡◌ {A = Outcome (Unit {0}) × CryptoStream}
        (if is_empty bytes then (ok tt, s) else (ok tt, append bytes s))
        (ok tt, t)
finished [] s e = ap (λ u. (ok tt, u)) (ap (with_buffer s) (sym (append-nil s.buffer)) ∙ e)
finished (x ∷ bytes) s e = ap (λ u. (ok tt, u)) e

module _ {c : Crypto} (laws : IsCrypto c) where
  -- `flush` never throws, its assertion holds, and it encrypts the current message, if there is one.
  pub flush_lem : (s : CryptoStream) → IsEncrypting s → flush c s ≡ (ok tt, flushed c s)
  unfolding flush flushed
  flush_lem s v = elim (Bool-cases (ltb 0 (length (pending s)))) [
    | inl some_left ↦
        let bytes : Bytes = (seal c s.box.protocol s.box (pending s)).0 in
        let full : length (available s ++ bytes) ≡ s.processed + length bytes =
          omega (
            arith,
            length-append (available s) bytes,
            length-take s.processed s.buffer,
            v.within,
          ) in
        rw (
          some_left,
          (encrypt_lem laws s.box (pending s) (encrypted_size s.box (length (pending s))) v.bounded
              (omega arith)).0,
          resize_same (s.processed + length bytes) (available s ++ bytes) full,
        )
    | inr nothing ↦ rw nothing
  ]

  pub flushed-IsEncrypting :
      (s : CryptoStream)
      → IsEncrypting s
      → IsEncrypting (flushed c s) × (pending (flushed c s) ≡ [])
  unfolding flushed
  flushed-IsEncrypting s v = elim (Bool-cases (ltb 0 (length (pending s)))) [
    | inl some_left ↦
        let bytes : Bytes = (seal c s.box.protocol s.box (pending s)).0 in
        let full : length (available s ++ bytes) ≡ s.processed + length bytes =
          omega (
            arith,
            length-append (available s) bytes,
            length-take s.processed s.buffer,
            v.within,
          ) in
        let e = drop_all (s.processed + length bytes) (available s ++ bytes) (omega arith) in
        rw some_left (record { within = omega arith; bounded = rw e (omega arith) }, e)
    | inr nothing ↦ rw nothing (v, nil_of (pending s) (ground arith))
  ]

  pub append-IsEncrypting :
      (bytes : Bytes) (s : CryptoStream)
      → IsEncrypting s
      → length bytes ≤ room s
      → IsEncrypting (append bytes s) × (pending (append bytes s) ≡ pending s ++ bytes)
  append-IsEncrypting bytes s v fits =
      let e = drop-append_le s.processed s.buffer bytes v.within in
      (
        record {
          within = omega (arith, length-append s.buffer bytes, v.within);
          bounded = rw e (omega (arith, length-append (pending s) bytes, v.bounded));
        },
        e,
      )

  -- Bytes for which there is room are appended.
  put_bytes_room :
      (bytes : Bytes) (s : CryptoStream)
      → IsEncrypting s
      → length bytes ≤ room s
      → put_bytes c s bytes ≡ append bytes s
  unfolding put_bytes put_byte
  put_bytes_room [] s v fits = ap (with_buffer s) (sym (append-nil s.buffer))
  put_bytes_room (x ∷ bytes) s v fits =
      let (v', e) = append-IsEncrypting (x ∷ []) s v (omega arith) in
      let fits' : length bytes ≤ room (append (x ∷ []) s) =
        omega (arith, ap length e, length-append (pending s) (x ∷ [])) in
      rw (not_full s v (omega arith)) (
        put_bytes_room bytes (append (x ∷ []) s) v' fits'
        ∙ ap (with_buffer s) (append_assoc s.buffer (x ∷ []) bytes))

  -- A byte for which there is none has the message encrypted first.
  put_bytes_full :
      (bytes : Bytes) (s : CryptoStream)
      → IsEncrypting s
      → room s ≡ 0
      → is_empty bytes ≡ false
      → put_bytes c s bytes ≡ put_bytes c (flushed c s) bytes
  unfolding put_bytes put_byte
  put_bytes_full [] s v full some_left = cc
  put_bytes_full (x ∷ bytes) s v full some_left =
      let (v', e) = flushed-IsEncrypting s v in
      let here : (length (pending s) == max_message_size) ≡ true = is_full s v full in
      let there : (length (pending (flushed c s)) == max_message_size) ≡ false =
        not_full (flushed c s) v' (omega (arith, ap length e)) in
      rw (here, there)

  -- What the loop does next where more bytes are left than there is room for.
  module _ (bytes : Bytes) (s : CryptoStream) (v : IsEncrypting s)
      (more : room s < length bytes) where
    abbrev filled : CryptoStream
    filled = append (take (room s) bytes) s

    length-chunk : length (take (room s) bytes) ≡ room s
    length-chunk = omega (arith, length-take (room s) bytes)

    filled-IsEncrypting : IsEncrypting filled × (pending filled ≡ pending s ++ take (room s) bytes)
    filled-IsEncrypting =
        append-IsEncrypting (take (room s) bytes) s v (omega (arith, length-chunk))

    put_bytes_chunk : put_bytes c s bytes ≡ put_bytes c (flushed c filled) (drop (room s) bytes)
    put_bytes_chunk =
        let rest : Bytes = drop (room s) bytes in
        let (v', e) = filled-IsEncrypting in
        ap (put_bytes c s) (sym (take-append-drop (room s) bytes))
        ∙ put_bytes-append c s (take (room s) bytes) rest
        ∙ ap (λ t. put_bytes c t rest)
            (put_bytes_room (take (room s) bytes) s v (omega (arith, length-chunk)))
        ∙ put_bytes_full rest filled v'
            (omega (
              arith,
              ap length e,
              length-append (pending s) (take (room s) bytes),
              length-chunk,
              v.bounded,
            ))
            (nonempty rest (omega (arith, length-drop (room s) bytes)))

  push_loop_lem :
      (fuel : ℕ) (bytes : Bytes) (s : CryptoStream)
      → IsEncrypting s
      → length bytes + 2 ≤ fuel + min 1 (room s)
      → push_loop c fuel bytes s ≡ (ok tt, put_bytes c s bytes)
  unfolding push_loop
  push_loop_lem zero bytes s v enough = absurd (omega arith)
  push_loop_lem (suc fuel) bytes s v enough = elim (dec_lt (room s) (length bytes)) [
    | no fits ↦
        let chunk : min (length bytes) (room s) ≡ length bytes = omega arith in
        rw
          (
            chunk,
            take_all (length bytes) bytes (omega arith),
            drop_all (length bytes) bytes (omega arith),
          )
          (finished bytes s (sym (put_bytes_room bytes s v (omega arith))))
    | yes more ↦
        let chunk : min (length bytes) (room s) ≡ room s = omega arith in
        let (v', e) = filled-IsEncrypting bytes s v more in
        let (v'', e') = flushed-IsEncrypting (filled bytes s v more) v' in
        rw
          (
            chunk,
            nonempty bytes (omega arith),
            nonempty (drop (room s) bytes) (omega (arith, length-drop (room s) bytes)),
            flush_lem (filled bytes s v more) v',
            put_bytes_chunk bytes s v more,
          )
          (push_loop_lem fuel (drop (room s) bytes) (flushed c (filled bytes s v more)) v''
            (omega (arith, length-drop (room s) bytes, ap length e')))
  ]

  pub put_bytes-IsEncrypting :
      (bytes : Bytes) (s : CryptoStream) → IsEncrypting s → IsEncrypting (put_bytes c s bytes)
  unfolding put_bytes put_byte
  put_bytes-IsEncrypting [] s v = v
  put_bytes-IsEncrypting (x ∷ bytes) s v =
      elim (Bool-cases (length (pending s) == max_message_size)) [
        | inl full ↦
            let (v', e) = flushed-IsEncrypting s v in
            rw full (
              put_bytes-IsEncrypting bytes (append (x ∷ []) (flushed c s))
                (append-IsEncrypting (x ∷ []) (flushed c s) v' (omega (arith, ap length e))).0)
        | inr some_room ↦ rw some_room (
            put_bytes-IsEncrypting bytes (append (x ∷ []) s)
              (append-IsEncrypting (x ∷ []) s v (ground (arith, v.bounded))).0)
      ]

  -- `pushPartial` ends, throws nothing, and leaves the stream as collecting its bytes one at a time
  -- would, each message being encrypted when a byte comes for which it has no more room.
  pub push_partial_lem :
      (bytes : Bytes) (s : CryptoStream)
      → IsEncrypting s
      → (push_partial c bytes s ≡ (ok tt, put_bytes c s bytes)) × IsEncrypting (put_bytes c s bytes)
  unfolding push_partial
  push_partial_lem bytes s v =
      (push_loop_lem (length bytes + 2) bytes s v (omega arith), put_bytes-IsEncrypting bytes s v)

  -- So it makes no difference how the cleartext is cut into calls of `pushPartial`.
  pub push_partial-append :
      (xs ys : Bytes) (s : CryptoStream)
      → IsEncrypting s
      → and_then (push_partial c xs s) (λ _. push_partial c ys) ≡ push_partial c (xs ++ ys) s
  push_partial-append xs ys s v =
      let (first, v') = push_partial_lem xs s v in
      rw (
        first,
        (push_partial_lem ys (put_bytes c s xs) v').0,
        (push_partial_lem (xs ++ ys) s v).0,
        put_bytes-append,
      )
