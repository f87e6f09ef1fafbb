-- ===== src/Stream/Box/Stable.antt =====
-- src/SecretStream.cc, `decrypt`: bytes that come after a message do not change what it decrypts to.
use secret_handshake_capnp.Common.{
  ℕ, ◌+◌, ◌-◌, ◌≤◌, ◌≡◌, ◌≢◌, refl, ap, ap₂, ◌∙◌, sym, Bytes, true, false, Option, none, some, ◌++◌,
  length, take, drop, range, Option-cases, length-append, length-drop, take-append_le,
  drop-append_le, append_assoc, Bool-cases, inl, inr, ltb, arith,
}
use native.Mathlib.Decide.{dec_le}
use secret_handshake_capnp.Crypto.{Crypto}
use secret_handshake_capnp.Stream.Uint16.{read_uint16-append}
use secret_handshake_capnp.Stream.Box
use secret_handshake_capnp.Stream.Box.{
  CryptoBox, Protocol, compact, box_stream, success, out_too_small, incomplete_input, corrupt_data,
  PeekResult, prefix_size, overhead, is_success, Decrypted, Status,
}
use secret_handshake_capnp.Stream.Box.Sizes.{
  result, message, header_accepted, checked, header_sizes, decrypt-Succeeds, is_success→success,
}

range-append :
    (from count : ℕ) (u v : Bytes)
    → from + count ≤ length u
    → range from count (u ++ v) ≡ range from count u
range-append from count u v h =
    rw (drop-append_le from u v (omega arith))
      (take-append_le count (drop from u) v (omega (arith, length-drop from u)))

module _ (c : Crypto) (b : CryptoBox) (u v : Bytes) where
  header-append :
      (p : Protocol)
      → (Box.header_of c p b u).0.status ≢ incomplete_input
      → Box.header_of c p b (u ++ v) ≡ Box.header_of c p b u
  unfolding Box.box_stream_header Box.peek_at
  header-append box_stream h = elim (Bool-cases (ltb (length u) prefix_size)) [
    | inl short ↦ absurd (ground arith)
    | inr enough ↦
        rw (take-append_le prefix_size u v (ground arith)) (ground (arith, length-append u v))
  ]
  header-append compact h = elim (Bool-cases (ltb (length u) 2)) [
    | inl short ↦ absurd (ground arith)
    | inr enough ↦ rw (read_uint16-append u v (ground arith)) (ground (arith, length-append u v))
  ]

take_written :
    (n : ℕ) (out w : Bytes) (o : Option Bytes)
    → n ≤ length out
    → take n (Box.written_over (out ++ w) o) ≡ take n (Box.written_over out o)
take_written n out w none h = take-append_le n out w h
take_written n out w (some p) h = elim (dec_le n (length p)) [
  | yes inside ↦
      take-append_le n p (drop (length p) (out ++ w)) inside
      ∙ sym (take-append_le n p (drop (length p) out) inside)
  | no beyond ↦
      rw (drop-append_le (length p) out w (omega arith), ← append_assoc)
        (take-append_le n (p ++ drop (length p) out) w
          (omega (arith, length-append p (drop (length p) out), length-drop (length p) out)))
]

module _ (c : Crypto) (b : CryptoBox) (u v out w : Bytes) (r : PeekResult) (header : Bytes) where
  -- A message that opens still opens, to the same bytes, where more bytes follow it and `out` is
  -- larger.
  open-append :
      (p : Protocol) (written : Bytes)
      → r.encrypted_size ≤ length u
      → r.encrypted_size ≡ overhead p + r.decrypted_size
      → r.decrypted_size ≤ length out
      → Box.open_message c p b r header u out ≡ some written
      → (written' : Bytes) × (Box.open_message c p b r header (u ++ v) (out ++ w) ≡ some written')
        × (take r.decrypted_size written' ≡ take r.decrypted_size written)
  open-append box_stream written fits e room h =
      rw (range-append 34 r.decrypted_size u v (omega arith)) (unlocked-append _ h)
    where
      unlocked-append :
          (o : Option Bytes)
          → Box.unlocked out o ≡ some written
          → (written' : Bytes) × (Box.unlocked (out ++ w) o ≡ some written')
            × (take r.decrypted_size written' ≡ take r.decrypted_size written)
      unlocked-append none h = cc
      unlocked-append (some q) h = (
        Box.written_over (out ++ w) (some q),
        refl,
        take_written r.decrypted_size out w (some q) room
            ∙ ap (take r.decrypted_size) (ground arith),
      )
  open-append compact written fits e room h =
      rw (range-append 2 (r.encrypted_size - 2) u v (omega arith)) (
        let o = c.xchacha20.unbox b.key b.nonce (range 2 (r.encrypted_size - 2) u) in
        (
          Box.written_over (out ++ w) o,
          ground arith,
          take_written r.decrypted_size out w o room ∙ ap (take r.decrypted_size) (ground arith),
        ))

  -- One that does not open does not open either.
  closed-append :
      (p : Protocol)
      → r.encrypted_size ≤ length u
      → r.encrypted_size ≡ overhead p + r.decrypted_size
      → Box.open_message c p b r header u out ≡ none
      → Box.open_message c p b r header (u ++ v) (out ++ w) ≡ none
  closed-append box_stream fits e h =
      rw (range-append 34 r.decrypted_size u v (omega arith)) (ground arith)
  closed-append compact fits e h =
      rw (range-append 2 (r.encrypted_size - 2) u v (omega arith)) (ground arith)

abbrev pub success_with : Bytes → Bytes → CryptoBox → Decrypted
success_with plaintext rest box = record {
  status = success;
  plaintext = plaintext;
  rest = rest;
  box = box;
}

module _ (c : Crypto) (b : CryptoBox) (u out : Bytes) where
  -- Corrupt data is a header that is rejected, or a whole message that does not open.
  corrupt_sizes :
      is_success (result c b u out).status ≡ true
      → (Box.decrypt c b u out).status ≡ corrupt_data
      → Box.check_sizes (result c b u out) u out ≡ success
  unfolding Box.decrypt Box.decrypt_at Box.check_sizes
  corrupt_sizes good h = ground arith

  corrupt_closed :
      Box.check_sizes (result c b u out) u out ≡ success
      → (Box.decrypt c b u out).status ≡ corrupt_data
      → message c b u out ≡ none
  unfolding Box.decrypt Box.decrypt_at
  corrupt_closed sized h = elim (Option-cases (message c b u out)) [
    | inl closed ↦ closed
    | inr (written, opened) ↦ absurd (ground arith)
  ]

  corrupt_header :
      (v w : Bytes)
      → is_success (result c b u out).status ≡ false
      → (Box.decrypt c b u out).status ≡ corrupt_data
      → (Box.decrypt c b (u ++ v) (out ++ w)).status ≡ corrupt_data
  unfolding Box.decrypt Box.decrypt_at Box.check_sizes
  corrupt_header v w bad h =
      let e : (result c b u out).status ≡ corrupt_data = ground arith in
      rw (header-append c b u v b.protocol (rw e (λ p. cc)), e)

module _ (c : Crypto) (b : CryptoBox) where
  -- `decrypt`, once the checks have passed and the message is opened.
  pub decrypt_at_computes :
      (p : Protocol) (src out written header : Bytes) (r : PeekResult)
      → Box.header_of c p b src ≡ (r, header)
      → Box.check_sizes r src out ≡ success
      → Box.open_message c p b r header src out ≡ some written
      → Box.decrypt_at c p b src out
        ≡ success_with
            (take r.decrypted_size written)
            (drop r.encrypted_size src)
            (Box.opened_box c p b)
  unfolding Box.decrypt_at
  decrypt_at_computes p src out written header r e sized opened = rw (e, sized, opened)

  decrypt_computes :
      (src out written header : Bytes) (r : PeekResult)
      → Box.header_of c b.protocol b src ≡ (r, header)
      → Box.check_sizes r src out ≡ success
      → Box.open_message c b.protocol b r header src out ≡ some written
      → Box.decrypt c b src out
        ≡ success_with
            (take r.decrypted_size written)
            (drop r.encrypted_size src)
            (Box.opened_box c b.protocol b)
  unfolding Box.decrypt
  decrypt_computes = decrypt_at_computes b.protocol

  decrypt_corrupt :
      (src out header : Bytes) (r : PeekResult)
      → Box.header_of c b.protocol b src ≡ (r, header)
      → Box.check_sizes r src out ≡ success
      → Box.open_message c b.protocol b r header src out ≡ none
      → (Box.decrypt c b src out).status ≡ corrupt_data
  unfolding Box.decrypt Box.decrypt_at
  decrypt_corrupt src out header r e sized closed = rw (e, sized, closed)

  module _ (u v out w : Bytes) where
    sizes-append :
        (r : PeekResult)
        → Box.check_sizes r u out ≡ success
        → Box.check_sizes r (u ++ v) (out ++ w) ≡ success
    unfolding Box.check_sizes
    sizes-append r h = ground (arith, length-append u v, length-append out w)

    -- A message that is decrypted is decrypted alike, and the box goes on alike, whatever follows it
    -- in the input and however much larger the output buffer is.
    pub decrypt-append :
        let d = Box.decrypt c b u out in
        d.status ≡ success → Box.decrypt c b (u ++ v) (out ++ w) ≡ record d { rest = d.rest ++ v }
    decrypt-append h =
        let s = decrypt-Succeeds c b u out h in
        let (accepted, sized) = header_accepted c b u out h in
        let r : PeekResult = result c b u out in
        let header : Bytes = (Box.header_of c b.protocol b u).1 in
        let (fits, room) = checked c b u out sized in
        let (small, enc, _) = header_sizes c b.protocol b u refl accepted in
        let (written', opened', same) =
          open-append c b u v out w r header b.protocol s.written fits enc room s.message_is in
        decrypt_computes (u ++ v) (out ++ w) written' header r
          (header-append c b u v b.protocol (rw accepted (λ p. cc))) (sizes-append r sized) opened'
        ∙ ap₂ (λ (p q : Bytes). success_with p q (Box.opened_box c b.protocol b)) same
            (drop-append_le r.encrypted_size u v fits)
        ∙ ap (λ (d : Decrypted). record d { rest = d.rest ++ v })
            (sym (decrypt_computes u out s.written header r refl sized s.message_is))

    -- Input that is found corrupt stays so, whatever follows it.
    pub decrypt_corrupt-append :
        (Box.decrypt c b u out).status ≡ corrupt_data
        → (Box.decrypt c b (u ++ v) (out ++ w)).status ≡ corrupt_data
    decrypt_corrupt-append h = elim (Bool-cases (is_success r.status)) [
      | inl good ↦
          let accepted = is_success→success r.status good in
          let sized = corrupt_sizes c b u out good h in
          let (fits, room) = checked c b u out sized in
          let (small, enc, _) = header_sizes c b.protocol b u refl accepted in
          decrypt_corrupt (u ++ v) (out ++ w) header r
            (header-append c b u v b.protocol (rw accepted (λ p. cc))) (sizes-append r sized)
            (closed-append c b u v out w r header b.protocol fits enc
              (corrupt_closed c b u out sized h))
      | inr bad ↦ corrupt_header c b u out v w bad h
    ]
      where
        r : PeekResult
        r = result c b u out

        header : Bytes
        header = (Box.header_of c b.protocol b u).1
