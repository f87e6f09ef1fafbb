-- ===== src/Handshake/Messages.antt =====
-- src/SecretHandshake.cc: no message is empty, so a handshake that is not over either sends or waits.
use secret_handshake_capnp.Common.{
  ◌<◌, ◌≡◌, refl, subst, Bytes, true, false, [], ◌∷◌, some, Outcome, ok, fault, and_then, is_empty,
  length, take, length-append, length-take, arith, Bool-cases, inl, inr,
}
use secret_handshake_capnp.Crypto.{Crypto, IsCrypto}
use secret_handshake_capnp.Shs
use secret_handshake_capnp.Shs.Frame.{greeted, authed, Returns}
use secret_handshake_capnp.Shs.Accepts.{some_of}
use secret_handshake_capnp.Handshake
use secret_handshake_capnp.Handshake.{
  Step, failed, client_challenge, server_challenge, client_auth, server_ack, finished, Role, client,
  server, is_over, bytes_wanted, byte_count_needed,
}
use secret_handshake_capnp.Handshake.Invariant.{sends}
use secret_handshake_capnp.Handshake.Stages.{Stage}
use secret_handshake_capnp.Handshake.Turns.{Prepared, Fine}

nonempty : (xs : Bytes) → 0 < length xs → is_empty xs ≡ false
nonempty [] h = absurd (omega arith)
nonempty (x ∷ xs) h = refl

pub sends_or_waits :
    (r : Role) (s : Step) → is_over s ≡ false → bytes_wanted r s ≡ 0 → sends r s ≡ true
sends_or_waits client s h k = ground arith
sends_or_waits (server a) s h k = ground arith

module _ {c : Crypto} (laws : IsCrypto c) where
  challenge-nonempty : (s : Shs.Shs) → is_empty (Shs.create_challenge c s) ≡ false
  unfolding Shs.create_challenge
  challenge-nonempty s = nonempty (Shs.create_challenge c s) (
      omega (
        arith,
        length-append (take 32 (c.hmac_sha512 s.app_id s.ephemeral_public)) s.ephemeral_public,
        length-take 32 (c.hmac_sha512 s.app_id s.ephemeral_public),
        laws.hmac_size s.app_id s.ephemeral_public,
      ))

  box-nonempty : (key message : Bytes) → is_empty (Shs.box c key message) ≡ false
  box-nonempty key message =
      nonempty (Shs.box c key message)
        (omega (arith, laws.xsalsa20_IsCipher.box_size key c.zero_nonce message))

  auth-nonempty :
      (s : Shs.Shs) (peer e ab x : Bytes)
      → s.peer_public_key ≡ some peer
      → s.peer_ephemeral ≡ some e
      → s.ab ≡ some ab
      → s.hash_ab ≡ some x
      → Returns (Shs.create_client_auth c s) (λ bytes s'. is_empty bytes ≡ false)
  unfolding Shs.create_client_auth
  auth-nonempty s peer e ab x hp he hab hx = rw (hp, he, hx, hab) (box-nonempty _ _)

  ack-nonempty :
      (s : Shs.Shs) (e ab ab' a'b h x : Bytes)
      → s.peer_ephemeral ≡ some e
      → s.ab ≡ some ab
      → s.a_b_long ≡ some ab'
      → s.a_long_b ≡ some a'b
      → s.h ≡ some h
      → s.hash_ab ≡ some x
      → Returns (Shs.create_server_ack c s) (λ bytes s'. is_empty bytes ≡ false)
  unfolding Shs.create_server_ack
  ack-nonempty s e ab ab' a'b h x he hab hab' ha'b hh hx =
      rw (he, hab, hab', ha'b, hh, hx) (box-nonempty _ _)

  produce-nonempty :
      (peer : Bytes) (r : Role) (step : Step) (s : Shs.Shs)
      → sends r step ≡ true
      → Stage c peer r step true s
      → Returns (Handshake.produce c r step s) (λ bytes s'. is_empty bytes ≡ false)
  unfolding Handshake.produce
  produce-nonempty peer client client_challenge s h g = challenge-nonempty s
  produce-nonempty peer client client_auth s h (named, greeted, f) =
      let (e, he) = some_of s.peer_ephemeral (ground arith) in
      let (ab, hab) = some_of s.ab (ground arith) in
      let (x, hx) = some_of s.hash_ab (ground arith) in auth-nonempty s peer e ab x named he hab hx
  produce-nonempty peer client failed s h g = cc
  produce-nonempty peer client server_challenge s h g = cc
  produce-nonempty peer client server_ack s h g = cc
  produce-nonempty peer client finished s h g = cc
  produce-nonempty peer (server a) server_challenge s h g = challenge-nonempty s
  produce-nonempty peer (server a) server_ack s h (authed, k, v, f) =
      let (e, he) = some_of s.peer_ephemeral (ground arith) in
      let (ab, hab) = some_of s.ab (ground arith) in
      let (ab', hab') = some_of s.a_b_long (ground arith) in
      let (a'b, ha'b) = some_of s.a_long_b (ground arith) in
      let (m, hm) = some_of s.h (ground arith) in
      let (x, hx) = some_of s.hash_ab (ground arith) in
      ack-nonempty s e ab ab' a'b m x he hab hab' ha'b hm hx
  produce-nonempty peer (server a) failed s h g = cc
  produce-nonempty peer (server a) client_challenge s h g = cc
  produce-nonempty peer (server a) client_auth s h g = cc
  produce-nonempty peer (server a) finished s h g = cc

  made-nonempty :
      (h : Handshake.Handshake) (r : Outcome Bytes × Shs.Shs)
      → Returns r (λ bytes s. is_empty bytes ≡ false)
      → Fine
          (and_then
            (r.0, record h { impl = r.1 })
            (λ bytes h'. (ok bytes, record h' { output_buffer = bytes })))
          (λ bytes h'. is_empty bytes ≡ false)
  made-nonempty h (ok bytes, s) f = f
  made-nonempty h (fault e, s) f = absurd f

  -- At a step that sends, there is something to send.
  pub bytes_to_send-nonempty :
      (k p x peer : Bytes) (who : Role) (h : Handshake.Handshake)
      → Prepared c k p x peer who h
      → is_over h.step ≡ false
      → sends h.role h.step ≡ true
      → Fine (Handshake.bytes_to_send c h) (λ bytes h'. is_empty bytes ≡ false)
  unfolding Handshake.bytes_to_send
  bytes_to_send-nonempty k p x peer who h g running sending =
      elim (Bool-cases (is_empty h.output_buffer)) [
        | inl none_left ↦
            rw (running, none_left)
              (made-nonempty h (Handshake.produce c h.role h.step h.impl) (
                produce-nonempty peer h.role h.step h.impl sending
                  (subst (λ e. Stage c peer h.role h.step e h.impl) none_left g.stage)))
        | inr some_left ↦ rw (running, some_left) some_left
      ]
