-- ===== src/Stream/Transport/Receiver.antt =====
-- src/SecretStream.cc, `DecryptionStream`: what it makes of encrypted messages.
use secret_handshake_capnp.Common.{
  ℕ, zero, suc, ◌+◌, ◌≤◌, ◌<◌, ◌≡◌, refl, sym, ap, ◌∙◌, Bytes, Bool, true, List, [], ◌∷◌, ◌++◌,
  length, Outcome, ok, append_assoc, append-nil, length-append, arith,
}
use secret_handshake_capnp.Crypto.{Crypto, IsCrypto}
use secret_handshake_capnp.Stream.Box
use secret_handshake_capnp.Stream.Box.{
  CryptoBox, Decrypted, Status, decrypt, success, incomplete_input, overhead, Protocol, compact,
  box_stream, seal, max_message_size,
}
use secret_handshake_capnp.Stream.Box.RoundTrip.{decrypt-seal, length-seal}
use secret_handshake_capnp.Stream.Box.Stable.{success_with}
use secret_handshake_capnp.Stream.Buffer.{CryptoStream, IsStream, available, pending, new_stream}
use secret_handshake_capnp.Stream.Encryption.{append}
use secret_handshake_capnp.Stream.Decryption.{accept, attempt, drain, push}
use secret_handshake_capnp.Stream.Decryption.Pieces.{
  accept-IsStream, accept_parts, overhead-pos, drain_success, drain_incomplete,
}
use secret_handshake_capnp.Stream.Transport.{sealed, flatten, AllSmall}

nothing_at :
    (c : Crypto) (p : Protocol) (b : CryptoBox)
    → (Box.decrypt_at c p b [] []).status ≡ incomplete_input
unfolding Box.decrypt_at Box.box_stream_header Box.peek_at Box.check_sizes
nothing_at c box_stream b = refl
nothing_at c compact b = refl

pub nothing_incomplete :
    (c : Crypto) (s : CryptoStream) → pending s ≡ [] → (attempt c s).status ≡ incomplete_input
unfolding decrypt
nothing_incomplete c s e = rw e (nothing_at c s.box.protocol s.box)

-- The loop decrypts the messages, all of them, and has then the box that the sender has.
pub record Received (c : Crypto) (s : CryptoStream) (ms : List Bytes)
    (r : Outcome Bool × CryptoStream) : Type 0 where
  pub verdict : r.0 ≡ ok true
  pub text : available r.1 ≡ available s ++ flatten ms
  pub nothing_left : pending r.1 ≡ []
  pub in_step : r.1.box ≡ (sealed c s.box ms).1

module _ {c : Crypto} (laws : IsCrypto c) where
  drain-Received :
      (f : ℕ) (ms : List Bytes) (s : CryptoStream)
      → IsStream s
      → AllSmall ms
      → pending s ≡ (sealed c s.box ms).0
      → length (pending s) < f
      → Received c s ms (drain c f s)
  drain-Received zero ms s v small e enough = absurd (omega arith)
  drain-Received (suc f) [] s v small e enough =
      rw (drain_incomplete c f s (nothing_incomplete c s e)) (record {
        verdict = refl;
        text = sym (append-nil (available s));
        nothing_left = e;
        in_step = refl;
      })
  drain-Received (suc f) (m ∷ ms) s v small e enough =
      let (bytes, b) = seal c s.box.protocol s.box m in
      let rest : Bytes = (sealed c b ms).0 in
      let d : Decrypted = success_with m rest b in
      let size = length-seal laws s.box.protocol s.box m in
      let fits : length m ≤ length (pending s) =
        omega (arith, ap length e, length-append bytes rest, size) in
      let opened : attempt c s ≡ d =
        ap (λ u. decrypt c s.box u (pending s)) e
        ∙ decrypt-seal laws s.box m rest (pending s) small.0 fits in
      let (front, back) = accept_parts s v d in
      let r = drain-Received f ms (accept s d) (accept-IsStream s v d) small.1 back (
        omega (
          arith,
          ap length back,
          ap length e,
          length-append bytes rest,
          size,
          overhead-pos s.box.protocol,
        )) in
      rw (drain_success c f s (ap (λ (x : Decrypted). x.status) opened), opened)
        (record {
          verdict = r.verdict;
          text =
              r.text ∙ ap (λ t. t ++ flatten ms) front ∙ append_assoc (available s) m (flatten ms);
          nothing_left = r.nothing_left;
          in_step = r.in_step;
        })

  -- A new stream that is handed the encrypted messages returns that all is well, and has decrypted
  -- all of them.
  pub push-Received :
      (b : CryptoBox) (ms : List Bytes)
      → AllSmall ms
      → Received c (new_stream b) ms (push c (sealed c b ms).0 (new_stream b))
  unfolding push
  push-Received b ms small =
      let wire : Bytes = (sealed c b ms).0 in
      let s : CryptoStream = append wire (new_stream b) in
      let r =
        drain-Received (length wire + 1) ms s (record { within = omega arith }) small refl
          (omega arith) in
      record {
        verdict = r.verdict;
        text = r.text;
        nothing_left = r.nothing_left;
        in_step = r.in_step;
      }
