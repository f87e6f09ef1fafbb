-- ===== src/Stream/Transport/Sender.antt =====
-- src/SecretStream.cc, `EncryptionStream`: what it has put on the wire, whatever was called.
use secret_handshake_capnp.Common.{
  ℕ, ◌+◌, ◌≤◌, ◌<◌, ◌≡◌, refl, sym, ap, ◌∙◌, subst, inl, inr, Bytes, List, [], ◌∷◌, ◌++◌, length,
  ok, append_assoc, append-nil, length-append, arith, Bool-cases, ltb, ltb→lt, lt→ltb, ◌==◌,
  take-append_le, take_all, length-take,
}
use secret_handshake_capnp.Crypto.{Crypto, IsCrypto}
use secret_handshake_capnp.Stream.Box.{CryptoBox, seal, max_message_size}
use secret_handshake_capnp.Stream.Buffer.{
  CryptoStream, available, new_stream, pending, pull, pull_lem,
}
use secret_handshake_capnp.Stream.Encryption.{append, flush, push_partial, push, room}
use secret_handshake_capnp.Stream.Encryption.Bytewise.{
  IsEncrypting, flushed, put_byte, put_bytes, flush_lem, flushed-IsEncrypting, append-IsEncrypting,
  push_partial_lem,
}
use secret_handshake_capnp.Stream.Transport.{sealed, flatten, AllSmall}

pub data Call : Type 0 where
  pushes push_partials : Bytes → Call
  flushes : Call
  pulls : ℕ → Call

-- The bytes that a call hands out, and the stream after it.
unfoldable pub perform : Crypto → Call → CryptoStream → Bytes × CryptoStream
perform c (pushes bytes) s = ([], (push c bytes s).1)
perform c (push_partials bytes) s = ([], (push_partial c bytes s).1)
perform c flushes s = ([], (flush c s).1)
perform c (pulls n) s = pull n s

unfoldable pub run : Crypto → List Call → CryptoStream → Bytes × CryptoStream
run c [] s = ([], s)
run c (call ∷ calls) s =
    let (out, s') = perform c call s in let (rest, s'') = run c calls s' in (out ++ rest, s'')

-- The cleartext that the calls put in.
abbrev pub given : List Call → Bytes
given [] = []
given (pushes bytes ∷ calls) = bytes ++ given calls
given (push_partials bytes ∷ calls) = bytes ++ given calls
given (flushes ∷ calls) = given calls
given (pulls n ∷ calls) = given calls

-- What was pulled and what is available make up encrypted messages; with the current message they are
-- the cleartext.
pub record Sent (c : Crypto) (b : CryptoBox) (out : Bytes) (s : CryptoStream) (text : Bytes)
    : Type 0 where
  pub sound : IsEncrypting s
  pub messages : List Bytes
  pub small : AllSmall messages
  pub wire : out ++ available s ≡ (sealed c b messages).0
  pub box_is : s.box ≡ (sealed c b messages).1
  pub text_is : flatten messages ++ pending s ≡ text

sealed-append :
    (c : Crypto) (b : CryptoBox) (ms ns : List Bytes)
    → let (x, b') = sealed c b ms in
      sealed c b (ms ++ ns) ≡ (x ++ (sealed c b' ns).0, (sealed c b' ns).1)
sealed-append c b [] ns = refl
sealed-append c b (m ∷ ms) ns =
    let (bytes, b') = seal c b.protocol b m in
    ap (λ (r : Bytes × CryptoBox). (bytes ++ r.0, r.1)) (sealed-append c b' ms ns)
    ∙ ap (λ t. (t, (sealed c (sealed c b' ms).1 ns).1))
        (sym (append_assoc bytes (sealed c b' ms).0 _))

flatten-append : (ms ns : List Bytes) → flatten (ms ++ ns) ≡ flatten ms ++ flatten ns
flatten-append [] ns = refl
flatten-append (m ∷ ms) ns =
    ap (◌++◌ m) (flatten-append ms ns) ∙ sym (append_assoc m (flatten ms) (flatten ns))

AllSmall-append : (ms ns : List Bytes) → AllSmall ms → AllSmall ns → AllSmall (ms ++ ns)
AllSmall-append [] ns h k = k
AllSmall-append (m ∷ ms) ns h k = (h.0, AllSmall-append ms ns h.1 k)

module _ {c : Crypto} (laws : IsCrypto c) (b : CryptoBox) (out : Bytes) where
  append-Sent :
      (bytes : Bytes) (s : CryptoStream) (text : Bytes)
      → length bytes ≤ room s
      → Sent c b out s text
      → Sent c b out (append bytes s) (text ++ bytes)
  append-Sent bytes s text fits t =
      let (v, e) = append-IsEncrypting laws bytes s t.sound fits in
      record {
        sound = v;
        messages = t.messages;
        small = t.small;
        wire = ap (◌++◌ out) (take-append_le s.processed s.buffer bytes t.sound.within) ∙ t.wire;
        box_is = t.box_is;
        text_is =
            ap (◌++◌ (flatten t.messages)) e
            ∙ sym (append_assoc (flatten t.messages) (pending s) bytes)
            ∙ ap (λ u. u ++ bytes) t.text_is;
      }

  -- The current message joins the messages.
  sealed_message : CryptoStream → CryptoStream
  sealed_message s =
      let (bytes, b') = seal c s.box.protocol s.box (pending s) in
      record s { buffer = available s ++ bytes; processed = s.processed + length bytes; box = b' }

  flushed_message : (s : CryptoStream) → 0 < length (pending s) → flushed c s ≡ sealed_message s
  unfolding flushed sealed_message
  flushed_message s h = rw (lt→ltb 0 (length (pending s)) h)

  sealed_message-Sent :
      (s : CryptoStream) (text : Bytes)
      → 0 < length (pending s)
      → Sent c b out s text
      → Sent c b out (sealed_message s) text
  unfolding sealed_message
  sealed_message-Sent s text some_left t =
      let m : Bytes = pending s in
      let bytes : Bytes = (seal c s.box.protocol s.box m).0 in
      let (v, nothing_left) = flushed-IsEncrypting laws s t.sound in
      let e = flushed_message s some_left in
      let both : sealed c b (t.messages ++ m ∷ [])
          ≡ ((sealed c b t.messages).0 ++ bytes, (seal c s.box.protocol s.box m).1) =
        sealed-append c b t.messages (m ∷ [])
        ∙ ap
            (λ (x : CryptoBox).
              ((sealed c b t.messages).0 ++ (sealed c x (m ∷ [])).0, (sealed c x (m ∷ [])).1))
            (sym t.box_is)
        ∙ ap (λ x. ((sealed c b t.messages).0 ++ x, (seal c s.box.protocol s.box m).1))
            (append-nil bytes) in
      record {
        sound = subst IsEncrypting e v;
        messages = t.messages ++ m ∷ [];
        small = AllSmall-append t.messages (m ∷ []) t.small (t.sound.bounded, tt);
        wire =
            ap (◌++◌ out) (
              take_all (s.processed + length bytes) (available s ++ bytes) (
                omega (arith, length-append (available s) bytes, length-take s.processed s.buffer)))
            ∙ sym (append_assoc out (available s) bytes)
            ∙ ap (λ x. x ++ bytes) t.wire
            ∙ sym (ap (λ (r : Bytes × CryptoBox). r.0) both);
        box_is = sym (ap (λ (r : Bytes × CryptoBox). r.1) both);
        text_is =
            ap (◌++◌ (flatten (t.messages ++ m ∷ []))) (subst (λ u. pending u ≡ []) e nothing_left)
            ∙ append-nil (flatten (t.messages ++ m ∷ []))
            ∙ flatten-append t.messages (m ∷ [])
            ∙ ap (◌++◌ (flatten t.messages)) (append-nil m)
            ∙ t.text_is;
      }

  pub flushed-Sent :
      (s : CryptoStream) (text : Bytes) → Sent c b out s text → Sent c b out (flushed c s) text
  unfolding flushed
  flushed-Sent s text t = elim (Bool-cases (ltb 0 (length (pending s)))) [
    | inr nothing ↦ rw nothing t
    | inl some_left ↦
        let h : 0 < length (pending s) = ltb→lt 0 (length (pending s)) some_left in
        subst (λ u. Sent c b out u text) (sym (flushed_message s h))
          (sealed_message-Sent s text h t)
  ]

  put_byte-Sent :
      (byte : ℕ) (s : CryptoStream) (text : Bytes)
      → Sent c b out s text
      → Sent c b out (put_byte c s byte) (text ++ byte ∷ [])
  unfolding put_byte
  put_byte-Sent byte s text t = elim (Bool-cases (length (pending s) == max_message_size)) [
    | inl full ↦
        let (v, e) = flushed-IsEncrypting laws s t.sound in
        rw full (
          append-Sent (byte ∷ []) (flushed c s) text (omega (arith, ap length e))
            (flushed-Sent s text t))
    | inr some_room ↦
        rw some_room (append-Sent (byte ∷ []) s text (ground (arith, t.sound.bounded)) t)
  ]

  pub put_bytes-Sent :
      (bytes : Bytes) (s : CryptoStream) (text : Bytes)
      → Sent c b out s text
      → Sent c b out (put_bytes c s bytes) (text ++ bytes)
  unfolding put_bytes
  put_bytes-Sent [] s text t = rw append-nil t
  put_bytes-Sent (x ∷ bytes) s text t =
      subst (Sent c b out (put_bytes c (put_byte c s x) bytes)) (append_assoc text (x ∷ []) bytes)
        (put_bytes-Sent bytes (put_byte c s x) (text ++ x ∷ []) (put_byte-Sent x s text t))

module _ {c : Crypto} (laws : IsCrypto c) (b : CryptoBox) where
  pub pull-Sent :
      (n : ℕ) (out : Bytes) (s : CryptoStream) (text : Bytes)
      → Sent c b out s text
      → Sent c b (out ++ (pull n s).0) (pull n s).1 text
  pull-Sent n out s text t =
      let (parts, _, kept, same_box, v) = pull_lem n s (record { within = t.sound.within }) in
      record {
        sound = record { within = v.within; bounded = rw kept t.sound.bounded };
        messages = t.messages;
        small = t.small;
        wire =
            append_assoc out (pull n s).0 (available (pull n s).1) ∙ ap (◌++◌ out) parts ∙ t.wire;
        box_is = same_box ∙ t.box_is;
        text_is = ap (◌++◌ (flatten t.messages)) kept ∙ t.text_is;
      }

  -- `push` ends, throws nothing, and encrypts all that was given.
  pub push_lem :
      (bytes : Bytes) (s : CryptoStream)
      → IsEncrypting s
      → push c bytes s ≡ (ok tt, flushed c (put_bytes c s bytes))
  unfolding push
  push_lem bytes s v =
      let (pushed, v') = push_partial_lem laws bytes s v in
      rw (pushed, flush_lem laws (put_bytes c s bytes) v')

  perform-Sent :
      (call : Call) (out : Bytes) (s : CryptoStream) (text : Bytes)
      → Sent c b out s text
      → let (bytes, s') = perform c call s in Sent c b (out ++ bytes) s' (text ++ given (call ∷ []))
  unfolding perform
  perform-Sent (pushes bytes) out s text t =
      rw (push_lem bytes s t.sound, append-nil, append-nil)
        (flushed-Sent laws b out (put_bytes c s bytes) (text ++ bytes)
          (put_bytes-Sent laws b out bytes s text t))
  perform-Sent (push_partials bytes) out s text t =
      rw ((push_partial_lem laws bytes s t.sound).0, append-nil, append-nil)
        (put_bytes-Sent laws b out bytes s text t)
  perform-Sent flushes out s text t =
      rw (flush_lem laws s t.sound, append-nil, append-nil) (flushed-Sent laws b out s text t)
  perform-Sent (pulls n) out s text t = rw append-nil (pull-Sent n out s text t)

  given-append :
      (call : Call) (calls : List Call) → given (call ∷ calls) ≡ given (call ∷ []) ++ given calls
  given-append (pushes bytes) calls = ap (λ t. t ++ given calls) (sym (append-nil bytes))
  given-append (push_partials bytes) calls = ap (λ t. t ++ given calls) (sym (append-nil bytes))
  given-append flushes calls = refl
  given-append (pulls n) calls = refl

  run-Sent :
      (calls : List Call) (out : Bytes) (s : CryptoStream) (text : Bytes)
      → Sent c b out s text
      → let (bytes, s') = run c calls s in Sent c b (out ++ bytes) s' (text ++ given calls)
  unfolding run
  run-Sent [] out s text t = simp append-nil t
  run-Sent (call ∷ calls) out s text t =
      let (bytes, s') = perform c call s in
      let more : Bytes = (run c calls s').0 in
      let t' =
        run-Sent calls (out ++ bytes) s' (text ++ given (call ∷ []))
          (perform-Sent call out s text t) in
      subst (λ o. Sent c b o (run c calls s').1 (text ++ given (call ∷ calls)))
        (append_assoc out bytes more)
        (subst (Sent c b ((out ++ bytes) ++ more) (run c calls s').1)
          (append_assoc text (given (call ∷ [])) (given calls)
            ∙ ap (◌++◌ text) (sym (given-append call calls)))
          t')

  -- A new stream, after any calls: what was handed out and what is available are encrypted messages,
  -- and these messages followed by the current one are the cleartext that was put in.
  pub calls-Sent :
      (calls : List Call)
      → let (out, s) = run c calls (new_stream b) in Sent c b out s (given calls)
  calls-Sent calls = run-Sent calls [] (new_stream b) [] (record {
    sound = record { within = omega arith; bounded = omega arith };
    messages = [];
    small = tt;
    wire = refl;
    box_is = refl;
    text_is = refl;
  })
