-- ===== src/Stream/Transport/Delivery.antt =====
-- src/SecretStream.cc: from the cleartext that is put into an `EncryptionStream` to the cleartext that
-- a `DecryptionStream` hands out, over a wire that cuts the bytes anywhere.
use secret_handshake_capnp.Common.{
  ◌≡◌, sym, ap, ◌∙◌, Bytes, Bool, true, false, List, [], ◌∷◌, ◌++◌, Outcome, ok, fault, Exec,
  append_assoc, append-nil, Bool-cases, inl, inr, arith,
}
use secret_handshake_capnp.Crypto.{Crypto, IsCrypto}
use secret_handshake_capnp.Stream.Box.{CryptoBox}
use secret_handshake_capnp.Stream.Buffer.{CryptoStream, IsStream, available, pending, new_stream}
use secret_handshake_capnp.Stream.Decryption.{push}
use secret_handshake_capnp.Stream.Decryption.Pieces.{push-Drained, push-append}
use secret_handshake_capnp.Stream.Transport.{sealed, flatten}
use secret_handshake_capnp.Stream.Transport.Receiver.{push-Received}
use secret_handshake_capnp.Stream.Transport.Sender.{Call, run, given, Sent, calls-Sent}

-- Goes on after a piece that was found good.
abbrev go_on : Outcome Bool × CryptoStream → Exec CryptoStream Bool → Outcome Bool × CryptoStream
go_on (ok true, s) next = next s
go_on (ok false, s) next = (ok false, s)
go_on (fault e, s) next = (fault e, s)

-- The first piece and those after it, each pushed when the one before was found good.
unfoldable pub push_all : Crypto → Bytes → List Bytes → Exec CryptoStream Bool
push_all c x [] s = push c x s
push_all c x (y ∷ ys) s = go_on (push c x s) (push_all c y ys)

ok_differ : ok true ≡ ok false → ⊥
ok_differ h = cc

-- Bytes that are found good in one call are found good in pieces, with the same stream after them.
push_all_lem :
    (c : Crypto) (x : Bytes) (ys : List Bytes) (s : CryptoStream)
    → IsStream s
    → (push c (x ++ flatten ys) s).0 ≡ ok true
    → push_all c x ys s ≡ push c (x ++ flatten ys) s
unfolding push_all
push_all_lem c x [] s v good = rw append-nil
push_all_lem c x (y ∷ ys) s v good =
    let rest : Bytes = y ++ flatten ys in
    let d = push-Drained c x s v in
    let (carries_on, stops) = push-append c rest x s v in
    elim (Bool-cases d.verdict) [
      | inl fine ↦
          let first : (push c x s).0 ≡ ok true = d.returns ∙ ap ok fine in
          let same = carries_on first in
          ap (λ (r : Outcome Bool). go_on (r, (push c x s).1) (push_all c y ys)) first
          ∙ push_all_lem c y ys (push c x s).1 d.sound (rw (← same) good)
          ∙ sym same
      | inr corrupt ↦
          let e = stops (d.returns ∙ ap ok corrupt) in
          absurd (ok_differ (sym good ∙ ap (λ (r : Outcome Bool × CryptoStream). r.0) e))
    ]

module _ {c : Crypto} (laws : IsCrypto c) (b : CryptoBox) where
  -- The encrypted messages of a sender, in pieces, at the other end.
  pub deliver :
      {out text : Bytes} {sender : CryptoStream} (x : Bytes) (pieces : List Bytes)
      → Sent c b out sender text
      → x ++ flatten pieces ≡ out ++ available sender
      → let (verdict, receiver) = push_all c x pieces (new_stream b) in
        (verdict ≡ ok true)
        × (available receiver ++ pending sender ≡ text)
        × (receiver.box ≡ sender.box)
        × (pending receiver ≡ [])
  deliver {sender = sender} x pieces t wire =
      let r = push-Received laws b t.messages t.small in
      let e : x ++ flatten pieces ≡ (sealed c b t.messages).0 = wire ∙ t.wire in
      let whole = ap (λ u. push c u (new_stream b)) e in
      let good : (push c (x ++ flatten pieces) (new_stream b)).0 ≡ ok true = rw whole r.verdict in
      let same =
        push_all_lem c x pieces (new_stream b) (record { within = omega arith }) good ∙ whole in
      rw same (
        r.verdict,
        ap (λ u. u ++ pending sender) r.text ∙ t.text_is,
        r.in_step ∙ sym t.box_is,
        r.nothing_left,
      )

  -- Whatever is called on a new `EncryptionStream`, and however the bytes that it hands out are cut on
  -- their way: the `DecryptionStream` at the other end, with the same key, nonce and protocol, finds no
  -- corrupt data, and has decrypted the cleartext that was put in, up to the message that the sender
  -- has not flushed; the two boxes are in step, and nothing is left to decrypt.
  pub delivery :
      (calls : List Call) (x : Bytes) (pieces : List Bytes)
      → let (out, sender) = run c calls (new_stream b) in
        x ++ flatten pieces ≡ out ++ available sender
        → let (verdict, receiver) = push_all c x pieces (new_stream b) in
          (verdict ≡ ok true)
          × (available receiver ++ pending sender ≡ given calls)
          × (receiver.box ≡ sender.box)
          × (pending receiver ≡ [])
  delivery calls x pieces wire = deliver x pieces (calls-Sent laws b calls) wire

  -- Whatever is called on a new `EncryptionStream`, a new `DecryptionStream` with the same key, nonce
  -- and protocol that has got any beginning of the bytes handed out finds no corrupt data, and what
  -- it has decrypted is a beginning of the cleartext that was put in.
  pub delivery_so_far :
      (calls : List Call) (x y : Bytes)
      → let (out, sender) = run c calls (new_stream b) in
        x ++ y ≡ out ++ available sender
        → let (verdict, receiver) = push c x (new_stream b) in
          (verdict ≡ ok true) × ((later : Bytes) × (available receiver ++ later ≡ given calls))
  delivery_so_far calls x y wire =
      let s : CryptoStream = new_stream b in
      let v : IsStream s = record { within = omega arith } in
      let t = calls-Sent laws b calls in
      let r = push-Received laws b t.messages t.small in
      let whole = ap (λ u. push c u s) (wire ∙ t.wire) in
      let good : (push c (x ++ y) s).0 ≡ ok true = rw whole r.verdict in
      let d = push-Drained c x s v in
      let (carries_on, stops) = push-append c y x s v in
      elim (Bool-cases d.verdict) [
        | inl fine ↦
            let first : (push c x s).0 ≡ ok true = d.returns ∙ ap ok fine in
            let d' = push-Drained c y (push c x s).1 d.sound in
            (
              first,
              (
                d'.fresh ++ pending (run c calls s).1,
                sym (append_assoc (available (push c x s).1) d'.fresh (pending (run c calls s).1))
                    ∙ ap (λ u. u ++ pending (run c calls s).1)
                        (sym d'.grown
                          ∙ ap (λ (q : Outcome Bool × CryptoStream). available q.1)
                              (sym (carries_on first) ∙ whole)
                          ∙ r.text)
                    ∙ t.text_is,
              ),
            )
        | inr corrupt ↦
            let e = stops (d.returns ∙ ap ok corrupt) in
            absurd (ok_differ (sym good ∙ ap (λ (q : Outcome Bool × CryptoStream). q.0) e))
      ]
