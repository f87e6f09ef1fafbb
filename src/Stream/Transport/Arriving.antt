-- ===== src/Stream/Transport/Arriving.antt =====
-- src/SecretStream.cc, `DecryptionStream`: one that is used while the bytes of an `EncryptionStream`
-- arrive, and whose decrypted bytes are taken as they come.
use secret_handshake_capnp.Common.{
  ℕ, zero, suc, ◌+◌, ◌≤◌, ◌<◌, ◌≡◌, ◌≢◌, refl, sym, ap, ◌∙◌, inl, inr, Bytes, true, List, [], ◌∷◌,
  ◌++◌, length, ok, append_assoc, append-nil, length-append, take-append_le, arith,
}
use secret_handshake_capnp.Crypto.{Crypto, IsCrypto}
use secret_handshake_capnp.Stream.Box.{
  CryptoBox, Decrypted, decrypt, success, incomplete_input, corrupt_data, seal,
}
use secret_handshake_capnp.Stream.Box.RoundTrip.{decrypt-seal, length-seal}
use secret_handshake_capnp.Stream.Box.Stable.{success_with, decrypt-append, decrypt_corrupt-append}
use secret_handshake_capnp.Stream.Buffer.{
  CryptoStream, IsStream, available, pending, new_stream, pull, pull_lem,
}
use secret_handshake_capnp.Stream.Encryption.{append}
use secret_handshake_capnp.Stream.Decryption.{accept, attempt, drain, push}
use secret_handshake_capnp.Stream.Decryption.Pieces.{
  Status-cases, accept-IsStream, accept_parts, accept_shrinks, append-IsStream, pending-append,
  drain_success, drain_incomplete, never_small,
}
use secret_handshake_capnp.Stream.Transport.{sealed, flatten, AllSmall}
use secret_handshake_capnp.Stream.Transport.Receiver.{nothing_incomplete}
use secret_handshake_capnp.Stream.Transport.Sender.{Sent}

-- Of the encrypted messages, `wire` is still on its way; with what the stream has, it makes up whole
-- messages, and `text` is what has yet to be taken from the stream.
pub record Coming (c : Crypto) (s : CryptoStream) (wire text : Bytes) : Type 0 where
  pub sound : IsStream s
  pub messages : List Bytes
  pub small : AllSmall messages
  pub encrypted : pending s ++ wire ≡ (sealed c s.box messages).0
  pub text_is : available s ++ flatten messages ≡ text

-- Such a stream that has decrypted what it can.
pub record Awaits (c : Crypto) (s : CryptoStream) (wire text : Bytes) : Type 0 where
  pub coming : Coming c s wire text
  pub drained : (attempt c s).status ≡ incomplete_input

empty_front : (xs ys : Bytes) → xs ++ ys ≡ [] → xs ≡ []
empty_front [] ys e = refl
empty_front (x ∷ xs) ys e = cc

incomplete_differs : incomplete_input ≡ corrupt_data → ⊥
incomplete_differs h = cc

success_differs : success ≡ corrupt_data → ⊥
success_differs h = cc

incomplete_differs' : incomplete_input ≡ success → ⊥
incomplete_differs' h = cc

module _ {c : Crypto} (laws : IsCrypto c) where
  -- The first of the messages to come is what `decrypt` of all of their bytes gives.
  whole_message :
      (s : CryptoStream) (wire m : Bytes) (ms : List Bytes)
      → AllSmall (m ∷ ms)
      → pending s ++ wire ≡ (sealed c s.box (m ∷ ms)).0
      → let (bytes, b) = seal c s.box.protocol s.box m in
        decrypt c s.box (pending s ++ wire) (pending s ++ wire) ≡ success_with m (sealed c b ms).0 b
  whole_message s wire m ms small e =
      let (bytes, b) = seal c s.box.protocol s.box m in
      let rest : Bytes = (sealed c b ms).0 in
      let fits : length m ≤ length (pending s ++ wire) =
        omega
          (arith, ap length e, length-append bytes rest, length-seal laws s.box.protocol s.box m) in
      ap (λ u. decrypt c s.box u (pending s ++ wire)) e
      ∙ decrypt-seal laws s.box m rest (pending s ++ wire) small.0 fits

  -- A message that could be decrypted is the first of those that were to come.
  accept-Coming :
      (s : CryptoStream) (wire text : Bytes)
      → (attempt c s).status ≡ success
      → Coming c s wire text
      → Coming c (accept s (attempt c s)) wire text
  accept-Coming s wire text good k = go k.messages k.small k.encrypted k.text_is
    where
      go :
          (ms : List Bytes)
          → AllSmall ms
          → pending s ++ wire ≡ (sealed c s.box ms).0
          → available s ++ flatten ms ≡ text
          → Coming c (accept s (attempt c s)) wire text
      go [] small e t = absurd (
          omega
            (arith, accept_shrinks c s k.sound good, ap length e, length-append (pending s) wire))
      go (m ∷ ms) small e t =
          let d : Decrypted = attempt c s in
          let b : CryptoBox = (seal c s.box.protocol s.box m).1 in
          let same : record d { rest = d.rest ++ wire } ≡ success_with m (sealed c b ms).0 b =
            sym (decrypt-append c s.box (pending s) wire (pending s) wire good)
            ∙ whole_message s wire m ms small e in
          let (front, back) = accept_parts s k.sound d in
          let plain : d.plaintext ≡ m = ap (λ (x : Decrypted). x.plaintext) same in
          let box : d.box ≡ b = ap (λ (x : Decrypted). x.box) same in
          record {
            sound = accept-IsStream s k.sound d;
            messages = ms;
            small = small.1;
            encrypted =
                ap (λ u. u ++ wire) back
                ∙ ap (λ (x : Decrypted). x.rest) same
                ∙ ap (λ x. (sealed c x ms).0) (sym box);
            text_is =
                ap (λ u. u ++ flatten ms) (front ∙ ap (◌++◌ (available s)) plain)
                ∙ append_assoc (available s) m (flatten ms)
                ∙ t;
          }

  -- It can not be found corrupt.
  never_corrupt :
      (s : CryptoStream) (wire text : Bytes)
      → Coming c s wire text
      → (attempt c s).status ≢ corrupt_data
  never_corrupt s wire text k bad = go k.messages k.small k.encrypted
    where
      bad' : (decrypt c s.box (pending s ++ wire) (pending s ++ wire)).status ≡ corrupt_data
      bad' = decrypt_corrupt-append c s.box (pending s) wire (pending s) wire bad

      go : (ms : List Bytes) → AllSmall ms → pending s ++ wire ≡ (sealed c s.box ms).0 → ⊥
      go [] small e =
          let waits = nothing_incomplete c s (empty_front (pending s) wire e) in
          incomplete_differs (sym waits ∙ bad)
      go (m ∷ ms) small e =
          let opened = ap (λ (d : Decrypted). d.status) (whole_message s wire m ms small e) in
          success_differs (sym opened ∙ bad')

  drain-Awaits :
      (f : ℕ) (s : CryptoStream) (wire text : Bytes)
      → Coming c s wire text
      → length (pending s) < f
      → let (verdict, s') = drain c f s in (verdict ≡ ok true) × Awaits c s' wire text
  drain-Awaits zero s wire text k enough = absurd (omega arith)
  drain-Awaits (suc f) s wire text k enough = elim (Status-cases (attempt c s).status) [
    | inl good ↦ rw (drain_success c f s good) (
        drain-Awaits f (accept s (attempt c s)) wire text (accept-Coming s wire text good k)
          (omega (arith, accept_shrinks c s k.sound good)))
    | inr (inl more) ↦
        rw (drain_incomplete c f s more) (refl, record { coming = k; drained = more })
    | inr (inr (inl bad)) ↦ absurd (never_corrupt s wire text k bad)
    | inr (inr (inr small)) ↦ absurd (never_small c s small)
  ]

  -- More of the wire arrives: it is not found corrupt, and what there is to take is the same.
  pub push-Awaits :
      (x : Bytes) (s : CryptoStream) (wire text : Bytes)
      → Awaits c s (x ++ wire) text
      → let (verdict, s') = push c x s in (verdict ≡ ok true) × Awaits c s' wire text
  unfolding push
  push-Awaits x s wire text a =
      let k = a.coming in
      let s' : CryptoStream = append x s in
      drain-Awaits (length (pending s') + 1) s' wire text
        (record {
          sound = append-IsStream s k.sound x;
          messages = k.messages;
          small = k.small;
          encrypted =
              ap (λ u. u ++ wire) (pending-append s k.sound x)
              ∙ append_assoc (pending s) x wire
              ∙ k.encrypted;
          text_is =
              ap (λ u. u ++ flatten k.messages)
                (take-append_le s.processed s.buffer x k.sound.within)
              ∙ k.text_is;
        })
        (omega arith)

  -- Decrypted bytes are taken: they are a beginning of what there was to take.
  pub pull-Awaits :
      (n : ℕ) (s : CryptoStream) (wire text : Bytes)
      → Awaits c s wire text
      → let (bytes, s') = pull n s in
        (later : Bytes) × (bytes ++ later ≡ text) × Awaits c s' wire later
  pull-Awaits n s wire text a =
      let k = a.coming in
      let (parts, _, left, same, v) = pull_lem n s k.sound in
      let (bytes, s') = pull n s in
      (
        available s' ++ flatten k.messages,
        sym (append_assoc bytes (available s') (flatten k.messages))
            ∙ ap (λ u. u ++ flatten k.messages) parts
            ∙ k.text_is,
        record {
          coming = record {
            sound = v;
            messages = k.messages;
            small = k.small;
            encrypted = rw (left, same) k.encrypted;
            text_is = refl;
          };
          drained = rw (left, same) a.drained;
        },
      )

  -- When all of the wire has arrived, all that there is to take is there.
  pub nothing_coming :
      (s : CryptoStream) (text : Bytes)
      → Awaits c s [] text
      → (available s ≡ text) × (pending s ≡ [])
  nothing_coming s text a = go a.coming.messages a.coming.small a.coming.encrypted a.coming.text_is
    where
      go :
          (ms : List Bytes)
          → AllSmall ms
          → pending s ++ [] ≡ (sealed c s.box ms).0
          → available s ++ flatten ms ≡ text
          → (available s ≡ text) × (pending s ≡ [])
      go [] small e t = (sym (append-nil (available s)) ∙ t, sym (append-nil (pending s)) ∙ e)
      go (m ∷ ms) small e t =
          let opened = ap (λ (d : Decrypted). d.status) (whole_message s [] m ms small e) in
          let same : decrypt c s.box (pending s ++ []) (pending s ++ []) ≡ attempt c s =
            ap (λ u. decrypt c s.box u u) (append-nil (pending s)) in
          absurd (
            incomplete_differs'
              (sym a.drained ∙ ap (λ (d : Decrypted). d.status) (sym same) ∙ opened))

  -- At the start, all that the sender has put on the wire is to come.
  pub new-Awaits :
      (b : CryptoBox) (out text : Bytes) (sender : CryptoStream)
      → Sent c b out sender text
      → pending sender ≡ []
      → Awaits c (new_stream b) (out ++ available sender) text
  new-Awaits b out text sender t flushed = record {
    coming = record {
      sound = record { within = omega arith };
      messages = t.messages;
      small = t.small;
      encrypted = t.wire;
      text_is =
          sym (append-nil (flatten t.messages))
          ∙ ap (◌++◌ (flatten t.messages)) (sym flushed)
          ∙ t.text_is;
    };
    drained = nothing_incomplete c (new_stream b) refl;
  }
