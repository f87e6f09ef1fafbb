-- ===== src/Stream/Decryption/Pieces.antt =====
-- src/SecretStream.cc, `DecryptionStream::push`: the loop ends, and encrypted bytes may arrive in
-- pieces of any size.
use secret_handshake_capnp.Common.{
  ℕ, zero, suc, ◌+◌, ◌<◌, ◌≡◌, ◌≢◌, refl, sym, ap, ◌∙◌, subst, ◌⊎◌, inl, inr, Bytes, Bool, true,
  false, [], ◌++◌, length, Outcome, ok, append_assoc, append-nil, length-append, length-take,
  take-append, drop-append, drop-append_le, take-append_le, arith,
}
use secret_handshake_capnp.Crypto.{Crypto}
use secret_handshake_capnp.Stream.Box.{
  Decrypted, Status, decrypt, success, out_too_small, incomplete_input, corrupt_data, overhead,
  Protocol, compact, box_stream,
}
use secret_handshake_capnp.Stream.Box.Sizes.{decrypt_consumes, decrypt-ne-too_small}
use secret_handshake_capnp.Stream.Box.Stable.{decrypt-append, decrypt_corrupt-append}
use secret_handshake_capnp.Stream.Buffer.{CryptoStream, IsStream, available, pending}
use secret_handshake_capnp.Stream.Encryption.{append}
use secret_handshake_capnp.Stream.Decryption.{accept, attempt, drain, push}

pub overhead-pos : (p : Protocol) → 0 < overhead p
overhead-pos compact = omega arith
overhead-pos box_stream = omega arith

module _ (s : CryptoStream) (v : IsStream s) where
  length-available : length (available s) ≡ s.processed
  length-available = omega (arith, length-take s.processed s.buffer, v.within)

  pub append-IsStream : (ys : Bytes) → IsStream (append ys s)
  append-IsStream ys = record { within = omega (arith, length-append s.buffer ys, v.within) }

  pub pending-append : (ys : Bytes) → pending (append ys s) ≡ pending s ++ ys
  pending-append ys = drop-append_le s.processed s.buffer ys v.within

  pub accept-IsStream : (d : Decrypted) → IsStream (accept s d)
  accept-IsStream d = record {
    within = omega (
      arith,
      length-append (available s ++ d.plaintext) d.rest,
      length-append (available s) d.plaintext,
      length-available,
    );
  }

  pub accept_parts :
      (d : Decrypted)
      → (available (accept s d) ≡ available s ++ d.plaintext) × (pending (accept s d) ≡ d.rest)
  accept_parts d =
      let size : length (available s ++ d.plaintext) ≡ s.processed + length d.plaintext =
        omega (arith, length-append (available s) d.plaintext, length-available) in
      (
        take-append (s.processed + length d.plaintext) (available s ++ d.plaintext) d.rest size,
        drop-append (s.processed + length d.plaintext) (available s ++ d.plaintext) d.rest size,
      )

pub Status-cases :
    (t : Status)
    → (t ≡ success) ⊎ ((t ≡ incomplete_input) ⊎ ((t ≡ corrupt_data) ⊎ (t ≡ out_too_small)))
Status-cases success = inl refl
Status-cases incomplete_input = inr (inl refl)
Status-cases corrupt_data = inr (inr (inl refl))
Status-cases out_too_small = inr (inr (inr refl))

module _ (c : Crypto) where
  -- An accepted message leaves fewer bytes to process.
  pub accept_shrinks :
      (s : CryptoStream)
      → IsStream s
      → (attempt c s).status ≡ success
      → length (pending (accept s (attempt c s))) < length (pending s)
  accept_shrinks s v h = omega (
    arith,
    ap length (accept_parts s v (attempt c s)).1,
    decrypt_consumes c s.box (pending s) (pending s) h,
    overhead-pos s.box.protocol,
  )

  -- A round of the loop, by the status of its `decrypt`.
  pub drain_success :
      (f : ℕ) (s : CryptoStream)
      → (attempt c s).status ≡ success
      → drain c (suc f) s ≡ drain c f (accept s (attempt c s))
  unfolding drain
  drain_success f s h = rw (h, drain)

  pub drain_incomplete :
      (f : ℕ) (s : CryptoStream)
      → (attempt c s).status ≡ incomplete_input
      → drain c (suc f) s ≡ (ok true, s)
  unfolding drain
  drain_incomplete f s h = rw (h, drain)

  drain_corrupt :
      (f : ℕ) (s : CryptoStream)
      → (attempt c s).status ≡ corrupt_data
      → drain c (suc f) s ≡ (ok false, s)
  unfolding drain
  drain_corrupt f s h = rw (h, drain)

  -- The buffer that is written is as long as the one that is read, so it is never too small.
  pub never_small : (s : CryptoStream) → (attempt c s).status ≢ out_too_small
  never_small s = decrypt-ne-too_small c s.box (pending s) (pending s) (omega arith)

  -- With enough fuel, it makes no difference how much.
  drain_fuel :
      (f g : ℕ) (s : CryptoStream)
      → IsStream s
      → length (pending s) < f
      → length (pending s) < g
      → drain c f s ≡ drain c g s
  drain_fuel zero g s v hf hg = absurd (omega arith)
  drain_fuel (suc f) zero s v hf hg = absurd (omega arith)
  drain_fuel (suc f) (suc g) s v hf hg = elim (Status-cases (attempt c s).status) [
    | inl good ↦
        let less = accept_shrinks s v good in
        rw (drain_success f s good, drain_success g s good)
          (drain_fuel f g (accept s (attempt c s)) (accept-IsStream s v (attempt c s)) (omega arith)
            (omega arith))
    | inr (inl more) ↦ rw (drain_incomplete f s more, drain_incomplete g s more)
    | inr (inr (inl bad)) ↦ rw (drain_corrupt f s bad, drain_corrupt g s bad)
    | inr (inr (inr small)) ↦ absurd (never_small s small)
  ]

  -- What the loop comes to: a verdict, no fault, and a stream whose decrypted bytes have only grown.
  pub record Drained (s : CryptoStream) (r : Outcome Bool × CryptoStream) : Type 0 where
    pub verdict : Bool
    pub returns : r.0 ≡ ok verdict
    pub sound : IsStream r.1
    pub fresh : Bytes
    pub grown : available r.1 ≡ available s ++ fresh

  drain-Drained :
      (f : ℕ) (s : CryptoStream) → IsStream s → length (pending s) < f → Drained s (drain c f s)
  drain-Drained zero s v enough = absurd (omega arith)
  drain-Drained (suc f) s v enough = elim (Status-cases (attempt c s).status) [
    | inl good ↦
        let d : Decrypted = attempt c s in
        let rest =
          drain-Drained f (accept s d) (accept-IsStream s v d)
            (omega (arith, accept_shrinks s v good)) in
        rw (drain_success f s good) (record {
          verdict = rest.verdict;
          returns = rest.returns;
          sound = rest.sound;
          fresh = d.plaintext ++ rest.fresh;
          grown =
              rest.grown
              ∙ ap (λ t. t ++ rest.fresh) (accept_parts s v d).0
              ∙ append_assoc (available s) d.plaintext rest.fresh;
        })
    | inr (inl more) ↦ rw (drain_incomplete f s more) (stopped true s v)
    | inr (inr (inl bad)) ↦ rw (drain_corrupt f s bad) (stopped false s v)
    | inr (inr (inr small)) ↦ absurd (never_small s small)
  ]
    where
      stopped : (verdict : Bool) (t : CryptoStream) → IsStream t → Drained t (ok verdict, t)
      stopped verdict t w = record {
        verdict = verdict;
        returns = refl;
        sound = w;
        fresh = [];
        grown = sym (append-nil (available t));
      }

  -- `push` ends and returns: the exception that its loop can throw is never thrown. What was decrypted
  -- before stays, in front of what is decrypted now.
  pub push-Drained : (bytes : Bytes) (s : CryptoStream) → IsStream s → Drained s (push c bytes s)
  unfolding push
  push-Drained bytes s v =
      let s' : CryptoStream = append bytes s in
      let d =
        drain-Drained (length (pending s') + 1) s' (append-IsStream s v bytes) (omega arith) in
      record {
        verdict = d.verdict;
        returns = d.returns;
        sound = d.sound;
        fresh = d.fresh;
        grown =
            d.grown ∙ ap (λ t. t ++ d.fresh) (take-append_le s.processed s.buffer bytes v.within);
      }

module _ (c : Crypto) (ys : Bytes) where
  later_bytes :
      (s : CryptoStream)
      → IsStream s
      → attempt c (append ys s) ≡ decrypt c s.box (pending s ++ ys) (pending s ++ ys)
  later_bytes s v = ap (λ u. decrypt c s.box u u) (pending-append s v ys)

  attempt-append :
      (s : CryptoStream)
      → IsStream s
      → (attempt c s).status ≡ success
      → attempt c (append ys s) ≡ record (attempt c s) { rest = (attempt c s).rest ++ ys }
  attempt-append s v h = later_bytes s v ∙ decrypt-append c s.box (pending s) ys (pending s) ys h

  accept-append :
      (s : CryptoStream)
      → IsStream s
      → (attempt c s).status ≡ success
      → accept (append ys s) (attempt c (append ys s)) ≡ append ys (accept s (attempt c s))
  accept-append s v h =
      let d : Decrypted = attempt c s in
      ap (accept (append ys s)) (attempt-append s v h)
      ∙ ap (λ b. record { buffer = b; processed = s.processed + length d.plaintext; box = d.box })
          (ap (λ a. (a ++ d.plaintext) ++ (d.rest ++ ys))
              (take-append_le s.processed s.buffer ys v.within)
            ∙ sym (append_assoc (available s ++ d.plaintext) d.rest ys))

  drain-append :
      (f g : ℕ) (s : CryptoStream)
      → IsStream s
      → length (pending s) < f
      → length (pending (append ys s)) < g
      → ((drain c f s).0 ≡ ok true → drain c g (append ys s) ≡ push c ys (drain c f s).1)
        × ((drain c f s).0 ≡ ok false
            → drain c g (append ys s) ≡ (ok false, append ys (drain c f s).1))
  unfolding push
  drain-append zero g s v hf hg = absurd (omega arith)
  drain-append (suc f) zero s v hf hg = absurd (omega arith)
  drain-append (suc f) (suc g) s v hf hg = elim (Status-cases (attempt c s).status) [
    | inl good ↦
        let s' : CryptoStream = accept s (attempt c s) in
        let good' : (attempt c (append ys s)).status ≡ success =
          ap (λ (d : Decrypted). d.status) (attempt-append s v good) ∙ good in
        let shorter = accept_shrinks c s v good in
        let same = accept-append s v good in
        let shorter' : length (pending (append ys s')) < g =
          subst (λ t. length (pending t) < g) same
            (omega (arith, accept_shrinks c (append ys s) (append-IsStream s v ys) good')) in
        rw (drain_success c f s good, drain_success c g (append ys s) good', same)
          (drain-append f g s' (accept-IsStream s v (attempt c s)) (omega arith) shorter')
    | inr (inl more) ↦ rw (drain_incomplete c f s more) (
      (λ h.
          drain_fuel c (suc g) (length (pending (append ys s)) + 1) (append ys s)
            (append-IsStream s v ys) hg (omega arith)),
      (λ h. cc),
    )
    | inr (inr (inl bad)) ↦
        let bad' : (attempt c (append ys s)).status ≡ corrupt_data =
          ap (λ (d : Decrypted). d.status) (later_bytes s v)
          ∙ decrypt_corrupt-append c s.box (pending s) ys (pending s) ys bad in
        rw (drain_corrupt c f s bad, drain_corrupt c g (append ys s) bad') ((λ h. cc), (λ h. refl))
    | inr (inr (inr small)) ↦ absurd (never_small c s small)
  ]

  -- Encrypted bytes may be pushed in two calls or in one. If the first call finds no corrupt data, the
  -- second leaves the stream, and the verdict, as one call with all of the bytes; if it does, so does
  -- the one call, and the streams differ by the later bytes at the end of the buffer.
  pub push-append :
      (xs : Bytes) (s : CryptoStream)
      → IsStream s
      → ((push c xs s).0 ≡ ok true → push c (xs ++ ys) s ≡ push c ys (push c xs s).1)
        × ((push c xs s).0 ≡ ok false → push c (xs ++ ys) s ≡ (ok false, append ys (push c xs s).1))
  unfolding push
  push-append xs s v =
      let s' : CryptoStream = append xs s in
      let e : append (xs ++ ys) s ≡ append ys s' =
        ap (λ b. record s { buffer = b }) (sym (append_assoc s.buffer xs ys)) in
      let joined = ap (λ t. drain c (length (pending t) + 1) t) e in
      let r =
        drain-append (length (pending s') + 1) (length (pending (append ys s')) + 1) s'
          (append-IsStream s v xs) (omega arith) (omega arith) in
      ((λ h. joined ∙ r.0 h), (λ h. joined ∙ r.1 h))
