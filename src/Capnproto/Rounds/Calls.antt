-- ===== src/Capnproto/Rounds/Calls.antt =====
-- capnproto/SecretConnection.cc, `runHandshake`: the calls of one round.
use secret_handshake_capnp.Common.{
  ℕ, suc, ◌≤◌, ◌<◌, ◌≡◌, refl, sym, ap, ◌∙◌, Bytes, Bool, true, false, Option, some, is_empty,
  Bool-cases, inl, inr, length, length-resize, arith,
}
use secret_handshake_capnp.Crypto.{Crypto, IsCrypto}
use secret_handshake_capnp.Shs.{Session}
use secret_handshake_capnp.Handshake
use secret_handshake_capnp.Handshake.{
  Role, Step, failed, client_challenge, server_challenge, client_auth, server_ack, finished, next,
  is_over, is_failed, bytes_wanted, byte_count_needed, no_error,
}
use secret_handshake_capnp.Handshake.Invariant.{
  IsValid, send_completed-IsValid, read_completed-IsValid, grown-IsValid,
}
use secret_handshake_capnp.Handshake.Turns.{
  Moved, Read, Ended, is_finished, send_completed-Fine, read_completed-Fine, session-Fine,
}
use secret_handshake_capnp.Handshake.Rounds.{Ended-Final, rounds, next-rounds, Fine-so, Ready}
use secret_handshake_capnp.Handshake.Final.{Final}
use secret_handshake_capnp.Async.Ends.{of_peer, Ends, then-Ends}
use secret_handshake_capnp.Capnproto.Connection.{
  accept_session, AsyncIoStream, WrappedStream, is_authorized, on_handshake, on_inner, plain,
  give_up, conclude, send_some, read_some,
}
use secret_handshake_capnp.Capnproto.Rounds.{
  IsOrderly, reported, Holds, on_handshake-Ends, inner-Ends, Within, Agreed,
}

module _ {c : Crypto} (laws : IsCrypto c) {S : Type 0} {io : AsyncIoStream S}
    (orderly : IsOrderly io) (a : Option (Bytes → Bool)) (k p x peer : Bytes) (who : Role) where
  accept-Agreed :
      (session : Session) (s : WrappedStream S)
      → s.authorizer ≡ a
      → Final c k p x peer who session
      → Ends of_peer (Agreed c a k p x peer who) (accept_session c io session s)
  accept-Agreed session s is f =
      elim (Bool-cases (is_authorized s.authorizer session.peer_public_key)) [
        | inl accepted ↦
            rw accepted (ap (λ b. is_authorized b session.peer_public_key) (sym is) ∙ accepted, f)
        | inr refused ↦ rw refused refl
      ]

  pub conclude-Agreed :
      (s : WrappedStream S) (h : Handshake.Handshake)
      → s.handshake ≡ some h
      → s.authorizer ≡ a
      → Ready c k p x peer who h
      → Handshake.finished? h ≡ true
      → Ends of_peer (Agreed c a k p x peer who) (conclude c io s)
  unfolding Handshake.finished?
  conclude-Agreed s h is allowed (v, g) over =
      then-Ends of_peer (λ session. Holds a (Ended c k p x peer who h session))
        (Agreed c a k p x peer who) (on_handshake (Handshake.session c) s) (accept_session c io)
        (on_handshake-Ends a (Ended c k p x peer who h) (Handshake.session c) s h is allowed
          (session-Fine c k p x peer who h g over))
        (λ session s' (h', is', allowed', ended).
          accept-Agreed session s' allowed'
            (Ended-Final c k p x peer who h h' session (v, g) (is_finished h.step over) ended))

  -- Only a handshake that failed has nothing to send, nothing to read, and no session.
  pub give_up-Agreed :
      (s : WrappedStream S) (h : Handshake.Handshake)
      → s.handshake ≡ some h
      → IsValid h
      → h.step ≡ failed
      → Ends of_peer (Agreed c a k p x peer who) (give_up c io s)
  give_up-Agreed s h is v over = rw (is, reported h.error (v.reported over)) refl

  judged-Within :
      (n : ℕ) (h : Handshake.Handshake) (valid : Bool) (h' : Handshake.Handshake)
      → Read c k p x peer who h valid h'
      → IsValid h'
      → rounds h.step ≤ suc n
      → 1 < rounds h.step
      → Ready c k p x peer who h' × (rounds h'.step ≤ n)
  judged-Within n h true h' (g, on, e) v le more =
      ((v, g), (let fewer = next-rounds h.step h'.step on in omega arith))
  judged-Within n h false h' (g, over) v le more =
      ((v, g), (let last : rounds h'.step ≡ 1 = ap rounds over in omega arith))

  pub sent-Within :
      (n : ℕ) (bytes : Bytes) (s : WrappedStream S) (h : Handshake.Handshake)
      → s.handshake ≡ some h
      → s.authorizer ≡ a
      → Ready c k p x peer who h
      → rounds h.step ≤ suc n
      → is_failed h.step ≡ false
      → is_empty h.output_buffer ≡ false
      → Ends of_peer (λ u. Within c a k p x peer who n) (send_some c io bytes s)
  sent-Within n bytes s h is allowed (v, g) le running some_left =
      then-Ends of_peer (λ u s'. Unit {0} × Holds a (λ h'. h' ≡ h) s')
        (λ u. Within c a k p x peer who n) (on_inner (io.write bytes) s)
        (λ u. on_handshake (Handshake.send_completed c))
        (inner-Ends a (λ u. Unit {0}) (λ h'. h' ≡ h) s (io.write bytes s.inner)
          (h, is, allowed, refl) (orderly.writes bytes s.inner))
        λ u s' (w, (h', is', allowed', same)).
          on_handshake-Ends a (λ u' h''. Ready c k p x peer who h'' × (rounds h''.step ≤ n))
            (Handshake.send_completed c) s' h (is' ∙ ap some same) allowed'
            (Fine-so (λ u' h''. Moved c k p x peer who h h'') _ (Handshake.send_completed c h)
              (send_completed-Fine c k p x peer who h v g running some_left)
              (send_completed-IsValid c h v)
              (λ u' h'' (g', on, e) v'.
                ((v', g'), (let fewer = next-rounds h.step h''.step on in omega arith))))

  read_done-Within :
      (n : ℕ) (s : WrappedStream S) (h : Handshake.Handshake)
      → s.handshake ≡ some h
      → s.authorizer ≡ a
      → Ready c k p x peer who h
      → rounds h.step ≤ suc n
      → 1 < rounds h.step
      → length h.input_buffer ≡ byte_count_needed h
      → Ends of_peer
          (λ valid. Within c a k p x peer who n)
          (on_handshake (Handshake.read_completed c) s)
  read_done-Within n s h is allowed (v, g) le more full =
      on_handshake-Ends a (λ valid h'. Ready c k p x peer who h' × (rounds h'.step ≤ n))
        (Handshake.read_completed c) s h is allowed
        (Fine-so (Read c k p x peer who h) _ (Handshake.read_completed c h)
          (read_completed-Fine c k p x peer who h v g full) (read_completed-IsValid c h v)
          (λ valid h' read v'. judged-Within n h valid h' read v' le more))

  pub read-Within :
      (n : ℕ) (buffer : Bytes) (s : WrappedStream S) (h : Handshake.Handshake)
      → s.handshake ≡ some h
      → s.authorizer ≡ a
      → Ready c k p x peer who h
      → rounds h.step ≤ suc n
      → 1 < rounds h.step
      → length buffer ≡ byte_count_needed h
      → Ends of_peer (λ valid. Within c a k p x peer who n) (read_some c io buffer s)
  unfolding Handshake.fill_input
  read-Within n buffer s h is allowed (v, g) le more whole =
      then-Ends of_peer (λ bytes s'. (length bytes ≡ length buffer) × Holds a (λ h'. h' ≡ h) s')
        (λ u. Within c a k p x peer who n) (on_inner (io.read (length buffer)) s) _
        (inner-Ends a (λ bytes. length bytes ≡ length buffer) (λ h'. h' ≡ h) s
          (io.read (length buffer) s.inner) (h, is, allowed, refl)
          (orderly.reads (length buffer) s.inner))
        λ bytes s' (filled, (h', is', allowed', same)).
          let full : Handshake.Handshake = record h { input_buffer = bytes } in
          rw (is' ∙ ap some same) (
            read_done-Within n (record s' { handshake = some full }) full refl allowed'
              (grown-IsValid h bytes v (omega arith), record { stage = g.stage; owner = g.owner })
              le more (filled ∙ whole))

  -- The step after `bytesToRead`: the buffer is handed out, as long as what is asked for.
  pub asked :
      (s : WrappedStream S) (h : Handshake.Handshake)
      → s.handshake ≡ some h
      → s.authorizer ≡ a
      → Ready c k p x peer who h
      → Ends of_peer
          (λ buffer. Holds a λ h'.
            Ready c k p x peer who h'
            × (h'.step ≡ h.step)
            × (h'.role ≡ h.role)
            × (length buffer ≡ byte_count_needed h))
          (on_handshake (plain Handshake.bytes_to_read) s)
  unfolding Handshake.bytes_to_read
  asked s h is allowed (v, g) =
      let whole = length-resize (byte_count_needed h) h.input_buffer in
      on_handshake-Ends a _ (plain Handshake.bytes_to_read) s h is allowed (
        (grown-IsValid h _ v (omega arith), record { stage = g.stage; owner = g.owner }),
        refl,
        refl,
        whole,
      )
