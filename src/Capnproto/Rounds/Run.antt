-- ===== src/Capnproto/Rounds/Run.antt =====
-- capnproto/SecretConnection.cc, `runHandshake`: all rounds.
use secret_handshake_capnp.Common.{
  ℕ, zero, suc, ◌≤◌, ◌≡◌, refl, sym, ap, ◌∙◌, Bytes, Bool, true, false, not, Option, some, is_empty,
  Bool-cases, inl, inr, length, arith, if◌then◌else◌,
}
use secret_handshake_capnp.Crypto.{Crypto, IsCrypto}
use secret_handshake_capnp.Handshake
use secret_handshake_capnp.Handshake.{
  Role, Step, failed, client_challenge, server_challenge, client_auth, server_ack, finished, next,
  is_over, is_failed, bytes_wanted, byte_count_needed, no_error,
}
use secret_handshake_capnp.Handshake.Invariant.{IsValid}
use secret_handshake_capnp.Handshake.Messages.{sends_or_waits}
use secret_handshake_capnp.Handshake.Rounds.{
  rounds, wanted-rounds, only_failed, empty_length, some_length, some_round, Ready, Offer,
  bytes_to_send-Offer, running_still, not_failed,
}
use secret_handshake_capnp.Async.{◌>>=◌, ◌>>◌}
use secret_handshake_capnp.Async.Ends.{of_peer, Ends, then-Ends}
use secret_handshake_capnp.Capnproto.Connection.{
  AsyncIoStream, WrappedStream, on_handshake, plain, give_up, send_some, read_some, run_handshake,
}
use secret_handshake_capnp.Capnproto.Rounds.{IsOrderly, Holds, on_handshake-Ends, Within, Agreed}
use secret_handshake_capnp.Capnproto.Rounds.Calls.{
  conclude-Agreed, give_up-Agreed, sent-Within, read-Within, asked,
}

module _ {c : Crypto} (laws : IsCrypto c) {S : Type 0} {io : AsyncIoStream S}
    (orderly : IsOrderly io) (a : Option (Bytes → Bool)) (k p x peer : Bytes) (who : Role) where
  -- A handshake that is neither finished nor sending nor reading has failed.
  stuck-failed :
      (h h' : Handshake.Handshake) (bytes : Bytes)
      → Offer laws k p x peer who h bytes h'
      → Handshake.finished? h ≡ false
      → is_empty bytes ≡ true
      → bytes_wanted h.role h.step ≡ 0
      → h.step ≡ failed
  unfolding Handshake.finished?
  stuck-failed h h' bytes (s, some_made) unfinished none_made idle =
      elim (Bool-cases (is_over h.step)) [
        | inl over ↦ only_failed h.step unfinished over
        | inr running ↦
            let made = some_made running (sends_or_waits h.role h.step running idle) in cc
      ]

  -- The rounds after this one.
  abbrev Again : ℕ → Type 0
  Again n =
      (s : WrappedStream S)
      → Within c a k p x peer who n s
      → Ends of_peer (Agreed c a k p x peer who) (run_handshake c io n s)

  waiting-Agreed :
      (n : ℕ) (s : WrappedStream S) (h : Handshake.Handshake) (buffer : Bytes)
      → Again n
      → s.handshake ≡ some h
      → s.authorizer ≡ a
      → Ready c k p x peer who h
      → rounds h.step ≤ suc n
      → length buffer ≡ byte_count_needed h
      → (is_empty buffer ≡ true → h.step ≡ failed)
      → Ends of_peer (Agreed c a k p x peer who) (
          (if not (is_empty buffer)
              then read_some c io buffer >> run_handshake c io n
              else give_up c io)
            s)
  waiting-Agreed n s h buffer again is allowed (v, g) le whole stuck =
      elim (Bool-cases (is_empty buffer)) [
        | inl nothing ↦
            rw nothing (give_up-Agreed laws orderly a k p x peer who s h is v (stuck nothing))
        | inr wanted ↦
            let more = wanted-rounds h.role h.step (λ z. some_length buffer wanted (whole ∙ z)) in
            rw wanted (
              then-Ends of_peer (λ valid. Within c a k p x peer who n) (Agreed c a k p x peer who)
                (read_some c io buffer s) (λ valid. run_handshake c io n)
                (read-Within laws orderly a k p x peer who n buffer s h is allowed (v, g) le more
                  whole)
                (λ valid s' within. again s' within))
      ]

  offered-Agreed :
      (n : ℕ) (s : WrappedStream S) (h h' : Handshake.Handshake) (bytes : Bytes)
      → Again n
      → s.handshake ≡ some h'
      → s.authorizer ≡ a
      → h.role ≡ who
      → Handshake.finished? h ≡ false
      → rounds h.step ≤ suc n
      → Offer laws k p x peer who h bytes h'
      → IsValid h'
      → Ends of_peer (Agreed c a k p x peer who) (
          (if not (is_empty bytes) then send_some c io bytes >> run_handshake c io n else (do
            buffer ← on_handshake (plain Handshake.bytes_to_read)
            if not (is_empty buffer)
                then (read_some c io buffer >> run_handshake c io n)
                else give_up c io))
            s)
  offered-Agreed n s h h' bytes again is allowed own unfinished le offer v =
      let ((g, same, none_made, kept), some_made) = offer in
      let le' : rounds h'.step ≤ suc n = rw same le in
      elim (Bool-cases (is_empty bytes)) [
        | inr something ↦
            let (running, some_left) =
              running_still laws k p x peer who h h' bytes offer something in
            rw something (
              then-Ends of_peer (λ u. Within c a k p x peer who n) (Agreed c a k p x peer who)
                (send_some c io bytes s) (λ u. run_handshake c io n)
                (sent-Within laws orderly a k p x peer who n bytes s h' is allowed (v, g) le'
                  (not_failed laws k p x peer who h'.step (ap is_over same ∙ running)) some_left)
                (λ u s' within. again s' within))
        | inl nothing ↦ rw nothing (
            then-Ends of_peer _ (Agreed c a k p x peer who)
              (on_handshake (plain Handshake.bytes_to_read) s) _
              (asked laws orderly a k p x peer who s h' is allowed (v, g))
              λ buffer s' (h'', is', allowed', (ready, same_step, same_role, whole)).
                waiting-Agreed n s' h'' buffer again is' allowed' ready (rw same_step le')
                  (whole
                    ∙ sym (
                        ap (λ r. bytes_wanted r h''.step) same_role
                        ∙ ap (bytes_wanted h'.role) same_step))
                  (λ none_wanted.
                    same_step
                    ∙ same
                    ∙ stuck-failed h h' bytes offer unfinished nothing (
                        ap (λ r. bytes_wanted r h.step) (own ∙ sym g.owner.0)
                        ∙ ap (bytes_wanted h'.role) (sym same)
                        ∙ sym whole
                        ∙ empty_length buffer none_wanted)))
      ]

  pub run_handshake-Agreed :
      (n : ℕ) (s : WrappedStream S)
      → Within c a k p x peer who n s
      → Ends of_peer (Agreed c a k p x peer who) (run_handshake c io n s)
  unfolding run_handshake
  run_handshake-Agreed zero s (h, is, allowed, (ready, le)) =
      absurd (let more = some_round h.step in omega arith)
  run_handshake-Agreed (suc n) s (h, is, allowed, ((v, g), le)) =
      elim (Bool-cases (Handshake.finished? h)) [
        | inl over ↦
            rw (is, over)
              (conclude-Agreed laws orderly a k p x peer who (record s { handshake = some h }) h
                refl allowed (v, g) over)
        | inr running ↦
            rw (is, running)
              (then-Ends of_peer
                (λ bytes. Holds a (λ h'. Offer laws k p x peer who h bytes h' × IsValid h'))
                (Agreed c a k p x peer who)
                (on_handshake (Handshake.bytes_to_send c) (record s { handshake = some h })) _
                (on_handshake-Ends a _ (Handshake.bytes_to_send c) (record s { handshake = some h })
                  h refl allowed (bytes_to_send-Offer laws k p x peer who h (v, g)))
                λ bytes s' (h', is', allowed', (offer, v')).
                  offered-Agreed n s' h h' bytes (run_handshake-Agreed n) is' allowed' g.owner.0
                    running le offer v')
      ]
