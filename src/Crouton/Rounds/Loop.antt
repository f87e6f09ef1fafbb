-- ===== src/Crouton/Rounds/Loop.antt =====
-- crouton/SecretHandshakeStream.cc, `SecretHandshake::handshake`: its loop, and what follows it.
use secret_handshake_capnp.Common.{
  ℕ, zero, suc, ◌≤◌, ◌<◌, ◌≡◌, ◌≢◌, refl, sym, ap, ◌∙◌, subst, Bytes, true, false, ◌||◌, none, some,
  Bool-cases, inl, inr, ◌==◌, arith,
}
use secret_handshake_capnp.Crypto.{Crypto, IsCrypto}
use secret_handshake_capnp.Shs.{Session}
use secret_handshake_capnp.Handshake
use secret_handshake_capnp.Handshake.{
  Context, Role, Step, failed, client_challenge, server_challenge, client_auth, server_ack,
  finished, is_over, bytes_wanted, no_error, protocol_error, auth_error,
}
use secret_handshake_capnp.Handshake.Turns.{Ended, session-Fine}
use secret_handshake_capnp.Handshake.Messages.{sends_or_waits}
use secret_handshake_capnp.Handshake.Rounds.{rounds, some_round, Ready, Ended-Final}
use secret_handshake_capnp.Handshake.Final.{Final}
use secret_handshake_capnp.Async.{Reply, returned, ◌>>=◌, ◌>>◌}
use secret_handshake_capnp.Async.{failed as failed_with}
use secret_handshake_capnp.Async.Ends.{Ends, then-Ends}
use secret_handshake_capnp.Crouton.Shaking.{
  IoStream, Link, has_error, error_of, on_handshake, reading, send_turn, read_turn, shake,
  handshake, outcome_of, require_stream,
}
use secret_handshake_capnp.Crouton.Rounds.{
  IsOrderly, of_handshake, Holds, on_handshake-Ends, on_stream-Ends, Sent, Got, send_turn-Sent,
  read_turn-Got,
}

-- The test at the end of the loop asks whether the handshake is over.
flag_lem :
    (s : Step) (e : Handshake.Error)
    → (s ≢ failed → e ≡ no_error)
    → (s ≡ failed → e ≢ no_error)
    → ((Handshake.step_number s == 5) || has_error e) ≡ is_over s
flag_lem failed e clean reported = ground (arith, reported refl)
flag_lem client_challenge e clean reported = ground arith
flag_lem server_challenge e clean reported = ground arith
flag_lem client_auth e clean reported = ground arith
flag_lem server_ack e clean reported = ground arith
flag_lem finished e clean reported = ground arith

second-Ends :
    {S A : Type 0} (P Q : A → S → Type 0) (r : Reply A × S)
    → Ends of_handshake (λ x s. P x s × Q x s) r
    → Ends of_handshake Q r
second-Ends P Q (returned x, s) (p, q) = q
second-Ends P Q (failed_with e, s) allowed = allowed

module _ {c : Crypto} (laws : IsCrypto c) {S : Type 0} {io : IoStream S} (orderly : IsOrderly io)
    (k p x peer : Bytes) (who : Role) where
  -- A round of a handshake that is not over brings it closer to its end.
  progress :
      (h h' h'' : Handshake.Handshake)
      → Ready c k p x peer who h
      → is_over h.step ≡ false
      → Sent laws orderly k p x peer who h h'
      → Got laws orderly k p x peer who h' h''
      → rounds h''.step < rounds h.step
  progress h h' h'' (v, g) running (ready', inl fewer) (ready'', inl fewer') = omega arith
  progress h h' h'' (v, g) running (ready', inl fewer) (ready'', inr (same, idle)) = rw same fewer
  progress h h' h'' (v, g) running (ready', inr (same, quiet)) (ready'', inl fewer) =
      subst (λ s. rounds h''.step < rounds s) same fewer
  progress h h' h'' (v, g) running ((v', g'), inr (same, quiet)) (ready'', inr (same', idle)) =
      let role_is : h'.role ≡ h.role = g'.owner.0 ∙ sym g.owner.0 in
      let none_wanted : bytes_wanted h.role h.step ≡ 0 =
        ap (λ r. bytes_wanted r h.step) (sym role_is)
        ∙ ap (bytes_wanted h'.role) (sym same)
        ∙ idle in
      let sending = sends_or_waits h.role h.step running none_wanted in
      let waiting = quiet running in cc

  abbrev Over : Handshake.Handshake → Type 0
  Over h = Ready c k p x peer who h × (is_over h.step ≡ true)

  shake-Over :
      (n : ℕ) (l : Link S) (h : Handshake.Handshake) (t : S)
      → l.handshake ≡ some h
      → l.stream ≡ some t
      → Ready c k p x peer who h
      → is_over h.step ≡ false
      → rounds h.step ≤ n
      → Ends of_handshake (λ u. Holds Over) (shake c io n l)
  unfolding shake Handshake.finished?
  shake-Over zero l h t is there ready running le =
      absurd (let more = some_round h.step in omega arith)
  shake-Over (suc n) l h t is there ready running le =
      then-Ends of_handshake (λ u. Holds (Sent laws orderly k p x peer who h)) (λ u. Holds Over)
        (send_turn c io l) _ (send_turn-Sent laws orderly k p x peer who l h t is there ready)
        (λ u l1 (h1, t1, is1, there1, sent).
          then-Ends of_handshake (λ u. Holds (Got laws orderly k p x peer who h1)) (λ u. Holds Over)
            (read_turn c io l1) _
            (read_turn-Got laws orderly k p x peer who l1 h1 t1 is1 there1 sent.0)
            (λ u' l2 (h2, t2, is2, there2, got).
              let fewer = progress h h1 h2 ready running sent got in
              let flag = flag_lem h2.step h2.error got.0.0.clean got.0.0.reported in
              elim (Bool-cases (is_over h2.step)) [
                | inl over ↦ rw (is2, flag, over) (h2, t2, refl, there2, (got.0, over))
                | inr going ↦
                    rw (is2, flag, going)
                      (shake-Over n (record l2 { handshake = some h2 }) h2 t2 refl there2 got.0
                        going (omega arith))
              ]))

  -- The handshake is gone, and the session is that of a handshake that finished.
  abbrev pub Concluded : Session → Link S → Type 0
  Concluded session l = (l.handshake ≡ none) × Final c k p x peer who session

  finished_only : (s : Step) → is_over s ≡ true → s ≢ failed → s ≡ finished
  finished_only s over alive = ground arith

  outcome-Concluded :
      (e : Handshake.Error) (l : Link S) (h : Handshake.Handshake) (t : S)
      → l.handshake ≡ some h
      → l.stream ≡ some t
      → Over h
      → h.error ≡ e
      → Ends of_handshake Concluded (outcome_of c io (error_of e) l)
  unfolding Handshake.finished?
  outcome-Concluded protocol_error l h t is there over e = refl
  outcome-Concluded auth_error l h t is there over e = refl
  outcome-Concluded no_error l h t is there ((v, g), over) e =
      let last : h.step ≡ finished = finished_only h.step over (λ broken. v.reported broken e) in
      then-Ends of_handshake (λ session. Holds (Ended c k p x peer who h session)) Concluded
        (on_handshake (Handshake.session c) l) _
        (on_handshake-Ends (Ended c k p x peer who h) (Handshake.session c) l h t is there
          (session-Fine c k p x peer who h g (rw last refl)))
        (λ session l' (h', t', is', there', ended).
          (refl, Ended-Final c k p x peer who h h' session (v, g) last ended))

  shaken-Concluded :
      (n : ℕ) (l : Link S) (h : Handshake.Handshake) (t : S)
      → l.handshake ≡ some h
      → l.stream ≡ some t
      → Ready c k p x peer who h
      → is_over h.step ≡ false
      → rounds h.step ≤ n
      → Ends of_handshake Concluded (
          (do
            shake c io n
            error ← on_handshake (reading (λ h. h.error))
            outcome_of c io (error_of error))
            l)
  shaken-Concluded n l h t is there ready running le =
      then-Ends of_handshake (λ u. Holds Over) Concluded (shake c io n l) _
        (shake-Over n l h t is there ready running le)
        (λ u l' (h', t', is', there', over). rw is' (
          outcome-Concluded h'.error (record l' { handshake = some h' }) h' t' refl there' over
            refl))

  required :
      (l : Link S) (h : Handshake.Handshake) (t : S)
      → l.handshake ≡ some h
      → l.stream ≡ some t
      → Ends of_handshake (λ u. Holds (λ h'. h' ≡ h)) (require_stream c io l)
  required l h t is there = elim (Bool-cases (io.is_open t)) [
    | inl already ↦ rw (there, already) (h, t, is, refl, refl)
    | inr closed ↦
        rw (there, closed)
          (second-Ends (λ u l'. Unit {0}) (λ u. Holds (λ h'. h' ≡ h)) _
            (on_stream-Ends (λ u. Unit {0}) io.open_inner (record l { stream = some t }) h t is refl
              (orderly.opens t)))
  ]

  pub handshake-Concluded :
      (n : ℕ) (h : Handshake.Handshake) (t : S)
      → Ready c k p x peer who h
      → is_over h.step ≡ false
      → rounds h.step ≤ n
      → Ends of_handshake Concluded
          (handshake c io n (record { handshake = some h; stream = some t }))
  unfolding handshake
  handshake-Concluded n h t ready running le =
      let l : Link S = record { handshake = some h; stream = some t } in
      then-Ends of_handshake (λ u. Holds (λ h'. h' ≡ h)) Concluded (require_stream c io l) _
        (required l h t refl refl)
        (λ u l' (h', t', is', there', same).
          shaken-Concluded n l' h t' (is' ∙ ap some same) there' ready running le)
