-- ===== src/Crouton/Rounds.antt =====
-- crouton/SecretHandshakeStream.cc, `SecretHandshake::handshake`: an inner stream that behaves, and what
-- a round over it brings.
pub mod Loop
use secret_handshake_capnp.Common.{
  ℕ, ◌≤◌, ◌<◌, ◌≡◌, ◌⊎◌, refl, sym, ap, ◌∙◌, subst, Bytes, Bool, true, false, not, some, Outcome,
  ok, fault, Exec, is_empty, Bool-cases, inl, inr, length, drop, length-drop, length-append, resize,
  length-resize, ◌==◌, arith, if◌then◌else◌,
}
use secret_handshake_capnp.Crypto.{Crypto, IsCrypto}
use secret_handshake_capnp.Handshake
use secret_handshake_capnp.Handshake.{Role, is_over, is_failed, bytes_wanted, byte_count_needed}
use secret_handshake_capnp.Handshake.Invariant.{
  IsValid, sends, send_completed-IsValid, read_completed-IsValid, grown-IsValid,
  read_failed-IsValid,
}
use secret_handshake_capnp.Handshake.Turns.{
  Fine, Fine-returns, Moved, Read, failing-Prepared, send_completed-Fine, read_completed-Fine,
}
use secret_handshake_capnp.Handshake.Rounds.{
  rounds, next-rounds, wanted-rounds, empty_length, some_length, Fine-so, Ready, Offer,
  bytes_to_send-Offer, running_still, not_failed,
}
use secret_handshake_capnp.Async.{
  Failure, shs_error, Reply, returned, Async, ◌>>◌, pure, of_outcome,
}
use secret_handshake_capnp.Async.{failed as failed_with}
use secret_handshake_capnp.Async.Ends.{of_stream, Ends, then-Ends}
use secret_handshake_capnp.Crouton.Shaking.{
  IoStream, Link, on_handshake, on_stream, filled, as_exec, updating, done, send_turn, read_turn,
}

-- An inner stream that returns, or fails with an error of its own; `read` returns no more than it was
-- asked for.
pub record IsOrderly {S : Type 0} (io : IoStream S) : Type 0 where
  pub reads : (n : ℕ) (t : S) → Ends of_stream (λ bytes t'. length bytes ≤ n) (io.read n t)
  pub writes : (bytes : Bytes) (t : S) → Ends of_stream (λ u t'. Unit {0}) (io.write bytes t)
  pub opens : (t : S) → Ends of_stream (λ u t'. Unit {0}) (io.open_inner t)

-- An error of the handshake or of the inner stream.
abbrev pub of_handshake : Failure → Bool
of_handshake (shs_error e) = true
of_handshake e = of_stream e

stream-handshake : (e : Failure) → of_stream e ≡ true → of_handshake e ≡ true
stream-handshake e h = ground arith

module _ {S : Type 0} where
  -- A link whose handshake and stream are there, and such.
  abbrev pub Holds : (Handshake.Handshake → Type 0) → Link S → Type 0
  Holds P l =
      (h : Handshake.Handshake) × (t : S) × (l.handshake ≡ some h) × (l.stream ≡ some t) × P h

  outcome-Ends :
      {A : Type 0} (P : A → Handshake.Handshake → Type 0) (l : Link S) (t : S)
      (r : Outcome A × Handshake.Handshake)
      → l.stream ≡ some t
      → Fine r P
      → Ends of_handshake (λ x. Holds (P x)) (of_outcome r.0, record l { handshake = some r.1 })
  outcome-Ends P l t (ok x, h) k f = (h, t, refl, k, f)
  outcome-Ends P l t (fault e, h) k f = absurd f

  pub on_handshake-Ends :
      {A : Type 0} (P : A → Handshake.Handshake → Type 0) (m : Exec Handshake.Handshake A)
      (l : Link S) (h : Handshake.Handshake) (t : S)
      → l.handshake ≡ some h
      → l.stream ≡ some t
      → Fine (m h) P
      → Ends of_handshake (λ x. Holds (P x)) (on_handshake m l)
  on_handshake-Ends P m l h t is k f = rw is (outcome-Ends P l t (m h) k f)

  stream-Ends :
      {A : Type 0} (P : A → Type 0) (l : Link S) (h : Handshake.Handshake) (r : Reply A × S)
      → l.handshake ≡ some h
      → Ends of_stream (λ x t. P x) r
      → Ends of_handshake
          (λ x l'. P x × Holds (λ h'. h' ≡ h) l')
          (r.0, record l { stream = some r.1 })
  stream-Ends P l h (returned x, t) is e = (e, (h, t, is, refl, refl))
  stream-Ends P l h (failed_with e, t) is allowed = stream-handshake e allowed

  pub on_stream-Ends :
      {A : Type 0} (P : A → Type 0) (m : Async S A) (l : Link S) (h : Handshake.Handshake) (t : S)
      → l.handshake ≡ some h
      → l.stream ≡ some t
      → Ends of_stream (λ x t. P x) (m t)
      → Ends of_handshake (λ x l'. P x × Holds (λ h'. h' ≡ h) l') (on_stream m l)
  on_stream-Ends P m l h t is k e = rw k (stream-Ends P l h (m t) is e)

filled_length :
    (bytes buffer : Bytes)
    → length bytes ≤ length buffer
    → length (filled bytes buffer) ≡ length buffer
filled_length bytes buffer h =
    omega
      (arith, length-append bytes (drop (length bytes) buffer), length-drop (length bytes) buffer)

done-Fine :
    {A : Type 0} (m : Exec Handshake.Handshake A) (h : Handshake.Handshake)
    (P : A → Handshake.Handshake → Type 0) (Q : Handshake.Handshake → Type 0)
    → Fine (m h) P
    → ((a : A) → P a (m h).1 → Q (m h).1)
    → Fine (done m h) (λ u. Q)
done-Fine m h P Q f so =
    let (a, is, p) = Fine-returns (m h) P f in
    subst
      (λ o.
        Fine {A = Unit {0}} (elim o [ ok a ↦ (ok tt, (m h).1) | fault e ↦ (fault e, (m h).1) ])
          (λ u. Q))
      (sym (ap (λ r. r.0) is)) (so a p)

module _ {c : Crypto} (laws : IsCrypto c) {S : Type 0} {io : IoStream S} (orderly : IsOrderly io)
    (k p x peer : Bytes) (who : Role) where
  -- After the half of a round that sends: closer to the end, or where it was, at a step that does not
  -- send.
  abbrev pub Sent : Handshake.Handshake → Handshake.Handshake → Type 0
  Sent h h' =
      Ready c k p x peer who h'
      × ((rounds h'.step < rounds h.step)
          ⊎ ((h'.step ≡ h.step) × (is_over h.step ≡ false → sends h.role h.step ≡ false)))

  -- After the half that reads: closer to the end, or where it was, at a step that wants nothing.
  abbrev pub Got : Handshake.Handshake → Handshake.Handshake → Type 0
  Got h h' =
      Ready c k p x peer who h'
      × ((rounds h'.step < rounds h.step) ⊎ ((h'.step ≡ h.step) × (bytes_wanted h.role h.step ≡ 0)))

  send_completed-Sent :
      (l : Link S) (h h' : Handshake.Handshake) (t : S)
      → l.handshake ≡ some h'
      → l.stream ≡ some t
      → Ready c k p x peer who h'
      → h'.step ≡ h.step
      → is_failed h'.step ≡ false
      → is_empty h'.output_buffer ≡ false
      → Ends of_handshake (λ u. Holds (Sent h)) (on_handshake (Handshake.send_completed c) l)
  send_completed-Sent l h h' t is there (v, g) same running some_left =
      on_handshake-Ends (λ u. Sent h) (Handshake.send_completed c) l h' t is there
        (Fine-so (λ u h''. Moved c k p x peer who h' h'') _ (Handshake.send_completed c h')
          (send_completed-Fine c k p x peer who h' v g running some_left)
          (send_completed-IsValid c h' v)
          (λ u h'' (g', on, e) v'.
            let fewer : rounds h''.step < rounds h'.step = next-rounds h'.step h''.step on in
            ((v', g'), inl (subst (λ s. rounds h''.step < rounds s) same fewer))))

  offered-Sent :
      (l : Link S) (h h' : Handshake.Handshake) (t : S) (bytes : Bytes)
      → l.handshake ≡ some h'
      → l.stream ≡ some t
      → Offer laws k p x peer who h bytes h'
      → IsValid h'
      → Ends of_handshake
          (λ u. Holds (Sent h))
          ((if is_empty bytes
              then pure tt
              else on_stream (io.write bytes) >> on_handshake (Handshake.send_completed c))
            l)
  offered-Sent l h h' t bytes is there offer v =
      let ((g, same, none_made, kept), some_made) = offer in
      elim (Bool-cases (is_empty bytes)) [
        | inl nothing ↦ rw nothing (
          h',
          t,
          is,
          there,
          (
            (v, g),
            inr (
              same,
              λ running. elim (Bool-cases (sends h.role h.step)) [
                | inl sending ↦ let made = some_made running sending in cc
                | inr waiting ↦ waiting
              ],
            ),
          ),
        )
        | inr something ↦
            let (running, some_left) =
              running_still laws k p x peer who h h' bytes offer something in
            rw something (
              then-Ends of_handshake (λ u l'. Unit {0} × Holds (λ h''. h'' ≡ h') l')
                (λ u. Holds (Sent h)) (on_stream (io.write bytes) l)
                (λ u. on_handshake (Handshake.send_completed c))
                (on_stream-Ends (λ u. Unit {0}) (io.write bytes) l h' t is there
                  (orderly.writes bytes t))
                (λ u l' (w, (h'', t', is', there', eq)).
                  send_completed-Sent l' h h' t' (is' ∙ ap some eq) there' (v, g) same
                    (not_failed laws k p x peer who h'.step (ap is_over same ∙ running)) some_left))
      ]

  pub send_turn-Sent :
      (l : Link S) (h : Handshake.Handshake) (t : S)
      → l.handshake ≡ some h
      → l.stream ≡ some t
      → Ready c k p x peer who h
      → Ends of_handshake (λ u. Holds (Sent h)) (send_turn c io l)
  send_turn-Sent l h t is there ready =
      then-Ends of_handshake
        (λ bytes. Holds (λ h'. Offer laws k p x peer who h bytes h' × IsValid h'))
        (λ u. Holds (Sent h)) (on_handshake (Handshake.bytes_to_send c) l) _
        (on_handshake-Ends _ (Handshake.bytes_to_send c) l h t is there
          (bytes_to_send-Offer laws k p x peer who h ready))
        (λ bytes l' (h', t', is', there', (offer, v)).
          offered-Sent l' h h' t' bytes is' there' offer v)

  judged-Got :
      (h h' : Handshake.Handshake) (valid : Bool)
      → Read c k p x peer who h valid h'
      → IsValid h'
      → 1 < rounds h.step
      → Got h h'
  judged-Got h h' true (g, on, e) v more = ((v, g), inl (next-rounds h.step h'.step on))
  judged-Got h h' false (g, over) v more =
      ((v, g), inl (let last : rounds h'.step ≡ 1 = ap rounds over in omega arith))

  -- `readCompleted`, on a handshake whose input buffer was filled.
  judge-Got :
      (l : Link S) (h : Handshake.Handshake) (t : S)
      → l.handshake ≡ some h
      → l.stream ≡ some t
      → Ready c k p x peer who h
      → 1 < rounds h.step
      → length h.input_buffer ≡ byte_count_needed h
      → Ends of_handshake (λ u. Holds (Got h)) (on_handshake (done (Handshake.read_completed c)) l)
  judge-Got l h t is there (v, g) more full =
      on_handshake-Ends (λ u. Got h) (done (Handshake.read_completed c)) l h t is there
        (done-Fine (Handshake.read_completed c) h (Read c k p x peer who h) (Got h)
          (read_completed-Fine c k p x peer who h v g full)
          (λ valid read. judged-Got h _ valid read (read_completed-IsValid c h v) more))

  give_up-Got :
      (l : Link S) (h : Handshake.Handshake) (t : S)
      → l.handshake ≡ some h
      → l.stream ≡ some t
      → Ready c k p x peer who h
      → 1 < rounds h.step
      → Ends of_handshake (λ u. Holds (Got h)) (on_handshake (updating Handshake.read_failed) l)
  unfolding Handshake.read_failed Handshake.fail
  give_up-Got l h t is there (v, g) more =
      on_handshake-Ends (λ u. Got h) (updating Handshake.read_failed) l h t is there
        ((read_failed-IsValid c h, failing-Prepared c k p x peer who h g.owner), inl more)

  filled-Got :
      (l : Link S) (h : Handshake.Handshake) (t : S) (bytes to_read : Bytes)
      → l.handshake ≡ some h
      → l.stream ≡ some t
      → Ready c k p x peer who h
      → 1 < rounds h.step
      → length to_read ≡ byte_count_needed h
      → length bytes ≤ length to_read
      → Ends of_handshake
          (λ u. Holds (Got h))
          ((do
            on_handshake (updating (Handshake.fill_input (filled bytes to_read)))
            if length bytes == length to_read
                then on_handshake (done (Handshake.read_completed c))
                else on_handshake (updating Handshake.read_failed))
            l)
  unfolding Handshake.fill_input
  filled-Got l h t bytes to_read is there (v, g) more whole short =
      let input : Bytes = filled bytes to_read in
      let full : Handshake.Handshake = record h { input_buffer = input } in
      let size : length input ≡ byte_count_needed h = filled_length bytes to_read short ∙ whole in
      let ready : Ready c k p x peer who full =
        (grown-IsValid h input v (omega arith), record { stage = g.stage; owner = g.owner }) in
      then-Ends of_handshake (λ u. Holds (λ h'. h' ≡ full)) (λ u. Holds (Got h))
        (on_handshake (updating (Handshake.fill_input input)) l) _
        (on_handshake-Ends (λ u h'. h' ≡ full) (updating (Handshake.fill_input input)) l h t is
          there refl)
        (λ u l' (h', t', is', there', eq). elim (Bool-cases (length bytes == length to_read)) [
          | inl all ↦ rw all (judge-Got l' full t' (is' ∙ ap some eq) there' ready more size)
          | inr part ↦ rw part (give_up-Got l' full t' (is' ∙ ap some eq) there' ready more)
        ])

  pub read_turn-Got :
      (l : Link S) (h : Handshake.Handshake) (t : S)
      → l.handshake ≡ some h
      → l.stream ≡ some t
      → Ready c k p x peer who h
      → Ends of_handshake (λ u. Holds (Got h)) (read_turn c io l)
  unfolding Handshake.bytes_to_read
  read_turn-Got l h t is there (v, g) =
      let buffer : Bytes = resize (byte_count_needed h) h.input_buffer in
      let whole : length buffer ≡ byte_count_needed h =
        length-resize (byte_count_needed h) h.input_buffer in
      let asked : Handshake.Handshake = record h { input_buffer = buffer } in
      let ready : Ready c k p x peer who asked =
        (grown-IsValid h buffer v (omega arith), record { stage = g.stage; owner = g.owner }) in
      then-Ends of_handshake (λ to_read. Holds (λ h'. (h' ≡ asked) × (to_read ≡ buffer)))
        (λ u. Holds (Got h)) (on_handshake (as_exec Handshake.bytes_to_read) l) _
        (on_handshake-Ends (λ to_read h'. (h' ≡ asked) × (to_read ≡ buffer))
          (as_exec Handshake.bytes_to_read) l h t is there (refl, refl))
        (λ to_read l' (h', t', is', there', (eq, same)). elim (Bool-cases (is_empty to_read)) [
          | inl nothing ↦
              let idle : bytes_wanted h.role h.step ≡ 0 =
                sym whole ∙ ap length (sym same) ∙ empty_length to_read nothing in
              rw nothing (asked, t', is' ∙ ap some eq, there', (ready, inr (refl, idle)))
          | inr something ↦
              let size : length to_read ≡ byte_count_needed h = ap length same ∙ whole in
              let more =
                wanted-rounds h.role h.step (λ z. some_length to_read something (size ∙ z)) in
              rw something (
                then-Ends of_handshake
                  (λ bytes l''. (length bytes ≤ length to_read) × Holds (λ h''. h'' ≡ h') l'')
                  (λ u. Holds (Got h)) (on_stream (io.read (length to_read)) l') _
                  (on_stream-Ends (λ bytes. length bytes ≤ length to_read)
                    (io.read (length to_read)) l' h' t' is' there'
                    (orderly.reads (length to_read) t'))
                  (λ bytes l'' (short, (h'', t'', is'', there'', eq')).
                    filled-Got l'' asked t'' bytes to_read (is'' ∙ ap some (eq' ∙ eq)) there'' ready
                      more size short))
        ])
