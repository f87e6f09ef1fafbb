-- ===== src/Handshake/Calls.antt =====
-- src/SecretHandshake.cc: every public method keeps what its step can count on, and faults only as it
-- means to.
use secret_handshake_capnp.Common.{
  ℕ, ◌≡◌, refl, sym, ◌∙◌, subst, min, Bytes, Bool, true, false, [], none, Fault, logic_error,
  assertion_failed, Outcome, ok, fault, Exec, and_then, is_empty, length, take, drop, ltb, ◌==◌,
  ==_iff, ◌++◌, arith, Bool-cases, inl, inr,
}
use secret_handshake_capnp.Crypto.{Crypto}
use secret_handshake_capnp.Shs.{Session}
use secret_handshake_capnp.Handshake
use secret_handshake_capnp.Handshake.{
  Step, failed, finished, Role, client, server, next, is_failed, is_over, bytes_wanted,
  byte_count_needed, accepted_count,
}
use secret_handshake_capnp.Handshake.Invariant.{
  IsValid, grown-IsValid, fits_still, bytes_to_send-IsValid, buffered,
}
use secret_handshake_capnp.Handshake.Stages.{Stage}
use secret_handshake_capnp.Handshake.Stages.Sending.{partly-Stage}
use secret_handshake_capnp.Handshake.Turns.{
  Prepared, Fine, Read, Moved, Sending, Ended, read_completed-Fine, bytes_to_send-Fine, sent-Fine,
  session-Fine,
}

-- The faults that a call may end with: `logic_error`, which the code throws at a call that is out of
-- order, and the assertion of `nextStep` on a handshake that has failed.
abbrev pub expected : Fault → Step → Bool
expected logic_error step = true
expected assertion_failed step = is_failed step
expected _ step = false

abbrev pub Good :
    {A : Type 0}
    → Crypto
    → Bytes
    → Bytes
    → Bytes
    → Bytes
    → Role
    → Outcome A × Handshake.Handshake
    → Type 0
Good c k p x peer who (ok a, h) = Prepared c k p x peer who h
Good c k p x peer who (fault e, h) = (expected e h.step ≡ true) × Prepared c k p x peer who h

module _ (c : Crypto) (k p x peer : Bytes) (who : Role) where
  then-Good :
      {A B : Type 0} (r : Outcome A × Handshake.Handshake) (f : A → Exec Handshake.Handshake B)
      → Good c k p x peer who r
      → ((a : A) → r.0 ≡ ok a → Prepared c k p x peer who r.1 → Good c k p x peer who (f a r.1))
      → Good c k p x peer who (and_then r f)
  then-Good (ok a, h) f g go = go a refl g
  then-Good (fault e, h) f g go = g

  Fine-Good :
      {A : Type 0} (r : Outcome A × Handshake.Handshake) (P : A → Handshake.Handshake → Type 0)
      → Fine r P
      → ((a : A) (h : Handshake.Handshake) → P a h → Prepared c k p x peer who h)
      → Good c k p x peer who r
  Fine-Good (ok a, h) P f keeps = keeps a h f
  Fine-Good (fault e, h) P f keeps = absurd f

  Read-Prepared :
      (h : Handshake.Handshake) (valid : Bool) (h' : Handshake.Handshake)
      → Read c k p x peer who h valid h'
      → Prepared c k p x peer who h'
  Read-Prepared h true h' f = f.0
  Read-Prepared h false h' f = f.0

  pub read_completed-Good :
      (h : Handshake.Handshake)
      → IsValid h
      → Prepared c k p x peer who h
      → Good c k p x peer who (Handshake.read_completed c h)
  unfolding Handshake.read_completed
  read_completed-Good h v g = elim (Bool-cases (length h.input_buffer == byte_count_needed h)) [
    | inl full ↦
        Fine-Good (Handshake.read_completed c h) (Read c k p x peer who h)
          (read_completed-Fine c k p x peer who h v g ((==_iff _ _).0 full)) (Read-Prepared h)
    | inr short ↦ rw short (refl, g)
  ]

  pub bytes_to_send-Good :
      (h : Handshake.Handshake)
      → Prepared c k p x peer who h
      → Good c k p x peer who (Handshake.bytes_to_send c h)
  unfolding Handshake.bytes_to_send
  bytes_to_send-Good h g =
      Fine-Good (Handshake.bytes_to_send c h) (Sending c k p x peer who h)
        (bytes_to_send-Fine c k p x peer who h g) (λ bytes h' f. f.0)

  -- The next step, once a message that was in the buffer is gone from it
  sent-Good :
      (h : Handshake.Handshake) (o : Bytes)
      → IsValid h
      → Prepared c k p x peer who h
      → is_empty h.output_buffer ≡ false
      → is_empty o ≡ true
      → Good c k p x peer who (Handshake.next_step (record h { output_buffer = o }))
  unfolding Handshake.next_step
  sent-Good h o v g some_left none_left = elim (Bool-cases (is_failed h.step)) [
    | inl over ↦
        let stopped : next h.step ≡ none = ground arith in
        let rest = partly-Stage c peer h.role h.step (is_empty h.output_buffer) h.impl g.stage in
        rw stopped (over, record { stage = rw none_left rest; owner = g.owner })
    | inr running ↦
        Fine-Good (Handshake.next_step (record h { output_buffer = o }))
          (λ a h'. Moved c k p x peer who h h')
          (sent-Fine c k p x peer who h o v g running some_left none_left) (λ a h' f. f.0)
  ]

  pub send_completed-Good :
      (h : Handshake.Handshake)
      → IsValid h
      → Prepared c k p x peer who h
      → Good c k p x peer who (Handshake.send_completed c h)
  unfolding Handshake.send_completed
  send_completed-Good h v g = elim (Bool-cases (is_empty h.output_buffer)) [
    | inl none_left ↦ rw none_left (refl, g)
    | inr some_left ↦ rw some_left (sent-Good h [] v g some_left refl)
  ]

  copy_out-Good :
      (n : ℕ) (h : Handshake.Handshake)
      → IsValid h
      → Prepared c k p x peer who h
      → is_empty h.output_buffer ≡ false
      → Good c k p x peer who (Handshake.copy_out c n h)
  unfolding Handshake.copy_out
  copy_out-Good n h v g some_left =
      let rest : Bytes = drop (min (length h.output_buffer) n) h.output_buffer in
      elim (Bool-cases (is_empty rest)) [
        | inl none_left ↦ rw none_left (
            then-Good (Handshake.next_step (record h { output_buffer = rest })) _
              (sent-Good h rest v g some_left none_left) (λ a e g'. g'))
        | inr more ↦ rw more (record {
          stage = subst (λ e. Stage c peer h.role h.step e h.impl) (some_left ∙ sym more) g.stage;
          owner = g.owner;
        })
      ]

  pub copy_bytes_to_send-Good :
      (n : ℕ) (h : Handshake.Handshake)
      → IsValid h
      → Prepared c k p x peer who h
      → Good c k p x peer who (Handshake.copy_bytes_to_send c n h)
  unfolding Handshake.copy_bytes_to_send
  copy_bytes_to_send-Good n h v g = elim (Bool-cases (is_failed h.step)) [
    | inl over ↦ rw over g
    | inr running ↦ elim (Bool-cases (is_empty h.output_buffer)) [
      | inr some_left ↦ rw (running, some_left) (copy_out-Good n h v g some_left)
      | inl none_left ↦
          rw (running, none_left)
            (then-Good (Handshake.bytes_to_send c h) _ (bytes_to_send-Good h g) (λ bytes made g'.
              elim (Bool-cases (is_empty bytes)) [
                | inl nothing ↦ rw nothing g'
                | inr something ↦ rw something (
                    copy_out-Good n _ (bytes_to_send-IsValid c h v) g'
                      (buffered c bytes h made something))
              ]))
    ]
  ]

  Ended-Prepared :
      (h : Handshake.Handshake) (s : Session) (h' : Handshake.Handshake)
      → Prepared c k p x peer who h
      → Ended c k p x peer who h s h'
      → Prepared c k p x peer who h'
  Ended-Prepared h s h' g (same, named) = subst (Prepared c k p x peer who) (sym same) g

  pub session-Good :
      (h : Handshake.Handshake)
      → Prepared c k p x peer who h
      → Good c k p x peer who (Handshake.session c h)
  unfolding Handshake.session
  session-Good h g = elim (Bool-cases (Handshake.finished? h)) [
    | inr early ↦ rw early (refl, g)
    | inl over ↦
        Fine-Good (Handshake.session c h) (Ended c k p x peer who h)
          (session-Fine c k p x peer who h g over) (λ s h' f. Ended-Prepared h s h' g f)
  ]

  pub received_bytes-Good :
      (src : Bytes) (h : Handshake.Handshake)
      → IsValid h
      → Prepared c k p x peer who h
      → Good c k p x peer who (Handshake.received_bytes c src h)
  unfolding Handshake.received_bytes
  received_bytes-Good src h v g = elim (Bool-cases (is_over h.step)) [
    | inl over ↦ rw over g
    | inr running ↦ elim (Bool-cases (byte_count_needed h == 0)) [
      | inl nothing ↦ rw (running, nothing) g
      | inr wanted ↦
          let input : Bytes = h.input_buffer ++ take (accepted_count src h) src in
          let h' : Handshake.Handshake = record h { input_buffer = input } in
          let g' : Prepared c k p x peer who h' = record { stage = g.stage; owner = g.owner } in
          elim (Bool-cases (ltb (length input) (byte_count_needed h))) [
            | inl waiting ↦ rw (running, wanted, waiting) g'
            | inr complete ↦
                let v' = grown-IsValid h input v (fits_still src h running v) in
                rw (running, wanted, complete)
                  (then-Good (Handshake.read_completed c h') _ (read_completed-Good h' v' g')
                    (λ a e g''. g''))
          ]
    ]
  ]
