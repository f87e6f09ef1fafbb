-- ===== src/Handshake/Invariant.antt =====
-- src/SecretHandshake.cc: what every sequence of calls keeps true of a handshake.
use secret_handshake_capnp.Common.{
  ℕ, ◌≤◌, min, ◌≡◌, ◌≢◌, refl, Bytes, Bool, true, false, List, [], ◌∷◌, length, is_empty, take,
  drop, drop_all, Bool-cases, inl, inr, length-append, length-take, length-resize, Outcome, ok,
  fault, arith, if◌then◌else◌, and_then_inv, ◌++◌, ◌==◌, ltb,
}
use secret_handshake_capnp.Crypto.{Crypto}
use secret_handshake_capnp.Shs
use secret_handshake_capnp.Handshake
use secret_handshake_capnp.Handshake.{
  Step, failed, client_challenge, server_challenge, client_auth, server_ack, finished, Role, client,
  server, is_over, is_failed, bytes_wanted, byte_count_needed, no_error, accepted_count,
}
use secret_handshake_capnp.Handshake.Receive.{bytes_wanted-le}

-- A call of a public method. The buffer that `bytesToRead` returned may be filled at any time.
pub data Call : Type 0 where
  to_read read_done read_gone to_send sent ask_session : Call
  filled received : Bytes → Call
  copied : ℕ → Call

abbrev pub forget :
    {A : Type 0} → Outcome A × Handshake.Handshake → Outcome (Unit {0}) × Handshake.Handshake
forget (ok a, h) = (ok tt, h)
forget (fault e, h) = (fault e, h)

unfoldable pub perform :
    Crypto → Call → Handshake.Handshake → Outcome (Unit {0}) × Handshake.Handshake
perform c to_read h = (ok tt, (Handshake.bytes_to_read h).1)
perform c read_done h = forget (Handshake.read_completed c h)
perform c read_gone h = (ok tt, Handshake.read_failed h)
perform c to_send h = forget (Handshake.bytes_to_send c h)
perform c sent h = forget (Handshake.send_completed c h)
perform c ask_session h = forget (Handshake.session c h)
perform c (filled bytes) h =
    (ok tt, if length bytes == length h.input_buffer then Handshake.fill_input bytes h else h)
perform c (received bytes) h = forget (Handshake.received_bytes c bytes h)
perform c (copied n) h = forget (Handshake.copy_bytes_to_send c n h)

unfoldable pub run : Crypto → List Call → Handshake.Handshake → Handshake.Handshake
run c [] h = h
run c (call ∷ calls) h = run c calls (perform c call h).1

-- The steps at which a role has something to send.
abbrev pub sends : Role → Step → Bool
sends client client_challenge = true
sends client client_auth = true
sends (server a) server_challenge = true
sends (server a) server_ack = true
sends _ _ = false

-- Until it fails, a handshake has no error, no more input than it asked for, and output only at its
-- own steps; once it has failed, it has an error.
pub record IsValid (h : Handshake.Handshake) : Type 0 where
  pub fits : h.step ≢ failed → length h.input_buffer ≤ byte_count_needed h
  pub pending : h.step ≢ failed → is_empty h.output_buffer ≡ false → sends h.role h.step ≡ true
  pub clean : h.step ≢ failed → h.error ≡ no_error
  pub reported : h.step ≡ failed → h.error ≢ no_error

pub sends_nothing_wanted : (r : Role) (s : Step) → sends r s ≡ true → bytes_wanted r s ≡ 0
sends_nothing_wanted client s h = ground arith
sends_nothing_wanted (server a) s h = ground arith

-- Where nothing is wanted, no bytes are accepted.
pub process_unwanted :
    (c : Crypto) (r : Role) (s : Step) (m : Bytes) (x : Shs.Shs)
    → bytes_wanted r s ≡ 0
    → Handshake.process c r s m x ≡ (ok false, x)
unfolding Handshake.process
process_unwanted c client s m x h = ground arith
process_unwanted c (server a) s m x h = ground arith

-- Where nothing is to be sent, nothing is made.
pub produce_unsent :
    (c : Crypto) (r : Role) (s : Step) (x : Shs.Shs)
    → sends r s ≡ false
    → Handshake.produce c r s x ≡ (ok [], x)
unfolding Handshake.produce
produce_unsent c client s x h = ground arith
produce_unsent c (server a) s x h = ground arith

-- The output buffer changes to one that is empty, or that was not empty before.
pub shrunk-IsValid :
    (h : Handshake.Handshake) (o : Bytes)
    → IsValid h
    → (is_empty o ≡ false → is_empty h.output_buffer ≡ false)
    → IsValid (record h { output_buffer = o })
shrunk-IsValid h o v less = record {
  fits = v.fits;
  pending = λ p q. v.pending p (less q);
  clean = v.clean;
  reported = v.reported;
}

-- The input buffer changes to one that is not too long.
pub grown-IsValid :
    (h : Handshake.Handshake) (i : Bytes)
    → IsValid h
    → length i ≤ byte_count_needed h
    → IsValid (record h { input_buffer = i })
grown-IsValid h i v fits = record {
  fits = λ _. fits;
  pending = v.pending;
  clean = v.clean;
  reported = v.reported;
}

drop-nonempty : (n : ℕ) (xs : Bytes) → is_empty (drop n xs) ≡ false → is_empty xs ≡ false
drop-nonempty n [] h = rw (drop_all {A = ℕ} n [] (omega arith)) at h
drop-nonempty n (x ∷ xs) h = refl

-- What `receivedBytes` takes fits into the space that is left.
pub fits_still :
    (src : Bytes) (h : Handshake.Handshake)
    → is_over h.step ≡ false
    → IsValid h
    → length (h.input_buffer ++ take (accepted_count src h) src) ≤ byte_count_needed h
fits_still src h running v =
    let fits : length h.input_buffer ≤ byte_count_needed h = v.fits (ground arith) in
    omega (
      arith,
      length-append h.input_buffer (take (accepted_count src h) src),
      length-take (accepted_count src h) src,
      bytes_wanted-le h.role h.step,
    )

forget-state : {A : Type 0} (r : Outcome A × Handshake.Handshake) → (forget r).1 ≡ r.1
forget-state (ok a, h) = refl
forget-state (fault e, h) = refl

module _ (c : Crypto) where
  pub read_failed-IsValid : (h : Handshake.Handshake) → IsValid (Handshake.read_failed h)
  unfolding Handshake.read_failed
  read_failed-IsValid h = record {
    fits = ground arith;
    pending = ground arith;
    clean = ground arith;
    reported = ground arith;
  }

  pub read_completed-IsValid :
      (h : Handshake.Handshake) → IsValid h → IsValid (Handshake.read_completed c h).1
  unfolding Handshake.read_completed Handshake.conclude Handshake.next_step Handshake.fail
  read_completed-IsValid h v = record {
    fits = ground arith;
    pending = ground (
      arith,
      process_unwanted c h.role h.step h.input_buffer h.impl,
      sends_nothing_wanted h.role h.step,
    );
    clean = ground arith;
    reported = ground arith;
  }

  pub bytes_to_read-IsValid :
      (h : Handshake.Handshake) → IsValid h → IsValid (Handshake.bytes_to_read h).1
  unfolding Handshake.bytes_to_read
  bytes_to_read-IsValid h v = record {
    fits = λ p. omega (arith, length-resize (byte_count_needed h) h.input_buffer);
    pending = v.pending;
    clean = v.clean;
    reported = v.reported;
  }

  fill_input-IsValid :
      (bytes : Bytes) (h : Handshake.Handshake)
      → IsValid h
      → IsValid (if length bytes == length h.input_buffer then Handshake.fill_input bytes h else h)
  unfolding Handshake.fill_input
  fill_input-IsValid bytes h v = record {
    fits = ground arith;
    pending = ground arith;
    clean = ground arith;
    reported = ground arith;
  }

  next_step-IsValid :
      (h : Handshake.Handshake)
      → IsValid h
      → (h.step ≢ failed → sends h.role h.step ≡ true)
      → is_empty h.output_buffer ≡ true
      → IsValid (Handshake.next_step h).1
  unfolding Handshake.next_step
  next_step-IsValid h v s e = record {
    fits = ground (arith, sends_nothing_wanted h.role h.step);
    pending = ground arith;
    clean = ground arith;
    reported = ground arith;
  }

  pub bytes_to_send-IsValid :
      (h : Handshake.Handshake) → IsValid h → IsValid (Handshake.bytes_to_send c h).1
  unfolding Handshake.bytes_to_send
  bytes_to_send-IsValid h v = record {
    fits = ground arith;
    pending = ground (arith, produce_unsent c h.role h.step h.impl);
    clean = ground arith;
    reported = ground arith;
  }

  pub send_completed-IsValid :
      (h : Handshake.Handshake) → IsValid h → IsValid (Handshake.send_completed c h).1
  unfolding Handshake.send_completed
  send_completed-IsValid h v = elim (Bool-cases (is_empty h.output_buffer)) [
    | inl none_left ↦ rw none_left v
    | inr some_left ↦ rw some_left (
        next_step-IsValid (record h { output_buffer = [] }) (shrunk-IsValid h [] v (λ p. some_left))
          (λ p. v.pending p some_left) refl)
  ]

  copy_out-IsValid :
      (n : ℕ) (h : Handshake.Handshake)
      → IsValid h
      → is_empty h.output_buffer ≡ false
      → IsValid (Handshake.copy_out c n h).1
  unfolding Handshake.copy_out
  copy_out-IsValid n h v some_left =
      let rest : Bytes = drop (min (length h.output_buffer) n) h.output_buffer in
      let v' : IsValid (record h { output_buffer = rest }) =
        shrunk-IsValid h rest v (λ _. some_left) in
      elim (Bool-cases (is_empty rest)) [
        | inl none_left ↦
            let moved = next_step-IsValid _ v' (λ p. v.pending p some_left) none_left in
            rw none_left (
              and_then_inv IsValid (Handshake.next_step (record h { output_buffer = rest })) _ moved
                (λ a e. moved))
        | inr more ↦ rw more v'
      ]

  pub buffered :
      (bytes : Bytes) (h : Handshake.Handshake)
      → (Handshake.bytes_to_send c h).0 ≡ ok bytes
      → is_empty bytes ≡ false
      → is_empty (Handshake.bytes_to_send c h).1.output_buffer ≡ false
  unfolding Handshake.bytes_to_send
  buffered bytes h made some_made = ground arith

  copy_bytes_to_send-IsValid :
      (n : ℕ) (h : Handshake.Handshake) → IsValid h → IsValid (Handshake.copy_bytes_to_send c n h).1
  unfolding Handshake.copy_bytes_to_send
  copy_bytes_to_send-IsValid n h v = elim (Bool-cases (is_failed h.step)) [
    | inl over ↦ rw over v
    | inr running ↦ elim (Bool-cases (is_empty h.output_buffer)) [
      | inl none_left ↦
          let v' = bytes_to_send-IsValid h v in
          rw (running, none_left)
            (and_then_inv IsValid (Handshake.bytes_to_send c h) _ v' (λ bytes made.
              elim (Bool-cases (is_empty bytes)) [
                | inl nothing ↦ rw nothing v'
                | inr something ↦
                    rw something (copy_out-IsValid n _ v' (buffered bytes h made something))
              ]))
      | inr some_left ↦ rw (running, some_left) (copy_out-IsValid n h v some_left)
    ]
  ]

  session-IsValid : (h : Handshake.Handshake) → IsValid h → IsValid (Handshake.session c h).1
  unfolding Handshake.session
  session-IsValid h v = record {
    fits = ground arith;
    pending = ground arith;
    clean = ground arith;
    reported = ground arith;
  }

  received_bytes-IsValid :
      (src : Bytes) (h : Handshake.Handshake)
      → IsValid h
      → IsValid (Handshake.received_bytes c src h).1
  unfolding Handshake.received_bytes
  received_bytes-IsValid src h v = elim (Bool-cases (is_over h.step)) [
    | inl over ↦ rw over v
    | inr running ↦ elim (Bool-cases (byte_count_needed h == 0)) [
      | inl nothing ↦ rw (running, nothing) v
      | inr wanted ↦
          let input : Bytes = h.input_buffer ++ take (accepted_count src h) src in
          let v' : IsValid (record h { input_buffer = input }) =
            grown-IsValid h input v (fits_still src h running v) in
          elim (Bool-cases (ltb (length input) (byte_count_needed h))) [
            | inl waiting ↦ rw (running, wanted, waiting) v'
            | inr complete ↦
                let done = read_completed-IsValid (record h { input_buffer = input }) v' in
                rw (running, wanted, complete)
                  (and_then_inv IsValid
                    (Handshake.read_completed c (record h { input_buffer = input })) _ done
                    (λ a e. done))
          ]
    ]
  ]

  -- No sequence of calls takes a handshake out of its invariant.
  pub perform-IsValid :
      (call : Call) (h : Handshake.Handshake) → IsValid h → IsValid (perform c call h).1
  unfolding perform
  perform-IsValid to_read h v = bytes_to_read-IsValid h v
  perform-IsValid read_done h v = rw forget-state (read_completed-IsValid h v)
  perform-IsValid read_gone h v = read_failed-IsValid h
  perform-IsValid to_send h v = rw forget-state (bytes_to_send-IsValid h v)
  perform-IsValid sent h v = rw forget-state (send_completed-IsValid h v)
  perform-IsValid ask_session h v = rw forget-state (session-IsValid h v)
  perform-IsValid (filled bytes) h v = fill_input-IsValid bytes h v
  perform-IsValid (received bytes) h v = rw forget-state (received_bytes-IsValid bytes h v)
  perform-IsValid (copied n) h v = rw forget-state (copy_bytes_to_send-IsValid n h v)

  -- Whatever the public methods are called with and in whatever order, by a caller that fills the
  -- buffer of `bytesToRead` up to its size at most, a valid handshake stays valid: as long as it
  -- has not failed, the input buffer holds no more bytes than the step needs, and there is output only
  -- at a step that sends; and it has failed exactly if there is an error.
  pub run-IsValid :
      (calls : List Call) (h : Handshake.Handshake) → IsValid h → IsValid (run c calls h)
  unfolding run
  run-IsValid [] h v = v
  run-IsValid (call ∷ calls) h v = run-IsValid calls _ (perform-IsValid call h v)
