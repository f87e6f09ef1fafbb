-- ===== src/Handshake/Trust.antt =====
-- src/SecretHandshake.cc: what a handshake that finished has checked, whatever was called on it, and
-- which faults a caller can meet.
use secret_handshake_capnp.Common.{
  ◌≡◌, ◌⊎◌, refl, subst, Bytes, Bool, true, List, [], ◌∷◌, ◌++◌, Option, none, some, Fault,
  logic_error, assertion_failed, invalid_argument, bad_optional_access, bad_cast, runtime_error,
  undefined_behaviour, out_of_fuel, Outcome, ok, fault, is_empty, length, ◌==◌, arith, Bool-cases,
  inl, inr,
}
use secret_handshake_capnp.Crypto.{Crypto}
use secret_handshake_capnp.Shs
use secret_handshake_capnp.Shs.{Session}
use secret_handshake_capnp.Handshake
use secret_handshake_capnp.Handshake.{
  Context, Role, Step, failed, finished, client, server, is_failed,
}
use secret_handshake_capnp.Handshake.Invariant.{
  Call, to_read, read_done, read_gone, to_send, sent, ask_session, filled, received, copied, forget,
  perform, run, IsValid, perform-IsValid,
}
use secret_handshake_capnp.Handshake.Stages.{Stage, Owns, authorized}
use secret_handshake_capnp.Handshake.Final.{Signed, Final, Final-server, Final-client}
use secret_handshake_capnp.Handshake.Turns.{Prepared, is_finished, failing-Prepared}
use secret_handshake_capnp.Handshake.Calls.{
  Good, expected, read_completed-Good, bytes_to_send-Good, send_completed-Good,
  copy_bytes_to_send-Good, session-Good, received_bytes-Good,
}

module _ (c : Crypto) (k p x peer : Bytes) (who : Role) where
  forget-Good :
      {A : Type 0} (r : Outcome A × Handshake.Handshake)
      → Good c k p x peer who r
      → Good c k p x peer who (forget r)
  forget-Good (ok a, h) g = g
  forget-Good (fault e, h) g = g

  perform-Good :
      (call : Call) (h : Handshake.Handshake)
      → IsValid h
      → Prepared c k p x peer who h
      → Good c k p x peer who (perform c call h)
  unfolding perform Handshake.bytes_to_read Handshake.fill_input Handshake.read_failed
  perform-Good to_read h v g = record { stage = g.stage; owner = g.owner }
  perform-Good read_done h v g = forget-Good _ (read_completed-Good c k p x peer who h v g)
  perform-Good read_gone h v g = failing-Prepared c k p x peer who h g.owner
  perform-Good to_send h v g = forget-Good _ (bytes_to_send-Good c k p x peer who h g)
  perform-Good sent h v g = forget-Good _ (send_completed-Good c k p x peer who h v g)
  perform-Good ask_session h v g = forget-Good _ (session-Good c k p x peer who h g)
  perform-Good (filled bytes) h v g = elim (Bool-cases (length bytes == length h.input_buffer)) [
    | inl whole ↦ rw whole (record { stage = g.stage; owner = g.owner })
    | inr partial ↦ rw partial g
  ]
  perform-Good (received bytes) h v g =
      forget-Good _ (received_bytes-Good c k p x peer who bytes h v g)
  perform-Good (copied n) h v g = forget-Good _ (copy_bytes_to_send-Good c k p x peer who n h v g)

  Good-Prepared :
      {A : Type 0} (r : Outcome A × Handshake.Handshake)
      → Good c k p x peer who r
      → Prepared c k p x peer who r.1
  Good-Prepared (ok a, h) g = g
  Good-Prepared (fault e, h) g = g.1

  run-Prepared :
      (calls : List Call) (h : Handshake.Handshake)
      → IsValid h
      → Prepared c k p x peer who h
      → IsValid (run c calls h) × Prepared c k p x peer who (run c calls h)
  unfolding run
  run-Prepared [] h v g = (v, g)
  run-Prepared (call ∷ calls) h v g =
      run-Prepared calls (perform c call h).1 (perform-IsValid c call h v)
        (Good-Prepared (perform c call h) (perform-Good call h v g))

expected_lem :
    (e : Fault) (s : Step)
    → expected e s ≡ true
    → (e ≡ logic_error) ⊎ ((e ≡ assertion_failed) × (is_failed s ≡ true))
expected_lem logic_error s h = inl refl
expected_lem assertion_failed s h = inr (refl, h)
expected_lem invalid_argument s h = cc
expected_lem bad_optional_access s h = cc
expected_lem bad_cast s h = cc
expected_lem runtime_error s h = cc
expected_lem undefined_behaviour s h = cc
expected_lem out_of_fuel s h = cc

Good-expected :
    {A : Type 0} (c : Crypto) (k p x peer : Bytes) (who : Role)
    (r : Outcome A × Handshake.Handshake) (e : Fault)
    → Good c k p x peer who r
    → r.0 ≡ fault e
    → expected e r.1.step ≡ true
Good-expected c k p x peer who (ok a, h) e g f = cc
Good-expected c k p x peer who (fault e', h) e g f = let same : e' ≡ e = cc in rw (← same) g.0

-- A new handshake, of a client that asks for a server, or of a server with an authorizer or without.
pub data Start : Type 0 where
  as_client : Bytes → Start
  as_server : Option (Bytes → Bool) → Start

unfoldable pub start : Crypto → Context → Bytes → Start → Handshake.Handshake
start c context ephemeral (as_client key) = Handshake.create_client c context key ephemeral
start c context ephemeral (as_server none) = Handshake.create_server c context ephemeral
start c context ephemeral (as_server (some accepts)) =
    Handshake.set_client_authorizer c accepts (Handshake.create_server c context ephemeral)

abbrev pub role_of : Start → Role
role_of (as_client key) = client
role_of (as_server a) = server a

abbrev pub asked_for : Start → Bytes
asked_for (as_client key) = key
asked_for (as_server a) = []

-- What the session of a finished handshake names as the peer.
session-peer :
    (c : Crypto) (h : Handshake.Handshake) (s : Session)
    → (Handshake.session c h).0 ≡ ok s
    → (Handshake.finished? h ≡ true) × (h.impl.peer_public_key ≡ some s.peer_public_key)
unfolding Handshake.session Shs.get_outcome
session-peer c h s made = ground arith

module _ (c : Crypto) (context : Context) (ephemeral : Bytes) where
  pub start-Prepared :
      (s : Start)
      → IsValid (start c context ephemeral s)
        × Prepared c context.app_id context.public_key ephemeral
            (asked_for s)
            (role_of s)
            (start c context ephemeral s)
  unfolding start Handshake.create_client Handshake.create_server Handshake.create_handshake
      Handshake.set_client_authorizer Shs.create Shs.set_server_public_key
  start-Prepared (as_client key) = (
    record { fits = λ _. omega arith; pending = λ _ h. cc; clean = λ _. refl; reported = λ h. cc },
    record { stage = refl; owner = (refl, (refl, refl, refl, refl)) },
  )
  start-Prepared (as_server none) = (
    record { fits = λ _. omega arith; pending = λ _ h. cc; clean = λ _. refl; reported = λ h. cc },
    record { stage = tt; owner = (refl, (refl, refl, refl, refl)) },
  )
  start-Prepared (as_server (some accepts)) = (
    record { fits = λ _. omega arith; pending = λ _ h. cc; clean = λ _. refl; reported = λ h. cc },
    record { stage = tt; owner = (refl, (refl, refl, refl, refl)) },
  )

  -- The handshake after any calls.
  abbrev after : Start → List Call → Handshake.Handshake
  after s calls = run c calls (start c context ephemeral s)

  reached :
      (s : Start) (calls : List Call)
      → IsValid (after s calls)
        × Prepared c context.app_id context.public_key ephemeral
            (asked_for s)
            (role_of s)
            (after s calls)
  reached s calls =
      let (v, g) = start-Prepared s in
      run-Prepared c context.app_id context.public_key ephemeral (asked_for s) (role_of s) calls
        (start c context ephemeral s) v g

  -- Whatever was called on a new handshake, with whatever bytes: a further call returns, or throws the
  -- `logic_error` of a call that is out of order, or fails the assertion of `nextStep`, and that only
  -- once the handshake has failed. No empty optional is read, neither by `value()` nor by `*`.
  pub calls_fault :
      (s : Start) (calls : List Call) (call : Call) (e : Fault)
      → let (result, h) = perform c call (run c calls (start c context ephemeral s)) in
        result ≡ fault e → (e ≡ logic_error) ⊎ ((e ≡ assertion_failed) × (is_failed h.step ≡ true))
  calls_fault s calls call e f =
      let (v, g) = reached s calls in
      let good =
        perform-Good c context.app_id context.public_key ephemeral (asked_for s) (role_of s) call
          (after s calls) v g in
      expected_lem e _ (
        Good-expected c context.app_id context.public_key ephemeral (asked_for s) (role_of s)
          (perform c call (after s calls)) e good f)

  -- What a finished handshake can count on.
  finished-Stage :
      (s : Start) (calls : List Call)
      → Handshake.finished? (after s calls) ≡ true
      → let h = after s calls in
        Stage c (asked_for s) (role_of s) finished (is_empty h.output_buffer) h.impl
        × Owns c context.app_id context.public_key ephemeral h.impl
  unfolding Handshake.finished?
  finished-Stage s calls over =
      let (v, g) = reached s calls in
      let h : Handshake.Handshake = after s calls in
      let last : h.step ≡ finished = is_finished h.step over in
      (
        subst (λ r. Stage c (asked_for s) r finished (is_empty h.output_buffer) h.impl) g.owner.0
            (subst (λ t. Stage c (asked_for s) h.role t (is_empty h.output_buffer) h.impl) last
              g.stage),
        g.owner.1,
      )

  session-Final :
      (s : Start) (calls : List Call) (session : Session)
      → (Handshake.session c (after s calls)).0 ≡ ok session
      → Final c context.app_id context.public_key ephemeral (asked_for s) (role_of s) session
  session-Final s calls session made =
      let (over, named) = session-peer c (after s calls) session made in
      let (stage, owns) = finished-Stage s calls over in
      record {
        impl = (after s calls).impl;
        sent = is_empty (after s calls).output_buffer;
        stage = stage;
        owns = owns;
        named = named;
      }

  -- Whatever was called on a server's handshake, with whatever bytes: if it hands out a session, then
  -- the authorizer, if there is one, accepts the client's key that the session names, and this key
  -- has signed the app ID, the server's public key and the hash of a·b, with the server's own
  -- ephemeral key of this handshake in it.
  pub server_session_lem :
      (a : Option (Bytes → Bool)) (calls : List Call) (s : Session)
      → (Handshake.session c (run c calls (start c context ephemeral (as_server a)))).0 ≡ ok s
      → (authorized a (some s.peer_public_key) ≡ true)
        × Signed c context.app_id ephemeral s.peer_public_key context.public_key
  server_session_lem a calls s made =
      Final-server c context.app_id context.public_key ephemeral [] a s
        (session-Final (as_server a) calls s made)

  -- Whatever was called on a client's handshake, with whatever bytes: if it hands out a session, then
  -- the session names the server that was asked for, and this server has signed the app ID, an
  -- authentication that ends with the client's public key, and the hash of a·b, with the client's own
  -- ephemeral key of this handshake in it.
  pub client_session_lem :
      (peer : Bytes) (calls : List Call) (s : Session)
      → (Handshake.session c (run c calls (start c context ephemeral (as_client peer)))).0 ≡ ok s
      → (s.peer_public_key ≡ peer)
        × ((mine : Bytes) × Signed c context.app_id ephemeral peer (mine ++ context.public_key))
  client_session_lem peer calls s made =
      Final-client c context.app_id context.public_key ephemeral peer s
        (session-Final (as_client peer) calls s made)
