-- ===== src/Crouton/Settles.antt =====
-- crouton/SecretHandshakeStream.cc: how a new `SecretHandshake` ends.
use secret_handshake_capnp.Common.{ℕ, ◌≤◌, ◌≡◌, refl, Bytes, false, Option, none, some, arith}
use secret_handshake_capnp.Crypto.{Crypto, IsCrypto}
use secret_handshake_capnp.Shs.{Session}
use secret_handshake_capnp.Handshake
use secret_handshake_capnp.Handshake.{Context, is_over}
use secret_handshake_capnp.Handshake.Invariant.{IsValid}
use secret_handshake_capnp.Handshake.Turns.{Prepared}
use secret_handshake_capnp.Handshake.Rounds.{rounds}
use secret_handshake_capnp.Handshake.Shown.{Shown, side, Final-Shown}
use secret_handshake_capnp.Handshake.Trust.{
  as_client, as_server, start, role_of, asked_for, start-Prepared,
}
use secret_handshake_capnp.Async.{Reply, returned}
use secret_handshake_capnp.Async.{failed as failed_with}
use secret_handshake_capnp.Async.Ends.{Ends}
use secret_handshake_capnp.Crouton.Shaking.{IoStream, Link, new_handshake, handshake}
use secret_handshake_capnp.Crouton.Rounds.{IsOrderly, of_handshake}
use secret_handshake_capnp.Crouton.Rounds.Loop.{Concluded, handshake-Concluded}

started :
    (c : Crypto) {S : Type 0} (io : IoStream S) (context : Context) (x : Bytes) (key : Option Bytes)
    → let h = new_handshake c io context key x in
      IsValid h
      × Prepared c context.app_id context.public_key x (asked_for (side key)) (role_of (side key)) h
      × (is_over h.step ≡ false)
      × (rounds h.step ≡ 5)
unfolding start Handshake.create_client Handshake.create_server Handshake.create_handshake
started c io context x (some key) =
    let (v, g) = start-Prepared c context x (as_client key) in (v, g, refl, refl)
started c io context x none =
    let (v, g) = start-Prepared c context x (as_server none) in (v, g, refl, refl)

module _ {c : Crypto} (laws : IsCrypto c) {S : Type 0} {io : IoStream S} (orderly : IsOrderly io)
    (context : Context) (x : Bytes) (key : Option Bytes) where
  -- The handshake object is gone, and the session is of a peer that has signed what it signs.
  abbrev pub Ended : Reply Session × Link S → Type 0
  Ended = Ends of_handshake λ session l. (l.handshake ≡ none) × Shown c context x key session

  shown-Ended :
      (r : Reply Session × Link S)
      → Ends of_handshake
          (Concluded laws orderly context.app_id context.public_key x
            (asked_for (side key))
            (role_of (side key)))
          r
      → Ended r
  shown-Ended (returned session, l) (gone, f) = (gone, Final-Shown c context x key session f)
  shown-Ended (failed_with e, l) allowed = allowed

  -- With primitives that behave as documented, over an inner stream that only returns or fails with
  -- errors of its own, and whose `read` returns no more than it was asked for: five rounds are enough for the loop of `handshake`. It then returns a
  -- session whose peer has signed what a client or a server signs, or it ends with the handshake's own
  -- error or one of the inner stream. So nothing is thrown, no assertion fails and no empty optional is
  -- read, whatever bytes arrive and wherever the stream ends.
  pub handshake-Ended :
      (n : ℕ) (t : S)
      → 5 ≤ n
      → Ended (
          handshake c io n
            (record { handshake = some (new_handshake c io context key x); stream = some t }))
  handshake-Ended n t enough =
      let h : Handshake.Handshake = new_handshake c io context key x in
      let (v, g, running, five) = started c io context x key in
      shown-Ended _ (
        handshake-Concluded laws orderly context.app_id context.public_key x (asked_for (side key))
          (role_of (side key)) n h t (v, g) running (omega arith))
