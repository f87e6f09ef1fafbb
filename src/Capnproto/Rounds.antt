-- ===== src/Capnproto/Rounds.antt =====
-- capnproto/SecretConnection.cc, `runHandshake`: an inner stream that behaves, and what each round over
-- it keeps.
pub mod Calls
pub mod Run
use secret_handshake_capnp.Common.{
  ℕ, ◌≤◌, ◌≡◌, ◌≢◌, refl, Bytes, Bool, true, Option, some, Outcome, ok, fault, Exec, length, arith,
}
use secret_handshake_capnp.Crypto.{Crypto}
use secret_handshake_capnp.Shs.{Session}
use secret_handshake_capnp.Handshake
use secret_handshake_capnp.Handshake.{Role, finished, no_error}
use secret_handshake_capnp.Handshake.Turns.{Fine}
use secret_handshake_capnp.Handshake.Rounds.{rounds, Ready}
use secret_handshake_capnp.Handshake.Final.{Final}
use secret_handshake_capnp.Async.{Reply, returned, of_outcome}
use secret_handshake_capnp.Async.{failed as failed_with}
use secret_handshake_capnp.Async.Ends.{of_stream, of_peer, stream-peer, Ends}
use secret_handshake_capnp.Capnproto.Connection.{
  AsyncIoStream, WrappedStream, is_authorized, on_handshake, has_error,
}

-- An inner stream that returns, or fails with an error of its own; `read` returns just what it was asked
-- for.
pub record IsOrderly {S : Type 0} (io : AsyncIoStream S) : Type 0 where
  pub reads : (n : ℕ) (t : S) → Ends of_stream (λ bytes t'. length bytes ≡ n) (io.read n t)
  pub writes : (bytes : Bytes) (t : S) → Ends of_stream (λ u t'. Unit {0}) (io.write bytes t)

pub reported : (e : Handshake.Error) → e ≢ no_error → has_error e ≡ true
reported e h = ground arith

module _ {S : Type 0} (a : Option (Bytes → Bool)) where
  -- A connection whose handshake is there, and such.
  abbrev pub Holds : (Handshake.Handshake → Type 0) → WrappedStream S → Type 0
  Holds P s = (h : Handshake.Handshake) × (s.handshake ≡ some h) × (s.authorizer ≡ a) × P h

  outcome-Ends :
      {A : Type 0} (P : A → Handshake.Handshake → Type 0) (s : WrappedStream S)
      (r : Outcome A × Handshake.Handshake)
      → s.authorizer ≡ a
      → Fine r P
      → Ends of_peer (λ x. Holds (P x)) (of_outcome r.0, record s { handshake = some r.1 })
  outcome-Ends P s (ok x, h) k f = (h, refl, k, f)
  outcome-Ends P s (fault e, h) k f = absurd f

  pub on_handshake-Ends :
      {A : Type 0} (P : A → Handshake.Handshake → Type 0) (m : Exec Handshake.Handshake A)
      (s : WrappedStream S) (h : Handshake.Handshake)
      → s.handshake ≡ some h
      → s.authorizer ≡ a
      → Fine (m h) P
      → Ends of_peer (λ x. Holds (P x)) (on_handshake m s)
  on_handshake-Ends P m s h is k f = rw is (outcome-Ends P s (m h) k f)

  pub inner-Ends :
      {A : Type 0} (P : A → Type 0) (R : Handshake.Handshake → Type 0) (s : WrappedStream S)
      (r : Reply A × S)
      → Holds R s
      → Ends of_stream (λ x t. P x) r
      → Ends of_peer (λ x s'. P x × Holds R s') (r.0, record s { inner = r.1 })
  inner-Ends P R s (returned x, t) held e = (e, held)
  inner-Ends P R s (failed_with e, t) held allowed = stream-peer e allowed

module _ {S : Type 0} (c : Crypto) (a : Option (Bytes → Bool)) (k p x peer : Bytes)
    (who : Role) where
  -- A handshake that is ready for this many rounds.
  abbrev pub Within : ℕ → WrappedStream S → Type 0
  Within n = Holds a (λ h. Ready c k p x peer who h × (rounds h.step ≤ n))

  -- The session's peer is authorized, and the session is that of a handshake that finished.
  abbrev pub Agreed : Session → WrappedStream S → Type 0
  Agreed session s =
      (is_authorized a session.peer_public_key ≡ true) × Final c k p x peer who session
