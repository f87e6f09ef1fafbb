-- ===== src/Capnproto/Connect.antt =====
-- capnproto/SecretConnection.cc, `runHandshake` and `connect`: which connections come about, and that
-- the handshake's recursion ends.
use secret_handshake_capnp.Common.{
  ℕ, zero, suc, ◌≡◌, refl, sym, ap, ◌∙◌, Bytes, Bool, true, false, not, Option, none, some, Exec,
  is_empty, Bool-cases, inl, inr, length, arith, if◌then◌else◌,
}
use secret_handshake_capnp.Crypto.{Crypto}
use secret_handshake_capnp.Shs.{Session}
use secret_handshake_capnp.Handshake
use secret_handshake_capnp.Stream.Box.{compact, encryptor, decryptor}
use secret_handshake_capnp.Stream.Buffer.{new_stream}
use secret_handshake_capnp.Async.{Reply, returned, failed, Async, reply_then}
use secret_handshake_capnp.Capnproto.Connection.{
  accept_session, AsyncIoStream, WrappedStream, is_authorized, on_handshake, on_inner, plain, look,
  connected, give_up, send_some, read_some, run_handshake, connect,
}

-- The session of a handshake that ended, if it did, is of an authorized peer.
abbrev Allowed : {S : Type 0} → Option (Bytes → Bool) → Reply Session × WrappedStream S → Type 0
Allowed a (returned session, s) =
    (is_authorized a session.peer_public_key ≡ true) × (s.handshake ≡ none)
Allowed a (failed e, s) = Unit {0}

-- What `connect` has set up when it returns.
pub record Connected {S : Type 0} (a : Option (Bytes → Bool)) (s : WrappedStream S) : Type 0 where
  pub current : Session
  pub session_is : s.session ≡ some current
  pub allowed : is_authorized a current.peer_public_key ≡ true
  pub encrypts : s.encryptor ≡ some (new_stream (encryptor current compact))
  pub decrypts : s.decryptor ≡ some (new_stream (decryptor current compact))
  pub handshake_gone : s.handshake ≡ none

module _ {S : Type 0} where
  Keeps : Option (Bytes → Bool) → WrappedStream S → Type 0
  Keeps a s = s.authorizer ≡ a

  on_handshake-Keeps :
      {A : Type 0} (a : Option (Bytes → Bool)) (m : Exec Handshake.Handshake A)
      (s : WrappedStream S)
      → s.authorizer ≡ a
      → (on_handshake m s).1.authorizer ≡ a
  on_handshake-Keeps a m s k = ground arith

  then-Keeps :
      {A B : Type 0} (a : Option (Bytes → Bool)) (r : Reply A × WrappedStream S)
      (f : A → Async (WrappedStream S) B)
      → r.1.authorizer ≡ a
      → ((x : A) (s : WrappedStream S) → s.authorizer ≡ a → (f x s).1.authorizer ≡ a)
      → (reply_then r f).1.authorizer ≡ a
  then-Keeps a (returned x, s) f k g = g x s k
  then-Keeps a (failed e, s) f k g = k

  then-Allowed :
      {A : Type 0} (a : Option (Bytes → Bool)) (r : Reply A × WrappedStream S)
      (f : A → Async (WrappedStream S) Session)
      → r.1.authorizer ≡ a
      → ((x : A) (s : WrappedStream S) → s.authorizer ≡ a → Allowed a (f x s))
      → Allowed a (reply_then r f)
  then-Allowed a (returned x, s) f k g = g x s k
  then-Allowed a (failed e, s) f k g = tt

  either-Allowed :
      (a : Option (Bytes → Bool)) (test : Bool) (f g : Async (WrappedStream S) Session)
      (s : WrappedStream S)
      → Allowed a (f s)
      → Allowed a (g s)
      → Allowed a ((if test then f else g) s)
  either-Allowed a true f g s p q = p
  either-Allowed a false f g s p q = q

module _ (c : Crypto) {S : Type 0} (io : AsyncIoStream S) (a : Option (Bytes → Bool)) where
  accept-Allowed :
      (session : Session) (s : WrappedStream S)
      → s.authorizer ≡ a
      → Allowed a (accept_session c io session s)
  accept-Allowed session s k =
      elim (Bool-cases (is_authorized s.authorizer session.peer_public_key)) [
        | inl accepted ↦
            rw accepted (ap (λ x. is_authorized x session.peer_public_key) (sym k) ∙ accepted, refl)
        | inr refused ↦ rw refused tt
      ]

  give_up-Allowed : (s : WrappedStream S) → Allowed a (give_up c io s)
  give_up-Allowed s = ground arith

  send_some-Keeps :
      (bytes : Bytes) (s : WrappedStream S)
      → s.authorizer ≡ a
      → (send_some c io bytes s).1.authorizer ≡ a
  send_some-Keeps bytes s k =
      then-Keeps a (on_inner (io.write bytes) s) _ k
        (λ x s'. on_handshake-Keeps a (Handshake.send_completed c) s')

  read_some-Keeps :
      (bytes : Bytes) (s : WrappedStream S)
      → s.authorizer ≡ a
      → (read_some c io bytes s).1.authorizer ≡ a
  read_some-Keeps bytes s k = then-Keeps a (on_inner (io.read (length bytes)) s) _ k λ x s' k'.
      then-Keeps a (on_handshake (plain (λ h. (tt, Handshake.fill_input x h))) s') _
        (on_handshake-Keeps a (plain (λ h. (tt, Handshake.fill_input x h))) s' k')
        (λ y s''. on_handshake-Keeps a (Handshake.read_completed c) s'')

  run_handshake-Allowed :
      (fuel : ℕ) (s : WrappedStream S) → s.authorizer ≡ a → Allowed a (run_handshake c io fuel s)
  unfolding run_handshake
  run_handshake-Allowed zero s k = tt
  run_handshake-Allowed (suc fuel) s k =
      let again = run_handshake-Allowed fuel in
      then-Allowed a (on_handshake (look Handshake.finished?) s) _
        (on_handshake-Keeps a (look Handshake.finished?) s k)
        λ finished s1 k1.
          either-Allowed a finished _ _ s1
            (then-Allowed a (on_handshake (Handshake.session c) s1) _
              (on_handshake-Keeps a (Handshake.session c) s1 k1) accept-Allowed)
            (then-Allowed a (on_handshake (Handshake.bytes_to_send c) s1) _
              (on_handshake-Keeps a (Handshake.bytes_to_send c) s1 k1)
              λ to_send s2 k2.
                either-Allowed a (not (is_empty to_send)) _ _ s2
                  (then-Allowed a (send_some c io to_send s2) _ (send_some-Keeps to_send s2 k2)
                    (λ _. again))
                  (then-Allowed a (on_handshake (plain Handshake.bytes_to_read) s2) _
                    (on_handshake-Keeps a (plain Handshake.bytes_to_read) s2 k2)
                    λ to_read s3 k3.
                      either-Allowed a (not (is_empty to_read)) _ _ s3
                        (then-Allowed a (read_some c io to_read s3) _
                          (read_some-Keeps to_read s3 k3) (λ _. again))
                        (give_up-Allowed s3)))

  connected-Connected :
      (r : Reply Session × WrappedStream S)
      → Allowed a r
      → (connected c io r).0 ≡ returned tt
      → Connected a (connected c io r).1
  connected-Connected (returned session, s) (accepted, gone) returns = record {
    current = session;
    session_is = refl;
    allowed = accepted;
    encrypts = refl;
    decrypts = refl;
    handshake_gone = gone;
  }
  connected-Connected (failed e, s) v returns = cc

-- When `connect` returns without an error, the session is of a peer whose key the authorizer accepts,
-- if there is one; both directions of the stream encrypt with the keys and nonces of that session, and
-- the handshake object is gone.
pub connect-Connected :
    (c : Crypto) {S : Type 0} (io : AsyncIoStream S) (fuel : ℕ) (s : WrappedStream S)
    → (connect c io fuel s).0 ≡ returned tt
    → Connected s.authorizer (connect c io fuel s).1
unfolding connect
connect-Connected c io fuel s returns =
    connected-Connected c io s.authorizer (run_handshake c io fuel s)
      (run_handshake-Allowed c io s.authorizer fuel s refl) returns
