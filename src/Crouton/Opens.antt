-- ===== src/Crouton/Opens.antt =====
-- crouton/SecretHandshakeStream.cc, `open`: the stream after it, on success and on each error.
use secret_handshake_capnp.Common.{
  ℕ, ◌≡◌, refl, Bool, true, false, Bytes, Option, some, if◌then◌else◌,
}
use secret_handshake_capnp.Crypto.{Crypto}
use secret_handshake_capnp.Shs.{Session}
use secret_handshake_capnp.Stream.Box.{compact, encryptor, decryptor}
use secret_handshake_capnp.Stream.Buffer.{new_stream}
use secret_handshake_capnp.Async.{
  Failure, Reply, returned, failed, Async, ◌>>◌, reply_then, is_fatal, caught, no_throw,
}
use secret_handshake_capnp.Crouton.Shaking.{IoStream, Link, on_stream, handshake}
use secret_handshake_capnp.Crouton.Wrapped.{
  SecretHandshakeStream, notify_closed, on_link, opened_with, open_stream, notices_after,
  authorize_by,
}

-- This session keys both directions, and names the peer.
pub record Opened {S : Type 0} (current : Session) (s : SecretHandshakeStream S) : Type 0 where
  pub is_open : s.opened ≡ true
  pub peer : s.peer_public_key ≡ current.peer_public_key
  pub encrypts : s.writer ≡ some (new_stream (encryptor current compact))
  pub decrypts : s.reader ≡ some (new_stream (decryptor current compact))

-- A stream that is as it was, but for what it is linked to and the notices given.
pub record Unopened {S : Type 0} (s s' : SecretHandshakeStream S) : Type 0 where
  pub as_before : s'.opened ≡ s.opened
  pub same_writer : s'.writer ≡ s.writer
  pub same_reader : s'.reader ≡ s.reader
  pub same_peer : s'.peer_public_key ≡ s.peer_public_key

-- What is left of a stream, by what the handshake gave.
abbrev pub OpensOrNot :
    {S : Type 0}
    → Reply Session
    → SecretHandshakeStream S
    → Reply (Unit {0}) × SecretHandshakeStream S
    → Type 0
OpensOrNot (returned session) s (returned a, s') = Opened session s'
OpensOrNot (failed e) s (failed e', s') = Unopened s s'
OpensOrNot r s result = ⊥

-- The handshake, after its authorizer was set to the stream's delegate.
abbrev pub delegated_handshake :
    Crypto → {S : Type 0} → IoStream S → ℕ → Option (Bytes → Bool) → Async (Link S) Session
delegated_handshake c io fuel delegate = authorize_by c io delegate >> handshake c io fuel

module _ (c : Crypto) {S : Type 0} (io : IoStream S) (s : SecretHandshakeStream S) where
  abbrev linked : Link S → ℕ → SecretHandshakeStream S
  linked l n = record s { link = l; notices = n }

  linked-Unopened : (l : Link S) (n : ℕ) → Unopened s (linked l n)
  linked-Unopened l n = record {
    as_before = refl;
    same_writer = refl;
    same_reader = refl;
    same_peer = refl;
  }

  -- The reply of the inner stream that is closed after a failed handshake.
  closed-OpensOrNot :
      (e : Failure) (r : Reply (Unit {0}) × Link S)
      → OpensOrNot
          (failed e)
          s
          (reply_then (r.0, record s { link = r.1 }) λ _ s'. (failed e, notify_closed c io s'))
  closed-OpensOrNot e (returned a, l) = linked-Unopened l (notices_after s.delegate s.notices)
  closed-OpensOrNot e (failed e', l) = linked-Unopened l s.notices

  -- A failed handshake's error ends `open` at once, or after the inner stream is closed.
  caught-OpensOrNot :
      (e : Failure) (l : Link S) (fatal : Bool)
      → OpensOrNot (failed e) s (
          reply_then
            ((if fatal then failed e else returned (failed e)), record s { link = l })
            (opened_with c io))
  caught-OpensOrNot e l true = linked-Unopened l s.notices
  caught-OpensOrNot e l false = closed-OpensOrNot e (on_stream io.close l)

  shaken-OpensOrNot :
      (r : Reply Session × Link S)
      → OpensOrNot r.0 s
          (reply_then ((caught r).0, record s { link = (caught r).1 }) (opened_with c io))
  shaken-OpensOrNot (returned session, l) = record {
    is_open = refl;
    peer = refl;
    encrypts = refl;
    decrypts = refl;
  }
  shaken-OpensOrNot (failed e, l) = caught-OpensOrNot e l (is_fatal e)

  asked-OpensOrNot :
      (fuel : ℕ) (r : Reply (Unit {0}) × Link S)
      → OpensOrNot (reply_then r λ _. handshake c io fuel).0 s (
          reply_then
            (r.0, record s { link = r.1 })
            λ _ s'. reply_then (on_link (no_throw (handshake c io fuel)) s') (opened_with c io))
  asked-OpensOrNot fuel (returned a, l) = shaken-OpensOrNot (handshake c io fuel l)
  asked-OpensOrNot fuel (failed e, l) = linked-Unopened l s.notices

  -- `open` returns exactly if the handshake, with the stream's delegate as its authorizer, gives a
  -- session. Then the stream is open, and that session names its peer and keys both directions: one box
  -- encrypts with its keys and nonces, the other decrypts. Otherwise the stream is open only if it was
  -- before, and its peer and the streams of both directions are what they were.
  pub open_stream-OpensOrNot :
      (fuel : ℕ)
      → OpensOrNot (delegated_handshake c io fuel s.delegate s.link).0 s (open_stream c io fuel s)
  unfolding open_stream
  open_stream-OpensOrNot fuel = asked-OpensOrNot fuel (authorize_by c io s.delegate s.link)
