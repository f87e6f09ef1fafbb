-- ===== src/Async/Ends.antt =====
-- How a coroutine of crouton/ or capnproto/ ends: with a value of which something holds, or with an
-- error that is allowed.
use secret_handshake_capnp.Common.{◌≡◌, Bool, true, false, arith}
use secret_handshake_capnp.Async.{
  Failure, unauthorized, not_connected, stream_error, Reply, returned, failed, Async, reply_then,
}

-- An error of the inner stream's own.
abbrev pub of_stream : Failure → Bool
of_stream (stream_error n) = true
of_stream _ = false

-- An error that a peer or the network can cause.
abbrev pub of_peer : Failure → Bool
of_peer unauthorized = true
of_peer not_connected = true
of_peer e = of_stream e

pub stream-peer : (e : Failure) → of_stream e ≡ true → of_peer e ≡ true
stream-peer e h = ground arith

abbrev pub Ends : {S A : Type 0} → (Failure → Bool) → (A → S → Type 0) → Reply A × S → Type 0
Ends allowed P (returned a, s) = P a s
Ends allowed P (failed e, s) = allowed e ≡ true

pub then-Ends :
    {S A B : Type 0} (allowed : Failure → Bool) (P : A → S → Type 0) (Q : B → S → Type 0)
    (r : Reply A × S) (f : A → Async S B)
    → Ends allowed P r
    → ((a : A) (s : S) → P a s → Ends allowed Q (f a s))
    → Ends allowed Q (reply_then r f)
then-Ends allowed P Q (returned a, s) f e go = go a s e
then-Ends allowed P Q (failed x, s) f e go = e
