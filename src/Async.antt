-- ===== src/Async.antt =====
-- crouton/SecretHandshakeStream.cc and capnproto/SecretConnection.cc: coroutines and promises. One runs
-- on the state of its object and that of the inner stream, and ends with a value or an error; what
-- C++ code throws in it becomes such an error. Steps of other coroutines in between are left out.
pub mod Ends
use secret_handshake_capnp.Common.{
  ℕ, Bool, true, false, if◌then◌else◌, Fault, Outcome, ok, fault, assertion_failed,
  undefined_behaviour, out_of_fuel,
}

pub data SecretHandshakeError : Type 0 where
  protocol auth data_error : SecretHandshakeError

-- An error: one of this library's own, Crouton's `InvalidState`, a failed `KJ_REQUIRE_NONNULL`, a
-- `DISCONNECTED` exception that this library makes, one of the inner stream's, KJ's own of a timer that
-- fired, or what C++ code threw or ran into.
pub data Failure : Type 0 where
  shs_error : SecretHandshakeError → Failure
  invalid_state requirement_failed unauthorized not_connected : Failure
  stream_error : ℕ → Failure
  operation_timed_out : Failure
  thrown : Fault → Failure

pub data Reply (A : Type 0) : Type 0 where
  returned : A → Reply A
  failed : Failure → Reply A

abbrev pub Async : Type 0 → Type 0 → Type 0
Async S A = S → Reply A × S

abbrev pub reply_then : {S A B : Type 0} → Reply A × S → (A → Async S B) → Reply B × S
reply_then (returned a, s) f = f a s
reply_then (failed e, s) f = (failed e, s)

infixl 5 ◌>>=◌ ◌>>◌
abbrev pub ◌>>=◌ : {S A B : Type 0} → Async S A → (A → Async S B) → Async S B
◌>>=◌ m f s = reply_then (m s) f

abbrev pub ◌>>◌ : {S A B : Type 0} → Async S A → Async S B → Async S B
m >> k = m >>= λ _. k

abbrev pub pure : {S A : Type 0} → A → Async S A
pure a s = (returned a, s)

abbrev pub fail_with : {S A : Type 0} → Failure → Async S A
fail_with e s = (failed e, s)

abbrev pub of_outcome : {A : Type 0} → Outcome A → Reply A
of_outcome (ok a) = returned a
of_outcome (fault e) = failed (thrown e)

-- What ends the program, or the model's fuel: no handler gets to see it.
abbrev pub is_fatal : Failure → Bool
is_fatal (thrown assertion_failed) = true
is_fatal (thrown undefined_behaviour) = true
is_fatal (thrown out_of_fuel) = true
is_fatal _ = false

abbrev pub caught : {S A : Type 0} → Reply A × S → Reply (Reply A) × S
caught (returned a, s) = (returned (returned a), s)
caught (failed e, s) = (if is_fatal e then failed e else returned (failed e), s)

-- `AWAIT NoThrow`: the reply as a value.
abbrev pub no_throw : {S A : Type 0} → Async S A → Async S (Reply A)
no_throw m s = caught (m s)
