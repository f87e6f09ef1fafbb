-- ===== src/Handshake/Stages/Sending.antt =====
-- src/SecretHandshake.cc: what is sent at each step of the handshake, and where that leads.
use secret_handshake_capnp.Common.{
  ◌≡◌, refl, ap, ◌∙◌, Bytes, Bool, true, false, Option, some, Outcome, ok, fault, is_empty, arith,
}
use secret_handshake_capnp.Crypto.{Crypto}
use secret_handshake_capnp.Shs
use secret_handshake_capnp.Shs.Frame.{
  greeted, authed, is_some, keyed, Returns, create_client_auth-Returns, create_server_ack-Returns,
}
use secret_handshake_capnp.Shs.Accepts.{Vouched, create_server_ack-Vouched}
use secret_handshake_capnp.Handshake
use secret_handshake_capnp.Handshake.{
  Step, failed, client_challenge, server_challenge, client_auth, server_ack, finished, Role, client,
  server, next, bytes_wanted,
}
use secret_handshake_capnp.Handshake.Invariant.{sends}
use secret_handshake_capnp.Handshake.Stages.{Stage, Onward, authorized, auth_of}

module _ (c : Crypto) (peer : Bytes) where
  authenticating-client :
      (r : Outcome Bytes × Shs.Shs)
      → Returns r (λ bytes s. authed s ≡ true)
      → r.1.peer_public_key ≡ some peer
      → r.1.h ≡ auth_of c peer r.1 r.1.hash_ab
      → Returns r (λ bytes s. Stage c peer client client_auth (is_empty bytes) s)
  authenticating-client (ok bytes, s) a n h = (n, ground arith, λ _. (a, h))
  authenticating-client (fault e, s) a n h = a

  acknowledging-server :
      (a : Option (Bytes → Bool)) (r : Outcome Bytes × Shs.Shs)
      → Returns r (λ bytes s. keyed s ≡ true)
      → Vouched c r.1
      → authorized a r.1.peer_public_key ≡ true
      → Returns r (λ bytes s. Stage c peer (server a) server_ack (is_empty bytes) s)
  acknowledging-server a (ok bytes, s) k v f = (ground arith, λ h. k, v, f)
  acknowledging-server a (fault e, s) k v f = k

  create_client_auth-peer :
      (s : Shs.Shs) → (Shs.create_client_auth c s).1.peer_public_key ≡ s.peer_public_key
  unfolding Shs.create_client_auth
  create_client_auth-peer s = ground arith

  create_client_auth-auth :
      (s : Shs.Shs)
      → greeted s ≡ true
      → s.peer_public_key ≡ some peer
      → let s' = (Shs.create_client_auth c s).1 in s'.h ≡ auth_of c peer s' s'.hash_ab
  unfolding Shs.create_client_auth
  create_client_auth-auth s g n = ground arith

  create_server_ack-peer :
      (s : Shs.Shs) → (Shs.create_server_ack c s).1.peer_public_key ≡ s.peer_public_key
  unfolding Shs.create_server_ack
  create_server_ack-peer s = ground arith

  -- What is to be sent is made without a fault.
  pub produce-Stage :
      (r : Role) (step : Step) (s : Shs.Shs)
      → Stage c peer r step true s
      → Returns (Handshake.produce c r step s) (λ bytes s'. Stage c peer r step (is_empty bytes) s')
  unfolding Handshake.produce
  produce-Stage client failed s g = tt
  produce-Stage client client_challenge s g = g
  produce-Stage client server_challenge s g = g
  produce-Stage client client_auth s (n, g, f) =
      authenticating-client (Shs.create_client_auth c s)
        (create_client_auth-Returns c s g (ap is_some n)) (create_client_auth-peer s ∙ n)
        (create_client_auth-auth s g n)
  produce-Stage client server_ack s g = g
  produce-Stage client finished s g = g
  produce-Stage (server a) failed s g = tt
  produce-Stage (server a) client_challenge s g = tt
  produce-Stage (server a) server_challenge s g = g
  produce-Stage (server a) client_auth s g = g
  produce-Stage (server a) server_ack s (g, k, v, f) =
      acknowledging-server a (Shs.create_server_ack c s) (create_server_ack-Returns c s g)
        (create_server_ack-Vouched c s v) (ap (authorized a) (create_server_ack-peer s) ∙ f)
  produce-Stage (server a) finished s g = g

  -- A message that was sent leads to the next stage.
  pub sent-Onward :
      (r : Role) (step : Step) (s : Shs.Shs)
      → sends r step ≡ true
      → Stage c peer r step false s
      → Onward c peer r (next step) s
  sent-Onward client client_challenge s h g = g
  sent-Onward client client_auth s h (n, g, f) = (n, f refl)
  sent-Onward client failed s h g = cc
  sent-Onward client server_challenge s h g = cc
  sent-Onward client server_ack s h g = cc
  sent-Onward client finished s h g = cc
  sent-Onward (server a) server_challenge s h g = g
  sent-Onward (server a) server_ack s h (g, k, v, f) = (k refl, v, f)
  sent-Onward (server a) failed s h g = cc
  sent-Onward (server a) client_challenge s h g = cc
  sent-Onward (server a) client_auth s h g = cc
  sent-Onward (server a) finished s h g = cc

  -- Some of a message was sent.
  pub partly-Stage :
      (r : Role) (step : Step) (e : Bool) (s : Shs.Shs)
      → Stage c peer r step e s
      → Stage c peer r step true s
  partly-Stage client failed e s g = tt
  partly-Stage client client_challenge e s g = g
  partly-Stage client server_challenge e s g = g
  partly-Stage client client_auth e s (n, g, f) = (n, g, λ h. cc)
  partly-Stage client server_ack e s g = g
  partly-Stage client finished e s g = g
  partly-Stage (server a) failed e s g = tt
  partly-Stage (server a) client_challenge e s g = tt
  partly-Stage (server a) server_challenge e s g = g
  partly-Stage (server a) client_auth e s g = g
  partly-Stage (server a) server_ack e s (g, k, v, f) = (g, λ h. cc, v, f)
  partly-Stage (server a) finished e s g = g

  pub finished-keyed :
      (r : Role) (e : Bool) (s : Shs.Shs) → Stage c peer r finished e s → keyed s ≡ true
  finished-keyed client e s (n, g, v, a) = g
  finished-keyed (server a) e s (g, v, f) = g
