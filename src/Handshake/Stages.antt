-- ===== src/Handshake/Stages.antt =====
-- src/SecretHandshake.cc and src/shs.cc: what each step of the handshake can count on. `peer` is the key
-- of the server that a client asks for.
pub mod Sending
pub mod Owns
use secret_handshake_capnp.Common.{
  ◌++◌, ◌≡◌, refl, sym, ap, ◌∙◌, Bytes, Bool, true, false, Option, none, some, Outcome, ok, fault,
  is_empty, and_then, subst, arith, Bool-cases, inl, inr,
}
use secret_handshake_capnp.Crypto.{Crypto}
use secret_handshake_capnp.Shs
use secret_handshake_capnp.Shs.Frame.{
  greeted, named, authed, keyed, Returns, verify_challenge-greeted, verify_challenge-named,
  create_client_auth-Returns, verify_client_auth-Returns, create_server_ack-Returns,
  verify_server_ack-Returns, get_outcome-Returns,
}
use secret_handshake_capnp.Shs.Accepts.{
  Vouched, Confirmed, verify_client_auth-Vouched, verify_server_ack-Confirmed,
  create_server_ack-Vouched,
}
use secret_handshake_capnp.Handshake
use secret_handshake_capnp.Handshake.{
  Step, failed, client_challenge, server_challenge, client_auth, server_ack, finished, Role, client,
  server, next, bytes_wanted,
}
use secret_handshake_capnp.Handshake.Invariant.{sends}

-- The authorizer, if there is one, accepts the peer's key.
abbrev pub authorized : Option (Bytes → Bool) → Option Bytes → Bool
authorized none key = true
authorized (some accepts) none = false
authorized (some accepts) (some key) = accepts key

-- The hash of the product of the own ephemeral key and the peer's, once the peer's is known.
abbrev pub hash_of : Crypto → Bytes → Option Bytes → Option Bytes
hash_of c x none = none
hash_of c x (some e) = some (c.sha256 (c.kx_multiply x e))

-- The app ID, the public key and the ephemeral key in the object are `k`, `p` and `x`, and its hash of
-- a·b belongs to that ephemeral key.
abbrev pub Owns : Crypto → Bytes → Bytes → Bytes → Shs.Shs → Type 0
Owns c k p x s =
    (s.app_id ≡ k)
    × (s.public_key ≡ p)
    × (s.ephemeral_key ≡ x)
    × (s.hash_ab ≡ hash_of c x s.peer_ephemeral)

-- H, which a client makes for a server: its signature of K, the server's key and the hash of a·b,
-- followed by its own key.
abbrev pub auth_of : Crypto → Bytes → Shs.Shs → Option Bytes → Option Bytes
auth_of c peer s none = none
auth_of c peer s (some x) = some (c.sign s.signing_key (s.app_id ++ peer ++ x) ++ s.public_key)

-- The client has made it.
abbrev pub HasAuth : Crypto → Bytes → Shs.Shs → Type 0
HasAuth c peer s = (authed s ≡ true) × (s.h ≡ auth_of c peer s s.hash_ab)

-- What is known at a step, with the output buffer empty or not.
abbrev pub Stage : Crypto → Bytes → Role → Step → Bool → Shs.Shs → Type 0
Stage c peer r failed e s = Unit {0}
Stage c peer client client_challenge e s = s.peer_public_key ≡ some peer
Stage c peer client server_challenge e s = s.peer_public_key ≡ some peer
Stage c peer client client_auth e s =
    (s.peer_public_key ≡ some peer) × (greeted s ≡ true) × (e ≡ false → HasAuth c peer s)
Stage c peer client server_ack e s = (s.peer_public_key ≡ some peer) × HasAuth c peer s
Stage c peer client finished e s =
    (s.peer_public_key ≡ some peer)
    × (keyed s ≡ true)
    × Confirmed c s
    × (s.h ≡ auth_of c peer s s.hash_ab)
Stage c peer (server a) client_challenge e s = Unit {0}
Stage c peer (server a) server_challenge e s = greeted s ≡ true
Stage c peer (server a) client_auth e s = greeted s ≡ true
Stage c peer (server a) server_ack e s =
    (authed s ≡ true)
    × (e ≡ false → keyed s ≡ true)
    × Vouched c s
    × (authorized a s.peer_public_key ≡ true)
Stage c peer (server a) finished e s =
    (keyed s ≡ true) × Vouched c s × (authorized a s.peer_public_key ≡ true)

-- The stage after this one.
abbrev pub Onward : Crypto → Bytes → Role → Option Step → Shs.Shs → Type 0
Onward c peer r none s = ⊥
Onward c peer r (some step) s = Stage c peer r step true s

-- A verdict on the peer's bytes.
abbrev pub Verdict : Crypto → Bytes → Role → Step → Bool → Shs.Shs → Type 0
Verdict c peer r step true s = Onward c peer r (next step) s
Verdict c peer r step false s = Unit {0}

module _ (c : Crypto) (peer : Bytes) where
  pub failed-Stage : (r : Role) (e : Bool) (s : Shs.Shs) → Stage c peer r failed e s
  failed-Stage client e s = tt
  failed-Stage (server a) e s = tt

  challenged-client :
      (valid : Bool) (s : Shs.Shs)
      → s.peer_public_key ≡ some peer
      → (valid ≡ true → greeted s ≡ true)
      → Verdict c peer client server_challenge valid s
  challenged-client true s n g = (n, g refl, λ h. cc)
  challenged-client false s n g = tt

  challenged-server :
      (a : Option (Bytes → Bool)) (valid : Bool) (s : Shs.Shs)
      → (valid ≡ true → greeted s ≡ true)
      → Verdict c peer (server a) client_challenge valid s
  challenged-server a true s g = g refl
  challenged-server a false s g = tt

  acknowledged-client :
      (r : Outcome Bool × Shs.Shs)
      → Returns r (λ valid s. keyed s ≡ true)
      → r.1.peer_public_key ≡ some peer
      → (r.0 ≡ ok true → Confirmed c r.1)
      → r.1.h ≡ auth_of c peer r.1 r.1.hash_ab
      → Returns r (Verdict c peer client server_ack)
  acknowledged-client (ok true, s) g n v a = (n, g, v refl, a)
  acknowledged-client (ok false, s) g n v a = tt
  acknowledged-client (fault e, s) g n v a = g

  pub authorize_lem :
      (accepts : Bytes → Bool) (s : Shs.Shs) (key : Bytes) (valid : Bool)
      → s.peer_public_key ≡ some key
      → accepts key ≡ valid
      → Handshake.authorize c (some accepts) true s ≡ (ok valid, s)
  unfolding Shs.get_peer_public_key
  authorize_lem accepts s key valid is verdict = ground arith

  -- The authorizer's verdict on a key that is vouched for.
  asked-server :
      (a : Option (Bytes → Bool)) (s : Shs.Shs)
      → authed s ≡ true
      → Vouched c s
      → Returns (Handshake.authorize c a true s) (Verdict c peer (server a) client_auth)
  asked-server none s g v = (g, λ h. cc, v, refl)
  asked-server (some accepts) s g v = elim (Bool-cases (accepts v.key)) [
    | inl fine ↦
        let asked = authorize_lem accepts s v.key true v.key_is fine in
        let allowed : authorized (some accepts) s.peer_public_key ≡ true =
          ap (authorized (some accepts)) v.key_is ∙ fine in
        subst (λ r. Returns r (Verdict c peer (server (some accepts)) client_auth)) (sym asked)
          (g, λ h. cc, v, allowed)
    | inr refused ↦
        let asked = authorize_lem accepts s v.key false v.key_is refused in
        subst (λ r. Returns r (Verdict c peer (server (some accepts)) client_auth)) (sym asked) tt
  ]

  authenticated-server :
      (a : Option (Bytes → Bool)) (r : Outcome Bool × Shs.Shs)
      → Returns r (λ valid s. valid ≡ true → authed s ≡ true)
      → (r.0 ≡ ok true → Vouched c r.1)
      → Returns (and_then r (Handshake.authorize c a)) (Verdict c peer (server a) client_auth)
  authenticated-server a (ok true, s) g v = asked-server a s (g refl) (v refl)
  authenticated-server a (ok false, s) g v = tt
  authenticated-server a (fault e, s) g v = g

  verify_server_ack-peer :
      (m : Bytes) (s : Shs.Shs)
      → (Shs.verify_server_ack c m s).1.peer_public_key ≡ s.peer_public_key
  unfolding Shs.verify_server_ack
  verify_server_ack-peer m s = ground arith

  verify_server_ack-auth :
      (m : Bytes) (s : Shs.Shs)
      → s.h ≡ auth_of c peer s s.hash_ab
      → let s' = (Shs.verify_server_ack c m s).1 in s'.h ≡ auth_of c peer s' s'.hash_ab
  unfolding Shs.verify_server_ack
  verify_server_ack-auth m s a = ground arith

  -- The peer's bytes are judged without a fault, and what is accepted leads to the next stage.
  pub process-Verdict :
      (r : Role) (step : Step) (m : Bytes) (s : Shs.Shs)
      → Stage c peer r step true s
      → Returns (Handshake.process c r step m s) (Verdict c peer r step)
  unfolding Handshake.process
  process-Verdict client failed m s g = tt
  process-Verdict client client_challenge m s g = tt
  process-Verdict client server_challenge m s g =
      challenged-client _ _ (verify_challenge-named c s m ∙ g) (verify_challenge-greeted c s m)
  process-Verdict client client_auth m s g = tt
  process-Verdict client server_ack m s (n, (g, a)) =
      acknowledged-client (Shs.verify_server_ack c m s) (verify_server_ack-Returns c s m g)
        (verify_server_ack-peer m s ∙ n) (verify_server_ack-Confirmed c s m g)
        (verify_server_ack-auth m s a)
  process-Verdict client finished m s g = tt
  process-Verdict (server a) failed m s g = tt
  process-Verdict (server a) client_challenge m s g =
      challenged-server a _ _ (verify_challenge-greeted c s m)
  process-Verdict (server a) server_challenge m s g = tt
  process-Verdict (server a) client_auth m s g =
      authenticated-server a (Shs.verify_client_auth c m s) (verify_client_auth-Returns c s m g)
        (verify_client_auth-Vouched c s m)
  process-Verdict (server a) server_ack m s g = tt
  process-Verdict (server a) finished m s g = tt
