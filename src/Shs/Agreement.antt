-- ===== src/Shs/Agreement.antt =====
-- src/shs.cc: two `handshake` objects that talk to one another, in the order that include/shs.hh
-- prescribes.
use secret_handshake_capnp.Common.{
  ◌≡◌, refl, sym, ap, ◌∙◌, Bytes, Bool, true, ◌&&◌, some, ◌++◌, length, take, take-append,
  drop-append, take_all, range, bytes_eq_refl, ok, Exec, ◌>>=◌, pure, gets, length-take, arith,
}
use secret_handshake_capnp.Crypto.{Crypto, IsCrypto}
use secret_handshake_capnp.Shs
use secret_handshake_capnp.Shs.{Session}

-- A call of a method of the client or of the server, in the pair of both.
abbrev on_client : {A : Type 0} → Exec Shs.Shs A → Exec (Shs.Shs × Shs.Shs) A
on_client m (client, server) = let (r, client') = m client in (r, (client', server))

abbrev on_server : {A : Type 0} → Exec Shs.Shs A → Exec (Shs.Shs × Shs.Shs) A
on_server m (client, server) = let (r, server') = m server in (r, (client, server'))

-- `verifyChallenge` never throws.
abbrev returning : {A : Type 0} → (Shs.Shs → A × Shs.Shs) → Exec Shs.Shs A
returning m s = let (r, s') = m s in (ok r, s')

-- The session at the other end.
unfoldable pub mirror : Bytes → Session → Session
mirror key s = record {
  encryption_key = s.decryption_key;
  encryption_nonce = s.decryption_nonce;
  decryption_key = s.encryption_key;
  decryption_nonce = s.encryption_nonce;
  peer_public_key = key;
}

module _ (c : Crypto) where
  open c use {get_public_key}

  -- The calls in their order, each message handed to the peer. The result is whether all four
  -- messages were accepted, and the two sessions.
  unfoldable pub protocol : Exec (Shs.Shs × Shs.Shs) (Bool × Session × Session)
  protocol = do
    client_challenge ← on_client (gets (Shs.create_challenge c))
    accepted₁ ← on_server (returning (Shs.verify_challenge c client_challenge))
    server_challenge ← on_server (gets (Shs.create_challenge c))
    accepted₂ ← on_client (returning (Shs.verify_challenge c server_challenge))
    client_auth ← on_client (Shs.create_client_auth c)
    accepted₃ ← on_server (Shs.verify_client_auth c client_auth)
    server_ack ← on_server (Shs.create_server_ack c)
    accepted₄ ← on_client (Shs.verify_server_ack c server_ack)
    client_session ← on_client (Shs.get_outcome c)
    server_session ← on_server (Shs.get_outcome c)
    pure (accepted₁ && accepted₂ && accepted₃ && accepted₄, client_session, server_session)

  unfoldable pub new_client : Bytes → Bytes → Bytes → Bytes → Shs.Shs
  new_client app_id signing_key ephemeral server_key =
      Shs.set_server_public_key c server_key
        (Shs.create c app_id signing_key (get_public_key signing_key) ephemeral)

  unfoldable pub new_server : Bytes → Bytes → Bytes → Shs.Shs
  new_server app_id signing_key ephemeral =
      Shs.create c app_id signing_key (get_public_key signing_key) ephemeral

module _ {c : Crypto} (laws : IsCrypto c) where
  open c use {get_public_key, kx_public_key, kx_multiply, sha256, sign, check, zero_nonce}

  length-hmac : (k m : Bytes) → length (Shs.hmac c k m) ≡ 32
  length-hmac k m = omega (arith, length-take 32 (c.hmac_sha512 k m), laws.hmac_size k m)

  -- A challenge made with the app ID is accepted, and hands over the ephemeral key.
  pub verify-create_challenge :
      (s t : Shs.Shs)
      → length s.ephemeral_public ≡ 32
      → s.app_id ≡ t.app_id
      → Shs.verify_challenge c (Shs.create_challenge c s) t ≡ (
        true,
        record t {
          peer_ephemeral = some s.ephemeral_public;
          ab = some (kx_multiply t.ephemeral_key s.ephemeral_public);
          hash_ab = some (sha256 (kx_multiply t.ephemeral_key s.ephemeral_public));
        },
      )
  unfolding Shs.verify_challenge Shs.create_challenge
  verify-create_challenge s t size same = rw (
    take-append 32 (Shs.hmac c s.app_id s.ephemeral_public) s.ephemeral_public (length-hmac _ _),
    drop-append 32 (Shs.hmac c s.app_id s.ephemeral_public) s.ephemeral_public (length-hmac _ _),
    take_all 32 s.ephemeral_public (omega arith),
    same,
    bytes_eq_refl,
  )

-- What both ends derive, in the terms of CheatSheet.md: K is the app ID, a and b the ephemeral secret
-- keys, A and B the long-term signing keys of client and server.
module _ (c : Crypto) (k a A b B : Bytes) where
  open c use {get_public_key, kx_public_key, kx_multiply, sha256, sign, as_key_exchange}
  open c use {for_key_exchange}

  abbrev pub shared_ab : Bytes
  shared_ab = kx_multiply a (kx_public_key b)

  abbrev pub shared_a_b_long : Bytes
  shared_a_b_long = kx_multiply a (for_key_exchange (get_public_key B))

  abbrev pub shared_a_long_b : Bytes
  shared_a_long_b = kx_multiply (as_key_exchange A) (kx_public_key b)

  -- H = sign[A](K | Bp | hash(a·b)) | Ap
  abbrev pub auth_h : Bytes
  auth_h = sign A (k ++ get_public_key B ++ sha256 shared_ab) ++ get_public_key A

  abbrev pub auth_key : Bytes
  auth_key = sha256 (k ++ shared_ab ++ shared_a_b_long)

  abbrev pub ack_key : Bytes
  ack_key = sha256 (k ++ shared_ab ++ shared_a_b_long ++ shared_a_long_b)

  unfoldable pub client_session : Session
  client_session = record {
    encryption_key = sha256 (sha256 ack_key ++ get_public_key B);
    encryption_nonce = range 0 24 (range 0 32 (c.hmac_sha512 k (kx_public_key b)));
    decryption_key = sha256 (sha256 ack_key ++ get_public_key A);
    decryption_nonce = range 0 24 (range 0 32 (c.hmac_sha512 k (kx_public_key a)));
    peer_public_key = get_public_key B;
  }

  -- The states after the two challenges.
  abbrev pub greeted_client : Shs.Shs
  unfolding Shs.create Shs.set_server_public_key new_client
  greeted_client = record (new_client c k A a (get_public_key B)) {
    peer_ephemeral = some (kx_public_key b);
    ab = some shared_ab;
    hash_ab = some (sha256 shared_ab);
  }

  abbrev pub greeted_server : Shs.Shs
  unfolding Shs.create new_server
  greeted_server = record (new_server c k B b) {
    peer_ephemeral = some (kx_public_key a);
    ab = some shared_ab;
    hash_ab = some (sha256 shared_ab);
  }

  abbrev pub authed_client : Shs.Shs
  authed_client = record greeted_client {
    h = some auth_h;
    a_long_b = some shared_a_long_b;
    a_b_long = some shared_a_b_long;
  }

  abbrev pub authed_server : Shs.Shs
  authed_server = record greeted_server {
    h = some auth_h;
    a_long_b = some shared_a_long_b;
    a_b_long = some shared_a_b_long;
    peer_public_key = some (get_public_key A);
  }

module _ {c : Crypto} (laws : IsCrypto c) (k a A b B : Bytes) where
  open c use {get_public_key, kx_public_key, kx_multiply, sha256, sign, as_key_exchange}
  open c use {for_key_exchange}

  -- The server computes the same three products: a·B = B·a, and A·b = b·A.
  products :
      (kx_multiply b (kx_public_key a) ≡ shared_ab c k a A b B)
      × (kx_multiply (as_key_exchange B) (kx_public_key a) ≡ shared_a_b_long c k a A b B)
      × (kx_multiply b (for_key_exchange (get_public_key A)) ≡ shared_a_long_b c k a A b B)
  products = (
    laws.kx_comm b a,
    laws.kx_comm (as_key_exchange B) a ∙ ap (kx_multiply a) (sym (laws.converted B)),
    ap (kx_multiply b) (laws.converted A) ∙ laws.kx_comm b (as_key_exchange A),
  )

  -- H splits into the signature and the client's key.
  auth_parts :
      (range 0 64 (auth_h c k a A b B)
        ≡ sign A (k ++ get_public_key B ++ sha256 (shared_ab c k a A b B)))
      × (range 64 32 (auth_h c k a A b B) ≡ get_public_key A)
  auth_parts = (
    take-append 64 (sign A (k ++ get_public_key B ++ sha256 (shared_ab c k a A b B)))
        (get_public_key A) (laws.signature_size _ _),
    ap (take 32) (
          drop-append 64 (sign A (k ++ get_public_key B ++ sha256 (shared_ab c k a A b B)))
            (get_public_key A) (laws.signature_size _ _))
        ∙ take_all 32 (get_public_key A) (omega (arith, laws.public_size A)),
  )

  pub server_accepts_auth :
      Shs.verify_client_auth c
        (Shs.box c (auth_key c k a A b B) (auth_h c k a A b B))
        (greeted_server c k a A b B)
      ≡ (ok true, authed_server c k a A b B)
  unfolding Shs.verify_client_auth new_server Shs.create
  server_accepts_auth = rw (
    products.1, laws.xsalsa20_IsCipher.unbox-box, auth_parts.0, auth_parts.1, laws.check-sign,
    products.2,
  )

  abbrev pub server_ack : Bytes
  server_ack =
      Shs.box c (ack_key c k a A b B)
        (sign B (k ++ auth_h c k a A b B ++ sha256 (shared_ab c k a A b B)))

  abbrev pub with_ack : Shs.Shs → Shs.Shs
  with_ack s = record s { server_ack_key = some (ack_key c k a A b B) }

  pub client_accepts_ack :
      Shs.verify_server_ack c server_ack (authed_client c k a A b B)
      ≡ (ok true, with_ack (authed_client c k a A b B))
  unfolding Shs.verify_server_ack new_client Shs.create Shs.set_server_public_key
  client_accepts_ack = rw (laws.xsalsa20_IsCipher.unbox-box, laws.check-sign)

  pub greetings :
      (Shs.verify_challenge c
          (Shs.create_challenge c (new_client c k A a (get_public_key B)))
          (new_server c k B b)
        ≡ (true, greeted_server c k a A b B))
      × (Shs.verify_challenge c
            (Shs.create_challenge c (greeted_server c k a A b B))
            (new_client c k A a (get_public_key B))
          ≡ (true, greeted_client c k a A b B))
  unfolding new_client new_server Shs.create Shs.set_server_public_key
  greetings = (
    verify-create_challenge laws (new_client c k A a (get_public_key B)) (new_server c k B b)
          (laws.kx_public_size a) refl
        ∙ rw products.0,
    verify-create_challenge laws (greeted_server c k a A b B)
        (new_client c k A a (get_public_key B)) (laws.kx_public_size b) refl,
  )

  -- With primitives that behave as documented, a client and a server that hold the same app ID, the
  -- client knowing the server's public key, accept all four messages of one another; the client's
  -- session has the keys and nonces of CheatSheet.md, and the server's is its mirror image, with the
  -- client's long-term public key as its peer.
  pub protocol_agrees :
      (protocol c (new_client c k A a (get_public_key B), new_server c k B b)).0
      ≡ ok
          (true, client_session c k a A b B, mirror (get_public_key A) (client_session c k a A b B))
  unfolding protocol Shs.create_client_auth Shs.create_server_ack Shs.get_outcome client_session
      mirror new_client new_server Shs.create Shs.set_server_public_key
  protocol_agrees = rw (greetings.0, greetings.1, server_accepts_auth, client_accepts_ack)
