-- ===== src/Shs/Accepts.antt =====
-- src/shs.cc: what a peer must have sent for its messages to be accepted.
use secret_handshake_capnp.Common.{
  ◌≡◌, refl, ◌↔◌, ◌∙◌, Bytes, true, ◌++◌, Option, none, some, ok, range, Option-cases, inl, inr,
  bytes_eq→eq, bytes_eq_refl, arith,
}
use secret_handshake_capnp.Crypto.{Crypto}
use secret_handshake_capnp.Shs
use secret_handshake_capnp.Shs.Frame.{is_some, greeted, authed}

module _ (c : Crypto) (s : Shs.Shs) where
  open c use {check, sha256}

  -- A challenge is accepted exactly when it opens with the HMAC, under the own app ID, of the key
  -- that follows.
  pub verify_challenge_iff :
      (m : Bytes)
      → ((Shs.verify_challenge c m s).0 ≡ true)
        ↔ (range 0 32 m ≡ Shs.hmac c s.app_id (range 32 32 m))
  unfolding Shs.verify_challenge
  verify_challenge_iff m = (
    λ h. bytes_eq→eq (range 0 32 m) (Shs.hmac c s.app_id (range 32 32 m)) (ground arith),
    λ h. rw (h, bytes_eq_refl),
  )

  module _ (e ab x : Bytes) (he : s.peer_ephemeral ≡ some e) (hab : s.ab ≡ some ab)
      (hx : s.hash_ab ≡ some x) where
    -- Once a challenge is accepted, a client's authentication is accepted exactly when it opens under
    -- the key of K, a·b and a·B, and holds the client's key with its signature of K, the server's key
    -- and the hash of a·b.
    pub verify_client_auth_iff :
        (m : Bytes)
        → ((Shs.verify_client_auth c m s).0 ≡ ok true) ↔ (
            (h : Bytes) × (Shs.unbox c
                (sha256 (s.app_id ++ ab ++ Shs.long_times_ephemeral c s.signing_key e))
                m
              ≡ some h)
            × (check (range 64 32 h) (range 0 64 h) (s.app_id ++ s.public_key ++ x) ≡ true))
    unfolding Shs.verify_client_auth
    verify_client_auth_iff m = (
      λ accepted.
          elim (Option-cases (
            Shs.unbox c (sha256 (s.app_id ++ ab ++ Shs.long_times_ephemeral c s.signing_key e))
              m)) [
                | inl rejected ↦ absurd (ground arith)
                | inr (h, opened) ↦ (h, opened, ground arith)
              ],
      λ (h, opened, signed). ground arith,
    )

  module _ (key e ab x h ab' a'b : Bytes) (hkey : s.peer_public_key ≡ some key)
      (he : s.peer_ephemeral ≡ some e) (hab : s.ab ≡ some ab) (hx : s.hash_ab ≡ some x)
      (hh : s.h ≡ some h) (hab' : s.a_b_long ≡ some ab') (ha'b : s.a_long_b ≡ some a'b) where
    -- A server's acknowledgement is accepted exactly when it opens under the key of K, a·b, a·B and
    -- A·b, and holds a signature by the server's key, the one that the client asked for, of K, the
    -- client's authentication and the hash of a·b.
    pub verify_server_ack_iff :
        (m : Bytes)
        → ((Shs.verify_server_ack c m s).0 ≡ ok true) ↔ (
            (sig : Bytes) × (Shs.unbox c (sha256 (s.app_id ++ ab ++ ab' ++ a'b)) m ≡ some sig)
            × (check key sig (s.app_id ++ h ++ x) ≡ true))
    unfolding Shs.verify_server_ack
    verify_server_ack_iff m = (
      λ accepted. elim (Option-cases (Shs.unbox c (sha256 (s.app_id ++ ab ++ ab' ++ a'b)) m)) [
        | inl rejected ↦ absurd (ground arith)
        | inr (sig, opened) ↦ (sig, opened, ground arith)
      ],
      λ (sig, opened, signed). ground arith,
    )

-- The peer's key in the object is vouched for: it stands in H, with its signature of K, the own
-- public key and the hash of a·b.
pub record Vouched (c : Crypto) (s : Shs.Shs) : Type 0 where
  pub key : Bytes
  pub h : Bytes
  pub x : Bytes
  pub key_is : s.peer_public_key ≡ some key
  pub h_is : s.h ≡ some h
  pub x_is : s.hash_ab ≡ some x
  pub key_in_h : key ≡ range 64 32 h
  pub signed : c.check key (range 0 64 h) (s.app_id ++ s.public_key ++ x) ≡ true

-- The server has signed what the client sent, with the key that the client holds for it.
pub record Confirmed (c : Crypto) (s : Shs.Shs) : Type 0 where
  pub key : Bytes
  pub h : Bytes
  pub x : Bytes
  pub sig : Bytes
  pub key_is : s.peer_public_key ≡ some key
  pub h_is : s.h ≡ some h
  pub x_is : s.hash_ab ≡ some x
  pub signed : c.check key sig (s.app_id ++ h ++ x) ≡ true

pub some_of : {A : Type 0} (o : Option A) → is_some o ≡ true → (a : A) × (o ≡ some a)
some_of none h = cc
some_of (some a) h = (a, refl)

module _ (c : Crypto) (s : Shs.Shs) where
  accepts-greeted : (m : Bytes) → (Shs.verify_client_auth c m s).0 ≡ ok true → greeted s ≡ true
  unfolding Shs.verify_client_auth
  accepts-greeted m accepted = ground arith

  accepts-opened :
      (m e ab : Bytes)
      → s.peer_ephemeral ≡ some e
      → s.ab ≡ some ab
      → (Shs.verify_client_auth c m s).0 ≡ ok true
      → is_some
          (Shs.unbox c (c.sha256 (s.app_id ++ ab ++ Shs.long_times_ephemeral c s.signing_key e)) m)
        ≡ true
  unfolding Shs.verify_client_auth
  accepts-opened m e ab he hab accepted = ground arith

  -- An accepted authentication leaves the client's key in the object, vouched for by its signature.
  pub verify_client_auth-Vouched :
      (m : Bytes)
      → (Shs.verify_client_auth c m s).0 ≡ ok true
      → Vouched c (Shs.verify_client_auth c m s).1
  unfolding Shs.verify_client_auth
  verify_client_auth-Vouched m accepted =
      let g : greeted s ≡ true = accepts-greeted m accepted in
      let (e, he) = some_of s.peer_ephemeral (ground arith) in
      let (ab, hab) = some_of s.ab (ground arith) in
      let (x, hx) = some_of s.hash_ab (ground arith) in
      let (h, opened) = some_of _ (accepts-opened m e ab he hab accepted) in
      record {
        key = range 64 32 h;
        h = h;
        x = x;
        key_is = ground arith;
        h_is = ground arith;
        x_is = ground arith;
        key_in_h = refl;
        signed = ground arith;
      }

  verify_server_ack_keeps :
      (m : Bytes)
      → let s' = (Shs.verify_server_ack c m s).1 in
        (s'.peer_public_key ≡ s.peer_public_key)
        × (s'.h ≡ s.h)
        × (s'.hash_ab ≡ s.hash_ab)
        × (s'.app_id ≡ s.app_id)
  unfolding Shs.verify_server_ack
  verify_server_ack_keeps m = ground arith

  pub verify_server_ack-Confirmed :
      (m : Bytes)
      → authed s ≡ true
      → (Shs.verify_server_ack c m s).0 ≡ ok true
      → Confirmed c (Shs.verify_server_ack c m s).1
  verify_server_ack-Confirmed m g accepted =
      let (key, hkey) = some_of s.peer_public_key (ground arith) in
      let (e, he) = some_of s.peer_ephemeral (ground arith) in
      let (ab, hab) = some_of s.ab (ground arith) in
      let (x, hx) = some_of s.hash_ab (ground arith) in
      let (h, hh) = some_of s.h (ground arith) in
      let (ab', hab') = some_of s.a_b_long (ground arith) in
      let (a'b, ha'b) = some_of s.a_long_b (ground arith) in
      let (sig, opened, signed) =
        (verify_server_ack_iff c s key e ab x h ab' a'b hkey he hab hx hh hab' ha'b m).0 accepted in
      let (key_kept, h_kept, x_kept, k_kept) = verify_server_ack_keeps m in
      record {
        key = key;
        h = h;
        x = x;
        sig = sig;
        key_is = key_kept ∙ hkey;
        h_is = h_kept ∙ hh;
        x_is = x_kept ∙ hx;
        signed = rw k_kept signed;
      }

  create_server_ack_keeps :
      let s' = (Shs.create_server_ack c s).1 in
      (s'.peer_public_key ≡ s.peer_public_key)
      × (s'.h ≡ s.h)
      × (s'.hash_ab ≡ s.hash_ab)
      × (s'.app_id ≡ s.app_id)
      × (s'.public_key ≡ s.public_key)
  unfolding Shs.create_server_ack
  create_server_ack_keeps = ground arith

  pub create_server_ack-Vouched : Vouched c s → Vouched c (Shs.create_server_ack c s).1
  create_server_ack-Vouched v =
      let (key, h, x, k, p) = create_server_ack_keeps in
      record {
        key = v.key;
        h = v.h;
        x = v.x;
        key_is = key ∙ v.key_is;
        h_is = h ∙ v.h_is;
        x_is = x ∙ v.x_is;
        key_in_h = v.key_in_h;
        signed = rw (k, p) v.signed;
      }
