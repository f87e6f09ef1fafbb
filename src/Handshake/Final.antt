-- ===== src/Handshake/Final.antt =====
-- src/SecretHandshake.cc: what the object of a handshake that finished shows of the peer: a signature
-- that it checked.
use secret_handshake_capnp.Common.{
  ◌≡◌, sym, ap, ◌∙◌, subst, Bytes, Bool, true, ◌++◌, Option, none, some, range,
}
use secret_handshake_capnp.Crypto.{Crypto}
use secret_handshake_capnp.Shs
use secret_handshake_capnp.Shs.{Session}
use secret_handshake_capnp.Shs.Accepts.{Vouched, Confirmed}
use secret_handshake_capnp.Handshake.{Role, finished, client, server}
use secret_handshake_capnp.Handshake.Stages.{Stage, Owns, authorized, hash_of, auth_of}

-- A signature by this key of the app ID, of `what`, and of the hash of a·b with the own ephemeral key.
pub record Signed (c : Crypto) (k x key what : Bytes) : Type 0 where
  pub peer_ephemeral : Bytes
  pub signature : Bytes
  pub checks : c.check key signature (k ++ what ++ c.sha256 (c.kx_multiply x peer_ephemeral)) ≡ true

same_of_some : (a b : Bytes) → some a ≡ some b → a ≡ b
same_of_some a b h = cc

hash_lem :
    (c : Crypto) (x : Bytes) (o : Option Bytes) (hash : Bytes)
    → some hash ≡ hash_of c x o
    → (e : Bytes) × (hash ≡ c.sha256 (c.kx_multiply x e))
hash_lem c x none hash h = cc
hash_lem c x (some e) hash h = (e, cc)

Vouched-Signed :
    (c : Crypto) (k p x : Bytes) (s : Shs.Shs) (v : Vouched c s)
    → Owns c k p x s
    → Signed c k x v.key p
Vouched-Signed c k p x s v (hk, hp, hx, hh) =
    let (e, is) = hash_lem c x s.peer_ephemeral v.x (sym v.x_is ∙ hh) in
    record {
      peer_ephemeral = e;
      signature = range 0 64 v.h;
      checks = rw (← is, ← hk, ← hp) v.signed;
    }

Confirmed-Signed :
    (c : Crypto) (k p x : Bytes) (s : Shs.Shs) (v : Confirmed c s) (peer mine : Bytes)
    → Owns c k p x s
    → s.peer_public_key ≡ some peer
    → v.h ≡ mine ++ s.public_key
    → Signed c k x peer (mine ++ p)
Confirmed-Signed c k p x s v peer mine (hk, hp, hx, hh) asked made =
    let (e, is) = hash_lem c x s.peer_ephemeral v.x (sym v.x_is ∙ hh) in
    let same : v.key ≡ peer = same_of_some _ _ (sym v.key_is ∙ asked) in
    let whole : v.h ≡ mine ++ p = made ∙ ap (◌++◌ mine) hp in
    record {
      peer_ephemeral = e;
      signature = v.sig;
      checks = rw (← is, ← hk, ← whole, ← same) v.signed;
    }

-- What a session comes from: a handshake that finished, and whose peer it names.
pub record Final (c : Crypto) (k p x peer : Bytes) (who : Role) (s : Session) : Type 0 where
  pub impl : Shs.Shs
  pub sent : Bool
  pub stage : Stage c peer who finished sent impl
  pub owns : Owns c k p x impl
  pub named : impl.peer_public_key ≡ some s.peer_public_key

pub Final-server :
    (c : Crypto) (k p x peer : Bytes) (a : Option (Bytes → Bool)) (s : Session)
    → Final c k p x peer (server a) s
    → (authorized a (some s.peer_public_key) ≡ true) × Signed c k x s.peer_public_key p
Final-server c k p x peer a s f =
    let (keyed, v, allowed) = f.stage in
    let same : v.key ≡ s.peer_public_key = same_of_some _ _ (sym v.key_is ∙ f.named) in
    (
      ap (authorized a) (sym f.named) ∙ allowed,
      subst (λ key. Signed c k x key p) same (Vouched-Signed c k p x f.impl v f.owns),
    )

pub Final-client :
    (c : Crypto) (k p x peer : Bytes) (s : Session)
    → Final c k p x peer client s
    → (s.peer_public_key ≡ peer) × ((mine : Bytes) × Signed c k x peer (mine ++ p))
Final-client c k p x peer s f =
    let (asked, keyed, v, auth) = f.stage in
    let own : Shs.Shs = f.impl in
    let mine : Bytes = c.sign own.signing_key (own.app_id ++ peer ++ v.x) in
    let made : v.h ≡ mine ++ own.public_key =
      same_of_some _ _ (sym v.h_is ∙ auth ∙ ap (auth_of c peer own) v.x_is) in
    (
      same_of_some _ _ (sym f.named ∙ asked),
      (mine, Confirmed-Signed c k p x own v peer mine f.owns asked made),
    )
